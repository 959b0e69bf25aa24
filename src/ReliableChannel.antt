-- ===== src/ReliableChannel.antt =====
-- src/reliable_channel.rs: calls from a worker to the server process over two IPC channels. The state
-- is what the threads of both sides share; an event is one atomic step of one of them. `Req` is a
-- request's body, `Rsp` the encoded result, and `handle` the body's handler in some state of the world.
-- An oneshot sender stands in the map for the call that waits, and is named by the call's request.
pub mod Calls
pub mod Steps
pub mod Tasks
pub mod Callbacks
pub mod Delivery
use blueboat.Prelude.{
  ℕ, zero, suc, ◌+◌, ◌%◌, ◌^◌, Bool, true, false, List, [], ◌∷◌, ◌++◌, Option, none, some, ◌==◌,
  if◌then◌else◌, and_then, ◌≡◌,
}

module _ {A : Type 0} where
  abbrev pub with_head : A → Option (A × List A) → Option (A × List A)
  with_head x none = none
  with_head x (some (e, ys)) = some (e, x ∷ ys)

  -- One thread's own element of those that the threads of a kind hold, and the others.
  unfoldable pub pick : ℕ → List A → Option (A × List A)
  pick i [] = none
  pick zero (x ∷ xs) = some (x, xs)
  pick (suc i) (x ∷ xs) = with_head x (pick i xs)

  -- The map of the callbacks, by their ids.
  unfoldable pub callback : ℕ → List (ℕ × A) → Option A
  callback id [] = none
  callback id ((j, a) ∷ m) = let rest = callback id m in if j == id then some a else rest

  unfoldable pub unregister : ℕ → List (ℕ × A) → List (ℕ × A)
  unregister id [] = []
  unregister id ((j, a) ∷ m) = let rest = unregister id m in if j == id then rest else (j, a) ∷ rest

pub record RchState (Req Rsp : Type 0) : Type 0 where
  -- The counter `id`.
  pub next_id : ℕ
  -- Calls in `prepare_call`: with an id, and with a callback in the map.
  pub reserved : List (ℕ × Req)
  pub registered : List (ℕ × Req)
  pub cb : List (ℕ × Req)
  -- The channel of the requests, the request that waits for a permit, and the tasks.
  pub requests : List (ℕ × Req)
  pub received : Option (ℕ × Req)
  pub running : List (ℕ × Req)
  pub concurrency : ℕ
  -- The channel of the responses, and what the calls have been given.
  pub responses : List (ℕ × Rsp)
  pub delivered : List (Req × Rsp)

pub data RchEvent (Req World : Type 0) : Type 0 where
  reserve : Req → RchEvent Req World
  register : ℕ → RchEvent Req World
  send : ℕ → RchEvent Req World
  fail_send : ℕ → RchEvent Req World
  receive : RchEvent Req World
  spawn : RchEvent Req World
  answer : ℕ → World → RchEvent Req World
  fail_answer : ℕ → World → RchEvent Req World
  deliver : RchEvent Req World

abbrev pub max_concurrency : ℕ
max_concurrency = 8

module _ {Req Rsp World : Type 0} (handle : World → Req → Rsp) where
  abbrev pub State : Type 0
  State = RchState Req Rsp

  abbrev pub created : State
  created = record {
    next_id = 1;
    reserved = [];
    registered = [];
    cb = [];
    requests = [];
    received = none;
    running = [];
    concurrency = max_concurrency;
    responses = [];
    delivered = [];
  }

  -- `fetch_add`.
  abbrev pub reserved_id : State → Req → State
  reserved_id s q = record {
    next_id = (s.next_id + 1) % 2 ^ 64;
    reserved = (s.next_id, q) ∷ s.reserved;
    registered = s.registered;
    cb = s.cb;
    requests = s.requests;
    received = s.received;
    running = s.running;
    concurrency = s.concurrency;
    responses = s.responses;
    delivered = s.delivered;
  }

  -- `cb.lock().insert`.
  abbrev pub registered_call : State → (ℕ × Req) × List (ℕ × Req) → State
  registered_call s (e, others) = record {
    next_id = s.next_id;
    reserved = others;
    registered = e ∷ s.registered;
    cb = e ∷ unregister (e.0) s.cb;
    requests = s.requests;
    received = s.received;
    running = s.running;
    concurrency = s.concurrency;
    responses = s.responses;
    delivered = s.delivered;
  }

  -- `tx.lock().send`: a failure leaves the callback in the map.
  abbrev pub sent : State → List (ℕ × Req) → List (ℕ × Req) → State
  sent s others requests = record {
    next_id = s.next_id;
    reserved = s.reserved;
    registered = others;
    cb = s.cb;
    requests = requests;
    received = s.received;
    running = s.running;
    concurrency = s.concurrency;
    responses = s.responses;
    delivered = s.delivered;
  }

  -- `req_rx.recv()`, by the loop that waits for no permit.
  abbrev pub received_from : State → Option (ℕ × Req) → List (ℕ × Req) → Option State
  received_from s (some e) q = none
  received_from s none [] = none
  received_from s none (e ∷ q) = some (record {
    next_id = s.next_id;
    reserved = s.reserved;
    registered = s.registered;
    cb = s.cb;
    requests = q;
    received = some e;
    running = s.running;
    concurrency = s.concurrency;
    responses = s.responses;
    delivered = s.delivered;
  })

  -- `acquire_owned` and `handle.spawn`.
  abbrev pub spawned : State → Option (ℕ × Req) → ℕ → Option State
  spawned s none permits = none
  spawned s (some e) zero = none
  spawned s (some e) (suc permits) = some (record {
    next_id = s.next_id;
    reserved = s.reserved;
    registered = s.registered;
    cb = s.cb;
    requests = s.requests;
    received = none;
    running = e ∷ s.running;
    concurrency = permits;
    responses = s.responses;
    delivered = s.delivered;
  })

  -- The end of a task: `rsp_tx.lock().send`, and the permit is dropped.
  abbrev pub answered : State → List (ℕ × Req) → List (ℕ × Rsp) → State
  answered s others responses = record {
    next_id = s.next_id;
    reserved = s.reserved;
    registered = s.registered;
    cb = s.cb;
    requests = s.requests;
    received = s.received;
    running = others;
    concurrency = s.concurrency + 1;
    responses = responses;
    delivered = s.delivered;
  }

  -- The receiving thread of `run_forever`; it panics where there is no callback.
  abbrev pub delivered_to : State → ℕ → Rsp → List (ℕ × Rsp) → Option Req → Option State
  delivered_to s id r rest none = none
  delivered_to s id r rest (some q) = some (record {
    next_id = s.next_id;
    reserved = s.reserved;
    registered = s.registered;
    cb = unregister id s.cb;
    requests = s.requests;
    received = s.received;
    running = s.running;
    concurrency = s.concurrency;
    responses = rest;
    delivered = (q, r) ∷ s.delivered;
  })

  abbrev pub deliver_head : State → List (ℕ × Rsp) → Option State
  deliver_head s [] = none
  deliver_head s ((id, r) ∷ rest) = delivered_to s id r rest (callback id s.cb)

  abbrev pub step : RchEvent Req World → State → Option State
  step (reserve q) s = some (reserved_id s q)
  step (register i) s = and_then (pick i s.reserved) (λ p. some (registered_call s p))
  step (send i) s =
      and_then (pick i s.registered) (λ p. some (sent s (p.1) (s.requests ++ p.0 ∷ [])))
  step (fail_send i) s = and_then (pick i s.registered) (λ p. some (sent s (p.1) s.requests))
  step receive s = received_from s s.received s.requests
  step spawn s = spawned s s.received s.concurrency
  step (answer i w) s =
      and_then (pick i s.running)
        (λ p. some (answered s (p.1) (s.responses ++ (p.0.0, handle w (p.0.1)) ∷ [])))
  step (fail_answer i w) s = and_then (pick i s.running) (λ p. some (answered s (p.1) s.responses))
  step deliver s = deliver_head s s.responses

  abbrev pub calls_of : RchEvent Req World → ℕ
  calls_of (reserve q) = 1
  calls_of _ = 0

  -- The states that a channel can get into, with the number of the calls so far.
  pub data RchReaches : ℕ → State → Type 0 where
    starts : RchReaches 0 created
    steps :
        (n : ℕ) (s s' : State) (e : RchEvent Req World)
        → RchReaches n s
        → step e s ≡ some s'
        → RchReaches (calls_of e + n) s'
