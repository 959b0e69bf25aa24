-- ===== src/ReliableChannel/Steps.antt =====
-- The invariant of a channel: an id is that of one call in flight at most, its callback is in the map
-- from its registration to its delivery, and a response is the handler's to the request of the id.
use blueboat.Prelude.{
  ℕ, ◌+◌, ◌≤◌, ◌<◌, ◌^◌, true, List, [], ◌∷◌, ◌++◌, Option, none, some, ◌==◌, All, Bool-cases, inl,
  inr, ◌≡◌, refl, arith, length,
}
use blueboat.ReliableChannel.{RchState, max_concurrency, created, callback, reserved_id, sent}
use blueboat.ReliableChannel.Calls.{
  hit, count, count-append, All-append, IsPick, pick-All, pick-count,
}

abbrev pub listed {ℓ} : {A : Type ℓ} → Option A → List A
listed none = []
listed (some a) = a ∷ []

module _ {Req Rsp World : Type 0} (handle : World → Req → Rsp) where
  -- The calls in flight with an id.
  abbrev pub in_flight : ℕ → RchState Req Rsp → ℕ
  in_flight id s =
      count id s.reserved
      + (count id s.registered
          + (count id s.requests
              + (count id (listed s.received) + (count id s.running + count id s.responses))))

  -- The call with the id waits for the answer to the request.
  abbrev pub IsWaiting : List (ℕ × Req) → ℕ × Req → Type 0
  IsWaiting cb e = callback (e.0) cb ≡ some (e.1)

  abbrev pub IsNew : List (ℕ × Req) → ℕ × Req → Type 0
  IsNew cb e = callback (e.0) cb ≡ none

  abbrev pub IsAnswer : List (ℕ × Req) → ℕ × Rsp → Type 0
  IsAnswer cb e = (q : Req) × (callback (e.0) cb ≡ some q) × (w : World) × (handle w q ≡ e.1)

  abbrev pub IsAnswered : Req × Rsp → Type 0
  IsAnswered d = (w : World) × (handle w (d.0) ≡ d.1)

  pub record Tracks (n : ℕ) (s : RchState Req Rsp) : Type 0 where
    pub counted : s.next_id ≡ n + 1
    pub unique : (id : ℕ) → in_flight id s ≤ 1
    pub unused : (id : ℕ) → s.next_id ≤ id → (in_flight id s ≡ 0) × (callback id s.cb ≡ none)
    pub new : All (IsNew s.cb) s.reserved
    pub registered_wait : All (IsWaiting s.cb) s.registered
    pub requests_wait : All (IsWaiting s.cb) s.requests
    pub received_waits : All (IsWaiting s.cb) (listed s.received)
    pub running_wait : All (IsWaiting s.cb) s.running
    pub answers : All (IsAnswer s.cb) s.responses
    pub done : All IsAnswered s.delivered
    pub permits : length s.running + s.concurrency ≡ max_concurrency

  pub created-Tracks : Tracks 0 (created handle)
  unfolding callback
  created-Tracks = record {
    counted = refl;
    unique = λ id. omega arith;
    unused = λ id h. (refl, refl);
    new = tt;
    registered_wait = tt;
    requests_wait = tt;
    received_waits = tt;
    running_wait = tt;
    answers = tt;
    done = tt;
    permits = refl;
  }

  le_of_== : (a b : ℕ) → (a == b) ≡ true → a ≤ b
  le_of_== a b h = ground arith

  hit_new : (id next f : ℕ) → (next ≤ id → f ≡ 0) → f ≤ 1 → hit id next + f ≤ 1
  hit_new id next f z u = elim (Bool-cases (next == id)) [
    | inl e ↦ rw e (omega (arith, z (le_of_== next id e)))
    | inr e ↦ rw e (omega arith)
  ]

  hit_above : (id next : ℕ) → next < id → hit id next ≡ 0
  hit_above id next h = ground arith

  pub reserve-Tracks :
      (n : ℕ) (s : RchState Req Rsp) (q : Req)
      → n + 2 < 2 ^ 64
      → Tracks n s
      → Tracks (n + 1) (reserved_id handle s q)
  reserve-Tracks n s q small t =
      let c = t.counted in
      record {
        counted = omega arith;
        unique = λ id.
            omega
              (arith, hit_new id s.next_id (in_flight id s) (λ h. (t.unused id h).0) (t.unique id));
        unused = λ id h. (
          omega (arith, hit_above id s.next_id (omega arith), (t.unused id (omega arith)).0),
          (t.unused id (omega arith)).1,
        );
        new = ((t.unused s.next_id (omega arith)).1, t.new);
        registered_wait = t.registered_wait;
        requests_wait = t.requests_wait;
        received_waits = t.received_waits;
        running_wait = t.running_wait;
        answers = t.answers;
        done = t.done;
        permits = t.permits;
      }

  pub send-Tracks :
      (n : ℕ) (s : RchState Req Rsp) (e : ℕ × Req) (others : List (ℕ × Req))
      → IsPick s.registered e others
      → Tracks n s
      → Tracks n (sent handle s others (s.requests ++ e ∷ []))
  send-Tracks n s e others p t =
      let (waits, rest) = pick-All (IsWaiting s.cb) p t.registered_wait in
      record {
        counted = t.counted;
        unique =
            λ id. omega (arith, t.unique id, pick-count id p, count-append id s.requests (e ∷ []));
        unused = λ id h. (
          omega (arith, (t.unused id h).0, pick-count id p, count-append id s.requests (e ∷ [])),
          (t.unused id h).1,
        );
        new = t.new;
        registered_wait = rest;
        requests_wait = All-append (IsWaiting s.cb) s.requests (e ∷ []) t.requests_wait (waits, tt);
        received_waits = t.received_waits;
        running_wait = t.running_wait;
        answers = t.answers;
        done = t.done;
        permits = t.permits;
      }

  pub fail_send-Tracks :
      (n : ℕ) (s : RchState Req Rsp) (e : ℕ × Req) (others : List (ℕ × Req))
      → IsPick s.registered e others
      → Tracks n s
      → Tracks n (sent handle s others s.requests)
  fail_send-Tracks n s e others p t = record {
    counted = t.counted;
    unique = λ id. omega (arith, t.unique id, pick-count id p);
    unused = λ id h. (omega (arith, (t.unused id h).0, pick-count id p), (t.unused id h).1);
    new = t.new;
    registered_wait = (pick-All (IsWaiting s.cb) p t.registered_wait).1;
    requests_wait = t.requests_wait;
    received_waits = t.received_waits;
    running_wait = t.running_wait;
    answers = t.answers;
    done = t.done;
    permits = t.permits;
  }
