-- ===== src/Tests/ReliableChannel.antt =====
-- Two calls over a channel whose handler adds the state of the world to the request.
use blueboat.Prelude.{
  ℕ, ◌+◌, ◌≤◌, List, [], ◌∷◌, Option, none, some, Option-cases, inl, inr, and_then, All, length,
  ◌≡◌, ◌≢◌, refl, arith, some_inj, subst,
}
use blueboat.ReliableChannel.{
  RchState, RchEvent, reserve, register, send, receive, spawn, answer, deliver, max_concurrency,
  created, step, calls_of, RchReaches, starts, steps, pick, callback, unregister,
}
use blueboat.ReliableChannel.Steps.{IsAnswered}
use blueboat.ReliableChannel.Delivery.{rch_delivers}

module _ {Req Rsp World : Type 0} (handle : World → Req → Rsp) where
  abbrev run : List (RchEvent Req World) → RchState Req Rsp → Option (RchState Req Rsp)
  run [] s = some s
  run (e ∷ es) s = and_then (step handle e s) (λ s'. run es s')

  abbrev calls_in : List (RchEvent Req World) → ℕ → ℕ
  calls_in [] n = n
  calls_in (e ∷ es) n = calls_in es (calls_of handle e + n)

  run-RchReaches :
      (es : List (RchEvent Req World)) (n : ℕ) (s s' : RchState Req Rsp)
      → RchReaches handle n s
      → run es s ≡ some s'
      → RchReaches handle (calls_in es n) s'
  run-RchReaches [] n s s' r h = subst (RchReaches handle n) (some_inj h) r
  run-RchReaches (e ∷ es) n s s' r h = elim (Option-cases (step handle e s)) [
    | inl stuck ↦ absurd (none_ne_some (rw stuck at h))
    | inr (t, goes) ↦
        run-RchReaches es (calls_of handle e + n) t s' (steps n s t e r goes) (rw goes at h)
  ]
    where
      none_ne_some : none ≡ some s' → ⊥
      none_ne_some h = cc

abbrev add : ℕ → ℕ → ℕ
add w q = w + q

-- The second call is answered first, and waits to be delivered; the first has been delivered.
abbrev events : List (RchEvent ℕ ℕ)
events =
    reserve 10
    ∷ reserve 20
    ∷ register 0
    ∷ register 0
    ∷ send 0
    ∷ send 0
    ∷ receive
    ∷ spawn
    ∷ receive
    ∷ spawn
    ∷ answer 1 5
    ∷ answer 0 7
    ∷ deliver
    ∷ []

abbrev last_state : RchState ℕ ℕ
last_state = record {
  next_id = 3;
  reserved = [];
  registered = [];
  cb = (2, 20) ∷ [];
  requests = [];
  received = none;
  running = [];
  concurrency = 8;
  responses = (2, 27) ∷ [];
  delivered = (10, 15) ∷ [];
}

last_state-RchReaches : RchReaches add 2 last_state
unfolding pick callback unregister
last_state-RchReaches = run-RchReaches add events 0 (created add) last_state starts refl

rch_delivers_example :
    All (IsAnswered add) last_state.delivered
    × (length last_state.running ≤ max_concurrency)
    × (last_state.responses ≢ [] → (s' : RchState ℕ ℕ) × (step add deliver last_state ≡ some s'))
rch_delivers_example = rch_delivers add 2 last_state last_state-RchReaches (omega arith)
