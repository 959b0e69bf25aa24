-- ===== src/ReliableChannel/Delivery.antt =====
-- What a channel promises: a call is given the answer to its own request, in any interleaving.
use blueboat.Prelude.{
  ℕ, ◌+◌, ◌≤◌, ◌<◌, ◌^◌, List, [], ◌∷◌, ◌++◌, none, some, some_inj, and_then, All, Option-cases,
  inl, inr, subst, ◌≡◌, ◌≢◌, refl, ap, arith, length,
}
use blueboat.ReliableChannel.{
  RchState, RchEvent, reserve, register, send, fail_send, receive, spawn, answer, fail_answer,
  deliver, max_concurrency, pick, delivered_to, deliver_head, step, calls_of, RchReaches, starts,
  steps, registered_call, sent, answered,
}
use blueboat.ReliableChannel.Calls.{IsPick, pick-IsPick}
use blueboat.ReliableChannel.Steps.{
  IsAnswer, IsAnswered, Tracks, created-Tracks, reserve-Tracks, send-Tracks, fail_send-Tracks,
}
use blueboat.ReliableChannel.Tasks.{answer-Tracks, fail_answer-Tracks, receive-Tracks, spawn-Tracks}
use blueboat.ReliableChannel.Callbacks.{register-Tracks, deliver-Tracks}

module _ {Req Rsp World : Type 0} (handle : World → Req → Rsp) where
  -- A step of a thread that picks its own element.
  picked :
      (n : ℕ) (i : ℕ) (xs : List (ℕ × Req)) (f : (ℕ × Req) × List (ℕ × Req) → RchState Req Rsp)
      (s' : RchState Req Rsp)
      → ((e : ℕ × Req) (others : List (ℕ × Req))
          → IsPick xs e others
          → Tracks handle n (f (e, others)))
      → and_then (pick i xs) (λ p. some (f p)) ≡ some s'
      → Tracks handle n s'
  picked n i xs f s' keeps h = elim (Option-cases (pick i xs)) [
    | inl gone ↦ absurd (none_ne_some (rw gone at h))
    | inr (p, at) ↦
        subst (Tracks handle n) (some_inj (rw at at h))
          (keeps (p.0) (p.1) (pick-IsPick i xs (p.0) (p.1) at))
  ]
    where
      none_ne_some : none ≡ some s' → ⊥
      none_ne_some h = cc

  delivered_Tracks :
      (n : ℕ) (s s' : RchState Req Rsp) (rs : List (ℕ × Rsp))
      → s.responses ≡ rs
      → deliver_head handle s rs ≡ some s'
      → Tracks handle n s
      → Tracks handle n s'
  delivered_Tracks n s s' [] head h t = cc
  delivered_Tracks n s s' ((id, r) ∷ rest) head h t =
      let ((q, there, w, same), others) = subst (All (IsAnswer handle s.cb)) head t.answers in
      deliver-Tracks handle n s s' id r rest q head there (rw there at h) t

  zeroed : {n : ℕ} {s : RchState Req Rsp} → Tracks handle n s → Tracks handle (0 + n) s
  zeroed {s = s} t = subst (λ k. Tracks handle k s) (omega arith) t

  -- Every step of a channel keeps the invariant, while the counter does not wrap round.
  step-Tracks :
      (n : ℕ) (s s' : RchState Req Rsp) (e : RchEvent Req World)
      → calls_of handle e + (n + 1) < 2 ^ 64
      → Tracks handle n s
      → step handle e s ≡ some s'
      → Tracks handle (calls_of handle e + n) s'
  step-Tracks n s s' (reserve q) small t h =
      subst (λ k. Tracks handle k s') (omega arith)
        (subst (Tracks handle (n + 1)) (some_inj h) (reserve-Tracks handle n s q (omega arith) t))
  step-Tracks n s s' (register i) small t h = zeroed (
      picked n i s.reserved (registered_call handle s) s'
        (λ e others p. register-Tracks handle n s e others p t) h)
  step-Tracks n s s' (send i) small t h = zeroed (
      picked n i s.registered (λ p. sent handle s (p.1) (s.requests ++ p.0 ∷ [])) s'
        (λ e others p. send-Tracks handle n s e others p t) h)
  step-Tracks n s s' (fail_send i) small t h = zeroed (
      picked n i s.registered (λ p. sent handle s (p.1) s.requests) s'
        (λ e others p. fail_send-Tracks handle n s e others p t) h)
  step-Tracks n s s' receive small t h =
      zeroed (receive-Tracks handle n s s' s.received s.requests refl refl h t)
  step-Tracks n s s' spawn small t h =
      zeroed (spawn-Tracks handle n s s' s.received s.concurrency refl refl h t)
  step-Tracks n s s' (answer i w) small t h = zeroed (
      picked n i s.running
        (λ p. answered handle s (p.1) (s.responses ++ (p.0.0, handle w (p.0.1)) ∷ [])) s'
        (λ e others p. answer-Tracks handle n s e others w p t) h)
  step-Tracks n s s' (fail_answer i w) small t h = zeroed (
      picked n i s.running (λ p. answered handle s (p.1) s.responses) s'
        (λ e others p. fail_answer-Tracks handle n s e others p t) h)
  step-Tracks n s s' deliver small t h = zeroed (delivered_Tracks n s s' s.responses refl h t)

  RchReaches-Tracks :
      (n : ℕ) (s : RchState Req Rsp) → RchReaches handle n s → n + 1 < 2 ^ 64 → Tracks handle n s
  RchReaches-Tracks n s starts small = created-Tracks handle
  RchReaches-Tracks n s (steps k s₀ _ e r h) small =
      step-Tracks k s₀ s e (omega arith) (RchReaches-Tracks k s₀ r (omega arith)) h

  -- While the 64-bit counter of the calls has not wrapped round, in every state that any interleaving of
  -- the threads leads to: each delivered result is what the handler gave for the request of the very
  -- call that got it, at most eight handlers run at once, and the receiving thread finds the callback
  -- of the next response, so that it does not panic.
  pub rch_delivers :
      (n : ℕ) (s : RchState Req Rsp)
      → RchReaches handle n s
      → n + 1 < 2 ^ 64
      → All (IsAnswered handle) s.delivered
        × (length s.running ≤ max_concurrency)
        × (s.responses ≢ [] → (s' : RchState Req Rsp) × (step handle deliver s ≡ some s'))
  rch_delivers n s r small =
      let t = RchReaches-Tracks n s r small in
      (t.done, omega (arith, t.permits), deliverable s.responses t.answers)
    where
      deliverable :
          (rs : List (ℕ × Rsp))
          → All (IsAnswer handle s.cb) rs
          → rs ≢ []
          → (s' : RchState Req Rsp) × (deliver_head handle s rs ≡ some s')
      deliverable [] a h = absurd (h refl)
      deliverable ((id, r) ∷ rest) a h =
          let ((q, there, w, same), others) = a in (_, ap (delivered_to handle s id r rest) there)
