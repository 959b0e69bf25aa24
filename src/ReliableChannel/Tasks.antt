-- ===== src/ReliableChannel/Tasks.antt =====
-- The invariant of a channel through the steps of the server's side.
use blueboat.Prelude.{
  ℕ, zero, suc, List, [], ◌∷◌, ◌++◌, Option, none, some, some_inj, All, subst, ◌≡◌, refl, ap, arith,
}
use blueboat.ReliableChannel.{RchState, received_from, spawned, answered}
use blueboat.ReliableChannel.Calls.{
  count, count-append, All-append, IsPick, pick-All, pick-count, pick-length,
}
use blueboat.ReliableChannel.Steps.{listed, IsWaiting, IsAnswer, Tracks}

module _ {Req Rsp World : Type 0} (handle : World → Req → Rsp) where
  pub answer-Tracks :
      (n : ℕ) (s : RchState Req Rsp) (e : ℕ × Req) (others : List (ℕ × Req)) (w : World)
      → IsPick s.running e others
      → Tracks handle n s
      → Tracks handle n (answered handle s others (s.responses ++ (e.0, handle w (e.1)) ∷ []))
  answer-Tracks n s e others w p t =
      let (waits, rest) = pick-All (IsWaiting handle s.cb) p t.running_wait in
      record {
        counted = t.counted;
        unique = λ id. omega (
          arith,
          t.unique id,
          pick-count id p,
          count-append id s.responses ((e.0, handle w (e.1)) ∷ []),
        );
        unused = λ id h. (
          omega (
            arith,
            (t.unused id h).0,
            pick-count id p,
            count-append id s.responses ((e.0, handle w (e.1)) ∷ []),
          ),
          (t.unused id h).1,
        );
        new = t.new;
        registered_wait = t.registered_wait;
        requests_wait = t.requests_wait;
        received_waits = t.received_waits;
        running_wait = rest;
        answers =
            All-append (IsAnswer handle s.cb) s.responses ((e.0, handle w (e.1)) ∷ []) t.answers
              ((e.1, waits, w, refl), tt);
        done = t.done;
        permits = omega (arith, t.permits, pick-length p);
      }

  pub fail_answer-Tracks :
      (n : ℕ) (s : RchState Req Rsp) (e : ℕ × Req) (others : List (ℕ × Req))
      → IsPick s.running e others
      → Tracks handle n s
      → Tracks handle n (answered handle s others s.responses)
  fail_answer-Tracks n s e others p t = record {
    counted = t.counted;
    unique = λ id. omega (arith, t.unique id, pick-count id p);
    unused = λ id h. (omega (arith, (t.unused id h).0, pick-count id p), (t.unused id h).1);
    new = t.new;
    registered_wait = t.registered_wait;
    requests_wait = t.requests_wait;
    received_waits = t.received_waits;
    running_wait = (pick-All (IsWaiting handle s.cb) p t.running_wait).1;
    answers = t.answers;
    done = t.done;
    permits = omega (arith, t.permits, pick-length p);
  }

  pub receive-Tracks :
      (n : ℕ) (s : RchState Req Rsp) (s' : RchState Req Rsp) (received : Option (ℕ × Req))
      (requests : List (ℕ × Req))
      → s.received ≡ received
      → s.requests ≡ requests
      → received_from handle s received requests ≡ some s'
      → Tracks handle n s
      → Tracks handle n s'
  receive-Tracks n s s' (some e) q a b h t = cc
  receive-Tracks n s s' none [] a b h t = cc
  receive-Tracks n s s' none (e ∷ q) a b h t =
      let (waits, rest) = subst (All (IsWaiting handle s.cb)) b t.requests_wait in
      subst (Tracks handle n) (some_inj h) (record {
        counted = t.counted;
        unique = λ id. omega (arith, t.unique id, ap (count id) b, ap (λ o. count id (listed o)) a);
        unused = λ id h. (
          omega (arith, (t.unused id h).0, ap (count id) b, ap (λ o. count id (listed o)) a),
          (t.unused id h).1,
        );
        new = t.new;
        registered_wait = t.registered_wait;
        requests_wait = rest;
        received_waits = (waits, tt);
        running_wait = t.running_wait;
        answers = t.answers;
        done = t.done;
        permits = t.permits;
      })

  pub spawn-Tracks :
      (n : ℕ) (s s' : RchState Req Rsp) (received : Option (ℕ × Req)) (permits : ℕ)
      → s.received ≡ received
      → s.concurrency ≡ permits
      → spawned handle s received permits ≡ some s'
      → Tracks handle n s
      → Tracks handle n s'
  spawn-Tracks n s s' none p a b h t = cc
  spawn-Tracks n s s' (some e) zero a b h t = cc
  spawn-Tracks n s s' (some e) (suc p) a b h t =
      let waits = subst (λ o. All (IsWaiting handle s.cb) (listed o)) a t.received_waits in
      subst (Tracks handle n) (some_inj h) (record {
        counted = t.counted;
        unique = λ id. omega (arith, t.unique id, ap (λ o. count id (listed o)) a);
        unused = λ id h.
            (omega (arith, (t.unused id h).0, ap (λ o. count id (listed o)) a), (t.unused id h).1);
        new = t.new;
        registered_wait = t.registered_wait;
        requests_wait = t.requests_wait;
        received_waits = tt;
        running_wait = (waits.0, t.running_wait);
        answers = t.answers;
        done = t.done;
        permits = omega (arith, t.permits);
      })
