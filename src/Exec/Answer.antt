-- ===== src/Exec/Answer.antt =====
-- What a request is answered: the value of the last `complete`, and an error only where there was none
-- and nothing is left that could complete it.
use blueboat.Prelude.{
  ℕ, zero, suc, Bool, true, false, List, [], ◌∷◌, Option, none, some, some_inj, subst, sym, ◌≡◌,
  ◌≢◌, refl, arith, if◌then◌else◌, inl, inr, ◌⊎◌,
}
use blueboat.Prelude.Result.{Result, ok, err}
use blueboat.Exec.{
  HostCall, spawns, completes, logs, Ending, returns, throws, is_terminated, Executor, Entered,
  panics, nothing, value, pending, ready, spawn, complete, allocate_logseq, host_call, host_calls,
  leave, enter, wait_for_completion, task_ended, task_entered, Phase, starting, waiting, answered,
  failed, no_completion, panicked, Handler, HandlerEvent, entry, poll, task_enters, task_ends,
  after_entry, after_poll, with_exec, handler_step, last_completion, completed_by, HandlerReaches,
  starts, steps,
}

abbrev pub is_none : {A : Type 0} → Option A → Bool
is_none none = true
is_none (some a) = false

module _ {Res : Type 0} where
  -- A live executor, whose result is the last completion.
  pub record Tracks (last : Option Res) (now own : Bool) (e : Executor Res) : Type 0 where
    pub alive : e.alive ≡ true
    pub current : e.current ≡ now
    pub owner : e.owner ≡ own
    pub result : e.completed_result ≡ last
    pub guard : e.async_completion_owner ≡ is_none last

  host_call-Tracks :
      (c : HostCall Res) (last : Option Res) (own : Bool) (e : Executor Res)
      → Tracks last true own e
      → Tracks (last_completion (c ∷ []) last) true own (host_call c e)
  unfolding host_call spawn complete allocate_logseq
  host_call-Tracks spawns last own e t = ground arith
  host_call-Tracks (completes v) last own e t = ground arith
  host_call-Tracks logs last own e t = ground arith

  host_calls-Tracks :
      (cs : List (HostCall Res)) (last : Option Res) (own : Bool) (e : Executor Res)
      → Tracks last true own e
      → Tracks (last_completion cs last) true own (host_calls cs e)
  unfolding host_calls
  host_calls-Tracks [] last own e t = t
  host_calls-Tracks (spawns ∷ cs) last own e t =
      host_calls-Tracks cs last own (host_call spawns e) (host_call-Tracks spawns last own e t)
  host_calls-Tracks (completes v ∷ cs) last own e t =
      host_calls-Tracks cs (some v) own (host_call (completes v) e)
        (host_call-Tracks (completes v) last own e t)
  host_calls-Tracks (logs ∷ cs) last own e t =
      host_calls-Tracks cs last own (host_call logs e) (host_call-Tracks logs last own e t)

  leave-Tracks :
      {R : Type 0} (elapsed : ℕ) (ending : Ending) (r : R) (last : Option Res) (own : Bool)
      (e : Executor Res)
      → Tracks last true own e
      → Tracks last false own (leave elapsed ending r e).1
  unfolding leave
  leave-Tracks elapsed returns r last own e t = ground arith
  leave-Tracks elapsed throws r last own e t = ground arith
  leave-Tracks elapsed is_terminated r last own e t = ground arith

  -- On a live executor that is not entered `enter` runs its code and leaves.
  pub enter_eq :
      {R : Type 0} (elapsed : ℕ) (ending : Ending) (r : R) (cs : List (HostCall Res))
      (e : Executor Res)
      → e.alive ≡ true
      → e.current ≡ false
      → enter elapsed ending r cs e
        ≡ leave elapsed ending r (host_calls cs (record e { current = true }))
  unfolding enter
  enter_eq elapsed ending r cs e a c = rw (a, c) refl

  pub enter-Tracks :
      {R : Type 0} (elapsed : ℕ) (ending : Ending) (r : R) (cs : List (HostCall Res))
      (last : Option Res) (own : Bool) (e : Executor Res)
      → Tracks last false own e
      → Tracks (last_completion cs last) false own (enter elapsed ending r cs e).1
  enter-Tracks elapsed ending r cs last own e t =
      rw (enter_eq elapsed ending r cs e t.alive t.current) (
        leave-Tracks elapsed ending r (last_completion cs last) own
          (host_calls cs (record e { current = true }))
          (host_calls-Tracks cs last own (record e { current = true }) (ground arith)))

  enter_gone :
      {R : Type 0} (elapsed : ℕ) (ending : Ending) (r : R) (cs : List (HostCall Res))
      (e : Executor Res)
      → e.alive ≡ false
      → enter elapsed ending r cs e ≡ (nothing, e)
  unfolding enter
  enter_gone elapsed ending r cs e a = rw a refl

  -- What holds in each phase of a request.
  abbrev pub Holds : Option Res → Phase Res → Executor Res → Type 0
  Holds last starting e = Tracks last false true e
  Holds last waiting e = Tracks last false false e
  Holds last (answered v) e = (e.alive ≡ false) × (last ≡ some v)
  Holds last no_completion e = (e.alive ≡ false) × (last ≡ none) × (e.tasks ≡ 0)
  Holds last (failed m) e = e.alive ≡ false
  Holds last panicked e = e.alive ≡ false

  wait_completed :
      (v : Res) (e : Executor Res)
      → Tracks (some v) false false e
      → wait_for_completion e ≡ (ready (some v), record e { completed_result = none })
  unfolding wait_for_completion
  wait_completed v e t = ground (arith, t)

  wait_open :
      (e : Executor Res)
      → Tracks none false false e
      → (wait_for_completion e ≡ (pending, e))
        ⊎ ((wait_for_completion e ≡ (ready none, e)) × (e.tasks ≡ 0))
  unfolding wait_for_completion
  wait_open e t = ground (arith, t)

  poll-Holds :
      (last : Option Res) (e : Executor Res)
      → Holds last waiting e
      → let h' = after_poll (wait_for_completion e) in
        Holds last h'.phase h'.exec × (h'.phase ≢ panicked)
  poll-Holds none e t = elim (wait_open e t) [
    | inl same ↦ rw same (t, λ h. cc h)
    | inr (over, idle) ↦ rw over ((refl, refl, idle), λ h. cc h)
  ]
  poll-Holds (some v) e t = rw (wait_completed v e t) ((refl, refl), λ h. cc h)

  entry-Holds :
      (last : Option Res) (out : Entered (Result (Unit {0}))) (e : Executor Res)
      → Tracks last false true e
      → let h' = after_entry (out, e) in Holds last h'.phase h'.exec
  entry-Holds last panics e t = refl
  entry-Holds last nothing e t = refl
  entry-Holds last (value (err m)) e t = refl
  entry-Holds last (value (ok u)) e t = ground (arith, t)

  -- A task's end leaves all but the number of the tasks.
  ended-Holds :
      (last : Option Res) (p : Phase Res) (e : Executor Res) (n : ℕ)
      → e.tasks ≡ suc n
      → Holds last p e
      → Holds last p (record e { tasks = n })
  ended-Holds last starting e n s t = ground (arith, t)
  ended-Holds last waiting e n s t = ground (arith, t)
  ended-Holds last (answered v) e n s t = t
  ended-Holds last no_completion e n s t = absurd (omega arith)
  ended-Holds last (failed m) e n s t = t
  ended-Holds last panicked e n s t = t

  if_alive : (b : Bool) (x y : Option Res) → b ≡ true → x ≡ (if b then x else y)
  if_alive b x y h = ground arith

  if_gone : (b : Bool) (x y : Option Res) → b ≡ false → y ≡ (if b then x else y)
  if_gone b x y h = ground arith

  -- Where the executor is gone nothing changes.
  gone-Holds :
      (elapsed : ℕ) (ending : Ending) (cs : List (HostCall Res)) (last : Option Res) (p : Phase Res)
      (e : Executor Res)
      → e.alive ≡ false
      → Holds last p e
      → Holds
          (if e.alive then last_completion cs last else last)
          p
          (enter {R = Unit {0}} elapsed ending tt cs e).1
  gone-Holds elapsed ending cs last p e a t =
      subst (λ l. Holds l p (enter {R = Unit {0}} elapsed ending tt cs e).1)
        (if_gone e.alive (last_completion cs last) last a)
        (subst (λ o. Holds last p (o.1)) (sym (enter_gone {R = Unit {0}} elapsed ending tt cs e a))
          t)

  entered-Holds :
      (elapsed : ℕ) (ending : Ending) (cs : List (HostCall Res)) (last : Option Res) (p : Phase Res)
      (e : Executor Res)
      → Holds last p e
      → Holds
          (if e.alive then last_completion cs last else last)
          p
          (enter {R = Unit {0}} elapsed ending tt cs e).1
  entered-Holds elapsed ending cs last starting e t =
      subst (λ l. Tracks l false true (enter {R = Unit {0}} elapsed ending tt cs e).1)
        (if_alive e.alive (last_completion cs last) last t.alive)
        (enter-Tracks elapsed ending tt cs last true e t)
  entered-Holds elapsed ending cs last waiting e t =
      subst (λ l. Tracks l false false (enter {R = Unit {0}} elapsed ending tt cs e).1)
        (if_alive e.alive (last_completion cs last) last t.alive)
        (enter-Tracks elapsed ending tt cs last false e t)
  entered-Holds elapsed ending cs last (answered v) e t =
      gone-Holds elapsed ending cs last (answered v) e t.0 t
  entered-Holds elapsed ending cs last no_completion e t =
      gone-Holds elapsed ending cs last no_completion e t.0 t
  entered-Holds elapsed ending cs last (failed m) e t =
      gone-Holds elapsed ending cs last (failed m) e t t
  entered-Holds elapsed ending cs last panicked e t =
      gone-Holds elapsed ending cs last panicked e t t

  -- A step by a task that is in flight.
  of_task :
      (last : Option Res) (p : Phase Res) (e : Executor Res) (o : Option (Executor Res))
      (h' : Handler Res)
      → ((e' : Executor Res) → o ≡ some e' → Holds last p e')
      → with_exec (record { phase = p; exec = e }) o ≡ some h'
      → Holds last h'.phase h'.exec
  of_task last p e none h' keeps h = cc
  of_task last p e (some e') h' keeps h =
      subst (λ g. Holds last g.phase g.exec) (some_inj h) (keeps e' refl)

  entered_eq :
      (elapsed : ℕ) (ending : Ending) (cs : List (HostCall Res)) (e : Executor Res) (n : ℕ)
      (e' : Executor Res)
      → task_entered elapsed ending cs e n ≡ some e'
      → e' ≡ (enter {R = Unit {0}} elapsed ending tt cs e).1
  entered_eq elapsed ending cs e zero e' h = cc
  entered_eq elapsed ending cs e (suc n) e' h = cc

  ended_eq :
      (e : Executor Res) (n : ℕ) (e' : Executor Res)
      → task_ended e n ≡ some e'
      → (m : ℕ) × (n ≡ suc m) × (e' ≡ record e { tasks = m })
  ended_eq e zero e' h = cc
  ended_eq e (suc n) e' h = (n, refl, sym (some_inj h))

  step-Holds :
      (last : Option Res) (p : Phase Res) (e : Executor Res) (h' : Handler Res)
      (ev : HandlerEvent Res)
      → Holds last p e
      → handler_step ev p e ≡ some h'
      → Holds (completed_by ev e last) h'.phase h'.exec
  step-Holds last starting e h' (entry elapsed ending r cs) t h =
      subst (λ g. Holds (completed_by (entry elapsed ending r cs) e last) g.phase g.exec)
        (some_inj h)
        (subst
          (λ l.
            Holds l (after_entry (enter elapsed ending r cs e)).phase
              (after_entry (enter elapsed ending r cs e)).exec)
          (if_alive e.alive (last_completion cs last) last t.alive)
          (entry-Holds (last_completion cs last) (enter elapsed ending r cs e).0
            (enter elapsed ending r cs e).1 (enter-Tracks elapsed ending r cs last true e t)))
  step-Holds last waiting e h' poll t h =
      subst (λ g. Holds last g.phase g.exec) (some_inj h) (poll-Holds last e t).0
  step-Holds last p e h' (task_enters elapsed ending cs) t h =
      of_task (if e.alive then last_completion cs last else last) p e
        (task_entered elapsed ending cs e e.tasks) h'
        (λ e' q.
          subst (Holds (if e.alive then last_completion cs last else last) p)
            (sym (entered_eq elapsed ending cs e e.tasks e' q))
            (entered-Holds elapsed ending cs last p e t))
        h
  step-Holds last p e h' task_ends t h =
      of_task last p e (task_ended e e.tasks) h'
        (λ e' q.
          let (n, count, same) = ended_eq e e.tasks e' q in
          subst (Holds last p) (sym same) (ended-Holds last p e n count t))
        h
  step-Holds last p e h' poll t h = cc
  step-Holds last p e h' (entry elapsed ending r cs) t h = cc

  pub HandlerReaches-Holds :
      (last : Option Res) (h : Handler Res) → HandlerReaches last h → Holds last h.phase h.exec
  HandlerReaches-Holds last h starts = record {
    alive = refl;
    current = refl;
    owner = refl;
    result = refl;
    guard = refl;
  }
  HandlerReaches-Holds last h (steps l g _ ev r s) =
      step-Holds l g.phase g.exec h ev (HandlerReaches-Holds l g r) s

  poll_safe :
      (last : Option Res) (p : Phase Res) (e : Executor Res) (h' : Handler Res)
      → Holds last p e
      → handler_step poll p e ≡ some h'
      → h'.phase ≢ panicked
  poll_safe last waiting e h' t h =
      subst (λ (g : Handler Res). g.phase ≢ panicked) (some_inj h) (poll-Holds last e t).1
  poll_safe last p e h' t h = cc

  -- In every order of the entry, the polls of the handler and the steps of its tasks: a request that is
  -- answered is answered the value that `complete` was given last; a request ends with the completion
  -- error only where `complete` was never called and no task is in flight; and no poll of
  -- `wait_for_completion` panics.
  pub request_answer :
      (last : Option Res) (h : Handler Res)
      → HandlerReaches last h
      → ((v : Res) → h.phase ≡ answered v → last ≡ some v)
        × (h.phase ≡ no_completion → (last ≡ none) × (h.exec.tasks ≡ 0))
        × ((h' : Handler Res) → handler_step poll h.phase h.exec ≡ some h' → h'.phase ≢ panicked)
  request_answer last h r =
      let t = HandlerReaches-Holds last h r in
      (
        λ v e. (subst (λ p. Holds last p h.exec) e t).1,
        λ e. let (gone, never, idle) = subst (λ p. Holds last p h.exec) e t in (never, idle),
        λ h' s. poll_safe last h.phase h.exec h' t s,
      )
