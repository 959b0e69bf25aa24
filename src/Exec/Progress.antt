-- ===== src/Exec/Progress.antt =====
-- A request whose tasks end is answered, or ends with an error; and how the entry of a request ends.
use blueboat.Prelude.{
  ℕ, zero, suc, false, List, [], ◌∷◌, ◌++◌, Option, none, some, subst, ap, and_then, replicate, ◌≡◌,
  refl, arith,
}
use blueboat.Exec.{
  Executor, wait_for_completion, task_ended, Phase, waiting, answered, no_completion, Handler,
  HandlerEvent, poll, task_ends, after_poll, with_exec, handler_step, HandlerReaches,
}
use blueboat.Exec.Answer.{Tracks, Holds, HandlerReaches-Holds}

module _ {Res : Type 0} where
  abbrev pub run : List (HandlerEvent Res) → Handler Res → Option (Handler Res)
  run [] h = some h
  run (ev ∷ evs) h = and_then (handler_step ev h.phase h.exec) (λ h'. run evs h')

  -- How a request ends from its last completion.
  abbrev pub outcome : Option Res → Phase Res
  outcome none = no_completion
  outcome (some v) = answered v

  idle_poll :
      (last : Option Res) (e : Executor Res)
      → Tracks last false false e
      → e.tasks ≡ 0
      → (after_poll (wait_for_completion e)).phase ≡ outcome last
  unfolding wait_for_completion
  idle_poll none e t idle = ground (arith, t)
  idle_poll (some v) e t idle = ground (arith, t)

  run_waiting :
      (last : Option Res) (n : ℕ) (e : Executor Res)
      → e.tasks ≡ n
      → Tracks last false false e
      → (h' : Handler Res) × (run
            (replicate n task_ends ++ poll ∷ [])
            (record { phase = waiting; exec = e })
          ≡ some h')
        × (h'.phase ≡ outcome last)
  run_waiting last zero e count t =
      (after_poll (wait_for_completion e), refl, idle_poll last e t count)
  run_waiting last (suc n) e count t =
      let (h', goes, ends) = run_waiting last n (record e { tasks = n }) refl (ground (arith, t)) in
      (h', rw (ends_step e n count) goes, ends)
    where
      ends_step :
          (e : Executor Res) (n : ℕ)
          → e.tasks ≡ suc n
          → handler_step task_ends waiting e
            ≡ some (record { phase = waiting; exec = record e { tasks = n } })
      ends_step e n count =
          ap (λ (k : ℕ). with_exec (record { phase = waiting; exec = e }) (task_ended e k)) count

  -- From every state in which a request waits, once each of the tasks in flight has ended the next poll
  -- ends the request: with the value that was completed last, or with the completion error.
  pub request_progress :
      (last : Option Res) (h : Handler Res)
      → HandlerReaches last h
      → h.phase ≡ waiting
      → (h' : Handler Res) × (run
            (replicate h.exec.tasks task_ends ++ poll ∷ [])
            (record { phase = waiting; exec = h.exec })
          ≡ some h')
        × (h'.phase ≡ outcome last)
  request_progress last h r w =
      run_waiting last h.exec.tasks h.exec refl
        (subst (λ p. Holds last p h.exec) w (HandlerReaches-Holds last h r))
