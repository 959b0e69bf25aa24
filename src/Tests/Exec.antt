-- ===== src/Tests/Exec.antt =====
-- A request whose task completes it, and a termination by the watcher.
use blueboat.Prelude.{
  ℕ, Bool, true, false, [], ◌∷◌, ◌++◌, Option, none, some, replicate, ◌≡◌, ◌≢◌, refl,
}
use blueboat.Prelude.Result.{ok}
use blueboat.Exec.{
  spawns, completes, returns, Executor, Phase, waiting, answered, no_completion, panicked, Handler,
  entry, poll, task_enters, task_ends, received, handler_step, HandlerReaches, starts, steps, spawn,
  complete, host_call, host_calls, leave, enter, wait_for_completion,
}
use blueboat.Exec.Answer.{request_answer}
use blueboat.Exec.Progress.{run, outcome, request_progress}
use blueboat.Exec.Fence.{
  Main, left, Race, RaceEvent, RaceReaches, race_start, race_step, locks, checks_fence, reports,
  unlocks, aborts, raises_fence, reads_report, holds_lock, enter_fence, Releases, aborted, fenced,
  locked, has_terminated, has_reported, over, in_code,
}
use blueboat.Exec.Fence

abbrev spawned : Executor ℕ
spawned = record {
  alive = true;
  owner = false;
  tasks = 1;
  async_completion_owner = true;
  completed_result = none;
  busy_duration = 5;
  logseq = 0;
  current = false;
  resets = 0;
}

abbrev completed : Executor ℕ
completed = record spawned {
  async_completion_owner = false;
  completed_result = some 7;
  busy_duration = 6;
}

abbrev over_by : Executor ℕ
over_by = record completed { alive = false; completed_result = none }

abbrev request : Phase ℕ → Executor ℕ → Handler ℕ
request p e = record { phase = p; exec = e }

spawned_reach : HandlerReaches none (request waiting spawned)
unfolding spawn host_call host_calls leave enter
spawned_reach =
    steps none received (request waiting spawned) (entry 5 returns (ok tt) (spawns ∷ [])) starts
      refl

completed_reach : HandlerReaches (some 7) (request waiting completed)
unfolding complete host_call host_calls leave enter
completed_reach =
    steps none (request waiting spawned) (request waiting completed)
      (task_enters 1 returns (completes 7 ∷ [])) spawned_reach refl

answered_reach : HandlerReaches (some 7) (request (answered 7) over_by)
unfolding wait_for_completion
answered_reach =
    steps (some 7) (request waiting completed) (request (answered 7) over_by) poll completed_reach
      refl

abbrev final : Handler ℕ
final = request (answered 7) over_by

request_answer_example :
    ((v : ℕ) → final.phase ≡ answered v → some 7 ≡ some v)
    × (final.phase ≡ no_completion → (◌≡◌ {A = Option ℕ} (some 7) none) × (final.exec.tasks ≡ 0))
    × ((h' : Handler ℕ) → handler_step poll final.phase final.exec ≡ some h' → h'.phase ≢ panicked)
request_answer_example = request_answer (some 7) final answered_reach

request_progress_example :
    (h' : Handler ℕ) × (run
        (replicate completed.tasks task_ends ++ poll ∷ [])
        (request waiting completed)
      ≡ some h')
    × (h'.phase ≡ outcome (some 7))
request_progress_example =
    request_progress (some 7) (request waiting completed) completed_reach refl

abbrev stopped : Main → Fence.Watcher → Bool → Bool → Race
stopped m w fence report = record {
  main = m;
  watcher = w;
  abort_fence = fence;
  terminate_report = report;
  terminated = true;
  too_late = false;
}

stopped_reach : RaceReaches (stopped (left true) over true true)
unfolding race_step
stopped_reach =
    Fence.steps (stopped fenced over true true) _ reads_report
      (Fence.steps (stopped aborted over false true) _ raises_fence
        (Fence.steps (stopped in_code over false true) _ aborts
          (Fence.steps (stopped in_code has_reported false true) _ unlocks
            (Fence.steps (stopped in_code has_terminated false false) _ reports
              (Fence.steps (record race_start { watcher = locked }) _ checks_fence
                (Fence.steps race_start _ locks Fence.starts refl) refl)
              refl)
            refl)
          refl)
        refl)
      refl

enter_fence_example :
    ((stopped (left true) over true true).too_late ≡ false)
    × ((reset : Bool) → left true ≡ left reset → reset ≡ true)
    × (holds_lock over ≡ true → Releases (stopped (left true) over true true))
enter_fence_example = enter_fence (stopped (left true) over true true) stopped_reach
