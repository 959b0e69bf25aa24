-- ===== src/Exec.antt =====
-- src/exec.rs and `handle_with_cancellation` of src/ipc.rs: the executor of one request in a worker, on
-- the worker's single-threaded runtime. The locks whose guards are only held or dropped (`async_kill`,
-- `async_completion`, `spawn_activity`) are kept as what holds them. What V8 does inside `enter` is the
-- list of the host calls that it makes, and how it ends.
pub mod Fence
pub mod Answer
pub mod Progress
use blueboat.Prelude.{
  ℕ, zero, suc, ◌+◌, ◌-◌, ◌%◌, ◌^◌, Bytes, Bool, true, false, not, ◌&&◌, ◌||◌, List, [], ◌∷◌,
  Option, none, some, ltb, if◌then◌else◌, ◌≡◌,
}
use blueboat.Prelude.Result.{Result, ok, err}

-- The host calls that touch the executor: a task for an asynchronous operation, `complete`, `log`.
pub data HostCall (Res : Type 0) : Type 0 where
  spawns : HostCall Res
  completes : Res → HostCall Res
  logs : HostCall Res

-- How the code that `enter` runs ends.
pub data Ending : Type 0 where
  returns : Ending
  throws : Ending
  is_terminated : Ending

pub record Executor (Res : Type 0) : Type 0 where
  -- Whether a strong reference is left, so that an upgrade of a weak one succeeds.
  pub alive : Bool
  -- The guard of `spawn_activity`: the owner that `new` gives out, and the tasks that share it.
  pub owner : Bool
  pub tasks : ℕ
  pub async_completion_owner : Bool
  pub completed_result : Option Res
  pub busy_duration : ℕ
  pub logseq : ℕ
  -- `CURRENT`, and the contexts that `enter` has reset.
  pub current : Bool
  pub resets : ℕ

-- `panics` is the failed assertion of `make_current`, `nothing` is `None`.
pub data Entered (R : Type 0) : Type 0 where
  panics : Entered R
  nothing : Entered R
  value : R → Entered R

pub data Polled (Res : Type 0) : Type 0 where
  pending : Polled Res
  unwraps_none : Polled Res
  ready : Option Res → Polled Res

module _ {Res : Type 0} where
  abbrev pub new : Executor Res
  new = record {
    alive = true;
    owner = true;
    tasks = 0;
    async_completion_owner = true;
    completed_result = none;
    busy_duration = 0;
    logseq = 0;
    current = false;
    resets = 0;
  }

  -- Whether `spawn_activity` is locked.
  abbrev pub is_active : Executor Res → Bool
  is_active e = e.owner || ltb 0 e.tasks

  -- `spawn`: without the executor or without its activity the future is dropped.
  unfoldable pub spawn : Executor Res → Executor Res
  spawn e = if e.alive && is_active e then record e { tasks = e.tasks + 1 } else e

  unfoldable pub complete : Res → Executor Res → Executor Res
  complete v e =
      if e.alive then record e { completed_result = some v; async_completion_owner = false } else e

  -- An `i32`, as its bit pattern: the number given, and the executor.
  unfoldable pub allocate_logseq : Executor Res → ℕ × Executor Res
  allocate_logseq e = (e.logseq, record e { logseq = (e.logseq + 1) % 2 ^ 32 })

  -- A host call finds the executor in `CURRENT`.
  unfoldable pub host_call : HostCall Res → Executor Res → Executor Res
  unfolding spawn complete allocate_logseq
  host_call spawns e = if e.current then spawn e else e
  host_call (completes v) e = if e.current then complete v e else e
  host_call logs e = if e.current then (allocate_logseq e).1 else e

  unfoldable pub host_calls : List (HostCall Res) → Executor Res → Executor Res
  host_calls [] e = e
  host_calls (c ∷ cs) e = host_calls cs (host_call c e)

  -- The end of `enter`: the guard of `CURRENT` is dropped on every path.
  unfoldable pub leave : {R : Type 0} → ℕ → Ending → R → Executor Res → Entered R × Executor Res
  leave elapsed returns r e =
      (value r, record e { busy_duration = e.busy_duration + elapsed; current = false })
  leave elapsed throws r e =
      (nothing, record e { busy_duration = e.busy_duration + elapsed; current = false })
  leave elapsed is_terminated r e = (
    nothing,
    record e { busy_duration = e.busy_duration + elapsed; current = false; resets = e.resets + 1 },
  )

  -- `enter(me, f)`, where `f` makes the host calls `cs` and gives `r`.
  unfoldable pub enter :
      {R : Type 0} → ℕ → Ending → R → List (HostCall Res) → Executor Res → Entered R × Executor Res
  unfolding host_calls leave
  enter elapsed ending r cs e =
      if e.alive
      then if e.current
        then (panics, e)
        else leave elapsed ending r (host_calls cs (record e { current = true }))
      else (nothing, e)

  abbrev taken : Option Res → Executor Res → Polled Res × Executor Res
  taken none e = (unwraps_none, e)
  taken (some v) e = (ready (some v), record e { completed_result = none })

  -- One poll of `wait_for_completion`. The `select!` is biased: it asks for the completion first.
  unfoldable pub wait_for_completion : Executor Res → Polled Res × Executor Res
  wait_for_completion e =
      if not e.async_completion_owner
      then taken e.completed_result e
      else (if is_active e then pending else ready none, e)

  -- The last strong reference is dropped with the handler.
  abbrev pub dropped : Executor Res → Executor Res
  dropped e = record e { alive = false; owner = false }

  -- A poll of a spawned task after `async_kill` is released ends it, and so does its future's end.
  abbrev pub task_ended : Executor Res → ℕ → Option (Executor Res)
  task_ended e zero = none
  task_ended e (suc n) = some (record e { tasks = n })

-- What `handle_with_cancellation` is at; `failed` and `no_completion` are its errors.
pub data Phase (Res : Type 0) : Type 0 where
  starting : Phase Res
  waiting : Phase Res
  answered : Res → Phase Res
  failed : Bytes → Phase Res
  no_completion : Phase Res
  panicked : Phase Res

pub record Handler (Res : Type 0) : Type 0 where
  pub phase : Phase Res
  pub exec : Executor Res

-- The steps of the runtime: the handler's entry, its polls, and what the spawned tasks do.
pub data HandlerEvent (Res : Type 0) : Type 0 where
  entry : ℕ → Ending → Result (Unit {0}) → List (HostCall Res) → HandlerEvent Res
  poll : HandlerEvent Res
  task_enters : ℕ → Ending → List (HostCall Res) → HandlerEvent Res
  task_ends : HandlerEvent Res

module _ {Res : Type 0} where
  abbrev pub received : Handler Res
  received = record { phase = starting; exec = new }

  -- `.unwrap()?` on what the entry gave, and `drop(spawn_activity_owner)`.
  abbrev pub after_entry : Entered (Result (Unit {0})) × Executor Res → Handler Res
  after_entry (panics, e) = record { phase = panicked; exec = dropped e }
  after_entry (nothing, e) = record { phase = panicked; exec = dropped e }
  after_entry (value (err m), e) = record { phase = failed m; exec = dropped e }
  after_entry (value (ok _), e) = record { phase = waiting; exec = record e { owner = false } }

  abbrev pub after_poll : Polled Res × Executor Res → Handler Res
  after_poll (pending, e) = record { phase = waiting; exec = e }
  after_poll (unwraps_none, e) = record { phase = panicked; exec = dropped e }
  after_poll (ready none, e) = record { phase = no_completion; exec = dropped e }
  after_poll (ready (some v), e) = record { phase = answered v; exec = dropped e }

  abbrev pub with_exec : Handler Res → Option (Executor Res) → Option (Handler Res)
  with_exec h none = none
  with_exec h (some e) = some (record { phase = h.phase; exec = e })

  -- A task that calls `enter` again makes host calls like the handler.
  abbrev pub task_entered :
      ℕ → Ending → List (HostCall Res) → Executor Res → ℕ → Option (Executor Res)
  task_entered elapsed ending cs e zero = none
  task_entered elapsed ending cs e (suc n) = some (enter {R = Unit {0}} elapsed ending tt cs e).1

  -- `none`: the step cannot be made in this state.
  abbrev pub handler_step : HandlerEvent Res → Phase Res → Executor Res → Option (Handler Res)
  handler_step (entry elapsed ending r cs) starting e =
      some (after_entry (enter elapsed ending r cs e))
  handler_step poll waiting e = some (after_poll (wait_for_completion e))
  handler_step (task_enters elapsed ending cs) p e =
      with_exec (record { phase = p; exec = e }) (task_entered elapsed ending cs e e.tasks)
  handler_step task_ends p e = with_exec (record { phase = p; exec = e }) (task_ended e e.tasks)
  handler_step _ _ e = none

  -- The value that `complete` has been given last.
  abbrev pub last_completion : List (HostCall Res) → Option Res → Option Res
  last_completion [] last = last
  last_completion (completes v ∷ cs) last = last_completion cs (some v)
  last_completion (spawns ∷ cs) last = last_completion cs last
  last_completion (logs ∷ cs) last = last_completion cs last

  -- Calls count only while the executor is there: `enter` runs nothing without it.
  abbrev pub completed_by : HandlerEvent Res → Executor Res → Option Res → Option Res
  completed_by (entry elapsed ending r cs) e last =
      if e.alive then last_completion cs last else last
  completed_by (task_enters elapsed ending cs) e last =
      if e.alive then last_completion cs last else last
  completed_by poll e last = last
  completed_by task_ends e last = last

  -- The states that a request can get into, with the value that was completed last.
  pub data HandlerReaches : Option Res → Handler Res → Type 0 where
    starts : HandlerReaches none received
    steps :
        (last : Option Res) (h h' : Handler Res) (ev : HandlerEvent Res)
        → HandlerReaches last h
        → handler_step ev h.phase h.exec ≡ some h'
        → HandlerReaches (completed_by ev h.exec last) h'
