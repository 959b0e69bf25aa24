-- ===== src/Exec/Fence.antt =====
-- src/exec.rs: the two threads of `enter`, the one that runs the code and the task that watches for a
-- cancellation, around the lock of `abort_fence`. An event is one atomic step of one of them.
use blueboat.Prelude.{
  Bool, true, false, Option, none, some, ◌≡◌, refl, arith, if◌then◌else◌, Bool-cases, inl, inr,
  List, [], ◌∷◌, All, ap, ◌∙◌, and_then,
}

-- Where the thread of `enter` is: in the code, after `abort()` of the watcher, with the fence raised,
-- and at the end, where it has reset the context or not.
pub data Main : Type 0 where
  in_code : Main
  aborted : Main
  fenced : Main
  left : (reset : Bool) → Main

-- Where the watcher is: before the end of its sleep, with the lock, after `terminate_execution`, after
-- the report, and over. An abort takes it at an `await` only.
pub data Watcher : Type 0 where
  sleeps : Watcher
  locked : Watcher
  has_terminated : Watcher
  has_reported : Watcher
  over : Watcher

pub record Race : Type 0 where
  pub main : Main
  pub watcher : Watcher
  pub abort_fence : Bool
  pub terminate_report : Bool
  -- Whether `terminate_execution` was called, and whether that was after `enter` had left.
  pub terminated : Bool
  pub too_late : Bool

pub data RaceEvent : Type 0 where
  aborts : RaceEvent
  raises_fence : RaceEvent
  reads_report : RaceEvent
  locks : RaceEvent
  is_cancelled : RaceEvent
  checks_fence : RaceEvent
  reports : RaceEvent
  unlocks : RaceEvent

abbrev pub race_start : Race
race_start = record {
  main = in_code;
  watcher = sleeps;
  abort_fence = false;
  terminate_report = false;
  terminated = false;
  too_late = false;
}

-- Whether the watcher holds the lock of the fence.
abbrev pub holds_lock : Watcher → Bool
holds_lock sleeps = false
holds_lock locked = true
holds_lock has_terminated = true
holds_lock has_reported = true
holds_lock over = false

abbrev pub has_left : Main → Bool
has_left (left reset) = true
has_left _ = false

-- `none`: the thread is not at this step, or waits for the lock.
unfoldable pub race_step : RaceEvent → Main → Watcher → Race → Option Race
race_step aborts in_code w s = some (record s { main = aborted })
race_step raises_fence aborted w s =
    if holds_lock w then none else some (record s { main = fenced; abort_fence = true })
race_step reads_report fenced w s = some (record s { main = left s.terminate_report })
race_step is_cancelled aborted sleeps s = some (record s { watcher = over })
race_step is_cancelled fenced sleeps s = some (record s { watcher = over })
race_step is_cancelled (left r) sleeps s = some (record s { watcher = over })
race_step locks m sleeps s = some (record s { watcher = locked })
race_step checks_fence m locked s =
    if s.abort_fence
    then some (record s { watcher = has_reported })
    else some (record s { watcher = has_terminated; terminated = true; too_late = has_left m })
race_step reports m has_terminated s =
    some (record s { watcher = has_reported; terminate_report = true })
race_step unlocks m has_reported s = some (record s { watcher = over })
race_step _ _ _ _ = none

pub data RaceReaches : Race → Type 0 where
  starts : RaceReaches race_start
  steps :
      (s s' : Race) (ev : RaceEvent)
      → RaceReaches s
      → race_step ev s.main s.watcher s ≡ some s'
      → RaceReaches s'

-- The fence is up from the moment that the main thread raised it.
abbrev fence_of : Main → Bool
fence_of in_code = false
fence_of aborted = false
fence_of fenced = true
fence_of (left r) = true

-- While the watcher is between the termination and the report the fence is down.
abbrev IsHandled : Watcher → Race → Type 0
IsHandled has_terminated s = (s.terminated ≡ true) × (s.abort_fence ≡ false)
IsHandled _ s = s.terminate_report ≡ s.terminated

abbrev IsReset : Main → Race → Type 0
IsReset (left r) s = r ≡ s.terminated
IsReset _ s = Unit {0}

record IsFenced (s : Race) : Type 0 where
  up : s.abort_fence ≡ fence_of s.main
  handled : IsHandled s.watcher s
  reset : IsReset s.main s
  in_time : s.too_late ≡ false

step-IsFenced :
    (s s' : Race) (ev : RaceEvent) (m : Main) (w : Watcher)
    → s.main ≡ m
    → s.watcher ≡ w
    → IsFenced s
    → race_step ev m w s ≡ some s'
    → IsFenced s'
unfolding race_step
step-IsFenced s s' ev m w em ew f h = ground (arith, f)

RaceReaches-IsFenced : (s : Race) → RaceReaches s → IsFenced s
RaceReaches-IsFenced s starts = record { up = refl; handled = refl; reset = tt; in_time = refl }
RaceReaches-IsFenced s (steps t _ ev r h) =
    step-IsFenced t s ev t.main t.watcher refl refl (RaceReaches-IsFenced t r) h

reset_eq :
    (s : Race) (m : Main) (reset : Bool) → IsReset m s → m ≡ left reset → reset ≡ s.terminated
reset_eq s in_code reset r h = cc
reset_eq s aborted reset r h = cc
reset_eq s fenced reset r h = cc
reset_eq s (left b) reset r h = cc (r, h)

-- A run of events, one after the other.
abbrev pub race_run : List RaceEvent → Race → Option Race
race_run [] s = some s
race_run (ev ∷ evs) s = and_then (race_step ev s.main s.watcher s) (race_run evs)

-- The events that the watcher does by itself, once it has the lock.
abbrev pub IsWatchers : RaceEvent → Type 0
IsWatchers checks_fence = Unit {0}
IsWatchers reports = Unit {0}
IsWatchers unlocks = Unit {0}
IsWatchers _ = ⊥

-- The watcher comes to the release of the lock by its own events, and the thread of `enter`, which has
-- not moved, can then raise the fence if it waits to.
abbrev pub Releases : Race → Type 0
Releases s =
    (evs : List RaceEvent) × All IsWatchers evs
    × (s' : Race) × (race_run evs s ≡ some s')
    × (holds_lock s'.watcher ≡ false)
    × (s'.main ≡ s.main)
    × (s.main ≡ aborted
        → (s'' : Race) × (race_run (raises_fence ∷ []) s' ≡ some s'')
          × (s''.main ≡ fenced)
          × (s''.abort_fence ≡ true))

raised :
    (s : Race)
    → s.main ≡ aborted
    → holds_lock s.watcher ≡ false
    → (s'' : Race) × (race_run (raises_fence ∷ []) s ≡ some s'')
      × (s''.main ≡ fenced)
      × (s''.abort_fence ≡ true)
unfolding race_step
raised s at free = (record s { main = fenced; abort_fence = true }, by_step, refl, refl)
  where
    by_step : race_run (raises_fence ∷ []) s ≡ some (record s { main = fenced; abort_fence = true })
    by_step = ground (arith, at, free)

reported-Releases : (s : Race) → Releases (record s { watcher = has_reported })
unfolding race_step
reported-Releases s = (
  unlocks ∷ [],
  (tt, tt),
  record s { watcher = over },
  refl,
  refl,
  refl,
  λ at. raised (record s { watcher = over }) at refl,
)

-- One more event of the watcher in front.
before-Releases :
    (s s' : Race) (ev : RaceEvent)
    → IsWatchers ev
    → race_step ev s.main s.watcher s ≡ some s'
    → s'.main ≡ s.main
    → Releases s'
    → Releases s
before-Releases s s' ev own h same (evs, all, t, runs, free, kept, fence) = (
  ev ∷ evs,
  (own, all),
  t,
  ap (λ (o : Option Race). and_then o (race_run evs)) h ∙ runs,
  free,
  kept ∙ same,
  λ at. fence (same ∙ at),
)

terminated-Releases : (s : Race) → Releases (record s { watcher = has_terminated })
unfolding race_step
terminated-Releases s =
    before-Releases (record s { watcher = has_terminated })
      (record s { watcher = has_reported; terminate_report = true }) reports tt refl refl
      (reported-Releases (record s { terminate_report = true }))

holder-Releases :
    (s : Race) (w : Watcher) → holds_lock w ≡ true → Releases (record s { watcher = w })
unfolding race_step
holder-Releases s locked h = elim (Bool-cases s.abort_fence) [
  | inl up ↦
      before-Releases (record s { watcher = locked }) (record s { watcher = has_reported })
        checks_fence tt (checked _ _ _ up) refl (reported-Releases s)
  | inr down ↦
      before-Releases (record s { watcher = locked }) (ended s) checks_fence tt
        (unchecked _ (record s { watcher = has_reported }) (ended s) down) refl
        (terminated-Releases (ended s))
]
  where
    ended : Race → Race
    ended s = record s { watcher = has_terminated; terminated = true; too_late = has_left s.main }

    checked : (b : Bool) (x y : Race) → b ≡ true → (if b then some x else some y) ≡ some x
    checked b x y e = ground arith

    unchecked : (b : Bool) (x y : Race) → b ≡ false → (if b then some x else some y) ≡ some y
    unchecked b x y e = ground arith
holder-Releases s has_terminated h = terminated-Releases s
holder-Releases s has_reported h = reported-Releases s
holder-Releases s sleeps h = cc
holder-Releases s over h = cc

-- In every interleaving of the thread of `enter` with its watcher: `terminate_execution` is never
-- called after `enter` has left, and when it has left, the context was reset exactly where the
-- execution was terminated. While the watcher holds the lock of the fence, its own events lead to the
-- release of the lock without a step of the thread of `enter`, which can raise the fence after them if
-- it waits for that.
pub enter_fence :
    (s : Race)
    → RaceReaches s
    → (s.too_late ≡ false)
      × ((reset : Bool) → s.main ≡ left reset → reset ≡ s.terminated)
      × (holds_lock s.watcher ≡ true → Releases s)
enter_fence s r =
    let f = RaceReaches-IsFenced s r in
    (f.in_time, λ b h. reset_eq s s.main b f.reset h, λ h. holder-Releases s s.watcher h)
