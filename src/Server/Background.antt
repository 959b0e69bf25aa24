-- ===== src/Server/Background.antt =====
-- src/server.rs: low-priority messages of the workers, log entries and background tasks (`issue_lp`,
-- `run_background_entry`), with the types of src/lpch.rs. The time of a log entry may be of any type.
pub mod Permits
pub mod Entries
use blueboat.Prelude.{
  ℕ, zero, suc, ◌+◌, ◌%◌, ◌^◌, Bytes, codes, Bool, true, false, List, [], ◌∷◌, ◌++◌, Option, none,
  some, if◌then◌else◌, split_at,
}
use blueboat.Prelude.Result.{Result, ok, err}
use blueboat.Ipc.{BlueboatIpcRes}
use blueboat.Server.Metadata.{
  Metadata, PackageKey, Workers, BlueboatIpcReq, generic_invoke, Sources, Tenancy, MdCache,
  load_md_with_cache,
}

pub record AppLogEntry (Time : Type 0) : Type 0 where
  pub app : PackageKey
  pub request_id : Bytes
  pub message : Bytes
  pub logseq : ℕ
  pub time : Time

pub record BackgroundEntry : Type 0 where
  pub app : PackageKey
  pub request_id : Bytes
  pub wire_bytes : Bytes
  pub same_version : Bool

pub data LowPriorityMsg (Time : Type 0) : Type 0 where
  log_entry : AppLogEntry Time → LowPriorityMsg Time
  background : BackgroundEntry → LowPriorityMsg Time

-- `LpContext` and `LP_BG_ISSUE_FAIL_COUNT`: the permits of the semaphore, the tasks that hold one,
-- the failure counter and what the log service was given, oldest first.
pub record LpState (Time : Type 0) : Type 0 where
  pub bg_permit : ℕ
  pub running : List BackgroundEntry
  pub fail_count : ℕ
  pub written : List (AppLogEntry Time)

abbrev pub bg_permits : ℕ
bg_permits = 500

-- The id of a background task: the part before the first `+` of the id of its request, and a new
-- UUID.
abbrev head_or_all : Bytes → List Bytes → Bytes
head_or_all all [] = all
head_or_all all (s ∷ ss) = s

unfoldable pub background_request_id : Bytes → Bytes → Bytes
background_request_id request_id uuid =
    head_or_all request_id (split_at b'+' request_id) ++ (codes "+bg-" ++ uuid)

-- What is left when the task with the index has ended.
abbrev pub kept : BackgroundEntry → Option (List BackgroundEntry) → Option (List BackgroundEntry)
kept e none = none
kept e (some es) = some (e ∷ es)

abbrev pub removed : ℕ → List BackgroundEntry → Option (List BackgroundEntry)
removed i [] = none
removed zero (e ∷ es) = some es
removed (suc i) (e ∷ es) = kept e (removed i es)

module _ {Time : Type 0} where
  abbrev pub lp_start : LpState Time
  lp_start = record { bg_permit = bg_permits; running = []; fail_count = 0; written = [] }

  abbrev pub write_applog : Bool → LpState Time → AppLogEntry Time → LpState Time
  write_applog true s e = record {
    bg_permit = s.bg_permit;
    running = s.running;
    fail_count = s.fail_count;
    written = s.written ++ e ∷ [];
  }
  write_applog false s e = s

  abbrev pub try_start : LpState Time → BackgroundEntry → ℕ → LpState Time
  try_start s e zero = record {
    bg_permit = s.bg_permit;
    running = s.running;
    fail_count = (s.fail_count + 1) % 2 ^ 64;
    written = s.written;
  }
  try_start s e (suc permits) = record {
    bg_permit = permits;
    running = e ∷ s.running;
    fail_count = s.fail_count;
    written = s.written;
  }

  -- `issue_lp`, where a log service is open or not.
  unfoldable pub issue_lp : Bool → LpState Time → LowPriorityMsg Time → LpState Time
  issue_lp log_kafka s (log_entry e) = write_applog log_kafka s e
  issue_lp log_kafka s (background e) = try_start s e s.bg_permit

  abbrev pub without : LpState Time → Option (List BackgroundEntry) → LpState Time
  without s none = s
  without s (some es) = record {
    bg_permit = s.bg_permit + 1;
    running = es;
    fail_count = s.fail_count;
    written = s.written;
  }

  -- A running task ends, and drops its permit.
  unfoldable pub finish_task : LpState Time → ℕ → LpState Time
  finish_task s i = without s (removed i s.running)

-- How a background task ends; the first three are logged.
pub data BackgroundEnd : Type 0 where
  failed_load : BackgroundEnd
  failed_invoke : BackgroundEnd
  timed_out : BackgroundEnd
  completed : BackgroundEnd

module _ {Req : Type 0} (w : Workers Req) where
  abbrev asserted : BackgroundEntry → Option Bytes
  asserted e = if e.same_version then some (e.app.version) else none

  -- `select!` takes the timer's branch when the thirty seconds pass first.
  abbrev selected : Bool → Result BlueboatIpcRes → BackgroundEnd
  selected true r = timed_out
  selected false (ok res) = completed
  selected false (err e) = failed_invoke

  abbrev invoked : Bool → BlueboatIpcReq Req → BackgroundEntry → Result Metadata → BackgroundEnd
  invoked late req e (err x) = failed_load
  invoked late req e (ok md) = selected late (generic_invoke w req md (asserted e))

  -- `run_background_entry`: `as_background` is `BlueboatIpcReqV::Background`.
  unfoldable pub run_background_entry :
      Sources
      → Tenancy
      → (Bytes → Req)
      → Bool
      → Bytes
      → MdCache
      → BackgroundEntry
      → BackgroundEnd × MdCache
  run_background_entry s t as_background late uuid cache e =
      let (md, cache') = load_md_with_cache s t cache e.app.path in
      let req : BlueboatIpcReq Req = record {
        v = as_background e.wire_bytes;
        id = background_request_id e.request_id uuid;
      } in
      (invoked late req e md, cache')
