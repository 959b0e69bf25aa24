-- ===== src/Server/Watermark.antt =====
-- src/server.rs: `memory_watermark`, the pressure level that sets how many workers an app may have.
use blueboat.Prelude.{
  ℕ, ◌+◌, ◌-◌, ◌/◌, ◌^◌, ◌≤◌, ◌<◌, min, Bytes, codes, zero, suc, split_once, List, [], ◌∷◌, ◌++◌,
  Option, none, some, split_at, eqb, ltb, if◌then◌else◌, ◌≡◌, ◌≢◌, arith, Bool, true, false, refl,
}
use blueboat.Prelude.Ascii.{trim, parse_uint}

pub data MemoryWatermark : Type 0 where
  normal high critical : MemoryWatermark

-- `derive(Ord)`.
abbrev pub rank : MemoryWatermark → ℕ
rank normal = 0
rank high = 1
rank critical = 2

abbrev pub min_gap_kb : ℕ
min_gap_kb = 65536

-- `str::parse::<u64>`.
abbrev pub parse_u64 : Bytes → Option ℕ
parse_u64 = parse_uint (2 ^ 64)

-- `splitn(3, ':')`: what stands behind the second colon is one piece.
unfoldable pub splitn : ℕ → ℕ → Bytes → List Bytes
splitn zero sep xs = []
splitn (suc zero) sep xs = xs ∷ []
splitn (suc (suc n)) sep xs = elim (split_once sep xs) [
  | none ↦ xs ∷ []
  | some (a, b) ↦ a ∷ splitn (suc n) sep b
]

-- The path of the memory controller in `/proc/self/cgroup`: the third field of the first line
-- whose second field is `memory`.
abbrev memory_field : List Bytes → Option Bytes
memory_field (id ∷ controller ∷ path ∷ rest) =
    if eqb controller (codes "memory") then some path else none
memory_field _ = none

abbrev or_line : Option Bytes → Option Bytes → Option Bytes
or_line (some p) rest = some p
or_line none rest = rest

unfoldable pub cgroup_path : List Bytes → Option Bytes
unfolding splitn
cgroup_path [] = none
cgroup_path (line ∷ lines) = or_line (memory_field (splitn 3 b':' line)) (cgroup_path lines)

abbrev parse_file : Option Bytes → Option ℕ
parse_file none = none
parse_file (some x) = parse_u64 (trim x)

abbrev cgroup_available : ℕ → Option ℕ → Option ℕ → ℕ
cgroup_available sys (some limit) (some usage) = (limit - usage) / 1024
cgroup_available sys _ _ = sys

abbrev with_path : (Bytes → Option Bytes) → ℕ → Option Bytes → ℕ
with_path read sys none = sys
with_path read sys (some path) =
    cgroup_available sys
      (parse_file
        (read (codes "/sys/fs/cgroup/memory" ++ (path ++ codes "/memory.limit_in_bytes"))))
      (parse_file
        (read (codes "/sys/fs/cgroup/memory" ++ (path ++ codes "/memory.usage_in_bytes"))))

abbrev with_cgroup : (Bytes → Option Bytes) → ℕ → Option Bytes → ℕ
with_cgroup read sys none = sys
with_cgroup read sys (some text) = with_path read sys (cgroup_path (split_at 10 text))

-- The memory that is free, in KB: `sys` is what the system says, `read` the contents of a file.
unfoldable pub available_memory : (Bytes → Option Bytes) → ℕ → ℕ
unfolding cgroup_path trim parse_uint
available_memory read sys = min sys (with_cgroup read sys (read (codes "/proc/self/cgroup")))

-- The level for an amount of memory, and how far it is above the level's threshold.
unfoldable pub classify : ℕ → ℕ → ℕ → MemoryWatermark × ℕ
classify critical_wm high_wm avail =
    if ltb avail critical_wm
    then (critical, avail)
    else if ltb avail high_wm
    then (high, avail - critical_wm)
    else (normal, avail - high_wm)

abbrev stabilize : Option MemoryWatermark → MemoryWatermark → ℕ → MemoryWatermark
stabilize none wm gap = wm
stabilize (some last) wm gap =
    if ltb (rank wm) (rank last) then (if ltb gap min_gap_kb then last else wm) else wm

-- `memory_watermark` for an amount of memory.
unfoldable pub next_watermark : ℕ → ℕ → Option MemoryWatermark → ℕ → MemoryWatermark
unfolding classify
next_watermark critical_wm high_wm last avail =
    let (wm, gap) = classify critical_wm high_wm avail in stabilize last wm gap

unfoldable pub memory_watermark :
    ℕ → ℕ → (Bytes → Option Bytes) → ℕ → Option MemoryWatermark → MemoryWatermark × ℕ
unfolding available_memory next_watermark
memory_watermark critical_wm high_wm read sys last =
    let avail = available_memory read sys in (next_watermark critical_wm high_wm last avail, avail)

-- `tune_smr_parameters`: the workers that an app may have.
unfoldable pub max_workers : MemoryWatermark → ℕ
max_workers critical = 1
max_workers high = 4
max_workers normal = 4

-- The meaning of the two thresholds: below the first an amount of memory is critical, from there to
-- the second it is high, and from both on it is normal.
abbrev pub Says : ℕ → ℕ → ℕ → MemoryWatermark → Type 0
Says c h avail critical = avail < c
Says c h avail high = (c ≤ avail) × (avail < h)
Says c h avail normal = (c ≤ avail) × (h ≤ avail)

classify-Says : (c h avail : ℕ) → Says c h avail (classify c h avail).0
unfolding classify
classify-Says c h avail = level (ltb avail c) (ltb avail h) refl refl
  where
    below : (a b : ℕ) → ltb a b ≡ true → a < b
    below a b e = ground arith

    from : (a b : ℕ) → ltb a b ≡ false → b ≤ a
    from a b e = ground arith

    level :
        (low mid : Bool)
        → ltb avail c ≡ low
        → ltb avail h ≡ mid
        → let r : MemoryWatermark × ℕ =
            if low
            then (critical, avail)
            else if mid
            then (high, avail - c)
            else (normal, avail - h) in
          Says c h avail r.0
    level true mid is_low is_mid = below avail c is_low
    level false true is_low is_mid = (from avail c is_low, below avail h is_mid)
    level false false is_low is_mid = (from avail c is_low, from avail h is_mid)

hysteresis :
    (c h avail : ℕ) (last : MemoryWatermark)
    → (rank (classify c h avail).0 ≤ rank (next_watermark c h (some last) avail))
      × (rank last ≤ rank (classify c h avail).0
          → next_watermark c h (some last) avail ≡ (classify c h avail).0)
      × (next_watermark c h (some last) avail ≢ (classify c h avail).0
          → next_watermark c h (some last) avail ≡ last)
      × (rank (next_watermark c h (some last) avail) < rank last
          → (next_watermark c h (some last) avail ≡ high → c + min_gap_kb ≤ avail)
            × (next_watermark c h (some last) avail ≡ normal → h + min_gap_kb ≤ avail))
unfolding next_watermark classify
hysteresis c h avail normal =
    (ground arith, λ a. ground arith, λ a. ground arith, λ a. absurd (omega arith))
hysteresis c h avail high = (
  ground arith,
  λ a. ground arith,
  λ a. ground arith,
  λ a. (λ e. ground arith, λ e. ground arith),
)
hysteresis c h avail critical = (
  ground arith,
  λ a. ground arith,
  λ a. ground arith,
  λ a. (λ e. ground arith, λ e. ground arith),
)

-- For a level `wm` that the thresholds say for the memory, the new level is never lower than `wm`; it
-- rises to `wm` at once, and it falls only when the memory is at least 64 MB above the threshold of
-- the lower level. Otherwise it stays.
pub watermark_hysteresis :
    (c h avail : ℕ) (last : MemoryWatermark)
    → let next : MemoryWatermark = next_watermark c h (some last) avail in
      (wm : MemoryWatermark) × Says c h avail wm
      × (rank wm ≤ rank next)
      × (rank last ≤ rank wm → next ≡ wm)
      × (next ≢ wm → next ≡ last)
      × (rank next < rank last
          → (next ≡ high → c + min_gap_kb ≤ avail) × (next ≡ normal → h + min_gap_kb ≤ avail))
watermark_hysteresis c h avail last =
    let (lower, rises, stays, falls) = hysteresis c h avail last in
    ((classify c h avail).0, classify-Says c h avail, lower, rises, stays, falls)

-- From the critical level more memory can mean a worse level: just below the high threshold the
-- level falls to high, but from there up to 64 MB above it stays critical, with one worker for
-- each app.
watermark_not_monotone :
    (c h avail : ℕ)
    → c + min_gap_kb < h
    → h ≤ avail
    → avail < h + min_gap_kb
    → (next_watermark c h (some critical) (h - 1) ≡ high)
      × (next_watermark c h (some critical) avail ≡ critical)
unfolding next_watermark classify
watermark_not_monotone c h avail gap low up = (ground arith, ground arith)
