-- ===== src/Server/Background/Permits.antt =====
-- The bound on the background tasks that run at once.
use blueboat.Prelude.{
  ℕ, zero, suc, ◌+◌, ◌≤◌, ◌%◌, ◌^◌, Bool, true, false, List, [], ◌∷◌, Option, none, some, length,
  ap, ◌∙◌, ◌↔◌, some_inj, Option-cases, if◌then◌else◌, ◌==◌, ◌≡◌, refl, arith, inl, inr,
}
use blueboat.Server.Background.{
  BackgroundEntry, LowPriorityMsg, log_entry, background, LpState, bg_permits, lp_start, issue_lp,
  finish_task, removed, without, try_start,
}

length-removed :
    (i : ℕ) (es fs : List BackgroundEntry) → removed i es ≡ some fs → length es ≡ suc (length fs)
length-removed i [] fs h = cc
length-removed zero (e ∷ es) fs h = ap (λ l. suc (length l)) (some_inj h)
length-removed (suc i) (e ∷ es) fs h = elim (Option-cases (removed i es)) [
  | inl none_left ↦ absurd (none_ne_some (rw none_left at h))
  | inr (gs, left) ↦
      ap suc (length-removed i es gs left) ∙ ap (λ l. suc (length l)) (some_inj (rw left at h))
]
  where
    none_ne_some : none ≡ some fs → ⊥
    none_ne_some h = cc

module _ {Time : Type 0} where
  -- What happens to the server's low-priority side, in any order.
  pub data LpStep (log_kafka : Bool) : LpState Time → LpState Time → Type 0 where
    issues :
        (s : LpState Time) (m : LowPriorityMsg Time) → LpStep log_kafka s (issue_lp log_kafka s m)
    finishes : (s : LpState Time) (i : ℕ) → LpStep log_kafka s (finish_task s i)

  pub data LpReaches (log_kafka : Bool) : LpState Time → Type 0 where
    starts : LpReaches log_kafka lp_start
    steps :
        (s s' : LpState Time)
        → LpReaches log_kafka s
        → LpStep log_kafka s s'
        → LpReaches log_kafka s'

  abbrev pub KeepsPermits : LpState Time → Type 0
  KeepsPermits s = length s.running + s.bg_permit ≡ bg_permits

  issue_lp-KeepsPermits :
      (b : Bool) (s : LpState Time) (m : LowPriorityMsg Time)
      → KeepsPermits s
      → KeepsPermits (issue_lp b s m)
  unfolding issue_lp
  issue_lp-KeepsPermits true s (log_entry e) h = h
  issue_lp-KeepsPermits false s (log_entry e) h = h
  issue_lp-KeepsPermits b s (background e) h = try_start_keeps s.bg_permit refl h
    where
      try_start_keeps :
          (p : ℕ)
          → s.bg_permit ≡ p
          → length s.running + s.bg_permit ≡ bg_permits
          → KeepsPermits (try_start s e p)
      try_start_keeps zero q h = h
      try_start_keeps (suc p) q h = omega arith

  without_keeps :
      (s : LpState Time) (o : Option (List BackgroundEntry))
      → ((es : List BackgroundEntry) → o ≡ some es → length s.running ≡ suc (length es))
      → KeepsPermits s
      → KeepsPermits (without s o)
  without_keeps s none l h = h
  without_keeps s (some es) l h = omega (arith, l es refl)

  LpReaches-KeepsPermits : (b : Bool) (s : LpState Time) → LpReaches b s → KeepsPermits s
  unfolding finish_task
  LpReaches-KeepsPermits b s starts = refl
  LpReaches-KeepsPermits b s (steps s₀ _ r (issues _ m)) =
      issue_lp-KeepsPermits b s₀ m (LpReaches-KeepsPermits b s₀ r)
  LpReaches-KeepsPermits b s (steps s₀ _ r (finishes _ i)) =
      without_keeps s₀ (removed i s₀.running) (length-removed i s₀.running)
        (LpReaches-KeepsPermits b s₀ r)

  -- What the answer to a background message is, for the permits that are left.
  abbrev pub IsBounded : LpState Time → LpState Time → Type 0
  IsBounded s s' =
      (length s.running ≤ bg_permits)
      × ((length s'.running ≡ length s.running) ↔ (length s.running ≡ bg_permits))
      × (s'.fail_count
          ≡ (if length s.running == bg_permits then (s.fail_count + 1) % 2 ^ 64 else s.fail_count))

  try_start-IsBounded :
      (s : LpState Time) (e : BackgroundEntry) (p : ℕ)
      → s.bg_permit ≡ p
      → KeepsPermits s
      → IsBounded s (try_start s e p)
  try_start-IsBounded s e zero q h = (omega arith, (λ _. omega arith, λ _. refl), ground arith)
  try_start-IsBounded s e (suc p) q h =
      (omega arith, (λ x. absurd (omega arith), λ x. absurd (omega arith)), ground arith)

  -- However messages come in and tasks end, at most 500 background tasks run, and a message is refused,
  -- which the failure counter counts, exactly when 500 run.
  pub issue_lp-IsBounded :
      (log_kafka : Bool) (s : LpState Time) (e : BackgroundEntry)
      → LpReaches log_kafka s
      → IsBounded s (issue_lp log_kafka s (background e))
  unfolding issue_lp
  issue_lp-IsBounded b s e r =
      try_start-IsBounded s e s.bg_permit refl (LpReaches-KeepsPermits b s r)
