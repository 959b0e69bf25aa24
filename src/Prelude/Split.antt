-- ===== src/Prelude/Split.antt =====
-- Splitting at a separator undoes joining.
use blueboat.Prelude.{
  Bool-cases, inl, inr, ℕ, ◌≡◌, refl, Bool, true, false, List, [], ◌∷◌, ◌++◌, Bytes, split_at,
  split_once, some, prepend, join, nonempty, keep_if, ◌==◌, All, ==_refl,
}

-- The separator stands nowhere in `s`.
abbrev pub Lacks : ℕ → Bytes → Type 0
Lacks sep s = All (λ x. (x == sep) ≡ false) s

-- A segment that a filter of the empty ones keeps.
abbrev pub IsSegment : ℕ → Bytes → Type 0
IsSegment sep s = Lacks sep s × (nonempty s ≡ true)

prepend-Lacks :
    (sep x : ℕ) (ss : List Bytes)
    → (x == sep) ≡ false
    → All (Lacks sep) ss
    → All (Lacks sep) (prepend x ss)
prepend-Lacks sep x [] h a = ((h, tt), tt)
prepend-Lacks sep x (s ∷ ss) h a = ((h, a.0), a.1)

pub split_at-Lacks : (sep : ℕ) (xs : Bytes) → All (Lacks sep) (split_at sep xs)
unfolding split_at
split_at-Lacks sep [] = (tt, tt)
split_at-Lacks sep (x ∷ xs) = elim (Bool-cases (x == sep)) [
  | inl e ↦ rw e (tt, split_at-Lacks sep xs)
  | inr e ↦ rw e (prepend-Lacks sep x (split_at sep xs) e (split_at-Lacks sep xs))
]

pub split_at-append :
    (sep : ℕ) (s r : Bytes) → Lacks sep s → split_at sep (s ++ sep ∷ r) ≡ s ∷ split_at sep r
unfolding split_at
split_at-append sep [] r h = rw ==_refl
split_at-append sep (x ∷ s) r h = rw (h.0, split_at-append sep s r h.1)

pub split_at-none : (sep : ℕ) (s : Bytes) → Lacks sep s → split_at sep s ≡ s ∷ []
unfolding split_at
split_at-none sep [] h = refl
split_at-none sep (x ∷ s) h = rw (h.0, split_at-none sep s h.1)

pub keep_if-All :
    (P : Bytes → Type 0) (p : Bytes → Bool) (ss : List Bytes)
    → All P ss
    → All (λ s. P s × (p s ≡ true)) (keep_if p ss)
keep_if-All P p [] h = tt
keep_if-All P p (s ∷ ss) h = elim (Bool-cases (p s)) [
  | inl e ↦ rw e ((h.0, e), keep_if-All P p ss h.1)
  | inr e ↦ rw e (keep_if-All P p ss h.1)
]

-- The kept segments of joined segments are those segments, where no empty segment is kept.
pub keep_if-split_at-join_by :
    (p : Bytes → Bool) (sep : ℕ) (ss : List Bytes)
    → p [] ≡ false
    → All (λ s. Lacks sep s × (p s ≡ true)) ss
    → keep_if p (split_at sep (join sep ss)) ≡ ss
unfolding split_at
keep_if-split_at-join_by p sep [] e h = rw e refl
keep_if-split_at-join_by p sep (s ∷ []) e h = rw (split_at-none sep s h.0.0, h.0.1)
keep_if-split_at-join_by p sep (s ∷ t ∷ ss) e h = rw (
  split_at-append sep s (join sep (t ∷ ss)) h.0.0,
  h.0.1,
  keep_if-split_at-join_by p sep (t ∷ ss) e h.1,
)

pub keep_if-split_at-join :
    (sep : ℕ) (ss : List Bytes)
    → All (IsSegment sep) ss
    → keep_if nonempty (split_at sep (join sep ss)) ≡ ss
keep_if-split_at-join sep ss h = keep_if-split_at-join_by nonempty sep ss refl h

-- Splitting joined pieces, of which there is one at least, gives the pieces.
pub split_at-join :
    (sep : ℕ) (s : Bytes) (ss : List Bytes)
    → All (Lacks sep) (s ∷ ss)
    → split_at sep (join sep (s ∷ ss)) ≡ s ∷ ss
split_at-join sep s [] h = split_at-none sep s h.0
split_at-join sep s (t ∷ ss) h =
    rw (split_at-append sep s (join sep (t ∷ ss)) h.0, split_at-join sep t ss h.1) refl

pub split_once-append :
    (sep : ℕ) (s r : Bytes) → Lacks sep s → split_once sep (s ++ sep ∷ r) ≡ some (s, r)
unfolding split_once
split_once-append sep [] r h = rw (==_refl sep) refl
split_once-append sep (x ∷ s) r h = rw (h.0, split_once-append sep s r h.1) refl
