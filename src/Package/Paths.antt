-- ===== src/Package/Paths.antt =====
-- Paths of a package: a normalized path is a file's, and its own normal form; a relative path does
-- not leave the package.
use blueboat.Prelude.{
  Bytes, codes, true, false, List, [], ◌∷◌, ◌++◌, append-nil, some, some_inj, eqb, init, join,
  split_at, b_slash, All, Bool-cases, Option-cases, inl, inr, ◌≡◌, refl, sym, ap,
}
use blueboat.Prelude.Split.{Lacks, split_at-Lacks, keep_if-All, keep_if-split_at-join_by}
use blueboat.Package.{
  VfsNode, is_named, split_path, resolve_abs, follow, transform_rel_path, suffixes, try_suffixes,
  normalize_path,
}

abbrev pub IsName : Bytes → Type 0
IsName s = Lacks b_slash s × (is_named s ≡ true)

pub split_path-IsName : (p : Bytes) → All IsName (split_path p)
unfolding split_path
split_path-IsName p =
    keep_if-All (Lacks b_slash) is_named (split_at b_slash p) (split_at-Lacks b_slash p)

pub split_path-join : (ss : List Bytes) → All IsName ss → split_path (join b_slash ss) ≡ ss
split_path-join ss h = unfold split_path in keep_if-split_at-join_by is_named b_slash ss refl h

pub resolve_abs-join :
    (root : VfsNode) (p : Bytes)
    → resolve_abs root (join b_slash (split_path p)) ≡ resolve_abs root p
unfolding resolve_abs
resolve_abs-join root p = rw (split_path-join (split_path p) (split_path-IsName p)) refl

pub try_suffixes-hit :
    (root : VfsNode) (src : Bytes) (xs : List Bytes) (np : Bytes)
    → try_suffixes root src xs ≡ some np
    → (s : Bytes) × (x : Bytes) × (resolve_abs root s ≡ some x) × (join b_slash (split_path s) ≡ np)
unfolding try_suffixes
try_suffixes-hit root src [] np h = cc
try_suffixes-hit root src (x ∷ xs) np h = elim (Option-cases (resolve_abs root (src ++ x))) [
  | inl e ↦ try_suffixes-hit root src xs np (rw e at h)
  | inr (b, e) ↦ (src ++ x, b, e, some_inj (rw e at h))
]

-- A normalized path names a file of the package, and normalizing it again changes nothing.
normalize_path_fixed :
    (root : VfsNode) (src np : Bytes)
    → normalize_path root src ≡ some np
    → ((x : Bytes) × (resolve_abs root np ≡ some x)) × (normalize_path root np ≡ some np)
unfolding normalize_path try_suffixes
normalize_path_fixed root src np h =
    let (s, x, r, j) = try_suffixes-hit root src suffixes np h in
    let found : resolve_abs root np ≡ some x = rw (sym j, resolve_abs-join root s) r in
    let same : join b_slash (split_path np) ≡ np =
      rw (sym j) (ap (join b_slash) (split_path-join (split_path s) (split_path-IsName s))) in
    ((x, found), rw (try_suffixes, append-nil np, found, same) refl)

-- A segment that does not lead upwards.
abbrev pub IsInside : Bytes → Type 0
IsInside s = eqb s (codes "..") ≡ false

All-init : (P : Bytes → Type 0) (ss : List Bytes) → All P ss → All P (init ss)
All-init P [] h = tt
All-init P (s ∷ []) h = tt
All-init P (s ∷ t ∷ ss) h = (h.0, All-init P (t ∷ ss) h.1)

All-snoc :
    (P : Bytes → Type 0) (ss : List Bytes) (s : Bytes) → All P ss → P s → All P (ss ++ s ∷ [])
All-snoc P [] s h p = (p, tt)
All-snoc P (t ∷ ts) s h p = (h.0, All-snoc P ts s h.1 p)

follow-IsInside :
    (cur ts : List Bytes)
    → All IsInside cur
    → All IsName cur
    → All IsName ts
    → All IsInside (follow cur ts) × All IsName (follow cur ts)
unfolding follow
follow-IsInside cur [] h n m = (h, n)
follow-IsInside cur (t ∷ ts) h n m = elim (Bool-cases (eqb t (codes ".."))) [
  | inl e ↦
      rw e (follow-IsInside (init cur) ts (All-init IsInside cur h) (All-init IsName cur n) m.1)
  | inr e ↦ rw e (
      follow-IsInside (cur ++ t ∷ []) ts (All-snoc IsInside cur t h e) (All-snoc IsName cur t n m.0)
        m.1)
]

-- A path relative to a module whose own path has no `..` stays in the package: no segment of it is
-- `..`, whatever the target.
pub transform_rel_path-IsInside :
    (current target : Bytes)
    → All IsInside (split_path current)
    → All IsInside (split_path (transform_rel_path current target))
unfolding transform_rel_path
transform_rel_path-IsInside current target h =
    let (inside, named) =
      follow-IsInside (init (split_path current)) (split_path target) (All-init IsInside _ h)
        (All-init IsName _ (split_path-IsName current)) (split_path-IsName target) in
    rw (split_path-join _ named) inside
