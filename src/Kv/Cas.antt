-- ===== src/Kv/Cas.antt =====
-- Compare-and-set of several keys: what a done answer means, and that the loop ends.
use blueboat.Prelude.{
  Bytes, Bool, true, false, ◌&&◌, List, [], ◌∷◌, Option, none, some, eqb, if◌then◌else◌, All, ◌≡◌,
  refl, arith,
}
use blueboat.Prelude.Result.{ok}
use blueboat.Fdb.{Fdb, ReadsWrites, CommitWrites}
use blueboat.Kv.{
  TriStateCheck, TriStateSet, delete, preserve, with_versionstamped_key, CasKey, Pending, passes,
  versionstamped_target, apply_set, Attempt, cas_keys, run_check,
}

-- No two requests name one key.
abbrev pub Distinct : (Bytes → Bytes) → List CasKey → Type 0
Distinct pack [] = Unit {0}
Distinct pack (r ∷ rs) = All (λ q. eqb (pack r.key) (pack q.key) ≡ false) rs × Distinct pack rs

-- Every check holds of what `read` says.
unfoldable pub checks_hold : (Bytes → Option Bytes) → (Bytes → Bytes) → List CasKey → Bool
checks_hold read pack [] = true
checks_hold read pack (r ∷ rs) = passes r.check (read (pack r.key)) && checks_hold read pack rs

-- All the writes, in the order of the requests.
unfoldable pub writes : (Bytes → Bytes) → List CasKey → Pending → Pending
writes pack [] p = p
writes pack (r ∷ rs) p = writes pack rs (apply_set r.set (pack r.key) p)

module _ (f : Fdb) (w : ReadsWrites f) where
  -- A write to one key does not change what another reads.
  get-apply_set :
      (s : f.Store) (t : TriStateSet Bytes) (k j : Bytes) (p : Pending)
      → eqb k j ≡ false
      → f.get s (apply_set t k p).log j ≡ f.get s p.log j
  unfolding apply_set
  get-apply_set s delete k j p h = ground (arith, w.get-clear_key s p.log k j)
  get-apply_set s preserve k j p h = refl
  get-apply_set s (TriStateSet.value x) k j p h = ground (arith, w.get-set_key s p.log k x j)
  get-apply_set s (with_versionstamped_key x) k j p h =
      w.get-versionstamped_key s p.log (versionstamped_target k) x j

  checks_hold-apply_set :
      (s : f.Store) (pack : Bytes → Bytes) (t : TriStateSet Bytes) (k : Bytes) (p : Pending)
      (rs : List CasKey)
      → All (λ q. eqb k (pack q.key) ≡ false) rs
      → checks_hold (f.get s (apply_set t k p).log) pack rs ≡ checks_hold (f.get s p.log) pack rs
  unfolding checks_hold
  checks_hold-apply_set s pack t k p [] h = refl
  checks_hold-apply_set s pack t k p (r ∷ rs) h =
      rw (get-apply_set s t k (pack r.key) p h.0, checks_hold-apply_set s pack t k p rs h.1)

  run_check-ok :
      (a : Attempt f) (c : TriStateCheck Bytes) (k : Bytes) (p : Pending)
      → a.read_error k ≡ none
      → run_check f a c k p ≡ ok (passes c (f.get a.store p.log k))
  unfolding run_check
  run_check-ok a TriStateCheck.any k p h = refl
  run_check-ok a TriStateCheck.absent k p h = rw h
  run_check-ok a (TriStateCheck.value x) k p h = rw h

  -- With distinct keys and no read errors, the loop over the keys gives up exactly when some check
  -- fails of the snapshot, whatever was written before it; otherwise it has made every write.
  pub cas_keys-exact :
      (a : Attempt f) (pack : Bytes → Bytes) (rs : List CasKey) (p : Pending)
      → Distinct pack rs
      → ((k : Bytes) → a.read_error k ≡ none)
      → cas_keys f a pack rs p
        ≡ ok (if checks_hold (f.get a.store p.log) pack rs then some (writes pack rs p) else none)
  unfolding cas_keys checks_hold writes
  cas_keys-exact a pack [] p d e = refl
  cas_keys-exact a pack (r ∷ rs) p d e =
      rw
        (
          run_check-ok a r.check (pack r.key) p (e (pack r.key)),
          cas_keys-exact a pack rs (apply_set r.set (pack r.key) p) d.1 e,
          checks_hold-apply_set a.store pack r.set (pack r.key) p rs d.0,
        )
        (ground arith)

-- What a key holds once the requests have been carried out, one after the other: `v` is the
-- versionstamp of the commit.
module _ (f : Fdb) (v : Bytes) (pack : Bytes → Bytes) where
  unfoldable pub wanted : TriStateSet Bytes → Bytes → Bytes → Option Bytes → Option Bytes
  wanted delete k j old = if eqb k j then none else old
  wanted preserve k j old = old
  wanted (TriStateSet.value x) k j old = if eqb k j then some x else old
  wanted (with_versionstamped_key x) k j old =
      if eqb (f.stamp (versionstamped_target k) v) j then some x else old

  unfoldable pub expected : List CasKey → Bytes → Option Bytes → Option Bytes
  expected [] j old = old
  expected (r ∷ rs) j old = expected rs j (wanted r.set (pack r.key) j old)

module _ (f : Fdb) (w : CommitWrites f) where
  get-commit-apply_set :
      (s : f.Store) (v : Bytes) (pack : Bytes → Bytes) (t : TriStateSet Bytes) (k : Bytes)
      (p : Pending) (j : Bytes)
      → f.get (f.commit s (apply_set t k p).log v) [] j
        ≡ wanted f v pack t k j (f.get (f.commit s p.log v) [] j)
  unfolding apply_set wanted
  get-commit-apply_set s v pack delete k p j = w.commit-clear_key s p.log k v j
  get-commit-apply_set s v pack preserve k p j = refl
  get-commit-apply_set s v pack (TriStateSet.value x) k p j = w.commit-set_key s p.log k x v j
  get-commit-apply_set s v pack (with_versionstamped_key x) k p j =
      w.commit-versionstamped_key s p.log (versionstamped_target k) x v j

  pub get-commit-writes :
      (s : f.Store) (v : Bytes) (pack : Bytes → Bytes) (rs : List CasKey) (p : Pending) (j : Bytes)
      → f.get (f.commit s (writes pack rs p).log v) [] j
        ≡ expected f v pack rs j (f.get (f.commit s p.log v) [] j)
  unfolding writes expected
  get-commit-writes s v pack [] p j = refl
  get-commit-writes s v pack (r ∷ rs) p j = rw (
    get-commit-writes s v pack rs (apply_set r.set (pack r.key) p) j,
    get-commit-apply_set s v pack r.set (pack r.key) p j,
  )
