-- ===== src/Package/Modules/Total.antt =====
-- The loop ends: it loads each file of the package at most once.
use blueboat.Prelude.{
  ℕ, zero, suc, ◌+◌, ◌≤◌, ◌<◌, subst, Bytes, List, [], ◌∷◌, Option, none, some, eqb, eqb_refl,
  Bool-cases, Option-cases, ◌≡◌, refl, ◌∙◌, ap, inl, inr, Any, arith,
}
use blueboat.Prelude.Table.{Table, lookup, insert, lookup-insert}
use blueboat.Package.{
  VfsNode, transform_rel_path, normalize_path, collect_all, resolve_abs, split_path, suffixes,
}
use blueboat.Package.Archive.{IsListed, collect_all-file_in}
use blueboat.Package.Paths.{try_suffixes-hit}
use blueboat.Package.Modules.{
  Outcome, finished, gives_none, panics, LoadState, loaded, visit, load_loop, start_of, after,
  entry_module, load_module_with_dependencies,
}
use blueboat.Package.Modules.Round.{visit_inv}

abbrev Files : Type 0
Files = List (Bytes × Bytes)

-- A normalized path is one of the package's files.
normalize_path-collected :
    (root : VfsNode) (p np : Bytes)
    → normalize_path root p ≡ some np
    → Any (λ e. e.0 ≡ np) (collect_all root [])
unfolding normalize_path resolve_abs
normalize_path-collected root p np h =
    let (s, x, r, j) = try_suffixes-hit root p suffixes np h in
    only_path (collect_all root []) x (collect_all-file_in root [] (split_path s) x r) j
  where
    only_path :
        (fs : Files) (y : Bytes) {a b : Bytes} → IsListed a y fs → a ≡ b → Any (λ e. e.0 ≡ b) fs
    only_path [] y h j = absurd h
    only_path (f ∷ fs) y (inl h) j = inl (ap (λ e. e.0) h ∙ j)
    only_path (f ∷ fs) y (inr h) j = inr (only_path fs y h j)

module _ {M : Type 0} where
  abbrev absent : Option M → ℕ
  absent none = 1
  absent (some x) = 0

  -- How many of the files are not loaded yet.
  abbrev unloaded : Table M → Files → ℕ
  unloaded m [] = 0
  unloaded m (e ∷ es) = absent (lookup (e.0) m) + unloaded m es

  absent-insert :
      (k j : Bytes) (v : M) (m : Table M) → absent (lookup j (insert k v m)) ≤ absent (lookup j m)
  absent-insert k j v m = elim (Bool-cases (eqb k j)) [
    | inl e ↦ rw (lookup-insert k j v m, e) (omega arith)
    | inr e ↦ rw (lookup-insert k j v m, e) (omega arith)
  ]

  unloaded-insert :
      (k : Bytes) (v : M) (m : Table M) (fs : Files) → unloaded (insert k v m) fs ≤ unloaded m fs
  unloaded-insert k v m [] = omega arith
  unloaded-insert k v m (e ∷ es) =
      omega (arith, absent-insert k (e.0) v m, unloaded-insert k v m es)

  absent-new :
      (k : Bytes) (v : M) (m : Table M)
      → lookup k m ≡ none
      → absent (lookup k (insert k v m)) < absent (lookup k m)
  absent-new k v m h = rw (h, lookup-insert k k v m, eqb_refl k) (omega arith)

  unloaded-new :
      (k : Bytes) (v : M) (m : Table M) (fs : Files)
      → lookup k m ≡ none
      → Any (λ e. e.0 ≡ k) fs
      → unloaded (insert k v m) fs < unloaded m fs
  unloaded-new k v m [] h a = absurd a
  unloaded-new k v m (e ∷ es) h (inl a) =
      rw a (omega (arith, absent-new k v m h, unloaded-insert k v m es))
  unloaded-new k v m (e ∷ es) h (inr a) =
      omega (arith, absent-insert k (e.0) v m, unloaded-new k v m es h a)

module _ {M : Type 0} (compile : Bytes → Bytes → ℕ → Option M) (requests : M → List Bytes)
    (root : VfsNode) where
  -- The loop ends from a state: there is fuel for it.
  abbrev Ends : LoadState M → Type 0
  Ends st = (n : ℕ) × (r : Outcome (Table M)) × (load_loop compile requests n root st ≡ some r)

  abbrev left : LoadState M → ℕ
  left st = unloaded st.modules (collect_all root [])

  abbrev popped : Table M → List (Bytes × Bytes) → ℕ → LoadState M
  popped m q i = record { modules = m; queue = q; script_id = i }

  goes_on :
      (m : Table M) (e : Bytes × Bytes) (q : List (Bytes × Bytes)) (i : ℕ) (st : LoadState M)
      → visit compile requests root e (popped m q i) ≡ finished st
      → Ends st
      → Ends (popped m (e ∷ q) i)
  unfolding load_loop
  goes_on m e q i st v (n, r, h) = (suc n, r, rw (load_loop, v) h)

  outcome-Ends :
      (m : Table M) (e : Bytes × Bytes) (q : List (Bytes × Bytes)) (i : ℕ)
      (o : Outcome (LoadState M))
      → visit compile requests root e (popped m q i) ≡ o
      → ((st : LoadState M) → o ≡ finished st → Ends st)
      → Ends (popped m (e ∷ q) i)
  unfolding load_loop
  outcome-Ends m e q i (finished st) v f = goes_on m e q i st v (f st refl)
  outcome-Ends m e q i gives_none v f = (1, gives_none, rw (load_loop, v) refl)
  outcome-Ends m e q i panics v f = (1, panics, rw (load_loop, v) refl)

  round-Ends :
      (b : ℕ) (e : Bytes × Bytes) (q : List (Bytes × Bytes)) (m : Table M) (i : ℕ)
      → left (popped m (e ∷ q) i) ≤ b
      → ((st : LoadState M) → left st < b → Ends st)
      → ((m' : Table M) (i' : ℕ) → left (popped m' q i') ≤ b → Ends (popped m' q i'))
      → (st : LoadState M) → visit compile requests root e (popped m q i) ≡ finished st
      → Ends st
  round-Ends b e q m i h below again st v =
      let (np, n, how) = visit_inv compile requests root e (popped m q i) st v in
      elim how [
        | inl (x, known, same) ↦
            let path = transform_rel_path (e.0) (e.1) in
            subst Ends same (
              again (insert path x m) i
                (omega (arith, unloaded-insert path x m (collect_all root []))))
        | inr (x, new, l, same) ↦ subst Ends same (
            below (loaded compile requests np (popped m q i) x) (
              omega (
                arith,
                unloaded-new np x m (collect_all root []) new
                    (normalize_path-collected root (transform_rel_path (e.0) (e.1)) np n),
              )))
      ]

  -- For a bound on the files that are left: a round loads one of them, or shortens the work list.
  bounded-Ends :
      (b : ℕ)
      → ((st : LoadState M) → left st < b → Ends st)
      → (q : List (Bytes × Bytes)) (m : Table M) (i : ℕ) → left (popped m q i) ≤ b
      → Ends (popped m q i)
  unfolding load_loop
  bounded-Ends b below [] m i h = (1, finished m, refl)
  bounded-Ends b below (e ∷ q) m i h =
      outcome-Ends m e q i (visit compile requests root e (popped m q i)) refl
        (round-Ends b e q m i h below (λ m' i'. bounded-Ends b below q m' i'))

  loop-Ends : (b : ℕ) (st : LoadState M) → left st < b → Ends st
  loop-Ends zero st h = absurd (omega arith)
  loop-Ends (suc b) st h =
      bounded-Ends b (loop-Ends b) st.queue st.modules st.script_id (omega arith)

  -- For every package and every entry there is fuel with which the loading ends.
  pub load_total :
      (index_path : Bytes)
      → (n : ℕ) × (r : Outcome (Table M × M)) × (load_module_with_dependencies compile requests n
            root index_path
          ≡ some r)
  unfolding load_module_with_dependencies
  load_total index_path = elim (Option-cases (normalize_path root index_path)) [
    | inl bad ↦ (0, panics, rw bad refl)
    | inr (ip, good) ↦
        let st : LoadState M = start_of compile requests ip in
        let (n, r, h) = loop-Ends (suc (left st)) st (omega arith) in
        (n, after r (entry_module compile requests ip), rw (good, h) refl)
  ]
