-- ===== src/Package/Modules/Closed.antt =====
-- What the loop has loaded when it ends: every import of a loaded module.
use blueboat.Prelude.{
  ℕ, zero, suc, ◌+◌, ◌%◌, ◌^◌, subst, Bytes, codes, List, [], ◌∷◌, Option, none, some, some_inj,
  eqb, eqb_iff, eq_of_eqb, Bool-cases, Option-cases, ◌≡◌, refl, sym, ◌∙◌, ap, ◌⊎◌, inl, inr, All,
  arith,
}
use blueboat.Prelude.Table.{Table, lookup, insert, lookup-insert}
use blueboat.Package.{VfsNode, transform_rel_path, normalize_path}
use blueboat.Package.Modules.{
  entered_at, Outcome, finished, gives_none, panics, LoadState, push_requests, loaded, aliased,
  visit, continue_with, load_loop, start_of, load_module_with_dependencies,
}
use blueboat.Package.Modules.Round.{visit_inv}

-- The map has a module under the key.
abbrev pub Present {ℓ} : {M : Type ℓ} → Table M → Bytes → Type ℓ
Present {M = M} m k = (x : M) × (lookup k m ≡ some x)

pub Present-insert {ℓ} :
    {M : Type ℓ} (m : Table M) (j k : Bytes) (v : M) → Present m k → Present (insert j v m) k
Present-insert m j k v (x, h) = elim (Bool-cases (eqb j k)) [
  | inl e ↦ (v, rw (lookup-insert j k v m, e) refl)
  | inr e ↦ (x, rw (lookup-insert j k v m, e) h)
]

pub Present-insert_same {ℓ} :
    {M : Type ℓ} (m : Table M) (k : Bytes) (v : M) → Present (insert k v m) k
Present-insert_same m k v = (v, ground (arith, lookup-insert k k v m, eqb_iff k k))

-- An import of the module at `np` is loaded.
abbrev pub IsResolved : {M : Type 0} → VfsNode → Table M → Bytes → Bytes → Type 0
IsResolved root m np spec =
    (t : Bytes) × (normalize_path root (transform_rel_path np spec) ≡ some t) × Present m t

-- An entry of the work list.
abbrev Listed : Bytes × Bytes → List (Bytes × Bytes) → Type 0
Listed e [] = ⊥
Listed e (x ∷ xs) = (e ≡ x) ⊎ Listed e xs

abbrev IsPending : {M : Type 0} → VfsNode → LoadState M → Bytes → Bytes → Type 0
IsPending root st np spec = Listed (np, spec) st.queue ⊎ IsResolved root st.modules np spec

Listed-push_requests :
    (e : Bytes × Bytes) (np : Bytes) (specs : List Bytes) (q : List (Bytes × Bytes))
    → Listed e q
    → Listed e (push_requests np specs q)
Listed-push_requests e np [] q h = h
Listed-push_requests e np (s ∷ ss) q h = Listed-push_requests e np ss ((np, s) ∷ q) (inr h)

push_requests-Listed :
    (np : Bytes) (specs : List Bytes) (q : List (Bytes × Bytes))
    → All (λ s. Listed (np, s) (push_requests np specs q)) specs
push_requests-Listed np [] q = tt
push_requests-Listed np (s ∷ ss) q = (
  Listed-push_requests (np, s) np ss ((np, s) ∷ q) (inl refl),
  push_requests-Listed np ss ((np, s) ∷ q),
)

All-map : {P Q : Bytes → Type 0} (ss : List Bytes) → ((s : Bytes) → P s → Q s) → All P ss → All Q ss
All-map [] f h = tt
All-map (s ∷ ss) f h = (f s h.0, All-map ss f h.1)

module _ {M : Type 0} (compile : Bytes → Bytes → ℕ → Option M) (requests : M → List Bytes) where
  -- Every import of a loaded module is loaded or on the work list.
  abbrev pub IsTracked : VfsNode → LoadState M → Type 0
  IsTracked root st =
      (np : Bytes) (x : M)
      → normalize_path root np ≡ some np
      → lookup np st.modules ≡ some x
      → All (IsPending root st np) (requests x)

  -- Every import of a loaded module is loaded.
  abbrev pub IsClosed : VfsNode → Table M → Type 0
  IsClosed root m =
      (np : Bytes) (x : M)
      → normalize_path root np ≡ some np
      → lookup np m ≡ some x
      → All (IsResolved root m np) (requests x)

  -- A map that has grown, by a module at the path that the popped entry leads to.
  IsPending-grown :
      (root : VfsNode) (e : Bytes × Bytes) (m m' : Table M) (q q' : List (Bytes × Bytes)) (i i' : ℕ)
      (t : Bytes)
      → normalize_path root (transform_rel_path e.0 e.1) ≡ some t
      → Present m' t
      → ((k : Bytes) → Present m k → Present m' k)
      → ((d : Bytes × Bytes) → Listed d q → Listed d q')
      → (np spec : Bytes)
      → IsPending root (record { modules = m; queue = e ∷ q; script_id = i }) np spec
      → IsPending root (record { modules = m'; queue = q'; script_id = i' }) np spec
  IsPending-grown root e m m' q q' i i' t h p up keep np spec (inl (inl same)) =
      inr (t, rw (ap (λ d. d.0) same, ap (λ d. d.1) same) h, p)
  IsPending-grown root e m m' q q' i i' t h p up keep np spec (inl (inr there)) = inl (keep _ there)
  IsPending-grown root e m m' q q' i i' t h p up keep np spec (inr (u, n, x)) = inr (u, n, up u x)

  aliased-IsTracked :
      (root : VfsNode) (e : Bytes × Bytes) (m : Table M) (q : List (Bytes × Bytes)) (i : ℕ)
      (np : Bytes) (x : M)
      → normalize_path root (transform_rel_path e.0 e.1) ≡ some np
      → lookup np m ≡ some x
      → IsTracked root (record { modules = m; queue = e ∷ q; script_id = i })
      → IsTracked root (
          aliased compile requests
            (transform_rel_path e.0 e.1)
            (record { modules = m; queue = q; script_id = i })
            x)
  aliased-IsTracked root e m q i np x h l tracked k y n g =
      let path = transform_rel_path e.0 e.1 in
      let old : lookup k m ≡ some y = elim (Bool-cases (eqb path k)) [
        | inl same ↦
            let at : path ≡ k = eq_of_eqb path k same in
            let np_k : np ≡ k = some_inj (sym h ∙ ap (normalize_path root) at ∙ n) in
            let x_y : x ≡ y = some_inj (sym (lookup-insert path k x m ∙ rw same refl) ∙ g) in
            rw (sym np_k, sym x_y) l
        | inr other ↦ sym (lookup-insert path k x m ∙ rw other refl) ∙ g
      ] in
      All-map (requests y)
        (IsPending-grown root e m (insert path x m) q q i i np h (Present-insert m path np x (x, l))
          (λ j. Present-insert m path j x) (λ d z. z) k)
        (tracked k y n old)

  loaded-IsTracked :
      (root : VfsNode) (e : Bytes × Bytes) (m : Table M) (q : List (Bytes × Bytes)) (i : ℕ)
      (np : Bytes) (x : M)
      → normalize_path root (transform_rel_path e.0 e.1) ≡ some np
      → IsTracked root (record { modules = m; queue = e ∷ q; script_id = i })
      → IsTracked root
          (loaded compile requests np (record { modules = m; queue = q; script_id = i }) x)
  loaded-IsTracked root e m q i np x h tracked k y n g = elim (Bool-cases (eqb np k)) [
    | inl same ↦
        let x_y : x ≡ y = some_inj (sym (lookup-insert np k x m ∙ rw same refl) ∙ g) in
        rw (sym x_y, sym (eq_of_eqb np k same))
          (All-map (requests x) (λ s z. inl z) (push_requests-Listed np (requests x) q))
    | inr other ↦
        All-map (requests y)
          (IsPending-grown root e m (insert np x m) q (push_requests np (requests x) q) i
            ((i + 1) % 2 ^ 32) np h (Present-insert_same m np x) (λ j. Present-insert m np j x)
            (λ d z. Listed-push_requests d np (requests x) q z) k)
          (tracked k y n (sym (lookup-insert np k x m ∙ rw other refl) ∙ g))
  ]

  -- A round keeps the imports of the loaded modules loaded or on the work list.
  visit-IsTracked :
      (root : VfsNode) (e : Bytes × Bytes) (m : Table M) (q : List (Bytes × Bytes)) (i : ℕ)
      (st' : LoadState M)
      → IsTracked root (record { modules = m; queue = e ∷ q; script_id = i })
      → visit compile requests root e (record { modules = m; queue = q; script_id = i })
        ≡ finished st'
      → IsTracked root st'
  visit-IsTracked root e m q i st' tracked h =
      let (np, n, v) = visit_inv compile requests root e _ st' h in
      elim v [
        | inl (x, known, same) ↦
            subst (IsTracked root) same (aliased-IsTracked root e m q i np x n known tracked)
        | inr (x, new, l, same) ↦
            subst (IsTracked root) same (loaded-IsTracked root e m q i np x n tracked)
      ]

  continue_inv :
      (go : LoadState M → Option (Outcome (Table M))) (o : Outcome (LoadState M)) (m : Table M)
      → continue_with compile requests go o ≡ some (finished m)
      → (st : LoadState M) × (o ≡ finished st) × (go st ≡ some (finished m))
  continue_inv go (finished st) m h = (st, refl, h)
  continue_inv go gives_none m h = cc
  continue_inv go panics m h = cc

  done_inj : {m m' : Table M} → some (finished m) ≡ some (finished m') → m ≡ m'
  done_inj h = cc

  drained :
      (root : VfsNode) (m : Table M) (i : ℕ)
      → IsTracked root (record { modules = m; queue = []; script_id = i })
      → IsClosed root m
  drained root m i tracked np x n l = All-map (requests x) no_longer_listed (tracked np x n l)
    where
      no_longer_listed :
          (s : Bytes)
          → IsPending root (record { modules = m; queue = []; script_id = i }) np s
          → IsResolved root m np s
      no_longer_listed s (inl z) = absurd z
      no_longer_listed s (inr r) = r

  load_loop-IsClosed :
      (n : ℕ) (root : VfsNode) (m : Table M) (q : List (Bytes × Bytes)) (i : ℕ) (m' : Table M)
      → IsTracked root (record { modules = m; queue = q; script_id = i })
      → load_loop compile requests n root (record { modules = m; queue = q; script_id = i })
        ≡ some (finished m')
      → IsClosed root m'
  unfolding load_loop
  load_loop-IsClosed zero root m q i m' tracked h = cc
  load_loop-IsClosed (suc n) root m [] i m' tracked h =
      subst (IsClosed root) (done_inj h) (drained root m i tracked)
  load_loop-IsClosed (suc n) root m (e ∷ q) i m' tracked h =
      let (st', v, g) =
        continue_inv (λ s. load_loop compile requests n root s)
          (visit compile requests root e (record { modules = m; queue = q; script_id = i })) m' h in
      load_loop-IsClosed n root st'.modules st'.queue st'.script_id m'
        (visit-IsTracked root e m q i st' tracked v) g

  done_with_inj : (s t : Table M × M) → some (finished s) ≡ some (finished t) → s ≡ t
  done_with_inj s t h = cc

  panics_ne_done : {b : Table M × M} → some panics ≡ some (finished b) → ⊥
  panics_ne_done h = cc

  entered_inv :
      (ip : Bytes) (o : Option (Outcome (Table M))) (m : Table M) (init : M)
      → entered_at compile requests ip o ≡ some (finished (m, init))
      → (o ≡ some (finished m)) × (lookup ip m ≡ some init)
  entered_inv ip none m init h = cc
  entered_inv ip (some gives_none) m init h = cc
  entered_inv ip (some panics) m init h = cc
  entered_inv ip (some (finished m')) m init h = elim (Option-cases (lookup ip m')) [
    | inl none_there ↦ absurd (panics_ne_done (rw none_there at h))
    | inr (x, there) ↦
        let same = done_with_inj (m', x) (m, init) (rw there at h) in
        (ap (λ s. some (finished (s.0))) same, subst (λ s. lookup ip (s.0) ≡ some (s.1)) same there)
  ]

  lookup-nil : (np : Bytes) {x : M} → lookup np [] ≡ some x → ⊥
  unfolding lookup
  lookup-nil np h = cc

  entry-IsClosed :
      (n : ℕ) (root : VfsNode) (index_path : Bytes) (m : Table M) (init : M)
      → load_module_with_dependencies compile requests n root index_path ≡ some (finished (m, init))
      → IsClosed root m
  unfolding load_module_with_dependencies
  entry-IsClosed n root index_path m init h = elim (Option-cases (normalize_path root index_path)) [
    | inl bad ↦ absurd (panics_ne_done (rw bad at h))
    | inr (ip, good) ↦
        load_loop-IsClosed n root [] ((codes "?", ip) ∷ []) 2 m
          (λ np x _ l. absurd (lookup-nil np l))
          (entered_inv ip (load_loop compile requests n root (start_of compile requests ip)) m init
            (rw good at h)).0
  ]

  -- When an entry has been loaded, every import of every module of the map is loaded: for a module `x`
  -- under its normalized path `np`, the path of each import relative to `np`, normalized, is a key of
  -- the map.
  pub load_module_with_dependencies-IsResolved :
      (n : ℕ) (root : VfsNode) (index_path : Bytes) (m : Table M) (init : M)
      → load_module_with_dependencies compile requests n root index_path ≡ some (finished (m, init))
      → (np : Bytes) (x : M) → normalize_path root np ≡ some np
      → lookup np m ≡ some x
      → All (IsResolved root m np) (requests x)
  load_module_with_dependencies-IsResolved n root index_path m init h np x normal there =
      entry-IsClosed n root index_path m init h np x normal there
