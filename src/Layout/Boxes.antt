-- ===== src/Layout/Boxes.antt =====
-- src/api/graphics/layout/mod.rs: the map of the boxes, and the values that are read for them.
use blueboat.Prelude.{
  ℕ, List, [], ◌∷◌, ◌++◌, none, some, ◌==◌, if◌then◌else◌, All, Any, ◌≡◌, refl, sym, ap, ◌∙◌, arith,
  inl, inr, append_assoc, append-nil, ◌+◌, ==_refl,
}
use blueboat.Layout.{Z3, BoxMetrics}
use blueboat.Layout.Engine.{
  lookup_box, insert_box, LayoutEngine, build_idmap_idindex, fresh_metrics,
}

module _ {T : Type 0} where
  abbrev pub IsDistinct : List (ℕ × BoxMetrics T) → Type 0
  IsDistinct [] = Unit {0}
  IsDistinct ((j, x) ∷ r) = (lookup_box j r ≡ none) × IsDistinct r

  abbrev pub HasKey : ℕ → List (ℕ × BoxMetrics T) → Type 0
  HasKey k xs = Any (λ x. x.0 ≡ k) xs

  lookup-insert :
      (j k : ℕ) (x : BoxMetrics T) (r : List (ℕ × BoxMetrics T))
      → lookup_box j (insert_box k x r) ≡ (if k == j then some x else lookup_box j r)
  lookup-insert j k x [] = refl
  lookup-insert j k x ((i, y) ∷ r) = ground (arith, lookup-insert j k x r)

  insert_box-IsDistinct :
      (k : ℕ) (x : BoxMetrics T) (r : List (ℕ × BoxMetrics T))
      → IsDistinct r
      → IsDistinct (insert_box k x r)
  insert_box-IsDistinct k x [] d = (refl, tt)
  insert_box-IsDistinct k x ((i, y) ∷ r) d =
      ground (arith, lookup-insert i k x r, insert_box-IsDistinct k x r d.1)

  insert_box-HasKey :
      (k : ℕ) (x : BoxMetrics T) (r : List (ℕ × BoxMetrics T)) → HasKey k (insert_box k x r)
  insert_box-HasKey k x [] = inl refl
  insert_box-HasKey k x ((i, y) ∷ r) = ground (arith, insert_box-HasKey k x r)

  insert_box_keeps :
      (j k : ℕ) (x : BoxMetrics T) (r : List (ℕ × BoxMetrics T))
      → HasKey j r
      → HasKey j (insert_box k x r)
  insert_box_keeps j k x [] h = elim h [ ]
  insert_box_keeps j k x ((i, y) ∷ r) h = ground (arith, insert_box_keeps j k x r)

  pub lookup_box-entry :
      (k : ℕ) (x : BoxMetrics T) (r : List (ℕ × BoxMetrics T))
      → IsDistinct r
      → Any (λ e. e ≡ (k, x)) r
      → lookup_box k r ≡ some x
  lookup_box-entry k x [] d i = elim i [ ]
  lookup_box-entry k x ((j, y) ∷ r) d (inl e) =
      rw (ap (λ t. t.0) e, ==_refl k) (ap (λ t. some t.1) e)
  lookup_box-entry k x ((j, y) ∷ r) d (inr i) = ground (arith, lookup_box-entry k x r d.1 i)

module _ {Num : Type 0} (z3 : Z3 Num) where
  pub build_idmap_idindex-idindex :
      (k : ℕ) (ids : List ℕ) (e : LayoutEngine z3)
      → (build_idmap_idindex z3 k ids e).idindex ≡ e.idindex ++ ids
  unfolding build_idmap_idindex
  build_idmap_idindex-idindex k [] e = sym (append-nil e.idindex)
  build_idmap_idindex-idindex k (id ∷ ids) e =
      build_idmap_idindex-idindex (k + 5) ids _ ∙ append_assoc e.idindex (id ∷ []) ids

  pub build_idmap_idindex-metrics :
      (k : ℕ) (ids : List ℕ) (e : LayoutEngine z3)
      → (build_idmap_idindex z3 k ids e).metrics ≡ e.metrics
  unfolding build_idmap_idindex
  build_idmap_idindex-metrics k [] e = refl
  build_idmap_idindex-metrics k (id ∷ ids) e = build_idmap_idindex-metrics (k + 5) ids _

  pub build_idmap_idindex-IsDistinct :
      (k : ℕ) (ids : List ℕ) (e : LayoutEngine z3)
      → IsDistinct e.idmap
      → IsDistinct (build_idmap_idindex z3 k ids e).idmap
  unfolding build_idmap_idindex
  build_idmap_idindex-IsDistinct k [] e d = d
  build_idmap_idindex-IsDistinct k (id ∷ ids) e d =
      build_idmap_idindex-IsDistinct (k + 5) ids _
        (insert_box-IsDistinct id (fresh_metrics z3 k) e.idmap d)

  build_idmap_idindex_keeps :
      (j k : ℕ) (ids : List ℕ) (e : LayoutEngine z3)
      → HasKey j e.idmap
      → HasKey j (build_idmap_idindex z3 k ids e).idmap
  unfolding build_idmap_idindex
  build_idmap_idindex_keeps j k [] e h = h
  build_idmap_idindex_keeps j k (id ∷ ids) e h =
      build_idmap_idindex_keeps j (k + 5) ids _
        (insert_box_keeps j id (fresh_metrics z3 k) e.idmap h)

  pub build_idmap_idindex-HasKey :
      (k : ℕ) (ids : List ℕ) (e : LayoutEngine z3)
      → All (λ id. HasKey id (build_idmap_idindex z3 k ids e).idmap) ids
  unfolding build_idmap_idindex
  build_idmap_idindex-HasKey k [] e = tt
  build_idmap_idindex-HasKey k (id ∷ ids) e = (
    build_idmap_idindex_keeps id (k + 5) ids _ (insert_box-HasKey id (fresh_metrics z3 k) e.idmap),
    build_idmap_idindex-HasKey (k + 5) ids _,
  )
