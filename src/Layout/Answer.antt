-- ===== src/Layout/Answer.antt =====
-- src/api/graphics/layout/mod.rs: what a solution that the application is given says.
use blueboat.Prelude.{
  ℕ, true, List, [], ◌∷◌, some, All, Any, get_elem?, map, ◌≡◌, refl, sym, ap, ◌∙◌, subst,
}
use blueboat.Layout.{
  LayoutBoxProperty, Prop, Z3, BoxMetrics, get, built, build_all, LayoutRequest, LayoutSolution,
  solution,
}
use blueboat.Layout.Engine.{
  new_engine, build_constraint, engine_of, build_property, build_z3_real, build_z3_prop, hard_of,
  soft_of, api_graphics_layout_solve,
}
use blueboat.Layout.Meaning.{Numbers, Z3Laws, value_of, or_zero, bind_inv, built_inj}
use blueboat.Layout.Agrees.{build_z3_real-value_of, build_z3_prop-is_true}
use blueboat.Layout.Boxes.{
  HasKey, lookup_box-entry, build_idmap_idindex-idindex, build_idmap_idindex-metrics,
  build_idmap_idindex-IsDistinct, build_idmap_idindex-HasKey,
}
use blueboat.Layout.Values.{
  build_all-map, build_all-All, get_elem?-map, by_index, metric_values, satisfied, IsLayout,
}
use blueboat.Layout.Read.{
  pos_in, build_property-by_index, eval_boxes-IsPlaced, eval_sat-map, hard_of-All, answered_inv,
  with_constraints_inv, with_metrics_inv,
}

module _ {Num : Type 0} (z3 : Z3 Num) (nums : Numbers z3) (laws : Z3Laws z3 nums)
    (req : LayoutRequest Num) (m : z3.Model) where
  open nums use {V, value, holds}

  abbrev pos_of : ℕ → LayoutBoxProperty → V
  pos_of = pos_in z3 nums laws m (engine_of z3 req).idmap

  -- The engine with metrics has the boxes of the one without.
  sides_lem :
      (ms : List z3.RealAst) (i : ℕ) (p : LayoutBoxProperty) (r : z3.RealAst)
      → build_property z3 (record (engine_of z3 req) { metrics = ms }) i p ≡ built r
      → value m r ≡ by_index z3 nums pos_of req.boxes i p
  sides_lem ms i p r h =
      subst (λ ids. value m r ≡ by_index z3 nums pos_of ids i p)
        (build_idmap_idindex-idindex z3 0 req.boxes (new_engine z3))
        (build_property-by_index z3 nums laws m (engine_of z3 req) i p r h)

  no_metric : (i : ℕ) (r : z3.RealAst) → get_elem? (engine_of z3 req).metrics i ≡ some r → ⊥
  no_metric i r h =
      let at =
        ap (λ xs. get_elem? xs i)
          (sym (build_idmap_idindex-metrics z3 0 req.boxes (new_engine z3))) in
      cc (at ∙ h)

  metrics_lem :
      (ms : List z3.RealAst)
      → build_all (build_z3_real z3 (engine_of z3 req)) req.metrics ≡ built ms
      → map (value m) ms ≡ metric_values z3 nums m pos_of req
  metrics_lem ms h =
      build_all-map (build_z3_real z3 (engine_of z3 req)) (value m)
        (value_of z3 nums m (by_index z3 nums pos_of req.boxes) [])
        (build_z3_real-value_of z3 nums laws m (engine_of z3 req)
          (by_index z3 nums pos_of req.boxes) [] (sides_lem (engine_of z3 req).metrics)
          (λ i r at. absurd (no_metric i r at)))
        req.metrics ms h

  constraint_lem :
      (ms : List z3.RealAst)
      → build_all (build_z3_real z3 (engine_of z3 req)) req.metrics ≡ built ms
      → (c : Prop Num × ℕ) (v : z3.BoolAst × ℕ)
      → build_constraint z3 (record (engine_of z3 req) { metrics = ms }) c ≡ built v
      → (holds m v.0 ≡ satisfied z3 nums m pos_of req c.0) × (v.1 ≡ c.1)
  constraint_lem ms h c v at =
      let (b, e_b, e_v) =
        bind_inv (build_z3_prop z3 (record (engine_of z3 req) { metrics = ms }) c.0) _ v at in
      let w = built_inj e_v in
      (
        ap (λ t. holds m t.0) (sym w)
            ∙ build_z3_prop-is_true z3 nums laws m (record (engine_of z3 req) { metrics = ms })
                (by_index z3 nums pos_of req.boxes) (metric_values z3 nums m pos_of req)
                (sides_lem ms)
                (λ i r e.
                  subst (λ xs. value m r ≡ or_zero z3 nums (get_elem? xs i)) (metrics_lem ms h)
                    (get_elem?-map z3 nums (value m) ms i r e))
                c.0 b e_b,
        ap (λ t. t.1) (sym w),
      )

  entry_lem :
      (id : ℕ) (bm : BoxMetrics z3.RealAst)
      → Any (λ e. e ≡ (id, bm)) (engine_of z3 req).idmap
      → (p : LayoutBoxProperty) → value m (get bm p) ≡ pos_of id p
  entry_lem id bm i p =
      rw
        (lookup_box-entry id bm (engine_of z3 req).idmap
          (build_idmap_idindex-IsDistinct z3 0 req.boxes (new_engine z3) tt) i)
        refl

All_imp :
    {A : Type 0} (P Q : A → Type 0) → ((a : A) → P a → Q a) → (xs : List A) → All P xs → All Q xs
All_imp P Q h [] a = tt
All_imp P Q h (x ∷ xs) a = (h x a.0, All_imp P Q h xs a.1)

module _ {Num : Type 0} (z3 : Z3 Num) (nums : Numbers z3) (laws : Z3Laws z3 nums) where
  -- Where the call gives a solution, there are positions of the boxes, by their identifiers, in a model of
  -- the solver, for which: `sat` says of every constraint whether it holds; those of weight 0 hold;
  -- every box of the request has an entry; and the sides in an entry are the floats of the positions. A
  -- constraint is read by its own meaning: a metric stands for the value of its expression, and a constant
  -- for the fraction that it is, without its sign.
  pub solution-IsLayout :
      (req : LayoutRequest Num) (s : LayoutSolution Num)
      → api_graphics_layout_solve z3 req ≡ solution s
      → (m : z3.Model) × (pos : ℕ → LayoutBoxProperty → nums.V) × IsLayout z3 nums m pos req s
  unfolding api_graphics_layout_solve
  solution-IsLayout req s h =
      let e = engine_of z3 req in
      let (ms, e_ms, h1) = with_metrics_inv z3 req e _ s h in
      let (cs, e_cs, h2) = with_constraints_inv z3 (record e { metrics = ms }) _ s h1 in
      let (m, checked, e_sat, e_boxes) = answered_inv z3 (record e { metrics = ms }) cs _ s h2 in
      let pos = pos_of z3 nums laws req m in
      let each = constraint_lem z3 nums laws req m ms e_ms in
      let (pl, ks) =
        eval_boxes-IsPlaced z3 nums laws m pos e.idmap (entry_lem z3 nums laws req m) s.boxes
          e_boxes in
      (
        m,
        pos,
        record {
          reported =
              eval_sat-map z3 nums laws m cs s.sat e_sat
              ∙ build_all-map (build_constraint z3 (record e { metrics = ms }))
                  (λ c. nums.holds m c.0) (λ c. satisfied z3 nums m pos req c.0)
                  (λ c v at. (each c v at).0) req.constraints cs e_cs;
          kept =
              build_all-All (build_constraint z3 (record e { metrics = ms }))
                (λ c. c.1 ≡ 0 → nums.holds m c.0 ≡ true)
                (λ c. c.1 ≡ 0 → satisfied z3 nums m pos req c.0 ≡ true)
                (λ c v at keep w. sym (each c v at).0 ∙ keep ((each c v at).1 ∙ w)) req.constraints
                cs e_cs
                (hard_of-All z3 nums laws m cs
                  (laws.check-sat (hard_of z3 cs) (soft_of z3 cs) m checked));
          placed = pl;
          complete =
              All_imp (λ id. HasKey id e.idmap) (λ id. HasKey id s.boxes) ks req.boxes
                (build_idmap_idindex-HasKey z3 0 req.boxes (new_engine z3));
        },
      )
