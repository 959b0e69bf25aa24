-- ===== src/Layout/Accepted.antt =====
-- src/api/graphics/layout/mod.rs: the requests that the engine refuses.
use blueboat.Prelude.{
  ℕ, zero, suc, Bool, true, false, ◌&&◌, not, List, [], ◌∷◌, Option, none, some, get_elem?, length,
  ltb, All, ◌≡◌, refl, ap, ◌∙◌, arith,
}
use blueboat.Layout.{
  LayoutBoxProperty, SatResult, sat, unsat, unknown, Z3, BoxMetrics, LayoutError,
  box_index_not_found, Built, rejected, built, ◌>>=◌, or_reject, build_all, LayoutRequest, Solved,
  fails,
}
use blueboat.Layout.Engine.{
  lookup_box, LayoutEngine, new_engine, build_property, property_of, build_z3_real, build_z3_prop,
  build_constraint, with_constraints, with_metrics, answered, solved_by, engine_of,
  api_graphics_layout_solve, hard_of, soft_of, eval_sat, eval_boxes,
}
use blueboat.Layout.Meaning.{both_inv, built_inj}
use blueboat.Layout.Boxes.{
  HasKey, build_idmap_idindex-idindex, build_idmap_idindex-metrics, build_idmap_idindex-HasKey,
}
use blueboat.Layout.Scoped.{
  all_of, all_of-ap, is_built, is_built-build_all, is_built-mapped, is_built-or_reject, is_some,
  prop_scoped, prop_scoped_lem, real_scoped, real_scoped_lem,
}

lookup_box-HasKey :
    {T : Type 0} (id : ℕ) (xs : List (ℕ × BoxMetrics T))
    → HasKey id xs
    → is_some (lookup_box id xs) ≡ true
lookup_box-HasKey id [] h = elim h [ ]
lookup_box-HasKey id ((j, x) ∷ xs) h = ground (arith, lookup_box-HasKey id xs)

-- Whether the call gives an error.
abbrev pub is_failure : {Num : Type 0} → Solved Num → Bool
is_failure (fails x) = true
is_failure _ = false

module _ {Num : Type 0} (z3 : Z3 Num) where
  property_built :
      (e : LayoutEngine z3) (p : LayoutBoxProperty) (id : ℕ)
      → HasKey id e.idmap
      → is_built (property_of z3 e p id) ≡ true
  property_built e p id h =
      is_built-mapped _ (or_reject _ (lookup_box id e.idmap))
      ∙ is_built-or_reject _ (lookup_box id e.idmap)
      ∙ lookup_box-HasKey id e.idmap h

  index_built :
      (e : LayoutEngine z3) (p : LayoutBoxProperty) (x : LayoutError Num) (ids : List ℕ)
      → All (λ id. HasKey id e.idmap) ids
      → (i : ℕ)
      → is_built (or_reject x (get_elem? ids i) >>= property_of z3 e p) ≡ ltb i (length ids)
  index_built e p x [] ks i = ground arith
  index_built e p x (id ∷ ids) ks zero = property_built e p id ks.0 ∙ ground arith
  index_built e p x (id ∷ ids) ks (suc i) = index_built e p x ids ks.1 i ∙ ground arith

  engine_built :
      (req : LayoutRequest Num) (ms : List z3.RealAst) (i : ℕ) (p : LayoutBoxProperty)
      → is_built (build_property z3 (record (engine_of z3 req) { metrics = ms }) i p)
        ≡ ltb i (length req.boxes)
  engine_built req ms i p =
      let e = record (engine_of z3 req) { metrics = ms } in
      ap
        (λ ids.
          is_built (or_reject (box_index_not_found i) (get_elem? ids i) >>= property_of z3 e p))
        (build_idmap_idindex-idindex z3 0 req.boxes (new_engine z3))
      ∙ index_built e p (box_index_not_found i) req.boxes
          (build_idmap_idindex-HasKey z3 0 req.boxes (new_engine z3)) i

  length-built :
      {U V : Type 0} (f : U → Built Num V) (xs : List U) (vs : List V)
      → build_all f xs ≡ built vs
      → length vs ≡ length xs
  length-built f [] vs h = rw (← built_inj h) refl
  length-built f (x ∷ xs) vs h =
      let (v, ws, e_v, e_w, at) = both_inv (λ v vs. v ∷ vs) (f x) (build_all f xs) vs h in
      ap length at ∙ ap suc (length-built f xs ws e_w)

  -- Metrics are read with no metric to refer to, constraints with all of them.
  abbrev pub is_well_scoped : LayoutRequest Num → Bool
  is_well_scoped req =
      all_of (real_scoped z3 (length req.boxes) 0) req.metrics
      && all_of (λ c. prop_scoped z3 (length req.boxes) (length req.metrics) c.0) req.constraints

  constraints_scoped :
      (req : LayoutRequest Num) (ms : List z3.RealAst)
      → length ms ≡ length req.metrics
      → let e = record (engine_of z3 req) { metrics = ms } in
        is_built (build_all (build_constraint z3 e) req.constraints)
        ≡ all_of (λ c. prop_scoped z3 (length req.boxes) (length req.metrics) c.0) req.constraints
  constraints_scoped req ms same =
      let e = record (engine_of z3 req) { metrics = ms } in
      is_built-build_all (build_constraint z3 e) req.constraints
      ∙ all_of-ap _ _
          (λ c.
            is_built-mapped _ (build_z3_prop z3 e c.0)
            ∙ prop_scoped_lem z3 e (length req.boxes) (engine_built req ms) c.0
            ∙ ap (λ k. prop_scoped z3 (length req.boxes) k c.0) same)
          req.constraints

  metrics_scoped :
      (req : LayoutRequest Num)
      → is_built (build_all (build_z3_real z3 (engine_of z3 req)) req.metrics)
        ≡ all_of (real_scoped z3 (length req.boxes) 0) req.metrics
  metrics_scoped req =
      let e = engine_of z3 req in
      is_built-build_all (build_z3_real z3 e) req.metrics
      ∙ all_of-ap _ _
          (λ x.
            real_scoped_lem z3 e (length req.boxes) (engine_built req e.metrics) x
            ∙ ap (λ ms. real_scoped z3 (length req.boxes) (length ms) x)
                (build_idmap_idindex-metrics z3 0 req.boxes (new_engine z3)))
          req.metrics

  answered_ok :
      (e : LayoutEngine z3) (cs : List (z3.BoolAst × ℕ)) (r : SatResult z3.Model)
      → is_failure (answered z3 e cs r) ≡ false
  answered_ok e cs unsat = refl
  answered_ok e cs unknown = refl
  answered_ok e cs (sat m) = evaluated (eval_sat z3 m cs) (eval_boxes z3 m e.idmap)
    where
      evaluated :
          (o : Option (List Bool)) (o' : Option (List (ℕ × BoxMetrics Num)))
          → is_failure (solved_by z3 o o') ≡ false
      evaluated none o' = refl
      evaluated (some s) none = refl
      evaluated (some s) (some bs) = refl

  with_constraints_lem :
      (e : LayoutEngine z3) (o : Built Num (List (z3.BoolAst × ℕ)))
      → is_failure (with_constraints z3 e o) ≡ not (is_built o)
  with_constraints_lem e (rejected x) = refl
  with_constraints_lem e (built cs) = answered_ok e cs (z3.check (hard_of z3 cs) (soft_of z3 cs))

  with_metrics_lem :
      (req : LayoutRequest Num) (o : Built Num (List z3.RealAst))
      → ((ms : List z3.RealAst) → o ≡ built ms → length ms ≡ length req.metrics)
      → is_failure (with_metrics z3 req (engine_of z3 req) o)
        ≡ not (
            is_built o
            && all_of
                (λ c. prop_scoped z3 (length req.boxes) (length req.metrics) c.0)
                req.constraints)
  with_metrics_lem req (rejected x) h = refl
  with_metrics_lem req (built ms) h =
      with_constraints_lem (record (engine_of z3 req) { metrics = ms }) _
      ∙ ap not (constraints_scoped req ms (h ms refl))

  -- A request is answered with an error exactly when a constraint or a metric refers to a box that is
  -- not there, has a constant that is no fraction of 32 bits, or refers to a metric: a constraint to one
  -- that is not there, and a metric to any.
  pub solve_fails_iff :
      (req : LayoutRequest Num)
      → is_failure (api_graphics_layout_solve z3 req) ≡ not (is_well_scoped req)
  unfolding api_graphics_layout_solve
  solve_fails_iff req =
      with_metrics_lem req _ (length-built (build_z3_real z3 (engine_of z3 req)) req.metrics)
      ∙ ap
          (λ b. not (
            b
            && all_of (λ c. prop_scoped z3 (length req.boxes) (length req.metrics) c.0)
                req.constraints))
          (metrics_scoped req)
