-- ===== src/Layout/Read.antt =====
-- src/api/graphics/layout/mod.rs: what is read from a model, and the ways to a solution.
use blueboat.Prelude.{
  ℕ, Bool, true, List, [], ◌∷◌, Option, none, some, All, Any, get_elem?, map, ◌≡◌, refl, sym, ap,
  ap₂, ◌∙◌, arith, inl, inr, some_inj, subst,
}
use blueboat.Layout.{
  LayoutBoxProperty, SatResult, sat, unsat, unknown, Z3, BoxMetrics, get, Built, rejected, built,
  build_all, LayoutRequest, LayoutSolution, solution,
}
use blueboat.Layout.Engine.{
  lookup_box, LayoutEngine, eval_box, eval_boxes, eval_sat, solved_by, answered, with_constraints,
  build_constraint, with_metrics, build_property, property_of, hard_of, soft_of,
}
use blueboat.Layout.Meaning.{Numbers, Z3Laws, zero_value, bind_inv, built_inj, or_reject_inv}
use blueboat.Layout.Boxes.{HasKey}
use blueboat.Layout.Values.{and_then_inv, by_index, IsFloatOf, eval_box-IsFloatOf}

module _ {Num : Type 0} (z3 : Z3 Num) (nums : Numbers z3) (laws : Z3Laws z3 nums)
    (m : z3.Model) where
  open nums use {V, value, holds}

  abbrev value_in : Option (BoxMetrics z3.RealAst) → LayoutBoxProperty → V
  value_in none p = zero_value z3 nums
  value_in (some bm) p = value m (get bm p)

  -- The sides in the model, by the engine's map.
  abbrev pub pos_in : List (ℕ × BoxMetrics z3.RealAst) → ℕ → LayoutBoxProperty → V
  pos_in xs id p = value_in (lookup_box id xs) p

  pub build_property-by_index :
      (e : LayoutEngine z3) (i : ℕ) (p : LayoutBoxProperty) (r : z3.RealAst)
      → build_property z3 e i p ≡ built r
      → value m r ≡ by_index z3 nums (pos_in e.idmap) e.idindex i p
  build_property-by_index e i p r h =
      let (id, e_id, h') = bind_inv _ (property_of z3 e p) r h in
      let (bm, e_bm, h'') = bind_inv _ _ r h' in
      let at = or_reject_inv (get_elem? e.idindex i) _ id e_id in
      let found = or_reject_inv (lookup_box id e.idmap) _ bm e_bm in
      rw (at, found) (ap (value m) (sym (built_inj h'')))

  abbrev pub IsPlaced :
      (ℕ → LayoutBoxProperty → V)
      → List (ℕ × BoxMetrics z3.RealAst)
      → List (ℕ × BoxMetrics Num)
      → Type 0
  IsPlaced pos xs bs =
      All (λ b. (p : LayoutBoxProperty) → IsFloatOf z3 nums (pos b.0 p) (get b.1 p)) bs
      × ((id : ℕ) → HasKey id xs → HasKey id bs)

  pub eval_boxes-IsPlaced :
      (pos : ℕ → LayoutBoxProperty → V) (xs : List (ℕ × BoxMetrics z3.RealAst))
      → ((id : ℕ) (bm : BoxMetrics z3.RealAst)
          → Any (λ e. e ≡ (id, bm)) xs
          → (p : LayoutBoxProperty) → value m (get bm p) ≡ pos id p)
      → (bs : List (ℕ × BoxMetrics Num)) → eval_boxes z3 m xs ≡ some bs
      → IsPlaced pos xs bs
  unfolding eval_boxes
  eval_boxes-IsPlaced pos [] h bs e = subst (IsPlaced pos []) (some_inj e) (tt, λ id i. i)
  eval_boxes-IsPlaced pos ((id, bm) ∷ xs) h bs e =
      let (b, e_b, e') = and_then_inv (eval_box z3 m bm) _ bs e in
      let (cs, e_cs, e'') = and_then_inv (eval_boxes z3 m xs) _ bs e' in
      let (pl, ks) = eval_boxes-IsPlaced pos xs (λ j y i. h j y (inr i)) cs e_cs in
      subst (IsPlaced pos ((id, bm) ∷ xs)) (some_inj e'') (
        (
          (λ p.
              subst (λ v. IsFloatOf z3 nums v (get b p)) (h id bm (inl refl) p)
                (eval_box-IsFloatOf z3 nums laws m bm b e_b p)),
          pl,
        ),
        λ k i. elim i [ inl at ↦ inl at | inr later ↦ inr (ks k later) ],
      )

  pub eval_sat-map :
      (cs : List (z3.BoolAst × ℕ)) (xs : List Bool)
      → eval_sat z3 m cs ≡ some xs
      → xs ≡ map (λ c. holds m c.0) cs
  unfolding eval_sat
  eval_sat-map [] xs e = sym (some_inj e)
  eval_sat-map ((c, w) ∷ cs) xs e =
      let (x, e_x, e') = and_then_inv (z3.as_bool m c) _ xs e in
      let (ys, e_ys, e'') = and_then_inv (eval_sat z3 m cs) _ xs e' in
      sym (some_inj e'')
      ∙ ap₂ (λ y zs. y ∷ zs) (sym (laws.holds-as_bool m c x e_x)) (eval_sat-map cs ys e_ys)

  pub hard_of-All :
      (cs : List (z3.BoolAst × ℕ))
      → All (λ c. holds m c ≡ true) (hard_of z3 cs)
      → All (λ c. c.1 ≡ 0 → holds m c.0 ≡ true) cs
  hard_of-All [] a = tt
  hard_of-All ((c, w) ∷ cs) a = ground (arith, hard_of-All cs)

module _ {Num : Type 0} (z3 : Z3 Num) where
  solved_by_inv :
      (o : Option (List Bool)) (o' : Option (List (ℕ × BoxMetrics Num))) (s : LayoutSolution Num)
      → solved_by z3 o o' ≡ solution s
      → (o ≡ some s.sat) × (o' ≡ some s.boxes)
  solved_by_inv none o' s h = cc
  solved_by_inv (some x) none s h = cc
  solved_by_inv (some x) (some bs) s h =
      (ap (λ t. some t.sat) (inj h), ap (λ t. some t.boxes) (inj h))
    where
      inj : {t : LayoutSolution Num} → solution t ≡ solution s → t ≡ s
      inj e = cc

  pub answered_inv :
      (e : LayoutEngine z3) (cs : List (z3.BoolAst × ℕ)) (r : SatResult z3.Model)
      (s : LayoutSolution Num)
      → answered z3 e cs r ≡ solution s
      → (m : z3.Model) × (r ≡ sat m)
        × (eval_sat z3 m cs ≡ some s.sat)
        × (eval_boxes z3 m e.idmap ≡ some s.boxes)
  answered_inv e cs (sat m) s h =
      let (a, b) = solved_by_inv (eval_sat z3 m cs) (eval_boxes z3 m e.idmap) s h in (m, refl, a, b)
  answered_inv e cs unsat s h = cc
  answered_inv e cs unknown s h = cc

  pub with_constraints_inv :
      (e : LayoutEngine z3) (o : Built Num (List (z3.BoolAst × ℕ))) (s : LayoutSolution Num)
      → with_constraints z3 e o ≡ solution s
      → (cs : List (z3.BoolAst × ℕ)) × (o ≡ built cs)
        × (answered z3 e cs (z3.check (hard_of z3 cs) (soft_of z3 cs)) ≡ solution s)
  with_constraints_inv e (rejected x) s h = cc
  with_constraints_inv e (built cs) s h = (cs, refl, h)

  pub with_metrics_inv :
      (req : LayoutRequest Num) (e : LayoutEngine z3) (o : Built Num (List z3.RealAst))
      (s : LayoutSolution Num)
      → with_metrics z3 req e o ≡ solution s
      → (ms : List z3.RealAst) × (o ≡ built ms)
        × (with_constraints z3
              (record e { metrics = ms })
              (build_all (build_constraint z3 (record e { metrics = ms })) req.constraints)
            ≡ solution s)
  with_metrics_inv req e (rejected x) s h = cc
  with_metrics_inv req e (built ms) s h = (ms, refl, h)
