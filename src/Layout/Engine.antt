-- ===== src/Layout/Engine.antt =====
-- src/api/graphics/layout/mod.rs: the engine that translates a request for Z3, and the call around it.
use blueboat.Prelude.{
  ℕ, ◌+◌, Bool, List, [], ◌∷◌, ◌++◌, Option, none, some, ◌==◌, get_elem?, if◌then◌else◌, and_then,
}
use blueboat.Layout.{
  LayoutBoxProperty, Real, box_property, const, add, sub, mul, div, select, metric_ref, Prop, eq,
  lt, le, gt, ge, or_prop, and_prop, not_prop, SatResult, sat, unsat, unknown, Z3, BoxMetrics, get,
  box_index_not_found, box_id_not_found, invalid_real_const, invalid_metric_ref, Built, rejected,
  built, ◌>>=◌, or_reject, both, all_three, build_all, LayoutRequest, Solved, fails, is_unsat,
  is_unknown, panics, solution,
}

-- The map of the boxes, by their identifiers.
module _ {T : Type 0} where
  abbrev pub lookup_box : ℕ → List (ℕ × BoxMetrics T) → Option (BoxMetrics T)
  lookup_box k [] = none
  lookup_box k ((j, x) ∷ r) = let rest = lookup_box k r in if j == k then some x else rest

  abbrev pub insert_box : ℕ → BoxMetrics T → List (ℕ × BoxMetrics T) → List (ℕ × BoxMetrics T)
  insert_box k x [] = (k, x) ∷ []
  insert_box k x ((j, y) ∷ r) =
      let rest = insert_box k x r in if j == k then (k, x) ∷ r else (j, y) ∷ rest

module _ {Num : Type 0} (z3 : Z3 Num) where
  open z3 use {
    RealAst, BoolAst, Model, fresh_const, from_real, real_add, real_sub, real_mul, real_div, ite,
    real_eq, real_lt, real_le, real_gt, real_ge, bool_or, bool_and, bool_not, fraction, check,
    as_bool, as_real, quotient,
  }

  pub record LayoutEngine : Type 0 where
    pub idmap : List (ℕ × BoxMetrics RealAst)
    pub idindex : List ℕ
    pub metrics : List RealAst

  abbrev pub new_engine : LayoutEngine
  new_engine = record { idmap = []; idindex = []; metrics = [] }

  -- Five new constants; `k` of them have been made before.
  abbrev pub fresh_metrics : ℕ → BoxMetrics RealAst
  fresh_metrics k = record {
    left = fresh_const k;
    right = fresh_const (k + 1);
    top = fresh_const (k + 2);
    bottom = fresh_const (k + 3);
    z = fresh_const (k + 4);
  }

  unfoldable pub build_idmap_idindex : ℕ → List ℕ → LayoutEngine → LayoutEngine
  build_idmap_idindex k [] e = e
  build_idmap_idindex k (id ∷ ids) e =
      build_idmap_idindex (k + 5) ids (record e {
        idmap = insert_box id (fresh_metrics k) e.idmap;
        idindex = e.idindex ++ id ∷ [];
      })

  abbrev pub property_of : LayoutEngine → LayoutBoxProperty → ℕ → Built Num RealAst
  property_of e p id =
      or_reject (box_id_not_found id) (lookup_box id e.idmap) >>= (λ bm. built (get bm p))

  abbrev pub build_property : LayoutEngine → ℕ → LayoutBoxProperty → Built Num RealAst
  build_property e i p =
      or_reject (box_index_not_found i) (get_elem? e.idindex i) >>= property_of e p

  abbrev pub build_const : Num → Built Num RealAst
  build_const v =
      or_reject (invalid_real_const v) (fraction v) >>= (λ (num, den). built (from_real num den))

  unfoldable mutual
    pub build_z3_prop : LayoutEngine → Prop Num → Built Num BoolAst
    build_z3_prop e (eq l r) = both real_eq (build_z3_real e l) (build_z3_real e r)
    build_z3_prop e (lt l r) = both real_lt (build_z3_real e l) (build_z3_real e r)
    build_z3_prop e (le l r) = both real_le (build_z3_real e l) (build_z3_real e r)
    build_z3_prop e (gt l r) = both real_gt (build_z3_real e l) (build_z3_real e r)
    build_z3_prop e (ge l r) = both real_ge (build_z3_real e l) (build_z3_real e r)
    build_z3_prop e (or_prop l r) = both bool_or (build_z3_prop e l) (build_z3_prop e r)
    build_z3_prop e (and_prop l r) = both bool_and (build_z3_prop e l) (build_z3_prop e r)
    build_z3_prop e (not_prop v) = build_z3_prop e v >>= (λ b. built (bool_not b))

    pub build_z3_real : LayoutEngine → Real Num → Built Num RealAst
    build_z3_real e (box_property i p) = build_property e i p
    build_z3_real e (const v) = build_const v
    build_z3_real e (add l r) = both real_add (build_z3_real e l) (build_z3_real e r)
    build_z3_real e (sub l r) = both real_sub (build_z3_real e l) (build_z3_real e r)
    build_z3_real e (mul l r) = both real_mul (build_z3_real e l) (build_z3_real e r)
    build_z3_real e (div l r) = both real_div (build_z3_real e l) (build_z3_real e r)
    build_z3_real e (select c l r) =
        all_three ite (build_z3_prop e c) (build_z3_real e l) (build_z3_real e r)
    build_z3_real e (metric_ref i) = or_reject (invalid_metric_ref i) (get_elem? e.metrics i)

  -- A weight of 0 is a hard assertion.
  abbrev pub hard_of : List (BoolAst × ℕ) → List BoolAst
  hard_of [] = []
  hard_of ((c, w) ∷ r) = let rest = hard_of r in if w == 0 then c ∷ rest else rest

  abbrev pub soft_of : List (BoolAst × ℕ) → List (BoolAst × ℕ)
  soft_of [] = []
  soft_of ((c, w) ∷ r) = let rest = soft_of r in if w == 0 then rest else (c, w) ∷ rest

  -- The loop over the constraints; `none` is a panic.
  unfoldable pub eval_sat : Model → List (BoolAst × ℕ) → Option (List Bool)
  eval_sat m [] = some []
  eval_sat m ((c, w) ∷ r) =
      and_then (as_bool m c) (λ x. and_then (eval_sat m r) (λ xs. some (x ∷ xs)))

  abbrev pub must_eval_real : Model → RealAst → Option Num
  must_eval_real m v = and_then (as_real m v) (λ (num, den). some (quotient num den))

  -- The fields in the order in which they are evaluated.
  abbrev pub eval_box : Model → BoxMetrics RealAst → Option (BoxMetrics Num)
  eval_box m bm = and_then (must_eval_real m bm.left) (λ l.
      and_then (must_eval_real m bm.right) (λ r. and_then (must_eval_real m bm.top) (λ t.
        and_then (must_eval_real m bm.bottom) (λ b.
          and_then (must_eval_real m bm.z)
            (λ h. some (record { left = l; right = r; top = t; bottom = b; z = h }))))))

  unfoldable pub eval_boxes :
      Model → List (ℕ × BoxMetrics RealAst) → Option (List (ℕ × BoxMetrics Num))
  eval_boxes m [] = some []
  eval_boxes m ((id, bm) ∷ r) =
      and_then (eval_box m bm) (λ x. and_then (eval_boxes m r) (λ xs. some ((id, x) ∷ xs)))

  abbrev pub solved_by : Option (List Bool) → Option (List (ℕ × BoxMetrics Num)) → Solved Num
  solved_by (some s) (some bs) = solution (record { boxes = bs; sat = s })
  solved_by (some s) none = panics
  solved_by none bs = panics

  abbrev pub answered : LayoutEngine → List (BoolAst × ℕ) → SatResult Model → Solved Num
  answered e cs (sat m) = solved_by (eval_sat m cs) (eval_boxes m e.idmap)
  answered e cs unsat = is_unsat
  answered e cs unknown = is_unknown

  abbrev pub with_constraints : LayoutEngine → Built Num (List (BoolAst × ℕ)) → Solved Num
  with_constraints e (rejected x) = fails x
  with_constraints e (built cs) = answered e cs (check (hard_of cs) (soft_of cs))

  abbrev pub build_constraint : LayoutEngine → Prop Num × ℕ → Built Num (BoolAst × ℕ)
  build_constraint e (p, w) = build_z3_prop e p >>= (λ c. built (c, w))

  abbrev pub with_metrics : LayoutRequest Num → LayoutEngine → Built Num (List RealAst) → Solved Num
  with_metrics req e (rejected x) = fails x
  with_metrics req e (built ms) =
      let e' = record e { metrics = ms } in
      with_constraints e' (build_all (build_constraint e') req.constraints)

  -- The engine while the metrics are built: it has none.
  abbrev pub engine_of : LayoutRequest Num → LayoutEngine
  engine_of req = build_idmap_idindex 0 req.boxes new_engine

  unfoldable pub api_graphics_layout_solve : LayoutRequest Num → Solved Num
  unfolding build_z3_real build_idmap_idindex eval_sat eval_boxes
  api_graphics_layout_solve req =
      let e = engine_of req in with_metrics req e (build_all (build_z3_real e) req.metrics)
