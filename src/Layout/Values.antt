-- ===== src/Layout/Values.antt =====
-- src/api/graphics/layout/mod.rs: what it means that a solution is a layout, and the values that are read
-- from a model.
use blueboat.Prelude.{
  ℕ, zero, suc, Bool, true, List, [], ◌∷◌, Option, none, some, and_then, All, get_elem?, map, ◌≡◌,
  refl, sym, ap, ap₂, ◌∙◌, some_inj, subst,
}
use blueboat.Prelude.Int.{ℤ}
use blueboat.Layout.{
  LayoutBoxProperty, left, top, bottom, right, z, Prop, Z3, BoxMetrics, get, Built, built,
  build_all, LayoutRequest, LayoutSolution,
}
use blueboat.Layout.Engine.{must_eval_real, eval_box}
use blueboat.Layout.Meaning.{
  Numbers, Z3Laws, value_of, is_true, zero_value, or_zero, both_inv, built_inj,
}
use blueboat.Layout.Boxes.{HasKey}

pub and_then_inv :
    {A B : Type 0} (o : Option A) (f : A → Option B) (b : B)
    → and_then o f ≡ some b
    → (a : A) × (o ≡ some a) × (f a ≡ some b)
and_then_inv none f b h = cc
and_then_inv (some a) f b h = (a, refl, h)

pub build_all-map :
    {Num U V Y : Type 0} (f : U → Built Num V) (g : V → Y) (h : U → Y)
    → ((u : U) (v : V) → f u ≡ built v → g v ≡ h u)
    → (us : List U) (vs : List V) → build_all f us ≡ built vs
    → map g vs ≡ map h us
build_all-map f g h k [] vs e = rw (← built_inj e) refl
build_all-map f g h k (u ∷ us) vs e =
    let (v, ws, ev, ew, at) = both_inv (λ v vs. v ∷ vs) (f u) (build_all f us) vs e in
    ap (map g) at ∙ ap₂ (λ y ys. y ∷ ys) (k u v ev) (build_all-map f g h k us ws ew)

pub build_all-All :
    {Num U V : Type 0} (f : U → Built Num V) (P : V → Type 0) (Q : U → Type 0)
    → ((u : U) (v : V) → f u ≡ built v → P v → Q u)
    → (us : List U) (vs : List V) → build_all f us ≡ built vs
    → All P vs
    → All Q us
build_all-All f P Q k [] vs e a = tt
build_all-All f P Q k (u ∷ us) vs e a =
    let (v, ws, ev, ew, at) = both_inv (λ v vs. v ∷ vs) (f u) (build_all f us) vs e in
    let b = subst (All P) at a in (k u v ev b.0, build_all-All f P Q k us ws ew b.1)

pub get_elem?-map :
    {A : Type 0} {Num : Type 0} (z3 : Z3 Num) (nums : Numbers z3) (f : A → nums.V) (xs : List A)
    (i : ℕ) (a : A)
    → get_elem? xs i ≡ some a
    → f a ≡ or_zero z3 nums (get_elem? (map f xs) i)
get_elem?-map z3 nums f [] i a h = cc
get_elem?-map z3 nums f (x ∷ xs) zero a h = ap f (sym (some_inj h))
get_elem?-map z3 nums f (x ∷ xs) (suc i) a h = get_elem?-map z3 nums f xs i a h

module _ {Num : Type 0} (z3 : Z3 Num) (nums : Numbers z3) where
  open nums use {V, of_ints, value, holds}

  -- The sides of a box by its index, where those of the boxes with an identifier are `pos`.
  abbrev pub of_id : (ℕ → LayoutBoxProperty → V) → LayoutBoxProperty → Option ℕ → V
  of_id pos p none = zero_value z3 nums
  of_id pos p (some id) = pos id p

  abbrev pub by_index : (ℕ → LayoutBoxProperty → V) → List ℕ → ℕ → LayoutBoxProperty → V
  by_index pos ids i p = of_id pos p (get_elem? ids i)

  -- The values of the metrics; a metric knows no other.
  abbrev pub metric_values : z3.Model → (ℕ → LayoutBoxProperty → V) → LayoutRequest Num → List V
  metric_values m pos req = map (value_of z3 nums m (by_index pos req.boxes) []) req.metrics

  abbrev pub satisfied :
      z3.Model → (ℕ → LayoutBoxProperty → V) → LayoutRequest Num → Prop Num → Bool
  satisfied m pos req p = is_true z3 nums m (by_index pos req.boxes) (metric_values m pos req) p

  -- The float that stands for a number.
  abbrev pub IsFloatOf : V → Num → Type 0
  IsFloatOf v q = (n : ℤ) × (d : ℤ) × (v ≡ of_ints n d) × (q ≡ z3.quotient n d)

  -- What a solution says of the positions of the boxes.
  pub record IsLayout (m : z3.Model) (pos : ℕ → LayoutBoxProperty → V) (req : LayoutRequest Num)
      (s : LayoutSolution Num) : Type 0 where
    pub reported : s.sat ≡ map (λ c. satisfied m pos req c.0) req.constraints
    pub kept : All (λ c. c.1 ≡ 0 → satisfied m pos req c.0 ≡ true) req.constraints
    pub placed : All (λ b. (p : LayoutBoxProperty) → IsFloatOf (pos b.0 p) (get b.1 p)) s.boxes
    pub complete : All (λ id. HasKey id s.boxes) req.boxes

module _ {Num : Type 0} (z3 : Z3 Num) (nums : Numbers z3) (laws : Z3Laws z3 nums)
    (m : z3.Model) where
  open nums use {V, of_ints, value, holds}

  must_eval_real-IsFloatOf :
      (v : z3.RealAst) (q : Num) → must_eval_real z3 m v ≡ some q → IsFloatOf z3 nums (value m v) q
  must_eval_real-IsFloatOf v q h =
      let (a, e, f) = and_then_inv (z3.as_real m v) _ q h in
      (a.0, a.1, laws.value-as_real m v a.0 a.1 e, sym (some_inj f))

  pub eval_box-IsFloatOf :
      (bm : BoxMetrics z3.RealAst) (b : BoxMetrics Num)
      → eval_box z3 m bm ≡ some b
      → (p : LayoutBoxProperty) → IsFloatOf z3 nums (value m (get bm p)) (get b p)
  eval_box-IsFloatOf bm b h p =
      let (l, el, hl) = and_then_inv (must_eval_real z3 m bm.left) _ b h in
      let (r, er, hr) = and_then_inv (must_eval_real z3 m bm.right) _ b hl in
      let (t, et, ht) = and_then_inv (must_eval_real z3 m bm.top) _ b hr in
      let (u, eu, hu) = and_then_inv (must_eval_real z3 m bm.bottom) _ b ht in
      let (w, ew, hw) = and_then_inv (must_eval_real z3 m bm.z) _ b hu in
      subst (λ x. IsFloatOf z3 nums (value m (get bm p)) (get x p)) (some_inj hw)
        (side l r t u w el er et eu ew p)
    where
      side :
          (l r t u w : Num)
          → must_eval_real z3 m bm.left ≡ some l
          → must_eval_real z3 m bm.right ≡ some r
          → must_eval_real z3 m bm.top ≡ some t
          → must_eval_real z3 m bm.bottom ≡ some u
          → must_eval_real z3 m bm.z ≡ some w
          → (p : LayoutBoxProperty)
          → IsFloatOf z3 nums
              (value m (get bm p))
              (get (record { left = l; right = r; top = t; bottom = u; z = w }) p)
      side l r t u w el er et eu ew left = must_eval_real-IsFloatOf bm.left l el
      side l r t u w el er et eu ew right = must_eval_real-IsFloatOf bm.right r er
      side l r t u w el er et eu ew top = must_eval_real-IsFloatOf bm.top t et
      side l r t u w el er et eu ew bottom = must_eval_real-IsFloatOf bm.bottom u eu
      side l r t u w el er et eu ew z = must_eval_real-IsFloatOf bm.z w ew
