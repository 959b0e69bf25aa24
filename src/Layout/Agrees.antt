-- ===== src/Layout/Agrees.antt =====
-- src/api/graphics/layout/mod.rs: the terms that the engine builds mean what the expressions mean.
use blueboat.Prelude.{
  ℕ, Bool, ◌&&◌, ◌||◌, not, List, some, get_elem?, if◌then◌else◌, ◌≡◌, sym, ap, ap₂, ◌∙◌,
}
use blueboat.Layout.{
  LayoutBoxProperty, Real, box_property, const, add, sub, mul, div, select, metric_ref, Prop, eq,
  lt, le, gt, ge, or_prop, and_prop, not_prop, Z3, Built, built, both, all_three, ◌>>=◌,
}
use blueboat.Layout.Engine.{LayoutEngine, build_property, build_const, build_z3_real, build_z3_prop}
use blueboat.Layout.Meaning.{
  Numbers, Z3Laws, or_zero, of_constant, value_of, is_true, both_inv, bind_inv, built_inj,
  or_reject_inv,
}

module _ {Num : Type 0} (z3 : Z3 Num) (nums : Numbers z3) (laws : Z3Laws z3 nums) (m : z3.Model)
    (e : LayoutEngine z3) (side : ℕ → LayoutBoxProperty → nums.V) (ms : List nums.V)
    (sides : (i : ℕ) (p : LayoutBoxProperty) (r : z3.RealAst)
      → build_property z3 e i p ≡ built r
      → nums.value m r ≡ side i p)
    (metrics : (i : ℕ) (r : z3.RealAst)
      → get_elem? e.metrics i ≡ some r
      → nums.value m r ≡ or_zero z3 nums (get_elem? ms i)) where
  open nums use {V, value, holds}

  const_lem :
      (v : Num) (r : z3.RealAst)
      → build_const z3 v ≡ built r
      → value m r ≡ of_constant z3 nums (z3.fraction v)
  const_lem v r h =
      let (a, f, g) = bind_inv _ _ r h in
      let at = or_reject_inv (z3.fraction v) _ a f in
      ap (value m) (sym (built_inj g))
      ∙ laws.value-from_real m a.0 a.1
      ∙ ap (of_constant z3 nums) (sym at)

  combined :
      {T W X Y : Type 0} (f : T → T → W) (value_t : T → Y) (value_w : W → X) (g : Y → Y → X)
      (law : (a b : T) → value_w (f a b) ≡ g (value_t a) (value_t b)) (x y : Built Num T) (u v : Y)
      → ((a : T) → x ≡ built a → value_t a ≡ u)
      → ((b : T) → y ≡ built b → value_t b ≡ v)
      → (w : W) → both f x y ≡ built w
      → value_w w ≡ g u v
  combined f value_t value_w g law x y u v hx hy w h =
      let (a, b, ea, eb, ew) = both_inv f x y w h in
      ap value_w ew ∙ law a b ∙ ap₂ g (hx a ea) (hy b eb)

  abbrev value_at : Real Num → V
  value_at x = value_of z3 nums m side ms x

  abbrev true_at : Prop Num → Bool
  true_at x = is_true z3 nums m side ms x

  ite_lem :
      (c : Built Num z3.BoolAst) (x y : Built Num z3.RealAst) (b : Bool) (u v : V)
      → ((a : z3.BoolAst) → c ≡ built a → holds m a ≡ b)
      → ((a : z3.RealAst) → x ≡ built a → value m a ≡ u)
      → ((a : z3.RealAst) → y ≡ built a → value m a ≡ v)
      → (r : z3.RealAst) → all_three z3.ite c x y ≡ built r
      → value m r ≡ (if b then u else v)
  ite_lem c x y b u v hc hx hy r h =
      let (a, ec, k) = bind_inv c _ r h in
      let (p, q, ep, e_q, er) = both_inv (z3.ite a) x y r k in
      ap (value m) er
      ∙ laws.value-ite m a p q
      ∙ ap₂ (λ t f. if holds m a then t else f) (hx p ep) (hy q e_q)
      ∙ ap (λ t. if t then u else v) (hc a ec)

  not_lem :
      (c : Built Num z3.BoolAst) (b : Bool)
      → ((a : z3.BoolAst) → c ≡ built a → holds m a ≡ b)
      → (r : z3.BoolAst) → (c >>= (λ x. built (z3.bool_not x))) ≡ built r
      → holds m r ≡ not b
  not_lem c b hc r h =
      let (a, ec, k) = bind_inv c _ r h in
      ap (holds m) (sym (built_inj k)) ∙ laws.holds-not m a ∙ ap not (hc a ec)

  reals :
      {W X : Type 0} (f : z3.RealAst → z3.RealAst → W) (value_w : W → X) (g : V → V → X)
      (law : (a b : z3.RealAst) → value_w (f a b) ≡ g (value m a) (value m b)) (l r : Real Num)
      → ((a : z3.RealAst) → build_z3_real z3 e l ≡ built a → value m a ≡ value_at l)
      → ((a : z3.RealAst) → build_z3_real z3 e r ≡ built a → value m a ≡ value_at r)
      → (w : W) → both f (build_z3_real z3 e l) (build_z3_real z3 e r) ≡ built w
      → value_w w ≡ g (value_at l) (value_at r)
  reals f value_w g law l r =
      combined f (value m) value_w g law (build_z3_real z3 e l) (build_z3_real z3 e r) (value_at l)
        (value_at r)

  props :
      (f : z3.BoolAst → z3.BoolAst → z3.BoolAst) (g : Bool → Bool → Bool)
      (law : (a b : z3.BoolAst) → holds m (f a b) ≡ g (holds m a) (holds m b)) (l r : Prop Num)
      → ((a : z3.BoolAst) → build_z3_prop z3 e l ≡ built a → holds m a ≡ true_at l)
      → ((a : z3.BoolAst) → build_z3_prop z3 e r ≡ built a → holds m a ≡ true_at r)
      → (w : z3.BoolAst) → both f (build_z3_prop z3 e l) (build_z3_prop z3 e r) ≡ built w
      → holds m w ≡ g (true_at l) (true_at r)
  props f g law l r =
      combined f (holds m) (holds m) g law (build_z3_prop z3 e l) (build_z3_prop z3 e r) (true_at l)
        (true_at r)

  mutual
    unfolding build_z3_real build_z3_prop value_of is_true

    pub build_z3_prop-is_true :
        (x : Prop Num) (r : z3.BoolAst) → build_z3_prop z3 e x ≡ built r → holds m r ≡ true_at x
    build_z3_prop-is_true (eq l r) =
        reals z3.real_eq (holds m) nums.same (laws.holds-eq m) l r (build_z3_real-value_of l)
          (build_z3_real-value_of r)
    build_z3_prop-is_true (lt l r) =
        reals z3.real_lt (holds m) nums.less (laws.holds-lt m) l r (build_z3_real-value_of l)
          (build_z3_real-value_of r)
    build_z3_prop-is_true (le l r) =
        reals z3.real_le (holds m) nums.less_eq (laws.holds-le m) l r (build_z3_real-value_of l)
          (build_z3_real-value_of r)
    build_z3_prop-is_true (gt l r) =
        reals z3.real_gt (holds m) (λ a b. nums.less b a) (laws.holds-gt m) l r
          (build_z3_real-value_of l) (build_z3_real-value_of r)
    build_z3_prop-is_true (ge l r) =
        reals z3.real_ge (holds m) (λ a b. nums.less_eq b a) (laws.holds-ge m) l r
          (build_z3_real-value_of l) (build_z3_real-value_of r)
    build_z3_prop-is_true (or_prop l r) =
        props z3.bool_or (λ a b. a || b) (laws.holds-or m) l r (build_z3_prop-is_true l)
          (build_z3_prop-is_true r)
    build_z3_prop-is_true (and_prop l r) =
        props z3.bool_and (λ a b. a && b) (laws.holds-and m) l r (build_z3_prop-is_true l)
          (build_z3_prop-is_true r)
    build_z3_prop-is_true (not_prop v) =
        not_lem (build_z3_prop z3 e v) (true_at v) (build_z3_prop-is_true v)

    pub build_z3_real-value_of :
        (x : Real Num) (r : z3.RealAst) → build_z3_real z3 e x ≡ built r → value m r ≡ value_at x
    build_z3_real-value_of (box_property i p) = sides i p
    build_z3_real-value_of (const v) = const_lem v
    build_z3_real-value_of (add l r) =
        reals z3.real_add (value m) nums.plus (laws.value-add m) l r (build_z3_real-value_of l)
          (build_z3_real-value_of r)
    build_z3_real-value_of (sub l r) =
        reals z3.real_sub (value m) nums.minus (laws.value-sub m) l r (build_z3_real-value_of l)
          (build_z3_real-value_of r)
    build_z3_real-value_of (mul l r) =
        reals z3.real_mul (value m) nums.times (laws.value-mul m) l r (build_z3_real-value_of l)
          (build_z3_real-value_of r)
    build_z3_real-value_of (div l r) =
        reals z3.real_div (value m) (nums.over m) (laws.value-div m) l r (build_z3_real-value_of l)
          (build_z3_real-value_of r)
    build_z3_real-value_of (select c l r) =
        ite_lem (build_z3_prop z3 e c) (build_z3_real z3 e l) (build_z3_real z3 e r) (true_at c)
          (value_at l) (value_at r) (build_z3_prop-is_true c) (build_z3_real-value_of l)
          (build_z3_real-value_of r)
    build_z3_real-value_of (metric_ref i) =
        λ r h. metrics i r (or_reject_inv (get_elem? e.metrics i) _ r h)
