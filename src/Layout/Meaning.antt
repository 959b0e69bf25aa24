-- ===== src/Layout/Meaning.antt =====
-- src/api/graphics/layout/mod.rs: what expressions and constraints mean, apart from Z3, and that the
-- engine's translations mean it in every model.
use blueboat.Prelude.{
  ℕ, Bool, true, ◌&&◌, ◌||◌, not, List, Option, none, some, get_elem?, if◌then◌else◌, All, ◌≡◌,
  refl,
}
use blueboat.Prelude.Int.{ℤ}
use blueboat.Layout.{
  LayoutBoxProperty, Real, box_property, const, add, sub, mul, div, select, metric_ref, Prop, eq,
  lt, le, gt, ge, or_prop, and_prop, not_prop, sat, Z3, Built, rejected, built, ◌>>=◌, or_reject,
  both,
}

-- Numbers, and the values that a model of Z3 gives to its terms. A model decides what a division by
-- zero is.
pub record Numbers {Num : Type 0} (z3 : Z3 Num) : Type 1 where
  pub V : Type 0
  pub of_fraction : ℕ → ℕ → V
  pub of_ints : ℤ → ℤ → V
  pub plus : V → V → V
  pub minus : V → V → V
  pub times : V → V → V
  pub over : z3.Model → V → V → V
  pub same : V → V → Bool
  pub less : V → V → Bool
  pub less_eq : V → V → Bool
  pub value : z3.Model → z3.RealAst → V
  pub holds : z3.Model → z3.BoolAst → Bool

module _ {Num : Type 0} (z3 : Z3 Num) (nums : Numbers z3) where
  open z3 use {
    RealAst, BoolAst, Model, from_real, real_add, real_sub, real_mul, real_div, ite, real_eq,
    real_lt, real_le, real_gt, real_ge, bool_or, bool_and, bool_not, check, as_bool, as_real,
  }
  open nums use {
    V, of_fraction, of_ints, plus, minus, times, over, same, less, less_eq, value, holds,
  }

  -- What Z3 documents: terms are interpreted piece by piece, evaluation gives the values, and a model that
  -- a check gives satisfies the hard assertions.
  pub record Z3Laws : Type 0 where
    pub value-from_real : (m : Model) (n d : ℕ) → value m (from_real n d) ≡ of_fraction n d
    pub value-add :
        (m : Model) (a b : RealAst) → value m (real_add a b) ≡ plus (value m a) (value m b)
    pub value-sub :
        (m : Model) (a b : RealAst) → value m (real_sub a b) ≡ minus (value m a) (value m b)
    pub value-mul :
        (m : Model) (a b : RealAst) → value m (real_mul a b) ≡ times (value m a) (value m b)
    pub value-div :
        (m : Model) (a b : RealAst) → value m (real_div a b) ≡ over m (value m a) (value m b)
    pub value-ite :
        (m : Model) (c : BoolAst) (a b : RealAst)
        → value m (ite c a b) ≡ (if holds m c then value m a else value m b)
    pub holds-eq :
        (m : Model) (a b : RealAst) → holds m (real_eq a b) ≡ same (value m a) (value m b)
    pub holds-lt :
        (m : Model) (a b : RealAst) → holds m (real_lt a b) ≡ less (value m a) (value m b)
    pub holds-le :
        (m : Model) (a b : RealAst) → holds m (real_le a b) ≡ less_eq (value m a) (value m b)
    pub holds-gt :
        (m : Model) (a b : RealAst) → holds m (real_gt a b) ≡ less (value m b) (value m a)
    pub holds-ge :
        (m : Model) (a b : RealAst) → holds m (real_ge a b) ≡ less_eq (value m b) (value m a)
    pub holds-or : (m : Model) (a b : BoolAst) → holds m (bool_or a b) ≡ (holds m a || holds m b)
    pub holds-and : (m : Model) (a b : BoolAst) → holds m (bool_and a b) ≡ (holds m a && holds m b)
    pub holds-not : (m : Model) (a : BoolAst) → holds m (bool_not a) ≡ not (holds m a)
    pub holds-as_bool : (m : Model) (c : BoolAst) (b : Bool) → as_bool m c ≡ some b → holds m c ≡ b
    pub value-as_real :
        (m : Model) (r : RealAst) (n d : ℤ) → as_real m r ≡ some (n, d) → value m r ≡ of_ints n d
    pub check-sat :
        (hard : List BoolAst) (soft : List (BoolAst × ℕ)) (m : Model)
        → check hard soft ≡ sat m
        → All (λ c. holds m c ≡ true) hard

  abbrev pub zero_value : V
  zero_value = of_fraction 0 1

  abbrev pub or_zero : Option V → V
  or_zero none = zero_value
  or_zero (some v) = v

  -- A constant is the fraction that it is, without its sign.
  abbrev pub of_constant : Option (ℕ × ℕ) → V
  of_constant none = zero_value
  of_constant (some (n, d)) = of_fraction n d

  -- The meaning, where the sides of boxes are `side`, by the boxes' indices, and the metrics are `ms`.
  unfoldable mutual
    pub value_of : z3.Model → (ℕ → LayoutBoxProperty → V) → List V → Real Num → V
    value_of m side ms (box_property i p) = side i p
    value_of m side ms (const v) = of_constant (z3.fraction v)
    value_of m side ms (add l r) = plus (value_of m side ms l) (value_of m side ms r)
    value_of m side ms (sub l r) = minus (value_of m side ms l) (value_of m side ms r)
    value_of m side ms (mul l r) = times (value_of m side ms l) (value_of m side ms r)
    value_of m side ms (div l r) = over m (value_of m side ms l) (value_of m side ms r)
    value_of m side ms (select c l r) =
        if is_true m side ms c then value_of m side ms l else value_of m side ms r
    value_of m side ms (metric_ref i) = or_zero (get_elem? ms i)

    pub is_true : z3.Model → (ℕ → LayoutBoxProperty → V) → List V → Prop Num → Bool
    is_true m side ms (eq l r) = same (value_of m side ms l) (value_of m side ms r)
    is_true m side ms (lt l r) = less (value_of m side ms l) (value_of m side ms r)
    is_true m side ms (le l r) = less_eq (value_of m side ms l) (value_of m side ms r)
    is_true m side ms (gt l r) = less (value_of m side ms r) (value_of m side ms l)
    is_true m side ms (ge l r) = less_eq (value_of m side ms r) (value_of m side ms l)
    is_true m side ms (or_prop l r) = is_true m side ms l || is_true m side ms r
    is_true m side ms (and_prop l r) = is_true m side ms l && is_true m side ms r
    is_true m side ms (not_prop v) = not (is_true m side ms v)

pub both_inv :
    {Num U V W : Type 0} (f : U → V → W) (x : Built Num U) (y : Built Num V) (w : W)
    → both f x y ≡ built w
    → (a : U) × (b : V) × (x ≡ built a) × (y ≡ built b) × (w ≡ f a b)
both_inv f (rejected e) y w h = cc
both_inv f (built a) (rejected e) w h = cc
both_inv f (built a) (built b) w h = (a, b, refl, refl, cc h)

pub bind_inv :
    {Num V W : Type 0} (x : Built Num V) (f : V → Built Num W) (w : W)
    → (x >>= f) ≡ built w
    → (a : V) × (x ≡ built a) × (f a ≡ built w)
bind_inv (rejected e) f w h = cc
bind_inv (built a) f w h = (a, refl, h)

pub built_inj : {Num V : Type 0} {a b : V} → ◌≡◌ {A = Built Num V} (built a) (built b) → a ≡ b
built_inj h = cc

pub or_reject_inv :
    {Num V : Type 0} (o : Option V) (e : _) (v : V)
    → ◌≡◌ {A = Built Num V} (or_reject e o) (built v)
    → o ≡ some v
or_reject_inv none e v h = cc
or_reject_inv (some x) e v h = cc
