-- ===== src/Layout.antt =====
-- src/api/graphics/layout/mod.rs: boxes whose sides a solver is asked for. Z3 and floats are parameters;
-- the identifiers of boxes are numbers, the values of V8 up to their equality.
pub mod Engine
pub mod Meaning
pub mod Agrees
pub mod Scoped
pub mod Accepted
pub mod Boxes
pub mod Values
pub mod Read
pub mod Answer
use blueboat.Prelude.{
  ℕ, suc, ◌+◌, ◌*◌, Bool, true, false, List, [], ◌∷◌, ◌++◌, Option, none, some, ◌==◌, get_elem?,
  if◌then◌else◌, map, All, ◌≡◌,
}
use blueboat.Prelude.Int.{ℤ}

pub data LayoutBoxProperty : Type 0 where
  left : LayoutBoxProperty
  top : LayoutBoxProperty
  bottom : LayoutBoxProperty
  right : LayoutBoxProperty
  z : LayoutBoxProperty

-- `Num` is `f64`.
mutual
  pub data Real (Num : Type 0) : Type 0 where
    box_property : (id_index : ℕ) → LayoutBoxProperty → Real Num
    const : Num → Real Num
    add : Real Num → Real Num → Real Num
    sub : Real Num → Real Num → Real Num
    mul : Real Num → Real Num → Real Num
    div : Real Num → Real Num → Real Num
    select : Prop Num → Real Num → Real Num → Real Num
    metric_ref : (index : ℕ) → Real Num

  pub data Prop (Num : Type 0) : Type 0 where
    eq : Real Num → Real Num → Prop Num
    lt : Real Num → Real Num → Prop Num
    le : Real Num → Real Num → Prop Num
    gt : Real Num → Real Num → Prop Num
    ge : Real Num → Real Num → Prop Num
    or_prop : Prop Num → Prop Num → Prop Num
    and_prop : Prop Num → Prop Num → Prop Num
    not_prop : Prop Num → Prop Num

pub data SatResult (Model : Type 0) : Type 0 where
  sat : Model → SatResult Model
  unsat : SatResult Model
  unknown : SatResult Model

-- Z3, and the crate `fraction`. `fraction v` is the numerator and the denominator of a finite float that
-- has one in 32 bits; the crate keeps the sign of a fraction beside them, and its `numer` does not show
-- it. `check` takes the hard and the weighted assertions; it answers `unknown` when it is
-- interrupted. `as_bool` and `as_real` are `eval` with completion, read as a Boolean and as two 64-bit
-- integers, which other numbers are not. `quotient` is the division as floats.
pub record Z3 (Num : Type 0) : Type 1 where
  pub RealAst : Type 0
  pub BoolAst : Type 0
  pub Model : Type 0
  pub fresh_const : ℕ → RealAst
  pub from_real : ℕ → ℕ → RealAst
  pub real_add : RealAst → RealAst → RealAst
  pub real_sub : RealAst → RealAst → RealAst
  pub real_mul : RealAst → RealAst → RealAst
  pub real_div : RealAst → RealAst → RealAst
  pub ite : BoolAst → RealAst → RealAst → RealAst
  pub real_eq : RealAst → RealAst → BoolAst
  pub real_lt : RealAst → RealAst → BoolAst
  pub real_le : RealAst → RealAst → BoolAst
  pub real_gt : RealAst → RealAst → BoolAst
  pub real_ge : RealAst → RealAst → BoolAst
  pub bool_or : BoolAst → BoolAst → BoolAst
  pub bool_and : BoolAst → BoolAst → BoolAst
  pub bool_not : BoolAst → BoolAst
  pub fraction : Num → Option (ℕ × ℕ)
  pub check : List BoolAst → List (BoolAst × ℕ) → SatResult Model
  pub as_bool : Model → BoolAst → Option Bool
  pub as_real : Model → RealAst → Option (ℤ × ℤ)
  pub quotient : ℤ → ℤ → Num

pub record BoxMetrics (T : Type 0) : Type 0 where
  pub left : T
  pub right : T
  pub top : T
  pub bottom : T
  pub z : T

-- `BoxMetrics::get`.
abbrev pub get : {T : Type 0} → BoxMetrics T → LayoutBoxProperty → T
get m bottom = m.bottom
get m left = m.left
get m right = m.right
get m top = m.top
get m z = m.z

pub data LayoutError (Num : Type 0) : Type 0 where
  box_index_not_found : ℕ → LayoutError Num
  box_id_not_found : ℕ → LayoutError Num
  invalid_real_const : Num → LayoutError Num
  invalid_metric_ref : ℕ → LayoutError Num

-- `Result`, with the errors of this file.
pub data Built (Num V : Type 0) : Type 0 where
  rejected : LayoutError Num → Built Num V
  built : V → Built Num V

module _ {Num : Type 0} where
  infixl 1 ◌>>=◌
  abbrev pub ◌>>=◌ : {V W : Type 0} → Built Num V → (V → Built Num W) → Built Num W
  rejected e >>= f = rejected e
  built v >>= f = f v

  abbrev pub or_reject : {V : Type 0} → LayoutError Num → Option V → Built Num V
  or_reject e none = rejected e
  or_reject e (some v) = built v

  -- Two operands, the left one first.
  abbrev pub both : {U V W : Type 0} → (U → V → W) → Built Num U → Built Num V → Built Num W
  both f x y = x >>= (λ a. y >>= (λ b. built (f a b)))

  abbrev pub all_three :
      {S U V W : Type 0} → (S → U → V → W) → Built Num S → Built Num U → Built Num V → Built Num W
  all_three f c x y = c >>= (λ b. both (f b) x y)

  -- A loop that pushes what it has built.
  abbrev pub build_all : {U V : Type 0} → (U → Built Num V) → List U → Built Num (List V)
  build_all f [] = built []
  build_all f (x ∷ xs) = both (λ v vs. v ∷ vs) (f x) (build_all f xs)

pub record LayoutRequest (Num : Type 0) : Type 0 where
  pub boxes : List ℕ
  pub metrics : List (Real Num)
  pub constraints : List (Prop Num × ℕ)

pub record LayoutSolution (Num : Type 0) : Type 0 where
  pub boxes : List (ℕ × BoxMetrics Num)
  pub sat : List Bool

-- What the call gives: an error, one of two texts, a panic of an `expect`, or a solution.
pub data Solved (Num : Type 0) : Type 0 where
  fails : LayoutError Num → Solved Num
  is_unsat : Solved Num
  is_unknown : Solved Num
  panics : Solved Num
  solution : LayoutSolution Num → Solved Num
