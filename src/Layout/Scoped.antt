-- ===== src/Layout/Scoped.antt =====
-- src/api/graphics/layout/mod.rs: the expressions that the engine can translate.
use blueboat.Prelude.{
  ℕ, zero, suc, Bool, true, false, ◌&&◌, List, [], ◌∷◌, Option, none, some, get_elem?, length, ltb,
  ◌≡◌, refl, ap, ap₂, ◌∙◌, arith,
}
use blueboat.Layout.{
  LayoutBoxProperty, Real, box_property, const, add, sub, mul, div, select, metric_ref, Prop, eq,
  lt, le, gt, ge, or_prop, and_prop, not_prop, Z3, LayoutError, Built, rejected, built, ◌>>=◌,
  or_reject, both, all_three, build_all,
}
use blueboat.Layout.Engine.{LayoutEngine, build_property, build_const, build_z3_real, build_z3_prop}

abbrev pub is_some : {A : Type 0} → Option A → Bool
is_some none = false
is_some (some a) = true

abbrev pub is_built : {Num V : Type 0} → Built Num V → Bool
is_built (rejected e) = false
is_built (built v) = true

module _ {Num : Type 0} (z3 : Z3 Num) where
  -- Whether the boxes and metrics that an expression refers to are among the first `n` and `k`, and its
  -- constants are fractions.
  unfoldable mutual
    pub real_scoped : ℕ → ℕ → Real Num → Bool
    real_scoped n k (box_property i p) = ltb i n
    real_scoped n k (const v) = is_some (z3.fraction v)
    real_scoped n k (add l r) = real_scoped n k l && real_scoped n k r
    real_scoped n k (sub l r) = real_scoped n k l && real_scoped n k r
    real_scoped n k (mul l r) = real_scoped n k l && real_scoped n k r
    real_scoped n k (div l r) = real_scoped n k l && real_scoped n k r
    real_scoped n k (select c l r) = prop_scoped n k c && (real_scoped n k l && real_scoped n k r)
    real_scoped n k (metric_ref i) = ltb i k

    pub prop_scoped : ℕ → ℕ → Prop Num → Bool
    prop_scoped n k (eq l r) = real_scoped n k l && real_scoped n k r
    prop_scoped n k (lt l r) = real_scoped n k l && real_scoped n k r
    prop_scoped n k (le l r) = real_scoped n k l && real_scoped n k r
    prop_scoped n k (gt l r) = real_scoped n k l && real_scoped n k r
    prop_scoped n k (ge l r) = real_scoped n k l && real_scoped n k r
    prop_scoped n k (or_prop l r) = prop_scoped n k l && prop_scoped n k r
    prop_scoped n k (and_prop l r) = prop_scoped n k l && prop_scoped n k r
    prop_scoped n k (not_prop v) = prop_scoped n k v

abbrev pub all_of : {A : Type 0} → (A → Bool) → List A → Bool
all_of f [] = true
all_of f (x ∷ xs) = f x && all_of f xs

is_built-both :
    {Num U V W : Type 0} (f : U → V → W) (x : Built Num U) (y : Built Num V)
    → is_built (both f x y) ≡ (is_built x && is_built y)
is_built-both f (rejected e) y = refl
is_built-both f (built a) (rejected e) = refl
is_built-both f (built a) (built b) = refl

is_built-all_three :
    {Num S U V W : Type 0} (f : S → U → V → W) (c : Built Num S) (x : Built Num U) (y : Built Num V)
    → is_built (all_three f c x y) ≡ (is_built c && (is_built x && is_built y))
is_built-all_three f (rejected e) x y = refl
is_built-all_three f (built a) x y = is_built-both (f a) x y

pub is_built-mapped :
    {Num U V : Type 0} (f : U → V) (x : Built Num U)
    → is_built (x >>= (λ a. built (f a))) ≡ is_built x
is_built-mapped f (rejected e) = refl
is_built-mapped f (built a) = refl

pub is_built-or_reject :
    {Num V : Type 0} (e : LayoutError Num) (o : Option V) → is_built (or_reject e o) ≡ is_some o
is_built-or_reject e none = refl
is_built-or_reject e (some a) = refl

is_some-get_elem? :
    {A : Type 0} (xs : List A) (i : ℕ) → is_some (get_elem? xs i) ≡ ltb i (length xs)
is_some-get_elem? [] i = ground arith
is_some-get_elem? (x ∷ xs) zero = ground arith
is_some-get_elem? (x ∷ xs) (suc i) = ground (arith, is_some-get_elem? xs i)

pub is_built-build_all :
    {Num U V : Type 0} (f : U → Built Num V) (xs : List U)
    → is_built (build_all f xs) ≡ all_of (λ x. is_built (f x)) xs
is_built-build_all f [] = refl
is_built-build_all f (x ∷ xs) =
    is_built-both (λ v vs. v ∷ vs) (f x) (build_all f xs)
    ∙ ap (λ b. is_built (f x) && b) (is_built-build_all f xs)

pub all_of-ap :
    {A : Type 0} (f g : A → Bool)
    → ((a : A) → f a ≡ g a)
    → (xs : List A) → all_of f xs ≡ all_of g xs
all_of-ap f g h [] = refl
all_of-ap f g h (x ∷ xs) = ap₂ (λ a b. a && b) (h x) (all_of-ap f g h xs)

module _ {Num : Type 0} (z3 : Z3 Num) where
  const_scoped : (v : Num) → is_built (build_const z3 v) ≡ is_some (z3.fraction v)
  const_scoped v =
      is_built-mapped _ (or_reject _ (z3.fraction v)) ∙ is_built-or_reject _ (z3.fraction v)

module _ {Num : Type 0} (z3 : Z3 Num) (e : LayoutEngine z3) (n : ℕ)
    (boxes : (i : ℕ) (p : LayoutBoxProperty) → is_built (build_property z3 e i p) ≡ ltb i n) where
  abbrev real_at : Real Num → Bool
  real_at x = real_scoped z3 n (length e.metrics) x

  abbrev prop_at : Prop Num → Bool
  prop_at x = prop_scoped z3 n (length e.metrics) x

  two :
      {U V W : Type 0} (f : U → V → W) (x : Built Num U) (y : Built Num V) (a b : Bool)
      → is_built x ≡ a
      → is_built y ≡ b
      → is_built (both f x y) ≡ (a && b)
  two f x y a b hx hy = is_built-both f x y ∙ ap₂ (λ s t. s && t) hx hy

  mutual
    unfolding build_z3_real build_z3_prop real_scoped prop_scoped

    pub real_scoped_lem : (x : Real Num) → is_built (build_z3_real z3 e x) ≡ real_at x
    real_scoped_lem (box_property i p) = boxes i p
    real_scoped_lem (const v) = const_scoped z3 v
    real_scoped_lem (add l r) = two _ _ _ _ _ (real_scoped_lem l) (real_scoped_lem r)
    real_scoped_lem (sub l r) = two _ _ _ _ _ (real_scoped_lem l) (real_scoped_lem r)
    real_scoped_lem (mul l r) = two _ _ _ _ _ (real_scoped_lem l) (real_scoped_lem r)
    real_scoped_lem (div l r) = two _ _ _ _ _ (real_scoped_lem l) (real_scoped_lem r)
    real_scoped_lem (select c l r) =
        is_built-all_three z3.ite (build_z3_prop z3 e c) (build_z3_real z3 e l)
          (build_z3_real z3 e r)
        ∙ ap₂ (λ s t. s && t) (prop_scoped_lem c)
            (ap₂ (λ s t. s && t) (real_scoped_lem l) (real_scoped_lem r))
    real_scoped_lem (metric_ref i) =
        is_built-or_reject _ (get_elem? e.metrics i) ∙ is_some-get_elem? e.metrics i

    pub prop_scoped_lem : (x : Prop Num) → is_built (build_z3_prop z3 e x) ≡ prop_at x
    prop_scoped_lem (eq l r) = two _ _ _ _ _ (real_scoped_lem l) (real_scoped_lem r)
    prop_scoped_lem (lt l r) = two _ _ _ _ _ (real_scoped_lem l) (real_scoped_lem r)
    prop_scoped_lem (le l r) = two _ _ _ _ _ (real_scoped_lem l) (real_scoped_lem r)
    prop_scoped_lem (gt l r) = two _ _ _ _ _ (real_scoped_lem l) (real_scoped_lem r)
    prop_scoped_lem (ge l r) = two _ _ _ _ _ (real_scoped_lem l) (real_scoped_lem r)
    prop_scoped_lem (or_prop l r) = two _ _ _ _ _ (prop_scoped_lem l) (prop_scoped_lem r)
    prop_scoped_lem (and_prop l r) = two _ _ _ _ _ (prop_scoped_lem l) (prop_scoped_lem r)
    prop_scoped_lem (not_prop v) =
        is_built-mapped z3.bool_not (build_z3_prop z3 e v) ∙ prop_scoped_lem v
