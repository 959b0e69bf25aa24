-- ===== src/Tests/Layout.antt =====
-- A solver that tries one assignment, and two boxes beside each other.
use blueboat.Prelude.{
  ℕ, ◌+◌, ◌-◌, ◌*◌, Bool, true, false, ◌&&◌, ◌||◌, not, List, [], ◌∷◌, some, leb, ltb, ◌==◌,
  if◌then◌else◌, All, ◌≡◌, refl, ap, some_inj, subst, Bool-cases, inl, inr,
}
use blueboat.Prelude.Int.{pos, pos_part}
use blueboat.Layout.{
  left, right, top, LayoutBoxProperty, box_property, const, metric_ref, eq, le, sat, unknown, Z3,
  LayoutRequest, LayoutSolution, solution,
}
use blueboat.Layout.Engine.{api_graphics_layout_solve}
use blueboat.Layout.Meaning.{Numbers, Z3Laws}
use blueboat.Layout.Values.{IsLayout}
use blueboat.Layout.Answer.{solution-IsLayout}
use blueboat.Layout.Accepted.{is_failure, is_well_scoped, solve_fails_iff}

-- The k-th constant has the value k.
abbrev counting : ℕ → ℕ
counting k = k

abbrev all_hold : List ((ℕ → ℕ) → Bool) → Bool
all_hold [] = true
all_hold (c ∷ cs) = c counting && all_hold cs

-- Terms are functions of the assignment.
abbrev small_z3 : Z3 ℕ
small_z3 = record {
  RealAst = (ℕ → ℕ) → ℕ;
  BoolAst = (ℕ → ℕ) → Bool;
  Model = ℕ → ℕ;
  fresh_const = λ k s. s k;
  from_real = λ n d s. n;
  real_add = λ a b s. a s + b s;
  real_sub = λ a b s. a s - b s;
  real_mul = λ a b s. a s * b s;
  real_div = λ a b s. a s;
  ite = λ c a b s. if c s then a s else b s;
  real_eq = λ a b s. a s == b s;
  real_lt = λ a b s. ltb (a s) (b s);
  real_le = λ a b s. leb (a s) (b s);
  real_gt = λ a b s. ltb (b s) (a s);
  real_ge = λ a b s. leb (b s) (a s);
  bool_or = λ a b s. a s || b s;
  bool_and = λ a b s. a s && b s;
  bool_not = λ a s. not (a s);
  fraction = λ v. some (v, 1);
  check = λ hard soft. if all_hold hard then sat counting else unknown;
  as_bool = λ m c. some (c m);
  as_real = λ m r. some (pos (r m), pos 1);
  quotient = λ n d. pos_part n;
}

abbrev naturals : Numbers small_z3
naturals = record {
  V = ℕ;
  of_fraction = λ n d. n;
  of_ints = λ n d. pos_part n;
  plus = λ a b. a + b;
  minus = λ a b. a - b;
  times = λ a b. a * b;
  over = λ m a b. a;
  same = λ a b. a == b;
  less = ltb;
  less_eq = leb;
  value = λ m r. r m;
  holds = λ m c. c m;
}

all_hold-All : (cs : List ((ℕ → ℕ) → Bool)) → all_hold cs ≡ true → All (λ c. c counting ≡ true) cs
all_hold-All [] h = tt
all_hold-All (c ∷ cs) h = elim (Bool-cases (c counting)) [
  | inl b ↦ (b, all_hold-All cs (rw b at h))
  | inr b ↦ absurd (clash (rw b at h))
]
  where
    clash : false ≡ true → ⊥
    clash e = cc

found :
    (b : Bool) (m : ℕ → ℕ)
    → (if b then sat counting else unknown) ≡ sat m
    → (b ≡ true) × (counting ≡ m)
found true m h = (refl, inj h)
  where
    inj : {f g : ℕ → ℕ} → sat f ≡ sat g → f ≡ g
    inj e = cc
found false m h = cc

small_laws : Z3Laws small_z3 naturals
small_laws = record {
  value-from_real = λ m n d. refl;
  value-add = λ m a b. refl;
  value-sub = λ m a b. refl;
  value-mul = λ m a b. refl;
  value-div = λ m a b. refl;
  value-ite = λ m c a b. refl;
  holds-eq = λ m a b. refl;
  holds-lt = λ m a b. refl;
  holds-le = λ m a b. refl;
  holds-gt = λ m a b. refl;
  holds-ge = λ m a b. refl;
  holds-or = λ m a b. refl;
  holds-and = λ m a b. refl;
  holds-not = λ m a. refl;
  holds-as_bool = λ m c b h. cc h;
  value-as_real = λ m r n d h. ap (λ t. pos_part t.0) (some_inj h);
  check-sat = λ hard soft m h.
      let (b, same) = found (all_hold hard) m h in
      subst (λ s. All (λ c. c s ≡ true) hard) same (all_hold-All hard b);
}

abbrev two_boxes : LayoutRequest ℕ
two_boxes = record {
  boxes = 7 ∷ 8 ∷ [];
  metrics = box_property 0 right ∷ [];
  constraints =
      (le (metric_ref 0) (box_property 1 left), 0) ∷ (eq (const 100) (box_property 0 top), 3) ∷ [];
}

abbrev placed_boxes : LayoutSolution ℕ
placed_boxes = record {
  boxes =
      (7, record { left = 0; right = 1; top = 2; bottom = 3; z = 4 })
      ∷ (8, record { left = 5; right = 6; top = 7; bottom = 8; z = 9 })
      ∷ [];
  sat = true ∷ false ∷ [];
}

solved_boxes : api_graphics_layout_solve small_z3 two_boxes ≡ solution placed_boxes
unfolding api_graphics_layout_solve
solved_boxes = refl

solution-IsLayout_example :
    (m : ℕ → ℕ) × (place : ℕ → LayoutBoxProperty → ℕ) × IsLayout small_z3 naturals m place two_boxes
      placed_boxes
solution-IsLayout_example =
    solution-IsLayout small_z3 naturals small_laws two_boxes placed_boxes solved_boxes

solve_fails_iff_example :
    is_failure (api_graphics_layout_solve small_z3 two_boxes)
    ≡ not (is_well_scoped small_z3 two_boxes)
solve_fails_iff_example = solve_fails_iff small_z3 two_boxes
