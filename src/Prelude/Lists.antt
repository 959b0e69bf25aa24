-- ===== src/Prelude/Lists.antt =====
-- Lists measured and cut by native numbers, under the library's names, and list predicates that
-- compute to tuples.
use Prim.Native.Nat.{ℕ, zero, suc, ◌+◌, min}
use mathlib.Core.Path.{◌≡◌, refl, ap}
use mathlib.Core.Logic.{◌⊎◌}
use mathlib.Core.Bool.{Bool}
use mathlib.Core.List.{List, [], ◌∷◌, ◌++◌}
use mathlib.Core.Option.{Option, none, some}
use native.Mathlib.Omega.{arith}
use blueboat.Prelude.Tests.{if◌then◌else◌}

module _ {ℓ} {A : Type ℓ} where
  abbrev pub length : List A → ℕ
  length [] = 0
  length (x ∷ xs) = suc (length xs)

  abbrev pub get_elem? : List A → ℕ → Option A
  get_elem? [] i = none
  get_elem? (x ∷ xs) zero = some x
  get_elem? (x ∷ xs) (suc i) = get_elem? xs i

  abbrev pub take : ℕ → List A → List A
  take zero xs = []
  take (suc n) [] = []
  take (suc n) (x ∷ xs) = x ∷ take n xs

  abbrev pub drop : ℕ → List A → List A
  drop zero xs = xs
  drop (suc n) [] = []
  drop (suc n) (x ∷ xs) = drop n xs

  abbrev pub replicate : ℕ → A → List A
  replicate zero a = []
  replicate (suc n) a = a ∷ replicate n a

  -- Everything but the last element.
  abbrev pub init : List A → List A
  init [] = []
  init (x ∷ []) = []
  init (x ∷ y ∷ ys) = x ∷ init (y ∷ ys)

  -- `Iterator::filter`, by a Boolean test.
  abbrev pub keep_if : (A → Bool) → List A → List A
  keep_if p [] = []
  keep_if p (x ∷ xs) = let rest = keep_if p xs in if p x then x ∷ rest else rest

  pub length-append : (xs ys : List A) → length (xs ++ ys) ≡ length xs + length ys
  length-append [] ys = omega arith
  length-append (x ∷ xs) ys = omega (arith, length-append xs ys)

  pub length-take : (n : ℕ) (xs : List A) → length (take n xs) ≡ min n (length xs)
  length-take zero xs = omega arith
  length-take (suc n) [] = omega arith
  length-take (suc n) (x ∷ xs) = omega (arith, length-take n xs)

  pub take-append_length : (xs ys : List A) → take (length xs) (xs ++ ys) ≡ xs
  take-append_length [] ys = refl
  take-append_length (x ∷ xs) ys = ap (λ t. x ∷ t) (take-append_length xs ys)

  pub drop-append_length : (xs ys : List A) → drop (length xs) (xs ++ ys) ≡ ys
  drop-append_length [] ys = refl
  drop-append_length (x ∷ xs) ys = drop-append_length xs ys

  pub init-snoc : (xs : List A) (x : A) → init (xs ++ x ∷ []) ≡ xs
  init-snoc [] x = refl
  init-snoc (y ∷ []) x = refl
  init-snoc (y ∷ z ∷ zs) x = ap (λ t. y ∷ t) (init-snoc (z ∷ zs) x)

abbrev pub All {ℓ κ} : {A : Type ℓ} → (A → Type κ) → List A → Type κ
All P [] = Unit
All P (x ∷ xs) = P x × All P xs

-- Some element, with its place.
abbrev pub Any {ℓ} : {A : Type ℓ} → (A → Type 0) → List A → Type 0
Any P [] = ⊥
Any P (x ∷ xs) = P x ⊎ Any P xs

pub append_cancel {ℓ} : {A : Type ℓ} (xs : List A) {ys zs : List A} → xs ++ ys ≡ xs ++ zs → ys ≡ zs
append_cancel [] h = h
append_cancel (x ∷ xs) {ys} {zs} h = append_cancel xs {ys = ys} {zs = zs} (cc h)

module _ {ℓ} {A : Type ℓ} where
  pub drop-append_add :
      (m : ℕ) (xs ys : List A) (n : ℕ) → m ≡ length xs + n → drop m (xs ++ ys) ≡ drop n ys
  drop-append_add m [] ys n h = ap (λ k. drop k ys) (omega arith)
  drop-append_add zero (x ∷ xs) ys n h = absurd (omega arith)
  drop-append_add (suc m) (x ∷ xs) ys n h = drop-append_add m xs ys n (omega arith)

  pub take-append_eq : (m : ℕ) (xs ys : List A) → m ≡ length xs → take m (xs ++ ys) ≡ xs
  take-append_eq m xs ys h = rw h (take-append_length xs ys)

  pub drop-append_eq : (m : ℕ) (xs ys : List A) → m ≡ length xs → drop m (xs ++ ys) ≡ ys
  drop-append_eq m xs ys h = rw h (drop-append_length xs ys)

pub append_inj {ℓ} :
    {A : Type ℓ} (xs ys : List A) {u v : List A}
    → length xs ≡ length ys
    → xs ++ u ≡ ys ++ v
    → (xs ≡ ys) × (u ≡ v)
append_inj [] [] h e = (refl, e)
append_inj [] (y ∷ ys) h e = absurd (omega arith)
append_inj (x ∷ xs) [] h e = absurd (omega arith)
append_inj (x ∷ xs) (y ∷ ys) {u} {v} h e =
    let (p, q) = append_inj xs ys {u = u} {v = v} (omega arith) (cc e) in (cc (p, e), q)
