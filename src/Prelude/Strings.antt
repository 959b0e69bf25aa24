-- ===== src/Prelude/Strings.antt =====
-- Byte strings (`Vec<u8>`, `String`, `&str`): equality, the lexicographic order of `Ord for [u8]`,
-- prefixes, and splitting at a separator.
use Prim.Native.Nat.{ℕ}
use Prim.Native.Char.{code}
use Prim.Native.String.{String}
use mathlib.Core.Path.{◌≡◌, refl}
use mathlib.Core.Logic.{◌↔◌}
use mathlib.Core.Bool.{Bool, true, false, ◌&&◌}
use mathlib.Core.Option.{Option, none, some}
use mathlib.Core.List.{List, [], ◌∷◌, ◌++◌}
use native.Mathlib.Omega.{arith}
use blueboat.Prelude.Tests.{ltb, ◌==◌, if◌then◌else◌}

abbrev pub Bytes : Type 0
Bytes = List ℕ

-- The bytes of an ASCII literal.
abbrev pub codes : String → Bytes
codes String.[] = []
codes (String.◌∷◌ c s) = code c ∷ codes s

unfoldable pub eqb : Bytes → Bytes → Bool
eqb [] [] = true
eqb [] (y ∷ ys) = false
eqb (x ∷ xs) [] = false
eqb (x ∷ xs) (y ∷ ys) = (x == y) && eqb xs ys

pub eqb_refl : (xs : Bytes) → eqb xs xs ≡ true
unfolding eqb
eqb_refl [] = refl
eqb_refl (x ∷ xs) = ground (arith, eqb_refl xs)

pub eq_of_eqb : (xs ys : Bytes) → eqb xs ys ≡ true → xs ≡ ys
unfolding eqb
eq_of_eqb [] [] h = refl
eq_of_eqb [] (y ∷ ys) h = cc
eq_of_eqb (x ∷ xs) [] h = cc
eq_of_eqb (x ∷ xs) (y ∷ ys) h = ground (arith, eq_of_eqb xs ys)

pub eqb_iff : (xs ys : Bytes) → (eqb xs ys ≡ true) ↔ (xs ≡ ys)
eqb_iff xs ys = (eq_of_eqb xs ys, λ e. rw e (eqb_refl ys))

-- `a < b` for byte slices.
unfoldable pub lex_lt : Bytes → Bytes → Bool
lex_lt [] [] = false
lex_lt [] (y ∷ ys) = true
lex_lt (x ∷ xs) [] = false
lex_lt (x ∷ xs) (y ∷ ys) =
    let rest = lex_lt xs ys in if ltb x y then true else if x == y then rest else false

-- `strip_prefix`.
unfoldable pub strip_prefix : Bytes → Bytes → Option Bytes
strip_prefix [] ys = some ys
strip_prefix (x ∷ xs) [] = none
strip_prefix (x ∷ xs) (y ∷ ys) = let rest = strip_prefix xs ys in if x == y then rest else none

pub strip_prefix-append : (xs ys : Bytes) → strip_prefix xs (xs ++ ys) ≡ some ys
unfolding strip_prefix
strip_prefix-append [] ys = refl
strip_prefix-append (x ∷ xs) ys = ground (arith, strip_prefix-append xs ys)

pub eq_of_strip_prefix : (xs ys : Bytes) {r : Bytes} → strip_prefix xs ys ≡ some r → ys ≡ xs ++ r
unfolding strip_prefix
eq_of_strip_prefix [] ys {r} h = ground arith
eq_of_strip_prefix (x ∷ xs) [] {r} h = cc
eq_of_strip_prefix (x ∷ xs) (y ∷ ys) {r} h = ground (arith, eq_of_strip_prefix xs ys {r = r})

abbrev pub prepend : ℕ → List Bytes → List Bytes
prepend x [] = (x ∷ []) ∷ []
prepend x (s ∷ ss) = (x ∷ s) ∷ ss

-- `split(sep)`: never empty; `split("")` is one empty segment.
unfoldable pub split_at : ℕ → Bytes → List Bytes
split_at sep [] = [] ∷ []
split_at sep (x ∷ xs) = let rest = split_at sep xs in if x == sep then [] ∷ rest else prepend x rest

abbrev pub b_slash : ℕ
b_slash = b'/'

abbrev pub nonempty : Bytes → Bool
nonempty [] = false
nonempty (x ∷ xs) = true

-- `[a, b].join("/")`.
abbrev pub join : ℕ → List Bytes → Bytes
join sep [] = []
join sep (s ∷ []) = s
join sep (s ∷ t ∷ ss) = s ++ sep ∷ join sep (t ∷ ss)

abbrev pub lead_of : ℕ → Option (Bytes × Bytes) → Option (Bytes × Bytes)
lead_of x none = none
lead_of x (some (a, b)) = some (x ∷ a, b)

-- `split_once(sep)`: at the first separator.
unfoldable pub split_once : ℕ → Bytes → Option (Bytes × Bytes)
split_once sep [] = none
split_once sep (x ∷ xs) =
    let rest = split_once sep xs in if x == sep then some ([], xs) else lead_of x rest
