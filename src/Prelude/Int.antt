-- ===== src/Prelude/Int.antt =====
-- Signed integers over the native numbers, and the ranges of the machine's integers.
use Prim.Native.Nat.{ℕ}
use mathlib.Core.Bool.{Bool, false}
use blueboat.Prelude.Tests.{ltb}

-- `negsuc n` is -(n + 1).
pub data ℤ : Type 0 where
  pos : ℕ → ℤ
  negsuc : ℕ → ℤ

-- The values of an `i32` and an `i64`, by `2 ^ 31` and `2 ^ 63`.
abbrev pub fits_signed : ℕ → ℤ → Bool
fits_signed half (pos n) = ltb n half
fits_signed half (negsuc n) = ltb n half

-- The values of a `u32` and a `u64`, by `2 ^ 32` and `2 ^ 64`.
abbrev pub fits_unsigned : ℕ → ℤ → Bool
fits_unsigned bound (pos n) = ltb n bound
fits_unsigned bound (negsuc n) = false

abbrev pub pos_part : ℤ → ℕ
pos_part (pos n) = n
pos_part (negsuc n) = 0
