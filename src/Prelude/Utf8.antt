-- ===== src/Prelude/Utf8.antt =====
-- `std::str::from_utf8`: which byte strings are UTF-8.
use blueboat.Prelude.{
  ℕ, ◌-◌, Bytes, Bool, true, false, ◌&&◌, [], ◌∷◌, Option, none, some, leb, ◌==◌, if◌then◌else◌,
  ◌≡◌, refl,
}

-- The continuation bytes still to come, and the range of the next one.
pub record Utf8State : Type 0 where
  pub left : ℕ
  pub low : ℕ
  pub high : ℕ

abbrev at_start : Utf8State
at_start = record { left = 0; low = 0x80; high = 0xbf }

abbrev need : ℕ → ℕ → ℕ → Option Utf8State
need left low high = some (record { left = left; low = low; high = high })

-- A first byte: surrogates, overlong forms and code points past 0x10ffff are ruled out by the range
-- of the second byte.
unfoldable pub utf8_lead : ℕ → Option Utf8State
utf8_lead b =
    if leb b 0x7f
    then some at_start
    else if leb 0xc2 b && leb b 0xdf
    then need 1 0x80 0xbf
    else if b == 0xe0
    then need 2 0xa0 0xbf
    else if b == 0xed
    then need 2 0x80 0x9f
    else if leb 0xe1 b && leb b 0xef
    then need 2 0x80 0xbf
    else if b == 0xf0
    then need 3 0x90 0xbf
    else if leb 0xf1 b && leb b 0xf3
    then need 3 0x80 0xbf
    else if b == 0xf4
    then need 3 0x80 0x8f
    else none

unfoldable pub utf8_step : Utf8State → ℕ → Option Utf8State
unfolding utf8_lead
utf8_step s b =
    if s.left == 0
    then utf8_lead b
    else if leb s.low b && leb b s.high
    then some (record { left = s.left - 1; low = 0x80; high = 0xbf })
    else none

unfoldable pub utf8_from : Option Utf8State → Bytes → Bool
unfolding utf8_step
utf8_from none bs = false
utf8_from (some s) [] = s.left == 0
utf8_from (some s) (b ∷ bs) = utf8_from (utf8_step s b) bs

unfoldable pub is_utf8 : Bytes → Bool
unfolding utf8_from
is_utf8 bs = utf8_from (some at_start) bs

-- The euro sign, and half of it.
utf8_euro : (is_utf8 (0xe2 ∷ 0x82 ∷ 0xac ∷ []) ≡ true) × (is_utf8 (0xe2 ∷ 0x82 ∷ []) ≡ false)
unfolding is_utf8
utf8_euro = (refl, refl)
