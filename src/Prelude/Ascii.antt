-- ===== src/Prelude/Ascii.antt =====
-- `str::trim`, and the parsers of unsigned integers, on ASCII text.
use blueboat.Prelude.{
  ℕ, ◌+◌, ◌-◌, ◌*◌, Bytes, Bool, ◌&&◌, ◌||◌, [], ◌∷◌, Option, none, some, ltb, leb, ◌==◌,
  if◌then◌else◌,
}

abbrev is_space : ℕ → Bool
is_space c = (c == 32) || (leb 9 c && leb c 13)

unfoldable pub trim_start : Bytes → Bytes
trim_start [] = []
trim_start (c ∷ cs) = let rest = trim_start cs in if is_space c then rest else c ∷ cs

abbrev keep_unless_space : ℕ → Bytes → Bytes
keep_unless_space c [] = if is_space c then [] else c ∷ []
keep_unless_space c (d ∷ ds) = c ∷ d ∷ ds

unfoldable pub trim_end : Bytes → Bytes
trim_end [] = []
trim_end (c ∷ cs) = keep_unless_space c (trim_end cs)

-- `str::trim` of an ASCII text.
unfoldable pub trim : Bytes → Bytes
unfolding trim_start trim_end
trim s = trim_end (trim_start s)

abbrev is_digit : ℕ → Bool
is_digit c = leb b'0' c && leb c b'9'

unfoldable pub digits_value : ℕ → ℕ → Bytes → Option ℕ
digits_value bound acc [] = some acc
digits_value bound acc (c ∷ cs) =
    let acc' = acc * 10 + (c - b'0') in
    let rest = digits_value bound acc' cs in if is_digit c && ltb acc' bound then rest else none

-- `str::parse` for the integers below a bound; one plus sign may lead.
unfoldable pub parse_uint : ℕ → Bytes → Option ℕ
unfolding digits_value
parse_uint bound [] = none
parse_uint bound (c ∷ []) = digits_value bound 0 (c ∷ [])
parse_uint bound (c ∷ d ∷ cs) =
    if c == b'+' then digits_value bound 0 (d ∷ cs) else digits_value bound 0 (c ∷ d ∷ cs)
