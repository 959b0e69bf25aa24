-- ===== src/Tests/Wpbl.antt =====
-- A block list with two ranges that are apart, and one with a range inside another.
use blueboat.Prelude.{
  Bytes, codes, true, false, [], ◌∷◌, List, lex_lt, Any, inl, inr, ◌↔◌, ◌≡◌, refl,
}
use blueboat.Wpbl.{BlockRow, v4, in_blocklist, Blocks}
use blueboat.Wpbl.Ranges.{IsApart, in_blocklist_iff}

abbrev row : Bytes → Bytes → BlockRow
row start end = record { rangestart = start; rangeend = end; expiry = codes "2030" }

abbrev two_rows : List BlockRow
two_rows = row (10 ∷ []) (19 ∷ []) ∷ row (30 ∷ []) (39 ∷ []) ∷ []

two_rows-IsApart : IsApart (codes "2026") two_rows
unfolding lex_lt
two_rows-IsApart = (
  (refl, ((λ a b. inl refl), ((λ a b. inr (inl refl)), tt))),
  ((refl, ((λ a b. inr (inr refl)), ((λ a b. inl refl), tt))), tt),
)

in_blocklist_iff_example :
    (in_blocklist (λ b. b) two_rows (codes "2026") (v4 (15 ∷ [])) ≡ true)
    ↔ Any (Blocks (codes "2026") (15 ∷ [])) two_rows
in_blocklist_iff_example =
    in_blocklist_iff (λ b. b) (codes "2026") two_rows (v4 (15 ∷ [])) two_rows-IsApart

abbrev outer : BlockRow
outer = row (10 ∷ []) (90 ∷ [])

abbrev inner : BlockRow
inner = row (20 ∷ []) (30 ∷ [])

outer-Blocks : Blocks (codes "2026") (50 ∷ []) outer
unfolding lex_lt
outer-Blocks = (refl, refl)

lt_2026 : lex_lt (codes "2026") inner.expiry ≡ true
unfolding lex_lt
lt_2026 = refl

starts_inside : lex_lt outer.rangestart inner.rangestart ≡ true
unfolding lex_lt
starts_inside = refl

not_before : lex_lt (50 ∷ []) inner.rangestart ≡ false
unfolding lex_lt
not_before = refl

behind : lex_lt inner.rangeend (50 ∷ []) ≡ true
unfolding lex_lt
behind = refl
