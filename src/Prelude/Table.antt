-- ===== src/Prelude/Table.antt =====
-- Maps with byte-string keys (`HashMap<String, V>`), as association lists.
use mathlib.Core.Path.{◌≡◌, refl}
use mathlib.Core.Option.{Option, none, some}
use mathlib.Core.List.{List, [], ◌∷◌}
use native.Mathlib.Omega.{arith}
use blueboat.Prelude.Tests.{if◌then◌else◌}
use blueboat.Prelude.Strings.{Bytes, eqb, eqb_iff}

abbrev pub Table {ℓ} : Type ℓ → Type ℓ
Table Val = List (Bytes × Val)

module _ {ℓ} {Val : Type ℓ} where
  unfoldable pub lookup : Bytes → Table Val → Option Val
  lookup key [] = none
  lookup key ((name, val) ∷ rest) =
      let later = lookup key rest in if eqb name key then some val else later

  unfoldable pub insert : Bytes → Val → Table Val → Table Val
  insert key new [] = (key, new) ∷ []
  insert key new ((name, val) ∷ rest) =
      let later = insert key new rest in
      if eqb name key then (key, new) ∷ rest else (name, val) ∷ later

  unfoldable pub remove : Bytes → Table Val → Table Val
  remove key [] = []
  remove key ((name, val) ∷ rest) =
      let later = remove key rest in if eqb name key then later else (name, val) ∷ later

  pub lookup-insert :
      (key other : Bytes) (new : Val) (table : Table Val)
      → lookup other (insert key new table)
        ≡ (if eqb key other then some new else lookup other table)
  unfolding lookup insert
  lookup-insert key other new [] = refl
  lookup-insert key other new ((name, val) ∷ rest) = ground (
    arith,
    lookup-insert key other new rest,
    eqb_iff name other,
    eqb_iff name key,
    eqb_iff key other,
  )

  pub lookup-remove :
      (key other : Bytes) (table : Table Val)
      → lookup other (remove key table) ≡ (if eqb key other then none else lookup other table)
  unfolding lookup remove
  lookup-remove key other [] = ground arith
  lookup-remove key other ((name, val) ∷ rest) =
      ground (
        arith,
        lookup-remove key other rest,
        eqb_iff name other,
        eqb_iff name key,
        eqb_iff key other,
      )
