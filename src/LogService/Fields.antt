-- ===== src/LogService/Fields.antt =====
-- The fields of an event: under a name stands what was visited last.
use blueboat.Prelude.{Bytes, List, [], ◌∷◌, Option, none, some, ◌≡◌, refl, ◌∙◌, ap}
use blueboat.Prelude.Table.{Table, lookup, insert}
use blueboat.Prelude.Groups.{last_of, collect, collect_into, lookup-collect}
use blueboat.LogService.{Visit, typed, debug, debug_name, recorded, visit_all}

module _ {Json : Type 0} where
  abbrev pub with_name : Option Bytes → Json → List (Bytes × Json) → List (Bytes × Json)
  with_name none v rest = rest
  with_name (some n) v rest = (n, v) ∷ rest

  -- The visits that are kept, with the names under which they stand.
  abbrev pub kept : List (Visit Json) → List (Bytes × Json)
  kept [] = []
  kept (typed n v ∷ xs) = (n, v) ∷ kept xs
  kept (debug n v ∷ xs) = with_name (debug_name n) v (kept xs)

  visit_all-collect_into :
      (xs : List (Visit Json)) (fields : Table Json)
      → visit_all xs fields ≡ collect_into fields (kept xs)
  unfolding visit_all
  visit_all-collect_into [] fields = refl
  visit_all-collect_into (typed n v ∷ xs) fields = visit_all-collect_into xs (insert n v fields)
  visit_all-collect_into (debug n v ∷ xs) fields =
      by_name (debug_name n) (λ f. visit_all-collect_into xs f)
    where
      by_name :
          (o : Option Bytes)
          → ((f : Table Json) → visit_all xs f ≡ collect_into f (kept xs))
          → visit_all xs (recorded o v fields) ≡ collect_into fields (with_name o v (kept xs))
      by_name none ih = ih fields
      by_name (some m) ih = ih (insert m v fields)

  -- The fields of an event hold, under each name, the value that was visited last under that name, where
  -- a debug visit of a field of the log crate does not count and the prefix of a raw identifier is left
  -- off in a debug visit.
  lookup-visit_all :
      (name : Bytes) (xs : List (Visit Json))
      → lookup name (visit_all xs []) ≡ last_of name (kept xs)
  unfolding collect
  lookup-visit_all name xs =
      ap (lookup name) (visit_all-collect_into xs []) ∙ lookup-collect name (kept xs)
