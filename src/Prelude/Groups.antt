-- ===== src/Prelude/Groups.antt =====
-- `Itertools::group_by` by equal neighbouring keys, and `collect` into a map.
use blueboat.Prelude.{
  Bytes, eqb, eqb_iff, Bool, List, [], ◌∷◌, Option, none, some, ◌≡◌, refl, ap, ◌∙◌, arith,
  if◌then◌else◌, ◌⊎◌, inl, inr, Bool-cases, eq_of_eqb,
}
use blueboat.Prelude.Table.{Table, lookup, insert, lookup-insert}

module _ {V : Type 0} where
  -- An element goes to the group in front of which it stands.
  abbrev pub put : Bytes → V → List (Bytes × List V) → List (Bytes × List V)
  put k v [] = (k, v ∷ []) ∷ []
  put k v ((j, vs) ∷ gs) = if eqb k j then (j, v ∷ vs) ∷ gs else (k, v ∷ []) ∷ (j, vs) ∷ gs

  unfoldable pub group : List (Bytes × V) → List (Bytes × List V)
  group [] = []
  group ((k, v) ∷ r) = put k v (group r)

  -- The values of a key, in their order.
  abbrev pub values : Bytes → List (Bytes × V) → List V
  values n [] = []
  values n ((k, v) ∷ r) = let rest = values n r in if eqb k n then v ∷ rest else rest

  abbrev pub Continues : Bytes → List (Bytes × V) → Type 0
  Continues k [] = ⊥
  Continues k ((j, w) ∷ r) = j ≡ k

  -- The elements of a key stand together.
  abbrev pub IsGrouped : List (Bytes × V) → Type 0
  IsGrouped [] = Unit {0}
  IsGrouped ((k, v) ∷ r) = (Continues k r ⊎ (values k r ≡ [])) × IsGrouped r

  abbrev pub unless_nil : List V → Option (List V)
  unless_nil [] = none
  unless_nil (v ∷ vs) = some (v ∷ vs)

module _ {W : Type 0} where
  abbrev pub collect_into : Table W → List (Bytes × W) → Table W
  collect_into t [] = t
  collect_into t ((k, v) ∷ r) = collect_into (insert k v t) r

  -- `collect` into a `HashMap`: the last pair of a key stays.
  unfoldable pub collect : List (Bytes × W) → Table W
  collect r = collect_into [] r

  abbrev pub or_none : Option W → Option W → Option W
  or_none (some v) o = some v
  or_none none o = o

  abbrev pub last_of : Bytes → List (Bytes × W) → Option W
  last_of n [] = none
  last_of n ((k, v) ∷ r) = or_none (last_of n r) (if eqb k n then some v else none)

  or_none_insert :
      (b : Bool) (l o : Option W) (v : W)
      → or_none l (if b then some v else o) ≡ or_none (or_none l (if b then some v else none)) o
  or_none_insert b l o v = ground arith

  lookup-collect_into :
      (n : Bytes) (r : List (Bytes × W)) (t : Table W)
      → lookup n (collect_into t r) ≡ or_none (last_of n r) (lookup n t)
  lookup-collect_into n [] t = refl
  lookup-collect_into n ((k, v) ∷ r) t =
      rw (lookup-collect_into n r (insert k v t), lookup-insert k n v t)
        (or_none_insert (eqb k n) (last_of n r) (lookup n t) v)

  or_none-none : (o : Option W) → or_none o none ≡ o
  or_none-none o = ground arith

  pub lookup-collect : (n : Bytes) (r : List (Bytes × W)) → lookup n (collect r) ≡ last_of n r
  unfolding collect lookup
  lookup-collect n r = lookup-collect_into n r [] ∙ or_none-none (last_of n r)

module _ {V : Type 0} where
  -- A key has one group.
  abbrev IsApart : List (Bytes × List V) → Type 0
  IsApart [] = Unit {0}
  IsApart ((k, vs) ∷ gs) = (last_of k gs ≡ none) × IsApart gs

  abbrev Heads : Bytes → List (Bytes × List V) → Type 0
  Heads k [] = ⊥
  Heads k ((j, vs) ∷ gs) = j ≡ k

  put-IsApart :
      (k : Bytes) (v : V) (gs : List (Bytes × List V))
      → IsApart gs
      → Heads k gs ⊎ (last_of k gs ≡ none)
      → IsApart (put k v gs)
  put-IsApart k v [] a h = (refl, tt)
  put-IsApart k v ((j, vs) ∷ gs) a h = ground (arith, eqb_iff k j)

  abbrev listed : Option (List V) → List V
  listed none = []
  listed (some vs) = vs

  last_of-put :
      (n k : Bytes) (v : V) (gs : List (Bytes × List V))
      → IsApart gs
      → Heads k gs ⊎ (last_of k gs ≡ none)
      → last_of n (put k v gs)
        ≡ (if eqb k n then some (v ∷ listed (last_of k gs)) else last_of n gs)
  last_of-put n k v [] a h = ground (arith, eqb_iff k n)
  last_of-put n k v ((j, vs) ∷ gs) a h =
      ground (arith, eqb_iff k n, eqb_iff k j, eqb_iff j k, eqb_iff j n)

  group-Heads : (k : Bytes) (r : List (Bytes × V)) → Continues k r → Heads k (group r)
  unfolding group
  group-Heads k [] h = h
  group-Heads k ((j, w) ∷ r) h = put_heads (group r)
    where
      put_heads : (gs : List (Bytes × List V)) → Heads k (put j w gs)
      put_heads [] = h
      put_heads ((i, vs) ∷ gs) = ground (arith, eqb_iff j i)

  unless_nil-listed : (v : V) (vs : List V) → v ∷ listed (unless_nil vs) ≡ v ∷ vs
  unless_nil-listed v [] = refl
  unless_nil-listed v (w ∷ vs) = refl

  -- The group of a key holds its values, where the elements of each key stand together.
  pub group_lem :
      (r : List (Bytes × V))
      → IsGrouped r
      → ((n : Bytes) → last_of n (group r) ≡ unless_nil (values n r)) × IsApart (group r)
  unfolding group
  group_lem [] g = (λ n. refl, tt)
  group_lem ((k, v) ∷ r) g =
      let (ih, apart) = group_lem r g.1 in
      let at : Heads k (group r) ⊎ (last_of k (group r) ≡ none) = elim (g.0) [
        | inl c ↦ inl (group-Heads k r c)
        | inr f ↦ inr (ih k ∙ ap unless_nil f)
      ] in
      (
        λ n. last_of-put n k v (group r) apart at ∙ values_of n ih,
        put-IsApart k v (group r) apart at,
      )
    where
      values_of :
          (n : Bytes)
          → ((n : Bytes) → last_of n (group r) ≡ unless_nil (values n r))
          → (if eqb k n then some (v ∷ listed (last_of k (group r))) else last_of n (group r))
            ≡ unless_nil (values n ((k, v) ∷ r))
      values_of n ih = elim (Bool-cases (eqb k n)) [
        | inl same ↦ rw (same, ih k, eq_of_eqb k n same, unless_nil-listed v (values n r)) refl
        | inr other ↦ rw (other, ih n) refl
      ]

  pub lookup-collect-group :
      (n : Bytes) (r : List (Bytes × V))
      → IsGrouped r
      → lookup n (collect (group r)) ≡ unless_nil (values n r)
  lookup-collect-group n r g = lookup-collect n (group r) ∙ (group_lem r g).0 n
