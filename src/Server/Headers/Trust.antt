-- ===== src/Server/Headers/Trust.antt =====
-- A client cannot set a reserved header.
use blueboat.Prelude.{
  ℕ, suc, Bytes, Bool, true, false, ◌||◌, List, [], ◌∷◌, Option, none, some, eqb, eqb_iff,
  if◌then◌else◌, ◌≡◌, refl, sym, ◌∙◌, arith, Bool-cases, Option-cases, inl, inr,
}
use blueboat.Prelude.Table.{lookup, insert, remove, lookup-insert, lookup-remove}
use blueboat.Prelude.Result.{Result, ok, err}
use blueboat.Server.Headers.{
  Headers, is_reserved, remove_list, remove_all, sanitize, City, insert_subdivisions, insert_city,
  insert_wpbl, Lookups, client_headers, insert_valid, for_client,
}

-- The names to remove are the reserved ones of the map.
removed : List Bytes → Bytes → Bool
removed [] k = false
removed (n ∷ ns) k = eqb n k || removed ns k

lookup-remove_all :
    (ns : List Bytes) (k : Bytes) (hs : Headers)
    → lookup k (remove_all ns hs) ≡ (if removed ns k then none else lookup k hs)
unfolding remove_all removed
lookup-remove_all [] k hs = refl
lookup-remove_all (n ∷ ns) k hs =
    ground (arith, lookup-remove_all ns k (remove n hs), lookup-remove n k hs)

removed_reserved :
    (hs : Headers) (k : Bytes) → removed (remove_list hs) k ≡ true → is_reserved k ≡ true
unfolding remove_list removed
removed_reserved [] k h = cc
removed_reserved ((n, vs) ∷ hs) k h = ground (arith, removed_reserved hs k, eqb_iff n k)

removed-remove_list :
    (hs : Headers) (k : Bytes)
    → (if removed (remove_list hs) k then none else lookup k hs)
      ≡ (if is_reserved k then none else lookup k hs)
unfolding remove_list removed lookup
removed-remove_list [] k = ground arith
removed-remove_list ((n, vs) ∷ hs) k =
    ground (arith, removed-remove_list hs k, removed_reserved hs k, eqb_iff n k)

-- Sanitizing takes away exactly the headers with the prefix that are not on the white list.
lookup-sanitize :
    (k : Bytes) (hs : Headers)
    → lookup k (sanitize hs) ≡ (if is_reserved k then none else lookup k hs)
unfolding sanitize
lookup-sanitize k hs = lookup-remove_all (remove_list hs) k hs ∙ removed-remove_list hs k

module _ (valid : Bytes → Bool) (decimal : ℕ → Bytes) where
  -- An insert gives a header that the request before it does not influence.
  insert_agree :
      (n k : Bytes) (vs : List Bytes) (hs hs' : Headers)
      → lookup k hs ≡ lookup k hs'
      → lookup k (insert n vs hs) ≡ lookup k (insert n vs hs')
  insert_agree n k vs hs hs' h = rw (lookup-insert n k vs hs, lookup-insert n k vs hs', h) refl

  insert_subdivisions_agree :
      (i : ℕ) (xs : List (Option Bytes)) (k : Bytes) (hs hs' : Headers)
      → lookup k hs ≡ lookup k hs'
      → lookup k (insert_subdivisions valid decimal i xs hs)
        ≡ lookup k (insert_subdivisions valid decimal i xs hs')
  unfolding insert_subdivisions
  insert_subdivisions_agree i [] k hs hs' h = h
  insert_subdivisions_agree i (x ∷ xs) k hs hs' h =
      insert_subdivisions_agree (suc i) xs k _ _ (insert_agree _ k _ hs hs' h)

  insert_valid_agree :
      (n : Bytes) (v : Option Bytes) (k : Bytes) (hs hs' : Headers)
      → lookup k hs ≡ lookup k hs'
      → lookup k (insert_valid valid decimal n v hs) ≡ lookup k (insert_valid valid decimal n v hs')
  insert_valid_agree n none k hs hs' h = h
  insert_valid_agree n (some v) k hs hs' h = elim (Bool-cases (valid v)) [
    | inl e ↦ rw e (insert_agree n k (v ∷ []) hs hs' h)
    | inr e ↦ rw e h
  ]

  insert_city_agree :
      (c : Option City) (k : Bytes) (hs hs' : Headers)
      → lookup k hs ≡ lookup k hs'
      → lookup k (insert_city valid decimal c hs) ≡ lookup k (insert_city valid decimal c hs')
  unfolding insert_city
  insert_city_agree none k hs hs' h = h
  insert_city_agree (some c) k hs hs' h =
      insert_valid_agree _ c.name k _ _ (
        insert_subdivisions_agree 0 c.subdivisions k _ _
          (insert_valid_agree _ c.country k hs hs' h))

  insert_wpbl_agree :
      (r : Option (Result Bool)) (k : Bytes) (hs hs' : Headers)
      → lookup k hs ≡ lookup k hs'
      → lookup k (insert_wpbl valid decimal r hs) ≡ lookup k (insert_wpbl valid decimal r hs')
  unfolding insert_wpbl
  insert_wpbl_agree none k hs hs' h = h
  insert_wpbl_agree (some (err e)) k hs hs' h = h
  insert_wpbl_agree (some (ok b)) k hs hs' h = insert_agree _ k _ hs hs' h

  for_client_agree :
      (l : Lookups valid decimal) (ip : Option Bytes) (k : Bytes) (hs hs' : Headers)
      → lookup k hs ≡ lookup k hs'
      → lookup k (for_client valid decimal l ip hs) ≡ lookup k (for_client valid decimal l ip hs')
  for_client_agree l none k hs hs' h = h
  for_client_agree l (some text) k hs hs' h = elim (Option-cases (l.parse_ip text)) [
    | inl e ↦ rw e h
    | inr (a, e) ↦ rw e (insert_wpbl_agree _ k _ _ (insert_city_agree _ k hs hs' h))
  ]

  -- A reserved header that an application sees depends on the address of the client and on the
  -- databases alone: two requests with any other headers agree on it.
  pub client_headers_trusted :
      (l : Lookups valid decimal) (ip : Option Bytes) (k : Bytes) (hs hs' : Headers)
      → is_reserved k ≡ true
      → lookup k (client_headers valid decimal l ip hs)
        ≡ lookup k (client_headers valid decimal l ip hs')
  unfolding client_headers
  client_headers_trusted l ip k hs hs' r =
      for_client_agree l ip k (sanitize hs) (sanitize hs')
        (reserved_none hs ∙ sym (reserved_none hs'))
    where
      reserved_none : (m : Headers) → lookup k (sanitize m) ≡ none
      reserved_none m = lookup-sanitize k m ∙ rw r refl
