-- ===== src/Tests/Ipc.antt =====
-- A header map as a list whose names stand together, and headers that go through it.
use blueboat.Prelude.{
  Bytes, codes, eqb, eq_of_eqb, eqb_refl, Bool, true, false, ◌&&◌, List, [], ◌∷◌, ◌++◌, some,
  Bool-cases, inl, inr, ◌⊎◌, ◌≡◌, refl, sym, ap, append-nil, ◌∙◌, subst, arith, if◌then◌else◌,
}
use blueboat.Prelude.Table.{Table, lookup}
use blueboat.Prelude.Utf8.{is_utf8, utf8_from, utf8_step, utf8_lead}
use blueboat.Prelude.Groups.{values, Continues, IsGrouped}
use blueboat.Ipc.{HyperHeaders, decode_hyper_header_map, encode_hyper_header_map}
use blueboat.Ipc.HeaderMaps.{HeaderMapLaws, IsHeaders, lookup-decode-encode}

abbrev Pairs : Type 0
Pairs = List (Bytes × Bytes)

abbrev is_nil : List Bytes → Bool
is_nil [] = true
is_nil (x ∷ xs) = false

-- Behind the last pair with the key, or else at the end.
insert_pair : Bytes → Bytes → Pairs → Pairs
insert_pair k v [] = (k, v) ∷ []
insert_pair k v ((j, w) ∷ r) =
    let rest = insert_pair k v r in
    if eqb j k && is_nil (values k r) then (j, w) ∷ (k, v) ∷ r else (j, w) ∷ rest

and_true : (a b : Bool) → (a && b) ≡ true → (a ≡ true) × (b ≡ true)
and_true a b h = ground arith

nil_of_is_nil : (xs : List Bytes) → is_nil xs ≡ true → xs ≡ []
nil_of_is_nil [] h = refl
nil_of_is_nil (x ∷ xs) h = cc

values-insert_pair :
    (k v n : Bytes) (r : Pairs)
    → values n (insert_pair k v r) ≡ values n r ++ (if eqb k n then v ∷ [] else [])
unfolding insert_pair
values-insert_pair k v n [] = ground arith
values-insert_pair k v n ((j, w) ∷ r) = elim (Bool-cases (eqb j k && is_nil (values k r))) [
  | inl e ↦ rw e (
      behind (Bool-cases (eqb k n)) (eq_of_eqb j k (and_true _ _ e).0)
        (nil_of_is_nil (values k r) (and_true _ _ e).1))
  | inr e ↦ rw e (before (Bool-cases (eqb j n)) (values-insert_pair k v n r))
]
  where
    alone : values k r ≡ [] → eqb k n ≡ true → values n r ≡ []
    alone last same = subst (λ i. values i r ≡ []) (eq_of_eqb k n same) last

    behind :
        (eqb k n ≡ true) ⊎ (eqb k n ≡ false)
        → j ≡ k
        → values k r ≡ []
        → values n ((j, w) ∷ (k, v) ∷ r) ≡ values n ((j, w) ∷ r) ++ (if eqb k n then v ∷ [] else [])
    behind (inl same) at last =
        rw (at, same)
          (ap (λ t. w ∷ v ∷ t) (alone last same)
            ∙ sym (ap (λ t. w ∷ t ++ v ∷ []) (alone last same)))
    behind (inr other) at last = rw (at, other) (sym (append-nil (values n r)))

    before :
        (eqb j n ≡ true) ⊎ (eqb j n ≡ false)
        → values n (insert_pair k v r) ≡ values n r ++ (if eqb k n then v ∷ [] else [])
        → values n ((j, w) ∷ insert_pair k v r)
          ≡ values n ((j, w) ∷ r) ++ (if eqb k n then v ∷ [] else [])
    before (inl same) ih = rw same (ap (λ t. w ∷ t) ih)
    before (inr other) ih = rw other ih

Continues-insert_pair :
    (i k v : Bytes) (r : Pairs) → Continues i r → Continues i (insert_pair k v r)
unfolding insert_pair
Continues-insert_pair i k v [] c = absurd c
Continues-insert_pair i k v ((j, w) ∷ r) c = elim (Bool-cases (eqb j k && is_nil (values k r))) [
  | inl e ↦ rw e c
  | inr e ↦ rw e c
]

insert_pair-IsGrouped : (k v : Bytes) (r : Pairs) → IsGrouped r → IsGrouped (insert_pair k v r)
unfolding insert_pair
insert_pair-IsGrouped k v [] g = (inr refl, tt)
insert_pair-IsGrouped k v ((j, w) ∷ r) g = elim (Bool-cases (eqb j k && is_nil (values k r))) [
  | inl e ↦ rw e (
    inl (sym (eq_of_eqb j k (and_true _ _ e).0)),
    (inr (nil_of_is_nil (values k r) (and_true _ _ e).1), g.1),
  )
  | inr e ↦ rw e (apart e g.0, insert_pair-IsGrouped k v r g.1)
]
  where
    apart :
        (eqb j k && is_nil (values k r)) ≡ false
        → Continues j r ⊎ (values j r ≡ [])
        → Continues j (insert_pair k v r) ⊎ (values j (insert_pair k v r) ≡ [])
    apart e (inl c) = inl (Continues-insert_pair j k v r c)
    apart e (inr none_left) =
        inr (values-insert_pair k v j r ∙ rw none_left (not_key (Bool-cases (eqb k j))))
      where
        clash : (true && true) ≡ false → ⊥
        clash h = cc

        not_key : (eqb k j ≡ true) ⊎ (eqb k j ≡ false) → [] ++ (if eqb k j then v ∷ [] else []) ≡ []
        not_key (inr other) = rw other refl
        not_key (inl same) =
            let at : k ≡ j = eq_of_eqb k j same in
            absurd (clash (rw (at, eqb_refl j, none_left) at e))

abbrev list_headers : HyperHeaders
list_headers = record {
  Map = (r : Pairs) × IsGrouped r;
  empty = ([], tt);
  append = λ m k v. (insert_pair k v (m.0), insert_pair-IsGrouped k v (m.0) (m.1));
  iter = λ m. m.0;
  header_name = λ k. some k;
  header_value = λ v. some v;
}

list_headers-laws : HeaderMapLaws list_headers
list_headers-laws = record {
  iter-empty = refl;
  values-append = λ m k v n. values-insert_pair k v n (m.0);
  iter-IsGrouped = λ m. m.1;
}

abbrev cookies : Table (List Bytes)
cookies =
    (codes "set-cookie", codes "a=1" ∷ codes "b=2" ∷ []) ∷ (codes "accept", codes "*/*" ∷ []) ∷ []

cookies-IsHeaders : IsHeaders list_headers cookies
unfolding lookup eqb is_utf8 utf8_from utf8_step utf8_lead
cookies-IsHeaders = (
  (refl, (λ h. cc h), ((refl, refl), ((refl, refl), tt))),
  refl,
  ((refl, (λ h. cc h), ((refl, refl), tt)), refl, tt),
)

lookup-decode-encode_example :
    lookup (codes "set-cookie") (
      decode_hyper_header_map list_headers
        (encode_hyper_header_map list_headers list_headers.empty cookies))
    ≡ lookup (codes "set-cookie") cookies
lookup-decode-encode_example =
    lookup-decode-encode list_headers list_headers-laws (codes "set-cookie") cookies
      cookies-IsHeaders
