-- ===== src/Ipc/HeaderMaps.antt =====
-- Header maps of src/ipc.rs: what decoding and encoding do to the values of each name.
use blueboat.Prelude.{
  Bytes, eqb, eq_of_eqb, Bool, true, false, List, [], ◌∷◌, ◌++◌, Option, none, some, lex_lt,
  keep_if, All, append_assoc, append-nil, Bool-cases, inl, inr, ◌⊎◌, ◌≡◌, ◌≢◌, refl, sym, ap, ◌∙◌,
  subst, arith, if◌then◌else◌,
}
use blueboat.Prelude.Table.{Table, lookup}
use blueboat.Prelude.Utf8.{is_utf8}
use blueboat.Prelude.Groups.{values, Continues, IsGrouped, unless_nil, lookup-collect-group}
use blueboat.Ipc.{
  HyperHeaders, insert_by_key, sort_by_key, keep_utf8, decode_hyper_header_map, append_valid,
  append_all, append_named, encode_sorted, encode_hyper_header_map,
}

-- What `HeaderMap` documents of `append` and of the order of `iter`.
pub record HeaderMapLaws (hh : HyperHeaders) : Type 0 where
  pub iter-empty : hh.iter hh.empty ≡ []
  pub values-append :
      (m : hh.Map) (k v n : Bytes)
      → values n (hh.iter (hh.append m k v))
        ≡ values n (hh.iter m) ++ (if eqb k n then v ∷ [] else [])
  pub iter-IsGrouped : (m : hh.Map) → IsGrouped (hh.iter m)

values-keep_utf8 :
    (n : Bytes) (r : List (Bytes × Bytes)) → values n (keep_utf8 r) ≡ keep_if is_utf8 (values n r)
values-keep_utf8 n [] = refl
values-keep_utf8 n ((k, v) ∷ r) = ground (arith, values-keep_utf8 n r)

values-cons_nil :
    (k j w : Bytes) (r : List (Bytes × Bytes))
    → values k ((j, w) ∷ r) ≡ []
    → (eqb j k ≡ false) × (values k r ≡ [])
values-cons_nil k j w r f = ground arith

Continues-values :
    (k : Bytes) (r : List (Bytes × Bytes))
    → IsGrouped r
    → Continues k r ⊎ (values k r ≡ [])
    → Continues k (keep_utf8 r) ⊎ (values k (keep_utf8 r) ≡ [])
Continues-values k [] g h = inr refl
Continues-values k ((j, w) ∷ r) g h = elim (Bool-cases (is_utf8 w)) [
  | inl kept ↦ rw kept (first h)
  | inr dropped ↦ rw dropped (Continues-values k r g.1 (later h))
]
  where
    first :
        Continues k ((j, w) ∷ r) ⊎ (values k ((j, w) ∷ r) ≡ [])
        → Continues k ((j, w) ∷ keep_utf8 r) ⊎ (values k ((j, w) ∷ keep_utf8 r) ≡ [])
    first (inl c) = inl c
    first (inr f) =
        let (other, none_left) = values-cons_nil k j w r f in
        inr (rw (other, values-keep_utf8 k r, none_left) refl)

    later :
        Continues k ((j, w) ∷ r) ⊎ (values k ((j, w) ∷ r) ≡ []) → Continues k r ⊎ (values k r ≡ [])
    later (inl c) = subst (λ i. Continues i r ⊎ (values i r ≡ [])) c g.0
    later (inr f) = inr (values-cons_nil k j w r f).1

keep_utf8-IsGrouped : (r : List (Bytes × Bytes)) → IsGrouped r → IsGrouped (keep_utf8 r)
keep_utf8-IsGrouped [] g = tt
keep_utf8-IsGrouped ((k, v) ∷ r) g = elim (Bool-cases (is_utf8 v)) [
  | inl kept ↦ rw kept (Continues-values k r g.1 g.0, keep_utf8-IsGrouped r g.1)
  | inr dropped ↦ rw dropped (keep_utf8-IsGrouped r g.1)
]

abbrev pub valid : Option Bytes → List Bytes
valid none = []
valid (some v) = v ∷ []

module _ (hh : HyperHeaders) where
  -- The values that a list of texts stands for.
  abbrev pub valid_values : List Bytes → List Bytes
  valid_values [] = []
  valid_values (x ∷ xs) = valid (hh.header_value x) ++ valid_values xs

  abbrev pub values_under : Option Bytes → Bytes → List Bytes → List Bytes
  values_under none n vs = []
  values_under (some k) n vs = if eqb k n then valid_values vs else []

  -- The values of the entries whose key stands for a name.
  abbrev pub named_values : Bytes → List (Bytes × List Bytes) → List Bytes
  named_values n [] = []
  named_values n ((k, vs) ∷ r) = values_under (hh.header_name k) n vs ++ named_values n r

  -- A key that is a name in its normal form, with values that a header can hold.
  abbrev pub IsHeader : Bytes × List Bytes → Type 0
  IsHeader (k, vs) =
      (hh.header_name k ≡ some k)
      × (vs ≢ [])
      × All (λ v. (hh.header_value v ≡ some v) × (is_utf8 v ≡ true)) vs

  abbrev pub IsHeaders : Table (List Bytes) → Type 0
  IsHeaders [] = Unit {0}
  IsHeaders ((k, vs) ∷ r) = IsHeader (k, vs) × (lookup k r ≡ none) × IsHeaders r

module _ (hh : HyperHeaders) (laws : HeaderMapLaws hh) where
  -- A request or an answer decoded from a header map has under each name the values of the map that are
  -- UTF-8, in their order, and has the name only where there is such a value.
  lookup-decode :
      (m : hh.Map) (n : Bytes)
      → lookup n (decode_hyper_header_map hh m)
        ≡ unless_nil (keep_if is_utf8 (values n (hh.iter m)))
  unfolding decode_hyper_header_map
  lookup-decode m n =
      lookup-collect-group n (keep_utf8 (hh.iter m))
        (keep_utf8-IsGrouped (hh.iter m) (laws.iter-IsGrouped m))
      ∙ ap unless_nil (values-keep_utf8 n (hh.iter m))

  values-append_valid :
      (n k : Bytes) (o : Option Bytes) (m : hh.Map)
      → values n (hh.iter (append_valid hh m k o))
        ≡ values n (hh.iter m) ++ (if eqb k n then valid o else [])
  values-append_valid n k none m = rw if_nil (sym (append-nil (values n (hh.iter m))))
    where
      if_nil : (if eqb k n then valid none else []) ≡ []
      if_nil = ground arith
  values-append_valid n k (some v) m = laws.values-append m k v n

  if_append :
      (b : Bool) (xs ys zs : List Bytes)
      → (xs ++ (if b then ys else [])) ++ (if b then zs else [])
        ≡ xs ++ (if b then ys ++ zs else [])
  if_append true xs ys zs = append_assoc xs ys zs
  if_append false xs ys zs = append-nil (xs ++ [])

  values-append_all :
      (n k : Bytes) (vs : List Bytes) (m : hh.Map)
      → values n (hh.iter (append_all hh m k vs))
        ≡ values n (hh.iter m) ++ (if eqb k n then valid_values hh vs else [])
  unfolding append_all
  values-append_all n k [] m = values-append_valid n k none m
  values-append_all n k (x ∷ xs) m =
      rw
        (
          values-append_all n k xs (append_valid hh m k (hh.header_value x)),
          values-append_valid n k (hh.header_value x) m,
        )
        (if_append (eqb k n) (values n (hh.iter m)) (valid (hh.header_value x))
          (valid_values hh xs))

  values-append_named :
      (n : Bytes) (o : Option Bytes) (vs : List Bytes) (m : hh.Map)
      → values n (hh.iter (append_named hh m o vs)) ≡ values n (hh.iter m) ++ values_under hh o n vs
  values-append_named n none vs m = sym (append-nil (values n (hh.iter m)))
  values-append_named n (some k) vs m = values-append_all n k vs m

  values-encode_sorted :
      (n : Bytes) (r : List (Bytes × List Bytes)) (m : hh.Map)
      → values n (hh.iter (encode_sorted hh m r)) ≡ values n (hh.iter m) ++ named_values hh n r
  unfolding encode_sorted
  values-encode_sorted n [] m = sym (append-nil (values n (hh.iter m)))
  values-encode_sorted n ((k, vs) ∷ r) m =
      rw
        (
          values-encode_sorted n r (append_named hh m (hh.header_name k) vs),
          values-append_named n (hh.header_name k) vs m,
        )
        (append_assoc (values n (hh.iter m)) (values_under hh (hh.header_name k) n vs)
          (named_values hh n r))

  -- Encoding headers adds to a header map, under each name, the valid values of the keys that stand for
  -- the name, taken in the order of the keys; keys that are no names and values that are not valid are
  -- left out, and nothing else changes.
  values-encode :
      (n : Bytes) (source : Table (List Bytes)) (m : hh.Map)
      → values n (hh.iter (encode_hyper_header_map hh m source))
        ≡ values n (hh.iter m) ++ named_values hh n (sort_by_key source)
  unfolding encode_hyper_header_map
  values-encode n source m = values-encode_sorted n (sort_by_key source) m

  abbrev listed : Option (List Bytes) → List Bytes
  listed none = []
  listed (some vs) = vs

  named_values-insert_by_key :
      (n k : Bytes) (vs : List Bytes) (r : List (Bytes × List Bytes))
      → (values_under hh (hh.header_name k) n vs ≡ []) ⊎ (named_values hh n r ≡ [])
      → named_values hh n (insert_by_key (k, vs) r)
        ≡ values_under hh (hh.header_name k) n vs ++ named_values hh n r
  unfolding insert_by_key
  named_values-insert_by_key n k vs [] h = refl
  named_values-insert_by_key n k vs ((j, ws) ∷ r) h = elim (Bool-cases (lex_lt j k)) [
    | inl before ↦ rw before (
        swapped (values_under hh (hh.header_name k) n vs) (values_under hh (hh.header_name j) n ws)
          (named_values hh n r) (named_values hh n (insert_by_key (k, vs) r))
          (named_values-insert_by_key n k vs r (later h)) h)
    | inr after ↦ rw after refl
  ]
    where
      swapped :
          (a b c x : List Bytes) → x ≡ a ++ c → (a ≡ []) ⊎ (b ++ c ≡ []) → b ++ x ≡ a ++ (b ++ c)
      swapped a [] c x e h = e
      swapped a (y ∷ b) c x e (inl none_own) = rw (e, none_own) refl
      swapped a (y ∷ b) c x e (inr none_left) = cc

      nil_right : (b c : List Bytes) → b ++ c ≡ [] → c ≡ []
      nil_right [] c h = h
      nil_right (y ∷ b) c h = cc

      later :
          (values_under hh (hh.header_name k) n vs ≡ []) ⊎ (named_values hh n ((j, ws) ∷ r) ≡ [])
          → (values_under hh (hh.header_name k) n vs ≡ []) ⊎ (named_values hh n r ≡ [])
      later (inl none_own) = inl none_own
      later (inr none_left) =
          inr (nil_right (values_under hh (hh.header_name j) n ws) (named_values hh n r) none_left)

  valid_values_all :
      (vs : List Bytes)
      → All (λ v. (hh.header_value v ≡ some v) × (is_utf8 v ≡ true)) vs
      → (valid_values hh vs ≡ vs) × (keep_if is_utf8 vs ≡ vs)
  valid_values_all [] a = (refl, refl)
  valid_values_all (v ∷ vs) a =
      let (all, kept) = valid_values_all vs a.1 in (rw (a.0.0, all) refl, rw (a.0.1, kept) refl)

  -- Where every key is a header name and occurs once, a name has the values of its own key.
  named_values_sorted :
      (n : Bytes) (source : Table (List Bytes))
      → IsHeaders hh source
      → named_values hh n (sort_by_key source) ≡ listed (lookup n source)
  unfolding sort_by_key lookup
  named_values_sorted n [] h = refl
  named_values_sorted n ((k, vs) ∷ r) h =
      let ih = named_values_sorted n r h.2 in
      let own = values_under_own h.0.0 in
      elim (Bool-cases (eqb k n)) [
        | inl same ↦
            let absent : named_values hh n (sort_by_key r) ≡ [] =
              ih ∙ ap listed (subst (λ i. lookup i r ≡ none) (eq_of_eqb k n same) h.1) in
            named_values-insert_by_key n k vs (sort_by_key r) (inr absent)
            ∙ rw (own, same, absent)
                (append-nil (valid_values hh vs) ∙ (valid_values_all vs h.0.2).0)
        | inr other ↦
            named_values-insert_by_key n k vs (sort_by_key r) (inl (own ∙ not_own other))
            ∙ rw (own, other) ih
      ]
    where
      values_under_own :
          hh.header_name k ≡ some k
          → values_under hh (hh.header_name k) n vs ≡ (if eqb k n then valid_values hh vs else [])
      values_under_own e = rw e refl

      not_own : eqb k n ≡ false → (if eqb k n then valid_values hh vs else []) ≡ []
      not_own e = rw e refl

  unless_nil-listed :
      (n : Bytes) (source : Table (List Bytes))
      → IsHeaders hh source
      → unless_nil (keep_if is_utf8 (listed (lookup n source))) ≡ lookup n source
  unfolding lookup
  unless_nil-listed n [] h = refl
  unless_nil-listed n ((k, vs) ∷ r) h = elim (Bool-cases (eqb k n)) [
    | inl same ↦ rw (same, (valid_values_all vs h.0.2).1) (some_of vs h.0.1)
    | inr other ↦ rw other (unless_nil-listed n r h.2)
  ]
    where
      some_of : (vs : List Bytes) → vs ≢ [] → unless_nil vs ≡ some vs
      some_of [] h = absurd (h refl)
      some_of (v ∷ vs) h = refl

  -- Headers whose keys are names in normal form, each once, and whose values are valid header values,
  -- valid UTF-8 and at least one for each key, come back from a header map as they were: under each name
  -- the same values in the same order, and no other names.
  pub lookup-decode-encode :
      (n : Bytes) (source : Table (List Bytes))
      → IsHeaders hh source
      → lookup n (decode_hyper_header_map hh (encode_hyper_header_map hh hh.empty source))
        ≡ lookup n source
  lookup-decode-encode n source h =
      lookup-decode (encode_hyper_header_map hh hh.empty source) n
      ∙ (ap (λ vs. unless_nil (keep_if is_utf8 vs)) held ∙ unless_nil-listed n source h)
    where
      held :
          values n (hh.iter (encode_hyper_header_map hh hh.empty source)) ≡ listed (lookup n source)
      held = values-encode n source hh.empty ∙ rw laws.iter-empty (named_values_sorted n source h)
