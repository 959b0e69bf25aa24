-- ===== src/Tests/Tuples.antt =====
-- The tuple encoding of strings: a type code, the bytes with each zero followed by 0xff, and a zero.
use blueboat.Prelude.{
  ℕ, Bytes, true, false, List, [], ◌∷◌, ◌++◌, append_assoc, Option, none, some, if◌then◌else◌, ◌==◌,
  ◌≡◌, refl, sym, ap, ◌∙◌, arith, Bool-cases, inl, inr,
}
use blueboat.Fdb.{starts_ff}

unfoldable pub escape : Bytes → Bytes
escape [] = []
escape (b ∷ bs) = if b == 0 then 0 ∷ 255 ∷ escape bs else b ∷ escape bs

unfoldable pub encode_tuple : List Bytes → Bytes
unfolding escape
encode_tuple [] = []
encode_tuple (s ∷ ss) = 2 ∷ (escape s ++ 0 ∷ encode_tuple ss)

pub data Place : Type 0 where
  outside : Place
  inside : Place
  pending : Place

abbrev push : ℕ → Option (List Bytes) → Option (List Bytes)
push c none = none
push c (some []) = none
push c (some (s ∷ ss)) = some ((c ∷ s) ∷ ss)

abbrev ended : Option (List Bytes) → Option (List Bytes)
ended none = none
ended (some ss) = some ([] ∷ ss)

unfoldable pub decode_tuple : Place → Bytes → Option (List Bytes)
decode_tuple outside [] = some []
decode_tuple outside (c ∷ cs) = let rest = decode_tuple inside cs in if c == 2 then rest else none
decode_tuple inside [] = none
decode_tuple inside (c ∷ cs) =
    let rest = decode_tuple inside cs in
    let other = decode_tuple pending cs in if c == 0 then other else push c rest
decode_tuple pending [] = some ([] ∷ [])
decode_tuple pending (c ∷ cs) =
    let rest = decode_tuple inside cs in
    if c == 255 then push 0 rest else ended (if c == 2 then rest else none)

abbrev pushes : Bytes → Option (List Bytes) → Option (List Bytes)
pushes [] o = o
pushes (c ∷ cs) o = push c (pushes cs o)

pushes-some : (s : Bytes) (ss : List Bytes) → pushes s (some ([] ∷ ss)) ≡ some (s ∷ ss)
pushes-some [] ss = refl
pushes-some (c ∷ cs) ss = ap (push c) (pushes-some cs ss)

decode_tuple-escape :
    (s r : Bytes) → decode_tuple inside (escape s ++ 0 ∷ r) ≡ pushes s (decode_tuple pending r)
unfolding decode_tuple escape
decode_tuple-escape [] r = refl
decode_tuple-escape (b ∷ bs) r = elim (Bool-cases (b == 0)) [
  | inl e ↦
      rw (e, decode_tuple-escape bs r)
        (ap (λ c. push c (pushes bs (decode_tuple pending r))) (zero_of b e))
  | inr e ↦ rw (e, e, decode_tuple-escape bs r) refl
]
  where
    zero_of : (b : ℕ) → (b == 0) ≡ true → 0 ≡ b
    zero_of b e = ground arith

decode_tuple-pending : (ss : List Bytes) → decode_tuple pending (encode_tuple ss) ≡ some ([] ∷ ss)
unfolding decode_tuple encode_tuple
decode_tuple-pending [] = refl
decode_tuple-pending (s ∷ ss) =
    rw (decode_tuple-escape s (encode_tuple ss), decode_tuple-pending ss, pushes-some s ss) refl

pub decode_tuple-encode_tuple : (ss : List Bytes) → decode_tuple outside (encode_tuple ss) ≡ some ss
unfolding decode_tuple encode_tuple
decode_tuple-encode_tuple [] = refl
decode_tuple-encode_tuple (s ∷ ss) =
    rw (decode_tuple-escape s (encode_tuple ss), decode_tuple-pending ss, pushes-some s ss) refl

pub encode_tuple-append :
    (xs ys : List Bytes) → encode_tuple (xs ++ ys) ≡ encode_tuple xs ++ encode_tuple ys
unfolding encode_tuple
encode_tuple-append [] ys = refl
encode_tuple-append (x ∷ xs) ys =
    rw (encode_tuple-append xs ys, append_assoc (escape x) (0 ∷ encode_tuple xs) (encode_tuple ys))
      refl

no_ff_behind : (x r : Bytes) → starts_ff x ≡ false → 0 ∷ x ≡ 0 ∷ 255 ∷ r → ⊥
unfolding starts_ff
no_ff_behind [] r p h = cc
no_ff_behind (c ∷ cs) r p h = ground arith

not_zero : (b : ℕ) (u v : Bytes) → (b == 0) ≡ false → 0 ∷ u ≡ b ∷ v → ⊥
not_zero b u v p h = ground arith

tail_eq : (a b : ℕ) (u v : Bytes) → a ∷ u ≡ b ∷ v → u ≡ v
tail_eq a b u v h = cc

both_zero : (a b : ℕ) → (a == 0) ≡ true → (b == 0) ≡ true → a ≡ b
both_zero a b p q = ground arith

cons_eq : (a b : ℕ) (u v : Bytes) → a ≡ b → u ≡ v → a ∷ u ≡ b ∷ v
cons_eq a b u v h k = cc

head_eq : (a b : ℕ) (u v : Bytes) → a ∷ u ≡ b ∷ v → a ≡ b
head_eq a b u v h = cc

-- An escaped string tells its end where no 0xff follows its zero.
escape_delimited :
    (a b x y : Bytes)
    → starts_ff x ≡ false
    → starts_ff y ≡ false
    → escape a ++ 0 ∷ x ≡ escape b ++ 0 ∷ y
    → a ≡ b
unfolding escape starts_ff
escape_delimited [] [] x y p q h = refl
escape_delimited [] (b ∷ bs) x y p q h = elim (Bool-cases (b == 0)) [
  | inl e ↦ absurd (no_ff_behind x _ p (rw e at h))
  | inr e ↦ absurd (not_zero b _ _ e (rw e at h))
]
escape_delimited (a ∷ as') [] x y p q h = elim (Bool-cases (a == 0)) [
  | inl e ↦ absurd (no_ff_behind y _ q (sym (rw e at h)))
  | inr e ↦ absurd (not_zero a _ _ e (sym (rw e at h)))
]
escape_delimited (a ∷ as') (b ∷ bs) x y p q h = elim (Bool-cases (a == 0)) [
  | inl e ↦ elim (Bool-cases (b == 0)) [
    | inl d ↦
        cons_eq a b as' bs (both_zero a b e d)
          (escape_delimited as' bs x y p q (tail_eq 255 255 _ _ (tail_eq 0 0 _ _ (rw (e, d) at h))))
    | inr d ↦ absurd (not_zero b _ _ d (rw (e, d) at h))
  ]
  | inr e ↦ elim (Bool-cases (b == 0)) [
    | inl d ↦ absurd (not_zero a _ _ e (sym (rw (e, d) at h)))
    | inr d ↦
        let k : a ∷ (escape as' ++ 0 ∷ x) ≡ b ∷ (escape bs ++ 0 ∷ y) = rw (e, d) at h in
        cons_eq a b as' bs (head_eq a b _ _ k) (escape_delimited as' bs x y p q (tail_eq a b _ _ k))
  ]
]

pub encode_tuple_delimited :
    (a b x y : Bytes)
    → starts_ff x ≡ false
    → starts_ff y ≡ false
    → encode_tuple (a ∷ []) ++ x ≡ encode_tuple (b ∷ []) ++ y
    → a ≡ b
unfolding encode_tuple
encode_tuple_delimited a b x y p q h =
    escape_delimited a b x y p q
      (sym (append_assoc (escape a) (0 ∷ []) x) ∙ tail h ∙ append_assoc (escape b) (0 ∷ []) y)
  where
    tail : {c : ℕ} {u v : Bytes} → c ∷ u ≡ c ∷ v → u ≡ v
    tail h = cc
