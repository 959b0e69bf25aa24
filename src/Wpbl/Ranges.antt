-- ===== src/Wpbl/Ranges.antt =====
-- Which addresses the block list holds: those of its ranges where these are apart, and what goes wrong
-- with ranges inside others and with addresses of both kinds.
use blueboat.Prelude.{
  Bytes, Bool, true, false, List, [], ◌∷◌, ◌++◌, Option, none, some, some_inj, lex_lt, keep_if, All,
  Any, Bool-cases, inl, inr, ◌⊎◌, ◌↔◌, ◌≡◌, refl, sym, ap, ◌∙◌, subst, arith, if◌then◌else◌, length,
}
use blueboat.Prelude.Order.{lex_lt_irrefl, lex_lt_asym}
use blueboat.Wpbl.{
  BlockRow, IpAddr, v6, octets, is_candidate, later, last_start, is_within, found, in_blocklist,
  Blocks,
}

-- What is below one text and not below another lies above that.
lex_lt_split : (a b c : Bytes) → lex_lt a c ≡ true → (lex_lt a b ≡ true) ⊎ (lex_lt b c ≡ true)
unfolding lex_lt
lex_lt_split [] [] [] h = cc
lex_lt_split [] [] (z ∷ c) h = inr refl
lex_lt_split [] (y ∷ b) c h = inl refl
lex_lt_split (x ∷ a) b [] h = cc
lex_lt_split (x ∷ a) [] (z ∷ c) h = inr refl
lex_lt_split (x ∷ a) (y ∷ b) (z ∷ c) h = ground (arith, lex_lt_split a b c)

module _ {A : Type 0} where
  -- An element that has the property, and that it is one of the list.
  Any-witness : (P : A → Type 0) (xs : List A) → Any P xs → (x : A) × P x × Any (λ y. y ≡ x) xs
  Any-witness P [] a = absurd a
  Any-witness P (x ∷ xs) (inl p) = (x, p, inl refl)
  Any-witness P (x ∷ xs) (inr a) = let (y, p, m) = Any-witness P xs a in (y, p, inr m)

  Any-of : (P : A → Type 0) (xs : List A) {x : A} → P x → Any (λ y. y ≡ x) xs → Any P xs
  Any-of P [] p a = a
  Any-of P (y ∷ xs) p (inl e) = inl (subst P (sym e) p)
  Any-of P (y ∷ xs) p (inr a) = inr (Any-of P xs p a)

  All-at : (P : A → Type 0) (xs : List A) {x : A} → All P xs → Any (λ y. y ≡ x) xs → P x
  All-at P [] a m = absurd m
  All-at P (y ∷ xs) a (inl e) = subst P e a.0
  All-at P (y ∷ xs) a (inr m) = All-at P xs a.1 m

  Any-keep_if :
      (P : A → Type 0) (p : A → Bool) (xs : List A)
      → Any P (keep_if p xs)
      → Any (λ x. P x × (p x ≡ true)) xs
  Any-keep_if P p [] a = a
  Any-keep_if P p (x ∷ xs) a = elim (Bool-cases (p x)) [
    | inl e ↦
        kept e (subst (λ b. Any P (if b then x ∷ keep_if p xs else keep_if p xs)) e a)
          (Any-keep_if P p xs)
    | inr e ↦
        inr (
          Any-keep_if P p xs
            (subst (λ b. Any P (if b then x ∷ keep_if p xs else keep_if p xs)) e a))
  ]
    where
      kept :
          p x ≡ true
          → Any P (x ∷ keep_if p xs)
          → (Any P (keep_if p xs) → Any (λ x. P x × (p x ≡ true)) xs)
          → Any (λ x. P x × (p x ≡ true)) (x ∷ xs)
      kept e (inl q) ih = inl (q, e)
      kept e (inr q) ih = inr (ih q)

  keep_if-Any :
      (P : A → Type 0) (p : A → Bool) (xs : List A)
      → Any (λ x. P x × (p x ≡ true)) xs
      → Any P (keep_if p xs)
  keep_if-Any P p [] a = a
  keep_if-Any P p (x ∷ xs) (inl (q, e)) = rw e (inl q)
  keep_if-Any P p (x ∷ xs) (inr a) = elim (Bool-cases (p x)) [
    | inl e ↦ rw e (inr (keep_if-Any P p xs a))
    | inr e ↦ rw e (keep_if-Any P p xs a)
  ]

-- What a query's answer is: one of the rows, and none of the others starts after it.
abbrev IsLast : List BlockRow → BlockRow → Type 0
IsLast rs b = Any (λ r. r ≡ b) rs × All (λ r. lex_lt b.rangestart r.rangestart ≡ false) rs

above_later :
    (x c : BlockRow) (rs : List BlockRow)
    → lex_lt x.rangestart c.rangestart ≡ false
    → All (λ r. lex_lt c.rangestart r.rangestart ≡ false) rs
    → All (λ r. lex_lt x.rangestart r.rangestart ≡ false) rs
above_later x c [] h a = tt
above_later x c (r ∷ rs) h a =
    (not_below (lex_lt_split x.rangestart c.rangestart r.rangestart) a.0, above_later x c rs h a.1)
  where
    not_below :
        (lex_lt x.rangestart r.rangestart ≡ true
          → (lex_lt x.rangestart c.rangestart ≡ true) ⊎ (lex_lt c.rangestart r.rangestart ≡ true))
        → lex_lt c.rangestart r.rangestart ≡ false
        → lex_lt x.rangestart r.rangestart ≡ false
    not_below split below = ground arith

last_start-none : (rs : List BlockRow) → last_start rs ≡ none → rs ≡ []
unfolding last_start
last_start-none [] h = refl
last_start-none (r ∷ rs) h = absurd (later_some (last_start rs) h)
  where
    later_some : (o : Option BlockRow) → later r o ≡ none → ⊥
    later_some none h = cc
    later_some (some c) h = ground arith

last_start-IsLast : (rs : List BlockRow) (b : BlockRow) → last_start rs ≡ some b → IsLast rs b
unfolding last_start
last_start-IsLast [] b h = cc
last_start-IsLast (x ∷ rs) b h =
    of_rest (last_start rs) refl (λ c. last_start-IsLast rs c) (last_start-none rs) h
  where
    of_rest :
        (o : Option BlockRow)
        → last_start rs ≡ o
        → ((c : BlockRow) → last_start rs ≡ some c → IsLast rs c)
        → (last_start rs ≡ none → rs ≡ [])
        → later x o ≡ some b
        → IsLast (x ∷ rs) b
    of_rest none e ih nil h = subst (IsLast (x ∷ rs)) (some_inj h) (
      inl refl,
      (
        lex_lt_irrefl x.rangestart,
        subst (All (λ r. lex_lt x.rangestart r.rangestart ≡ false)) (sym (nil e)) tt,
      ),
    )
    of_rest (some c) e ih nil h = elim (Bool-cases (lex_lt x.rangestart c.rangestart)) [
      | inl below ↦
          subst (IsLast (x ∷ rs))
            (some_inj (sym (if_below (lex_lt x.rangestart c.rangestart) below) ∙ h))
            (inr (ih c e).0, (lex_lt_asym x.rangestart c.rangestart below, (ih c e).1))
      | inr above ↦
          subst (IsLast (x ∷ rs))
            (some_inj (sym (if_above (lex_lt x.rangestart c.rangestart) above) ∙ h))
            (inl refl, (lex_lt_irrefl x.rangestart, above_later x c rs above (ih c e).1))
    ]
      where
        if_below : (t : Bool) → t ≡ true → (if t then some c else some x) ≡ some c
        if_below t e = ground arith

        if_above : (t : Bool) → t ≡ false → (if t then some c else some x) ≡ some x
        if_above t e = ground arith

-- Two rows in force are the same range, or one ends before the other starts.
abbrev pub Apart : Bytes → BlockRow → BlockRow → Type 0
Apart now r b =
    lex_lt now r.expiry ≡ true
    → lex_lt now b.expiry ≡ true
    → (r.rangeend ≡ b.rangeend)
      ⊎ ((lex_lt r.rangeend b.rangestart ≡ true) ⊎ (lex_lt b.rangeend r.rangestart ≡ true))

-- The rows that a query may meet: each starts before it ends, and they are apart.
abbrev pub IsApart : Bytes → List BlockRow → Type 0
IsApart now rows = All (λ r. (lex_lt r.rangeend r.rangestart ≡ false) × All (Apart now r) rows) rows

covers :
    (t : Bytes) (r b : BlockRow)
    → is_within t r ≡ true
    → lex_lt b.rangestart r.rangestart ≡ false
    → lex_lt t b.rangestart ≡ false
    → lex_lt b.rangeend b.rangestart ≡ false
    → (r.rangeend ≡ b.rangeend)
      ⊎ ((lex_lt r.rangeend b.rangestart ≡ true) ⊎ (lex_lt b.rangeend r.rangestart ≡ true))
    → is_within t b ≡ true
covers t r b w after start sound (inl same) = ground (arith, ap (λ e. lex_lt e t) same)
covers t r b w after start sound (inr (inl before)) =
    ground (arith, lex_lt_split r.rangeend t b.rangestart before)
covers t r b w after start sound (inr (inr before)) =
    ground (arith, lex_lt_split b.rangeend b.rangestart r.rangestart before)

module _ (encode_upper : Bytes → Bytes) (now : Bytes) where
  found-Blocks :
      (rows : List BlockRow) (t : Bytes) (o : Option BlockRow)
      → last_start (keep_if (is_candidate now t) rows) ≡ o
      → found t o ≡ true
      → Any (Blocks now t) rows
  found-Blocks rows t none e h = cc
  found-Blocks rows t (some b) e h =
      let (there, after) = last_start-IsLast (keep_if (is_candidate now t) rows) b e in
      let (x, (same, cand), m) =
        Any-witness (λ x. (x ≡ b) × (is_candidate now t x ≡ true)) rows
          (Any-keep_if (λ x. x ≡ b) (is_candidate now t) rows there) in
      Any-of (Blocks now t) rows {x = x}
        (live x cand, subst (λ y. is_within t y ≡ true) (sym same) h) m
    where
      live : (x : BlockRow) → is_candidate now t x ≡ true → lex_lt now x.expiry ≡ true
      live x c = ground arith

  Blocks-found :
      (rows : List BlockRow) (t : Bytes) (o : Option BlockRow)
      → IsApart now rows
      → last_start (keep_if (is_candidate now t) rows) ≡ o
      → Any (Blocks now t) rows
      → found t o ≡ true
  Blocks-found rows t o apart e a =
      let (r, blocks, m) = Any-witness (Blocks now t) rows a in
      let held : Any (λ x. x ≡ r) (keep_if (is_candidate now t) rows) =
        keep_if-Any (λ x. x ≡ r) (is_candidate now t) rows
          (Any-of (λ x. (x ≡ r) × (is_candidate now t x ≡ true)) rows {x = r}
            (refl, starts_before r blocks) m) in
      of_answer r blocks m held o e
    where
      starts_before : (r : BlockRow) → Blocks now t r → is_candidate now t r ≡ true
      starts_before r b = ground arith

      starts : (b : BlockRow) → is_candidate now t b ≡ true → lex_lt t b.rangestart ≡ false
      starts b c = ground arith

      live : (b : BlockRow) → is_candidate now t b ≡ true → lex_lt now b.expiry ≡ true
      live b c = ground arith

      of_answer :
          (r : BlockRow)
          → Blocks now t r
          → Any (λ x. x ≡ r) rows
          → Any (λ x. x ≡ r) (keep_if (is_candidate now t) rows)
          → (o : Option BlockRow) → last_start (keep_if (is_candidate now t) rows) ≡ o
          → found t o ≡ true
      of_answer r blocks m held none e =
          absurd
            (subst (Any (λ x. x ≡ r)) (last_start-none (keep_if (is_candidate now t) rows) e) held)
      of_answer r blocks m held (some b) e =
          let (there, after) = last_start-IsLast (keep_if (is_candidate now t) rows) b e in
          let (x, (same, cand), mx) =
            Any-witness (λ x. (x ≡ b) × (is_candidate now t x ≡ true)) rows
              (Any-keep_if (λ x. x ≡ b) (is_candidate now t) rows there) in
          let cand_b = subst (λ y. is_candidate now t y ≡ true) same cand in
          let mb = subst (λ z. Any (λ y. y ≡ z) rows) same mx in
          covers t r b blocks.1
            (All-at (λ y. lex_lt b.rangestart y.rangestart ≡ false)
              (keep_if (is_candidate now t) rows) {x = r} after held)
            (starts b cand_b)
            (All-at (λ y. (lex_lt y.rangeend y.rangestart ≡ false) × All (Apart now y) rows) rows
              {x = b} apart mb).0
            (All-at (Apart now r) rows {x = b}
              (All-at (λ y. (lex_lt y.rangeend y.rangestart ≡ false) × All (Apart now y) rows) rows
                {x = r} apart m).1
              mb blocks.0 (live b cand_b))

  -- Where each range of the block list starts before it ends, and two ranges in force either end
  -- together or do not meet, an address is in the block list exactly where a row in force holds it.
  pub in_blocklist_iff :
      (rows : List BlockRow) (ip : IpAddr)
      → IsApart now rows
      → (in_blocklist encode_upper rows now ip ≡ true)
        ↔ Any (Blocks now (encode_upper (octets ip))) rows
  unfolding in_blocklist
  in_blocklist_iff rows ip apart =
      let t = encode_upper (octets ip) in
      (
        found-Blocks rows t (last_start (keep_if (is_candidate now t) rows)) refl,
        Blocks-found rows t (last_start (keep_if (is_candidate now t) rows)) apart refl,
      )

  -- With a range inside another, an address of the outer one behind the inner one is not found, although
  -- the outer range is in force and holds it.
  nested_missed :
      (outer inner : BlockRow) (ip : IpAddr)
      → Blocks now (encode_upper (octets ip)) outer
      → lex_lt now inner.expiry ≡ true
      → lex_lt outer.rangestart inner.rangestart ≡ true
      → lex_lt (encode_upper (octets ip)) inner.rangestart ≡ false
      → lex_lt inner.rangeend (encode_upper (octets ip)) ≡ true
      → in_blocklist encode_upper (outer ∷ inner ∷ []) now ip ≡ false
  unfolding in_blocklist last_start
  nested_missed outer inner ip blocks live inside starts behind = ground arith

lex_lt-longer : (e x a : Bytes) → lex_lt e a ≡ false → lex_lt (e ++ x) a ≡ false
unfolding lex_lt
lex_lt-longer [] [] [] h = refl
lex_lt-longer [] (x ∷ xs) [] h = refl
lex_lt-longer [] x (z ∷ a) h = cc
lex_lt-longer (y ∷ e) x [] h = refl
lex_lt-longer (y ∷ e) x (z ∷ a) h = ground (arith, lex_lt-longer e x a)

lex_lt-shorter :
    (e x a : Bytes) → length e ≡ length a → lex_lt e a ≡ true → lex_lt a (e ++ x) ≡ false
unfolding lex_lt
lex_lt-shorter [] x [] l h = cc
lex_lt-shorter [] x (z ∷ a) l h = absurd (omega arith)
lex_lt-shorter (y ∷ e) x [] l h = absurd (omega arith)
lex_lt-shorter (y ∷ e) x (z ∷ a) l h = ground (arith, lex_lt-shorter e x a)

-- An IPv6 address whose first octets, read as an IPv4 address, lie in a range of the block list before
-- its last address is in the block list.
v6_blocked_as_v4 :
    (encode_upper : Bytes → Bytes) (now : Bytes) (r : BlockRow) (p q : Bytes)
    → encode_upper (p ++ q) ≡ encode_upper p ++ encode_upper q
    → length (encode_upper p) ≡ length r.rangeend
    → Blocks now (encode_upper p) r
    → lex_lt (encode_upper p) r.rangeend ≡ true
    → in_blocklist encode_upper (r ∷ []) now (v6 (p ++ q)) ≡ true
unfolding in_blocklist last_start
v6_blocked_as_v4 encode_upper now r p q joined long blocks below = rw joined (
    tests (lex_lt-longer (encode_upper p) (encode_upper q) r.rangestart (starts blocks.1))
      (lex_lt-shorter (encode_upper p) (encode_upper q) r.rangeend long below))
  where
    starts : is_within (encode_upper p) r ≡ true → lex_lt (encode_upper p) r.rangestart ≡ false
    starts w = ground arith

    tests :
        lex_lt (encode_upper p ++ encode_upper q) r.rangestart ≡ false
        → lex_lt r.rangeend (encode_upper p ++ encode_upper q) ≡ false
        → found
            (encode_upper p ++ encode_upper q)
            (last_start (keep_if (is_candidate now (encode_upper p ++ encode_upper q)) (r ∷ [])))
          ≡ true
    tests a b = rw (blocks.0, a) (if_within a b)
      where
        if_within :
            lex_lt (encode_upper p ++ encode_upper q) r.rangestart ≡ false
            → lex_lt r.rangeend (encode_upper p ++ encode_upper q) ≡ false
            → is_within (encode_upper p ++ encode_upper q) r ≡ true
        if_within a b = ground arith
