-- ===== src/Pubsub/Sse/Past.antt =====
-- Messages whose numbers grow, and those of them past a number.
use blueboat.Prelude.{
  ℕ, zero, suc, Bytes, Bool, true, [], ◌∷◌, ◌++◌, take, drop, keep_if, lex_lt, All, Bool-cases, inl,
  inr, ◌≡◌, refl, sym, ap, ◌∙◌, subst, arith,
}
use blueboat.Prelude.Table.{Table}
use blueboat.Prelude.Order.{lex_lt_irrefl, lex_lt_asym}
use blueboat.Pubsub.Pop.{is_past}

-- The numbers of the messages grow.
abbrev pub Ascending : Table Bytes → Type 0
Ascending [] = Unit {0}
Ascending (m ∷ ms) = All (λ q. lex_lt m.0 q.0 ≡ true) ms × Ascending ms

lex_lt_trans : (a b c : Bytes) → lex_lt a b ≡ true → lex_lt b c ≡ true → lex_lt a c ≡ true
unfolding lex_lt
lex_lt_trans [] [] c h k = cc
lex_lt_trans [] (y ∷ b) [] h k = cc
lex_lt_trans [] (y ∷ b) (z ∷ c) h k = refl
lex_lt_trans (x ∷ a) [] c h k = cc
lex_lt_trans (x ∷ a) (y ∷ b) [] h k = cc
lex_lt_trans (x ∷ a) (y ∷ b) (z ∷ c) h k = ground (arith, lex_lt_trans a b c)

keep_if-All :
    (P : Bytes × Bytes → Type 0) (p : Bytes × Bytes → Bool) (ms : Table Bytes)
    → All P ms
    → All P (keep_if p ms)
keep_if-All P p [] h = tt
keep_if-All P p (m ∷ ms) h = elim (Bool-cases (p m)) [
  | inl e ↦ rw e (h.0, keep_if-All P p ms h.1)
  | inr e ↦ rw e (keep_if-All P p ms h.1)
]

All-middle :
    (P : Bytes × Bytes → Type 0) (front back : Table Bytes) (m : Bytes × Bytes)
    → All P (front ++ m ∷ back)
    → P m
All-middle P [] back m h = h.0
All-middle P (x ∷ front) back m h = All-middle P front back m h.1

-- What holds of all messages holds of one that is kept.
pub kept_has :
    (P : Bytes × Bytes → Type 0) (p : Bytes × Bytes → Bool) (ms front back : Table Bytes)
    (m : Bytes × Bytes)
    → All P ms
    → keep_if p ms ≡ front ++ m ∷ back
    → P m
kept_has P p ms front back m all h =
    All-middle P front back m (subst (λ t. All P t) h (keep_if-All P p ms all))

keep_if_all :
    (p : Bytes × Bytes → Bool) (ms : Table Bytes) → All (λ m. p m ≡ true) ms → keep_if p ms ≡ ms
keep_if_all p [] h = refl
keep_if_all p (m ∷ ms) h = rw (h.0, keep_if_all p ms h.1) refl

further :
    (from : Bytes) (m : Bytes × Bytes) (ms : Table Bytes)
    → lex_lt from m.0 ≡ true
    → All (λ q. lex_lt m.0 q.0 ≡ true) ms
    → All (λ q. lex_lt from q.0 ≡ true) ms
further from m [] h all = tt
further from m (q ∷ ms) h all = (lex_lt_trans from m.0 q.0 h all.0, further from m ms h all.1)

nil_ne_middle : (front back : Table Bytes) (m : Bytes × Bytes) → [] ≡ front ++ m ∷ back → ⊥
nil_ne_middle [] back m h = cc
nil_ne_middle (x ∷ front) back m h = cc

-- What is past one of the messages past a number is what stands behind it.
pub past_resumes :
    (ms : Table Bytes) (from : Bytes) (front back : Table Bytes) (m : Bytes × Bytes)
    → Ascending ms
    → keep_if (is_past from) ms ≡ front ++ m ∷ back
    → keep_if (is_past m.0) ms ≡ back
past_resumes [] from front back m asc h = absurd (nil_ne_middle front back m h)
past_resumes (x ∷ xs) from front back m asc h = elim (Bool-cases (lex_lt from x.0)) [
  | inr before ↦
      let h' : keep_if (is_past from) xs ≡ front ++ m ∷ back = rw before at h in
      behind (λ u e. past_resumes xs from u back m asc.1 e) front h'
  | inl past ↦
      let h' : x ∷ keep_if (is_past from) xs ≡ front ++ m ∷ back = rw past at h in
      split (λ u e. past_resumes xs from u back m asc.1 e) past front h'
]
  where
    behind :
        ((front : Table Bytes)
          → keep_if (is_past from) xs ≡ front ++ m ∷ back
          → keep_if (is_past m.0) xs ≡ back)
        → (front : Table Bytes) → keep_if (is_past from) xs ≡ front ++ m ∷ back
        → keep_if (is_past m.0) (x ∷ xs) ≡ back
    behind ih front h =
        let lt : lex_lt x.0 m.0 ≡ true =
          kept_has (λ q. lex_lt x.0 q.0 ≡ true) (is_past from) xs front back m asc.0 h in
        rw (lex_lt_asym x.0 m.0 lt) (ih front h)

    here :
        lex_lt from x.0 ≡ true
        → x ≡ m
        → keep_if (is_past from) xs ≡ back
        → keep_if (is_past m.0) (x ∷ xs) ≡ back
    here past same rest =
        subst (λ (q : Bytes × Bytes). keep_if (is_past q.0) (x ∷ xs) ≡ back) same
          (rw (lex_lt_irrefl x.0) (
            keep_if_all (is_past x.0) xs asc.0
            ∙ sym (keep_if_all (is_past from) xs (further from x xs past asc.0))
            ∙ rest))

    split :
        ((front : Table Bytes)
          → keep_if (is_past from) xs ≡ front ++ m ∷ back
          → keep_if (is_past m.0) xs ≡ back)
        → lex_lt from x.0 ≡ true
        → (front : Table Bytes) → x ∷ keep_if (is_past from) xs ≡ front ++ m ∷ back
        → keep_if (is_past m.0) (x ∷ xs) ≡ back
    split ih past [] h = here past (cc h) (cc h)
    split ih past (y ∷ front) h = behind ih front (cc h)

pub keep_if-append :
    (p : Bytes × Bytes → Bool) (xs ys : Table Bytes)
    → keep_if p (xs ++ ys) ≡ keep_if p xs ++ keep_if p ys
keep_if-append p [] ys = refl
keep_if-append p (x ∷ xs) ys = elim (Bool-cases (p x)) [
  | inl e ↦ rw e (ap (λ t. x ∷ t) (keep_if-append p xs ys))
  | inr e ↦ rw e (keep_if-append p xs ys)
]

pub take-drop : (k : ℕ) (ms : Table Bytes) → ms ≡ take k ms ++ drop k ms
take-drop zero ms = refl
take-drop (suc k) [] = refl
take-drop (suc k) (m ∷ ms) = ap (λ t. m ∷ t) (take-drop k ms)
