-- ===== src/ReliableChannel/Calls.antt =====
-- The calls that a channel has in flight: counts of an id in the lists of the state, and what the map of
-- the callbacks has for them.
use blueboat.Prelude.{
  ℕ, zero, suc, ◌+◌, List, [], ◌∷◌, ◌++◌, Option, none, some, some_inj, ◌==◌, if◌then◌else◌, All,
  subst, length-append, ◌≡◌, sym, ◌∙◌, ap, arith, length,
}
use blueboat.ReliableChannel.{with_head, pick, callback, unregister}

abbrev pub hit : ℕ → ℕ → ℕ
hit id j = if j == id then 1 else 0

pub All-append {ℓ} :
    {A : Type ℓ} (P : A → Type 0) (front back : List A)
    → All P front
    → All P back
    → All P (front ++ back)
All-append P [] back f b = b
All-append P (a ∷ front) back f b = (f.0, All-append P front back f.1 b)

pub All-map {ℓ} :
    {A : Type ℓ} (P Q : A → Type 0) → ((a : A) → P a → Q a) → (xs : List A) → All P xs → All Q xs
All-map P Q f [] h = tt
All-map P Q f (x ∷ xs) h = (f x h.0, All-map P Q f xs h.1)

module _ {A : Type 0} where
  abbrev pub count : ℕ → List (ℕ × A) → ℕ
  count id [] = 0
  count id (e ∷ es) = hit id (e.0) + count id es

  pub count-append :
      (id : ℕ) (xs ys : List (ℕ × A)) → count id (xs ++ ys) ≡ count id xs + count id ys
  count-append id [] ys = omega arith
  count-append id (x ∷ xs) ys = omega (arith, count-append id xs ys)

  none_ne_some : (p : A × List A) → none ≡ some p → ⊥
  none_ne_some p h = cc

  pair_of_some : (p q : A × List A) → some p ≡ some q → p ≡ q
  pair_of_some p q h = some_inj h

  with_head_inv :
      (x : A) (o : Option (A × List A)) (e : A) (ys : List A)
      → with_head x o ≡ some (e, ys)
      → (zs : List A) × (o ≡ some (e, zs)) × (x ∷ zs ≡ ys)
  with_head_inv x none e ys h = cc
  with_head_inv x (some (d, zs)) e ys h =
      let same = pair_of_some (d, x ∷ zs) (e, ys) h in
      (zs, ap (λ p. some (p.0, zs)) same, ap (λ p. p.1) same)

  -- What a pick takes and leaves.
  pub record IsPick (xs : List A) (e : A) (ys : List A) : Type 0 where
    pub before : List A
    pub behind : List A
    pub whole : xs ≡ before ++ e ∷ behind
    pub others : ys ≡ before ++ behind

  pub pick-IsPick :
      (i : ℕ) (xs : List A) (e : A) (ys : List A) → pick i xs ≡ some (e, ys) → IsPick xs e ys
  unfolding pick
  pick-IsPick i [] e ys h = absurd (none_ne_some (e, ys) h)
  pick-IsPick zero (x ∷ xs) e ys h =
      let same = pair_of_some (x, xs) (e, ys) h in
      record {
        before = [];
        behind = xs;
        whole = ap (λ p. p.0 ∷ xs) same;
        others = sym (ap (λ p. p.1) same);
      }
  pick-IsPick (suc i) (x ∷ xs) e ys h =
      let (zs, picked, same) = with_head_inv x (pick i xs) e ys h in
      let rest = pick-IsPick i xs e zs picked in
      record {
        before = x ∷ rest.before;
        behind = rest.behind;
        whole = ap (λ l. x ∷ l) rest.whole;
        others = sym same ∙ ap (λ l. x ∷ l) rest.others;
      }

  All-middle :
      (P : A → Type 0) (us : List A) (e : A) (vs : List A)
      → All P (us ++ e ∷ vs)
      → P e × All P (us ++ vs)
  All-middle P [] e vs h = h
  All-middle P (u ∷ us) e vs h = let (p, rest) = All-middle P us e vs h.1 in (p, (h.0, rest))

  pub pick-All :
      (P : A → Type 0) {xs : List A} {e : A} {ys : List A}
      → IsPick xs e ys
      → All P xs
      → P e × All P ys
  pick-All P p h =
      let (a, b) = All-middle P p.before _ p.behind (subst (All P) p.whole h) in
      (a, subst (All P) (sym p.others) b)

module _ {A : Type 0} where
  pub pick-count :
      (id : ℕ) {xs : List (ℕ × A)} {e : ℕ × A} {ys : List (ℕ × A)}
      → IsPick xs e ys
      → count id xs ≡ hit id (e.0) + count id ys
  pick-count id {e = e} p =
      rw (p.whole, p.others)
        (omega (arith, count-append id p.before (e ∷ p.behind), count-append id p.before p.behind))

  pub pick-length :
      {xs : List A} {e : A} {ys : List A} → IsPick xs e ys → length xs ≡ suc (length ys)
  pick-length {e = e} p =
      rw (p.whole, p.others)
        (omega (arith, length-append p.before (e ∷ p.behind), length-append p.before p.behind))

  pub callback-unregister :
      (id j : ℕ) (m : List (ℕ × A))
      → callback j (unregister id m) ≡ (if id == j then none else callback j m)
  unfolding callback unregister
  callback-unregister id j [] = ground arith
  callback-unregister id j ((k, a) ∷ m) = ground (arith, callback-unregister id j m)

  pub callback-register :
      (id j : ℕ) (a : A) (m : List (ℕ × A))
      → callback j ((id, a) ∷ unregister id m) ≡ (if id == j then some a else callback j m)
  unfolding callback
  callback-register id j a m = ground (arith, callback-unregister id j m)
