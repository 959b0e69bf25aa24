-- ===== src/Prelude/Order.antt =====
-- The lexicographic order of byte strings: what lies between two keys that share a prefix.
use blueboat.Prelude.{
  ℕ, suc, ◌<◌, ◌≡◌, refl, Bool, true, false, not, ◌&&◌, [], ◌∷◌, ◌++◌, arith, length, Bytes, lex_lt,
}

-- `start <= k && k < end`, the range that a scan reads.
unfoldable pub between : Bytes → Bytes → Bytes → Bool
between start end k = not (lex_lt k start) && lex_lt k end

pub lex_lt-append : (p a b : Bytes) → lex_lt (p ++ a) (p ++ b) ≡ lex_lt a b
unfolding lex_lt
lex_lt-append [] a b = refl
lex_lt-append (x ∷ p) a b = ground (arith, lex_lt-append p a b)

-- A key of full length is at least `from` followed by more bytes exactly when it is after `from`.
pub lex_lt-dirty :
    (from key : Bytes) (b : ℕ) (bs : Bytes)
    → length from ≡ length key
    → not (lex_lt key (from ++ b ∷ bs)) ≡ lex_lt from key
unfolding lex_lt
lex_lt-dirty [] [] b bs h = refl
lex_lt-dirty [] (y ∷ ys) b bs h = absurd (omega arith)
lex_lt-dirty (x ∷ xs) [] b bs h = absurd (omega arith)
lex_lt-dirty (x ∷ xs) (y ∷ ys) b bs h = ground (arith, lex_lt-dirty xs ys b bs)

pub lex_lt-head : (a b : ℕ) (x y : Bytes) → a < b → lex_lt (a ∷ x) (b ∷ y) ≡ true
unfolding lex_lt
lex_lt-head a b x y h = ground arith

pub lex_lt-nil : (a : Bytes) → lex_lt a [] ≡ false
unfolding lex_lt
lex_lt-nil [] = refl
lex_lt-nil (x ∷ a) = refl

-- Between `p` and `p` with its last byte `d` raised by one lie only keys that begin with `p`.
pub between-prefix :
    (c : Bytes) (d : ℕ) (x k : Bytes)
    → not (lex_lt k (c ++ d ∷ x)) ≡ true
    → lex_lt k (c ++ suc d ∷ []) ≡ true
    → (r : Bytes) × (k ≡ c ++ d ∷ r)
unfolding lex_lt
between-prefix [] d x [] h l = absurd (ground arith)
between-prefix [] d x (y ∷ ys) h l = (ys, ground (arith, lex_lt-nil ys))
between-prefix (z ∷ c) d x [] h l = absurd (ground arith)
between-prefix (z ∷ c) d x (y ∷ ys) h l =
    let (r, e) = between-prefix c d x ys (ground arith) (ground arith) in (r, ground arith)

-- The least key after `a` is `a` with a zero byte.
pub lex_lt-succ : (k a : Bytes) → not (lex_lt k (a ++ 0 ∷ [])) ≡ lex_lt a k
unfolding lex_lt
lex_lt-succ [] [] = refl
lex_lt-succ [] (x ∷ a) = refl
lex_lt-succ (y ∷ k) [] = ground (arith, lex_lt-nil k)
lex_lt-succ (y ∷ k) (x ∷ a) = ground (arith, lex_lt-succ k a)

-- Between `p` and `p` with a byte `d` after it lie the keys that begin with `p` and go on with a
-- lesser byte, and `p` itself.
pub between-suffix :
    (p : Bytes) (d : ℕ) (k : Bytes) → between p (p ++ d ∷ []) k ≡ true → (r : Bytes) × (k ≡ p ++ r)
unfolding between lex_lt
between-suffix [] d k h = (k, refl)
between-suffix (x ∷ p) d [] h = cc
between-suffix (x ∷ p) d (y ∷ k) h =
    let (r, e) = between-suffix p d k (ground arith) in (r, ground arith)

pub between-append :
    (p r : Bytes) (d : ℕ) → lex_lt r (d ∷ []) ≡ true → between p (p ++ d ∷ []) (p ++ r) ≡ true
unfolding between lex_lt
between-append [] [] d h = refl
between-append [] (x ∷ r) d h = h
between-append (x ∷ p) r d h = ground (arith, between-append p r d h)

pub lex_lt_irrefl : (a : Bytes) → lex_lt a a ≡ false
unfolding lex_lt
lex_lt_irrefl [] = refl
lex_lt_irrefl (x ∷ a) = ground (arith, lex_lt_irrefl a)

pub lex_lt_asym : (a b : Bytes) → lex_lt a b ≡ true → lex_lt b a ≡ false
unfolding lex_lt
lex_lt_asym [] [] h = refl
lex_lt_asym [] (y ∷ b) h = refl
lex_lt_asym (x ∷ a) [] h = cc
lex_lt_asym (x ∷ a) (y ∷ b) h = ground (arith, lex_lt_asym a b)
