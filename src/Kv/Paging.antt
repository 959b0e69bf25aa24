-- ===== src/Kv/Paging.antt =====
-- Which keys a listing reads: those under the prefix, and after a cursor those past it.
use blueboat.Prelude.{
  append_cancel, ℕ, ◌<◌, Bytes, Bool, true, false, List, [], ◌∷◌, ◌++◌, none, some, ◌≡◌, ◌↔◌, refl,
  sym, ap, ◌∙◌, subst, arith, append_assoc, append-nil, b_slash, lex_lt,
}
use blueboat.Prelude.Order.{
  between, lex_lt-append, lex_lt-nil, lex_lt-succ, lex_lt-head, between-suffix, between-append,
}
use blueboat.Fdb.{Fdb, PacksTuples, starts_ff}
use blueboat.Mds.{MdsClusterConfig, segments, pack_user_key}
use blueboat.Kv.Reads.{list_range}

nil_ne_cons : {b : ℕ} {x : Bytes} → [] ≡ b ∷ x → ⊥
nil_ne_cons h = cc

-- `ps` is a beginning of `qs`.
abbrev pub IsPrefixOf : List Bytes → List Bytes → Type 0
IsPrefixOf ps qs = (rs : List Bytes) × (qs ≡ ps ++ rs)

below_ff : (r : Bytes) → lex_lt r (0xff ∷ []) ≡ true → starts_ff r ≡ false
unfolding lex_lt starts_ff
below_ff [] h = refl
below_ff (b ∷ bs) h = ground (arith, lex_lt-nil bs)

-- What follows the start of a range that ends with 0xff does not begin with it.
no_ff :
    (start key r : Bytes)
    → between start (start ++ 0xff ∷ []) key ≡ true
    → key ≡ start ++ r
    → starts_ff r ≡ false
unfolding between
no_ff start key r h e = below_ff r (
    sym (lex_lt-append start r (0xff ∷ []))
    ∙ ap (λ k. lex_lt k (start ++ 0xff ∷ [])) (sym e)
    ∙ ground arith)

module _ (f : Fdb) (t : PacksTuples f) where
  pack-cons : (a : Bytes) (as' : List Bytes) → f.pack (a ∷ as') ≡ f.pack (a ∷ []) ++ f.pack as'
  pack-cons a as' = t.pack-append (a ∷ []) as'

  starts_ff-pack :
      (qs : List Bytes) (r : Bytes) → starts_ff r ≡ false → starts_ff (f.pack qs ++ r) ≡ false
  starts_ff-pack [] r h = rw t.pack-nil h
  starts_ff-pack (q ∷ qs) r h =
      let (x, e) = t.pack_code q in rw (pack-cons q qs, e) (unfold starts_ff in refl)

  -- If the encoding of one tuple begins that of another, the one tuple begins the other.
  pack-IsPrefixOf :
      (ps qs : List Bytes) (r : Bytes)
      → starts_ff r ≡ false
      → f.pack qs ≡ f.pack ps ++ r
      → IsPrefixOf ps qs
  pack-IsPrefixOf [] qs r n h = (qs, refl)
  pack-IsPrefixOf (p ∷ ps) [] r n h =
      let (x, e) = t.pack_code p in
      absurd (
        nil_ne_cons {b = 2} {x = (x ++ f.pack ps) ++ r}
          (sym t.pack-nil ∙ h ∙ rw (pack-cons p ps, e) refl))
  pack-IsPrefixOf (p ∷ ps) (q ∷ qs) r n h =
      let split : f.pack (q ∷ []) ++ f.pack qs ≡ f.pack (p ∷ []) ++ (f.pack ps ++ r) =
        sym (pack-cons q qs) ∙ h ∙ rw (pack-cons p ps, append_assoc) refl in
      let same : q ≡ p =
        t.pack_delimited q p (f.pack qs) (f.pack ps ++ r)
          (subst (λ z. starts_ff z ≡ false) (append-nil (f.pack qs))
            (starts_ff-pack qs [] (unfold starts_ff in refl)))
          (starts_ff-pack ps r n) split in
      let (rs, e) =
        pack-IsPrefixOf ps qs r n (append_cancel (f.pack (p ∷ [])) (rw same at split)) in
      (rs, rw (same, e) refl)

  pack-lt : (rs : List Bytes) (d : ℕ) → 2 < d → lex_lt (f.pack rs) (d ∷ []) ≡ true
  pack-lt [] d h = rw t.pack-nil (unfold lex_lt in refl)
  pack-lt (r ∷ rs) d h =
      let (x, e) = t.pack_code r in rw (pack-cons r rs, e) (lex_lt-head 2 d (x ++ f.pack rs) [] h)

  -- Without a cursor, the key of a path lies in the range of a prefix exactly when the segments of
  -- the prefix are the first segments of the path.
  pub list_range_exact :
      (c : MdsClusterConfig) (ns prefix path : Bytes) (rev : Bool)
      → (between
            (list_range f c ns prefix rev none).0
            (list_range f c ns prefix rev none).1
            (pack_user_key f c ns path)
          ≡ true)
        ↔ IsPrefixOf (segments prefix) (segments path)
  unfolding list_range pack_user_key
  list_range_exact c ns prefix path rev = (
    λ h.
        let pre : List Bytes = c.prefix ∷ segments ns in
        let (r, e) =
          between-suffix (f.pack (pre ++ segments prefix)) 0xff (f.pack (pre ++ segments path)) h in
        let (rs, q) =
          pack-IsPrefixOf (pre ++ segments prefix) (pre ++ segments path) r
            (no_ff (f.pack (pre ++ segments prefix)) _ r h e) e in
        (rs, append_cancel pre (q ∙ append_assoc pre (segments prefix) rs)),
    λ h.
        let pre : List Bytes = c.prefix ∷ segments ns in
        let e : f.pack (pre ++ segments path) ≡ f.pack (pre ++ segments prefix) ++ f.pack h.0 =
          ap f.pack (ap (λ x. pre ++ x) h.1 ∙ sym (append_assoc pre (segments prefix) h.0))
          ∙ t.pack-append (pre ++ segments prefix) h.0 in
        rw e (
          between-append (f.pack (pre ++ segments prefix)) (f.pack h.0) 0xff
            (pack-lt h.0 0xff (omega arith))),
  )

  -- Of the keys in the range of a prefix, a forward listing after a cursor reads exactly those past
  -- the key of the cursor, and a reverse one exactly those before it.
  list_range_cursor :
      (c : MdsClusterConfig) (ns prefix cursor k : Bytes)
      → between (list_range f c ns prefix false none).0 (list_range f c ns prefix false none).1 k
        ≡ true
      → (between
            (list_range f c ns prefix false (some cursor)).0
            (list_range f c ns prefix false (some cursor)).1
            k
          ≡ lex_lt (pack_user_key f c ns (prefix ++ b_slash ∷ cursor)) k)
        × (between
              (list_range f c ns prefix true (some cursor)).0
              (list_range f c ns prefix true (some cursor)).1
              k
            ≡ lex_lt k (pack_user_key f c ns (prefix ++ b_slash ∷ cursor)))
  unfolding list_range between
  list_range_cursor c ns prefix cursor k h =
      ground (arith, lex_lt-succ k (pack_user_key f c ns (prefix ++ b_slash ∷ cursor)))
