-- ===== src/Mds/Keys.antt =====
-- User keys: a packed path unpacks to its normal form, and two paths of a namespace have one key
-- exactly when they have the same segments.
use blueboat.Prelude.{
  append_cancel, some_inj, Bytes, ◌∷◌, some, ◌≡◌, ◌↔◌, refl, sym, ap, ◌∙◌, join, b_slash,
  strip_prefix-append, split_at, ℕ, List, [], ◌++◌, ◌==◌, true, false, Bool-cases, inl, inr, subst,
  arith,
}
use blueboat.Prelude.Split.{IsSegment, split_at-none, split_at-append}
use blueboat.Fdb.{Fdb, PacksTuples}
use blueboat.Mds.{MdsClusterConfig, segments, pack_user_key, unpack_user_key}

-- How a path spells segments, that is texts with no slash that are not empty: a path is empty, or
-- begins with a slash, which adds nothing, or is one segment, or begins with a segment that a slash
-- ends.
pub data Spells : Bytes → List Bytes → Type 0 where
  nothing : Spells [] []
  slash : (path : Bytes) (segs : List Bytes) → Spells path segs → Spells (b_slash ∷ path) segs
  last : (x : Bytes) → IsSegment b_slash x → Spells x (x ∷ [])
  more :
      (x path : Bytes) (segs : List Bytes)
      → IsSegment b_slash x
      → Spells path segs
      → Spells (x ++ b_slash ∷ path) (x ∷ segs)

Spells-segments : (path : Bytes) (segs : List Bytes) → Spells path segs → segments path ≡ segs
unfolding segments split_at
Spells-segments path segs nothing = refl
Spells-segments path segs (slash p r h) = Spells-segments p r h
Spells-segments path segs (last x h) = rw (split_at-none b_slash x h.0, h.1) refl
Spells-segments path segs (more x p r h s) =
    rw (split_at-append b_slash x p h.0, h.1) (ap (λ ss. x ∷ ss) (Spells-segments p r s))

cons-Spells :
    (c : ℕ) (path : Bytes) (segs : List Bytes)
    → (c == b_slash) ≡ false
    → Spells path segs
    → (out : List Bytes) × Spells (c ∷ path) out
cons-Spells c path segs other nothing = ((c ∷ []) ∷ [], last (c ∷ []) ((other, tt), refl))
cons-Spells c path segs other (slash p r h) =
    ((c ∷ []) ∷ r, more (c ∷ []) p r ((other, tt), refl) h)
cons-Spells c path segs other (last x h) = ((c ∷ x) ∷ [], last (c ∷ x) ((other, h.0), refl))
cons-Spells c path segs other (more x p r h s) =
    ((c ∷ x) ∷ r, more (c ∷ x) p r ((other, h.0), refl) s)

spelled : (path : Bytes) → (segs : List Bytes) × Spells path segs
spelled [] = ([], nothing)
spelled (c ∷ path) =
    let (segs, h) = spelled path in
    elim (Bool-cases (c == b_slash)) [
      | inl e ↦ (segs, subst (λ x. Spells (x ∷ path) segs) (sym (eq_slash c e)) (slash path segs h))
      | inr e ↦ cons-Spells c path segs e h
    ]
  where
    eq_slash : (c : ℕ) → (c == b_slash) ≡ true → c ≡ b_slash
    eq_slash c e = ground arith

module _ (f : Fdb) (t : PacksTuples f) where
  unpacked :
      (c : MdsClusterConfig) (ns path : Bytes)
      → unpack_user_key f c ns (pack_user_key f c ns path) ≡ some (join b_slash (segments path))
  unfolding unpack_user_key pack_user_key
  unpacked c ns path =
      rw
        (t.pack-append (c.prefix ∷ segments ns) (segments path), strip_prefix-append, t.unpack-pack)

  pack_user_key_eq :
      (c : MdsClusterConfig) (ns p q : Bytes)
      → (pack_user_key f c ns p ≡ pack_user_key f c ns q) ↔ (segments p ≡ segments q)
  unfolding pack_user_key
  pack_user_key_eq c ns p q = (
    λ h.
        append_cancel (c.prefix ∷ segments ns)
          (some_inj (sym (t.unpack-pack _) ∙ ap f.unpack h ∙ t.unpack-pack _)),
    λ h. rw (pack_user_key, h) refl,
  )

  -- Every path spells segments, and the key of the path in a namespace unpacks to them, with one slash
  -- between two of them and none elsewhere. Another path has the same key in the namespace exactly
  -- where it spells the same segments.
  pub unpack_user_key-pack_user_key :
      (c : MdsClusterConfig) (ns path : Bytes)
      → (segs : List Bytes) × Spells path segs
        × (unpack_user_key f c ns (pack_user_key f c ns path) ≡ some (join b_slash segs))
        × ((q : Bytes) (qs : List Bytes)
            → Spells q qs
            → (pack_user_key f c ns path ≡ pack_user_key f c ns q) ↔ (segs ≡ qs))
  unpack_user_key-pack_user_key c ns path =
      let (segs, h) = spelled path in
      let same : segments path ≡ segs = Spells-segments path segs h in
      (
        segs,
        h,
        unpacked c ns path ∙ ap (λ ss. some (join b_slash ss)) same,
        λ q qs hq.
            let same_q : segments q ≡ qs = Spells-segments q qs hq in
            let keys = pack_user_key_eq c ns path q in
            (λ e. sym same ∙ keys.0 e ∙ same_q, λ e. keys.1 (same ∙ e ∙ sym same_q)),
      )
