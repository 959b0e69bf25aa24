-- ===== src/Pubsub/Keys.antt =====
-- The keys of a topic, as the code computes them and as they come out.
use blueboat.Prelude.{
  ℕ, ◌+◌, ◌-◌, ◌^◌, ◌<◌, Bytes, [], ◌∷◌, ◌++◌, length, take, init, ◌≡◌, refl, sym, ap, ◌∙◌, arith,
  append_assoc, length-append, drop-append_length, init-snoc, append-nil, drop-append_add,
  take-append_eq,
}
use blueboat.Fdb.{Fdb, le32, zeros}
use blueboat.Pubsub.{
  MessageQueueConfig, write_at, common_prefix, data_template, topic_of, data_key_start,
  data_key_end, strip_len,
}

-- Writing over a middle part of the same length.
write_at-middle :
    (a b c x : Bytes) (n : ℕ)
    → n ≡ length a
    → length x ≡ length b
    → write_at (a ++ (b ++ c)) n x ≡ a ++ (x ++ c)
unfolding write_at
write_at-middle a b c x n e h = rw (
  write_at,
  take-append_eq n a (b ++ c) e,
  drop-append_add (n + length x) a (b ++ c) (length b) (omega arith),
  drop-append_length,
)

pub length-le32 : (n : ℕ) → length (le32 n) ≡ 4
unfolding le32
length-le32 n = refl

module _ (common : Bytes) (fits : length common + 1 < 2 ^ 32) where
  abbrev lead : Bytes
  lead = common ++ b'd' ∷ zeros 10

  length-lead : length lead ≡ length common + 11
  length-lead = length-append common (b'd' ∷ zeros 10) ∙ omega arith

  template_write :
      (p o : ℕ)
      → p ≡ length common + 11
      → o ≡ length common + 1
      → write_at (common ++ b'd' ∷ zeros 14) p (le32 o)
        ≡ common ++ b'd' ∷ (zeros 10 ++ le32 (length common + 1))
  template_write p o hp ho =
      ap (λ t. write_at t p (le32 o)) (sym (append_assoc common (b'd' ∷ zeros 10) (zeros 4)))
      ∙ write_at-middle lead (zeros 4) [] (le32 o) p (omega (arith, length-lead)) (length-le32 o)
      ∙ rw (ho, append-nil, append_assoc) refl

  -- The template holds ten zeros for the versionstamp, and then their offset.
  pub data_template_lem :
      data_template common ≡ common ++ b'd' ∷ (zeros 10 ++ le32 (length common + 1))
  unfolding data_template
  data_template_lem =
      template_write _ _ (omega (arith, length-append common (b'd' ∷ zeros 14)))
        (omega (arith, length-append common (b'd' ∷ zeros 14)))

start_write :
    (common from rest : Bytes) (p : ℕ)
    → length from ≡ 10
    → p ≡ length common + 1
    → write_at (common ++ b'd' ∷ (zeros 10 ++ rest)) p from ≡ common ++ b'd' ∷ (from ++ rest)
start_write common from rest p ten hp =
    ap (λ t. write_at t p from) (sym (append_assoc common (b'd' ∷ []) (zeros 10 ++ rest)))
    ∙ write_at-middle (common ++ b'd' ∷ []) (zeros 10) rest from p
        (omega (arith, length-append common (b'd' ∷ []))) ten
    ∙ append_assoc common (b'd' ∷ []) (from ++ rest)

module _ (f : Fdb) (config : MessageQueueConfig) (ns topic from_seq : Bytes)
    (fits : length (common_prefix f config ns topic) + 1 < 2 ^ 32)
    (ten : length from_seq ≡ 10) where
  abbrev common : Bytes
  common = common_prefix f config ns topic

  abbrev start : Bytes
  start = common ++ b'd' ∷ (from_seq ++ le32 (length common + 1))

  length-start : length start ≡ length common + 15
  length-start = omega (
    arith,
    length-append common (b'd' ∷ (from_seq ++ le32 (length common + 1))),
    length-append from_seq (le32 (length common + 1)),
    length-le32 (length common + 1),
  )

  length-template :
      (o : Bytes) → length o ≡ 4 → length (common ++ b'd' ∷ (zeros 10 ++ o)) ≡ length common + 15
  length-template o h =
      omega (arith, length-append common (b'd' ∷ (zeros 10 ++ o)), length-append (zeros 10) o)

  pub data_key_start_lem : data_key_start (topic_of f config ns topic) from_seq ≡ start
  unfolding data_key_start topic_of
  data_key_start_lem = rw (data_template_lem common fits) (
      start_write common from_seq (le32 (length common + 1)) _ ten (
        omega
          (arith, length-template (le32 (length common + 1)) (length-le32 (length common + 1)))))

  pub strip_len_lem : strip_len (topic_of f config ns topic) from_seq ≡ length common + 1
  unfolding strip_len
  strip_len_lem = rw (strip_len, data_key_start_lem) (omega (arith, length-start))

  pub data_key_end_lem : data_key_end (topic_of f config ns topic) from_seq ≡ common ++ b'e' ∷ []
  unfolding data_key_end
  data_key_end_lem =
      rw (data_key_end, data_key_start_lem)
        (ap (λ n. init (take n start) ++ b'e' ∷ []) cut
          ∙ ap (λ t. init t ++ b'e' ∷ []) (take-common (from_seq ++ le32 (length common + 1)))
          ∙ ap (λ t. t ++ b'e' ∷ []) (init-snoc common b'd'))
    where
      cut : length start - 14 ≡ length common + 1
      cut = omega (arith, length-start)

      take-common :
          (r : Bytes) → take (length common + 1) (common ++ b'd' ∷ r) ≡ common ++ b'd' ∷ []
      take-common r =
          ap (λ t. take (length common + 1) t) (sym (append_assoc common (b'd' ∷ []) r))
          ∙ take-append_eq (length common + 1) (common ++ b'd' ∷ []) r
              (omega (arith, length-append common (b'd' ∷ [])))
