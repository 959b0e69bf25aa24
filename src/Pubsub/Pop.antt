-- ===== src/Pubsub/Pop.antt =====
-- `pop` delivers the messages past a sequence number, in order.
use blueboat.Prelude.{
  subst, ==_true, drop-append_eq, ℕ, zero, suc, ◌+◌, ◌^◌, ◌<◌, ◌≤◌, Bytes, Bool, true, false, ◌&&◌,
  List, [], ◌∷◌, ◌++◌, none, some, map, length, take, keep_if, All, lex_lt, strip_prefix,
  strip_prefix-append, eq_of_strip_prefix, ◌≡◌, refl, sym, ap, ◌∙◌, arith, append_assoc,
  if◌then◌else◌, Bool-cases, Option-cases, inl, inr, length-append,
}
use blueboat.Prelude.Table.{Table}
use blueboat.Prelude.Result.{ok}
use blueboat.Prelude.Order.{between, lex_lt-append, lex_lt-dirty, lex_lt-head, between-prefix}
use blueboat.Fdb.{Fdb, ScansInOrder, in_range, le32-cons}
use blueboat.Pubsub.{
  MessageQueueConfig, common_prefix, topic_of, PopAttempt, pop, read_range, counter_state,
  output_of, nonempty_range, data_key_start, data_key_end,
}
use blueboat.Pubsub.Keys.{data_key_start_lem, data_key_end_lem, strip_len_lem}

-- The messages whose keys begin with `p`: what follows it, and the value.
unfoldable pub messages : Bytes → Table Bytes → Table Bytes
messages p [] = []
messages p ((k, v) ∷ kvs) = elim (strip_prefix p k) [
  | none ↦ messages p kvs
  | some s ↦ (s, v) ∷ messages p kvs
]

-- A message past `from`.
abbrev pub is_past : Bytes → Bytes × Bytes → Bool
is_past from m = lex_lt from m.0

-- What follows the prefix in a key is a versionstamp.
abbrev pub IsStamped : Bytes → Bytes × Bytes → Type 0
IsStamped p kv = (s : Bytes) → strip_prefix p kv.0 ≡ some s → length s ≡ 10

abbrev pub under : Bytes → Bytes × Bytes → Bytes × Bytes
under p m = (p ++ m.0, m.1)

module _ (common from : Bytes) (x : ℕ) (xs : Bytes) (ten : length from ≡ 10) where
  abbrev pub low : Bytes
  low = common ++ b'd' ∷ (from ++ x ∷ xs)

  abbrev pub high : Bytes
  high = common ++ b'e' ∷ []

  abbrev prefix : Bytes
  prefix = common ++ b'd' ∷ []

  -- A stamped key lies in the range exactly when its stamp is past `from`.
  between-stamped : (s : Bytes) → length s ≡ 10 → between low high (prefix ++ s) ≡ lex_lt from s
  unfolding between
  between-stamped s h =
      rw
        (
          append_assoc common (b'd' ∷ []) s,
          lex_lt-append common (b'd' ∷ s) (b'd' ∷ (from ++ x ∷ xs)),
          lex_lt-append common (b'd' ∷ s) (b'e' ∷ []),
          lex_lt-append (b'd' ∷ []) s (from ++ x ∷ xs),
          lex_lt-head b'd' b'e' s [] (omega arith),
          lex_lt-dirty from s x xs (ten ∙ sym h),
        )
        (and_true (lex_lt from s))
    where
      and_true : (b : Bool) → (b && true) ≡ b
      and_true true = refl
      and_true false = refl

  -- No other key does.
  between-other : (k : Bytes) → strip_prefix prefix k ≡ none → between low high k ≡ false
  unfolding between
  between-other k h = elim (Bool-cases (between low high k)) [
    | inl in_it ↦
        let (r, e) = between-prefix common b'd' (from ++ x ∷ xs) k (ground arith) (ground arith) in
        let e' : k ≡ prefix ++ r = e ∙ sym (append_assoc common (b'd' ∷ []) r) in
        let n : some r ≡ none = sym (strip_prefix-append prefix r) ∙ (rw e' at h) in absurd (cc n)
    | inr out ↦ out
  ]

  step :
      (k v : Bytes) (kvs : Table Bytes) (s : Bytes) (b : Bool)
      → k ≡ prefix ++ s
      → keep_if (in_range low high) kvs
        ≡ map (under prefix) (keep_if (is_past from) (messages prefix kvs))
      → (if b then (k, v) ∷ keep_if (in_range low high) kvs else keep_if (in_range low high) kvs)
        ≡ map (under prefix) (
            if b
            then (s, v) ∷ keep_if (is_past from) (messages prefix kvs)
            else keep_if (is_past from) (messages prefix kvs))
  step k v kvs s true key ih = rw (key, ih) refl
  step k v kvs s false key ih = ih

  -- So the range holds the messages past `from`.
  in_range-messages :
      (kvs : Table Bytes)
      → All (IsStamped prefix) kvs
      → keep_if (in_range low high) kvs
        ≡ map (under prefix) (keep_if (is_past from) (messages prefix kvs))
  unfolding messages
  in_range-messages [] h = refl
  in_range-messages ((k, v) ∷ kvs) h = elim (Option-cases (strip_prefix prefix k)) [
    | inl n ↦ rw (between-other k n, messages, n) (in_range-messages kvs h.1)
    | inr (s, e) ↦
        let key : k ≡ prefix ++ s = eq_of_strip_prefix prefix k e in
        let q : between low high k ≡ lex_lt from s = rw key (between-stamped s (h.0 s e)) in
        rw (q, messages, e) (step k v kvs s (lex_lt from s) key (in_range-messages kvs h.1))
  ]

-- Dropping the prefix from the keys again.
output_of-under :
    (p : Bytes) (n : ℕ) (ms : Table Bytes)
    → n ≡ length p
    → All (λ m. length m.0 ≡ 10) ms
    → output_of n (map (under p) ms) ≡ ok ms
unfolding output_of
output_of-under p n [] e h = refl
output_of-under p n ((s, v) ∷ ms) e h =
    rw
      (
        ==_true (length (p ++ s)) (n + 10) (omega (arith, length-append p s, h.0)),
        output_of-under p n ms e h.1,
        drop-append_eq n p s e,
      )
      refl

take-map-under :
    (p : Bytes) (n : ℕ) (ms : Table Bytes) → take n (map (under p) ms) ≡ map (under p) (take n ms)
take-map-under p zero ms = refl
take-map-under p (suc n) [] = refl
take-map-under p (suc n) (m ∷ ms) = ap (λ t. under p m ∷ t) (take-map-under p n ms)

pub messages-stamped :
    (p : Bytes) (kvs : Table Bytes)
    → All (IsStamped p) kvs
    → All (λ m. length m.0 ≡ 10) (messages p kvs)
unfolding messages
messages-stamped p [] h = tt
messages-stamped p ((k, v) ∷ kvs) h = elim (Option-cases (strip_prefix p k)) [
  | inl n ↦ rw (messages, n) (messages-stamped p kvs h.1)
  | inr (s, e) ↦ rw (messages, e) (h.0 s e, messages-stamped p kvs h.1)
]

pub keep_if-stamped :
    (q : Bytes × Bytes → Bool) (ms : Table Bytes)
    → All (λ m. length m.0 ≡ 10) ms
    → All (λ m. length m.0 ≡ 10) (keep_if q ms)
keep_if-stamped q [] h = tt
keep_if-stamped q (m ∷ ms) h = elim (Bool-cases (q m)) [
  | inl e ↦ rw e (h.0, keep_if-stamped q ms h.1)
  | inr e ↦ rw e (keep_if-stamped q ms h.1)
]

take-All :
    (n : ℕ) (ms : Table Bytes)
    → All (λ m. length m.0 ≡ 10) ms
    → All (λ m. length m.0 ≡ 10) (take n ms)
take-All zero ms h = tt
take-All (suc n) [] h = tt
take-All (suc n) (m ∷ ms) h = (h.0, take-All n ms h.1)

module _ (f : Fdb) (scan : ScansInOrder f) (config : MessageQueueConfig)
    (ns topic from : Bytes) where
  abbrev pub data_prefix : Bytes
  data_prefix = common_prefix f config ns topic ++ b'd' ∷ []

  -- The messages of the topic in a store, in the order of their keys, that are past `from`.
  abbrev pub past_messages : f.Store → Table Bytes
  past_messages s = keep_if (is_past from) (messages data_prefix (f.pairs s))

  abbrev common : Bytes
  common = common_prefix f config ns topic

  pub range_lem :
      (s : f.Store) (n : ℕ)
      → length common + 1 < 2 ^ 32
      → length from ≡ 10
      → 0 < n
      → All (IsStamped data_prefix) (f.pairs s)
      → (k : ℕ) × (0 < k)
        × (k ≤ n)
        × (f.get_range s
              (data_key_start (topic_of f config ns topic) from)
              (data_key_end (topic_of f config ns topic) from)
              false
              n
            ≡ map (under data_prefix) (take k (past_messages s)))
  range_lem s n fits ten pos keyed =
      let (x, xs, e) = le32-cons (length common + 1) in
      let (k, some_of, few, same) =
        scan.get_range_lem s (low common from x xs ten) (high common from x xs ten) false n pos in
      (
        k,
        some_of,
        few,
        rw
            (
              data_key_start_lem f config ns topic from fits ten,
              data_key_end_lem f config ns topic from fits ten,
              e,
            )
            (same
              ∙ ap (λ t. take k t) (in_range-messages common from x xs ten (f.pairs s) keyed)
              ∙ take-map-under data_prefix k (past_messages s)),
      )

  pub nonempty_range_lem :
      (strip k : ℕ) (m : Bytes × Bytes) (ms : Table Bytes)
      → 0 < k
      → strip ≡ length data_prefix
      → All (λ q. length q.0 ≡ 10) (m ∷ ms)
      → nonempty_range strip (map (under data_prefix) (take k (m ∷ ms))) ≡ ok (take k (m ∷ ms))
  nonempty_range_lem strip zero m ms pos e h = absurd (omega arith)
  nonempty_range_lem strip (suc k) m ms pos e h =
      output_of-under data_prefix strip (take (suc k) (m ∷ ms)) e (take-All (suc k) (m ∷ ms) h)

  read_range_lem :
      (a : PopAttempt f) (n : ℕ) (m : Bytes × Bytes) (ms : Table Bytes)
      → length common + 1 < 2 ^ 32
      → length from ≡ 10
      → 0 < n
      → a.range_error ≡ none
      → All (IsStamped data_prefix) (f.pairs a.store)
      → past_messages a.store ≡ m ∷ ms
      → (k : ℕ) × (0 < k)
        × (k ≤ n)
        × (read_range f a (topic_of f config ns topic) from n ≡ ok (take k (m ∷ ms)))
  unfolding read_range
  read_range_lem a n m ms fits ten pos fine keyed past =
      let (k, some_of, few, same) = range_lem a.store n fits ten pos keyed in
      (
        k,
        some_of,
        few,
        rw (fine, same, past, strip_len_lem f config ns topic from fits ten)
            (nonempty_range_lem (length common + 1) k m ms some_of
              (sym (length-append common (b'd' ∷ [])))
              (subst (λ t. All (λ q. length q.0 ≡ 10) t) past
                (keep_if-stamped (is_past from) (messages data_prefix (f.pairs a.store))
                  (messages-stamped data_prefix (f.pairs a.store) keyed)))),
      )

  -- Take a topic whose keys have less than 2^32 bytes before the versionstamp, a sequence number of ten
  -- bytes, and an attempt whose reads succeed, of a store in which the keys of the topic's messages end
  -- in ten bytes. If the counter is past the number and there are such messages, `pop` for `n` messages,
  -- more than zero, answers at once with the first messages past the number, one at least and `n` at
  -- most, and no other, in the order of their keys.
  pub pop_lem :
      (a : PopAttempt f) (rest : List (PopAttempt f)) (n : ℕ) (wait : Bool) (x : Bytes)
      (m : Bytes × Bytes) (ms : Table Bytes)
      → length (common_prefix f config ns topic) + 1 < 2 ^ 32
      → length from ≡ 10
      → 0 < n
      → a.counter_error ≡ none
      → a.range_error ≡ none
      → f.get a.store [] (topic_of f config ns topic).counter_key ≡ some x
      → length x ≡ 10
      → lex_lt from x ≡ true
      → All (IsStamped data_prefix) (f.pairs a.store)
      → past_messages a.store ≡ m ∷ ms
      → (k : ℕ) × (0 < k)
        × (k ≤ n)
        × (pop f (topic_of f config ns topic) from n wait (a ∷ rest) ≡ some (ok (take k (m ∷ ms))))
  unfolding pop counter_state
  pop_lem a rest n wait x m ms fits ten pos ce re counter len lt keyed past =
      let (k, some_of, few, same) = read_range_lem a n m ms fits ten pos re keyed past in
      (k, some_of, few, answer (take k (m ∷ ms)) same)
    where
      answer :
          (out : Table Bytes)
          → read_range f a (topic_of f config ns topic) from n ≡ ok out
          → pop f (topic_of f config ns topic) from n wait (a ∷ rest) ≡ some (ok out)
      answer out same = rw (ce, counter, ==_true (length x) 10 len, lt, same) refl
