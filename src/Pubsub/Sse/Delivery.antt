-- ===== src/Pubsub/Sse/Delivery.antt =====
-- The stream of a topic to a client, with the pops of the queue: what the client is sent of the
-- messages in the store.
use blueboat.Prelude.{
  ℕ, zero, suc, ◌+◌, ◌^◌, ◌<◌, Bytes, Bool, true, false, List, [], ◌∷◌, ◌++◌, append_assoc, Option,
  none, some, some_inj, length, take, drop, keep_if, map, All, inl, inr, ◌⊎◌, ◌≡◌, sym, ap, ◌∙◌,
  arith, length-append,
}
use blueboat.Prelude.Table.{Table}
use blueboat.Prelude.Result.{Result, ok, err, ok_inj}
use blueboat.Fdb.{Fdb, ScansInOrder}
use blueboat.Pubsub.{
  MessageQueueConfig, common_prefix, topic_of, PopAttempt, pop, read_range, CounterState, advanced,
  unchanged, invalid, counter_state, nonempty_range, or_error, strip_len,
}
use blueboat.Pubsub.Keys.{strip_len_lem}
use blueboat.Pubsub.Pop.{
  messages, is_past, IsStamped, data_prefix, past_messages, range_lem, nonempty_range_lem, under,
  messages-stamped, keep_if-stamped,
}
use blueboat.Pubsub.Sse.Past.{Ascending, kept_has, past_resumes, keep_if-append, take-drop}
use blueboat.Pubsub.Sse.Stream.{
  SseRound, popped, heartbeat, disconnected, stream_from, IsPopOf, IsFirstOf, stream_from-IsFirstOf,
}

or_error_ok :
    (o : Option Bytes) (r : Result (Table Bytes)) (res : Table Bytes)
    → or_error o r ≡ ok res
    → r ≡ ok res
or_error_ok none r res h = h
or_error_ok (some e) r res h = cc

-- What a round of the loop of a pop that answers well has done: read the range, or given up at once,
-- or gone on.
pop_step :
    (counter_error : Option Bytes) (state : CounterState) (wait : Bool) (wait_error : Option Bytes)
    (read : Result (Table Bytes)) (again : Option (Result (Table Bytes))) (res : Table Bytes)
    → let out : Option (Result (Table Bytes)) = elim counter_error [
      | some e ↦ some (err e)
      | none ↦ elim state [
        | advanced ↦ some read
        | invalid e ↦ some (err e)
        | unchanged ↦ elim wait [
          | false ↦ some (ok [])
          | true ↦ elim wait_error [ some e ↦ some (err e) | none ↦ again ]
        ]
      ]
    ] in
      out ≡ some (ok res) → (read ≡ ok res) ⊎ ((res ≡ []) ⊎ (again ≡ some (ok res)))
pop_step (some e) state wait we read again res h = cc
pop_step none advanced wait we read again res h = inl (some_inj h)
pop_step none (invalid e) wait we read again res h = cc
pop_step none unchanged false we read again res h = inr (inl (sym (ok_inj (some_inj h))))
pop_step none unchanged true (some e) read again res h = cc
pop_step none unchanged true none read again res h = inr (inr h)

module _ (f : Fdb) (scan : ScansInOrder f) (config : MessageQueueConfig) (ns topic : Bytes) where
  -- The messages of the topic in a store.
  abbrev pub topic_messages : f.Store → Table Bytes
  topic_messages s = messages (data_prefix f scan config ns topic []) (f.pairs s)

  -- What follows the prefix of the topic's messages in a key of the store is a versionstamp.
  abbrev pub IsStampedStore : f.Store → Type 0
  IsStampedStore s = All (IsStamped (data_prefix f scan config ns topic [])) (f.pairs s)

  -- The store that an attempt reads is an earlier one: it has the first of the topic's messages.
  abbrev pub IsEarlier : f.Store → PopAttempt f → Type 0
  IsEarlier last a =
      IsStampedStore a.store
      × ((later : Table Bytes) × (topic_messages last ≡ topic_messages a.store ++ later))

  -- The pop of a round is `pop` on the topic, whose attempts read earlier stores.
  abbrev pub IsPop : f.Store → ℕ → Bool → SseRound → Type 0
  IsPop last n wait (popped g) =
      (from : Bytes) (res : Table Bytes)
      → g from ≡ ok res
      → (attempts : List (PopAttempt f)) × All (IsEarlier last) attempts
        × (pop f (topic_of f config ns topic) from n wait attempts ≡ some (ok res))
  IsPop last n wait (heartbeat sent) = Unit {0}
  IsPop last n wait disconnected = Unit {0}

  abbrev Fits : Type 0
  Fits = length (common_prefix f config ns topic) + 1 < 2 ^ 32

  abbrev IsFront : f.Store → Bytes → Table Bytes → Type 0
  IsFront last from res =
      (back : Table Bytes) × (past_messages f scan config ns topic from last ≡ res ++ back)

  nonempty_range-ok :
      (from : Bytes) (strip k : ℕ) (ps res : Table Bytes)
      → 0 < k
      → strip ≡ length (data_prefix f scan config ns topic from)
      → All (λ q. length q.0 ≡ 10) ps
      → nonempty_range strip (map (under (data_prefix f scan config ns topic from)) (take k ps))
        ≡ ok res
      → res ≡ take k ps
  nonempty_range-ok from strip zero ps res pos e ten h = absurd (omega arith)
  nonempty_range-ok from strip (suc k) [] res pos e ten h = cc
  nonempty_range-ok from strip (suc k) (m ∷ ms) res pos e ten h =
      ok_inj (sym h ∙ nonempty_range_lem f scan config ns topic from strip (suc k) m ms pos e ten)

  read_range-IsFront :
      (last : f.Store) (a : PopAttempt f) (from : Bytes) (n : ℕ) (res : Table Bytes)
      → Fits
      → length from ≡ 10
      → 0 < n
      → IsEarlier last a
      → read_range f a (topic_of f config ns topic) from n ≡ ok res
      → IsFront last from res
  unfolding read_range
  read_range-IsFront last a from n res fits ten pos (keyed, (later, whole)) h =
      let (k, some_of, few, same) =
        range_lem f scan config ns topic from a.store n fits ten pos keyed in
      let r = or_error_ok a.range_error _ res h in
      let first : res ≡ take k (past_messages f scan config ns topic from a.store) =
        nonempty_range-ok from (strip_len (topic_of f config ns topic) from) k
          (past_messages f scan config ns topic from a.store) res some_of (strip_eq fits ten)
          (keep_if-stamped (is_past from) (topic_messages a.store)
            (messages-stamped (data_prefix f scan config ns topic []) (f.pairs a.store) keyed))
          (sym (ap (λ t. nonempty_range (strip_len (topic_of f config ns topic) from) t) same)
            ∙ r) in
      (
        drop k (past_messages f scan config ns topic from a.store) ++ keep_if (is_past from) later,
        ap (λ t. keep_if (is_past from) t) whole
            ∙ keep_if-append (is_past from) (topic_messages a.store) later
            ∙ ap (λ t. t ++ keep_if (is_past from) later)
                (take-drop k (past_messages f scan config ns topic from a.store)
                  ∙ ap (λ t. t ++ drop k (past_messages f scan config ns topic from a.store))
                      (sym first))
            ∙ append_assoc res (drop k (past_messages f scan config ns topic from a.store))
                (keep_if (is_past from) later),
      )
    where
      strip_eq :
          Fits
          → length from ≡ 10
          → strip_len (topic_of f config ns topic) from
            ≡ length (data_prefix f scan config ns topic from)
      strip_eq fits ten =
          strip_len_lem f config ns topic from fits ten
          ∙ sym (length-append (common_prefix f config ns topic) (b'd' ∷ []))

  pop-IsFront :
      (last : f.Store) (from : Bytes) (n : ℕ) (wait : Bool) (attempts : List (PopAttempt f))
      (res : Table Bytes)
      → Fits
      → length from ≡ 10
      → 0 < n
      → All (IsEarlier last) attempts
      → pop f (topic_of f config ns topic) from n wait attempts ≡ some (ok res)
      → IsFront last from res
  unfolding pop
  pop-IsFront last from n wait [] res fits ten pos early h = cc
  pop-IsFront last from n wait (a ∷ rest) res fits ten pos early h =
      elim (pop_step a.counter_error
        (counter_state (f.get a.store [] (topic_of f config ns topic).counter_key) from) wait
        a.wait_error (read_range f a (topic_of f config ns topic) from n)
        (pop f (topic_of f config ns topic) from n wait rest) res h) [
          | inl read ↦ read_range-IsFront last a from n res fits ten pos early.0 read
          | inr more ↦ elim more [
            | inl nothing ↦ (
              past_messages f scan config ns topic from last,
              ap (λ t. t ++ past_messages f scan config ns topic from last) (sym nothing),
            )
            | inr again ↦ pop-IsFront last from n wait rest res fits ten pos early.1 again
          ]
        ]

  module _ (hex : Bytes → Bytes) (accepts : Bytes → Bool) where
    -- Take a topic whose keys have less than 2^32 bytes before the versionstamp, a store in which the
    -- keys of its messages end in ten bytes that grow from one message to the next, and a stream from a
    -- sequence number of ten bytes on, whose pops ask for one message at least and are pops of the queue
    -- that read earlier stores, each with the first of these messages. Whatever the timing of the
    -- rounds, and wherever a pop fails or the connection ends, the frames that the client is sent after
    -- the first are the first of the messages past its sequence number, in their order: none is left
    -- out and none comes twice.
    pub stream_from_lem :
        (last : f.Store) (n : ℕ) (wait : Bool) (rs : List SseRound) (seq : Bytes)
        → Fits
        → 0 < n
        → length seq ≡ 10
        → IsStampedStore last
        → Ascending (topic_messages last)
        → All (IsPop last n wait) rs
        → IsFirstOf hex accepts
            (past_messages f scan config ns topic seq last)
            (stream_from hex accepts wait seq rs)
    stream_from_lem last n wait rs seq fits pos ten keyed asc own =
        stream_from-IsFirstOf hex accepts (λ s. length s ≡ 10)
          (λ from. past_messages f scan config ns topic from last) wait rs seq ten
          (λ from front back m h. (
            kept_has (λ q. length q.0 ≡ 10) (is_past from) (topic_messages last) front back m
                (messages-stamped (data_prefix f scan config ns topic []) (f.pairs last) keyed) h,
            past_resumes (topic_messages last) from front back m asc h,
          ))
          (pops rs own)
      where
        pops :
            (rs : List SseRound)
            → All (IsPop last n wait) rs
            → All
                (IsPopOf
                  (λ s. length s ≡ 10)
                  (λ from. past_messages f scan config ns topic from last))
                rs
        pops [] own = tt
        pops (popped g ∷ rs) own = (
          λ from res ten h.
              let (attempts, early, answer) = own.0 from res h in
              pop-IsFront last from n wait attempts res fits ten pos early answer,
          pops rs own.1,
        )
        pops (heartbeat sent ∷ rs) own = (tt, pops rs own.1)
        pops (disconnected ∷ rs) own = (tt, pops rs own.1)
