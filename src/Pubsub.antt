-- ===== src/Pubsub.antt =====
-- src/pubsub/mq.rs: a message queue of topics in FoundationDB. A topic keeps its messages under
-- keys that end in the versionstamp of their commit, and the versionstamp of the last one in a
-- counter key.
pub mod Keys
pub mod Push
pub mod Pop
pub mod Sse
pub mod Publish
pub mod Hot
use blueboat.Prelude.{
  ℕ, ◌+◌, ◌-◌, ◌%◌, ◌^◌, Bytes, codes, Bool, true, false, List, [], ◌∷◌, ◌++◌, Option, none, some,
  eqb, length, take, drop, init, if◌then◌else◌, ◌==◌, ◌&&◌, lex_lt,
}
use blueboat.Prelude.Table.{Table}
use blueboat.Prelude.Result.{Result, ok, err, ◌>>=◌}
use blueboat.Fdb.{Fdb, Mutation, versionstamped_key, versionstamped_value, le32, zeros}

pub record MessageQueueConfig : Type 0 where
  pub fdb_cluster_file : Bytes
  pub prefix : Bytes

-- Without its database, which is a store of `Fdb`. The set of hot topics is a list.
pub record MessageQueue : Type 0 where
  pub config : MessageQueueConfig
  pub hot_topics : List (Bytes × Bytes)

pub record MessageQueueTopic : Type 0 where
  pub ns : Bytes
  pub topic : Bytes
  pub data_key_template : Bytes
  pub counter_key : Bytes

-- src/metadata.rs
pub record PubsubMetadata : Type 0 where
  pub namespace : Bytes
  pub namespace_bytes : Bytes

-- `buf[at..at + bytes.len()].copy_from_slice(bytes)`.
unfoldable pub write_at : Bytes → ℕ → Bytes → Bytes
write_at buf at bytes = take at buf ++ (bytes ++ drop (at + length bytes) buf)

-- `HashSet::insert`.
unfoldable pub insert_hot : Bytes × Bytes → List (Bytes × Bytes) → List (Bytes × Bytes)
insert_hot (ns, topic) [] = (ns, topic) ∷ []
insert_hot (ns, topic) ((ns', topic') ∷ hot) =
    let rest = insert_hot (ns, topic) hot in
    if eqb ns' ns && eqb topic' topic then (ns', topic') ∷ hot else (ns', topic') ∷ rest

-- How the database answers one attempt of a push.
pub data PushOutcome : Type 0 where
  -- The commit's versionstamp, and the error of reading it, if any.
  committed : (stamp : Bytes) → (stamp_error : Option Bytes) → PushOutcome
  retry : PushOutcome
  failed : Bytes → PushOutcome

-- The place of the versionstamp, written into the last four bytes.
unfoldable pub data_template : Bytes → Bytes
unfolding write_at
data_template common =
    let template = common ++ b'd' ∷ zeros 14 in
    let pos_offset = length template - 4 in
    let versionstamp_offset = length template - 14 in
    write_at template pos_offset (le32 (versionstamp_offset % 2 ^ 32))

-- The transaction of a push, newest mutation first.
unfoldable pub push_log : MessageQueueTopic → Bytes → List Mutation
push_log t message =
    versionstamped_value t.counter_key (zeros 14)
    ∷ versionstamped_key t.data_key_template message
    ∷ []

-- `versionstamp[..].try_into()` into ten bytes.
unfoldable pub stamp_reply : Bytes → Result Bytes
stamp_reply v = if length v == 10 then ok v else err (codes "cannot resolve committed versionstamp")

-- The arms of `match counter` in `seq`.
abbrev seq_of : Option Bytes → Result Bytes
seq_of none = ok (zeros 10)
seq_of (some x) = if length x == 10 then ok x else err (codes "invalid counter")

unfoldable pub data_key_start : MessageQueueTopic → Bytes → Bytes
unfolding write_at
data_key_start t from_seq = write_at t.data_key_template (length t.data_key_template - 14) from_seq

unfoldable pub strip_len : MessageQueueTopic → Bytes → ℕ
unfolding data_key_start
strip_len t from_seq = length (data_key_start t from_seq) - 14

-- The last byte is `d` before it is made `e`.
unfoldable pub data_key_end : MessageQueueTopic → Bytes → Bytes
unfolding data_key_start strip_len
data_key_end t from_seq =
    init (take (strip_len t from_seq) (data_key_start t from_seq)) ++ b'e' ∷ []

-- The loop over the pairs of the range.
unfoldable pub output_of : ℕ → Table Bytes → Result (Table Bytes)
output_of strip [] = ok []
output_of strip ((key, value) ∷ kvs) =
    let rest = output_of strip kvs in
    if length key == strip + 10
    then (do out ← rest; ok ((drop strip key, value) ∷ out))
    else err (codes "got invalid key length in result")

abbrev pub nonempty_range : ℕ → Table Bytes → Result (Table Bytes)
nonempty_range strip [] = err (codes "counter advanced but no more data")
nonempty_range strip (kv ∷ kvs) = output_of strip (kv ∷ kvs)

abbrev pub or_error : Option Bytes → Result (Table Bytes) → Result (Table Bytes)
or_error (some e) r = err e
or_error none r = r

-- What the counter says: the messages can be read, there are none yet, or something is wrong.
pub data CounterState : Type 0 where
  advanced : CounterState
  unchanged : CounterState
  invalid : Bytes → CounterState

-- The arms of `match counter` in `pop`.
unfoldable pub counter_state : Option Bytes → Bytes → CounterState
counter_state none from_seq = unchanged
counter_state (some x) from_seq =
    if length x == 10
    then (if lex_lt from_seq x
        then advanced
        else if lex_lt x from_seq
        then invalid (codes "current_seq is less than from_seq")
        else unchanged)
    else invalid (codes "invalid counter")

module _ (f : Fdb) where
  unfoldable pub common_prefix : MessageQueueConfig → Bytes → Bytes → Bytes
  common_prefix config ns topic = f.pack (config.prefix ∷ []) ++ b'q' ∷ (ns ++ f.pack (topic ∷ []))

  -- `MessageQueueNamespace::topic`.
  unfoldable pub topic_of : MessageQueueConfig → Bytes → Bytes → MessageQueueTopic
  unfolding common_prefix data_template
  topic_of config ns topic =
      let common = common_prefix config ns topic in
      record {
        ns = ns;
        topic = topic;
        data_key_template = data_template common;
        counter_key = common ++ b'c' ∷ [];
      }

  pub record PushAttempt : Type 0 where
    pub store : f.Store
    pub outcome : PushOutcome

  pub record Pushed : Type 0 where
    pub reply : Result Bytes
    pub queue : MessageQueue
    pub written : Option f.Store

  -- After the commit: a versionstamp that cannot be read leaves the topic out of the hot ones.
  abbrev after_commit : MessageQueue → MessageQueueTopic → Bytes → f.Store → Option Bytes → Pushed
  after_commit q t v s (some e) = record { reply = err e; queue = q; written = some s }
  after_commit q t v s none = record {
    reply = stamp_reply v;
    queue = record q { hot_topics = insert_hot (t.ns, t.topic) q.hot_topics };
    written = some s;
  }

  -- `MessageQueueTopic::push`; `none` while the database still retries.
  unfoldable pub push : MessageQueue → MessageQueueTopic → Bytes → List PushAttempt → Option Pushed
  unfolding push_log
  push q t message [] = none
  push q t message (a ∷ rest) =
      let again = push q t message rest in
      elim a.outcome [
        | committed v e ↦ some (after_commit q t v (f.commit a.store (push_log t message) v) e)
        | retry ↦ again
        | failed e ↦ some (record { reply = err e; queue = q; written = none })
      ]

  -- `MessageQueueTopic::seq`.
  unfoldable pub seq : f.Store → MessageQueueTopic → Result Bytes
  seq s t = seq_of (f.get s [] t.counter_key)

  -- One round of the loop of `pop`: its snapshot, and the errors of reading the counter, of the
  -- commit and the watch, and of reading the range.
  pub record PopAttempt : Type 0 where
    pub store : f.Store
    pub counter_error : Option Bytes
    pub wait_error : Option Bytes
    pub range_error : Option Bytes

  -- `pop` after its loop.
  unfoldable pub read_range : PopAttempt → MessageQueueTopic → Bytes → ℕ → Result (Table Bytes)
  read_range a t from_seq n = or_error a.range_error (
      nonempty_range (strip_len t from_seq)
        (f.get_range a.store (data_key_start t from_seq) (data_key_end t from_seq) false n))

  -- `MessageQueueTopic::pop`; `none` while it still waits.
  unfoldable pub pop :
      MessageQueueTopic → Bytes → ℕ → Bool → List PopAttempt → Option (Result (Table Bytes))
  pop t from_seq n wait [] = none
  pop t from_seq n wait (a ∷ rest) =
      let again = pop t from_seq n wait rest in
      elim a.counter_error [
        | some e ↦ some (err e)
        | none ↦ elim (counter_state (f.get a.store [] t.counter_key) from_seq) [
          | advanced ↦ some (read_range a t from_seq n)
          | invalid e ↦ some (err e)
          | unchanged ↦ elim wait [
            | false ↦ some (ok [])
            | true ↦ elim a.wait_error [ some e ↦ some (err e) | none ↦ again ]
          ]
        ]
      ]
