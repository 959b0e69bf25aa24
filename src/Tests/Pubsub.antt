-- ===== src/Tests/Pubsub.antt =====
-- The message queue at a concrete topic.
use blueboat.Prelude.{
  ap, eqb_refl, some_inj, sym, ℕ, List, ◌≤◌, ◌+◌, ◌<◌, ◌^◌, Bytes, codes, true, [], ◌∷◌, ◌++◌, none,
  some, All, ◌≡◌, ◌≢◌, refl, length, arith, lex_lt, split_at, strip_prefix, take,
}
use blueboat.Prelude.Table.{Table, lookup}
use blueboat.Prelude.Result.{ok}
use blueboat.Prelude.Utf8.{is_utf8}
use blueboat.Fdb.{zeros}
use blueboat.Pubsub.{
  MessageQueueConfig, MessageQueue, MessageQueueTopic, common_prefix, topic_of, PushAttempt,
  committed, push, insert_hot, seq, PopAttempt, pop,
}
use blueboat.Pubsub.Push.{push_lem, message_key}
use blueboat.Pubsub.Pop.{pop_lem, messages, IsStamped, past_messages}
use blueboat.Pubsub.Publish.{PublishRequest}
use blueboat.Pubsub.Sse.{newline, has_newline, SseMessage, encode}
use blueboat.Pubsub.Sse.Frame.{encode_lines}
use blueboat.Pubsub.Hot.{
  flushed, again, Flush, fill, chunks, batch_log, flush_batch, flush_batches, flush_hot_topics,
  IsSplit, mark_all, hot_key, flush_hot_topics-IsSplit,
}
use blueboat.Tests.Tuples.{encode_tuple, escape}
use blueboat.Tests.Database.{db, read, db-CommitWrites, db-ScansInOrder, db-Stamps, db-PacksTuples}

abbrev pub config : MessageQueueConfig
config = record { fdb_cluster_file = codes "/etc/fdb.cluster"; prefix = codes "p" }

abbrev pub ns : Bytes
ns = zeros 16

abbrev queue : MessageQueue
queue = record { config = config; hot_topics = [] }

abbrev stamp_one : Bytes
stamp_one = 0 ∷ 0 ∷ 0 ∷ 0 ∷ 0 ∷ 0 ∷ 0 ∷ 1 ∷ 0 ∷ 0 ∷ []

abbrev first_push : PushAttempt db
first_push = record { store = []; outcome = committed stamp_one none }

abbrev pub topic_t : MessageQueueTopic
topic_t = topic_of db config ns (codes "t")

pub fits_t : length (common_prefix db config ns (codes "t")) + 1 < 2 ^ 32
unfolding common_prefix encode_tuple
fits_t = omega arith

push_lem_example :
    (s : db.Store) × (push db queue topic_t (codes "hi") (first_push ∷ [])
      ≡ some (record {
        reply = ok stamp_one;
        queue = record queue { hot_topics = insert_hot (ns, codes "t") [] };
        written = some s;
      }))
    × (db.get s [] (message_key db db-CommitWrites db-Stamps config ns (codes "t") fits_t stamp_one)
        ≡ some (codes "hi"))
    × (seq db s topic_t ≡ ok stamp_one)
    × ((j : Bytes)
        → topic_t.counter_key ≢ j
        → message_key db db-CommitWrites db-Stamps config ns (codes "t") fits_t stamp_one ≢ j
        → db.get s [] j ≡ db.get [] [] j)
push_lem_example =
    push_lem db db-CommitWrites db-Stamps config ns (codes "t") fits_t queue (codes "hi") stamp_one
      first_push [] refl refl

abbrev pub from_start : Bytes
from_start = zeros 10

abbrev prefix_t : Bytes
prefix_t = common_prefix db config ns (codes "t") ++ b'd' ∷ []

-- A counter, and the message of its stamp.
abbrev pub queue_store : Table Bytes
queue_store = (topic_t.counter_key, stamp_one) ∷ (prefix_t ++ stamp_one, codes "hi") ∷ []

abbrev pub pop_attempt : PopAttempt db
pop_attempt = record {
  store = queue_store;
  counter_error = none;
  wait_error = none;
  range_error = none;
}

counter_read : db.get queue_store [] topic_t.counter_key ≡ some stamp_one
unfolding read lookup
counter_read = rw (eqb_refl topic_t.counter_key) refl

counter_past : lex_lt from_start stamp_one ≡ true
unfolding lex_lt
counter_past = refl

message_past :
    past_messages db db-ScansInOrder config ns (codes "t") from_start queue_store
    ≡ (stamp_one, codes "hi") ∷ []
unfolding messages topic_of common_prefix encode_tuple escape strip_prefix lex_lt
message_past = refl

pub only_message : messages prefix_t queue_store ≡ (stamp_one, codes "hi") ∷ []
unfolding messages topic_of common_prefix encode_tuple escape strip_prefix
only_message = refl

pub queue-IsStamped : All (IsStamped prefix_t) queue_store
unfolding topic_of common_prefix encode_tuple escape strip_prefix
queue-IsStamped = (λ s h. absurd (none_ne_some s h), (λ s h. length_eq s h, tt))
  where
    none_ne_some : (s : Bytes) → none ≡ some s → ⊥
    none_ne_some s h = cc

    length_eq : (s : Bytes) → some stamp_one ≡ some s → length s ≡ 10
    length_eq s h = ap length (sym (some_inj h))

pop_lem_example :
    (k : ℕ) × (0 < k)
    × (k ≤ 5)
    × (pop db topic_t from_start 5 true (pop_attempt ∷ [])
        ≡ some (ok (take k ((stamp_one, codes "hi") ∷ []))))
pop_lem_example =
    pop_lem db db-ScansInOrder config ns (codes "t") from_start pop_attempt [] 5 true stamp_one
      (stamp_one, codes "hi") [] fits_t refl (omega arith) refl refl counter_read refl counter_past
      queue-IsStamped message_past

abbrev request_t : PublishRequest
request_t = record { namespace = codes "n"; topic = codes "t"; message = codes "hi" }

abbrev event_t : SseMessage
event_t = record { event = codes "message"; body = codes "hi"; id = codes "0" }

encode_lines_example :
    (frame : Bytes) × (encode event_t ≡ ok frame)
    × (split_at newline frame
        ≡ codes "event: message" ∷ codes "data: hi" ∷ codes "id: 0" ∷ [] ∷ [] ∷ [])
unfolding has_newline is_utf8
encode_lines_example = (encode_lines event_t refl refl).0 refl refl

abbrev hot_queue : MessageQueue
hot_queue = record { config = config; hot_topics = (ns, codes "t") ∷ [] }

-- A push to another topic while the commit is awaited.
abbrev other_push : List (Bytes × Bytes)
other_push = (ns, codes "u") ∷ []

abbrev flush_t : Flush
flush_t = record {
  reply = ok tt;
  queue = record queue { hot_topics = other_push };
  written = batch_log db config ((ns, codes "t") ∷ []) ∷ [];
}

flush_run : flush_hot_topics db other_push hot_queue ((again ∷ flushed ∷ []) ∷ []) ≡ some flush_t
unfolding flush_hot_topics flush_batches flush_batch chunks fill mark_all insert_hot
flush_run = refl

flush_hot_topics-IsSplit_example :
    IsSplit db other_push hot_queue flush_t
    × ((a b : Bytes × Bytes)
        → length (a.0) ≡ length (b.0)
        → hot_key db config a ≡ hot_key db config b
        → (a.0 ≡ b.0) × (a.1 ≡ b.1))
flush_hot_topics-IsSplit_example =
    flush_hot_topics-IsSplit db db-PacksTuples other_push hot_queue ((again ∷ flushed ∷ []) ∷ [])
      flush_t flush_run
