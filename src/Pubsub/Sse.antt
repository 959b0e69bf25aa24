-- ===== src/Pubsub/Sse.antt =====
-- src/pubsub/sse.rs: server-sent events from a topic, up to the start of the stream (see Stream).
pub mod Frame
pub mod Stream
pub mod Past
pub mod Delivery
use blueboat.Prelude.{
  eqb, ℕ, suc, ◌+◌, ◌*◌, ◌-◌, ◌^◌, Bytes, codes, Bool, true, false, not, ◌&&◌, ◌||◌, List, [], ◌∷◌,
  ◌++◌, Option, none, some, ltb, leb, ◌==◌, if◌then◌else◌, nonempty,
}
use blueboat.Prelude.Ascii.{parse_uint}
use blueboat.Prelude.Utf8.{is_utf8}
use blueboat.Prelude.Table.{Table, lookup}
use blueboat.Prelude.Result.{Result, ok, err, ok_or, ◌>>=◌}
use blueboat.Fdb.{Fdb}
use blueboat.Pubsub.{MessageQueue, MessageQueueTopic, PubsubMetadata, topic_of, seq}

abbrev pub newline : ℕ
newline = 10

unfoldable pub has_newline : Bytes → Bool
has_newline [] = false
has_newline (b ∷ bs) = (b == newline) || has_newline bs

abbrev pub min_batch_size : ℕ
min_batch_size = 1

abbrev pub max_batch_size : ℕ
max_batch_size = 100

-- `str::parse::<u32>`.
abbrev pub parse_u32 : Bytes → Option ℕ
parse_u32 = parse_uint (2 ^ 32)

abbrev batch_of : Option ℕ → Result ℕ
batch_of none = err (codes "invalid batch_size")
batch_of (some n) =
    if ltb n min_batch_size || ltb min_batch_size n
    then err (codes "batch_size out of range")
    else ok n

-- `n` of `handle_sse`; an error is the text of the answer.
unfoldable pub batch_size : Bool → Bytes → Result ℕ
batch_size true param = ok max_batch_size
batch_size false [] = ok max_batch_size
batch_size false (c ∷ cs) = batch_of (parse_u32 (c ∷ cs))

-- The method, the parsed query, and the header `last-event-id`, empty if it is absent or no text.
pub record SseRequest : Type 0 where
  pub is_get : Bool
  pub params : Table Bytes
  pub last_event_id : Bytes

pub record SseTask : Type 0 where
  pub topic : MessageQueueTopic
  pub wait : Bool
  pub n : ℕ
  pub seq : Bytes

-- A text, the application's own answer to the authorisation, or a stream of events.
pub data SseReply : Type 0 where
  text : Bytes → SseReply
  forwarded : (status : ℕ) → SseReply
  stream : SseTask → SseReply

abbrev or_default : Option Bytes → Bytes
or_default none = []
or_default (some x) = x

abbrev with_batch : MessageQueueTopic → Bool → Bytes → Result ℕ → SseReply
with_batch t wait from_seq (ok n) =
    stream (record { topic = t; wait = wait; n = n; seq = from_seq })
with_batch t wait from_seq (err e) = text e

abbrev is_one : Bytes → Bool
is_one x = eqb x (codes "1")

module _ (f : Fdb) where
  -- Where the stream starts; `none` if the header is not ten bytes in hexadecimal (`hex` is
  -- `hex::decode_to_slice` into ten bytes).
  unfoldable pub from_seq_of :
      (Bytes → Option Bytes) → f.Store → MessageQueueTopic → Bytes → Result (Option Bytes)
  from_seq_of hex s t [] = do v ← seq f s t; ok (some v)
  from_seq_of hex s t (c ∷ cs) = ok (hex (c ∷ cs))

  abbrev started : MessageQueueTopic → Bool → Bytes → Option Bytes → SseReply
  started t wait batch none = text (codes "invalid last-event-id")
  started t wait batch (some from_seq) = with_batch t wait from_seq (batch_size wait batch)

  abbrev in_namespace :
      (Bytes → Option Bytes)
      → MessageQueue
      → f.Store
      → SseRequest
      → Option PubsubMetadata
      → Result SseReply
  in_namespace hex q s req none = ok (text (codes "namespace not found"))
  in_namespace hex q s req (some ns) =
      let topic =
        topic_of f q.config ns.namespace_bytes (or_default (lookup (codes "topic") req.params)) in
      do
        from_seq ← from_seq_of hex s topic req.last_event_id
        ok (
            started topic (not (is_one (or_default (lookup (codes "no_wait") req.params))))
              (or_default (lookup (codes "batch_size") req.params)) from_seq)

  abbrev authorised :
      (Bytes → Option Bytes)
      → MessageQueue
      → Table PubsubMetadata
      → ℕ
      → f.Store
      → SseRequest
      → Result SseReply
  authorised hex q pubsub status s req =
      if status == 200
      then in_namespace hex q s req (lookup (or_default (lookup (codes "ns") req.params)) pubsub)
      else ok (forwarded status)

  -- `handle_sse`. `auth` is the answer of the application to the authorisation request.
  unfoldable pub handle_sse :
      (Bytes → Option Bytes)
      → Option MessageQueue
      → Table PubsubMetadata
      → Result ℕ
      → f.Store
      → SseRequest
      → Result SseReply
  unfolding from_seq_of batch_size
  handle_sse hex mq pubsub auth s req =
      if not req.is_get
      then ok (text (codes "only GET requests are allowed"))
      else ok_or mq (codes "MQ is not initialized") >>= λ q.
          auth >>= λ status. authorised hex q pubsub status s req

pub record SseMessage : Type 0 where
  pub event : Bytes
  pub body : Bytes
  pub id : Bytes

-- `SseMessage::encode`.
unfoldable pub encode : SseMessage → Result Bytes
encode m =
    if not (is_utf8 m.body)
    then err (codes "invalid utf-8 sequence")
    else if has_newline m.body
    then err (codes "sse data may not contain newline")
    else ok (
        codes "event: "
        ++ (m.event
            ++ newline
              ∷ (codes "data: "
                  ++ (m.body ++ newline ∷ (codes "id: " ++ (m.id ++ newline ∷ newline ∷ []))))))
