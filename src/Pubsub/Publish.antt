-- ===== src/Pubsub/Publish.antt =====
-- src/api/pubsub/mod.rs: publishing a message from an application.
use blueboat.Prelude.{
  ℕ, ◌≤◌, Bytes, codes, true, false, not, List, Option, none, some, length, ltb, if◌then◌else◌, ◌≡◌,
  ◌↔◌, arith,
}
use blueboat.Prelude.Utf8.{is_utf8}
use blueboat.Prelude.Table.{Table, lookup}
use blueboat.Prelude.Result.{Result, ok, err, ok_or, ◌>>=◌}
use blueboat.Fdb.{Fdb}
use blueboat.Pubsub.{MessageQueue, PubsubMetadata, topic_of, PushAttempt, Pushed, push}
use blueboat.Pubsub.Sse.{has_newline}

abbrev pub max_topic_key_size : ℕ
max_topic_key_size = 100

abbrev pub max_message_size : ℕ
max_message_size = 10000

pub record PublishRequest : Type 0 where
  pub namespace : Bytes
  pub topic : Bytes
  pub message : Bytes

-- The checks of `api_pubsub_publish`, in the worker.
unfoldable pub check_publish : Bytes → Bytes → Bytes → Result PublishRequest
check_publish namespace topic raw =
    if ltb max_topic_key_size (length topic)
    then err (codes "topic key too long")
    else if ltb max_message_size (length raw)
    then err (codes "message too large")
    else if not (is_utf8 raw)
    then err (codes "message contains invalid utf8")
    else if has_newline raw
    then err (codes "message contains newline")
    else ok (record { namespace = namespace; topic = topic; message = raw })

module _ (f : Fdb) where
  -- What became of a publish: still retrying, or done with the answer for the application.
  pub data Published : Type 0 where
    pending : Published
    answered : Result Bytes → MessageQueue → Option f.Store → Published

  abbrev hex_reply : (Bytes → Bytes) → Result Bytes → Result Bytes
  hex_reply hex (ok v) = ok (hex v)
  hex_reply hex (err e) = err e

  abbrev published : (Bytes → Bytes) → Option (Pushed f) → Published
  published hex none = pending
  published hex (some p) = answered (hex_reply hex p.reply) p.queue p.written

  -- `PublishRequest::handle`, in the server; `hex` is `hex::encode`.
  unfoldable pub publish :
      (Bytes → Bytes)
      → Table PubsubMetadata
      → Option MessageQueue
      → List (PushAttempt f)
      → PublishRequest
      → Result Published
  publish hex pubsub mq attempts req = do
    ns ← ok_or (lookup req.namespace pubsub) (codes "pubsub namespace not found")
    q ← ok_or mq (codes "pubsub mq not initialized")
    ok (
        published hex
          (push f q (topic_of f q.config ns.namespace_bytes req.topic) req.message attempts))

-- A message is sent to the server exactly when its topic is at most 100 bytes, and it is at most
-- 10000 bytes of UTF-8 with no newline; it is sent unchanged.
check_publish_iff :
    (namespace topic raw : Bytes) (req : PublishRequest)
    → (check_publish namespace topic raw ≡ ok req) ↔ (
        (length topic ≤ max_topic_key_size)
        × (length raw ≤ max_message_size)
        × (is_utf8 raw ≡ true)
        × (has_newline raw ≡ false)
        × (req ≡ record { namespace = namespace; topic = topic; message = raw }))
unfolding check_publish
check_publish_iff namespace topic raw req = (λ h. ground arith, λ h. ground arith)
