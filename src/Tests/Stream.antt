-- ===== src/Tests/Stream.antt =====
-- The stream of a topic with one message, whose pops are those of the queue.
use blueboat.Prelude.{
  Bytes, codes, subst, true, List, [], ◌∷◌, Option, none, some, All, append-nil, ◌≡◌, refl, sym, ap,
  arith,
}
use blueboat.Prelude.Table.{Table}
use blueboat.Prelude.Result.{Result, ok, err}
use blueboat.Pubsub.{pop}
use blueboat.Pubsub.Pop.{past_messages}
use blueboat.Pubsub.Sse.Stream.{SseRound, popped, heartbeat, IsFirstOf, stream_from}
use blueboat.Pubsub.Sse.Past.{Ascending}
use blueboat.Pubsub.Sse.Delivery.{topic_messages, IsEarlier, IsPop, stream_from_lem}
use blueboat.Tests.Database.{db, db-ScansInOrder}
use blueboat.Tests.Pubsub.{
  config, ns, topic_t, from_start, fits_t, pop_attempt, queue_store, queue-IsStamped, only_message,
}

abbrev answer : Option (Result (Table Bytes)) → Result (Table Bytes)
answer none = err []
answer (some r) = r

-- A heartbeat, and a pop of five messages at most.
abbrev rounds : List SseRound
rounds =
    heartbeat true ∷ popped (λ from. answer (pop db topic_t from 5 true (pop_attempt ∷ []))) ∷ []

answer-ok :
    (o : Option (Result (Table Bytes))) (res : Table Bytes) → answer o ≡ ok res → o ≡ some (ok res)
answer-ok none res h = cc
answer-ok (some r) res h = ap some h

attempt-IsEarlier : IsEarlier db db-ScansInOrder config ns (codes "t") queue_store pop_attempt
attempt-IsEarlier = (queue-IsStamped, ([], sym (append-nil _)))

rounds-IsPop : All (IsPop db db-ScansInOrder config ns (codes "t") queue_store 5 true) rounds
rounds-IsPop = (
  tt,
  (
    (λ from res h. (
      pop_attempt ∷ [],
      (attempt-IsEarlier, tt),
      answer-ok (pop db topic_t from 5 true (pop_attempt ∷ [])) res h,
    )),
    tt,
  ),
)

store-Ascending : Ascending (topic_messages db db-ScansInOrder config ns (codes "t") queue_store)
store-Ascending = subst Ascending (sym only_message) (tt, tt)

stream_from_lem_example :
    IsFirstOf
      (λ s. s)
      (λ c. true)
      (past_messages db db-ScansInOrder config ns (codes "t") from_start queue_store)
      (stream_from (λ s. s) (λ c. true) true from_start rounds)
stream_from_lem_example =
    stream_from_lem db db-ScansInOrder config ns (codes "t") (λ s. s) (λ c. true) queue_store 5 true
      rounds from_start fits_t (omega arith) refl queue-IsStamped store-Ascending rounds-IsPop
