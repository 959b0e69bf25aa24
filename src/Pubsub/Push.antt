-- ===== src/Pubsub/Push.antt =====
-- What a push writes, and that topics do not share keys.
use blueboat.Prelude.{
  append_inj, ℕ, ◌+◌, ◌^◌, ◌<◌, Bytes, false, List, [], ◌∷◌, ◌++◌, none, some, eqb, eqb_iff,
  eqb_refl, length, ◌≡◌, ◌≢◌, refl, sym, ap, ◌∙◌, arith, append_assoc, append_cancel, length-append,
  if◌then◌else◌, ==_true,
}
use blueboat.Prelude.Result.{ok}
use blueboat.Fdb.{Fdb, CommitWrites, Stamps, PacksTuples, starts_ff, le32, zeros}
use blueboat.Pubsub.{
  MessageQueueConfig, MessageQueue, common_prefix, topic_of, PushAttempt, committed, push, push_log,
  stamp_reply, insert_hot, seq,
}
use blueboat.Pubsub.Keys.{data_template_lem}

module _ (f : Fdb) (w : CommitWrites f) (st : Stamps f) (config : MessageQueueConfig)
    (ns topic : Bytes) (fits : length (common_prefix f config ns topic) + 1 < 2 ^ 32) where
  abbrev common : Bytes
  common = common_prefix f config ns topic

  -- The key of the message with versionstamp `v`.
  abbrev pub message_key : Bytes → Bytes
  message_key v = (common ++ b'd' ∷ []) ++ v

  stamped_key :
      (v : Bytes)
      → length v ≡ 10
      → f.stamp (topic_of f config ns topic).data_key_template v ≡ message_key v
  unfolding topic_of
  stamped_key v ten = rw (data_template_lem common fits) (
      ap (λ t. f.stamp t v) template
      ∙ st.stamp_lem (common ++ b'd' ∷ []) v (omega (arith, length-append common (b'd' ∷ []))) ten)
    where
      template :
          common ++ b'd' ∷ (zeros 10 ++ le32 (length common + 1))
          ≡ (common ++ b'd' ∷ []) ++ (zeros 10 ++ le32 (length (common ++ b'd' ∷ [])))
      template =
          rw
            (
              length-append common (b'd' ∷ []),
              append_assoc common (b'd' ∷ []) (zeros 10 ++ le32 (length common + 1)),
            )
            refl

  stamped_counter : (v : Bytes) → length v ≡ 10 → f.stamp (zeros 14) v ≡ v
  unfolding le32
  stamped_counter v ten = st.stamp_lem [] v (omega arith) ten

  -- What the store holds after the commit of a push.
  get-push_log :
      (s : f.Store) (message v j : Bytes)
      → length v ≡ 10
      → f.get (f.commit s (push_log (topic_of f config ns topic) message) v) [] j ≡ (
          if eqb (topic_of f config ns topic).counter_key j
          then some v
          else if eqb (message_key v) j
          then some message
          else f.get s [] j)
  unfolding push_log
  get-push_log s message v j ten =
      rw
        (
          w.commit-versionstamped_value,
          w.commit-versionstamped_key,
          w.commit-nil,
          stamped_key v ten,
          stamped_counter v ten,
        )
        refl

  counter_ne : (v : Bytes) → eqb (topic_of f config ns topic).counter_key (message_key v) ≡ false
  unfolding topic_of
  counter_ne v = ground (arith, eqb_iff (common ++ b'c' ∷ []) (message_key v), differ)
    where
      differ : common ++ b'c' ∷ [] ≡ message_key v → ⊥
      differ e = heads (append_cancel common (e ∙ append_assoc common (b'd' ∷ []) v))
        where
          heads : b'c' ∷ [] ≡ b'd' ∷ v → ⊥
          heads h = ground arith

  -- A push whose commit is granted at the ten bytes `v` answers `v` and marks the topic hot. In the
  -- store that it leaves, the message stands under its key and `seq` returns `v`; every key but
  -- these two reads as before.
  pub push_lem :
      (q : MessageQueue) (message v : Bytes) (a : PushAttempt f) (rest : List (PushAttempt f))
      → length v ≡ 10
      → a.outcome ≡ committed v none
      → (s : f.Store) × (push f q (topic_of f config ns topic) message (a ∷ rest)
          ≡ some (record {
            reply = ok v;
            queue = record q { hot_topics = insert_hot (ns, topic) q.hot_topics };
            written = some s;
          }))
        × (f.get s [] (message_key v) ≡ some message)
        × (seq f s (topic_of f config ns topic) ≡ ok v)
        × ((j : Bytes)
            → (topic_of f config ns topic).counter_key ≢ j
            → message_key v ≢ j
            → f.get s [] j ≡ f.get a.store [] j)
  unfolding push seq stamp_reply
  push_lem q message v a rest ten o = (
    f.commit a.store (push_log (topic_of f config ns topic) message) v,
    rw (o, ==_true (length v) 10 ten) (unfold topic_of in refl),
    rw (get-push_log a.store message v (message_key v) ten, counter_ne v, eqb_refl) refl,
    rw
        (
          get-push_log a.store message v (topic_of f config ns topic).counter_key ten,
          eqb_refl,
          ==_true (length v) 10 ten,
        )
        refl,
    λ j p r.
        get-push_log a.store message v j ten
        ∙ ground
            (arith, eqb_iff (topic_of f config ns topic).counter_key j, eqb_iff (message_key v) j),
  )

-- A message key from the left.
key_assoc :
    (a ns p v : Bytes)
    → ((a ++ b'q' ∷ (ns ++ p)) ++ b'd' ∷ []) ++ v ≡ a ++ b'q' ∷ (ns ++ (p ++ b'd' ∷ v))
key_assoc a ns p v = simp append_assoc

cons_cancel : {x : ℕ} {u v : Bytes} → x ∷ u ≡ x ∷ v → u ≡ v
cons_cancel h = cc

-- With namespaces of one length, the message keys of two topics are equal only for the same
-- namespace, topic and versionstamp.
message_key_inj :
    (f : Fdb) (t : PacksTuples f) (config : MessageQueueConfig) (ns ns' topic topic' v v' : Bytes)
    → length ns ≡ length ns'
    → (common_prefix f config ns topic ++ b'd' ∷ []) ++ v
      ≡ (common_prefix f config ns' topic' ++ b'd' ∷ []) ++ v'
    → (ns ≡ ns') × (topic ≡ topic') × (v ≡ v')
unfolding common_prefix
message_key_inj f t config ns ns' topic topic' v v' h e =
    let a : Bytes = f.pack (config.prefix ∷ []) in
    let p : Bytes = f.pack (topic ∷ []) in
    let p' : Bytes = f.pack (topic' ∷ []) in
    let whole : a ++ b'q' ∷ (ns ++ (p ++ b'd' ∷ v)) ≡ a ++ b'q' ∷ (ns' ++ (p' ++ b'd' ∷ v')) =
      sym (key_assoc a ns p v) ∙ e ∙ key_assoc a ns' p' v' in
    let (same_ns, tails) = append_inj ns ns' h (cons_cancel (append_cancel a whole)) in
    let same_topic : topic ≡ topic' =
      t.pack_delimited topic topic' (b'd' ∷ v) (b'd' ∷ v') (unfold starts_ff in refl)
        (unfold starts_ff in refl) tails in
    (same_ns, same_topic, cons_cancel (append_cancel p' (rw same_topic at tails)))
