-- ===== src/Pubsub/Hot.antt =====
-- src/pubsub/mq.rs: `flush_hot_topics`, which writes a key for each topic that a push has marked hot.
use blueboat.Prelude.{
  ℕ, zero, suc, Bytes, codes, List, [], ◌∷◌, ◌++◌, append_assoc, map, Option, none, some, some_inj,
  ◌≡◌, refl, sym, ap, ap₂, ◌∙◌, subst, ◌⊎◌, inl, inr, ◌↔◌, Bool, Bool-cases, true, eqb, eq_of_eqb,
  ◌&&◌, append_inj, append_cancel, length, arith,
}
use blueboat.Prelude.Result.{Result, ok, err}
use blueboat.Fdb.{Fdb, Mutation, set_key, PacksTuples}
use blueboat.Pubsub.{MessageQueueConfig, MessageQueue, insert_hot}

module _ {A : Type 0} where
  abbrev onto : A → List (List A) → List (List A)
  onto x [] = (x ∷ []) ∷ []
  onto x (c ∷ cs) = (x ∷ c) ∷ cs

  -- The first chunk begins with `x` and has room for `left` more.
  unfoldable pub fill : A → ℕ → List A → List (List A)
  fill x left [] = (x ∷ []) ∷ []
  fill x zero (y ∷ ys) = (x ∷ []) ∷ fill y 99 ys
  fill x (suc left) (y ∷ ys) = onto x (fill y left ys)

  -- `chunks(100)`.
  unfoldable pub chunks : List A → List (List A)
  chunks [] = []
  chunks (x ∷ xs) = fill x 99 xs

  abbrev pub flatten : List (List A) → List A
  flatten [] = []
  flatten (c ∷ cs) = c ++ flatten cs

  flatten-onto : (x : A) (cs : List (List A)) → flatten (onto x cs) ≡ x ∷ flatten cs
  flatten-onto x [] = refl
  flatten-onto x (c ∷ cs) = refl

  flatten-fill : (x : A) (left : ℕ) (xs : List A) → flatten (fill x left xs) ≡ x ∷ xs
  unfolding fill
  flatten-fill x left [] = refl
  flatten-fill x zero (y ∷ ys) = ap (λ t. x ∷ t) (flatten-fill y 99 ys)
  flatten-fill x (suc left) (y ∷ ys) =
      flatten-onto x (fill y left ys) ∙ ap (λ t. x ∷ t) (flatten-fill y left ys)

  pub flatten-chunks : (xs : List A) → flatten (chunks xs) ≡ xs
  unfolding chunks
  flatten-chunks [] = refl
  flatten-chunks (x ∷ xs) = flatten-fill x 99 xs

-- How the database answers a commit of a batch.
pub data FlushOutcome : Type 0 where
  flushed : FlushOutcome
  again : FlushOutcome
  fatal : Bytes → FlushOutcome

-- What a flush answers, the topics that are still hot and the mutations that were committed, a batch
-- each, oldest first.
pub record Flush : Type 0 where
  pub reply : Result (Unit {0})
  pub queue : MessageQueue
  pub written : List (List Mutation)

-- The set of hot topics after pushes to these.
unfoldable pub mark_all : List (Bytes × Bytes) → List (Bytes × Bytes) → List (Bytes × Bytes)
mark_all [] hot = hot
mark_all (t ∷ ts) hot = mark_all ts (insert_hot t hot)

-- The topic is one of these.
abbrev pub Among : Bytes × Bytes → List (Bytes × Bytes) → Type 0
Among t [] = ⊥
Among t (x ∷ xs) = ((x.0 ≡ t.0) × (x.1 ≡ t.1)) ⊎ Among t xs

insert_hot_iff :
    (t x : Bytes × Bytes) (hot : List (Bytes × Bytes))
    → Among t (insert_hot x hot) ↔ (((x.0 ≡ t.0) × (x.1 ≡ t.1)) ⊎ Among t hot)
unfolding insert_hot
insert_hot_iff t x [] = (λ a. a, λ a. a)
insert_hot_iff t x (y ∷ hot) =
    let (there, back) = insert_hot_iff t x hot in
    elim (Bool-cases (eqb (y.0) (x.0) && eqb (y.1) (x.1))) [
      | inl e ↦
          let (e0, e1) = both (eqb (y.0) (x.0)) (eqb (y.1) (x.1)) e in
          rw e (
            λ a. inr a,
            λ a. elim a [
              | inl (p, q) ↦ inl (eq_of_eqb (y.0) (x.0) e0 ∙ p, eq_of_eqb (y.1) (x.1) e1 ∙ q)
              | inr b ↦ b
            ],
          )
      | inr e ↦ rw e (
        λ a. elim a [
          | inl p ↦ inr (inl p)
          | inr b ↦ elim (there b) [ inl p ↦ inl p | inr c ↦ inr (inr c) ]
        ],
        λ a. elim a [
          | inl p ↦ inr (back (inl p))
          | inr b ↦ elim b [ inl p ↦ inl p | inr c ↦ inr (back (inr c)) ]
        ],
      )
    ]
  where
    both : (a b : Bool) → (a && b) ≡ true → (a ≡ true) × (b ≡ true)
    both a b e = ground arith

mark_all_onto :
    (t : Bytes × Bytes) (ts hot : List (Bytes × Bytes))
    → Among t (mark_all ts hot) ↔ (Among t ts ⊎ Among t hot)
unfolding mark_all
mark_all_onto t [] hot = (λ a. inr a, λ a. elim a [ inl b ↦ absurd b | inr c ↦ c ])
mark_all_onto t (x ∷ ts) hot =
    let (there, back) = mark_all_onto t ts (insert_hot x hot) in
    let (out, into) = insert_hot_iff t x hot in
    (
      λ a. elim (there a) [
        | inl b ↦ inl (inr b)
        | inr c ↦ elim (out c) [ inl p ↦ inl (inl p) | inr d ↦ inr d ]
      ],
      λ a. elim a [
        | inl b ↦ elim b [ inl p ↦ back (inr (into (inl p))) | inr c ↦ back (inl c) ]
        | inr d ↦ back (inr (into (inr d)))
      ],
    )

mark_all_iff :
    (t : Bytes × Bytes) (ts : List (Bytes × Bytes)) → Among t (mark_all ts []) ↔ Among t ts
mark_all_iff t ts =
    let (there, back) = mark_all_onto t ts [] in
    (λ a. elim (there a) [ inl b ↦ b | inr c ↦ absurd c ], λ a. back (inl a))

module _ (f : Fdb) where
  unfoldable pub hot_key : MessageQueueConfig → Bytes × Bytes → Bytes
  hot_key config t = f.pack (config.prefix ∷ []) ++ b'h' ∷ (t.0 ++ f.pack (t.1 ∷ []))

  -- The sets of a batch, in their order.
  abbrev pub batch_log : MessageQueueConfig → List (Bytes × Bytes) → List Mutation
  batch_log config ts = map (λ t. set_key (hot_key config t) (codes "1")) ts

  -- The loop of a batch; `none` while the database still retries.
  unfoldable pub flush_batch :
      MessageQueueConfig
      → List (Bytes × Bytes)
      → List FlushOutcome
      → Option (Result (List Mutation))
  flush_batch config ts [] = none
  flush_batch config ts (flushed ∷ os) = some (ok (batch_log config ts))
  flush_batch config ts (again ∷ os) = flush_batch config ts os
  flush_batch config ts (fatal e ∷ os) = some (err e)

  abbrev pub Batches : Type 0
  Batches = Option (Result (Unit {0}) × List (List Mutation))

  abbrev written_first : List Mutation → Batches → Batches
  written_first log none = none
  written_first log (some (r, logs)) = some (r, log ∷ logs)

  abbrev pub then_batches : Option (Result (List Mutation)) → Batches → Batches
  then_batches none rest = none
  then_batches (some (err e)) rest = some (err e, [])
  then_batches (some (ok log)) rest = written_first log rest

  -- The batches in their order, each with the answers that the database gives it.
  unfoldable pub flush_batches :
      MessageQueueConfig → List (List (Bytes × Bytes)) → List (List FlushOutcome) → Batches
  flush_batches config [] outcomes = some (ok tt, [])
  flush_batches config (b ∷ bs) [] = none
  flush_batches config (b ∷ bs) (os ∷ oss) =
      then_batches (flush_batch config b os) (flush_batches config bs oss)

  -- The set is taken out, and pushes mark their topics in the new one while the commits are awaited.
  abbrev pub refilled : List (Bytes × Bytes) → MessageQueue → MessageQueue
  refilled meanwhile q = record q { hot_topics = mark_all meanwhile [] }

  abbrev pub flush_of : List (Bytes × Bytes) → MessageQueue → Batches → Option Flush
  flush_of meanwhile q none = none
  flush_of meanwhile q (some (r, logs)) =
      some (record { reply = r; queue = refilled meanwhile q; written = logs })

  -- `flush_hot_topics`: `meanwhile` are the topics that pushes have marked hot since the set was taken
  -- out, oldest first.
  unfoldable pub flush_hot_topics :
      List (Bytes × Bytes) → MessageQueue → List (List FlushOutcome) → Option Flush
  flush_hot_topics meanwhile q outcomes =
      flush_of meanwhile q (flush_batches q.config (chunks q.hot_topics) outcomes)

  -- The topics written and the topics lost, of those that were hot; the keys and the values that were
  -- committed; and the topics that are hot afterwards.
  pub record IsSplit (meanwhile : List (Bytes × Bytes)) (q : MessageQueue) (r : Flush)
      : Type 0 where
    pub kept : List (Bytes × Bytes)
    pub lost : List (Bytes × Bytes)
    pub hot : q.hot_topics ≡ kept ++ lost
    pub committed :
        flatten r.written
        ≡ map
            (λ t.
              set_key
                (f.pack (q.config.prefix ∷ []) ++ b'h' ∷ (t.0 ++ f.pack (t.1 ∷ [])))
                (codes "1"))
            kept
    pub marked : (t : Bytes × Bytes) → Among t r.queue.hot_topics ↔ Among t meanwhile
    pub none_lost : r.reply ≡ ok tt → lost ≡ []

  batch_log-append :
      (config : MessageQueueConfig) (xs ys : List (Bytes × Bytes))
      → batch_log config (xs ++ ys) ≡ batch_log config xs ++ batch_log config ys
  batch_log-append config [] ys = refl
  batch_log-append config (x ∷ xs) ys =
      ap (λ l. set_key (hot_key config x) (codes "1") ∷ l) (batch_log-append config xs ys)

  flush_batch-ok :
      (config : MessageQueueConfig) (ts : List (Bytes × Bytes)) (os : List FlushOutcome)
      (log : List Mutation)
      → flush_batch config ts os ≡ some (ok log)
      → batch_log config ts ≡ log
  unfolding flush_batch
  flush_batch-ok config ts [] log h = cc
  flush_batch-ok config ts (flushed ∷ os) log h = cc
  flush_batch-ok config ts (again ∷ os) log h = flush_batch-ok config ts os log h
  flush_batch-ok config ts (fatal e ∷ os) log h = cc

  -- The same for batches.
  pub record IsPart (config : MessageQueueConfig) (bs : List (List (Bytes × Bytes)))
      (r : Result (Unit {0})) (logs : List (List Mutation)) : Type 0 where
    pub kept : List (Bytes × Bytes)
    pub lost : List (Bytes × Bytes)
    pub whole : flatten bs ≡ kept ++ lost
    pub committed : flatten logs ≡ batch_log config kept
    pub none_lost : r ≡ ok tt → lost ≡ []

  add_batch :
      (config : MessageQueueConfig) (b : List (Bytes × Bytes)) (bs : List (List (Bytes × Bytes)))
      (r : Result (Unit {0})) (log : List Mutation) (logs : List (List Mutation))
      → batch_log config b ≡ log
      → IsPart config bs r logs
      → IsPart config (b ∷ bs) r (log ∷ logs)
  add_batch config b bs r log logs same p = record {
    kept = b ++ p.kept;
    lost = p.lost;
    whole = ap (λ l. b ++ l) p.whole ∙ sym (append_assoc b p.kept p.lost);
    committed = ap₂ (λ x y. x ++ y) (sym same) p.committed ∙ sym (batch_log-append config b p.kept);
    none_lost = p.none_lost;
  }

  err_ne_ok : (e : Bytes) → ◌≡◌ {A = Result (Unit {0})} (err e) (ok tt) → ⊥
  err_ne_ok e h = cc

  abbrev IsPartOf :
      MessageQueueConfig
      → List (List (Bytes × Bytes))
      → Result (Unit {0}) × List (List Mutation)
      → Type 0
  IsPartOf config bs r = IsPart config bs (r.0) (r.1)

  then_batches-IsPart :
      (config : MessageQueueConfig) (b : List (Bytes × Bytes)) (bs : List (List (Bytes × Bytes)))
      (o : Option (Result (List Mutation))) (rest : Batches)
      → ((log : List Mutation) → o ≡ some (ok log) → batch_log config b ≡ log)
      → ((r : Result (Unit {0}) × List (List Mutation)) → rest ≡ some r → IsPartOf config bs r)
      → (r : Result (Unit {0}) × List (List Mutation)) → then_batches o rest ≡ some r
      → IsPartOf config (b ∷ bs) r
  then_batches-IsPart config b bs none rest one all r h = cc
  then_batches-IsPart config b bs (some (err e)) rest one all r h =
      subst (IsPartOf config (b ∷ bs)) (some_inj h) (record {
        kept = [];
        lost = b ++ flatten bs;
        whole = refl;
        committed = refl;
        none_lost = λ q. absurd (err_ne_ok e q);
      })
  then_batches-IsPart config b bs (some (ok log)) none one all r h = cc
  then_batches-IsPart config b bs (some (ok log)) (some (a, logs)) one all r h =
      subst (IsPartOf config (b ∷ bs)) (some_inj h)
        (add_batch config b bs a log logs (one log refl) (all (a, logs) refl))

  flush_batches-IsPart :
      (config : MessageQueueConfig) (bs : List (List (Bytes × Bytes)))
      (oss : List (List FlushOutcome)) (r : Result (Unit {0}) × List (List Mutation))
      → flush_batches config bs oss ≡ some r
      → IsPartOf config bs r
  unfolding flush_batches
  flush_batches-IsPart config [] oss r h =
      subst (IsPartOf config []) (some_inj h)
        (record { kept = []; lost = []; whole = refl; committed = refl; none_lost = λ q. refl })
  flush_batches-IsPart config (b ∷ bs) [] r h = cc
  flush_batches-IsPart config (b ∷ bs) (os ∷ oss) r h =
      then_batches-IsPart config b bs (flush_batch config b os) (flush_batches config bs oss)
        (flush_batch-ok config b os) (flush_batches-IsPart config bs oss) r h

  batch_log_lem :
      (config : MessageQueueConfig) (ts : List (Bytes × Bytes))
      → batch_log config ts
        ≡ map
            (λ t.
              set_key
                (f.pack (config.prefix ∷ []) ++ b'h' ∷ (t.0 ++ f.pack (t.1 ∷ [])))
                (codes "1"))
            ts
  unfolding hot_key
  batch_log_lem config ts = refl

  flush_of-IsSplit :
      (meanwhile : List (Bytes × Bytes)) (q : MessageQueue) (o : Batches) (r : Flush)
      → ((p : Result (Unit {0}) × List (List Mutation))
          → o ≡ some p
          → IsPartOf q.config (chunks q.hot_topics) p)
      → flush_of meanwhile q o ≡ some r
      → IsSplit meanwhile q r
  flush_of-IsSplit meanwhile q none r part h = cc
  flush_of-IsSplit meanwhile q (some (a, logs)) r part h =
      let p = part (a, logs) refl in
      subst (IsSplit meanwhile q) (some_inj h) (record {
        kept = p.kept;
        lost = p.lost;
        hot = sym (flatten-chunks q.hot_topics) ∙ p.whole;
        committed = p.committed ∙ batch_log_lem q.config p.kept;
        marked = λ t. mark_all_iff t meanwhile;
        none_lost = p.none_lost;
      })

  -- The keys of two topics whose namespaces have one length are the same only for the same topic.
  hot_key_apart :
      (t : PacksTuples f) (config : MessageQueueConfig) (a b : Bytes × Bytes)
      → length (a.0) ≡ length (b.0)
      → hot_key config a ≡ hot_key config b
      → (a.0 ≡ b.0) × (a.1 ≡ b.1)
  unfolding hot_key
  hot_key_apart t config a b len h =
      let (same, packed) =
        append_inj (a.0) (b.0) len
          (append_cancel (b'h' ∷ []) (append_cancel (f.pack (config.prefix ∷ [])) h)) in
      (same, one (a.1) (b.1) (sym (t.unpack-pack _) ∙ ap f.unpack packed ∙ t.unpack-pack _))
    where
      one : (x y : Bytes) → some (x ∷ []) ≡ some (y ∷ []) → x ≡ y
      one x y e = cc e

  -- However a flush ends, the keys of the first of the topics that were hot have been set to 1, in
  -- their order; if it ends well, these are all the topics. The topics that are hot afterwards are
  -- those that pushes have marked since the flush began. (If it fails, the others have no key and are
  -- no longer hot, unless there was a new push.) The keys of two topics whose namespaces have one
  -- length are the same only for one topic of one namespace.
  pub flush_hot_topics-IsSplit :
      PacksTuples f
      → (meanwhile : List (Bytes × Bytes)) (q : MessageQueue) (outcomes : List (List FlushOutcome))
        (r : Flush)
      → flush_hot_topics meanwhile q outcomes ≡ some r
      → IsSplit meanwhile q r
        × ((a b : Bytes × Bytes)
            → length (a.0) ≡ length (b.0)
            → hot_key q.config a ≡ hot_key q.config b
            → (a.0 ≡ b.0) × (a.1 ≡ b.1))
  unfolding flush_hot_topics
  flush_hot_topics-IsSplit t meanwhile q outcomes r h = (
    flush_of-IsSplit meanwhile q (flush_batches q.config (chunks q.hot_topics) outcomes) r
        (flush_batches-IsPart q.config (chunks q.hot_topics) outcomes) h,
    hot_key_apart t q.config,
  )
