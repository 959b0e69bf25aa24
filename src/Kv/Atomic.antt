-- ===== src/Kv/Atomic.antt =====
-- The compare-and-set loop as a whole: all or nothing against one snapshot, and an end.
use blueboat.Prelude.{
  All, Option-cases, Bytes, true, List, [], ◌∷◌, Option, none, some, ◌≡◌, ◌≢◌, refl, inl, inr,
  arith, Bool-cases, Any, ◌∙◌,
}
use blueboat.Prelude.Result.{Result, ok, err}
use blueboat.Fdb.{Fdb, ReadsWrites, CommitWrites}
use blueboat.Kv.{
  CasKey, CasResponse, Pending, no_writes, Attempt, Answer, Outcome, committed, retry, failed,
  cas_keys, cas_finish, cas_conclude, cas_attempt, cas_loop, not_done,
}
use blueboat.Kv.Cas.{Distinct, checks_hold, writes, cas_keys-exact}

module _ (f : Fdb) (w : ReadsWrites f) (c : CommitWrites f) where
  cas_finish_done :
      (base64 : Bytes → Bytes) (a : Attempt f) (p : Pending) (r : Answer f) (o : Outcome)
      → a.outcome ≡ o
      → cas_finish f base64 a p ≡ some r
      → (resp : CasResponse) → r.reply ≡ ok resp
      → (v : Bytes) × (r.written ≡ some (f.commit a.store p.log v))
  unfolding cas_finish
  cas_finish_done base64 a p r (committed v e) o h resp q = (v, cc (rw o at h))
  cas_finish_done base64 a p r retry o h resp q = cc (rw o at h)
  cas_finish_done base64 a p r (failed m) o h resp q = cc (rw o at h)

  not_done_ne :
      (r : Answer f) (resp : CasResponse)
      → some (record { reply = ok (not_done f); written = none }) ≡ some r
      → r.reply ≡ ok resp
      → resp.done ≡ true
      → ⊥
  not_done_ne r resp h q t = ground arith

  cas_attempt_checked :
      (pack base64 : Bytes → Bytes) (keys : List CasKey) (a : Attempt f) (r : Answer f)
      (resp : CasResponse)
      → Distinct pack keys
      → ((k : Bytes) → a.read_error k ≡ none)
      → cas_attempt f pack base64 keys a ≡ some r
      → r.reply ≡ ok resp
      → resp.done ≡ true
      → (v : Bytes) × (checks_hold (f.get a.store []) pack keys ≡ true)
        × (r.written ≡ some (f.commit a.store (writes pack keys no_writes).log v))
  unfolding cas_attempt
  cas_attempt_checked pack base64 keys a r resp d e h q t =
      let k = cas_keys-exact f w a pack keys no_writes d e in
      elim (Bool-cases (checks_hold (f.get a.store []) pack keys)) [
        | inl holds ↦
            let (v, x) =
              cas_finish_done base64 a (writes pack keys no_writes) r a.outcome refl
                (rw (k, holds, cas_attempt) at h) resp q in
            (v, holds, x)
        | inr fails ↦ absurd (not_done_ne r resp (rw (k, fails, cas_attempt) at h) q t)
      ]

  -- For requests of distinct keys and attempts whose reads succeed, an answer that tells of a done
  -- compare-and-set comes from one of the attempts: every check held of its snapshot, and its commit
  -- made all the writes.
  cas_done_checked :
      (pack base64 : Bytes → Bytes) (keys : List CasKey) (attempts : List (Attempt f))
      (r : Answer f) (resp : CasResponse)
      → Distinct pack keys
      → All (λ a. (k : Bytes) → a.read_error k ≡ none) attempts
      → cas_loop f pack base64 keys attempts ≡ some r
      → r.reply ≡ ok resp
      → resp.done ≡ true
      → Any
          (λ a.
            (v : Bytes) × (checks_hold (f.get a.store []) pack keys ≡ true)
            × (r.written ≡ some (f.commit a.store (writes pack keys no_writes).log v)))
          attempts
  unfolding cas_loop
  cas_done_checked pack base64 keys [] r resp d e h q t = cc
  cas_done_checked pack base64 keys (a ∷ rest) r resp d e h q t =
      elim (Option-cases (cas_attempt f pack base64 keys a)) [
        | inl again ↦ inr (cas_done_checked pack base64 keys rest r resp d e.1 (rw again at h) q t)
        | inr (r', ends) ↦
            inl (cas_attempt_checked pack base64 keys a r resp d e.0 (ends ∙ (rw ends at h)) q t)
      ]

cas_finish_ends :
    (f : Fdb) (base64 : Bytes → Bytes) (a : Attempt f) (p : Pending) (o : Outcome)
    → a.outcome ≡ o
    → o ≢ retry
    → cas_finish f base64 a p ≢ none
unfolding cas_finish
cas_finish_ends f base64 a p (committed v e) o n h = cc (rw o at h)
cas_finish_ends f base64 a p retry o n h = absurd (n refl)
cas_finish_ends f base64 a p (failed m) o n h = cc (rw o at h)

cas_conclude_ends :
    (f : Fdb) (base64 : Bytes → Bytes) (a : Attempt f) (x : Result (Option Pending))
    → a.outcome ≢ retry
    → cas_conclude f base64 a x ≢ none
unfolding cas_conclude
cas_conclude_ends f base64 a (err e) n h = cc
cas_conclude_ends f base64 a (ok none) n h = cc
cas_conclude_ends f base64 a (ok (some p)) n h = cas_finish_ends f base64 a p a.outcome refl n h

cas_attempt_ends :
    (f : Fdb) (pack base64 : Bytes → Bytes) (keys : List CasKey) (a : Attempt f)
    → a.outcome ≢ retry
    → cas_attempt f pack base64 keys a ≢ none
unfolding cas_attempt
cas_attempt_ends f pack base64 keys a n =
    cas_conclude_ends f base64 a (cas_keys f a pack keys no_writes) n

-- The loop ends as soon as the database does not ask for a retry.
cas_total :
    (f : Fdb) (pack base64 : Bytes → Bytes) (keys : List CasKey) (attempts : List (Attempt f))
    → Any (λ a. a.outcome ≢ retry) attempts
    → cas_loop f pack base64 keys attempts ≢ none
unfolding cas_loop
cas_total f pack base64 keys [] h = absurd h
cas_total f pack base64 keys (a ∷ rest) (inl h) =
    ground (arith, cas_attempt_ends f pack base64 keys a h)
cas_total f pack base64 keys (a ∷ rest) (inr h) =
    ground (arith, cas_total f pack base64 keys rest h)
