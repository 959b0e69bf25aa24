-- ===== src/Kv.antt =====
-- src/api/kv/mod.rs: the key-value API. The requests that a worker sends over the reliable channel
-- and their handlers in the server; the limits that the worker checks are in the child `Limits`.
pub mod Cas
pub mod Atomic
pub mod Limits
pub mod Reads
pub mod Paging
use blueboat.Prelude.{
  ℕ, ◌+◌, ◌%◌, ◌^◌, Bytes, codes, Bool, true, false, List, [], ◌∷◌, ◌++◌, Option, none, some, eqb,
  length, if◌then◌else◌,
}
use blueboat.Prelude.Table.{Table, lookup}
use blueboat.Prelude.Result.{Result, ok, err, ok_or, ◌>>=◌}
use blueboat.Fdb.{Fdb, Mutation, set_key, clear_key, versionstamped_key, le32, zeros}
use blueboat.Mds.{MdsClusterConfig, pack_user_key, get_mds}

pub data TriStateCheck {ℓ} (T : Type ℓ) : Type ℓ where
  absent : TriStateCheck T
  any : TriStateCheck T
  value : T → TriStateCheck T

pub data TriStateSet {ℓ} (T : Type ℓ) : Type ℓ where
  delete : TriStateSet T
  preserve : TriStateSet T
  value : T → TriStateSet T
  with_versionstamped_key : T → TriStateSet T

pub record KvNamespaceMetadata : Type 0 where
  pub shard : Bytes
  pub prefix : Bytes
  pub raw : Bool

pub record CasKey : Type 0 where
  pub key : Bytes
  pub check : TriStateCheck Bytes
  pub set : TriStateSet Bytes

pub record CasRequest : Type 0 where
  pub namespace : Bytes
  pub keys : List CasKey

pub record CompareAndSetResult : Type 0 where
  pub versionstamp : Option Bytes

pub record CasResponse : Type 0 where
  pub done : Bool
  pub committed : Option CompareAndSetResult

-- The mutations of the transaction so far, newest first, and `has_versionstamp`.
pub record Pending : Type 0 where
  pub log : List Mutation
  pub has_versionstamp : Bool

abbrev pub no_writes : Pending
no_writes = record { log = []; has_versionstamp = false }

-- How the database answers one attempt: a commit at a versionstamp, which the client may then fail
-- to read; a refusal after which `on_error` gives a new transaction; or a fatal error.
pub data Outcome : Type 0 where
  committed : (stamp : Bytes) → (stamp_error : Option Bytes) → Outcome
  retry : Outcome
  failed : Bytes → Outcome

-- The arms of `match &req.check` on the value that was read.
abbrev pub passes : TriStateCheck Bytes → Option Bytes → Bool
passes any v = true
passes absent none = true
passes absent (some v) = false
passes (value x) none = false
passes (value x) (some v) = eqb v x

-- Where the ten zeros are the place of the versionstamp.
unfoldable pub versionstamped_target : Bytes → Bytes
versionstamped_target key = key ++ 0x32 ∷ (zeros 10 ++ le32 ((length key % 2 ^ 32 + 1) % 2 ^ 32))

-- The arms of `match &req.set`.
unfoldable pub apply_set : TriStateSet Bytes → Bytes → Pending → Pending
unfolding versionstamped_target
apply_set preserve key p = p
apply_set delete key p = record p { log = clear_key key ∷ p.log }
apply_set (value x) key p = record p { log = set_key key x ∷ p.log }
apply_set (with_versionstamped_key x) key p = record {
  log = versionstamped_key (versionstamped_target key) x ∷ p.log;
  has_versionstamp = true;
}

module _ (f : Fdb) where
  -- One attempt: the snapshot, the errors of its reads, and what comes of the commit.
  pub record Attempt : Type 0 where
    pub store : f.Store
    pub read_error : Bytes → Option Bytes
    pub outcome : Outcome

  abbrev read_or : Option Bytes → Option Bytes → Result (Option Bytes)
  read_or (some e) v = err e
  read_or none v = ok v

  -- `txn.get(&key, false).await?`
  unfoldable pub txn_get : Attempt → List Mutation → Bytes → Result (Option Bytes)
  txn_get a log key = read_or (a.read_error key) (f.get a.store log key)

  -- `any` reads nothing.
  unfoldable pub run_check : Attempt → TriStateCheck Bytes → Bytes → Pending → Result Bool
  unfolding txn_get
  run_check a any key p = ok true
  run_check a c key p = do v ← txn_get a p.log key; ok (passes c v)

  -- The `for req in &self.keys` loop: `none` is the early return of a failed check.
  unfoldable pub cas_keys :
      Attempt → (Bytes → Bytes) → List CasKey → Pending → Result (Option Pending)
  unfolding run_check apply_set
  cas_keys a pack [] p = ok (some p)
  cas_keys a pack (req ∷ reqs) p =
      let rest = cas_keys a pack reqs (apply_set req.set (pack req.key) p) in
      run_check a req.check (pack req.key) p >>= λ passed. if passed then rest else ok none

  abbrev pub not_done : CasResponse
  not_done = record { done = false; committed = none }

  abbrev pub done_with : Option Bytes → CasResponse
  done_with v = record { done = true; committed = some (record { versionstamp = v }) }

  -- `base64` is that of the crate.
  abbrev pub stamped : (Bytes → Bytes) → Bool → Bytes → Option Bytes → Result CasResponse
  stamped base64 false v e = ok (done_with none)
  stamped base64 true v none = ok (done_with (some (base64 v)))
  stamped base64 true v (some e) = err (codes "failed to get versionstamp")

  -- What the client is answered, and the store that a commit left.
  pub record Answer : Type 0 where
    pub reply : Result CasResponse
    pub written : Option f.Store

  -- The end of one attempt; `none` where the loop goes round again.
  unfoldable pub cas_finish : (Bytes → Bytes) → Attempt → Pending → Option Answer
  cas_finish base64 a p = elim a.outcome [
    | committed v e ↦ some (record {
      reply = stamped base64 p.has_versionstamp v e;
      written = some (f.commit a.store p.log v);
    })
    | retry ↦ none
    | failed e ↦
        some (record {
          reply = err (codes "KvCompareAndSetManyRequest commit failed");
          written = none;
        })
  ]

  abbrev pub or_else : Option Answer → Option Answer → Option Answer
  or_else none again = again
  or_else (some r) again = some r

  -- What follows the loop over the keys.
  unfoldable pub cas_conclude : (Bytes → Bytes) → Attempt → Result (Option Pending) → Option Answer
  unfolding cas_finish
  cas_conclude base64 a (err e) = some (record { reply = err e; written = none })
  cas_conclude base64 a (ok none) = some (record { reply = ok not_done; written = none })
  cas_conclude base64 a (ok (some p)) = cas_finish base64 a p

  unfoldable pub cas_attempt :
      (Bytes → Bytes) → (Bytes → Bytes) → List CasKey → Attempt → Option Answer
  unfolding cas_keys cas_conclude
  cas_attempt pack base64 keys a = cas_conclude base64 a (cas_keys a pack keys no_writes)

  -- The outer `loop` over the attempts that the database grants; `none` while it still retries.
  unfoldable pub cas_loop :
      (Bytes → Bytes) → (Bytes → Bytes) → List CasKey → List Attempt → Option Answer
  cas_loop pack base64 keys [] = none
  cas_loop pack base64 keys (a ∷ rest) =
      or_else (cas_attempt pack base64 keys a) (cas_loop pack base64 keys rest)

  -- `KvCompareAndSetManyRequest::handle`. `connect` is `create_trx` of a cluster, with the attempts
  -- that its database then grants.
  unfoldable pub cas_handle :
      Option (Table MdsClusterConfig)
      → Table KvNamespaceMetadata
      → (MdsClusterConfig → Result (List Attempt))
      → (Bytes → Bytes)
      → CasRequest
      → Result (Option Answer)
  unfolding get_mds
  cas_handle mds namespaces connect base64 req = do
    clusters ← get_mds mds
    ns ← ok_or (lookup req.namespace namespaces) (codes "namespace not found")
    cluster ← ok_or (lookup ns.shard clusters) (codes "shard not found")
    attempts ← connect cluster
    ok (cas_loop (pack_user_key f cluster ns.prefix) base64 req.keys attempts)
