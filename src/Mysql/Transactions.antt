-- ===== src/Mysql/Transactions.antt =====
-- What an application sees of transactions, against a specification with one transaction at a time.
use blueboat.Prelude.{
  Bytes, eqb, Bool, true, false, List, [], ◌∷◌, Option, none, some, some_inj, ◌||◌, All, Any, inl,
  inr, ◌≡◌, refl, sym, if◌then◌else◌,
}
use blueboat.Prelude.Table.{Table, lookup}
use blueboat.Prelude.Result.{Result, err}
use blueboat.Server.Metadata.{MysqlMetadata}
use blueboat.Mysql.Sessions.{
  MysqlClient, params_of, ExecutorMysqlState, Sessions, or_fresh, run_mysql,
  api_mysql_start_transaction, api_mysql_end_transaction, MysqlOptions, pool_of, add_pool,
  mysql_pools, with_certificate,
}

module _ {V : Type 0} (my : MysqlClient V) where
  open my use {World, Pool, Conn, Txn, Rows, exec_txn}

  abbrev pub Statement : Type 0
  Statement = Bytes × Table V

  -- Statements one after another, as the application awaits each.
  abbrev pub run_all : Bytes → List Statement → Sessions my → List (Result Rows) × Sessions my
  run_all k [] s = ([], s)
  run_all k ((stmt, args) ∷ rest) s =
      let (r, s') = run_mysql my k stmt args s in let (rs, s'') = run_all k rest s' in (r ∷ rs, s'')

  -- The specification: statements on one transaction, each with its named arguments, or with no
  -- parameters where it has none.
  abbrev pub exec_all : Txn → List Statement → World → List (Result Rows) × World
  exec_all t [] w = ([], w)
  exec_all t ((stmt, args) ∷ rest) w =
      let (r, w') = exec_txn t stmt (params_of args) w in
      let (rs, w'') = exec_all t rest w' in (r ∷ rs, w'')

  -- An executor that has the transaction open on the database `k`.
  pub record IsOpen (k : Bytes) (t : Txn) (s : Sessions my) : Type 0 where
    pub alive : s.alive ≡ true
    pub state : ExecutorMysqlState my
    pub stands : lookup k s.states ≡ some state
    pub holds : state.txn ≡ some t

  got : Bytes → Bool → Option (ExecutorMysqlState my) → Option Pool → Result (ExecutorMysqlState my)
  got m b l p = if b then or_fresh my l p else err m

  -- The same executor, whose other databases are as they were.
  pub record Others (k : Bytes) (s s' : Sessions my) : Type 0 where
    pub same_alive : s'.alive ≡ s.alive
    pub same_pools : s'.pools ≡ s.pools
    pub same_states : (j : Bytes) → eqb k j ≡ false → lookup j s'.states ≡ lookup j s.states

  -- A transaction of an application: its start, its statements, its commit or rollback.
  abbrev pub transact :
      Bytes
      → List Statement
      → Bool
      → Sessions my
      → Result (Unit {0}) × List (Result Rows) × Result (Unit {0}) × Sessions my
  transact k stmts commits s =
      let (a, s₁) = api_mysql_start_transaction my k s in
      let (rs, s₂) = run_all k stmts s₁ in
      let (b, s₃) = api_mysql_end_transaction my k commits s₂ in (a, rs, b, s₃)

module _ {Pool : Type 0} (o : MysqlOptions Pool) (cacert_pem : Bytes) where
  open o use {Opts, from_url, has_socket, has_root_cert_path, new_pool}

  -- A pool for an entry of the metadata whose options are allowed.
  abbrev pub IsPoolOf : Bytes × Pool → Bytes × MysqlMetadata → Type 0
  IsPoolOf (k, p) (j, v) =
      (j ≡ k)
      × (opts : Opts) × (from_url v.url ≡ some opts)
      × (has_socket opts ≡ false)
      × (has_root_cert_path opts ≡ false)
      × (p ≡ new_pool (with_certificate o cacert_pem v.root_certificate opts))

  pool_of_allowed :
      (k : Bytes) (v : MysqlMetadata) (f : Option Opts) (p : Pool)
      → from_url v.url ≡ f
      → pool_of o cacert_pem v f ≡ some p
      → IsPoolOf (k, p) (k, v)
  pool_of_allowed k v none p e h = cc
  pool_of_allowed k v (some opts) p e h =
      let (sock, cert, same) = tests (has_socket opts) (has_root_cert_path opts) h in
      (refl, opts, e, sock, cert, same)
    where
      tests :
          (a b : Bool)
          → (if a || b
              then none
              else some (new_pool (with_certificate o cacert_pem v.root_certificate opts)))
            ≡ some p
          → (a ≡ false)
            × (b ≡ false)
            × (p ≡ new_pool (with_certificate o cacert_pem v.root_certificate opts))
      tests true b h = cc
      tests false true h = cc
      tests false false h = (refl, refl, sym (some_inj h))

  Any-later :
      (e : Bytes × MysqlMetadata) (md : Table MysqlMetadata) (ps : Table Pool)
      → All (λ kp. Any (IsPoolOf kp) md) ps
      → All (λ kp. Any (IsPoolOf kp) (e ∷ md)) ps
  Any-later e md [] a = tt
  Any-later e md (q ∷ ps) a = (inr a.0, Any-later e md ps a.1)

  -- Every pool that an application can use is that of an entry of its metadata under the same name,
  -- whose URL names neither a socket nor a certificate file of the host.
  pub mysql_pools_allowed :
      (md : Table MysqlMetadata) → All (λ kp. Any (IsPoolOf kp) md) (mysql_pools o cacert_pem md)
  unfolding mysql_pools
  mysql_pools_allowed [] = tt
  mysql_pools_allowed ((k, v) ∷ md) =
      added (pool_of o cacert_pem v (from_url v.url)) refl (mysql_pools_allowed md)
    where
      added :
          (f : Option Pool)
          → pool_of o cacert_pem v (from_url v.url) ≡ f
          → All (λ kp. Any (IsPoolOf kp) md) (mysql_pools o cacert_pem md)
          → All
              (λ kp. Any (IsPoolOf kp) ((k, v) ∷ md))
              (add_pool o cacert_pem k f (mysql_pools o cacert_pem md))
      added none e a = Any-later (k, v) md (mysql_pools o cacert_pem md) a
      added (some p) e a = (
        inl (pool_of_allowed k v (from_url v.url) p refl e),
        Any-later (k, v) md (mysql_pools o cacert_pem md) a,
      )
