-- ===== src/Mysql/Sessions.antt =====
-- src/api/mysql.rs, and the pools of src/ctx.rs: the connections and transactions that the requests of an
-- application use, by the names of its databases. `mysql_async` is a parameter. An operation holds the
-- lock of its database to its end, so each is one step.
use blueboat.Prelude.{
  ℕ, Bytes, codes, Bool, true, false, ◌||◌, List, [], ◌∷◌, Option, none, some, and_then, eqb,
  if◌then◌else◌,
}
use blueboat.Prelude.Table.{Table, lookup, insert}
use blueboat.Prelude.Result.{Result, ok, err, ok_or, ◌>>=◌}
use blueboat.Server.Metadata.{MysqlMetadata}
use blueboat.Mysql.{ValueSpec, from_u8, JsHost, Value, JsValue, cast_value_from_js}

-- The spec of a result: one letter for each column.
unfoldable pub parse_spec : Bytes → Option (List ValueSpec)
parse_spec [] = some []
parse_spec (b ∷ bs) =
    and_then (from_u8 b) (λ spec. and_then (parse_spec bs) (λ specs. some (spec ∷ specs)))

abbrev pub first_byte : Bytes → Option ℕ
first_byte [] = none
first_byte (b ∷ bs) = some b

module _ (js : JsHost) where
  -- One argument of a statement: its name, the text of its type, and its value.
  abbrev pub cast_arg : Bytes → JsValue js → Result (Value js)
  cast_arg spec v =
      ok_or (first_byte spec) (codes "bad query parameter")
      >>= (λ b. ok_or (from_u8 b) (codes "bad spec") >>= (λ s. cast_value_from_js js v s))

  -- The loop that fills `arg_map`.
  unfoldable pub cast_args :
      Table (Value js) → List (Bytes × Bytes × JsValue js) → Result (Table (Value js))
  cast_args arg_map [] = ok arg_map
  cast_args arg_map ((k, spec, v) ∷ rest) =
      cast_arg spec v >>= (λ x. cast_args (insert k x arg_map) rest)

-- `Params::Empty`, or named ones.
abbrev pub params_of : {V : Type 0} → Table V → Option (Table V)
params_of [] = none
params_of (arg ∷ args) = some (arg ∷ args)

-- `mysql_async`: the state of the databases is `World`. A statement, with its parameters if there are any,
-- gives its rows once they are read to their end.
pub record MysqlClient (V : Type 0) : Type 1 where
  pub World : Type 0
  pub Pool : Type 0
  pub Conn : Type 0
  pub Txn : Type 0
  pub Rows : Type 0
  pub get_conn : Pool → World → Result Conn × World
  pub start_transaction : Pool → World → Result Txn × World
  pub commit : Txn → World → Result (Unit {0}) × World
  pub rollback : Txn → World → Result (Unit {0}) × World
  -- A transaction that is dropped is rolled back.
  pub drop_txn : Txn → World → World
  pub exec_txn : Txn → Bytes → Option (Table V) → World → Result Rows × World
  pub exec_conn : Conn → Bytes → Option (Table V) → World → Result Rows × World

module _ {V : Type 0} (my : MysqlClient V) where
  open my use {
    World, Pool, Conn, Txn, Rows, get_conn, start_transaction, commit, rollback, drop_txn, exec_txn,
    exec_conn,
  }

  pub record ExecutorMysqlState : Type 0 where
    pub conn : Option Conn
    pub txn : Option Txn
    pub pool : Pool

  -- The executor's `mysql` and its context's, and the databases.
  pub record Sessions : Type 0 where
    pub alive : Bool
    pub pools : Table Pool
    pub states : Table ExecutorMysqlState
    pub world : World

  abbrev pub put_state : Bytes → ExecutorMysqlState → Sessions → Sessions
  put_state k x s = record s { states = insert k x s.states }

  abbrev pub fresh_state : Pool → ExecutorMysqlState
  fresh_state p = record { conn = none; txn = none; pool = p }

  abbrev pub no_such_conn : Bytes
  no_such_conn = codes "no such mysql connection"

  abbrev pub or_fresh : Option ExecutorMysqlState → Option Pool → Result ExecutorMysqlState
  or_fresh (some x) p = ok x
  or_fresh none (some p) = ok (fresh_state p)
  or_fresh none none = err no_such_conn

  -- The state of a database; a new one stays in the map by the `put_state` of the operation.
  unfoldable pub get_mysql_state : Bytes → Sessions → Result ExecutorMysqlState
  get_mysql_state k s =
      if s.alive then or_fresh (lookup k s.states) (lookup k s.pools) else err no_such_conn

  -- `ensure_conn`.
  abbrev pub with_new :
      ExecutorMysqlState → Result Conn × World → Result Conn × ExecutorMysqlState × World
  with_new x (err e, w) = (err e, x, w)
  with_new x (ok c, w) = (ok c, record x { conn = some c }, w)

  abbrev pub ensure :
      Option Conn → ExecutorMysqlState → World → Result Conn × ExecutorMysqlState × World
  ensure (some c) x w = (ok c, x, w)
  ensure none x w = with_new x (get_conn x.pool w)

  abbrev pub exec_on :
      Bytes
      → Option (Table V)
      → Result Conn × ExecutorMysqlState × World
      → Result Rows × ExecutorMysqlState × World
  exec_on stmt args (err e, x, w) = (err e, x, w)
  exec_on stmt args (ok c, x, w) = let (r, w') = exec_conn c stmt args w in (r, x, w')

  abbrev pub exec_in :
      Bytes
      → Option (Table V)
      → Option Txn
      → ExecutorMysqlState
      → World
      → Result Rows × ExecutorMysqlState × World
  exec_in stmt args (some t) x w = let (r, w') = exec_txn t stmt args w in (r, x, w')
  exec_in stmt args none x w = exec_on stmt args (ensure x.conn x w)

  abbrev pub stored :
      {A : Type 0} → Bytes → Sessions → A × ExecutorMysqlState × World → A × Sessions
  stored k s (r, x, w) = (r, record s { states = insert k x s.states; world = w })

  abbrev pub ran :
      Bytes
      → Bytes
      → Option (Table V)
      → Sessions
      → Result ExecutorMysqlState
      → Result Rows × Sessions
  ran k stmt args s (err e) = (err e, s)
  ran k stmt args s (ok x) = stored k s (exec_in stmt args x.txn x s.world)

  unfoldable pub run_mysql : Bytes → Bytes → Table V → Sessions → Result Rows × Sessions
  unfolding get_mysql_state
  run_mysql k stmt args s = ran k stmt (params_of args) s (get_mysql_state k s)

  abbrev pub drop_old : Option Txn → World → World
  drop_old none w = w
  drop_old (some t) w = drop_txn t w

  -- The assignment drops the transaction that was there.
  abbrev pub started :
      ExecutorMysqlState → Result Txn × World → Result (Unit {0}) × ExecutorMysqlState × World
  started x (err e, w) = (err e, x, w)
  started x (ok t, w) = (ok tt, record x { txn = some t }, drop_old x.txn w)

  abbrev pub start_in : Bytes → Sessions → Result ExecutorMysqlState → Result (Unit {0}) × Sessions
  start_in k s (err e) = (err e, s)
  start_in k s (ok x) = stored k s (started x (start_transaction x.pool s.world))

  unfoldable pub api_mysql_start_transaction : Bytes → Sessions → Result (Unit {0}) × Sessions
  unfolding get_mysql_state
  api_mysql_start_transaction k s = start_in k s (get_mysql_state k s)

  abbrev pub finish : Bool → Txn → World → Result (Unit {0}) × World
  finish true t w = commit t w
  finish false t w = rollback t w

  -- `x.txn.take()`.
  abbrev pub ended :
      Bool
      → Option Txn
      → ExecutorMysqlState
      → World
      → Result (Unit {0}) × ExecutorMysqlState × World
  ended commits none x w = (ok tt, x, w)
  ended commits (some t) x w = let (r, w') = finish commits t w in (r, record x { txn = none }, w')

  abbrev pub end_in :
      Bytes → Bool → Sessions → Result ExecutorMysqlState → Result (Unit {0}) × Sessions
  end_in k commits s (err e) = (err e, s)
  end_in k commits s (ok x) = stored k s (ended commits x.txn x s.world)

  unfoldable pub api_mysql_end_transaction : Bytes → Bool → Sessions → Result (Unit {0}) × Sessions
  unfolding get_mysql_state
  api_mysql_end_transaction k commits s = end_in k commits s (get_mysql_state k s)

-- `mysql_async::Opts`, and what `BlueboatCtx::init` asks of it.
pub record MysqlOptions (Pool : Type 0) : Type 1 where
  pub Opts : Type 0
  pub from_url : Bytes → Option Opts
  pub has_socket : Opts → Bool
  pub has_root_cert_path : Opts → Bool
  pub with_root_cert_data : Opts → Bytes → Opts
  pub new_pool : Opts → Pool

module _ {Pool : Type 0} (o : MysqlOptions Pool) (cacert_pem : Bytes) where
  open o use {Opts, from_url, has_socket, has_root_cert_path, with_root_cert_data, new_pool}

  -- A certificate of the configuration; `default` is the built-in list.
  abbrev pub with_certificate : Option Bytes → Opts → Opts
  with_certificate none opts = opts
  with_certificate (some cert) opts =
      if eqb cert (codes "default")
      then with_root_cert_data opts cacert_pem
      else with_root_cert_data opts cert

  abbrev pub pool_of : MysqlMetadata → Option Opts → Option Pool
  pool_of v none = none
  pool_of v (some opts) =
      if has_socket opts || has_root_cert_path opts
      then none
      else some (new_pool (with_certificate v.root_certificate opts))

  abbrev pub add_pool : Bytes → Option Pool → Table Pool → Table Pool
  add_pool k none t = t
  add_pool k (some p) t = (k, p) ∷ t

  -- The pools of an application, by the names of its databases.
  unfoldable pub mysql_pools : Table MysqlMetadata → Table Pool
  mysql_pools [] = []
  mysql_pools ((k, v) ∷ r) = add_pool k (pool_of v (from_url v.url)) (mysql_pools r)
