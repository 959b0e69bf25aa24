-- ===== src/Tests/Mysql.antt =====
-- Values between MySQL and V8, and a transaction, with databases that keep a log.
use blueboat.Prelude.{
  ℕ, suc, ◌+◌, Bytes, codes, eqb, Bool, true, false, List, [], ◌∷◌, ◌++◌, none, some, All, Any, ◌≡◌,
  ◌≢◌, refl,
}
use blueboat.Prelude.Int.{ℤ, pos, pos_part}
use blueboat.Prelude.Table.{Table}
use blueboat.Prelude.Result.{ok}
use blueboat.Server.Metadata.{MysqlMetadata}
use blueboat.Mysql.{int, date, JsHost, uint_value, js_number, cast_value_to_js, cast_value_from_js}
use blueboat.Mysql.Casts.{ReadsTexts, read_back, cast_back}
use blueboat.Mysql.Sessions.{MysqlClient, Sessions, MysqlOptions, mysql_pools}
use blueboat.Mysql.Transactions.{IsPoolOf, mysql_pools_allowed}

-- Floats that are integers, and strings that are UTF-8.
abbrev whole : JsHost
whole = record {
  Num = ℤ;
  Str = Bytes;
  of_int = λ z. z;
  as_int = λ z. some z;
  as_u64 = pos_part;
  of_f32 = λ z. z;
  time_to_ms = λ d. ok (pos d.second);
  time_of_ms = λ n. none;
  new_from_utf8 = λ b. some b;
  write_utf8 = λ b. b;
  is_date = λ z. true;
  decimal = λ n. (b'0' + n) ∷ [];
}

whole-ReadsTexts : ReadsTexts whole (λ s. s)
whole-ReadsTexts s = refl

int_ne_date : int ≢ date
int_ne_date h = cc

cast_5 : cast_value_from_js whole (js_number (pos 5)) int ≡ ok (uint_value 5)
unfolding cast_value_from_js
cast_5 = refl

cast_back_example :
    cast_value_to_js whole (uint_value 5) int
    ≡ ok (read_back whole (λ s. s) int (js_number (pos 5)))
cast_back_example =
    cast_back whole (λ s. s) int (js_number (pos 5)) (uint_value 5) whole-ReadsTexts int_ne_date
      cast_5

-- Databases whose state is the list of what was asked of them; a transaction is its number.
abbrev logged : MysqlClient ℕ
logged = record {
  World = List Bytes;
  Pool = ℕ;
  Conn = ℕ;
  Txn = ℕ;
  Rows = Bytes;
  get_conn = λ p w. (ok p, codes "connect" ∷ w);
  start_transaction = λ p w. (ok (suc p), codes "start" ∷ w);
  commit = λ t w. (ok tt, codes "commit" ∷ w);
  rollback = λ t w. (ok tt, codes "rollback" ∷ w);
  drop_txn = λ t w. codes "drop" ∷ w;
  exec_txn = λ t stmt args w. (ok stmt, stmt ∷ w);
  exec_conn = λ c stmt args w. (ok stmt, stmt ∷ w);
}

abbrev db_sessions : Sessions logged
db_sessions = record { alive = true; pools = (codes "db", 1) ∷ []; states = []; world = [] }

abbrev two_statements : List (Bytes × Table ℕ)
two_statements = (codes "insert", []) ∷ (codes "delete", (codes "id", 4) ∷ []) ∷ []

-- Options that are the URL itself; a URL that begins with a slash names a socket.
abbrev leads : ℕ → Bytes → Bool
leads c [] = false
leads c (x ∷ xs) = eqb (x ∷ []) (c ∷ [])

abbrev url_options : MysqlOptions Bytes
url_options = record {
  Opts = Bytes;
  from_url = λ u. some u;
  has_socket = leads b'/';
  has_root_cert_path = λ u. false;
  with_root_cert_data = λ u cert. u ++ cert;
  new_pool = λ u. u;
}

abbrev two_databases : Table MysqlMetadata
two_databases =
    (codes "db", record { url = codes "mysql://h/db"; root_certificate = none })
    ∷ (codes "bad", record { url = codes "/run/mysql"; root_certificate = none })
    ∷ []

mysql_pools_allowed_example :
    All
      (λ kp. Any (IsPoolOf url_options (codes "pem") kp) two_databases)
      (mysql_pools url_options (codes "pem") two_databases)
mysql_pools_allowed_example = mysql_pools_allowed url_options (codes "pem") two_databases
