-- ===== src/LogService.antt =====
-- src/logsvc.rs: the log service, its Kafka target, what it writes, and the fields of an event. The
-- Kafka client, the serializer and the clock are parameters.
pub mod Target
pub mod Fields
use blueboat.Prelude.{
  ℕ, suc, ◌+◌, ◌%◌, ◌^◌, Bytes, codes, eqb, Bool, true, false, not, ◌&&◌, ◌||◌, List, [], ◌∷◌, ◌++◌,
  Option, none, some, leb, ◌==◌, and_then, if◌then◌else◌, split_once, strip_prefix, nonempty, drop,
}
use blueboat.Prelude.Table.{Table, insert}
use blueboat.Prelude.Ascii.{digits_value}
use blueboat.Prelude.Result.{Result, ok, err, ok_or, ◌>>=◌}
use blueboat.Server.Background.{AppLogEntry}

-- `[a-zA-Z0-9._-]`, `[0-9]` and `.` of KAFKA_CONFIG_MATCHER, on the bytes of a text.
abbrev pub is_topic_char : ℕ → Bool
is_topic_char c =
    (leb b'a' c && leb c b'z')
    || ((leb b'A' c && leb c b'Z')
        || ((leb b'0' c && leb c b'9') || ((c == b'.') || ((c == b'_') || (c == b'-')))))

abbrev pub is_digit : ℕ → Bool
is_digit c = leb b'0' c && leb c b'9'

abbrev pub is_no_newline : ℕ → Bool
is_no_newline c = not (c == 10)

abbrev pub all_of : (ℕ → Bool) → Bytes → Bool
all_of p [] = true
all_of p (c ∷ cs) = p c && all_of p cs

-- `p+` on a whole text.
abbrev pub some_of : (ℕ → Bool) → Bytes → Bool
some_of p s = nonempty s && all_of p s

abbrev pub captured : Bytes → Bytes × Bytes → Option (Bytes × Bytes × Bytes)
captured topic (partition, servers) =
    if some_of is_digit partition && some_of is_no_newline servers
    then some (topic, partition, servers)
    else none

abbrev pub after_topic : Bytes × Bytes → Option (Bytes × Bytes × Bytes)
after_topic (topic, rest) =
    if some_of is_topic_char topic then and_then (split_once b'@' rest) (captured topic) else none

-- The captures of `^([a-zA-Z0-9._-]+):([0-9]+)@(.+)$`: the first two groups cannot hold the separator
-- that ends them.
unfoldable pub captures : Bytes → Option (Bytes × Bytes × Bytes)
captures s = and_then (split_once b':' s) after_topic

-- `Producer` is `FutureProducer`.
pub record LogServiceInner (Producer : Type 0) : Type 0 where
  pub producer : Producer
  pub topic : Bytes
  pub partition : ℕ
  pub hostname : Bytes
  pub pid : ℕ

abbrev pub opened :
    {Producer : Type 0}
    → (Bytes → Result Producer)
    → Bytes
    → ℕ
    → Bytes × Bytes × Bytes
    → Result (LogServiceInner Producer)
opened create hostname pid (topic, partition, servers) =
    ok_or (digits_value (2 ^ 31) 0 partition) (codes "number too large to fit in target type")
    >>= (λ p. create servers >>= (λ producer. ok (record {
      producer = producer;
      topic = topic;
      partition = p;
      hostname = hostname;
      pid = pid;
    })))

-- `create` makes the client for a list of servers, or fails; `hostname` is the host's name or the
-- made-up one.
unfoldable pub open_service :
    {Producer : Type 0}
    → (Bytes → Result Producer)
    → Bytes
    → ℕ
    → Bytes
    → Result (LogServiceInner Producer)
unfolding captures
open_service create hostname pid s =
    ok_or (captures s) (codes "invalid kafka config string") >>= opened create hostname pid

-- What has been handed to the producer, and what was printed on the standard error stream.
pub record LogOutput : Type 0 where
  pub sent : List (Bytes × ℕ × Bytes)
  pub stderr : List Bytes

-- `NEXT_TID.fetch_add`: a thread's first use of UNIQUE_TID.
unfoldable pub next_tid : ℕ → ℕ × ℕ
next_tid counter = (counter, (counter + 1) % 2 ^ 64)

pub record Payload (Json : Type 0) : Type 0 where
  pub host : Bytes
  pub pid : ℕ
  pub tid : ℕ
  pub ts : ℕ
  pub name : Bytes
  pub target : Bytes
  pub level : Bytes
  pub module_path : Bytes
  pub file : Bytes
  pub line : ℕ
  pub fields : Table Json
  pub span_id : Option ℕ

-- `tracing::Metadata` of a span or an event.
pub record CallSite : Type 0 where
  pub name : Bytes
  pub target : Bytes
  pub level : Bytes
  pub module_path : Option Bytes
  pub file : Option Bytes
  pub line : Option ℕ

abbrev pub unwrap_or : {A : Type 0} → A → Option A → A
unwrap_or a none = a
unwrap_or a (some b) = b

-- The values of a field as `tracing` visits them: `debug` is `{:?}` of the value.
pub data Visit (Json : Type 0) : Type 0 where
  typed : Bytes → Json → Visit Json
  debug : Bytes → Json → Visit Json

-- `record_debug`: fields of the log crate are skipped, and raw identifiers lose their prefix.
abbrev pub debug_name : Bytes → Option Bytes
debug_name name = elim (strip_prefix (codes "log.") name) [
  | some rest ↦ none
  | none ↦ some (unwrap_or name (strip_prefix (codes "r#") name))
]

module _ {Json : Type 0} where
  abbrev pub recorded : Option Bytes → Json → Table Json → Table Json
  recorded none v fields = fields
  recorded (some name) v fields = insert name v fields

  -- `record_f64` and the other typed visits insert under the name of the field.
  abbrev pub visit : Visit Json → Table Json → Table Json
  visit (typed name v) fields = insert name v fields
  visit (debug name v) fields = recorded (debug_name name) v fields

  unfoldable pub visit_all : List (Visit Json) → Table Json → Table Json
  visit_all [] fields = fields
  visit_all (x ∷ xs) fields = visit_all xs (visit x fields)

-- What a subscriber is told.
pub data LayerEvent (Json : Type 0) : Type 0 where
  on_new_span : CallSite → List (Visit Json) → ℕ → LayerEvent Json
  on_enter : ℕ → LayerEvent Json
  on_exit : ℕ → LayerEvent Json
  on_close : ℕ → LayerEvent Json
  on_event : CallSite → List (Visit Json) → LayerEvent Json

abbrev pub is_loud : Bytes → Bool
is_loud level = not (eqb level []) && not (eqb level (codes "INFO"))

abbrev pub printed : Bytes → LogOutput → LogOutput
printed line out = record { sent = out.sent; stderr = out.stderr ++ line ∷ [] }

module _ {Producer : Type 0} (inner : LogServiceInner Producer) where
  abbrev pub span_payload : {Json : Type 0} → Bytes → ℕ → ℕ → ℕ → Payload Json
  span_payload name tid ts id = record {
    host = inner.hostname;
    pid = inner.pid;
    tid = tid;
    ts = ts;
    name = name;
    target = [];
    level = [];
    module_path = [];
    file = [];
    line = 0;
    fields = [];
    span_id = some id;
  }

  abbrev pub site_payload :
      {Json : Type 0} → Bytes → CallSite → List (Visit Json) → Option ℕ → ℕ → ℕ → Payload Json
  site_payload name md attrs span_id tid ts = record {
    host = inner.hostname;
    pid = inner.pid;
    tid = tid;
    ts = ts;
    name = name;
    target = md.target;
    level = md.level;
    module_path = unwrap_or [] md.module_path;
    file = unwrap_or [] md.file;
    line = unwrap_or 0 md.line;
    fields = visit_all attrs [];
    span_id = span_id;
  }

  unfoldable pub payload_of : {Json : Type 0} → LayerEvent Json → ℕ → ℕ → Payload Json
  unfolding visit_all
  payload_of (on_new_span md attrs id) tid ts =
      site_payload (codes "new span: " ++ md.name) md attrs (some id) tid ts
  payload_of (on_enter id) tid ts = span_payload (codes "enter span") tid ts id
  payload_of (on_exit id) tid ts = span_payload (codes "exit span") tid ts id
  payload_of (on_close id) tid ts = span_payload (codes "close span") tid ts id
  payload_of (on_event md attrs) tid ts = site_payload md.name md attrs none tid ts

  -- `send_result`: `failure` is the line that is printed where the client refuses the record.
  abbrev pub write : Option Bytes → Bytes → LogOutput → LogOutput
  write none entry out = record {
    sent = out.sent ++ (inner.topic, inner.partition, entry) ∷ [];
    stderr = out.stderr;
  }
  write (some failure) entry out = record { sent = out.sent; stderr = out.stderr ++ failure ∷ [] }

  abbrev pub syslog_line : Option Bytes → Bytes → Result Bytes → LogOutput → LogOutput
  syslog_line failure level (err e) out =
      printed (codes "[syslog] failed to serialize log entry: " ++ e) out
  syslog_line failure level (ok x) out =
      write failure x (if is_loud level then printed x out else out)

  unfoldable pub emit_syslog :
      {Json : Type 0}
      → (Payload Json → Result Bytes)
      → Option Bytes
      → Payload Json
      → LogOutput
      → LogOutput
  emit_syslog to_string failure payload out =
      syslog_line failure payload.level (to_string payload) out

  abbrev pub applog_line : Option Bytes → Result Bytes → LogOutput → LogOutput
  applog_line failure (err e) out =
      printed (codes "[applog] failed to serialize log entry: " ++ e) out
  applog_line failure (ok x) out = write failure x out

  unfoldable pub write_applog :
      {Time : Type 0}
      → (AppLogEntry Time → Result Bytes)
      → Option Bytes
      → AppLogEntry Time
      → LogOutput
      → LogOutput
  write_applog to_string failure entry out = applog_line failure (to_string entry) out
