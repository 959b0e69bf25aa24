-- ===== src/Tests/Server.antt =====
-- The server at concrete requests and messages.
use blueboat.Prelude.{
  ℕ, ◌+◌, ◌≤◌, ◌<◌, Bytes, codes, Bool, true, false, List, [], ◌∷◌, ◌++◌, none, some, eqb, ◌≡◌, ◌≢◌,
  refl, strip_prefix,
}
use blueboat.Prelude.Ascii.{trim}
use blueboat.Prelude.Table.{lookup, remove}
use blueboat.Prelude.Result.{ok, err}
use blueboat.Mds.{MdsClusterConfig}
use blueboat.Mds.Config.{IsPrintable}
use blueboat.Server.Watermark.{
  MemoryWatermark, normal, high, critical, rank, Says, next_watermark, min_gap_kb,
  watermark_hysteresis,
}
use blueboat.Server.Headers.{
  Headers, HttpResponse, Lookups, is_reserved, starts_with, client_headers, hdr_req_client_city,
}
use blueboat.Server.Headers.Trust.{client_headers_trusted}
use blueboat.Server.Metadata.{
  Metadata, single_tenant, Sources, decode_namespaces, load_md, load_md_with_cache, PackageKey,
  Workers, Incoming, generic_invoke,
}
use blueboat.Server.Metadata.Cache.{IsCache, IsLoaded, load_md_with_cache-IsCache}
use blueboat.Ipc.{HyperHeaders}
use blueboat.Server.Background.{
  BackgroundEntry, background, LpState, lp_start, issue_lp, completed, background_request_id,
  run_background_entry,
}
use blueboat.Server.Background.Permits.{
  LpReaches, starts, steps, issues, IsBounded, issue_lp-IsBounded,
}
use blueboat.Server.Background.Entries.{IsAnswered, background_version}

abbrev ten : ℕ
ten = 10

abbrev high_kb : ℕ
high_kb = 200000

watermark_hysteresis_example :
    let next : MemoryWatermark = next_watermark ten high_kb (some critical) 50 in
    (wm : MemoryWatermark) × Says ten high_kb 50 wm
    × (rank wm ≤ rank next)
    × (rank critical ≤ rank wm → next ≡ wm)
    × (next ≢ wm → next ≡ critical)
    × (rank next < rank critical
        → (next ≡ high → ten + min_gap_kb ≤ 50) × (next ≡ normal → high_kb + min_gap_kb ≤ 50))
watermark_hysteresis_example = watermark_hysteresis 10 200000 50 critical

abbrev spoofed : Headers
spoofed = (hdr_req_client_city, codes "Nowhere" ∷ []) ∷ (codes "accept", codes "*/*" ∷ []) ∷ []

abbrev any_valid : Bytes → Bool
any_valid v = true

abbrev digits : ℕ → Bytes
digits n = (b'0' + n) ∷ []

-- Every address is in one city, and the blocklist is not open.
abbrev one_city : Lookups any_valid digits
one_city = record {
  IpAddr = Bytes;
  parse_ip = some;
  mmdb_city = some (λ ip.
      some (record { country = some (codes "XX"); subdivisions = []; name = some (codes "City") }));
  wpbl_db = none;
}

client_city_reserved : is_reserved hdr_req_client_city ≡ true
unfolding is_reserved starts_with strip_prefix eqb
client_city_reserved = refl

client_headers_trusted_example :
    lookup hdr_req_client_city
      (client_headers any_valid digits one_city (some (codes "1.2.3.4")) spoofed)
    ≡ lookup hdr_req_client_city
        (client_headers any_valid digits one_city (some (codes "1.2.3.4")) [])
client_headers_trusted_example =
    client_headers_trusted any_valid digits one_city (some (codes "1.2.3.4")) hdr_req_client_city
      spoofed [] client_city_reserved

abbrev app_key : PackageKey
app_key = record { path = codes "app"; version = codes "v1" }

abbrev task : BackgroundEntry
task = record { app = app_key; request_id = codes "u:1+bg-0"; wire_bytes = []; same_version = true }

abbrev one_running : LpState ℕ
one_running = record { bg_permit = 499; running = task ∷ []; fail_count = 0; written = [] }

one_running-LpReaches : LpReaches true one_running
unfolding issue_lp
one_running-LpReaches = steps lp_start one_running starts (issues lp_start (background task))

issue_lp-IsBounded_example : IsBounded one_running (issue_lp true one_running (background task))
issue_lp-IsBounded_example = issue_lp-IsBounded true one_running task one_running-LpReaches

abbrev app_md : Metadata
app_md = record {
  path = codes "app";
  version = codes "v1";
  package_key = codes "app.tar";
  env = [];
  mysql = [];
  apns = [];
  kv_namespaces = [];
  pubsub = [];
}

abbrev sources : Sources
sources = record {
  decode_hex = λ x. some x;
  parse_uuid = λ x. none;
  get_object = λ k. err (codes "no such key");
  parse_metadata = λ b. err (codes "no metadata");
}

-- Workers that echo their request's id.
abbrev workers : Workers Bytes
workers = record {
  Worker = PackageKey;
  get_worker = λ k md. ok k;
  invoke = λ k req. ok (record { response = record { status = 200; headers = [] }; body = req.id });
}

empty-IsCache : IsCache sources (single_tenant app_md) []
unfolding lookup
empty-IsCache path md h = cc

load_md_with_cache-IsCache_example :
    IsCache sources
      (single_tenant app_md)
      (load_md_with_cache sources (single_tenant app_md) [] (codes "app")).1
    × ((dropped : Bytes) → IsCache sources (single_tenant app_md) (remove dropped []))
    × ((md : Metadata)
        → (load_md_with_cache sources (single_tenant app_md) [] (codes "app")).0 ≡ ok md
        → IsLoaded sources (single_tenant app_md) (codes "app") md)
load_md_with_cache-IsCache_example =
    load_md_with_cache-IsCache sources (single_tenant app_md) [] (codes "app") empty-IsCache

abbrev pairs : HyperHeaders
pairs = record {
  Map = List (Bytes × Bytes);
  empty = [];
  append = λ m k v. m ++ (k, v) ∷ [];
  iter = λ m. m;
  header_name = λ k. some k;
  header_value = λ v. some v;
}

abbrev incoming : Incoming workers
incoming = record {
  hyper = pairs;
  status_code = λ n. ok n;
  to_str = some;
  valid = any_valid;
  fresh = codes "u:2";
  path = codes "/";
  read_body = λ hs. ok [];
  sse = λ id hs md. err (codes "sse");
  latency = codes "0.10";
}

abbrev incoming_answer : HttpResponse
incoming_answer = record {
  status = 200;
  headers =
      (codes "x-blueboat-handle-latency", codes "0.10" ∷ [])
      ∷ (codes "x-blueboat-request-id", codes "u:2" ∷ [])
      ∷ [];
  body = codes "u:2";
}

task_run :
    (run_background_entry workers sources
      (single_tenant app_md)
      (λ b. b)
      false
      (codes "x")
      []
      task).0
    ≡ completed
unfolding run_background_entry load_md_with_cache load_md decode_namespaces generic_invoke lookup
    eqb
task_run = refl

background_version_example :
    (md : Metadata) × ((load_md_with_cache sources (single_tenant app_md) [] (codes "app")).0
      ≡ ok md)
    × IsAnswered workers
        (record { v = []; id = background_request_id (codes "u:1+bg-0") (codes "x") })
        md
        (codes "v1")
background_version_example =
    background_version workers sources (single_tenant app_md) (λ b. b) false (codes "x") [] task
      refl task_run

abbrev cluster_east : Bytes × MdsClusterConfig
cluster_east = (codes "east", record { path = codes "/etc/east"; prefix = codes "p" })

cluster_east-IsPrintable : IsPrintable cluster_east
unfolding trim
cluster_east-IsPrintable = record {
  no_comma = (
    refl,
    (
      refl,
      (
        refl,
        (
          refl,
          (
            refl,
            (
              refl,
              (refl, (refl, (refl, (refl, (refl, (refl, (refl, (refl, (refl, (refl, tt)))))))))),
            ),
          ),
        ),
      ),
    ),
  );
  no_spaces = refl;
  name_ends = (refl, (refl, (refl, (refl, tt))));
  path_ends = (refl, (refl, (refl, (refl, (refl, (refl, (refl, (refl, (refl, tt)))))))));
}
