-- ===== src/Server/Metadata.antt =====
-- src/server.rs: from a metadata path to the answer of an application's worker (`load_md`,
-- `load_md_with_cache`, `generic_invoke`, `raw_handle`), with the types of src/metadata.rs. The
-- object store, the decoders, the workers' scheduler and the application are parameters.
pub mod Cache
pub mod RequestId
use blueboat.Prelude.{
  ℕ, Bytes, codes, Bool, true, false, List, [], ◌∷◌, ◌++◌, Option, none, some, eqb, if◌then◌else◌,
}
use blueboat.Prelude.Table.{Table, lookup, insert}
use blueboat.Prelude.Result.{Result, ok, err, ok_or, ◌>>=◌}
use blueboat.Kv.{KvNamespaceMetadata}
use blueboat.Pubsub.{PubsubMetadata}
use blueboat.Ipc.{HyperHeaders, BlueboatIpcRes, into_hyper, decode_hyper_header_map}
use blueboat.Server.Headers.{Headers, HttpResponse, hdr_req_request_id, header_text, plain}

pub record MysqlMetadata : Type 0 where
  pub url : Bytes
  pub root_certificate : Option Bytes

pub data ApnsEndpointMetadata : Type 0 where
  production : ApnsEndpointMetadata
  sandbox : ApnsEndpointMetadata

pub record ApnsMetadata : Type 0 where
  pub endpoint : ApnsEndpointMetadata
  pub cert : Bytes

pub record Metadata : Type 0 where
  pub path : Bytes
  pub version : Bytes
  pub package_key : Bytes
  pub env : Table Bytes
  pub mysql : Table MysqlMetadata
  pub apns : Table ApnsMetadata
  pub kv_namespaces : Table KvNamespaceMetadata
  pub pubsub : Table PubsubMetadata

pub data Tenancy : Type 0 where
  multi_tenant : Tenancy
  single_tenant : Metadata → Tenancy

-- The crates: `hex` and `uuid` decode a namespace id to 16 bytes; `get_object` gives an object's
-- body, where it has one, and `parse_metadata` reads JSON.
pub record Sources : Type 0 where
  pub decode_hex : Bytes → Option Bytes
  pub parse_uuid : Bytes → Option Bytes
  pub get_object : Bytes → Result (Option Bytes)
  pub parse_metadata : Bytes → Result Metadata

abbrev pub or_else : Option Bytes → Option Bytes → Option Bytes
or_else (some b) other = some b
or_else none other = other

-- The bytes of a namespace id: hexadecimal digits or else a UUID.
unfoldable pub namespace_bytes_of : Sources → Bytes → Option Bytes
namespace_bytes_of s ns = or_else (s.decode_hex ns) (s.parse_uuid ns)

abbrev pub with_bytes : PubsubMetadata → Bytes → PubsubMetadata
with_bytes x b = record { namespace = x.namespace; namespace_bytes = b }

abbrev invalid_namespace : Bytes → PubsubMetadata → Bytes
invalid_namespace k x = codes "invalid pubsub '" ++ (k ++ (codes "' namespace id: " ++ x.namespace))

-- The loop over `md.pubsub`.
unfoldable pub decode_namespaces : Sources → Table PubsubMetadata → Result (Table PubsubMetadata)
decode_namespaces s [] = ok []
decode_namespaces s ((k, x) ∷ xs) =
    ok_or (namespace_bytes_of s x.namespace) (invalid_namespace k x)
    >>= (λ b. decode_namespaces s xs >>= (λ ys. ok ((k, with_bytes x b) ∷ ys)))

abbrev pub at_path : Metadata → Bytes → Table PubsubMetadata → Metadata
at_path md path pubsub = record {
  path = path;
  version = md.version;
  package_key = md.package_key;
  env = md.env;
  mysql = md.mysql;
  apns = md.apns;
  kv_namespaces = md.kv_namespaces;
  pubsub = pubsub;
}

abbrev pub fetched : Sources → Tenancy → Bytes → Result Metadata
fetched s multi_tenant path =
    s.get_object path >>= (λ body. ok_or body (codes "metadata error") >>= s.parse_metadata)
fetched s (single_tenant md) path = ok md

unfoldable pub load_md : Sources → Tenancy → Bytes → Result Metadata
unfolding decode_namespaces
load_md s t path =
    fetched s t path
    >>= (λ md. decode_namespaces s md.pubsub >>= (λ pubsub. ok (at_path md path pubsub)))

-- The cache may drop any entry at any time, see `Cache`.
abbrev pub MdCache : Type 0
MdCache = Table Metadata

abbrev pub cached : MdCache → Bytes → Result Metadata → Result Metadata × MdCache
cached cache path (err e) = (err e, cache)
cached cache path (ok md) = (ok md, insert path md cache)

abbrev pub hit_or :
    MdCache → Option Metadata → Result Metadata × MdCache → Result Metadata × MdCache
hit_or cache (some md) loaded = (ok md, cache)
hit_or cache none loaded = loaded

unfoldable pub load_md_with_cache : Sources → Tenancy → MdCache → Bytes → Result Metadata × MdCache
load_md_with_cache s t cache path =
    hit_or cache (lookup path cache) (cached cache path (load_md s t path))

pub record PackageKey : Type 0 where
  pub path : Bytes
  pub version : Bytes

-- A request of a worker and its answer. `Req` is what a worker is asked with an id.
pub record BlueboatIpcReq (Req : Type 0) : Type 0 where
  pub v : Req
  pub id : Bytes

-- The scheduler gives a worker for a key, made with the metadata where there is none; a worker
-- answers or fails.
pub record Workers (Req : Type 0) : Type 1 where
  pub Worker : Type 0
  pub get_worker : PackageKey → Metadata → Result Worker
  pub invoke : Worker → BlueboatIpcReq Req → Result BlueboatIpcRes

abbrev version_ok : Option Bytes → Bytes → Bool
version_ok none version = true
version_ok (some asserted) version = eqb version asserted

abbrev or_fresh : Bytes → Option Bytes → Bytes
or_fresh fresh (some id) = id
or_fresh fresh none = fresh

abbrev pub hdr_res_handle_latency : Bytes
hdr_res_handle_latency = codes "x-blueboat-handle-latency"

abbrev pub hdr_res_request_id : Bytes
hdr_res_request_id = codes "x-blueboat-request-id"

module _ {Req : Type 0} (w : Workers Req) where
  unfoldable pub generic_invoke :
      BlueboatIpcReq Req → Metadata → Option Bytes → Result BlueboatIpcRes
  generic_invoke req md version_assertion =
      if version_ok version_assertion md.version
      then w.get_worker (record { path = md.path; version = md.version }) md
        >>= (λ worker. w.invoke worker req)
      else err (codes "version changed")

  -- The rest of `raw_handle`: `fresh` is the id made of a new UUID, `read_body` makes a worker's
  -- request of the incoming one, `sse` is `handle_sse`, and `latency` the printed duration. `hyper` is
  -- the `HeaderMap` of the answer, and `status_code` is `StatusCode::from_u16`.
  pub record Incoming : Type 1 where
    pub hyper : HyperHeaders
    pub status_code : ℕ → Result ℕ
    pub to_str : Bytes → Option Bytes
    pub valid : Bytes → Bool
    pub fresh : Bytes
    pub path : Bytes
    pub read_body : Headers → Result Req
    pub sse : Bytes → Headers → Metadata → Result HttpResponse
    pub latency : Bytes

  unfoldable pub request_id_of : Incoming → Headers → Bytes
  request_id_of i hs = or_fresh i.fresh (header_text i.to_str hdr_req_request_id hs)

  abbrev pub labelled : Incoming → Bytes → HttpResponse → HttpResponse
  labelled i id res =
      let timed = insert hdr_res_handle_latency (i.latency ∷ []) res.headers in
      record {
        status = res.status;
        headers = if i.valid id then insert hdr_res_request_id (id ∷ []) timed else timed;
        body = res.body;
      }

  -- The answer of the worker, made by `into_hyper`; its header map is read as a table here.
  abbrev pub or_invoke_error : Incoming → Result BlueboatIpcRes → Result HttpResponse
  or_invoke_error i (ok res) = into_hyper i.hyper i.status_code res.response res.body >>= (λ out.
      ok (record {
        status = out.status;
        headers = decode_hyper_header_map i.hyper out.headers;
        body = out.body;
      }))
  or_invoke_error i (err e) = ok (plain 500 (codes "invoke error"))

  abbrev pub answered : Incoming → Bytes → Headers → Metadata → Result HttpResponse
  answered i id hs md =
      if eqb i.path (codes "/_blueboat/events")
      then i.sse id hs md
      else i.read_body hs >>= (λ v.
        or_invoke_error i (generic_invoke (record { v = v; id = id }) md none)
        >>= (λ res. ok (labelled i id res)))

  abbrev pub with_md : Incoming → Headers → Result Metadata → Result HttpResponse
  with_md i hs (err e) = err (codes "failed to load metadata")
  with_md i hs (ok md) =
      let id = request_id_of i hs in
      if i.valid id
      then answered i id (insert hdr_req_request_id (id ∷ []) hs) md
      else err (codes "failed to parse header value")

  unfoldable pub raw_handle :
      Sources → Tenancy → Incoming → MdCache → Bytes → Headers → Result HttpResponse × MdCache
  raw_handle s t i cache md_path hs =
      let (md, cache') = load_md_with_cache s t cache md_path in (with_md i hs md, cache')
