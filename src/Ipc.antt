-- ===== src/Ipc.antt =====
-- src/ipc.rs: the requests and answers that pass between the server and a worker. `hyper`, `reqwest`
-- and V8 are parameters: a header map is what `HeaderMap` documents.
pub mod HeaderMaps
use blueboat.Prelude.{
  ℕ, Bytes, Bool, true, false, List, [], ◌∷◌, Option, none, some, lex_lt, leb, ltb, ◌&&◌,
  if◌then◌else◌, codes, ◌≡◌, ◌++◌, eqb,
}
use blueboat.Prelude.Table.{Table}
use blueboat.Prelude.Result.{Result, ok, err, ◌>>=◌}
use blueboat.Prelude.Utf8.{is_utf8}
use blueboat.Prelude.Groups.{group, collect, values, IsGrouped}

-- `HeaderMap`, and the conversions `HeaderName::from_str` and `HeaderValue::from_str`.
pub record HyperHeaders : Type 1 where
  pub Map : Type 0
  pub empty : Map
  pub append : Map → Bytes → Bytes → Map
  pub iter : Map → List (Bytes × Bytes)
  pub header_name : Bytes → Option Bytes
  pub header_value : Bytes → Option Bytes

pub record BlueboatRequest : Type 0 where
  pub method : Bytes
  pub uri : Bytes
  pub headers : Table (List Bytes)
  pub body : Bytes

pub record BlueboatResponse : Type 0 where
  pub status : ℕ
  pub headers : Table (List Bytes)

pub data BlueboatIpcReqV : Type 0 where
  http : BlueboatRequest → BlueboatIpcReqV
  background : Bytes → BlueboatIpcReqV
  sse_auth : BlueboatRequest → BlueboatIpcReqV

pub record BlueboatIpcRes : Type 0 where
  pub response : BlueboatResponse
  pub body : Bytes

-- Stable insertion, `sort_by_key`.
module _ {V : Type 0} where
  unfoldable pub insert_by_key : Bytes × V → List (Bytes × V) → List (Bytes × V)
  insert_by_key e [] = e ∷ []
  insert_by_key e (x ∷ xs) =
      let rest = insert_by_key e xs in if lex_lt (x.0) (e.0) then x ∷ rest else e ∷ x ∷ xs

  unfoldable pub sort_by_key : List (Bytes × V) → List (Bytes × V)
  sort_by_key [] = []
  sort_by_key (x ∷ xs) = insert_by_key x (sort_by_key xs)

abbrev pub keep_utf8 : List (Bytes × Bytes) → List (Bytes × Bytes)
keep_utf8 [] = []
keep_utf8 ((k, v) ∷ r) = let rest = keep_utf8 r in if is_utf8 v then (k, v) ∷ rest else rest

module _ (hh : HyperHeaders) where
  open hh use {Map, empty, append, iter, header_name, header_value}

  unfoldable pub decode_hyper_header_map : Map → Table (List Bytes)
  decode_hyper_header_map m = collect (group (keep_utf8 (iter m)))

  abbrev pub append_valid : Map → Bytes → Option Bytes → Map
  append_valid m k none = m
  append_valid m k (some x) = append m k x

  -- `for x in v`.
  unfoldable pub append_all : Map → Bytes → List Bytes → Map
  append_all m k [] = m
  append_all m k (x ∷ xs) = append_all (append_valid m k (header_value x)) k xs

  -- A key that is no header name is passed over.
  abbrev pub append_named : Map → Option Bytes → List Bytes → Map
  append_named m none vs = m
  append_named m (some k) vs = append_all m k vs

  unfoldable pub encode_sorted : Map → List (Bytes × List Bytes) → Map
  encode_sorted m [] = m
  encode_sorted m ((k, vs) ∷ r) = encode_sorted (append_named m (header_name k) vs) r

  unfoldable pub encode_hyper_header_map : Map → Table (List Bytes) → Map
  encode_hyper_header_map m source = encode_sorted m (sort_by_key source)

  -- `hyper::Request<Body>`; the body is read to its end or fails.
  pub record HyperRequest : Type 0 where
    pub method : Bytes
    pub uri : Bytes
    pub headers : Map
    pub body : Result Bytes

  pub record HyperResponse : Type 0 where
    pub status : ℕ
    pub headers : Map
    pub body : Bytes

  unfoldable pub from_hyper : HyperRequest → Result BlueboatRequest
  from_hyper that = that.body >>= (λ body. ok (record {
    method = that.method;
    uri = that.uri;
    headers = decode_hyper_header_map that.headers;
    body = body;
  }))

  unfoldable pub from_hyper_no_body : HyperRequest → BlueboatRequest
  from_hyper_no_body that = record {
    method = that.method;
    uri = that.uri;
    headers = decode_hyper_header_map that.headers;
    body = [];
  }

  -- `parse_method` and `parse_url` are `Method::from_str` and `Url::from_str`, with the parsed value as
  -- a text.
  unfoldable pub into_reqwest :
      (Bytes → Result Bytes) → (Bytes → Result Bytes) → BlueboatRequest → Result HyperRequest
  into_reqwest parse_method parse_url req = parse_method req.method >>= (λ method.
      parse_url req.uri >>= (λ uri. ok (record {
        method = method;
        uri = uri;
        headers = encode_hyper_header_map empty req.headers;
        body = ok req.body;
      })))

  unfoldable pub from_reqwest : ℕ → Map → Result Bytes → Result (BlueboatResponse × Bytes)
  from_reqwest status headers body =
      body >>= (λ b. ok (record { status = status; headers = decode_hyper_header_map headers }, b))

  -- `status_code` is `StatusCode::from_u16`.
  unfoldable pub into_hyper : (ℕ → Result ℕ) → BlueboatResponse → Bytes → Result HyperResponse
  into_hyper status_code res body = status_code res.status >>= (λ status. ok (record {
    status = status;
    headers = encode_hyper_header_map empty res.headers;
    body = body;
  }))

-- What the entry of an application is called with: V8 values made by `serialize`, `array_buffer` and
-- `deserialize`.
module _ {Value : Type 0} (serialize : BlueboatRequest → Result Value)
    (array_buffer : Bytes → Value) (deserialize : Bytes → Result Value) where
  abbrev without_body : BlueboatRequest → BlueboatRequest
  without_body req = record { method = req.method; uri = req.uri; headers = req.headers; body = [] }

  unfoldable pub build_invocation : BlueboatIpcReqV → Result (Bytes × List Value)
  build_invocation (http req) =
      serialize (without_body req)
      >>= (λ r. ok (codes "__blueboat_app_entry", r ∷ array_buffer req.body ∷ []))
  build_invocation (background wire_bytes) =
      deserialize wire_bytes >>= (λ v. ok (codes "__blueboat_app_background_entry", v ∷ []))
  build_invocation (sse_auth req) =
      serialize req >>= (λ r. ok (codes "__blueboat_app_sse_auth_entry", r ∷ []))
