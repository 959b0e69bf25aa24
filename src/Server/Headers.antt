-- ===== src/Server/Headers.antt =====
-- src/server.rs: `handle`, from a request's headers to the ones that an application sees, and
-- src/headers.rs. A header map is a table from names to their values.
pub mod Trust
use blueboat.Prelude.{
  ℕ, suc, ◌+◌, Bytes, codes, Bool, true, false, not, ◌&&◌, ◌||◌, List, [], ◌∷◌, ◌++◌, Option, none,
  some, eqb, if◌then◌else◌, strip_prefix, map, keep_if,
}
use blueboat.Prelude.Table.{Table, lookup, insert, remove}
use blueboat.Prelude.Result.{Result, ok, err}

abbrev pub Headers : Type 0
Headers = Table (List Bytes)

abbrev pub hdr_global_prefix : Bytes
hdr_global_prefix = codes "x-blueboat-"

abbrev pub hdr_req_request_id : Bytes
hdr_req_request_id = codes "x-blueboat-request-id"

abbrev pub hdr_req_metadata : Bytes
hdr_req_metadata = codes "x-blueboat-metadata"

abbrev pub hdr_req_client_ip : Bytes
hdr_req_client_ip = codes "x-blueboat-client-ip"

abbrev pub hdr_req_client_country : Bytes
hdr_req_client_country = codes "x-blueboat-client-country"

abbrev pub hdr_req_client_subdivision_prefix : Bytes
hdr_req_client_subdivision_prefix = codes "x-blueboat-client-subdivision-"

abbrev pub hdr_req_client_city : Bytes
hdr_req_client_city = codes "x-blueboat-client-city"

abbrev pub hdr_req_client_wpbl : Bytes
hdr_req_client_wpbl = codes "x-blueboat-client-wpbl"

abbrev pub contains : List Bytes → Bytes → Bool
contains [] x = false
contains (y ∷ ys) x = eqb y x || contains ys x

abbrev pub proxy_header_whitelist : List Bytes
proxy_header_whitelist = hdr_req_request_id ∷ hdr_req_metadata ∷ hdr_req_client_ip ∷ []

abbrev is_some : Option Bytes → Bool
is_some none = false
is_some (some x) = true

unfoldable pub starts_with : Bytes → Bytes → Bool
starts_with prefix x = is_some (strip_prefix prefix x)

-- The test of the loop over the header names.
unfoldable pub is_reserved : Bytes → Bool
unfolding starts_with
is_reserved name = starts_with hdr_global_prefix name && not (contains proxy_header_whitelist name)

unfoldable pub remove_list : Headers → List Bytes
remove_list [] = []
remove_list ((name, vs) ∷ hs) =
    let rest = remove_list hs in if is_reserved name then name ∷ rest else rest

unfoldable pub remove_all : List Bytes → Headers → Headers
remove_all [] hs = hs
remove_all (name ∷ names) hs = remove_all names (remove name hs)

-- The block `Sanitize headers`.
unfoldable pub sanitize : Headers → Headers
unfolding remove_list remove_all
sanitize hs = remove_all (remove_list hs) hs

-- What the GeoIP database knows of an address: codes of the country and of the subdivisions, and
-- the English name of the city.
pub record City : Type 0 where
  pub country : Option Bytes
  pub subdivisions : List (Option Bytes)
  pub name : Option Bytes

-- `valid` is `HeaderValue::from_str`, and `decimal` prints a number.
module _ (valid : Bytes → Bool) (decimal : ℕ → Bytes) where
  abbrev pub insert_valid : Bytes → Option Bytes → Headers → Headers
  insert_valid name none hs = hs
  insert_valid name (some v) hs = if valid v then insert name (v ∷ []) hs else hs

  abbrev value_or_empty : Option Bytes → Bytes
  value_or_empty none = []
  value_or_empty (some v) = if valid v then v else []

  unfoldable pub insert_subdivisions : ℕ → List (Option Bytes) → Headers → Headers
  insert_subdivisions i [] hs = hs
  insert_subdivisions i (x ∷ xs) hs =
      insert_subdivisions (suc i) xs
        (insert (hdr_req_client_subdivision_prefix ++ decimal (i + 1)) (value_or_empty x ∷ []) hs)

  unfoldable pub insert_city : Option City → Headers → Headers
  unfolding insert_subdivisions
  insert_city none hs = hs
  insert_city (some c) hs =
      insert_valid hdr_req_client_city c.name
        (insert_subdivisions 0 c.subdivisions (insert_valid hdr_req_client_country c.country hs))

  -- The answer of the Wikipedia blocklist; an error is only logged.
  unfoldable pub insert_wpbl : Option (Result Bool) → Headers → Headers
  insert_wpbl none hs = hs
  insert_wpbl (some (err e)) hs = hs
  insert_wpbl (some (ok b)) hs =
      insert hdr_req_client_wpbl ((if b then codes "1" else codes "0") ∷ []) hs

  -- Addresses, their parser, and the two databases, where they are open.
  pub record Lookups : Type 1 where
    pub IpAddr : Type 0
    pub parse_ip : Bytes → Option IpAddr
    pub mmdb_city : Option (IpAddr → Option City)
    pub wpbl_db : Option (IpAddr → Result Bool)

  abbrev opened {ℓ κ} : {A : Type ℓ} {B : Type κ} → Option (A → B) → A → Option B
  opened none a = none
  opened (some f) a = some (f a)

  abbrev flat : Option (Option City) → Option City
  flat none = none
  flat (some c) = c

  abbrev for_ip : (l : Lookups) → Option l.IpAddr → Headers → Headers
  for_ip l none hs = hs
  for_ip l (some ip) hs =
      insert_wpbl (opened l.wpbl_db ip) (insert_city (flat (opened l.mmdb_city ip)) hs)

  abbrev pub for_client : Lookups → Option Bytes → Headers → Headers
  for_client l none hs = hs
  for_client l (some text) hs = for_ip l (l.parse_ip text) hs

  -- The headers that `handle` passes on; `to_str` is `HeaderValue::to_str`.
  unfoldable pub client_headers : Lookups → Option Bytes → Headers → Headers
  unfolding sanitize insert_city insert_wpbl
  client_headers l client_ip hs = for_client l client_ip (sanitize hs)

abbrev first : Option (List Bytes) → Option Bytes
first none = none
first (some []) = none
first (some (v ∷ vs)) = some v

abbrev pub then_text : (Bytes → Option Bytes) → Option Bytes → Option Bytes
then_text to_str none = none
then_text to_str (some v) = to_str v

-- `headers().get(name).and_then(|x| x.to_str().ok())`.
unfoldable pub header_text : (Bytes → Option Bytes) → Bytes → Headers → Option Bytes
header_text to_str name hs = then_text to_str (first (lookup name hs))

pub record HttpResponse : Type 0 where
  pub status : ℕ
  pub headers : Headers
  pub body : Bytes

abbrev pub plain : ℕ → Bytes → HttpResponse
plain status body = record { status = status; headers = []; body = body }

abbrev text_or_empty : Option Bytes → Bytes
text_or_empty none = []
text_or_empty (some x) = x

abbrev path_header : (Bytes → Option Bytes) → Option Bytes → Option Bytes
path_header to_str none = none
path_header to_str (some v) = some (text_or_empty (to_str v))

-- The metadata path of a request; `none` is answered with a 400.
unfoldable pub md_path : Bool → (Bytes → Option Bytes) → Headers → Option Bytes
md_path true to_str hs = path_header to_str (first (lookup hdr_req_metadata hs))
md_path false to_str hs = some (codes "app")

abbrev or_internal_error : Result HttpResponse → HttpResponse
or_internal_error (ok r) = r
or_internal_error (err e) = plain 500 []

abbrev routed : (Bytes → Headers → Result HttpResponse) → Headers → Option Bytes → HttpResponse
routed raw hs none = plain 400 []
routed raw hs (some path) = or_internal_error (raw path hs)

-- `handle`: `raw` is `raw_handle`, from the metadata path and the headers.
unfoldable pub handle :
    (valid : Bytes → Bool) (decimal : ℕ → Bytes)
    → Lookups valid decimal
    → (Bytes → Option Bytes)
    → Bool
    → (Bytes → Headers → Result HttpResponse)
    → Bytes
    → Headers
    → HttpResponse
unfolding client_headers header_text md_path
handle valid decimal l to_str multi_tenant raw path hs =
    if eqb path (codes "/_blueboat/health")
    then plain 200 (codes "OK")
    else routed raw (client_headers valid decimal l (header_text to_str hdr_req_client_ip hs) hs)
        (md_path multi_tenant to_str hs)
