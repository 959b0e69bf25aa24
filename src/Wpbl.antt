-- ===== src/Wpbl.antt =====
-- src/wpbl.rs: the lookup of an address in a block list. The table of SQLite is a list of rows; texts
-- are compared by their bytes. `encode_upper` is hex::encode_upper.
pub mod Ranges
use blueboat.Prelude.{
  Bytes, Bool, true, false, not, ◌&&◌, List, [], ◌∷◌, Option, none, some, lex_lt, keep_if, ◌≡◌,
  if◌then◌else◌,
}

pub record BlockRow : Type 0 where
  pub rangestart : Bytes
  pub rangeend : Bytes
  pub expiry : Bytes

-- `std::net::IpAddr`, by its octets.
pub data IpAddr : Type 0 where
  v4 : Bytes → IpAddr
  v6 : Bytes → IpAddr

abbrev pub octets : IpAddr → Bytes
octets (v4 x) = x
octets (v6 x) = x

-- `expiry > ? and rangestart <= ?`.
abbrev pub is_candidate : Bytes → Bytes → BlockRow → Bool
is_candidate now ip r = lex_lt now r.expiry && not (lex_lt ip r.rangestart)

-- `order by rangestart desc limit 1`: SQLite may take any of those that start together; here the first.
abbrev pub later : BlockRow → Option BlockRow → Option BlockRow
later r none = some r
later r (some best) = if lex_lt r.rangestart best.rangestart then some best else some r

unfoldable pub last_start : List BlockRow → Option BlockRow
last_start [] = none
last_start (r ∷ rs) = later r (last_start rs)

abbrev pub is_within : Bytes → BlockRow → Bool
is_within ip r = not (lex_lt ip r.rangestart) && not (lex_lt r.rangeend ip)

abbrev pub found : Bytes → Option BlockRow → Bool
found ip none = false
found ip (some r) = is_within ip r

unfoldable pub in_blocklist : (Bytes → Bytes) → List BlockRow → Bytes → IpAddr → Bool
unfolding last_start
in_blocklist encode_upper rows now ip =
    let text = encode_upper (octets ip) in
    found text (last_start (keep_if (is_candidate now text) rows))

-- A row that is in force and whose range holds the text.
abbrev pub Blocks : Bytes → Bytes → BlockRow → Type 0
Blocks now text r = (lex_lt now r.expiry ≡ true) × (is_within text r ≡ true)
