-- ===== src/Mds.antt =====
-- src/mds/mod.rs: the metadata service, a set of FoundationDB clusters and the keys that user paths
-- have in them. Opening a database is not modelled: a cluster's database is a store of `Fdb`.
pub mod Config
pub mod Keys
use blueboat.Prelude.{
  Bytes, codes, List, [], ◌∷◌, ◌++◌, Option, none, some, keep_if, split_at, strip_prefix, b_slash,
  nonempty, join,
}
use blueboat.Prelude.Table.{Table}
use blueboat.Prelude.Result.{Result, ok, err, ok_or}
use blueboat.Fdb.{Fdb}

pub record MdsClusterConfig : Type 0 where
  pub path : Bytes
  pub prefix : Bytes

-- `path.split('/').filter(|x| !x.is_empty())`
unfoldable pub segments : Bytes → List Bytes
segments path = keep_if nonempty (split_at b_slash path)

module _ (f : Fdb) where
  unfoldable pub pack_user_key : MdsClusterConfig → Bytes → Bytes → Bytes
  pack_user_key c ns_prefix path = f.pack (c.prefix ∷ (segments ns_prefix ++ segments path))

  abbrev joined : Option (List Bytes) → Option Bytes
  joined none = none
  joined (some segs) = some (join b_slash segs)

  abbrev stripped : Option Bytes → Option Bytes
  stripped none = none
  stripped (some key) = joined (f.unpack key)

  unfoldable pub unpack_user_key : MdsClusterConfig → Bytes → Bytes → Option Bytes
  unpack_user_key c ns_prefix key =
      stripped (strip_prefix (f.pack (c.prefix ∷ segments ns_prefix)) key)

-- `get_mds`: the static holds `None` when the server runs with no `--mds`.
unfoldable pub get_mds {ℓ} : {S : Type ℓ} → Option S → Result S
get_mds mds = ok_or mds (codes "mds not available")
