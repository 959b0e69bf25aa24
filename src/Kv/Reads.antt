-- ===== src/Kv/Reads.antt =====
-- src/api/kv/mod.rs: reading several keys, and listing the keys under a prefix.
use blueboat.Prelude.{
  ℕ, Bytes, codes, Bool, true, false, List, [], ◌∷◌, ◌++◌, Option, none, some, if◌then◌else◌,
  strip_prefix, b_slash, ◌==◌,
}
use blueboat.Prelude.Table.{Table, lookup}
use blueboat.Prelude.Result.{Result, ok, ok_or, ◌>>=◌}
use blueboat.Fdb.{Fdb}
use blueboat.Mds.{MdsClusterConfig, pack_user_key, unpack_user_key, get_mds}
use blueboat.Kv.{KvNamespaceMetadata, Attempt, txn_get}

pub record PrefixListOptions : Type 0 where
  pub reverse : Bool
  pub limit : ℕ
  pub cursor : Option Bytes

pub record KvPrefixListRequest : Type 0 where
  pub namespace : Bytes
  pub prefix : Bytes
  pub opts : PrefixListOptions
  pub primary : Bool

-- `trim_start_matches('/')`.
unfoldable pub trim_slashes : Bytes → Bytes
trim_slashes [] = []
trim_slashes (x ∷ xs) = let rest = trim_slashes xs in if x == b_slash then rest else x ∷ xs

module _ (f : Fdb) where
  -- `try_collect`: the first read that fails fails them all.
  unfoldable pub get_all : Attempt f → (Bytes → Bytes) → List Bytes → Result (List (Option Bytes))
  unfolding txn_get
  get_all a pack [] = ok []
  get_all a pack (k ∷ ks) = do v ← txn_get f a [] (pack k); vs ← get_all a pack ks; ok (v ∷ vs)

  -- `KvGetManyRequest::handle`.
  unfoldable pub get_many_handle :
      Option (Table MdsClusterConfig)
      → Table KvNamespaceMetadata
      → (MdsClusterConfig → Result (Attempt f))
      → Bytes
      → List Bytes
      → Result (List (Option Bytes))
  unfolding get_mds get_all
  get_many_handle mds namespaces connect namespace keys = do
    clusters ← get_mds mds
    ns ← ok_or (lookup namespace namespaces) (codes "namespace not found")
    cluster ← ok_or (lookup ns.shard clusters) (codes "shard not found")
    a ← connect cluster
    get_all a (pack_user_key f cluster ns.prefix) keys

  -- Where a listing begins and ends.
  unfoldable pub list_range : MdsClusterConfig → Bytes → Bytes → Bool → Option Bytes → Bytes × Bytes
  list_range c ns prefix reverse none =
      let start = pack_user_key f c ns prefix in (start, start ++ 0xff ∷ [])
  list_range c ns prefix true (some cursor) =
      (pack_user_key f c ns prefix, pack_user_key f c ns (prefix ++ b_slash ∷ cursor))
  list_range c ns prefix false (some cursor) = (
    pack_user_key f c ns (prefix ++ b_slash ∷ cursor) ++ 0 ∷ [],
    pack_user_key f c ns prefix ++ 0xff ∷ [],
  )

  abbrev under_prefix : Bytes → Bytes → Option Bytes → List (Bytes × Bytes)
  under_prefix prefix v none = []
  under_prefix prefix v (some rest) = (trim_slashes rest, v) ∷ []

  abbrev listed_key : Bytes → Bytes → Option Bytes → List (Bytes × Bytes)
  listed_key prefix v none = []
  listed_key prefix v (some key) = under_prefix prefix v (strip_prefix prefix key)

  -- The `filter_map` over the range.
  unfoldable pub list_pairs : MdsClusterConfig → Bytes → Bytes → Table Bytes → List (Bytes × Bytes)
  list_pairs c ns prefix [] = []
  list_pairs c ns prefix ((k, v) ∷ kvs) =
      listed_key prefix v (unpack_user_key f c ns k) ++ list_pairs c ns prefix kvs

  -- `KvPrefixListRequest::handle`.
  unfoldable pub prefix_list_handle :
      Option (Table MdsClusterConfig)
      → Table KvNamespaceMetadata
      → (MdsClusterConfig → Result f.Store)
      → KvPrefixListRequest
      → Result (List (Bytes × Bytes))
  unfolding get_mds list_range list_pairs
  prefix_list_handle mds namespaces connect req = do
    clusters ← get_mds mds
    ns ← ok_or (lookup req.namespace namespaces) (codes "namespace not found")
    cluster ← ok_or (lookup ns.shard clusters) (codes "shard not found")
    store ← connect cluster
    let (start, end) = list_range cluster ns.prefix req.prefix req.opts.reverse req.opts.cursor
    ok (
        list_pairs cluster ns.prefix req.prefix
          (f.get_range store start end req.opts.reverse req.opts.limit))
