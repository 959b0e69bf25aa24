-- ===== src/Mds/Config.antt =====
-- src/mds/config_v2.rs: the text of the option `--mds`, `name=path:prefix` for each cluster, between
-- commas. An `IndexMap` keeps the place of a name's first entry and the value of its last.
use blueboat.Prelude.{
  Bytes, codes, List, [], ◌∷◌, ◌++◌, map, Option, none, some, split_at, split_once, All, ◌≡◌, refl,
  join,
}
use blueboat.Prelude.Ascii.{trim}
use blueboat.Prelude.Split.{Lacks, split_at-join, split_once-append}
use blueboat.Prelude.Table.{Table, insert}
use blueboat.Prelude.Result.{Result, ok, err, ◌>>=◌}
use blueboat.Mds.{MdsClusterConfig}

abbrev with_entry : Bytes → Bytes → Option (Bytes × Bytes) → Result (Bytes × MdsClusterConfig)
with_entry seg name none = err (codes "invalid cluster entry: " ++ seg)
with_entry seg name (some (path, prefix)) = ok (name, record { path = path; prefix = prefix })

abbrev with_name : Bytes → Option (Bytes × Bytes) → Result (Bytes × MdsClusterConfig)
with_name seg none = err (codes "invalid cluster config: " ++ seg)
with_name seg (some (name, entry)) = with_entry seg name (split_once b':' entry)

-- One segment; it is trimmed twice.
unfoldable pub parse_cluster : Bytes → Result (Bytes × MdsClusterConfig)
parse_cluster seg = with_name (trim seg) (split_once b'=' (trim (trim seg)))

unfoldable pub parse_segments :
    List Bytes → Table MdsClusterConfig → Result (Table MdsClusterConfig)
unfolding parse_cluster
parse_segments [] clusters = ok clusters
parse_segments (seg ∷ segs) clusters =
    parse_cluster seg >>= (λ c. parse_segments segs (insert (c.0) (c.1) clusters))

-- `MdsConfig::parse`.
unfoldable pub parse : Bytes → Result (Table MdsClusterConfig)
unfolding parse_segments
parse input = parse_segments (split_at b',' input) []

-- An entry as the option writes it.
abbrev pub print_cluster : Bytes × MdsClusterConfig → Bytes
print_cluster c = c.0 ++ b'=' ∷ (c.1.path ++ b':' ∷ c.1.prefix)

-- What the text can carry: no comma, no space around the entry, no `=` in the name and no colon in the
-- path.
pub record IsPrintable (c : Bytes × MdsClusterConfig) : Type 0 where
  pub no_comma : Lacks b',' (print_cluster c)
  pub no_spaces : trim (print_cluster c) ≡ print_cluster c
  pub name_ends : Lacks b'=' (c.0)
  pub path_ends : Lacks b':' (c.1.path)

abbrev pub added : List (Bytes × MdsClusterConfig) → Table MdsClusterConfig → Table MdsClusterConfig
added [] clusters = clusters
added (c ∷ cs) clusters = added cs (insert (c.0) (c.1) clusters)

parse_cluster-print :
    (c : Bytes × MdsClusterConfig) → IsPrintable c → parse_cluster (print_cluster c) ≡ ok c
unfolding parse_cluster
parse_cluster-print c p =
    rw
      (
        p.no_spaces,
        p.no_spaces,
        split_once-append b'=' (c.0) _ p.name_ends,
        split_once-append b':' (c.1.path) _ p.path_ends,
      )
      refl

parse_segments-print :
    (cs : List (Bytes × MdsClusterConfig)) (clusters : Table MdsClusterConfig)
    → All IsPrintable cs
    → parse_segments (map print_cluster cs) clusters ≡ ok (added cs clusters)
unfolding parse_segments
parse_segments-print [] clusters p = refl
parse_segments-print (c ∷ cs) clusters p =
    rw (parse_cluster-print c p.0) (parse_segments-print cs (insert (c.0) (c.1) clusters) p.1)

no_commas :
    (cs : List (Bytes × MdsClusterConfig))
    → All IsPrintable cs
    → All (Lacks b',') (map print_cluster cs)
no_commas [] p = tt
no_commas (c ∷ cs) p = (p.0.no_comma, no_commas cs p.1)

-- Reading back the entries that the text can carry, of which there is one at least, gives the map that
-- they make: a later entry of a name replaces an earlier one.
parse-print :
    (c : Bytes × MdsClusterConfig) (cs : List (Bytes × MdsClusterConfig))
    → All IsPrintable (c ∷ cs)
    → parse (join b',' (map print_cluster (c ∷ cs))) ≡ ok (added (c ∷ cs) [])
unfolding parse
parse-print c cs p =
    rw (split_at-join b',' (print_cluster c) (map print_cluster cs) (no_commas (c ∷ cs) p))
      (parse_segments-print (c ∷ cs) [] p)
