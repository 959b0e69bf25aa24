-- ===== src/Tests/Kv.antt =====
-- The key-value store at concrete requests.
use blueboat.Prelude.{
  Bytes, codes, true, false, List, [], ◌∷◌, none, some, eqb, ◌≡◌, ◌↔◌, refl, b_slash, split_at,
  join,
}
use blueboat.Prelude.Table.{lookup, insert, remove}
use blueboat.Prelude.Result.{ok}
use blueboat.Prelude.Order.{between}
use blueboat.Mds.{MdsClusterConfig, segments, pack_user_key, unpack_user_key}
use blueboat.Mds.Keys.{Spells, unpack_user_key-pack_user_key}
use blueboat.Kv.{
  TriStateCheck, absent, TriStateSet, delete, CasKey, committed, Attempt, Answer, cas_loop,
  cas_attempt,
}
use blueboat.Kv.Limits.{JsCasKey}
use blueboat.Kv.Reads.{list_range}
use blueboat.Kv.Paging.{IsPrefixOf, list_range_exact}
use blueboat.Tests.Database.{db, read, apply, db-PacksTuples}

abbrev plain : Bytes → Bytes
plain k = k

abbrev stamp_seven : Bytes
stamp_seven = 0 ∷ 0 ∷ 0 ∷ 0 ∷ 0 ∷ 0 ∷ 0 ∷ 7 ∷ 0 ∷ 0 ∷ []

-- Replace `a`, if it is still 1, and delete `b`, if it is still not there.
abbrev swap_a : List CasKey
swap_a =
    record {
      key = codes "a";
      check = TriStateCheck.value (codes "1");
      set = TriStateSet.value (codes "2");
    }
    ∷ record { key = codes "b"; check = absent; set = delete }
    ∷ []

abbrev granted : Attempt db
granted = record {
  store = (codes "a", codes "1") ∷ [];
  read_error = λ k. none;
  outcome = committed stamp_seven none;
}

abbrev swapped : Answer db
swapped = record {
  reply = ok (record { done = true; committed = some (record { versionstamp = none }) });
  written = some ((codes "a", codes "2") ∷ []);
}

swapped_run : cas_loop db plain plain swap_a (granted ∷ []) ≡ some swapped
unfolding cas_loop cas_attempt apply read lookup insert remove eqb
swapped_run = refl

abbrev js_swap_a : List (JsCasKey Bytes)
js_swap_a =
    record {
      key = codes "a";
      check = TriStateCheck.value (codes "1");
      set = TriStateSet.value (codes "2");
    }
    ∷ record { key = codes "b"; check = absent; set = delete }
    ∷ []

abbrev cluster : MdsClusterConfig
cluster = record { path = codes "/etc/fdb.cluster"; prefix = codes "p" }

unpack_user_key-pack_user_key_example :
    (segs : List Bytes) × Spells (codes "/a//b/") segs
    × (unpack_user_key db cluster
          (codes "ns")
          (pack_user_key db cluster (codes "ns") (codes "/a//b/"))
        ≡ some (join b_slash segs))
    × ((q : Bytes) (qs : List Bytes)
        → Spells q qs
        → (pack_user_key db cluster (codes "ns") (codes "/a//b/")
            ≡ pack_user_key db cluster (codes "ns") q)
          ↔ (segs ≡ qs))
unpack_user_key-pack_user_key_example =
    unpack_user_key-pack_user_key db db-PacksTuples cluster (codes "ns") (codes "/a//b/")

list_range_exact_example :
    (between
        (list_range db cluster (codes "ns") (codes "a") false none).0
        (list_range db cluster (codes "ns") (codes "a") false none).1
        (pack_user_key db cluster (codes "ns") (codes "a/b"))
      ≡ true)
    ↔ IsPrefixOf (segments (codes "a")) (segments (codes "a/b"))
list_range_exact_example =
    list_range_exact db db-PacksTuples cluster (codes "ns") (codes "a") (codes "a/b") false

abbrev key_ab : Bytes
key_ab = pack_user_key db cluster (codes "ns") (codes "a/b")

key_ab_in_range :
    between
      (list_range db cluster (codes "ns") (codes "a") false none).0
      (list_range db cluster (codes "ns") (codes "a") false none).1
      key_ab
    ≡ true
key_ab_in_range =
    (list_range_exact db db-PacksTuples cluster (codes "ns") (codes "a") (codes "a/b") false).1
      (codes "b" ∷ [], unfold segments in unfold split_at in refl)
