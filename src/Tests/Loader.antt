-- ===== src/Tests/Loader.antt =====
-- A package that is fetched once.
use blueboat.Prelude.{Bytes, codes, eqb, [], none, some, ◌≡◌, refl, sym, ap, ◌∙◌, if◌then◌else◌}
use blueboat.Prelude.Table.{lookup}
use blueboat.Prelude.Result.{ok, err}
use blueboat.Server.Metadata.{Metadata}
use blueboat.Loader.{multi_tenant, CacheErrors, S3Objects, get_package_handle}
use blueboat.Loader.Cache.{IsServedCache, get_package-IsServed}

abbrev app : Metadata
app = record {
  path = codes "a.json";
  version = codes "v1";
  package_key = codes "a.tar";
  env = [];
  mysql = [];
  apns = [];
  kv_namespaces = [];
  pubsub = [];
}

abbrev bucket : S3Objects
bucket key =
    if eqb key (codes "a.tar") then ok (some (ok (codes "tar"))) else err (codes "no such key")

abbrev no_errors : CacheErrors
no_errors = record { get_fails = none; update_fails = none; write_fails = none }

-- One application is known.
abbrev OnlyApp : Metadata → Type 0
OnlyApp md = md ≡ app

OnlyApp-consistent :
    (a b : Metadata) → OnlyApp a → OnlyApp b → a.version ≡ b.version → a.package_key ≡ b.package_key
OnlyApp-consistent a b ea eb same = ap (λ (m : Metadata). m.package_key) (ea ∙ sym eb)

empty-IsServedCache : IsServedCache bucket OnlyApp []
unfolding lookup
empty-IsServedCache version d h = cc

get_package-IsServed_example :
    let out = get_package_handle multi_tenant bucket no_errors app [] [] in
    IsServedCache bucket OnlyApp (out.1)
    × ((d : Bytes) → out.0 ≡ ok d → bucket (codes "a.tar") ≡ ok (some (ok d)))
get_package-IsServed_example =
    get_package-IsServed bucket OnlyApp no_errors app [] [] OnlyApp-consistent refl
      empty-IsServedCache empty-IsServedCache
