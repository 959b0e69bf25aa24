-- ===== src/Loader.antt =====
-- src/package_loader.rs, the request of src/ctx.rs that it answers, and src/kvutil.rs. The cache of
-- packages is shared with other processes, so it is looked at twice, in two states; S3 is a parameter.
pub mod Cache
use blueboat.Prelude.{
  ℕ, Bytes, codes, Bool, true, false, List, [], ◌∷◌, ◌++◌, Option, none, some, ◌==◌, and_then,
  if◌then◌else◌,
}
use blueboat.Prelude.Table.{Table, lookup, insert}
use blueboat.Prelude.Result.{Result, ok, err, ok_or, ◌>>=◌}
use blueboat.Prelude.Groups.{group, collect}
use blueboat.Server.Metadata.{Metadata, PackageKey}

-- `Tenancy`, with the package of the single tenant.
pub data PackageTenancy : Type 0 where
  multi_tenant : PackageTenancy
  single_tenant : Bytes → PackageTenancy

abbrev pub PackageCache : Type 0
PackageCache = Table Bytes

-- The errors of the cache's calls `get`, `get_for_update` and `write`, where they fail.
pub record CacheErrors : Type 0 where
  pub get_fails : Option Bytes
  pub update_fails : Option Bytes
  pub write_fails : Option Bytes

-- An object of S3: the error of the request, or the body, which may be missing, read to its end.
abbrev pub S3Objects : Type 0
S3Objects = Bytes → Result (Option (Result Bytes))

unfoldable pub fetch_package : S3Objects → Metadata → Result Bytes
fetch_package s3 md =
    s3 md.package_key
    >>= (λ body. ok_or body (codes "missing package for this metadata") >>= (λ read. read))

abbrev pub with_context : Result Bytes → Result Bytes
with_context (ok d) = ok d
with_context (err e) = err (codes "failed to fetch package")

abbrev pub written :
    Option Bytes → Bytes → PackageCache → Result Bytes → Result Bytes × PackageCache
written fails version cache (err e) = (err e, cache)
written (some e) version cache (ok d) = (err e, cache)
written none version cache (ok d) = (ok d, insert version d cache)

abbrev pub under_lock :
    Option Bytes
    → Option Bytes
    → PackageCache
    → Result Bytes × PackageCache
    → Result Bytes × PackageCache
under_lock (some e) value cache fetched = (err e, cache)
under_lock none (some d) cache fetched = (ok d, cache)
under_lock none none cache fetched = fetched

abbrev pub looked_up :
    Option Bytes
    → Option Bytes
    → PackageCache
    → Result Bytes × PackageCache
    → Result Bytes × PackageCache
looked_up (some e) value cache rest = (err e, cache)
looked_up none (some d) cache rest = (ok d, cache)
looked_up none none cache rest = rest

abbrev pub multi_load :
    S3Objects
    → CacheErrors
    → PackageKey
    → Metadata
    → PackageCache
    → PackageCache
    → Result Bytes × PackageCache
multi_load s3 errors pk md cache cache' =
    looked_up errors.get_fails (lookup pk.version cache) cache' (
      under_lock errors.update_fails (lookup pk.version cache') cache'
        (written errors.write_fails pk.version cache' (with_context (fetch_package s3 md))))

-- `cache` is the cache at `get`, and `cache'` at `get_for_update`, whose lock is held to the write.
unfoldable pub load_package :
    PackageTenancy
    → S3Objects
    → CacheErrors
    → PackageKey
    → Metadata
    → PackageCache
    → PackageCache
    → Result Bytes × PackageCache
unfolding fetch_package
load_package (single_tenant data_of) s3 errors pk md cache cache' = (ok data_of, cache')
load_package multi_tenant s3 errors pk md cache cache' = multi_load s3 errors pk md cache cache'

-- GetPackageRequest::handle: the key is that of the metadata.
unfoldable pub get_package_handle :
    PackageTenancy
    → S3Objects
    → CacheErrors
    → Metadata
    → PackageCache
    → PackageCache
    → Result Bytes × PackageCache
unfolding load_package
get_package_handle t s3 errors md cache cache' =
    load_package t s3 errors (record { path = md.path; version = md.version }) md cache cache'

-- `rsplit_once('/')`.
abbrev pub before_last : ℕ → Option (Bytes × Bytes) → Bool → Bytes → Option (Bytes × Bytes)
before_last x (some (a, b)) is_sep rest = some (x ∷ a, b)
before_last x none true rest = some ([], rest)
before_last x none false rest = none

unfoldable pub rsplit_once : ℕ → Bytes → Option (Bytes × Bytes)
rsplit_once sep [] = none
rsplit_once sep (x ∷ xs) = before_last x (rsplit_once sep xs) (x == sep) xs

module _ {V : Type 0} where
  abbrev pub split_row :
      V → Option (Bytes × Bytes) → List (Bytes × (Bytes × V)) → List (Bytes × (Bytes × V))
  split_row v none rest = rest
  split_row v (some (key, prop)) rest = (key, (prop, v)) ∷ rest

  unfoldable pub split_rows : List (Bytes × V) → List (Bytes × (Bytes × V))
  unfolding rsplit_once
  split_rows [] = []
  split_rows ((k, v) ∷ rows) = split_row v (rsplit_once b'/' k) (split_rows rows)

  abbrev pub with_props : List (Bytes × List (Bytes × V)) → List (Bytes × Table V)
  with_props [] = []
  with_props ((k, g) ∷ gs) = (k, collect g) ∷ with_props gs

  unfoldable pub group_kv_rows_by_prefix : List (Bytes × V) → List (Bytes × Table V)
  unfolding split_rows
  group_kv_rows_by_prefix rows = with_props (group (split_rows rows))
