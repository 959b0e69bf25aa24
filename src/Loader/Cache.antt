-- ===== src/Loader/Cache.antt =====
-- What the loader of packages gives, with the cache that it shares, and the grouping of rows.
use blueboat.Prelude.{
  ℕ, Bytes, codes, eqb, eqb_refl, eq_of_eqb, Bool, true, false, List, [], ◌∷◌, ◌++◌, Option, none,
  some, some_inj, Bool-cases, inl, inr, ◌⊎◌, ◌≡◌, refl, sym, ap, ◌∙◌, subst, if◌then◌else◌, ==_refl,
}
use blueboat.Prelude.Table.{Table, lookup, insert, lookup-insert}
use blueboat.Prelude.Result.{Result, ok, err, ok_inj, ok_or, >>=-ok}
use blueboat.Prelude.Split.{Lacks}
use blueboat.Prelude.Groups.{
  group, collect, values, IsGrouped, unless_nil, last_of, or_none, group_lem,
}
use blueboat.Server.Metadata.{Metadata}
use blueboat.Loader.{
  multi_tenant, PackageCache, CacheErrors, S3Objects, fetch_package, with_context, written,
  under_lock, looked_up, multi_load, get_package_handle, rsplit_once, split_rows, with_props,
  group_kv_rows_by_prefix,
}

fetch_package-ok :
    (s3 : S3Objects) (md : Metadata) (d : Bytes)
    → fetch_package s3 md ≡ ok d
    → s3 md.package_key ≡ ok (some (ok d))
unfolding fetch_package
fetch_package-ok s3 md d h =
    let (body, got, r) = >>=-ok (s3 md.package_key) _ h in
    let (read, is_read, same) =
      >>=-ok (ok_or body (codes "missing package for this metadata")) _ r in
    got ∙ ap ok (present body read is_read ∙ ap some same)
  where
    present :
        (body : Option (Result Bytes)) (read : Result Bytes)
        → ok_or body (codes "missing package for this metadata") ≡ ok read
        → body ≡ some read
    present none read e = cc
    present (some r) read e = cc

module _ (s3 : S3Objects) (known : Metadata → Type 0) where
  -- The package is what S3 has under the package key of a known metadata with the version.
  abbrev pub IsServed : Bytes → Bytes → Type 0
  IsServed version d =
      (md : Metadata) × known md × (md.version ≡ version) × (s3 md.package_key ≡ ok (some (ok d)))

  abbrev pub IsServedCache : PackageCache → Type 0
  IsServedCache c = (version d : Bytes) → lookup version c ≡ some d → IsServed version d

  -- What a load leaves and gives.
  abbrev IsLoad : Bytes → Result Bytes × PackageCache → Type 0
  IsLoad version o = IsServedCache (o.1) × ((d : Bytes) → o.0 ≡ ok d → IsServed version d)

  same_cache :
      (version d : Bytes) (c : PackageCache)
      → IsServedCache c
      → IsServed version d
      → IsLoad version (ok d, c)
  same_cache version d c ic p = (ic, λ e h. subst (IsServed version) (ok_inj h) p)

  failed : (version e : Bytes) (c : PackageCache) → IsServedCache c → IsLoad version (err e, c)
  failed version e c ic = (ic, λ d h. cc h)

  written-IsLoad :
      (w : Option Bytes) (md : Metadata) (c : PackageCache) (r : Result Bytes)
      → fetch_package s3 md ≡ r
      → known md
      → IsServedCache c
      → IsLoad md.version (written w md.version c (with_context r))
  written-IsLoad w md c (err e) h is ic = failed md.version (codes "failed to fetch package") c ic
  written-IsLoad (some e) md c (ok d) h is ic = failed md.version e c ic
  written-IsLoad none md c (ok d) h is ic =
      let p : IsServed md.version d = (md, is, refl, fetch_package-ok s3 md d h) in
      (
        λ v x at.
            stored v x (Bool-cases (eqb md.version v)) (sym (lookup-insert md.version v d c) ∙ at),
        λ e same. subst (IsServed md.version) (ok_inj same) p,
      )
    where
      stored :
          (v x : Bytes)
          → (eqb md.version v ≡ true) ⊎ (eqb md.version v ≡ false)
          → (if eqb md.version v then some d else lookup v c) ≡ some x
          → IsServed v x
      stored v x (inl same) at =
          subst (IsServed v) (some_inj (rw same at at))
            (md, is, eq_of_eqb md.version v same, fetch_package-ok s3 md d h)
      stored v x (inr other) at = ic v x (rw other at at)

  under_lock-IsLoad :
      (e : Option Bytes) (version : Bytes) (o : Option Bytes) (c : PackageCache)
      (r : Result Bytes × PackageCache)
      → lookup version c ≡ o
      → IsServedCache c
      → IsLoad version r
      → IsLoad version (under_lock e o c r)
  under_lock-IsLoad (some m) version o c r h ic l = failed version m c ic
  under_lock-IsLoad none version (some d) c r h ic l = same_cache version d c ic (ic version d h)
  under_lock-IsLoad none version none c r h ic l = l

  looked_up-IsLoad :
      (e : Option Bytes) (version : Bytes) (o : Option Bytes) (c c' : PackageCache)
      (r : Result Bytes × PackageCache)
      → lookup version c ≡ o
      → IsServedCache c
      → IsServedCache c'
      → IsLoad version r
      → IsLoad version (looked_up e o c' r)
  looked_up-IsLoad (some m) version o c c' r h ic ic' l = failed version m c' ic'
  looked_up-IsLoad none version (some d) c c' r h ic ic' l =
      same_cache version d c' ic' (ic version d h)
  looked_up-IsLoad none version none c c' r h ic ic' l = l

  -- With many tenants, where any two known metadata with one version have one package key: of a cache
  -- that holds only packages that S3 has for known metadata, under their versions, whatever other
  -- processes put there between the two looks, the request of a worker with a known metadata keeps
  -- that, and the package that it gives is what S3 has under the package key of that worker's metadata.
  pub get_package-IsServed :
      (errors : CacheErrors) (md : Metadata) (cache cache' : PackageCache)
      → ((a b : Metadata)
          → known a
          → known b
          → a.version ≡ b.version
          → a.package_key ≡ b.package_key)
      → known md
      → IsServedCache cache
      → IsServedCache cache'
      → let out = get_package_handle multi_tenant s3 errors md cache cache' in
        IsServedCache (out.1) × ((d : Bytes) → out.0 ≡ ok d → s3 md.package_key ≡ ok (some (ok d)))
  unfolding get_package_handle
  get_package-IsServed errors md cache cache' consistent is ic ic' =
      let (kept, served) =
        looked_up-IsLoad errors.get_fails md.version (lookup md.version cache) cache cache'
          (under_lock errors.update_fails (lookup md.version cache') cache'
            (written errors.write_fails md.version cache' (with_context (fetch_package s3 md))))
          refl ic ic'
          (under_lock-IsLoad errors.update_fails md.version (lookup md.version cache') cache'
            (written errors.write_fails md.version cache' (with_context (fetch_package s3 md))) refl
            ic' (written-IsLoad errors.write_fails md cache' (fetch_package s3 md) refl is ic')) in
      (
        kept,
        λ d h.
            let (a, is_a, same, at) = served d h in ap s3 (sym (consistent a md is_a is same)) ∙ at,
      )

module _ (s3 : S3Objects) where
  -- The cache goes by the version alone: once an application's package is cached, the worker of any other
  -- application with the same version is given that package, whatever S3 has for its own.
  get_package_shared :
      (md other : Metadata) (errors : CacheErrors) (d : Bytes) (cache cache' : PackageCache)
      → fetch_package s3 md ≡ ok d
      → lookup md.version cache ≡ none
      → other.version ≡ md.version
      → errors.get_fails ≡ none
      → errors.update_fails ≡ none
      → errors.write_fails ≡ none
      → let after = (get_package_handle multi_tenant s3 errors md cache cache).1 in
        (get_package_handle multi_tenant s3 errors other after cache').0 ≡ ok d
  unfolding get_package_handle
  get_package_shared md other errors d cache cache' f empty same g u w =
      ap
        (λ (c : PackageCache).
          (multi_load s3 errors (record { path = other.path; version = other.version }) other c
            cache').0)
        first_load
      ∙ second_load
    where
      first_load :
          (multi_load s3 errors (record { path = md.path; version = md.version }) md cache cache).1
          ≡ insert md.version d cache
      first_load =
          ap (λ (o : Result Bytes × PackageCache). o.1)
            (missed errors.get_fails errors.update_fails errors.write_fails
              (lookup md.version cache) (fetch_package s3 md) g u w empty f)
        where
          missed :
              (g u w : Option Bytes) (o : Option Bytes) (r : Result Bytes)
              → g ≡ none
              → u ≡ none
              → w ≡ none
              → o ≡ none
              → r ≡ ok d
              → looked_up g o cache
                  (under_lock u o cache (written w md.version cache (with_context r)))
                ≡ (ok d, insert md.version d cache)
          missed g u w o r eg eu ew eo er = rw (eg, eu, ew, eo, er) refl

      hit :
          (g o : Option Bytes) (r : Result Bytes × PackageCache)
          → g ≡ none
          → o ≡ some d
          → (looked_up g o cache' r).0 ≡ ok d
      hit g o r eg eo = rw (eg, eo) refl

      second_load :
          (multi_load s3 errors
            (record { path = other.path; version = other.version })
            other
            (insert md.version d cache)
            cache').0
          ≡ ok d
      second_load = hit errors.get_fails (lookup other.version (insert md.version d cache)) _ g (
          ap (λ v. lookup v (insert md.version d cache)) same
          ∙ (lookup-insert md.version md.version d cache ∙ rw (eqb_refl md.version) refl))

rsplit_once-none : (sep : ℕ) (b : Bytes) → Lacks sep b → rsplit_once sep b ≡ none
unfolding rsplit_once
rsplit_once-none sep [] l = refl
rsplit_once-none sep (x ∷ b) l = rw (rsplit_once-none sep b l.1, l.0) refl

rsplit_once-append :
    (sep : ℕ) (a b : Bytes) → Lacks sep b → rsplit_once sep (a ++ sep ∷ b) ≡ some (a, b)
unfolding rsplit_once
rsplit_once-append sep [] b l = rw (rsplit_once-none sep b l, ==_refl sep) refl
rsplit_once-append sep (x ∷ a) b l = rw (rsplit_once-append sep a b l) refl

module _ {V : Type 0} where
  abbrev pub props_of : Option (List (Bytes × V)) → Option (Table V)
  props_of none = none
  props_of (some g) = some (collect g)

  last_of-with_props :
      (k : Bytes) (gs : List (Bytes × List (Bytes × V)))
      → last_of k (with_props gs) ≡ props_of (last_of k gs)
  last_of-with_props k [] = refl
  last_of-with_props k ((j, g) ∷ gs) = rw (last_of-with_props k gs) (cases (last_of k gs) (eqb j k))
    where
      cases :
          (o : Option (List (Bytes × V))) (b : Bool)
          → or_none (props_of o) (if b then some (collect g) else none)
            ≡ props_of (or_none o (if b then some g else none))
      cases none true = refl
      cases none false = refl
      cases (some h) b = refl

  -- Rows whose keys with the same part before the last slash stand together are grouped by that part:
  -- the group of a part holds, under the text behind the last slash, the value of the last row with it.
  group_kv_rows_lem :
      (rows : List (Bytes × V)) (key : Bytes)
      → IsGrouped (split_rows rows)
      → last_of key (group_kv_rows_by_prefix rows)
        ≡ props_of (unless_nil (values key (split_rows rows)))
  unfolding group_kv_rows_by_prefix
  group_kv_rows_lem rows key g =
      last_of-with_props key (group (split_rows rows))
      ∙ ap props_of ((group_lem (split_rows rows) g).0 key)
