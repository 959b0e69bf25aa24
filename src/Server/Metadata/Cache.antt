-- ===== src/Server/Metadata/Cache.antt =====
-- What the metadata cache holds: only metadata that was loaded under its own path, with the bytes of
-- its namespaces decoded.
use blueboat.Prelude.{
  Bytes, [], ◌∷◌, Option, none, some, some_inj, eqb, eq_of_eqb, Bool-cases, inl, inr, ◌≡◌, refl,
  sym, ◌∙◌, subst, ap, ◌⊎◌, codes,
}
use blueboat.Prelude.Table.{Table, lookup, insert, remove, lookup-insert, lookup-remove}
use blueboat.Prelude.Result.{Result, ok, err, ok_or, >>=-ok, ok_inj, ◌>>=◌}
use blueboat.Pubsub.{PubsubMetadata}
use blueboat.Server.Metadata.{
  Metadata, Tenancy, multi_tenant, single_tenant, Sources, or_else, namespace_bytes_of, with_bytes,
  decode_namespaces, at_path, fetched, load_md, MdCache, cached, hit_or, load_md_with_cache,
}

-- A namespace with its bytes: its id read as hexadecimal digits, or as a UUID where it is none.
abbrev pub IsNamespace : Sources → PubsubMetadata → PubsubMetadata → Type 0
IsNamespace s raw x =
    (x.namespace ≡ raw.namespace)
    × ((s.decode_hex raw.namespace ≡ some x.namespace_bytes)
        ⊎ ((s.decode_hex raw.namespace ≡ none)
            × (s.parse_uuid raw.namespace ≡ some x.namespace_bytes)))

-- Entry by entry, under the same keys.
abbrev pub IsDecoded : Sources → Table PubsubMetadata → Table PubsubMetadata → Type 0
IsDecoded s [] [] = Unit {0}
IsDecoded s ((k, raw) ∷ raws) ((j, x) ∷ xs) = ((j ≡ k) × IsNamespace s raw x) × IsDecoded s raws xs
IsDecoded s _ _ = ⊥

-- What stands in the store under the path: with many tenants the metadata that the body of the object
-- with that name gives, and with a single tenant its metadata.
abbrev pub IsSource : Sources → Tenancy → Bytes → Metadata → Type 0
IsSource s multi_tenant path raw =
    (body : Bytes) × (s.get_object path ≡ ok (some body)) × (s.parse_metadata body ≡ ok raw)
IsSource s (single_tenant md) path raw = raw ≡ md

-- The metadata in the store under the path, with the path and the bytes of the namespaces filled in
-- and no other field changed.
abbrev pub IsLoaded : Sources → Tenancy → Bytes → Metadata → Type 0
IsLoaded s t path md =
    (raw : Metadata) × IsSource s t path raw
    × (md.path ≡ path)
    × (md.version ≡ raw.version)
    × (md.package_key ≡ raw.package_key)
    × (md.env ≡ raw.env)
    × (md.mysql ≡ raw.mysql)
    × (md.apns ≡ raw.apns)
    × (md.kv_namespaces ≡ raw.kv_namespaces)
    × IsDecoded s raw.pubsub md.pubsub

ok_or-ok {ℓ} : {A : Type ℓ} (o : Option A) (e : Bytes) (a : A) → ok_or o e ≡ ok a → o ≡ some a
ok_or-ok none e a h = cc
ok_or-ok (some b) e a h = cc

or_else-some :
    (h u : Option Bytes) (b : Bytes)
    → or_else h u ≡ some b
    → (h ≡ some b) ⊎ ((h ≡ none) × (u ≡ some b))
or_else-some (some x) u b same = inl same
or_else-some none u b same = inr (refl, same)

decode_namespaces-IsDecoded :
    (s : Sources) (xs ys : Table PubsubMetadata)
    → decode_namespaces s xs ≡ ok ys
    → IsDecoded s xs ys
unfolding decode_namespaces namespace_bytes_of
decode_namespaces-IsDecoded s [] ys h = subst (IsDecoded s []) (ok_inj h) tt
decode_namespaces-IsDecoded s ((k, x) ∷ xs) ys h =
    let (b, bytes, r) = >>=-ok _ _ h in
    let (zs, rest, same) = >>=-ok (decode_namespaces s xs) _ r in
    let decoded : IsDecoded s ((k, x) ∷ xs) ((k, with_bytes x b) ∷ zs) = (
      (refl, (refl, or_else-some _ _ b (ok_or-ok _ _ b bytes))),
      decode_namespaces-IsDecoded s xs zs rest,
    ) in
    subst (IsDecoded s ((k, x) ∷ xs)) (ok_inj same) decoded

fetched-IsSource :
    (s : Sources) (t : Tenancy) (path : Bytes) (raw : Metadata)
    → fetched s t path ≡ ok raw
    → IsSource s t path raw
fetched-IsSource s multi_tenant path raw h =
    let (body, got, r) =
      >>=-ok (s.get_object path) (λ body. ok_or body (codes "metadata error") >>= s.parse_metadata)
        h in
    let (b, is_body, parsed) = >>=-ok (ok_or body (codes "metadata error")) s.parse_metadata r in
    (b, got ∙ ap ok (ok_or-ok body _ b is_body), parsed)
fetched-IsSource s (single_tenant md) path raw h = sym (ok_inj h)

load_md-IsLoaded :
    (s : Sources) (t : Tenancy) (path : Bytes) (md : Metadata)
    → load_md s t path ≡ ok md
    → IsLoaded s t path md
unfolding load_md
load_md-IsLoaded s t path md h =
    let (raw, got, r) = >>=-ok {A = Metadata} (fetched s t path) _ h in
    let (pubsub, decoded, same) = >>=-ok (decode_namespaces s raw.pubsub) _ r in
    let loaded : IsLoaded s t path (at_path raw path pubsub) = (
      raw,
      fetched-IsSource s t path raw got,
      refl,
      refl,
      refl,
      refl,
      refl,
      refl,
      refl,
      decode_namespaces-IsDecoded s raw.pubsub pubsub decoded,
    ) in
    subst (IsLoaded s t path) (ok_inj same) loaded

-- Every entry of the cache is metadata loaded under its path.
abbrev pub IsCache : Sources → Tenancy → MdCache → Type 0
IsCache s t cache =
    (path : Bytes) (md : Metadata) → lookup path cache ≡ some md → IsLoaded s t path md

insert-IsCache :
    (s : Sources) (t : Tenancy) (cache : MdCache) (path : Bytes) (md : Metadata)
    → IsCache s t cache
    → IsLoaded s t path md
    → IsCache s t (insert path md cache)
insert-IsCache s t cache path md c l k x h = elim (Bool-cases (eqb path k)) [
  | inl e ↦
      let same : md ≡ x = some_inj (sym (lookup-insert path k md cache ∙ rw e refl) ∙ h) in
      subst (IsLoaded s t k) same (subst (λ j. IsLoaded s t j md) (eq_of_eqb path k e) l)
  | inr e ↦ c k x (sym (lookup-insert path k md cache ∙ rw e refl) ∙ h)
]

remove-IsCache :
    (s : Sources) (t : Tenancy) (cache : MdCache) (path : Bytes)
    → IsCache s t cache
    → IsCache s t (remove path cache)
remove-IsCache s t cache path c k x h = elim (Bool-cases (eqb path k)) [
  | inl e ↦ absurd (none_ne_some (sym (lookup-remove path k cache ∙ rw e refl) ∙ h))
  | inr e ↦ c k x (sym (lookup-remove path k cache ∙ rw e refl) ∙ h)
]
  where
    none_ne_some : {m : Metadata} → none ≡ some m → ⊥
    none_ne_some h = cc

-- An answer and a cache that are right for a path.
abbrev pub IsRight : Sources → Tenancy → Bytes → Result Metadata × MdCache → Type 0
IsRight s t path r = IsCache s t (r.1) × ((md : Metadata) → r.0 ≡ ok md → IsLoaded s t path md)

cached-IsRight :
    (s : Sources) (t : Tenancy) (cache : MdCache) (path : Bytes) (r : Result Metadata)
    → IsCache s t cache
    → ((md : Metadata) → r ≡ ok md → IsLoaded s t path md)
    → IsRight s t path (cached cache path r)
cached-IsRight s t cache path (err e) c l = (c, l)
cached-IsRight s t cache path (ok md) c l = (insert-IsCache s t cache path md c (l md refl), l)

hit_or-IsRight :
    (s : Sources) (t : Tenancy) (cache : MdCache) (path : Bytes) (o : Option Metadata)
    (r : Result Metadata × MdCache)
    → IsCache s t cache
    → ((md : Metadata) → o ≡ some md → IsLoaded s t path md)
    → IsRight s t path r
    → IsRight s t path (hit_or cache o r)
hit_or-IsRight s t cache path none r c l right = right
hit_or-IsRight s t cache path (some md) r c l right =
    (c, λ md' h. subst (IsLoaded s t path) (ok_inj h) (l md refl))

-- A lookup through the cache keeps every entry the metadata that is in the store under the entry's own
-- path (with a single tenant, its metadata), with no field changed but the path and the bytes of the
-- namespaces, which are decoded from their ids; the cache stays so when it drops an entry. What the
-- lookup gives is so for the path that was asked for.
pub load_md_with_cache-IsCache :
    (s : Sources) (t : Tenancy) (cache : MdCache) (path : Bytes)
    → IsCache s t cache
    → IsCache s t (load_md_with_cache s t cache path).1
      × ((dropped : Bytes) → IsCache s t (remove dropped cache))
      × ((md : Metadata) → (load_md_with_cache s t cache path).0 ≡ ok md → IsLoaded s t path md)
unfolding load_md_with_cache
load_md_with_cache-IsCache s t cache path c =
    let (kept, loaded) =
      hit_or-IsRight s t cache path (lookup path cache) (cached cache path (load_md s t path)) c
        (c path) (cached-IsRight s t cache path (load_md s t path) c (load_md-IsLoaded s t path)) in
    (kept, λ dropped. remove-IsCache s t cache dropped c, loaded)
