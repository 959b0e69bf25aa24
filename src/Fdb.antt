-- ===== src/Fdb.antt =====
-- FoundationDB as the program uses it (the crate `foundationdb`, not in the repository): a
-- parameter, with the documented behaviour of the calls as laws. A transaction is the snapshot
-- that it reads and the mutations that it has buffered, newest first.
use blueboat.Prelude.{
  ℕ, ◌<◌, ◌≤◌, ◌/◌, ◌%◌, ◌^◌, ◌≡◌, refl, Bool, true, false, Option, some, none, List, [], ◌∷◌, ◌++◌,
  Bytes, eqb, take, keep_if, if◌then◌else◌, length, replicate, ◌==◌,
}
use blueboat.Prelude.Table.{Table}
use blueboat.Prelude.Order.{between}
use mathlib.Core.List.{reverse}

pub data Mutation : Type 0 where
  set_key : Bytes → Bytes → Mutation
  clear_key : Bytes → Mutation
  versionstamped_key : Bytes → Bytes → Mutation
  versionstamped_value : Bytes → Bytes → Mutation

abbrev pub in_range : Bytes → Bytes → Bytes × Bytes → Bool
in_range start end kv = between start end kv.0

abbrev pub ordered {ℓ} : {A : Type ℓ} → Bool → List A → List A
ordered true xs = reverse xs
ordered false xs = xs

pub record Fdb : Type 1 where
  -- What has been committed.
  pub Store : Type 0
  -- A read in a transaction.
  pub get : Store → List Mutation → Bytes → Option Bytes
  -- The pairs of a store, in the order of their keys.
  pub pairs : Store → Table Bytes
  -- `get_range` of a transaction that has written nothing: start, end, reverse, limit.
  pub get_range : Store → Bytes → Bytes → Bool → ℕ → Table Bytes
  -- The store after a commit at a versionstamp.
  pub commit : Store → List Mutation → Bytes → Store
  -- The key, or the value, that a versionstamped operation writes.
  pub stamp : Bytes → Bytes → Bytes
  -- `tuple::pack` and `tuple::unpack` of strings.
  pub pack : List Bytes → Bytes
  pub unpack : Bytes → Option (List Bytes)

-- A transaction reads its own writes.
pub record ReadsWrites (f : Fdb) : Type 0 where
  pub get-set_key :
      (s : f.Store) (log : List Mutation) (k v j : Bytes)
      → f.get s (set_key k v ∷ log) j ≡ (if eqb k j then some v else f.get s log j)
  pub get-clear_key :
      (s : f.Store) (log : List Mutation) (k j : Bytes)
      → f.get s (clear_key k ∷ log) j ≡ (if eqb k j then none else f.get s log j)
  -- A versionstamped key is not known before the commit, so other keys read as before.
  pub get-versionstamped_key :
      (s : f.Store) (log : List Mutation) (k v j : Bytes)
      → f.get s (versionstamped_key k v ∷ log) j ≡ f.get s log j

-- A commit makes the writes visible, in their order.
pub record CommitWrites (f : Fdb) : Type 0 where
  pub commit-nil : (s : f.Store) (v j : Bytes) → f.get (f.commit s [] v) [] j ≡ f.get s [] j
  pub commit-set_key :
      (s : f.Store) (log : List Mutation) (k x v j : Bytes)
      → f.get (f.commit s (set_key k x ∷ log) v) [] j
        ≡ (if eqb k j then some x else f.get (f.commit s log v) [] j)
  pub commit-clear_key :
      (s : f.Store) (log : List Mutation) (k v j : Bytes)
      → f.get (f.commit s (clear_key k ∷ log) v) [] j
        ≡ (if eqb k j then none else f.get (f.commit s log v) [] j)
  pub commit-versionstamped_key :
      (s : f.Store) (log : List Mutation) (k x v j : Bytes)
      → f.get (f.commit s (versionstamped_key k x ∷ log) v) [] j
        ≡ (if eqb (f.stamp k v) j then some x else f.get (f.commit s log v) [] j)
  pub commit-versionstamped_value :
      (s : f.Store) (log : List Mutation) (k x v j : Bytes)
      → f.get (f.commit s (versionstamped_value k x ∷ log) v) [] j
        ≡ (if eqb k j then some (f.stamp x v) else f.get (f.commit s log v) [] j)

-- One call of `get_range`, with StreamingMode::WantAll and without the calls that fetch what it has
-- left, gives the first pairs from `start` up to, and without, `end`: `limit` of them or fewer, as the
-- size of a reply is bounded too, but one at least where there is one.
pub record ScansInOrder (f : Fdb) : Type 0 where
  pub get_range_lem :
      (s : f.Store) (start end : Bytes) (rev : Bool) (limit : ℕ)
      → 0 < limit
      → (k : ℕ) × (0 < k)
        × (k ≤ limit)
        × (f.get_range s start end rev limit
            ≡ take k (ordered rev (keep_if (in_range start end) (f.pairs s))))

-- The byte 0xff, which after the zero byte at the end of a string would make that zero a part of it.
unfoldable pub starts_ff : Bytes → Bool
starts_ff [] = false
starts_ff (b ∷ bs) = b == 255

-- The tuple layer: concatenation of tuples is concatenation of their encodings; the encoding of a
-- string begins with the type code 2, and tells its own end where no 0xff follows.
pub record PacksTuples (f : Fdb) : Type 0 where
  pub pack-append : (xs ys : List Bytes) → f.pack (xs ++ ys) ≡ f.pack xs ++ f.pack ys
  pub pack-nil : f.pack [] ≡ []
  pub unpack-pack : (xs : List Bytes) → f.unpack (f.pack xs) ≡ some xs
  pub pack_delimited :
      (a b x y : Bytes)
      → starts_ff x ≡ false
      → starts_ff y ≡ false
      → f.pack (a ∷ []) ++ x ≡ f.pack (b ∷ []) ++ y
      → a ≡ b
  pub pack_code : (a : Bytes) → (r : Bytes) × (f.pack (a ∷ []) ≡ 2 ∷ r)

abbrev pub zeros : ℕ → Bytes
zeros n = replicate n 0

-- `(n as u32).to_le_bytes()`, and `LittleEndian::write_u32`.
unfoldable pub le32 : ℕ → Bytes
le32 n = n % 256 ∷ n / 256 % 256 ∷ n / 65536 % 256 ∷ n / 16777216 % 256 ∷ []

pub le32-cons : (n : ℕ) → (x : ℕ) × (xs : Bytes) × (le32 n ≡ x ∷ xs)
unfolding le32
le32-cons n = (_, _, refl)

-- A versionstamped operation puts the ten bytes of the stamp over the ten bytes at the offset that
-- the last four bytes tell, and drops these four.
pub record Stamps (f : Fdb) : Type 0 where
  pub stamp_lem :
      (p v : Bytes)
      → length p < 2 ^ 32
      → length v ≡ 10
      → f.stamp (p ++ (zeros 10 ++ le32 (length p))) v ≡ p ++ v
