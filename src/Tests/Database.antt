-- ===== src/Tests/Database.antt =====
-- A database for the witnesses: a table, the tuple encoding, and the versionstamped operations.
use blueboat.Prelude.{
  ℕ, ◌+◌, ◌-◌, ◌*◌, ◌^◌, ◌<◌, Bytes, Bool, List, [], ◌∷◌, ◌++◌, append_assoc, Option, none, some,
  eqb, length, take-append_length, drop-append_length, append-nil, length-append, take, drop,
  drop-append_add, keep_if, if◌then◌else◌, ◌≡◌, refl, sym, ap, ap₂, ◌∙◌, arith,
}
use blueboat.Prelude.Table.{Table, lookup, insert, remove, lookup-insert, lookup-remove}
use blueboat.Fdb.{
  Fdb, Mutation, set_key, clear_key, versionstamped_key, versionstamped_value, ReadsWrites,
  CommitWrites, ScansInOrder, PacksTuples, Stamps, in_range, ordered, le32, zeros,
}
use blueboat.Tests.Tuples.{
  encode_tuple, decode_tuple, outside, decode_tuple-encode_tuple, encode_tuple-append,
  encode_tuple_delimited,
}

abbrev le32_value : Bytes → ℕ
le32_value (a ∷ b ∷ c ∷ d ∷ rest) = a + b * 256 + c * 65536 + d * 16777216
le32_value _ = 0

-- The stamp over ten bytes at the offset, less the four bytes of the offset.
unfoldable pub put_stamp : Bytes → Bytes → Bytes
put_stamp x v =
    let body = take (length x - 4) x in
    let at = le32_value (drop (length x - 4) x) in take at body ++ (v ++ drop (at + 10) body)

unfoldable pub apply : Table Bytes → List Mutation → Bytes → Table Bytes
unfolding put_stamp
apply s [] v = s
apply s (set_key k x ∷ log) v = insert k x (apply s log v)
apply s (clear_key k ∷ log) v = remove k (apply s log v)
apply s (versionstamped_key k x ∷ log) v = insert (put_stamp k v) x (apply s log v)
apply s (versionstamped_value k x ∷ log) v = insert k (put_stamp x v) (apply s log v)

-- A read in a transaction.
unfoldable pub read : Table Bytes → List Mutation → Bytes → Option Bytes
read s [] j = lookup j s
read s (set_key k x ∷ log) j = let rest = read s log j in if eqb k j then some x else rest
read s (clear_key k ∷ log) j = let rest = read s log j in if eqb k j then none else rest
read s (versionstamped_key k x ∷ log) j = read s log j
read s (versionstamped_value k x ∷ log) j = read s log j

unfoldable pub scan : Table Bytes → Bytes → Bytes → Bool → ℕ → Table Bytes
scan s start end rev limit = take limit (ordered rev (keep_if (in_range start end) s))

abbrev pub db : Fdb
db = record {
  Store = Table Bytes;
  get = read;
  pairs = λ s. s;
  get_range = scan;
  commit = apply;
  stamp = put_stamp;
  pack = encode_tuple;
  unpack = decode_tuple outside;
}

length-le32 : (n : ℕ) → length (le32 n) ≡ 4
unfolding le32
length-le32 n = omega arith

pub db-ReadsWrites : ReadsWrites db
unfolding read
db-ReadsWrites = record {
  get-set_key = λ s log k v j. refl;
  get-clear_key = λ s log k j. refl;
  get-versionstamped_key = λ s log k v j. refl;
}

pub db-CommitWrites : CommitWrites db
unfolding read apply
db-CommitWrites = record {
  commit-nil = λ s v j. refl;
  commit-set_key = λ s log k x v j. lookup-insert k j x (apply s log v);
  commit-clear_key = λ s log k v j. lookup-remove k j (apply s log v);
  commit-versionstamped_key = λ s log k x v j. lookup-insert (put_stamp k v) j x (apply s log v);
  commit-versionstamped_value = λ s log k x v j. lookup-insert k j (put_stamp x v) (apply s log v);
}

pub db-ScansInOrder : ScansInOrder db
unfolding scan
db-ScansInOrder = record {
  get_range_lem = λ s start end rev limit h. (limit, h, omega arith, refl);
}

pub db-PacksTuples : PacksTuples db
unfolding encode_tuple
db-PacksTuples = record {
  pack-append = encode_tuple-append;
  pack-nil = refl;
  unpack-pack = decode_tuple-encode_tuple;
  pack_delimited = encode_tuple_delimited;
  pack_code = λ a. (_, refl);
}

le32_value-le32 : (n : ℕ) → n < 2 ^ 32 → le32_value (le32 n) ≡ n
unfolding le32
le32_value-le32 n h = omega arith

put_stamp_lem :
    (p v : Bytes) → length p < 2 ^ 32 → put_stamp (p ++ (zeros 10 ++ le32 (length p))) v ≡ p ++ v
unfolding put_stamp
put_stamp_lem p v small =
    rw
      (
        sym (append_assoc p (zeros 10) (le32 (length p))),
        cut,
        take_body,
        offset,
        le32_value-le32 (length p) small,
      )
      (ap₂ (λ a b. a ++ (v ++ b)) (take-append_length p (zeros 10))
          (drop-append_add (length p + 10) p (zeros 10) 10 refl)
        ∙ ap (λ t. p ++ t) (append-nil v))
  where
    body : Bytes
    body = p ++ zeros 10

    cut : length (body ++ le32 (length p)) - 4 ≡ length body
    cut = omega (arith, length-append body (le32 (length p)), length-le32 (length p))

    take_body : take (length body) (body ++ le32 (length p)) ≡ body
    take_body = take-append_length body (le32 (length p))

    offset : drop (length body) (body ++ le32 (length p)) ≡ le32 (length p)
    offset = drop-append_length body (le32 (length p))

pub db-Stamps : Stamps db
db-Stamps = record { stamp_lem = λ p v small ten. put_stamp_lem p v small }
