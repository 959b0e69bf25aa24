-- ===== src/Mysql.antt =====
-- src/app_mysql.rs: the values that go between MySQL and V8, with the types that an application asks
-- for. Floats, dates and the strings of V8 are parameters.
pub mod Casts
pub mod Sessions
pub mod Transactions
use blueboat.Prelude.{
  ℕ, ◌^◌, Bytes, codes, Bool, true, false, List, [], ◌∷◌, Option, none, some, ◌==◌, and_then,
  if◌then◌else◌, ◌+◌, ◌++◌, length,
}
use blueboat.Prelude.Int.{ℤ, pos, negsuc, fits_signed, fits_unsigned, pos_part}
use blueboat.Prelude.Result.{Result, ok, err, ok_or, ◌>>=◌}

pub data ValueSpec : Type 0 where
  int : ValueSpec
  big_int : ValueSpec
  float : ValueSpec
  string : ValueSpec
  binary : ValueSpec
  date : ValueSpec

-- `ValueSpec::from_u8`.
unfoldable pub from_u8 : ℕ → Option ValueSpec
from_u8 b =
    if b == b'i'
    then some int
    else if b == b'I'
    then some big_int
    else if b == b'f'
    then some float
    else if b == b's'
    then some string
    else if b == b'b'
    then some binary
    else if b == b'd'
    then some date
    else none

-- Year, month, day, hour, minute, second and microsecond.
pub record DateParts : Type 0 where
  pub year : ℕ
  pub month : ℕ
  pub day : ℕ
  pub hour : ℕ
  pub minute : ℕ
  pub second : ℕ
  pub micro : ℕ

-- What other code knows of floats, dates and strings: `as_int` gives the integer that a finite float
-- with no fraction is, `of_int` is `as f64`, `as_u64` the saturating cast; `time_to_ms` and
-- `time_of_ms` are the `time` crate's, in milliseconds since the epoch; `new_from_utf8` fails for a
-- text that is too long for V8, and `write_utf8` replaces what is no UTF-8. `decimal` prints a number.
pub record JsHost : Type 1 where
  pub Num : Type 0
  pub Str : Type 0
  pub of_int : ℤ → Num
  pub as_int : Num → Option ℤ
  pub as_u64 : Num → ℕ
  pub of_f32 : Num → Num
  pub time_to_ms : DateParts → Result ℤ
  pub time_of_ms : ℕ → Option DateParts
  pub new_from_utf8 : Bytes → Option Str
  pub write_utf8 : Str → Bytes
  pub is_date : Num → Bool
  pub decimal : ℕ → Bytes

module _ (js : JsHost) where
  open js use {
    Num, Str, of_int, as_int, as_u64, of_f32, time_to_ms, time_of_ms, new_from_utf8, write_utf8,
    is_date, decimal,
  }

  -- `mysql_async::Value`. The integers of `int` are those of an `i64`, of `uint` those of a `u64`.
  pub data Value : Type 0 where
    null : Value
    bytes : Bytes → Value
    int_value : ℤ → Value
    uint_value : ℕ → Value
    float_value : Num → Value
    double_value : Num → Value
    date_value : DateParts → Value
    time_value : Value

  -- The values of V8 that are told apart.
  pub data JsValue : Type 0 where
    js_null : JsValue
    js_undefined : JsValue
    js_number : Num → JsValue
    js_bigint : ℤ → JsValue
    js_string : Str → JsValue
    js_uint8array : Bytes → JsValue
    js_date : Num → JsValue
    js_other : JsValue

  -- `{:?}` of a spec, and the error of a value that is not of its type.
  abbrev pub spec_name : ValueSpec → Bytes
  spec_name int = codes "Int"
  spec_name big_int = codes "BigInt"
  spec_name float = codes "Float"
  spec_name string = codes "String"
  spec_name binary = codes "Binary"
  spec_name date = codes "Date"

  abbrev pub mismatch : ValueSpec → Bytes
  mismatch spec = codes "spec type '" ++ (spec_name spec ++ codes "' does not match row type")

  abbrev pub out_of_range : Bytes
  out_of_range = codes "out of range integral type conversion attempted"

  abbrev pub when : Bool → JsValue → Bytes → Result JsValue
  when true v e = ok v
  when false v e = err e

  -- `u64::try_from(dt_ms)`, or else 0.
  abbrev pub date_of_ms : ℤ → Result JsValue
  date_of_ms ms =
      when (is_date (of_int (pos (pos_part ms)))) (js_date (of_int (pos (pos_part ms))))
        (codes "mysql value cast error: cannot build date from timestamp")

  -- The cast of a value that is not null.
  abbrev pub cast_to_js : Value → ValueSpec → Result JsValue
  cast_to_js (bytes x) binary = ok (js_uint8array x)
  cast_to_js (int_value x) int = when (fits_signed (2 ^ 31) x) (js_number (of_int x)) out_of_range
  cast_to_js (uint_value x) int =
      when (fits_unsigned (2 ^ 32) (pos x)) (js_number (of_int (pos x))) out_of_range
  cast_to_js (float_value x) float = ok (js_number (of_f32 x))
  cast_to_js (double_value x) float = ok (js_number x)
  cast_to_js (int_value x) big_int = ok (js_bigint x)
  cast_to_js (uint_value x) big_int = ok (js_bigint (pos x))
  cast_to_js (bytes x) string =
      ok_or (new_from_utf8 x) (codes "value too large") >>= (λ s. ok (js_string s))
  cast_to_js (date_value d) date = time_to_ms d >>= date_of_ms
  cast_to_js _ spec = err (mismatch spec)

  unfoldable pub cast_value_to_js : Value → ValueSpec → Result JsValue
  cast_value_to_js null spec = ok js_null
  cast_value_to_js (bytes x) spec = cast_to_js (bytes x) spec
  cast_value_to_js (int_value x) spec = cast_to_js (int_value x) spec
  cast_value_to_js (uint_value x) spec = cast_to_js (uint_value x) spec
  cast_value_to_js (float_value x) spec = cast_to_js (float_value x) spec
  cast_value_to_js (double_value x) spec = cast_to_js (double_value x) spec
  cast_value_to_js (date_value x) spec = cast_to_js (date_value x) spec
  cast_value_to_js time_value spec = cast_to_js time_value spec

  abbrev pub wrong_type : Bytes
  wrong_type = codes "expected another type"

  -- `x.i64_value()`, or else `x.u64_value()`.
  abbrev pub of_bigint : ℤ → Result Value
  of_bigint x =
      if fits_signed (2 ^ 63) x
      then ok (int_value x)
      else if fits_unsigned (2 ^ 64) x
      then ok (uint_value (pos_part x))
      else err (codes "mysql value cast error: bigint out of range")

  -- The tests `x >= 0.0 && x <= u32::MAX && x.trunc() == x`, and those of an `i32`.
  abbrev pub of_number : Option ℤ → Result Value
  of_number none = err (codes "mysql value cast error: int out of range")
  of_number (some x) =
      if fits_unsigned (2 ^ 32) x
      then ok (uint_value (pos_part x))
      else if fits_signed (2 ^ 31) x
      then ok (int_value x)
      else err (codes "mysql value cast error: int out of range")

  -- The cast of a value that is neither null nor undefined.
  abbrev pub cast_from_js : JsValue → ValueSpec → Result Value
  cast_from_js (js_bigint x) big_int = of_bigint x
  cast_from_js (js_uint8array x) binary = ok (bytes x)
  cast_from_js (js_string s) string = ok (bytes (write_utf8 s))
  cast_from_js (js_date ts) date =
      ok_or (time_of_ms (as_u64 ts)) (codes "mysql value cast error: invalid timestamp")
      >>= (λ d. ok (date_value d))
  cast_from_js (js_number x) int = of_number (as_int x)
  cast_from_js (js_number x) float = ok (double_value x)
  cast_from_js _ _ = err wrong_type

  unfoldable pub cast_value_from_js : JsValue → ValueSpec → Result Value
  cast_value_from_js js_null spec = ok null
  cast_value_from_js js_undefined spec = ok null
  cast_value_from_js (js_number x) spec = cast_from_js (js_number x) spec
  cast_value_from_js (js_bigint x) spec = cast_from_js (js_bigint x) spec
  cast_value_from_js (js_string x) spec = cast_from_js (js_string x) spec
  cast_value_from_js (js_uint8array x) spec = cast_from_js (js_uint8array x) spec
  cast_value_from_js (js_date x) spec = cast_from_js (js_date x) spec
  cast_value_from_js js_other spec = cast_from_js js_other spec

  abbrev pub cast_error : ℕ → ℕ → Bytes → Bytes
  cast_error i j e =
      codes "cannot decode result column at row "
      ++ (decimal i ++ (codes " column " ++ (decimal j ++ (codes ": " ++ e))))

  abbrev pub length_error : ℕ → ℕ → Bytes
  length_error specs row =
      codes "spec length of "
      ++ (decimal specs ++ (codes " does not match row length of " ++ decimal row))

  abbrev pub decoded : ℕ → ℕ → Result JsValue → Result (List JsValue) → Result (List JsValue)
  decoded i j (err e) rest = err (cast_error i j e)
  decoded i j (ok v) rest = rest >>= (λ vs. ok (v ∷ vs))

  -- The loop of `decode_mysql` over the columns of a row that has as many as the spec.
  unfoldable pub decode_row : ℕ → ℕ → List Value → List ValueSpec → Result (List JsValue)
  unfolding cast_value_to_js
  decode_row i j (x ∷ xs) (spec ∷ specs) =
      decoded i j (cast_value_to_js x spec) (decode_row i (j + 1) xs specs)
  decode_row i j _ _ = ok []

  unfoldable pub decode_rows : ℕ → List (List Value) → List ValueSpec → Result (List (List JsValue))
  decode_rows i [] spec = ok []
  decode_rows i (x ∷ xs) spec =
      if length x == length spec
      then decode_row i 0 x spec
        >>= (λ row. decode_rows (i + 1) xs spec >>= (λ rows. ok (row ∷ rows)))
      else err (length_error (length spec) (length x))

  unfoldable pub decode_mysql :
      Result (List (List Value)) → List ValueSpec → Result (List (List JsValue))
  unfolding decode_rows
  decode_mysql res spec = res >>= (λ rows. decode_rows 0 rows spec)
