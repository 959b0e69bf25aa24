-- ===== src/Mysql/Casts.antt =====
-- Values that go to MySQL and come back, and the numbers that are refused.
use blueboat.Prelude.{
  ℕ, ◌+◌, ◌^◌, Bytes, codes, Bool, true, false, List, [], ◌∷◌, Option, none, some, some_inj, inl,
  inr, ◌⊎◌, ◌↔◌, ◌≡◌, ◌≢◌, refl, sym, subst, arith, if◌then◌else◌, length, ◌==◌,
}
use blueboat.Prelude.Int.{ℤ, pos, negsuc, fits_signed, fits_unsigned, pos_part}
use blueboat.Prelude.Result.{Result, ok, err, ◌>>=◌, >>=-ok, ok_inj, if-ok}
use blueboat.Mysql.{
  ValueSpec, int, big_int, float, string, binary, date, JsHost, Value, bytes, int_value, uint_value,
  JsValue, js_null, js_undefined, js_number, js_bigint, js_string, js_uint8array, cast_value_to_js,
  of_bigint, of_number, cast_value_from_js, decoded, decode_row, decode_rows, length_error,
  decode_mysql,
}

module _ (js : JsHost) where
  -- V8's own texts can be read again.
  abbrev pub ReadsTexts : (js.Str → js.Str) → Type 0
  ReadsTexts well_formed = (s : js.Str) → js.new_from_utf8 (js.write_utf8 s) ≡ some (well_formed s)

  -- How a value looks after a round trip.
  abbrev pub read_int : js.Num → Option ℤ → js.Num
  read_int x none = x
  read_int x (some z) = js.of_int z

  abbrev pub read_back : (js.Str → js.Str) → ValueSpec → JsValue js → JsValue js
  read_back well_formed spec js_undefined = js_null
  read_back well_formed int (js_number x) = js_number (read_int x (js.as_int x))
  read_back well_formed spec (js_string s) = js_string (well_formed s)
  read_back well_formed spec v = v

  bigint_back :
      (z : ℤ) (x : Value js)
      → of_bigint js z ≡ ok x
      → cast_value_to_js js x big_int ≡ ok (js_bigint z)
  unfolding cast_value_to_js
  bigint_back (pos n) x h = ground arith
  bigint_back (negsuc n) x h = ground arith

  int_back :
      (o : Option ℤ) (n : js.Num) (x : Value js)
      → of_number js o ≡ ok x
      → cast_value_to_js js x int ≡ ok (js_number (read_int n o))
  unfolding cast_value_to_js
  int_back none n x h = cc
  int_back (some (pos m)) n x h = ground arith
  int_back (some (negsuc m)) n x h = ground arith

  string_back :
      (well_formed : js.Str → js.Str) (s : js.Str)
      → ReadsTexts well_formed
      → cast_value_to_js js (bytes (js.write_utf8 s)) string ≡ ok (js_string (well_formed s))
  unfolding cast_value_to_js
  string_back well_formed s reads = rw (reads s) refl

  -- A value that an application passes to MySQL as any type but a date comes back, read as the same
  -- type, as it was: `undefined` as null, a number as the float of its integer, and a text with what was
  -- not well-formed replaced.
  pub cast_back :
      (well_formed : js.Str → js.Str) (spec : ValueSpec) (v : JsValue js) (x : Value js)
      → ReadsTexts well_formed
      → spec ≢ date
      → cast_value_from_js js v spec ≡ ok x
      → cast_value_to_js js x spec ≡ ok (read_back well_formed spec v)
  unfolding cast_value_from_js cast_value_to_js
  cast_back wf spec js_null x reads nd h = rw (sym (ok_inj h)) refl
  cast_back wf int js_undefined x reads nd h = rw (sym (ok_inj h)) refl
  cast_back wf big_int js_undefined x reads nd h = rw (sym (ok_inj h)) refl
  cast_back wf float js_undefined x reads nd h = rw (sym (ok_inj h)) refl
  cast_back wf string js_undefined x reads nd h = rw (sym (ok_inj h)) refl
  cast_back wf binary js_undefined x reads nd h = rw (sym (ok_inj h)) refl
  cast_back wf int (js_number n) x reads nd h = int_back (js.as_int n) n x h
  cast_back wf float (js_number n) x reads nd h = rw (sym (ok_inj h)) refl
  cast_back wf big_int (js_bigint z) x reads nd h = bigint_back z x h
  cast_back wf string (js_string s) x reads nd h = rw (sym (ok_inj h)) (string_back wf s reads)
  cast_back wf binary (js_uint8array b) x reads nd h = rw (sym (ok_inj h)) refl
  cast_back wf date v x reads nd h = absurd (nd refl)
  cast_back wf spec v x reads nd h = cc

  two_tests :
      (a b : Bool) (u v : Value js) (e : Bytes)
      → ((x : Value js) × ((if a then ok u else if b then ok v else err e) ≡ ok x))
        ↔ ((a ≡ true) ⊎ (b ≡ true))
  two_tests true b u v e = (λ f. inl refl, λ f. (u, refl))
  two_tests false true u v e = (λ f. inr refl, λ f. (v, refl))
  two_tests false false u v e = (λ f. cc (f.1), λ f. ground arith)

  number_tests :
      (o : Option ℤ)
      → ((x : Value js) × (of_number js o ≡ ok x)) ↔ (
          (i : ℤ) × (o ≡ some i)
          × ((fits_unsigned (2 ^ 32) i ≡ true) ⊎ (fits_signed (2 ^ 31) i ≡ true)))
  number_tests none = (λ f. cc (f.1), λ f. cc (f.1))
  number_tests (some i) =
      let (there, back) =
        two_tests (fits_unsigned (2 ^ 32) i) (fits_signed (2 ^ 31) i) (uint_value (pos_part i))
          (int_value i) (codes "mysql value cast error: int out of range") in
      (λ f. (i, refl, there f), λ f. back (subst InRange (sym (some_inj (f.1))) (f.2)))
    where
      InRange : ℤ → Type 0
      InRange j = (fits_unsigned (2 ^ 32) j ≡ true) ⊎ (fits_signed (2 ^ 31) j ≡ true)

  -- An application's number is taken as an integer exactly where it is one from -2^31 to 2^32 - 1, and a
  -- bigint exactly where it is from -2^63 to 2^64 - 1.
  int_accepted :
      (n : js.Num) (z : ℤ)
      → (((x : Value js) × (cast_value_from_js js (js_number n) int ≡ ok x)) ↔ (
          (i : ℤ) × (js.as_int n ≡ some i)
          × ((fits_unsigned (2 ^ 32) i ≡ true) ⊎ (fits_signed (2 ^ 31) i ≡ true))))
        × (((x : Value js) × (cast_value_from_js js (js_bigint z) big_int ≡ ok x))
            ↔ ((fits_signed (2 ^ 63) z ≡ true) ⊎ (fits_unsigned (2 ^ 64) z ≡ true)))
  unfolding cast_value_from_js
  int_accepted n z = (
    number_tests (js.as_int n),
    two_tests (fits_signed (2 ^ 63) z) (fits_unsigned (2 ^ 64) z) (int_value z)
        (uint_value (pos_part z)) (codes "mysql value cast error: bigint out of range"),
  )

  abbrev pub IsCast : List (Value js) → List ValueSpec → List (JsValue js) → Type 0
  IsCast [] [] [] = Unit {0}
  IsCast (x ∷ xs) (spec ∷ specs) (v ∷ vs) = (cast_value_to_js js x spec ≡ ok v) × IsCast xs specs vs
  IsCast _ _ _ = ⊥

  abbrev pub AreCast : List (List (Value js)) → List ValueSpec → List (List (JsValue js)) → Type 0
  AreCast [] specs [] = Unit {0}
  AreCast (x ∷ xs) specs (v ∷ vs) = IsCast x specs v × AreCast xs specs vs
  AreCast _ specs _ = ⊥

  decoded_ok :
      (i j : ℕ) (r : Result (JsValue js)) (rest : Result (List (JsValue js)))
      (vs : List (JsValue js))
      → decoded js i j r rest ≡ ok vs
      → (v : JsValue js) × (ws : List (JsValue js)) × (r ≡ ok v) × (rest ≡ ok ws) × (vs ≡ v ∷ ws)
  decoded_ok i j (err e) rest vs h = cc
  decoded_ok i j (ok v) (err e) vs h = cc
  decoded_ok i j (ok v) (ok ws) vs h = (v, ws, refl, refl, sym (ok_inj h))

  row-IsCast :
      (i j : ℕ) (xs : List (Value js)) (specs : List ValueSpec) (vs : List (JsValue js))
      → length xs ≡ length specs
      → decode_row js i j xs specs ≡ ok vs
      → IsCast xs specs vs
  unfolding decode_row
  row-IsCast i j [] [] [] l h = tt
  row-IsCast i j [] [] (v ∷ vs) l h = cc
  row-IsCast i j [] (spec ∷ specs) vs l h = absurd (omega arith)
  row-IsCast i j (x ∷ xs) [] vs l h = absurd (omega arith)
  row-IsCast i j (x ∷ xs) (spec ∷ specs) vs l h =
      let (v, ws, at, goes, same) =
        decoded_ok i j (cast_value_to_js js x spec) (decode_row js i (j + 1) xs specs) vs h in
      subst (IsCast (x ∷ xs) (spec ∷ specs)) (sym same)
        (at, row-IsCast i (j + 1) xs specs ws (omega arith) goes)

  rows_cast :
      (i : ℕ) (rows : List (List (Value js))) (specs : List ValueSpec)
      (out : List (List (JsValue js)))
      → decode_rows js i rows specs ≡ ok out
      → AreCast rows specs out
  unfolding decode_rows
  rows_cast i [] specs [] h = tt
  rows_cast i [] specs (v ∷ vs) h = cc
  rows_cast i (x ∷ xs) specs out h =
      let (long, goes) =
        if-ok (length x == length specs)
          (decode_row js i 0 x specs
            >>= (λ row. decode_rows js (i + 1) xs specs >>= (λ rows. ok (row ∷ rows))))
          (length_error js (length specs) (length x)) h in
      let (row, at, rest) =
        >>=-ok (decode_row js i 0 x specs)
          (λ row. decode_rows js (i + 1) xs specs >>= (λ rows. ok (row ∷ rows))) goes in
      let (rows, there, same) =
        >>=-ok (decode_rows js (i + 1) xs specs) (λ rows. ok (row ∷ rows)) rest in
      subst (AreCast (x ∷ xs) specs) (ok_inj same) (
        row-IsCast i 0 x specs row (eq_of_== (length x) (length specs) long) at,
        rows_cast (i + 1) xs specs rows there,
      )
    where
      eq_of_== : (a b : ℕ) → (a == b) ≡ true → a ≡ b
      eq_of_== a b e = ground arith

  -- A query that is answered is answered with a row for each row of the database, which has as many
  -- values as the application gave types, each the cast of the value in its place.
  decode_cast :
      (res : Result (List (List (Value js)))) (specs : List ValueSpec)
      (out : List (List (JsValue js)))
      → decode_mysql js res specs ≡ ok out
      → (rows : List (List (Value js))) × (res ≡ ok rows) × AreCast rows specs out
  unfolding decode_mysql
  decode_cast res specs out h =
      let (rows, at, goes) = >>=-ok res (λ rows. decode_rows js 0 rows specs) h in
      (rows, at, rows_cast 0 rows specs out goes)
