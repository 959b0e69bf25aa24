-- ===== src/Kv/Limits.antt =====
-- src/api/kv/mod.rs: what `api_kv_*` checks in the worker before a request is sent.
use blueboat.Prelude.{
  ℕ, ◌≤◌, Bytes, codes, Bool, true, false, List, [], ◌∷◌, ltb, length, All, ◌≡◌, ◌↔◌, refl, arith,
  ◌∙◌,
}
use blueboat.Prelude.Result.{Result, ok, err, ◌>>=◌, >>=-ok, ok_inj}
use blueboat.Kv.{
  TriStateCheck, absent, any, TriStateSet, delete, preserve, with_versionstamped_key, CasKey,
}

abbrev pub max_keys_per_op : ℕ
max_keys_per_op = 1000

abbrev pub max_key_size : ℕ
max_key_size = 4096

abbrev pub max_value_size : ℕ
max_value_size = 80000

abbrev fail_if : Bool → Bytes → Result (Unit {0})
fail_if true e = err e
fail_if false e = ok tt

infixl 5 ◌>>◌
abbrev ◌>>◌ {ℓ} : {W : Type ℓ} (check : Result (Unit {0})) (next : Result W) → Result W
check >> next = check >>= λ passed. next

-- `for k in &req.keys` of `api_kv_get_many`.
unfoldable pub check_keys : List Bytes → Result (Unit {0})
check_keys [] = ok tt
check_keys (k ∷ ks) = do
  fail_if (ltb max_key_size (length k)) (codes "key too large")
  check_keys ks

unfoldable pub check_get_many : List Bytes → Result (List Bytes)
unfolding check_keys
check_get_many keys = do
  fail_if (ltb max_keys_per_op (length keys)) (codes "too many keys")
  check_keys keys
  ok keys

-- A request as JavaScript gives it: its values are still handles.
pub record JsCasKey (V : Type 0) : Type 0 where
  pub key : Bytes
  pub check : TriStateCheck V
  pub set : TriStateSet V

-- `encode`: `to_vec` takes the bytes of a typed array, and fails on any other value.
module _ {V : Type 0} (to_vec : V → Result Bytes) where
  abbrev pub encode_check : TriStateCheck V → Result (TriStateCheck Bytes)
  encode_check absent = ok absent
  encode_check any = ok any
  encode_check (TriStateCheck.value x) = do v ← to_vec x; ok (TriStateCheck.value v)

  abbrev pub encode_set : TriStateSet V → Result (TriStateSet Bytes)
  encode_set delete = ok delete
  encode_set preserve = ok preserve
  encode_set (TriStateSet.value x) = do v ← to_vec x; ok (TriStateSet.value v)
  encode_set (with_versionstamped_key x) = do v ← to_vec x; ok (with_versionstamped_key v)

  unfoldable pub encode : List (JsCasKey V) → Result (List CasKey)
  encode [] = ok []
  encode (r ∷ rs) = do
    c ← encode_check r.check
    s ← encode_set r.set
    rest ← encode rs
    ok (record { key = r.key; check = c; set = s } ∷ rest)

abbrev check_size : TriStateCheck Bytes → Result (Unit {0})
check_size (TriStateCheck.value x) =
    fail_if (ltb max_value_size (length x)) (codes "TriStateCheck: value too large")
check_size _ = ok tt

abbrev set_size : TriStateSet Bytes → Result (Unit {0})
set_size (TriStateSet.value x) =
    fail_if (ltb max_value_size (length x)) (codes "TriStateSet: value too large")
set_size _ = ok tt

-- `for k in &req.keys` of `api_kv_compare_and_set_many` and of `api_kv_compare_and_set_many_1`.
unfoldable pub check_cas_keys : List CasKey → Result (Unit {0})
check_cas_keys [] = ok tt
check_cas_keys (k ∷ ks) = do
  fail_if (ltb max_key_size (length k.key)) (codes "key too large")
  check_size k.check
  set_size k.set
  check_cas_keys ks

unfoldable pub check_cas :
    {V : Type 0} → (V → Result Bytes) → List (JsCasKey V) → Result (List CasKey)
unfolding encode check_cas_keys
check_cas to_vec req = do
  fail_if (ltb max_keys_per_op (length req)) (codes "too many keys")
  keys ← encode to_vec req
  check_cas_keys keys
  ok keys

unfoldable pub check_prefix_list : Bytes → Result (Unit {0})
check_prefix_list prefix = fail_if (ltb max_key_size (length prefix)) (codes "prefix too large")

-- The sizes that the limits are about.
abbrev CheckFits : TriStateCheck Bytes → Type 0
CheckFits (TriStateCheck.value x) = length x ≤ max_value_size
CheckFits _ = Unit

abbrev SetFits : TriStateSet Bytes → Type 0
SetFits (TriStateSet.value x) = length x ≤ max_value_size
SetFits _ = Unit

abbrev pub Fits : CasKey → Type 0
Fits k = (length k.key ≤ max_key_size) × CheckFits k.check × SetFits k.set

check_size_iff : (c : TriStateCheck Bytes) → (check_size c ≡ ok tt) ↔ CheckFits c
check_size_iff (TriStateCheck.value x) = (λ h. ground arith, λ h. ground arith)
check_size_iff absent = (λ h. tt, λ h. refl)
check_size_iff any = (λ h. tt, λ h. refl)

set_size_iff : (s : TriStateSet Bytes) → (set_size s ≡ ok tt) ↔ SetFits s
set_size_iff (TriStateSet.value x) = (λ h. ground arith, λ h. ground arith)
set_size_iff delete = (λ h. tt, λ h. refl)
set_size_iff preserve = (λ h. tt, λ h. refl)
set_size_iff (with_versionstamped_key x) = (λ h. tt, λ h. refl)

then_ok :
    {A : Type 0} (m : Result (Unit {0})) (n : Result A) (a : A)
    → ((m >> n) ≡ ok a) ↔ (m ≡ ok tt) × (n ≡ ok a)
then_ok (ok tt) n a = (λ h. (refl, h), λ h. h.1)
then_ok (err e) n a = (λ h. cc, λ h. cc)

key_size_iff :
    (k : Bytes) (e : Bytes)
    → (fail_if (ltb max_key_size (length k)) e ≡ ok tt) ↔ (length k ≤ max_key_size)
key_size_iff k e = (λ h. ground arith, λ h. ground arith)

-- The checks of a compare-and-set pass exactly when each key is at most 4096 bytes and each value
-- that is checked or set is at most 80000 bytes.
check_cas_keys_iff : (ks : List CasKey) → (check_cas_keys ks ≡ ok tt) ↔ All Fits ks
unfolding check_cas_keys
check_cas_keys_iff [] = (λ h. tt, λ h. refl)
check_cas_keys_iff (k ∷ ks) = (
  λ h.
      let a = (then_ok _ _ tt).0 h in
      let b = (then_ok _ _ tt).0 a.1 in
      let c = (then_ok _ _ tt).0 b.1 in
      (
        ((key_size_iff k.key _).0 a.0, (check_size_iff k.check).0 b.0, (set_size_iff k.set).0 c.0),
        (check_cas_keys_iff ks).0 c.1,
      ),
  λ h. (then_ok _ _ tt).1 (
    (key_size_iff k.key _).1 h.0.0,
    (then_ok _ _ tt).1 (
      (check_size_iff k.check).1 h.0.1,
      (then_ok _ _ tt).1 ((set_size_iff k.set).1 h.0.2, (check_cas_keys_iff ks).1 h.1),
    ),
  ),
)

pub check_cas_iff :
    {V : Type 0} (to_vec : V → Result Bytes) (req : List (JsCasKey V)) (keys : List CasKey)
    → (check_cas to_vec req ≡ ok keys)
      ↔ ((length req ≤ max_keys_per_op) × (encode to_vec req ≡ ok keys) × All Fits keys)
unfolding check_cas
check_cas_iff to_vec req keys = (
  λ h.
      let a = (then_ok _ _ keys).0 h in
      let (ks, e, r) = >>=-ok (encode to_vec req) _ a.1 in
      let b = (then_ok (check_cas_keys ks) (ok ks) keys).0 r in
      (ground arith, e ∙ b.1, rw (← ok_inj b.1) ((check_cas_keys_iff ks).0 b.0)),
  λ h. rw (h.1, (check_cas_keys_iff keys).1 h.2) ((then_ok _ _ keys).1 (ground arith, refl)),
)

-- Whatever its size, a value to be written at a versionstamped key passes.
versionstamped_value_unlimited :
    (k x : Bytes)
    → length k ≤ max_key_size
    → check_cas {V = Bytes} ok
        (record { key = k; check = any; set = with_versionstamped_key x } ∷ [])
      ≡ ok (record { key = k; check = any; set = with_versionstamped_key x } ∷ [])
versionstamped_value_unlimited k x h =
    (check_cas_iff ok _ _).1 (omega arith, unfold encode in refl, ((h, tt, tt), tt))
