-- ===== src/Prelude/Result.antt =====
-- `anyhow::Result`: an error is its message.
use blueboat.Prelude.Strings.{Bytes}
use mathlib.Core.Path.{◌≡◌, refl}
use mathlib.Core.Bool.{Bool, true, false}
use blueboat.Prelude.Tests.{if◌then◌else◌}
use mathlib.Core.Option.{Option, none, some}

pub data Result {ℓ} (V : Type ℓ) : Type ℓ where
  err : (message : Bytes) → Result V
  ok : V → Result V

infixl 5 ◌>>=◌
abbrev pub ◌>>=◌ {ℓ κ} : {V : Type ℓ} {W : Type κ} (r : Result V) (next : V → Result W) → Result W
err message >>= next = err message
ok v >>= next = next v

abbrev pub ok_or {ℓ} : {V : Type ℓ} → Option V → Bytes → Result V
ok_or (some v) message = ok v
ok_or none message = err message

-- What a chain that ends well has gone through.
pub >>=-ok {ℓ κ} :
    {A : Type ℓ} {W : Type κ} (r : Result A) (next : A → Result W) {w : W}
    → (r >>= next) ≡ ok w
    → (v : A) × (r ≡ ok v) × (next v ≡ ok w)
>>=-ok (err message) next h = cc
>>=-ok (ok v) next h = (v, refl, h)

pub ok_inj {ℓ} : {V : Type ℓ} {v v' : V} → ok v ≡ ok v' → v ≡ v'
ok_inj h = cc

-- Inversion of a guard.
pub if-ok {ℓ} :
    {V : Type ℓ} (test : Bool) (r : Result V) (message : Bytes) {v : V}
    → (if test then r else err message) ≡ ok v
    → (test ≡ true) × (r ≡ ok v)
if-ok true r message h = (refl, h)
if-ok false r message h = cc
