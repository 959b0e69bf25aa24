-- ===== src/Aead.antt =====
-- src/api/crypto/aead.rs: AES-GCM-SIV over a buffer that has room for the tag. The cipher is a parameter;
-- `encrypt_in_place` and `decrypt_in_place` of the crate `aead` reach the buffer by the methods of this
-- file.
pub mod Roundtrip
use blueboat.Prelude.{
  ℕ, ◌+◌, ◌-◌, ◌^◌, min, Bytes, codes, Bool, true, false, ◌&&◌, List, [], ◌++◌, Option, none, some,
  ◌==◌, ltb, leb, if◌then◌else◌, length, take, drop, replicate,
}
use blueboat.Prelude.Result.{Result, ok, err, ◌>>=◌}

-- The cipher on whole messages: a ciphertext of the plaintext's length and a tag, and back.
pub record Cipher : Type 0 where
  pub seal : Bytes → Bytes → Bytes → Bytes → Option (Bytes × Bytes)
  pub unseal : Bytes → Bytes → Bytes → Bytes → Bytes → Option Bytes

pub record AesGcmSivParams : Type 0 where
  pub key : Bytes
  pub nonce : Bytes
  pub payload : Bytes
  pub associated_data : Option Bytes

-- The arguments, as `read_bytes_assume_noalias` reads them; `none` is null or undefined.
pub record AeadArgs : Type 0 where
  pub key_arg : Result Bytes
  pub nonce_arg : Result Bytes
  pub data_arg : Result Bytes
  pub associated_arg : Option (Result Bytes)

abbrev pub try_from_slice : ℕ → Bytes → Result Bytes
try_from_slice n slice = if length slice == n then ok slice else err (codes "invalid slice length")

abbrev pub read_associated : Option (Result Bytes) → Result (Option Bytes)
read_associated none = ok none
read_associated (some r) = r >>= (λ b. ok (some b))

unfoldable pub from_args : AeadArgs → Result AesGcmSivParams
from_args a = (a.key_arg >>= try_from_slice 16) >>= (λ k.
    (a.nonce_arg >>= try_from_slice 12) >>= (λ n. a.data_arg >>= (λ d.
      read_associated a.associated_arg
      >>= (λ x. ok (record { key = k; nonce = n; payload = d; associated_data = x })))))

pub record AeadBuffer : Type 0 where
  pub backing : Bytes
  pub len : ℕ

-- `panics` is a failed assertion.
pub data Outcome (V : Type 0) : Type 0 where
  done : V → Outcome V
  fails : Bytes → Outcome V
  panics : Outcome V

abbrev pub then_do : {V W : Type 0} → Outcome V → (V → Outcome W) → Outcome W
then_do (done v) f = f v
then_do (fails m) f = fails m
then_do panics f = panics

abbrev pub as_ref : AeadBuffer → Bytes
as_ref b = take b.len b.backing

-- What is written through `as_mut`, of the same length.
abbrev pub write_over : Bytes → AeadBuffer → AeadBuffer
write_over xs b = record b { backing = xs ++ drop b.len b.backing }

-- `checked_add` on 64 bits.
unfoldable pub extend_from_slice : Bytes → AeadBuffer → Option AeadBuffer
extend_from_slice other b =
    if ltb (b.len + length other) (2 ^ 64) && leb (b.len + length other) (length b.backing)
    then some (record {
      backing = take b.len b.backing ++ other ++ drop (b.len + length other) b.backing;
      len = b.len + length other;
    })
    else none

unfoldable pub truncate : ℕ → AeadBuffer → Outcome AeadBuffer
truncate n b = if leb n b.len then done (record b { len = n }) else panics

abbrev pub or_failed : {V : Type 0} → Bytes → Option V → Outcome V
or_failed m none = fails m
or_failed m (some v) = done v

abbrev pub bytes_or_empty : Option Bytes → Bytes
bytes_or_empty none = []
bytes_or_empty (some b) = b

abbrev pub tag_size : ℕ
tag_size = 16

module _ (c : Cipher) where
  open c use {seal, unseal}

  abbrev pub appended : AeadBuffer → Option (Bytes × Bytes) → Option AeadBuffer
  appended b none = none
  appended b (some (ciphertext, tag)) = extend_from_slice tag (write_over ciphertext b)

  abbrev pub encrypt_in_place : AesGcmSivParams → AeadBuffer → Option AeadBuffer
  encrypt_in_place p b =
      appended b (seal p.key p.nonce (bytes_or_empty p.associated_data) (as_ref b))

  abbrev pub encrypt_failed : Bytes
  encrypt_failed = codes "aead_aes128_gcm_siv_encrypt failed"

  abbrev pub decrypt_failed : Bytes
  decrypt_failed = codes "aead_aes128_gcm_siv_decrypt failed"

  -- The assertion on the length, and `build_uint8array`.
  abbrev pub built : ℕ → AeadBuffer → Outcome Bytes
  built expected b =
      if b.len == expected then done (take (min (length b.backing) b.len) b.backing) else panics

  unfoldable pub encrypt : AesGcmSivParams → Outcome Bytes
  unfolding extend_from_slice
  encrypt p =
      then_do
        (or_failed encrypt_failed (
          encrypt_in_place p
            (record { backing = p.payload ++ replicate tag_size 0; len = length p.payload })))
        (λ b. built (length b.backing) b)

  abbrev pub truncated : AeadBuffer → ℕ → Bytes → Option Bytes → Outcome AeadBuffer
  truncated b tag_pos tag none = fails decrypt_failed
  truncated b tag_pos tag (some plaintext) = truncate tag_pos (write_over (plaintext ++ tag) b)

  abbrev pub decrypt_in_place : AesGcmSivParams → AeadBuffer → Outcome AeadBuffer
  decrypt_in_place p b =
      if ltb b.len tag_size
      then fails decrypt_failed
      else truncated b (b.len - tag_size) (drop (b.len - tag_size) (as_ref b)) (
          unseal p.key p.nonce (bytes_or_empty p.associated_data)
            (take (b.len - tag_size) (as_ref b)) (drop (b.len - tag_size) (as_ref b)))

  unfoldable pub decrypt : AesGcmSivParams → Outcome Bytes
  unfolding truncate
  decrypt p =
      then_do (decrypt_in_place p (record { backing = p.payload; len = length p.payload }))
        (λ b. built (length b.backing - tag_size) b)

  abbrev pub with_params :
      (AesGcmSivParams → Outcome Bytes) → Result AesGcmSivParams → Outcome Bytes
  with_params f (err m) = fails m
  with_params f (ok p) = f p

  unfoldable pub api_crypto_aead_aes128_gcm_siv_encrypt : AeadArgs → Outcome Bytes
  unfolding encrypt from_args
  api_crypto_aead_aes128_gcm_siv_encrypt a = with_params encrypt (from_args a)

  unfoldable pub api_crypto_aead_aes128_gcm_siv_decrypt : AeadArgs → Outcome Bytes
  unfolding decrypt from_args
  api_crypto_aead_aes128_gcm_siv_decrypt a = with_params decrypt (from_args a)
