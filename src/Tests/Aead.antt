-- ===== src/Tests/Aead.antt =====
-- A message that is encrypted and decrypted by a small cipher.
use blueboat.Prelude.{
  ◌+◌, Bytes, codes, Bool, true, false, ◌∷◌, none, some, eqb, if◌then◌else◌, length, replicate, ◌≡◌,
  ◌≢◌, refl, sym, ap, subst, some_inj,
}
use blueboat.Aead.{Cipher, AesGcmSivParams, done, panics, encrypt, decrypt, extend_from_slice}
use blueboat.Aead.Roundtrip.{CipherLaws, decrypt-encrypt}

abbrev fixed_tag : Bytes
fixed_tag = replicate 16 7

abbrev small_cipher : Cipher
small_cipher = record {
  seal = λ k n a x. some (x, fixed_tag);
  unseal = λ k n a ct tag. if eqb tag fixed_tag then some ct else none;
}

same_ciphertext :
    (b : Bool) (ct x : Bytes) → (if b then some ct else none) ≡ some x → length x ≡ length ct
same_ciphertext true ct x h = ap length (sym (some_inj h))
same_ciphertext false ct x h = cc

small_cipher-laws : CipherLaws small_cipher
unfolding eqb
small_cipher-laws = record {
  seal-length = λ k n a x ct tag h.
      (ap (λ t. length t.0) (sym (some_inj h)), ap (λ t. length t.1) (sym (some_inj h)));
  unseal-seal = λ k n a x ct tag h.
      subst (λ t. (if eqb t.1 fixed_tag then some t.0 else none) ≡ some x) (some_inj h) refl;
  unseal-length = λ k n a ct tag x h. same_ciphertext (eqb tag fixed_tag) ct x h;
}

abbrev message : AesGcmSivParams
message = record {
  key = replicate 16 1;
  nonce = replicate 12 2;
  payload = codes "hi";
  associated_data = none;
}

encrypted : encrypt small_cipher message ≡ done (104 ∷ 105 ∷ fixed_tag)
unfolding encrypt extend_from_slice
encrypted = refl

decrypt-encrypt_example :
    (encrypt small_cipher message ≢ panics)
    × (decrypt small_cipher message ≢ panics)
    × ((out : Bytes)
        → encrypt small_cipher message ≡ done out
        → (length out ≡ length message.payload + 16)
          × (decrypt small_cipher (record message { payload = out }) ≡ done message.payload))
decrypt-encrypt_example = decrypt-encrypt small_cipher small_cipher-laws message
