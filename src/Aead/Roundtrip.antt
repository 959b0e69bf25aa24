-- ===== src/Aead/Roundtrip.antt =====
-- src/api/crypto/aead.rs: what is encrypted is decrypted, and no assertion on the buffer fails.
use blueboat.Prelude.{
  ℕ, zero, suc, ◌+◌, ◌-◌, ◌^◌, ◌≤◌, min, Bytes, Bool, true, false, ◌&&◌, [], ◌∷◌, ◌++◌, Option,
  none, some, ltb, leb, if◌then◌else◌, length, take, drop, replicate, ◌≡◌, ◌≢◌, refl, sym, ap, ap₂,
  ◌∙◌, subst, arith, length-append, length-take, take-append_length, drop-append_length,
  drop-append_add, take-append_eq, drop-append_eq, append-nil, append_assoc, Option-cases,
  Bool-cases, inl, inr, ◌⊎◌, ==_true,
}
use blueboat.Aead.{
  Cipher, AesGcmSivParams, AeadBuffer, Outcome, done, fails, panics, then_do, extend_from_slice,
  truncate, or_failed, bytes_or_empty, appended, encrypt_failed, decrypt_failed, built, encrypt,
  truncated, decrypt,
}

-- What AES-GCM-SIV documents.
pub record CipherLaws (c : Cipher) : Type 0 where
  pub seal-length :
      (k n a x ct tag : Bytes)
      → c.seal k n a x ≡ some (ct, tag)
      → (length ct ≡ length x) × (length tag ≡ 16)
  pub unseal-seal :
      (k n a x ct tag : Bytes) → c.seal k n a x ≡ some (ct, tag) → c.unseal k n a ct tag ≡ some x
  pub unseal-length :
      (k n a ct tag x : Bytes) → c.unseal k n a ct tag ≡ some x → length x ≡ length ct

length-replicate : (n x : ℕ) → length (replicate n x) ≡ n
length-replicate zero x = refl
length-replicate (suc n) x = omega (arith, length-replicate n x)

length-drop : (n : ℕ) (xs : Bytes) → length (drop n xs) ≡ length xs - n
length-drop zero xs = omega arith
length-drop (suc n) [] = omega arith
length-drop (suc n) (x ∷ xs) = omega (arith, length-drop n xs)

drop-length : (n : ℕ) (xs : Bytes) → length xs ≤ n → drop n xs ≡ []
drop-length zero [] h = refl
drop-length zero (x ∷ xs) h = absurd (omega arith)
drop-length (suc n) [] h = refl
drop-length (suc n) (x ∷ xs) h = drop-length n xs (omega arith)

take-drop : (n : ℕ) (xs : Bytes) → take n xs ++ drop n xs ≡ xs
take-drop zero xs = refl
take-drop (suc n) [] = refl
take-drop (suc n) (x ∷ xs) = ap (λ t. x ∷ t) (take-drop n xs)

take_all : (n : ℕ) (xs : Bytes) → n ≡ length xs → take n xs ≡ xs
take_all n xs h = ap (take n) (sym (append-nil xs)) ∙ take-append_eq n xs [] h

pick :
    (b f : Bool) (x y : AeadBuffer)
    → f ≡ true
    → x ≡ y
    → (if b && f then some x else none) ≡ (if b then some y else none)
pick true f x y h e = rw (h, e) refl
pick false f x y h e = refl

extend_lem :
    (ct room tag : Bytes) (n : ℕ)
    → n ≡ length ct
    → length tag ≡ length room
    → extend_from_slice tag (record { backing = ct ++ room; len = n }) ≡ (
        if ltb (n + length tag) (2 ^ 64)
        then some (record { backing = ct ++ tag; len = n + length tag })
        else none)
unfolding extend_from_slice
extend_lem ct room tag n h e =
    pick (ltb (n + length tag) (2 ^ 64)) _ _ _ fits
      (ap (λ b. record { backing = b; len = n + length tag }) bytes)
  where
    fits : leb (n + length tag) (length (ct ++ room)) ≡ true
    fits = ground (arith, length-append ct room)

    bytes : take n (ct ++ room) ++ tag ++ drop (n + length tag) (ct ++ room) ≡ ct ++ tag
    bytes =
        ap₂ (λ x y. x ++ tag ++ y) (take-append_eq n ct room h)
          (drop-append_add (n + length tag) ct room (length tag) (omega arith)
            ∙ drop-length (length tag) room (omega arith))
        ∙ append-nil (ct ++ tag)

built_lem :
    (b : AeadBuffer) (xs ys : Bytes) (n : ℕ) (c : Cipher)
    → b.backing ≡ xs ++ ys
    → b.len ≡ length xs
    → n ≡ length xs
    → built c n b ≡ done xs
built_lem b xs ys n c e l h =
    ap₂ (λ t z. if t then done z else panics) (==_true b.len n (omega arith)) taken
  where
    taken : take (min (length b.backing) b.len) b.backing ≡ xs
    taken =
        ap (take (min (length b.backing) b.len)) e
        ∙ take-append_eq (min (length b.backing) b.len) xs ys
            (omega (arith, ap length e, length-append xs ys))

module _ (c : Cipher) (laws : CipherLaws c) where
  open c use {seal, unseal}

  abbrev sealed : AesGcmSivParams → Option (Bytes × Bytes)
  sealed p = seal p.key p.nonce (bytes_or_empty p.associated_data) p.payload

  abbrev room_for_tag : AesGcmSivParams → AeadBuffer
  room_for_tag p = record { backing = p.payload ++ replicate 16 0; len = length p.payload }

  abbrev built_whole : Option AeadBuffer → Outcome Bytes
  built_whole o = then_do (or_failed (encrypt_failed c) o) (λ b. built c (length b.backing) b)

  encrypt_eq :
      (p : AesGcmSivParams) → encrypt c p ≡ built_whole (appended c (room_for_tag p) (sealed p))
  unfolding encrypt
  encrypt_eq p =
      ap
        (λ x.
          built_whole
            (appended c (room_for_tag p) (seal p.key p.nonce (bytes_or_empty p.associated_data) x)))
        (take-append_length p.payload (replicate 16 0))

  encrypt-none : (p : AesGcmSivParams) → sealed p ≡ none → encrypt c p ≡ fails (encrypt_failed c)
  encrypt-none p h = encrypt_eq p ∙ ap (λ o. built_whole (appended c (room_for_tag p) o)) h

  encrypt-some :
      (p : AesGcmSivParams) (ct tag : Bytes)
      → sealed p ≡ some (ct, tag)
      → encrypt c p ≡ (
          if ltb (length p.payload + 16) (2 ^ 64)
          then done (ct ++ tag)
          else fails (encrypt_failed c))
  encrypt-some p ct tag h =
      let (same, sixteen) =
        laws.seal-length p.key p.nonce (bytes_or_empty p.associated_data) p.payload ct tag h in
      let zeros = length-replicate 16 0 in
      encrypt_eq p
      ∙ ap (λ o. built_whole (appended c (room_for_tag p) o)) h
      ∙ ap
          (λ r.
            built_whole
              (extend_from_slice tag (record { backing = ct ++ r; len = length p.payload })))
          (drop-append_length p.payload (replicate 16 0))
      ∙ ap built_whole
          (extend_lem ct (replicate 16 0) tag (length p.payload) (sym same) (sixteen ∙ sym zeros))
      ∙ finish (ltb (length p.payload + length tag) (2 ^ 64))
          (record { backing = ct ++ tag; len = length p.payload + length tag }) (ct ++ tag)
          (built_lem (record { backing = ct ++ tag; len = length p.payload + length tag })
            (ct ++ tag) [] (length (ct ++ tag)) c (sym (append-nil (ct ++ tag)))
            (omega (arith, length-append ct tag, same)) refl)
      ∙ ap
          (λ k.
            if ltb (length p.payload + k) (2 ^ 64)
            then done (ct ++ tag)
            else fails (encrypt_failed c))
          sixteen
    where
      finish :
          (b : Bool) (x : AeadBuffer) (out : Bytes)
          → built c (length x.backing) x ≡ done out
          → built_whole (if b then some x else none)
            ≡ (if b then done out else fails (encrypt_failed c))
      finish true x out e = e
      finish false x out e = refl

  abbrev split_point : AesGcmSivParams → ℕ
  split_point p = length p.payload - 16

  abbrev opened : AesGcmSivParams → Option Bytes
  opened p =
      unseal p.key p.nonce (bytes_or_empty p.associated_data) (take (split_point p) p.payload)
        (drop (split_point p) p.payload)

  abbrev built_message : Outcome AeadBuffer → Outcome Bytes
  built_message o = then_do o (λ b. built c (length b.backing - 16) b)

  truncated_lem :
      (p : AesGcmSivParams) (o : Option Bytes)
      → ltb (length p.payload) 16 ≡ false
      → ((x : Bytes) → o ≡ some x → length x ≡ length (take (split_point p) p.payload))
      → built_message (
          truncated c
            (record { backing = p.payload; len = length p.payload })
            (split_point p)
            (drop (split_point p) p.payload)
            o)
        ≡ or_failed (decrypt_failed c) o
  unfolding truncate
  truncated_lem p none long h = refl
  truncated_lem p (some x) long h =
      ap (λ t. built_message (if t then done shorter else panics)) fits
      ∙ built_lem shorter x (drop n y ++ drop (length y) y) (length shorter.backing - 16) c
          (append_assoc x (drop n y) (drop (length y) y)) (omega (arith, size))
          (omega (
            arith,
            size,
            length-append (x ++ drop n y) (drop (length y) y),
            length-append x (drop n y),
            length-drop n y,
            length-drop (length y) y,
          ))
    where
      y : Bytes
      y = p.payload

      n : ℕ
      n = split_point p

      shorter : AeadBuffer
      shorter = record { backing = (x ++ drop n y) ++ drop (length y) y; len = n }

      size : length x ≡ n
      size = h x refl ∙ length-take n y ∙ omega arith

      fits : leb n (length y) ≡ true
      fits = ground arith

  decrypt_short :
      (p : AesGcmSivParams)
      → ltb (length p.payload) 16 ≡ true
      → decrypt c p ≡ fails (decrypt_failed c)
  unfolding decrypt
  decrypt_short p h = rw h refl

  decrypt_lem :
      (p : AesGcmSivParams)
      → ltb (length p.payload) 16 ≡ false
      → decrypt c p ≡ or_failed (decrypt_failed c) (opened p)
  unfolding decrypt
  decrypt_lem p h =
      ap
        (λ t.
          built_message
            (if t then fails (decrypt_failed c) else at_split (take (length p.payload) p.payload)))
        h
      ∙ ap (λ z. built_message (at_split z)) (take_all (length p.payload) p.payload refl)
      ∙ truncated_lem p (opened p) h (λ x e.
        laws.unseal-length p.key p.nonce (bytes_or_empty p.associated_data)
          (take (split_point p) p.payload) (drop (split_point p) p.payload) x e)
    where
      at_split : Bytes → Outcome AeadBuffer
      at_split z =
          truncated c (record { backing = p.payload; len = length p.payload }) (split_point p)
            (drop (split_point p) z)
            (unseal p.key p.nonce (bytes_or_empty p.associated_data) (take (split_point p) z)
              (drop (split_point p) z))

  decrypted_sealed :
      (p : AesGcmSivParams) (ct tag : Bytes)
      → sealed p ≡ some (ct, tag)
      → decrypt c (record p { payload = ct ++ tag }) ≡ done p.payload
  decrypted_sealed p ct tag h =
      decrypt_lem (record p { payload = ct ++ tag }) (ground (arith, lengths))
      ∙ ap (or_failed (decrypt_failed c)) (
          ap₂ (unseal p.key p.nonce (bytes_or_empty p.associated_data))
            (take-append_eq (length (ct ++ tag) - 16) ct tag (omega (arith, lengths)))
            (drop-append_eq (length (ct ++ tag) - 16) ct tag (omega (arith, lengths)))
          ∙ laws.unseal-seal p.key p.nonce (bytes_or_empty p.associated_data) p.payload ct tag h)
    where
      lengths : length (ct ++ tag) ≡ length ct + 16
      lengths =
          let (same, sixteen) =
            laws.seal-length p.key p.nonce (bytes_or_empty p.associated_data) p.payload ct tag h in
          length-append ct tag ∙ ap (λ k. length ct + k) sixteen

  encrypt_cases :
      (p : AesGcmSivParams)
      → (encrypt c p ≡ fails (encrypt_failed c))
        ⊎ ((ct : Bytes) × (tag : Bytes) × (sealed p ≡ some (ct, tag))
            × (encrypt c p ≡ done (ct ++ tag)))
  encrypt_cases p = elim (Option-cases (sealed p)) [
    | inl h ↦ inl (encrypt-none p h)
    | inr (t, h) ↦ elim (Bool-cases (ltb (length p.payload + 16) (2 ^ 64))) [
      | inl b ↦ inr (t.0, t.1, h, encrypt-some p t.0 t.1 h ∙ rw b refl)
      | inr b ↦ inl (encrypt-some p t.0 t.1 h ∙ rw b refl)
    ]
  ]

  decrypt_cases :
      (p : AesGcmSivParams)
      → (decrypt c p ≡ fails (decrypt_failed c)) ⊎ ((x : Bytes) × (decrypt c p ≡ done x))
  decrypt_cases p = elim (Bool-cases (ltb (length p.payload) 16)) [
    | inl short ↦ inl (decrypt_short p short)
    | inr long ↦ elim (Option-cases (opened p)) [
      | inl h ↦ inl (decrypt_lem p long ∙ ap (or_failed (decrypt_failed c)) h)
      | inr (x, h) ↦ inr (x, decrypt_lem p long ∙ ap (or_failed (decrypt_failed c)) h)
    ]
  ]

  -- Whatever is encrypted and decrypted, no assertion on the buffer fails. What the encryption gives is
  -- 16 bytes longer than the plaintext, and the decryption with the same key, nonce and associated data
  -- gives the plaintext back.
  pub decrypt-encrypt :
      (p : AesGcmSivParams)
      → (encrypt c p ≢ panics)
        × (decrypt c p ≢ panics)
        × ((out : Bytes)
            → encrypt c p ≡ done out
            → (length out ≡ length p.payload + 16)
              × (decrypt c (record p { payload = out }) ≡ done p.payload))
  decrypt-encrypt p = (
    (λ h. elim (encrypt_cases p) [
      | inl e ↦ fails_panics (sym e ∙ h)
      | inr (ct, tag, at, e) ↦ done_panics (sym e ∙ h)
    ]),
    (λ h. elim (decrypt_cases p) [
      | inl e ↦ fails_panics (sym e ∙ h)
      | inr (x, e) ↦ done_panics (sym e ∙ h)
    ]),
    λ out h. elim (encrypt_cases p) [
      | inl e ↦ absurd (fails_done (sym e ∙ h))
      | inr (ct, tag, at, e) ↦
          let same = done_inj (sym e ∙ h) in
          subst
            (λ xs.
              (length xs ≡ length p.payload + 16)
              × (decrypt c (record p { payload = xs }) ≡ done p.payload))
            same (sealed_length ct tag at, decrypted_sealed p ct tag at)
    ],
  )
    where
      fails_panics : {m : Bytes} → ◌≡◌ {A = Outcome Bytes} (fails m) panics → ⊥
      fails_panics e = cc

      done_panics : {x : Bytes} → ◌≡◌ {A = Outcome Bytes} (done x) panics → ⊥
      done_panics e = cc

      fails_done : {m x : Bytes} → ◌≡◌ {A = Outcome Bytes} (fails m) (done x) → ⊥
      fails_done e = cc

      done_inj : {x y : Bytes} → ◌≡◌ {A = Outcome Bytes} (done x) (done y) → x ≡ y
      done_inj e = cc

      sealed_length :
          (ct tag : Bytes) → sealed p ≡ some (ct, tag) → length (ct ++ tag) ≡ length p.payload + 16
      sealed_length ct tag h =
          let (same, sixteen) =
            laws.seal-length p.key p.nonce (bytes_or_empty p.associated_data) p.payload ct tag h in
          length-append ct tag ∙ ap₂ (λ x y. x + y) same sixteen
