-- ===== src/DeedCrypto/RoundTrip.antt =====
-- `encryptDeed` and `decryptDeed` against each other, under one configuration.
use thesis_project_land_chai.Prelude.{
  ℕ, zero, suc, ◌+◌, true, false, nat_eq, [], ◌∷◌, ◌++◌, length, take, drop, length-append, ◌≡◌,
  refl, ◌⊎◌, arith, Bool-cases, inl, inr,
}
use mathlib.Core.List.{append_assoc}
use thesis_project_land_chai.Errors.{ok, >>=-eq-ok, ok_injective}
use thesis_project_land_chai.Externals.{Externals}
use thesis_project_land_chai.DeedCrypto.{
  Buffer, magic, magic_length, iv_length, tag_length, header_length, is_encrypted_deed,
  deed_encryption_enabled, key, envelope, encrypt_deed, decrypt_deed,
}

take-append : (n : ℕ) (a b : Buffer) → length a ≡ n → take n (a ++ b) ≡ a
take-append zero [] b h = refl
take-append zero (y ∷ a) b h = absurd (omega arith)
take-append (suc n) [] b h = absurd (omega arith)
take-append (suc n) (y ∷ a) b h = rw (take-append n a b (omega arith))

drop-append : (n : ℕ) (a b : Buffer) → length a ≡ n → drop n (a ++ b) ≡ b
drop-append zero [] b h = refl
drop-append zero (y ∷ a) b h = absurd (omega arith)
drop-append (suc n) [] b h = absurd (omega arith)
drop-append (suc n) (y ∷ a) b h = drop-append n a b (omega arith)

envelope-is_encrypted :
    (iv tag c : Buffer)
    → length iv ≡ iv_length
    → length tag ≡ tag_length
    → is_encrypted_deed (envelope iv tag c) ≡ true
unfolding is_encrypted_deed
envelope-is_encrypted iv tag c h k =
    ground (arith, length-append iv (tag ++ c), length-append tag c)

-- The parts of an envelope, as `decrypt_deed` slices them.
envelope-parts :
    (iv tag c : Buffer)
    → length iv ≡ iv_length
    → length tag ≡ tag_length
    → (take iv_length (drop magic_length (envelope iv tag c)) ≡ iv)
      × (take tag_length (drop (magic_length + iv_length) (envelope iv tag c)) ≡ tag)
      × (drop header_length (envelope iv tag c) ≡ c)
unfolding magic
envelope-parts iv tag c h k = (
  take-append 12 iv (tag ++ c) h,
  rw (drop-append 12 iv (tag ++ c) h) (take-append 16 tag c k),
  rw (← append_assoc iv tag c) (drop-append 28 (iv ++ tag) c (omega (arith, length-append iv tag))),
)

module _ (x : Externals) where
  -- What AES-256-GCM of node's crypto module documents: a tag of 16 bytes, and that decryption
  -- under the same key, IV and tag returns the plaintext; and the length of the random IV.
  pub record IsGcm : Type 0 where
    pub iv_size : length x.random_iv ≡ iv_length
    pub tag_size : (k iv p : Buffer) → length (x.aes_encrypt k iv p).0 ≡ tag_length
    pub opens :
        (k iv p : Buffer)
        → x.aes_decrypt k iv (x.aes_encrypt k iv p).0 (x.aes_encrypt k iv p).1 ≡ ok p

  sealed-opens :
      IsGcm
      → (k plaintext : Buffer) → deed_encryption_enabled x ≡ true
      → key x ≡ ok k
      → decrypt_deed x (
          envelope x.random_iv
            (x.aes_encrypt k x.random_iv plaintext).0
            (x.aes_encrypt k x.random_iv plaintext).1)
        ≡ ok plaintext
  unfolding decrypt_deed
  sealed-opens gcm k plaintext enabled has_key =
      let sealed = x.aes_encrypt k x.random_iv plaintext in
      let size = gcm.tag_size k x.random_iv plaintext in
      let (iv, tag, c) = envelope-parts x.random_iv sealed.0 sealed.1 gcm.iv_size size in
      rw
        (
          envelope-is_encrypted x.random_iv sealed.0 sealed.1 gcm.iv_size size,
          enabled,
          has_key,
          iv,
          tag,
          c,
        )
        (gcm.opens k x.random_iv plaintext)

  -- Whatever `encrypt_deed` returns, `decrypt_deed` under the same configuration turns back into
  -- the plaintext, where a key is configured or the plaintext does not itself begin like an
  -- envelope.
  pub decrypt_deed-encrypt_deed :
      IsGcm
      → (plaintext stored : Buffer)
      → (deed_encryption_enabled x ≡ true) ⊎ (is_encrypted_deed plaintext ≡ false)
      → encrypt_deed x plaintext ≡ ok stored
      → decrypt_deed x stored ≡ ok plaintext
  unfolding encrypt_deed
  decrypt_deed-encrypt_deed gcm plaintext stored side h =
      elim (Bool-cases (deed_encryption_enabled x)) [
        | inl enabled ↦
            let (k, has_key, made) = >>=-eq-ok (key x) _ (rw enabled at h) in
            rw (← ok_injective made) (sealed-opens gcm k plaintext enabled has_key)
        | inr disabled ↦
            let same : plaintext ≡ stored = ok_injective (rw disabled at h) in
            let plain : is_encrypted_deed plaintext ≡ false = ground arith in
            rw (← same) (unfold decrypt_deed in rw plain refl)
      ]
