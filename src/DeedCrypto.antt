-- ===== src/DeedCrypto.antt =====
-- apps/server/src/utils/deedCrypto.util.ts: the encryption envelope of deed documents. A buffer is
-- the list of its bytes.
pub mod RoundTrip
use text.Mathlib.Text.{starts_with}
use Prim.Native.String.{slice, len}
use thesis_project_land_chai.Prelude.{
  ℕ, ◌+◌, String, Bool, true, false, ◌&&◌, ◌==◌, nat_eq, string_eq, Option, none, some, List, [],
  ◌∷◌, ◌++◌, length, take, drop, leb, not, if◌then◌else◌,
}
use thesis_project_land_chai.Errors.{Error, plain, Result, ok, err, ◌>>=◌}
use thesis_project_land_chai.Externals.{Externals}

abbrev pub Buffer : Type 0
Buffer = List ℕ

-- "LCDEED01"
unfoldable pub magic : Buffer
magic = b'L' ∷ b'C' ∷ b'D' ∷ b'E' ∷ b'E' ∷ b'D' ∷ b'0' ∷ b'1' ∷ []

abbrev pub magic_length : ℕ
magic_length = 8

abbrev pub iv_length : ℕ
iv_length = 12

abbrev pub tag_length : ℕ
tag_length = 16

abbrev pub header_length : ℕ
header_length = magic_length + iv_length + tag_length

unfoldable pub equals : Buffer → Buffer → Bool
equals [] [] = true
equals (a ∷ as') (b ∷ bs) = a == b && equals as' bs
equals a b = false

unfoldable pub is_encrypted_deed : Buffer → Bool
unfolding equals magic
is_encrypted_deed buffer =
    leb header_length (length buffer) && equals (take magic_length buffer) magic

-- MAGIC, IV, TAG, CIPHERTEXT
abbrev pub envelope : Buffer → Buffer → Buffer → Buffer
envelope iv tag ciphertext = magic ++ (iv ++ (tag ++ ciphertext))

module _ (x : Externals) where
  -- An empty key counts as none.
  unfoldable pub deed_encryption_enabled : Bool
  deed_encryption_enabled = elim x.deed_encryption_key [ none ↦ false | some raw ↦ not (raw == "") ]

  without_prefix : String → String
  without_prefix raw = if starts_with raw "0x" then slice raw 2 (len raw) else raw

  unfoldable pub key : Result Buffer
  unfolding without_prefix
  key = elim x.deed_encryption_key [
    | none ↦ err (plain "DEED_ENCRYPTION_KEY is not configured.")
    | some raw ↦
        if raw == ""
        then err (plain "DEED_ENCRYPTION_KEY is not configured.")
        else let parsed = x.hex_bytes (without_prefix raw) in
          if length parsed == 32
          then ok parsed
          else err (plain "DEED_ENCRYPTION_KEY must be 32 bytes (64 hex characters).")
  ]

  unfoldable pub encrypt_deed : Buffer → Result Buffer
  encrypt_deed plaintext =
      if deed_encryption_enabled
      then (key >>= λ k.
          let sealed = x.aes_encrypt k x.random_iv plaintext in
          ok (envelope x.random_iv sealed.0 sealed.1))
      else ok plaintext

  unfoldable pub decrypt_deed : Buffer → Result Buffer
  decrypt_deed buffer =
      if is_encrypted_deed buffer
      then if deed_encryption_enabled
        then (key >>= λ k.
            let iv = take iv_length (drop magic_length buffer) in
            let tag = take tag_length (drop (magic_length + iv_length) buffer) in
            x.aes_decrypt k iv tag (drop header_length buffer))
        else err (plain "This deed is encrypted but DEED_ENCRYPTION_KEY is not configured.")
      else ok buffer
