-- ===== src/Field.antt =====
-- apps/server/src/utils/field.util.ts and hash.util.ts: field elements as decimal texts, and the
-- hashes over ethers.
pub mod Laws
use thesis_project_land_chai.Prelude.{
  ℕ, zero, suc, ◌+◌, ◌%◌, ◌<◌, ◌<>◌, List, String, Bool, true, false, ◌&&◌, ltb, if◌then◌else◌,
}
use thesis_project_land_chai.Prelude.Text.{to_decimal, to_hex, pad_start, is_digits, big_int}
use thesis_project_land_chai.Errors.{Error, plain, Result, ok, err}
use thesis_project_land_chai.Json.{Json, str}
use thesis_project_land_chai.Externals.{Externals}

unfoldable pub field_prime : ℕ
field_prime = 21888242871839275222246405745257275088548364400416034343698204186575808495617

-- `0x` and 64 hexadecimal digits of a number below 2^256.
unfoldable pub hex32 : ℕ → String
unfolding to_hex pad_start
hex32 n = "0x" <> pad_start 64 (to_hex n)

unfoldable pub is_field_text : String → Bool
unfolding is_digits big_int field_prime
is_field_text s = is_digits s && ltb (big_int s) field_prime

unfoldable pub is_field_element : Json → Bool
unfolding is_field_text
is_field_element (str s) = is_field_text s
is_field_element v = false

module _ (x : Externals) where
  unfoldable pub to_field : String → String
  unfolding to_decimal field_prime
  to_field input = to_decimal (x.keccak_id input % field_prime)

  unfoldable pub land_id_to_field : String → String
  unfolding to_field
  land_id_to_field land_id = to_field ("landchain:land:" <> land_id)

  unfoldable pub secret_to_field : String → String → String
  unfolding to_field
  secret_to_field land_id owner_secret =
      to_field ("landchain:secret:" <> land_id <> ":" <> owner_secret)

  unfoldable pub area_salt_field : String → String → String
  unfolding to_field
  area_salt_field land_id owner_secret =
      to_field ("landchain:area-salt:" <> land_id <> ":" <> owner_secret)

  unfoldable pub random_challenge_salt : String
  unfolding hex32
  random_challenge_salt = hex32 x.random_bytes

  -- `getAddress` throws on a text that is no address.
  unfoldable pub buyer_bound_challenge : String → String → Result String
  unfolding to_decimal field_prime
  buyer_bound_challenge buyer_wallet salt =
      if x.is_address buyer_wallet
      then ok (to_decimal (x.packed_keccak (x.get_address buyer_wallet) salt % field_prime))
      else err (plain "invalid address")

  -- Of a buffer; a text is hashed by its bytes.
  unfoldable pub sha256_hex : List ℕ → String
  unfolding hex32
  sha256_hex input = hex32 (x.sha256 input)

  unfoldable pub deterministic_tx_hash : String → String
  unfolding hex32 to_decimal
  deterministic_tx_hash seed = hex32 (x.keccak_id (seed <> ":" <> to_decimal x.now))

  -- apps/server/src/services/poseidon.service.ts
  unfoldable pub poseidon_hash2 : String → String → String
  unfolding to_decimal big_int
  poseidon_hash2 left right = to_decimal (x.poseidon (big_int left) (big_int right))
