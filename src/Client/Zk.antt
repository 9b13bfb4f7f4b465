-- ===== src/Client/Zk.antt =====
-- apps/client/src/lib/zk.ts: field elements, commitments and secrets in the browser.
use Prim.Native.Char.{Char, code}
use Prim.Native.String as Text
use thesis_project_land_chai.Prelude.{
  ℕ, zero, suc, ◌%◌, ◌<>◌, ◌&&◌, ◌||◌, string_eq, String, Bool, true, false, List, [], ◌∷◌, leb,
}
use thesis_project_land_chai.Prelude.Text.{to_decimal, to_hex, pad_start, big_int, trim, is_digit}

-- ethers and poseidon-lite in the browser, and `crypto.getRandomValues` of 32 bytes.
pub record Browser : Type 0 where
  pub keccak_id : String → ℕ
  pub poseidon2 : ℕ → ℕ → ℕ
  pub random_values : List ℕ

pub record Commitments : Type 0 where
  pub land_id_field : String
  pub secret_field : String
  pub land_commitment : String
  pub area_commitment : String

-- The client's own copy of the prime.
unfoldable pub client_prime : ℕ
client_prime = 21888242871839275222246405745257275088548364400416034343698204186575808495617

-- `bytes` as two hexadecimal digits each.
unfoldable pub hex_of : List ℕ → String
unfolding to_hex pad_start
hex_of [] = ""
hex_of (b ∷ bs) = pad_start 2 (to_hex b) <> hex_of bs

-- `[0-9a-fA-F]`
unfoldable pub is_hex_char : Char → Bool
is_hex_char c =
    is_digit c || leb b'a' (code c) && leb (code c) b'f' || leb b'A' (code c) && leb (code c) b'F'

-- `[0-9a-fA-F]{n}$`
unfoldable pub is_hex_text : ℕ → String → Bool
unfolding is_hex_char
is_hex_text zero Text.[] = true
is_hex_text zero (Text.◌∷◌ c s) = false
is_hex_text (suc n) Text.[] = false
is_hex_text (suc n) (Text.◌∷◌ c s) = is_hex_char c && is_hex_text n s

-- `^0x[0-9a-fA-F]{64}$`
unfoldable pub is_secret_text : String → Bool
unfolding is_hex_text
is_secret_text (Text.◌∷◌ a (Text.◌∷◌ b s)) =
    leb b'0' (code a)
    && leb (code a) b'0'
    && (leb b'x' (code b) && leb (code b) b'x')
    && is_hex_text 64 s
is_secret_text s = false

unfoldable pub is_valid_owner_secret : String → Bool
unfolding is_secret_text trim
is_valid_owner_secret secret = is_secret_text (trim secret)

module _ (b : Browser) where
  unfoldable pub client_to_field : String → String
  unfolding to_decimal client_prime
  client_to_field input = to_decimal (b.keccak_id input % client_prime)

  unfoldable pub client_land_id_to_field : String → String
  unfolding client_to_field
  client_land_id_to_field land_id = client_to_field ("landchain:land:" <> land_id)

  unfoldable pub client_secret_to_field : String → String → String
  unfolding client_to_field
  client_secret_to_field land_id owner_secret =
      client_to_field ("landchain:secret:" <> land_id <> ":" <> owner_secret)

  unfoldable pub client_area_salt_field : String → String → String
  unfolding client_to_field
  client_area_salt_field land_id owner_secret =
      client_to_field ("landchain:area-salt:" <> land_id <> ":" <> owner_secret)

  unfoldable pub generate_owner_secret : String
  unfolding hex_of
  generate_owner_secret = "0x" <> hex_of b.random_values

  unfoldable pub client_poseidon_hash2 : String → String → String
  unfolding to_decimal big_int
  client_poseidon_hash2 left right = to_decimal (b.poseidon2 (big_int left) (big_int right))

  -- `areaSqm` is the whole part that `Math.floor` leaves.
  unfoldable pub compute_commitments : String → String → ℕ → Commitments
  unfolding client_land_id_to_field client_secret_to_field client_area_salt_field
      client_poseidon_hash2 to_decimal
  compute_commitments land_id owner_secret area_sqm =
      let land_id_field = client_land_id_to_field land_id in
      let secret_field = client_secret_to_field land_id owner_secret in
      record {
        land_id_field = land_id_field;
        secret_field = secret_field;
        land_commitment = client_poseidon_hash2 land_id_field secret_field;
        area_commitment =
            client_poseidon_hash2 (to_decimal area_sqm)
              (client_area_salt_field land_id owner_secret);
      }
