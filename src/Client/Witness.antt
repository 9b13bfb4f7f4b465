-- ===== src/Client/Witness.antt =====
-- `buildCircuitInput` of apps/client/src/app/proofs/generate/page.tsx: the witness of a proof, which
-- the browser makes of the land that the server sends and of the owner's secret.
use thesis_project_land_chai.Prelude.{
  ℕ, ◌==◌, string_eq, String, Bool, true, false, ◌||◌, Option, none, some, List, [], ◌∷◌, leb, not,
  get_or_else, if◌then◌else◌,
}
use thesis_project_land_chai.Prelude.Text.{to_decimal}
use thesis_project_land_chai.Errors.{Error, plain, Result, ok, err}
use thesis_project_land_chai.Db.{
  Land, Challenge, ProofType, commitment_opening, registry_membership, challenge_response,
  area_range,
}
use thesis_project_land_chai.Land.{AreaNumber, is_finite, floor}
use thesis_project_land_chai.Client.Zk.{
  Browser, client_land_id_to_field, client_secret_to_field, client_area_salt_field,
}

pub data CircuitInput : Type 0 where
  opening_input : (owner_secret land_id_field commitment : String) → CircuitInput
  membership_input :
      (land_id_field owner_secret : String) (path_elements : List String) (path_indices : List ℕ)
      (merkle_root : String)
      → CircuitInput
  challenge_input :
      (owner_secret : String) (path_elements : List String) (path_indices : List ℕ)
      (land_id_field merkle_root challenge : String)
      → CircuitInput
  area_input : (area_value area_salt area_commitment min_area : String) → CircuitInput

-- The challenge that the server sends for `options.challengeId`, and `options.minArea`.
pub record Options : Type 0 where
  pub challenge : Option (Result Challenge)
  pub min_area : AreaNumber

abbrev pub is_empty : List String → Bool
is_empty [] = true
is_empty (e ∷ es) = false

-- `!land.merkleRoot || !land.pathElements?.length` throws.
abbrev pub no_path : Land → Bool
no_path land = get_or_else land.merkle_root "" == "" || is_empty land.path_elements

abbrev no_path_error : Error
no_path_error = plain "Land has no Merkle path yet."

unfoldable pub build_circuit_input :
    Browser → ProofType → Land → String → Options → Result CircuitInput
unfolding client_land_id_to_field client_secret_to_field client_area_salt_field to_decimal
build_circuit_input b commitment_opening land owner_secret options = ok (
    opening_input (client_secret_to_field b land.land_id owner_secret)
      (client_land_id_to_field b land.land_id) land.land_commitment)
build_circuit_input b registry_membership land owner_secret options =
    if no_path land
    then err no_path_error
    else ok (
        membership_input (client_land_id_to_field b land.land_id)
          (client_secret_to_field b land.land_id owner_secret) land.path_elements land.path_indices
          (get_or_else land.merkle_root ""))
build_circuit_input b challenge_response land owner_secret options = elim options.challenge [
  | none ↦ err (plain "challengeId is required for a challenge-response proof.")
  | some answer ↦ if no_path land then err no_path_error else elim answer [
    | err e ↦ err e
    | ok challenge ↦ ok (
        challenge_input (client_secret_to_field b land.land_id owner_secret) land.path_elements
          land.path_indices (client_land_id_to_field b land.land_id)
          (get_or_else land.merkle_root "") challenge.nonce)
  ]
]
build_circuit_input b area_range land owner_secret options =
    if not (is_finite options.min_area) || leb (floor options.min_area) 0
    then err (plain "minArea must be a positive number.")
    else ok (
        area_input (to_decimal land.area_sqm) (client_area_salt_field b land.land_id owner_secret)
          land.area_commitment (to_decimal (floor options.min_area)))
