-- ===== src/Circuit.antt =====
-- The circuits of circuits/circuits, as the constraints that they put on their signals. A signal is a
-- number below the field prime; `hash` is circomlib's Poseidon of two inputs.
pub mod Completeness
pub mod Owner
use thesis_project_land_chai.Prelude.{
  ℕ, zero, suc, ◌+◌, ◌-◌, ◌*◌, ◌%◌, ◌^◌, ◌==◌, nat_eq, Bool, true, false, ◌&&◌, Option, none, some,
  List, [], ◌∷◌, ltb, leb,
}
use thesis_project_land_chai.Field.{field_prime}

-- `a - b` in the field.
abbrev pub field_sub : ℕ → ℕ → ℕ
field_sub a b = (a + (field_prime - b)) % field_prime

-- The two inputs of a level's hasher, components/merkleTreeChecker.circom.
abbrev pub level_left : ℕ → ℕ → ℕ → ℕ
level_left node element index =
    ((node * field_sub 1 index) % field_prime + (element * index) % field_prime) % field_prime

abbrev pub level_right : ℕ → ℕ → ℕ → ℕ
level_right node element index =
    ((element * field_sub 1 index) % field_prime + (node * index) % field_prime) % field_prime

-- The constraint `merkleRoot === checker.root`.
abbrev pub has_root : Option ℕ → ℕ → Bool
has_root none root = false
has_root (some r) root = r == root

abbrev pub membership_domain : ℕ
membership_domain = 7160624230185569488450522106054910242159549549043173897393582740424566747561

module _ (hash : ℕ → ℕ → ℕ) where
  -- `MerkleTreeChecker(levels)`: the root, where the indices fulfil their constraints.
  unfoldable pub merkle_tree_checker : ℕ → ℕ → List ℕ → List ℕ → Option ℕ
  unfolding field_prime
  merkle_tree_checker zero leaf [] [] = some leaf
  merkle_tree_checker (suc levels) node (element ∷ elements) (index ∷ indices) =
      let rest =
        merkle_tree_checker levels
          (hash (level_left node element index) (level_right node element index)) elements
          indices in
      elim ((index * field_sub index 1) % field_prime == 0) [ true ↦ rest | false ↦ none ]
  merkle_tree_checker levels node elements indices = none

  -- `CommitmentProof()`
  unfoldable pub commitment_proof_circuit : ℕ → ℕ → ℕ → Bool
  commitment_proof_circuit owner_secret land_id_field commitment =
      hash land_id_field owner_secret == commitment

  -- `LandOwnership(20)`: its output is the nullifier, `none` where a constraint fails.
  unfoldable pub land_ownership_circuit : ℕ → ℕ → List ℕ → List ℕ → ℕ → Option ℕ
  unfolding merkle_tree_checker
  land_ownership_circuit land_id_field owner_secret elements indices merkle_root =
      elim (has_root (merkle_tree_checker 20 (hash land_id_field owner_secret) elements indices)
        merkle_root) [
          | false ↦ none
          | true ↦ some (hash (hash owner_secret land_id_field) membership_domain)
        ]

  -- `ChallengeProof(20)`: its output is the response nullifier.
  unfoldable pub challenge_proof_circuit : ℕ → List ℕ → List ℕ → ℕ → ℕ → ℕ → Option ℕ
  unfolding merkle_tree_checker
  challenge_proof_circuit owner_secret elements indices land_id_field merkle_root challenge =
      elim (has_root (merkle_tree_checker 20 (hash land_id_field owner_secret) elements indices)
        merkle_root) [
          | false ↦ none
          | true ↦ some (hash (hash owner_secret land_id_field) challenge)
        ]

  -- `AreaRange(64)`: `Num2Bits` and `GreaterEqThan` of circomlib, on 64 bits.
  unfoldable pub area_range_circuit : ℕ → ℕ → ℕ → ℕ → Bool
  area_range_circuit area_value area_salt area_commitment min_area =
      ltb area_value (2 ^ 64)
      && (ltb min_area (2 ^ 64)
          && (hash area_value area_salt == area_commitment && leb min_area area_value))
