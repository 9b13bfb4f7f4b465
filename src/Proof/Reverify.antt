-- ===== src/Proof/Reverify.antt =====
-- `verifyProofRecord` of proof.service.ts: a stored proof is checked again, cryptographically and
-- against the current registry state.
use thesis_project_land_chai.Prelude.{
  ℕ, String, Bool, true, false, ◌&&◌, ◌<>◌, string_eq, nat_eq, option_eq, Option, none, some, List,
  [], ◌∷◌, get_elem?, if◌then◌else◌,
}
use thesis_project_land_chai.Prelude.Text.{to_decimal}
use thesis_project_land_chai.Errors.{not_found}
use thesis_project_land_chai.Externals.{Externals}
use thesis_project_land_chai.Field.{land_id_to_field, deterministic_tx_hash}
use thesis_project_land_chai.Db.{
  Land, Challenge, commitment_opening, registry_membership, challenge_response, area_range,
  proof_verified, Proof, Role, Db, MerkleRoot, find_land, find_challenge, find_proof, latest_root,
  save_proof, add_transaction,
}
use thesis_project_land_chai.Action.{Action, pure, lift, gets, or_throw, modify, ◌>>=◌, ◌>>◌}
use thesis_project_land_chai.Zk.{verify_with_circuit}
use thesis_project_land_chai.Notes.{passes, notes_of, join_notes}
use thesis_project_land_chai.Proof.{differs}
use thesis_project_land_chai.Proof.Access.{assert_proof_access}

abbrev find_land? : Option String → Db → Option Land
find_land? none db = none
find_land? (some land_id) db = find_land land_id db

abbrev find_challenge? : Option ℕ → Db → Option Challenge
find_challenge? none db = none
find_challenge? (some id) db = find_challenge id db

-- `verified` in the seed of the ledger's hash
abbrev pub bool_text : Bool → String
bool_text true = "true"
bool_text false = "false"

module _ (x : Externals) where
  abbrev opening_checks : Option Land → List String → List (Bool × String)
  opening_checks none signals = (true, "Land no longer exists.") ∷ []
  opening_checks (some land) signals =
      (
        differs (get_elem? signals 0) (some (land_id_to_field x land.land_id)),
        "Land binding mismatch.",
      )
      ∷ (
        differs (get_elem? signals 1) (some land.land_commitment),
        "Commitment differs from the current registry record (ownership may have changed).",
      )
      ∷ []

  abbrev membership_checks : Option MerkleRoot → List String → List (Bool × String)
  membership_checks none signals =
      (true, "Merkle root is not the current registry root (proof is stale).") ∷ []
  membership_checks (some latest) signals =
      (
        differs (get_elem? signals 1) (some latest.root),
        "Merkle root is not the current registry root (proof is stale).",
      )
      ∷ []

  abbrev response_checks : Option Challenge → Option Land → List String → List (Bool × String)
  response_checks (some challenge) (some land) signals =
      (
        differs (get_elem? signals 1) (some (land_id_to_field x land.land_id)),
        "Land binding mismatch.",
      )
      ∷ (differs (get_elem? signals 2) land.merkle_root, "Merkle root is stale.")
      ∷ (differs (get_elem? signals 3) (some challenge.nonce), "Challenge nonce mismatch.")
      ∷ []
  response_checks challenge land signals = (true, "Challenge or land record missing.") ∷ []

  abbrev area_checks : Option Land → List String → List (Bool × String)
  area_checks none signals = (true, "Land no longer exists.") ∷ []
  area_checks (some land) signals =
      (differs (get_elem? signals 0) (some land.area_commitment), "Area commitment mismatch.") ∷ []

  -- The `switch` over the proof's type.
  unfoldable pub semantic_checks : Proof → Db → List (Bool × String)
  semantic_checks doc db = elim doc.proof_type [
    | commitment_opening ↦ opening_checks (find_land? doc.land_id db) doc.public_signals
    | registry_membership ↦ membership_checks (latest_root db) doc.public_signals
    | challenge_response ↦
        response_checks (find_challenge? doc.challenge_id db) (find_land? doc.land_id db)
          doc.public_signals
    | area_range ↦ area_checks (find_land? doc.land_id db) doc.public_signals
  ]

  abbrev pub reverified : Proof → Bool → String → Proof
  reverified doc verified note = record doc {
    verified = verified;
    verified_at = some x.now;
    verification_note = some note;
  }

  unfoldable pub verify_proof_record : ℕ → ℕ → Role → Action Proof
  verify_proof_record proof_id verifier_id verifier_role = do
    doc ← or_throw (← gets (find_proof proof_id)) (not_found "Proof not found.")
    access ← gets (assert_proof_access doc verifier_id verifier_role)
    lift access
    cryptographic_ok ← lift (verify_with_circuit x doc.circuit doc.proof doc.public_signals)
    checks ← gets (semantic_checks doc)
    let verified = cryptographic_ok && passes checks
    let note = join_notes (
        (if cryptographic_ok
          then "Groth16 verification passed."
          else "Groth16 verification FAILED.")
        ∷ notes_of checks)
    let updated = reverified doc verified note
    modify (save_proof updated)
    modify (
        add_transaction (record {
          land_id = doc.land_id;
          from_owner = none;
          to_owner = none;
          transaction_type = proof_verified;
          blockchain_tx_hash =
              deterministic_tx_hash x ("verify:" <> to_decimal doc.id <> ":" <> bool_text verified);
          status = if verified then "VERIFIED" else "REJECTED";
          detail = some note;
          created_at = x.now;
        }))
    pure updated
