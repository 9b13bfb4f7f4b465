-- ===== src/Challenge/Verify.antt =====
-- `verifyChallenge` of challenge.service.ts: the buyer checks the seller's proof.
use thesis_project_land_chai.Prelude.{
  ℕ, String, Bool, ◌&&◌, ◌||◌, ◌==◌, ◌<>◌, string_eq, nat_eq, option_eq, Option, none, some, List,
  [], ◌∷◌, ◌++◌, get_elem?, not, is_some, if◌then◌else◌,
}
use thesis_project_land_chai.Prelude.Text.{to_decimal}
use thesis_project_land_chai.Errors.{bad_request, forbidden, not_found}
use thesis_project_land_chai.Externals.{Externals}
use thesis_project_land_chai.Field.{land_id_to_field, deterministic_tx_hash}
use thesis_project_land_chai.Db.{
  Land, LandStatus-eq, listed_for_sale, Challenge, ChallengeStatus-eq, proof_submitted, verified,
  failed, Proof, proof_verified, Db, find_land, find_challenge, find_proof, save_challenge,
  save_proof, add_transaction,
}
use thesis_project_land_chai.Action.{Action, lift, gets, or_throw, modify, guards, ◌>>=◌, ◌>>◌}
use thesis_project_land_chai.Zk.{verify_with_circuit}
use thesis_project_land_chai.Notes.{passes, notes_of, join_notes}
use thesis_project_land_chai.Proof.{differs}
use thesis_project_land_chai.Proof.Reverify.{bool_text, reverified}

abbrev find_proof? : Option ℕ → Db → Option Proof
find_proof? none db = none
find_proof? (some id) db = find_proof id db

module _ (x : Externals) where
  -- The semantic checks: THIS land, listed and of this seller, the current root, this nonce.
  abbrev pub challenge_checks : Challenge → Land → List String → List (Bool × String)
  challenge_checks challenge land signals =
      (
        not (land.status == listed_for_sale) || not land.for_sale,
        "Land is no longer listed for sale.",
      )
      ∷ (
        differs (get_elem? signals 1) (some (land_id_to_field x land.land_id)),
        "Proof is for a different land.",
      )
      ∷ (
        differs (get_elem? signals 2) land.merkle_root,
        "Merkle root is stale — registry changed since proof.",
      )
      ∷ (
        differs (get_elem? signals 3) (some challenge.nonce),
        "Challenge nonce mismatch — possible replay.",
      )
      ∷ (not (land.owner_id == challenge.seller_id), "Seller is no longer the registered owner.")
      ∷ []

  unfoldable pub verdict_notes : Bool → List (Bool × String) → List String
  verdict_notes cryptographic_ok checks =
      (if cryptographic_ok then "Groth16 proof valid." else "Groth16 proof INVALID.")
      ∷ (notes_of checks
          ++ (if cryptographic_ok && passes checks
              then "Seller is the authentic current owner of this land." ∷ []
              else []))

  abbrev pub judged : Challenge → Bool → String → Challenge
  judged challenge ok_ note = record challenge {
    status = if ok_ then verified else failed;
    verified_at = some x.now;
    verification_note = some note;
    messages =
        challenge.messages
        ++ record {
          sender = challenge.buyer_id;
          sender_name = "Buyer";
          body =
              if ok_
              then "I verified your zero-knowledge proof. Ownership is authentic."
              else "Proof verification failed: " <> note;
          sent_at = x.now;
        }
          ∷ [];
  }

  unfoldable pub verify_challenge : ℕ → ℕ → Action (Option Challenge)
  unfolding verdict_notes
  verify_challenge challenge_id buyer_id = do
    challenge ← or_throw (← gets (find_challenge challenge_id)) (not_found "Challenge not found.")
    guards (
        (not (challenge.buyer_id == buyer_id), forbidden "Only the challenging buyer can verify.")
        ∷ (
          not (challenge.status == proof_submitted) || not (is_some challenge.proof_id),
          bad_request "The seller has not submitted a proof yet.",
        )
        ∷ [])
    doc ←
        or_throw (← gets (find_proof? challenge.proof_id))
          (not_found "Proof or land record missing.")
    land ←
        or_throw (← gets (find_land challenge.land_id)) (not_found "Proof or land record missing.")
    cryptographic_ok ← lift (verify_with_circuit x doc.circuit doc.proof doc.public_signals)
    let checks = challenge_checks challenge land doc.public_signals
    let authentic = cryptographic_ok && passes checks
    let note = join_notes (verdict_notes cryptographic_ok checks)
    modify (save_challenge (judged challenge authentic note))
    modify (save_proof (reverified x doc authentic note))
    modify (
        add_transaction (record {
          land_id = some challenge.land_id;
          from_owner = some challenge.seller_wallet;
          to_owner = some challenge.buyer_wallet;
          transaction_type = proof_verified;
          blockchain_tx_hash =
              deterministic_tx_hash x
                ("challenge-verify:" <> to_decimal challenge.id <> ":" <> bool_text authentic);
          status = if authentic then "VERIFIED" else "REJECTED";
          detail = some note;
          created_at = x.now;
        }))
    gets (find_challenge challenge_id)
