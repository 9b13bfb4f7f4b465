-- ===== src/Proof.antt =====
-- apps/server/src/services/proof.service.ts and constants/proofTypes.ts: accepting and
-- re-verifying zero-knowledge proofs, and who may see them.
pub mod Access
pub mod Reverify
pub mod Response
pub mod Permission
use thesis_project_land_chai.Prelude.{
  ℕ, ◌+◌, String, Bool, true, false, ◌&&◌, ◌||◌, ◌==◌, ◌<>◌, string_eq, nat_eq, option_eq, Option,
  none, some, List, [], ◌∷◌, ◌++◌, length, get_elem?, all, not, is_some, if◌then◌else◌,
}
use thesis_project_land_chai.Prelude.Text.{to_decimal, to_lower_case}
use thesis_project_land_chai.Errors.{Error, bad_request, forbidden, not_found, Result, ok, err}
use thesis_project_land_chai.Json.{Json, Items, str, arr, nil, cons, get_field, is_array}
use thesis_project_land_chai.Externals.{
  CircuitName, commitment_proof, land_ownership, challenge_proof, area_range, Externals,
}
use thesis_project_land_chai.Field.{is_field_text, land_id_to_field, deterministic_tx_hash}
use thesis_project_land_chai.Db.{
  Land, ChallengeStatus, ChallengeStatus-eq, pending, proof_submitted, verified, failed, declined,
  Challenge, Message, ProofType, ProofType-eq, commitment_opening, registry_membership,
  challenge_response, proof_generated, proof_verified, Proof, Transaction, Db, MerkleRoot,
  find_land, find_challenge, find_proof, latest_root, save_challenge, save_proof, add_proof,
  add_transaction,
}
use thesis_project_land_chai.Db
use thesis_project_land_chai.Action.{
  Action, pure, throw, lift, gets, or_throw, modify, guards, ◌>>=◌, ◌>>◌,
}
use thesis_project_land_chai.Zk.{verify_with_circuit, circuit_name}
use thesis_project_land_chai.Registry.{is_approved}

unfoldable pub proof_type_name : ProofType → String
proof_type_name commitment_opening = "COMMITMENT_OPENING"
proof_type_name registry_membership = "REGISTRY_MEMBERSHIP"
proof_type_name challenge_response = "CHALLENGE_RESPONSE"
proof_type_name Db.area_range = "AREA_RANGE"

-- `PROOF_TYPE_CIRCUITS`
unfoldable pub proof_type_circuit : ProofType → CircuitName
proof_type_circuit commitment_opening = commitment_proof
proof_type_circuit registry_membership = land_ownership
proof_type_circuit challenge_response = challenge_proof
proof_type_circuit Db.area_range = area_range

-- `PUBLIC_SIGNAL_LABELS`
unfoldable pub proof_type_labels : ProofType → List String
proof_type_labels commitment_opening = "landIdField" ∷ "commitment" ∷ []
proof_type_labels registry_membership = "nullifier" ∷ "merkleRoot" ∷ []
proof_type_labels challenge_response =
    "responseNullifier" ∷ "landIdField" ∷ "merkleRoot" ∷ "challenge" ∷ []
proof_type_labels Db.area_range = "areaCommitment" ∷ "minArea" ∷ []

unfoldable pub is_groth16_proof_shape : Json → Bool
unfolding get_field
is_groth16_proof_shape proof =
    is_array (get_field "pi_a" proof)
    && is_array (get_field "pi_b" proof)
    && is_array (get_field "pi_c" proof)

-- An array whose every item is a field element, as its texts.
field_items : Items → Option (List String)
field_items nil = some []
field_items (cons (str s) vs) =
    let rest = field_items vs in
    if is_field_text s then elim rest [ none ↦ none | some ss ↦ some (s ∷ ss) ] else none
field_items (cons v vs) = none

unfoldable pub field_elements : Json → Option (List String)
unfolding field_items
field_elements (arr vs) = field_items vs
field_elements v = none

pub record ProofSubmission : Type 0 where
  pub user_id : ℕ
  pub user_wallet : String
  pub land_id : String
  -- `none` is a value that names no proof type
  pub proof_type : Option ProofType
  pub proof : Json
  pub public_signals : Json
  pub challenge_id : Option ℕ

-- `Challenge is already …`
unfoldable pub status_text : ChallengeStatus → String
status_text pending = "pending"
status_text proof_submitted = "proof_submitted"
status_text verified = "verified"
status_text failed = "failed"
status_text declined = "declined"

abbrev pub is_open : ChallengeStatus → Bool
is_open pending = true
is_open proof_submitted = true
is_open s = false

-- `!value` of an optional text is its negation.
abbrev pub is_set : Option String → Bool
is_set none = false
is_set (some s) = not (s == "")

abbrev pub differs : Option String → Option String → Bool
differs a b = not (a == b)

join_labels : List String → String
join_labels [] = ""
join_labels (s ∷ []) = s
join_labels (s ∷ t ∷ rest) = s <> ", " <> join_labels (t ∷ rest)

module _ (x : Externals) where
  -- The `switch` of `submitProof`: the public signals bind the proof to the land, to its current
  -- root and, for a challenge response, to the challenge that it returns.
  unfoldable pub bind_signals :
      ProofSubmission → Land → List String → ProofType → Action (Option Challenge)
  bind_signals i land signals commitment_opening = do
    guards (
        (
          differs (get_elem? signals 0) (some (land_id_to_field x i.land_id)),
          bad_request "Proof is bound to a different land.",
        )
        ∷ (
          differs (get_elem? signals 1) (some land.land_commitment),
          bad_request "Proof does not open this land's commitment.",
        )
        ∷ [])
    pure none
  bind_signals i land signals registry_membership = do
    guards (
        (not (is_set land.merkle_root), bad_request "Land has no Merkle path yet.")
        ∷ (
          differs (get_elem? signals 1) land.merkle_root,
          bad_request "Proof is for a stale registry root.",
        )
        ∷ [])
    pure none
  bind_signals i land signals challenge_response = do
    id ←
        or_throw i.challenge_id
          (bad_request "challengeId is required for a challenge-response proof.")
    challenge ← or_throw (← gets (find_challenge id)) (not_found "Challenge not found.")
    guards (
        (
          not (challenge.seller_id == i.user_id),
          forbidden "Only the challenged seller can respond.",
        )
        ∷ (not (challenge.land_id == i.land_id), bad_request "Challenge is for a different land.")
        ∷ (
          not (is_open challenge.status),
          bad_request ("Challenge is already " <> status_text challenge.status <> "."),
        )
        ∷ (not (is_set land.merkle_root), bad_request "Land has no Merkle path yet.")
        ∷ (
          differs (get_elem? signals 1) (some (land_id_to_field x i.land_id)),
          bad_request "Proof is bound to a different land.",
        )
        ∷ (
          differs (get_elem? signals 2) land.merkle_root,
          bad_request "Proof is for a stale registry root.",
        )
        ∷ (
          differs (get_elem? signals 3) (some challenge.nonce),
          bad_request "Proof does not answer this challenge's nonce.",
        )
        ∷ [])
    pure (some challenge)
  bind_signals i land signals Db.area_range = do
    guards (
        (
          differs (get_elem? signals 0) (some land.area_commitment),
          bad_request "Proof does not open this land's area commitment.",
        )
        ∷ [])
    pure none

  unfoldable pub submitted_proof :
      ProofSubmission → Land → List String → ProofType → Option Challenge → ℕ → Proof
  submitted_proof i land signals proof_type challenge id = record {
    id = id;
    proof_type = proof_type;
    circuit = proof_type_circuit proof_type;
    land_id = some i.land_id;
    owner_id = i.user_id;
    owner_wallet = to_lower_case i.user_wallet;
    challenge_id = elim challenge [ none ↦ none | some c ↦ some c.id ];
    proof = i.proof;
    public_signals = signals;
    public_signal_labels = proof_type_labels proof_type;
    merkle_root = land.merkle_root;
    verified = true;
    verified_at = some x.now;
    used_for_transfer_at = none;
    verification_note =
        some "Client-generated proof verified on submission (snarkjs groth16 + semantic binding).";
    transaction_hash = some (
        deterministic_tx_hash x
          ("proof:" <> proof_type_name proof_type <> ":" <> i.land_id <> ":" <> i.user_wallet));
  }

  -- What a submission does to its challenge.
  abbrev pub answered : Challenge → ℕ → Challenge
  answered c proof_id = record c {
    proof_id = some proof_id;
    status = proof_submitted;
    messages =
        c.messages
        ++ record {
          sender = c.seller_id;
          sender_name = "Seller";
          body = "Submitted a zero-knowledge ownership proof for your challenge.";
          sent_at = x.now;
        }
          ∷ [];
  }

  unfoldable pub attach : Option Challenge → ℕ → Action (Unit {0})
  attach none proof_id = pure tt
  attach (some c) proof_id = modify (save_challenge (answered c proof_id))

  -- The checks of `submitProof` before the `switch`, and the signals and the land that pass them.
  unfoldable pub admit_submission : ProofSubmission → ProofType → Action (List String × Land)
  unfolding join_labels
  admit_submission i proof_type = do
    guards (
        (
          not (is_groth16_proof_shape i.proof),
          bad_request "proof must be a snarkjs Groth16 proof object.",
        )
        ∷ [])
    signals ←
        or_throw (field_elements i.public_signals)
          (bad_request "publicSignals must be an array of decimal field elements.")
    land ← or_throw (← gets (find_land i.land_id)) (not_found "Land not found.")
    guards (
        (
          not (is_approved land.status),
          bad_request "Proofs can only be submitted for approved lands.",
        )
        ∷ (
          not (land.owner_id == i.user_id),
          forbidden "Only the owner can submit a proof for their own land.",
        )
        ∷ (
          not (length signals == length (proof_type_labels proof_type)),
          bad_request (
              "Expected "
              <> to_decimal (length (proof_type_labels proof_type))
              <> " public signals ("
              <> join_labels (proof_type_labels proof_type)
              <> ")."),
        )
        ∷ [])
    pure (signals, land)

  unfoldable pub submit_proof : ProofSubmission → Action Proof
  unfolding submitted_proof attach
  submit_proof i = do
    proof_type ← or_throw i.proof_type (bad_request "Unsupported proof type.")
    (signals, land) ← admit_submission i proof_type
    challenge ← bind_signals i land signals proof_type
    cryptographic_ok ← lift (verify_with_circuit x (proof_type_circuit proof_type) i.proof signals)
    guards (
        (not cryptographic_ok, bad_request "Groth16 verification failed — the proof is not valid.")
        ∷ [])
    id ← gets (λ db. db.next_id)
    let doc = submitted_proof i land signals proof_type challenge id
    modify (add_proof doc)
    attach challenge id
    modify (
        add_transaction (record {
          land_id = some i.land_id;
          from_owner = some (to_lower_case i.user_wallet);
          to_owner = none;
          transaction_type = proof_generated;
          blockchain_tx_hash =
              deterministic_tx_hash x (
                "proof:" <> proof_type_name proof_type <> ":" <> i.land_id <> ":" <> i.user_wallet);
          status = "VERIFIED";
          detail = some (
              proof_type_name proof_type
              <> " proof submitted from the owner's browser (circuit "
              <> circuit_name (proof_type_circuit proof_type)
              <> ").");
          created_at = x.now;
        }))
    pure doc
