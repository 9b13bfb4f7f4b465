-- ===== src/Transfer.antt =====
-- apps/server/src/services/transfer.service.ts: a buyer purchases a listed land.
pub mod Safety
pub mod Closing
pub mod Completion
pub mod Preserved
use thesis_project_land_chai.Prelude.{
  ℕ, String, Bool, true, false, ◌&&◌, ◌||◌, ◌==◌, ◌<>◌, string_eq, nat_eq, option_eq, Option, none,
  some, List, [], ◌∷◌, map, length, get_elem?, not, is_some, ltb, get_or_else, if◌then◌else◌,
}
use thesis_project_land_chai.Prelude.Text.{to_lower_case}
use thesis_project_land_chai.Errors.{Error, duplicate_key, bad_request, not_found, Result, ok, err}
use thesis_project_land_chai.Json.{truthy}
use thesis_project_land_chai.Externals.{Externals, challenge_proof}
use thesis_project_land_chai.Field.{
  is_field_text, land_id_to_field, buyer_bound_challenge, deterministic_tx_hash,
}
use thesis_project_land_chai.Merkle.{zero_leaf}
use thesis_project_land_chai.Db.{
  Land, LandStatus, LandStatus-eq, pending_approval, listed_for_sale, Challenge, ChallengeStatus,
  ChallengeStatus-eq, verified, failed, Proof, Transaction, buy, land_requested, MerkleRoot, Db,
  find_land, find_commitment, find_proof, latest_root, save_land, save_proof, add_transaction,
  add_merkle_root,
}
use thesis_project_land_chai.Action.{
  Action, pure, throw, lift, gets, or_throw, modify, guards, ◌>>=◌, ◌>>◌,
}
use thesis_project_land_chai.Chain.{update_root_on_chain, transfer_land_on_chain}
use thesis_project_land_chai.Zk.{verify_with_circuit}
use thesis_project_land_chai.Registry.{rebuild_registry_tree, prove_root_transition}
use thesis_project_land_chai.Land.{approval_root}
use thesis_project_land_chai.Proof.{is_open, is_set, differs}

pub record Purchase : Type 0 where
  pub land_id : String
  pub buyer_id : ℕ
  pub buyer_wallet : String
  pub new_land_commitment : String
  pub new_area_commitment : String

-- A date that is missing sorts below every other.
abbrev later : Option ℕ → Option ℕ → Bool
later none b = false
later (some a) none = true
later (some a) (some b) = ltb b a

-- `findOne({ landId, buyerId, status: "VERIFIED" }).sort({ verifiedAt: -1 })`
unfoldable pub latest_verified : String → ℕ → List Challenge → Option Challenge → Option Challenge
latest_verified land_id buyer_id [] best = best
latest_verified land_id buyer_id (c ∷ cs) best = latest_verified land_id buyer_id cs (
    if c.land_id == land_id && c.buyer_id == buyer_id && c.status == verified
    then elim best [
      | none ↦ some c
      | some b ↦ if later c.verified_at b.verified_at then some c else some b
    ]
    else best)

abbrev usable_proof : Option ℕ → Db → Option Proof
usable_proof none db = none
usable_proof (some id) db = elim (find_proof id db) [
  | none ↦ none
  | some p ↦ if truthy (some p.proof) && length p.public_signals == 4 then some p else none
]

-- What the checks of `buyListedLand` hand to the purchase.
pub record Cleared : Type 0 where
  pub land : Land
  pub challenge : Challenge
  pub salt : String
  pub proof : Proof

-- `challenge.agreedPrice != null && land.salePrice !== challenge.agreedPrice`
unfoldable pub price_changed : Option String → Option String → Bool
price_changed none sale_price = false
price_changed (some agreed) sale_price = differs sale_price (some agreed)

abbrev proof_unused : Option ℕ → Bool
proof_unused none = true
proof_unused (some t) = false

abbrev root_of_doc : Option MerkleRoot → Option String
root_of_doc none = none
root_of_doc (some r) = some r.root

module _ (x : Externals) where
  -- The checks on the land and on the buyer's new commitments.
  unfoldable pub check_land : Purchase → Action Land
  check_land i = do
    land ← or_throw (← gets (find_land i.land_id)) (not_found "Land not found.")
    guards (
        (
          not land.for_sale || not (land.status == listed_for_sale),
          bad_request "Land is not listed for sale.",
        )
        ∷ (land.owner_id == i.buyer_id, bad_request "Owner cannot buy their own land.")
        ∷ (
          not (is_field_text i.new_land_commitment),
          bad_request
              "newLandCommitment must be a decimal field element (computed in your browser).",
        )
        ∷ (
          not (is_field_text i.new_area_commitment),
          bad_request
              "newAreaCommitment must be a decimal field element (computed in your browser).",
        )
        ∷ (
          i.new_land_commitment == land.land_commitment,
          bad_request
              "The new commitment must differ from the current one — choose a fresh secret.",
        )
        ∷ [])
    duplicate ← gets (find_commitment i.new_land_commitment)
    guards (
        (
          is_some duplicate,
          bad_request "This commitment is already in use. Choose a different secret.",
        )
        ∷ [])
    pure land

  -- The verified challenge of this buyer and its seller's proof.
  unfoldable pub check_challenge : Purchase → Land → Action Cleared
  check_challenge i land = do
    challenge ← or_throw (← gets (λ db. latest_verified i.land_id i.buyer_id db.challenges none)) (
        bad_request
          "You must first challenge the seller and verify their zero-knowledge ownership proof before buying.")
    guards (
        (
          not (challenge.buyer_wallet == to_lower_case i.buyer_wallet),
          bad_request
              "Your wallet differs from the one used for the verified challenge. Re-run the challenge with your current wallet.",
        )
        ∷ (
          not (is_set challenge.nonce_salt),
          bad_request
              "This challenge predates buyer-bound nonces. Please create and verify a new challenge.",
        )
        ∷ [])
    proof ← or_throw (← gets (usable_proof challenge.proof_id)) (
        bad_request
          "The verified challenge has no usable seller proof. Please re-run the challenge.")
    pure (record {
      land = land;
      challenge = challenge;
      salt = get_or_else challenge.nonce_salt "";
      proof = proof;
    })

  -- The re-verification at the moment of purchase.
  unfoldable pub check_proof : Purchase → Cleared → Action (Unit {0})
  unfolding price_changed
  check_proof i c = do
    let signals = c.proof.public_signals
    guards (
        (
          not (proof_unused c.proof.used_for_transfer_at),
          bad_request
              "This ownership proof was already used for a transfer. Please re-run the challenge.",
        )
        ∷ (
          differs (get_elem? signals 1) (some (land_id_to_field x i.land_id)),
          bad_request
              "The seller's proof is bound to a different land. Please re-run the challenge.",
        )
        ∷ [])
    latest ← gets latest_root
    guards (
        (
          not (is_some latest) || differs (get_elem? signals 2) (root_of_doc latest),
          bad_request
              "The registry has changed since the challenge was verified, so the seller's proof is stale. Please re-run the challenge.",
        )
        ∷ [])
    bound ← lift (buyer_bound_challenge x i.buyer_wallet c.salt)
    guards (
        (
          differs (get_elem? signals 3) (some bound),
          bad_request
              "The seller's proof is not bound to your wallet. Please re-run the challenge.",
        )
        ∷ [])
    proof_ok ← lift (verify_with_circuit x challenge_proof c.proof.proof signals)
    guards (
        (
          not proof_ok,
          bad_request "The seller's proof failed cryptographic verification. Purchase aborted.",
        )
        ∷ (
          price_changed c.challenge.agreed_price c.land.sale_price,
          bad_request (
              "The sale price changed after your challenge was verified (agreed: "
              <> get_or_else c.challenge.agreed_price ""
              <> ", now: "
              <> get_or_else c.land.sale_price "undefined"
              <> "). Please re-run the challenge."),
        )
        ∷ [])

  -- The land under its new owner, out of the tree.
  abbrev pub transferred : Purchase → Land → Land
  transferred i land = record land {
    land_commitment = i.new_land_commitment;
    area_commitment = i.new_area_commitment;
    owner_id = i.buyer_id;
    owner_wallet = to_lower_case i.buyer_wallet;
    for_sale = false;
    sale_price = none;
    leaf_index = none;
    merkle_root = none;
    path_elements = [];
    path_indices = [];
    approved_by = none;
    approved_at = none;
    status = pending_approval;
    request_note = some (
        "Ownership purchased from " <> land.owner_wallet
        <> "; awaiting authority re-registration.");
  }

  -- `land.save()`: the new commitment may break the unique index.
  unfoldable pub save_transferred : Land → Action (Unit {0})
  save_transferred l db = elim (find_commitment l.land_commitment db) [
    | some other ↦ (err (duplicate_key "landCommitment"), db)
    | none ↦ (ok tt, save_land l db)
  ]

  -- `ChallengeModel.updateMany`: the other open challenges against the land are closed.
  unfoldable pub close_challenge : String → Challenge → Challenge
  close_challenge land_id c =
      if c.land_id == land_id && is_open c.status
      then record c { status = failed; verification_note = some "Land was sold; challenge closed." }
      else c

  abbrev sold_detail : Option String → String
  sold_detail none = "Sold; pending authority re-registration."
  sold_detail (some price) =
      if price == ""
      then "Sold; pending authority re-registration."
      else "Sold for " <> price <> "; pending authority re-registration."

  -- The new root, after the land has left the tree.
  unfoldable pub anchor_removal : Purchase → Land → Action (Unit {0})
  anchor_removal i land = do
    snapshot ← rebuild_registry_tree x
    transition ←
        prove_root_transition x (snapshot.path_for (get_or_else land.leaf_index 0))
          land.land_commitment zero_leaf snapshot.root
    let root_tx_hash = update_root_on_chain x snapshot.root transition
    modify λ db. add_merkle_root (approval_root x snapshot root_tx_hash i.buyer_id db) db

  abbrev pub bought : Purchase → Land → String → Transaction
  bought i land blockchain_tx_hash = record {
    land_id = some i.land_id;
    from_owner = some land.owner_wallet;
    to_owner = some (to_lower_case i.buyer_wallet);
    transaction_type = buy;
    blockchain_tx_hash = blockchain_tx_hash;
    status = "CONFIRMED";
    detail = some (sold_detail land.sale_price);
    created_at = x.now;
  }

  abbrev pub re_registration : Purchase → Transaction
  re_registration i = record {
    land_id = some i.land_id;
    from_owner = none;
    to_owner = some (to_lower_case i.buyer_wallet);
    transaction_type = land_requested;
    blockchain_tx_hash =
        deterministic_tx_hash x ("re-register:" <> i.land_id <> ":" <> i.buyer_wallet);
    status = "PENDING";
    detail = some "Re-registration request submitted to authority for the new owner.";
    created_at = x.now;
  }

  -- The writes of a purchase that has passed the checks and the chain.
  unfoldable pub complete_purchase :
      Purchase → Cleared → String → Action (Option Land × Transaction)
  complete_purchase i c blockchain_tx_hash = do
    modify (save_proof (record c.proof { used_for_transfer_at = some x.now }))
    save_transferred (transferred i c.land)
    anchor_removal i c.land
    modify λ db. record db { challenges = map (close_challenge i.land_id) db.challenges }
    let transaction = bought i c.land blockchain_tx_hash
    modify (add_transaction transaction)
    modify (add_transaction (re_registration i))
    land ← gets (find_land i.land_id)
    pure (land, transaction)

  unfoldable pub buy_listed_land : Purchase → Action (Option Land × Transaction)
  buy_listed_land i = do
    land ← check_land i
    cleared ← check_challenge i land
    check_proof i cleared
    blockchain_tx_hash ← lift (
        transfer_land_on_chain x i.land_id i.buyer_wallet cleared.salt cleared.proof.proof
          cleared.proof.public_signals)
    complete_purchase i cleared blockchain_tx_hash
