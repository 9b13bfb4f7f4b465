-- ===== src/Challenge.antt =====
-- apps/server/src/services/challenge.service.ts: a buyer challenges the seller of a listed land,
-- the seller answers with a proof, the buyer verifies it.
pub mod Verify
pub mod Verdict
pub mod Opening
pub mod Lands
use mathlib.Core.List.{reverse}
use thesis_project_land_chai.Prelude.{
  ℕ, String, Bool, true, false, ◌&&◌, ◌||◌, ◌==◌, ◌<>◌, string_eq, nat_eq, Option, none, some, List,
  [], ◌∷◌, ◌++◌, find, filter, not, is_some, get_or_else, if◌then◌else◌,
}
use thesis_project_land_chai.Prelude.Text.{to_decimal, to_lower_case}
use thesis_project_land_chai.Errors.{
  Error, bad_request, forbidden, not_found, Result, ok, err, ◌>>=◌ as bind_result,
}
use thesis_project_land_chai.Json.{Json}
use thesis_project_land_chai.Externals.{Externals}
use thesis_project_land_chai.Field.{
  random_challenge_salt, buyer_bound_challenge, deterministic_tx_hash,
}
use thesis_project_land_chai.Db.{
  Land, LandStatus-eq, listed_for_sale, Challenge, ChallengeStatus, ChallengeStatus-eq, pending,
  proof_submitted, declined, Message, Proof, challenge_response, challenge_created, Role, Role-eq,
  authority, User, Transaction, Db, find_land, find_challenge, find_user, find_proof,
  save_challenge, add_challenge, add_transaction,
}
use thesis_project_land_chai.Action.{
  Action, pure, lift, gets, or_throw, modify, guards, ◌>>=◌, ◌>>◌,
}
use thesis_project_land_chai.Proof.{ProofSubmission, is_open, status_text, submit_proof}

unfoldable pub find_open_challenge : String → ℕ → Db → Option Challenge
find_open_challenge land_id buyer_id db =
    find (λ (c : Challenge). c.land_id == land_id && c.buyer_id == buyer_id && is_open c.status)
      db.challenges

abbrev pub name_or : Option User → String → String
name_or none d = d
name_or (some u) d = u.name

pub record ChallengeInput : Type 0 where
  pub buyer_id : ℕ
  pub buyer_wallet : String
  pub land_id : String
  pub message : Option String

module _ (x : Externals) where
  unfoldable pub new_challenge : ChallengeInput → Land → String → String → ℕ → Challenge
  new_challenge i land nonce sender_name id = record {
    id = id;
    land_id = i.land_id;
    buyer_id = i.buyer_id;
    seller_id = land.owner_id;
    buyer_wallet = to_lower_case i.buyer_wallet;
    seller_wallet = land.owner_wallet;
    nonce = nonce;
    nonce_salt = some (random_challenge_salt x);
    agreed_price = land.sale_price;
    status = pending;
    messages =
        record {
          sender = i.buyer_id;
          sender_name = sender_name;
          body =
              get_or_else i.message
                "Are you the authentic owner of this land? Please prove it with a zero-knowledge proof.";
          sent_at = x.now;
        }
        ∷ [];
    proof_id = none;
    verified_at = none;
    verification_note = none;
  }

  unfoldable pub create_challenge : ChallengeInput → Action Challenge
  unfolding find_open_challenge new_challenge
  create_challenge i = do
    land ← or_throw (← gets (find_land i.land_id)) (not_found "Land not found.")
    guards (
        (
          not (land.status == listed_for_sale),
          bad_request "Authenticity challenges are for lands listed for sale.",
        )
        ∷ (land.owner_id == i.buyer_id, bad_request "You cannot challenge your own land.")
        ∷ [])
    existing ← gets (find_open_challenge i.land_id i.buyer_id)
    guards
        ((is_some existing, bad_request "You already have an open challenge for this land.") ∷ [])
    buyer ← gets (find_user i.buyer_id)
    nonce ← lift (buyer_bound_challenge x i.buyer_wallet (random_challenge_salt x))
    id ← gets (λ db. db.next_id)
    let challenge = new_challenge i land nonce (name_or buyer "Buyer") id
    modify (add_challenge challenge)
    modify (
        add_transaction (record {
          land_id = some i.land_id;
          from_owner = some (to_lower_case i.buyer_wallet);
          to_owner = some land.owner_wallet;
          transaction_type = challenge_created;
          blockchain_tx_hash = deterministic_tx_hash x ("challenge:" <> to_decimal id);
          status = "PENDING";
          detail = some "Buyer requested a zero-knowledge ownership proof.";
          created_at = x.now;
        }))
    pure challenge

  unfoldable pub list_challenges : ℕ → Db → List Challenge × List Challenge
  list_challenges user_id db = (
    reverse (filter (λ (c : Challenge). c.buyer_id == user_id) db.challenges),
    reverse (filter (λ (c : Challenge). c.seller_id == user_id) db.challenges),
  )

  unfoldable pub get_challenge : ℕ → ℕ → Role → Action Challenge
  get_challenge challenge_id user_id role = do
    challenge ← or_throw (← gets (find_challenge challenge_id)) (not_found "Challenge not found.")
    guards (
        (
          not (role == authority)
              && not (user_id == challenge.buyer_id)
              && not (user_id == challenge.seller_id),
          forbidden "You are not a participant of this challenge.",
        )
        ∷ [])
    pure challenge

  unfoldable pub add_challenge_message : ℕ → ℕ → Role → String → Action Challenge
  unfolding get_challenge
  add_challenge_message challenge_id user_id role body = do
    challenge ← get_challenge challenge_id user_id role
    sender ← gets (find_user user_id)
    let updated = record challenge {
      messages =
          challenge.messages
          ++ record {
            sender = user_id;
            sender_name = name_or sender "User";
            body = body;
            sent_at = x.now;
          }
            ∷ [];
    }
    modify (save_challenge updated)
    pure updated

  unfoldable pub respond_to_challenge :
      ℕ → ℕ → String → Json → Json → Action (Option Challenge × Proof)
  respond_to_challenge challenge_id seller_id seller_wallet proof public_signals = do
    challenge ← or_throw (← gets (find_challenge challenge_id)) (not_found "Challenge not found.")
    guards (
        (
          not (challenge.seller_id == seller_id),
          forbidden "Only the challenged seller can respond.",
        )
        ∷ (
          not (is_open challenge.status),
          bad_request ("Challenge is already " <> status_text challenge.status <> "."),
        )
        ∷ [])
    doc ← submit_proof x (record {
      user_id = seller_id;
      user_wallet = seller_wallet;
      land_id = challenge.land_id;
      proof_type = some challenge_response;
      proof = proof;
      public_signals = public_signals;
      challenge_id = some challenge_id;
    })
    current ← gets (find_challenge challenge_id)
    pure (current, doc)

  unfoldable pub decline_challenge : ℕ → ℕ → Action Challenge
  decline_challenge challenge_id seller_id = do
    challenge ← or_throw (← gets (find_challenge challenge_id)) (not_found "Challenge not found.")
    guards (
        (
          not (challenge.seller_id == seller_id),
          forbidden "Only the challenged seller can decline.",
        )
        ∷ (
          not (challenge.status == pending),
          bad_request "Only pending challenges can be declined.",
        )
        ∷ [])
    let refused = record challenge { status = declined }
    modify (save_challenge refused)
    pure refused
