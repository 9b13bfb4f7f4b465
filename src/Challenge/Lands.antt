-- ===== src/Challenge/Lands.antt =====
-- The challenge and the proof services write no land.
use thesis_project_land_chai.Prelude.{ℕ, String, List, Option, none, some}
use thesis_project_land_chai.Json.{Json}
use thesis_project_land_chai.Externals.{Externals}
use thesis_project_land_chai.Db.{
  Land, Role, ProofType, commitment_opening, registry_membership, challenge_response, Db, Challenge,
}
use thesis_project_land_chai.Db as Db_names
use thesis_project_land_chai.Action.Keeps.{Keeps, keeps_rules}
use thesis_project_land_chai.Proof.{
  ProofSubmission, admit_submission, bind_signals, attach, submit_proof,
}
use thesis_project_land_chai.Proof.Reverify.{verify_proof_record}
use thesis_project_land_chai.Challenge.{
  ChallengeInput, create_challenge, get_challenge, add_challenge_message, respond_to_challenge,
  decline_challenge,
}
use thesis_project_land_chai.Challenge.Verify.{verify_challenge}

module _ (x : Externals) where
  admit-Keeps :
      (i : ProofSubmission) (t : ProofType) → Keeps (λ db. db.lands) (admit_submission x i t)
  unfolding admit_submission
  admit-Keeps i t = search (keeps_rules) depth 40

  bind_signals-Keeps :
      (i : ProofSubmission) (l : Land) (signals : List String) (t : ProofType)
      → Keeps (λ db. db.lands) (bind_signals x i l signals t)
  unfolding bind_signals
  bind_signals-Keeps i l signals commitment_opening = search (keeps_rules) depth 40
  bind_signals-Keeps i l signals registry_membership = search (keeps_rules) depth 40
  bind_signals-Keeps i l signals challenge_response = search (keeps_rules) depth 40
  bind_signals-Keeps i l signals Db_names.area_range = search (keeps_rules) depth 40

  attach-Keeps : (c : Option Challenge) (id : ℕ) → Keeps (λ db. db.lands) (attach x c id)
  unfolding attach
  attach-Keeps none id = search (keeps_rules) depth 40
  attach-Keeps (some c) id = search (keeps_rules) depth 40

  pub submit_proof-Keeps : (i : ProofSubmission) → Keeps (λ db. db.lands) (submit_proof x i)
  unfolding submit_proof
  submit_proof-Keeps i =
      search (keeps_rules, admit-Keeps, bind_signals-Keeps, attach-Keeps) depth 60 fits 4000

  pub verify_proof_record-Keeps :
      (proof_id user_id : ℕ) (role : Role)
      → Keeps (λ db. db.lands) (verify_proof_record x proof_id user_id role)
  unfolding verify_proof_record
  verify_proof_record-Keeps proof_id user_id role = search (keeps_rules) depth 40

  pub create_challenge-Keeps : (i : ChallengeInput) → Keeps (λ db. db.lands) (create_challenge x i)
  unfolding create_challenge
  create_challenge-Keeps i = search (keeps_rules) depth 40

  pub get_challenge-Keeps :
      (challenge_id user_id : ℕ) (role : Role)
      → Keeps (λ db. db.lands) (get_challenge x challenge_id user_id role)
  unfolding get_challenge
  get_challenge-Keeps challenge_id user_id role = search (keeps_rules) depth 40

  pub add_challenge_message-Keeps :
      (challenge_id user_id : ℕ) (role : Role) (body : String)
      → Keeps (λ db. db.lands) (add_challenge_message x challenge_id user_id role body)
  unfolding add_challenge_message
  add_challenge_message-Keeps challenge_id user_id role body =
      search (keeps_rules, get_challenge-Keeps) depth 40

  pub respond_to_challenge-Keeps :
      (challenge_id seller_id : ℕ) (wallet : String) (proof signals : Json)
      → Keeps (λ db. db.lands) (respond_to_challenge x challenge_id seller_id wallet proof signals)
  unfolding respond_to_challenge
  respond_to_challenge-Keeps challenge_id seller_id wallet proof signals =
      search (keeps_rules, submit_proof-Keeps) depth 40

  pub verify_challenge-Keeps :
      (challenge_id buyer_id : ℕ)
      → Keeps (λ db. db.lands) (verify_challenge x challenge_id buyer_id)
  unfolding verify_challenge
  verify_challenge-Keeps challenge_id buyer_id = search (keeps_rules) depth 60 fits 4000

  pub decline_challenge-Keeps :
      (challenge_id seller_id : ℕ)
      → Keeps (λ db. db.lands) (decline_challenge x challenge_id seller_id)
  unfolding decline_challenge
  decline_challenge-Keeps challenge_id seller_id = search (keeps_rules) depth 40
