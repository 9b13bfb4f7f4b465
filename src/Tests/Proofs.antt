-- ===== src/Tests/Proofs.antt =====
-- Examples: a challenge is answered, and a proof is read.
use thesis_project_land_chai.Prelude.{some, [], ◌∷◌, ◌≡◌, ◌↔◌, option_eq, string_eq, nat_eq, refl}
use thesis_project_land_chai.Errors.{ok}
use thesis_project_land_chai.Json.{nil, cons, arr, str}
use thesis_project_land_chai.Db.{
  Proof, challenge_response, user, find_land, find_challenge, find_proof,
}
use thesis_project_land_chai.Action.{◌>>=◌}
use thesis_project_land_chai.Field.{is_field_text, land_id_to_field}
use thesis_project_land_chai.Zk.{verify_with_circuit}
use thesis_project_land_chai.Registry.{is_approved}
use thesis_project_land_chai.Proof.{
  ProofSubmission, is_groth16_proof_shape, proof_type_circuit, proof_type_labels, field_elements,
  admit_submission, bind_signals, submitted_proof, submit_proof,
}
use thesis_project_land_chai.Proof.Access.{get_proof}
use thesis_project_land_chai.Proof.Response.{IsResponse, submit_proof-IsResponse}
use thesis_project_land_chai.Proof.Permission.{MaySee, get_proof-MaySee}
use thesis_project_land_chai.Tests.Toy.{
  groth16, toy, plot_on_sale, answered, answered_db, seller_proof,
}

abbrev response : ProofSubmission
response = record {
  user_id = 1;
  user_wallet = "0xA";
  land_id = "L1";
  proof_type = some challenge_response;
  proof = groth16;
  public_signals = arr (cons (str "8") (cons (str "17") (cons (str "7") (cons (str "301") nil))));
  challenge_id = some 3;
}

abbrev response_doc : Proof
response_doc =
    submitted_proof toy response plot_on_sale ("8" ∷ "17" ∷ "7" ∷ "301" ∷ []) challenge_response
      (some answered) 10

response_accepted :
    submit_proof toy response answered_db
    ≡ (ok response_doc, (submit_proof toy response answered_db).1)
unfolding submit_proof admit_submission bind_signals field_elements is_field_text is_approved
    find_land find_challenge land_id_to_field verify_with_circuit proof_type_circuit
    proof_type_labels submitted_proof ◌>>=◌ option_eq string_eq nat_eq is_groth16_proof_shape
response_accepted = refl

submit_proof-IsResponse_example : IsResponse toy response answered_db response_doc
submit_proof-IsResponse_example =
    submit_proof-IsResponse toy response answered_db refl response_accepted

get_proof-MaySee_example :
    (get_proof 5 2 user answered_db ≡ ok seller_proof)
    ↔ ((find_proof 5 answered_db ≡ some seller_proof) × MaySee seller_proof 2 user answered_db)
get_proof-MaySee_example = get_proof-MaySee 5 2 user answered_db seller_proof
