-- ===== src/Proof/Response.antt =====
-- What a challenge response that `submitProof` accepts is bound to.
use thesis_project_land_chai.Prelude.{
  ℕ, String, true, string_eq, nat_eq, option_eq, Option, none, some, List, get_elem?, ◌≡◌, inl, inr,
  ap, ◌∙◌, arith, Option-cases,
}
use thesis_project_land_chai.Errors.{ok, Result-cases}
use thesis_project_land_chai.Externals.{Externals, challenge_proof}
use thesis_project_land_chai.Field.{land_id_to_field}
use thesis_project_land_chai.Db.{
  Land, Challenge, Proof, challenge_response, Db, find_land, find_challenge,
}
use thesis_project_land_chai.Action.{◌>>=◌, run-cases}
use thesis_project_land_chai.Zk.{verify_with_circuit}
use thesis_project_land_chai.Registry.{is_approved}
use thesis_project_land_chai.Proof.{
  ProofSubmission, field_elements, is_open, admit_submission, bind_signals, proof_type_circuit,
  submit_proof, submitted_proof,
}

module _ (x : Externals) (i : ProofSubmission) (db : Db) where
  admit-ok :
      {signals : List String} {land : Land} {mid : Db}
      → admit_submission x i challenge_response db ≡ (ok (signals, land), mid)
      → (mid ≡ db)
        × (field_elements i.public_signals ≡ some signals)
        × (find_land i.land_id db ≡ some land)
        × (is_approved land.status ≡ true)
        × (land.owner_id ≡ i.user_id)
  unfolding admit_submission ◌>>=◌
  admit-ok {signals} h = elim (Option-cases (field_elements i.public_signals)) [
    | inl malformed ↦ absurd (ground (arith, h, malformed))
    | inr (ss, wellformed) ↦ elim (Option-cases (find_land i.land_id db)) [
      | inl missing ↦ absurd (ground (arith, h, wellformed, missing))
      | inr (l, found) ↦ ground (arith, h, wellformed, found)
    ]
  ]

  bind-ok_response :
      (signals : List String) (land : Land) {c : Option Challenge} {mid : Db}
      → bind_signals x i land signals challenge_response db ≡ (ok c, mid)
      → (mid ≡ db)
        × ((id : ℕ) × (challenge : Challenge) × (i.challenge_id ≡ some id)
            × (find_challenge id db ≡ some challenge)
            × (c ≡ some challenge)
            × (challenge.seller_id ≡ i.user_id)
            × (challenge.land_id ≡ i.land_id)
            × (is_open challenge.status ≡ true)
            × (get_elem? signals 1 ≡ some (land_id_to_field x i.land_id))
            × (get_elem? signals 2 ≡ land.merkle_root)
            × (get_elem? signals 3 ≡ some challenge.nonce))
  unfolding bind_signals ◌>>=◌
  bind-ok_response signals land {c} h = elim (Option-cases i.challenge_id) [
    | inl unnamed ↦ absurd (ground (arith, h, unnamed))
    | inr (id, named) ↦ elim (Option-cases (find_challenge id db)) [
      | inl missing ↦ absurd (ground (arith, h, named, missing))
      | inr (challenge, found) ↦ (
        ground (arith, h, named, found),
        (
          id,
          challenge,
          named,
          found,
          ground (arith, h, named, found),
          ground (arith, h, named, found),
          ground (arith, h, named, found),
          ground (arith, h, named, found),
          ground (arith, h, named, found),
          ground (arith, h, named, found),
          ground (arith, h, named, found),
        ),
      )
    ]
  ]

  -- What an accepted challenge response is bound to.
  pub record IsResponse (doc : Proof) : Type 0 where
    pub land : Land
    pub found : find_land i.land_id db ≡ some land
    pub is_in_tree : is_approved land.status ≡ true
    pub by_owner : land.owner_id ≡ i.user_id
    pub challenge : Challenge
    pub found_challenge :
        (id : ℕ) × (i.challenge_id ≡ some id) × (find_challenge id db ≡ some challenge)
    pub by_seller : challenge.seller_id ≡ i.user_id
    pub about_land : challenge.land_id ≡ i.land_id
    pub was_open : is_open challenge.status ≡ true
    pub names_land : get_elem? doc.public_signals 1 ≡ some (land_id_to_field x i.land_id)
    pub names_root : get_elem? doc.public_signals 2 ≡ land.merkle_root
    pub names_nonce : get_elem? doc.public_signals 3 ≡ some challenge.nonce
    pub valid : verify_with_circuit x challenge_proof i.proof doc.public_signals ≡ ok true
    pub fresh : doc.used_for_transfer_at ≡ none

  -- Where a challenge response is accepted, the land is approved and of the submitter, the
  -- challenge is open, on this land and addressed to the submitter, the signals of the stored proof
  -- are the land's encoding, its root and the challenge's nonce, and the verifier accepts them.
  pub submit_proof-IsResponse :
      {doc : Proof} {db' : Db}
      → i.proof_type ≡ some challenge_response
      → submit_proof x i db ≡ (ok doc, db')
      → IsResponse doc
  unfolding submit_proof ◌>>=◌ submitted_proof proof_type_circuit
  submit_proof-IsResponse {doc} typed h =
      elim (run-cases (admit_submission x i challenge_response db)) [
        | inr (e, mid, failed) ↦ absurd (ground (arith, h, typed, failed))
        | inl ((signals, land), mid, admitted) ↦
            let (same, wellformed, found, approved, own) = admit-ok admitted in
            let admits = admitted ∙ ap (λ m. (ok (signals, land), m)) same in
            elim (run-cases (bind_signals x i land signals challenge_response db)) [
              | inr (e, mid', failed) ↦ absurd (ground (arith, h, typed, admits, failed))
              | inl (c, mid', bound) ↦
                  let (
                    same',
                    (id, challenge, named, found_c, is_c, seller, about, unanswered, s1, s2, s3),
                  ) =
                    bind-ok_response signals land bound in
                  let binds = bound ∙ ap (λ m. (ok c, m)) same' in
                  elim (Result-cases (verify_with_circuit x challenge_proof i.proof signals)) [
                    | inr (e, failed) ↦ absurd (ground (arith, h, typed, admits, binds, failed))
                    | inl (b, verifies) ↦
                        let accepted : b ≡ true =
                          ground (arith, h, typed, admits, binds, verifies) in
                        let same_signals : doc.public_signals ≡ signals =
                          ground (arith, h, typed, admits, binds, verifies) in
                        record {
                          land = land;
                          found = found;
                          is_in_tree = approved;
                          by_owner = own;
                          challenge = challenge;
                          found_challenge = (id, named, found_c);
                          by_seller = seller;
                          about_land = about;
                          was_open = unanswered;
                          names_land = ap (λ ss. get_elem? ss 1) same_signals ∙ s1;
                          names_root = ap (λ ss. get_elem? ss 2) same_signals ∙ s2;
                          names_nonce = ap (λ ss. get_elem? ss 3) same_signals ∙ s3;
                          valid =
                              ap (verify_with_circuit x challenge_proof i.proof) same_signals
                              ∙ verifies
                              ∙ ap ok accepted;
                          fresh = ground (arith, h, typed, admits, binds, verifies);
                        }
                  ]
            ]
      ]
