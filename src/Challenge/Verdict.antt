-- ===== src/Challenge/Verdict.antt =====
-- What `verifyChallenge` decides.
use thesis_project_land_chai.Prelude.{
  ℕ, String, Bool, true, false, ◌==◌, ◌&&◌, string_eq, nat_eq, Option, some, List, [], ◌∷◌, find,
  find_found, get_elem?, ◌≡◌, ◌↔◌, ◌⊎◌, inl, inr, refl, arith,
}
use thesis_project_land_chai.Errors.{ok}
use thesis_project_land_chai.Externals.{Externals}
use thesis_project_land_chai.Db.{
  Land, LandStatus-eq, listed_for_sale, Challenge, ChallengeStatus-eq, proof_submitted, verified,
  failed, Proof, Db, find_land, find_challenge, find_proof, replace_challenge,
}
use thesis_project_land_chai.Action.{◌>>=◌}
use thesis_project_land_chai.Field.{land_id_to_field}
use thesis_project_land_chai.Proof.{differs}
use thesis_project_land_chai.Zk.{verify_with_circuit}
use thesis_project_land_chai.Notes.{passes, join_notes}
use thesis_project_land_chai.Challenge.Verify.{
  challenge_checks, judged, verdict_notes, verify_challenge,
}

find_challenge-replace :
    (c c' : Challenge) (cs : List Challenge) (id : ℕ)
    → c'.id ≡ id
    → find (λ (d : Challenge). d.id == id) cs ≡ some c
    → find (λ (d : Challenge). d.id == id) (replace_challenge c' cs) ≡ some c'
unfolding replace_challenge
find_challenge-replace c c' [] id same h = cc
find_challenge-replace c c' (d ∷ ds) id same h =
    ground (arith, find_challenge-replace c c' ds id same)

-- What the buyer wants to know: the proof is valid, about this listed land, under the root that is
-- stored with it and this challenge's nonce, and the challenged seller owns the land.
abbrev pub IsAuthentic : Externals → Challenge → Land → List String → Bool → Type 0
IsAuthentic x c land signals crypto =
    (crypto ≡ true)
    × (land.status ≡ listed_for_sale)
    × (land.for_sale ≡ true)
    × (get_elem? signals 1 ≡ some (land_id_to_field x land.land_id))
    × (get_elem? signals 2 ≡ land.merkle_root)
    × (get_elem? signals 3 ≡ some c.nonce)
    × (land.owner_id ≡ c.seller_id)

differs_iff : (a b : Option String) → (differs a b ≡ false) ↔ (a ≡ b)
differs_iff a b = ground arith

checks_iff :
    (x : Externals) (c : Challenge) (land : Land) (signals : List String) (crypto : Bool)
    → (crypto && passes (challenge_checks x c land signals) ≡ true)
      ↔ IsAuthentic x c land signals crypto
unfolding LandStatus-eq
checks_iff x c land signals crypto = ground (
  arith,
  differs_iff (get_elem? signals 1) (some (land_id_to_field x land.land_id)),
  differs_iff (get_elem? signals 2) land.merkle_root,
  differs_iff (get_elem? signals 3) (some c.nonce),
)

challenge_id-eq : (id : ℕ) (c : Challenge) → (c.id == id) ≡ true → c.id ≡ id
challenge_id-eq id c h = ground arith

verdict_iff :
    (x : Externals) (c : Challenge) (b : Bool) (note : String) {P : Type 0}
    → (b ≡ true) ↔ P
    → ((judged x c b note).status ≡ verified) ↔ P
verdict_iff x c true note (f, g) = (λ h. f refl, λ p. refl)
verdict_iff x c false note (f, g) = (λ h. cc, λ p. cc (g p))

verdict_cases :
    (x : Externals) (c : Challenge) (b : Bool) (note : String)
    → ((judged x c b note).status ≡ verified) ⊎ ((judged x c b note).status ≡ failed)
verdict_cases x c true note = inl refl
verdict_cases x c false note = inr refl

module _ (x : Externals) (db : Db) (challenge_id buyer_id : ℕ) {c : Challenge} {doc : Proof}
    {land : Land} {crypto : Bool} where
  -- Where the buyer of an answered challenge verifies it, and the proof, the land and the verifier's
  -- answer are there, the run returns the challenge as it is then stored; its status is verified
  -- exactly when the verifier accepts, the land is listed and of the challenged seller, and the
  -- signals are the land's encoding, the stored root and the nonce, and it is failed otherwise.
  pub verify_challenge-verdict :
      find_challenge challenge_id db ≡ some c
      → c.buyer_id ≡ buyer_id
      → c.status ≡ proof_submitted
      → (proof_id : ℕ) → c.proof_id ≡ some proof_id
      → find_proof proof_id db ≡ some doc
      → find_land c.land_id db ≡ some land
      → verify_with_circuit x doc.circuit doc.proof doc.public_signals ≡ ok crypto
      → (c' : Challenge) × ((verify_challenge x challenge_id buyer_id db).0 ≡ ok (some c'))
        × (find_challenge challenge_id (verify_challenge x challenge_id buyer_id db).1 ≡ some c')
        × ((c'.status ≡ verified) ↔ IsAuthentic x c land doc.public_signals crypto)
        × ((c'.status ≡ verified) ⊎ (c'.status ≡ failed))
  unfolding verify_challenge ◌>>=◌ ChallengeStatus-eq find_challenge
  verify_challenge-verdict found own submitted proof_id has_proof found_proof found_land decided =
      let checks = challenge_checks x c land doc.public_signals in
      let note = join_notes (verdict_notes x crypto checks) in
      let c' = judged x c (crypto && passes checks) note in
      let id =
        challenge_id-eq challenge_id c
          (find_found (λ d. d.id == challenge_id) db.challenges found) in
      let stored = find_challenge-replace c c' db.challenges challenge_id id found in
      (
        c',
        ground (arith, found, own, submitted, has_proof, found_proof, found_land, decided, stored),
        ground (arith, found, own, submitted, has_proof, found_proof, found_land, decided, stored),
        verdict_iff x c (crypto && passes checks) note
            (checks_iff x c land doc.public_signals crypto),
        verdict_cases x c (crypto && passes checks) note,
      )
