-- ===== src/Proof/Permission.antt =====
-- Who may see a proof.
use thesis_project_land_chai.Prelude.{
  ℕ, true, nat_eq, Option, none, some, ◌≡◌, ◌⊎◌, ◌↔◌, inl, inr, refl, sym, arith, Option-cases,
}
use mathlib.Core.Option.{some-injective}
use mathlib.Core.Path.{subst}
use thesis_project_land_chai.Errors.{ok}
use thesis_project_land_chai.Db.{
  Challenge, Proof, Role, Role-eq, authority, Db, find_challenge, find_proof,
}
use thesis_project_land_chai.Proof.Access.{is_participant, assert_proof_access, get_proof}

-- The authority, the proof's owner, and the buyer and the seller of the challenge it answers.
abbrev pub MaySee : Proof → ℕ → Role → Db → Type 0
MaySee doc user_id role db =
    (role ≡ authority)
    ⊎ ((doc.owner_id ≡ user_id)
        ⊎ ((id : ℕ) × (c : Challenge) × (doc.challenge_id ≡ some id)
            × (find_challenge id db ≡ some c)
            × ((c.buyer_id ≡ user_id) ⊎ (c.seller_id ≡ user_id))))

participant_iff :
    (o : Option ℕ) (user_id : ℕ) (db : Db)
    → (is_participant o user_id db ≡ true) ↔ (
        (id : ℕ) × (c : Challenge) × (o ≡ some id)
        × (find_challenge id db ≡ some c)
        × ((c.buyer_id ≡ user_id) ⊎ (c.seller_id ≡ user_id)))
unfolding is_participant
participant_iff none user_id db = (λ h. cc, λ p. cc p.2)
participant_iff (some i) user_id db = elim (Option-cases (find_challenge i db)) [
  | inl missing ↦
      (λ h. absurd (ground (arith, h, missing)), λ p. cc (some-injective i p.0 p.2, p.3, missing))
  | inr (c, found) ↦ (
    λ h. (i, c, refl, found, ground (arith, h, found)),
    λ p.
        let same : c ≡ p.1 = cc (some-injective i p.0 p.2, p.3, found) in
        let who : (c.buyer_id ≡ user_id) ⊎ (c.seller_id ≡ user_id) =
          subst (λ d. (d.buyer_id ≡ user_id) ⊎ (d.seller_id ≡ user_id)) (sym same) p.4 in
        ground (arith, found, who),
  )
]

-- A request for a proof returns a document exactly where it is the one stored under the id and the
-- caller is the authority, the proof's owner, or the buyer or the seller of the challenge that it
-- answers.
pub get_proof-MaySee :
    (proof_id user_id : ℕ) (role : Role) (db : Db) (doc : Proof)
    → (get_proof proof_id user_id role db ≡ ok doc)
      ↔ ((find_proof proof_id db ≡ some doc) × MaySee doc user_id role db)
unfolding get_proof assert_proof_access Role-eq
get_proof-MaySee proof_id user_id role db doc = elim (Option-cases (find_proof proof_id db)) [
  | inl missing ↦ ground (arith, missing)
  | inr (d, found) ↦ ground (arith, found, participant_iff d.challenge_id user_id db)
]
