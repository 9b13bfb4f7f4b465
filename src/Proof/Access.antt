-- ===== src/Proof/Access.antt =====
-- `assertProofAccess`, `getProof` and `listProofs` of proof.service.ts.
use mathlib.Core.List.{reverse}
use thesis_project_land_chai.Prelude.{
  ℕ, String, Bool, true, false, ◌&&◌, ◌||◌, ◌==◌, string_eq, nat_eq, option_eq, Option, none, some,
  List, filter, if◌then◌else◌,
}
use thesis_project_land_chai.Errors.{forbidden, not_found, Result, ok, err, ◌>>=◌}
use thesis_project_land_chai.Db.{Proof, Role, Role-eq, authority, Db, find_challenge, find_proof}

-- A participant of the challenge that the proof answers.
unfoldable pub is_participant : Option ℕ → ℕ → Db → Bool
is_participant none user_id db = false
is_participant (some challenge_id) user_id db = elim (find_challenge challenge_id db) [
  | none ↦ false
  | some c ↦ c.buyer_id == user_id || c.seller_id == user_id
]

unfoldable pub assert_proof_access : Proof → ℕ → Role → Db → Result (Unit {0})
unfolding is_participant
assert_proof_access doc user_id role db =
    if role == authority
    then ok tt
    else if doc.owner_id == user_id
    then ok tt
    else if is_participant doc.challenge_id user_id db
    then ok tt
    else err (forbidden "You are not authorized to access this proof.")

unfoldable pub get_proof : ℕ → ℕ → Role → Db → Result Proof
unfolding assert_proof_access
get_proof proof_id user_id role db = elim (find_proof proof_id db) [
  | none ↦ err (not_found "Proof not found.")
  | some doc ↦ assert_proof_access doc user_id role db >>= λ _. ok doc
]

-- Newest first; the authority sees all proofs, a user their own.
unfoldable pub list_proofs : ℕ → Role → Option String → Db → List Proof
list_proofs user_id role land_id db = reverse (
    filter
      (λ (p : Proof).
        (elim land_id [ none ↦ true | some l ↦ l == "" || p.land_id == some l ])
        && (role == authority || p.owner_id == user_id))
      db.proofs)
