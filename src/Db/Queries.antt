-- ===== src/Db/Queries.antt =====
-- The queries and writes that the services make.
use thesis_project_land_chai.Prelude.{
  ℕ, ◌+◌, String, Option, none, some, List, [], ◌∷◌, ◌++◌, ◌==◌, string_eq, nat_eq, find,
  if◌then◌else◌, is_some,
}
use thesis_project_land_chai.Db.Documents.{
  Land, Challenge, Proof, Transaction, MerkleRoot, User, Db,
}

unfoldable pub find_land : String → Db → Option Land
find_land land_id db = find (λ (l : Land). l.land_id == land_id) db.lands

unfoldable pub find_commitment : String → Db → Option Land
find_commitment commitment db = find (λ (l : Land). l.land_commitment == commitment) db.lands

unfoldable pub find_challenge : ℕ → Db → Option Challenge
find_challenge id db = find (λ (c : Challenge). c.id == id) db.challenges

unfoldable pub find_proof : ℕ → Db → Option Proof
find_proof id db = find (λ (p : Proof). p.id == id) db.proofs

unfoldable pub find_user : ℕ → Db → Option User
find_user id db = find (λ (u : User). u.id == id) db.users

-- `sort({ createdAt: -1 })` and the first: the document created last.
unfoldable pub last_of {ℓ} : {A : Type ℓ} → List A → Option A
last_of [] = none
last_of (a ∷ []) = some a
last_of (a ∷ b ∷ rest) = last_of (b ∷ rest)

unfoldable pub latest_root : Db → Option MerkleRoot
unfolding last_of
latest_root db = last_of db.merkle_roots

unfoldable pub replace_land : Land → List Land → List Land
replace_land l [] = []
replace_land l (m ∷ ms) = if m.land_id == l.land_id then l ∷ ms else m ∷ replace_land l ms

unfoldable pub replace_challenge : Challenge → List Challenge → List Challenge
replace_challenge c [] = []
replace_challenge c (d ∷ ds) = if d.id == c.id then c ∷ ds else d ∷ replace_challenge c ds

unfoldable pub replace_proof : Proof → List Proof → List Proof
replace_proof p [] = []
replace_proof p (q ∷ qs) = if q.id == p.id then p ∷ qs else q ∷ replace_proof p qs

-- `document.save()` of a document that is stored.
abbrev pub save_land : Land → Db → Db
save_land l db = record db { lands = replace_land l db.lands }

abbrev pub save_challenge : Challenge → Db → Db
save_challenge c db = record db { challenges = replace_challenge c db.challenges }

abbrev pub save_proof : Proof → Db → Db
save_proof p db = record db { proofs = replace_proof p db.proofs }

-- `Model.create(…)`
abbrev pub add_transaction : Transaction → Db → Db
add_transaction t db = record db { transactions = db.transactions ++ t ∷ [] }

abbrev pub add_merkle_root : MerkleRoot → Db → Db
add_merkle_root r db = record db { merkle_roots = db.merkle_roots ++ r ∷ [] }

abbrev pub add_challenge : Challenge → Db → Db
add_challenge c db = record db { challenges = db.challenges ++ c ∷ []; next_id = db.next_id + 1 }

abbrev pub add_proof : Proof → Db → Db
add_proof p db = record db { proofs = db.proofs ++ p ∷ []; next_id = db.next_id + 1 }

abbrev pub add_user : User → Db → Db
add_user u db = record db { users = db.users ++ u ∷ []; next_id = db.next_id + 1 }

-- A second document with the same unique key.
unfoldable pub land_duplicate : Land → Db → Option String
unfolding find_land find_commitment
land_duplicate l db =
    if is_some (find_land l.land_id db)
    then some "landId"
    else if is_some (find_commitment l.land_commitment db)
    then some "landCommitment"
    else none
