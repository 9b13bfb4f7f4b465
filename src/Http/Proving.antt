-- ===== src/Http/Proving.antt =====
-- Every state that the server reaches lets the owners of the lands in the tree make their proofs.
use thesis_project_land_chai.Prelude.{ℕ, String, some, ◌≡◌}
use thesis_project_land_chai.Errors.{ok}
use thesis_project_land_chai.Externals.{Externals}
use thesis_project_land_chai.Db.{
  Land, Challenge, Db, find_land, commitment_opening, registry_membership, challenge_response,
}
use thesis_project_land_chai.Land.{AreaNumber}
use thesis_project_land_chai.Registry.{hash2, tree_leaf}
use thesis_project_land_chai.Client.Zk.{Browser, compute_commitments}
use thesis_project_land_chai.Client.Witness.{Options, build_circuit_input}
use thesis_project_land_chai.Circuit.Completeness.{IsFieldHash}
use thesis_project_land_chai.Circuit.Owner.{Proves, owner-Proves}
use thesis_project_land_chai.Http.Reach.{Reach, Reach-IsRegistry}

-- In every state that requests reach, the owner of a land in the tree, who keeps the secret that the
-- land's commitment was computed from, can open the commitment, prove membership and answer any
-- challenge: the browser builds each of the three witnesses from the land as the server stores it, and
-- the circuit accepts it, where Poseidon is a hash of field elements, the same in the browser and on the
-- server.
pub Reach-owner-Proves :
    (x : Externals) (b : Browser) (h : IsFieldHash x.poseidon) (same : b.poseidon2 ≡ x.poseidon)
    (db : Db) (land_id : String) (l : Land) (i : ℕ) (secret : String) (o : Options) (c : Challenge)
    (area : AreaNumber)
    → Reach (hash2 x) db
    → find_land land_id db ≡ some l
    → tree_leaf l ≡ some i
    → l.land_commitment ≡ (compute_commitments b l.land_id secret l.area_sqm).land_commitment
    → Proves x.poseidon (build_circuit_input b commitment_opening l secret o)
      × Proves x.poseidon (build_circuit_input b registry_membership l secret o)
      × Proves x.poseidon (
          build_circuit_input b challenge_response l secret
            (record { challenge = some (ok c); min_area = area }))
unfolding find_land
Reach-owner-Proves x b h same db land_id l i secret o c area reached found at committed =
    owner-Proves x b h same db.lands land_id l i (Reach-IsRegistry (hash2 x) reached) found at
      secret committed o c area
