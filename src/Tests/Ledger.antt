-- ===== src/Tests/Ledger.antt =====
-- Examples: the pages of the explorer, the lock, and the owner's proofs.
use thesis_project_land_chai.Prelude.{
  ◌⊎◌, ℕ, ◌+◌, ◌≤◌, string_eq, nat_eq, String, false, none, some, [], ◌∷◌, map, find, ◌≡◌, refl,
  arith,
}
use thesis_project_land_chai.Errors.{ok, err, plain}
use thesis_project_land_chai.Merkle.{MerkleSnapshot}
use thesis_project_land_chai.Db.{
  Land, LandStatus-eq, Transaction, land_requested, Db, area_range, commitment_opening,
  registry_membership, challenge_response,
}
use thesis_project_land_chai.Land.{nonneg}
use thesis_project_land_chai.Registry.{hash2, refresh, tree_leaf, is_approved}
use thesis_project_land_chai.Registry.Leaves.{has_id}
use thesis_project_land_chai.Registry.Invariant.{
  IsPlaced, IsRegistry, placed_tree, refresh-IsRegistry,
}
use thesis_project_land_chai.Client.Zk.{compute_commitments}
use thesis_project_land_chai.Client.Witness.{build_circuit_input}
use thesis_project_land_chai.Circuit.Owner.{Proves, owner-Proves, owner-Proves_area}
use thesis_project_land_chai.Lock.{
  Task, settled, section, running, done, resolved, last_caught, Locked, chained, with_registry_lock,
  fulfilled, resumed, returned, caught_error, here, there, Turns, idle, called, turned,
}
use thesis_project_land_chai.Lock.Order.{IsSerial, lock-IsSerial}
use thesis_project_land_chai.Lock.Exclusion.{
  running_count, AllCaught, HasTurn, lock-exclusive, lock-proceeds,
}
use thesis_project_land_chai.Tests.Toy.{pending_db, registered_plot, answered}
use thesis_project_land_chai.Tests.Lands.{placed_at_0}
use thesis_project_land_chai.Tests.Api.{field_toy, field_toy-IsFieldHash, browser, secret}

abbrev entry : String → ℕ → Transaction
entry hash at = record {
  land_id = some "L1";
  from_owner = none;
  to_owner = none;
  transaction_type = land_requested;
  blockchain_tx_hash = hash;
  status = "PENDING";
  detail = none;
  created_at = at;
}

abbrev ledger_db : Db
ledger_db = record pending_db { transactions = entry "0x01" 1000 ∷ entry "0x02" 2000 ∷ [] }

-- Two sections on a counter, and a function that is rejected.
abbrev counts : Task ℕ ℕ
counts = section (λ n. n + 1) (λ n. section (λ m. m + 10) (λ m. settled (ok n)))

abbrev fails : Task ℕ ℕ
fails = section (λ n. n + 100) (λ n. settled (err (plain "no prover")))

-- The first function was rejected, and the second is between its sections.
abbrev halfway : Locked ℕ ℕ
halfway = record {
  state = 106;
  calls =
      record (chained 0 resolved fails) {
        run = done (err (plain "no prover"));
        caught = some (ok 0);
      }
      ∷ record (chained 0 last_caught counts) {
        run = running (section (λ m. m + 10) (λ m. settled (ok 105)));
      }
      ∷ [];
  registry_chain = last_caught;
}

failed_call : Turns 0 5 (fails ∷ counts ∷ []) (record {
  state = 105;
  calls =
      record (chained 0 resolved fails) { run = done (err (plain "no prover")) }
      ∷ chained 0 last_caught counts
      ∷ [];
  registry_chain = last_caught;
})
unfolding with_registry_lock
failed_call = turned (here (returned (err (plain "no prover")) refl)) (
    turned (here (resumed (λ n. n + 100) (λ n. settled (err (plain "no prover"))) refl))
      (turned (here (fulfilled 0 refl refl)) (called counts (called fails idle))))

halfway-Turns : Turns 0 5 (fails ∷ counts ∷ []) halfway
halfway-Turns =
    turned
      (there (here (resumed (λ n. n + 1) (λ n. section (λ m. m + 10) (λ m. settled (ok n))) refl)))
      (turned (there (here (fulfilled 0 refl refl)))
        (turned (here (caught_error (plain "no prover") refl refl)) failed_call))

lock-IsSerial_example : IsSerial 0 5 resolved (fails ∷ counts ∷ []) 106 halfway.calls
lock-IsSerial_example = lock-IsSerial 0 5 (fails ∷ counts ∷ []) halfway halfway-Turns

lock-exclusive_example : running_count halfway.calls ≤ 1
lock-exclusive_example = lock-exclusive 0 5 (fails ∷ counts ∷ []) halfway halfway-Turns

lock-proceeds_example :
    AllCaught 0 halfway.calls
    ⊎ ((running_count halfway.calls ≡ 1) ⊎ HasTurn 0 none 106 halfway.calls)
lock-proceeds_example = lock-proceeds 0 5 (fails ∷ counts ∷ []) halfway halfway-Turns

abbrev own_plot : Land
own_plot = record registered_plot {
  land_commitment = (compute_commitments browser "L1" secret 500).land_commitment;
  area_commitment = (compute_commitments browser "L1" secret 500).area_commitment;
}

owner-Proves_area_example : Proves field_toy.poseidon (
    build_circuit_input browser area_range own_plot secret
      (record { challenge = none; min_area = nonneg 200 false }))
owner-Proves_area_example =
    owner-Proves_area field_toy browser field_toy-IsFieldHash refl own_plot secret 200 false none
      refl (ground arith) (ground arith) (ground arith)

own-IsPlaced : IsPlaced (own_plot ∷ [])
unfolding tree_leaf is_approved LandStatus-eq
own-IsPlaced = placed_at_0 own_plot refl (refl, refl)

own_tree : (s : MerkleSnapshot) × IsRegistry (hash2 field_toy) (map (refresh s) (own_plot ∷ []))
own_tree =
    let (s, tree) = placed_tree (hash2 field_toy) (own_plot ∷ []) own-IsPlaced.below in
    (s, refresh-IsRegistry (hash2 field_toy) s (own_plot ∷ []) tree own-IsPlaced)

abbrev stored_own : Land
stored_own = refresh own_tree.0 own_plot

found_own : find (has_id "L1") (map (refresh own_tree.0) (own_plot ∷ [])) ≡ some stored_own
unfolding string_eq refresh
found_own = refl

own_at_0 : tree_leaf stored_own ≡ some 0
unfolding tree_leaf is_approved refresh
own_at_0 = refl

own_committed :
    stored_own.land_commitment
    ≡ (compute_commitments browser stored_own.land_id secret stored_own.area_sqm).land_commitment
unfolding tree_leaf is_approved refresh
own_committed = refl

owner-Proves_example :
    Proves field_toy.poseidon (
      build_circuit_input browser commitment_opening stored_own secret
        (record { challenge = none; min_area = nonneg 1 false }))
    × Proves field_toy.poseidon (
        build_circuit_input browser registry_membership stored_own secret
          (record { challenge = none; min_area = nonneg 1 false }))
    × Proves field_toy.poseidon (
        build_circuit_input browser challenge_response stored_own secret
          (record { challenge = some (ok answered); min_area = nonneg 1 false }))
owner-Proves_example =
    owner-Proves field_toy browser field_toy-IsFieldHash refl
      (map (refresh own_tree.0) (own_plot ∷ [])) "L1" stored_own 0 own_tree.1 found_own own_at_0
      secret own_committed (record { challenge = none; min_area = nonneg 1 false }) answered
      (nonneg 1 false)
