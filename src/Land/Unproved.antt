-- ===== src/Land/Unproved.antt =====
-- `approveLand` where the prover of root transitions throws: what is left behind.
use thesis_project_land_chai.Prelude.{ℕ, ◌<◌, String, some, map, find, find_found, ◌≡◌, refl, arith}
use mathlib.Core.Path.{subst}
use thesis_project_land_chai.Errors.{Error, ok, err}
use thesis_project_land_chai.Externals.{TransitionInput, Externals}
use thesis_project_land_chai.Merkle.{tree_capacity, zero_leaf, MerkleSnapshot}
use thesis_project_land_chai.Zk.{prove_with_circuit}
use thesis_project_land_chai.Db.{
  Land, LandStatus-eq, pending_approval, registered, Db, find_land, save_land, replace_land,
}
use thesis_project_land_chai.Action.{◌>>=◌}
use thesis_project_land_chai.Registry.{
  hash2, next_leaf_index, refresh, rebuild_registry_tree, prove_root_transition,
}
use thesis_project_land_chai.Registry.Leaves.{has_id, has_id-eq}
use thesis_project_land_chai.Registry.Placement.{next_leaf_index-Fresh}
use thesis_project_land_chai.Registry.Transition.{insertion_transition}
use thesis_project_land_chai.Registry.Invariant.{IsPlaced, placed_tree}
use thesis_project_land_chai.Registry.Steps.{
  rebuild-ok, prove_root_transition-err, find-replace, find-refresh,
}
use thesis_project_land_chai.Land.{approve_land}
use thesis_project_land_chai.Land.Approval.{
  saved, found_saved, saved-tree_leaf, land-tree_leaf, saved-IsPlaced, rebuilt, refresh_keeps,
}

module _ (x : Externals) (db : Db) (land_id : String) (authority_id : ℕ) {land : Land}
    (v : IsPlaced db.lands) (found : find_land land_id db ≡ some land)
    (waiting : land.status ≡ pending_approval)
    (room : next_leaf_index db.lands < tree_capacity) where
  abbrev land' : Land
  land' = saved x db land_id authority_id v found waiting room

  abbrev left_db : MerkleSnapshot → Db
  left_db = rebuilt x db land_id authority_id v found waiting room

  pub unproved_run :
      (e : Error) (s : MerkleSnapshot)
      → rebuild_registry_tree x (save_land land' db) ≡ (ok s, left_db s)
      → prove_root_transition x
          (s.path_for (next_leaf_index db.lands))
          zero_leaf
          land.land_commitment
          s.root
          (left_db s)
        ≡ (err e, left_db s)
      → approve_land x land_id authority_id db ≡ (err e, left_db s)
  unfolding approve_land ◌>>=◌ LandStatus-eq
  unproved_run e s rebuilds fails = ground (arith, found, waiting, room, rebuilds, fails)

  left_land : (s : MerkleSnapshot) → find_land land_id (left_db s) ≡ some (refresh s land')
  unfolding find_land
  left_land s =
      let id : land.land_id ≡ land_id =
        has_id-eq land_id land (find_found (has_id land_id) db.lands found) in
      subst
        (λ k.
          find (has_id k) (map (refresh s) (replace_land land' db.lands)) ≡ some (refresh s land'))
        id
        (find-refresh s land'.land_id (replace_land land' db.lands) (
          find-replace land land' db.lands
            (found_saved x db land_id authority_id v found waiting room)))

  -- Where the prover throws, approving a pending land of a well placed registry that has a free
  -- leaf throws the same error and records no root, but leaves the land stored as registered at
  -- the next leaf index.
  pub approve_land-unproved :
      (e : Error)
      → ((t : TransitionInput) → prove_with_circuit x t ≡ err e)
      → (stored : Land) × (db' : Db) × (approve_land x land_id authority_id db ≡ (err e, db'))
        × (db'.merkle_roots ≡ db.merkle_roots)
        × (find_land land_id db' ≡ some stored)
        × (stored.status ≡ registered)
        × (stored.leaf_index ≡ some (next_leaf_index db.lands))
  approve_land-unproved e fails =
      let placed = saved-IsPlaced x db land_id authority_id v found waiting room in
      let (s, tree) = placed_tree (hash2 x) (replace_land land' db.lands) placed.below in
      let (old, old_tree) = placed_tree (hash2 x) db.lands v.below in
      let (from, to) =
        insertion_transition (hash2 x) db.lands land land' (next_leaf_index db.lands)
          (found_saved x db land_id authority_id v found waiting room) old_tree tree room
          (land-tree_leaf x db land_id authority_id v found waiting room)
          (saved-tree_leaf x db land_id authority_id v found waiting room)
          (next_leaf_index-Fresh db.lands) in
      let failed =
        prove_root_transition-err x e fails (s.path_for (next_leaf_index db.lands)) zero_leaf
          land.land_commitment old.root s.root (left_db s) from to in
      let (same_status, same_index, same_id, same_text) =
        refresh_keeps x db land_id authority_id v found waiting room s land' in
      (
        refresh s land',
        left_db s,
        unproved_run e s (rebuild-ok x (save_land land' db) tree) failed,
        refl,
        left_land s,
        same_status,
        same_index,
      )
