-- ===== src/Land/Approval.antt =====
-- `approveLand`: with a prover, an approval of a pending land goes through, and leaves the land
-- registered, at a leaf of its own, under an anchored root.
use thesis_project_land_chai.Prelude.{
  ℕ, ◌<◌, String, string_eq, Option, none, some, [], map, find, find_found, find-All, ◌≡◌, inr,
  refl, sym, ap, ◌∙◌, arith, get_or_else,
}
use mathlib.Core.Path.{subst}
use thesis_project_land_chai.Errors.{ok}
use thesis_project_land_chai.Externals.{Externals}
use thesis_project_land_chai.Merkle.{tree_capacity, zero_leaf, MerkleSnapshot, build_tree}
use thesis_project_land_chai.Merkle.Laws.{root_of, build_tree_root}
use thesis_project_land_chai.Db.{
  Land, LandStatus-eq, pending_approval, registered, Db, find_land, save_land, replace_land,
  latest_root, add_transaction, add_merkle_root,
}
use thesis_project_land_chai.Action.{◌>>=◌}
use thesis_project_land_chai.Field.{land_id_to_field}
use thesis_project_land_chai.Chain.{RootTransition, update_root_on_chain, register_land_on_chain}
use thesis_project_land_chai.Registry.{
  hash2, is_approved, tree_leaf, next_leaf_index, leaves_of, refresh, rebuild_registry_tree,
  prove_root_transition,
}
use thesis_project_land_chai.Registry.Leaves.{has_id, has_id-eq}
use thesis_project_land_chai.Registry.Placement.{next_leaf_index-Fresh}
use thesis_project_land_chai.Registry.Transition.{insertion_transition}
use thesis_project_land_chai.Registry.Invariant.{
  WellPlaced, IsPlaced, IsRegistry, IsAnchored, placed_tree, replace-IsPlaced, refresh-IsRegistry,
  land_leaf-refresh,
}
use thesis_project_land_chai.Registry.Steps.{
  rebuild-ok, ProvesTransitions, prove_root_transition-ok, last_of-append, find-replace,
  find-refresh,
}
use thesis_project_land_chai.Land.{approved, approval_root, approval_entry, approve_land}

module _ (x : Externals) (db : Db) (land_id : String) (authority_id : ℕ) {land : Land}
    (v : IsPlaced db.lands) (found : find_land land_id db ≡ some land)
    (waiting : land.status ≡ pending_approval)
    (room : next_leaf_index db.lands < tree_capacity) where
  -- The land as `land.save()` stores it.
  abbrev pub saved : Land
  saved = approved x land (next_leaf_index db.lands) authority_id

  pub found_saved : find (has_id saved.land_id) db.lands ≡ some land
  unfolding find_land
  found_saved =
      let id : land.land_id ≡ land_id =
        has_id-eq land_id land (find_found (has_id land_id) db.lands found) in
      subst (λ k. find (has_id k) db.lands ≡ some land) (sym id) found

  pub saved-tree_leaf : tree_leaf saved ≡ some (next_leaf_index db.lands)
  unfolding tree_leaf is_approved
  saved-tree_leaf = refl

  pub land-tree_leaf : tree_leaf land ≡ none
  unfolding tree_leaf is_approved
  land-tree_leaf = ground (arith, waiting)

  same_leaf : (i : ℕ) → tree_leaf saved ≡ some i → i ≡ next_leaf_index db.lands
  same_leaf i e = ground (arith, saved-tree_leaf)

  saved-WellPlaced : WellPlaced saved
  unfolding is_approved LandStatus-eq
  saved-WellPlaced =
      let p = find-All WellPlaced (has_id saved.land_id) db.lands found_saved v.placed in
      (refl, ground arith)

  pub saved-IsPlaced : IsPlaced (replace_land saved db.lands)
  saved-IsPlaced =
      replace-IsPlaced land saved db.lands found_saved v saved-WellPlaced
        (λ i e. rw (same_leaf i e) room)
        (λ i e. inr (rw (same_leaf i e) (next_leaf_index-Fresh db.lands)))

  -- The state after the rebuild.
  abbrev pub rebuilt : MerkleSnapshot → Db
  rebuilt s = record db { lands = map (refresh s) (replace_land saved db.lands) }

  -- What an approval that went through has done.
  pub record IsApproved (result : Option Land) (db' : Db) : Type 0 where
    pub stored : Land
    pub result_stored : result ≡ some stored
    pub find_stored : find_land land_id db' ≡ some stored
    pub is_registered : stored.status ≡ registered
    pub at_next_leaf : stored.leaf_index ≡ some (next_leaf_index db.lands)
    pub same_owner : stored.owner_id ≡ land.owner_id
    pub same_commitment : stored.land_commitment ≡ land.land_commitment
    pub registry : IsRegistry (hash2 x) db'.lands
    pub anchored : IsAnchored (hash2 x) db'

  -- The hashes that the chain calls give, and the state at the end of the run.
  abbrev pub root_hash : MerkleSnapshot → RootTransition → String
  root_hash s t = update_root_on_chain x s.root t

  abbrev pub entry_hash : MerkleSnapshot → RootTransition → String
  entry_hash s t =
      get_or_else
        (register_land_on_chain x land.land_id land.ipfs_cid (land_id_to_field x land.land_id))
        (root_hash s t)

  abbrev pub finished : MerkleSnapshot → RootTransition → Db
  finished s t =
      add_transaction (approval_entry x land (next_leaf_index db.lands) (entry_hash s t))
        (add_merkle_root (approval_root x s (root_hash s t) authority_id (rebuilt s)) (rebuilt s))

  pub approve_run :
      (s : MerkleSnapshot) (t : RootTransition)
      → rebuild_registry_tree x (save_land saved db) ≡ (ok s, rebuilt s)
      → prove_root_transition x
          (s.path_for (next_leaf_index db.lands))
          zero_leaf
          land.land_commitment
          s.root
          (rebuilt s)
        ≡ (ok t, rebuilt s)
      → approve_land x land_id authority_id db
        ≡ (ok (find_land land_id (finished s t)), finished s t)
  unfolding approve_land ◌>>=◌ LandStatus-eq
  approve_run s t rebuilds proves = ground (arith, found, waiting, room, rebuilds, proves)

  pub refresh_keeps :
      (s : MerkleSnapshot) (l : Land)
      → ((refresh s l).status ≡ l.status)
        × ((refresh s l).leaf_index ≡ l.leaf_index)
        × ((refresh s l).owner_id ≡ l.owner_id)
        × ((refresh s l).land_commitment ≡ l.land_commitment)
  unfolding refresh
  refresh_keeps s l = ground arith

  finished-IsApproved :
      (s : MerkleSnapshot) (t : RootTransition)
      → build_tree (hash2 x) (leaves_of (replace_land saved db.lands) []) ≡ ok s
      → IsApproved (find_land land_id (finished s t)) (finished s t)
  unfolding find_land latest_root
  finished-IsApproved s t tree =
      let (same_status, same_index, same_id, same_text) = refresh_keeps s saved in
      let id : land.land_id ≡ land_id =
        has_id-eq land_id land (find_found (has_id land_id) db.lands found) in
      let stored =
        subst
          (λ k.
            find (has_id k) (map (refresh s) (replace_land saved db.lands))
            ≡ some (refresh s saved))
          id
          (find-refresh s saved.land_id (replace_land saved db.lands)
            (find-replace land saved db.lands found_saved)) in
      record {
        stored = refresh s saved;
        result_stored = stored;
        find_stored = stored;
        is_registered = same_status;
        at_next_leaf = same_index;
        same_owner = same_id;
        same_commitment = same_text;
        registry = refresh-IsRegistry (hash2 x) s (replace_land saved db.lands) tree saved-IsPlaced;
        anchored = (
          _,
          last_of-append db.merkle_roots _,
          build_tree_root (hash2 x) (leaves_of (replace_land saved db.lands) []) tree
              ∙ ap (root_of (hash2 x))
                  (sym (land_leaf-refresh (hash2 x) s (replace_land saved db.lands))),
        );
      }

  -- With a prover of transitions, approving a pending land of a well placed registry that has a
  -- free leaf returns the stored land, registered at the next leaf index, with its owner and
  -- commitment; every land's stored path is up to date, and the root recorded last is that of
  -- the tree.
  pub approve_land-IsApproved :
      ProvesTransitions x
      → (result : Option Land) × (db' : Db) × (approve_land x land_id authority_id db
          ≡ (ok result, db'))
        × IsApproved result db'
  approve_land-IsApproved prover =
      let (s, tree) = placed_tree (hash2 x) (replace_land saved db.lands) saved-IsPlaced.below in
      let (old, old_tree) = placed_tree (hash2 x) db.lands v.below in
      let (from, to) =
        insertion_transition (hash2 x) db.lands land saved (next_leaf_index db.lands) found_saved
          old_tree tree room land-tree_leaf saved-tree_leaf (next_leaf_index-Fresh db.lands) in
      let (t, proved) =
        prove_root_transition-ok x prover (s.path_for (next_leaf_index db.lands)) zero_leaf
          land.land_commitment old.root s.root (rebuilt s) from to in
      (
        find_land land_id (finished s t),
        finished s t,
        approve_run s t (rebuild-ok x (save_land saved db) tree) proved,
        finished-IsApproved s t tree,
      )
