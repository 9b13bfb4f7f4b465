-- ===== src/Transfer/Completion.antt =====
-- `buyListedLand` behind its checks: with a prover the purchase goes through, the land leaves the
-- tree, and the registry stays in order.
use thesis_project_land_chai.Prelude.{
  ℕ, ◌<◌, String, false, string_eq, nat_eq, Option, none, some, [], map, find, find_found, find-All,
  ◌≡◌, refl, sym, ap, ◌∙◌, arith, get_or_else,
}
use mathlib.Core.Path.{subst}
use thesis_project_land_chai.Errors.{ok}
use thesis_project_land_chai.Externals.{Externals}
use thesis_project_land_chai.Merkle.{tree_capacity, zero_leaf, MerkleSnapshot, build_tree}
use thesis_project_land_chai.Merkle.Laws.{root_of, build_tree_root}
use thesis_project_land_chai.Db.{
  Land, LandStatus-eq, pending_approval, listed_for_sale, Db, Proof, Transaction, find_land,
  find_commitment, save_land, save_proof, replace_land, replace_proof, latest_root, add_transaction,
  add_merkle_root,
}
use thesis_project_land_chai.Action.{◌>>=◌}
use thesis_project_land_chai.Chain.{RootTransition, update_root_on_chain, transfer_land_on_chain}
use thesis_project_land_chai.Registry.{
  hash2, is_approved, tree_leaf, leaves_of, refresh, rebuild_registry_tree, prove_root_transition,
}
use thesis_project_land_chai.Registry.Leaves.{has_id, has_id-eq}
use thesis_project_land_chai.Registry.Transition.{removal_transition}
use thesis_project_land_chai.Registry.Invariant.{
  WellPlaced, IsPlaced, IsRegistry, IsAnchored, placed_tree, replace-IsPlaced, refresh-IsRegistry,
  land_leaf-refresh,
}
use thesis_project_land_chai.Registry.Steps.{
  rebuild-ok, ProvesTransitions, prove_root_transition-ok, last_of-append, find-replace,
  find-refresh,
}
use thesis_project_land_chai.Land.{approval_root}
use thesis_project_land_chai.Transfer.Closing.{Closed, close_all}
use thesis_project_land_chai.Transfer.Safety.{check_land-ok}
use thesis_project_land_chai.Transfer.{
  Purchase, Cleared, transferred, save_transferred, close_challenge, anchor_removal, bought,
  re_registration, complete_purchase, check_land, check_challenge, check_proof, buy_listed_land,
}

module _ (x : Externals) (i : Purchase) (db : Db) (cl : Cleared) where
  abbrev pub sold : Land
  sold = transferred x i cl.land

  abbrev pub spent : Proof
  spent = record cl.proof { used_for_transfer_at = some x.now }

  -- What a purchase that went through has done.
  pub record IsSold (result : Option Land × Transaction) (db' : Db) : Type 0 where
    pub stored : Land
    pub result_stored : result.0 ≡ some stored
    pub find_stored : find_land i.land_id db' ≡ some stored
    pub new_owner : stored.owner_id ≡ i.buyer_id
    pub new_commitment : stored.land_commitment ≡ i.new_land_commitment
    pub is_pending : stored.status ≡ pending_approval
    pub no_leaf : stored.leaf_index ≡ none
    pub off_sale : stored.for_sale ≡ false
    pub proof_spent : db'.proofs ≡ replace_proof spent db.proofs
    pub challenges_closed : Closed i.land_id db.challenges db'.challenges
    pub registry : IsRegistry (hash2 x) db'.lands
    pub anchored : IsAnchored (hash2 x) db'

module _ (x : Externals) (i : Purchase) (db : Db) (cl : Cleared) (v : IsPlaced db.lands)
    (found : find_land i.land_id db ≡ some cl.land) (on_sale : cl.land.status ≡ listed_for_sale)
    (unused : find_commitment i.new_land_commitment db ≡ none) where
  abbrev pub land' : Land
  land' = sold x i db cl

  abbrev pub proof' : Proof
  proof' = spent x i db cl

  pub found_sold : find (has_id land'.land_id) db.lands ≡ some cl.land
  unfolding find_land
  found_sold =
      let id : cl.land.land_id ≡ i.land_id =
        has_id-eq i.land_id cl.land (find_found (has_id i.land_id) db.lands found) in
      subst (λ k. find (has_id k) db.lands ≡ some cl.land) (sym id) found

  pub sold-tree_leaf : tree_leaf land' ≡ none
  unfolding tree_leaf is_approved
  sold-tree_leaf = refl

  land-WellPlaced : WellPlaced cl.land
  land-WellPlaced = find-All WellPlaced (has_id land'.land_id) db.lands found_sold v.placed

  pub land-tree_leaf : tree_leaf cl.land ≡ some (get_or_else cl.land.leaf_index 0)
  unfolding tree_leaf is_approved
  land-tree_leaf = let p = land-WellPlaced in ground (arith, on_sale)

  sold-WellPlaced : WellPlaced land'
  unfolding is_approved LandStatus-eq
  sold-WellPlaced = (refl, refl)

  pub sold-IsPlaced : IsPlaced (replace_land land' db.lands)
  sold-IsPlaced =
      replace-IsPlaced cl.land land' db.lands found_sold v sold-WellPlaced
        (λ j e. cc (sold-tree_leaf, e)) (λ j e. cc (sold-tree_leaf, e))

  -- The state after the two writes, and after the rebuild.
  abbrev pub written : Db
  written = save_land land' (save_proof proof' db)

  abbrev pub rebuilt : MerkleSnapshot → Db
  rebuilt s = record written { lands = map (refresh s) (replace_land land' db.lands) }

  abbrev pub root_hash : MerkleSnapshot → RootTransition → String
  root_hash s t = update_root_on_chain x s.root t

  abbrev pub anchored_db : MerkleSnapshot → RootTransition → Db
  anchored_db s t =
      add_merkle_root (approval_root x s (root_hash s t) i.buyer_id (rebuilt s)) (rebuilt s)

  pub anchor_run :
      (s : MerkleSnapshot) (t : RootTransition)
      → rebuild_registry_tree x written ≡ (ok s, rebuilt s)
      → prove_root_transition x
          (s.path_for (get_or_else cl.land.leaf_index 0))
          cl.land.land_commitment
          zero_leaf
          s.root
          (rebuilt s)
        ≡ (ok t, rebuilt s)
      → anchor_removal x i cl.land written ≡ (ok tt, anchored_db s t)
  unfolding anchor_removal ◌>>=◌
  anchor_run s t rebuilds proves = ground (arith, rebuilds, proves)

  pub save_run : save_transferred x land' (save_proof proof' db) ≡ (ok tt, written)
  unfolding save_transferred find_commitment
  save_run = ground (arith, unused)

  -- The state at the end.
  abbrev pub finished : String → MerkleSnapshot → RootTransition → Db
  finished tx s t = add_transaction (re_registration x i) (
      add_transaction (bought x i cl.land tx)
        (record (anchored_db s t) { challenges = map (close_challenge x i.land_id) db.challenges }))

  pub complete_run :
      (tx : String) (s : MerkleSnapshot) (t : RootTransition)
      → anchor_removal x i cl.land written ≡ (ok tt, anchored_db s t)
      → complete_purchase x i cl tx db
        ≡ (ok (find_land i.land_id (finished tx s t), bought x i cl.land tx), finished tx s t)
  unfolding complete_purchase ◌>>=◌
  complete_run tx s t anchors = ground (arith, save_run, anchors)

  refresh_keeps :
      (s : MerkleSnapshot) (l : Land)
      → ((refresh s l).status ≡ l.status)
        × ((refresh s l).leaf_index ≡ l.leaf_index)
        × ((refresh s l).owner_id ≡ l.owner_id)
        × ((refresh s l).land_commitment ≡ l.land_commitment)
        × ((refresh s l).for_sale ≡ l.for_sale)
  unfolding refresh
  refresh_keeps s l = ground arith

  finished-IsSold :
      (tx : String) (s : MerkleSnapshot) (t : RootTransition)
      → build_tree (hash2 x) (leaves_of (replace_land land' db.lands) []) ≡ ok s
      → IsSold x i db cl
          (find_land i.land_id (finished tx s t), bought x i cl.land tx)
          (finished tx s t)
  unfolding find_land latest_root
  finished-IsSold tx s t tree =
      let (same_status, same_index, same_id, same_text, same_sale) = refresh_keeps s land' in
      let id : cl.land.land_id ≡ i.land_id =
        has_id-eq i.land_id cl.land (find_found (has_id i.land_id) db.lands found) in
      let stored =
        subst
          (λ k.
            find (has_id k) (map (refresh s) (replace_land land' db.lands))
            ≡ some (refresh s land'))
          id
          (find-refresh s land'.land_id (replace_land land' db.lands)
            (find-replace cl.land land' db.lands found_sold)) in
      record {
        stored = refresh s land';
        result_stored = stored;
        find_stored = stored;
        new_owner = same_id;
        new_commitment = same_text;
        is_pending = same_status;
        no_leaf = same_index;
        off_sale = same_sale;
        proof_spent = refl;
        challenges_closed = close_all x i.land_id db.challenges;
        registry = refresh-IsRegistry (hash2 x) s (replace_land land' db.lands) tree sold-IsPlaced;
        anchored = (
          _,
          last_of-append db.merkle_roots _,
          build_tree_root (hash2 x) (leaves_of (replace_land land' db.lands) []) tree
              ∙ ap (root_of (hash2 x))
                  (sym (land_leaf-refresh (hash2 x) s (replace_land land' db.lands))),
        );
      }

  pub room : get_or_else cl.land.leaf_index 0 < tree_capacity
  room =
      find-All (λ z. (j : ℕ) → tree_leaf z ≡ some j → j < tree_capacity) (has_id land'.land_id)
        db.lands found_sold v.below (get_or_else cl.land.leaf_index 0) land-tree_leaf

  complete_purchase-IsSold :
      ProvesTransitions x
      → (tx : String)
      → (result : Option Land × Transaction) × (db' : Db) × (complete_purchase x i cl tx db
          ≡ (ok result, db'))
        × IsSold x i db cl result db'
  complete_purchase-IsSold prover tx =
      let (s, tree) = placed_tree (hash2 x) (replace_land land' db.lands) sold-IsPlaced.below in
      let (old, old_tree) = placed_tree (hash2 x) db.lands v.below in
      let (from, to) =
        removal_transition (hash2 x) db.lands cl.land land' (get_or_else cl.land.leaf_index 0)
          found_sold old_tree tree room land-tree_leaf sold-tree_leaf v.distinct in
      let (t, proved) =
        prove_root_transition-ok x prover (s.path_for (get_or_else cl.land.leaf_index 0))
          cl.land.land_commitment zero_leaf old.root s.root (rebuilt s) from to in
      let anchors = anchor_run s t (rebuild-ok x written tree) proved in
      (
        (find_land i.land_id (finished tx s t), bought x i cl.land tx),
        finished tx s t,
        complete_run tx s t anchors,
        finished-IsSold tx s t tree,
      )

-- With a prover of transitions, a purchase in a well placed registry whose checks pass and whose
-- transfer the chain accepts returns the stored land, under the buyer and with the buyer's
-- commitment, pending, without a leaf and off sale; the seller's proof is spent, every challenge that
-- was open against the land has failed with a note and the others are as they were, every stored
-- path is up to date, and the root recorded last is that of the tree.
pub buy_listed_land-IsSold :
    (x : Externals) (i : Purchase) (db : Db) (cl : Cleared) (tx : String)
    → IsPlaced db.lands
    → ProvesTransitions x
    → check_land x i db ≡ (ok cl.land, db)
    → check_challenge x i cl.land db ≡ (ok cl, db)
    → check_proof x i cl db ≡ (ok tt, db)
    → transfer_land_on_chain x i.land_id i.buyer_wallet cl.salt cl.proof.proof
        cl.proof.public_signals
      ≡ ok tx
    → (result : Option Land × Transaction) × (db' : Db) × (buy_listed_land x i db
        ≡ (ok result, db'))
      × IsSold x i db cl result db'
unfolding buy_listed_land ◌>>=◌
buy_listed_land-IsSold x i db cl tx v prover e1 e2 e3 e4 =
    let (same, found, for_sale, on_sale, other, f1, f2, fresh, unused) = check_land-ok x i db e1 in
    let (result, db', run, holds) =
      complete_purchase-IsSold x i db cl v found on_sale unused prover tx in
    (result, db', ground (arith, e1, e2, e3, e4, run), holds)
