-- ===== src/Land/Preserved.antt =====
-- `approveLand` keeps the registry on every branch, the prover's failure included.
use thesis_project_land_chai.Prelude.{
  ℕ, ◌<◌, String, some, leb, ◌≡◌, sym, ap, ◌∙◌, arith, inl, inr, Option-cases, Bool-cases,
}
use mathlib.Core.Path.{subst}
use thesis_project_land_chai.Errors.{ok, err}
use thesis_project_land_chai.Externals.{Externals}
use thesis_project_land_chai.Merkle.{tree_capacity, zero_leaf, MerklePath}
use thesis_project_land_chai.Db.{
  Land, LandStatus-eq, pending_approval, Db, find_land, save_land, replace_land,
}
use thesis_project_land_chai.Action.{◌>>=◌, run-cases}
use thesis_project_land_chai.Action.Keeps.{Keeps, keeps_rules}
use thesis_project_land_chai.Registry.{hash2, next_leaf_index, prove_root_transition}
use thesis_project_land_chai.Registry.Invariant.{IsRegistry, placed_tree, refresh-IsRegistry}
use thesis_project_land_chai.Registry.Steps.{rebuild-ok}
use thesis_project_land_chai.Land.{approve_land}
use thesis_project_land_chai.Land.Approval.{saved, saved-IsPlaced, rebuilt, approve_run}
use thesis_project_land_chai.Land.Unproved.{unproved_run}

-- A transition proof is asked for without a write.
pub prove_root_transition-Keeps :
    (x : Externals) (path : MerklePath) (leaf_before leaf_after new_root : String)
    → Keeps (λ db. db) (prove_root_transition x path leaf_before leaf_after new_root)
unfolding prove_root_transition
prove_root_transition-Keeps x path leaf_before leaf_after new_root = search (keeps_rules) depth 40

module _ (x : Externals) (db : Db) (land_id : String) (authority_id : ℕ) where
  approved_lands :
      {l : Land} (v : IsRegistry (hash2 x) db.lands) (found : find_land land_id db ≡ some l)
      (waiting : l.status ≡ pending_approval) (room : next_leaf_index db.lands < tree_capacity)
      → IsRegistry (hash2 x) (approve_land x land_id authority_id db).1.lands
  approved_lands {l} v found waiting room =
      let placed = saved-IsPlaced x db land_id authority_id v.base found waiting room in
      let l' = saved x db land_id authority_id v.base found waiting room in
      let (s, tree) = placed_tree (hash2 x) (replace_land l' db.lands) placed.below in
      let rebuilds = rebuild-ok x (save_land l' db) tree in
      let after = rebuilt x db land_id authority_id v.base found waiting room s in
      let holds = refresh-IsRegistry (hash2 x) s (replace_land l' db.lands) tree placed in
      let proving =
        prove_root_transition x (s.path_for (next_leaf_index db.lands)) zero_leaf l.land_commitment
          s.root in
      let same =
        (prove_root_transition-Keeps x (s.path_for (next_leaf_index db.lands)) zero_leaf
            l.land_commitment s.root).kept
          after in
      elim (run-cases (proving after)) [
        | inl (t, mid, e) ↦
            subst (λ r. IsRegistry (hash2 x) r.1.lands)
              (sym (
                approve_run x db land_id authority_id v.base found waiting room s t rebuilds
                  (e ∙ ap (λ m. (ok t, m)) (ap (λ r. r.1) (sym e) ∙ same))))
              holds
        | inr (thrown, mid, e) ↦
            subst (λ r. IsRegistry (hash2 x) r.1.lands)
              (sym (
                unproved_run x db land_id authority_id v.base found waiting room thrown s rebuilds
                  (e ∙ ap (λ m. (err thrown, m)) (ap (λ r. r.1) (sym e) ∙ same))))
              holds
      ]

  -- Approving, whatever becomes of it, keeps the registry's invariant.
  pub approve_land-IsRegistry :
      IsRegistry (hash2 x) db.lands
      → IsRegistry (hash2 x) (approve_land x land_id authority_id db).1.lands
  unfolding approve_land ◌>>=◌
  approve_land-IsRegistry v = elim (Option-cases (find_land land_id db)) [
    | inl missing ↦ subst (IsRegistry (hash2 x)) (ground (arith, missing)) v
    | inr (l, found) ↦ elim (LandStatus-eq.dec l.status pending_approval) [
      | no other ↦ subst (IsRegistry (hash2 x)) (ground (arith, found)) v
      | yes waiting ↦ elim (Bool-cases (leb tree_capacity (next_leaf_index db.lands))) [
        | inl full ↦ subst (IsRegistry (hash2 x)) (ground (arith, found, waiting, full)) v
        | inr room ↦ approved_lands v found waiting (ground (arith, room))
      ]
    ]
  ]
