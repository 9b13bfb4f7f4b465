-- ===== src/Transfer/Preserved.antt =====
-- `buyListedLand` keeps the registry on every branch, the prover's failure included.
use thesis_project_land_chai.Prelude.{
  String, none, some, get_or_else, ◌≡◌, sym, ap, ◌∙◌, arith, inl, inr,
}
use mathlib.Core.Path.{subst}
use thesis_project_land_chai.Errors.{Error, ok, err}
use thesis_project_land_chai.Externals.{Externals}
use thesis_project_land_chai.Merkle.{zero_leaf, MerkleSnapshot}
use thesis_project_land_chai.Db.{
  Land, LandStatus-eq, listed_for_sale, Db, find_land, find_commitment, replace_land,
}
use thesis_project_land_chai.Action.{lift, ◌>>=◌, run-cases}
use thesis_project_land_chai.Action.Keeps.{Keeps, keeps_rules, after->>=}
use thesis_project_land_chai.Registry.{hash2, rebuild_registry_tree, prove_root_transition}
use thesis_project_land_chai.Registry.Invariant.{IsRegistry, placed_tree, refresh-IsRegistry}
use thesis_project_land_chai.Registry.Steps.{rebuild-ok}
use thesis_project_land_chai.Land.Preserved.{prove_root_transition-Keeps}
use thesis_project_land_chai.Chain.{transfer_land_on_chain}
use thesis_project_land_chai.Transfer.{
  Purchase, Cleared, anchor_removal, check_land, check_challenge, check_proof, complete_purchase,
  buy_listed_land,
}
use thesis_project_land_chai.Transfer.Safety.{
  check_land-ok, check_challenge-ok, check_proof-ok, after_proof, after_challenge, after_land,
}
use thesis_project_land_chai.Transfer.Completion.{
  sold, sold-IsPlaced, rebuilt, written, anchor_run, complete_run, save_run,
}

module _ (x : Externals) (i : Purchase) where
  check_land-Keeps : Keeps (λ db. db) (check_land x i)
  unfolding check_land
  check_land-Keeps = search (keeps_rules) depth 40

  check_challenge-Keeps : (l : Land) → Keeps (λ db. db) (check_challenge x i l)
  unfolding check_challenge
  check_challenge-Keeps l = search (keeps_rules) depth 40

  check_proof-Keeps : (cl : Cleared) → Keeps (λ db. db) (check_proof x i cl)
  unfolding check_proof
  check_proof-Keeps cl = search (keeps_rules) depth 60 fits 4000

  module _ (db : Db) (cl : Cleared) (tx : String) (v : IsRegistry (hash2 x) db.lands)
      (found : find_land i.land_id db ≡ some cl.land) (on_sale : cl.land.status ≡ listed_for_sale)
      (unused : find_commitment i.new_land_commitment db ≡ none) where
    -- The removal's own failure, after which nothing more is written.
    stopped_run :
        (e : Error) (s : MerkleSnapshot)
        → rebuild_registry_tree x (written x i db cl v.base found on_sale unused)
          ≡ (ok s, rebuilt x i db cl v.base found on_sale unused s)
        → prove_root_transition x
            (s.path_for (get_or_else cl.land.leaf_index 0))
            cl.land.land_commitment
            zero_leaf
            s.root
            (rebuilt x i db cl v.base found on_sale unused s)
          ≡ (err e, rebuilt x i db cl v.base found on_sale unused s)
        → complete_purchase x i cl tx db ≡ (err e, rebuilt x i db cl v.base found on_sale unused s)
    unfolding complete_purchase anchor_removal ◌>>=◌
    stopped_run e s rebuilds fails =
        ground (arith, save_run x i db cl v.base found on_sale unused, rebuilds, fails)

    completed_lands : IsRegistry (hash2 x) (complete_purchase x i cl tx db).1.lands
    completed_lands =
        let placed = sold-IsPlaced x i db cl v.base found on_sale unused in
        let l' = sold x i db cl in
        let (s, tree) = placed_tree (hash2 x) (replace_land l' db.lands) placed.below in
        let rebuilds = rebuild-ok x (written x i db cl v.base found on_sale unused) tree in
        let after = rebuilt x i db cl v.base found on_sale unused s in
        let holds = refresh-IsRegistry (hash2 x) s (replace_land l' db.lands) tree placed in
        let path = s.path_for (get_or_else cl.land.leaf_index 0) in
        let same =
          (prove_root_transition-Keeps x path cl.land.land_commitment zero_leaf s.root).kept
            after in
        elim (run-cases
          (prove_root_transition x path cl.land.land_commitment zero_leaf s.root after)) [
            | inl (t, mid, e) ↦
                subst (λ r. IsRegistry (hash2 x) r.1.lands)
                  (sym (
                    complete_run x i db cl v.base found on_sale unused tx s t (
                      anchor_run x i db cl v.base found on_sale unused s t rebuilds
                        (e ∙ ap (λ m. (ok t, m)) (ap (λ r. r.1) (sym e) ∙ same)))))
                  holds
            | inr (thrown, mid, e) ↦
                subst (λ r. IsRegistry (hash2 x) r.1.lands)
                  (sym (
                    stopped_run thrown s rebuilds
                      (e ∙ ap (λ m. (err thrown, m)) (ap (λ r. r.1) (sym e) ∙ same))))
                  holds
          ]

  module _ (db : Db) (v : IsRegistry (hash2 x) db.lands) where
    abbrev Holds : Db → Type 0
    Holds m = IsRegistry (hash2 x) m.lands

    proof_lands :
        (cl : Cleared)
        → find_land i.land_id db ≡ some cl.land
        → cl.land.status ≡ listed_for_sale
        → find_commitment i.new_land_commitment db ≡ none
        → Holds (after_proof x i db cl db).1
    proof_lands cl found on_sale unused =
        after->>= Holds
          (lift (
            transfer_land_on_chain x i.land_id i.buyer_wallet cl.salt cl.proof.proof
              cl.proof.public_signals))
          (complete_purchase x i cl) db (λ e mid r. subst Holds (ap (λ p. p.1) r) v)
          (λ tx mid r.
            subst (λ m. Holds (complete_purchase x i cl tx m).1) (ap (λ p. p.1) r)
              (completed_lands db cl tx v found on_sale unused))

    challenge_lands :
        (cl : Cleared)
        → find_land i.land_id db ≡ some cl.land
        → cl.land.status ≡ listed_for_sale
        → find_commitment i.new_land_commitment db ≡ none
        → Holds (after_challenge x i db cl db).1
    challenge_lands cl found on_sale unused =
        after->>= Holds (check_proof x i cl) (λ _. after_proof x i db cl) db
          (λ e mid r. subst Holds (sym (ap (λ p. p.1) (sym r) ∙ (check_proof-Keeps cl).kept db)) v)
          (λ u mid r.
            subst (λ m. Holds (after_proof x i db cl m).1) (sym (check_proof-ok x i db cl r).0)
              (proof_lands cl found on_sale unused))

    land_lands :
        (l : Land)
        → find_land i.land_id db ≡ some l
        → l.status ≡ listed_for_sale
        → find_commitment i.new_land_commitment db ≡ none
        → Holds (after_land x i db l db).1
    land_lands l found on_sale unused =
        after->>= Holds (check_challenge x i l) (after_challenge x i db) db
          (λ e mid r.
            subst Holds (sym (ap (λ p. p.1) (sym r) ∙ (check_challenge-Keeps l).kept db)) v)
          (λ cl mid r.
            let same = (check_challenge-ok x i db l r).0 in
            let same_land = (check_challenge-ok x i db l r).1 in
            subst (λ m. Holds (after_challenge x i db cl m).1) (sym same)
              (challenge_lands cl (found ∙ ap some (sym same_land))
                (ap (λ z. z.status) same_land ∙ on_sale) unused))

    -- Buying, whatever becomes of it, keeps the registry's invariant.
    pub buy_listed_land-IsRegistry : IsRegistry (hash2 x) (buy_listed_land x i db).1.lands
    unfolding buy_listed_land
    buy_listed_land-IsRegistry =
        after->>= Holds (check_land x i) (after_land x i db) db
          (λ e mid r. subst Holds (sym (ap (λ p. p.1) (sym r) ∙ check_land-Keeps.kept db)) v)
          (λ l mid r.
            let passed = check_land-ok x i db r in
            subst (λ m. Holds (after_land x i db l m).1) (sym passed.0)
              (land_lands l passed.1 passed.3 passed.8))
