-- ===== src/Registry/Transition.antt =====
-- Root transitions: a land that enters the tree, or leaves it, changes one leaf, so the two
-- roots which `prove_root_transition` computes from the new path are the old and the new root.
use mathlib.Core.Option.{some-injective}
use thesis_project_land_chai.Prelude.{
  ℕ, ◌<◌, String, Option, none, some, List, [], find, get_or_else, ◌≡◌, ◌≢◌, sym, ap, ◌∙◌,
}
use thesis_project_land_chai.Errors.{ok}
use thesis_project_land_chai.Merkle.{
  tree_capacity, zero_leaf, get, MerkleSnapshot, build_tree, compute_root_from_path,
}
use thesis_project_land_chai.Merkle.Laws.{leaf_at, build_tree_single_update}
use thesis_project_land_chai.Db.{Land, replace_land}
use thesis_project_land_chai.Registry.{tree_leaf, leaves_of}
use thesis_project_land_chai.Registry.Leaves.{
  has_id, leaf_map, leaves_of-get, Fresh, Distinct, leaf_map-Fresh, leaf_map-replace_ne,
  leaf_map-replace_eq, leaf_map-replace_gone, leaf_map_found,
}

-- The leaf that the lands put at an index.
abbrev pub land_leaf : List Land → ℕ → String
land_leaf ls = leaf_at (leaves_of ls [])

pub land_leaf-leaf_map :
    (ls : List Land) (j : ℕ) → land_leaf ls j ≡ get_or_else (leaf_map j ls none) zero_leaf
unfolding get
land_leaf-leaf_map ls j = ap (λ o. get_or_else o zero_leaf) (leaves_of-get j ls [])

same_index : {o : Option ℕ} {i j : ℕ} → o ≡ some i → o ≡ some j → j ≡ i
same_index e e' = some-injective _ _ (sym e' ∙ e)

module _ (hash : String → String → String) (ls : List Land) (l l' : Land) (i : ℕ)
    (found : find (has_id l'.land_id) ls ≡ some l) {old new : MerkleSnapshot}
    (old_tree : build_tree hash (leaves_of ls []) ≡ ok old)
    (new_tree : build_tree hash (leaves_of (replace_land l' ls) []) ≡ ok new)
    (in_range : i < tree_capacity) where
  other_leaves :
      ((j : ℕ) → j ≢ i → tree_leaf l ≢ some j)
      → ((j : ℕ) → j ≢ i → tree_leaf l' ≢ some j)
      → (j : ℕ) → j ≢ i
      → land_leaf ls j ≡ land_leaf (replace_land l' ls) j
  other_leaves out out' j ne =
      land_leaf-leaf_map ls j
      ∙ ap (λ o. get_or_else o zero_leaf)
          (sym (leaf_map-replace_ne l l' j ls none found (out j ne) (out' j ne)))
      ∙ sym (land_leaf-leaf_map (replace_land l' ls) j)

  -- A land outside the tree takes a free leaf: the new path folds from the zero leaf to the old
  -- root, and from the land's commitment to the new root.
  pub insertion_transition :
      tree_leaf l ≡ none
      → tree_leaf l' ≡ some i
      → Fresh i ls
      → (compute_root_from_path hash zero_leaf (new.path_for i) ≡ some old.root)
        × (compute_root_from_path hash l'.land_commitment (new.path_for i) ≡ some new.root)
  insertion_transition out at free =
      let before : land_leaf ls i ≡ zero_leaf =
        land_leaf-leaf_map ls i
        ∙ ap (λ o. get_or_else o zero_leaf) (leaf_map-Fresh i ls none free) in
      let after : land_leaf (replace_land l' ls) i ≡ l'.land_commitment =
        land_leaf-leaf_map (replace_land l' ls) i
        ∙ ap (λ o. get_or_else o zero_leaf) (leaf_map-replace_eq l l' i ls none found at free) in
      let others = other_leaves (λ j ne e. cc (out, e)) (λ j ne e. ne (same_index at e)) in
      let (p, q) =
        build_tree_single_update hash (leaves_of ls []) (leaves_of (replace_land l' ls) []) i
          old_tree new_tree others in_range in
      (
        ap (λ v. compute_root_from_path hash v (new.path_for i)) (sym before) ∙ p,
        ap (λ v. compute_root_from_path hash v (new.path_for i)) (sym after) ∙ q,
      )

  -- A land leaves the tree: the new path folds from its old commitment to the old root, and from
  -- the zero leaf to the new root.
  pub removal_transition :
      tree_leaf l ≡ some i
      → tree_leaf l' ≡ none
      → Distinct ls
      → (compute_root_from_path hash l.land_commitment (new.path_for i) ≡ some old.root)
        × (compute_root_from_path hash zero_leaf (new.path_for i) ≡ some new.root)
  removal_transition at out distinct =
      let before : land_leaf ls i ≡ l.land_commitment =
        land_leaf-leaf_map ls i
        ∙ ap (λ o. get_or_else o zero_leaf) (leaf_map_found l l' i ls none found distinct at) in
      let after : land_leaf (replace_land l' ls) i ≡ zero_leaf =
        land_leaf-leaf_map (replace_land l' ls) i
        ∙ ap (λ o. get_or_else o zero_leaf)
            (leaf_map-replace_gone l l' i ls none found distinct at out) in
      let others = other_leaves (λ j ne e. ne (same_index at e)) (λ j ne e. cc (out, e)) in
      let (p, q) =
        build_tree_single_update hash (leaves_of ls []) (leaves_of (replace_land l' ls) []) i
          old_tree new_tree others in_range in
      (
        ap (λ v. compute_root_from_path hash v (new.path_for i)) (sym before) ∙ p,
        ap (λ v. compute_root_from_path hash v (new.path_for i)) (sym after) ∙ q,
      )
