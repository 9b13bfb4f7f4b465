-- ===== src/Tests/Trees.antt =====
-- Examples: trees over small leaf maps, and the transitions of a land's entry and exit.
use thesis_project_land_chai.Prelude.{
  ℕ, ◌≤◌, ◌<◌, none, some, [], ◌∷◌, find, ◌≡◌, ◌≢◌, ◌⊎◌, string_eq, refl, arith,
}
use thesis_project_land_chai.Errors.{ok}
use thesis_project_land_chai.Merkle.{
  Layer, MerkleSnapshot, tree_depth, tree_capacity, zero_leaf, leaf_count, get, set, build_tree,
  compute_root_from_path,
}
use thesis_project_land_chai.Merkle.Binding.{position, PathCollision}
use thesis_project_land_chai.Merkle.Laws.{
  leaf_at, build_tree_total, build_tree_membership, build_tree_single_update,
  build_tree_extensional, build_tree_binding,
}
use thesis_project_land_chai.Prelude.Text.{big_int}
use thesis_project_land_chai.Db.{replace_land}
use thesis_project_land_chai.Registry.{tree_leaf, is_approved, leaves_of}
use thesis_project_land_chai.Registry.Leaves.{has_id}
use thesis_project_land_chai.Registry.Transition.{insertion_transition, removal_transition}
use thesis_project_land_chai.Tests.Toy.{toy_hash, plot, registered_plot}

abbrev two_leaves : Layer
two_leaves = (0, "41") ∷ (3, "43") ∷ []

abbrev swapped : Layer
swapped = (3, "43") ∷ (0, "41") ∷ []

abbrev updated : Layer
updated = (0, "41") ∷ (3, "44") ∷ []

two_leaves-fit : leaf_count two_leaves ≤ tree_capacity
unfolding leaf_count tree_capacity
two_leaves-fit = omega arith

swapped-fit : leaf_count swapped ≤ tree_capacity
unfolding leaf_count tree_capacity
swapped-fit = omega arith

updated-fit : leaf_count updated ≤ tree_capacity
unfolding leaf_count tree_capacity
updated-fit = omega arith

build_tree_total_example : (s : MerkleSnapshot) × (build_tree toy_hash two_leaves ≡ ok s)
build_tree_total_example = build_tree_total toy_hash two_leaves two_leaves-fit

two_tree : (s : MerkleSnapshot) × (build_tree toy_hash two_leaves ≡ ok s)
two_tree = build_tree_total toy_hash two_leaves two_leaves-fit

swapped_tree : (s : MerkleSnapshot) × (build_tree toy_hash swapped ≡ ok s)
swapped_tree = build_tree_total toy_hash swapped swapped-fit

updated_tree : (s : MerkleSnapshot) × (build_tree toy_hash updated ≡ ok s)
updated_tree = build_tree_total toy_hash updated updated-fit

three_fits : 3 < tree_capacity
unfolding tree_capacity
three_fits = omega arith

build_tree_membership_example :
    compute_root_from_path toy_hash (leaf_at two_leaves 3) (two_tree.0.path_for 3)
    ≡ some two_tree.0.root
build_tree_membership_example = build_tree_membership toy_hash two_leaves 3 two_tree.1 three_fits

same_elsewhere : (j : ℕ) → j ≢ 3 → leaf_at two_leaves j ≡ leaf_at updated j
unfolding get
same_elsewhere j ne = ground arith

build_tree_single_update_example :
    (compute_root_from_path toy_hash (leaf_at two_leaves 3) (updated_tree.0.path_for 3)
      ≡ some two_tree.0.root)
    × (compute_root_from_path toy_hash (leaf_at updated 3) (updated_tree.0.path_for 3)
        ≡ some updated_tree.0.root)
build_tree_single_update_example =
    build_tree_single_update toy_hash two_leaves updated 3 two_tree.1 updated_tree.1 same_elsewhere
      three_fits

same_gets : (j : ℕ) → get j two_leaves ≡ get j swapped
unfolding get
same_gets j = ground arith

build_tree_extensional_example :
    (two_tree.0.root ≡ swapped_tree.0.root)
    × ((i : ℕ) → two_tree.0.path_for i ≡ swapped_tree.0.path_for i)
build_tree_extensional_example =
    build_tree_extensional toy_hash two_leaves swapped two_tree.1 swapped_tree.1 same_gets

build_tree_binding_example :
    (big_int (leaf_at two_leaves 3)
      ≡ big_int (leaf_at two_leaves (position tree_depth (two_tree.0.path_for 3).path_indices)))
    ⊎ PathCollision big_int toy_hash
        (leaf_at two_leaves)
        tree_depth
        (leaf_at two_leaves 3)
        (two_tree.0.path_for 3).path_elements
        (two_tree.0.path_for 3).path_indices
build_tree_binding_example =
    build_tree_binding toy_hash big_int two_leaves (leaf_at two_leaves 3) (two_tree.0.path_for 3)
      two_tree.1 (build_tree_membership toy_hash two_leaves 3 two_tree.1 three_fits)

-- A land enters leaf 0, and leaves it.
entered-fits : leaf_count (leaves_of (registered_plot ∷ []) []) ≤ tree_capacity
unfolding leaf_count tree_capacity leaves_of tree_leaf is_approved set
entered-fits = omega arith

outside-fits : leaf_count (leaves_of (plot ∷ []) []) ≤ tree_capacity
unfolding leaf_count tree_capacity leaves_of tree_leaf is_approved
outside-fits = omega arith

entry-fits : leaf_count (leaves_of (replace_land registered_plot (plot ∷ [])) []) ≤ tree_capacity
unfolding leaf_count tree_capacity leaves_of tree_leaf is_approved replace_land string_eq set
entry-fits = omega arith

exit-fits : leaf_count (leaves_of (replace_land plot (registered_plot ∷ [])) []) ≤ tree_capacity
unfolding leaf_count tree_capacity leaves_of tree_leaf is_approved replace_land string_eq
exit-fits = omega arith

outside_tree : (s : MerkleSnapshot) × (build_tree toy_hash (leaves_of (plot ∷ []) []) ≡ ok s)
outside_tree = build_tree_total toy_hash (leaves_of (plot ∷ []) []) outside-fits

entered_tree :
    (s : MerkleSnapshot) × (build_tree toy_hash (leaves_of (registered_plot ∷ []) []) ≡ ok s)
entered_tree = build_tree_total toy_hash (leaves_of (registered_plot ∷ []) []) entered-fits

entry_tree :
    (s : MerkleSnapshot) × (build_tree toy_hash
        (leaves_of (replace_land registered_plot (plot ∷ [])) [])
      ≡ ok s)
entry_tree =
    build_tree_total toy_hash (leaves_of (replace_land registered_plot (plot ∷ [])) []) entry-fits

exit_tree :
    (s : MerkleSnapshot) × (build_tree toy_hash
        (leaves_of (replace_land plot (registered_plot ∷ [])) [])
      ≡ ok s)
exit_tree =
    build_tree_total toy_hash (leaves_of (replace_land plot (registered_plot ∷ [])) []) exit-fits

zero_fits : 0 < tree_capacity
unfolding tree_capacity
zero_fits = omega arith

plot_outside : tree_leaf plot ≡ none
unfolding tree_leaf is_approved
plot_outside = refl

plot_inside : tree_leaf registered_plot ≡ some 0
unfolding tree_leaf is_approved
plot_inside = refl

found_outside : find (has_id registered_plot.land_id) (plot ∷ []) ≡ some plot
unfolding string_eq
found_outside = refl

found_inside : find (has_id plot.land_id) (registered_plot ∷ []) ≡ some registered_plot
unfolding string_eq
found_inside = refl

free_leaf : tree_leaf plot ≢ some 0
free_leaf e = cc (plot_outside, e)

insertion_transition_example :
    (compute_root_from_path toy_hash zero_leaf (entry_tree.0.path_for 0) ≡ some outside_tree.0.root)
    × (compute_root_from_path toy_hash "41" (entry_tree.0.path_for 0) ≡ some entry_tree.0.root)
insertion_transition_example =
    insertion_transition toy_hash (plot ∷ []) plot registered_plot 0 found_outside outside_tree.1
      entry_tree.1 zero_fits plot_outside plot_inside (free_leaf, tt)

removal_transition_example :
    (compute_root_from_path toy_hash "41" (exit_tree.0.path_for 0) ≡ some entered_tree.0.root)
    × (compute_root_from_path toy_hash zero_leaf (exit_tree.0.path_for 0) ≡ some exit_tree.0.root)
removal_transition_example =
    removal_transition toy_hash (registered_plot ∷ []) registered_plot plot 0 found_inside
      entered_tree.1 exit_tree.1 zero_fits plot_inside plot_outside ((λ i e. tt, tt))
