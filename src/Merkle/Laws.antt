-- ===== src/Merkle/Laws.antt =====
-- What the snapshot of `build_tree` promises: roots, paths, single-leaf updates, binding.
use thesis_project_land_chai.Prelude.{
  ℕ, ◌<◌, ◌≤◌, String, Bool, true, false, some, ◌≡◌, ◌≢◌, ◌⊎◌, refl, sym, ap, ◌∙◌, arith, ltb,
  if◌then◌else◌, get_or_else, Bool-cases, inl, inr,
}
use mathlib.Core.Path.{fun_ext}
use thesis_project_land_chai.Errors.{Error, ok, err, ok_injective}
use thesis_project_land_chai.Merkle.{
  tree_depth, tree_capacity, zero_leaf, Layer, get, leaf_count, MerklePath, MerkleSnapshot, zeros,
  build_layers, path_loop, top, build_tree, compute_root_from_path,
}
use thesis_project_land_chai.Merkle.Node.{node}
use thesis_project_land_chai.Merkle.Path.{
  ancestor-zero, IsPath, spec_path, spec_path-IsPath, top-node, path_loop-spec_path,
  root_loop-spec_path, spec_path_congr,
}
use thesis_project_land_chai.Merkle.Binding.{position, PathCollision, root_loop_binding}

-- The leaf at an index; an empty one is the zero leaf.
abbrev pub leaf_at : Layer → ℕ → String
leaf_at leaves i = get_or_else (get i leaves) zero_leaf

if_room :
    (full : Bool) (e : Error) (t : MerkleSnapshot)
    → full ≡ false
    → (s : MerkleSnapshot) × ((if full then err e else ok t) ≡ ok s)
if_room true e t h = cc
if_room false e t h = (t, refl)

module _ (hash : String → String → String) where
  -- The root of the reference tree over an assignment of leaves.
  unfoldable pub root_of : (ℕ → String) → String
  root_of f = node hash f tree_depth 0

  pub path_of : (ℕ → String) → ℕ → MerklePath
  path_of f i = spec_path hash f tree_depth i

  pub path_of-IsPath :
      (f : ℕ → String) (i : ℕ)
      → IsPath tree_depth (path_of f i).path_elements (path_of f i).path_indices
  unfolding path_of
  path_of-IsPath f i = spec_path-IsPath hash f tree_depth i

  build_tree-eq-ok :
      (leaves : Layer) {s : MerkleSnapshot}
      → build_tree hash leaves ≡ ok s
      → (leaf_count leaves ≤ tree_capacity)
        × (record {
          root = top hash (build_layers hash (zeros hash) leaves) (zeros hash);
          leaf_count = leaf_count leaves;
          path_for = path_loop hash (build_layers hash (zeros hash) leaves) (zeros hash) tree_depth;
        }
            ≡ s)
  unfolding build_tree
  build_tree-eq-ok leaves h = elim (Bool-cases (ltb tree_capacity (leaf_count leaves))) [
    | inl full ↦ cc (rw full at h)
    | inr room ↦ (ground arith, ok_injective (rw room at h))
  ]

  pub build_tree_root :
      (leaves : Layer) {s : MerkleSnapshot}
      → build_tree hash leaves ≡ ok s
      → s.root ≡ root_of (leaf_at leaves)
  unfolding root_of zeros
  build_tree_root leaves h =
      sym (ap (λ t. t.root) (build_tree-eq-ok leaves h).1)
      ∙ top-node hash tree_depth zero_leaf leaves (leaf_at leaves) (λ i. refl)

  pub build_tree_path :
      (leaves : Layer) (i : ℕ) {s : MerkleSnapshot}
      → build_tree hash leaves ≡ ok s
      → s.path_for i ≡ path_of (leaf_at leaves) i
  unfolding path_of zeros
  build_tree_path leaves i h =
      sym (ap (λ t. t.path_for i) (build_tree-eq-ok leaves h).1)
      ∙ path_loop-spec_path hash tree_depth zero_leaf leaves (leaf_at leaves) i (λ j. refl)

  pub build_tree_leaf_count :
      (leaves : Layer) {s : MerkleSnapshot}
      → build_tree hash leaves ≡ ok s
      → s.leaf_count ≡ leaf_count leaves
  build_tree_leaf_count leaves h = sym (ap (λ t. t.leaf_count) (build_tree-eq-ok leaves h).1)

  -- Where the leaf count is within the capacity, the tree is built.
  pub build_tree_total :
      (leaves : Layer)
      → leaf_count leaves ≤ tree_capacity
      → (s : MerkleSnapshot) × (build_tree hash leaves ≡ ok s)
  unfolding build_tree
  build_tree_total leaves h = if_room (ltb tree_capacity (leaf_count leaves)) _ _ (ground arith)

  compute-path_of :
      (f : ℕ → String) (i : ℕ)
      → i < tree_capacity
      → compute_root_from_path hash (f i) (path_of f i) ≡ some (root_of f)
  unfolding compute_root_from_path path_of root_of tree_capacity
  compute-path_of f i h =
      root_loop-spec_path hash f tree_depth i
      ∙ ap (λ k. some (node hash f tree_depth k)) (ancestor-zero tree_depth i h)

  path_of_congr :
      (f g : ℕ → String) (i : ℕ) → ((j : ℕ) → j ≢ i → f j ≡ g j) → path_of f i ≡ path_of g i
  unfolding path_of
  path_of_congr f g i h = spec_path_congr hash f g tree_depth i h

  -- The path that the snapshot gives for an index below the capacity folds from the leaf at that
  -- index, empty leaves included, to the snapshot's root.
  pub build_tree_membership :
      (leaves : Layer) (i : ℕ) {s : MerkleSnapshot}
      → build_tree hash leaves ≡ ok s
      → i < tree_capacity
      → compute_root_from_path hash (leaf_at leaves i) (s.path_for i) ≡ some s.root
  build_tree_membership leaves i h lt =
      rw (build_tree_path leaves i h, build_tree_root leaves h)
        (compute-path_of (leaf_at leaves) i lt)

  -- Where two trees differ at most in the leaf at one index below the capacity, the path of that
  -- index is the same in both, and it folds from the old leaf to the old root and from the new
  -- leaf to the new root.
  pub build_tree_single_update :
      (old_leaves new_leaves : Layer) (i : ℕ) {old new : MerkleSnapshot}
      → build_tree hash old_leaves ≡ ok old
      → build_tree hash new_leaves ≡ ok new
      → ((j : ℕ) → j ≢ i → leaf_at old_leaves j ≡ leaf_at new_leaves j)
      → i < tree_capacity
      → (compute_root_from_path hash (leaf_at old_leaves i) (new.path_for i) ≡ some old.root)
        × (compute_root_from_path hash (leaf_at new_leaves i) (new.path_for i) ≡ some new.root)
  build_tree_single_update old_leaves new_leaves i ho hn same lt = (
    rw
        (
          build_tree_path new_leaves i hn,
          build_tree_root old_leaves ho,
          ← path_of_congr (leaf_at old_leaves) (leaf_at new_leaves) i same,
        )
        (compute-path_of (leaf_at old_leaves) i lt),
    build_tree_membership new_leaves i hn lt,
  )

  -- Two leaf maps that hold the same leaf at each index have the same root and the same paths,
  -- in whatever order their entries were written.
  pub build_tree_extensional :
      (leaves leaves' : Layer) {s s' : MerkleSnapshot}
      → build_tree hash leaves ≡ ok s
      → build_tree hash leaves' ≡ ok s'
      → ((j : ℕ) → get j leaves ≡ get j leaves')
      → (s.root ≡ s'.root) × ((i : ℕ) → s.path_for i ≡ s'.path_for i)
  build_tree_extensional leaves leaves' h h' same =
      let e : leaf_at leaves ≡ leaf_at leaves' =
        fun_ext (λ j. ap (λ o. get_or_else o zero_leaf) (same j)) in
      (
        build_tree_root leaves h ∙ ap root_of e ∙ sym (build_tree_root leaves' h'),
        λ i.
            build_tree_path leaves i h
            ∙ ap (λ f. path_of f i) e
            ∙ sym (build_tree_path leaves' i h'),
      )

  -- Let a text denote a value to the hash. Whatever leaf and path fold to the root of a built
  -- tree, either the leaf denotes what the tree holds at the position which the path's directions
  -- spell, or at some level of the fold the pair of texts that is hashed differs in value from the
  -- pair of the tree's nodes in that place, while the hashes of the two pairs have one value.
  pub build_tree_binding :
      (value : String → ℕ) (leaves : Layer) (leaf : String) (path : MerklePath) {s : MerkleSnapshot}
      → build_tree hash leaves ≡ ok s
      → compute_root_from_path hash leaf path ≡ some s.root
      → (value leaf ≡ value (leaf_at leaves (position tree_depth path.path_indices)))
        ⊎ PathCollision value hash
            (leaf_at leaves)
            tree_depth
            leaf
            path.path_elements
            path.path_indices
  unfolding compute_root_from_path root_of
  build_tree_binding value leaves leaf path h e =
      root_loop_binding value hash (leaf_at leaves) tree_depth leaf path.path_elements
        path.path_indices (e ∙ ap some (build_tree_root leaves h))
