-- ===== src/Merkle.antt =====
-- apps/server/src/services/merkle.service.ts: the fixed-depth sparse Merkle tree over the land
-- commitments. The hash is an argument: the services put Poseidon there (Externals.antt).
pub mod Node
pub mod Path
pub mod Binding
pub mod Laws
use thesis_project_land_chai.Prelude.{
  ℕ, zero, suc, ◌+◌, ◌-◌, ◌*◌, ◌/◌, ◌%◌, ◌^◌, max, ◌<>◌, ◌==◌, ltb, String, Bool, Option, none,
  some, List, [], ◌∷◌, ◌++◌, length, contains, if◌then◌else◌, get_or_else, nat_eq,
}
use thesis_project_land_chai.Prelude.Text.{to_decimal}
use thesis_project_land_chai.Errors.{Error, plain, Result, ok, err}

abbrev pub tree_depth : ℕ
tree_depth = 20

unfoldable pub tree_capacity : ℕ
tree_capacity = 2 ^ tree_depth

abbrev pub zero_leaf : String
zero_leaf = "0"

-- `Map<number, string>`, in insertion order.
abbrev pub Layer : Type 0
Layer = List (ℕ × String)

unfoldable pub get : ℕ → Layer → Option String
get i [] = none
get i ((j, v) ∷ m) = if j == i then some v else get i m

unfoldable pub set : ℕ → String → Layer → Layer
set i v [] = (i, v) ∷ []
set i v ((j, w) ∷ m) = if j == i then (i, v) ∷ m else (j, w) ∷ set i v m

-- `Math.max(...leaves.keys()) + 1`, and 0 of no leaves.
unfoldable pub leaf_count : Layer → ℕ
leaf_count [] = 0
leaf_count ((i, v) ∷ m) = max (i + 1) (leaf_count m)

-- The set of parents, filled in the order of the layer's keys.
unfoldable pub parent_indices : Layer → List ℕ → List ℕ
parent_indices [] parents = parents
parent_indices ((i, v) ∷ m) parents =
    parent_indices m (if contains parents (i / 2) then parents else parents ++ i / 2 ∷ [])

pub record MerklePath : Type 0 where
  pub path_elements : List String
  pub path_indices : List ℕ

pub record MerkleSnapshot : Type 0 where
  pub root : String
  pub leaf_count : ℕ
  pub path_for : ℕ → MerklePath

unfoldable pub sibling_index : ℕ → ℕ
sibling_index index = if index % 2 == 0 then index + 1 else index - 1

module _ (hash : String → String → String) where
  -- `zeros`: the roots of the empty subtrees, from height 0 up.
  unfoldable pub zeros_loop : ℕ → String → List String
  zeros_loop zero z = z ∷ []
  zeros_loop (suc n) z = z ∷ zeros_loop n (hash z z)

  unfoldable pub zeros : List String
  zeros = zeros_loop tree_depth zero_leaf

  -- The loop that fills the next layer, for a level whose empty subtree has root `z`.
  unfoldable pub next_layer : String → Layer → List ℕ → Layer → Layer
  next_layer z current [] next = next
  next_layer z current (parent ∷ parents) next =
      let left = get_or_else (get (parent * 2) current) z in
      let right = get_or_else (get (parent * 2 + 1) current) z in
      next_layer z current parents (set parent (hash left right) next)

  -- The loop over the levels, beside the array of zeros.
  unfoldable pub build_layers : List String → Layer → List Layer
  build_layers [] current = []
  build_layers (z ∷ zs) current =
      current ∷ build_layers zs (next_layer z current (parent_indices current []) [])

  -- `pathFor`: the loop over the levels, from the leaf up.
  unfoldable pub path_loop : List Layer → List String → ℕ → ℕ → MerklePath
  path_loop layers zs zero index = record { path_elements = []; path_indices = [] }
  path_loop [] zs (suc n) index = record { path_elements = []; path_indices = [] }
  path_loop (layer ∷ layers) [] (suc n) index = record { path_elements = []; path_indices = [] }
  path_loop (layer ∷ layers) (z ∷ zs) (suc n) index =
      let rest = path_loop layers zs n (index / 2) in
      record {
        path_elements = get_or_else (get (sibling_index index) layer) z ∷ rest.path_elements;
        path_indices = index % 2 ∷ rest.path_indices;
      }

  -- `layers[level].get(0) ?? zs[level]` at the top level, which is the last of both arrays.
  unfoldable pub top : List Layer → List String → String
  top (layer ∷ []) (z ∷ zs) = get_or_else (get 0 layer) z
  top (layer ∷ layers) (z ∷ zs) = top layers zs
  top layers zs = zero_leaf

  unfoldable pub build_tree : Layer → Result MerkleSnapshot
  build_tree leaves =
      let layers = build_layers zeros leaves in
      if ltb tree_capacity (leaf_count leaves)
      then err (plain ("Registry tree is full (capacity " <> to_decimal tree_capacity <> ")."))
      else ok (record {
        root = top layers zeros;
        leaf_count = leaf_count leaves;
        path_for = path_loop layers zeros tree_depth;
      })

  -- `computeRootFromPath`: `none` where the source hashes `undefined` and throws.
  unfoldable pub root_loop : ℕ → String → List String → List ℕ → Option String
  root_loop zero node es is = some node
  root_loop (suc n) node (e ∷ es) (i ∷ is) =
      root_loop n (if i == 0 then hash node e else hash e node) es is
  root_loop (suc n) node es is = none

  unfoldable pub compute_root_from_path : String → MerklePath → Option String
  compute_root_from_path leaf path = root_loop tree_depth leaf path.path_elements path.path_indices
