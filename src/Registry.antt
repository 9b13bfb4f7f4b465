-- ===== src/Registry.antt =====
-- The part of apps/server/src/services/merkle.service.ts that works on the land collection: which
-- lands occupy a leaf, the next free leaf, the rebuilt tree, and the proof of a root transition.
pub mod Leaves
pub mod Placement
pub mod Invariant
pub mod Transition
pub mod Steps
pub mod Preservation
use thesis_project_land_chai.Prelude.{
  ℕ, zero, suc, ◌+◌, String, Bool, true, false, ◌&&◌, ◌||◌, ◌==◌, string_eq, Option, none, some,
  List, [], ◌∷◌, map, filter, ltb, is_some, get_or_else, if◌then◌else◌,
}
use thesis_project_land_chai.Errors.{Error, plain, Result, ok, err, throw_first}
use thesis_project_land_chai.Json.{Json}
use thesis_project_land_chai.Externals.{Externals}
use thesis_project_land_chai.Field.{poseidon_hash2}
use thesis_project_land_chai.Merkle.{
  Layer, set, MerklePath, MerkleSnapshot, build_tree, compute_root_from_path,
}
use thesis_project_land_chai.Db.{Land, LandStatus, LandStatus-eq, registered, listed_for_sale, Db}
use thesis_project_land_chai.Chain.{RootTransition}
use thesis_project_land_chai.Zk.{prove_with_circuit}
use thesis_project_land_chai.Action.{Action, lift, gets, modify, pure, guards, ◌>>=◌, ◌>>◌}

-- `status: { $in: ["REGISTERED", "LISTED_FOR_SALE"] }`
unfoldable pub is_approved : LandStatus → Bool
is_approved registered = true
is_approved listed_for_sale = true
is_approved s = false

-- `treeLandFilter()`: the leaf that the land occupies, if it does.
unfoldable pub tree_leaf : Land → Option ℕ
unfolding is_approved
tree_leaf l = if is_approved l.status then l.leaf_index else none

-- The land with the highest leaf index among those that occupy one.
unfoldable pub highest_leaf : List Land → Option ℕ
unfolding tree_leaf
highest_leaf [] = none
highest_leaf (l ∷ ls) =
    let rest = highest_leaf ls in
    elim (tree_leaf l) [
      | none ↦ rest
      | some i ↦ elim rest [ none ↦ some i | some j ↦ if ltb i j then some j else some i ]
    ]

unfoldable pub next_leaf_index : List Land → ℕ
unfolding highest_leaf
next_leaf_index lands = elim (highest_leaf lands) [ none ↦ 0 | some i ↦ i + 1 ]

-- The loop that fills the map from leaf index to commitment.
unfoldable pub leaves_of : List Land → Layer → Layer
unfolding tree_leaf
leaves_of [] leaves = leaves
leaves_of (l ∷ ls) leaves =
    leaves_of ls (elim (tree_leaf l) [ none ↦ leaves | some i ↦ set i l.land_commitment leaves ])

abbrev pub with_path : Land → MerkleSnapshot → ℕ → Land
with_path l snapshot i = record l {
  merkle_root = some snapshot.root;
  path_elements = (snapshot.path_for i).path_elements;
  path_indices = (snapshot.path_for i).path_indices;
}

-- The update of one land after a rebuild.
unfoldable pub refresh : MerkleSnapshot → Land → Land
unfolding tree_leaf
refresh snapshot l = elim (tree_leaf l) [ none ↦ l | some i ↦ with_path l snapshot i ]

module _ (x : Externals) where
  abbrev pub hash2 : String → String → String
  hash2 = poseidon_hash2 x

  unfoldable pub rebuild_registry_tree : Action MerkleSnapshot
  rebuild_registry_tree = do
    lands ← gets (λ db. db.lands)
    snapshot ← lift (build_tree hash2 (leaves_of lands []))
    modify (λ db. record db { lands = map (refresh snapshot) db.lands })
    pure snapshot

  abbrev or_undefined : Option String → Result String
  or_undefined none = err (plain "Cannot convert undefined to a BigInt")
  or_undefined (some root) = ok root

  unfoldable pub prove_root_transition :
      MerklePath → String → String → String → Action RootTransition
  prove_root_transition path leaf_before leaf_after new_root = do
    old_root ← lift (or_undefined (compute_root_from_path hash2 leaf_before path))
    expected_new_root ← lift (or_undefined (compute_root_from_path hash2 leaf_after path))
    guards (
        (
          if expected_new_root == new_root then false else true,
          plain "Root transition mismatch: the rebuilt tree differs from a single-leaf update.",
        )
        ∷ [])
    proved ← lift (
        prove_with_circuit x (record {
          path_elements = path.path_elements;
          path_indices = path.path_indices;
          leaf_before = leaf_before;
          leaf_after = leaf_after;
          old_root = old_root;
          new_root = new_root;
        }))
    pure (record { proof = proved.0; public_signals = proved.1 })
