-- ===== src/Registry/Invariant.antt =====
-- The invariant of the registry's lands, and what a rebuild of the tree establishes.
use thesis_project_land_chai.Prelude.{
  ℕ, ◌<◌, String, ◌==◌, none, some, is_some, List, [], ◌∷◌, map, All, find, find_found, find-All,
  string_eq, ◌≡◌, ◌⊎◌, refl, sym, ap, ◌∙◌, arith, get_or_else,
}
use mathlib.Core.Path.{fun_ext, ap₂, subst}
use thesis_project_land_chai.Errors.{ok}
use thesis_project_land_chai.Merkle.{
  tree_capacity, leaf_count, MerkleSnapshot, build_tree, compute_root_from_path,
}
use thesis_project_land_chai.Merkle.Laws.{
  root_of, path_of, build_tree_root, build_tree_path, build_tree_total, build_tree_membership,
}
use thesis_project_land_chai.Db.{
  Land, LandStatus-eq, listed_for_sale, Db, replace_land, MerkleRoot, latest_root,
}
use thesis_project_land_chai.Registry.{is_approved, tree_leaf, leaves_of, refresh, with_path}
use thesis_project_land_chai.Registry.Leaves.{
  Fresh, Distinct, has_id, replace-All, replace-Distinct, has_id-eq, leaf_map_found,
}
use thesis_project_land_chai.Registry.Placement.{
  Below, leaf_count-leaves_of, tree_leaf-refresh, leaf_map-refresh, Below-refresh, Distinct-refresh,
}
use thesis_project_land_chai.Registry.Transition.{land_leaf, land_leaf-leaf_map}

-- A land has a leaf index exactly when it is approved, and is marked for sale exactly when it is
-- listed.
abbrev pub WellPlaced : Land → Type 0
WellPlaced l =
    (is_approved l.status ≡ is_some l.leaf_index) × (l.for_sale ≡ (l.status == listed_for_sale))

pub record IsPlaced (ls : List Land) : Type 0 where
  pub below : Below tree_capacity ls
  pub distinct : Distinct ls
  pub placed : All WellPlaced ls

-- The tree over well placed lands fits.
pub placed_tree :
    (hash : String → String → String) (ls : List Land)
    → Below tree_capacity ls
    → (s : MerkleSnapshot) × (build_tree hash (leaves_of ls []) ≡ ok s)
placed_tree hash ls below =
    build_tree_total hash (leaves_of ls [])
      (leaf_count-leaves_of ls tree_capacity [] below (unfold leaf_count in omega arith))

-- Replacing a land by a version that takes no leaf, or the one it had, or a free one.
pub replace-IsPlaced :
    (l l' : Land) (ls : List Land)
    → find (has_id l'.land_id) ls ≡ some l
    → IsPlaced ls
    → WellPlaced l'
    → ((i : ℕ) → tree_leaf l' ≡ some i → i < tree_capacity)
    → ((i : ℕ) → tree_leaf l' ≡ some i → (tree_leaf l ≡ some i) ⊎ Fresh i ls)
    → IsPlaced (replace_land l' ls)
replace-IsPlaced l l' ls found v p lt k = record {
  below = replace-All (λ z. (i : ℕ) → tree_leaf z ≡ some i → i < tree_capacity) l' ls v.below lt;
  distinct = replace-Distinct l l' ls found v.distinct k;
  placed = replace-All WellPlaced l' ls v.placed p;
}

module _ (hash : String → String → String) where
  -- What is stored with a land in the tree is the root and the land's path.
  abbrev pub HasPath : (ℕ → String) → Land → Type 0
  HasPath f l =
      (i : ℕ)
      → tree_leaf l ≡ some i
      → (l.merkle_root ≡ some (root_of hash f))
        × (l.path_elements ≡ (path_of hash f i).path_elements)
        × (l.path_indices ≡ (path_of hash f i).path_indices)

  pub record IsRegistry (ls : List Land) : Type 0 where
    pub base : IsPlaced ls
    pub pathed : All (HasPath (land_leaf ls)) ls

  -- The latest recorded root is that of the tree over the lands.
  abbrev pub IsAnchored : Db → Type 0
  IsAnchored db =
      (r : MerkleRoot) × (latest_root db ≡ some r) × (r.root ≡ root_of hash (land_leaf db.lands))

  module _ (s : MerkleSnapshot) where
    WellPlaced-refresh : (l : Land) → WellPlaced l → WellPlaced (refresh s l)
    unfolding refresh
    WellPlaced-refresh l p = ground arith

    WellPlaced-refresh-All :
        (ls : List Land) → All WellPlaced ls → All WellPlaced (map (refresh s) ls)
    WellPlaced-refresh-All [] h = tt
    WellPlaced-refresh-All (l ∷ ls) (p, h) = (WellPlaced-refresh l p, WellPlaced-refresh-All ls h)

    refresh_at : (l : Land) (i : ℕ) → tree_leaf l ≡ some i → refresh s l ≡ with_path l s i
    unfolding refresh
    refresh_at l i e = rw (e, refresh) refl

    HasPath-refresh :
        (f : ℕ → String) (l : Land)
        → s.root ≡ root_of hash f
        → ((i : ℕ) → s.path_for i ≡ path_of hash f i)
        → HasPath f (refresh s l)
    HasPath-refresh f l root paths i e =
        let at : tree_leaf l ≡ some i = sym (tree_leaf-refresh s l) ∙ e in
        rw (refresh_at l i at)
          (ap some root, ap (λ p. p.path_elements) (paths i), ap (λ p. p.path_indices) (paths i))

    HasPath-refresh-All :
        (f : ℕ → String) (ls : List Land)
        → s.root ≡ root_of hash f
        → ((i : ℕ) → s.path_for i ≡ path_of hash f i)
        → All (HasPath f) (map (refresh s) ls)
    HasPath-refresh-All f [] root paths = tt
    HasPath-refresh-All f (l ∷ ls) root paths =
        (HasPath-refresh f l root paths, HasPath-refresh-All f ls root paths)

    pub land_leaf-refresh : (ls : List Land) → land_leaf (map (refresh s) ls) ≡ land_leaf ls
    land_leaf-refresh ls = fun_ext λ j.
        land_leaf-leaf_map (map (refresh s) ls) j
        ∙ ap (λ o. get_or_else o "0") (leaf_map-refresh s j ls none)
        ∙ sym (land_leaf-leaf_map ls j)

    -- After a rebuild the whole invariant holds, whatever the paths were before.
    pub refresh-IsRegistry :
        (ls : List Land)
        → build_tree hash (leaves_of ls []) ≡ ok s
        → IsPlaced ls
        → IsRegistry (map (refresh s) ls)
    refresh-IsRegistry ls tree v = record {
      base = record {
        below = Below-refresh s tree_capacity ls v.below;
        distinct = Distinct-refresh s ls v.distinct;
        placed = WellPlaced-refresh-All ls v.placed;
      };
      pathed = rw (land_leaf-refresh ls) (
          HasPath-refresh-All (land_leaf ls) ls (build_tree_root hash (leaves_of ls []) tree)
            (λ i. build_tree_path hash (leaves_of ls []) i tree));
    }

  -- In a registry whose invariant holds, the stored path of a land in the tree folds from its
  -- commitment to its stored root.
  pub stored_path_folds :
      (ls : List Land) (land_id : String) (l : Land) (i : ℕ)
      → IsRegistry ls
      → find (has_id land_id) ls ≡ some l
      → tree_leaf l ≡ some i
      → compute_root_from_path hash l.land_commitment
          (record { path_elements = l.path_elements; path_indices = l.path_indices })
        ≡ l.merkle_root
  stored_path_folds ls land_id l i v found at =
      let (s, tree) = placed_tree hash ls v.base.below in
      let id : l.land_id ≡ land_id = has_id-eq land_id l (find_found (has_id land_id) ls found) in
      let found' : find (has_id l.land_id) ls ≡ some l =
        subst (λ k. find (has_id k) ls ≡ some l) (sym id) found in
      let (root, elements, indices) =
        find-All (HasPath (land_leaf ls)) (has_id land_id) ls found v.pathed i at in
      let lt =
        find-All (λ z. (j : ℕ) → tree_leaf z ≡ some j → j < tree_capacity) (has_id land_id) ls found
          v.base.below i at in
      let leaf : land_leaf ls i ≡ l.land_commitment =
        land_leaf-leaf_map ls i
        ∙ ap (λ o. get_or_else o "0") (leaf_map_found l l i ls none found' v.base.distinct at) in
      let same_path : path_of hash (land_leaf ls) i
          ≡ record { path_elements = l.path_elements; path_indices = l.path_indices } =
        λ k. record { path_elements = (sym elements) k; path_indices = (sym indices) k } in
      ap₂ (compute_root_from_path hash) (sym leaf)
        (sym same_path ∙ sym (build_tree_path hash (leaves_of ls []) i tree))
      ∙ build_tree_membership hash (leaves_of ls []) i tree lt
      ∙ ap some (build_tree_root hash (leaves_of ls []) tree)
      ∙ sym root
