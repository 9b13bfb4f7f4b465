-- ===== src/Registry/Preservation.antt =====
-- The two ways in which the services change the lands without touching the tree: a stored land is
-- replaced by a version at the same leaf, and a land outside the tree is added.
use thesis_project_land_chai.Prelude.{
  ℕ, ◌<◌, String, none, some, List, [], ◌∷◌, ◌++◌, find, All, All-append, find-All, ◌≡◌, inl, sym,
  ap, ◌∙◌, get_or_else,
}
use mathlib.Core.Path.{fun_ext, subst}
use thesis_project_land_chai.Merkle.{tree_capacity}
use thesis_project_land_chai.Db.{Land, replace_land}
use thesis_project_land_chai.Registry.{tree_leaf}
use thesis_project_land_chai.Registry.Leaves.{
  has_id, replace-All, leaf_map-replace_same, leaf_map-append, append-Distinct,
}
use thesis_project_land_chai.Registry.Transition.{land_leaf, land_leaf-leaf_map}
use thesis_project_land_chai.Registry.Invariant.{WellPlaced, replace-IsPlaced, HasPath, IsRegistry}

-- A version of a land at the same leaf, with the same commitment and path.
pub record IsSameLeaf (l l' : Land) : Type 0 where
  pub same_leaf : tree_leaf l' ≡ tree_leaf l
  pub same_commitment : l'.land_commitment ≡ l.land_commitment
  pub same_root : l'.merkle_root ≡ l.merkle_root
  pub same_elements : l'.path_elements ≡ l.path_elements
  pub same_indices : l'.path_indices ≡ l.path_indices

module _ (hash : String → String → String) where
  pub land_leaf-replace_same :
      (l l' : Land) (ls : List Land)
      → find (has_id l'.land_id) ls ≡ some l
      → IsSameLeaf l l'
      → land_leaf (replace_land l' ls) ≡ land_leaf ls
  land_leaf-replace_same l l' ls found same = fun_ext λ j.
      land_leaf-leaf_map (replace_land l' ls) j
      ∙ ap (λ o. get_or_else o "0")
          (leaf_map-replace_same l l' j ls none found same.same_leaf same.same_commitment)
      ∙ sym (land_leaf-leaf_map ls j)

  HasPath-same :
      (f : ℕ → String) (l l' : Land) → IsSameLeaf l l' → HasPath hash f l → HasPath hash f l'
  HasPath-same f l l' same h i e =
      let (root, elements, indices) = h i (sym same.same_leaf ∙ e) in
      (same.same_root ∙ root, same.same_elements ∙ elements, same.same_indices ∙ indices)

  pub replace_same-IsRegistry :
      (l l' : Land) (ls : List Land)
      → find (has_id l'.land_id) ls ≡ some l
      → IsSameLeaf l l'
      → WellPlaced l'
      → IsRegistry hash ls
      → IsRegistry hash (replace_land l' ls)
  replace_same-IsRegistry l l' ls found same placed v = record {
    base =
        replace-IsPlaced l l' ls found v.base placed
          (λ i e.
            find-All (λ z. (j : ℕ) → tree_leaf z ≡ some j → j < tree_capacity) (has_id l'.land_id)
              ls found v.base.below i (sym same.same_leaf ∙ e))
          (λ i e. inl (sym same.same_leaf ∙ e));
    pathed =
        subst (λ f. All (HasPath hash f) (replace_land l' ls))
          (sym (land_leaf-replace_same l l' ls found same))
          (replace-All (HasPath hash (land_leaf ls)) l' ls v.pathed (
            HasPath-same (land_leaf ls) l l' same
              (find-All (HasPath hash (land_leaf ls)) (has_id l'.land_id) ls found v.pathed)));
  }

  pub append-IsRegistry :
      (l : Land) (ls : List Land)
      → tree_leaf l ≡ none
      → WellPlaced l
      → IsRegistry hash ls
      → IsRegistry hash (ls ++ l ∷ [])
  append-IsRegistry l ls out placed v = record {
    base = record {
      below =
          All-append (λ z. (j : ℕ) → tree_leaf z ≡ some j → j < tree_capacity) ls (l ∷ [])
            v.base.below (λ j e. cc (out, e), tt);
      distinct = append-Distinct l ls out v.base.distinct;
      placed = All-append WellPlaced ls (l ∷ []) v.base.placed (placed, tt);
    };
    pathed =
        subst (λ f. All (HasPath hash f) (ls ++ l ∷ [])) (sym (land_leaf-append l ls out))
          (All-append (HasPath hash (land_leaf ls)) ls (l ∷ []) v.pathed (λ i e. cc (out, e), tt));
  }
    where
      land_leaf-append :
          (l : Land) (ls : List Land) → tree_leaf l ≡ none → land_leaf (ls ++ l ∷ []) ≡ land_leaf ls
      land_leaf-append l ls out = fun_ext λ j.
          land_leaf-leaf_map (ls ++ l ∷ []) j
          ∙ ap (λ o. get_or_else o "0") (leaf_map-append l j ls none out)
          ∙ sym (land_leaf-leaf_map ls j)
