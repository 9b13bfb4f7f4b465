-- ===== src/Land/Sale.antt =====
-- Rejecting, listing and withdrawing: what they write on every branch, and that they keep the
-- registry.
use thesis_project_land_chai.Prelude.{
  ℕ, String, true, false, string_eq, nat_eq, Option, none, some, find, find_found, find-All, ◌≡◌,
  ◌⊎◌, inl, inr, refl, sym, ◌∙◌, arith, Option-cases, get_or_else,
}
use mathlib.Core.Path.{subst}
use thesis_project_land_chai.Externals.{Externals}
use thesis_project_land_chai.Db.{
  Land, LandStatus-eq, pending_approval, registered, rejected, listed_for_sale, Db, find_land,
  replace_land,
}
use thesis_project_land_chai.Action.{◌>>=◌}
use thesis_project_land_chai.Registry.{is_approved, tree_leaf}
use thesis_project_land_chai.Registry.Leaves.{has_id, has_id-eq}
use thesis_project_land_chai.Registry.Invariant.{WellPlaced, IsRegistry}
use thesis_project_land_chai.Registry.Preservation.{IsSameLeaf, replace_same-IsRegistry}
use thesis_project_land_chai.Land.{reject_land, list_land_for_sale, cancel_land_sale}

-- The run leaves the lands as they are, or replaces the land under `land_id`, which `Before`
-- describes, by `after` of it.
abbrev pub Changes : String → (Land → Type 0) → (Land → Land) → Db → Db → Type 0
Changes land_id Before after db db' =
    (db'.lands ≡ db.lands)
    ⊎ ((l : Land) × (find_land land_id db ≡ some l)
        × Before l
        × (db'.lands ≡ replace_land (after l) db.lands))

abbrev pub listed : String → Land → Land
listed price l = record l { for_sale = true; sale_price = some price; status = listed_for_sale }

abbrev pub withdrawn : Land → Land
withdrawn l = record l { for_sale = false; sale_price = none; status = registered }

abbrev pub refused : Option String → Land → Land
refused reason l = record l {
  status = rejected;
  rejection_reason = some (get_or_else reason "Rejected by authority.");
}

list_keeps :
    (l : Land) (price : String) {user_id : ℕ}
    → (l.owner_id ≡ user_id) × (l.status ≡ registered)
    → WellPlaced l
    → IsSameLeaf l (listed price l) × WellPlaced (listed price l)
unfolding tree_leaf is_approved LandStatus-eq
list_keeps l price (own, at) (leaf, sale) = (
  record {
    same_leaf = ground arith;
    same_commitment = refl;
    same_root = refl;
    same_elements = refl;
    same_indices = refl;
  },
  (ground arith, refl),
)

withdraw_keeps :
    (l : Land) {user_id : ℕ}
    → (l.owner_id ≡ user_id) × (l.status ≡ listed_for_sale)
    → WellPlaced l
    → IsSameLeaf l (withdrawn l) × WellPlaced (withdrawn l)
unfolding tree_leaf is_approved LandStatus-eq
withdraw_keeps l (own, at) (leaf, sale) = (
  record {
    same_leaf = ground arith;
    same_commitment = refl;
    same_root = refl;
    same_elements = refl;
    same_indices = refl;
  },
  (ground arith, refl),
)

reject_keeps :
    (l : Land) (reason : Option String)
    → l.status ≡ pending_approval
    → WellPlaced l
    → IsSameLeaf l (refused reason l) × WellPlaced (refused reason l)
unfolding tree_leaf is_approved LandStatus-eq
reject_keeps l reason at (leaf, sale) = (
  record {
    same_leaf = ground arith;
    same_commitment = refl;
    same_root = refl;
    same_elements = refl;
    same_indices = refl;
  },
  (ground arith, ground arith),
)

module _ (x : Externals) (db : Db) (land_id : String) where
  -- Listing changes nothing but a registered land of the caller.
  pub list_land_for_sale-Changes :
      (price : String) (user_id : ℕ)
      → Changes land_id
          (λ l. (l.owner_id ≡ user_id) × (l.status ≡ registered))
          (listed price)
          db
          (list_land_for_sale x land_id price user_id db).1
  unfolding list_land_for_sale ◌>>=◌
  list_land_for_sale-Changes price user_id = elim (Option-cases (find_land land_id db)) [
    | inl missing ↦ inl (ground arith)
    | inr (l, found) ↦ elim (nat_eq.dec l.owner_id user_id) [
      | no other ↦ inl (ground arith)
      | yes own ↦ elim (LandStatus-eq.dec l.status registered) [
        | no elsewhere ↦ inl (ground arith)
        | yes at ↦ inr (l, found, (own, at), ground arith)
      ]
    ]
  ]

  pub cancel_land_sale-Changes :
      (user_id : ℕ)
      → Changes land_id
          (λ l. (l.owner_id ≡ user_id) × (l.status ≡ listed_for_sale))
          withdrawn
          db
          (cancel_land_sale x land_id user_id db).1
  unfolding cancel_land_sale ◌>>=◌
  cancel_land_sale-Changes user_id = elim (Option-cases (find_land land_id db)) [
    | inl missing ↦ inl (ground arith)
    | inr (l, found) ↦ elim (nat_eq.dec l.owner_id user_id) [
      | no other ↦ inl (ground arith)
      | yes own ↦ elim (LandStatus-eq.dec l.status listed_for_sale) [
        | no elsewhere ↦ inl (ground arith)
        | yes at ↦ inr (l, found, (own, at), ground arith)
      ]
    ]
  ]

  pub reject_land-Changes :
      (reason : Option String)
      → Changes land_id
          (λ l. l.status ≡ pending_approval)
          (refused reason)
          db
          (reject_land x land_id reason db).1
  unfolding reject_land ◌>>=◌
  reject_land-Changes reason = elim (Option-cases (find_land land_id db)) [
    | inl missing ↦ inl (ground arith)
    | inr (l, found) ↦ elim (LandStatus-eq.dec l.status pending_approval) [
      | no elsewhere ↦ inl (ground arith)
      | yes at ↦ inr (l, found, at, ground arith)
    ]
  ]

  Changes-IsRegistry :
      (hash : String → String → String) (Before : Land → Type 0) (after : Land → Land) (db' : Db)
      → ((l : Land) → (after l).land_id ≡ l.land_id)
      → ((l : Land) → Before l → WellPlaced l → IsSameLeaf l (after l) × WellPlaced (after l))
      → Changes land_id Before after db db'
      → IsRegistry hash db.lands
      → IsRegistry hash db'.lands
  unfolding find_land
  Changes-IsRegistry hash Before after db' same_id keeps (inl same) v =
      subst (IsRegistry hash) (sym same) v
  Changes-IsRegistry hash Before after db' same_id keeps (inr (l, found, before, e)) v =
      let placed = find-All WellPlaced (has_id land_id) db.lands found v.base.placed in
      let (same, placed') = keeps l before placed in
      let id : (after l).land_id ≡ land_id =
        same_id l ∙ has_id-eq land_id l (find_found (has_id land_id) db.lands found) in
      let found' : find (has_id (after l).land_id) db.lands ≡ some l =
        subst (λ k. find (has_id k) db.lands ≡ some l) (sym id) found in
      subst (IsRegistry hash) (sym e)
        (replace_same-IsRegistry hash l (after l) db.lands found' same placed' v)

  -- Listing for sale, whether it goes through or throws, keeps the registry's invariant.
  pub list_land_for_sale-IsRegistry :
      (hash : String → String → String) (price : String) (user_id : ℕ)
      → IsRegistry hash db.lands
      → IsRegistry hash (list_land_for_sale x land_id price user_id db).1.lands
  list_land_for_sale-IsRegistry hash price user_id =
      Changes-IsRegistry hash (λ l. (l.owner_id ≡ user_id) × (l.status ≡ registered)) (listed price)
        (list_land_for_sale x land_id price user_id db).1 (λ l. refl) (λ l. list_keeps l price)
        (list_land_for_sale-Changes price user_id)

  -- Withdrawing from sale, whether it goes through or throws, keeps the registry's invariant.
  pub cancel_land_sale-IsRegistry :
      (hash : String → String → String) (user_id : ℕ)
      → IsRegistry hash db.lands
      → IsRegistry hash (cancel_land_sale x land_id user_id db).1.lands
  cancel_land_sale-IsRegistry hash user_id =
      Changes-IsRegistry hash (λ l. (l.owner_id ≡ user_id) × (l.status ≡ listed_for_sale)) withdrawn
        (cancel_land_sale x land_id user_id db).1 (λ l. refl) (λ l. withdraw_keeps l)
        (cancel_land_sale-Changes user_id)

  -- Rejecting a request, whether it goes through or throws, keeps the registry's invariant.
  pub reject_land-IsRegistry :
      (hash : String → String → String) (reason : Option String)
      → IsRegistry hash db.lands
      → IsRegistry hash (reject_land x land_id reason db).1.lands
  reject_land-IsRegistry hash reason =
      Changes-IsRegistry hash (λ l. l.status ≡ pending_approval) (refused reason)
        (reject_land x land_id reason db).1 (λ l. refl) (λ l. reject_keeps l reason)
        (reject_land-Changes reason)
