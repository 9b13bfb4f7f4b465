-- ===== src/Tests/Lands.antt =====
-- Examples: registration, approval, listing, the deed's encryption and the field encodings.
use thesis_project_land_chai.Prelude.{
  ◌<◌, ◌<>◌, true, Option, none, some, List, [], ◌∷◌, map, find, ◌≡◌, ◌≢◌, option_eq, string_eq,
  nat_eq, inl, refl, arith,
}
use thesis_project_land_chai.Prelude.Text.{big_int}
use thesis_project_land_chai.Errors.{ok}
use thesis_project_land_chai.Json.{null, str}
use thesis_project_land_chai.Merkle.{tree_capacity, MerkleSnapshot, compute_root_from_path}
use thesis_project_land_chai.Db.{Land, LandStatus-eq, Db, find_land}
use thesis_project_land_chai.Field.{
  is_field_text, is_field_element, to_field, buyer_bound_challenge,
}
use thesis_project_land_chai.Field.Laws.{
  buyer_bound_challenge-is_field_element, to_field-is_field_element, zero_padded_is_field_text,
}
use thesis_project_land_chai.DeedCrypto.{
  envelope, deed_encryption_enabled, encrypt_deed, decrypt_deed, key,
}
use thesis_project_land_chai.DeedCrypto.RoundTrip.{IsGcm, decrypt_deed-encrypt_deed}
use thesis_project_land_chai.Zk.{prove_with_circuit}
use thesis_project_land_chai.Registry.{refresh, tree_leaf, is_approved, next_leaf_index}
use thesis_project_land_chai.Registry.Leaves.{Fresh, has_id}
use thesis_project_land_chai.Registry.Placement.{next_leaf_index-Fresh}
use thesis_project_land_chai.Registry.Invariant.{
  WellPlaced, IsPlaced, IsRegistry, placed_tree, refresh-IsRegistry, stored_path_folds,
}
use thesis_project_land_chai.Registry.Steps.{ProvesTransitions}
use thesis_project_land_chai.Land.{
  approve_land, request_land_registration, list_land_for_sale, cancel_land_sale, reject_land,
}
use thesis_project_land_chai.Land.Approval.{IsApproved, approve_land-IsApproved}
use thesis_project_land_chai.Land.Request.{request_land_registration-IsRegistry}
use thesis_project_land_chai.Land.Sale.{
  list_land_for_sale-IsRegistry, cancel_land_sale-IsRegistry, reject_land-IsRegistry,
}
use thesis_project_land_chai.Tests.Toy.{
  toy, toy_hash, plot, pending_db, new_request, registered_plot, plot_on_sale, twelve, sixteen,
}

toy_proves_all : ProvesTransitions toy
unfolding prove_with_circuit
toy_proves_all = record { proves = λ t e e'. ((null, []), refl) }

pending-IsPlaced : IsPlaced pending_db.lands
unfolding tree_leaf is_approved LandStatus-eq
pending-IsPlaced = record {
  below = (λ i e. ground arith, tt);
  distinct = (λ i e. tt, tt);
  placed = ((refl, refl), tt);
}

pub pending-IsRegistry : IsRegistry toy_hash pending_db.lands
unfolding tree_leaf is_approved
pending-IsRegistry = record { base = pending-IsPlaced; pathed = (λ i e. absurd (ground arith), tt) }

found_plot : find_land "L1" pending_db ≡ some plot
unfolding find_land string_eq
found_plot = refl

has_room : next_leaf_index pending_db.lands < tree_capacity
unfolding next_leaf_index tree_leaf is_approved tree_capacity
has_room = omega arith

approve_land-IsApproved_example :
    (result : Option Land) × (db' : Db) × (approve_land toy "L1" 9 pending_db ≡ (ok result, db'))
    × IsApproved toy pending_db "L1" 9 pending-IsPlaced found_plot refl has_room result db'
approve_land-IsApproved_example =
    approve_land-IsApproved toy pending_db "L1" 9 pending-IsPlaced found_plot refl has_room
      toy_proves_all

next_leaf_index-Fresh_example : Fresh (next_leaf_index pending_db.lands) pending_db.lands
next_leaf_index-Fresh_example = next_leaf_index-Fresh pending_db.lands

request_land_registration-IsRegistry_example :
    IsRegistry toy_hash (request_land_registration toy new_request pending_db).1.lands
request_land_registration-IsRegistry_example =
    request_land_registration-IsRegistry toy toy_hash new_request pending_db pending-IsRegistry

-- A registry of one land at leaf 0, with its stored path brought up to date.
pub placed_at_0 : (l : Land) → tree_leaf l ≡ some 0 → WellPlaced l → IsPlaced (l ∷ [])
unfolding tree_capacity
placed_at_0 l at placed = record {
  below = (λ i e. ground (arith, at), tt);
  distinct = (λ i e. tt, tt);
  placed = (placed, tt);
}

registered-IsPlaced : IsPlaced (registered_plot ∷ [])
unfolding tree_leaf is_approved LandStatus-eq
registered-IsPlaced = placed_at_0 registered_plot refl (refl, refl)

on_sale-IsPlaced : IsPlaced (plot_on_sale ∷ [])
unfolding tree_leaf is_approved LandStatus-eq
on_sale-IsPlaced = placed_at_0 plot_on_sale refl (refl, refl)

tree_over :
    (ls : List Land) → IsPlaced ls → (s : MerkleSnapshot) × IsRegistry toy_hash (map (refresh s) ls)
tree_over ls v =
    let (s, tree) = placed_tree toy_hash ls v.below in (s, refresh-IsRegistry toy_hash s ls tree v)

abbrev registered_db : Db
registered_db = record pending_db {
  lands =
      map (refresh (tree_over (registered_plot ∷ []) registered-IsPlaced).0) (registered_plot ∷ []);
}

abbrev on_sale_db : Db
on_sale_db = record pending_db {
  lands = map (refresh (tree_over (plot_on_sale ∷ []) on_sale-IsPlaced).0) (plot_on_sale ∷ []);
}

list_land_for_sale-IsRegistry_example :
    IsRegistry toy_hash (list_land_for_sale toy "L1" "900" 1 registered_db).1.lands
list_land_for_sale-IsRegistry_example =
    list_land_for_sale-IsRegistry toy registered_db "L1" toy_hash "900" 1
      (tree_over (registered_plot ∷ []) registered-IsPlaced).1

cancel_land_sale-IsRegistry_example :
    IsRegistry toy_hash (cancel_land_sale toy "L1" 1 on_sale_db).1.lands
cancel_land_sale-IsRegistry_example =
    cancel_land_sale-IsRegistry toy on_sale_db "L1" toy_hash 1
      (tree_over (plot_on_sale ∷ []) on_sale-IsPlaced).1

abbrev stored_plot : Land
stored_plot = refresh (tree_over (registered_plot ∷ []) registered-IsPlaced).0 registered_plot

found_stored : find (has_id "L1") registered_db.lands ≡ some stored_plot
unfolding string_eq refresh
found_stored = refl

at_leaf_0 : tree_leaf stored_plot ≡ some 0
unfolding tree_leaf is_approved refresh
at_leaf_0 = refl

stored_path_folds_example :
    compute_root_from_path toy_hash stored_plot.land_commitment (record {
      path_elements = stored_plot.path_elements;
      path_indices = stored_plot.path_indices;
    })
    ≡ stored_plot.merkle_root
stored_path_folds_example =
    stored_path_folds toy_hash registered_db.lands "L1" stored_plot 0
      (tree_over (registered_plot ∷ []) registered-IsPlaced).1 found_stored at_leaf_0

reject_land-IsRegistry_example : IsRegistry toy_hash (reject_land toy "L1" none pending_db).1.lands
reject_land-IsRegistry_example =
    reject_land-IsRegistry toy pending_db "L1" toy_hash none pending-IsRegistry

toy-IsGcm : IsGcm toy
toy-IsGcm = record { iv_size = refl; tag_size = λ k iv p. refl; opens = λ k iv p. refl }

enabled : deed_encryption_enabled toy ≡ true
unfolding deed_encryption_enabled string_eq
enabled = refl

sealed : encrypt_deed toy (72 ∷ 105 ∷ []) ≡ ok (envelope twelve sixteen (72 ∷ 105 ∷ []))
unfolding encrypt_deed deed_encryption_enabled key string_eq nat_eq
sealed = refl

decrypt_deed-encrypt_deed_example :
    decrypt_deed toy (envelope twelve sixteen (72 ∷ 105 ∷ [])) ≡ ok (72 ∷ 105 ∷ [])
decrypt_deed-encrypt_deed_example =
    decrypt_deed-encrypt_deed toy toy-IsGcm (72 ∷ 105 ∷ [])
      (envelope twelve sixteen (72 ∷ 105 ∷ [])) (inl enabled) sealed

to_field-is_field_element_example : is_field_element (str (to_field toy "deed")) ≡ true
to_field-is_field_element_example = to_field-is_field_element toy "deed"

bound : buyer_bound_challenge toy "0xb" "s" ≡ ok "301"
unfolding buyer_bound_challenge
bound = refl

buyer_bound_challenge-is_field_element_example : is_field_element (str "301") ≡ true
buyer_bound_challenge-is_field_element_example =
    buyer_bound_challenge-is_field_element toy "0xb" "s" bound

accepted_41 : is_field_text "41" ≡ true
unfolding is_field_text
accepted_41 = refl

zero_padded_is_field_text_example :
    (is_field_text ("0" <> "41") ≡ true)
    × (big_int ("0" <> "41") ≡ big_int "41")
    × (("0" <> "41") ≢ "41")
zero_padded_is_field_text_example = zero_padded_is_field_text "41" accepted_41
