-- ===== src/Land.antt =====
-- apps/server/src/services/land.service.ts: registration requests, approval, rejection, listing
-- for sale and the queries.
pub mod Listing
pub mod Approval
pub mod Unproved
pub mod Preserved
pub mod Sale
pub mod Withdrawal
pub mod Request
use thesis_project_land_chai.Prelude.{
  ℕ, ◌+◌, String, Bool, true, false, ◌&&◌, ◌||◌, ◌==◌, ◌<>◌, string_eq, nat_eq, Option, none, some,
  List, [], ◌∷◌, ◌++◌, map, filter, leb, not, is_some, get_or_else, if◌then◌else◌,
}
use mathlib.Core.List.{reverse}
use thesis_project_land_chai.Prelude.Text.{to_decimal, to_lower_case}
use thesis_project_land_chai.Errors.{
  Error, duplicate_key, validation, bad_request, conflict, forbidden, not_found, Result, ok, err,
}
use thesis_project_land_chai.Externals.{Externals}
use thesis_project_land_chai.Field.{is_field_text, land_id_to_field, deterministic_tx_hash}
use thesis_project_land_chai.Merkle.{tree_capacity, zero_leaf, MerkleSnapshot}
use thesis_project_land_chai.Db.{
  Land, LandStatus, LandStatus-eq, pending_approval, registered, rejected, listed_for_sale, Role,
  Role-eq, authority, land_requested, land_approved, land_rejected, list_for_sale, sale_cancelled,
  Transaction, MerkleRoot, Db, find_land, find_commitment, save_land, add_transaction,
  add_merkle_root, land_duplicate, latest_root,
}
use thesis_project_land_chai.Action.{
  Action, pure, throw, lift, gets, or_throw, modify, guards, ◌>>=◌, ◌>>◌,
}
use thesis_project_land_chai.Ipfs.{DeedFile, DeedRef, upload_deed_to_ipfs}
use thesis_project_land_chai.Chain.{register_land_on_chain, update_root_on_chain}
use thesis_project_land_chai.Registry.{
  is_approved, tree_leaf, next_leaf_index, rebuild_registry_tree, prove_root_transition,
}

-- A JavaScript number, as far as the handler looks at it: NaN and the infinities, a negative
-- number, or a whole part and whether there is a fraction behind it.
pub data AreaNumber : Type 0 where
  not_finite negative : AreaNumber
  nonneg : (whole : ℕ) (has_fraction : Bool) → AreaNumber

abbrev pub is_finite : AreaNumber → Bool
is_finite not_finite = false
is_finite n = true

abbrev pub le_zero : AreaNumber → Bool
le_zero negative = true
le_zero (nonneg whole has_fraction) = leb whole 0 && not has_fraction
le_zero not_finite = false

-- `Math.floor`; it is taken of positive numbers only.
abbrev pub floor : AreaNumber → ℕ
floor (nonneg whole has_fraction) = whole
floor n = 0

pub record LandRequest : Type 0 where
  pub land_id : String
  pub plot_number : String
  pub location : String
  pub area_sqm : AreaNumber
  pub land_commitment : String
  pub area_commitment : String
  pub request_note : Option String
  pub deed_file : Option DeedFile
  pub user_id : ℕ
  pub user_wallet : String

-- What the schema refuses: a required text that is empty, and an area below 1.
unfoldable pub land_invalid : Land → Bool
land_invalid l =
    l.land_id == ""
    || l.plot_number == ""
    || l.location == ""
    || l.owner_wallet == ""
    || l.deed_hash == ""
    || l.ipfs_cid == ""
    || l.land_commitment == ""
    || l.area_commitment == ""
    || leb l.area_sqm 0

-- `LandModel.create`: the schema's checks, and two unique keys.
unfoldable pub create_land : Land → Action (Unit {0})
create_land l db =
    if land_invalid l
    then (err (validation "Land validation failed"), db)
    else elim (land_duplicate l db) [
      | some key ↦ (err (duplicate_key key), db)
      | none ↦ (ok tt, record db { lands = db.lands ++ l ∷ [] })
    ]

unfoldable pub requested_land : LandRequest → DeedRef → Land
requested_land i deed = record {
  land_id = i.land_id;
  plot_number = i.plot_number;
  location = i.location;
  area_sqm = floor i.area_sqm;
  owner_id = i.user_id;
  owner_wallet = to_lower_case i.user_wallet;
  deed_hash = deed.deed_hash;
  ipfs_cid = deed.cid;
  land_commitment = i.land_commitment;
  area_commitment = i.area_commitment;
  leaf_index = none;
  merkle_root = none;
  path_elements = [];
  path_indices = [];
  status = pending_approval;
  request_note = i.request_note;
  rejection_reason = none;
  approved_by = none;
  approved_at = none;
  for_sale = false;
  sale_price = none;
}

module _ (x : Externals) where
  unfoldable pub request_land_registration : LandRequest → Action Land
  unfolding requested_land create_land
  request_land_registration i = do
    existing ← gets (find_land i.land_id)
    guards (
        (is_some existing, conflict "A land with this ID already exists.")
        ∷ (
          not (is_finite i.area_sqm) || le_zero i.area_sqm,
          bad_request "areaSqm must be a positive number.",
        )
        ∷ (
          not (is_field_text i.land_commitment),
          bad_request "landCommitment must be a decimal field element.",
        )
        ∷ (
          not (is_field_text i.area_commitment),
          bad_request "areaCommitment must be a decimal field element.",
        )
        ∷ [])
    duplicate ← gets (find_commitment i.land_commitment)
    guards ((is_some duplicate, conflict "This commitment is already registered.") ∷ [])
    deed ← upload_deed_to_ipfs x i.deed_file
    let land = requested_land i deed
    create_land land
    modify (
        add_transaction (record {
          land_id = some i.land_id;
          from_owner = none;
          to_owner = some (to_lower_case i.user_wallet);
          transaction_type = land_requested;
          blockchain_tx_hash =
              deterministic_tx_hash x ("request:" <> i.land_id <> ":" <> i.user_wallet);
          status = "PENDING";
          detail = some "Registration request submitted; awaiting authority approval.";
          created_at = x.now;
        }))
    pure land

  abbrev pub approved : Land → ℕ → ℕ → Land
  approved land leaf_index authority_id = record land {
    leaf_index = some leaf_index;
    status = registered;
    approved_by = some authority_id;
    approved_at = some x.now;
  }

  -- `LandModel.find({ leafIndex: { $ne: null } })`, the ids
  unfoldable pub placed_ids : Db → List String
  placed_ids db =
      map (λ (l : Land). l.land_id) (filter (λ (l : Land). is_some l.leaf_index) db.lands)

  abbrev pub approval_root : MerkleSnapshot → String → ℕ → Db → MerkleRoot
  approval_root snapshot root_tx_hash created_by db = record {
    root = snapshot.root;
    leaf_count = snapshot.leaf_count;
    land_ids = placed_ids db;
    transaction_hash = some root_tx_hash;
    created_by = created_by;
    created_at = x.now;
  }

  abbrev pub approval_entry : Land → ℕ → String → Transaction
  approval_entry land leaf_index blockchain_tx_hash = record {
    land_id = some land.land_id;
    from_owner = none;
    to_owner = some land.owner_wallet;
    transaction_type = land_approved;
    blockchain_tx_hash = blockchain_tx_hash;
    status = "CONFIRMED";
    detail =
        some
          ("Approved; commitment added to registry tree at leaf " <> to_decimal leaf_index <> ".");
    created_at = x.now;
  }

  unfoldable pub approve_land : String → ℕ → Action (Option Land)
  unfolding placed_ids
  approve_land land_id authority_id = do
    land ← or_throw (← gets (find_land land_id)) (not_found "Land not found.")
    guards (
        (
          not (land.status == pending_approval),
          bad_request "Only pending requests can be approved.",
        )
        ∷ [])
    leaf_index ← gets (λ db. next_leaf_index db.lands)
    guards ((leb tree_capacity leaf_index, bad_request "Registry tree is full.") ∷ [])
    modify (save_land (approved land leaf_index authority_id))
    snapshot ← rebuild_registry_tree x
    transition ←
        prove_root_transition x (snapshot.path_for leaf_index) zero_leaf land.land_commitment
          snapshot.root
    let register_tx_hash =
        register_land_on_chain x land.land_id land.ipfs_cid (land_id_to_field x land.land_id)
    let root_tx_hash = update_root_on_chain x snapshot.root transition
    let blockchain_tx_hash = get_or_else register_tx_hash root_tx_hash
    modify λ db. add_merkle_root (approval_root snapshot root_tx_hash authority_id db) db
    modify (add_transaction (approval_entry land leaf_index blockchain_tx_hash))
    gets (find_land land_id)

  unfoldable pub reject_land : String → Option String → Action Land
  reject_land land_id reason = do
    land ← or_throw (← gets (find_land land_id)) (not_found "Land not found.")
    guards (
        (
          not (land.status == pending_approval),
          bad_request "Only pending requests can be rejected.",
        )
        ∷ [])
    let note = get_or_else reason "Rejected by authority."
    let refused = record land { status = rejected; rejection_reason = some note }
    modify (save_land refused)
    modify (
        add_transaction (record {
          land_id = some land.land_id;
          from_owner = none;
          to_owner = some land.owner_wallet;
          transaction_type = land_rejected;
          blockchain_tx_hash = deterministic_tx_hash x ("reject:" <> land.land_id);
          status = "REJECTED";
          detail = some note;
          created_at = x.now;
        }))
    pure refused

  unfoldable pub list_land_for_sale : String → String → ℕ → Action Land
  list_land_for_sale land_id sale_price user_id = do
    land ← or_throw (← gets (find_land land_id)) (not_found "Land not found.")
    guards (
        (not (land.owner_id == user_id), forbidden "Only the current owner can list this land.")
        ∷ (
          not (land.status == registered),
          bad_request "Only registered lands can be listed for sale.",
        )
        ∷ [])
    let listed = record land {
      for_sale = true;
      sale_price = some sale_price;
      status = listed_for_sale;
    }
    modify (save_land listed)
    modify (
        add_transaction (record {
          land_id = some land_id;
          from_owner = some land.owner_wallet;
          to_owner = none;
          transaction_type = list_for_sale;
          blockchain_tx_hash =
              deterministic_tx_hash x ("market-list:" <> land_id <> ":" <> sale_price);
          status = "LISTED";
          detail = none;
          created_at = x.now;
        }))
    pure listed

  unfoldable pub cancel_land_sale : String → ℕ → Action Land
  cancel_land_sale land_id user_id = do
    land ← or_throw (← gets (find_land land_id)) (not_found "Land not found.")
    guards (
        (not (land.owner_id == user_id), forbidden "Only the current owner can cancel this sale.")
        ∷ (not (land.status == listed_for_sale), bad_request "Land is not listed for sale.")
        ∷ [])
    let withdrawn = record land { for_sale = false; sale_price = none; status = registered }
    modify (save_land withdrawn)
    modify (
        add_transaction (record {
          land_id = some land_id;
          from_owner = some land.owner_wallet;
          to_owner = none;
          transaction_type = sale_cancelled;
          blockchain_tx_hash = deterministic_tx_hash x ("market-cancel:" <> land_id);
          status = "CANCELLED";
          detail = none;
          created_at = x.now;
        }))
    pure withdrawn
