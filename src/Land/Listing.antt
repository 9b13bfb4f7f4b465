-- ===== src/Land/Listing.antt =====
-- The queries of land.service.ts: which lands a caller sees, and the counts of the dashboard.
use mathlib.Core.List.{reverse}
use thesis_project_land_chai.Prelude.{
  ℕ, String, ◌&&◌, ◌==◌, string_eq, nat_eq, Option, none, some, List, filter, length, not,
  if◌then◌else◌,
}
use thesis_project_land_chai.Errors.{not_found, Result, ok, err}
use thesis_project_land_chai.Db.{
  Land, LandStatus-eq, pending_approval, listed_for_sale, Role, Role-eq, authority, Db, find_land,
  latest_root,
}
use thesis_project_land_chai.Registry.{is_approved}

pub data Scope : Type 0 where
  mine market everything : Scope

-- Authority view, oldest first.
unfoldable pub list_pending_requests : Db → List Land
list_pending_requests db = filter (λ (l : Land). l.status == pending_approval) db.lands

-- The market is sorted by `updatedAt`, which the model does not hold; its order stands for it.
unfoldable pub list_lands : Scope → ℕ → Role → Db → List Land
list_lands mine user_id role db = reverse (filter (λ (l : Land). l.owner_id == user_id) db.lands)
list_lands market user_id role db = reverse (
    filter (λ (l : Land). l.status == listed_for_sale && l.for_sale && not (l.owner_id == user_id))
      db.lands)
list_lands everything user_id role db =
    if not (role == authority)
    then reverse (filter (λ (l : Land). is_approved l.status) db.lands)
    else reverse db.lands

unfoldable pub get_land : String → Db → Result Land
get_land land_id db = elim (find_land land_id db) [
  | none ↦ err (not_found "Land not found.")
  | some l ↦ ok l
]

pub record RegistryStats : Type 0 where
  pub pending : ℕ
  pub registered : ℕ
  pub listed : ℕ
  pub users : ℕ
  pub latest_root : Option String

unfoldable pub registry_stats : Db → RegistryStats
registry_stats db = record {
  pending = length (filter (λ (l : Land). l.status == pending_approval) db.lands);
  registered = length (filter (λ (l : Land). is_approved l.status) db.lands);
  listed = length (filter (λ (l : Land). l.status == listed_for_sale) db.lands);
  users = length db.users;
  latest_root = elim (latest_root db) [ none ↦ none | some r ↦ some r.root ];
}
