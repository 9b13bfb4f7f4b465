-- ===== src/Land/Request.antt =====
-- `requestLandRegistration`: what it writes on every branch, and that it keeps the registry.
use thesis_project_land_chai.Prelude.{
  String, ◌&&◌, ◌||◌, string_eq, none, [], ◌∷◌, ◌++◌, not, ◌≡◌, ◌⊎◌, inl, inr, refl, sym, ap, ◌∙◌,
  arith, Option-cases, Bool-cases,
}
use mathlib.Core.Path.{subst}
use thesis_project_land_chai.Externals.{Externals}
use thesis_project_land_chai.Db.{LandStatus-eq, Db, find_land, find_commitment, land_duplicate}
use thesis_project_land_chai.Action.{◌>>=◌, run-cases}
use thesis_project_land_chai.Field.{is_field_text}
use thesis_project_land_chai.Ipfs.{DeedRef, upload_deed_to_ipfs, upload_deed_to_ipfs-lands}
use thesis_project_land_chai.Registry.{is_approved, tree_leaf}
use thesis_project_land_chai.Registry.Invariant.{WellPlaced, IsRegistry}
use thesis_project_land_chai.Registry.Preservation.{append-IsRegistry}
use thesis_project_land_chai.Land.{
  LandRequest, requested_land, land_invalid, create_land, request_land_registration, is_finite,
  le_zero,
}

module _ (x : Externals) (i : LandRequest) (db : Db) where
  -- A request changes no stored land; it adds at most one, in the state of a pending request.
  pub request-lands :
      ((request_land_registration x i db).1.lands ≡ db.lands)
      ⊎ ((deed : DeedRef) × ((request_land_registration x i db).1.lands
            ≡ db.lands ++ requested_land i deed ∷ []))
  unfolding request_land_registration ◌>>=◌ create_land
  request-lands = elim (Option-cases (find_land i.land_id db)) [
    | inr (l, found) ↦ inl (ground (arith, found))
    | inl new ↦ elim (Bool-cases (not (is_finite i.area_sqm) || le_zero i.area_sqm)) [
      | inl bad ↦ inl (ground (arith, new, bad))
      | inr area ↦
          elim (Bool-cases (is_field_text i.land_commitment && is_field_text i.area_commitment)) [
            | inr bad ↦ inl (ground (arith, new, area, bad))
            | inl fields ↦ elim (Option-cases (find_commitment i.land_commitment db)) [
              | inr (l, used) ↦ inl (ground (arith, new, area, fields, used))
              | inl unused ↦ elim (run-cases (upload_deed_to_ipfs x i.deed_file db)) [
                | inr (e, mid, failed) ↦
                    let keeps : mid.lands ≡ db.lands =
                      ap (λ r. r.1.lands) (sym failed)
                      ∙ upload_deed_to_ipfs-lands x i.deed_file db in
                    inl (ground (arith, new, area, fields, unused, failed, keeps))
                | inl (deed, mid, uploaded) ↦
                    let keeps : mid.lands ≡ db.lands =
                      ap (λ r. r.1.lands) (sym uploaded)
                      ∙ upload_deed_to_ipfs-lands x i.deed_file db in
                    elim (Bool-cases (land_invalid (requested_land i deed))) [
                      | inl bad ↦
                          inl (ground (arith, new, area, fields, unused, uploaded, keeps, bad))
                      | inr fine ↦
                          elim (Option-cases (land_duplicate (requested_land i deed) mid)) [
                            | inr (key, twice) ↦ inl (
                                ground
                                  (arith, new, area, fields, unused, uploaded, keeps, fine, twice))
                            | inl once ↦ inr (
                              deed,
                              ground
                                  (arith, new, area, fields, unused, uploaded, keeps, fine, once),
                            )
                          ]
                    ]
              ]
            ]
          ]
    ]
  ]

requested_land-tree_leaf :
    (i : LandRequest) (deed : DeedRef) → tree_leaf (requested_land i deed) ≡ none
unfolding tree_leaf is_approved requested_land
requested_land-tree_leaf i deed = refl

requested_land-WellPlaced : (i : LandRequest) (deed : DeedRef) → WellPlaced (requested_land i deed)
unfolding is_approved requested_land LandStatus-eq
requested_land-WellPlaced i deed = (refl, refl)

-- A registration request, whatever becomes of it, keeps the registry's invariant.
pub request_land_registration-IsRegistry :
    (x : Externals) (hash : String → String → String) (i : LandRequest) (db : Db)
    → IsRegistry hash db.lands
    → IsRegistry hash (request_land_registration x i db).1.lands
request_land_registration-IsRegistry x hash i db v = elim (request-lands x i db) [
  | inl same ↦ subst (IsRegistry hash) (sym same) v
  | inr (deed, e) ↦ subst (IsRegistry hash) (sym e) (
      append-IsRegistry hash (requested_land i deed) db.lands (requested_land-tree_leaf i deed)
        (requested_land-WellPlaced i deed) v)
]
