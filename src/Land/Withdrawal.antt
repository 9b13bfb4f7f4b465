-- ===== src/Land/Withdrawal.antt =====
-- Listing a land for sale and withdrawing it again.
use thesis_project_land_chai.Prelude.{
  String, false, string_eq, nat_eq, none, some, List, [], ◌∷◌, find, find_found, ◌≡◌, refl, sym, ap,
  ◌∙◌, arith,
}
use mathlib.Core.Path.{ap₂, subst}
use thesis_project_land_chai.Errors.{ok}
use thesis_project_land_chai.Externals.{Externals}
use thesis_project_land_chai.Db.{
  Land, LandStatus-eq, registered, listed_for_sale, Db, find_land, replace_land,
}
use thesis_project_land_chai.Action.{◌>>=◌}
use thesis_project_land_chai.Registry.Leaves.{has_id, has_id-eq}
use thesis_project_land_chai.Registry.Steps.{find-replace}
use thesis_project_land_chai.Land.{list_land_for_sale, cancel_land_sale}
use thesis_project_land_chai.Land.Sale.{listed, withdrawn}

-- Putting back the stored land undoes a replacement.
replace-replace :
    (l l' : Land) (ls : List Land)
    → l'.land_id ≡ l.land_id
    → find (has_id l.land_id) ls ≡ some l
    → replace_land l (replace_land l' ls) ≡ ls
unfolding replace_land
replace-replace l l' [] same h = cc
replace-replace l l' (m ∷ ms) same h = ground (arith, replace-replace l l' ms)

list_run :
    (x : Externals) (db : Db) (land_id price : String) {l : Land}
    → find_land land_id db ≡ some l
    → l.status ≡ registered
    → ((list_land_for_sale x land_id price l.owner_id db).0 ≡ ok (listed price l))
      × ((list_land_for_sale x land_id price l.owner_id db).1.lands
          ≡ replace_land (listed price l) db.lands)
unfolding list_land_for_sale ◌>>=◌ LandStatus-eq
list_run x db land_id price found at = (ground (arith, found, at), ground (arith, found, at))

cancel_run :
    (x : Externals) (db : Db) (land_id : String) {l : Land}
    → find_land land_id db ≡ some l
    → l.status ≡ listed_for_sale
    → ((cancel_land_sale x land_id l.owner_id db).0 ≡ ok (withdrawn l))
      × ((cancel_land_sale x land_id l.owner_id db).1.lands ≡ replace_land (withdrawn l) db.lands)
unfolding cancel_land_sale ◌>>=◌ LandStatus-eq
cancel_run x db land_id found at = (ground (arith, found, at), ground (arith, found, at))

withdrawn-listed :
    (l : Land) (price : String)
    → l.status ≡ registered
    → l.for_sale ≡ false
    → l.sale_price ≡ none
    → withdrawn (listed price l) ≡ l
withdrawn-listed l price at off unpriced =
    λ k. record l { status = (sym at) k; for_sale = (sym off) k; sale_price = (sym unpriced) k }

-- Where its owner lists a registered land that is off sale and without a price, and withdraws it
-- again, the withdrawal returns the land as it was, and all lands are stored as they were.
pub cancel_land_sale-list_land_for_sale :
    (x : Externals) (db : Db) (land_id price : String) {l : Land}
    → find_land land_id db ≡ some l
    → l.status ≡ registered
    → l.for_sale ≡ false
    → l.sale_price ≡ none
    → let mid = (list_land_for_sale x land_id price l.owner_id db).1 in
      ((cancel_land_sale x land_id l.owner_id mid).0 ≡ ok l)
      × ((cancel_land_sale x land_id l.owner_id mid).1.lands ≡ db.lands)
unfolding find_land
cancel_land_sale-list_land_for_sale x db land_id price {l} found at off unpriced =
    let id : l.land_id ≡ land_id =
      has_id-eq land_id l (find_found (has_id land_id) db.lands found) in
    let stored : find (has_id l.land_id) db.lands ≡ some l =
      subst (λ k. find (has_id k) db.lands ≡ some l) (sym id) found in
    let (lists, lands) = list_run x db land_id price found at in
    let mid = (list_land_for_sale x land_id price l.owner_id db).1 in
    let found' : find_land land_id mid ≡ some (listed price l) =
      ap (find (has_id land_id)) lands
      ∙ subst
          (λ k. find (has_id k) (replace_land (listed price l) db.lands) ≡ some (listed price l)) id
          (find-replace l (listed price l) db.lands stored) in
    let (cancels, lands') = cancel_run x mid land_id found' refl in
    let back = withdrawn-listed l price at off unpriced in
    (
      cancels ∙ ap ok back,
      lands'
          ∙ ap₂ replace_land back lands
          ∙ replace-replace l (listed price l) db.lands refl stored,
    )
