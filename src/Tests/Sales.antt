-- ===== src/Tests/Sales.antt =====
-- Examples: a land is listed and withdrawn, and an approval whose prover throws.
use thesis_project_land_chai.Prelude.{◌<◌, some, [], ◌∷◌, ◌≡◌, string_eq, refl, arith}
use thesis_project_land_chai.Errors.{Error, plain, ok, err}
use thesis_project_land_chai.Externals.{TransitionInput, Externals}
use thesis_project_land_chai.Zk.{prove_with_circuit}
use thesis_project_land_chai.Merkle.{tree_capacity}
use thesis_project_land_chai.Db.{Land, LandStatus-eq, registered, Db, find_land}
use thesis_project_land_chai.Registry.{tree_leaf, is_approved, next_leaf_index}
use thesis_project_land_chai.Registry.Invariant.{IsPlaced}
use thesis_project_land_chai.Land.{approve_land, list_land_for_sale, cancel_land_sale}
use thesis_project_land_chai.Land.Unproved.{approve_land-unproved}
use thesis_project_land_chai.Land.Withdrawal.{cancel_land_sale-list_land_for_sale}
use thesis_project_land_chai.Tests.Toy.{toy, plot, registered_plot, pending_db}

-- A prover that throws.
abbrev no_prover : Error
no_prover = plain "prover failed"

abbrev unready : Externals
unready = record toy { full_prove = λ c t. err no_prover }

unready_throws : (t : TransitionInput) → prove_with_circuit unready t ≡ err no_prover
unfolding prove_with_circuit
unready_throws t = refl

waiting-IsPlaced : IsPlaced pending_db.lands
unfolding tree_leaf is_approved LandStatus-eq
waiting-IsPlaced = record {
  below = (λ i e. ground arith, tt);
  distinct = (λ i e. tt, tt);
  placed = ((refl, refl), tt);
}

found_waiting : find_land "L1" pending_db ≡ some plot
unfolding find_land string_eq
found_waiting = refl

has_leaf : next_leaf_index pending_db.lands < tree_capacity
unfolding next_leaf_index tree_leaf is_approved tree_capacity
has_leaf = omega arith

approve_land-unproved_example :
    (stored : Land) × (db' : Db) × (approve_land unready "L1" 9 pending_db ≡ (err no_prover, db'))
    × (db'.merkle_roots ≡ [])
    × (find_land "L1" db' ≡ some stored)
    × (stored.status ≡ registered)
    × (stored.leaf_index ≡ some (next_leaf_index pending_db.lands))
approve_land-unproved_example =
    approve_land-unproved unready pending_db "L1" 9 waiting-IsPlaced found_waiting refl has_leaf
      no_prover unready_throws

abbrev owned_db : Db
owned_db = record pending_db { lands = registered_plot ∷ [] }

found_owned : find_land "L1" owned_db ≡ some registered_plot
unfolding find_land string_eq
found_owned = refl

cancel_land_sale-list_land_for_sale_example :
    ((cancel_land_sale toy "L1" 1 (list_land_for_sale toy "L1" "900" 1 owned_db).1).0
      ≡ ok registered_plot)
    × ((cancel_land_sale toy "L1" 1 (list_land_for_sale toy "L1" "900" 1 owned_db).1).1.lands
        ≡ owned_db.lands)
cancel_land_sale-list_land_for_sale_example =
    cancel_land_sale-list_land_for_sale toy owned_db "L1" "900" found_owned refl refl refl
