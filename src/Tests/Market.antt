-- ===== src/Tests/Market.antt =====
-- Examples: a challenge is verified, and its land is bought.
use thesis_project_land_chai.Prelude.{
  String, true, Option, some, [], ◌≡◌, ◌⊎◌, ◌↔◌, option_eq, string_eq, nat_eq, refl, arith,
}
use thesis_project_land_chai.Prelude.Text.{to_lower_case}
use thesis_project_land_chai.Errors.{ok}
use thesis_project_land_chai.Json.{null, truthy}
use thesis_project_land_chai.Merkle.{tree_capacity}
use thesis_project_land_chai.Db.{
  Land, LandStatus-eq, Challenge, ChallengeStatus-eq, verified, failed, Transaction, Db,
  find_challenge, find_land, find_commitment, find_proof, latest_root,
}
use thesis_project_land_chai.Action.{◌>>=◌}
use thesis_project_land_chai.Field.{is_field_text, land_id_to_field, buyer_bound_challenge}
use thesis_project_land_chai.Zk.{verify_with_circuit, prove_with_circuit}
use thesis_project_land_chai.Chain.{transfer_land_on_chain}
use thesis_project_land_chai.Registry.{tree_leaf, is_approved}
use thesis_project_land_chai.Registry.Invariant.{IsPlaced}
use thesis_project_land_chai.Registry.Steps.{ProvesTransitions}
use thesis_project_land_chai.Challenge.{ChallengeInput, create_challenge}
use thesis_project_land_chai.Challenge.Opening.{OneOpen, create_challenge-OneOpen}
use thesis_project_land_chai.Challenge.Verify.{verify_challenge}
use thesis_project_land_chai.Challenge.Verdict.{IsAuthentic, verify_challenge-verdict}
use thesis_project_land_chai.Transfer.{
  latest_verified, price_changed, check_land, check_challenge, check_proof, buy_listed_land,
}
use thesis_project_land_chai.Transfer.Completion.{IsSold, buy_listed_land-IsSold}
use thesis_project_land_chai.Tests.Toy.{
  toy, plot_on_sale, answered, answered_db, market_db, seller_proof, order, cleared,
}

toy_proves : ProvesTransitions toy
unfolding prove_with_circuit
toy_proves = record { proves = λ t e e'. ((null, []), refl) }

pub market-IsPlaced : IsPlaced market_db.lands
unfolding tree_leaf is_approved tree_capacity LandStatus-eq
market-IsPlaced = record {
  below = (λ i e. ground arith, tt);
  distinct = (λ i e. tt, tt);
  placed = ((refl, refl), tt);
}

land_passes : check_land toy order market_db ≡ (ok plot_on_sale, market_db)
unfolding check_land ◌>>=◌ find_land find_commitment LandStatus-eq is_field_text string_eq nat_eq
land_passes = refl

challenge_passes : check_challenge toy order plot_on_sale market_db ≡ (ok cleared, market_db)
unfolding check_challenge ◌>>=◌ latest_verified find_proof ChallengeStatus-eq string_eq nat_eq
    to_lower_case truthy
challenge_passes = refl

proof_passes : check_proof toy order cleared market_db ≡ (ok tt, market_db)
unfolding check_proof ◌>>=◌ land_id_to_field buyer_bound_challenge verify_with_circuit latest_root
    price_changed option_eq string_eq
proof_passes = refl

abbrev sale_hash : String
sale_hash = "0x000000000000000000000000000000000000000000000000000000000000001f"

chain_passes :
    transfer_land_on_chain toy "L1" "0xb" "s" seller_proof.proof seller_proof.public_signals
    ≡ ok sale_hash
unfolding transfer_land_on_chain
chain_passes = refl

buy_listed_land-IsSold_example :
    (result : Option Land × Transaction) × (db' : Db) × (buy_listed_land toy order market_db
      ≡ (ok result, db'))
    × IsSold toy order market_db cleared result db'
buy_listed_land-IsSold_example =
    buy_listed_land-IsSold toy order market_db cleared sale_hash market-IsPlaced toy_proves
      land_passes challenge_passes proof_passes chain_passes

authentic_input :
    verify_with_circuit toy seller_proof.circuit seller_proof.proof seller_proof.public_signals
    ≡ ok true
unfolding verify_with_circuit
authentic_input = refl

found_answered : find_challenge 3 answered_db ≡ some answered
unfolding find_challenge nat_eq
found_answered = refl

found_seller_proof : find_proof 5 answered_db ≡ some seller_proof
unfolding find_proof nat_eq
found_seller_proof = refl

found_plot_on_sale : find_land "L1" answered_db ≡ some plot_on_sale
unfolding find_land string_eq
found_plot_on_sale = refl

verify_challenge-verdict_example :
    (c' : Challenge) × ((verify_challenge toy 3 2 answered_db).0 ≡ ok (some c'))
    × (find_challenge 3 (verify_challenge toy 3 2 answered_db).1 ≡ some c')
    × ((c'.status ≡ verified)
        ↔ IsAuthentic toy answered plot_on_sale seller_proof.public_signals true)
    × ((c'.status ≡ verified) ⊎ (c'.status ≡ failed))
verify_challenge-verdict_example =
    verify_challenge-verdict toy answered_db 3 2 found_answered refl refl 5 refl found_seller_proof
      found_plot_on_sale authentic_input

abbrev inquiry : ChallengeInput
inquiry = record {
  buyer_id = 4;
  buyer_wallet = "0xD";
  land_id = "L1";
  message = some "Is it yours?";
}

create_challenge-OneOpen_example : OneOpen (create_challenge toy inquiry answered_db).1.challenges
create_challenge-OneOpen_example = create_challenge-OneOpen toy inquiry answered_db (λ h. tt, tt)
