-- ===== src/Tests/Online.antt =====
-- Examples: a land is bought where a contract is configured.
use thesis_project_land_chai.Prelude.{
  true, Option, some, [], ◌∷◌, ◌≡◌, option_eq, string_eq, nat_eq, refl,
}
use thesis_project_land_chai.Prelude.Text.{to_lower_case}
use thesis_project_land_chai.Errors.{ok}
use thesis_project_land_chai.Json.{
  Json, Items, str, arr, obj, nil, cons, end, field, null, truthy, get_field, get_item, field_of,
}
use thesis_project_land_chai.Externals.{Registry, Externals}
use thesis_project_land_chai.Db.{
  Land, LandStatus-eq, Proof, ChallengeStatus-eq, Transaction, Db, find_land, find_commitment,
  find_proof, latest_root,
}
use thesis_project_land_chai.Action.{◌>>=◌}
use thesis_project_land_chai.Field.{is_field_text, land_id_to_field, buyer_bound_challenge}
use thesis_project_land_chai.Zk.{verify_with_circuit, prove_with_circuit}
use thesis_project_land_chai.Chain.{to_proof_args, to_address, transfer_land_on_chain}
use thesis_project_land_chai.Registry.Steps.{ProvesTransitions}
use thesis_project_land_chai.Transfer.{
  Cleared, latest_verified, price_changed, check_land, check_challenge, check_proof,
  buy_listed_land,
}
use thesis_project_land_chai.Transfer.Safety.{IsAuthorised, buy_listed_land-IsAuthorised}
use thesis_project_land_chai.Transfer.Completion.{buy_listed_land-IsSold}
use thesis_project_land_chai.Tests.Toy.{toy, plot_on_sale, market_db, seller_proof, order, cleared}
use thesis_project_land_chai.Tests.Market.{market-IsPlaced}

-- A contract that takes every transfer.
abbrev contract : Registry
contract = record {
  update_merkle_root = λ root args signals. ok "0x0a";
  lands_exists = λ id. ok true;
  register_land = λ id cid land_field. ok "0x0b";
  verify_and_transfer = λ id buyer salt args signals. ok "0x0c";
}

abbrev online : Externals
online = record toy { registry = some contract }

abbrev point : Items
point = cons (str "1") (cons (str "2") nil)

abbrev online_groth16 : Json
online_groth16 = obj (
    field "pi_a" (arr point)
      (field "pi_b" (arr (cons (arr point) (cons (arr point) nil))) (field "pi_c" (arr point) end)))

abbrev online_proof : Proof
online_proof = record seller_proof { proof = online_groth16 }

abbrev online_db : Db
online_db = record market_db { proofs = online_proof ∷ [] }

abbrev online_cleared : Cleared
online_cleared = record cleared { proof = online_proof }

online_proves : ProvesTransitions online
unfolding prove_with_circuit
online_proves = record { proves = λ t e e'. ((null, []), refl) }

land_passes : check_land online order online_db ≡ (ok plot_on_sale, online_db)
unfolding check_land ◌>>=◌ find_land find_commitment LandStatus-eq is_field_text string_eq nat_eq
land_passes = refl

challenge_passes :
    check_challenge online order plot_on_sale online_db ≡ (ok online_cleared, online_db)
unfolding check_challenge ◌>>=◌ latest_verified find_proof ChallengeStatus-eq string_eq nat_eq
    to_lower_case truthy
challenge_passes = refl

proof_passes : check_proof online order online_cleared online_db ≡ (ok tt, online_db)
unfolding check_proof ◌>>=◌ land_id_to_field buyer_bound_challenge verify_with_circuit latest_root
    price_changed option_eq string_eq
proof_passes = refl

chain_passes :
    transfer_land_on_chain online "L1" "0xb" "s" online_groth16 seller_proof.public_signals
    ≡ ok "0x0c"
unfolding transfer_land_on_chain to_proof_args to_address get_field field_of get_item string_eq
chain_passes = refl

online_run :
    (result : Option Land × Transaction) × (db' : Db) × (buy_listed_land online order online_db
      ≡ (ok result, db'))
online_run =
    let (result, db', run, holds) =
      buy_listed_land-IsSold online order online_db online_cleared "0x0c" market-IsPlaced
        online_proves land_passes challenge_passes proof_passes chain_passes in
    (result, db', run)

buy_listed_land-IsAuthorised_example : IsAuthorised online order online_db
buy_listed_land-IsAuthorised_example =
    buy_listed_land-IsAuthorised online order online_db {result = online_run.0} {db' = online_run.1}
      online_run.2
