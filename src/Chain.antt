-- ===== src/Chain.antt =====
-- apps/server/src/services/blockchain.service.ts: the calls of the LandRegistry contract, and
-- what the server records where there is no chain or the call fails.
pub mod Settled
use Prim.Native.String.{[]}
use text.Mathlib.Text.{starts_with}
use thesis_project_land_chai.Prelude.{
  ℕ, String, Bool, true, false, ◌<>◌, Option, none, some, List, [], ◌∷◌, if◌then◌else◌,
}
use thesis_project_land_chai.Prelude.Text.{is_digits, big_int}
use thesis_project_land_chai.Errors.{
  Error, app_error, duplicate_key, validation, plain, bad_request, Result, ok, err, ◌>>=◌,
}
use thesis_project_land_chai.Json.{Json, get_field, get_item}
use thesis_project_land_chai.Externals.{ProofArgs, Registry, Externals}
use thesis_project_land_chai.Field.{hex32, deterministic_tx_hash}

-- `RootTransition`: the proof, and [leafBefore, leafAfter, oldRoot, newRoot].
pub record RootTransition : Type 0 where
  pub proof : Json
  pub public_signals : List String

-- `error.message`
abbrev pub error_message : Error → String
error_message (app_error message status_code) = message
error_message (duplicate_key field) = "E11000 duplicate key error: " <> field
error_message (validation message) = message
error_message (plain message) = message

-- `o[i]`, which throws where `o` is undefined.
abbrev type_error : Error
type_error = plain "Cannot read properties of undefined"

abbrev or_type_error : Option Json → Result Json
or_type_error none = err type_error
or_type_error (some v) = ok v

field_or : String → Json → Result Json
field_or k v = or_type_error (get_field k v)

item_or : ℕ → Json → Result Json
item_or i v = or_type_error (get_item i v)

-- The coordinates of the G2 point are swapped for the contract.
unfoldable pub to_proof_args : Json → Result ProofArgs
unfolding field_or item_or
to_proof_args proof = do
  a ← field_or "pi_a" proof
  a0 ← item_or 0 a
  a1 ← item_or 1 a
  b ← field_or "pi_b" proof
  b0 ← item_or 0 b
  b1 ← item_or 1 b
  b01 ← item_or 1 b0
  b00 ← item_or 0 b0
  b11 ← item_or 1 b1
  b10 ← item_or 0 b1
  c ← field_or "pi_c" proof
  c0 ← item_or 0 c
  c1 ← item_or 1 c
  ok (record { a = a0 ∷ a1 ∷ []; b = (b01 ∷ b00 ∷ []) ∷ (b11 ∷ b10 ∷ []) ∷ []; c = c0 ∷ c1 ∷ [] })

-- `BigInt` throws on a text that is no number.
unfoldable pub to_bytes32 : String → Result String
unfolding hex32 is_digits big_int
to_bytes32 value =
    if starts_with value "0x"
    then ok value
    else if is_digits value
    then ok (hex32 (big_int value))
    else err (plain "Cannot convert to a BigInt")

-- `values.join(":")`
join : List String → String
join [] = ""
join (s ∷ []) = s
join (s ∷ t ∷ rest) = s <> ":" <> join (t ∷ rest)

module _ (x : Externals) where
  abbrev or_fallback : Result String → String → String
  or_fallback (ok hash) fallback = hash
  or_fallback (err e) fallback = fallback

  unfoldable pub update_root_on_chain : String → RootTransition → String
  unfolding to_proof_args to_bytes32 deterministic_tx_hash
  update_root_on_chain root transition =
      let fallback = deterministic_tx_hash x ("root:" <> root) in
      elim x.registry [
        | none ↦ fallback
        | some registry ↦
            or_fallback
              (to_bytes32 root >>= λ bytes. to_proof_args transition.proof >>= λ args.
                registry.update_merkle_root bytes args transition.public_signals)
              fallback
      ]

  abbrev register_new : Registry → String → String → String → Bool → Result (Option String)
  register_new registry land_id cid land_id_field true = ok none
  register_new registry land_id cid land_id_field false =
      registry.register_land (x.keccak_id land_id) cid land_id_field >>= λ hash. ok (some hash)

  abbrev or_some_fallback : Result (Option String) → String → Option String
  or_some_fallback (ok o) fallback = o
  or_some_fallback (err e) fallback = some fallback

  -- `none` is the `null` of a land that has a record on the chain.
  unfoldable pub register_land_on_chain : String → String → String → Option String
  unfolding deterministic_tx_hash
  register_land_on_chain land_id cid land_id_field =
      let fallback = deterministic_tx_hash x ("register:" <> land_id) in
      elim x.registry [
        | none ↦ some fallback
        | some registry ↦
            or_some_fallback
              (registry.lands_exists (x.keccak_id land_id)
                >>= register_new registry land_id cid land_id_field)
              fallback
      ]

  unfoldable pub to_address : String → Result String
  to_address wallet =
      if x.is_address wallet
      then ok (x.get_address wallet)
      else err (
          plain (
            "Invalid wallet address \"" <> wallet
            <> "\". A valid 0x-prefixed 40-hex Ethereum address is required."))

  abbrev pub or_rejected : Result String → Result String
  or_rejected (ok hash) = ok hash
  or_rejected (err e) = err (bad_request ("On-chain transfer was rejected: " <> error_message e))

  unfoldable pub transfer_land_on_chain :
      String → String → String → Json → List String → Result String
  unfolding to_proof_args to_address join deterministic_tx_hash
  transfer_land_on_chain land_id buyer_wallet challenge_salt proof public_signals =
      elim x.registry [
        | none ↦ ok (
            deterministic_tx_hash x
              ("transfer:" <> land_id <> ":" <> buyer_wallet <> ":" <> join public_signals))
        | some registry ↦ or_rejected (
            to_proof_args proof >>= λ args. to_address buyer_wallet >>= λ buyer.
            registry.verify_and_transfer (x.keccak_id land_id) buyer challenge_salt args
              public_signals)
      ]
