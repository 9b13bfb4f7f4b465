-- ===== src/Chain/Settled.antt =====
-- When `transferLandOnChain` returns a hash.
use thesis_project_land_chai.Prelude.{String, none, some, List, ◌≡◌, ◌⊎◌, inl, inr, Option-cases}
use thesis_project_land_chai.Errors.{Result, ok, err, >>=-eq-ok}
use thesis_project_land_chai.Json.{Json}
use thesis_project_land_chai.Externals.{ProofArgs, Registry, Externals}
use thesis_project_land_chai.Chain.{to_proof_args, to_address, or_rejected, transfer_land_on_chain}

module _ (x : Externals) (land_id buyer_wallet salt : String) (proof : Json) (signals : List String)
    (hash : String) where
  -- The contract `r` itself answered the call with the hash.
  abbrev pub Accepts : Registry → Type 0
  Accepts r =
      (args : ProofArgs) × (buyer : String) × (to_proof_args proof ≡ ok args)
      × (to_address x buyer_wallet ≡ ok buyer)
      × (r.verify_and_transfer (x.keccak_id land_id) buyer salt args signals ≡ ok hash)

  -- No chain is configured, or the contract took the transfer.
  abbrev pub IsSettled : Type 0
  IsSettled = (x.registry ≡ none) ⊎ ((r : Registry) × (x.registry ≡ some r) × Accepts r)

  or_rejected-ok : (m : Result String) → or_rejected x m ≡ ok hash → m ≡ ok hash
  or_rejected-ok (ok a) h = h
  or_rejected-ok (err e) h = cc

  call-ok :
      (r : Registry)
      → x.registry ≡ some r
      → transfer_land_on_chain x land_id buyer_wallet salt proof signals ≡ ok hash
      → Accepts r
  unfolding transfer_land_on_chain
  call-ok r online h =
      let sent = or_rejected-ok _ (rw online at h) in
      let (args, has_args, sent') = >>=-eq-ok (to_proof_args proof) _ sent in
      let (buyer, has_buyer, taken) = >>=-eq-ok (to_address x buyer_wallet) _ sent' in
      (args, buyer, has_args, has_buyer, taken)

  pub transfer_land_on_chain-IsSettled :
      transfer_land_on_chain x land_id buyer_wallet salt proof signals ≡ ok hash → IsSettled
  transfer_land_on_chain-IsSettled h = elim (Option-cases x.registry) [
    | inl offline ↦ inl offline
    | inr (r, online) ↦ inr (r, online, call-ok r online h)
  ]
