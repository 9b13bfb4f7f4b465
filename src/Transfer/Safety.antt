-- ===== src/Transfer/Safety.antt =====
-- A purchase that goes through has passed every check.
use thesis_project_land_chai.Prelude.{
  String, true, false, string_eq, nat_eq, Option, none, some, get_elem?, ◌≡◌, ◌≢◌, inl, inr, sym,
  ap, ◌∙◌, arith, Option-cases,
}
use thesis_project_land_chai.Prelude.Text.{to_lower_case}
use mathlib.Core.Path.{subst}
use thesis_project_land_chai.Errors.{ok, Result-cases}
use thesis_project_land_chai.Externals.{Externals, challenge_proof}
use thesis_project_land_chai.Field.{is_field_text, land_id_to_field, buyer_bound_challenge}
use thesis_project_land_chai.Db.{
  Land, LandStatus-eq, listed_for_sale, Challenge, ChallengeStatus-eq, Proof, MerkleRoot,
  Transaction, Db, find_land, find_commitment, latest_root,
}
use thesis_project_land_chai.Action.{Action, lift, ◌>>=◌, ◌>>◌, >>=-eq-ok}
use thesis_project_land_chai.Zk.{verify_with_circuit}
use thesis_project_land_chai.Chain.{transfer_land_on_chain}
use thesis_project_land_chai.Chain.Settled.{IsSettled, transfer_land_on_chain-IsSettled}
use thesis_project_land_chai.Transfer.{
  Purchase, Cleared, latest_verified, usable_proof, price_changed, check_land, check_challenge,
  check_proof, complete_purchase, buy_listed_land,
}

module _ (x : Externals) (i : Purchase) (db : Db) where
  pub check_land-ok :
      {land : Land} {mid : Db}
      → check_land x i db ≡ (ok land, mid)
      → (mid ≡ db)
        × (find_land i.land_id db ≡ some land)
        × (land.for_sale ≡ true)
        × (land.status ≡ listed_for_sale)
        × (land.owner_id ≢ i.buyer_id)
        × (is_field_text i.new_land_commitment ≡ true)
        × (is_field_text i.new_area_commitment ≡ true)
        × (i.new_land_commitment ≢ land.land_commitment)
        × (find_commitment i.new_land_commitment db ≡ none)
  unfolding check_land ◌>>=◌ LandStatus-eq
  check_land-ok {land} h = ground (arith, h)

  pub check_challenge-ok :
      (land : Land) {cl : Cleared} {mid : Db}
      → check_challenge x i land db ≡ (ok cl, mid)
      → (mid ≡ db)
        × (cl.land ≡ land)
        × (latest_verified i.land_id i.buyer_id db.challenges none ≡ some cl.challenge)
        × (cl.challenge.buyer_wallet ≡ to_lower_case i.buyer_wallet)
        × (cl.challenge.nonce_salt ≡ some cl.salt)
        × (usable_proof cl.challenge.proof_id db ≡ some cl.proof)
  unfolding check_challenge ◌>>=◌
  check_challenge-ok land {cl} h = ground (arith, h)

  pub check_proof-ok :
      (cl : Cleared) {u : Unit {0}} {mid : Db}
      → check_proof x i cl db ≡ (ok u, mid)
      → (mid ≡ db)
        × (cl.proof.used_for_transfer_at ≡ none)
        × (get_elem? cl.proof.public_signals 1 ≡ some (land_id_to_field x i.land_id))
        × ((r : MerkleRoot) × (latest_root db ≡ some r)
            × (get_elem? cl.proof.public_signals 2 ≡ some r.root))
        × ((nonce : String) × (buyer_bound_challenge x i.buyer_wallet cl.salt ≡ ok nonce)
            × (get_elem? cl.proof.public_signals 3 ≡ some nonce))
        × (verify_with_circuit x challenge_proof cl.proof.proof cl.proof.public_signals ≡ ok true)
        × (price_changed cl.challenge.agreed_price cl.land.sale_price ≡ false)
  unfolding check_proof ◌>>=◌
  check_proof-ok cl h = elim (Option-cases (latest_root db)) [
    | inl unanchored ↦ absurd (ground (arith, h, unanchored))
    | inr (r, anchored) ↦ elim (Result-cases (buyer_bound_challenge x i.buyer_wallet cl.salt)) [
      | inr (e, unbound) ↦ absurd (ground (arith, h, anchored, unbound))
      | inl (nonce, bound) ↦
          elim (Result-cases
            (verify_with_circuit x challenge_proof cl.proof.proof cl.proof.public_signals)) [
              | inr (e, unverified) ↦ absurd (ground (arith, h, anchored, bound, unverified))
              | inl (b, verifies) ↦ (
                ground (arith, h, anchored, bound, verifies),
                ground (arith, h, anchored, bound, verifies),
                ground (arith, h, anchored, bound, verifies),
                (r, anchored, ground (arith, h, anchored, bound, verifies)),
                (nonce, bound, ground (arith, h, anchored, bound, verifies)),
                ground (arith, h, anchored, bound, verifies),
                ground (arith, h, anchored, bound, verifies),
              )
            ]
    ]
  ]

  -- What a purchase that went through had to satisfy.
  pub record IsAuthorised : Type 0 where
    pub land : Land
    pub found : find_land i.land_id db ≡ some land
    pub on_sale : (land.for_sale ≡ true) × (land.status ≡ listed_for_sale)
    pub other_owner : land.owner_id ≢ i.buyer_id
    pub fields :
        (is_field_text i.new_land_commitment ≡ true) × (is_field_text i.new_area_commitment ≡ true)
    pub unused : find_commitment i.new_land_commitment db ≡ none
    pub challenge : Challenge
    pub has_verified : latest_verified i.land_id i.buyer_id db.challenges none ≡ some challenge
    pub same_wallet : challenge.buyer_wallet ≡ to_lower_case i.buyer_wallet
    pub salt : String
    pub has_salt : challenge.nonce_salt ≡ some salt
    pub proof : Proof
    pub has_proof : usable_proof challenge.proof_id db ≡ some proof
    pub unspent : proof.used_for_transfer_at ≡ none
    pub this_land : get_elem? proof.public_signals 1 ≡ some (land_id_to_field x i.land_id)
    pub root : MerkleRoot
    pub is_latest : latest_root db ≡ some root
    pub current : get_elem? proof.public_signals 2 ≡ some root.root
    pub nonce : String
    pub is_nonce : buyer_bound_challenge x i.buyer_wallet salt ≡ ok nonce
    pub this_buyer : get_elem? proof.public_signals 3 ≡ some nonce
    pub valid : verify_with_circuit x challenge_proof proof.proof proof.public_signals ≡ ok true
    pub same_price : price_changed challenge.agreed_price land.sale_price ≡ false
    pub transaction_hash : String
    pub settled :
        IsSettled x i.land_id i.buyer_wallet salt proof.proof proof.public_signals transaction_hash

  -- The three parts of a purchase behind its first.
  abbrev pub after_proof : Cleared → Action (Option Land × Transaction)
  after_proof cl =
      lift (
        transfer_land_on_chain x i.land_id i.buyer_wallet cl.salt cl.proof.proof
          cl.proof.public_signals)
      >>= complete_purchase x i cl

  abbrev pub after_challenge : Cleared → Action (Option Land × Transaction)
  after_challenge cl = check_proof x i cl >> after_proof cl

  abbrev pub after_land : Land → Action (Option Land × Transaction)
  after_land land = check_challenge x i land >>= after_challenge

  module _ {result : Option Land × Transaction} {db' : Db} where
    land_stage :
        buy_listed_land x i db ≡ (ok result, db')
        → (land : Land) × (check_land x i db ≡ (ok land, db))
          × (after_land land db ≡ (ok result, db'))
    unfolding buy_listed_land
    land_stage h =
        let (land, mid, e, k) = >>=-eq-ok (check_land x i) after_land db h in
        let same : mid ≡ db = (check_land-ok e).0 in
        (land, e ∙ ap (λ m. (ok land, m)) same, ap (after_land land) (sym same) ∙ k)

    challenge_stage :
        (land : Land)
        → after_land land db ≡ (ok result, db')
        → (cl : Cleared) × (check_challenge x i land db ≡ (ok cl, db))
          × (after_challenge cl db ≡ (ok result, db'))
    challenge_stage land h =
        let (cl, mid, e, k) = >>=-eq-ok (check_challenge x i land) after_challenge db h in
        let same : mid ≡ db = (check_challenge-ok land e).0 in
        (cl, e ∙ ap (λ m. (ok cl, m)) same, ap (after_challenge cl) (sym same) ∙ k)

    proof_stage :
        (cl : Cleared)
        → after_challenge cl db ≡ (ok result, db')
        → (check_proof x i cl db ≡ (ok tt, db)) × (after_proof cl db ≡ (ok result, db'))
    proof_stage cl h =
        let (u, mid, e, k) = >>=-eq-ok (check_proof x i cl) (λ _. after_proof cl) db h in
        let same : mid ≡ db = (check_proof-ok cl e).0 in
        (e ∙ ap (λ m. (ok tt, m)) same, ap (after_proof cl) (sym same) ∙ k)

    chain_stage :
        (cl : Cleared)
        → after_proof cl db ≡ (ok result, db')
        → (tx : String) × (transfer_land_on_chain x i.land_id i.buyer_wallet cl.salt cl.proof.proof
              cl.proof.public_signals
            ≡ ok tx)
    unfolding ◌>>=◌
    chain_stage cl h =
        elim (Result-cases (
          transfer_land_on_chain x i.land_id i.buyer_wallet cl.salt cl.proof.proof
            cl.proof.public_signals)) [
              | inl (tx, e) ↦ (tx, e)
              | inr (failure, e) ↦ absurd (ground (arith, h, e))
            ]

  authorised :
      (land : Land) (cl : Cleared) (tx : String)
      → check_land x i db ≡ (ok land, db)
      → check_challenge x i land db ≡ (ok cl, db)
      → check_proof x i cl db ≡ (ok tt, db)
      → transfer_land_on_chain x i.land_id i.buyer_wallet cl.salt cl.proof.proof
          cl.proof.public_signals
        ≡ ok tx
      → IsAuthorised
  authorised land cl tx e1 e2 e3 e4 =
      let (same1, found, for_sale, listed, other, f1, f2, fresh, unused) = check_land-ok e1 in
      let (same2, same_land, latest, wallet, has_salt, usable) = check_challenge-ok land e2 in
      let (
        same3,
        unspent,
        this_land,
        (r, anchored, current),
        (nonce, bound, this_buyer),
        valid,
        price,
      ) =
        check_proof-ok cl e3 in
      record {
        land = land;
        found = found;
        on_sale = (for_sale, listed);
        other_owner = other;
        fields = (f1, f2);
        unused = unused;
        challenge = cl.challenge;
        has_verified = latest;
        same_wallet = wallet;
        salt = cl.salt;
        has_salt = has_salt;
        proof = cl.proof;
        has_proof = usable;
        unspent = unspent;
        this_land = this_land;
        root = r;
        is_latest = anchored;
        current = current;
        nonce = nonce;
        is_nonce = bound;
        this_buyer = this_buyer;
        valid = valid;
        same_price =
            subst (λ l. price_changed cl.challenge.agreed_price l.sale_price ≡ false) same_land
              price;
        transaction_hash = tx;
        settled =
            transfer_land_on_chain-IsSettled x i.land_id i.buyer_wallet cl.salt cl.proof.proof
              cl.proof.public_signals tx e4;
      }

  -- Where a purchase returns, the land was on sale by another owner and the new commitments were
  -- field elements, of which no stored land had the first, and the buyer's latest verified challenge
  -- had an unspent proof that the verifier accepts, on this land, the latest root and this buyer's
  -- nonce, at the agreed price; and either no chain is configured, or the contract itself was called
  -- with this land, this buyer, the salt, the proof and its signals, and returned a hash.
  pub buy_listed_land-IsAuthorised :
      {result : Option Land × Transaction} {db' : Db}
      → buy_listed_land x i db ≡ (ok result, db')
      → IsAuthorised
  buy_listed_land-IsAuthorised h =
      let (land, e1, k1) = land_stage h in
      let (cl, e2, k2) = challenge_stage land k1 in
      let (e3, k3) = proof_stage cl k2 in
      let (tx, e4) = chain_stage cl k3 in authorised land cl tx e1 e2 e3 e4
