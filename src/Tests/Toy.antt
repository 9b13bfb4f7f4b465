-- ===== src/Tests/Toy.antt =====
-- Test data: an instance of the third-party code on small numbers, lands, a challenge and its
-- proof.
use Prim.Native.String.{count}
use thesis_project_land_chai.Prelude.{
  ℕ, ◌+◌, ◌*◌, ◌%◌, String, true, false, none, some, List, [], ◌∷◌, length,
}
use thesis_project_land_chai.Errors.{plain, ok, err}
use thesis_project_land_chai.Field.{poseidon_hash2}
use thesis_project_land_chai.Json.{Json, null, nil, arr, end, field, obj}
use thesis_project_land_chai.Externals.{Externals, challenge_proof}
use thesis_project_land_chai.Db.{
  Land, pending_approval, registered, listed_for_sale, Challenge, proof_submitted, verified, Proof,
  challenge_response, MerkleRoot, Db,
}
use thesis_project_land_chai.Land.{LandRequest, nonneg}
use thesis_project_land_chai.Transfer.{Purchase, Cleared}

abbrev pub twelve : List ℕ
twelve = 1 ∷ 2 ∷ 3 ∷ 4 ∷ 5 ∷ 6 ∷ 7 ∷ 8 ∷ 9 ∷ 10 ∷ 11 ∷ 12 ∷ []

abbrev pub sixteen : List ℕ
sixteen = 4 ∷ 3 ∷ 2 ∷ 1 ∷ twelve

abbrev pub toy : Externals
toy = record {
  now = 1000;
  keccak_id = count;
  packed_keccak = λ a b. count a * 100 + count b;
  is_address = λ w. true;
  get_address = λ w. w;
  poseidon = λ a b. (a * 3 + b * 5 + 7) % 1009;
  random_bytes = 255;
  sha256 = length;
  hex_bytes = λ s. 9 ∷ 9 ∷ 9 ∷ 9 ∷ 1 ∷ 2 ∷ 3 ∷ 4 ∷ 5 ∷ 6 ∷ 7 ∷ 8 ∷ 9 ∷ 10 ∷ 11 ∷ 12 ∷ sixteen;
  random_iv = twelve;
  aes_encrypt = λ k iv p. (sixteen, p);
  aes_decrypt = λ k iv tag c. ok c;
  deed_encryption_key = some "0x09";
  pinata_jwt = none;
  gateway = none;
  pin_file = λ b. err (plain "no pinning service");
  fetch_deed = λ cid. ok none;
  artifact_exists = λ c a. true;
  groth16_verify = λ c p s. ok true;
  full_prove = λ c t. ok (null, []);
  registry = none;
}

abbrev pub toy_hash : String → String → String
toy_hash = poseidon_hash2 toy

abbrev pub groth16 : Json
groth16 = obj (field "pi_a" (arr nil) (field "pi_b" (arr nil) (field "pi_c" (arr nil) end)))

abbrev pub plot : Land
plot = record {
  land_id = "L1";
  plot_number = "12";
  location = "Dhaka";
  area_sqm = 500;
  owner_id = 1;
  owner_wallet = "0xa";
  deed_hash = "0x01";
  ipfs_cid = "local-01";
  land_commitment = "41";
  area_commitment = "42";
  leaf_index = none;
  merkle_root = none;
  path_elements = [];
  path_indices = [];
  status = pending_approval;
  request_note = none;
  rejection_reason = none;
  approved_by = none;
  approved_at = none;
  for_sale = false;
  sale_price = none;
}

abbrev pub registered_plot : Land
registered_plot = record plot { leaf_index = some 0; merkle_root = some "7"; status = registered }

abbrev pub plot_on_sale : Land
plot_on_sale = record registered_plot {
  status = listed_for_sale;
  for_sale = true;
  sale_price = some "900";
}

abbrev pub empty_db : Db
empty_db = record {
  lands = [];
  challenges = [];
  proofs = [];
  transactions = [];
  merkle_roots = [];
  users = [];
  uploads = [];
  next_id = 10;
}

abbrev pub pending_db : Db
pending_db = record empty_db { lands = plot ∷ [] }

-- The seller's proof: its signals are the nullifier, the land, the root and the nonce.
abbrev pub seller_proof : Proof
seller_proof = record {
  id = 5;
  proof_type = challenge_response;
  circuit = challenge_proof;
  land_id = some "L1";
  owner_id = 1;
  owner_wallet = "0xa";
  challenge_id = some 3;
  proof = groth16;
  public_signals = "8" ∷ "17" ∷ "7" ∷ "301" ∷ [];
  public_signal_labels = [];
  merkle_root = some "7";
  verified = false;
  verified_at = none;
  used_for_transfer_at = none;
  verification_note = none;
  transaction_hash = none;
}

abbrev pub answered : Challenge
answered = record {
  id = 3;
  land_id = "L1";
  buyer_id = 2;
  seller_id = 1;
  buyer_wallet = "0xb";
  seller_wallet = "0xa";
  nonce = "301";
  nonce_salt = some "s";
  agreed_price = some "900";
  status = proof_submitted;
  messages = [];
  proof_id = some 5;
  verified_at = none;
  verification_note = none;
}

abbrev pub accepted : Challenge
accepted = record answered { status = verified; verified_at = some 900 }

abbrev pub root_doc : MerkleRoot
root_doc = record {
  root = "7";
  leaf_count = 1;
  land_ids = "L1" ∷ [];
  transaction_hash = none;
  created_by = 9;
  created_at = 800;
}

abbrev pub answered_db : Db
answered_db = record empty_db {
  lands = plot_on_sale ∷ [];
  challenges = answered ∷ [];
  proofs = seller_proof ∷ [];
  merkle_roots = root_doc ∷ [];
}

abbrev pub market_db : Db
market_db = record answered_db { challenges = accepted ∷ [] }

abbrev pub order : Purchase
order = record {
  land_id = "L1";
  buyer_id = 2;
  buyer_wallet = "0xb";
  new_land_commitment = "51";
  new_area_commitment = "52";
}

abbrev pub cleared : Cleared
cleared = record { land = plot_on_sale; challenge = accepted; salt = "s"; proof = seller_proof }

abbrev pub new_request : LandRequest
new_request = record {
  land_id = "L2";
  plot_number = "13";
  location = "Khulna";
  area_sqm = nonneg 300 true;
  land_commitment = "61";
  area_commitment = "62";
  request_note = none;
  deed_file = none;
  user_id = 4;
  user_wallet = "0xC";
}
