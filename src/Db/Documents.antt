-- ===== src/Db/Documents.antt =====
-- The documents and the uploaded files, with the fields of the schemas. An optional path is an `Option`; a date is the
-- number of its milliseconds.
use thesis_project_land_chai.Prelude.{ℕ, String, Bool, Option, List, Eq}
use thesis_project_land_chai.Json.{Json}
use thesis_project_land_chai.Externals.{CircuitName}

pub data LandStatus : Type 0 where
  pending_approval registered rejected listed_for_sale : LandStatus

pub data ChallengeStatus : Type 0 where
  pending proof_submitted verified failed declined : ChallengeStatus

pub data TransactionType : Type 0 where
  land_requested land_approved land_rejected list_for_sale sale_cancelled : TransactionType
  challenge_created proof_generated proof_verified transfer buy : TransactionType

pub data ProofType : Type 0 where
  commitment_opening registry_membership challenge_response area_range : ProofType

pub data Role : Type 0 where
  authority user : Role

unfoldable pub LandStatus-discrete : Discrete LandStatus
LandStatus-discrete = hlevel

instance unfoldable pub LandStatus-eq : Eq LandStatus
unfolding LandStatus-discrete
LandStatus-eq = record { dec = LandStatus-discrete }

unfoldable pub ChallengeStatus-discrete : Discrete ChallengeStatus
ChallengeStatus-discrete = hlevel

instance unfoldable pub ChallengeStatus-eq : Eq ChallengeStatus
unfolding ChallengeStatus-discrete
ChallengeStatus-eq = record { dec = ChallengeStatus-discrete }

unfoldable pub TransactionType-discrete : Discrete TransactionType
TransactionType-discrete = hlevel

instance unfoldable pub TransactionType-eq : Eq TransactionType
unfolding TransactionType-discrete
TransactionType-eq = record { dec = TransactionType-discrete }

unfoldable pub ProofType-discrete : Discrete ProofType
ProofType-discrete = hlevel

instance unfoldable pub ProofType-eq : Eq ProofType
unfolding ProofType-discrete
ProofType-eq = record { dec = ProofType-discrete }

unfoldable pub Role-discrete : Discrete Role
Role-discrete = hlevel

instance unfoldable pub Role-eq : Eq Role
unfolding Role-discrete
Role-eq = record { dec = Role-discrete }

pub record Land : Type 0 where
  pub land_id : String
  pub plot_number : String
  pub location : String
  pub area_sqm : ℕ
  pub owner_id : ℕ
  pub owner_wallet : String
  pub deed_hash : String
  pub ipfs_cid : String
  pub land_commitment : String
  pub area_commitment : String
  pub leaf_index : Option ℕ
  pub merkle_root : Option String
  pub path_elements : List String
  pub path_indices : List ℕ
  pub status : LandStatus
  pub request_note : Option String
  pub rejection_reason : Option String
  pub approved_by : Option ℕ
  pub approved_at : Option ℕ
  pub for_sale : Bool
  pub sale_price : Option String

pub record Message : Type 0 where
  pub sender : ℕ
  pub sender_name : String
  pub body : String
  pub sent_at : ℕ

pub record Challenge : Type 0 where
  pub id : ℕ
  pub land_id : String
  pub buyer_id : ℕ
  pub seller_id : ℕ
  pub buyer_wallet : String
  pub seller_wallet : String
  pub nonce : String
  pub nonce_salt : Option String
  pub agreed_price : Option String
  pub status : ChallengeStatus
  pub messages : List Message
  pub proof_id : Option ℕ
  pub verified_at : Option ℕ
  pub verification_note : Option String

pub record Proof : Type 0 where
  pub id : ℕ
  pub proof_type : ProofType
  pub circuit : CircuitName
  pub land_id : Option String
  pub owner_id : ℕ
  pub owner_wallet : String
  pub challenge_id : Option ℕ
  pub proof : Json
  pub public_signals : List String
  pub public_signal_labels : List String
  pub merkle_root : Option String
  pub verified : Bool
  pub verified_at : Option ℕ
  pub used_for_transfer_at : Option ℕ
  pub verification_note : Option String
  pub transaction_hash : Option String

pub record Transaction : Type 0 where
  pub land_id : Option String
  pub from_owner : Option String
  pub to_owner : Option String
  pub transaction_type : TransactionType
  pub blockchain_tx_hash : String
  pub status : String
  pub detail : Option String
  pub created_at : ℕ

pub record MerkleRoot : Type 0 where
  pub root : String
  pub leaf_count : ℕ
  pub land_ids : List String
  pub transaction_hash : Option String
  pub created_by : ℕ
  pub created_at : ℕ

pub record User : Type 0 where
  pub id : ℕ
  pub name : String
  pub email : String
  pub password_hash : String
  pub wallet_address : String
  pub role : Role
  pub nid_hash : String
  pub phone : Option String
  pub address : Option String

-- A file of the uploads directory with its metadata, by its CID.
pub record Upload : Type 0 where
  pub cid : String
  pub ciphertext : List ℕ
  pub filename : String
  pub mimetype : String
  pub size : ℕ

-- `next_id` is the ObjectId of the next document.
pub record Db : Type 0 where
  pub lands : List Land
  pub challenges : List Challenge
  pub proofs : List Proof
  pub transactions : List Transaction
  pub merkle_roots : List MerkleRoot
  pub users : List User
  pub uploads : List Upload
  pub next_id : ℕ
