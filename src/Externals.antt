-- ===== src/Externals.antt =====
-- What the server calls and does not implement: hashes, snarkjs, the chain, the clock, random
-- bytes, files. One value of `Externals` stands for their answers during one request.
use thesis_project_land_chai.Prelude.{ℕ, String, Bool, Option, List}
use thesis_project_land_chai.Errors.{Result}
use thesis_project_land_chai.Json.{Json}

-- `CircuitName` of apps/server/src/services/zk.service.ts.
pub data CircuitName : Type 0 where
  commitment_proof land_ownership challenge_proof area_range root_transition : CircuitName

pub data Artifact : Type 0 where
  wasm zkey vkey : Artifact

-- The witness input of the rootTransition circuit.
pub record TransitionInput : Type 0 where
  pub path_elements : List String
  pub path_indices : List ℕ
  pub leaf_before : String
  pub leaf_after : String
  pub old_root : String
  pub new_root : String

-- A Groth16 proof as the contract takes it.
pub record ProofArgs : Type 0 where
  pub a : List Json
  pub b : List (List Json)
  pub c : List Json

-- The methods of the LandRegistry contract that the server calls. An `err` is a revert or a
-- failure of the node, an `ok` the hash of the mined transaction.
pub record Registry : Type 0 where
  pub update_merkle_root : String → ProofArgs → List String → Result String
  pub lands_exists : ℕ → Result Bool
  pub register_land : ℕ → String → String → Result String
  pub verify_and_transfer : ℕ → String → String → ProofArgs → List String → Result String

pub record Externals : Type 0 where
  -- `Date.now()` and `new Date()`
  pub now : ℕ
  -- `ethers.id` and `solidityPackedKeccak256`, as the numbers that their digests denote
  pub keccak_id : String → ℕ
  pub packed_keccak : String → String → ℕ
  -- `ethers.isAddress`, and `ethers.getAddress` of an address
  pub is_address : String → Bool
  pub get_address : String → String
  -- circomlibjs
  pub poseidon : ℕ → ℕ → ℕ
  -- `crypto.randomBytes(32)`, as a number
  pub random_bytes : ℕ
  -- SHA-256 of a buffer, as a number, and the bytes of a hexadecimal text
  pub sha256 : List ℕ → ℕ
  pub hex_bytes : String → List ℕ
  -- `crypto.randomBytes(12)`, and AES-256-GCM: under a key and an IV, a plaintext gives a tag and
  -- a ciphertext; decryption throws where the tag does not fit
  pub random_iv : List ℕ
  pub aes_encrypt : List ℕ → List ℕ → List ℕ → List ℕ × List ℕ
  pub aes_decrypt : List ℕ → List ℕ → List ℕ → List ℕ → Result (List ℕ)
  -- DEED_ENCRYPTION_KEY, PINATA_JWT and IPFS_GATEWAY
  pub deed_encryption_key : Option String
  pub pinata_jwt : Option String
  pub gateway : Option String
  -- the pinning service's answer, and the gateway's: `none` is a response that is not ok
  pub pin_file : List ℕ → Result String
  pub fetch_deed : String → Result (Option (List ℕ))
  pub artifact_exists : CircuitName → Artifact → Bool
  -- snarkjs: `groth16.verify` and `groth16.fullProve` may throw
  pub groth16_verify : CircuitName → Json → List String → Result Bool
  pub full_prove : CircuitName → TransitionInput → Result (Json × List String)
  -- `getRegistryContract()`
  pub registry : Option Registry
