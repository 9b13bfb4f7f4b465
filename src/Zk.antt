-- ===== src/Zk.antt =====
-- apps/server/src/services/zk.service.ts: the circuits' artifacts, and proving and verifying
-- through snarkjs.
use thesis_project_land_chai.Prelude.{String, Bool, ◌&&◌, ◌<>◌, List, [], ◌∷◌, map, not}
use thesis_project_land_chai.Errors.{bad_request, Result, throw_first, ◌>>◌}
use thesis_project_land_chai.Json.{Json}
use thesis_project_land_chai.Externals.{
  CircuitName, commitment_proof, land_ownership, challenge_proof, area_range, root_transition, wasm,
  zkey, vkey, TransitionInput, Externals,
}

abbrev pub circuit_name : CircuitName → String
circuit_name commitment_proof = "commitmentProof"
circuit_name land_ownership = "landOwnership"
circuit_name challenge_proof = "challengeProof"
circuit_name area_range = "areaRange"
circuit_name root_transition = "rootTransition"

-- `circuitConfig(name).publicSignalLabels`
unfoldable pub public_signal_labels : CircuitName → List String
public_signal_labels commitment_proof = "landIdField" ∷ "commitment" ∷ []
public_signal_labels land_ownership = "nullifier" ∷ "merkleRoot" ∷ []
public_signal_labels challenge_proof =
    "responseNullifier" ∷ "landIdField" ∷ "merkleRoot" ∷ "challenge" ∷ []
public_signal_labels area_range = "areaCommitment" ∷ "minArea" ∷ []
public_signal_labels root_transition = "leafBefore" ∷ "leafAfter" ∷ "oldRoot" ∷ "newRoot" ∷ []

pub record ArtifactStatus : Type 0 where
  pub circuit : CircuitName
  pub ready : Bool
  pub has_wasm : Bool
  pub has_zkey : Bool
  pub has_vkey : Bool
  pub labels : List String

module _ (x : Externals) where
  unfoldable pub circuit_ready : CircuitName → Bool
  circuit_ready name =
      x.artifact_exists name wasm && x.artifact_exists name zkey && x.artifact_exists name vkey

  unfoldable pub artifacts_status : List ArtifactStatus
  unfolding circuit_ready public_signal_labels
  artifacts_status =
      map
        (λ name. record {
          circuit = name;
          ready = circuit_ready name;
          has_wasm = x.artifact_exists name wasm;
          has_zkey = x.artifact_exists name zkey;
          has_vkey = x.artifact_exists name vkey;
          labels = public_signal_labels name;
        })
        (commitment_proof ∷ land_ownership ∷ challenge_proof ∷ area_range ∷ root_transition ∷ [])

  -- The one circuit that the server proves is rootTransition.
  unfoldable pub prove_with_circuit : TransitionInput → Result (Json × List String)
  unfolding circuit_ready
  prove_with_circuit input = do
    throw_first (
        (
          not (circuit_ready root_transition),
          bad_request
              "Circuit artifacts for \"rootTransition\" are missing. Run the trusted setup in the circuits workspace (npm run setup).",
        )
        ∷ [])
    x.full_prove root_transition input

  unfoldable pub verify_with_circuit : CircuitName → Json → List String → Result Bool
  unfolding circuit_ready
  verify_with_circuit name proof public_signals = do
    throw_first (
        (
          not (circuit_ready name),
          bad_request (
              "Circuit artifacts for \""
              <> circuit_name name
              <> "\" are missing. Run the trusted setup in the circuits workspace."),
        )
        ∷ [])
    x.groth16_verify name proof public_signals
