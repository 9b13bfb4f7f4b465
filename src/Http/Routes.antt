-- ===== src/Http/Routes.antt =====
-- apps/server/src/routes and app.ts: which middlewares and which controller answer an endpoint.
use thesis_project_land_chai.Prelude.{
  String, ◌==◌, string_eq, if◌then◌else◌, Bool, true, false, Option, none, some, [], ◌∷◌,
}
use thesis_project_land_chai.Externals.{
  Externals, CircuitName, commitment_proof, land_ownership, challenge_proof, area_range, Artifact,
}
use thesis_project_land_chai.Db.{Role, authority, user}
use thesis_project_land_chai.Explorer.Receipts.{Provider}
use thesis_project_land_chai.Auth.{AuthUser, Identity}
use thesis_project_land_chai.Http.{
  Request, Handler, controlled, require_auth, require_role, validate, upload_single, Response,
  artifact, refusal,
}
use thesis_project_land_chai.Http.Body.{
  validate_register, validate_login, validate_challenge_creation, validate_challenge_response,
  validate_challenge_message, validate_land_request, validate_sale_listing,
  validate_proof_submission, validate_proof_verification, validate_buy,
}
use thesis_project_land_chai.Http.Controllers.{
  register_controller, login_controller, me_controller, request_land_controller,
  list_pending_requests_controller, approve_land_controller, reject_land_controller,
  list_land_controller, get_land_controller, list_land_for_sale_controller,
  cancel_land_sale_controller, stats_controller,
}
use thesis_project_land_chai.Http.Exchange.{
  submit_proof_controller, verify_proof_controller, list_proofs_controller, get_proof_controller,
  proof_status_controller, create_challenge_controller, list_challenges_controller,
  get_challenge_controller, add_message_controller, respond_challenge_controller,
  verify_challenge_controller, decline_challenge_controller, buy_land_controller,
  upload_ipfs_controller, get_deed_controller, list_transactions_controller,
  explorer_blocks_controller,
}

-- Methods and paths, with the values of the path's parameters: of landRoutes, proofRoutes,
-- challengeRoutes and ipfsRoutes.
pub data LandEndpoint : Type 0 where
  get_lands get_stats get_requests post_land_request : LandEndpoint
  post_approve post_reject get_land_route patch_sell patch_cancel_sale :
      (land_id : String) → LandEndpoint

pub data ProofEndpoint : Type 0 where
  get_proofs get_proof_status post_proof post_proof_verify : ProofEndpoint
  get_proof_route : (proof_id : String) → ProofEndpoint

pub data ChallengeEndpoint : Type 0 where
  get_challenges post_challenge : ChallengeEndpoint
  get_challenge_route post_message post_response post_challenge_verify post_decline :
      (challenge_id : String) → ChallengeEndpoint

pub data IpfsEndpoint : Type 0 where
  post_deed : IpfsEndpoint
  get_deed : (cid : String) → IpfsEndpoint

-- The routes that `requireAuth` guards.
pub data UserEndpoint : Type 0 where
  get_me_route : UserEndpoint
  land_routes : LandEndpoint → UserEndpoint
  proof_routes : ProofEndpoint → UserEndpoint
  challenge_routes : ChallengeEndpoint → UserEndpoint
  post_buy : UserEndpoint
  ipfs_routes : IpfsEndpoint → UserEndpoint
  get_transactions get_explorer : UserEndpoint

pub data Endpoint : Type 0 where
  post_register post_login : Endpoint
  get_artifact : (circuit : String) (kind : Artifact) → Endpoint
  secured : UserEndpoint → Endpoint

-- CLIENT_CIRCUITS of routes/zk.routes.ts
unfoldable pub client_circuit : String → Option CircuitName
client_circuit circuit =
    if circuit == "commitmentProof"
    then some commitment_proof
    else if circuit == "landOwnership"
    then some land_ownership
    else if circuit == "challengeProof"
    then some challenge_proof
    else if circuit == "areaRange"
    then some area_range
    else none

-- The public parameters of a circuit that browsers prove with.
unfoldable pub artifact_response : Externals → String → Artifact → Response
unfolding client_circuit
artifact_response x circuit kind = elim (client_circuit circuit) [
  | none ↦ refusal 404 "Unknown circuit."
  | some name ↦
      if x.artifact_exists name kind
      then record {
        status = 200;
        success = true;
        message = "";
        errors = [];
        payload = artifact name kind;
      }
      else refusal 404 "Circuit artifact not found. Run the trusted setup."
]

module _ (x : Externals) (k : Identity) (rpc : Option Provider) (req : Request) where
  -- The handlers behind `requireAuth`, router by router.
  unfoldable pub land_route : LandEndpoint → AuthUser → Handler
  land_route get_lands u = controlled (list_land_controller x req u)
  land_route get_stats u = controlled (stats_controller x req u)
  land_route get_requests u =
      require_role (authority ∷ []) u (controlled (list_pending_requests_controller x req u))
  land_route post_land_request u = require_role (user ∷ []) u (
      upload_single req.file
        (validate validate_land_request req.body (controlled (request_land_controller x req u))))
  land_route (post_approve land_id) u =
      require_role (authority ∷ []) u (controlled (approve_land_controller x req u land_id))
  land_route (post_reject land_id) u =
      require_role (authority ∷ []) u (controlled (reject_land_controller x req u land_id))
  land_route (get_land_route land_id) u = controlled (get_land_controller x req u land_id)
  land_route (patch_sell land_id) u = require_role (user ∷ []) u (
      validate validate_sale_listing req.body
        (controlled (list_land_for_sale_controller x req u land_id)))
  land_route (patch_cancel_sale land_id) u =
      require_role (user ∷ []) u (controlled (cancel_land_sale_controller x req u land_id))

  unfoldable pub proof_route : ProofEndpoint → AuthUser → Handler
  proof_route get_proofs u = controlled (list_proofs_controller x req u)
  proof_route get_proof_status u = controlled (proof_status_controller x req u)
  proof_route post_proof u =
      validate validate_proof_submission req.body (controlled (submit_proof_controller x req u))
  proof_route post_proof_verify u =
      validate validate_proof_verification req.body (controlled (verify_proof_controller x req u))
  proof_route (get_proof_route proof_id) u = controlled (get_proof_controller x req u proof_id)

  unfoldable pub challenge_route : ChallengeEndpoint → AuthUser → Handler
  challenge_route get_challenges u = controlled (list_challenges_controller x req u)
  challenge_route post_challenge u = require_role (user ∷ []) u (
      validate validate_challenge_creation req.body
        (controlled (create_challenge_controller x req u)))
  challenge_route (get_challenge_route challenge_id) u =
      controlled (get_challenge_controller x req u challenge_id)
  challenge_route (post_message challenge_id) u =
      validate validate_challenge_message req.body
        (controlled (add_message_controller x req u challenge_id))
  challenge_route (post_response challenge_id) u =
      validate validate_challenge_response req.body
        (controlled (respond_challenge_controller x req u challenge_id))
  challenge_route (post_challenge_verify challenge_id) u =
      controlled (verify_challenge_controller x req u challenge_id)
  challenge_route (post_decline challenge_id) u =
      controlled (decline_challenge_controller x req u challenge_id)

  unfoldable pub ipfs_route : IpfsEndpoint → AuthUser → Handler
  ipfs_route post_deed u =
      require_role (authority ∷ []) u
        (upload_single req.file (controlled (upload_ipfs_controller x req u)))
  ipfs_route (get_deed cid) u = controlled (get_deed_controller x req u cid)

  unfoldable pub user_route : UserEndpoint → AuthUser → Handler
  unfolding land_route proof_route challenge_route ipfs_route
  user_route get_me_route u = controlled (me_controller x k req u)
  user_route (land_routes endpoint) u = land_route endpoint u
  user_route (proof_routes endpoint) u = proof_route endpoint u
  user_route (challenge_routes endpoint) u = challenge_route endpoint u
  user_route (ipfs_routes endpoint) u = ipfs_route endpoint u
  user_route post_buy u =
      require_role (user ∷ []) u
        (validate validate_buy req.body (controlled (buy_land_controller x req u)))
  user_route get_transactions u = controlled (list_transactions_controller x req u)
  user_route get_explorer u = controlled (explorer_blocks_controller x req u rpc)

  -- The whole API.
  unfoldable pub handle : Endpoint → Handler
  unfolding user_route artifact_response
  handle post_register =
      validate (validate_register x.is_address) req.body (controlled (register_controller x k req))
  handle post_login = validate validate_login req.body (controlled (login_controller x k req))
  handle (get_artifact circuit kind) = λ db. (artifact_response x circuit kind, db)
  handle (secured endpoint) = require_auth k req (user_route endpoint)

-- The role that an endpoint is kept for.
unfoldable pub role_for : UserEndpoint → Option Role
role_for (land_routes get_requests) = some authority
role_for (land_routes (post_approve land_id)) = some authority
role_for (land_routes (post_reject land_id)) = some authority
role_for (ipfs_routes post_deed) = some authority
role_for (land_routes post_land_request) = some user
role_for (land_routes (patch_sell land_id)) = some user
role_for (land_routes (patch_cancel_sale land_id)) = some user
role_for (challenge_routes post_challenge) = some user
role_for post_buy = some user
role_for endpoint = none

-- The endpoints whose method is GET.
unfoldable pub is_get : UserEndpoint → Bool
is_get get_me_route = true
is_get (land_routes get_lands) = true
is_get (land_routes get_stats) = true
is_get (land_routes get_requests) = true
is_get (land_routes (get_land_route land_id)) = true
is_get (proof_routes get_proofs) = true
is_get (proof_routes get_proof_status) = true
is_get (proof_routes (get_proof_route proof_id)) = true
is_get (challenge_routes get_challenges) = true
is_get (challenge_routes (get_challenge_route challenge_id)) = true
is_get (ipfs_routes (get_deed cid)) = true
is_get get_transactions = true
is_get get_explorer = true
is_get endpoint = false
