-- ===== src/Http/Reads.antt =====
-- GET requests only read.
use thesis_project_land_chai.Prelude.{String, true, Option, string_eq, ◌≡◌, refl}
use thesis_project_land_chai.Externals.{Externals}
use thesis_project_land_chai.Db.{Role-eq, Db}
use thesis_project_land_chai.Action.Maintains.{Maintains, maintains_rules}
use thesis_project_land_chai.Explorer.Receipts.{Provider}
use thesis_project_land_chai.Auth.{AuthUser, Identity, get_me}
use thesis_project_land_chai.Challenge.{get_challenge}
use thesis_project_land_chai.Http.{Request}
use thesis_project_land_chai.Http.Middleware.{Maintains-require_auth, handler_rules}
use thesis_project_land_chai.Http.Controllers.{
  me_controller, list_pending_requests_controller, list_land_controller, get_land_controller,
  stats_controller,
}
use thesis_project_land_chai.Http.Exchange.{
  list_proofs_controller, get_proof_controller, proof_status_controller, list_challenges_controller,
  get_challenge_controller, get_deed_controller, list_transactions_controller,
  explorer_blocks_controller,
}
use thesis_project_land_chai.Http.Routes.{
  UserEndpoint, land_routes, proof_routes, challenge_routes, ipfs_routes, get_me_route, get_lands,
  get_stats, get_requests, get_land_route, get_proofs, get_proof_status, get_proof_route,
  get_challenges, get_challenge_route, get_deed, get_transactions, get_explorer, secured,
  land_route, proof_route, challenge_route, ipfs_route, user_route, handle, is_get,
}

module _ {ℓ} {Q : Db → Type ℓ} (x : Externals) (k : Identity) (req : Request) (u : AuthUser) where
  pub me-Maintains : Maintains Q (me_controller x k req u)
  unfolding me_controller get_me
  me-Maintains = search (maintains_rules) depth 40

  pub list_pending-Maintains : Maintains Q (list_pending_requests_controller x req u)
  unfolding list_pending_requests_controller
  list_pending-Maintains = search (maintains_rules) depth 40

  pub list_land-Maintains : Maintains Q (list_land_controller x req u)
  unfolding list_land_controller
  list_land-Maintains = search (maintains_rules) depth 40

  pub get_land-Maintains : (id : String) → Maintains Q (get_land_controller x req u id)
  unfolding get_land_controller
  get_land-Maintains id = search (maintains_rules) depth 40

  pub stats-Maintains : Maintains Q (stats_controller x req u)
  unfolding stats_controller
  stats-Maintains = search (maintains_rules) depth 40

  pub list_proofs-Maintains : Maintains Q (list_proofs_controller x req u)
  unfolding list_proofs_controller
  list_proofs-Maintains = search (maintains_rules) depth 40

  pub get_proof-Maintains : (id : String) → Maintains Q (get_proof_controller x req u id)
  unfolding get_proof_controller
  get_proof-Maintains id = search (maintains_rules) depth 40

  pub proof_status-Maintains : Maintains Q (proof_status_controller x req u)
  unfolding proof_status_controller
  proof_status-Maintains = search (maintains_rules) depth 40

  pub list_challenges-Maintains : Maintains Q (list_challenges_controller x req u)
  unfolding list_challenges_controller
  list_challenges-Maintains = search (maintains_rules) depth 40

  pub get_challenge-Maintains : (id : String) → Maintains Q (get_challenge_controller x req u id)
  unfolding get_challenge_controller get_challenge
  get_challenge-Maintains id = search (maintains_rules) depth 40

  pub get_deed-Maintains : (cid : String) → Maintains Q (get_deed_controller x req u cid)
  unfolding get_deed_controller
  get_deed-Maintains cid = search (maintains_rules) depth 40

  pub list_transactions-Maintains : Maintains Q (list_transactions_controller x req u)
  unfolding list_transactions_controller
  list_transactions-Maintains = search (maintains_rules) depth 40

  pub explorer-Maintains :
      (rpc : Option Provider) → Maintains Q (explorer_blocks_controller x req u rpc)
  unfolding explorer_blocks_controller
  explorer-Maintains rpc = search (maintains_rules) depth 40

pub ruleset read_rules = (
  me-Maintains, list_pending-Maintains, list_land-Maintains, get_land-Maintains, stats-Maintains,
  list_proofs-Maintains, get_proof-Maintains, proof_status-Maintains, list_challenges-Maintains,
  get_challenge-Maintains, get_deed-Maintains, list_transactions-Maintains, explorer-Maintains,
)

module _ {ℓ} {Q : Db → Type ℓ} (x : Externals) (k : Identity) (rpc : Option Provider)
    (req : Request) where
  pub read_route-Maintains :
      (endpoint : UserEndpoint) (u : AuthUser)
      → is_get endpoint ≡ true
      → Maintains Q (user_route x k rpc req endpoint u)
  unfolding user_route land_route proof_route challenge_route ipfs_route is_get
  read_route-Maintains get_me_route u h = search (handler_rules, read_rules) depth 20
  read_route-Maintains (land_routes get_lands) u h = search (handler_rules, read_rules) depth 20
  read_route-Maintains (land_routes get_stats) u h = search (handler_rules, read_rules) depth 20
  read_route-Maintains (land_routes get_requests) u h = search (handler_rules, read_rules) depth 20
  read_route-Maintains (land_routes (get_land_route land_id)) u h =
      search (handler_rules, read_rules) depth 20
  read_route-Maintains (proof_routes get_proofs) u h = search (handler_rules, read_rules) depth 20
  read_route-Maintains (proof_routes get_proof_status) u h =
      search (handler_rules, read_rules) depth 20
  read_route-Maintains (proof_routes (get_proof_route proof_id)) u h =
      search (handler_rules, read_rules) depth 20
  read_route-Maintains (challenge_routes get_challenges) u h =
      search (handler_rules, read_rules) depth 20
  read_route-Maintains (challenge_routes (get_challenge_route challenge_id)) u h =
      search (handler_rules, read_rules) depth 20
  read_route-Maintains (ipfs_routes (get_deed cid)) u h =
      search (handler_rules, read_rules) depth 20
  read_route-Maintains get_transactions u h = search (handler_rules, read_rules) depth 20
  read_route-Maintains get_explorer u h = search (handler_rules, read_rules) depth 20
  read_route-Maintains endpoint u h = cc

-- A GET request to a route behind `requireAuth`, whoever makes it, changes nothing in the database.
pub handle_get-reads :
    (x : Externals) (k : Identity) (rpc : Option Provider) (req : Request) (endpoint : UserEndpoint)
    (db : Db)
    → is_get endpoint ≡ true
    → (handle x k rpc req (secured endpoint) db).1 ≡ db
unfolding handle
handle_get-reads x k rpc req endpoint db h =
    (Maintains-require_auth {Q = λ d. d ≡ db} k req (user_route x k rpc req endpoint)
        (λ u. read_route-Maintains x k rpc req endpoint u h)).maintained
      db refl
