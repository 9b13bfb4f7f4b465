-- ===== src/Http/Guards.antt =====
-- What the guards of the routes keep out.
use thesis_project_land_chai.Prelude.{Option, none, some, [], ◌∷◌, ◌≡◌, ◌≢◌, ◌∙◌, arith}
use thesis_project_land_chai.Externals.{Externals}
use thesis_project_land_chai.Db.{Role, Role-eq, Db}
use thesis_project_land_chai.Explorer.Receipts.{Provider}
use thesis_project_land_chai.Auth.{AuthUser, Identity}
use thesis_project_land_chai.Http.{
  Request, Handler, unauthorized_response, forbidden_response, request_user, require_auth,
  require_role,
}
use thesis_project_land_chai.Http.Routes.{
  UserEndpoint, land_routes, challenge_routes, ipfs_routes, get_requests, post_approve, post_reject,
  post_deed, post_land_request, patch_sell, patch_cancel_sale, post_challenge, post_buy, secured,
  land_route, proof_route, challenge_route, ipfs_route, user_route, handle, role_for,
}

other_role :
    (next : Handler) (db : Db) {a : Role} (u : AuthUser) (r : Role)
    → some a ≡ some r
    → r ≢ u.role
    → require_role (a ∷ []) u next db ≡ (forbidden_response, db)
unfolding require_role
other_role next db u r e h = ground (arith, e, h)

module _ (x : Externals) (k : Identity) (rpc : Option Provider) (req : Request) where
  pub secured-unauthorized :
      (endpoint : UserEndpoint) (db : Db)
      → request_user k req ≡ none
      → handle x k rpc req (secured endpoint) db ≡ (unauthorized_response, db)
  unfolding handle require_auth
  secured-unauthorized endpoint db h = ground (arith, h)

  authorized :
      (endpoint : UserEndpoint) (u : AuthUser) (db : Db)
      → request_user k req ≡ some u
      → handle x k rpc req (secured endpoint) db ≡ user_route x k rpc req endpoint u db
  unfolding handle require_auth
  authorized endpoint u db h = ground (arith, h)

  route_forbidden :
      (endpoint : UserEndpoint) (u : AuthUser) (r : Role) (db : Db)
      → role_for endpoint ≡ some r
      → r ≢ u.role
      → user_route x k rpc req endpoint u db ≡ (forbidden_response, db)
  unfolding user_route land_route proof_route challenge_route ipfs_route role_for
  route_forbidden (land_routes get_requests) u r db e h = other_role _ db u r e h
  route_forbidden (land_routes (post_approve land_id)) u r db e h = other_role _ db u r e h
  route_forbidden (land_routes (post_reject land_id)) u r db e h = other_role _ db u r e h
  route_forbidden (ipfs_routes post_deed) u r db e h = other_role _ db u r e h
  route_forbidden (land_routes post_land_request) u r db e h = other_role _ db u r e h
  route_forbidden (land_routes (patch_sell land_id)) u r db e h = other_role _ db u r e h
  route_forbidden (land_routes (patch_cancel_sale land_id)) u r db e h = other_role _ db u r e h
  route_forbidden (challenge_routes post_challenge) u r db e h = other_role _ db u r e h
  route_forbidden post_buy u r db e h = other_role _ db u r e h
  route_forbidden endpoint u r db e h = cc

  -- An endpoint that is kept for a role refuses a user of the other role with 403, and changes nothing.
  pub handle-forbidden :
      (endpoint : UserEndpoint) (u : AuthUser) (r : Role) (db : Db)
      → request_user k req ≡ some u
      → role_for endpoint ≡ some r
      → r ≢ u.role
      → handle x k rpc req (secured endpoint) db ≡ (forbidden_response, db)
  handle-forbidden endpoint u r db h e other =
      authorized endpoint u db h ∙ route_forbidden endpoint u r db e other
