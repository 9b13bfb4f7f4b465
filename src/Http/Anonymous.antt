-- ===== src/Http/Anonymous.antt =====
-- What a client without a valid token can do.
use thesis_project_land_chai.Prelude.{
  String, Bool, true, false, Option, none, ◌≡◌, ◌⊎◌, refl, ap, inl, inr,
}
use thesis_project_land_chai.Externals.{Externals}
use thesis_project_land_chai.Db.{Db}
use thesis_project_land_chai.Action.Maintains.{Maintains, maintains_rules}
use thesis_project_land_chai.Explorer.Receipts.{Provider}
use thesis_project_land_chai.Auth.{Identity, login_user}
use thesis_project_land_chai.Http.{Request, unauthorized_response, request_user}
use thesis_project_land_chai.Http.Controllers.{login_controller}
use thesis_project_land_chai.Http.Middleware.{handler_rules}
use thesis_project_land_chai.Http.Guards.{secured-unauthorized}
use thesis_project_land_chai.Http.Routes.{
  Endpoint, post_register, post_login, get_artifact, secured, handle,
}

-- What a client needs no token for: an account, a session, and the circuits' artifacts.
pub is_open : Endpoint → Bool
is_open post_register = true
is_open post_login = true
is_open (get_artifact circuit kind) = true
is_open (secured endpoint) = false

module _ (x : Externals) (k : Identity) (rpc : Option Provider) (req : Request) where
  login_user-reads {ℓ} :
      {Q : Db → Type ℓ} (email password : String) → Maintains Q (login_user x k email password)
  unfolding login_user
  login_user-reads email password = search (maintains_rules) depth 40

  login-reads {ℓ} : {Q : Db → Type ℓ} → Maintains Q (login_controller x k req)
  unfolding login_controller
  login-reads = search (maintains_rules, login_user-reads) depth 40

  -- A request without a valid token writes nothing, unless it registers; and it is refused with 401,
  -- unless it registers, logs in or fetches an artifact of a circuit.
  pub handle-anonymous :
      (endpoint : Endpoint) (db : Db)
      → request_user k req ≡ none
      → ((endpoint ≡ post_register) ⊎ ((handle x k rpc req endpoint db).1 ≡ db))
        × ((is_open endpoint ≡ true) ⊎ ((handle x k rpc req endpoint db).0 ≡ unauthorized_response))
  unfolding handle is_open
  handle-anonymous post_register db h = (inl refl, inl refl)
  handle-anonymous post_login db h =
      let logs_in : Maintains (λ d. d ≡ db) (handle x k rpc req post_login) =
        search (handler_rules, login-reads) depth 20 in
      (inr (logs_in.maintained db refl), inl refl)
  handle-anonymous (get_artifact circuit kind) db h = (inr refl, inl refl)
  handle-anonymous (secured endpoint) db h =
      let refused = secured-unauthorized x k rpc req endpoint db h in
      (inr (ap (λ r. r.1) refused), inr (ap (λ r. r.0) refused))
