-- ===== src/Http/Controllers.antt =====
-- apps/server/src/controllers: what a request becomes for the services, and the reply.

use thesis_project_land_chai.Prelude.{
  ◌==◌, ◌<>◌, string_eq, nat_eq, option_eq, String, Option, none, some, if◌then◌else◌,
}
use thesis_project_land_chai.Errors.{plain, validation, Result, ok, err}
use thesis_project_land_chai.Json.{Json, null, str, arr, obj, get_field}
use thesis_project_land_chai.Externals.{Externals}
use thesis_project_land_chai.Db.{Role-eq, ChallengeStatus-eq}
use thesis_project_land_chai.Action.{Action, pure, lift, gets, ◌>>=◌}
use thesis_project_land_chai.Land.{
  request_land_registration, approve_land, reject_land, list_land_for_sale, cancel_land_sale,
}
use thesis_project_land_chai.Land.Listing.{
  Scope, mine, market, everything, list_pending_requests, list_lands, get_land, registry_stats,
}
use thesis_project_land_chai.Explorer.{map_get}
use thesis_project_land_chai.Auth.{
  AuthUser, Identity, Registration, register_user, login_user, get_me,
}
use thesis_project_land_chai.Http as Http
use thesis_project_land_chai.Http.{Request, Reply, Payload}
use thesis_project_land_chai.Http.Body.{
  js_string, text_field, optional_text, raw_field, number_field,
}

abbrev pub reply : String → Payload → Reply
reply message payload = record { status = 200; message = message; payload = payload }

abbrev pub created : String → Payload → Reply
created message payload = record { status = 201; message = message; payload = payload }

-- A value whose text methods are called: another one is a TypeError.
string_of : String → Json → Result String
string_of key body = elim (get_field key body) [
  | none ↦ err (plain (key <> " is undefined"))
  | some v ↦ elim v [ str s ↦ ok s | _ ↦ err (plain (key <> " is not a text")) ]
]

-- A schema's cast of a value to a text.
cast_text : Json → Result String
cast_text (arr vs) = err (validation "Cast to string failed")
cast_text (obj fs) = err (validation "Cast to string failed")
cast_text v = ok (js_string v)

cast_optional : Option Json → Result (Option String)
unfolding cast_text
cast_optional none = ok none
cast_optional (some null) = ok none
cast_optional (some v) = elim (cast_text v) [ err e ↦ err e | ok s ↦ ok (some s) ]

-- The body of a registration. Where several values are of a wrong type, which error comes first is
-- not modelled.
unfoldable pub registration_of : Json → Action Registration
unfolding string_of cast_text cast_optional text_field raw_field
registration_of body = do
  email ← lift (string_of "email" body)
  password ← lift (string_of "password" body)
  wallet_address ← lift (string_of "walletAddress" body)
  name ← lift (cast_text (raw_field "name" body))
  phone ← lift (cast_optional (get_field "phone" body))
  address ← lift (cast_optional (get_field "address" body))
  pure (record {
    name = name;
    email = email;
    password = password;
    wallet_address = wallet_address;
    nid = text_field "nid" body;
    phone = phone;
    address = address;
  })

unfoldable pub query_value : String → Request → Option String
query_value key req = map_get key req.query

unfoldable pub scope_of : Option String → Scope
scope_of none = everything
scope_of (some s) = if s == "mine" then mine else if s == "market" then market else everything

module _ (x : Externals) (k : Identity) (req : Request) where
  unfoldable pub register_controller : Action Reply
  unfolding registration_of
  register_controller = do
    input ← registration_of req.body
    result ← register_user x k input
    pure (created "User registered." (Http.signed_in result))

  unfoldable pub login_controller : Action Reply
  unfolding string_of
  login_controller = do
    email ← lift (string_of "email" req.body)
    password ← lift (string_of "password" req.body)
    result ← login_user x k email password
    pure (reply "Login successful." (Http.signed_in result))

  unfoldable pub me_controller : AuthUser → Action Reply
  me_controller u = do account ← get_me x k u.id; pure (reply "OK" (Http.account account))

module _ (x : Externals) (req : Request) (u : AuthUser) where
  unfoldable pub request_land_controller : Action Reply
  unfolding text_field number_field optional_text
  request_land_controller = do
    result ← request_land_registration x (record {
      land_id = text_field "landId" req.body;
      plot_number = text_field "plotNumber" req.body;
      location = text_field "location" req.body;
      area_sqm = number_field "areaSqm" req.body;
      land_commitment = text_field "landCommitment" req.body;
      area_commitment = text_field "areaCommitment" req.body;
      request_note = optional_text "requestNote" req.body;
      deed_file = req.file;
      user_id = u.id;
      user_wallet = u.wallet_address;
    })
    pure (
        created "Land registration request submitted. Awaiting authority approval."
          (Http.land (some result)))

  unfoldable pub list_pending_requests_controller : Action Reply
  list_pending_requests_controller = do
    lands ← gets list_pending_requests
    pure (reply "OK" (Http.lands lands))

  unfoldable pub approve_land_controller : String → Action Reply
  approve_land_controller land_id = do
    land ← approve_land x land_id u.id
    pure (reply "Land approved and registered." (Http.land land))

  unfoldable pub reject_land_controller : String → Action Reply
  unfolding optional_text
  reject_land_controller land_id = do
    land ← reject_land x land_id (optional_text "reason" req.body)
    pure (reply "Land request rejected." (Http.land (some land)))

  unfoldable pub list_land_controller : Action Reply
  unfolding scope_of query_value
  list_land_controller = do
    lands ← gets (list_lands (scope_of (query_value "scope" req)) u.id u.role)
    pure (reply "OK" (Http.lands lands))

  unfoldable pub get_land_controller : String → Action Reply
  get_land_controller land_id = do
    land ← lift (← gets (get_land land_id))
    pure (reply "OK" (Http.land (some land)))

  unfoldable pub list_land_for_sale_controller : String → Action Reply
  unfolding text_field
  list_land_for_sale_controller land_id = do
    land ← list_land_for_sale x land_id (text_field "salePrice" req.body) u.id
    pure (reply "Land listed for sale." (Http.land (some land)))

  unfoldable pub cancel_land_sale_controller : String → Action Reply
  cancel_land_sale_controller land_id = do
    land ← cancel_land_sale x land_id u.id
    pure (reply "Land sale cancelled." (Http.land (some land)))

  unfoldable pub stats_controller : Action Reply
  stats_controller = do stats ← gets registry_stats; pure (reply "OK" (Http.stats stats))
