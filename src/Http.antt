-- ===== src/Http.antt =====
-- The API over HTTP, apps/server/src: requests and responses, the error middleware, and the
-- middlewares that stand in front of the controllers. Express itself, the parsing of bodies by
-- `express.json` and multer, and the matching of paths are not modelled: a request comes with its
-- endpoint, its body and its file.
pub mod Body
pub mod Controllers
pub mod Exchange
pub mod Routes
pub mod Guards
pub mod Anonymous
pub mod Middleware
pub mod Reads
pub mod Preserved
pub mod Reach
pub mod Proving
use Prim.Native.String as Text
use text.Mathlib.Text.{starts_with}
use thesis_project_land_chai.Prelude.{
  ℕ, zero, suc, ◌+◌, ◌*◌, ◌==◌, ◌<>◌, string_eq, nat_eq, String, Bool, true, false, ◌&&◌, ◌||◌,
  Option, none, some, List, [], ◌∷◌, not, leb, contains, if◌then◌else◌,
}
use thesis_project_land_chai.Prelude.Text.{to_lower_case}
use thesis_project_land_chai.Errors.{
  Error, app_error, duplicate_key, validation, plain, bad_request, Result, ok, err,
}
use thesis_project_land_chai.Externals.{CircuitName, Artifact}
use thesis_project_land_chai.Json.{Json}
use thesis_project_land_chai.Db.{Land, Challenge, Proof, Transaction, Role, Role-eq, Db}
use thesis_project_land_chai.Action.{Action}
use thesis_project_land_chai.Zk.{ArtifactStatus}
use thesis_project_land_chai.Ipfs.{DeedFile, DeedRef, DeedDocument}
use thesis_project_land_chai.Land.Listing.{RegistryStats}
use thesis_project_land_chai.Explorer.{ExplorerResponse}
use thesis_project_land_chai.Auth.{AuthUser, Identity, SafeUser, Session, verify_token}

pub record Request : Type 0 where
  pub authorization : Option String
  pub body : Json
  pub query : List (String × String)
  pub file : Option DeedFile

-- `data` of a response.
pub data Payload : Type 0 where
  nothing : Payload
  signed_in : Session → Payload
  account : SafeUser → Payload
  land : Option Land → Payload
  lands : List Land → Payload
  stats : RegistryStats → Payload
  challenge : Option Challenge → Payload
  challenges : List Challenge × List Challenge → Payload
  answer : Option Challenge × Proof → Payload
  proof : Proof → Payload
  proofs : List Proof → Payload
  circuits : List ArtifactStatus → Payload
  purchase : Option Land × Transaction → Payload
  deed : DeedRef → Payload
  document : DeedDocument → Payload
  transactions : List Transaction → Payload
  blocks : ExplorerResponse → Payload
  artifact : CircuitName → Artifact → Payload

pub record Response : Type 0 where
  pub status : ℕ
  pub success : Bool
  pub message : String
  pub errors : List String
  pub payload : Payload

-- What a controller hands to `ok` or `created`.
pub record Reply : Type 0 where
  pub status : ℕ
  pub message : String
  pub payload : Payload

abbrev pub Handler : Type 0
Handler = Db → Response × Db

abbrev pub refusal : ℕ → String → Response
refusal status message = record {
  status = status;
  success = false;
  message = message;
  errors = [];
  payload = nothing;
}

-- messages.ts
abbrev pub unauthorized_response : Response
unauthorized_response = refusal 401 "Authentication is required."

abbrev pub forbidden_response : Response
forbidden_response = refusal 403 "You do not have permission for this action."

abbrev pub invalid_response : List String → Response
invalid_response errors = record {
  status = 400;
  success = false;
  message = "Request validation failed.";
  errors = errors;
  payload = nothing;
}

-- A text within another.
unfoldable pub includes : String → String → Bool
includes part Text.[] = starts_with Text.[] part
includes part (Text.◌∷◌ c s) = starts_with (Text.◌∷◌ c s) part || includes part s

abbrev pub respond_error : String → ℕ → Response
respond_error message status =
    if includes "deed documents are accepted" (to_lower_case message)
    then refusal 400 message
    else refusal status message

-- `errorMiddleware`. A text about deed documents is a client error whatever class it has.
unfoldable pub error_response : Error → Response
unfolding includes to_lower_case
error_response (duplicate_key field) = refusal 409 (field <> " already exists.")
error_response (app_error message status_code) = respond_error message status_code
error_response (validation message) = respond_error message 500
error_response (plain message) = respond_error message 500

unfoldable pub respond : Result Reply → Response
unfolding error_response
respond (err e) = error_response e
respond (ok r) = record {
  status = r.status;
  success = true;
  message = r.message;
  errors = [];
  payload = r.payload;
}

-- A controller's run, with what it throws turned into a response.
unfoldable pub controlled : Action Reply → Handler
unfolding respond
controlled run db = (respond (run db).0, (run db).1)

-- `header.slice(7)` behind `Bearer `.
drop_text : ℕ → String → String
drop_text zero s = s
drop_text (suc n) Text.[] = Text.[]
drop_text (suc n) (Text.◌∷◌ c s) = drop_text n s

unfoldable pub bearer_token : Option String → Option String
unfolding drop_text
bearer_token none = none
bearer_token (some header) =
    if starts_with header "Bearer " && not (drop_text 7 header == "")
    then some (drop_text 7 header)
    else none

-- The user of a request, where its token is valid.
unfoldable pub request_user : Identity → Request → Option AuthUser
unfolding bearer_token verify_token
request_user k req = elim (bearer_token req.authorization) [
  | none ↦ none
  | some token ↦ verify_token k token
]

-- `requireAuth`
unfoldable pub require_auth : Identity → Request → (AuthUser → Handler) → Handler
unfolding request_user
require_auth k req next db = elim (request_user k req) [
  | none ↦ (unauthorized_response, db)
  | some u ↦ next u db
]

-- `requireRole`
unfoldable pub require_role : List Role → AuthUser → Handler → Handler
require_role roles u next db = if contains roles u.role then next db else (forbidden_response, db)

-- `validate`
unfoldable pub validate : (Json → List String) → Json → Handler → Handler
validate validator body next db = elim (validator body) [
  | [] ↦ next db
  | e ∷ es ↦ (invalid_response (e ∷ es), db)
]

abbrev pub allowed_mime : List String
allowed_mime = "application/pdf" ∷ "image/png" ∷ "image/jpeg" ∷ []

-- `upload.single("deed")`: multer's own error has status 400 as the error middleware answers it.
unfoldable pub upload_single : Option DeedFile → Handler → Handler
unfolding error_response
upload_single none next db = next db
upload_single (some file) next db =
    if not (contains allowed_mime file.mimetype)
    then (error_response (plain "Only PDF, PNG, or JPEG deed documents are accepted."), db)
    else if leb (10 * 1024 * 1024 + 1) file.size
    then (error_response (bad_request "File too large"), db)
    else next db
