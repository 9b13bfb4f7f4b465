-- ===== src/Tests/Api.antt =====
-- Examples: accounts, the guards of the routes, and a run of the server from its start to an approved
-- land.
use Prim.Native.String.{count}
use thesis_project_land_chai.Prelude.{
  ◌⊎◌, ◌+◌, ◌*◌, ◌%◌, ◌==◌, ◌<>◌, string_eq, nat_eq, String, true, none, some, [], ◌≡◌, refl, arith,
  if◌then◌else◌,
}
use thesis_project_land_chai.Json.{Json, str, num, field, end, obj}
use thesis_project_land_chai.Errors.{ok}
use thesis_project_land_chai.Action.{◌>>=◌}
use thesis_project_land_chai.Externals.{Externals}
use thesis_project_land_chai.Field.{field_prime, sha256_hex}
use thesis_project_land_chai.Db.{User, authority, user, Db, add_user}
use thesis_project_land_chai.Registry.{hash2}
use thesis_project_land_chai.Auth.{AuthUser, Identity}
use thesis_project_land_chai.Auth.{
  Session, Registration, register_user, login_user, seed_authority, session, sign_token,
  verify_token,
}
use thesis_project_land_chai.Auth.Access.{
  authorities, IsSeeded, login_user-register_user, register_user-authorities,
  seed_authority-IsSeeded,
}
use thesis_project_land_chai.Registry.Invariant.{IsRegistry}
use thesis_project_land_chai.Http.{
  unauthorized_response, forbidden_response, request_user, bearer_token,
}
use thesis_project_land_chai.Http.Guards.{handle-forbidden}
use thesis_project_land_chai.Http.Anonymous.{is_open, handle-anonymous}
use thesis_project_land_chai.Http.Reads.{handle_get-reads}
use thesis_project_land_chai.Prelude.Text.{to_lower_case}
use thesis_project_land_chai.Prelude.Text.Bytes.{utf8}
use thesis_project_land_chai.Client.Zk.{Browser, compute_commitments}
use thesis_project_land_chai.Circuit.Completeness.{IsFieldHash}
use thesis_project_land_chai.Http.{Request}
use thesis_project_land_chai.Http.Routes.{
  post_register, land_routes, secured, post_land_request, post_approve, get_stats, role_for, is_get,
  handle,
}
use thesis_project_land_chai.Http.Reach.{
  empty, Reach, none_yet, then_step, answer, Reach-IsRegistry,
}
use thesis_project_land_chai.Tests.Toy.{toy}

-- A hash of field elements.
abbrev pub field_toy : Externals
field_toy = record toy { poseidon = λ a b. (a % field_prime * 3 + b % field_prime * 5 + 7) % 1009 }

pub field_toy-IsFieldHash : IsFieldHash field_toy.poseidon
unfolding field_prime
field_toy-IsFieldHash = record { below = λ a b. omega arith; modulo = λ a b. omega arith }

abbrev pub browser : Browser
browser = record { keccak_id = count; poseidon2 = field_toy.poseidon; random_values = [] }

abbrev pub secret : String
secret = "s3"

abbrev pub seller : AuthUser
seller = record { id = 1; role = user; wallet_address = "0xa"; email = "a@x" }

abbrev pub officer : AuthUser
officer = record { id = 9; role = authority; wallet_address = "0x9"; email = "o@x" }

abbrev pub identity : Identity
identity = record {
  bcrypt_hash = λ p. "hash of " <> p;
  bcrypt_compare = λ p h. h == "hash of " <> p;
  jwt_sign = λ u. "token of " <> u.email;
  jwt_verify =
      λ token. if token == "1" then some seller else if token == "9" then some officer else none;
  authority_name = "Registry";
  authority_email = "o@x";
  authority_password = "password";
  authority_wallet = "0x9";
}

abbrev pub land_body : Json
land_body = obj (
    field "landId" (str "L1") (
      field "plotNumber" (str "12") (
        field "location" (str "Dhaka") (
          field "areaSqm" (num 500) (
            field "landCommitment"
              (str (compute_commitments browser "L1" secret 500).land_commitment)
              (field "areaCommitment"
                (str (compute_commitments browser "L1" secret 500).area_commitment) end))))))

abbrev pub request : String → Json → Request
request header body = record { authorization = some header; body = body; query = []; file = none }

abbrev pub requested : Db
requested =
    (handle field_toy identity none (request "Bearer 1" land_body)
      (secured (land_routes post_land_request)) empty).1

abbrev pub approved_state : Db
approved_state =
    (handle field_toy identity none (request "Bearer 9" land_body)
      (secured (land_routes (post_approve "L1"))) requested).1

pub approved_state-Reach : Reach (hash2 field_toy) approved_state
approved_state-Reach =
    then_step
      (then_step none_yet (
        answer field_toy identity none (request "Bearer 1" land_body)
          (secured (land_routes post_land_request)) refl))
      (answer field_toy identity none (request "Bearer 9" land_body)
        (secured (land_routes (post_approve "L1"))) refl)

Reach-IsRegistry_example : IsRegistry (hash2 field_toy) approved_state.lands
Reach-IsRegistry_example = Reach-IsRegistry (hash2 field_toy) approved_state-Reach

abbrev anonymous : Request
anonymous = record (request "" land_body) { authorization = none }

anonymous-refused : request_user identity anonymous ≡ none
unfolding request_user bearer_token
anonymous-refused = refl

handle-anonymous_example :
    ((secured (land_routes (post_approve "L1")) ≡ post_register)
      ⊎ ((handle field_toy identity none anonymous
            (secured (land_routes (post_approve "L1")))
            requested).1
          ≡ requested))
    × ((is_open (secured (land_routes (post_approve "L1"))) ≡ true)
        ⊎ ((handle field_toy identity none anonymous
              (secured (land_routes (post_approve "L1")))
              requested).0
            ≡ unauthorized_response))
handle-anonymous_example =
    handle-anonymous field_toy identity none anonymous (secured (land_routes (post_approve "L1")))
      requested anonymous-refused

known_seller : request_user identity (request "Bearer 1" land_body) ≡ some seller
unfolding request_user bearer_token verify_token string_eq
known_seller = refl

for_authority : role_for (land_routes (post_approve "L1")) ≡ some authority
unfolding role_for
for_authority = refl

handle-forbidden_example :
    handle field_toy identity none
      (request "Bearer 1" land_body)
      (secured (land_routes (post_approve "L1")))
      requested
    ≡ (forbidden_response, requested)
handle-forbidden_example =
    handle-forbidden field_toy identity none (request "Bearer 1" land_body)
      (land_routes (post_approve "L1")) seller authority requested known_seller for_authority
      (λ e. cc)

get_stats-is_get : is_get (land_routes get_stats) ≡ true
unfolding is_get
get_stats-is_get = refl

handle_get-reads_example :
    (handle field_toy identity none
      (request "Bearer 1" land_body)
      (secured (land_routes get_stats))
      requested).1
    ≡ requested
handle_get-reads_example =
    handle_get-reads field_toy identity none (request "Bearer 1" land_body) (land_routes get_stats)
      requested get_stats-is_get

abbrev anna : Registration
anna = record {
  name = "Anna";
  email = "Anna@X";
  password = "password";
  wallet_address = "0xA";
  nid = "1";
  phone = none;
  address = none;
}

abbrev anna_document : User
unfolding utf8 sha256_hex to_lower_case
anna_document = record {
  id = 1;
  name = "Anna";
  email = "anna@x";
  password_hash = "hash of password";
  wallet_address = "0xa";
  role = user;
  nid_hash = sha256_hex field_toy (utf8 ("landchain-nid:" <> "1"));
  phone = none;
  address = none;
}

anna_registers :
    register_user field_toy identity anna empty
    ≡ (ok (session field_toy identity anna_document), add_user anna_document empty)
unfolding register_user string_eq ◌>>=◌ sha256_hex
anna_registers = refl

-- The libraries a day later: another salt, and another token.
abbrev later : Identity
later = record identity {
  bcrypt_hash = λ p. "salted hash of " <> p;
  jwt_sign = λ u. "second token of " <> u.email;
}

login_user-register_user_example :
    (s' : Session) × (u : User) × (login_user field_toy later "Anna@X" "password"
        (add_user anna_document empty)
      ≡ (ok s', add_user anna_document empty))
    × (s'.account ≡ (session field_toy identity anna_document).account)
    × ((session field_toy identity anna_document).token ≡ sign_token field_toy identity u)
    × (s'.token ≡ sign_token field_toy later u)
    × (u.email ≡ (session field_toy identity anna_document).account.email)
    × (u.role ≡ user)
unfolding string_eq
login_user-register_user_example =
    login_user-register_user field_toy field_toy identity later anna empty
      (add_user anna_document empty) (session field_toy identity anna_document) refl anna_registers

register_user-authorities_example :
    authorities (register_user field_toy identity anna empty).1 ≡ authorities empty
register_user-authorities_example = register_user-authorities field_toy identity anna empty

seed_authority-IsSeeded_example :
    IsSeeded field_toy identity (seed_authority field_toy identity empty)
seed_authority-IsSeeded_example = seed_authority-IsSeeded field_toy identity empty
