-- ===== src/Auth.antt =====
-- apps/server/src/services/auth.service.ts and utils/jwt.util.ts: accounts, passwords, tokens.
pub mod Access
use thesis_project_land_chai.Prelude.{
  ℕ, String, Bool, true, false, ◌==◌, ◌<>◌, ◌||◌, string_eq, nat_eq, Option, none, some, List, [],
  ◌∷◌, find, is_some, not, if◌then◌else◌,
}
use thesis_project_land_chai.Prelude.Text.{to_lower_case, trim}
use thesis_project_land_chai.Prelude.Text.Bytes.{utf8}
use thesis_project_land_chai.Errors.{
  Error, bad_request, not_found, unauthorized, duplicate_key, validation, Result, ok, err,
}
use thesis_project_land_chai.Externals.{Externals}
use thesis_project_land_chai.Field.{sha256_hex}
use thesis_project_land_chai.Db.{User, Role, Role-eq, authority, user, Db, find_user, add_user}
use thesis_project_land_chai.Action.{Action, pure, gets, or_throw, modify, guards, ◌>>=◌, ◌>>◌}

-- `AuthUser` of types/user.types.ts: what a token carries.
pub record AuthUser : Type 0 where
  pub id : ℕ
  pub role : Role
  pub wallet_address : String
  pub email : String

-- bcrypt, jsonwebtoken and the AUTHORITY_ settings, as they answer during one request: `jwt.sign` puts
-- the time of signing and the expiry seven days later into the token, `bcrypt.hash` a salt into the
-- hash, and another request has another `Identity`. `none` of `jwt_verify` is its exception, for a
-- token that is forged or has expired.
pub record Identity : Type 0 where
  pub bcrypt_hash : String → String
  pub bcrypt_compare : String → String → Bool
  pub jwt_sign : AuthUser → String
  pub jwt_verify : String → Option AuthUser
  pub authority_name : String
  pub authority_email : String
  pub authority_password : String
  pub authority_wallet : String

pub record Registration : Type 0 where
  pub name : String
  pub email : String
  pub password : String
  pub wallet_address : String
  pub nid : String
  pub phone : Option String
  pub address : Option String

-- `sanitizeUser`: the document without its password hash.
pub record SafeUser : Type 0 where
  pub id : ℕ
  pub name : String
  pub email : String
  pub wallet_address : String
  pub role : Role
  pub nid_hash : String
  pub phone : Option String
  pub address : Option String

pub record Session : Type 0 where
  pub account : SafeUser
  pub token : String

unfoldable pub sanitize_user : User → SafeUser
sanitize_user u = record {
  id = u.id;
  name = u.name;
  email = u.email;
  wallet_address = u.wallet_address;
  role = u.role;
  nid_hash = u.nid_hash;
  phone = u.phone;
  address = u.address;
}

-- The setters of the `email` path, which queries apply too.
unfoldable pub email_path : String → String
unfolding trim to_lower_case
email_path s = trim (to_lower_case s)

unfoldable pub find_email : String → Db → Option User
unfolding email_path
find_email email db = find (λ (u : User). u.email == email_path email) db.users

unfoldable pub find_wallet : String → Db → Option User
find_wallet wallet db = find (λ (u : User). u.wallet_address == wallet) db.users

trim_option : Option String → Option String
unfolding trim
trim_option none = none
trim_option (some s) = some (trim s)

-- The document that the schema makes of the fields, with the setters of its paths.
unfoldable pub user_document : User → User
unfolding email_path trim to_lower_case trim_option
user_document u = record u {
  name = trim u.name;
  email = email_path u.email;
  wallet_address = to_lower_case u.wallet_address;
  phone = trim_option u.phone;
  address = trim_option u.address;
}

-- A required path that is empty.
unfoldable pub user_invalid : User → Bool
user_invalid u =
    u.name == ""
    || u.email == ""
    || u.password_hash == ""
    || u.wallet_address == ""
    || u.nid_hash == ""

-- A second document with the same unique key.
unfoldable pub user_duplicate : User → Db → Option String
unfolding find_wallet
user_duplicate u db =
    if is_some (find (λ (v : User). v.email == u.email) db.users)
    then some "email"
    else if is_some (find_wallet u.wallet_address db)
    then some "walletAddress"
    else none

-- `UserModel.create`
unfoldable pub create_user : User → Action User
unfolding user_document user_invalid user_duplicate
create_user u db =
    let doc = record (user_document u) { id = db.next_id } in
    if user_invalid doc
    then (err (validation "User validation failed"), db)
    else elim (user_duplicate doc db) [
      | some key ↦ (err (duplicate_key key), db)
      | none ↦ (ok doc, add_user doc db)
    ]

unfoldable pub find_authority : Db → Option User
find_authority db = find (λ (u : User). u.role == authority) db.users

-- `verifyToken`
unfoldable pub verify_token : Identity → String → Option AuthUser
verify_token k token = k.jwt_verify token

module _ (x : Externals) (k : Identity) where
  unfoldable pub sign_token : User → String
  sign_token u =
      k.jwt_sign
        (record { id = u.id; role = u.role; wallet_address = u.wallet_address; email = u.email })

  unfoldable pub session : User → Session
  unfolding sign_token sanitize_user
  session u = record { account = sanitize_user u; token = sign_token u }

  unfoldable pub registered_user : Registration → User
  unfolding to_lower_case utf8
  registered_user i = record {
    id = 0;
    name = i.name;
    email = to_lower_case i.email;
    password_hash = k.bcrypt_hash i.password;
    wallet_address = to_lower_case i.wallet_address;
    role = user;
    nid_hash = sha256_hex x (utf8 ("landchain-nid:" <> i.nid));
    phone = i.phone;
    address = i.address;
  }

  unfoldable pub register_user : Registration → Action Session
  unfolding registered_user create_user session to_lower_case
  register_user i = do
    guards
        ((to_lower_case i.email == k.authority_email, bad_request "This email is reserved.") ∷ [])
    created ← create_user (registered_user i)
    pure (session created)

  unfoldable pub login_user : String → String → Action Session
  unfolding find_email session to_lower_case
  login_user email password = do
    found ←
        or_throw (← gets (find_email (to_lower_case email))) (unauthorized "Invalid credentials.")
    guards (
        (not (k.bcrypt_compare password found.password_hash), unauthorized "Invalid credentials.")
        ∷ [])
    pure (session found)

  unfoldable pub get_me : ℕ → Action SafeUser
  unfolding sanitize_user
  get_me user_id = do
    found ← or_throw (← gets (find_user user_id)) (not_found "User not found.")
    pure (sanitize_user found)

  unfoldable pub authority_account : User
  unfolding utf8
  authority_account = record {
    id = 0;
    name = k.authority_name;
    email = k.authority_email;
    password_hash = k.bcrypt_hash k.authority_password;
    wallet_address = k.authority_wallet;
    role = authority;
    nid_hash = sha256_hex x (utf8 "landchain-authority");
    phone = none;
    address = none;
  }

  -- At startup: a second run finds the account and writes nothing.
  unfoldable pub seed_authority : Action (Unit {0})
  unfolding authority_account find_authority create_user
  seed_authority = do
    existing ← gets find_authority
    elim existing [
      | some account ↦ pure tt
      | none ↦ create_user authority_account >>= λ created. pure tt
    ]
