-- ===== src/Auth/Access.antt =====
-- What registering, logging in and seeding come to.
use thesis_project_land_chai.Prelude.{
  String, Bool, true, false, ◌==◌, string_eq, none, some, List, [], ◌∷◌, ◌++◌, find, filter,
  is_some, ◌≡◌, refl, sym, ap, ◌∙◌, ◌⊎◌, inl, inr, arith, Bool-cases, Option-cases,
}
use mathlib.Core.Path.{subst}
use thesis_project_land_chai.Prelude.Text.{to_lower_case}
use thesis_project_land_chai.Errors.{Error, validation, duplicate_key, Result, ok, err}
use thesis_project_land_chai.Externals.{Externals}
use thesis_project_land_chai.Db.{User, Role-eq, Role-discrete, user, authority, Db, add_user}
use thesis_project_land_chai.Action.{◌>>=◌}
use thesis_project_land_chai.Auth.{
  Identity, Registration, Session, email_path, find_email, user_document, user_invalid,
  user_duplicate, create_user, sanitize_user, sign_token, session, registered_user, register_user,
  login_user, authority_account, find_authority, seed_authority,
}

find-append {ℓ} :
    {A : Type ℓ} (p : A → Bool) (xs : List A) (a : A)
    → find p xs ≡ none
    → p a ≡ true
    → find p (xs ++ a ∷ []) ≡ some a
find-append p [] a h t = ground (arith, h, t)
find-append p (y ∷ ys) a h t = elim (Bool-cases (p y)) [
  | inl hit ↦ ground (arith, hit, h)
  | inr miss ↦ ground (arith, miss, h, find-append p ys a)
]

filter_skip {ℓ} :
    {A : Type ℓ} (p : A → Bool) (xs : List A) (a : A)
    → p a ≡ false
    → filter p (xs ++ a ∷ []) ≡ filter p xs
filter_skip p [] a h = ground (arith, h)
filter_skip p (y ∷ ys) a h = ground (arith, filter_skip p ys a h)

unfoldable pub stored : User → Db → User
unfolding user_document email_path
stored u db = record (user_document u) { id = db.next_id }

user_duplicate-none :
    (d : User) (db : Db)
    → user_duplicate d db ≡ none
    → find (λ (v : User). v.email == d.email) db.users ≡ none
unfolding user_duplicate
user_duplicate-none d db h =
    elim (Option-cases (find (λ (v : User). v.email == d.email) db.users)) [
      | inl free ↦ free
      | inr (v, taken) ↦ ground (arith, taken, h)
    ]

-- The document is stored, or nothing is written; it is stored only where no account has its email.
pub create_user-cases :
    (u : User) (db : Db)
    → ((create_user u db ≡ (ok (stored u db), add_user (stored u db) db))
        × (find (λ (v : User). v.email == (stored u db).email) db.users ≡ none))
      ⊎ ((e : Error) × (create_user u db ≡ (err e, db)))
unfolding create_user stored
create_user-cases u db = elim (Bool-cases (user_invalid (stored u db))) [
  | inl bad ↦ inr (validation "User validation failed", ground (arith, bad))
  | inr fine ↦ elim (Option-cases (user_duplicate (stored u db) db)) [
    | inl free ↦ inl (ground (arith, fine, free), user_duplicate-none (stored u db) db free)
    | inr (key, taken) ↦ inr (duplicate_key key, ground (arith, fine, taken))
  ]
]

abbrev pub authorities : Db → List User
authorities db = filter (λ (u : User). u.role == authority) db.users

module _ (x : Externals) (k : Identity) where
  abbrev account : Registration → Db → User
  account i db = stored (registered_user x k i) db

  register_run :
      (i : Registration) (db : Db)
      → (to_lower_case i.email == k.authority_email) ≡ false
      → create_user (registered_user x k i) db ≡ (ok (account i db), add_user (account i db) db)
      → register_user x k i db ≡ (ok (session x k (account i db)), add_user (account i db) db)
  unfolding register_user ◌>>=◌
  register_run i db free created = ground (arith, free, created)

  login_run :
      (email password : String) (db : Db) (u : User)
      → find_email (to_lower_case email) db ≡ some u
      → k.bcrypt_compare password u.password_hash ≡ true
      → login_user x k email password db ≡ (ok (session x k u), db)
  unfolding login_user ◌>>=◌
  login_run email password db u found accepts = ground (arith, found, accepts)

  found_account :
      (i : Registration) (db : Db)
      → find (λ (v : User). v.email == (account i db).email) db.users ≡ none
      → find_email (to_lower_case i.email) (add_user (account i db) db) ≡ some (account i db)
  unfolding find_email stored user_document registered_user
  found_account i db free = find-append _ db.users (account i db) free (ground (arith))

  account_user : (i : Registration) (db : Db) → ((account i db).role == authority) ≡ false
  unfolding stored user_document registered_user Role-eq Role-discrete
  account_user i db = refl

  -- Registration leaves the authority's account, or its absence, as it was, on every branch.
  pub register_user-authorities :
      (i : Registration) (db : Db) → authorities (register_user x k i db).1 ≡ authorities db
  unfolding register_user ◌>>=◌
  register_user-authorities i db = elim (Bool-cases (to_lower_case i.email == k.authority_email)) [
    | inl reserved ↦ ground (arith, reserved)
    | inr other ↦ elim (create_user-cases (registered_user x k i) db) [
      | inl (created, free) ↦
          ap (λ r. authorities r.1) (register_run i db other created)
          ∙ filter_skip _ db.users (account i db) (account_user i db)
      | inr (e, refused) ↦ ground (arith, other, refused)
    ]
  ]

  seed_run :
      (db : Db)
      → find_authority db ≡ none
      → create_user (authority_account x k) db
        ≡ (ok (stored (authority_account x k) db), add_user (stored (authority_account x k) db) db)
      → seed_authority x k db ≡ (ok tt, add_user (stored (authority_account x k) db) db)
  unfolding seed_authority ◌>>=◌
  seed_run db none_yet created = ground (arith, none_yet, created)

  seed_refused :
      (db : Db) (e : Error)
      → find_authority db ≡ none
      → create_user (authority_account x k) db ≡ (err e, db)
      → seed_authority x k db ≡ (err e, db)
  unfolding seed_authority ◌>>=◌
  seed_refused db e none_yet refused = ground (arith, none_yet, refused)

  account_authority : (db : Db) → ((stored (authority_account x k) db).role == authority) ≡ true
  unfolding stored user_document authority_account Role-eq Role-discrete
  account_authority db = refl

  seeded :
      (db : Db)
      → find_authority db ≡ none
      → find_authority (add_user (stored (authority_account x k) db) db)
        ≡ some (stored (authority_account x k) db)
  unfolding find_authority
  seeded db none_yet = find-append _ db.users _ none_yet (account_authority db)

  seed_again :
      (db : Db) (u : User) → find_authority db ≡ some u → seed_authority x k db ≡ (ok tt, db)
  unfolding seed_authority ◌>>=◌
  seed_again db u found = ground (arith, found)

  abbrev pub IsSeeded : Result (Unit {0}) × Db → Type 0
  IsSeeded (ok done, db) =
      (is_some (find_authority db) ≡ true) × (seed_authority x k db ≡ (ok tt, db))
  IsSeeded (err e, db) = Unit

  -- After a start of the server that seeds, there is an account of the authority, and seeding again
  -- writes nothing.
  pub seed_authority-IsSeeded : (db : Db) → IsSeeded (seed_authority x k db)
  unfolding seed_authority ◌>>=◌
  seed_authority-IsSeeded db = elim (Option-cases (find_authority db)) [
    | inl none_yet ↦ elim (create_user-cases (authority_account x k) db) [
      | inl (created, free) ↦
          let found = seeded db none_yet in
          subst IsSeeded (sym (seed_run db none_yet created))
            (ap is_some found, seed_again (add_user (stored (authority_account x k) db) db) _ found)
      | inr (e, refused) ↦ subst IsSeeded (sym (seed_refused db e none_yet refused)) tt
    ]
    | inr (u, found) ↦
        subst IsSeeded (sym (seed_again db u found)) (ap is_some found, seed_again db u found)
  ]

-- The registration under `x` and `k`, and the login in a later request, under `y` and `l`.
module _ (x y : Externals) (k l : Identity) where
  abbrev LogsIn : Registration → Result Session × Db → Type 0
  LogsIn i (ok s, db) =
      (s' : Session) × (u : User) × (login_user y l i.email i.password db ≡ (ok s', db))
      × (s'.account ≡ s.account)
      × (s.token ≡ sign_token x k u)
      × (s'.token ≡ sign_token y l u)
      × (u.email ≡ s.account.email)
      × (u.role ≡ user)
  LogsIn i (err e, db) = Unit

  account-LogsIn :
      (i : Registration) (db : Db)
      → l.bcrypt_compare i.password (k.bcrypt_hash i.password) ≡ true
      → find (λ (v : User). v.email == (account x k i db).email) db.users ≡ none
      → LogsIn i (ok (session x k (account x k i db)), add_user (account x k i db) db)
  unfolding stored session registered_user user_document sanitize_user
  account-LogsIn i db accepts free = (
    session y l (account x k i db),
    account x k i db,
    login_run y l i.email i.password (add_user (account x k i db) db) (account x k i db)
        (found_account x k i db free) accepts,
    refl,
    refl,
    refl,
    refl,
    refl,
  )

  -- An account that registers can log in, in a later request, with the email and the password it gave,
  -- and nothing is written: the login returns the same account, which is a user's, and a token of its own,
  -- signed then for the user that the first token was signed for; where bcrypt accepts a password under
  -- its own hash.
  pub login_user-register_user :
      (i : Registration) (db db' : Db) (s : Session)
      → l.bcrypt_compare i.password (k.bcrypt_hash i.password) ≡ true
      → register_user x k i db ≡ (ok s, db')
      → (s' : Session) × (u : User) × (login_user y l i.email i.password db' ≡ (ok s', db'))
        × (s'.account ≡ s.account)
        × (s.token ≡ sign_token x k u)
        × (s'.token ≡ sign_token y l u)
        × (u.email ≡ s.account.email)
        × (u.role ≡ user)
  unfolding register_user ◌>>=◌ stored
  login_user-register_user i db db' s accepts h =
      elim (Bool-cases (to_lower_case i.email == k.authority_email)) [
        | inl reserved ↦ ground (arith, reserved, h)
        | inr other ↦ elim (create_user-cases (registered_user x k i) db) [
          | inl (created, free) ↦
              subst (LogsIn i) (sym (register_run x k i db other created) ∙ h)
                (account-LogsIn i db accepts free)
          | inr (e, refused) ↦ ground (arith, other, refused, h)
        ]
      ]
