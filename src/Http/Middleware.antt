-- ===== src/Http/Middleware.antt =====
-- What the middlewares maintain: each of them answers without writing, or calls the next handler.
use thesis_project_land_chai.Prelude.{
  String, Option, none, some, List, [], ◌∷◌, contains, string_eq, leb, ◌+◌, ◌*◌, ◌⊎◌, ◌≡◌, refl,
  sym, inl, inr, arith, Option-cases, Bool-cases,
}
use mathlib.Core.Path.{subst}
use thesis_project_land_chai.Errors.{plain, bad_request}
use thesis_project_land_chai.Json.{Json}
use thesis_project_land_chai.Db.{Role, Role-eq, Db}
use thesis_project_land_chai.Action.{Action}
use thesis_project_land_chai.Action.Maintains.{Maintains}
use thesis_project_land_chai.Ipfs.{DeedFile}
use thesis_project_land_chai.Auth.{AuthUser, Identity}
use thesis_project_land_chai.Http.{
  Request, Reply, Response, Handler, allowed_mime, error_response, invalid_response,
  unauthorized_response, forbidden_response, controlled, request_user, require_auth, require_role,
  validate, upload_single,
}

-- A middleware calls the next handler, or answers itself and writes nothing.
abbrev PassesOrStops : Handler → Handler → Db → Type 0
PassesOrStops next gate db = (gate db ≡ next db) ⊎ ((r : Response) × (gate db ≡ (r, db)))

role_gate :
    (roles : List Role) (u : AuthUser) (next : Handler) (db : Db)
    → PassesOrStops next (require_role roles u next) db
unfolding require_role
role_gate roles u next db = elim (Bool-cases (contains roles u.role)) [
  | inl has ↦ inl (ground (arith, has))
  | inr lacks ↦ inr (forbidden_response, ground (arith, lacks))
]

errors_cases :
    (es : List String) → (es ≡ []) ⊎ ((e : String) × (rest : List String) × (es ≡ e ∷ rest))
errors_cases [] = inl refl
errors_cases (e ∷ rest) = inr (e, rest, refl)

validate_gate :
    (validator : Json → List String) (body : Json) (next : Handler) (db : Db)
    → PassesOrStops next (validate validator body next) db
unfolding validate
validate_gate validator body next db = elim (errors_cases (validator body)) [
  | inl fine ↦ inl (ground (arith, fine))
  | inr (e, rest, bad) ↦ inr (invalid_response (e ∷ rest), ground (arith, bad))
]

upload_gate :
    (file : Option DeedFile) (next : Handler) (db : Db)
    → PassesOrStops next (upload_single file next) db
unfolding upload_single
upload_gate none next db = inl refl
upload_gate (some file) next db = elim (Bool-cases (contains allowed_mime file.mimetype)) [
  | inl allowed ↦ elim (Bool-cases (leb (10 * 1024 * 1024 + 1) file.size)) [
    | inl large ↦
        inr (error_response (bad_request "File too large"), ground (arith, allowed, large))
    | inr fits ↦ inl (ground (arith, allowed, fits))
  ]
  | inr other ↦ inr (
    error_response (plain "Only PDF, PNG, or JPEG deed documents are accepted."),
    ground (arith, other),
  )
]

module _ (k : Identity) (req : Request) (next : AuthUser → Handler) where
  auth_missing :
      (db : Db)
      → request_user k req ≡ none
      → require_auth k req next db ≡ (unauthorized_response, db)
  unfolding require_auth
  auth_missing db h = ground (arith, h)

  auth_found :
      (u : AuthUser) (db : Db)
      → request_user k req ≡ some u
      → require_auth k req next db ≡ next u db
  unfolding require_auth
  auth_found u db h = ground (arith, h)

module _ {ℓ} {Q : Db → Type ℓ} where
  Maintains-gate :
      (next gate : Handler)
      → ((db : Db) → PassesOrStops next gate db)
      → Maintains Q next
      → Maintains Q gate
  Maintains-gate next gate cases m = record {
    maintained = λ db q. elim (cases db) [
      | inl passes ↦ subst (λ r. Q r.1) (sym passes) (m.maintained db q)
      | inr (r, stops) ↦ subst (λ r. Q r.1) (sym stops) q
    ];
  }

  pub Maintains-controlled : (run : Action Reply) → Maintains Q run → Maintains Q (controlled run)
  unfolding controlled
  Maintains-controlled run m = record { maintained = m.maintained }

  pub Maintains-require_role :
      (roles : List Role) (u : AuthUser) (next : Handler)
      → Maintains Q next
      → Maintains Q (require_role roles u next)
  Maintains-require_role roles u next = Maintains-gate next _ (role_gate roles u next)

  pub Maintains-validate :
      (validator : Json → List String) (body : Json) (next : Handler)
      → Maintains Q next
      → Maintains Q (validate validator body next)
  Maintains-validate validator body next = Maintains-gate next _ (validate_gate validator body next)

  pub Maintains-upload_single :
      (file : Option DeedFile) (next : Handler)
      → Maintains Q next
      → Maintains Q (upload_single file next)
  Maintains-upload_single file next = Maintains-gate next _ (upload_gate file next)

  pub Maintains-require_auth :
      (k : Identity) (req : Request) (next : AuthUser → Handler)
      → ((u : AuthUser) → Maintains Q (next u))
      → Maintains Q (require_auth k req next)
  Maintains-require_auth k req next m = record {
    maintained = λ db q. elim (Option-cases (request_user k req)) [
      | inl missing ↦ subst (λ r. Q r.1) (sym (auth_missing k req next db missing)) q
      | inr (u, found) ↦
          subst (λ r. Q r.1) (sym (auth_found k req next u db found)) ((m u).maintained db q)
    ];
  }

pub ruleset handler_rules = (
  Maintains-controlled, Maintains-require_role, Maintains-validate, Maintains-upload_single,
  Maintains-require_auth,
)
