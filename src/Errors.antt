-- ===== src/Errors.antt =====
-- Errors as values: `AppError` of apps/server/src/utils/errors.util.ts, the errors of other kinds
-- that reach the error middleware, and results of code that may throw.
use thesis_project_land_chai.Prelude.{
  ℕ, ◌≡◌, refl, ap, Bool, true, false, ◌⊎◌, inl, inr, List, [], ◌∷◌, String, All, if◌then◌else◌,
}

-- `duplicate_key` is a violated unique index, with the index's field; `validation` is a refusal by
-- a schema; `plain` is any other `Error`.
pub data Error : Type 0 where
  app_error : (message : String) (status_code : ℕ) → Error
  duplicate_key : (field : String) → Error
  validation : (message : String) → Error
  plain : (message : String) → Error

abbrev pub bad_request : String → Error
bad_request message = app_error message 400

abbrev pub unauthorized : String → Error
unauthorized message = app_error message 401

abbrev pub forbidden : String → Error
forbidden message = app_error message 403

abbrev pub not_found : String → Error
not_found message = app_error message 404

abbrev pub conflict : String → Error
conflict message = app_error message 409

-- What a call that may throw comes to.
pub data Result (A : Type 0) : Type 0 where
  err : Error → Result A
  ok : A → Result A

infixl 5 ◌>>=◌ ◌>>◌
-- `await` of the first call, and the rest unless it threw.
abbrev pub ◌>>=◌ : {A B : Type 0} → Result A → (A → Result B) → Result B
err thrown >>= rest = err thrown
ok value >>= rest = rest value

pub >>=-eq-ok :
    {A B : Type 0} (m : Result A) (rest : A → Result B) {b : B}
    → (m >>= rest) ≡ ok b
    → (a : A) × (m ≡ ok a) × (rest a ≡ ok b)
>>=-eq-ok (err thrown) rest h = cc
>>=-eq-ok (ok value) rest h = (value, refl, h)

abbrev pub ◌>>◌ : {B : Type 0} → Result (Unit {0}) → Result B → Result B
m >> k = m >>= λ done. k

-- A run of `if (condition) throw error` lines: the first condition that holds throws.
abbrev pub throw_first : List (Bool × Error) → Result (Unit {0})
throw_first [] = ok tt
throw_first ((c, e) ∷ gs) = if c then err e else throw_first gs

abbrev pub AllPass : List (Bool × Error) → Type 0
AllPass = All (λ g. g.0 ≡ false)

pub throw_first-AllPass :
    (gs : List (Bool × Error)) {u : Unit {0}} → throw_first gs ≡ ok u → AllPass gs
throw_first-AllPass [] h = tt
throw_first-AllPass ((true, e) ∷ gs) h = cc
throw_first-AllPass ((false, e) ∷ gs) h = (refl, throw_first-AllPass gs h)

pub ok_injective : {A : Type 0} {a b : A} → ok a ≡ ok b → a ≡ b
ok_injective {a} h = ap (λ r. elim r [ ok c ↦ c | err e ↦ a ]) h

pub Result-cases :
    {A : Type 0} (r : Result A) → ((a : A) × (r ≡ ok a)) ⊎ ((e : Error) × (r ≡ err e))
Result-cases (ok a) = inl (a, refl)
Result-cases (err e) = inr (e, refl)
