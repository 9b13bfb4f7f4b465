-- ===== src/Action.antt =====
-- A handler's run: it reads and writes the database, and may throw. What was written before a
-- throw stays written.
pub mod Keeps
pub mod Maintains
use thesis_project_land_chai.Prelude.{◌≡◌, refl, ap, Bool, Option, none, some, List, ◌⊎◌, inl, inr}
use thesis_project_land_chai.Errors.{Error, Result, ok, err, throw_first}
use thesis_project_land_chai.Db.{Db}

abbrev pub Action : Type 0 → Type 0
Action A = Db → Result A × Db

module _ {A : Type 0} where
  abbrev pub pure : A → Action A
  pure a db = (ok a, db)

  abbrev pub throw : Error → Action A
  throw e db = (err e, db)

  abbrev pub lift : Result A → Action A
  lift r db = (r, db)

  abbrev pub gets : (Db → A) → Action A
  gets f db = (ok (f db), db)

  -- `if (!value) throw error`
  abbrev pub or_throw : Option A → Error → Action A
  or_throw none e db = (err e, db)
  or_throw (some a) e db = (ok a, db)

abbrev pub modify : (Db → Db) → Action (Unit {0})
modify f db = (ok tt, f db)

-- A run of `if (condition) throw error` lines.
abbrev pub guards : List (Bool × Error) → Action (Unit {0})
guards gs db = (throw_first gs, db)

abbrev proceed : {A B : Type 0} → (A → Action B) → Result A × Db → Result B × Db
proceed f (ok a, db) = f a db
proceed f (err e, db) = (err e, db)

infixl 5 ◌>>=◌ ◌>>◌
unfoldable pub ◌>>=◌ : {A B : Type 0} → Action A → (A → Action B) → Action B
◌>>=◌ m f db = proceed f (m db)

abbrev pub ◌>>◌ : {A B : Type 0} → Action A → Action B → Action B
m >> k = m >>= λ _. k

proceed-eq-ok :
    {A B : Type 0} (f : A → Action B) (r : Result A × Db) {b : B} {db' : Db}
    → proceed f r ≡ (ok b, db')
    → (a : A) × (mid : Db) × (r ≡ (ok a, mid)) × (f a mid ≡ (ok b, db'))
proceed-eq-ok f (ok a, mid) k = (a, mid, refl, k)
proceed-eq-ok f (err x, mid) k = cc

-- Inversion of a successful bind.
pub >>=-eq-ok :
    {A B : Type 0} (m : Action A) (f : A → Action B) (db : Db) {b : B} {db' : Db}
    → (m >>= f) db ≡ (ok b, db')
    → (a : A) × (mid : Db) × (m db ≡ (ok a, mid)) × (f a mid ≡ (ok b, db'))
unfolding ◌>>=◌
>>=-eq-ok m f db h = proceed-eq-ok f (m db) h

-- A step that returns hands its value and its state to the rest.
pub bind-ok :
    {A B : Type 0} (m : Action A) (f : A → Action B) (db : Db) {a : A} {mid : Db}
    → m db ≡ (ok a, mid)
    → (m >>= f) db ≡ f a mid
unfolding ◌>>=◌
bind-ok m f db e = ap (proceed f) e

-- A step that throws ends the run in the state that it leaves.
pub bind-err :
    {A B : Type 0} (m : Action A) (f : A → Action B) (db : Db) {e : Error} {mid : Db}
    → m db ≡ (err e, mid)
    → (m >>= f) db ≡ (err e, mid)
unfolding ◌>>=◌
bind-err m f db e = ap (proceed f) e

-- A run ends in one of two ways.
pub run-cases :
    {A : Type 0} (r : Result A × Db)
    → ((a : A) × (mid : Db) × (r ≡ (ok a, mid))) ⊎ ((e : Error) × (mid : Db) × (r ≡ (err e, mid)))
run-cases (ok a, mid) = inl (a, mid, refl)
run-cases (err e, mid) = inr (e, mid, refl)
