-- ===== src/Action/Keeps.antt =====
-- What a handler leaves alone: a part of the database that no step of it writes.
use thesis_project_land_chai.Prelude.{inl, inr, Option, none, some, ◌≡◌, refl, sym, ap, ◌∙◌}
use mathlib.Core.Path.{subst}
use thesis_project_land_chai.Errors.{Error, Result, ok, err}
use thesis_project_land_chai.Db.{Db}
use thesis_project_land_chai.Action.{Action, or_throw, modify, ◌>>=◌, run-cases, bind-ok, bind-err}

-- `view` is the part, such as one collection.
pub record Keeps {ℓ} {V : Type ℓ} {A : Type 0} (view : Db → V) (m : Action A) : Type ℓ where
  pub kept : (db : Db) → view (m db).1 ≡ view db

module _ {ℓ} {V : Type ℓ} {view : Db → V} {A : Type 0} where
  -- A step that returns the state it was given.
  pub Keeps-read : (f : Db → Result A) → Keeps view (λ db. (f db, db))
  Keeps-read f = record { kept = λ db. refl }

  pub Keeps-or_throw : (o : Option A) (e : Error) → Keeps view (or_throw o e)
  Keeps-or_throw none e = record { kept = λ db. refl }
  Keeps-or_throw (some a) e = record { kept = λ db. refl }

module _ {ℓ} {V : Type ℓ} {view : Db → V} where
  pub Keeps-modify : (f : Db → Db) → ((db : Db) → view (f db) ≡ view db) → Keeps view (modify f)
  Keeps-modify f same = record { kept = same }

  pub Keeps->>= :
      {A B : Type 0} (m : Action A) (f : A → Action B)
      → Keeps view m
      → ((a : A) → Keeps view (f a))
      → Keeps view (m >>= f)
  Keeps->>= m f first rest = record {
    kept = λ db. elim (run-cases (m db)) [
      | inl (a, mid, e) ↦
          ap (λ r. view r.1) (bind-ok m f db e)
          ∙ (rest a).kept mid
          ∙ ap (λ r. view r.1) (sym e)
          ∙ first.kept db
      | inr (thrown, mid, e) ↦
          ap (λ r. view r.1) (bind-err m f db e) ∙ ap (λ r. view r.1) (sym e) ∙ first.kept db
    ];
  }

-- What holds after a step that throws, and after the rest of every other run, holds after both.
pub after->>= {ℓ} :
    (Q : Db → Type ℓ) {A B : Type 0} (m : Action A) (f : A → Action B) (db : Db)
    → ((thrown : Error) (mid : Db) → m db ≡ (err thrown, mid) → Q mid)
    → ((a : A) (mid : Db) → m db ≡ (ok a, mid) → Q (f a mid).1)
    → Q ((m >>= f) db).1
after->>= Q m f db stops goes = elim (run-cases (m db)) [
  | inl (a, mid, e) ↦ subst Q (ap (λ r. r.1) (sym (bind-ok m f db e))) (goes a mid e)
  | inr (thrown, mid, e) ↦ subst Q (ap (λ r. r.1) (sym (bind-err m f db e))) (stops thrown mid e)
]

pub ruleset keeps_rules = (Keeps->>=, Keeps-or_throw, Keeps-read, Keeps-modify)
