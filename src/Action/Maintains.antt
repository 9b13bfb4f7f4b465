-- ===== src/Action/Maintains.antt =====
-- A property of the database that a run passes on, whatever it returns.
use thesis_project_land_chai.Prelude.{Option, none, some, sym, ap}
use mathlib.Core.Path.{subst}
use thesis_project_land_chai.Errors.{Error}
use thesis_project_land_chai.Db.{Db}
use thesis_project_land_chai.Action.{Action, or_throw, ◌>>=◌}
use thesis_project_land_chai.Action.Keeps.{Keeps, after->>=}

-- `A` is a handler's response or a service's result.
pub record Maintains {ℓ} {A : Type 0} (Q : Db → Type ℓ) (m : Db → A × Db) : Type ℓ where
  pub maintained : (db : Db) → Q db → Q (m db).1

module _ {ℓ} {Q : Db → Type ℓ} {A : Type 0} where
  pub Maintains-read : (f : Db → A) → Maintains Q (λ db. (f db, db))
  Maintains-read f = record { maintained = λ db q. q }

  pub Maintains-or_throw : (o : Option A) (e : Error) → Maintains Q (or_throw o e)
  Maintains-or_throw none e = record { maintained = λ db q. q }
  Maintains-or_throw (some a) e = record { maintained = λ db q. q }

  pub Maintains->>= :
      {B : Type 0} (m : Action A) (f : A → Action B)
      → Maintains Q m
      → ((a : A) → Maintains Q (f a))
      → Maintains Q (m >>= f)
  Maintains->>= m f first rest = record {
    maintained = λ db q.
        after->>= Q m f db (λ e mid r. subst Q (ap (λ p. p.1) r) (first.maintained db q))
          (λ a mid r. (rest a).maintained mid (subst Q (ap (λ p. p.1) r) (first.maintained db q)));
  }

pub Keeps-Maintains {ℓ κ} :
    {V : Type κ} {A : Type 0} (view : Db → V) (P : V → Type ℓ) (m : Action A)
    → Keeps view m
    → Maintains (λ db. P (view db)) m
Keeps-Maintains view P m keeps = record { maintained = λ db q. subst P (sym (keeps.kept db)) q }

pub ruleset maintains_rules = (Maintains->>=, Maintains-or_throw, Maintains-read)
