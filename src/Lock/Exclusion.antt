-- ===== src/Lock/Exclusion.antt =====
-- What the order of the calls gives: one function at a time, and no rejection that stops the others.
use thesis_project_land_chai.Prelude.{
  ℕ, ◌+◌, ◌≤◌, Option, none, some, List, [], ◌∷◌, map, All, ◌≡◌, ◌⊎◌, inl, inr, refl, sym, ap, ◌∙◌,
  arith,
}
use mathlib.Core.Path.{subst}
use thesis_project_land_chai.Errors.{Result, ok, err}
use thesis_project_land_chai.Lock.{
  Task, Progress, waiting, running, done, Awaited, resolved, last_caught, Call, Locked, chained,
  outcome, fulfilled, passed, caught_error, TurnOf, here, there, Turns, run_task,
}
use thesis_project_land_chai.Lock.Current.{calmed, not_begun, under_way, come_to, run_of}
use thesis_project_land_chai.Lock.Order.{IsSerial, lock-IsSerial}

module _ {S R : Type 0} where
  abbrev running_one : Progress S R → ℕ
  running_one waiting = 0
  running_one (running t) = 1
  running_one (done r) = 0

  -- How many functions have begun and are not settled.
  pub running_count : List (Call S R) → ℕ
  running_count [] = 0
  running_count (c ∷ cs) = running_one c.run + running_count cs

calmed-ok : {R : Type 0} (undefined : R) (r : Result R) → (v : R) × (calmed undefined r ≡ ok v)
calmed-ok undefined (ok v) = (v, refl)
calmed-ok undefined (err e) = (undefined, refl)

module _ {S R : Type 0} (undefined : R) where
  none_running :
      (fns : List (Task S R)) → running_count (map (chained undefined last_caught) fns) ≡ 0
  unfolding running_count
  none_running [] = refl
  none_running (fn ∷ fns) = let rest = none_running fns in omega (arith, rest)

  one_running : (p : Progress S R) → running_one p ≤ 1
  one_running waiting = ground arith
  one_running (running t) = ground arith
  one_running (done r) = ground arith

  serial-running :
      (s0 : S) (on : Awaited) (fns : List (Task S R)) (s : S) (cs : List (Call S R))
      → IsSerial undefined s0 on fns s cs
      → running_count cs ≤ 1
  unfolding IsSerial running_count
  serial-running s0 on [] s [] h = ground arith
  serial-running s0 on [] s (c ∷ cs) h = absurd h
  serial-running s0 on (fn ∷ fns) s [] h = absurd h
  serial-running s0 on (fn ∷ fns) s (c ∷ cs) (inl (current, e)) =
      let rest : running_count cs ≡ 0 = ap running_count e ∙ none_running fns in
      let first = one_running c.run in omega (arith, rest, first)
  serial-running s0 on (fn ∷ fns) s (c ∷ cs) (inr (e, rest)) =
      let first : running_one c.run ≡ 0 = ap running_one (run_of undefined e) in
      let others = serial-running (run_task fn s0).1 last_caught fns s cs rest in
      omega (arith, first, others)

  -- Mutual exclusion: at any time at most one of the functions that were passed to `withRegistryLock`
  -- has begun and is not settled.
  pub lock-exclusive :
      (s : S) (fns : List (Task S R)) (l : Locked S R)
      → Turns undefined s fns l
      → running_count l.calls ≤ 1
  lock-exclusive s fns l turns =
      serial-running s resolved fns l.state l.calls (lock-IsSerial undefined s fns l turns)

  -- Each promise of `catch` is fulfilled.
  abbrev pub AllCaught : List (Call S R) → Type 0
  AllCaught = All (λ (c : Call S R). (v : R) × (c.caught ≡ some (ok v)))

  -- Some promise is settled by the next turn of the event loop.
  abbrev pub HasTurn : Option (Call S R) → S → List (Call S R) → Type 0
  HasTurn before s cs = (s' : S) × (cs' : List (Call S R)) × TurnOf undefined s before cs s' cs'

  catch-HasTurn :
      (before : Option (Call S R)) (s : S) (c : Call S R) (cs : List (Call S R)) (r : Result R)
      → c.run ≡ done r
      → c.caught ≡ none
      → HasTurn before s (c ∷ cs)
  catch-HasTurn before s c cs (ok v) h k = (_, _, here (passed v h k))
  catch-HasTurn before s c cs (err e) h k = (_, _, here (caught_error e h k))

  serial-proceeds :
      (s0 : S) (on : Awaited) (fns : List (Task S R)) (before : Option (Call S R)) (v : R) (s : S)
      (cs : List (Call S R))
      → outcome undefined on before ≡ some (ok v)
      → IsSerial undefined s0 on fns s cs
      → AllCaught cs ⊎ ((running_count cs ≡ 1) ⊎ HasTurn before s cs)
  unfolding IsSerial running_count
  serial-proceeds s0 on [] before v s [] ready h = inl tt
  serial-proceeds s0 on [] before v s (c ∷ cs) ready h = absurd h
  serial-proceeds s0 on (fn ∷ fns) before v s [] ready h = absurd h
  serial-proceeds s0 on (fn ∷ fns) before v s (c ∷ cs) ready (inl (not_begun e same, q)) =
      let on_same : on ≡ c.on = sym (ap (λ (d : Call S R). d.on) e) in
      inr (
        inr (
          _,
          _,
          here (
              fulfilled v (subst (λ a. outcome undefined a before ≡ some (ok v)) on_same ready)
                (run_of undefined e)),
        ))
  serial-proceeds s0 on (fn ∷ fns) before v s (c ∷ cs) ready (inl (under_way t e leads, q)) =
      let rest : running_count cs ≡ 0 = ap running_count q ∙ none_running fns in
      let first : running_one c.run ≡ 1 = ap running_one (run_of undefined e) in
      inr (inl (omega (arith, rest, first)))
  serial-proceeds s0 on (fn ∷ fns) before v s (c ∷ cs) ready (inl (come_to r e comes, q)) =
      inr (
        inr
          (catch-HasTurn before s c cs r (run_of undefined e) (ap (λ (d : Call S R). d.caught) e)))
  serial-proceeds s0 on (fn ∷ fns) before v s (c ∷ cs) ready (inr (e, rest)) =
      let (w, calm) = calmed-ok undefined (run_task fn s0).0 in
      let caught : c.caught ≡ some (ok w) = ap (λ (d : Call S R). d.caught) e ∙ ap some calm in
      elim (serial-proceeds (run_task fn s0).1 last_caught fns (some c) w s cs caught rest) [
        | inl all ↦ inl ((w, caught), all)
        | inr (inl one) ↦
            let first : running_one c.run ≡ 0 = ap running_one (run_of undefined e) in
            inr (inl (omega (arith, first, one)))
        | inr (inr (s', cs', turn)) ↦ inr (inr (s', c ∷ cs', there turn))
      ]

  -- The lock stops nothing itself: at any time, whatever was rejected before, either every call's
  -- `catch` is fulfilled, or one function has begun and is not settled, or the event loop has a
  -- promise to settle.
  pub lock-proceeds :
      (s : S) (fns : List (Task S R)) (l : Locked S R)
      → Turns undefined s fns l
      → AllCaught l.calls ⊎ ((running_count l.calls ≡ 1) ⊎ HasTurn none l.state l.calls)
  lock-proceeds s fns l turns =
      serial-proceeds s resolved fns none undefined l.state l.calls refl
        (lock-IsSerial undefined s fns l turns)
