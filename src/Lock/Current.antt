-- ===== src/Lock/Current.antt =====
-- The turns of one call, in the place of the first that is not finished, and in the places around it.
use thesis_project_land_chai.Prelude.{Option, none, some, ◌≡◌, ◌⊎◌, inl, inr, sym, ap, ◌∙◌}
use mathlib.Core.Path.{subst}
use thesis_project_land_chai.Errors.{Result, ok, err}
use thesis_project_land_chai.Lock.{
  Task, settled, section, Progress, running, done, Awaited, last_caught, Call, recovered, chained,
  outcome, handled, Turn, fulfilled, rejected, resumed, returned, passed, caught_error, run_task,
}

-- What `.catch(() => undefined)` makes of a result.
abbrev pub calmed : {R : Type 0} → R → Result R → Result R
calmed undefined (ok v) = ok v
calmed undefined (err e) = ok undefined

module _ {S : Type 0} {R : Type 0} (undefined : R) where
  -- The call of a function that has come to `r`, and whose `catch` is settled.
  abbrev pub finished_call : Awaited → Task S R → Result R → Call S R
  finished_call on fn r = record (chained undefined on fn) {
    run = done r;
    caught = some (calmed undefined r);
  }

  -- The first call that is not finished, of a function that found the state `s0`: in the state `s`
  -- it has not begun; or it has come as far as a task that leads, from here, to what the function
  -- comes to alone; or it has come to just that.
  pub data IsCurrent (s0 : S) (on : Awaited) (fn : Task S R) (s : S) (c : Call S R) : Type 0 where
    not_begun : c ≡ chained undefined on fn → s ≡ s0 → IsCurrent s0 on fn s c
    under_way :
        (t : Task S R)
        → c ≡ record (chained undefined on fn) { run = running t }
        → run_task t s ≡ run_task fn s0
        → IsCurrent s0 on fn s c
    come_to :
        (r : Result R)
        → c ≡ record (chained undefined on fn) { run = done r }
        → (r, s) ≡ run_task fn s0
        → IsCurrent s0 on fn s c

  pub run_of : {c d : Call S R} → c ≡ d → c.run ≡ d.run
  run_of = ap (λ (c : Call S R). c.run)

  running_injective : {t u : Task S R} → running t ≡ running u → t ≡ u
  running_injective h = cc

  same_result : {p : Progress S R} {q r : Result R} → p ≡ done q → p ≡ done r → q ≡ r
  same_result h k = cc

  module _ (s0 : S) (on : Awaited) (fn : Task S R) where
    -- The current call after a turn of its own: it is current still, or it is finished.
    abbrev After : S → Call S R → Type 0
    After s c =
        IsCurrent s0 on fn s c
        ⊎ ((c ≡ finished_call on fn (run_task fn s0).0) × (s ≡ (run_task fn s0).1))

    begins :
        (s : S) (c : Call S R)
        → c ≡ chained undefined on fn
        → s ≡ s0
        → After s (record c { run = running fn })
    begins s c e h =
        inl (
          under_way fn (ap (λ (k : Call S R). record k { run = running fn }) e)
            (ap (run_task fn) h))

    resumes :
        (s : S) (c : Call S R) (t : Task S R) (writes : S → S) (later : S → Task S R)
        → c ≡ record (chained undefined on fn) { run = running t }
        → c.run ≡ running (section writes later)
        → run_task t s ≡ run_task fn s0
        → After (writes s) (record c { run = running (later s) })
    unfolding run_task
    resumes s c t writes later e h leads =
        let same : section writes later ≡ t = running_injective (sym h ∙ run_of e) in
        inl (
          under_way (later s) (ap (λ (k : Call S R). record k { run = running (later s) }) e)
            (ap (λ u. run_task u s) same ∙ leads))

    returns :
        (s : S) (c : Call S R) (t : Task S R) (r : Result R)
        → c ≡ record (chained undefined on fn) { run = running t }
        → c.run ≡ running (settled r)
        → run_task t s ≡ run_task fn s0
        → After s (record c { run = done r })
    unfolding run_task
    returns s c t r e h leads =
        let same : settled r ≡ t = running_injective (sym h ∙ run_of e) in
        inl (
          come_to r (ap (λ (k : Call S R). record k { run = done r }) e)
            (ap (λ u. run_task u s) same ∙ leads))

    catches :
        (s : S) (c : Call S R) (q r : Result R)
        → c ≡ record (chained undefined on fn) { run = done r }
        → c.run ≡ done q
        → (r, s) ≡ run_task fn s0
        → After s (record c { caught = some (calmed undefined q) })
    catches s c q r e h comes =
        let same : q ≡ (run_task fn s0).0 =
          same_result h (run_of e) ∙ ap (λ (p : Result R × S). p.0) comes in
        let first : r ≡ (run_task fn s0).0 = ap (λ (p : Result R × S). p.0) comes in
        inr (
          ap (λ (k : Call S R). record k { caught = some (calmed undefined q) }) e
              ∙ ap
                  (λ z. record (chained undefined on fn) {
                    run = done z;
                    caught = some (calmed undefined q);
                  })
                  first
              ∙ ap
                  (λ z. record (chained undefined on fn) {
                    run = done (run_task fn s0).0;
                    caught = some (calmed undefined z);
                  })
                  same,
          ap (λ (p : Result R × S). p.1) comes,
        )

    -- Whichever way the promise before it was settled, the function is called.
    starts :
        (s : S) (c : Call S R) (handler : Option (Task S R)) (r : Result R)
        → c ≡ chained undefined on fn
        → handler ≡ some fn
        → s ≡ s0
        → After s (record c { run = handled undefined handler r })
    starts s c handler r e h same =
        subst (λ o. After s (record c { run = handled undefined o r })) (sym h) (begins s c e same)

    pub current-Turn :
        (awaited : Option (Result R)) (s s' : S) (c c' : Call S R)
        → Turn undefined awaited s c s' c'
        → IsCurrent s0 on fn s c
        → After s' c'
    current-Turn awaited s _ c _ (fulfilled v h w) (not_begun e same) =
        starts s c c.on_fulfilled (ok v) e (ap (λ (k : Call S R). k.on_fulfilled) e) same
    current-Turn awaited s _ c _ (rejected v h w) (not_begun e same) =
        starts s c c.on_rejected (err v) e (ap (λ (k : Call S R). k.on_rejected) e) same
    current-Turn awaited s _ c _ (resumed writes later h) (under_way t e leads) =
        resumes s c t writes later e h leads
    current-Turn awaited s _ c _ (returned r h) (under_way t e leads) = returns s c t r e h leads
    current-Turn awaited s _ c _ (passed v h k) (come_to r e comes) = catches s c (ok v) r e h comes
    current-Turn awaited s _ c _ (caught_error v h k) (come_to r e comes) =
        subst (λ o. After s (record c { caught = some (recovered o v) }))
          (sym (ap (λ (d : Call S R). d.on_caught) e)) (catches s c (err v) r e h comes)
    current-Turn awaited s _ c _ (fulfilled v h w) (under_way t e leads) = let k = run_of e in cc
    current-Turn awaited s _ c _ (fulfilled v h w) (come_to r e comes) = let k = run_of e in cc
    current-Turn awaited s _ c _ (rejected v h w) (under_way t e leads) = let k = run_of e in cc
    current-Turn awaited s _ c _ (rejected v h w) (come_to r e comes) = let k = run_of e in cc
    current-Turn awaited s _ c _ (resumed writes later h) (not_begun e same) =
        let k = run_of e in cc
    current-Turn awaited s _ c _ (resumed writes later h) (come_to r e comes) =
        let k = run_of e in cc
    current-Turn awaited s _ c _ (returned q h) (not_begun e same) = let k = run_of e in cc
    current-Turn awaited s _ c _ (returned q h) (come_to r e comes) = let k = run_of e in cc
    current-Turn awaited s _ c _ (passed v h w) (not_begun e same) = let k = run_of e in cc
    current-Turn awaited s _ c _ (passed v h w) (under_way t e leads) = let k = run_of e in cc
    current-Turn awaited s _ c _ (caught_error v h w) (not_begun e same) = let k = run_of e in cc
    current-Turn awaited s _ c _ (caught_error v h w) (under_way t e leads) = let k = run_of e in cc

  -- A call that is finished has no turn left.
  pub finished-Turn :
      (on : Awaited) (fn : Task S R) (r : Result R) (awaited : Option (Result R)) (s s' : S)
      (c c' : Call S R)
      → c ≡ finished_call on fn r
      → Turn undefined awaited s c s' c'
      → ⊥
  finished-Turn on fn r awaited s _ c _ e (fulfilled v h w) = let k = run_of e in cc
  finished-Turn on fn r awaited s _ c _ e (rejected v h w) = let k = run_of e in cc
  finished-Turn on fn r awaited s _ c _ e (resumed writes later h) = let k = run_of e in cc
  finished-Turn on fn r awaited s _ c _ e (returned q h) = let k = run_of e in cc
  finished-Turn on fn r awaited s _ c _ e (passed v h w) =
      let k = ap (λ (d : Call S R). d.caught) e in cc
  finished-Turn on fn r awaited s _ c _ e (caught_error v h w) =
      let k = ap (λ (d : Call S R). d.caught) e in cc

  -- Behind a call whose `catch` is pending, no call has a turn.
  pub chained-Turn :
      (fn : Task S R) (before : Option (Call S R)) (s s' : S) (c' : Call S R)
      → outcome undefined last_caught before ≡ none
      → Turn undefined
          (outcome undefined last_caught before)
          s
          (chained undefined last_caught fn)
          s'
          c'
      → ⊥
  chained-Turn fn before s _ _ pending (fulfilled v h w) = cc
  chained-Turn fn before s _ _ pending (rejected v h w) = cc
  chained-Turn fn before s _ _ pending (resumed writes later h) = cc
  chained-Turn fn before s _ _ pending (returned q h) = cc
  chained-Turn fn before s _ _ pending (passed v h w) = cc
  chained-Turn fn before s _ _ pending (caught_error v h w) = cc
