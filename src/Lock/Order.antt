-- ===== src/Lock/Order.antt =====
-- The lock against its specification: the functions run one after another, in the order of the calls.
use thesis_project_land_chai.Prelude.{
  Option, none, some, List, [], ◌∷◌, ◌++◌, map, ◌≡◌, ◌⊎◌, inl, inr, refl, sym, ap, ◌∙◌,
}
use mathlib.Core.Path.{subst}
use thesis_project_land_chai.Lock.{
  Task, Awaited, resolved, last_caught, Call, Locked, chained, with_registry_lock, outcome, TurnOf,
  here, there, Turns, idle, called, turned, run_task,
}
use thesis_project_land_chai.Lock.Current.{
  finished_call, IsCurrent, not_begun, under_way, come_to, current-Turn, finished-Turn,
  chained-Turn,
}

module _ {S : Type 0} {R : Type 0} (undefined : R) where
  -- The calls of the functions, from the state `s0` on: those before the current one have come to
  -- what their functions come to one after another, and those behind it have not begun. The state
  -- `s` is the one that the current function has made.
  unfoldable pub IsSerial : S → Awaited → List (Task S R) → S → List (Call S R) → Type 0
  unfolding run_task
  IsSerial s0 on [] s [] = s ≡ s0
  IsSerial s0 on [] s (c ∷ cs) = ⊥
  IsSerial s0 on (fn ∷ fns) s [] = ⊥
  IsSerial s0 on (fn ∷ fns) s (c ∷ cs) =
      (IsCurrent undefined s0 on fn s c × (cs ≡ map (chained undefined last_caught) fns))
      ⊎ ((c ≡ finished_call undefined on fn (run_task fn s0).0)
          × IsSerial (run_task fn s0).1 last_caught fns s cs)

  none_turns :
      (before : Option (Call S R)) (s s' : S) (cs cs' : List (Call S R))
      → TurnOf undefined s before cs s' cs'
      → cs ≡ []
      → ⊥
  none_turns before s s' _ _ (here turn) e = cc
  none_turns before s s' _ _ (there turn) e = cc

  chained-TurnOf :
      (fns : List (Task S R)) (before : Option (Call S R)) (s s' : S) (cs' : List (Call S R))
      → outcome undefined last_caught before ≡ none
      → TurnOf undefined s before (map (chained undefined last_caught) fns) s' cs'
      → ⊥
  chained-TurnOf [] before s s' cs' pending turn = none_turns before s s' [] cs' turn refl
  chained-TurnOf (fn ∷ fns) before s s' _ pending (here turn) =
      chained-Turn undefined fn before s s' _ pending turn
  chained-TurnOf (fn ∷ fns) before s s' _ pending (there turn) =
      chained-TurnOf fns (some (chained undefined last_caught fn)) s s' _ refl turn

  current-pending :
      {s0 s : S} {on : Awaited} {fn : Task S R} {c : Call S R}
      → IsCurrent undefined s0 on fn s c
      → c.caught ≡ none
  current-pending (not_begun e same) = ap (λ (d : Call S R). d.caught) e
  current-pending (under_way t e leads) = ap (λ (d : Call S R). d.caught) e
  current-pending (come_to r e comes) = ap (λ (d : Call S R). d.caught) e

  none_begun :
      (fns : List (Task S R)) (s : S)
      → IsSerial s last_caught fns s (map (chained undefined last_caught) fns)
  unfolding IsSerial
  none_begun [] s = refl
  none_begun (fn ∷ fns) s = inl (not_begun refl refl, refl)

  IsSerial-TurnOf :
      (s0 : S) (on : Awaited) (fns : List (Task S R)) (before : Option (Call S R)) (s s' : S)
      (cs cs' : List (Call S R))
      → TurnOf undefined s before cs s' cs'
      → IsSerial s0 on fns s cs
      → IsSerial s0 on fns s' cs'
  unfolding IsSerial
  IsSerial-TurnOf s0 on (fn ∷ fns) before s s' _ _ (here {c} {c'} {cs} turn) (inl (current, e)) =
      elim (current-Turn undefined s0 on fn (outcome undefined c.on before) s s' c c' turn
        current) [
          | inl still ↦ inl (still, e)
          | inr (finished, same) ↦ inr (
            finished,
            subst (λ z. IsSerial (run_task fn s0).1 last_caught fns z cs) (sym same)
                (subst (IsSerial (run_task fn s0).1 last_caught fns (run_task fn s0).1) (sym e)
                  (none_begun fns (run_task fn s0).1)),
          )
        ]
  IsSerial-TurnOf s0 on (fn ∷ fns) before s s' _ _ (here {c} {c'} turn) (inr (e, rest)) = absurd (
      finished-Turn undefined on fn (run_task fn s0).0 (outcome undefined c.on before) s s' c c' e
        turn)
  IsSerial-TurnOf s0 on (fn ∷ fns) before s s' _ _ (there {c} {cs' = cs'} turn) (inl (current, e)) =
      absurd (
        chained-TurnOf fns (some c) s s' cs' (current-pending current)
          (subst (λ l. TurnOf undefined s (some c) l s' cs') e turn))
  IsSerial-TurnOf s0 on (fn ∷ fns) before s s' _ _ (there {c} {cs} {cs'} turn) (inr (e, rest)) =
      inr (e, IsSerial-TurnOf (run_task fn s0).1 last_caught fns (some c) s s' cs cs' turn rest)
  IsSerial-TurnOf s0 on [] before s s' _ _ (here turn) h = absurd h
  IsSerial-TurnOf s0 on [] before s s' _ _ (there turn) h = absurd h

  -- What `registryChain` is after the calls of the functions.
  abbrev chain_after : Awaited → List (Task S R) → Awaited
  chain_after on [] = on
  chain_after on (fn ∷ fns) = last_caught

  chain_last : (fns : List (Task S R)) → chain_after last_caught fns ≡ last_caught
  chain_last [] = refl
  chain_last (fn ∷ fns) = refl

  chain_append :
      (on : Awaited) (fns : List (Task S R)) (fn : Task S R)
      → chain_after on (fns ++ fn ∷ []) ≡ last_caught
  chain_append on [] fn = refl
  chain_append on (f ∷ fns) fn = refl

  map-append :
      (fns : List (Task S R)) (fn : Task S R)
      → map (chained undefined last_caught) fns ++ chained undefined last_caught fn ∷ []
        ≡ map (chained undefined last_caught) (fns ++ fn ∷ [])
  map-append [] fn = refl
  map-append (f ∷ fns) fn = ap (λ l. chained undefined last_caught f ∷ l) (map-append fns fn)

  IsSerial-append :
      (s0 : S) (on : Awaited) (fns : List (Task S R)) (s : S) (cs : List (Call S R)) (fn : Task S R)
      → IsSerial s0 on fns s cs
      → IsSerial s0 on (fns ++ fn ∷ []) s (cs ++ chained undefined (chain_after on fns) fn ∷ [])
  unfolding IsSerial
  IsSerial-append s0 on [] s [] fn h = inl (not_begun refl h, refl)
  IsSerial-append s0 on [] s (c ∷ cs) fn h = absurd h
  IsSerial-append s0 on (f ∷ fns) s [] fn h = absurd h
  IsSerial-append s0 on (f ∷ fns) s (c ∷ cs) fn (inl (current, e)) =
      inl (current, ap (λ l. l ++ chained undefined last_caught fn ∷ []) e ∙ map-append fns fn)
  IsSerial-append s0 on (f ∷ fns) s (c ∷ cs) fn (inr (e, rest)) = inr (
    e,
    subst
        (λ a.
          IsSerial (run_task f s0).1 last_caught (fns ++ fn ∷ []) s
            (cs ++ chained undefined a fn ∷ []))
        (chain_last fns) (IsSerial-append (run_task f s0).1 last_caught fns s cs fn rest),
  )

  chain-Turns :
      (s : S) (fns : List (Task S R)) (l : Locked S R)
      → Turns undefined s fns l
      → (l.registry_chain ≡ chain_after resolved fns) × IsSerial s resolved fns l.state l.calls
  unfolding with_registry_lock IsSerial
  chain-Turns s _ _ idle = (refl, refl)
  chain-Turns s _ _ (called {fns} {l} fn before) =
      let (chain, serial) = chain-Turns s fns l before in
      (
        sym (chain_append resolved fns fn),
        subst
            (λ a.
              IsSerial s resolved (fns ++ fn ∷ []) l.state (l.calls ++ chained undefined a fn ∷ []))
            (sym chain) (IsSerial-append s resolved fns l.state l.calls fn serial),
      )
  chain-Turns s _ _ (turned {fns} {l} {s'} {cs'} turn before) =
      let (chain, serial) = chain-Turns s fns l before in
      (chain, IsSerial-TurnOf s resolved fns none l.state s' l.calls cs' turn serial)

  -- Whatever the event loop does, and whenever `withRegistryLock` is called meanwhile, the calls are
  -- serial: those before some call have settled with what their functions come to, run alone one
  -- after another in the order of the calls; of that call the function has not begun, or is on its
  -- way from the state that the others left to what it comes to alone, or has settled with that; those
  -- behind it have not begun; and the shared state is the one that has come about so.
  pub lock-IsSerial :
      (s : S) (fns : List (Task S R)) (l : Locked S R)
      → Turns undefined s fns l
      → IsSerial s resolved fns l.state l.calls
  lock-IsSerial s fns l turns = (chain-Turns s fns l turns).1
