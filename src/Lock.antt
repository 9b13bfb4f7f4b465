-- ===== src/Lock.antt =====
-- apps/server/src/utils/lock.util.ts: the chain of promises that serializes registry mutations.
pub mod Current
pub mod Order
pub mod Exclusion
use thesis_project_land_chai.Prelude.{Option, none, some, List, [], ◌∷◌, ◌++◌, ◌≡◌}
use thesis_project_land_chai.Errors.{Error, Result, ok, err}

-- An async function as its caller sees it: it runs to its next `await` on the state that it finds
-- then, and goes on later, if ever; or it is settled, fulfilled or rejected.
pub data Task {ℓ} (S : Type ℓ) (R : Type 0) : Type ℓ where
  settled : Result R → Task S R
  section : (writes : S → S) (rest : S → Task S R) → Task S R

-- The promise of `then`: it waits, or its handler runs, or it is settled.
pub data Progress {ℓ} (S : Type ℓ) (R : Type 0) : Type ℓ where
  waiting : Progress S R
  running : Task S R → Progress S R
  done : Result R → Progress S R

-- The promise that `then` is called on: `Promise.resolve()`, or one of the call before, the `run`
-- of its `then` or the promise of its `catch`.
pub data Awaited : Type 0 where
  resolved last_run last_caught : Awaited

-- What a call made: `run = on.then(on_fulfilled, on_rejected)`, and `caught`, the promise of
-- `run.catch(() => v)`, where `none` is a handler that is missing and a promise that is pending.
pub record Call {ℓ} (S : Type ℓ) (R : Type 0) : Type ℓ where
  pub on : Awaited
  pub on_fulfilled : Option (Task S R)
  pub on_rejected : Option (Task S R)
  pub run : Progress S R
  pub on_caught : Option R
  pub caught : Option (Result R)

-- `registryChain`, the calls in their order, and the state that their functions share.
pub record Locked {ℓ} (S : Type ℓ) (R : Type 0) : Type ℓ where
  pub state : S
  pub calls : List (Call S R)
  pub registry_chain : Awaited

-- What the promise of `catch` is settled with, after a rejection.
abbrev pub recovered : {R : Type 0} → Option R → Error → Result R
recovered none e = err e
recovered (some v) e = ok v

-- `undefined`, which a handler of `catch` returns.
module _ {ℓ} {S : Type ℓ} {R : Type 0} (undefined : R) where
  -- `on.then(fn, fn)`, and `.catch(() => undefined)` of it.
  abbrev pub chained : Awaited → Task S R → Call S R
  chained on fn = record {
    on = on;
    on_fulfilled = some fn;
    on_rejected = some fn;
    run = waiting;
    on_caught = some undefined;
    caught = none;
  }

  -- `withRegistryLock(fn)`
  unfoldable pub with_registry_lock : Task S R → Locked S R → Locked S R
  with_registry_lock fn l = record l {
    calls = l.calls ++ chained l.registry_chain fn ∷ [];
    registry_chain = last_caught;
  }

  abbrev result_of : Progress S R → Option (Result R)
  result_of waiting = none
  result_of (running t) = none
  result_of (done r) = some r

  -- What a promise is settled with, given the call before.
  abbrev pub outcome : Awaited → Option (Call S R) → Option (Result R)
  outcome resolved before = some (ok undefined)
  outcome last_run none = none
  outcome last_run (some c) = result_of c.run
  outcome last_caught none = none
  outcome last_caught (some c) = c.caught

  -- A handler that is missing passes on what came.
  abbrev pub handled : Option (Task S R) → Result R → Progress S R
  handled none r = done r
  handled (some fn) r = running fn

  -- One turn of the event loop for one call, where `awaited` is what its `then` waits for.
  pub data Turn (awaited : Option (Result R)) (s : S) (c : Call S R) : S → Call S R → Type ℓ where
    fulfilled :
        (v : R)
        → awaited ≡ some (ok v)
        → c.run ≡ waiting
        → Turn awaited s c s (record c { run = handled c.on_fulfilled (ok v) })
    rejected :
        (e : Error)
        → awaited ≡ some (err e)
        → c.run ≡ waiting
        → Turn awaited s c s (record c { run = handled c.on_rejected (err e) })
    resumed :
        (writes : S → S) (later : S → Task S R)
        → c.run ≡ running (section writes later)
        → Turn awaited s c (writes s) (record c { run = running (later s) })
    returned :
        (r : Result R)
        → c.run ≡ running (settled r)
        → Turn awaited s c s (record c { run = done r })
    passed :
        (v : R)
        → c.run ≡ done (ok v)
        → c.caught ≡ none
        → Turn awaited s c s (record c { caught = some (ok v) })
    caught_error :
        (e : Error)
        → c.run ≡ done (err e)
        → c.caught ≡ none
        → Turn awaited s c s (record c { caught = some (recovered c.on_caught e) })

  -- A turn of any of the calls, behind the call `before`.
  pub data TurnOf (s : S) : Option (Call S R) → List (Call S R) → S → List (Call S R) → Type ℓ where
    here :
        {before : Option (Call S R)} {c c' : Call S R} {s' : S} {cs : List (Call S R)}
        → Turn (outcome c.on before) s c s' c'
        → TurnOf s before (c ∷ cs) s' (c' ∷ cs)
    there :
        {before : Option (Call S R)} {c : Call S R} {s' : S} {cs cs' : List (Call S R)}
        → TurnOf s (some c) cs s' cs'
        → TurnOf s before (c ∷ cs) s' (c ∷ cs')

  -- What the event loop reaches from the state `s`, with the functions that were passed to
  -- `withRegistryLock`, in the order of the calls. Calls come at any time, and any promise whose turn
  -- it is goes on.
  pub data Turns (s : S) : List (Task S R) → Locked S R → Type ℓ where
    idle : Turns s [] (record { state = s; calls = []; registry_chain = resolved })
    called :
        {fns : List (Task S R)} {l : Locked S R} (fn : Task S R)
        → Turns s fns l
        → Turns s (fns ++ fn ∷ []) (with_registry_lock fn l)
    turned :
        {fns : List (Task S R)} {l : Locked S R} {s' : S} {cs' : List (Call S R)}
        → TurnOf l.state none l.calls s' cs'
        → Turns s fns l
        → Turns s fns (record l { state = s'; calls = cs' })

-- The specification: a function alone from its start to its end.
unfoldable pub run_task {ℓ} : {S : Type ℓ} {R : Type 0} → Task S R → S → Result R × S
run_task (settled r) s = (r, s)
run_task (section writes rest) s = run_task (rest s) (writes s)
