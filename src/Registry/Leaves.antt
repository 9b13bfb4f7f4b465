-- ===== src/Registry/Leaves.antt =====
-- Which leaf map `leaves_of` builds, and how it changes when one land is replaced.
use thesis_project_land_chai.Prelude.{
  ℕ, String, Bool, true, false, ◌==◌, string_eq, nat_eq, Option, none, some, List, [], ◌∷◌, ◌++◌,
  find, All, find-All, All-append, ◌≡◌, ◌≢◌, ◌⊎◌, inl, inr, refl, sym, ap, ◌∙◌, arith, Bool-cases,
  Option-cases, if◌then◌else◌,
}
use mathlib.Core.Option.{some-injective}
use thesis_project_land_chai.Merkle.{Layer, get, set}
use thesis_project_land_chai.Merkle.Node.{get-set}
use thesis_project_land_chai.Db.{Land, replace_land}
use thesis_project_land_chai.Registry.{tree_leaf, leaves_of}

-- The commitment at a leaf: the last land that occupies it.
unfoldable pub leaf_step : ℕ → Land → Option String → Option String
leaf_step j l d = elim (tree_leaf l) [
  | none ↦ d
  | some i ↦ if i == j then some l.land_commitment else d
]

unfoldable pub leaf_map : ℕ → List Land → Option String → Option String
leaf_map j [] d = d
leaf_map j (l ∷ ls) d = leaf_map j ls (leaf_step j l d)

leaf_step-get :
    (j : ℕ) (l : Land) (m : Layer)
    → get j (elim (tree_leaf l) [ none ↦ m | some i ↦ set i l.land_commitment m ])
      ≡ leaf_step j l (get j m)
unfolding leaf_step
leaf_step-get j l m = elim (Option-cases (tree_leaf l)) [
  | inl e ↦ rw (e, leaf_step) refl
  | inr (i, e) ↦ rw (e, leaf_step) (get-set i j l.land_commitment m)
]

pub leaves_of-get :
    (j : ℕ) (ls : List Land) (m : Layer) → get j (leaves_of ls m) ≡ leaf_map j ls (get j m)
unfolding leaves_of leaf_map
leaves_of-get j [] m = refl
leaves_of-get j (l ∷ ls) m = leaves_of-get j ls _ ∙ ap (leaf_map j ls) (leaf_step-get j l m)

-- No land occupies the leaf.
abbrev pub Fresh : ℕ → List Land → Type 0
Fresh i = All (λ l. tree_leaf l ≢ some i)

-- No two lands occupy one leaf.
abbrev pub Distinct : List Land → Type 0
Distinct [] = Unit
Distinct (l ∷ ls) = ((i : ℕ) → tree_leaf l ≡ some i → Fresh i ls) × Distinct ls

pub leaf_step_ne :
    (j : ℕ) (l : Land) (d : Option String) → tree_leaf l ≢ some j → leaf_step j l d ≡ d
unfolding leaf_step
leaf_step_ne j l d ne = elim (Option-cases (tree_leaf l)) [
  | inl e ↦ rw (e, leaf_step) refl
  | inr (i, e) ↦ rw (e, leaf_step) (ground arith)
]

pub leaf_step_eq :
    (j : ℕ) (l : Land) (d : Option String)
    → tree_leaf l ≡ some j
    → leaf_step j l d ≡ some l.land_commitment
unfolding leaf_step
leaf_step_eq j l d e = rw (e, leaf_step) (ground arith)

pub leaf_map-Fresh : (j : ℕ) (ls : List Land) (d : Option String) → Fresh j ls → leaf_map j ls d ≡ d
unfolding leaf_map
leaf_map-Fresh j [] d f = refl
leaf_map-Fresh j (l ∷ ls) d (ne, f) = rw (leaf_step_ne j l d ne) (leaf_map-Fresh j ls d f)

-- The test by which a land is found and replaced.
abbrev pub has_id : String → Land → Bool
has_id land_id l = l.land_id == land_id

pub has_id-eq : (land_id : String) (l : Land) → has_id land_id l ≡ true → l.land_id ≡ land_id
has_id-eq land_id l h = ground arith

replace_hit :
    (l m : Land) (ms : List Land) → has_id l.land_id m ≡ true → replace_land l (m ∷ ms) ≡ l ∷ ms
unfolding replace_land
replace_hit l m ms h = rw (h, replace_land) refl

replace_miss :
    (l m : Land) (ms : List Land)
    → has_id l.land_id m ≡ false
    → replace_land l (m ∷ ms) ≡ m ∷ replace_land l ms
unfolding replace_land
replace_miss l m ms h = rw (h, replace_land) refl

pub replace-All :
    (P : Land → Type 0) (l : Land) (ls : List Land) → All P ls → P l → All P (replace_land l ls)
unfolding replace_land
replace-All P l [] h p = tt
replace-All P l (m ∷ ms) (q, h) p = elim (Bool-cases (has_id l.land_id m)) [
  | inl hit ↦ rw (replace_hit l m ms hit) (p, h)
  | inr miss ↦ rw (replace_miss l m ms miss) (q, replace-All P l ms h p)
]

module _ (l l' : Land) where
  -- A leaf that neither version of the land occupies keeps its commitment.
  pub leaf_map-replace_ne :
      (j : ℕ) (ls : List Land) (d : Option String)
      → find (has_id l'.land_id) ls ≡ some l
      → tree_leaf l ≢ some j
      → tree_leaf l' ≢ some j
      → leaf_map j (replace_land l' ls) d ≡ leaf_map j ls d
  unfolding leaf_map
  leaf_map-replace_ne j [] d h ne ne' = cc
  leaf_map-replace_ne j (m ∷ ms) d h ne ne' = elim (Bool-cases (has_id l'.land_id m)) [
    | inl hit ↦
        let e : m ≡ l = some-injective m l (rw hit at h) in
        rw (replace_hit l' m ms hit)
          (ap (leaf_map j ms) (leaf_step_ne j l' d ne' ∙ sym (leaf_step_ne j m d (rw e ne))))
    | inr miss ↦ rw (replace_miss l' m ms miss) (leaf_map-replace_ne j ms _ (rw miss at h) ne ne')
  ]

  -- The leaf that the new version occupies, and no other land, holds its commitment.
  pub leaf_map-replace_eq :
      (j : ℕ) (ls : List Land) (d : Option String)
      → find (has_id l'.land_id) ls ≡ some l
      → tree_leaf l' ≡ some j
      → Fresh j ls
      → leaf_map j (replace_land l' ls) d ≡ some l'.land_commitment
  unfolding leaf_map
  leaf_map-replace_eq j [] d h e f = cc
  leaf_map-replace_eq j (m ∷ ms) d h e (ne, f) = elim (Bool-cases (has_id l'.land_id m)) [
    | inl hit ↦
        rw (replace_hit l' m ms hit, leaf_map-Fresh j ms (leaf_step j l' d) f)
          (leaf_step_eq j l' d e)
    | inr miss ↦ rw (replace_miss l' m ms miss) (leaf_map-replace_eq j ms _ (rw miss at h) e f)
  ]

  -- The leaf that the old version gives up is empty after it.
  pub leaf_map-replace_gone :
      (j : ℕ) (ls : List Land) (d : Option String)
      → find (has_id l'.land_id) ls ≡ some l
      → Distinct ls
      → tree_leaf l ≡ some j
      → tree_leaf l' ≡ none
      → leaf_map j (replace_land l' ls) d ≡ d
  unfolding leaf_map
  leaf_map-replace_gone j [] d h u e e' = cc
  leaf_map-replace_gone j (m ∷ ms) d h (apart, u) e e' = elim (Bool-cases (has_id l'.land_id m)) [
    | inl hit ↦
        let same : m ≡ l = some-injective m l (rw hit at h) in
        rw (replace_hit l' m ms hit, leaf_step_ne j l' d (λ q. cc (q, e')))
          (leaf_map-Fresh j ms d (apart j (rw same e)))
    | inr miss ↦
        let found = rw miss at h in
        let other : tree_leaf m ≢ some j =
          λ q. find-All (λ z. tree_leaf z ≢ some j) (has_id l'.land_id) ms found (apart j q) e in
        rw (replace_miss l' m ms miss)
          (leaf_map-replace_gone j ms (leaf_step j m d) found u e e' ∙ leaf_step_ne j m d other)
  ]

  -- The leaf of a stored land holds its commitment.
  pub leaf_map_found :
      (j : ℕ) (ls : List Land) (d : Option String)
      → find (has_id l'.land_id) ls ≡ some l
      → Distinct ls
      → tree_leaf l ≡ some j
      → leaf_map j ls d ≡ some l.land_commitment
  unfolding leaf_map
  leaf_map_found j [] d h u e = cc
  leaf_map_found j (m ∷ ms) d h (apart, u) e = elim (Bool-cases (has_id l'.land_id m)) [
    | inl hit ↦
        let same : m ≡ l = some-injective m l (rw hit at h) in
        rw (same, leaf_map-Fresh j ms (leaf_step j l d) (apart j (rw same e)))
          (leaf_step_eq j l d e)
    | inr miss ↦ leaf_map_found j ms _ (rw miss at h) u e
  ]

  -- Distinct leaves stay distinct, if the new version takes no leaf but the old one's or a free one.
  pub replace-Distinct :
      (ls : List Land)
      → find (has_id l'.land_id) ls ≡ some l
      → Distinct ls
      → ((i : ℕ) → tree_leaf l' ≡ some i → (tree_leaf l ≡ some i) ⊎ Fresh i ls)
      → Distinct (replace_land l' ls)
  replace-Distinct [] h u k = cc
  replace-Distinct (m ∷ ms) h (apart, u) k = elim (Bool-cases (has_id l'.land_id m)) [
    | inl hit ↦
        let same : m ≡ l = some-injective m l (rw hit at h) in
        rw (replace_hit l' m ms hit)
          (λ i e. elim (k i e) [ inl old ↦ apart i (rw same old) | inr free ↦ free.1 ], u)
    | inr miss ↦
        let found = rw miss at h in
        rw (replace_miss l' m ms miss) (
          λ i e.
              replace-All (λ z. tree_leaf z ≢ some i) l' ms (apart i e)
                (λ e'. elim (k i e') [
                  | inl old ↦
                      find-All (λ z. tree_leaf z ≢ some i) (has_id l'.land_id) ms found (apart i e)
                        old
                  | inr free ↦ free.0 e
                ]),
          replace-Distinct ms found u
              (λ i e. elim (k i e) [ inl old ↦ inl old | inr free ↦ inr free.1 ]),
        )
  ]

leaf_step_same :
    (j : ℕ) (l l' : Land) (d : Option String)
    → tree_leaf l' ≡ tree_leaf l
    → l'.land_commitment ≡ l.land_commitment
    → leaf_step j l' d ≡ leaf_step j l d
unfolding leaf_step
leaf_step_same j l l' d e c = ground (arith, e, c)

-- A version with the same leaf and the same commitment leaves every leaf as it is.
pub leaf_map-replace_same :
    (l l' : Land) (j : ℕ) (ls : List Land) (d : Option String)
    → find (has_id l'.land_id) ls ≡ some l
    → tree_leaf l' ≡ tree_leaf l
    → l'.land_commitment ≡ l.land_commitment
    → leaf_map j (replace_land l' ls) d ≡ leaf_map j ls d
unfolding leaf_map
leaf_map-replace_same l l' j [] d h e c = cc
leaf_map-replace_same l l' j (m ∷ ms) d h e c = elim (Bool-cases (has_id l'.land_id m)) [
  | inl hit ↦
      let same : m ≡ l = some-injective m l (rw hit at h) in
      rw (replace_hit l' m ms hit, same) (ap (leaf_map j ms) (leaf_step_same j l l' d e c))
  | inr miss ↦ rw (replace_miss l' m ms miss) (leaf_map-replace_same l l' j ms _ (rw miss at h) e c)
]

-- A land appended outside the tree.
pub leaf_map-append :
    (l : Land) (j : ℕ) (ls : List Land) (d : Option String)
    → tree_leaf l ≡ none
    → leaf_map j (ls ++ l ∷ []) d ≡ leaf_map j ls d
unfolding leaf_map
leaf_map-append l j [] d e = leaf_step_ne j l d (λ q. cc (q, e))
leaf_map-append l j (m ∷ ms) d e = leaf_map-append l j ms _ e

pub append-Distinct :
    (l : Land) (ls : List Land) → tree_leaf l ≡ none → Distinct ls → Distinct (ls ++ l ∷ [])
append-Distinct l [] e u = (λ i q. tt, tt)
append-Distinct l (m ∷ ms) e (apart, u) = (
  λ i q. All-append (λ z. tree_leaf z ≢ some i) ms (l ∷ []) (apart i q) (λ r. cc (r, e), tt),
  append-Distinct l ms e u,
)
