-- ===== src/Merkle/Node.antt =====
-- The reference tree: node `i` at height `h` over a total assignment of leaves, and that each
-- layer which `build_layers` fills holds exactly the nodes of its height.
use thesis_project_land_chai.Prelude.{
  ℕ, zero, suc, ◌+◌, ◌*◌, ◌/◌, ◌==◌, String, true, false, none, some, List, [], ◌∷◌, ◌++◌, contains,
  ◌≡◌, refl, ◌||◌, ◌∙◌, arith, if◌then◌else◌, get_or_else, nat_eq, Bool-cases, Option-cases, inl,
  inr,
}
use thesis_project_land_chai.Merkle.{Layer, get, set, parent_indices, next_layer}

pub get-set :
    (i j : ℕ) (v : String) (m : Layer) → get j (set i v m) ≡ (if i == j then some v else get j m)
unfolding get set
get-set i j v [] = refl
get-set i j v ((k, w) ∷ m) = ground (arith, get-set i j v m)

contains-append : (ps : List ℕ) (x i : ℕ) → contains (ps ++ x ∷ []) i ≡ (contains ps i || x == i)
contains-append [] x i = ground arith
contains-append (p ∷ ps) x i = ground (arith, contains-append ps x i)

parent_indices-contains_old :
    (m : Layer) (ps : List ℕ) (i : ℕ)
    → contains ps i ≡ true
    → contains (parent_indices m ps) i ≡ true
unfolding parent_indices
parent_indices-contains_old [] ps i h = h
parent_indices-contains_old ((k, v) ∷ m) ps i h =
    parent_indices-contains_old m _ i (ground (arith, contains-append ps (k / 2) i))

parent_indices-contains :
    (m : Layer) (ps : List ℕ) (j i : ℕ) {v : String}
    → get j m ≡ some v
    → j / 2 ≡ i
    → contains (parent_indices m ps) i ≡ true
unfolding parent_indices get
parent_indices-contains [] ps j i h e = cc
parent_indices-contains ((k, w) ∷ m) ps j i h e = elim (Bool-cases (k == j)) [
  | inl same ↦ parent_indices-contains_old m _ i (ground (arith, contains-append ps (k / 2) i))
  | inr other ↦ parent_indices-contains m _ j i (rw other at h) e
]

parent_indices_missing :
    (m : Layer) (j i : ℕ) → contains (parent_indices m []) i ≡ false → j / 2 ≡ i → get j m ≡ none
parent_indices_missing m j i h e = elim (Option-cases (get j m)) [
  | inl missing ↦ missing
  | inr (v, found) ↦ cc (parent_indices-contains m [] j i found e)
]

module _ (hash : String → String → String) where
  -- The parent of two nodes of a layer, as the loop computes it.
  abbrev pub parent_hash : String → Layer → ℕ → String
  parent_hash z m i = hash (get_or_else (get (i * 2) m) z) (get_or_else (get (i * 2 + 1) m) z)

  next_layer-get :
      (z : String) (m : Layer) (ps : List ℕ) (acc : Layer) (i : ℕ)
      → get i (next_layer hash z m ps acc)
        ≡ (if contains ps i then some (parent_hash z m i) else get i acc)
  unfolding next_layer
  next_layer-get z m [] acc i = refl
  next_layer-get z m (p ∷ ps) acc i =
      next_layer-get z m ps (set p (parent_hash z m p) acc) i
      ∙ ground (arith, get-set p i (parent_hash z m p) acc)

  unfoldable pub node : (ℕ → String) → ℕ → ℕ → String
  node f zero i = f i
  node f (suc h) i = hash (node f h (i * 2)) (node f h (i * 2 + 1))

  -- A layer, read with its default, is the assignment `f`.
  abbrev pub Shows : String → Layer → (ℕ → String) → Type 0
  Shows z m f = (i : ℕ) → get_or_else (get i m) z ≡ f i

  pub next_layer-Shows :
      (z : String) (m : Layer) (f : ℕ → String)
      → Shows z m f
      → Shows
          (hash z z)
          (next_layer hash z m (parent_indices m []) [])
          (λ i. hash (f (i * 2)) (f (i * 2 + 1)))
  unfolding get
  next_layer-Shows z m f s i = elim (Bool-cases (contains (parent_indices m []) i)) [
    | inl listed ↦
        rw (next_layer-get z m (parent_indices m []) [] i, listed, s (i * 2), s (i * 2 + 1))
    | inr fresh ↦
        let left = parent_indices_missing m (i * 2) i fresh (omega arith) in
        let right = parent_indices_missing m (i * 2 + 1) i fresh (omega arith) in
        rw (
          next_layer-get z m (parent_indices m []) [] i,
          fresh,
          ← s (i * 2),
          ← s (i * 2 + 1),
          left,
          right,
        )
  ]
