-- ===== src/Merkle/Binding.antt =====
-- A path cannot be forged: whoever folds another leaf to the root has a collision of the hash.
use thesis_project_land_chai.Prelude.{
  ℕ, zero, suc, ◌+◌, ◌*◌, ◌==◌, String, some, List, [], ◌∷◌, ◌≡◌, ◌≢◌, ◌⊎◌, sym, ap, ◌∙◌, arith,
  if◌then◌else◌, nat_eq, string_eq, Bool-cases, inl, inr,
}
use thesis_project_land_chai.Merkle.{root_loop}
use thesis_project_land_chai.Merkle.Node.{node}
use thesis_project_land_chai.Merkle.Path.{lift, node-lift}

-- The index of the leaf that the path's directions lead to.
pub position : ℕ → List ℕ → ℕ
position zero is = 0
position (suc n) [] = 0
position (suc n) (b ∷ is) = position n is * 2 + (if b == 0 then 0 else 1)

-- `value` is what a text denotes to the hash.
module _ (value : String → ℕ) (hash : String → String → String) where
  -- The pair of a level: the text so far is the left one where the path's direction is 0.
  abbrev pair : ℕ → String → String → String × String
  pair b leaf e = if b == 0 then (leaf, e) else (e, leaf)

  -- The pairs `p` and `q` denote different values, and their hashes one value.
  abbrev pub Collides : String × String → String × String → Type 0
  Collides p q =
      (value (hash p.0 p.1) ≡ value (hash q.0 q.1))
      × ((value p.0 ≢ value q.0) ⊎ (value p.1 ≢ value q.1))

  -- At some level of the fold, the pair that the path hashes collides with the pair of nodes which
  -- the tree over `f` has in that place.
  pub PathCollision : (ℕ → String) → ℕ → String → List String → List ℕ → Type 0
  unfolding position
  PathCollision f zero leaf es is = ⊥
  PathCollision f (suc n) leaf [] is = ⊥
  PathCollision f (suc n) leaf (e ∷ es) [] = ⊥
  PathCollision f (suc n) leaf (e ∷ es) (b ∷ is) =
      Collides (pair b leaf e) (f (position n is * 2), f (position n is * 2 + 1))
      ⊎ PathCollision (lift hash f) n (hash (pair b leaf e).0 (pair b leaf e).1) es is

  compare_children :
      (a b c d : String)
      → value (hash a b) ≡ value (hash c d)
      → ((value a ≡ value c) × (value b ≡ value d)) ⊎ Collides (a, b) (c, d)
  compare_children a b c d e = elim (nat_eq.dec (value a) (value c)) [
    | no differ ↦ inr (e, inl differ)
    | yes p ↦ elim (nat_eq.dec (value b) (value d)) [
      | no differ ↦ inr (e, inr differ)
      | yes q ↦ inl (p, q)
    ]
  ]

  pub root_loop_binding :
      (f : ℕ → String) (n : ℕ) (leaf : String) (es : List String) (is : List ℕ)
      → root_loop hash n leaf es is ≡ some (node hash f n 0)
      → (value leaf ≡ value (f (position n is))) ⊎ PathCollision f n leaf es is
  unfolding root_loop node position PathCollision
  root_loop_binding f zero leaf es is h = inl (ground arith)
  root_loop_binding f (suc n) leaf [] is h = cc
  root_loop_binding f (suc n) leaf (e ∷ es) [] h = cc
  root_loop_binding f (suc n) leaf (e ∷ es) (b ∷ is) h =
      let k = position n is in
      elim (Bool-cases (b == 0)) [
        | inl left ↦
            elim (root_loop_binding (lift hash f) n (hash leaf e) es is
              ((rw left at h) ∙ ap some (sym (node-lift hash f n 0)))) [
                | inr c ↦ inr (inr (rw left c))
                | inl p ↦ elim (compare_children leaf e (f (k * 2)) (f (k * 2 + 1)) p) [
                  | inr c ↦ inr (inl (rw left c))
                  | inl (q, _) ↦ inl (ground arith)
                ]
              ]
        | inr right ↦
            elim (root_loop_binding (lift hash f) n (hash e leaf) es is
              ((rw right at h) ∙ ap some (sym (node-lift hash f n 0)))) [
                | inr c ↦ inr (inr (rw right c))
                | inl p ↦ elim (compare_children e leaf (f (k * 2)) (f (k * 2 + 1)) p) [
                  | inr c ↦ inr (inl (rw right c))
                  | inl (_, q) ↦ inl (ground arith)
                ]
              ]
      ]
