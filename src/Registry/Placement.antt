-- ===== src/Registry/Placement.antt =====
-- The next free leaf, the bound on the tree's leaves, and that a refresh moves no land.
use thesis_project_land_chai.Prelude.{
  ℕ, ◌<◌, ◌≤◌, String, nat_eq, Option, none, some, List, [], ◌∷◌, map, All, All-weaken, ◌≡◌, ◌≢◌,
  inl, inr, refl, sym, ap, ◌∙◌, arith, Option-cases,
}
use thesis_project_land_chai.Merkle.{Layer, set, leaf_count, MerkleSnapshot}
use thesis_project_land_chai.Db.{Land}
use thesis_project_land_chai.Registry.{tree_leaf, highest_leaf, next_leaf_index, leaves_of, refresh}
use thesis_project_land_chai.Registry.Leaves.{leaf_step, leaf_map, Fresh, Distinct}

-- Every land that occupies a leaf does so below `n`.
abbrev pub Below : ℕ → List Land → Type 0
Below n = All (λ l. (i : ℕ) → tree_leaf l ≡ some i → i < n)

-- The highest leaf index bounds all of them.
highest_leaf-bounds :
    (ls : List Land) (l : Land) (i n : ℕ)
    → tree_leaf l ≡ some i
    → next_leaf_index (l ∷ ls) ≤ n
    → (i < n) × (next_leaf_index ls ≤ n)
unfolding next_leaf_index highest_leaf
highest_leaf-bounds ls l i n e h = elim (Option-cases (highest_leaf ls)) [
  | inl nothing ↦ ground arith
  | inr (j, top) ↦ ground arith
]

next_leaf_index-skip :
    (ls : List Land) (l : Land) → tree_leaf l ≡ none → next_leaf_index (l ∷ ls) ≡ next_leaf_index ls
unfolding next_leaf_index highest_leaf
next_leaf_index-skip ls l e = ground arith

Below-next : (ls : List Land) (n : ℕ) → next_leaf_index ls ≤ n → Below n ls
Below-next [] n h = tt
Below-next (l ∷ ls) n h = elim (Option-cases (tree_leaf l)) [
  | inl out ↦ (λ i e. cc (out, e), Below-next ls n (rw (next_leaf_index-skip ls l out) at h))
  | inr (j, at) ↦
      let (here, rest) = highest_leaf-bounds ls l j n at h in
      (λ i e. ground arith, Below-next ls n rest)
]

-- The next leaf index is above every leaf that a land occupies.
pub next_leaf_index-Below : (ls : List Land) → Below (next_leaf_index ls) ls
next_leaf_index-Below ls = Below-next ls (next_leaf_index ls) (omega arith)

-- No land occupies the next leaf index.
pub next_leaf_index-Fresh : (ls : List Land) → Fresh (next_leaf_index ls) ls
next_leaf_index-Fresh ls =
    All-weaken _ (λ l. tree_leaf l ≢ some (next_leaf_index ls))
      (λ l below e. let lt = below (next_leaf_index ls) e in omega arith) ls
      (next_leaf_index-Below ls)

leaf_count-set :
    (i n : ℕ) (v : String) (m : Layer) → i < n → leaf_count m ≤ n → leaf_count (set i v m) ≤ n
unfolding leaf_count set
leaf_count-set i n v [] lt h = omega arith
leaf_count-set i n v ((j, w) ∷ m) lt h = ground (arith, leaf_count-set i n v m lt)

pub leaf_count-leaves_of :
    (ls : List Land) (n : ℕ) (m : Layer)
    → Below n ls
    → leaf_count m ≤ n
    → leaf_count (leaves_of ls m) ≤ n
unfolding leaves_of
leaf_count-leaves_of [] n m b h = h
leaf_count-leaves_of (l ∷ ls) n m (lt, b) h = leaf_count-leaves_of ls n _ b (step (tree_leaf l) lt)
  where
    step :
        (o : Option ℕ)
        → ((i : ℕ) → o ≡ some i → i < n)
        → leaf_count (elim o [ none ↦ m | some i ↦ set i l.land_commitment m ]) ≤ n
    step none k = h
    step (some i) k = leaf_count-set i n l.land_commitment m (k i refl) h

module _ (s : MerkleSnapshot) where
  pub tree_leaf-refresh : (l : Land) → tree_leaf (refresh s l) ≡ tree_leaf l
  unfolding refresh tree_leaf
  tree_leaf-refresh l = ground arith

  pub commitment-refresh : (l : Land) → (refresh s l).land_commitment ≡ l.land_commitment
  unfolding refresh
  commitment-refresh l = ground arith

  leaf_step-refresh :
      (j : ℕ) (l : Land) (d : Option String) → leaf_step j (refresh s l) d ≡ leaf_step j l d
  unfolding leaf_step
  leaf_step-refresh j l d = ground (arith, tree_leaf-refresh l, commitment-refresh l)

  pub leaf_map-refresh :
      (j : ℕ) (ls : List Land) (d : Option String)
      → leaf_map j (map (refresh s) ls) d ≡ leaf_map j ls d
  unfolding leaf_map
  leaf_map-refresh j [] d = refl
  leaf_map-refresh j (l ∷ ls) d =
      leaf_map-refresh j ls _ ∙ ap (leaf_map j ls) (leaf_step-refresh j l d)

  pub Below-refresh : (n : ℕ) (ls : List Land) → Below n ls → Below n (map (refresh s) ls)
  Below-refresh n [] h = tt
  Below-refresh n (l ∷ ls) (lt, h) =
      (λ i e. lt i (sym (tree_leaf-refresh l) ∙ e), Below-refresh n ls h)

  pub Fresh-refresh : (i : ℕ) (ls : List Land) → Fresh i ls → Fresh i (map (refresh s) ls)
  Fresh-refresh i [] h = tt
  Fresh-refresh i (l ∷ ls) (ne, h) = (λ e. ne (sym (tree_leaf-refresh l) ∙ e), Fresh-refresh i ls h)

  pub Distinct-refresh : (ls : List Land) → Distinct ls → Distinct (map (refresh s) ls)
  Distinct-refresh [] h = tt
  Distinct-refresh (l ∷ ls) (apart, h) =
      (λ i e. Fresh-refresh i ls (apart i (sym (tree_leaf-refresh l) ∙ e)), Distinct-refresh ls h)
