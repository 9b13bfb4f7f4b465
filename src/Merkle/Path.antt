-- ===== src/Merkle/Path.antt =====
-- Paths of the reference tree, that `build_layers`, `path_loop` and `top` compute them, and that
-- folding the path of a leaf gives the root.
use thesis_project_land_chai.Prelude.{
  ℕ, zero, suc, ◌+◌, ◌-◌, ◌*◌, ◌/◌, ◌%◌, ◌^◌, ◌<◌, ◌==◌, String, some, List, [], ◌∷◌, ◌≡◌, ◌≢◌, ◌⊎◌,
  refl, ap, ◌∙◌, arith, if◌then◌else◌, nat_eq, Bool-cases, inl, inr,
}
use mathlib.Core.Path.{ap₂}
use native.Mathlib.Nat.{pow-suc}
use thesis_project_land_chai.Merkle.{
  Layer, MerklePath, sibling_index, zeros_loop, build_layers, path_loop, top, root_loop,
}
use thesis_project_land_chai.Merkle.Node.{node, Shows, next_layer-Shows}

-- The leaf's ancestor `n` levels up.
pub ancestor : ℕ → ℕ → ℕ
ancestor zero i = i
ancestor (suc n) i = ancestor n (i / 2)

pub ancestor-zero : (n i : ℕ) → i < 2 ^ n → ancestor n i ≡ 0
unfolding ancestor
ancestor-zero zero i h = omega arith
ancestor-zero (suc n) i h = ancestor-zero n (i / 2) (omega (arith, pow-suc 2 n))

spec_indices : ℕ → ℕ → List ℕ
spec_indices zero i = []
spec_indices (suc n) i = i % 2 ∷ spec_indices n (i / 2)

-- As many siblings as indices, one for each level, and an index says left or right.
abbrev pub IsPath : ℕ → List String → List ℕ → Type 0
IsPath zero [] [] = Unit
IsPath (suc n) (e ∷ es) (i ∷ is) = ((i ≡ 0) ⊎ (i ≡ 1)) × IsPath n es is
IsPath n es is = ⊥

bit_cases : (i : ℕ) → (i % 2 ≡ 0) ⊎ (i % 2 ≡ 1)
bit_cases i = elim (Bool-cases (i % 2 == 0)) [
  | inl even ↦ inl (ground (arith, even))
  | inr odd ↦ inr (ground (arith, odd))
]

module _ (hash : String → String → String) where
  -- The assignment of the level above.
  abbrev pub lift : (ℕ → String) → ℕ → String
  lift f i = hash (f (i * 2)) (f (i * 2 + 1))

  pub node-lift : (f : ℕ → String) (n i : ℕ) → node hash (lift f) n i ≡ node hash f (suc n) i
  unfolding node
  node-lift f zero i = refl
  node-lift f (suc n) i = ap₂ hash (node-lift f n (i * 2)) (node-lift f n (i * 2 + 1))

  spec_elements : (ℕ → String) → ℕ → ℕ → List String
  spec_elements f zero i = []
  spec_elements f (suc n) i = f (sibling_index i) ∷ spec_elements (lift f) n (i / 2)

  pub spec_path : (ℕ → String) → ℕ → ℕ → MerklePath
  unfolding spec_elements spec_indices
  spec_path f n i = record { path_elements = spec_elements f n i; path_indices = spec_indices n i }

  pub spec_path-IsPath :
      (f : ℕ → String) (n i : ℕ)
      → IsPath n (spec_path f n i).path_elements (spec_path f n i).path_indices
  unfolding spec_path spec_elements spec_indices
  spec_path-IsPath f zero i = tt
  spec_path-IsPath f (suc n) i = (bit_cases i, spec_path-IsPath (lift f) n (i / 2))

  pub top-node :
      (n : ℕ) (z : String) (m : Layer) (f : ℕ → String)
      → Shows hash z m f
      → top hash (build_layers hash (zeros_loop hash n z) m) (zeros_loop hash n z) ≡ node hash f n 0
  unfolding top build_layers zeros_loop node
  top-node zero z m f s = s 0
  top-node (suc zero) z m f s = next_layer-Shows hash z m f s 0
  top-node (suc (suc n)) z m f s =
      top-node (suc n) (hash z z) _ (lift f) (next_layer-Shows hash z m f s) ∙ node-lift f (suc n) 0

  pub path_loop-spec_path :
      (n : ℕ) (z : String) (m : Layer) (f : ℕ → String) (i : ℕ)
      → Shows hash z m f
      → path_loop hash (build_layers hash (zeros_loop hash n z) m) (zeros_loop hash n z) n i
        ≡ spec_path f n i
  unfolding path_loop build_layers zeros_loop spec_path
  path_loop-spec_path zero z m f i s = refl
  path_loop-spec_path (suc n) z m f i s = rw (
    path_loop-spec_path n (hash z z) _ (lift f) (i / 2) (next_layer-Shows hash z m f s),
    s (sibling_index i),
  )

  -- Hashing a node with its sibling, in the order of the index's parity, gives the parent.
  parent_of_sibling :
      (f : ℕ → String) (i : ℕ)
      → (if i % 2 == 0 then hash (f i) (f (sibling_index i)) else hash (f (sibling_index i)) (f i))
        ≡ lift f (i / 2)
  unfolding sibling_index
  parent_of_sibling f i = elim (Bool-cases (i % 2 == 0)) [
    | inl even ↦ let e : i / 2 * 2 ≡ i = ground arith in rw (even, e)
    | inr odd ↦
        let e : i / 2 * 2 ≡ i - 1 = ground arith in
        let e' : i - 1 + 1 ≡ i = ground arith in rw (odd, e, e')
  ]

  pub root_loop-spec_path :
      (f : ℕ → String) (n i : ℕ)
      → root_loop hash n (f i) (spec_path f n i).path_elements (spec_path f n i).path_indices
        ≡ some (node hash f n (ancestor n i))
  unfolding root_loop spec_path node ancestor
  root_loop-spec_path f zero i = refl
  root_loop-spec_path f (suc n) i =
      rw (parent_of_sibling f i)
        (root_loop-spec_path (lift f) n (i / 2) ∙ ap some (node-lift f n _))

  -- A path does not depend on its own leaf.
  spec_elements_congr :
      (f g : ℕ → String) (n i : ℕ)
      → ((j : ℕ) → j ≢ i → f j ≡ g j)
      → spec_elements f n i ≡ spec_elements g n i
  unfolding spec_elements sibling_index
  spec_elements_congr f g zero i h = refl
  spec_elements_congr f g (suc n) i h = ap₂ ◌∷◌ (h (sibling_index i) (ground arith)) (
      spec_elements_congr (lift f) (lift g) n (i / 2) (λ j ne.
        ap₂ hash (h (j * 2) (λ e. ne (omega arith))) (h (j * 2 + 1) (λ e. ne (omega arith)))))

  pub spec_path_congr :
      (f g : ℕ → String) (n i : ℕ)
      → ((j : ℕ) → j ≢ i → f j ≡ g j)
      → spec_path f n i ≡ spec_path g n i
  unfolding spec_path
  spec_path_congr f g n i h = rw (spec_elements_congr f g n i h)
