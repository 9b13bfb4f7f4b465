-- ===== src/Circuit/Completeness.antt =====
-- The owner of a land in the tree can make the proofs: the browser's witnesses fulfil the circuits.
use thesis_project_land_chai.Prelude.{
  ℕ, zero, suc, ◌%◌, ◌<◌, nat_eq, string_eq, String, some, List, [], ◌∷◌, map, get_or_else, ◌≡◌,
  inl, inr, sym, ap, ◌∙◌, arith,
}
use mathlib.Core.Path.{subst, ap₂}
use thesis_project_land_chai.Prelude.Text.{big_int}
use thesis_project_land_chai.Prelude.Text.Decimal.{big_int-to_decimal}
use thesis_project_land_chai.Externals.{Externals}
use thesis_project_land_chai.Field.{field_prime, poseidon_hash2}
use thesis_project_land_chai.Merkle.{root_loop}
use thesis_project_land_chai.Merkle.Path.{IsPath}
use thesis_project_land_chai.Circuit.{level_left, level_right, merkle_tree_checker}

level_zero :
    (node element : ℕ)
    → node < field_prime
    → element < field_prime
    → (level_left node element 0 ≡ node) × (level_right node element 0 ≡ element)
unfolding field_prime
level_zero node element n e = (omega (arith, n, e), omega (arith, n, e))

level_one :
    (node element : ℕ)
    → node < field_prime
    → element < field_prime
    → (level_left node element 1 ≡ element) × (level_right node element 1 ≡ node)
unfolding field_prime
level_one node element n e = (omega (arith, n, e), omega (arith, n, e))

module _ (hash : ℕ → ℕ → ℕ) (n node element : ℕ) (es is : List ℕ) (a : node < field_prime)
    (b : element < field_prime) where
  checker_left :
      merkle_tree_checker hash (suc n) node (element ∷ es) (0 ∷ is)
      ≡ merkle_tree_checker hash n (hash node element) es is
  unfolding merkle_tree_checker nat_eq field_prime
  checker_left =
      ap (λ m. merkle_tree_checker hash n m es is)
        (ap₂ hash (level_zero node element a b).0 (level_zero node element a b).1)

  checker_right :
      merkle_tree_checker hash (suc n) node (element ∷ es) (1 ∷ is)
      ≡ merkle_tree_checker hash n (hash element node) es is
  unfolding merkle_tree_checker nat_eq field_prime
  checker_right =
      ap (λ m. merkle_tree_checker hash n m es is)
        (ap₂ hash (level_one node element a b).0 (level_one node element a b).1)

-- The field element that a decimal text denotes; snarkjs reduces its inputs.
unfoldable pub signal : String → ℕ
unfolding field_prime big_int
signal s = big_int s % field_prime

signal-below : (s : String) → signal s < field_prime
unfolding signal field_prime
signal-below s = omega arith

-- What circomlibjs documents of Poseidon: it maps into the field, and reads its inputs modulo the prime.
pub record IsFieldHash (poseidon : ℕ → ℕ → ℕ) : Type 0 where
  pub below : (a b : ℕ) → poseidon a b < field_prime
  pub modulo : (a b : ℕ) → poseidon (a % field_prime) (b % field_prime) ≡ poseidon a b

mod_small : (n : ℕ) → n < field_prime → n % field_prime ≡ n
unfolding field_prime
mod_small n h = omega (arith, h)

module _ (x : Externals) (h : IsFieldHash x.poseidon) where
  pub signal-hash :
      (a b : String) → signal (poseidon_hash2 x a b) ≡ x.poseidon (signal a) (signal b)
  unfolding signal poseidon_hash2
  signal-hash a b =
      ap (λ n. n % field_prime) (big_int-to_decimal (x.poseidon (big_int a) (big_int b)))
      ∙ mod_small _ (h.below (big_int a) (big_int b))
      ∙ sym (h.modulo (big_int a) (big_int b))

  abbrev pub Folds : ℕ → String → List String → List ℕ → String → Type 0
  Folds n leaf es is r =
      merkle_tree_checker x.poseidon n (signal leaf) (map signal es) is ≡ some (signal r)

  pub checker-root_loop :
      (n : ℕ) (leaf : String) (es : List String) (is : List ℕ) (r : String)
      → IsPath n es is
      → root_loop (poseidon_hash2 x) n leaf es is ≡ some r
      → merkle_tree_checker x.poseidon n (signal leaf) (map signal es) is ≡ some (signal r)
  unfolding merkle_tree_checker root_loop nat_eq
  checker-root_loop zero leaf [] [] r p e = ap (λ o. some (signal (get_or_else o ""))) e
  checker-root_loop zero leaf [] (i ∷ is) r p e = elim p [ ]
  checker-root_loop zero leaf (s ∷ es) is r p e = elim p [ ]
  checker-root_loop (suc n) leaf [] is r p e = elim p [ ]
  checker-root_loop (suc n) leaf (s ∷ es) [] r p e = elim p [ ]
  checker-root_loop (suc n) leaf (s ∷ es) (i ∷ is) r (inl bit, p) e =
      let folded =
        ap (λ j. root_loop (poseidon_hash2 x) (suc n) leaf (s ∷ es) (j ∷ is)) (sym bit) ∙ e in
      subst (λ j. Folds (suc n) leaf (s ∷ es) (j ∷ is) r) (sym bit)
        (checker_left x.poseidon n (signal leaf) (signal s) (map signal es) is (signal-below leaf)
            (signal-below s)
          ∙ ap (λ m. merkle_tree_checker x.poseidon n m (map signal es) is)
              (sym (signal-hash leaf s))
          ∙ checker-root_loop n (poseidon_hash2 x leaf s) es is r p folded)
  checker-root_loop (suc n) leaf (s ∷ es) (i ∷ is) r (inr bit, p) e =
      let folded =
        ap (λ j. root_loop (poseidon_hash2 x) (suc n) leaf (s ∷ es) (j ∷ is)) (sym bit) ∙ e in
      subst (λ j. Folds (suc n) leaf (s ∷ es) (j ∷ is) r) (sym bit)
        (checker_right x.poseidon n (signal leaf) (signal s) (map signal es) is (signal-below leaf)
            (signal-below s)
          ∙ ap (λ m. merkle_tree_checker x.poseidon n m (map signal es) is)
              (sym (signal-hash s leaf))
          ∙ checker-root_loop n (poseidon_hash2 x s leaf) es is r p folded)
