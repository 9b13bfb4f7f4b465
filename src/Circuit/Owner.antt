-- ===== src/Circuit/Owner.antt =====
-- From the stored path of a land to a witness that the circuits accept.
use thesis_project_land_chai.Prelude.{
  ℕ, zero, suc, ◌%◌, ◌≤◌, ◌<◌, ◌^◌, ◌==◌, nat_eq, string_eq, String, Bool, true, false, Option,
  some, List, [], ◌∷◌, map, find, find-All, is_some, ◌≡◌, refl, sym, ap, ◌∙◌, arith,
}
use mathlib.Core.Path.{subst, ap₂}
use thesis_project_land_chai.Prelude.Text.{to_decimal, big_int, is_digits}
use thesis_project_land_chai.Prelude.Text.Decimal.{big_int-to_decimal, is_digits-to_decimal}
use thesis_project_land_chai.Errors.{Result, ok, err}
use thesis_project_land_chai.Externals.{Externals}
use thesis_project_land_chai.Field.{field_prime, poseidon_hash2}
use thesis_project_land_chai.Db.{
  Land, Challenge, commitment_opening, registry_membership, challenge_response, area_range,
}
use thesis_project_land_chai.Land.{AreaNumber, nonneg}
use thesis_project_land_chai.Merkle.{compute_root_from_path}
use thesis_project_land_chai.Merkle.Path.{IsPath}
use thesis_project_land_chai.Merkle.Laws.{root_of, path_of, path_of-IsPath}
use thesis_project_land_chai.Merkle.Node.{node}
use thesis_project_land_chai.Registry.{hash2, tree_leaf}
use thesis_project_land_chai.Registry.Leaves.{has_id}
use thesis_project_land_chai.Registry.Transition.{land_leaf}
use thesis_project_land_chai.Registry.Invariant.{HasPath, IsRegistry, stored_path_folds}
use thesis_project_land_chai.Client.Zk.{
  Browser, client_poseidon_hash2, client_land_id_to_field, client_secret_to_field,
  client_area_salt_field, compute_commitments,
}
use thesis_project_land_chai.Client.Witness.{
  CircuitInput, is_empty, no_path, opening_input, membership_input, challenge_input, area_input,
  Options, build_circuit_input,
}
use thesis_project_land_chai.Circuit.{
  merkle_tree_checker, commitment_proof_circuit, land_ownership_circuit, challenge_proof_circuit,
  area_range_circuit,
}
use thesis_project_land_chai.Circuit.Completeness.{
  signal, IsFieldHash, signal-hash, checker-root_loop, Folds,
}

-- The circuit of a witness accepts it.
unfoldable pub accepted : (ℕ → ℕ → ℕ) → CircuitInput → Bool
unfolding signal commitment_proof_circuit land_ownership_circuit challenge_proof_circuit
    area_range_circuit
accepted hash (opening_input secret land_id commitment) =
    commitment_proof_circuit hash (signal secret) (signal land_id) (signal commitment)
accepted hash (membership_input land_id secret elements indices root) = is_some (
    land_ownership_circuit hash (signal land_id) (signal secret) (map signal elements)
      (map (λ i. i % field_prime) indices) (signal root))
accepted hash (challenge_input secret elements indices land_id root challenge) = is_some (
    challenge_proof_circuit hash (signal secret) (map signal elements)
      (map (λ i. i % field_prime) indices) (signal land_id) (signal root) (signal challenge))
accepted hash (area_input area salt commitment min_area) =
    area_range_circuit hash (signal area) (signal salt) (signal commitment) (signal min_area)

-- The browser makes a witness, and its circuit accepts it.
abbrev pub Proves : (ℕ → ℕ → ℕ) → Result CircuitInput → Type 0
Proves hash (ok input) = accepted hash input ≡ true
Proves hash (err e) = ⊥

reduced_indices :
    (n : ℕ) (es : List String) (is : List ℕ) → IsPath n es is → map (λ i. i % field_prime) is ≡ is
unfolding field_prime
reduced_indices zero [] [] p = refl
reduced_indices zero [] (i ∷ is) p = elim p [ ]
reduced_indices zero (e ∷ es) is p = elim p [ ]
reduced_indices (suc n) [] is p = elim p [ ]
reduced_indices (suc n) (e ∷ es) [] p = elim p [ ]
reduced_indices (suc n) (e ∷ es) (i ∷ is) (bit, p) =
    ap₂ (λ j js. j ∷ js) (ground (arith, bit)) (reduced_indices n es is p)

no_digits : (s : String) → s ≡ "" → is_digits s ≡ true → ⊥
unfolding is_digits
no_digits s e d = cc

to_decimal-not_empty : (n : ℕ) → (to_decimal n == "") ≡ false
to_decimal-not_empty n = elim (string_eq.dec (to_decimal n) "") [
  | yes e ↦ absurd (no_digits (to_decimal n) e (is_digits-to_decimal n))
  | no other ↦ ground (arith, other)
]

hash_not_empty : (x : Externals) (l r : String) → (poseidon_hash2 x l r == "") ≡ false
unfolding poseidon_hash2
hash_not_empty x l r = to_decimal-not_empty (x.poseidon (big_int l) (big_int r))

signal-to_decimal : (n : ℕ) → n < 2 ^ 64 → signal (to_decimal n) ≡ n
unfolding signal field_prime
signal-to_decimal n fits = ap (λ m. m % field_prime) (big_int-to_decimal n) ∙ omega (arith, fits)

module _ (x : Externals) (b : Browser) (h : IsFieldHash x.poseidon)
    (same : b.poseidon2 ≡ x.poseidon) where
  signal-client_hash :
      (l r : String) → signal (client_poseidon_hash2 b l r) ≡ x.poseidon (signal l) (signal r)
  unfolding client_poseidon_hash2 poseidon_hash2
  signal-client_hash l r =
      ap (λ (f : ℕ → ℕ → ℕ). signal (to_decimal (f (big_int l) (big_int r)))) same
      ∙ signal-hash x h l r

  -- The commitments that the browser computes are those that the circuits compute.
  land_commitment-opens :
      (land_id secret : String) (area : ℕ)
      → x.poseidon
          (signal (client_land_id_to_field b land_id))
          (signal (client_secret_to_field b land_id secret))
        ≡ signal (compute_commitments b land_id secret area).land_commitment
  unfolding compute_commitments
  land_commitment-opens land_id secret area = sym (signal-client_hash _ _)

  area_commitment-opens :
      (land_id secret : String) (area : ℕ)
      → x.poseidon (signal (to_decimal area)) (signal (client_area_salt_field b land_id secret))
        ≡ signal (compute_commitments b land_id secret area).area_commitment
  unfolding compute_commitments
  area_commitment-opens land_id secret area = sym (signal-client_hash _ _)

  area_accepted :
      (l : Land) (secret : String) (min_area : ℕ)
      → l.area_commitment ≡ (compute_commitments b l.land_id secret l.area_sqm).area_commitment
      → l.area_sqm < 2 ^ 64
      → min_area ≤ l.area_sqm
      → accepted x.poseidon (
          area_input
            (to_decimal l.area_sqm)
            (client_area_salt_field b l.land_id secret)
            l.area_commitment
            (to_decimal min_area))
        ≡ true
  unfolding accepted area_range_circuit
  area_accepted l secret min_area committed fits enough =
      let opens = area_commitment-opens l.land_id secret l.area_sqm ∙ ap signal (sym committed) in
      let value = signal-to_decimal l.area_sqm fits in
      let bound = signal-to_decimal min_area (omega (arith, fits, enough)) in
      ground (arith, opens, value, bound, fits, enough)

  area_built :
      (l : Land) (secret : String) (min_area : ℕ) (fraction : Bool) (c : Option (Result Challenge))
      → 1 ≤ min_area
      → build_circuit_input b area_range l secret
          (record { challenge = c; min_area = nonneg min_area fraction })
        ≡ ok (
            area_input
              (to_decimal l.area_sqm)
              (client_area_salt_field b l.land_id secret)
              l.area_commitment
              (to_decimal min_area))
  unfolding build_circuit_input
  area_built l secret min_area fraction c positive = ground (arith, positive)

  -- The owner can prove an area of a size that fits 64 bits to be at least any positive number that
  -- it is not below.
  pub owner-Proves_area :
      (l : Land) (secret : String) (min_area : ℕ) (fraction : Bool) (c : Option (Result Challenge))
      → l.area_commitment ≡ (compute_commitments b l.land_id secret l.area_sqm).area_commitment
      → l.area_sqm < 2 ^ 64
      → 1 ≤ min_area
      → min_area ≤ l.area_sqm
      → Proves x.poseidon (
          build_circuit_input b area_range l secret
            (record { challenge = c; min_area = nonneg min_area fraction }))
  owner-Proves_area l secret min_area fraction c committed fits positive enough =
      subst (Proves x.poseidon) (sym (area_built l secret min_area fraction c positive))
        (area_accepted l secret min_area committed fits enough)

  -- A land in the tree of a registry: its path, and the root that it folds to.
  module _ (ls : List Land) (land_id : String) (l : Land) (i : ℕ) (v : IsRegistry (hash2 x) ls)
      (found : find (has_id land_id) ls ≡ some l) (at : tree_leaf l ≡ some i) where
    stored :
        (l.merkle_root ≡ some (root_of (hash2 x) (land_leaf ls)))
        × IsPath 20 l.path_elements l.path_indices
    stored =
        let (root, elements, indices) =
          find-All (HasPath (hash2 x) (land_leaf ls)) (has_id land_id) ls found v.pathed i at in
        (
          root,
          subst (λ es. IsPath 20 es l.path_indices) (sym elements)
              (subst (IsPath 20 (path_of (hash2 x) (land_leaf ls) i).path_elements) (sym indices)
                (path_of-IsPath (hash2 x) (land_leaf ls) i)),
        )

    abbrev root : String
    root = root_of (hash2 x) (land_leaf ls)

    folds : Folds x h 20 l.land_commitment l.path_elements l.path_indices root
    unfolding compute_root_from_path
    folds =
        checker-root_loop x h 20 l.land_commitment l.path_elements l.path_indices root stored.1
          (stored_path_folds (hash2 x) ls land_id l i v found at ∙ stored.0)

    root-not_empty : (root == "") ≡ false
    unfolding root_of node
    root-not_empty =
        hash_not_empty x (node (hash2 x) (land_leaf ls) 19 0) (node (hash2 x) (land_leaf ls) 19 1)

    has_elements : (es : List String) (is : List ℕ) → IsPath 20 es is → is_empty es ≡ false
    has_elements [] is p = elim p [ ]
    has_elements (e ∷ es) is p = refl

    path_there : no_path l ≡ false
    path_there =
        ground
          (arith, stored.0, root-not_empty, has_elements l.path_elements l.path_indices stored.1)

    module _ (secret : String)
        (committed : l.land_commitment
          ≡ (compute_commitments b l.land_id secret l.area_sqm).land_commitment) where
      opens :
          x.poseidon
            (signal (client_land_id_to_field b l.land_id))
            (signal (client_secret_to_field b l.land_id secret))
          ≡ signal l.land_commitment
      opens = land_commitment-opens l.land_id secret l.area_sqm ∙ ap signal (sym committed)

      checked :
          merkle_tree_checker x.poseidon 20
            (x.poseidon
              (signal (client_land_id_to_field b l.land_id))
              (signal (client_secret_to_field b l.land_id secret)))
            (map signal l.path_elements)
            (map (λ i. i % field_prime) l.path_indices)
          ≡ some (signal root)
      checked =
          ap₂ (λ leaf is. merkle_tree_checker x.poseidon 20 leaf (map signal l.path_elements) is)
            opens (reduced_indices 20 l.path_elements l.path_indices stored.1)
          ∙ folds

      opening :
          (o : Options) → Proves x.poseidon (build_circuit_input b commitment_opening l secret o)
      unfolding build_circuit_input accepted commitment_proof_circuit
      opening o = ground (arith, opens)

      membership_accepted :
          accepted x.poseidon (
            membership_input
              (client_land_id_to_field b l.land_id)
              (client_secret_to_field b l.land_id secret)
              l.path_elements
              l.path_indices
              root)
          ≡ true
      unfolding accepted land_ownership_circuit
      membership_accepted = ground (arith, checked)

      challenge_accepted :
          (nonce : String)
          → accepted x.poseidon (
              challenge_input
                (client_secret_to_field b l.land_id secret)
                l.path_elements
                l.path_indices
                (client_land_id_to_field b l.land_id)
                root
                nonce)
            ≡ true
      unfolding accepted challenge_proof_circuit
      challenge_accepted nonce = ground (arith, checked)

      membership_built :
          (o : Options)
          → build_circuit_input b registry_membership l secret o
            ≡ ok (
                membership_input
                  (client_land_id_to_field b l.land_id)
                  (client_secret_to_field b l.land_id secret)
                  l.path_elements
                  l.path_indices
                  root)
      unfolding build_circuit_input
      membership_built o = ground (arith, path_there, stored.0)

      challenge_built :
          (c : Challenge) (area : AreaNumber)
          → build_circuit_input b challenge_response l secret
              (record { challenge = some (ok c); min_area = area })
            ≡ ok (
                challenge_input
                  (client_secret_to_field b l.land_id secret)
                  l.path_elements
                  l.path_indices
                  (client_land_id_to_field b l.land_id)
                  root
                  c.nonce)
      unfolding build_circuit_input
      challenge_built c area = ground (arith, path_there, stored.0)

      -- The owner of a land in the tree of a registry, who keeps the secret that the land's commitment was
      -- computed from, can open the commitment, prove membership anonymously and answer any challenge: the
      -- browser builds each of the three witnesses from the land as it is stored, and the circuit accepts
      -- it. Poseidon is a hash of field elements, the same in the browser and on the server.
      pub owner-Proves :
          (o : Options) (c : Challenge) (area : AreaNumber)
          → Proves x.poseidon (build_circuit_input b commitment_opening l secret o)
            × Proves x.poseidon (build_circuit_input b registry_membership l secret o)
            × Proves x.poseidon (
                build_circuit_input b challenge_response l secret
                  (record { challenge = some (ok c); min_area = area }))
      owner-Proves o c area = (
        opening o,
        subst (Proves x.poseidon) (sym (membership_built o)) membership_accepted,
        subst (Proves x.poseidon) (sym (challenge_built c area)) (challenge_accepted c.nonce),
      )
