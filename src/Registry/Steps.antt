-- ===== src/Registry/Steps.antt =====
-- The runs of the tree's two actions, and the small facts on stored documents that the services'
-- proofs share.
use mathlib.Core.Option.{some-injective}
use thesis_project_land_chai.Prelude.{
  String, ◌==◌, string_eq, some, List, [], ◌∷◌, ◌++◌, map, find, ◌≡◌, refl, ap, arith, Bool-cases,
  inl, inr,
}
use thesis_project_land_chai.Errors.{Error, ok, err}
use thesis_project_land_chai.Json.{Json}
use thesis_project_land_chai.Externals.{TransitionInput, Externals}
use thesis_project_land_chai.Merkle.{MerklePath, MerkleSnapshot, build_tree, compute_root_from_path}
use thesis_project_land_chai.Db.{Land, Db, last_of, replace_land}
use thesis_project_land_chai.Chain.{RootTransition}
use thesis_project_land_chai.Zk.{prove_with_circuit}
use thesis_project_land_chai.Action.{◌>>=◌}
use thesis_project_land_chai.Registry.{
  hash2, refresh, rebuild_registry_tree, leaves_of, prove_root_transition,
}
use thesis_project_land_chai.Registry.Leaves.{has_id}

pub last_of-append {ℓ} : {A : Type ℓ} (xs : List A) (a : A) → last_of (xs ++ a ∷ []) ≡ some a
unfolding last_of
last_of-append [] a = refl
last_of-append (x ∷ []) a = refl
last_of-append (x ∷ y ∷ rest) a = last_of-append (y ∷ rest) a

pub find-replace :
    (l l' : Land) (ls : List Land)
    → find (has_id l'.land_id) ls ≡ some l
    → find (has_id l'.land_id) (replace_land l' ls) ≡ some l'
unfolding replace_land
find-replace l l' [] h = cc
find-replace l l' (m ∷ ms) h = ground (arith, find-replace l l' ms)

pub land_id-refresh : (s : MerkleSnapshot) (l : Land) → (refresh s l).land_id ≡ l.land_id
unfolding refresh
land_id-refresh s l = ground arith

pub find-refresh :
    (s : MerkleSnapshot) (land_id : String) (ls : List Land) {l : Land}
    → find (has_id land_id) ls ≡ some l
    → find (has_id land_id) (map (refresh s) ls) ≡ some (refresh s l)
find-refresh s land_id [] h = cc
find-refresh s land_id (m ∷ ms) {l} h =
    let same : has_id land_id (refresh s m) ≡ has_id land_id m =
      ap (λ k. k == land_id) (land_id-refresh s m) in
    elim (Bool-cases (has_id land_id m)) [
      | inl hit ↦
          let e : m ≡ l = some-injective m l (rw hit at h) in
          rw (same, hit) (ap (λ z. some (refresh s z)) e)
      | inr miss ↦ rw (same, miss) (find-refresh s land_id ms (rw miss at h))
    ]

module _ (x : Externals) where
  pub rebuild-ok :
      (db : Db) {s : MerkleSnapshot}
      → build_tree (hash2 x) (leaves_of db.lands []) ≡ ok s
      → rebuild_registry_tree x db ≡ (ok s, record db { lands = map (refresh s) db.lands })
  unfolding rebuild_registry_tree ◌>>=◌
  rebuild-ok db e = rw (e, ◌>>=◌) refl

  -- What is asked of the prover: it proves every transition whose two roots are computed from the
  -- path and the two leaves.
  pub record ProvesTransitions : Type 0 where
    pub proves :
        (t : TransitionInput)
        → compute_root_from_path
            (hash2 x)
            t.leaf_before
            (record { path_elements = t.path_elements; path_indices = t.path_indices })
          ≡ some t.old_root
        → compute_root_from_path
            (hash2 x)
            t.leaf_after
            (record { path_elements = t.path_elements; path_indices = t.path_indices })
          ≡ some t.new_root
        → (r : Json × List String) × (prove_with_circuit x t ≡ ok r)

  pub prove_root_transition-ok :
      ProvesTransitions
      → (path : MerklePath) (leaf_before leaf_after old_root new_root : String) (db : Db)
      → compute_root_from_path (hash2 x) leaf_before path ≡ some old_root
      → compute_root_from_path (hash2 x) leaf_after path ≡ some new_root
      → (t : RootTransition) × (prove_root_transition x path leaf_before leaf_after new_root db
          ≡ (ok t, db))
  unfolding prove_root_transition ◌>>=◌
  prove_root_transition-ok p path leaf_before leaf_after old_root new_root db e e' =
      let (r, proved) =
        p.proves
          (record {
            path_elements = path.path_elements;
            path_indices = path.path_indices;
            leaf_before = leaf_before;
            leaf_after = leaf_after;
            old_root = old_root;
            new_root = new_root;
          })
          e e' in
      (record { proof = r.0; public_signals = r.1 }, ground (arith, e, e', proved))

  -- Where the prover throws, so does the transition, and it writes nothing.
  pub prove_root_transition-err :
      (e : Error)
      → ((t : TransitionInput) → prove_with_circuit x t ≡ err e)
      → (path : MerklePath) (leaf_before leaf_after old_root new_root : String) (db : Db)
      → compute_root_from_path (hash2 x) leaf_before path ≡ some old_root
      → compute_root_from_path (hash2 x) leaf_after path ≡ some new_root
      → prove_root_transition x path leaf_before leaf_after new_root db ≡ (err e, db)
  unfolding prove_root_transition ◌>>=◌
  prove_root_transition-err e fails path leaf_before leaf_after old_root new_root db p q =
      let failed = fails (record {
        path_elements = path.path_elements;
        path_indices = path.path_indices;
        leaf_before = leaf_before;
        leaf_after = leaf_after;
        old_root = old_root;
        new_root = new_root;
      }) in
      ground (arith, p, q, failed)
