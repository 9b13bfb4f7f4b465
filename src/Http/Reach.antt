-- ===== src/Http/Reach.antt =====
-- The states that the server reaches by starting, over an empty database, and answering requests
-- one after another. Each request has a clock, random bytes, a chain, files of its own; what all of
-- them share is the hash of the registry's tree.
use thesis_project_land_chai.Prelude.{ℕ, String, Option, none, some, [], ◌≡◌, refl, sym}
use mathlib.Core.Path.{subst}
use thesis_project_land_chai.Externals.{Externals}
use thesis_project_land_chai.Db.{Land, User, Db, find_land}
use thesis_project_land_chai.Action.{Action, pure, ◌>>=◌}
use thesis_project_land_chai.Action.Maintains.{Maintains, Maintains-read}
use thesis_project_land_chai.Merkle.{compute_root_from_path}
use thesis_project_land_chai.Registry.{hash2, tree_leaf}
use thesis_project_land_chai.Registry.Invariant.{IsRegistry, stored_path_folds}
use thesis_project_land_chai.Explorer.Receipts.{Provider}
use thesis_project_land_chai.Auth.{
  AuthUser, Identity, create_user, authority_account, seed_authority,
}
use thesis_project_land_chai.Http.{Request}
use thesis_project_land_chai.Http.Middleware.{handler_rules}
use thesis_project_land_chai.Action.Keeps.{Keeps, keeps_rules}
use thesis_project_land_chai.Http.Reads.{read_route-Maintains}
use thesis_project_land_chai.Http.Preserved.{Registered, create_user-Keeps, write_rules}
use thesis_project_land_chai.Http.Routes.{
  Endpoint, post_register, post_login, get_artifact, artifact_response, secured, UserEndpoint,
  land_routes, proof_routes, challenge_routes, ipfs_routes, post_land_request, post_approve,
  post_reject, patch_sell, patch_cancel_sale, post_proof, post_proof_verify, post_challenge,
  post_message, post_response, post_challenge_verify, post_decline, post_buy, post_deed, is_get,
  land_route, proof_route, challenge_route, ipfs_route, user_route, handle,
}

module _ (x : Externals) (k : Identity) (rpc : Option Provider) (req : Request) where
  route-Registered :
      (endpoint : UserEndpoint) (u : AuthUser)
      → Maintains (Registered x) (user_route x k rpc req endpoint u)
  unfolding user_route land_route proof_route challenge_route ipfs_route is_get
  route-Registered (land_routes post_land_request) u = search (handler_rules, write_rules) depth 20
  route-Registered (land_routes (post_approve land_id)) u =
      search (handler_rules, write_rules) depth 20
  route-Registered (land_routes (post_reject land_id)) u =
      search (handler_rules, write_rules) depth 20
  route-Registered (land_routes (patch_sell land_id)) u =
      search (handler_rules, write_rules) depth 20
  route-Registered (land_routes (patch_cancel_sale land_id)) u =
      search (handler_rules, write_rules) depth 20
  route-Registered (proof_routes post_proof) u = search (handler_rules, write_rules) depth 20
  route-Registered (proof_routes post_proof_verify) u = search (handler_rules, write_rules) depth 20
  route-Registered (challenge_routes post_challenge) u =
      search (handler_rules, write_rules) depth 20
  route-Registered (challenge_routes (post_message id_text)) u =
      search (handler_rules, write_rules) depth 20
  route-Registered (challenge_routes (post_response id_text)) u =
      search (handler_rules, write_rules) depth 20
  route-Registered (challenge_routes (post_challenge_verify id_text)) u =
      search (handler_rules, write_rules) depth 20
  route-Registered (challenge_routes (post_decline id_text)) u =
      search (handler_rules, write_rules) depth 20
  route-Registered post_buy u = search (handler_rules, write_rules) depth 20
  route-Registered (ipfs_routes post_deed) u = search (handler_rules, write_rules) depth 20
  route-Registered endpoint u = read_route-Maintains x k rpc req endpoint u refl

  handle-Registered : (endpoint : Endpoint) → Maintains (Registered x) (handle x k rpc req endpoint)
  unfolding handle
  handle-Registered post_register = search (handler_rules, write_rules) depth 20
  handle-Registered post_login = search (handler_rules, write_rules) depth 20
  handle-Registered (get_artifact circuit kind) =
      Maintains-read (λ db. artifact_response x circuit kind)
  handle-Registered (secured endpoint) = search (handler_rules, route-Registered) depth 20

seed_branch :
    (x : Externals) (k : Identity) (existing : Option User)
    → Keeps
        (λ db. db.lands)
        (elim existing as (λ o. Action (Unit {0})) [
          | some account ↦ pure tt
          | none ↦ create_user (authority_account x k) >>= λ created. pure tt
        ])
seed_branch x k none = search (keeps_rules, create_user-Keeps) depth 20
seed_branch x k (some account) = search (keeps_rules) depth 20

seed-Keeps : (x : Externals) (k : Identity) → Keeps (λ db. db.lands) (seed_authority x k)
unfolding seed_authority
seed-Keeps x k = search (keeps_rules, seed_branch) depth 20

abbrev pub empty : Db
empty = record {
  lands = [];
  challenges = [];
  proofs = [];
  transactions = [];
  merkle_roots = [];
  users = [];
  uploads = [];
  next_id = 1;
}

-- `start` is the server's start, which may come again at any time.
pub data Step (hash : String → String → String) (db : Db) : Db → Type 0 where
  start : (x : Externals) (k : Identity) → Step hash db (seed_authority x k db).1
  answer :
      (x : Externals) (k : Identity) (rpc : Option Provider) (req : Request) (endpoint : Endpoint)
      → hash2 x ≡ hash
      → Step hash db (handle x k rpc req endpoint db).1

pub data Reach (hash : String → String → String) : Db → Type 0 where
  none_yet : Reach hash empty
  then_step : {db db' : Db} → Reach hash db → Step hash db db' → Reach hash db'

module _ (hash : String → String → String) where
  empty-IsRegistry : IsRegistry hash []
  empty-IsRegistry = record {
    base = record { below = tt; distinct = tt; placed = tt };
    pathed = tt;
  }

  Step-IsRegistry :
      {db db' : Db} → Step hash db db' → IsRegistry hash db.lands → IsRegistry hash db'.lands
  Step-IsRegistry {db} (start x k) v = subst (IsRegistry hash) (sym ((seed-Keeps x k).kept db)) v
  Step-IsRegistry {db} (answer x k rpc req endpoint same) v =
      subst (λ h. IsRegistry h (handle x k rpc req endpoint db).1.lands) same
        ((handle-Registered x k rpc req endpoint).maintained db
          (subst (λ h. IsRegistry h db.lands) (sym same) v))

  -- In every state that requests reach, whatever they are and whoever makes them, whether they succeed
  -- or fail, the lands are a registry: the leaves are below the tree's capacity and pairwise different,
  -- a land has a leaf exactly when it is approved, and what is stored with it is the root of the tree
  -- over the lands and its path in it.
  pub Reach-IsRegistry : {db : Db} → Reach hash db → IsRegistry hash db.lands
  Reach-IsRegistry none_yet = empty-IsRegistry
  Reach-IsRegistry (then_step before step) = Step-IsRegistry step (Reach-IsRegistry before)

  -- So in every such state the owner of a land in the tree can prove membership: the path stored with
  -- the land folds from its commitment to its stored root.
  pub Reach-stored_path :
      (db : Db) (land_id : String) (l : Land) (i : ℕ)
      → Reach hash db
      → find_land land_id db ≡ some l
      → tree_leaf l ≡ some i
      → compute_root_from_path hash l.land_commitment
          (record { path_elements = l.path_elements; path_indices = l.path_indices })
        ≡ l.merkle_root
  unfolding find_land
  Reach-stored_path db land_id l i reached found at =
      stored_path_folds hash db.lands land_id l i (Reach-IsRegistry reached) found at
