-- ===== src/Http/Preserved.antt =====
-- Every request keeps the registry.
use thesis_project_land_chai.Prelude.{ℕ, String, Option, ap, inl, inr}
use thesis_project_land_chai.Externals.{Externals}
use thesis_project_land_chai.Db.{User, Db}
use thesis_project_land_chai.Action.Keeps.{Keeps, keeps_rules}
use thesis_project_land_chai.Action.Maintains.{Maintains, Keeps-Maintains, maintains_rules}
use thesis_project_land_chai.Registry.{hash2}
use thesis_project_land_chai.Registry.Invariant.{IsRegistry}
use thesis_project_land_chai.Ipfs.{DeedFile, upload_deed_to_ipfs, upload_deed_to_ipfs-lands}
use thesis_project_land_chai.Land.{
  LandRequest, request_land_registration, approve_land, reject_land, list_land_for_sale,
  cancel_land_sale,
}
use thesis_project_land_chai.Land.Request.{request_land_registration-IsRegistry}
use thesis_project_land_chai.Land.Preserved.{approve_land-IsRegistry}
use thesis_project_land_chai.Land.Sale.{
  reject_land-IsRegistry, list_land_for_sale-IsRegistry, cancel_land_sale-IsRegistry,
}
use thesis_project_land_chai.Challenge.Lands.{
  submit_proof-Keeps, verify_proof_record-Keeps, create_challenge-Keeps,
  add_challenge_message-Keeps, respond_to_challenge-Keeps, verify_challenge-Keeps,
  decline_challenge-Keeps,
}
use thesis_project_land_chai.Transfer.{Purchase, buy_listed_land}
use thesis_project_land_chai.Transfer.Preserved.{buy_listed_land-IsRegistry}
use thesis_project_land_chai.Auth.{
  AuthUser, Identity, Registration, create_user, register_user, login_user,
}
use thesis_project_land_chai.Auth.Access.{create_user-cases}
use thesis_project_land_chai.Action.{Action}
use thesis_project_land_chai.Http.{Request}
use thesis_project_land_chai.Http.Controllers.{
  registration_of, register_controller, login_controller, request_land_controller,
  approve_land_controller, reject_land_controller, list_land_for_sale_controller,
  cancel_land_sale_controller,
}
use thesis_project_land_chai.Http.Exchange.{
  submit_proof_controller, verify_proof_controller, create_challenge_controller,
  add_message_controller, respond_challenge_controller, verify_challenge_controller,
  decline_challenge_controller, buy_land_controller, upload_ipfs_controller,
}

module _ (x : Externals) where
  abbrev pub Registered : Db → Type 0
  Registered db = IsRegistry (hash2 x) db.lands

  request-Registered : (i : LandRequest) → Maintains Registered (request_land_registration x i)
  request-Registered i = record {
    maintained = λ db v. request_land_registration-IsRegistry x (hash2 x) i db v;
  }

  approve-Registered :
      (land_id : String) (id : ℕ) → Maintains Registered (approve_land x land_id id)
  approve-Registered land_id id = record {
    maintained = λ db v. approve_land-IsRegistry x db land_id id v;
  }

  reject-Registered :
      (land_id : String) (reason : Option String)
      → Maintains Registered (reject_land x land_id reason)
  reject-Registered land_id reason = record {
    maintained = λ db v. reject_land-IsRegistry x db land_id (hash2 x) reason v;
  }

  list-Registered :
      (land_id price : String) (id : ℕ)
      → Maintains Registered (list_land_for_sale x land_id price id)
  list-Registered land_id price id = record {
    maintained = λ db v. list_land_for_sale-IsRegistry x db land_id (hash2 x) price id v;
  }

  cancel-Registered :
      (land_id : String) (id : ℕ) → Maintains Registered (cancel_land_sale x land_id id)
  cancel-Registered land_id id = record {
    maintained = λ db v. cancel_land_sale-IsRegistry x db land_id (hash2 x) id v;
  }

  buy-Registered : (i : Purchase) → Maintains Registered (buy_listed_land x i)
  buy-Registered i = record { maintained = λ db v. buy_listed_land-IsRegistry x i db v }

  upload-Keeps : (file : Option DeedFile) → Keeps (λ db. db.lands) (upload_deed_to_ipfs x file)
  upload-Keeps file = record { kept = upload_deed_to_ipfs-lands x file }

  pub create_user-Keeps : (u : User) → Keeps (λ db. db.lands) (create_user u)
  create_user-Keeps u = record {
    kept = λ db. elim (create_user-cases u db) [
      | inl (created, free) ↦ ap (λ r. r.1.lands) created
      | inr (e, refused) ↦ ap (λ r. r.1.lands) refused
    ];
  }

  register-Keeps : (k : Identity) (i : Registration) → Keeps (λ db. db.lands) (register_user x k i)
  unfolding register_user
  register-Keeps k i = search (keeps_rules, create_user-Keeps) depth 40

  login-Keeps :
      (k : Identity) (email password : String)
      → Keeps (λ db. db.lands) (login_user x k email password)
  unfolding login_user
  login-Keeps k email password = search (keeps_rules) depth 40

  -- A service that writes no land maintains it.
  lands_kept : {A : Type 0} (m : Action A) → Keeps (λ db. db.lands) m → Maintains Registered m
  lands_kept m = Keeps-Maintains (λ db. db.lands) (IsRegistry (hash2 x)) m

ruleset service_rules = (
  request-Registered, approve-Registered, reject-Registered, list-Registered, cancel-Registered,
  buy-Registered, lands_kept, upload-Keeps, register-Keeps, login-Keeps, submit_proof-Keeps,
  verify_proof_record-Keeps, create_challenge-Keeps, add_challenge_message-Keeps,
  respond_to_challenge-Keeps, verify_challenge-Keeps, decline_challenge-Keeps,
)

module _ (x : Externals) (k : Identity) (req : Request) where
  pub register-Maintains : Maintains (Registered x) (register_controller x k req)
  unfolding register_controller registration_of
  register-Maintains = search (maintains_rules, service_rules) depth 40

  pub login-Maintains : Maintains (Registered x) (login_controller x k req)
  unfolding login_controller
  login-Maintains = search (maintains_rules, service_rules) depth 40

  module _ (u : AuthUser) where
    pub request-Maintains : Maintains (Registered x) (request_land_controller x req u)
    unfolding request_land_controller
    request-Maintains = search (maintains_rules, service_rules) depth 40

    pub approve-Maintains :
        (land_id : String) → Maintains (Registered x) (approve_land_controller x req u land_id)
    unfolding approve_land_controller
    approve-Maintains land_id = search (maintains_rules, service_rules) depth 40

    pub reject-Maintains :
        (land_id : String) → Maintains (Registered x) (reject_land_controller x req u land_id)
    unfolding reject_land_controller
    reject-Maintains land_id = search (maintains_rules, service_rules) depth 40

    pub sell-Maintains :
        (land_id : String)
        → Maintains (Registered x) (list_land_for_sale_controller x req u land_id)
    unfolding list_land_for_sale_controller
    sell-Maintains land_id = search (maintains_rules, service_rules) depth 40

    pub cancel_sale-Maintains :
        (land_id : String) → Maintains (Registered x) (cancel_land_sale_controller x req u land_id)
    unfolding cancel_land_sale_controller
    cancel_sale-Maintains land_id = search (maintains_rules, service_rules) depth 40

    pub submit-Maintains : Maintains (Registered x) (submit_proof_controller x req u)
    unfolding submit_proof_controller
    submit-Maintains = search (maintains_rules, service_rules) depth 40

    pub verify_proof-Maintains : Maintains (Registered x) (verify_proof_controller x req u)
    unfolding verify_proof_controller
    verify_proof-Maintains = search (maintains_rules, service_rules) depth 40

    pub challenge-Maintains : Maintains (Registered x) (create_challenge_controller x req u)
    unfolding create_challenge_controller
    challenge-Maintains = search (maintains_rules, service_rules) depth 40

    pub message-Maintains :
        (id_text : String) → Maintains (Registered x) (add_message_controller x req u id_text)
    unfolding add_message_controller
    message-Maintains id_text = search (maintains_rules, service_rules) depth 40

    pub response-Maintains :
        (id_text : String) → Maintains (Registered x) (respond_challenge_controller x req u id_text)
    unfolding respond_challenge_controller
    response-Maintains id_text = search (maintains_rules, service_rules) depth 40

    pub verify_challenge-Maintains :
        (id_text : String) → Maintains (Registered x) (verify_challenge_controller x req u id_text)
    unfolding verify_challenge_controller
    verify_challenge-Maintains id_text = search (maintains_rules, service_rules) depth 40

    pub decline-Maintains :
        (id_text : String) → Maintains (Registered x) (decline_challenge_controller x req u id_text)
    unfolding decline_challenge_controller
    decline-Maintains id_text = search (maintains_rules, service_rules) depth 40

    pub buy-Maintains : Maintains (Registered x) (buy_land_controller x req u)
    unfolding buy_land_controller
    buy-Maintains = search (maintains_rules, service_rules) depth 40

    pub upload-Maintains : Maintains (Registered x) (upload_ipfs_controller x req u)
    unfolding upload_ipfs_controller
    upload-Maintains = search (maintains_rules, service_rules) depth 40

pub ruleset write_rules = (
  register-Maintains, login-Maintains, request-Maintains, approve-Maintains, reject-Maintains,
  sell-Maintains, cancel_sale-Maintains, submit-Maintains, verify_proof-Maintains,
  challenge-Maintains, message-Maintains, response-Maintains, verify_challenge-Maintains,
  decline-Maintains, buy-Maintains, upload-Maintains,
)
