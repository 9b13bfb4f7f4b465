-- ===== src/Http/Exchange.antt =====
-- The controllers of proofs, challenges, purchases, deeds, the ledger and the explorer.
use Prim.Native.Char.{Char, code}
use Prim.Native.String as Text
use mathlib.Core.List.{reverse}
use thesis_project_land_chai.Prelude.{
  ℕ, ◌==◌, ◌&&◌, ◌||◌, ◌<>◌, string_eq, nat_eq, option_eq, String, Bool, false, Option, none, some,
  [], ◌∷◌, find, not, leb, if◌then◌else◌,
}
use thesis_project_land_chai.Prelude.Text.{is_digits, big_int, is_digit}
use thesis_project_land_chai.Errors.{forbidden, not_found}
use thesis_project_land_chai.Externals.{Externals}
use thesis_project_land_chai.Db.{
  Land, Challenge, Role-eq, authority, ChallengeStatus-eq, verified, Db,
}
use thesis_project_land_chai.Action.{Action, pure, lift, gets, or_throw, guards, ◌>>=◌, ◌>>◌}
use thesis_project_land_chai.Zk.{artifacts_status}
use thesis_project_land_chai.Ipfs.{upload_deed_to_ipfs, get_deed_document}
use thesis_project_land_chai.Proof.{submit_proof}
use thesis_project_land_chai.Proof.Access.{get_proof, list_proofs}
use thesis_project_land_chai.Proof.Reverify.{verify_proof_record}
use thesis_project_land_chai.Challenge.{
  create_challenge, list_challenges, get_challenge, add_challenge_message, respond_to_challenge,
  decline_challenge,
}
use thesis_project_land_chai.Challenge.Verify.{verify_challenge}
use thesis_project_land_chai.Transfer.{buy_listed_land}
use thesis_project_land_chai.Explorer.Receipts.{Provider, get_explorer_blocks}
use thesis_project_land_chai.Auth.{AuthUser}
use thesis_project_land_chai.Http as Http
use thesis_project_land_chai.Http.{Request, Reply, Payload}
use thesis_project_land_chai.Http.Body.{
  text_field, optional_text, raw_field, object_id, optional_id, proof_type_of,
}
use thesis_project_land_chai.Http.Controllers.{reply, created, query_value}

-- `Number` of a query value that is a numeral of digits; another one is read as absent.
query_number : String → Request → Option ℕ
unfolding query_value
query_number key req = elim (query_value key req) [
  | none ↦ none
  | some s ↦ if is_digits s then some (big_int s) else none
]

-- `[\w.\- ]`
name_char : Char → Bool
name_char c =
    is_digit c
    || leb b'A' (code c) && leb (code c) b'Z'
    || leb b'a' (code c) && leb (code c) b'z'
    || leb b'-' (code c) && leb (code c) b'.'
    || leb b'_' (code c) && leb (code c) b'_'
    || leb 32 (code c) && leb (code c) 32

-- `filename.replace(/[^\w.\- ]/g, "_")`
unfoldable pub safe_filename : String → String
unfolding name_char
safe_filename Text.[] = Text.[]
safe_filename (Text.◌∷◌ c s) =
    if name_char c then Text.◌∷◌ c (safe_filename s) else "_" <> safe_filename s

-- Who may see the deed of a CID.
unfoldable pub may_view_deed : String → AuthUser → Db → Bool
may_view_deed cid u db =
    u.role == authority || (elim (find (λ (l : Land). l.ipfs_cid == cid) db.lands) [
      | none ↦ false
      | some l ↦ l.owner_id == u.id
    ])

abbrev verdict : Option Challenge → String
verdict none = "Proof verification failed."
verdict (some c) =
    if c.status == verified then "Seller ownership verified." else "Proof verification failed."

module _ (x : Externals) (req : Request) (u : AuthUser) where
  unfoldable pub submit_proof_controller : Action Reply
  unfolding text_field raw_field optional_text optional_id proof_type_of
  submit_proof_controller = do
    challenge_id ← lift (optional_id (optional_text "challengeId" req.body))
    result ← submit_proof x (record {
      user_id = u.id;
      user_wallet = u.wallet_address;
      land_id = text_field "landId" req.body;
      proof_type = proof_type_of (raw_field "proofType" req.body);
      proof = raw_field "proof" req.body;
      public_signals = raw_field "publicSignals" req.body;
      challenge_id = challenge_id;
    })
    pure (created "Zero-knowledge proof verified and recorded." (Http.proof result))

  unfoldable pub verify_proof_controller : Action Reply
  unfolding text_field object_id
  verify_proof_controller = do
    proof_id ← lift (object_id (text_field "proofId" req.body))
    result ← verify_proof_record x proof_id u.id u.role
    pure (
        reply (if result.verified then "Proof verified." else "Proof verification failed.")
          (Http.proof result))

  unfoldable pub list_proofs_controller : Action Reply
  unfolding query_value
  list_proofs_controller = do
    proofs ← gets (list_proofs u.id u.role (query_value "landId" req))
    pure (reply "OK" (Http.proofs proofs))

  unfoldable pub get_proof_controller : String → Action Reply
  unfolding object_id
  get_proof_controller id_text = do
    proof_id ← lift (object_id id_text)
    proof ← lift (← gets (get_proof proof_id u.id u.role))
    pure (reply "OK" (Http.proof proof))

  -- The descriptions of the proof types, which are texts for the page, are left out.
  unfoldable pub proof_status_controller : Action Reply
  proof_status_controller = pure (reply "OK" (Http.circuits (artifacts_status x)))

  unfoldable pub create_challenge_controller : Action Reply
  unfolding text_field optional_text
  create_challenge_controller = do
    result ← create_challenge x (record {
      buyer_id = u.id;
      buyer_wallet = u.wallet_address;
      land_id = text_field "landId" req.body;
      message = optional_text "message" req.body;
    })
    pure (created "Ownership challenge sent to the seller." (Http.challenge (some result)))

  unfoldable pub list_challenges_controller : Action Reply
  list_challenges_controller = do
    result ← gets (list_challenges x u.id)
    pure (reply "OK" (Http.challenges result))

  unfoldable pub get_challenge_controller : String → Action Reply
  unfolding object_id
  get_challenge_controller id_text = do
    challenge_id ← lift (object_id id_text)
    result ← get_challenge x challenge_id u.id u.role
    pure (reply "OK" (Http.challenge (some result)))

  unfoldable pub add_message_controller : String → Action Reply
  unfolding object_id text_field
  add_message_controller id_text = do
    challenge_id ← lift (object_id id_text)
    result ← add_challenge_message x challenge_id u.id u.role (text_field "body" req.body)
    pure (reply "Message sent." (Http.challenge (some result)))

  unfoldable pub respond_challenge_controller : String → Action Reply
  unfolding object_id raw_field
  respond_challenge_controller id_text = do
    challenge_id ← lift (object_id id_text)
    result ←
        respond_to_challenge x challenge_id u.id u.wallet_address (raw_field "proof" req.body)
          (raw_field "publicSignals" req.body)
    pure (reply "Zero-knowledge ownership proof submitted to the buyer." (Http.answer result))

  unfoldable pub verify_challenge_controller : String → Action Reply
  unfolding object_id
  verify_challenge_controller id_text = do
    challenge_id ← lift (object_id id_text)
    result ← verify_challenge x challenge_id u.id
    pure (reply (verdict result) (Http.challenge result))

  unfoldable pub decline_challenge_controller : String → Action Reply
  unfolding object_id
  decline_challenge_controller id_text = do
    challenge_id ← lift (object_id id_text)
    result ← decline_challenge x challenge_id u.id
    pure (reply "Challenge declined." (Http.challenge (some result)))

  unfoldable pub buy_land_controller : Action Reply
  unfolding text_field
  buy_land_controller = do
    result ← buy_listed_land x (record {
      land_id = text_field "landId" req.body;
      buyer_id = u.id;
      buyer_wallet = u.wallet_address;
      new_land_commitment = text_field "newLandCommitment" req.body;
      new_area_commitment = text_field "newAreaCommitment" req.body;
    })
    pure (
        reply "Land purchased. Ownership transferred and re-committed to your secret."
          (Http.purchase result))

  unfoldable pub upload_ipfs_controller : Action Reply
  upload_ipfs_controller = do
    result ← upload_deed_to_ipfs x req.file
    pure (created "Deed uploaded." (Http.deed result))

  unfoldable pub get_deed_controller : String → Action Reply
  unfolding may_view_deed safe_filename
  get_deed_controller cid = do
    allowed ← gets (may_view_deed cid u)
    guards ((not allowed, forbidden "You are not authorized to view this deed.") ∷ [])
    found ← lift (← gets (get_deed_document x cid))
    document ← or_throw found (not_found "Deed document not found for this record.")
    pure (
        reply "OK" (Http.document (record document { filename = safe_filename document.filename })))

  unfoldable pub list_transactions_controller : Action Reply
  list_transactions_controller = do
    ledger ← gets (λ db. reverse db.transactions)
    pure (reply "OK" (Http.transactions ledger))

  unfoldable pub explorer_blocks_controller : Option Provider → Action Reply
  unfolding query_number
  explorer_blocks_controller rpc = do
    result ← gets (get_explorer_blocks rpc (query_number "limit" req) (query_number "cursor" req))
    pure (reply "OK" (Http.blocks result))
