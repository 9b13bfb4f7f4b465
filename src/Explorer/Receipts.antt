-- ===== src/Explorer/Receipts.antt =====
-- Chain mode of the explorer, over what a JSON-RPC provider and the contract's ABI decoder answer.
use thesis_project_land_chai.Prelude.{
  ℕ, zero, suc, ◌+◌, ◌-◌, ◌/◌, ◌<>◌, ◌==◌, ◌++◌, string_eq, nat_eq, String, Bool, true, false,
  Option, none, some, List, [], ◌∷◌, filter, length, min, max, leb, get_or_else, if◌then◌else◌,
}
use thesis_project_land_chai.Prelude.Text.{to_decimal}
use thesis_project_land_chai.Errors.{Result, ok, err}
use thesis_project_land_chai.Db.{Transaction, Db}
use thesis_project_land_chai.Explorer.{
  Decoded, TxStatus, success, reverted, local, ExplorerBlock, chain_source, ExplorerResponse,
  RootContext, map_set, root_history, changes_from_events, ledger_info, ledger_state_changes,
}
use thesis_project_land_chai.Explorer.Pages.{
  local_block, newest_first, page_docs, number_docs, next_cursor_of, local_explorer,
}

-- A call or an event as the decoder gives it: the names of its inputs, and the texts of its values.
pub record Parsed : Type 0 where
  pub name : String
  pub inputs : List String
  pub values : List String

pub record ChainTx : Type 0 where
  pub input_data : String
  pub sender : String
  pub recipient : Option String
  pub nonce : ℕ
  pub value : ℕ

pub record ChainBlock : Type 0 where
  pub hash : Option String
  pub parent_hash : String
  pub timestamp : ℕ
  pub miner : String
  pub gas_used : ℕ
  pub gas_limit : ℕ

pub record Log : Type 0 where
  pub address : String
  pub topics : List String
  pub input_data : String

pub record Receipt : Type 0 where
  pub hash : String
  pub sender : String
  pub recipient : Option String
  pub block_number : ℕ
  pub gas_used : ℕ
  pub status : Option ℕ
  pub logs : List Log

-- A `none` is `null`, or an exception that the code catches.
pub record Provider : Type 0 where
  pub get_block_number : Result ℕ
  pub get_receipt : String → Option Receipt
  pub get_transaction : String → Option ChainTx
  pub get_block : ℕ → Option ChainBlock
  pub parse_transaction : ChainTx → Option Parsed
  pub parse_log : Log → Option Parsed
  pub format_ether : ℕ → String

-- The value of the input at a position; `String(undefined)` where there is none.
value_at : ℕ → List String → String
value_at i [] = "undefined"
value_at zero (v ∷ vs) = v
value_at (suc i) (v ∷ vs) = value_at i vs

unfoldable pub args_to_object :
    ℕ → List String → List String → List (String × String) → List (String × String)
unfolding value_at
args_to_object i [] values out = out
args_to_object i (input ∷ inputs) values out =
    args_to_object (i + 1) inputs values
      (map_set (if input == "" then "arg" <> to_decimal i else input) (value_at i values) out)

unfoldable pub decoded : Parsed → Decoded
unfolding args_to_object
decoded parsed = record {
  name = parsed.name;
  args = args_to_object 0 parsed.inputs parsed.values [];
}

unfoldable pub decoded_logs : Provider → List Log → List Decoded
unfolding decoded
decoded_logs p [] = []
decoded_logs p (log ∷ logs) =
    (elim (p.parse_log log) [ none ↦ [] | some e ↦ decoded e ∷ [] ]) ++ decoded_logs p logs

option_map : {A B : Type 0} → (A → B) → Option A → Option B
option_map f none = none
option_map f (some a) = some (f a)

option_bind : {A B : Type 0} → (A → Option B) → Option A → Option B
option_bind f none = none
option_bind f (some a) = f a

-- `a ?? b`
first_of : {A : Type 0} → Option A → Option A → Option A
first_of none b = b
first_of (some a) b = some a

-- `changes.length ? changes : others`
or_others : {A : Type 0} → List A → List A → List A
or_others [] others = others
or_others (c ∷ cs) others = c ∷ cs

unfoldable pub resolve_receipt : Provider → Transaction → RootContext → Receipt → ExplorerBlock
unfolding decoded decoded_logs ledger_info ledger_state_changes changes_from_events option_map
    option_bind first_of or_others
resolve_receipt p doc ctx receipt =
    let tx = p.get_transaction doc.blockchain_tx_hash in
    let block = p.get_block receipt.block_number in
    let events = decoded_logs p receipt.logs in
    record {
      number = receipt.block_number;
      hash = get_or_else (option_bind (λ (b : ChainBlock). b.hash) block) "";
      parent_hash = option_map (λ (b : ChainBlock). b.parent_hash) block;
      timestamp =
          get_or_else (option_map (λ (b : ChainBlock). b.timestamp) block) (doc.created_at / 1000);
      miner = option_map (λ (b : ChainBlock). b.miner) block;
      gas_used = option_map (λ (b : ChainBlock). to_decimal b.gas_used) block;
      gas_limit = option_map (λ (b : ChainBlock). to_decimal b.gas_limit) block;
      transactions =
          record {
            hash = receipt.hash;
            sender = some (get_or_else (option_map (λ (t : ChainTx). t.sender) tx) receipt.sender);
            recipient = first_of (option_bind (λ (t : ChainTx). t.recipient) tx) receipt.recipient;
            nonce = option_map (λ (t : ChainTx). t.nonce) tx;
            value_eth = option_map (λ (t : ChainTx). p.format_ether t.value) tx;
            gas_used = some (to_decimal receipt.gas_used);
            status = if get_or_else receipt.status 0 == 1 then success else reverted;
            method = option_map decoded (option_bind p.parse_transaction tx);
            events = events;
            state_changes =
                or_others (changes_from_events events ctx.prev_by_root)
                  (ledger_state_changes doc ctx);
            ledger = ledger_info doc;
          }
          ∷ [];
    }

unfoldable pub resolve_ledger_entry : Provider → RootContext → Transaction → ℕ → ExplorerBlock
unfolding resolve_receipt local_block
resolve_ledger_entry p ctx doc entry_number = elim (p.get_receipt doc.blockchain_tx_hash) [
  | none ↦ local_block doc entry_number ctx
  | some receipt ↦ resolve_receipt p doc ctx receipt
]

abbrev is_local : TxStatus → Bool
is_local local = true
is_local s = false

-- `b.transactions[0]?.status === "LOCAL"`
block_is_local : ExplorerBlock → Bool
block_is_local b = elim b.transactions [ [] ↦ false | t ∷ ts ↦ is_local t.status ]

unfoldable pub local_note : List ExplorerBlock → Option String
unfolding block_is_local
local_note blocks =
    let local_count = length (filter block_is_local blocks) in
    if leb local_count 0
    then none
    else some (
        to_decimal local_count
        <> " of "
        <> to_decimal (length blocks)
        <> " entries on this page have no on-chain transaction (recorded before the chain was configured or while it was unreachable) and are shown as LOCAL.")

unfoldable pub online_explorer : Provider → ℕ → ℕ → Option ℕ → Db → ExplorerResponse
unfolding local_note resolve_ledger_entry next_cursor_of root_history newest_first
online_explorer p latest_block limit cursor db =
    let total = length db.transactions in
    let skip = get_or_else cursor 0 in
    let docs = page_docs limit skip db in
    let ctx = root_history db in
    let blocks = number_docs (resolve_ledger_entry p ctx) (total - skip) docs in
    record {
      source = chain_source;
      note = local_note blocks;
      network = some latest_block;
      latest_root = ctx.latest_root;
      blocks = blocks;
      next_cursor = next_cursor_of skip docs total;
    }

-- `none` without an RPC_URL, and where the probe fails or runs out of time.
unfoldable pub chain_explorer : Option Provider → ℕ → Option ℕ → Db → Option ExplorerResponse
unfolding online_explorer
chain_explorer none limit cursor db = none
chain_explorer (some p) limit cursor db = elim p.get_block_number [
  | err e ↦ none
  | ok latest_block ↦ some (online_explorer p latest_block limit cursor db)
]

unfoldable pub page_limit : Option ℕ → ℕ
page_limit limit = min (max (get_or_else limit 10) 1) 25

-- `getExplorerBlocks`; the limit and the cursor are natural numbers where they are given.
unfoldable pub get_explorer_blocks : Option Provider → Option ℕ → Option ℕ → Db → ExplorerResponse
unfolding page_limit chain_explorer local_explorer
get_explorer_blocks rpc limit cursor db =
    get_or_else (chain_explorer rpc (page_limit limit) cursor db)
      (local_explorer (page_limit limit) cursor db)
