-- ===== src/Explorer/Pages.antt =====
-- The blocks of the ledger without a chain, and its pages: `localBlock` and `localExplorer` of
-- explorer.service.ts.
use thesis_project_land_chai.Prelude.{
  ℕ, ◌+◌, ◌-◌, ◌/◌, Option, none, some, List, [], ◌∷◌, length, take, drop, leb, ltb, get_or_else,
  if◌then◌else◌,
}
use thesis_project_land_chai.Db.{Transaction, Db}
use thesis_project_land_chai.Explorer.{
  ExplorerBlock, local, local_source, ExplorerResponse, RootContext, root_history, ledger_info,
  ledger_state_changes,
}

unfoldable pub local_block : Transaction → ℕ → RootContext → ExplorerBlock
unfolding ledger_state_changes ledger_info
local_block doc entry_number ctx = record {
  number = entry_number;
  hash = doc.blockchain_tx_hash;
  parent_hash = none;
  timestamp = doc.created_at / 1000;
  miner = none;
  gas_used = none;
  gas_limit = none;
  transactions =
      record {
        hash = doc.blockchain_tx_hash;
        sender = doc.from_owner;
        recipient = doc.to_owner;
        nonce = none;
        value_eth = none;
        gas_used = none;
        status = local;
        method = none;
        events = [];
        state_changes = ledger_state_changes doc ctx;
        ledger = ledger_info doc;
      }
      ∷ [];
}

-- Among entries of one time, whose order the database leaves open, the one stored last is first.
unfoldable pub insert_newest : Transaction → List Transaction → List Transaction
insert_newest t [] = t ∷ []
insert_newest t (u ∷ us) =
    let rest = insert_newest t us in if leb u.created_at t.created_at then t ∷ u ∷ us else u ∷ rest

unfoldable pub sort_newest : List Transaction → List Transaction → List Transaction
sort_newest [] sorted = sorted
sort_newest (t ∷ ts) sorted = sort_newest ts (insert_newest t sorted)

-- `TransactionModel.find().sort({ createdAt: -1 })`
unfoldable pub newest_first : Db → List Transaction
unfolding sort_newest insert_newest
newest_first db = sort_newest db.transactions []

abbrev pub page_docs : ℕ → ℕ → Db → List Transaction
page_docs limit skip db = take limit (drop skip (newest_first db))

-- `docs.map((doc, idx) => block(doc, total - skip - idx))`
abbrev pub number_docs :
    (Transaction → ℕ → ExplorerBlock) → ℕ → List Transaction → List ExplorerBlock
number_docs block n [] = []
number_docs block n (doc ∷ docs) = block doc n ∷ number_docs block (n - 1) docs

-- `skip + docs.length < total ? skip + docs.length : null`
unfoldable pub next_cursor_of : ℕ → List Transaction → ℕ → Option ℕ
next_cursor_of skip docs total =
    if ltb (skip + length docs) total then some (skip + length docs) else none

unfoldable pub local_explorer : ℕ → Option ℕ → Db → ExplorerResponse
unfolding next_cursor_of root_history newest_first local_block
local_explorer limit cursor db =
    let total = length db.transactions in
    let skip = get_or_else cursor 0 in
    let docs = page_docs limit skip db in
    let ctx = root_history db in
    record {
      source = local_source;
      note =
          some
            "No blockchain node is reachable, so these are the API's locally recorded ledger entries (one pseudo-block each). Configure RPC_URL / LAND_REGISTRY_ADDRESS to see real on-chain blocks.";
      network = none;
      latest_root = ctx.latest_root;
      blocks = number_docs (λ doc n. local_block doc n ctx) (total - skip) docs;
      next_cursor = next_cursor_of skip docs total;
    }
