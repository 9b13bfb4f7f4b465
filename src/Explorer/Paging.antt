-- ===== src/Explorer/Paging.antt =====
-- Following `nextCursor` from the first page shows the whole ledger, newest first.
use thesis_project_land_chai.Prelude.{ℕ, ◌-◌, Option, none, some, List, [], ◌∷◌, map, ◌⊎◌, ◌≡◌}
use thesis_project_land_chai.Errors.{ok, err}
use thesis_project_land_chai.Db.{Transaction, Db}
use thesis_project_land_chai.Explorer.{ExplorerTx, ExplorerBlock, root_history, ledger_info}
use thesis_project_land_chai.Explorer.Pages.{local_block}
use thesis_project_land_chai.Explorer.Receipts.{Receipt, Provider, resolve_ledger_entry}

-- How an entry is shown: by its receipt where a node answers, by itself otherwise.
unfoldable pub entry_block : Option Provider → Db → Transaction → ℕ → ExplorerBlock
entry_block none db doc n = local_block doc n (root_history db)
entry_block (some p) db doc n = elim p.get_block_number [
  | err e ↦ local_block doc n (root_history db)
  | ok latest ↦ resolve_ledger_entry p (root_history db) doc n
]

-- The block of an entry: what the ledger records of it, under the entry's number, or under the number
-- of the block that the node's receipt names.
abbrev pub IsBlockOf : Option Provider → ℕ → Transaction → ExplorerBlock → Type 0
IsBlockOf rpc n doc b =
    (map (λ (t : ExplorerTx). t.ledger) b.transactions ≡ ledger_info doc ∷ [])
    × ((b.number ≡ n)
        ⊎ ((p : Provider) × (receipt : Receipt) × (rpc ≡ some p)
            × (p.get_receipt doc.blockchain_tx_hash ≡ some receipt)
            × (b.number ≡ receipt.block_number)))

-- The blocks of the entries, one by one, numbered down from `n`.
pub NumberedDown : Option Provider → ℕ → List Transaction → List ExplorerBlock → Type 0
NumberedDown rpc n [] [] = Unit
NumberedDown rpc n (doc ∷ docs) (b ∷ bs) = IsBlockOf rpc n doc b × NumberedDown rpc (n - 1) docs bs
NumberedDown rpc n docs bs = ⊥
