-- ===== src/Client/ExplorerPage.antt =====
-- apps/client/src/app/explorer/page.tsx: the blocks on the page, and its button "load more". A
-- request that fails leaves the blocks as they are, and is left out.
use thesis_project_land_chai.Prelude.{ℕ, zero, suc, Option, none, some, List, ◌++◌}
use thesis_project_land_chai.Db.{Db}
use thesis_project_land_chai.Explorer.{ExplorerBlock, ExplorerResponse}
use thesis_project_land_chai.Explorer.Receipts.{Provider, get_explorer_blocks}

pub record ExplorerPage : Type 0 where
  pub response : ExplorerResponse
  pub blocks : List ExplorerBlock

-- `load`: ten blocks from a cursor.
unfoldable pub load : Option Provider → Db → Option ℕ → ExplorerResponse
unfolding get_explorer_blocks
load rpc db cursor = get_explorer_blocks rpc (some 10) cursor db

-- The effect that runs when the page opens.
unfoldable pub open_page : (Option ℕ → ExplorerResponse) → ExplorerPage
open_page loads = record { response = loads none; blocks = (loads none).blocks }

unfoldable pub load_more : (Option ℕ → ExplorerResponse) → ExplorerPage → ExplorerPage
load_more loads page = elim page.response.next_cursor [
  | none ↦ page
  | some cursor ↦ record {
    response = loads (some cursor);
    blocks = page.blocks ++ (loads (some cursor)).blocks;
  }
]

-- The page after the button is pressed a number of times.
unfoldable pub pressed : (Option ℕ → ExplorerResponse) → ℕ → ExplorerPage
unfolding open_page load_more
pressed loads zero = open_page loads
pressed loads (suc presses) = load_more loads (pressed loads presses)
