-- ===== src/Explorer.antt =====
-- apps/server/src/services/explorer.service.ts: the ledger, page by page, as blocks.
pub mod Pages
pub mod Presses
pub mod Paging
pub mod Receipts
use thesis_project_land_chai.Prelude.{
  ℕ, ◌+◌, ◌-◌, ◌/◌, ◌<>◌, ◌==◌, ◌++◌, ◌&&◌, string_eq, nat_eq, option_eq, String, Bool, true, false,
  Option, none, some, List, [], ◌∷◌, map, find, filter, length, take, drop, min, max, leb, ltb, not,
  get_or_else, if◌then◌else◌,
}
use Prim.Native.String.{slice, count}
use thesis_project_land_chai.Prelude.Text.{to_decimal, to_hex, pad_start, is_digits, big_int}
use thesis_project_land_chai.Errors.{Result, ok, err}
use thesis_project_land_chai.Db.{
  Transaction, TransactionType, TransactionType-eq, land_requested, buy, MerkleRoot, Db,
}

pub record StateChange : Type 0 where
  pub label : String
  pub before : Option String
  pub after : Option String

-- A decoded call or event: its name, and the texts of its arguments by name.
pub record Decoded : Type 0 where
  pub name : String
  pub args : List (String × String)

pub data TxStatus : Type 0 where
  success reverted local : TxStatus

pub record LedgerInfo : Type 0 where
  pub transaction_type : TransactionType
  pub land_id : Option String
  pub from_owner : Option String
  pub to_owner : Option String
  pub status : String
  pub detail : Option String
  pub created_at : ℕ

-- `raw`, the fields of a transaction that is passed on undecoded, is left out.
pub record ExplorerTx : Type 0 where
  pub hash : String
  pub sender : Option String
  pub recipient : Option String
  pub nonce : Option ℕ
  pub value_eth : Option String
  pub gas_used : Option String
  pub status : TxStatus
  pub method : Option Decoded
  pub events : List Decoded
  pub state_changes : List StateChange
  pub ledger : LedgerInfo

pub record ExplorerBlock : Type 0 where
  pub number : ℕ
  pub hash : String
  pub parent_hash : Option String
  pub timestamp : ℕ
  pub miner : Option String
  pub gas_used : Option String
  pub gas_limit : Option String
  pub transactions : List ExplorerTx

pub data Source : Type 0 where
  chain_source local_source : Source

pub record ExplorerResponse : Type 0 where
  pub source : Source
  pub note : Option String
  pub network : Option ℕ
  pub latest_root : Option String
  pub blocks : List ExplorerBlock
  pub next_cursor : Option ℕ

unfoldable pub short : String → String
short value =
    if ltb 18 (count value)
    then slice value 0 10 <> "…" <> slice value (count value - 6) (count value)
    else value

-- `rootHistory`: the roots oldest first. A `Map` keeps the last value set under a key.
pub record RootContext : Type 0 where
  pub roots : List MerkleRoot
  pub prev_by_root : List (String × String)
  pub by_tx_hash : List (String × MerkleRoot)
  pub latest_root : Option String

abbrev pub map_set {ℓ} : {A : Type ℓ} → String → A → List (String × A) → List (String × A)
map_set k a [] = (k, a) ∷ []
map_set k a ((j, b) ∷ rest) = if j == k then (k, a) ∷ rest else (j, b) ∷ map_set k a rest

abbrev pub map_get {ℓ} : {A : Type ℓ} → String → List (String × A) → Option A
map_get k [] = none
map_get k ((j, b) ∷ rest) = if j == k then some b else map_get k rest

-- The loop of `rootHistory`, after the root `prev`.
unfoldable pub fold_roots : Option String → List MerkleRoot → RootContext → RootContext
fold_roots prev [] ctx = ctx
fold_roots prev (doc ∷ docs) ctx = fold_roots (some doc.root) docs (record ctx {
  prev_by_root = elim prev [
    | none ↦ ctx.prev_by_root
    | some p ↦ map_set doc.root p ctx.prev_by_root
  ];
  by_tx_hash = elim doc.transaction_hash [
    | none ↦ ctx.by_tx_hash
    | some tx ↦ if tx == "" then ctx.by_tx_hash else map_set tx doc ctx.by_tx_hash
  ];
  latest_root = some doc.root;
})

unfoldable pub root_history : Db → RootContext
unfolding fold_roots
root_history db =
    fold_roots none db.merkle_roots
      (record { roots = db.merkle_roots; prev_by_root = []; by_tx_hash = []; latest_root = none })

-- `BigInt` throws on a text that is no number, which is then returned. (Roots are decimal texts.)
unfoldable pub to_bytes32_root : String → String
to_bytes32_root decimal =
    if is_digits decimal then "0x" <> pad_start 64 (to_hex (big_int decimal)) else decimal

abbrev arg : Decoded → String → Option String
arg event name = map_get name event.args

-- `${value}`
abbrev shown : Option String → String
shown none = "undefined"
shown (some s) = s

abbrev shown_or : Option String → String → String
shown_or none d = d
shown_or (some s) d = if s == "" then d else s

find_previous : Option String → List (String × String) → Option String
unfolding to_bytes32_root
find_previous root [] = none
find_previous root ((r, prev) ∷ rest) =
    let later = find_previous root rest in
    if some (to_bytes32_root r) == root then some prev else later

-- The `before` of a root; an empty text counts as none.
previous_root : Option String → Option String
unfolding to_bytes32_root
previous_root none = none
previous_root (some prev) = if prev == "" then none else some (to_bytes32_root prev)

unfoldable pub event_changes : Decoded → List (String × String) → List StateChange
unfolding find_previous previous_root short
event_changes event prev_by_root =
    if event.name == "MerkleRootUpdated"
    then record {
      label = "Registry Merkle root (anchors every ownership commitment)";
      before = previous_root (find_previous (arg event "root") prev_by_root);
      after = arg event "root";
    }
      ∷ []
    else if event.name == "MerkleRootBootstrapped"
    then record {
      label = "Registry Merkle root bootstrapped (one-time migration anchor)";
      before = none;
      after = arg event "root";
    }
      ∷ []
    else if event.name == "LandRegistered"
    then record {
      label =
          "Land record created on-chain (landHash " <> short (shown (arg event "landHash")) <> ")";
      before = none;
      after = some (
          "deedCid="
          <> shown_or (arg event "deedCid") "(none)"
          <> " — identity-free: no owner is written on chain");
    }
      ∷ []
    else if event.name == "LandTransferred"
    then record {
      label = "Land transferred (landHash " <> short (shown (arg event "landHash")) <> ")";
      before = none;
      after = some (
          "ownership proof consumed (nullifier "
          <> short (shown (arg event "nullifier"))
          <> "); new owner exists only as a tree commitment");
    }
      ∷ []
    else []

unfoldable pub changes_from_events : List Decoded → List (String × String) → List StateChange
unfolding event_changes
changes_from_events [] prev_by_root = []
changes_from_events (event ∷ events) prev_by_root =
    event_changes event prev_by_root ++ changes_from_events events prev_by_root

unfoldable pub ledger_info : Transaction → LedgerInfo
ledger_info doc = record {
  transaction_type = doc.transaction_type;
  land_id = doc.land_id;
  from_owner = doc.from_owner;
  to_owner = doc.to_owner;
  status = doc.status;
  detail = doc.detail;
  created_at = doc.created_at;
}

join_ids : List String → String
join_ids [] = ""
join_ids (s ∷ []) = s
join_ids (s ∷ t ∷ rest) = s <> ", " <> join_ids (t ∷ rest)

abbrev or_none : String → String
or_none s = if s == "" then "(none)" else s

-- The changes of the entry that anchored a root.
root_changes : Option MerkleRoot → RootContext → List StateChange
unfolding join_ids
root_changes none ctx = []
root_changes (some doc) ctx =
    record {
      label = "Registry Merkle root (anchors every ownership commitment)";
      before = map_get doc.root ctx.prev_by_root;
      after = some doc.root;
    }
    ∷ record {
      label = "Registry tree contents";
      before = none;
      after =
          some
            (to_decimal doc.leaf_count <> " leaves — lands: " <> or_none (join_ids doc.land_ids));
    }
    ∷ []

removal_changes : Option MerkleRoot → RootContext → List StateChange
removal_changes none ctx = []
removal_changes (some after) ctx =
    record {
      label =
          "Registry Merkle root (land removed pending re-registration; old owner can no longer prove)";
      before = map_get after.root ctx.prev_by_root;
      after = some after.root;
    }
    ∷ []

-- `null` of a path is the text "null" in a template; an absent one is "undefined".
unfoldable pub ledger_state_changes : Transaction → RootContext → List StateChange
unfolding root_changes removal_changes
ledger_state_changes doc ctx =
    root_changes (map_get doc.blockchain_tx_hash ctx.by_tx_hash) ctx
    ++ (if doc.transaction_type == buy
        then record {
          label = "Land " <> shown doc.land_id <> " owner";
          before = doc.from_owner;
          after = doc.to_owner;
        }
          ∷ removal_changes (find (λ (r : MerkleRoot). leb doc.created_at r.created_at) ctx.roots)
              ctx
        else [])
    ++ (if doc.transaction_type == land_requested
        then record {
          label = "Land " <> shown doc.land_id;
          before = none;
          after =
              some
                "Poseidon(landIdField, secretField) commitment + area commitment stored; status PENDING_APPROVAL";
        }
          ∷ []
        else [])
