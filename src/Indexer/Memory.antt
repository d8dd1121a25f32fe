-- ===== src/Indexer/Memory.antt =====
-- The canister's state across an upgrade (ord_canister/src/lib.rs): the cells, each empty until the
-- storage is set up, and the slots of stable memory that keep them. The crate `ic_stable_memory` is
-- the parameter `m`. A full stable memory, at which the code panics, is left out.
pub mod Upgrade
mod Tests
use Prim.Native.String.{String}
use ord_indexer.Base.{
  ℕ, ◌≡◌, Option, none, some, [], Dict, Outcome, done, panic, ◌>>=◌, ◌==◌, if◌then◌else◌, unwrap,
}
use ord_indexer.Bitcoin.{Txid, BlockHash}
use ord_indexer.Runes.{RuneId}
use ord_indexer.Indexer.Entry.{RuneEntry}
use ord_indexer.Indexer.Tables.{Tables, OutputTable, no_tables}

-- The cells of `thread_local!`.
pub record Cells : Type 0 where
  pub rpc_url : Option String
  pub first_block_hash : Option String
  pub outputs : Option OutputTable
  pub entries : Option (Dict RuneId RuneEntry)
  pub ids : Option (Dict ℕ RuneId)
  pub transactions : Option (Dict Txid ℕ)
  pub heights : Option (Dict ℕ BlockHash)

abbrev pub no_cells : Cells
no_cells = record {
  rpc_url = none;
  first_block_hash = none;
  outputs = none;
  entries = none;
  ids = none;
  transactions = none;
  heights = none;
}

-- The functions of `lib.rs` that pass a table to a closure: they panic on an empty cell.
unfoldable pub outpoint_to_rune_balances {ℓ} :
    {R : Type ℓ} → (OutputTable → R × OutputTable) → Cells → Outcome (R × Cells)
outpoint_to_rune_balances f c = do
  b ← unwrap c.outputs
  let (r, b') = f b
  done (r, record c { outputs = some b' })

unfoldable pub rune_id_to_rune_entry {ℓ} :
    {R : Type ℓ} → (Dict RuneId RuneEntry → R × Dict RuneId RuneEntry) → Cells → Outcome (R × Cells)
rune_id_to_rune_entry f c = do
  b ← unwrap c.entries
  let (r, b') = f b
  done (r, record c { entries = some b' })

unfoldable pub rune_to_rune_id {ℓ} :
    {R : Type ℓ} → (Dict ℕ RuneId → R × Dict ℕ RuneId) → Cells → Outcome (R × Cells)
rune_to_rune_id f c = do b ← unwrap c.ids; let (r, b') = f b; done (r, record c { ids = some b' })

unfoldable pub transaction_id_to_rune {ℓ} :
    {R : Type ℓ} → (Dict Txid ℕ → R × Dict Txid ℕ) → Cells → Outcome (R × Cells)
transaction_id_to_rune f c = do
  b ← unwrap c.transactions
  let (r, b') = f b
  done (r, record c { transactions = some b' })

unfoldable pub get_url : Cells → Outcome String
get_url c = unwrap c.rpc_url

unfoldable pub set_url : String → Cells → Cells
set_url url c = record c { rpc_url = some url }

unfoldable pub get_first_block_hash : Cells → Outcome String
get_first_block_hash c = unwrap c.first_block_hash

unfoldable pub set_first_block_hash : String → Cells → Cells
set_first_block_hash hash c = record c { first_block_hash = some hash }

-- The tables that the rest of the canister reads and writes, and their way back.
unfoldable pub tables_of : Cells → Outcome Tables
tables_of c = do
  outputs ← unwrap c.outputs
  entries ← unwrap c.entries
  ids ← unwrap c.ids
  transactions ← unwrap c.transactions
  heights ← unwrap c.heights
  done (record {
    outpoint_to_rune_balances = outputs;
    rune_id_to_rune_entry = entries;
    rune_to_rune_id = ids;
    transaction_id_to_rune = transactions;
    height_to_block_hash = heights;
  })

unfoldable pub put_tables : Tables → Cells → Cells
put_tables t c = record c {
  outputs = some t.outpoint_to_rune_balances;
  entries = some t.rune_id_to_rune_entry;
  ids = some t.rune_to_rune_id;
  transactions = some t.transaction_id_to_rune;
  heights = some t.height_to_block_hash;
}

-- What a slot of stable memory holds: a box of one of these types.
pub data Custom : Type 0 where
  text_box : String → Custom
  outputs_box : OutputTable → Custom
  entries_box : Dict RuneId RuneEntry → Custom
  ids_box : Dict ℕ RuneId → Custom
  transactions_box : Dict Txid ℕ → Custom
  heights_box : Dict ℕ BlockHash → Custom

-- A slot read at its type.
abbrev as_text : Custom → Option String
as_text (text_box s) = some s
as_text _ = none

abbrev as_outputs : Custom → Option OutputTable
as_outputs (outputs_box d) = some d
as_outputs _ = none

abbrev as_entries : Custom → Option (Dict RuneId RuneEntry)
as_entries (entries_box d) = some d
as_entries _ = none

abbrev as_ids : Custom → Option (Dict ℕ RuneId)
as_ids (ids_box d) = some d
as_ids _ = none

abbrev as_transactions : Custom → Option (Dict Txid ℕ)
as_transactions (transactions_box d) = some d
as_transactions _ = none

abbrev as_heights : Custom → Option (Dict ℕ BlockHash)
as_heights (heights_box d) = some d
as_heights _ = none

-- The functions of `ic_stable_memory`.
pub record StableMemory (Heap : Type 0) : Type 0 where
  pub stable_memory_init : Heap → Heap
  pub store_custom_data : ℕ → Custom → Heap → Heap
  pub retrieve_custom_data : ℕ → Heap → Option Custom
  pub stable_memory_pre_upgrade : Heap → Option Heap
  pub stable_memory_post_upgrade : Heap → Heap

-- What that crate documents: a slot keeps what was last stored in it, also across an upgrade, and
-- the upgrade finds the memory it needs.
pub record IsStable {Heap : Type 0} (m : StableMemory Heap) : Type 0 where
  pub retrieve_store :
      (i j : ℕ) (v : Custom) (x : Heap)
      → m.retrieve_custom_data i (m.store_custom_data j v x)
        ≡ (if i == j then some v else m.retrieve_custom_data i x)
  pub upgrade_enough : (x : Heap) → (y : Heap) × (m.stable_memory_pre_upgrade x ≡ some y)
  pub upgrade_keeps :
      (i : ℕ) (x y : Heap)
      → m.stable_memory_pre_upgrade x ≡ some y
      → m.retrieve_custom_data i (m.stable_memory_post_upgrade y) ≡ m.retrieve_custom_data i x

module _ {Heap : Type 0} (m : StableMemory Heap) where
  -- `init_storage`
  unfoldable pub init_storage : Heap → Cells → Cells × Heap
  unfolding put_tables
  init_storage x c = (
    put_tables no_tables (record c { rpc_url = some ""; first_block_hash = some "" }),
    m.stable_memory_init x,
  )

  -- `persistence`: the cells are emptied into the slots.
  unfoldable pub persistence : Heap → Cells → Outcome (Cells × Heap)
  persistence x c = do
    rpc_url ← unwrap c.rpc_url
    first_block_hash ← unwrap c.first_block_hash
    outputs ← unwrap c.outputs
    entries ← unwrap c.entries
    ids ← unwrap c.ids
    transactions ← unwrap c.transactions
    heights ← unwrap c.heights
    let x0 = m.store_custom_data 0 (Custom.text_box rpc_url) x
    let x1 = m.store_custom_data 1 (Custom.outputs_box outputs) x0
    let x2 = m.store_custom_data 2 (Custom.entries_box entries) x1
    let x3 = m.store_custom_data 3 (Custom.ids_box ids) x2
    let x4 = m.store_custom_data 4 (Custom.transactions_box transactions) x3
    let x5 = m.store_custom_data 5 (Custom.heights_box heights) x4
    let x6 = m.store_custom_data 6 (Custom.text_box first_block_hash) x5
    x7 ← unwrap (m.stable_memory_pre_upgrade x6)
    done (no_cells, x7)

  -- `retrieve_custom_data::<SBox<T>>(i).unwrap()`
  unfoldable pub retrieve {ℓ} : {A : Type ℓ} → (Custom → Option A) → ℕ → Heap → Outcome A
  retrieve read i x = do v ← unwrap (m.retrieve_custom_data i x); unwrap (read v)

  -- `restore`
  unfoldable pub restore : Heap → Outcome (Cells × Heap)
  unfolding retrieve
  restore x = do
    let y = m.stable_memory_post_upgrade x
    rpc_url ← retrieve as_text 0 y
    first_block_hash ← retrieve as_text 6 y
    outputs ← retrieve as_outputs 1 y
    entries ← retrieve as_entries 2 y
    ids ← retrieve as_ids 3 y
    transactions ← retrieve as_transactions 4 y
    heights ← retrieve as_heights 5 y
    done (
      record {
        rpc_url = some rpc_url;
        first_block_hash = some first_block_hash;
        outputs = some outputs;
        entries = some entries;
        ids = some ids;
        transactions = some transactions;
        heights = some heights;
      },
      y,
    )
