-- ===== src/Indexer/Tables.antt =====
-- The canister's tables in stable memory (ord_canister/src/lib.rs). The closures that the code
-- passes to `outpoint_to_rune_balances` and its like are reads and writes of one field each. A
-- table is keyed by the value itself, not by its stored bytes.
use ord_indexer.Base.{
  ℕ, Option, none, some, List, [], ◌∷◌, Dict, Outcome, unwrap, insert, ltb, if◌then◌else◌,
  ℕ_discrete,
}
use ord_indexer.Bitcoin.{Txid, BlockHash, OutPoint}
use ord_indexer.Runes.{RuneId, RuneBalance}
use ord_indexer.Indexer.Entry.{RuneEntry}

abbrev pub OutputTable : Type 0
OutputTable = Dict OutPoint (List RuneBalance)

pub record Tables : Type 0 where
  pub outpoint_to_rune_balances : OutputTable
  pub rune_id_to_rune_entry : Dict RuneId RuneEntry
  pub rune_to_rune_id : Dict ℕ RuneId
  pub transaction_id_to_rune : Dict Txid ℕ
  pub height_to_block_hash : Dict ℕ BlockHash

abbrev pub no_tables : Tables
no_tables = record {
  outpoint_to_rune_balances = [];
  rune_id_to_rune_entry = [];
  rune_to_rune_id = [];
  transaction_id_to_rune = [];
  height_to_block_hash = [];
}

-- The last pair of a tree map in the order of its keys: `iter().rev().next()`.
unfoldable pub last_entry : Dict ℕ BlockHash → Option (ℕ × BlockHash)
last_entry [] = none
last_entry ((h, b) ∷ d) = elim (last_entry d) [
  | none ↦ some (h, b)
  | some (h', b') ↦ if ltb h h' then some (h', b') else some (h, b)
]

unfoldable pub highest_block : Tables → Outcome (ℕ × BlockHash)
unfolding last_entry
highest_block t = unwrap (last_entry t.height_to_block_hash)

unfoldable pub increase_height : ℕ → BlockHash → Tables → Tables
increase_height height hash t = record t {
  height_to_block_hash = insert ℕ_discrete height hash t.height_to_block_hash;
}
