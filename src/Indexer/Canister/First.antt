-- ===== src/Indexer/Canister/First.antt =====
-- A canister that is just installed (`init`).
use Prim.Native.String.{String}
use ord_indexer.Base.{
  ℕ, ◌≤◌, ◌<◌, ◌≢◌, ◌↔◌, none, [], arith, ◌≡◌, refl, some, lookup, done, Returns, insert,
}
use ord_indexer.Bitcoin.{Txid, OutPoint, BlockHash, BlockHash-discrete, all_zeros}
use ord_indexer.Runes.{RuneId, RuneId-discrete, SpacedRune, ok}
use ord_indexer.Indexer.Entry.{RuneEntry, supply, mintable}
use ord_indexer.Indexer.Entry.Window.{mintable-ok_iff}
use ord_indexer.Indexer.Tables.{Tables, last_entry, highest_block, increase_height}
use ord_indexer.Indexer.Lookups.{
  first_entry, get_etching, get_rune_balances_for_output, init_rune, set_beginning_block,
}
use ord_indexer.Indexer.Memory.{
  Cells, StableMemory, tables_of, put_tables, get_url, get_first_block_hash, set_url,
  set_first_block_hash, init_storage,
}
use ord_indexer.Indexer.Sync.{armed}
use ord_indexer.Indexer.Canister.{Text, init}

-- The identifier and the name of the rune UNCOMMON•GOODS.
abbrev pub uncommon : RuneId
uncommon = record { block = 1; tx = 0 }

abbrev pub uncommon_goods : SpacedRune
uncommon_goods = record { rune = 2055900680524219742; spacers = 128 }

-- An entry of that name, of which nothing was made, and one can be minted at exactly the heights of
-- the fifth era of the subsidy.
pub record IsUncommon (e : RuneEntry) : Type 0 where
  pub name : e.spaced_rune ≡ uncommon_goods
  pub nothing : supply e ≡ 0
  pub can_mint : (h : ℕ) → (mintable e h ≡ ok 1) ↔ ((840000 ≤ h) × (h < 1050000))

-- The tables stand at block 1, and hold one rune and no balance.
pub record IsFirst (hash : BlockHash) (t : Tables) : Type 0 where
  pub height : highest_block t ≡ done (1, hash)
  pub rune :
      (e : RuneEntry) × (lookup RuneId-discrete uncommon t.rune_id_to_rune_entry ≡ some e)
      × IsUncommon e
  pub no_other :
      (id : RuneId) → id ≢ uncommon → lookup RuneId-discrete id t.rune_id_to_rune_entry ≡ none
  pub no_balance : (o : OutPoint) → get_rune_balances_for_output o t ≡ done []
  pub etching : get_etching all_zeros t ≡ done (some uncommon_goods)
  pub no_etching : (txid : Txid) → txid ≢ all_zeros → get_etching txid t ≡ done none

first_entry-IsUncommon : IsUncommon first_entry
unfolding supply
first_entry-IsUncommon = record {
  name = refl;
  nothing = refl;
  can_mint = λ h.
      let window = mintable-ok_iff first_entry h 1 in
      (
        λ mints. ((window.0 mints).0.0, (window.0 mints).0.2),
        λ (from, to). window.1 ((from, tt, to, tt, omega arith), refl),
      );
}

-- A canister that is set up from nothing, with the text of a hash that can be read, sets the timer of
-- the synchronisation; its tables stand at block 1 with this hash, and hold no balance and one rune,
-- UNCOMMON•GOODS, of which nothing was made and one can be minted at exactly the heights from
-- 840000 to 1049999; the lookup of etchings finds it for the transaction of zeros and nothing for any other. The
-- canister remembers the address of the node and the text of the hash.
pub init-IsFirst :
    {Heap : Type 0} (m : StableMemory Heap) (x : Text) (url text : String) (hash : BlockHash)
    (heap : Heap) (c : Cells)
    → x.hash_from_str text ≡ some hash
    → Returns (init m x url text heap c) (λ (timer, c', heap').
      (timer ≡ armed 1)
      × (get_url c' ≡ done url)
      × (get_first_block_hash c' ≡ done text)
      × Returns (tables_of c') (IsFirst hash))
unfolding init init_storage set_url tables_of put_tables init_rune set_beginning_block
    set_first_block_hash get_url get_first_block_hash highest_block last_entry increase_height
    insert lookup RuneId-discrete get_etching get_rune_balances_for_output BlockHash-discrete
init-IsFirst m x url text hash heap c read = rw read (
  refl,
  refl,
  refl,
  record {
    height = refl;
    rune = (first_entry, refl, first_entry-IsUncommon);
    no_other = λ id other. ground arith;
    no_balance = λ o. refl;
    etching = refl;
    no_etching = λ txid other. ground arith;
  },
)
