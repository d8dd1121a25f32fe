-- ===== src/Indexer/Lookups.antt =====
-- The first entry and the lookups of ord_canister/src/index.rs. Reading the text of a hash is the
-- crate `bitcoin`'s.
pub mod Unnamed
mod Tests
use ord_indexer.Base.{
  ℕ, suc, ◌*◌, ◌-◌, Bool, true, Option, none, some, List, [], ◌∷◌, Dict, insert, lookup, Outcome,
  done, ◌>>=◌, unwrap, ℕ_discrete, u128_size,
}
use ord_indexer.Bitcoin.{
  Txid, BlockHash, BlockHash-discrete, OutPoint, OutPoint-discrete, all_zeros,
}
use ord_indexer.Runes.{RuneId, RuneId-discrete, SpacedRune, RuneBalance}
use ord_indexer.Indexer.Entry.{RuneEntry, Pile}
use ord_indexer.Indexer.Tables.{Tables, increase_height}

abbrev pub first_height : ℕ
first_height = 1

-- Of the crate `bitcoin`: the blocks from one halving of the subsidy to the next.
abbrev pub subsidy_halving_interval : ℕ
subsidy_halving_interval = 210000

-- The rune UNCOMMON•GOODS.
abbrev pub first_rune : ℕ
first_rune = 2055900680524219742

abbrev pub first_id : RuneId
first_id = record { block = 1; tx = 0 }

abbrev pub first_entry : RuneEntry
first_entry = record {
  block = first_id.block;
  burned = 0;
  divisibility = 0;
  etching = all_zeros;
  mints = 0;
  premine = 0;
  spaced_rune = record { rune = first_rune; spacers = 128 };
  symbol = some 0x29C9;
  terms = some (record {
    cap = some (u128_size - 1);
    height = (some (subsidy_halving_interval * 4), some (subsidy_halving_interval * 5));
    amount = some 1;
    offset = (none, none);
  });
  timestamp = 0;
  turbo = true;
}

-- `set_beginning_block`, with what `BlockHash::from_str` makes of the text
unfoldable pub set_beginning_block : Option BlockHash → Tables → Outcome Tables
set_beginning_block parsed t = do hash ← unwrap parsed; done (increase_height first_height hash t)

unfoldable pub init_rune : Option BlockHash → Tables → Outcome Tables
unfolding set_beginning_block
init_rune parsed t = do
  t' ← set_beginning_block parsed t
  done (record t' {
    rune_to_rune_id = insert ℕ_discrete first_rune first_id t'.rune_to_rune_id;
    rune_id_to_rune_entry = insert RuneId-discrete first_id first_entry t'.rune_id_to_rune_entry;
    transaction_id_to_rune =
        insert BlockHash-discrete all_zeros first_rune t'.transaction_id_to_rune;
  })

abbrev spaced_rune_of : Txid → Tables → Option ℕ → Outcome (Option SpacedRune)
spaced_rune_of txid t none = done none
spaced_rune_of txid t (some rune) = do
  id ← unwrap (lookup ℕ_discrete rune t.rune_to_rune_id)
  entry ← unwrap (lookup RuneId-discrete id t.rune_id_to_rune_entry)
  done (some entry.spaced_rune)

unfoldable pub get_etching : Txid → Tables → Outcome (Option SpacedRune)
get_etching txid t = spaced_rune_of txid t (lookup BlockHash-discrete txid t.transaction_id_to_rune)

unfoldable pub SpacedRune-discrete : Discrete SpacedRune
unfolding ℕ_discrete
SpacedRune-discrete = hlevel ℕ_discrete

-- The loop of `get_rune_balances_for_output`. The tree map's order is not kept.
unfoldable pub piles :
    List RuneBalance → Dict RuneId RuneEntry → Dict SpacedRune Pile → Outcome (Dict SpacedRune Pile)
piles [] entries result = done result
piles (rune ∷ balances) entries result = do
  entry ← unwrap (lookup RuneId-discrete rune.id entries)
  let p : Pile = record {
    amount = rune.balance;
    divisibility = entry.divisibility;
    symbol = entry.symbol;
  }
  piles balances entries (insert SpacedRune-discrete entry.spaced_rune p result)

unfoldable pub get_rune_balances_for_output : OutPoint → Tables → Outcome (Dict SpacedRune Pile)
unfolding piles
get_rune_balances_for_output outpoint t =
    elim (lookup OutPoint-discrete outpoint t.outpoint_to_rune_balances) [
      | none ↦ done []
      | some balances ↦ piles balances t.rune_id_to_rune_entry []
    ]
