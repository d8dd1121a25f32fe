-- ===== src/Indexer/Updater/Tests.antt =====
-- A transfer by an edict, indexed: the run, and the theorems at it.
use ord_indexer.Base.{
  ◌+◌, ◌≡◌, refl, ℕ, ◌≡◌, refl, Bool, false, Option, none, some, [], ◌∷◌, ◌==◌, done, Returns,
  arith, lookup, insert, erase,
}
use ord_indexer.Bitcoin.{
  OutPoint, OutPoint-discrete, BlockHash-discrete, TxOut, Transaction, ScriptBuf,
}
use ord_indexer.Runes.{RuneId, RuneId-discrete, Runestone, Artifact, runestone, cenotaph, Ordinals}
use ord_indexer.Indexer.Lot
use ord_indexer.Indexer.Entry.{mintable}
use ord_indexer.Indexer.Balances.{
  balance_of, credit, credit_all, to_stored, counted-le, amount, stored_amount,
}
use ord_indexer.Indexer.Held.{held}
use ord_indexer.Indexer.Tables.{Tables, no_tables}
use ord_indexer.Indexer.Allocation.{
  credit_output, allocate, allocate_evenly, allocate_each, destinations, allocate_split,
  apply_edict, apply_edicts,
}
use ord_indexer.Indexer.Settlement.{
  assign_output, burn_positive, first_output, default_output, assign_default, assign_rest, settle,
}
use ord_indexer.Indexer.Updater.{
  RuneUpdater, credit_stored, unallocated_of, mint, etched, add_minted, add_premine, new_entry,
  create_rune_entry, apply_runestone, apply_artifact, index_runes,
}
use ord_indexer.Indexer.Updater.Inputs.{minted, premined}
use ord_indexer.Indexer.Entry.{RuneEntry, default_entry}
use ord_indexer.Indexer.Balances.{counted}
use ord_indexer.Indexer.Updater.{update}
use ord_indexer.Indexer.Updater.Burned.{burned_of, update-Returns}
use ord_indexer.Indexer.Updater.Minting.{IsMint, mint-IsMint}
use ord_indexer.Indexer.Updater.Conservation.{made, Conserved, index_runes-Conserved}

program : Unit {0}
unfolding Lot.add Lot.sub balance_of credit credit_all to_stored credit_output allocate
    allocate_evenly allocate_each destinations allocate_split apply_edict apply_edicts assign_output
    burn_positive first_output default_output assign_default assign_rest settle credit_stored
    unallocated_of mint etched add_minted add_premine new_entry create_rune_entry apply_runestone
    apply_artifact index_runes lookup insert erase mintable OutPoint-discrete RuneId-discrete
    BlockHash-discrete
program = tt

abbrev rune_a : RuneId
rune_a = record { block = 840000; tx = 3 }

-- A script is OP_RETURN if its first byte says so.
abbrev starts_with_return : ScriptBuf → Bool
starts_with_return [] = false
starts_with_return (b ∷ bs) = b == 0x6a

abbrev stone : Runestone
stone = record {
  edicts = record { id = rune_a; amount = 30; output = 2 } ∷ [];
  etching = none;
  mint = none;
  pointer = none;
}

abbrev mint_of : Artifact → Option RuneId
mint_of (runestone r) = r.mint
mint_of (cenotaph c) = c.mint

abbrev ordinals : Ordinals
ordinals = record {
  decipher = λ _. some (runestone stone);
  artifact_mint = mint_of;
  is_op_return = starts_with_return;
  minimum_at_height = λ _. 0;
  is_reserved = λ _. false;
  reserved = λ block tx. 0;
}

abbrev spent : OutPoint
spent = record { txid = 1 ∷ []; vout = 0 }

abbrev pay : ScriptBuf → TxOut
pay script = record { value = 10000; script_pubkey = script }

abbrev transfer_tx : Transaction
transfer_tx = record {
  version = 2;
  lock_time = 0;
  input = record { previous_output = spent; script_sig = []; sequence = 0; witness = [] } ∷ [];
  output = pay (0x6a ∷ []) ∷ pay (1 ∷ []) ∷ pay (2 ∷ []) ∷ [];
}

abbrev updater : RuneUpdater
updater = record { block_time = 7; burned = []; height = 840001; minimum = 0 }

abbrev before : Tables
before = record no_tables {
  outpoint_to_rune_balances = (spent, record { id = rune_a; balance = 100 } ∷ []) ∷ [];
}

abbrev at_output : ℕ → OutPoint
at_output v = record { txid = 2 ∷ []; vout = v }

-- The receiver, output 2, gets 30, and the sender, the first output that is no OP_RETURN, the rest.
index_runes_transfer :
    index_runes ordinals updater 1 transfer_tx (2 ∷ []) before
    ≡ done (
      updater,
      record no_tables {
        outpoint_to_rune_balances =
            (at_output 1, record { id = rune_a; balance = 70 } ∷ [])
            ∷ (at_output 2, record { id = rune_a; balance = 30 } ∷ [])
            ∷ [];
      },
    )
unfolding program
index_runes_transfer = refl

index_runes-Conserved_example :
    Returns
      (index_runes ordinals updater 1 transfer_tx (2 ∷ []) before)
      (Conserved ordinals updater 1 transfer_tx (2 ∷ []) before)
unfolding lookup OutPoint-discrete held stored_amount amount made minted premined etched
index_runes-Conserved_example =
    index_runes-Conserved ordinals updater 1 transfer_tx (2 ∷ []) before (omega arith)
      (λ v le. refl) (λ r. omega (arith, counted-le r rune_a 100))

abbrev at_end : RuneUpdater
at_end = record { block_time = 7; burned = (rune_a, 30) ∷ []; height = 840001; minimum = 0 }

abbrev with_entry : Tables
with_entry = record no_tables {
  rune_id_to_rune_entry = (rune_a, record default_entry { burned = 12 }) ∷ [];
}

update-Returns_example : Returns (update at_end with_entry) (λ t'.
    ((r : RuneId)
      → burned_of r t'.rune_id_to_rune_entry
        ≡ burned_of r with_entry.rune_id_to_rune_entry + amount r at_end.burned)
    × (t'.outpoint_to_rune_balances ≡ with_entry.outpoint_to_rune_balances))
unfolding lookup RuneId-discrete burned_of amount counted
update-Returns_example =
    update-Returns at_end with_entry ((record default_entry { burned = 12 }, refl), tt)
      (λ r. ground arith)

-- An entry with one mint left, at the last height but one of its window.
abbrev open_entry : RuneEntry
open_entry = record default_entry {
  mints = 2;
  premine = 50;
  terms = some (record {
    cap = some 3;
    height = (some 840000, some 840002);
    amount = some 7;
    offset = (none, none);
  });
}

abbrev with_open : Tables
with_open = record no_tables { rune_id_to_rune_entry = (rune_a, open_entry) ∷ [] }

mint-IsMint_example : IsMint at_end rune_a open_entry with_open (mint at_end rune_a with_open)
unfolding lookup RuneId-discrete
mint-IsMint_example =
    mint-IsMint at_end rune_a with_open open_entry refl
      (record { capped = omega arith; fits = omega arith })

mint_run : mint at_end rune_a with_open ≡ (
  some 7,
  record no_tables { rune_id_to_rune_entry = (rune_a, record open_entry { mints = 3 }) ∷ [] },
)
unfolding mint lookup insert RuneId-discrete mintable
mint_run = refl
