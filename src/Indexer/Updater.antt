-- ===== src/Indexer/Updater.antt =====
-- The rune updater (ord_canister/src/index/updater/rune_updater.rs): what one transaction does to
-- the tables. The crate `ordinals` is the parameter `o`. An event handler is never installed
-- (`index_block` passes none), so the calls of it are left out; a full stable memory is too.
pub mod Inputs
pub mod Conservation
pub mod Burned
pub mod Minting
mod Tests
use ord_indexer.Base.{
  ℕ, ◌+◌, ◌%◌, ◌/◌, ◌≡◌, Bool, true, false, ◌||◌, Option, none, some, List, [], ◌∷◌, ite, lookup,
  insert, erase, ltb, leb, ◌==◌, if◌then◌else◌, Outcome, done, panic, ◌>>=◌, ◌>>◌, assert, unwrap,
  length, get_elem?, set, replicate, Dict, checked_add128,
}
use Prim.Native.Nat.{min}
use ord_indexer.Bitcoin.{
  Txid, OutPoint, OutPoint-discrete, BlockHash-discrete, TxIn, TxOut, Transaction,
}
use ord_indexer.Runes.{
  RuneId, RuneId-discrete, default_id, RuneBalance, Terms, Etching, Edict, Runestone, Cenotaph,
  Artifact, runestone, cenotaph, Result, ok, err, Ordinals,
}
use ord_indexer.Indexer.Lot
use ord_indexer.Indexer.Lot.{Lot}
use ord_indexer.Indexer.Entry.{RuneEntry, mintable, or_default}
use ord_indexer.Indexer.Settlement.{assign_rest, settle}
use ord_indexer.Indexer.Tables.{Tables, OutputTable}
use ord_indexer.Indexer.Allocation.{Allocation, credit_output, apply_edicts}
use ord_indexer.Indexer.Balances.{Balances, balance_of, credit, credit_all, to_stored}

pub record RuneUpdater : Type 0 where
  pub block_time : ℕ
  pub burned : Balances
  pub height : ℕ
  pub minimum : ℕ

-- The inner loop of `unallocated`.
unfoldable pub credit_stored : List RuneBalance → Balances → Outcome Balances
credit_stored [] m = done m
credit_stored (b ∷ l) m = do m' ← credit b.id b.balance m; credit_stored l m'

-- `RuneUpdater::unallocated`: the balances of the inputs leave the table.
unfoldable pub unallocated_of :
    List TxIn → Balances → OutputTable → Outcome (Balances × OutputTable)
unallocated_of [] m t = done (m, t)
unallocated_of (input ∷ inputs) m t = elim (lookup OutPoint-discrete input.previous_output t) [
  | none ↦ unallocated_of inputs m t
  | some balances ↦ do
    m' ← credit_stored balances m
    unallocated_of inputs m' (erase OutPoint-discrete input.previous_output t)
]

-- `RuneUpdater::mint`
unfoldable pub mint : RuneUpdater → RuneId → Tables → Option Lot × Tables
mint u id t = elim (lookup RuneId-discrete id t.rune_id_to_rune_entry) [
  | none ↦ (none, t)
  | some entry ↦ elim (mintable entry u.height) [
    | err _ ↦ (none, t)
    | ok amount ↦ (
      some amount,
      record t {
        rune_id_to_rune_entry =
            insert RuneId-discrete id (record entry { mints = entry.mints + 1 })
              t.rune_id_to_rune_entry;
      },
    )
  ]
]

-- The rune that an artifact etches: none, or one with or without a name of its own.
abbrev etched_name : Artifact → Option (Option ℕ)
etched_name (runestone r) = elim (r.etching) [ none ↦ none | some etching ↦ some etching.rune ]
etched_name (cenotaph c) = elim (c.etching) [ none ↦ none | some rune ↦ some (some rune) ]

module _ (o : Ordinals) where
  -- `RuneUpdater::etched`
  unfoldable pub etched : RuneUpdater → ℕ → Artifact → Option (RuneId × ℕ)
  etched u tx_index artifact =
      let id : RuneId = record { block = u.height; tx = tx_index } in
      elim (etched_name artifact) [
        | none ↦ none
        | some none ↦ some (id, o.reserved u.height tx_index)
        | some (some rune) ↦
            if ltb rune u.minimum || o.is_reserved rune then none else some (id, rune)
      ]

-- The runes that a mint adds, and the entry that it counts.
unfoldable pub add_minted :
    Option RuneId → RuneUpdater → Balances → Tables → Outcome (Balances × Tables)
add_minted none u m t = done (m, t)
add_minted (some id) u m t =
    let (minted, t') = mint u id t in
    elim minted [ none ↦ done (m, t') | some x ↦ do m' ← credit id x m; done (m', t') ]

-- The premine of a runestone that etches.
unfoldable pub add_premine : Option (RuneId × ℕ) → Runestone → Balances → Outcome Balances
add_premine none r m = done m
add_premine (some (id, _)) r m = do
  etching ← unwrap r.etching
  credit id (or_default etching.premine) m

-- `RuneUpdater::create_rune_entry`, the entry
unfoldable pub new_entry : RuneUpdater → Txid → Artifact → RuneId → ℕ → Outcome RuneEntry
new_entry u txid (cenotaph _) id rune = done (record {
  block = id.block;
  burned = 0;
  divisibility = 0;
  etching = txid;
  mints = 0;
  premine = 0;
  spaced_rune = record { rune = rune; spacers = 0 };
  symbol = none;
  terms = none;
  timestamp = u.block_time;
  turbo = false;
})
new_entry u txid (runestone r) id rune = do
  etching ← unwrap r.etching
  done (record {
    block = id.block;
    burned = 0;
    divisibility = or_default etching.divisibility;
    etching = txid;
    mints = 0;
    premine = or_default etching.premine;
    spaced_rune = record { rune = rune; spacers = or_default etching.spacers };
    symbol = etching.symbol;
    terms = etching.terms;
    timestamp = u.block_time;
    turbo = etching.turbo;
  })

-- `RuneUpdater::create_rune_entry`
unfoldable pub create_rune_entry :
    RuneUpdater → Txid → Artifact → Option (RuneId × ℕ) → Tables → Outcome Tables
unfolding new_entry
create_rune_entry u txid artifact none t = done t
create_rune_entry u txid artifact (some (id, rune)) t = do
  entry ← new_entry u txid artifact id rune
  done (record t {
    transaction_id_to_rune = insert BlockHash-discrete txid rune t.transaction_id_to_rune;
    rune_id_to_rune_entry = insert RuneId-discrete id entry t.rune_id_to_rune_entry;
  })

abbrev pub no_outputs : Transaction → List Balances
no_outputs tx = replicate (length tx.output) []

module _ (o : Ordinals) (u : RuneUpdater) (tx_index : ℕ) (tx : Transaction) (txid : Txid) where
  -- The part of `index_runes` that is guarded by `if let Artifact::Runestone(runestone)`.
  unfoldable pub apply_runestone : Option (RuneId × ℕ) → Artifact → Balances → Outcome Allocation
  apply_runestone new (cenotaph _) m = done (record { unallocated = m; allocated = no_outputs tx })
  apply_runestone new (runestone r) m = do
    m' ← add_premine new r m
    apply_edicts o new tx.output r.edicts (record { unallocated = m'; allocated = no_outputs tx })

  -- The part that is guarded by `if let Some(artifact) = &artifact`.
  unfoldable pub apply_artifact :
      Option Artifact → Balances → Tables → Outcome (Allocation × Tables)
  apply_artifact none m t = done (record { unallocated = m; allocated = no_outputs tx }, t)
  apply_artifact (some artifact) m t = do
    (m', t') ← add_minted (o.artifact_mint artifact) u m t
    let new = etched o u tx_index artifact
    s ← apply_runestone new artifact m'
    t'' ← create_rune_entry u txid artifact new t'
    done (s, t'')

  -- `RuneUpdater::index_runes`
  unfoldable pub index_runes : Tables → Outcome (RuneUpdater × Tables)
  index_runes t = do
    (m, table) ← unallocated_of tx.input [] t.outpoint_to_rune_balances
    let artifact = o.decipher tx
    (s, t') ← apply_artifact artifact m (record t { outpoint_to_rune_balances = table })
    (allocated, burned) ← assign_rest o artifact tx s
    (burned', table') ← settle o txid tx.output 0 allocated burned t'.outpoint_to_rune_balances
    all_burned ← credit_all burned' u.burned
    done (record u { burned = all_burned }, record t' { outpoint_to_rune_balances = table' })

-- `RuneUpdater::update`, at the end of a block: the burned amounts enter the entries.
unfoldable pub update_entries : Balances → Dict RuneId RuneEntry → Outcome (Dict RuneId RuneEntry)
update_entries [] entries = done entries
update_entries ((id, x) ∷ burned) entries = do
  entry ← unwrap (lookup RuneId-discrete id entries)
  sum ← unwrap (checked_add128 entry.burned x)
  update_entries burned (insert RuneId-discrete id (record entry { burned = sum }) entries)

unfoldable pub update : RuneUpdater → Tables → Outcome Tables
unfolding update_entries
update u t = do
  entries ← update_entries u.burned t.rune_id_to_rune_entry
  done (record t { rune_id_to_rune_entry = entries })
