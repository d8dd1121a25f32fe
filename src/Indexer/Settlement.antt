-- ===== src/Indexer/Settlement.antt =====
-- Where the runes of a transaction end (the second half of `index_runes` in
-- ord_canister/src/index/updater/rune_updater.rs): what has no output yet goes to the default
-- output or is burned, and the balances of the outputs enter the table.
pub mod Steps
pub mod Stored
use ord_indexer.Base.{
  ℕ, ◌+◌, Bool, true, false, Option, none, some, List, [], ◌∷◌, insert, ltb, if◌then◌else◌, Outcome,
  done, ◌>>=◌, ◌>>◌, assert, unwrap, length, get_elem?,
}
use ord_indexer.Bitcoin.{Txid, OutPoint, OutPoint-discrete, TxOut, Transaction}
use ord_indexer.Runes.{RuneBalance, Runestone, Artifact, runestone, cenotaph, Ordinals}
use ord_indexer.Indexer.Allocation.{Allocation, credit_output}
use ord_indexer.Indexer.Balances.{Balances, credit, credit_all, to_stored}
use ord_indexer.Indexer.Tables.{OutputTable}

-- `for (id, balance) in unallocated { if balance > 0 { … } }`, into an output
unfoldable pub assign_output : ℕ → Balances → List Balances → Outcome (List Balances)
assign_output vout [] ms = done ms
assign_output vout ((id, x) ∷ l) ms = do
  ms' ← if ltb 0 x then credit_output vout id x ms else done ms
  assign_output vout l ms'

-- The same, into the burned runes.
unfoldable pub burn_positive : Balances → Balances → Outcome Balances
burn_positive [] burned = done burned
burn_positive ((id, x) ∷ l) burned = do
  burned' ← if ltb 0 x then credit id x burned else done burned
  burn_positive l burned'

module _ (o : Ordinals) where
  -- The first output, counted from `i`, that is not OP_RETURN.
  unfoldable pub first_output : ℕ → List TxOut → Option ℕ
  first_output i [] = none
  first_output i (out ∷ outs) =
      let rest = first_output (i + 1) outs in
      if o.is_op_return out.script_pubkey then rest else some i

  -- The runestone's pointer, or else the first output that is not OP_RETURN.
  unfoldable pub default_output : Option ℕ → List TxOut → ℕ → Outcome (Option ℕ)
  unfolding first_output
  default_output (some p) outs n = do assert (ltb p n); done (some p)
  default_output none outs n = done (first_output 0 outs)

  -- The balances of the outputs, and the burned runes.
  unfoldable pub assign_default :
      Option ℕ → Transaction → Allocation → Outcome (List Balances × Balances)
  unfolding default_output
  assign_default pointer tx s = do
    vout ← default_output pointer tx.output (length s.allocated)
    elim vout [
      | some v ↦ do ms ← assign_output v s.unallocated s.allocated; done (ms, [])
      | none ↦ do burned ← burn_positive s.unallocated []; done (s.allocated, burned)
    ]

  unfoldable pub assign_rest :
      Option Artifact → Transaction → Allocation → Outcome (List Balances × Balances)
  unfolding assign_default
  assign_rest (some (cenotaph c)) tx s = do
    burned ← credit_all s.unallocated []
    done (s.allocated, burned)
  assign_rest (some (runestone r)) tx s = assign_default r.pointer tx s
  assign_rest none tx s = assign_default none tx s

  -- The loop over the outputs, counted from `vout`: an output without runes is skipped, the runes
  -- of an OP_RETURN are burned, and those of any other output are stored under its outpoint.
  unfoldable pub settle :
      Txid
      → List TxOut
      → ℕ
      → List Balances
      → Balances
      → OutputTable
      → Outcome (Balances × OutputTable)
  settle txid outs vout [] burned t = done (burned, t)
  settle txid outs vout ([] ∷ ms) burned t = settle txid outs (vout + 1) ms burned t
  settle txid outs vout ((e ∷ es) ∷ ms) burned t = do
    out ← unwrap (get_elem? outs vout)
    elim (o.is_op_return out.script_pubkey) [
      | true ↦ do burned' ← credit_all (e ∷ es) burned; settle txid outs (vout + 1) ms burned' t
      | false ↦
          settle txid outs (vout + 1) ms burned
            (insert OutPoint-discrete (record { txid = txid; vout = vout }) (to_stored (e ∷ es)) t)
    ]
