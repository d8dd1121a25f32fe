-- ===== src/Indexer/Allocation.antt =====
-- How a runestone's edicts move runes from the inputs of a transaction to its outputs (the loop over
-- `runestone.edicts` in ord_canister/src/index/updater/rune_updater.rs).
pub mod Steps
pub mod Edicts
use ord_indexer.Base.{
  ℕ, ◌+◌, ◌%◌, ◌/◌, ◌≡◌, Bool, true, false, ◌||◌, Option, none, some, List, [], ◌∷◌, ite, lookup,
  insert, erase, ltb, leb, ◌==◌, if◌then◌else◌, Outcome, done, panic, ◌>>=◌, ◌>>◌, assert, unwrap,
  length, get_elem?, set, replicate,
}
use Prim.Native.Nat.{min}
use ord_indexer.Bitcoin.{TxOut}
use ord_indexer.Runes.{RuneId, RuneId-discrete, default_id, Edict, Ordinals}
use ord_indexer.Indexer.Lot
use ord_indexer.Indexer.Lot.{Lot}
use ord_indexer.Indexer.Balances.{Balances, balance_of, credit}

-- The runes of a transaction that have no output yet, and those of each output.
pub record Allocation : Type 0 where
  pub unallocated : Balances
  pub allocated : List Balances

-- `allocated[output]`, credited
unfoldable pub credit_output : ℕ → RuneId → Lot → List Balances → Outcome (List Balances)
credit_output output id x ms = do
  m ← unwrap (get_elem? ms output)
  m' ← credit id x m
  done (set ms output m')

-- The closure `allocate`: `balance` is the entry of `id` among the unallocated runes.
unfoldable pub allocate : RuneId → Lot → ℕ → Allocation → Outcome Allocation
allocate id amount output s =
    if ltb 0 amount
    then (do
      rest ← Lot.sub (balance_of id s.unallocated) amount
      ms ← credit_output output id amount s.allocated
      done (record { unallocated = insert RuneId-discrete id rest s.unallocated; allocated = ms }))
    else done s

-- A zero amount over several outputs: an equal share each, and one more for the first `remainder`.
unfoldable pub allocate_evenly : RuneId → Lot → ℕ → ℕ → List ℕ → Allocation → Outcome Allocation
allocate_evenly id share remainder i [] s = done s
allocate_evenly id share remainder i (output ∷ outputs) s = do
  x ← if ltb i remainder then Lot.add share 1 else done share
  s' ← allocate id x output s
  allocate_evenly id share remainder (i + 1) outputs s'

-- A given amount to each of several outputs, while the balance lasts.
unfoldable pub allocate_each : RuneId → Lot → List ℕ → Allocation → Outcome Allocation
allocate_each id amount [] s = done s
allocate_each id amount (output ∷ outputs) s = do
  s' ← allocate id (min amount (balance_of id s.unallocated)) output s
  allocate_each id amount outputs s'

module _ (o : Ordinals) where
  -- The outputs, counted from `i`, that are not OP_RETURN.
  unfoldable pub destinations : ℕ → List TxOut → List ℕ
  destinations i [] = []
  destinations i (out ∷ outs) =
      let rest = destinations (i + 1) outs in
      if o.is_op_return out.script_pubkey then rest else i ∷ rest

  -- An edict for the output one past the last.
  unfoldable pub allocate_split : RuneId → Lot → List ℕ → Allocation → Outcome Allocation
  allocate_split id amount [] s = done s
  allocate_split id amount (d ∷ ds) s =
      let balance = balance_of id s.unallocated in
      let n = length (d ∷ ds) in
      if amount == 0
      then allocate_evenly id (Lot.div balance n) (Lot.rem balance n) 0 (d ∷ ds) s
      else allocate_each id amount (d ∷ ds) s

  -- The rune of an edict: id 0:0 stands for the rune etched in the transaction.
  abbrev edict_id : Option (RuneId × ℕ) → RuneId → Option RuneId
  edict_id etched id =
      ite (RuneId-discrete id default_id) (elim etched [ none ↦ none | some (id', _) ↦ some id' ])
        (some id)

  unfoldable pub apply_edict :
      Option (RuneId × ℕ) → List TxOut → Edict → Allocation → Outcome Allocation
  apply_edict etched outs edict s =
      assert (leb edict.output (length outs)) >> elim (edict_id etched edict.id) [
        | none ↦ done s
        | some id ↦ elim (lookup RuneId-discrete id s.unallocated) [
          | none ↦ done s
          | some balance ↦
              if edict.output == length outs
              then allocate_split id edict.amount (destinations 0 outs) s
              else allocate id (if edict.amount == 0 then balance else min edict.amount balance)
                  edict.output s
        ]
      ]

  unfoldable pub apply_edicts :
      Option (RuneId × ℕ) → List TxOut → List Edict → Allocation → Outcome Allocation
  apply_edicts etched outs [] s = done s
  apply_edicts etched outs (edict ∷ edicts) s = do
    s' ← apply_edict etched outs edict s
    apply_edicts etched outs edicts s'
