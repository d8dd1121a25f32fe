-- ===== src/Wallet/Select.antt =====
-- The loops that pick outputs to spend, least first (`while let Some(utxo) =
-- manager.get_bitcoin_utxo(addr) { … }` and its like in wallet/src/bitcoin). Each takes outputs out
-- of the record until a test on the sum says stop, or none is left. The fuel is one more than the
-- outputs at hand; without fuel the result is none.
pub mod Laws
pub mod Runic
use ord_indexer.Base.{
  ℕ, zero, suc, Bool, true, false, Option, none, some, List, [], ◌∷◌, ◌++◌, length, add64, add128,
  if◌then◌else◌,
}
use ord_indexer.Runes.{RuneId}
use ord_indexer.Wallet.Utxos.{
  Addr, Utxo, RunicUtxo, UtxoManager, btc_set, runic_set, get_bitcoin_utxo, get_runic_utxo,
}

-- The outputs picked, the sum of their values, and the record without them.
pub record Picked : Type 0 where
  pub utxos : List Utxo
  pub sum : ℕ
  pub manager : UtxoManager

unfoldable pub pick_loop : ℕ → (ℕ → Bool) → Addr → List Utxo → ℕ → UtxoManager → Option Picked
pick_loop zero stop addr utxos sum m = none
pick_loop (suc fuel) stop addr utxos sum m = elim (get_bitcoin_utxo addr m).0 [
  | none ↦ some (record { utxos = utxos; sum = sum; manager = m })
  | some u ↦
      let m' = (get_bitcoin_utxo addr m).1 in
      let sum' = add64 sum u.value in
      let utxos' = utxos ++ u ∷ [] in
      let rest = pick_loop fuel stop addr utxos' sum' m' in
      if stop sum' then some (record { utxos = utxos'; sum = sum'; manager = m' }) else rest
]

unfoldable pub pick : (ℕ → Bool) → Addr → UtxoManager → Option Picked
unfolding pick_loop
pick stop addr m = pick_loop (suc (length (btc_set addr m))) stop addr [] 0 m

-- The runic outputs picked: the sums of their balances and of the bitcoin in them.
pub record RunicPicked : Type 0 where
  pub utxos : List RunicUtxo
  pub sum : ℕ
  pub btc : ℕ
  pub manager : UtxoManager

unfoldable pub pick_runic_loop :
    ℕ → (ℕ → Bool) → Addr → RuneId → List RunicUtxo → ℕ → ℕ → UtxoManager → Option RunicPicked
pick_runic_loop zero stop addr id utxos sum btc m = none
pick_runic_loop (suc fuel) stop addr id utxos sum btc m = elim (get_runic_utxo addr id m).0 [
  | none ↦ some (record { utxos = utxos; sum = sum; btc = btc; manager = m })
  | some u ↦
      let m' = (get_runic_utxo addr id m).1 in
      let sum' = add128 sum u.balance in
      let btc' = add64 btc u.utxo.value in
      let utxos' = utxos ++ u ∷ [] in
      let rest = pick_runic_loop fuel stop addr id utxos' sum' btc' m' in
      if stop sum'
      then some (record { utxos = utxos'; sum = sum'; btc = btc'; manager = m' })
      else rest
]

unfoldable pub pick_runic : (ℕ → Bool) → Addr → RuneId → UtxoManager → Option RunicPicked
unfolding pick_runic_loop
pick_runic stop addr id m =
    pick_runic_loop (suc (length (runic_set addr id m))) stop addr id [] 0 0 m
