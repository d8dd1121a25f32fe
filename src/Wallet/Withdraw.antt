-- ===== src/Wallet/Withdraw.antt =====
-- The calls that withdraw (wallet/src/lib.rs) and the fee that they ask for
-- (`get_fee_per_vbyte` of wallet/src/bitcoin.rs). What other crates and canisters answer is the
-- parameter `w`; `pages` bounds the pages of a fetch, and `rounds` the search for a fee.
pub mod Several
pub mod Runes
mod Sending
mod Known
mod Carriers
pub mod Paid
pub mod Both
pub mod Carried
mod Tests
use ord_indexer.Base.{
  ℕ, ◌+◌, ◌-◌, ◌/◌, ◌%◌, ◌^◌, Bool, true, false, ◌&&◌, ◌||◌, not, Option, none, some, List, [], ◌∷◌,
  Dict, get_elem?, ltb, ◌==◌, if◌then◌else◌, add64,
}
use ord_indexer.Bitcoin.{Transaction, ScriptBuf}
use ord_indexer.Runes.{RuneId, Runestone}
use ord_indexer.Wallet.Utxos.{
  Addr, UtxoManager, get_bitcoin_balance, get_runestone_balance, all_rune_with_balances,
}
use ord_indexer.Wallet.Txn.{Address, Built, ok, refused}
use ord_indexer.Wallet.Kinds.{
  Account, Bitcoin, LegoBitcoin, RunestoneTransfer, Combined, TransactionType, bitcoin,
  lego_bitcoin, runestone, combined,
}
use ord_indexer.Wallet.Signer.{Crypto}
use ord_indexer.Wallet.Submit.{Handed, build_and_submit}
use ord_indexer.Wallet.Flow.{Flow, ◌>>=◌, return, expect, run, trap}
use ord_indexer.Wallet.Fetch.{Ledger, TargetType, bitcoin_target, fetch_utxos_and_update_balances}
use ord_indexer.Wallet.Transfer
use ord_indexer.Wallet.MultiSend
use ord_indexer.Wallet.RuneTransfer
use ord_indexer.Wallet.Combined

abbrev pub u64_max : ℕ
u64_max = 2 ^ 64 - 1

abbrev pub Principal : Type 0
Principal = List ℕ

-- `Addresses`
pub record Addresses : Type 0 where
  pub bitcoin : Addr
  pub icrc1 : Account

-- What a call asks of other crates and canisters.
pub record World : Type 0 where
  pub ledger : Ledger
  pub crypto : Crypto
  -- `Runestone::encipher`
  pub encipher : Runestone → ScriptBuf
  -- the size of a transaction with mock signatures
  pub vsize : Transaction → ℕ
  -- `generate_addresses_from_principal`
  pub addresses : Principal → Addresses
  -- `address_validation`
  pub address_validation : Addr → Option Address
  -- `bitcoin_get_current_fee_percentiles`
  pub fee_percentiles : Option (List ℕ)

-- How a withdrawal ends: the identifier that it gives, all that the network was handed during the
-- call, and the record.
pub record Sent : Type 0 where
  pub txid : List ℕ
  pub handed : Handed
  pub manager : UtxoManager

-- What one of two senders pays: of an odd amount the first pays the larger part.
abbrev pub halves : ℕ → ℕ × ℕ
halves amount =
    if amount % 2 == 0
    then (amount / 2, amount / 2)
    else (add64 ((amount - 1) / 2) 1, (amount - 1) / 2)

module _ (w : World) (pages rounds : ℕ) where
  unfoldable pub get_fee_per_vbyte : Flow ℕ
  get_fee_per_vbyte = do
    percentiles ← expect w.fee_percentiles
    elim percentiles [ [] ↦ return 2000 | p ∷ ps ↦ expect (get_elem? (p ∷ ps) 50) ]

  abbrev pub fee_or_ask : Option ℕ → Flow ℕ
  fee_or_ask none = get_fee_per_vbyte
  fee_or_ask (some fee) = return fee

  abbrev pub fetch : Addr → ℕ → UtxoManager → Flow UtxoManager
  fetch addr target m =
      fetch_utxos_and_update_balances w.ledger addr pages (bitcoin_target target) m

  -- `txn.build_and_submit().await.unwrap()`
  unfoldable pub submit : TransactionType → UtxoManager → Flow Sent
  submit txn m = do
    (sent, handed) ← run (build_and_submit w.crypto w.encipher txn [])
    txid ← expect sent
    return (record { txid = txid; handed = handed; manager = m })

  -- A fetch when the balance is short of the target; whether there was one comes first.
  abbrev pub fetch_if_short : Addr → ℕ → UtxoManager → Flow (Bool × UtxoManager)
  fetch_if_short addr target m =
      if ltb (get_bitcoin_balance addr m) target
      then (fetch addr target m >>= λ m'. return (true, m'))
      else return (false, m)

  module _ (addresses : Addresses) (from to : Address) (amount fee_per_vbytes : ℕ) where
    abbrev transfer_bitcoin : UtxoManager → Flow (Built ℕ Bitcoin × UtxoManager)
    transfer_bitcoin m =
        Transfer.transfer w.vsize addresses.bitcoin addresses.icrc1 from to amount true
          fee_per_vbytes rounds m

    -- The second try of a payment.
    unfoldable pub retry_bitcoin : ℕ → UtxoManager → Flow Sent
    unfolding submit
    retry_bitcoin required m = do
      m₁ ← fetch addresses.bitcoin required m
      (built, m₂) ← transfer_bitcoin m₁
      elim built [ ok txn ↦ submit (bitcoin txn) m₂ | refused _ ↦ trap ]

    unfoldable pub pay_bitcoin : Bool → ℕ → UtxoManager → Flow Sent
    unfolding submit retry_bitcoin
    pay_bitcoin synced balance m = do
      (built, m₁) ← transfer_bitcoin m
      elim built [
        | ok txn ↦ submit (bitcoin txn) m₁
        | refused required ↦
            if synced && ltb required balance then trap else retry_bitcoin required m₁
      ]

  unfoldable pub withdraw_bitcoin : Principal → Addr → ℕ → Option ℕ → UtxoManager → Flow Sent
  unfolding get_fee_per_vbyte pay_bitcoin
  withdraw_bitcoin caller to amount fee m = do
    let addresses = w.addresses caller
    receiver ← expect (w.address_validation to)
    from ← expect (w.address_validation addresses.bitcoin)
    (synced, m₁) ← fetch_if_short addresses.bitcoin amount m
    let balance = get_bitcoin_balance addresses.bitcoin m₁
    if synced && ltb balance amount then trap else (do
      fee_per_vbytes ← fee_or_ask fee
      pay_bitcoin addresses from receiver amount fee_per_vbytes synced balance m₁)
