-- ===== src/Wallet/Withdraw/Runes.antt =====
-- The withdrawals of runes (`withdraw_runestone`, `withdraw_runestone_with_fee_paid_by_receiver` and
-- `withdraw_combined` of wallet/src/lib.rs), and the balances of an address.
use ord_indexer.Base.{ℕ, Bool, true, false, ◌&&◌, not, Option, none, Dict, ltb, if◌then◌else◌}
use ord_indexer.Runes.{RuneId}
use ord_indexer.Wallet.Utxos.{
  Addr, UtxoManager, get_bitcoin_balance, get_runestone_balance, all_rune_with_balances,
}
use ord_indexer.Wallet.Txn.{Address, Built, ok, refused}
use ord_indexer.Wallet.Kinds.{Account, RunestoneTransfer, runestone, combined}
use ord_indexer.Wallet.RuneTransfer.{Arguments}
use ord_indexer.Wallet.Combined.{Request}
use ord_indexer.Wallet.Flow.{Flow, ◌>>=◌, return, expect, trap}
use ord_indexer.Wallet.Withdraw.{
  Principal, Addresses, World, Sent, u64_max, get_fee_per_vbyte, fee_or_ask, fetch, submit,
}
use ord_indexer.Wallet.RuneTransfer
use ord_indexer.Wallet.Combined

-- Both calls pass `paid_by_sender: true`.
abbrev pub arguments :
    RuneId → ℕ → Addr → Addr → Account → Account → Address → Address → ℕ → Arguments
arguments runeid amount sender_addr receiver_addr sender_account receiver_account sender receiver
      fee =
    record {
      runeid = runeid;
      amount = amount;
      sender_addr = sender_addr;
      receiver_addr = receiver_addr;
      sender_account = sender_account;
      receiver_account = receiver_account;
      sender_address = sender;
      receiver_address = receiver;
      fee_per_vbytes = fee;
      paid_by_sender = true;
      postage = none;
    }

module _ (w : World) (pages rounds : ℕ) where
  abbrev fetch_all : Addr → UtxoManager → Flow UtxoManager
  fetch_all addr m = fetch w pages rounds addr u64_max m

  -- A fetch when an address holds too little of a rune; it traps if that does not help.
  unfoldable pub need_runes : Addr → RuneId → ℕ → UtxoManager → Flow (Bool × UtxoManager)
  need_runes addr runeid amount m =
      if ltb (get_runestone_balance addr runeid m) amount
      then (do
        m₁ ← fetch_all addr m
        if ltb (get_runestone_balance addr runeid m₁) amount then trap else return (true, m₁))
      else return (false, m)

  -- A fetch of bitcoin for a fee when the condition holds; it traps if that does not help.
  abbrev pub need_fee : Bool → Addr → ℕ → UtxoManager → Flow UtxoManager
  need_fee false addr fee m = return m
  need_fee true addr fee m = do
    m₁ ← fetch_all addr m
    if ltb (get_bitcoin_balance addr m₁) fee then trap else return m₁

  module _ (a : Arguments) where
    abbrev pub transfer_runes : UtxoManager → Flow (Built (ℕ × ℕ) RunestoneTransfer × UtxoManager)
    transfer_runes m = RuneTransfer.transfer w.encipher w.vsize a rounds m

    unfoldable pub retry_runes : UtxoManager → Flow Sent
    unfolding submit
    retry_runes m = do
      (built, m₁) ← transfer_runes m
      elim built [ ok txn ↦ submit w pages rounds (runestone txn) m₁ | refused _ ↦ trap ]

  -- The rest of `withdraw_runestone`: a refusal fetches for the sender, unless it was fetched before.
  unfoldable pub pay_runes : Arguments → Bool → UtxoManager → Flow Sent
  unfolding submit retry_runes
  pay_runes a synced m = do
    (built, m₁) ← transfer_runes a m
    elim built [
      | ok txn ↦ submit w pages rounds (runestone txn) m₁
      | refused (_, fee) ↦ (do
        m₂ ←
            need_fee (ltb (get_bitcoin_balance a.sender_addr m₁) fee && not synced) a.sender_addr
              fee m₁
        retry_runes a m₂)
    ]

  unfoldable pub withdraw_runestone :
      Principal → RuneId → ℕ → Addr → Option ℕ → UtxoManager → Flow Sent
  unfolding get_fee_per_vbyte need_runes pay_runes
  withdraw_runestone caller runeid amount to fee m = do
    let sender_addresses = w.addresses caller
    sender ← expect (w.address_validation sender_addresses.bitcoin)
    receiver ← expect (w.address_validation to)
    fee_per_vbytes ← fee_or_ask w pages rounds fee
    (synced, m₁) ← need_runes sender_addresses.bitcoin runeid amount m
    pay_runes
        (arguments runeid amount sender_addresses.bitcoin to sender_addresses.icrc1
          sender_addresses.icrc1 sender receiver fee_per_vbytes)
        synced m₁

  -- The rest of `withdraw_runestone_with_fee_paid_by_receiver`: a refusal fetches for the receiver,
  -- whose balance was read at the start.
  unfoldable pub pay_runes_of : Arguments → ℕ → UtxoManager → Flow Sent
  unfolding submit retry_runes
  pay_runes_of a balance m = do
    (built, m₁) ← transfer_runes a m
    elim built [
      | ok txn ↦ submit w pages rounds (runestone txn) m₁
      | refused (_, fee) ↦ (do
        m₂ ← need_fee (ltb balance fee) a.receiver_addr fee m₁
        retry_runes a m₂)
    ]

  unfoldable pub withdraw_runestone_with_fee_paid_by_receiver :
      Principal → RuneId → ℕ → Principal → Option ℕ → UtxoManager → Flow Sent
  unfolding get_fee_per_vbyte need_runes pay_runes_of
  withdraw_runestone_with_fee_paid_by_receiver caller runeid amount to fee m = do
    let sender_addresses = w.addresses caller
    let receiver_addresses = w.addresses to
    sender ← expect (w.address_validation sender_addresses.bitcoin)
    receiver ← expect (w.address_validation receiver_addresses.bitcoin)
    let balance = get_bitcoin_balance receiver_addresses.bitcoin m
    (_, m₁) ← need_runes sender_addresses.bitcoin runeid amount m
    fee_per_vbytes ← fee_or_ask w pages rounds fee
    pay_runes_of
        (arguments runeid amount sender_addresses.bitcoin receiver_addresses.bitcoin
          sender_addresses.icrc1 receiver_addresses.icrc1 sender receiver fee_per_vbytes)
        balance m₁

  abbrev request : Addresses → Addresses → Address → Address → RuneId → ℕ → ℕ → ℕ → Request
  request addresses receiver_addresses sender receiver runeid rune_amount btc_amount fee = record {
    from_addr = addresses.bitcoin;
    receiver_addr = receiver_addresses.bitcoin;
    sender_address = sender;
    receiver_address = receiver;
    runeid = runeid;
    rune_amount = rune_amount;
    btc_amount = btc_amount;
    sender_account = addresses.icrc1;
    receiver_account = receiver_addresses.icrc1;
    postage = none;
    fee_per_vbytes = fee;
    paid_by_sender = false;
  }

  unfoldable pub withdraw_combined :
      Principal → RuneId → ℕ → ℕ → Principal → Option ℕ → UtxoManager → Flow Sent
  unfolding get_fee_per_vbyte submit
  withdraw_combined caller runeid rune_amount btc_amount receiver_principal fee m = do
    let addresses = w.addresses caller
    let receiver_addresses = w.addresses receiver_principal
    sender ← expect (w.address_validation addresses.bitcoin)
    receiver ← expect (w.address_validation receiver_addresses.bitcoin)
    m₁ ← fetch_all addresses.bitcoin m
    m₂ ← fetch_all receiver_addresses.bitcoin m₁
    fee_per_vbytes ← fee_or_ask w pages rounds fee
    (built, m₃) ←
        Combined.transfer w.encipher w.vsize
          (request addresses receiver_addresses sender receiver runeid rune_amount btc_amount
            fee_per_vbytes)
          rounds m₂
    elim built [ ok txn ↦ submit w pages rounds (combined txn) m₃ | refused _ ↦ trap ]

  unfoldable pub get_runestone_balance_of : Addr → UtxoManager → Flow (Dict RuneId ℕ × UtxoManager)
  get_runestone_balance_of addr m = do
    m₁ ← fetch_all addr m
    return (all_rune_with_balances addr m₁, m₁)
