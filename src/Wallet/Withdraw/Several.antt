-- ===== src/Wallet/Withdraw/Several.antt =====
-- A withdrawal that two addresses pay for (`withdraw_bitcoin_from_multiple_addresses` of
-- wallet/src/lib.rs).
use ord_indexer.Base.{ℕ, Bool, true, false, ◌&&◌, ◌||◌, not, Option, ltb, if◌then◌else◌}
use ord_indexer.Wallet.Utxos.{Addr, UtxoManager, get_bitcoin_balance}
use ord_indexer.Wallet.Txn.{Address, Built, ok, refused}
use ord_indexer.Wallet.Kinds.{LegoBitcoin, lego_bitcoin}
use ord_indexer.Wallet.MultiSend.{Arguments, transfer}
use ord_indexer.Wallet.Flow.{Flow, ◌>>=◌, return, expect, trap}
use ord_indexer.Wallet.Withdraw.{
  Principal, Addresses, World, Sent, halves, get_fee_per_vbyte, fee_or_ask, fetch, submit,
}

abbrev pub arguments : Addresses → Addresses → Address → Address → Address → ℕ → ℕ → Arguments
arguments addresses0 addresses1 address0 address1 to amount fee_per_vbytes =
    let (amount0, amount1) = halves amount in
    record {
      addr0 = addresses0.bitcoin;
      addr1 = addresses1.bitcoin;
      address0 = address0;
      address1 = address1;
      receiver = to;
      account0 = addresses0.icrc1;
      account1 = addresses1.icrc1;
      amount0 = amount0;
      amount1 = amount1;
      fee_per_vbytes = fee_per_vbytes;
      paid_by_sender = true;
    }

module _ (w : World) (pages rounds : ℕ) where
  -- A fetch when the condition holds.
  abbrev pub fetch_if : Bool → Addr → ℕ → UtxoManager → Flow UtxoManager
  fetch_if true addr target m = fetch w pages rounds addr target m
  fetch_if false addr target m = return m

  abbrev pub is_short_of : Addr → ℕ → UtxoManager → Bool
  is_short_of addr target m = ltb (get_bitcoin_balance addr m) target

  module _ (a : Arguments) where
    abbrev pub transfer_both : UtxoManager → Flow (Built (ℕ × ℕ) LegoBitcoin × UtxoManager)
    transfer_both m = transfer w.vsize a rounds m

    -- The second try: the balances are those before it.
    unfoldable pub retry_both : Bool → Bool → ℕ → ℕ → ℕ → ℕ → UtxoManager → Flow Sent
    unfolding submit
    retry_both synced0 synced1 balance0 balance1 required0 required1 m = do
      m₁ ← fetch_if (ltb balance0 required0 && not synced0) a.addr0 required0 m
      m₂ ← fetch_if (ltb balance1 required1 && not synced1) a.addr1 required1 m₁
      if is_short_of a.addr0 required0 m₂ || is_short_of a.addr1 required1 m₂ then trap else (do
        (built, m₃) ← transfer_both m₂
        elim built [ ok txn ↦ submit w pages rounds (lego_bitcoin txn) m₃ | refused _ ↦ trap ])

    unfoldable pub pay_both : Bool → Bool → UtxoManager → Flow Sent
    unfolding submit retry_both
    pay_both synced0 synced1 m = do
      let balance0 = get_bitcoin_balance a.addr0 m
      let balance1 = get_bitcoin_balance a.addr1 m
      (built, m₁) ← transfer_both m
      elim built [
        | ok txn ↦ submit w pages rounds (lego_bitcoin txn) m₁
        | refused (required0, required1) ↦
            retry_both synced0 synced1 balance0 balance1 required0 required1 m₁
      ]

  unfoldable pub withdraw_bitcoin_from_multiple_addresses :
      Principal → Principal → Addr → ℕ → Option ℕ → UtxoManager → Flow Sent
  unfolding get_fee_per_vbyte pay_both
  withdraw_bitcoin_from_multiple_addresses caller principal0 to amount fee m = do
    let addresses0 = w.addresses principal0
    let addresses1 = w.addresses caller
    address0 ← expect (w.address_validation addresses0.bitcoin)
    address1 ← expect (w.address_validation addresses1.bitcoin)
    receiver ← expect (w.address_validation to)
    fee_per_vbytes ← fee_or_ask w pages rounds fee
    let a = arguments addresses0 addresses1 address0 address1 receiver amount fee_per_vbytes
    let synced0 = is_short_of a.addr0 a.amount0 m
    let synced1 = is_short_of a.addr1 a.amount1 m
    m₁ ← fetch_if synced0 a.addr0 a.amount0 m
    m₂ ← fetch_if synced1 a.addr1 a.amount1 m₁
    if is_short_of a.addr0 a.amount0 m₂ || is_short_of a.addr1 a.amount1 m₂
        then trap
        else pay_both a synced0 synced1 m₂
