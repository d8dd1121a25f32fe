-- ===== src/Wallet/Withdraw/Both.antt =====
-- What a withdrawal of two addresses sends (`withdraw_bitcoin_from_multiple_addresses` of
-- wallet/src/lib.rs), whatever the ledger, the indexer and the fee are.
use ord_indexer.Base.{
  refl, ℕ, zero, suc, ◌<◌, ◌≡◌, Bool, true, ◌&&◌, ◌||◌, not, Option, some, List, ◌∷◌, ltb, ◌==◌,
  if◌then◌else◌, add64, u64_size, Ensures, Ensures-after, Ensures-any, Bool-cases, inl, inr, arith,
  ◌∙◌,
}
use ord_indexer.Bitcoin.{TxOut}
use ord_indexer.Wallet.Utxos.{Addr, UtxoManager, get_bitcoin_balance, record_btc_utxos}
use ord_indexer.Wallet.Txn.{Address, Built, ok, refused, to_inputs, fee_of, Built-ensures}
use ord_indexer.Wallet.Kinds.{LegoBitcoin, lego_bitcoin}
use ord_indexer.Wallet.MultiSend.{Arguments, build_transaction_with_fee, transfer_loop, transfer}
use ord_indexer.Wallet.Submit.{lego_txn, lego_outputs, unsigned_of}
use ord_indexer.Wallet.Flow.{WhenSome, Gives, ◌>>=◌, expect, trap, Gives-bind, Gives-after}
use ord_indexer.Wallet.Withdraw.{Principal, World, Sent, halves, fee_or_ask, submit}
use ord_indexer.Wallet.Withdraw.Paid.{PaysOut, Pays, PaidBy}
use ord_indexer.Wallet.Withdraw.Sending.{submit-Sends}
use ord_indexer.Wallet.Withdraw.Several.{
  arguments, is_short_of, fetch_if, transfer_both, retry_both, pay_both,
  withdraw_bitcoin_from_multiple_addresses,
}

-- What waits for its signatures has the amounts and the receiver that were asked for.
record IsFor (a : Arguments) (l : LegoBitcoin) : Type 0 where
  amount0 : l.amount0 ≡ a.amount0
  amount1 : l.amount1 ≡ a.amount1
  receiver : l.receiver ≡ a.receiver
  paid_by_sender : l.paid_by_sender ≡ a.paid_by_sender

abbrev BuiltFor : Arguments → Built (ℕ × ℕ) LegoBitcoin × UtxoManager → Type 0
BuiltFor a (refused e, m) = Unit
BuiltFor a (ok l, m) = IsFor a l

module _ (w : World) (a : Arguments) where
  transfer_loop-IsFor :
      (fuel total_fee : ℕ) (m : UtxoManager)
      → Gives (transfer_loop w.vsize a fuel total_fee m) (BuiltFor a)
  unfolding transfer_loop
  transfer_loop-IsFor zero total_fee m = tt
  transfer_loop-IsFor (suc fuel) total_fee m =
      let built = build_transaction_with_fee a total_fee m in
      Built-ensures built _ (λ _. Unit) (WhenSome (BuiltFor a)) (Ensures-any built _ (λ _. tt))
        (λ required m' _. tt)
        (λ d m' _.
          let fee = fee_of (w.vsize d.txn) a.fee_per_vbytes in
          elim (Bool-cases (fee == total_fee)) [
            | inl same ↦
                rw same (record {
                  amount0 = refl;
                  amount1 = refl;
                  receiver = refl;
                  paid_by_sender = refl;
                })
            | inr other ↦ rw other (
                transfer_loop-IsFor fuel fee
                  (record_btc_utxos a.addr1 d.utxos1 (record_btc_utxos a.addr0 d.utxos0 m')))
          ])

-- The parts of an amount that fits a word come to the whole.
add64-halves : (amount : ℕ) → amount < u64_size → add64 (halves amount).0 (halves amount).1 ≡ amount
add64-halves amount h = ground arith

lego_outputs-first :
    (l : LegoBitcoin)
    → l.paid_by_sender ≡ true
    → (rest : List TxOut) × (lego_outputs l
        ≡ record { value = add64 l.amount0 l.amount1; script_pubkey = l.receiver.script_pubkey }
          ∷ rest)
unfolding lego_outputs
lego_outputs-first l h = rw h (_, refl)

-- Senders who pay the fee pay the sum of their parts.
lego_txn-Pays :
    (a : Arguments) (amount : ℕ) (l : LegoBitcoin)
    → IsFor a l
    → a.paid_by_sender ≡ true
    → add64 a.amount0 a.amount1 ≡ amount
    → Ensures (lego_txn l) (λ u. Pays amount a.receiver u.txn)
unfolding lego_txn
lego_txn-Pays a amount l h by_sender whole =
    let (rest, paid) = lego_outputs-first l (h.paid_by_sender ∙ by_sender) in
    let first : lego_outputs l
        ≡ record { value = amount; script_pubkey = a.receiver.script_pubkey } ∷ rest =
      rw (← whole, ← h.amount0, ← h.amount1, ← h.receiver) paid in
    Ensures-after (to_inputs l.utxos0) _ _
      (λ input0. Ensures-after (to_inputs l.utxos1) _ _ (λ input1. (rest, first)))

module _ (w : World) (pages rounds : ℕ) (a : Arguments) (amount : ℕ)
    (by_sender : a.paid_by_sender ≡ true) (whole : add64 a.amount0 a.amount1 ≡ amount) where
  abbrev Q : Sent → Type 0
  Q = PaidBy w amount a.receiver

  submit_lego :
      (l : LegoBitcoin) (m : UtxoManager)
      → IsFor a l
      → Gives (submit w pages rounds (lego_bitcoin l) m) Q
  unfolding unsigned_of
  submit_lego l m h =
      submit-Sends w pages rounds (λ spent. PaysOut amount a.receiver) (lego_bitcoin l) m
        (lego_txn-Pays a amount l h by_sender whole)

  transfer_both-IsFor : (m : UtxoManager) → Gives (transfer_both w pages rounds a m) (BuiltFor a)
  unfolding transfer
  transfer_both-IsFor m = transfer_loop-IsFor w a rounds 0 m

  retry_both-PaidBy :
      (synced0 synced1 : Bool) (balance0 balance1 required0 required1 : ℕ) (m : UtxoManager)
      → Gives
          (retry_both w pages rounds a synced0 synced1 balance0 balance1 required0 required1 m)
          Q
  unfolding retry_both
  retry_both-PaidBy synced0 synced1 balance0 balance1 required0 required1 m =
      Gives-after
        (fetch_if w pages rounds (ltb balance0 required0 && not synced0) a.addr0 required0 m) _ Q
        (λ m₁.
          Gives-after
            (fetch_if w pages rounds (ltb balance1 required1 && not synced1) a.addr1 required1 m₁) _
            Q
            (λ m₂.
              elim (Bool-cases (
                is_short_of w pages rounds a.addr0 required0 m₂
                || is_short_of w pages rounds a.addr1 required1 m₂)) [
                  | inl short ↦ rw short tt
                  | inr enough ↦ rw enough (
                      Gives-bind (transfer_both w pages rounds a m₂) _ (BuiltFor a) Q
                        (transfer_both-IsFor m₂) second)
                ]))
    where
      second :
          (x : Built (ℕ × ℕ) LegoBitcoin × UtxoManager)
          → BuiltFor a x
          → Gives
              (elim (x.0) [
                | ok txn ↦ submit w pages rounds (lego_bitcoin txn) x.1
                | refused _ ↦ trap
              ])
              Q
      second (ok l, m₃) h = submit_lego l m₃ h
      second (refused e, m₃) h = tt

  pay_both-PaidBy :
      (synced0 synced1 : Bool) (m : UtxoManager)
      → Gives (pay_both w pages rounds a synced0 synced1 m) Q
  unfolding pay_both
  pay_both-PaidBy synced0 synced1 m =
      Gives-bind (transfer_both w pages rounds a m) _ (BuiltFor a) Q (transfer_both-IsFor m) first
    where
      first :
          (x : Built (ℕ × ℕ) LegoBitcoin × UtxoManager)
          → BuiltFor a x
          → Gives
              (elim (x.0) [
                | ok txn ↦ submit w pages rounds (lego_bitcoin txn) x.1
                | refused (required0, required1) ↦
                    retry_both w pages rounds a synced0 synced1
                      (get_bitcoin_balance a.addr0 m)
                      (get_bitcoin_balance a.addr1 m)
                      required0
                      required1
                      x.1
              ])
              Q
      first (ok l, m₁) h = submit_lego l m₁ h
      first (refused (required0, required1), m₁) h =
          retry_both-PaidBy synced0 synced1 (get_bitcoin_balance a.addr0 m)
            (get_bitcoin_balance a.addr1 m) required0 required1 m₁

  -- The fetches that are due, and then the payment.
  sync_and_pay-PaidBy :
      (synced0 synced1 : Bool) (m : UtxoManager)
      → Gives
          (◌>>=◌ (fetch_if w pages rounds synced0 a.addr0 a.amount0 m) (λ m₁.
            ◌>>=◌ (fetch_if w pages rounds synced1 a.addr1 a.amount1 m₁) (λ m₂.
              if is_short_of w pages rounds a.addr0 a.amount0 m₂
                || is_short_of w pages rounds a.addr1 a.amount1 m₂
              then trap
              else pay_both w pages rounds a synced0 synced1 m₂)))
          Q
  sync_and_pay-PaidBy synced0 synced1 m =
      Gives-after (fetch_if w pages rounds synced0 a.addr0 a.amount0 m) _ Q (λ m₁.
        Gives-after (fetch_if w pages rounds synced1 a.addr1 a.amount1 m₁) _ Q (λ m₂.
          elim (Bool-cases (
            is_short_of w pages rounds a.addr0 a.amount0 m₂
            || is_short_of w pages rounds a.addr1 a.amount1 m₂)) [
              | inl short ↦ rw short tt
              | inr enough ↦ rw enough (pay_both-PaidBy synced0 synced1 m₂)
            ]))

module _ (w : World) (pages rounds : ℕ) where
  -- When a withdrawal that two addresses pay for, of an amount that fits a word and to an address that
  -- can be read, returns, the network was handed one transaction during the call and no other, and
  -- took it: its first output pays the whole amount to the script of the address, and the identifier
  -- that the call gives is of this transaction. This holds whatever the record, the ledger, the
  -- indexer and the fee are, and on the second try too.
  pub withdraw_bitcoin_from_multiple_addresses-PaidBy :
      (caller principal0 : Principal) (to : Addr) (receiver : Address) (amount : ℕ) (fee : Option ℕ)
      (m : UtxoManager)
      → w.address_validation to ≡ some receiver
      → amount < u64_size
      → Gives
          (withdraw_bitcoin_from_multiple_addresses w pages rounds caller principal0 to amount fee
            m)
          (PaidBy w amount receiver)
  unfolding withdraw_bitcoin_from_multiple_addresses
  withdraw_bitcoin_from_multiple_addresses-PaidBy caller principal0 to receiver amount fee m known
        fits =
      let addresses0 = w.addresses principal0 in
      let addresses1 = w.addresses caller in
      let Q = PaidBy w amount receiver in
      Gives-after (expect (w.address_validation addresses0.bitcoin)) _ Q (λ address0.
        Gives-after (expect (w.address_validation addresses1.bitcoin)) _ Q (λ address1. rw known (
          Gives-after (fee_or_ask w pages rounds fee) _ Q (λ fee_per_vbytes.
            let a =
              arguments addresses0 addresses1 address0 address1 receiver amount fee_per_vbytes in
            sync_and_pay-PaidBy w pages rounds a amount refl (add64-halves amount fits)
              (is_short_of w pages rounds a.addr0 a.amount0 m)
              (is_short_of w pages rounds a.addr1 a.amount1 m) m))))
