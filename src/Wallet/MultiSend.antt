-- ===== src/Wallet/MultiSend.antt =====
-- A payment in bitcoin from two addresses (wallet/src/bitcoin/multi_sender_txn.rs).
mod Amounts
pub mod Spec
mod Tests
use ord_indexer.Base.{
  ℕ, zero, suc, ◌+◌, ◌-◌, ◌/◌, ◌%◌, Bool, true, false, Option, none, some, List, [], ◌∷◌, ◌++◌, ltb,
  leb, ◌==◌, ◌||◌, if◌then◌else◌, Outcome, done, panic, ◌>>=◌, unwrap, add64, sub64,
}
use ord_indexer.Bitcoin.{ScriptBuf, TxOut, Transaction}
use ord_indexer.Wallet.Utxos.{Addr, Utxo, UtxoManager, record_btc_utxos}
use ord_indexer.Wallet.Select.{Picked, pick}
use ord_indexer.Wallet.Txn.{Address, Built, ok, refused, dust_threshold, to_inputs, txn_of, fee_of}
use ord_indexer.Wallet.Kinds.{Account, LegoBitcoin}

-- `MultiSendTransactionArgument`
pub record Arguments : Type 0 where
  pub addr0 : Addr
  pub addr1 : Addr
  pub address0 : Address
  pub address1 : Address
  pub receiver : Address
  pub account0 : Account
  pub account1 : Account
  pub amount0 : ℕ
  pub amount1 : ℕ
  pub fee_per_vbytes : ℕ
  pub paid_by_sender : Bool

-- The two halves of a fee: of an odd one the second is the larger.
abbrev pub fee_halves : ℕ → ℕ × ℕ
fee_halves fee =
    if fee % 2 == 0 then (fee / 2, fee / 2) else ((fee - 1) / 2, add64 ((fee - 1) / 2) 1)

-- What each sender's outputs have to cover.
abbrev pub total_amounts : Arguments → ℕ → ℕ × ℕ
total_amounts a fee =
    let (fee0, fee1) = fee_halves fee in
    if a.paid_by_sender
    then (add64 a.amount0 fee0, add64 a.amount1 fee1)
    else (a.amount0, a.amount1)

-- The change of a sender, unless it is dust.
abbrev pub change : Address → ℕ → List TxOut
change address remaining =
    if ltb dust_threshold remaining
    then record { value = remaining; script_pubkey = address.script_pubkey } ∷ []
    else []

unfoldable pub outputs_of : Arguments → ℕ → ℕ → ℕ → List TxOut
outputs_of a fee total_spent0 total_spent1 =
    let (fee0, fee1) = fee_halves fee in
    let (total_amount0, total_amount1) = total_amounts a fee in
    let sent = add64 a.amount0 a.amount1 in
    record {
      value = if a.paid_by_sender then sent else sub64 (sub64 sent fee0) fee1;
      script_pubkey = a.receiver.script_pubkey;
    }
      ∷ change a.address0 (sub64 total_spent0 total_amount0)
    ++ change a.address1 (sub64 total_spent1 total_amount1)

-- What a round builds: the transaction, and the outputs that it spends of each sender.
pub record Draft : Type 0 where
  pub txn : Transaction
  pub utxos0 : List Utxo
  pub utxos1 : List Utxo

-- `build_transaction_with_fee`
unfoldable pub build_transaction_with_fee :
    Arguments → ℕ → UtxoManager → Outcome (Built (ℕ × ℕ) Draft × UtxoManager)
build_transaction_with_fee a fee m =
    let (total_amount0, total_amount1) = total_amounts a fee in
    unwrap (pick (λ sum. leb total_amount0 sum) a.addr0 m) >>= λ p0.
    unwrap (pick (λ sum. leb total_amount1 sum) a.addr1 p0.manager) >>= λ p1.
    if ltb p0.sum total_amount0 || ltb p1.sum total_amount1
    then done (
      refused (total_amount0, total_amount1),
      record_btc_utxos a.addr1 p1.utxos (record_btc_utxos a.addr0 p0.utxos p1.manager),
    )
    else (do
      input0 ← to_inputs p0.utxos
      input1 ← to_inputs p1.utxos
      let txn = txn_of (input0 ++ input1) (outputs_of a fee p0.sum p1.sum)
      done (ok (record { txn = txn; utxos0 = p0.utxos; utxos1 = p1.utxos }), p1.manager))

-- The value that waits for its signatures.
abbrev pub lego_of : Arguments → ℕ → Draft → LegoBitcoin
lego_of a fee d = record {
  addr0 = a.addr0;
  addr1 = a.addr1;
  account0 = a.account0;
  account1 = a.account1;
  address0 = a.address0;
  address1 = a.address1;
  utxos0 = d.utxos0;
  utxos1 = d.utxos1;
  amount0 = a.amount0;
  amount1 = a.amount1;
  fee = fee;
  paid_by_sender = a.paid_by_sender;
  receiver = a.receiver;
}

-- `transfer`, whose loop takes fuel: without it the result is none.
module _ (vsize : Transaction → ℕ) (a : Arguments) where
  unfoldable pub transfer_loop :
      ℕ → ℕ → UtxoManager → Outcome (Option (Built (ℕ × ℕ) LegoBitcoin × UtxoManager))
  transfer_loop zero total_fee m = done none
  transfer_loop (suc fuel) total_fee m = build_transaction_with_fee a total_fee m >>= λ (built, m').
      elim built [
        | refused required ↦ done (some (refused required, m'))
        | ok d ↦
            let fee = fee_of (vsize d.txn) a.fee_per_vbytes in
            let back = record_btc_utxos a.addr1 d.utxos1 (record_btc_utxos a.addr0 d.utxos0 m') in
            let rest = transfer_loop fuel fee back in
            if fee == total_fee then done (some (ok (lego_of a total_fee d), m')) else rest
      ]

  unfoldable pub transfer :
      ℕ → UtxoManager → Outcome (Option (Built (ℕ × ℕ) LegoBitcoin × UtxoManager))
  unfolding transfer_loop
  transfer fuel m = transfer_loop fuel 0 m
