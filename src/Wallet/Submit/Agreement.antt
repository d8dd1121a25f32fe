-- ===== src/Wallet/Submit/Agreement.antt =====
-- The handler builds again the transaction that the fee was computed for.
use ord_indexer.Base.{
  ℕ, ◌+◌, ◌<◌, ◌≡◌, refl, List, ◌++◌, ltb, leb, ◌||◌, if◌then◌else◌, done, Bool-cases, inl, inr,
  add64, sub64, u64_size, arith,
}
use ord_indexer.Bitcoin.{ScriptBuf, Transaction}
use ord_indexer.Runes.{Runestone}
use ord_indexer.Wallet.Utxos.{UtxoManager, fold_value}
use ord_indexer.Wallet.Select.{pick, pick_runic}
use ord_indexer.Wallet.Txn.{ok, to_inputs}
use ord_indexer.Wallet.RuneOutputs.{required_btc_for_rune_output, need_change_rune_output, plain}
use ord_indexer.Wallet.MultiSend
use ord_indexer.Wallet.RuneTransfer
use ord_indexer.Wallet.Submit.{signers_of, lego_outputs, lego_txn, runestone_txn}
use ord_indexer.Wallet.Submit.Sums.{pick-sum, pick_runic-sum}
use ord_indexer.Wallet.Submit.IfOk.{IfOk, IfOk-bind, IfOk-unwrap, IfOk-ok}

module _ (a : MultiSend.Arguments) (fee : ℕ) where
  abbrev pub HasLego : MultiSend.Draft → Type 0
  HasLego d =
      lego_txn (MultiSend.lego_of a fee d)
      ≡ done (record {
        txn = d.txn;
        signers =
            signers_of d.utxos0 (a.address0, a.account0)
            ++ signers_of d.utxos1 (a.address1, a.account1);
      })

  lego-outputs_of :
      (us0 us1 : List _) (tx : Transaction) (sum0 sum1 : ℕ)
      → fee < u64_size
      → fold_value 0 us0 ≡ sum0
      → fold_value 0 us1 ≡ sum1
      → lego_outputs (MultiSend.lego_of a fee (record { txn = tx; utxos0 = us0; utxos1 = us1 }))
        ≡ MultiSend.outputs_of a fee sum0 sum1
  unfolding lego_outputs MultiSend.outputs_of
  lego-outputs_of us0 us1 tx sum0 sum1 fits e0 e1 =
      let halves : (MultiSend.fee_halves fee).0 + (MultiSend.fee_halves fee).1 ≡ fee =
        ground arith in
      let sent = add64 a.amount0 a.amount1 in
      let (fee0, fee1) = MultiSend.fee_halves fee in
      let paid : sub64 sent fee ≡ sub64 (sub64 sent fee0) fee1 = omega arith in
      rw (e0, e1, paid) refl

  build-HasLego :
      (m : UtxoManager)
      → fee < u64_size
      → IfOk (MultiSend.build_transaction_with_fee a fee m) HasLego
  unfolding MultiSend.build_transaction_with_fee lego_txn
  build-HasLego m fits =
      let (total0, total1) = MultiSend.total_amounts a fee in
      IfOk-unwrap (pick (λ sum. leb total0 sum) a.addr0 m) _ HasLego (λ p0 runs0.
        IfOk-unwrap (pick (λ sum. leb total1 sum) a.addr1 p0.manager) _ HasLego (λ p1 runs1.
          elim (Bool-cases (ltb p0.sum total0 || ltb p1.sum total1)) [
            | inl short ↦ rw short tt
            | inr enough ↦ rw enough (
                IfOk-bind (to_inputs p0.utxos) _ HasLego (λ input0 e0.
                  IfOk-bind (to_inputs p1.utxos) _ HasLego (λ input1 e1.
                    rw
                      (
                        e0,
                        e1,
                        lego-outputs_of p0.utxos p1.utxos _ p0.sum p1.sum fits
                            (pick-sum _ a.addr0 m p0 runs0)
                            (pick-sum _ a.addr1 p0.manager p1 runs1),
                      )
                      refl)))
          ]))

  -- A transaction that the builder gives, with a fee that fits a word, is the one that the handler
  -- builds from what is left of it, each input with the signer whose output it spends.
  pub lego_txn-build_transaction_with_fee :
      (m m' : UtxoManager) (d : MultiSend.Draft)
      → fee < u64_size
      → MultiSend.build_transaction_with_fee a fee m ≡ done (ok d, m')
      → HasLego d
  lego_txn-build_transaction_with_fee m m' d fits built =
      IfOk-ok (MultiSend.build_transaction_with_fee a fee m) HasLego d m' (build-HasLego m fits)
        built

module _ (encipher : Runestone → ScriptBuf) (a : RuneTransfer.Arguments) (fee postage : ℕ) where
  abbrev pub HasRunestone : RuneTransfer.Draft → Type 0
  HasRunestone d =
      runestone_txn encipher (RuneTransfer.runestone_of encipher a fee postage d)
      ≡ done (record {
        txn = d.txn;
        signers =
            signers_of d.runic_utxos (a.sender_address, a.sender_account)
            ++ signers_of d.fee_utxos (
                if a.paid_by_sender
                then (a.sender_address, a.sender_account)
                else (a.receiver_address, a.receiver_account));
      })

  build-HasRunestone :
      (m : UtxoManager)
      → IfOk (RuneTransfer.build_transaction_with_fee encipher a fee postage m) HasRunestone
  unfolding RuneTransfer.build_transaction_with_fee RuneTransfer.build_with_runes runestone_txn
  build-HasRunestone m =
      IfOk-unwrap (pick_runic (λ sum. ltb a.amount sum) a.sender_addr a.runeid m) _ HasRunestone
        (λ r runs.
          let need_change = need_change_rune_output r.sum a.amount r.utxos in
          let (balance, btc) = pick_runic-sum _ a.sender_addr a.runeid m r runs in
          elim (Bool-cases (ltb r.sum a.amount)) [
            | inl short ↦ rw short tt
            | inr enough ↦ rw enough (
                IfOk-bind (required_btc_for_rune_output need_change postage) _ HasRunestone
                  (λ required e.
                    let need = add64 fee (sub64 required r.btc) in
                    IfOk-unwrap (pick (λ sum. ltb need sum) (RuneTransfer.fee_payer a) r.manager) _
                      HasRunestone
                      (λ p runs'. elim (Bool-cases (ltb p.sum need)) [
                        | inl poor ↦ rw poor tt
                        | inr rich ↦ rw rich (
                            IfOk-bind (to_inputs (plain r.utxos)) _ HasRunestone (λ input0 e0.
                              IfOk-bind (to_inputs p.utxos) _ HasRunestone (λ input1 e1.
                                rw
                                  (
                                    e0,
                                    balance,
                                    e,
                                    e1,
                                    btc,
                                    pick-sum _ (RuneTransfer.fee_payer a) r.manager p runs',
                                  )
                                  refl)))
                      ])))
          ])

  -- A transaction that the builder gives is the one that the handler builds from what is left of it,
  -- each input with the signer whose output it spends.
  pub runestone_txn-build_transaction_with_fee :
      (m m' : UtxoManager) (d : RuneTransfer.Draft)
      → RuneTransfer.build_transaction_with_fee encipher a fee postage m ≡ done (ok d, m')
      → HasRunestone d
  runestone_txn-build_transaction_with_fee m m' d built =
      IfOk-ok (RuneTransfer.build_transaction_with_fee encipher a fee postage m) HasRunestone d m'
        (build-HasRunestone m) built
