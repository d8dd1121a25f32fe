-- ===== src/Wallet/Submit/Combining.antt =====
-- The handler builds again the combined transaction that the fee was computed for.
use ord_indexer.Base.{
  ℕ, ◌≡◌, refl, false, ◌++◌, ltb, if◌then◌else◌, done, Bool-cases, inl, inr, add64, sub64,
}
use ord_indexer.Bitcoin.{ScriptBuf}
use ord_indexer.Runes.{Runestone}
use ord_indexer.Wallet.Utxos.{UtxoManager, fold_value, fold_balance}
use ord_indexer.Wallet.Select.{Picked, RunicPicked, pick, pick_runic}
use ord_indexer.Wallet.Txn.{ok, to_inputs}
use ord_indexer.Wallet.RuneOutputs.{required_btc_for_rune_output, need_change_rune_output, plain}
use ord_indexer.Wallet.Combined
use ord_indexer.Wallet.Submit.{signers_of, fold_btc, combined_outputs, combined_txn}
use ord_indexer.Wallet.Submit.Sums.{pick-sum, pick_runic-sum}
use ord_indexer.Wallet.Submit.IfOk.{IfOk, IfOk-bind, IfOk-unwrap, IfOk-ok, IfOk-built}

module _ (encipher : Runestone → ScriptBuf) (a : Combined.Request) (fee postage : ℕ) where
  abbrev pub HasCombined : Combined.Draft → Type 0
  HasCombined d =
      combined_txn encipher (Combined.combined_of encipher a fee postage d)
      ≡ done (record {
        txn = d.txn;
        signers =
            signers_of d.runic_utxos (a.sender_address, a.sender_account)
            ++ signers_of d.btc_utxos (a.sender_address, a.sender_account)
            ++ signers_of d.fee_utxos (
                if a.paid_by_sender
                then (a.sender_address, a.sender_account)
                else (a.receiver_address, a.receiver_account));
      })

  -- The fee outputs, if they are picked, with their sum.
  pick_fees-sum :
      (actual total : ℕ) (m : UtxoManager)
      → IfOk (Combined.pick_fees a fee actual total m) (λ f. fold_value 0 f.utxos ≡ f.sum)
  unfolding Combined.pick_fees fold_value
  pick_fees-sum actual total m = elim (Bool-cases a.paid_by_sender) [
    | inl sender ↦
        let floor = sub64 (sub64 a.btc_amount actual) fee in
        elim (Bool-cases (ltb total floor)) [
          | inl short ↦ rw (sender, short) tt
          | inr enough ↦ rw (sender, enough) refl
        ]
    | inr receiver ↦
        let need = add64 fee actual in
        rw receiver (
          IfOk-unwrap (pick (λ sum. ltb need sum) a.receiver_addr m) _ _ (λ p runs.
            elim (Bool-cases (ltb p.sum need)) [
              | inl short ↦ rw short tt
              | inr enough ↦ rw enough (pick-sum _ a.receiver_addr m p runs)
            ]))
  ]

  build_with_btc-HasCombined :
      (r : RunicPicked) (b : Picked)
      → fold_balance 0 r.utxos ≡ r.sum
      → fold_btc 0 r.utxos ≡ r.btc
      → fold_value 0 b.utxos ≡ b.sum
      → IfOk (Combined.build_with_btc encipher a fee postage r b) HasCombined
  unfolding Combined.build_with_btc Combined.outputs_of combined_txn combined_outputs
  build_with_btc-HasCombined r b balance btc value =
      let need_change = need_change_rune_output r.sum a.rune_amount r.utxos in
      IfOk-bind (required_btc_for_rune_output need_change postage) _ HasCombined (λ required e.
        let actual = sub64 required r.btc in
        IfOk-built (Combined.pick_fees a fee actual b.sum b.manager) _
          (λ f. fold_value 0 f.utxos ≡ f.sum) HasCombined (pick_fees-sum actual b.sum b.manager)
          (λ e m'. tt)
          (λ f m' fees. IfOk-bind (to_inputs (plain r.utxos)) _ HasCombined (λ input0 e0.
            IfOk-bind (to_inputs b.utxos) _ HasCombined (λ input1 e1.
              IfOk-bind (to_inputs f.utxos) _ HasCombined
                (λ input2 e2. rw (e0, e1, e2, balance, e, btc, value, fees) refl)))))

  build-HasCombined :
      (m : UtxoManager)
      → IfOk (Combined.build_transaction_with_fee encipher a fee postage m) HasCombined
  unfolding Combined.build_transaction_with_fee
  build-HasCombined m =
      IfOk-unwrap (pick_runic (λ sum. false) a.from_addr a.runeid m) _ HasCombined (λ r runs.
        let (balance, btc) = pick_runic-sum _ a.from_addr a.runeid m r runs in
        elim (Bool-cases (ltb r.sum a.rune_amount)) [
          | inl short ↦ rw short tt
          | inr enough ↦ rw enough (
              IfOk-unwrap (pick (λ sum. ltb a.btc_amount sum) a.from_addr r.manager) _ HasCombined
                (λ b runs'. elim (Bool-cases (ltb b.sum a.btc_amount)) [
                  | inl poor ↦ rw poor tt
                  | inr rich ↦ rw rich (
                      build_with_btc-HasCombined r b balance btc
                        (pick-sum _ a.from_addr r.manager b runs'))
                ]))
        ])

  -- A transaction that the builder gives is the one that the handler builds from what is left of it,
  -- each input with the signer whose output it spends.
  pub combined_txn-build_transaction_with_fee :
      (m m' : UtxoManager) (d : Combined.Draft)
      → Combined.build_transaction_with_fee encipher a fee postage m ≡ done (ok d, m')
      → HasCombined d
  combined_txn-build_transaction_with_fee m m' d built =
      IfOk-ok (Combined.build_transaction_with_fee encipher a fee postage m) HasCombined d m'
        (build-HasCombined m) built
