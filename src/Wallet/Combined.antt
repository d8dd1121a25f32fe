-- ===== src/Wallet/Combined.antt =====
-- A transfer of a rune and of bitcoin in one transaction (wallet/src/bitcoin/combined_txn.rs).
use ord_indexer.Base.{
  ℕ, zero, suc, Bool, false, Option, none, some, List, [], ◌∷◌, ◌++◌, ltb, ◌==◌, if◌then◌else◌,
  Outcome, done, ◌>>=◌, unwrap, add64, sub64,
}
use ord_indexer.Bitcoin.{ScriptBuf, TxOut, Transaction}
use ord_indexer.Runes.{RuneId, Runestone}
use ord_indexer.Wallet.Utxos.{
  Addr, Utxo, RunicUtxo, UtxoManager, record_btc_utxos, record_runic_utxos,
}
use ord_indexer.Wallet.Select.{Picked, RunicPicked, pick, pick_runic}
use ord_indexer.Wallet.Txn.{Address, Built, ok, refused, dust_threshold, to_inputs, txn_of, fee_of}
use ord_indexer.Wallet.Kinds.{Account, Combined}
use ord_indexer.Wallet.RuneOutputs.{
  postage_or_default, need_change_rune_output, required_btc_for_rune_output, rune_outputs, plain,
}

-- `CombinedTransactionRequest`
pub record Request : Type 0 where
  pub from_addr : Addr
  pub receiver_addr : Addr
  pub sender_address : Address
  pub receiver_address : Address
  pub runeid : RuneId
  pub rune_amount : ℕ
  pub btc_amount : ℕ
  pub sender_account : Account
  pub receiver_account : Account
  pub postage : Option ℕ
  pub fee_per_vbytes : ℕ
  pub paid_by_sender : Bool

-- What a round builds: the transaction, and the outputs that it spends.
pub record Draft : Type 0 where
  pub txn : Transaction
  pub runic_utxos : List RunicUtxo
  pub btc_utxos : List Utxo
  pub fee_utxos : List Utxo

abbrev pub change : Address → ℕ → List TxOut
change address remaining =
    if ltb dust_threshold remaining
    then record { value = remaining; script_pubkey = address.script_pubkey } ∷ []
    else []

-- The outputs that pick the fee: none for a sender who pays, since the sender's are picked already.
abbrev pub Fees : Type 0
Fees = Built (ℕ × ℕ × ℕ) Picked × UtxoManager

unfoldable pub pick_fees : Request → ℕ → ℕ → ℕ → UtxoManager → Outcome Fees
pick_fees a fee actual_required_btc btc_total_spent m =
    let need = add64 fee actual_required_btc in
    if a.paid_by_sender
    then (if ltb btc_total_spent (sub64 (sub64 a.btc_amount actual_required_btc) fee)
        then done
            (refused (a.rune_amount, add64 (add64 a.btc_amount actual_required_btc) fee, 0), m)
        else done (ok (record { utxos = []; sum = 0; manager = m }), m))
    else unwrap (pick (λ sum. ltb need sum) a.receiver_addr m) >>= λ p.
        if ltb p.sum need
        then done (
          refused (a.rune_amount, a.btc_amount, need),
          record_btc_utxos a.receiver_addr p.utxos p.manager,
        )
        else done (ok p, p.manager)

module _ (encipher : Runestone → ScriptBuf) where
  unfoldable pub outputs_of : Request → ℕ → ℕ → Bool → ℕ → ℕ → ℕ → List TxOut
  outputs_of a fee postage need_change actual_required_btc btc_total_spent fee_total_spent =
      rune_outputs encipher a.runeid a.rune_amount need_change a.sender_address a.receiver_address
        postage
      ++ record { value = a.btc_amount; script_pubkey = a.receiver_address.script_pubkey }
        ∷ (if a.paid_by_sender
            then change a.sender_address
                (sub64 (sub64 (sub64 btc_total_spent a.btc_amount) fee) actual_required_btc)
            else change a.sender_address (sub64 btc_total_spent a.btc_amount)
              ++ change a.receiver_address (sub64 (sub64 fee_total_spent fee) actual_required_btc))

  -- `build_transaction_with_fee` after the runic outputs and the sender's are picked
  unfoldable pub build_with_btc :
      Request → ℕ → ℕ → RunicPicked → Picked → Outcome (Built (ℕ × ℕ × ℕ) Draft × UtxoManager)
  unfolding pick_fees outputs_of
  build_with_btc a fee postage r b =
      let need_change = need_change_rune_output r.sum a.rune_amount r.utxos in
      required_btc_for_rune_output need_change postage >>= λ required.
      let actual_required_btc = sub64 required r.btc in
      pick_fees a fee actual_required_btc b.sum b.manager >>= λ (picked, m'). elim picked [
        | refused e ↦ done (refused e, m')
        | ok f ↦ do
          runic_input ← to_inputs (plain r.utxos)
          btc_input ← to_inputs b.utxos
          fee_input ← to_inputs f.utxos
          let output = outputs_of a fee postage need_change actual_required_btc b.sum f.sum
          done (
            ok (record {
              txn = txn_of (runic_input ++ btc_input ++ fee_input) output;
              runic_utxos = r.utxos;
              btc_utxos = b.utxos;
              fee_utxos = f.utxos;
            }),
            m',
          )
      ]

  -- `build_transaction_with_fee`. The runic outputs are picked to the last one.
  unfoldable pub build_transaction_with_fee :
      Request → ℕ → ℕ → UtxoManager → Outcome (Built (ℕ × ℕ × ℕ) Draft × UtxoManager)
  unfolding build_with_btc
  build_transaction_with_fee a fee postage m =
      let required : ℕ × ℕ × ℕ = (a.rune_amount, a.btc_amount, fee) in
      unwrap (pick_runic (λ sum. false) a.from_addr a.runeid m) >>= λ r.
      if ltb r.sum a.rune_amount
      then done (refused required, record_runic_utxos a.from_addr a.runeid r.utxos r.manager)
      else (unwrap (pick (λ sum. ltb a.btc_amount sum) a.from_addr r.manager) >>= λ b.
          if ltb b.sum a.btc_amount
          then done (refused required, record_btc_utxos a.from_addr b.utxos b.manager)
          else build_with_btc a fee postage r b)

  -- The value that waits for its signatures.
  abbrev pub combined_of : Request → ℕ → ℕ → Draft → Combined
  combined_of a fee postage d = record {
    sender_addr = a.from_addr;
    receiver_addr = a.receiver_addr;
    sender_address = a.sender_address;
    receiver_address = a.receiver_address;
    sender_account = a.sender_account;
    receiver_account = a.receiver_account;
    runic_utxos = d.runic_utxos;
    btc_utxos = d.btc_utxos;
    fee_utxos = d.fee_utxos;
    runeid = a.runeid;
    rune_amount = a.rune_amount;
    btc_amount = a.btc_amount;
    fee = fee;
    postage = postage;
    paid_by_sender = a.paid_by_sender;
  }

  -- `transfer`, whose loop takes fuel: without it the result is none.
  module _ (vsize : Transaction → ℕ) (a : Request) where
    unfoldable pub transfer_loop :
        ℕ → ℕ → ℕ → UtxoManager → Outcome (Option (Built (ℕ × ℕ × ℕ) Combined × UtxoManager))
    transfer_loop zero total_fee postage m = done none
    transfer_loop (suc fuel) total_fee postage m =
        build_transaction_with_fee a total_fee postage m >>= λ (built, m'). elim built [
          | refused required ↦ done (some (refused required, m'))
          | ok d ↦
              let fee = fee_of (vsize d.txn) a.fee_per_vbytes in
              let back = record_btc_utxos a.receiver_addr d.fee_utxos (
                record_btc_utxos a.from_addr d.btc_utxos
                  (record_runic_utxos a.from_addr a.runeid d.runic_utxos m')) in
              let rest = transfer_loop fuel fee postage back in
              if fee == total_fee
              then done (some (ok (combined_of a total_fee postage d), m'))
              else rest
        ]

    unfoldable pub transfer :
        ℕ → UtxoManager → Outcome (Option (Built (ℕ × ℕ × ℕ) Combined × UtxoManager))
    unfolding transfer_loop
    transfer fuel m = transfer_loop fuel 0 (postage_or_default a.postage) m
