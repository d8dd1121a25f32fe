-- ===== src/Wallet/RuneTransfer.antt =====
-- A transfer of a rune (wallet/src/bitcoin/runestone.rs).
pub mod Spec
pub mod Whole
pub mod Heavy
mod Tests
use ord_indexer.Base.{
  ℕ, zero, suc, Bool, true, false, Option, none, some, List, [], ◌∷◌, ◌++◌, ltb, ◌==◌,
  if◌then◌else◌, Outcome, done, panic, ◌>>=◌, unwrap, add64, sub64,
}
use ord_indexer.Bitcoin.{ScriptBuf, TxOut, Transaction}
use ord_indexer.Runes.{RuneId, Runestone}
use ord_indexer.Wallet.Utxos.{
  Addr, Utxo, RunicUtxo, UtxoManager, record_btc_utxos, record_runic_utxos,
}
use ord_indexer.Wallet.Select.{Picked, RunicPicked, pick, pick_runic}
use ord_indexer.Wallet.Txn.{Address, Built, ok, refused, dust_threshold, to_inputs, txn_of, fee_of}
use ord_indexer.Wallet.Kinds.{Account, RunestoneTransfer}
use ord_indexer.Wallet.RuneOutputs.{
  postage_or_default, need_change_rune_output, required_btc_for_rune_output, rune_outputs, plain,
}

-- `RuneTransferArgs`
pub record Arguments : Type 0 where
  pub runeid : RuneId
  pub amount : ℕ
  pub sender_addr : Addr
  pub receiver_addr : Addr
  pub sender_account : Account
  pub receiver_account : Account
  pub sender_address : Address
  pub receiver_address : Address
  pub fee_per_vbytes : ℕ
  pub paid_by_sender : Bool
  pub postage : Option ℕ

abbrev pub fee_payer : Arguments → Addr
fee_payer a = if a.paid_by_sender then a.sender_addr else a.receiver_addr

abbrev pub payer_address : Arguments → Address
payer_address a = if a.paid_by_sender then a.sender_address else a.receiver_address

-- What a round builds: the transaction, and the outputs that it spends.
pub record Draft : Type 0 where
  pub txn : Transaction
  pub runic_utxos : List RunicUtxo
  pub fee_utxos : List Utxo

module _ (encipher : Runestone → ScriptBuf) where
  abbrev pub outputs_of : Arguments → Bool → ℕ → ℕ → List TxOut
  outputs_of a need_change postage remaining =
      rune_outputs encipher a.runeid a.amount need_change a.sender_address a.receiver_address
        postage
      ++ (if ltb dust_threshold remaining
          then record { value = remaining; script_pubkey = (payer_address a).script_pubkey } ∷ []
          else [])

  -- `build_transaction_with_fee` after the runic outputs are picked
  unfoldable pub build_with_runes :
      Arguments → ℕ → ℕ → RunicPicked → Outcome (Built (ℕ × ℕ) Draft × UtxoManager)
  build_with_runes a fee postage r =
      let need_change = need_change_rune_output r.sum a.amount r.utxos in
      required_btc_for_rune_output need_change postage >>= λ required.
      let actual_required_btc = sub64 required r.btc in
      let need = add64 fee actual_required_btc in
      unwrap (pick (λ sum. ltb need sum) (fee_payer a) r.manager) >>= λ p.
      if ltb p.sum need
      then done (refused (0, fee), record_btc_utxos (fee_payer a) p.utxos p.manager)
      else (do
        runic_input ← to_inputs (plain r.utxos)
        fee_input ← to_inputs p.utxos
        let remaining = sub64 (sub64 p.sum fee) actual_required_btc
        let txn = txn_of (runic_input ++ fee_input) (outputs_of a need_change postage remaining)
        done (ok (record { txn = txn; runic_utxos = r.utxos; fee_utxos = p.utxos }), p.manager))

  -- `build_transaction_with_fee`
  unfoldable pub build_transaction_with_fee :
      Arguments → ℕ → ℕ → UtxoManager → Outcome (Built (ℕ × ℕ) Draft × UtxoManager)
  unfolding build_with_runes
  build_transaction_with_fee a fee postage m =
      unwrap (pick_runic (λ sum. ltb a.amount sum) a.sender_addr a.runeid m) >>= λ r.
      if ltb r.sum a.amount
      then done (refused (a.amount, 0), record_runic_utxos a.sender_addr a.runeid r.utxos r.manager)
      else build_with_runes a fee postage r

  -- The value that waits for its signatures.
  abbrev pub runestone_of : Arguments → ℕ → ℕ → Draft → RunestoneTransfer
  runestone_of a fee postage d = record {
    sender_addr = a.sender_addr;
    receiver_addr = a.receiver_addr;
    sender_account = a.sender_account;
    receiver_account = a.receiver_account;
    runeid = a.runeid;
    amount = a.amount;
    fee = fee;
    runic_utxos = d.runic_utxos;
    fee_utxos = d.fee_utxos;
    paid_by_sender = a.paid_by_sender;
    sender_address = a.sender_address;
    receiver_address = a.receiver_address;
    postage = postage;
  }

  -- `transfer`, whose loop takes fuel: without it the result is none.
  module _ (vsize : Transaction → ℕ) (a : Arguments) where
    unfoldable pub transfer_loop :
        ℕ → ℕ → ℕ → UtxoManager → Outcome (Option (Built (ℕ × ℕ) RunestoneTransfer × UtxoManager))
    transfer_loop zero total_fee postage m = done none
    transfer_loop (suc fuel) total_fee postage m =
        build_transaction_with_fee a total_fee postage m >>= λ (built, m'). elim built [
          | refused required ↦ done (some (refused required, m'))
          | ok d ↦
              let fee = fee_of (vsize d.txn) a.fee_per_vbytes in
              let back =
                record_btc_utxos (fee_payer a) d.fee_utxos
                  (record_runic_utxos a.sender_addr a.runeid d.runic_utxos m') in
              let rest = transfer_loop fuel fee postage back in
              if fee == total_fee
              then done (some (ok (runestone_of a total_fee postage d), m'))
              else rest
        ]

    unfoldable pub transfer :
        ℕ → UtxoManager → Outcome (Option (Built (ℕ × ℕ) RunestoneTransfer × UtxoManager))
    unfolding transfer_loop
    transfer fuel m = transfer_loop fuel 0 (postage_or_default a.postage) m
