-- ===== src/Wallet/Submit.antt =====
-- Building again, signing and sending what a transfer left (`TransactionType::build_and_submit` of
-- wallet/src/transaction_handler.rs).
pub mod Sums
mod IfOk
pub mod Agreement
pub mod Combining
pub mod Signed
mod Tests
use ord_indexer.Base.{
  ℕ, zero, suc, ◌+◌, ◌-◌, ◌/◌, ◌%◌, Bool, true, false, Option, none, some, List, [], ◌∷◌, ◌++◌,
  length, ltb, ◌==◌, ◌||◌, not, if◌then◌else◌, Outcome, done, panic, ◌>>=◌, unwrap, add64, sub64,
  add128, ite, ℕ_discrete,
}
use ord_indexer.Bitcoin.{ScriptBuf, TxIn, TxOut, Transaction}
use ord_indexer.Runes.{RuneId, Runestone}
use ord_indexer.Wallet.Utxos.{Addr, Utxo, RunicUtxo, fold_value, fold_balance}
use ord_indexer.Wallet.Txn.{Address, dust_threshold, to_inputs, txn_of}
use ord_indexer.Wallet.Kinds.{
  Account, Bitcoin, LegoBitcoin, RunestoneTransfer, Combined, TransactionType, bitcoin,
  lego_bitcoin, runestone, combined,
}
use ord_indexer.Wallet.RuneOutputs.{
  need_change_rune_output, required_btc_for_rune_output, rune_outputs, plain,
}
use ord_indexer.Wallet.Signer.{DerivationPath, Crypto, account_to_derivation_path, unlocking_script}

-- An address with the account that signs for it.
abbrev pub Signer : Type 0
Signer = Address × Account

-- A transaction before it is signed, with the signer of each input.
pub record Unsigned : Type 0 where
  pub txn : Transaction
  pub signers : List Signer

-- Each input is signed by one of two: the indices that are pushed beside the inputs are those of a
-- prefix, or of a suffix, and stand here as one signer per input.
abbrev pub signers_of {ℓ} : {A : Type ℓ} → List A → Signer → List Signer
signers_of [] s = []
signers_of (x ∷ xs) s = s ∷ signers_of xs s

abbrev pub change : Address → ℕ → List TxOut
change address remaining =
    if ltb dust_threshold remaining
    then record { value = remaining; script_pubkey = address.script_pubkey } ∷ []
    else []

-- The halves of the fee, and what each sender has to cover.
abbrev pub lego_fees : LegoBitcoin → ℕ × ℕ
lego_fees l =
    if l.fee % 2 == 0 then (l.fee / 2, l.fee / 2) else ((l.fee - 1) / 2, add64 ((l.fee - 1) / 2) 1)

abbrev pub lego_amounts : LegoBitcoin → ℕ × ℕ
lego_amounts l =
    let (fee0, fee1) = lego_fees l in
    if l.paid_by_sender
    then (add64 l.amount0 fee0, add64 l.amount1 fee1)
    else (l.amount0, l.amount1)

unfoldable pub lego_outputs : LegoBitcoin → List TxOut
lego_outputs l =
    let sent = add64 l.amount0 l.amount1 in
    let (amount0, amount1) = lego_amounts l in
    record {
      value = if l.paid_by_sender then sent else sub64 sent l.fee;
      script_pubkey = l.receiver.script_pubkey;
    }
      ∷ change l.address0 (sub64 (fold_value 0 l.utxos0) amount0)
    ++ change l.address1 (sub64 (fold_value 0 l.utxos1) amount1)

unfoldable pub lego_txn : LegoBitcoin → Outcome Unsigned
unfolding lego_outputs
lego_txn l = do
  input0 ← to_inputs l.utxos0
  input1 ← to_inputs l.utxos1
  done (record {
    txn = txn_of (input0 ++ input1) (lego_outputs l);
    signers =
        signers_of l.utxos0 (l.address0, l.account0)
        ++ signers_of l.utxos1 (l.address1, l.account1);
  })

-- The sums of the runic outputs, as the handler folds them.
unfoldable pub fold_btc : ℕ → List RunicUtxo → ℕ
fold_btc sum [] = sum
fold_btc sum (x ∷ l) = fold_btc (add64 sum x.utxo.value) l

module _ (encipher : Runestone → ScriptBuf) where
  unfoldable pub runestone_txn : RunestoneTransfer → Outcome Unsigned
  runestone_txn t = do
    runic_input ← to_inputs (plain t.runic_utxos)
    let need_change = need_change_rune_output (fold_balance 0 t.runic_utxos) t.amount t.runic_utxos
    required ← required_btc_for_rune_output need_change t.postage
    let actual_required_btc = sub64 required (fold_btc 0 t.runic_utxos)
    fee_input ← to_inputs t.fee_utxos
    let remaining = sub64 (sub64 (fold_value 0 t.fee_utxos) t.fee) actual_required_btc
    let sender : Signer = (t.sender_address, t.sender_account)
    let receiver : Signer = (t.receiver_address, t.receiver_account)
    let payer = if t.paid_by_sender then t.sender_address else t.receiver_address
    let output =
        rune_outputs encipher t.runeid t.amount need_change t.sender_address t.receiver_address
          t.postage
        ++ change payer remaining
    done (record {
      txn = txn_of (runic_input ++ fee_input) output;
      signers =
          signers_of t.runic_utxos sender
          ++ signers_of t.fee_utxos (if t.paid_by_sender then sender else receiver);
    })

  unfoldable pub combined_outputs : Combined → Bool → ℕ → List TxOut
  combined_outputs t need_change actual_required_btc =
      let btc_total_spent = fold_value 0 t.btc_utxos in
      let fee_total_spent = fold_value 0 t.fee_utxos in
      rune_outputs encipher t.runeid t.rune_amount need_change t.sender_address t.receiver_address
        t.postage
      ++ record { value = t.btc_amount; script_pubkey = t.receiver_address.script_pubkey }
        ∷ (if t.paid_by_sender
            then change t.sender_address
                (sub64 (sub64 (sub64 btc_total_spent t.btc_amount) t.fee) actual_required_btc)
            else change t.sender_address (sub64 btc_total_spent t.btc_amount)
              ++ change t.receiver_address
                  (sub64 (sub64 fee_total_spent t.fee) actual_required_btc))

  unfoldable pub combined_txn : Combined → Outcome Unsigned
  unfolding combined_outputs
  combined_txn t = do
    runic_input ← to_inputs (plain t.runic_utxos)
    btc_input ← to_inputs t.btc_utxos
    fee_input ← to_inputs t.fee_utxos
    let need_change =
        need_change_rune_output (fold_balance 0 t.runic_utxos) t.rune_amount t.runic_utxos
    required ← required_btc_for_rune_output need_change t.postage
    let actual_required_btc = sub64 required (fold_btc 0 t.runic_utxos)
    let sender : Signer = (t.sender_address, t.sender_account)
    let receiver : Signer = (t.receiver_address, t.receiver_account)
    done (record {
      txn =
          txn_of (runic_input ++ btc_input ++ fee_input)
            (combined_outputs t need_change actual_required_btc);
      signers =
          signers_of t.runic_utxos sender
          ++ signers_of t.btc_utxos sender
          ++ signers_of t.fee_utxos (if t.paid_by_sender then sender else receiver);
    })

  -- The transaction that each variant stands for.
  unfoldable pub unsigned_of : TransactionType → Outcome Unsigned
  unfolding lego_txn runestone_txn combined_txn
  unsigned_of (bitcoin b) = done (record {
    txn = b.txn;
    signers = signers_of b.txn.input (b.signer_address, b.signer_account);
  })
  unsigned_of (lego_bitcoin l) = lego_txn l
  unsigned_of (runestone t) = runestone_txn t
  unsigned_of (combined t) = combined_txn t

-- The bytes of the transactions that the network was handed, in order.
abbrev pub Handed : Type 0
Handed = List (List ℕ)

module _ (c : Crypto) where
  -- The signature of one input, over the transaction before any was signed.
  unfoldable pub sign_input : Transaction → ℕ → Signer → TxIn → Outcome TxIn
  unfolding unlocking_script
  sign_input cache index (address, account) i =
      let path = account_to_derivation_path c account in
      do
        sighash ← unwrap (c.legacy_signature_hash cache index address.script_pubkey)
        signature ← unwrap (c.sign_with_ecdsa sighash path)
        script ← unlocking_script c signature (c.derive_public_key path)
        done (record i { script_sig = script; witness = [] })

  unfoldable pub sign_inputs : Transaction → ℕ → List Signer → List TxIn → Outcome (List TxIn)
  unfolding sign_input
  sign_inputs cache index signers [] = done []
  sign_inputs cache index [] (i ∷ is) = panic
  sign_inputs cache index (s ∷ signers) (i ∷ is) = do
    signed ← sign_input cache index s i
    rest ← sign_inputs cache (suc index) signers is
    done (signed ∷ rest)

  unfoldable pub sign : Unsigned → Outcome Transaction
  unfolding sign_inputs
  sign u = do
    input ← sign_inputs u.txn 0 u.signers u.txn.input
    done (record u.txn { input = input })

  -- `bitcoin_send_transaction`, whose failure traps: what the network was handed grows by these bytes
  unfoldable pub hand : List ℕ → Handed → Outcome Handed
  hand bytes handed = if c.send_transaction bytes then done (handed ++ bytes ∷ []) else panic

  -- `build_and_submit`: the identifier of the transaction that was sent
  unfoldable pub build_and_submit :
      (Runestone → ScriptBuf) → TransactionType → Handed → Outcome (Option (List ℕ) × Handed)
  unfolding sign unsigned_of hand
  build_and_submit encipher t handed = do
    u ← unsigned_of encipher t
    tx ← sign u
    handed' ← hand (c.serialize tx) handed
    done (some (c.compute_txid tx), handed')
