-- ===== src/Wallet/Submit/Tests.antt =====
-- One built transaction of each kind, and the theorems that it is the one signed.
use ord_indexer.Base.{
  some, ◌≡◌, Returns, map, ◌++◌, ℕ, refl, true, false, none, [], ◌∷◌, replicate, arith, lookup,
  insert, erase,
}
use ord_indexer.Bitcoin.{ScriptBuf, TxOut}
use ord_indexer.Runes.{RuneId, RuneId-discrete, Runestone}
use ord_indexer.Wallet.Sets.{contains, remove, insert_all, min_by_key}
use ord_indexer.Wallet.Sets.{insert as insert_in}
use ord_indexer.Wallet.Utxos.{
  Addr-discrete, Utxo, Utxo-discrete, RunicUtxo, RunicUtxo-discrete, UtxoManager, btc_set,
  runic_map, runic_set, record_btc_utxos, record_runic_utxos, get_bitcoin_utxo, get_runic_utxo,
}
use ord_indexer.Wallet.Select.{pick_loop, pick, pick_runic_loop, pick_runic}
use ord_indexer.Wallet.Txn.{Address, inputs_for, to_input, to_inputs, txn_of}
use ord_indexer.Wallet.Kinds.{Account}
use ord_indexer.Wallet.MultiSend
use ord_indexer.Wallet.RuneTransfer
use ord_indexer.Wallet.Combined
use ord_indexer.Wallet.Signer.{Crypto}
use ord_indexer.Wallet.Submit.{Unsigned, sign}
use ord_indexer.Wallet.Submit.Signed.{IsAnswering, kept, AreFor, sign-Returns}
use ord_indexer.Wallet.Submit.Agreement.{
  HasLego, HasRunestone, lego_txn-build_transaction_with_fee,
  runestone_txn-build_transaction_with_fee,
}
use ord_indexer.Wallet.Submit.Combining.{HasCombined, combined_txn-build_transaction_with_fee}

program : Unit {0}
unfolding lookup insert erase contains insert_in remove insert_all min_by_key Addr-discrete
    Utxo-discrete RunicUtxo-discrete RuneId-discrete btc_set runic_map runic_set record_btc_utxos
    record_runic_utxos get_bitcoin_utxo get_runic_utxo pick_loop pick pick_runic_loop pick_runic
    to_input to_inputs MultiSend.outputs_of MultiSend.build_transaction_with_fee
    RuneTransfer.build_with_runes RuneTransfer.build_transaction_with_fee Combined.pick_fees
    Combined.outputs_of Combined.build_with_btc Combined.build_transaction_with_fee
program = tt

abbrev coin : ℕ → ℕ → Utxo
coin id value = record { txid = replicate 32 id; vout = 0; value = value; height = 10 }

abbrev rune : RuneId
rune = record { block = 840000; tx = 3 }

abbrev holding : RunicUtxo
holding = record { utxo = coin 1 10000; balance = 100 }

abbrev wallet : UtxoManager
wallet = record {
  r = (1 ∷ [], (rune, holding ∷ []) ∷ []) ∷ [];
  b = (1 ∷ [], coin 2 20000 ∷ []) ∷ (2 ∷ [], coin 3 7000 ∷ coin 4 30000 ∷ []) ∷ [];
}

abbrev at_script : ℕ → Address
at_script n = record { script_pubkey = n ∷ [] }

abbrev account : Account
account = record { owner = 7 ∷ []; subaccount = none }

abbrev encipher : Runestone → ScriptBuf
encipher stone = 0x6a ∷ []

abbrev pays : ℕ → ℕ → TxOut
pays script value = record { value = value; script_pubkey = script ∷ [] }

abbrev senders : MultiSend.Arguments
senders = record {
  addr0 = 1 ∷ [];
  addr1 = 2 ∷ [];
  address0 = at_script 1;
  address1 = at_script 2;
  receiver = at_script 3;
  account0 = account;
  account1 = account;
  amount0 = 5000;
  amount1 = 6000;
  fee_per_vbytes = 2000;
  paid_by_sender = false;
}

abbrev lego : MultiSend.Draft
lego = record {
  txn = txn_of (inputs_for (coin 2 20000 ∷ coin 3 7000 ∷ [])) (pays 3 10599 ∷ pays 1 15000 ∷ []);
  utxos0 = coin 2 20000 ∷ [];
  utxos1 = coin 3 7000 ∷ [];
}

lego_txn-build_transaction_with_fee_example : HasLego senders 401 lego
unfolding program
lego_txn-build_transaction_with_fee_example =
    lego_txn-build_transaction_with_fee senders 401 wallet
      (record { r = wallet.r; b = (1 ∷ [], []) ∷ (2 ∷ [], coin 4 30000 ∷ []) ∷ [] }) lego
      (omega arith) refl

abbrev transfer_args : RuneTransfer.Arguments
transfer_args = record {
  runeid = rune;
  amount = 30;
  sender_addr = 1 ∷ [];
  receiver_addr = 2 ∷ [];
  sender_account = account;
  receiver_account = account;
  sender_address = at_script 1;
  receiver_address = at_script 2;
  fee_per_vbytes = 2000;
  paid_by_sender = true;
  postage = none;
}

abbrev moved : RuneTransfer.Draft
moved = record {
  txn =
      txn_of (inputs_for (coin 1 10000 ∷ coin 2 20000 ∷ []))
        (pays 0x6a 0 ∷ pays 1 10000 ∷ pays 2 10000 ∷ pays 1 9600 ∷ []);
  runic_utxos = holding ∷ [];
  fee_utxos = coin 2 20000 ∷ [];
}

runestone_txn-build_transaction_with_fee_example :
    HasRunestone encipher transfer_args 400 10000 moved
unfolding program
runestone_txn-build_transaction_with_fee_example =
    runestone_txn-build_transaction_with_fee encipher transfer_args 400 10000 wallet
      (record {
        r = (1 ∷ [], (rune, []) ∷ []) ∷ [];
        b = (1 ∷ [], []) ∷ (2 ∷ [], coin 3 7000 ∷ coin 4 30000 ∷ []) ∷ [];
      })
      moved refl

abbrev request : Combined.Request
request = record {
  from_addr = 1 ∷ [];
  receiver_addr = 2 ∷ [];
  sender_address = at_script 1;
  receiver_address = at_script 2;
  runeid = rune;
  rune_amount = 30;
  btc_amount = 8000;
  sender_account = account;
  receiver_account = account;
  postage = none;
  fee_per_vbytes = 2000;
  paid_by_sender = false;
}

abbrev both : Combined.Draft
both = record {
  txn =
      txn_of (inputs_for (coin 1 10000 ∷ coin 2 20000 ∷ coin 3 7000 ∷ coin 4 30000 ∷ [])) (
        pays 0x6a 0 ∷ pays 1 10000 ∷ pays 2 10000 ∷ pays 2 8000 ∷ pays 1 12000 ∷ pays 2 26500 ∷ []);
  runic_utxos = holding ∷ [];
  btc_utxos = coin 2 20000 ∷ [];
  fee_utxos = coin 3 7000 ∷ coin 4 30000 ∷ [];
}

combined_txn-build_transaction_with_fee_example : HasCombined encipher request 500 10000 both
unfolding program
combined_txn-build_transaction_with_fee_example =
    combined_txn-build_transaction_with_fee encipher request 500 10000 wallet
      (record { r = (1 ∷ [], (rune, []) ∷ []) ∷ []; b = (1 ∷ [], []) ∷ (2 ∷ [], []) ∷ [] }) both
      refl

-- A network that answers each question in the same way.
abbrev crypto : Crypto
crypto = record {
  effective_subaccount = λ a. replicate 32 0;
  derive_public_key = λ path. replicate 33 2;
  legacy_signature_hash = λ tx i script. some (replicate 32 9);
  sign_with_ecdsa = λ h path. some (replicate 64 5);
  push_slices = λ s pubkey. some (s ++ pubkey);
  vsize = λ tx. 200;
  serialize = λ tx. [];
  compute_txid = λ tx. replicate 32 1;
  send_transaction = λ bytes. true;
}

crypto-IsAnswering : IsAnswering crypto
crypto-IsAnswering = record {
  hash = λ tx i script inside. (replicate 32 9, refl);
  signature = λ h path. (replicate 64 5, refl, refl);
  key = λ path. refl;
  push = λ s pubkey short short'. (s ++ pubkey, refl);
}

abbrev unsigned : Unsigned
unsigned = record { txn = lego.txn; signers = (at_script 1, account) ∷ (at_script 2, account) ∷ [] }

sign-Returns_example : Returns (sign crypto unsigned) (λ tx.
    (tx.output ≡ unsigned.txn.output)
    × (map kept tx.input ≡ map kept unsigned.txn.input)
    × AreFor crypto unsigned.txn 0 unsigned.signers tx.input)
sign-Returns_example = sign-Returns crypto crypto-IsAnswering unsigned refl
