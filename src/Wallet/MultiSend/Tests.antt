-- ===== src/Wallet/MultiSend/Tests.antt =====
-- A payment of two senders, and the theorem at it.
use ord_indexer.Base.{ℕ, ◌≡◌, refl, true, none, some, [], ◌∷◌, replicate, done, lookup, insert}
use ord_indexer.Wallet.Sets.{contains, remove, insert_all, min_by_key, count, sum_by}
use ord_indexer.Wallet.Sets.{insert as insert_in}
use ord_indexer.Wallet.Utxos.{
  Addr-discrete, Utxo, Utxo-discrete, UtxoManager, btc_set, record_btc_utxos, get_bitcoin_utxo,
}
use ord_indexer.Wallet.Select.{pick_loop, pick}
use ord_indexer.Wallet.Txn.{Address, ok, inputs_for, to_input, to_inputs, txn_of}
use ord_indexer.Wallet.Kinds.{Account}
use ord_indexer.Wallet.MultiSend.{
  Arguments, outputs_of, Draft, build_transaction_with_fee, transfer_loop, transfer, lego_of,
}
use ord_indexer.Wallet.MultiSend.Spec

program : Unit {0}
unfolding lookup insert contains insert_in remove insert_all min_by_key count sum_by Addr-discrete
    Utxo-discrete btc_set record_btc_utxos get_bitcoin_utxo pick_loop pick to_input to_inputs
    outputs_of build_transaction_with_fee transfer_loop transfer
program = tt

abbrev coin : ℕ → ℕ → Utxo
coin id value = record { txid = replicate 32 id; vout = 0; value = value; height = 10 }

abbrev wallet : UtxoManager
wallet = record {
  r = [];
  b = (1 ∷ [], coin 1 9000 ∷ []) ∷ (2 ∷ [], coin 2 500 ∷ coin 3 7000 ∷ []) ∷ [];
}

abbrev at_script : ℕ → Address
at_script n = record { script_pubkey = n ∷ [] }

abbrev account : Account
account = record { owner = 7 ∷ []; subaccount = none }

abbrev arguments : Arguments
arguments = record {
  addr0 = 1 ∷ [];
  addr1 = 2 ∷ [];
  address0 = at_script 1;
  address1 = at_script 2;
  receiver = at_script 3;
  account0 = account;
  account1 = account;
  amount0 = 5000;
  amount1 = 6000;
  fee_per_vbytes = 2000;
  paid_by_sender = true;
}

abbrev draft : Draft
draft = record {
  txn = txn_of (inputs_for (coin 1 9000 ∷ coin 2 500 ∷ coin 3 7000 ∷ [])) (
      record { value = 11000; script_pubkey = 3 ∷ [] }
      ∷ record { value = 3800; script_pubkey = 1 ∷ [] }
      ∷ record { value = 1300; script_pubkey = 2 ∷ [] }
      ∷ []);
  utxos0 = coin 1 9000 ∷ [];
  utxos1 = coin 2 500 ∷ coin 3 7000 ∷ [];
}

transfer_both :
    transfer (λ tx. 200) arguments 3 wallet
    ≡ done (
        some (
          ok (lego_of arguments 400 draft),
          record { r = []; b = (1 ∷ [], []) ∷ (2 ∷ [], []) ∷ [] },
        ))
unfolding program
transfer_both = refl
