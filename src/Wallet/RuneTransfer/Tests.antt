-- ===== src/Wallet/RuneTransfer/Tests.antt =====
-- A transfer of a rune, and the theorem at it.
use ord_indexer.Base.{
  ℕ, ◌≡◌, refl, true, none, some, [], ◌∷◌, replicate, done, Returns, arith, lookup, insert, erase,
}
use ord_indexer.Bitcoin.{ScriptBuf}
use ord_indexer.Runes.{RuneId, RuneId-discrete, Runestone}
use ord_indexer.Wallet.Sets.{contains, remove, insert_all, min_by_key, count, sum_by}
use ord_indexer.Wallet.Sets.{insert as insert_in}
use ord_indexer.Wallet.Utxos.{
  Addr-discrete, Utxo, Utxo-discrete, RunicUtxo, RunicUtxo-discrete, UtxoManager, btc_set,
  runic_map, runic_set, record_btc_utxos, record_runic_utxos, get_bitcoin_utxo, get_runic_utxo,
}
use ord_indexer.Wallet.Select.{pick_loop, pick, pick_runic_loop, pick_runic}
use ord_indexer.Wallet.Txn.{Address, ok, inputs_for, to_input, to_inputs, txn_of}
use ord_indexer.Wallet.Kinds.{Account}
use ord_indexer.Wallet.Select.{RunicPicked}
use ord_indexer.Wallet.RuneTransfer.Heavy.{build_with_runes_heavy}
use ord_indexer.Wallet.Txn.{refused}
use ord_indexer.Wallet.Transfer.Spec.{IsUsable}
use ord_indexer.Wallet.RuneTransfer.{
  Arguments, build_with_runes, build_transaction_with_fee, Draft, transfer_loop, transfer,
  runestone_of,
}
use ord_indexer.Wallet.RuneTransfer.Whole.{
  IsRunicUsable, IsBuilt, build_transaction_with_fee-IsSent,
}

program : Unit {0}
unfolding lookup insert erase contains insert_in remove insert_all min_by_key count sum_by
    Addr-discrete Utxo-discrete RunicUtxo-discrete RuneId-discrete btc_set runic_map runic_set
    record_btc_utxos record_runic_utxos get_bitcoin_utxo get_runic_utxo pick_loop pick
    pick_runic_loop pick_runic to_input to_inputs build_with_runes build_transaction_with_fee
    transfer_loop transfer
program = tt

abbrev coin : ℕ → ℕ → Utxo
coin id value = record { txid = replicate 32 id; vout = 0; value = value; height = 10 }

abbrev rune : RuneId
rune = record { block = 840000; tx = 3 }

abbrev holding : RunicUtxo
holding = record { utxo = coin 1 10000; balance = 100 }

abbrev wallet : UtxoManager
wallet = record {
  r = (1 ∷ [], (rune, holding ∷ []) ∷ []) ∷ [];
  b = (1 ∷ [], coin 2 20000 ∷ []) ∷ [];
}

abbrev at_script : ℕ → Address
at_script n = record { script_pubkey = n ∷ [] }

abbrev account : Account
account = record { owner = 7 ∷ []; subaccount = none }

abbrev arguments : Arguments
arguments = record {
  runeid = rune;
  amount = 30;
  sender_addr = 1 ∷ [];
  receiver_addr = 2 ∷ [];
  sender_account = account;
  receiver_account = account;
  sender_address = at_script 1;
  receiver_address = at_script 2;
  fee_per_vbytes = 2000;
  paid_by_sender = true;
  postage = none;
}

abbrev encipher : Runestone → ScriptBuf
encipher stone = 0x6a ∷ []

abbrev draft : Draft
draft = record {
  txn = txn_of (inputs_for (coin 1 10000 ∷ coin 2 20000 ∷ [])) (
      record { value = 0; script_pubkey = 0x6a ∷ [] }
      ∷ record { value = 10000; script_pubkey = 1 ∷ [] }
      ∷ record { value = 10000; script_pubkey = 2 ∷ [] }
      ∷ record { value = 9600; script_pubkey = 1 ∷ [] }
      ∷ []);
  runic_utxos = holding ∷ [];
  fee_utxos = coin 2 20000 ∷ [];
}

transfer_thirty :
    transfer encipher (λ tx. 200) arguments 3 wallet
    ≡ done (
        some (
          ok (runestone_of encipher arguments 400 10000 draft),
          record { r = (1 ∷ [], (rune, []) ∷ []) ∷ []; b = (1 ∷ [], []) ∷ [] },
        ))
unfolding program
transfer_thirty = refl

wallet-IsRunicUsable : IsRunicUsable encipher arguments 400 10000 wallet
unfolding program
wallet-IsRunicUsable = record {
  once = λ a. ground arith;
  fits = record { balance = omega arith; btc = omega arith };
  txids = (refl, tt);
  light = omega arith;
}

wallet-IsUsable : IsUsable (1 ∷ []) wallet
unfolding program
wallet-IsUsable = record { once = λ a. ground arith; fits = omega arith; txids = (refl, tt) }

build_transaction_with_fee-IsSent_example :
    Returns
      (build_transaction_with_fee encipher arguments 400 10000 wallet)
      (IsBuilt encipher arguments 400 10000 wallet)
build_transaction_with_fee-IsSent_example =
    build_transaction_with_fee-IsSent encipher arguments 400 10000 wallet wallet-IsRunicUsable
      wallet-IsUsable (omega arith)

-- Three outputs of the default postage.
abbrev three : RunicPicked
three = record {
  utxos =
      record { utxo = coin 4 10000; balance = 10 }
      ∷ record { utxo = coin 5 10000; balance = 15 }
      ∷ record { utxo = coin 6 10000; balance = 20 }
      ∷ [];
  sum = 45;
  btc = 30000;
  manager = wallet;
}

build_with_runes_heavy_example :
    Returns
      (build_with_runes encipher arguments 400 10000 three)
      (λ x. (x.0 ≡ refused (0, 400)) × (x.1.r ≡ wallet.r))
unfolding program
build_with_runes_heavy_example =
    build_with_runes_heavy encipher arguments 400 10000 three refl refl (omega arith) (omega arith)
      (omega arith) wallet-IsUsable
