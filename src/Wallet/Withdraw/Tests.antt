-- ===== src/Wallet/Withdraw/Tests.antt =====
-- Withdrawals from records with one output for each sender, when the network takes everything.
use ord_indexer.Base.{
  arith, ◌≡◌, done, refl, true, none, some, [], ◌∷◌, replicate, ◌++◌, lookup, insert, erase,
}
use ord_indexer.Wallet.Sets.{min_by_key, insert_all, remove}
use ord_indexer.Wallet.Utxos.{
  Addr, Utxo, UtxoManager, RunicUtxo, Addr-discrete, Utxo-discrete, get_bitcoin_balance,
  get_bitcoin_utxo, get_runestone_balance, RunicUtxo-discrete, get_runic_utxo, record_runic_utxos,
  record_btc_utxos,
}
use ord_indexer.Wallet.Select.{pick, pick_runic}
use ord_indexer.Wallet.Transfer.{transfer, build_transaction_with_fee}
use ord_indexer.Wallet.Submit.{build_and_submit, hand}
use ord_indexer.Wallet.Txn.{Address, to_inputs}
use ord_indexer.Wallet.Signer.{Crypto}
use ord_indexer.Wallet.Flow.{Gives}
use ord_indexer.Wallet.Withdraw.{World, withdraw_bitcoin}
use ord_indexer.Wallet.MultiSend
use ord_indexer.Wallet.RuneTransfer
use ord_indexer.Wallet.Withdraw.Several.{withdraw_bitcoin_from_multiple_addresses}
use ord_indexer.Wallet.Withdraw.Both.{withdraw_bitcoin_from_multiple_addresses-PaidBy}
use ord_indexer.Runes.{RuneId, RuneId-discrete, ok}
use ord_indexer.Wallet.Withdraw.Runes.{withdraw_runestone}
use ord_indexer.Wallet.Withdraw.Paid.{PaidBy, withdraw_bitcoin-PaidBy}

abbrev crypto : Crypto
crypto = record {
  effective_subaccount = λ a. replicate 32 0;
  derive_public_key = λ path. 2 ∷ [];
  legacy_signature_hash = λ tx i script. some (replicate 32 5);
  sign_with_ecdsa = λ hash path. some (replicate 64 7);
  push_slices = λ a b. some (a ++ b);
  vsize = λ tx. 226;
  serialize = λ tx. 1 ∷ [];
  compute_txid = λ tx. replicate 32 3;
  send_transaction = λ bytes. true;
}

abbrev own_address : Addr
own_address = 7 ∷ []

abbrev coin : Utxo
coin = record { txid = replicate 32 1; vout = 0; value = 100000; height = 840000 }

abbrev wallet : UtxoManager
wallet = record { r = []; b = (own_address, coin ∷ []) ∷ [] }

-- The script of an address is its text here, and the ledger knows of nothing.
abbrev world : World
world = record {
  ledger = record { get_utxos = λ a filter. none; get_runes_by_utxo = λ txid vout. none };
  crypto = crypto;
  encipher = λ stone. [];
  vsize = λ tx. 226;
  addresses =
      λ p. record { bitcoin = own_address; icrc1 = record { owner = p; subaccount = none } };
  address_validation = λ a. some (record { script_pubkey = a });
  fee_percentiles = some [];
}

abbrev receiver : Address
receiver = record { script_pubkey = 8 ∷ [] }

withdraw_bitcoin-PaidBy_example :
    Gives
      (withdraw_bitcoin world 1 4 (1 ∷ []) (8 ∷ []) 50000 none wallet)
      (PaidBy world 50000 receiver)
withdraw_bitcoin-PaidBy_example =
    withdraw_bitcoin-PaidBy world 1 4 (1 ∷ []) (8 ∷ []) receiver 50000 none wallet refl

-- The first try pays, with the change for the sender, and the coin has left the record.
withdraw_bitcoin_run :
    withdraw_bitcoin world 1 4 (1 ∷ []) (8 ∷ []) 50000 none wallet
    ≡ done (
        some (record {
          txid = replicate 32 3;
          handed = (1 ∷ []) ∷ [];
          manager = record { r = []; b = (own_address, []) ∷ [] };
        }))
unfolding withdraw_bitcoin get_bitcoin_balance lookup Addr-discrete transfer
    build_transaction_with_fee pick get_bitcoin_utxo min_by_key to_inputs record_btc_utxos insert
    insert_all remove Utxo-discrete build_and_submit hand
withdraw_bitcoin_run = refl

-- Two callers with an address each, which is the text of the caller.
abbrev world_of_two : World
world_of_two = record world {
  addresses = λ p. record { bitcoin = p; icrc1 = record { owner = p; subaccount = none } };
}

abbrev other_coin : Utxo
other_coin = record coin { vout = 1 }

abbrev two_wallets : UtxoManager
two_wallets = record { r = []; b = (1 ∷ [], coin ∷ []) ∷ (2 ∷ [], other_coin ∷ []) ∷ [] }

withdraw_bitcoin_from_multiple_addresses-PaidBy_example :
    Gives
      (withdraw_bitcoin_from_multiple_addresses world_of_two 1 4
        (1 ∷ [])
        (2 ∷ [])
        (8 ∷ [])
        50001
        none
        two_wallets)
      (PaidBy world_of_two 50001 receiver)
withdraw_bitcoin_from_multiple_addresses-PaidBy_example =
    withdraw_bitcoin_from_multiple_addresses-PaidBy world_of_two 1 4 (1 ∷ []) (2 ∷ []) (8 ∷ [])
      receiver 50001 none two_wallets refl (omega arith)

-- Both coins are spent, for half of the amount and of the fee each.
withdraw_bitcoin_from_multiple_addresses_run :
    withdraw_bitcoin_from_multiple_addresses world_of_two 1 4
      (1 ∷ [])
      (2 ∷ [])
      (8 ∷ [])
      50001
      none
      two_wallets
    ≡ done (
        some (record {
          txid = replicate 32 3;
          handed = (1 ∷ []) ∷ [];
          manager = record { r = []; b = (1 ∷ [], []) ∷ (2 ∷ [], []) ∷ [] };
        }))
unfolding withdraw_bitcoin_from_multiple_addresses get_bitcoin_balance lookup Addr-discrete
    MultiSend.transfer MultiSend.build_transaction_with_fee pick get_bitcoin_utxo min_by_key
    to_inputs record_btc_utxos insert insert_all remove Utxo-discrete build_and_submit hand
withdraw_bitcoin_from_multiple_addresses_run = refl

abbrev rune : RuneId
rune = record { block = 840000; tx = 1 }

-- An output with ten of the rune, and a coin for the fee.
abbrev rune_wallet : UtxoManager
rune_wallet = record {
  r =
      (
        own_address,
        (rune, record { utxo = record other_coin { value = 10000 }; balance = 10 } ∷ []) ∷ [],
      )
      ∷ [];
  b = (own_address, coin ∷ []) ∷ [];
}

-- An indexer that tells of ten of the rune in each output.
abbrev rune_world : World
rune_world = record world {
  ledger = record {
    get_utxos = λ a filter. none;
    get_runes_by_utxo = λ txid vout. some (ok (record { id = rune; balance = 10 } ∷ []));
  };
}

abbrev HasTen : RunicUtxo → Type 0
HasTen u = u.balance ≡ 10

-- Four of the runes are sent, and both outputs are spent.
withdraw_runestone_run :
    withdraw_runestone rune_world 1 4 (1 ∷ []) rune 4 (8 ∷ []) none rune_wallet
    ≡ done (
        some (record {
          txid = replicate 32 3;
          handed = (1 ∷ []) ∷ [];
          manager = record { r = (own_address, (rune, []) ∷ []) ∷ []; b = (own_address, []) ∷ [] };
        }))
unfolding withdraw_runestone get_runestone_balance RuneId-discrete RunicUtxo-discrete
    get_bitcoin_balance lookup Addr-discrete RuneTransfer.transfer
    RuneTransfer.build_transaction_with_fee pick pick_runic get_bitcoin_utxo get_runic_utxo
    min_by_key to_inputs record_btc_utxos record_runic_utxos insert insert_all remove Utxo-discrete
    build_and_submit hand erase
withdraw_runestone_run = refl
