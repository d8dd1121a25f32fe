-- ===== src/Wallet/Transfer/Tests.antt =====
-- A payment run, and the theorems at it.
use ord_indexer.Base.{
  length, ◌*◌, inl, inr, All, ◌+◌, ◌≤◌, ite, ltb, ℕ, ◌≡◌, refl, true, none, some, [], ◌∷◌,
  replicate, done, Returns, arith, lookup, insert,
}
use ord_indexer.Bitcoin.{Transaction}
use ord_indexer.Wallet.Sets.{contains, remove, insert_all, min_by_key, count, sum_by}
use ord_indexer.Wallet.Sets.{insert as insert_in}
use ord_indexer.Wallet.Utxos.{
  Addr, Addr-discrete, Utxo, Utxo-discrete, UtxoManager, btc_set, record_btc_utxos,
  get_bitcoin_utxo,
}
use ord_indexer.Wallet.Utxos.Laws.{value_of, get_bitcoin_utxo-IsLeast}
use ord_indexer.Wallet.Select.Laws.{IsPicked, pick-IsPicked}
use ord_indexer.Wallet.Select.{Picked, pick_loop, pick}
use ord_indexer.Wallet.Txn.{Address, ok, inputs_for, to_input, to_inputs, txn_of}
use ord_indexer.Wallet.Kinds.{Account}
use ord_indexer.Wallet.Transfer.{outputs_of, build_transaction_with_fee, transfer_loop, transfer}
use ord_indexer.Wallet.Transfer.Spec.{
  IsUsable, IsBuilt, IsPayable, build_transaction_with_fee-IsBuilt,
}
use ord_indexer.Wallet.Transfer.Loop.{IsTransfer, IsEnded, Rises, transfer-IsTransfer}

program : Unit {0}
unfolding lookup insert contains insert_in remove insert_all min_by_key count sum_by Addr-discrete
    Utxo-discrete btc_set record_btc_utxos get_bitcoin_utxo pick_loop pick to_input to_inputs
    outputs_of build_transaction_with_fee transfer_loop transfer
program = tt

abbrev owner : Addr
owner = 97 ∷ []

abbrev small : Utxo
small = record { txid = replicate 32 1; vout = 0; value = 4000; height = 10 }

abbrev large : Utxo
large = record { txid = replicate 32 2; vout = 1; value = 9000; height = 11 }

abbrev wallet : UtxoManager
wallet = record { r = []; b = (owner, large ∷ small ∷ []) ∷ [] }

abbrev sender : Address
sender = record { script_pubkey = 1 ∷ [] }

abbrev receiver : Address
receiver = record { script_pubkey = 2 ∷ [] }

abbrev account : Account
account = record { owner = 7 ∷ []; subaccount = none }

-- A size of 200 virtual bytes for each transaction.
abbrev flat : Transaction → ℕ
flat tx = 200

wallet-IsUsable : IsUsable owner wallet
unfolding program
wallet-IsUsable = record {
  once = λ a. ground arith;
  fits = omega arith;
  txids = (refl, (refl, tt));
}

-- Both outputs are spent, the least first, and the change comes back.
transfer_two :
    transfer flat owner account sender receiver 5000 true 2000 3 wallet
    ≡ done (
        some (
          ok (record {
            addr = owner;
            utxos = small ∷ large ∷ [];
            signer_account = account;
            signer_address = sender;
            txn = txn_of (inputs_for (small ∷ large ∷ [])) (
                record { value = 5000; script_pubkey = 2 ∷ [] }
                ∷ record { value = 7600; script_pubkey = 1 ∷ [] }
                ∷ []);
            fee = 400;
          }),
          record { r = []; b = (owner, []) ∷ [] },
        ))
unfolding program
transfer_two = refl

build_transaction_with_fee-IsBuilt_example :
    Returns
      (build_transaction_with_fee owner sender receiver 5000 400 true wallet)
      (IsBuilt owner sender receiver 5000 400 true wallet)
unfolding IsPayable
build_transaction_with_fee-IsBuilt_example =
    build_transaction_with_fee-IsBuilt owner sender receiver 5000 400 true wallet wallet-IsUsable
      (omega arith)

-- A size that grows with the inputs.
abbrev growing : Transaction → ℕ
growing tx = 100 * length tx.input

-- One input would do for the amount, and with its fee two are needed, whose fee is larger.
transfer_risen :
    transfer growing owner account sender receiver 3900 true 2000 3 wallet
    ≡ done (
        some (
          ok (record {
            addr = owner;
            utxos = small ∷ large ∷ [];
            signer_account = account;
            signer_address = sender;
            txn = txn_of (inputs_for (small ∷ large ∷ [])) (
                record { value = 3900; script_pubkey = 2 ∷ [] }
                ∷ record { value = 8700; script_pubkey = 1 ∷ [] }
                ∷ []);
            fee = 400;
          }),
          record { r = []; b = (owner, []) ∷ [] },
        ))
unfolding program
transfer_risen = refl

growing-Rises : Rises growing owner account sender receiver 3900 true 2000 400 401 0 wallet
unfolding program Rises
growing-Rises = inr (omega arith, omega arith, inr (omega arith, omega arith, inl refl))

transfer-IsTransfer_example :
    Returns (transfer growing owner account sender receiver 3900 true 2000 401 wallet) (λ r.
      IsTransfer growing owner account sender receiver 3900 true 2000 wallet r
      × IsEnded growing owner account sender receiver 3900 true 2000 r)
unfolding IsPayable
transfer-IsTransfer_example =
    transfer-IsTransfer growing owner account sender receiver 3900 true 2000 400 wallet
      wallet-IsUsable (λ f le. omega arith) growing-Rises

get_bitcoin_utxo-IsLeast_example :
    All (λ (x : Utxo). small.value ≤ x.value) (btc_set owner wallet)
    × ((a : Utxo)
        → count Utxo-discrete a (btc_set owner (get_bitcoin_utxo owner wallet).1)
            + ite (Utxo-discrete a small) 1 0
          ≡ count Utxo-discrete a (btc_set owner wallet))
    × (value_of (btc_set owner (get_bitcoin_utxo owner wallet).1) + small.value
        ≡ value_of (btc_set owner wallet))
unfolding program
get_bitcoin_utxo-IsLeast_example = get_bitcoin_utxo-IsLeast owner wallet small refl

pick-IsPicked_example :
    (p : Picked) × (pick (ltb 5400) owner wallet ≡ some p) × IsPicked (ltb 5400) owner [] wallet p
pick-IsPicked_example =
    pick-IsPicked (ltb 5400) owner wallet wallet-IsUsable.fits wallet-IsUsable.txids
