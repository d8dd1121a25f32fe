-- ===== src/Wallet/Transfer.antt =====
-- A payment in bitcoin from one address (wallet/src/bitcoin/transaction.rs).
pub mod Spec
pub mod Loop
mod Tests
use ord_indexer.Base.{
  ℕ, zero, suc, Bool, true, false, Option, none, some, List, [], ◌∷◌, ltb, ◌==◌, if◌then◌else◌,
  Outcome, done, panic, ◌>>=◌, unwrap, add64, sub64,
}
use ord_indexer.Bitcoin.{TxOut, Transaction}
use ord_indexer.Wallet.Utxos.{Addr, Utxo, UtxoManager, record_btc_utxos}
use ord_indexer.Wallet.Kinds.{Account, Bitcoin}
use ord_indexer.Wallet.Select.{Picked, pick}
use ord_indexer.Wallet.Txn.{Address, Built, ok, refused, dust_threshold, to_inputs, txn_of, fee_of}

-- What the sender's outputs have to cover.
abbrev pub total_amount : ℕ → ℕ → Bool → ℕ
total_amount amount fee paid_by_sender = if paid_by_sender then add64 amount fee else amount

unfoldable pub outputs_of : Address → Address → ℕ → ℕ → Bool → ℕ → List TxOut
outputs_of from to amount fee paid_by_sender total_spent =
    let remaining = sub64 total_spent (total_amount amount fee paid_by_sender) in
    record {
      value = if paid_by_sender then amount else sub64 amount fee;
      script_pubkey = to.script_pubkey;
    }
    ∷ (if ltb dust_threshold remaining
        then record { value = remaining; script_pubkey = from.script_pubkey } ∷ []
        else [])

-- `build_transaction_with_fee`
unfoldable pub build_transaction_with_fee :
    Addr
    → Address
    → Address
    → ℕ
    → ℕ
    → Bool
    → UtxoManager
    → Outcome (Built ℕ (Transaction × List Utxo) × UtxoManager)
build_transaction_with_fee addr from to amount fee paid_by_sender m =
    let total = total_amount amount fee paid_by_sender in
    unwrap (pick (λ sum. ltb total sum) addr m) >>= λ p.
    if ltb p.sum total then done (refused total, record_btc_utxos addr p.utxos p.manager) else (do
      input ← to_inputs p.utxos
      let output = outputs_of from to amount fee paid_by_sender p.sum
      done (ok (txn_of input output, p.utxos), p.manager))

-- `transfer`, whose loop takes fuel: without it the result is none. The size of a transaction with
-- mock signatures is the parameter `vsize`.
module _ (vsize : Transaction → ℕ) (addr : Addr) (account : Account) (from to : Address)
    (amount : ℕ) (paid_by_sender : Bool) (fee_per_vbytes : ℕ) where
  unfoldable pub transfer_loop :
      ℕ → ℕ → UtxoManager → Outcome (Option (Built ℕ Bitcoin × UtxoManager))
  transfer_loop zero total_fee m = done none
  transfer_loop (suc fuel) total_fee m =
      build_transaction_with_fee addr from to amount total_fee paid_by_sender m >>= λ (built, m').
      elim built [
        | refused required ↦ done (some (refused required, m'))
        | ok (txn, utxos) ↦
            let fee = fee_of (vsize txn) fee_per_vbytes in
            let rest = transfer_loop fuel fee (record_btc_utxos addr utxos m') in
            if fee == total_fee
            then done (
                some (
                  ok (record {
                    addr = addr;
                    utxos = utxos;
                    signer_account = account;
                    signer_address = from;
                    txn = txn;
                    fee = total_fee;
                  }),
                  m',
                ))
            else rest
      ]

  unfoldable pub transfer : ℕ → UtxoManager → Outcome (Option (Built ℕ Bitcoin × UtxoManager))
  unfolding transfer_loop
  transfer fuel m = transfer_loop fuel 0 m
