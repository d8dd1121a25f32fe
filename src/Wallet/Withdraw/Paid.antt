-- ===== src/Wallet/Withdraw/Paid.antt =====
-- What a withdrawal of bitcoin sends (`withdraw_bitcoin` of wallet/src/lib.rs), whatever the ledger,
-- the indexer and the fee are.
use ord_indexer.Base.{
  refl, ℕ, zero, suc, ◌≡◌, Bool, true, ◌&&◌, Option, some, List, ◌∷◌, ltb, ◌==◌, if◌then◌else◌,
  unwrap, Ensures, Ensures-after, Bool-cases, inl, inr,
}
use ord_indexer.Bitcoin.{TxOut, Transaction}
use ord_indexer.Wallet.Utxos.{Addr, Utxo, UtxoManager, get_bitcoin_balance, record_btc_utxos}
use ord_indexer.Wallet.Txn.{Address, Built, ok, refused, to_inputs, fee_of, Built-ensures}
use ord_indexer.Wallet.Kinds.{Account, Bitcoin, bitcoin}
use ord_indexer.Wallet.Transfer.{
  outputs_of, total_amount, build_transaction_with_fee, transfer_loop, transfer,
}
use ord_indexer.Wallet.Select.{pick}
use ord_indexer.Wallet.Submit.{unsigned_of}
use ord_indexer.Wallet.Flow.{expect, WhenSome, Gives, trap, Gives-bind, Gives-after}
use ord_indexer.Wallet.Withdraw.Sending.{Sends, submit-Sends}
use ord_indexer.Wallet.Withdraw.{
  Principal, Addresses, World, Sent, fee_or_ask, fetch, fetch_if_short, submit, retry_bitcoin,
  pay_bitcoin, withdraw_bitcoin,
}

-- The first output pays the amount to the address.
abbrev pub PaysOut : ℕ → Address → List TxOut → Type 0
PaysOut amount to output =
    (rest : List TxOut) × (output
      ≡ record { value = amount; script_pubkey = to.script_pubkey } ∷ rest)

abbrev pub Pays : ℕ → Address → Transaction → Type 0
Pays amount to tx = PaysOut amount to tx.output

-- A transaction like that is what was sent.
abbrev pub PaidBy : World → ℕ → Address → Sent → Type 0
PaidBy w amount to = Sends w (λ spent. PaysOut amount to)

abbrev BuiltPays : ℕ → Address → Built ℕ (Transaction × List Utxo) × UtxoManager → Type 0
BuiltPays amount to (refused e, m) = Unit
BuiltPays amount to (ok (tx, us), m) = Pays amount to tx

build-Pays :
    (addr : Addr) (from to : Address) (amount fee : ℕ) (m : UtxoManager)
    → Ensures (build_transaction_with_fee addr from to amount fee true m) (BuiltPays amount to)
unfolding build_transaction_with_fee outputs_of
build-Pays addr from to amount fee m =
    let total = total_amount amount fee true in
    Ensures-after (unwrap (pick (λ sum. ltb total sum) addr m)) _ (BuiltPays amount to) (λ p.
      elim (Bool-cases (ltb p.sum total)) [
        | inl short ↦ rw short tt
        | inr enough ↦
            rw enough
              (Ensures-after (to_inputs p.utxos) _ (BuiltPays amount to) (λ input. (_, refl)))
      ])

abbrev TransferPays : ℕ → Address → Built ℕ Bitcoin × UtxoManager → Type 0
TransferPays amount to (refused e, m) = Unit
TransferPays amount to (ok b, m) = Pays amount to b.txn

module _ (w : World) (addr : Addr) (account : Account) (from to : Address)
    (amount fee_per_vbytes : ℕ) where
  transfer_loop-Pays :
      (fuel total_fee : ℕ) (m : UtxoManager)
      → Gives
          (transfer_loop w.vsize addr account from to amount true fee_per_vbytes fuel total_fee m)
          (TransferPays amount to)
  unfolding transfer_loop
  transfer_loop-Pays zero total_fee m = tt
  transfer_loop-Pays (suc fuel) total_fee m =
      Built-ensures (build_transaction_with_fee addr from to amount total_fee true m) _
        (BuiltPays amount to) (WhenSome (TransferPays amount to))
        (build-Pays addr from to amount total_fee m) (λ required m' _. tt)
        (λ (tx, us) m' pays. elim (Bool-cases (fee_of (w.vsize tx) fee_per_vbytes == total_fee)) [
          | inl same ↦ rw same pays
          | inr other ↦ rw other (
              transfer_loop-Pays fuel (fee_of (w.vsize tx) fee_per_vbytes)
                (record_btc_utxos addr us m'))
        ])

module _ (w : World) (pages rounds : ℕ) (amount : ℕ) (to : Address) where
  -- The transaction of a payment in bitcoin is the one that was built.
  submit_bitcoin :
      (b : Bitcoin) (m : UtxoManager)
      → Pays amount to b.txn
      → Gives (submit w pages rounds (bitcoin b) m) (PaidBy w amount to)
  unfolding unsigned_of
  submit_bitcoin b m pays =
      submit-Sends w pages rounds (λ spent. PaysOut amount to) (bitcoin b) m pays

  module _ (addresses : Addresses) (from : Address) (fee_per_vbytes : ℕ) where
    transfer-Pays :
        (m : UtxoManager)
        → Gives
            (transfer w.vsize addresses.bitcoin addresses.icrc1 from to amount true fee_per_vbytes
              rounds m)
            (TransferPays amount to)
    unfolding transfer
    transfer-Pays m =
        transfer_loop-Pays w addresses.bitcoin addresses.icrc1 from to amount fee_per_vbytes rounds
          0 m

    retry_bitcoin-PaidBy :
        (required : ℕ) (m : UtxoManager)
        → Gives
            (retry_bitcoin w pages rounds addresses from to amount fee_per_vbytes required m)
            (PaidBy w amount to)
    unfolding retry_bitcoin
    retry_bitcoin-PaidBy required m =
        Gives-after (fetch w pages rounds addresses.bitcoin required m) _ (PaidBy w amount to)
          (λ m₁.
            Gives-bind
              (transfer w.vsize addresses.bitcoin addresses.icrc1 from to amount true fee_per_vbytes
                rounds m₁)
              _ (TransferPays amount to) (PaidBy w amount to) (transfer-Pays m₁) (second))
      where
        second :
            (x : Built ℕ Bitcoin × UtxoManager)
            → TransferPays amount to x
            → Gives
                (elim (x.0) [ ok txn ↦ submit w pages rounds (bitcoin txn) x.1 | refused _ ↦ trap ])
                (PaidBy w amount to)
        second (ok b, m₂) pays = submit_bitcoin b m₂ pays
        second (refused e, m₂) pays = tt

    pay_bitcoin-PaidBy :
        (synced : Bool) (balance : ℕ) (m : UtxoManager)
        → Gives
            (pay_bitcoin w pages rounds addresses from to amount fee_per_vbytes synced balance m)
            (PaidBy w amount to)
    unfolding pay_bitcoin
    pay_bitcoin-PaidBy synced balance m =
        Gives-bind
          (transfer w.vsize addresses.bitcoin addresses.icrc1 from to amount true fee_per_vbytes
            rounds m)
          _ (TransferPays amount to) (PaidBy w amount to) (transfer-Pays m) first
      where
        first :
            (x : Built ℕ Bitcoin × UtxoManager)
            → TransferPays amount to x
            → Gives
                (elim (x.0) [
                  | ok txn ↦ submit w pages rounds (bitcoin txn) x.1
                  | refused required ↦
                      if synced && ltb required balance
                      then trap
                      else retry_bitcoin w pages rounds addresses from to amount fee_per_vbytes
                          required x.1
                ])
                (PaidBy w amount to)
        first (ok b, m₁) pays = submit_bitcoin b m₁ pays
        first (refused required, m₁) pays = elim (Bool-cases (synced && ltb required balance)) [
          | inl stop ↦ rw stop tt
          | inr on ↦ rw on (retry_bitcoin-PaidBy required m₁)
        ]

module _ (w : World) (pages rounds : ℕ) where
  -- When a withdrawal of bitcoin to an address that can be read returns, the network was handed one
  -- transaction during the call and no other, and took it: its first output pays the whole amount to
  -- the script of the address, and the identifier that the call gives is of this transaction. This
  -- holds whatever the record, the ledger, the indexer and the fee are, and on the second try too.
  pub withdraw_bitcoin-PaidBy :
      (caller : Principal) (to : Addr) (receiver : Address) (amount : ℕ) (fee : Option ℕ)
      (m : UtxoManager)
      → w.address_validation to ≡ some receiver
      → Gives (withdraw_bitcoin w pages rounds caller to amount fee m) (PaidBy w amount receiver)
  unfolding withdraw_bitcoin
  withdraw_bitcoin-PaidBy caller to receiver amount fee m known =
      let addresses = w.addresses caller in
      let Q = PaidBy w amount receiver in
      rw known (
        Gives-after (expect (w.address_validation addresses.bitcoin)) _ Q (λ from.
          Gives-after (fetch_if_short w pages rounds addresses.bitcoin amount m) _ Q
            (λ (synced, m₁).
              let balance = get_bitcoin_balance addresses.bitcoin m₁ in
              elim (Bool-cases (synced && ltb balance amount)) [
                | inl short ↦ rw short tt
                | inr enough ↦ rw enough (
                    Gives-after (fee_or_ask w pages rounds fee) _ Q (λ fee_per_vbytes.
                      pay_bitcoin-PaidBy w pages rounds amount receiver addresses from
                        fee_per_vbytes synced balance m₁))
              ])))
