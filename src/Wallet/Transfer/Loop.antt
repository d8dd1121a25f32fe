-- ===== src/Wallet/Transfer/Loop.antt =====
-- The search for the fee: its rounds start from the same outputs, and where it ends the fee is the
-- one of the transaction's size.
use ord_indexer.Base.{
  ℕ, zero, suc, ◌+◌, ◌≤◌, ◌<◌, ◌≡◌, refl, ◌∙◌, Bool, Option, none, some, List, ◌==◌, Outcome, done,
  Returns, Returns-eq, Ensures, Ensures-done, ◌⊎◌, ◌≢◌, arith, Bool-cases, inl, inr,
}
use ord_indexer.Bitcoin.{Transaction}
use ord_indexer.Wallet.Sets.{insert_all_lem, All-insert_all}
use ord_indexer.Wallet.Utxos.{Addr, Utxo, Utxo-discrete, UtxoManager, btc_set, record_btc_utxos}
use ord_indexer.Wallet.Utxos.Laws.{value_of}
use ord_indexer.Wallet.Select.Laws.{copies, IsTxid}
use ord_indexer.Wallet.Txn.{Address, Built, ok, refused, fee_of, Built-bind}
use ord_indexer.Wallet.Kinds.{Account, Bitcoin}
use ord_indexer.Wallet.Transfer.{build_transaction_with_fee, transfer_loop, transfer}
use ord_indexer.Wallet.Transfer.Spec.{
  btc_set-record_same, IsUsable, Restored, IsPayment, IsBuilt, IsPayable,
  build_transaction_with_fee-IsBuilt,
}

-- Outputs taken by a payment and put back: the record is usable again and holds what it held.
IsPayment-back :
    (addr : Addr) (from to : Address) (amount fee : ℕ) (paid_by_sender : Bool) (m : UtxoManager)
    (tx : Transaction) (us : List Utxo) (m' : UtxoManager)
    → IsUsable addr m
    → IsPayment addr from to amount fee paid_by_sender m tx us m'
    → Restored addr m (record_btc_utxos addr us m') × IsUsable addr (record_btc_utxos addr us m')
IsPayment-back addr from to amount fee paid_by_sender m tx us m' usable pay =
    let once : (b : Utxo) → copies b us + copies b (btc_set addr m') ≤ 1 =
      λ b. omega (arith, pay.spent b, usable.once b) in
    let (copied, valued) =
      insert_all_lem Utxo-discrete (λ (x : Utxo). x.value) us (btc_set addr m') once in
    let back = btc_set-record_same addr us m' in
    (
      record { held = λ a. rw back (copied a ∙ pay.spent a); value = rw back (valued ∙ pay.worth) },
      record {
        once = λ a. rw back omega (arith, copied a, once a);
        fits = rw back omega (arith, valued, pay.worth, usable.fits);
        txids =
            rw back
              (All-insert_all Utxo-discrete IsTxid us (btc_set addr m') pay.txids pay.txids_left);
      },
    )

Restored-trans :
    (addr : Addr) (m n o : UtxoManager) → Restored addr m n → Restored addr n o → Restored addr m o
Restored-trans addr m n o h k = record {
  held = λ a. k.held a ∙ h.held a;
  value = k.value ∙ h.value;
}

Restored-refl : (addr : Addr) (m : UtxoManager) → Restored addr m m
Restored-refl addr m = record { held = λ a. refl; value = refl }

module _ (vsize : Transaction → ℕ) (addr : Addr) (account : Account) (from to : Address)
    (amount : ℕ) (paid_by_sender : Bool) (fee_per_vbytes : ℕ) where
  abbrev fee_at : Transaction → ℕ
  fee_at tx = fee_of (vsize tx) fee_per_vbytes

  -- What the loop gives: nothing yet, a refusal with the record restored, or a payment at the fee of
  -- its own size.
  unfoldable pub IsTransfer : UtxoManager → Option (Built ℕ Bitcoin × UtxoManager) → Type 0
  IsTransfer m none = Unit
  IsTransfer m (some (refused need, m')) = (value_of (btc_set addr m) < need) × Restored addr m m'
  IsTransfer m (some (ok b, m')) =
      (b.fee ≡ fee_at b.txn) × IsPayment addr from to amount b.fee paid_by_sender m b.txn b.utxos m'

  IsPayment-from :
      (fee : ℕ) (m n : UtxoManager) (tx : Transaction) (us : List Utxo) (m' : UtxoManager)
      → Restored addr m n
      → IsPayment addr from to amount fee paid_by_sender n tx us m'
      → IsPayment addr from to amount fee paid_by_sender m tx us m'
  IsPayment-from fee m n tx us m' same pay = record {
    inputs = pay.inputs;
    spent = λ a. pay.spent a ∙ same.held a;
    worth = pay.worth ∙ same.value;
    txids = pay.txids;
    txids_left = pay.txids_left;
    receiver = pay.receiver;
    least_fee = pay.least_fee;
    most_fee = pay.most_fee;
  }

  abbrev build_at : ℕ → UtxoManager → Outcome (Built ℕ (Transaction × List Utxo) × UtxoManager)
  build_at fee n = build_transaction_with_fee addr from to amount fee paid_by_sender n

  -- A condition on what a round builds.
  abbrev WhenBuilt :
      (Transaction → List Utxo → UtxoManager → Type 0)
      → Built ℕ (Transaction × List Utxo) × UtxoManager
      → Type 0
  WhenBuilt K (refused need, m') = Unit
  WhenBuilt K (ok (tx, us), m') = K tx us m'

  -- The rounds of the loop, from a fee and a record on, as far as they go: each is the last, or asks
  -- for a larger fee within the bound.
  unfoldable pub Rises : ℕ → ℕ → ℕ → UtxoManager → Type 0
  Rises bound zero fee n = Unit
  Rises bound (suc k) fee n = Ensures (build_at fee n) (
      WhenBuilt (λ tx us m'.
        (fee_at tx ≡ fee)
        ⊎ ((fee < fee_at tx)
            × (fee_at tx ≤ bound)
            × Rises bound k (fee_at tx) (record_btc_utxos addr us m'))))

  abbrev pub IsEnded : Option (Built ℕ Bitcoin × UtxoManager) → Type 0
  IsEnded none = ⊥
  IsEnded (some r) = Unit

  transfer_loop-IsTransfer :
      (bound fuel fee : ℕ) (m n : UtxoManager)
      → Restored addr m n
      → IsUsable addr n
      → ((f : ℕ) → f ≤ bound → IsPayable addr from to amount f paid_by_sender)
      → Rises bound fuel fee n
      → fee ≤ bound
      → bound < fuel + fee
      → Returns
          (transfer_loop vsize addr account from to amount paid_by_sender fee_per_vbytes fuel fee n)
          (λ r. IsTransfer m r × IsEnded r)
  unfolding transfer_loop IsTransfer IsBuilt Rises
  transfer_loop-IsTransfer bound zero fee m n same usable payable rises le enough =
      absurd (omega arith)
  transfer_loop-IsTransfer bound (suc fuel) fee m n same usable payable rises le enough =
      let P : Built ℕ (Transaction × List Utxo) × UtxoManager → Type 0 =
        IsBuilt addr from to amount fee paid_by_sender n in
      let built =
        build_transaction_with_fee-IsBuilt addr from to amount fee paid_by_sender n usable
          (payable fee le) in
      Built-bind (build_at fee n) _ (λ r. P r × (build_at fee n ≡ done r)) _
        (Returns-eq (build_at fee n) P built)
        (λ need m' (h, e).
          ((omega (arith, h.1, same.value), Restored-trans addr m n m' same h.2), tt))
        (λ (tx, us) m' (h, e).
          let (back, again) =
            IsPayment-back addr from to amount fee paid_by_sender n tx us m' usable h in
          elim (Bool-cases (fee_at tx == fee)) [
            | inl settled ↦ rw settled ((ground arith, IsPayment-from fee m n tx us m' same h), tt)
            | inr other ↦
                let apart : fee_at tx ≢ fee = ground arith in
                rw other (elim (Ensures-done (build_at fee n) _ (ok (tx, us), m') rises e) [
                  | inl settled ↦ absurd (apart settled)
                  | inr (more, most, next) ↦
                      transfer_loop-IsTransfer bound fuel (fee_at tx) m
                        (record_btc_utxos addr us m')
                        (Restored-trans addr m n (record_btc_utxos addr us m') same back) again
                        payable next most (omega arith)
                ])
          ])

  -- Where the record is usable, each round of the call asks for a larger fee within a bound or is the
  -- last, and no fee up to the bound makes an overflow, one round more than the bound is enough: the
  -- loop ends, without a panic, in a refusal for lack of value, with the record restored, or in a
  -- payment at the fee of its own size.
  pub transfer-IsTransfer :
      (bound : ℕ) (m : UtxoManager)
      → IsUsable addr m
      → ((f : ℕ) → f ≤ bound → IsPayable addr from to amount f paid_by_sender)
      → Rises bound (suc bound) 0 m
      → Returns
          (transfer vsize addr account from to amount paid_by_sender fee_per_vbytes (suc bound) m)
          (λ r. IsTransfer m r × IsEnded r)
  unfolding transfer
  transfer-IsTransfer bound m usable payable rises =
      transfer_loop-IsTransfer bound (suc bound) 0 m m (Restored-refl addr m) usable payable rises
        (omega arith) (omega arith)
