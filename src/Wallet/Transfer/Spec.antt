-- ===== src/Wallet/Transfer/Spec.antt =====
-- What a payment in bitcoin is: its inputs, its outputs, its fee, and the record after it.
use ord_indexer.Base.{
  ℕ, ◌+◌, ◌-◌, ◌≤◌, ◌<◌, ◌≡◌, ◌≢◌, refl, Bool, true, List, [], ◌∷◌, ltb, if◌then◌else◌, Returns,
  All, arith, Bool-cases, inl, inr, sub64, u64_size,
}
use ord_indexer.Bitcoin.{TxOut, Transaction}
use ord_indexer.Wallet.Sets.{count, sum_by, IsOnce, insert_all, insert_all_lem}
use ord_indexer.Wallet.Utxos.{Addr, Utxo, Utxo-discrete, UtxoManager, btc_set, record_btc_utxos}
use ord_indexer.Wallet.Utxos.Laws.{value_of, btc_set-record}
use ord_indexer.Wallet.Select.{Picked}
use ord_indexer.Wallet.Select.Laws.{copies, IsTxid, IsPicked, pick-IsPicked}
use ord_indexer.Wallet.Txn.{
  Address, Built, ok, refused, dust_threshold, inputs_for, paid_out, to_inputs-Returns,
}
use ord_indexer.Wallet.Transfer.{total_amount, outputs_of, build_transaction_with_fee}

-- The set of an address after outputs that were taken from it are put back.
pub btc_set-record_same :
    (addr : Addr) (us : List Utxo) (m : UtxoManager)
    → btc_set addr (record_btc_utxos addr us m) ≡ insert_all Utxo-discrete us (btc_set addr m)
btc_set-record_same addr us m = ground (arith, btc_set-record addr addr us m)

-- The record is usable: no output twice, values that fit a word, txids of 32 bytes.
pub record IsUsable (addr : Addr) (m : UtxoManager) : Type 0 where
  pub once : IsOnce Utxo-discrete (btc_set addr m)
  pub fits : value_of (btc_set addr m) < u64_size
  pub txids : All IsTxid (btc_set addr m)

-- Outputs that were taken and are put back: the set holds what it held.
pub record Restored (addr : Addr) (m m' : UtxoManager) : Type 0 where
  pub held : (a : Utxo) → copies a (btc_set addr m') ≡ copies a (btc_set addr m)
  pub value : value_of (btc_set addr m') ≡ value_of (btc_set addr m)

pub IsPicked-Restored :
    (stop : ℕ → Bool) (addr : Addr) (m : UtxoManager) (p : Picked)
    → IsOnce Utxo-discrete (btc_set addr m)
    → IsPicked stop addr [] m p
    → Restored addr m (record_btc_utxos addr p.utxos p.manager)
unfolding count sum_by
IsPicked-Restored stop addr m p once q =
    let (copied, valued) =
      insert_all_lem Utxo-discrete (λ (x : Utxo). x.value) p.utxos (btc_set addr p.manager)
        (λ b. omega (arith, q.split b, once b)) in
    let back = btc_set-record_same addr p.utxos p.manager in
    record {
      held = λ a. rw back omega (arith, copied a, q.split a);
      value = rw back omega (arith, valued, q.value);
    }

-- Where the loop ended short of what it should reach, the address holds less than that.
pub IsPicked-short :
    (stop : ℕ → Bool) (need : ℕ) (addr : Addr) (m : UtxoManager) (p : Picked)
    → (stop p.sum ≡ true → need ≤ p.sum)
    → IsPicked stop addr [] m p
    → p.sum < need
    → value_of (btc_set addr m) < need
unfolding sum_by
IsPicked-short stop need addr m p enough q short = elim q.ended [
  | inl empty ↦
      let gone : value_of (btc_set addr p.manager) ≡ 0 = rw empty refl in
      omega (arith, q.value, q.summed, gone)
  | inr stopped ↦ absurd (omega (arith, enough stopped))
]

-- Only the sets of the address matter.
pub Restored-resp :
    (addr : Addr) (m m' n n' : UtxoManager)
    → btc_set addr n ≡ btc_set addr m
    → btc_set addr n' ≡ btc_set addr m'
    → Restored addr m m'
    → Restored addr n n'
Restored-resp addr m m' n n' e e' h = record {
  held = λ a. rw (e, e') (h.held a);
  value = rw (e, e') h.value;
}

pub btc_set-record_other :
    (addr a : Addr) (us : List Utxo) (m : UtxoManager)
    → a ≢ addr
    → btc_set a (record_btc_utxos addr us m) ≡ btc_set a m
btc_set-record_other addr a us m h = ground (arith, btc_set-record addr a us m)

module _ (addr : Addr) (from to : Address) (amount fee : ℕ) (paid_by_sender : Bool) where
  -- What the amount is that the receiver gets.
  abbrev received : ℕ
  received = if paid_by_sender then amount else amount - fee

  -- A payment spends outputs of the sender, all of which leave the record, pays the receiver first,
  -- and loses no more than the dust beside its fee.
  pub record IsPayment (m : UtxoManager) (tx : Transaction) (us : List Utxo) (m' : UtxoManager)
      : Type 0 where
    pub inputs : tx.input ≡ inputs_for us
    pub spent : (a : Utxo) → copies a us + copies a (btc_set addr m') ≡ copies a (btc_set addr m)
    pub worth : value_of us + value_of (btc_set addr m') ≡ value_of (btc_set addr m)
    pub txids : All IsTxid us
    pub txids_left : All IsTxid (btc_set addr m')
    pub receiver :
        (rest : List TxOut) × (tx.output
          ≡ record { value = received; script_pubkey = to.script_pubkey } ∷ rest)
        × All
            (λ (out : TxOut).
              (out.script_pubkey ≡ from.script_pubkey) × (dust_threshold < out.value))
            rest
    pub least_fee : paid_out tx.output + fee ≤ value_of us
    pub most_fee : value_of us ≤ paid_out tx.output + fee + dust_threshold

  -- The result of the builder: a payment, or what would have been needed and the record restored.
  unfoldable pub IsBuilt : UtxoManager → Built ℕ (Transaction × List Utxo) × UtxoManager → Type 0
  IsBuilt m (ok (tx, us), m') = IsPayment m tx us m'
  IsBuilt m (refused need, m') =
      (need ≡ total_amount amount fee paid_by_sender)
      × (value_of (btc_set addr m) < need)
      × Restored addr m m'

  -- The fee is part of the amount, or added to it, without an overflow.
  unfoldable pub IsPayable : Type 0
  IsPayable =
      if paid_by_sender then amount + fee < u64_size else (fee ≤ amount) × (amount < u64_size)

  outputs_of-value :
      (spent : ℕ)
      → IsPayable
      → total_amount amount fee paid_by_sender ≤ spent
      → spent < u64_size
      → (paid_out (outputs_of from to amount fee paid_by_sender spent) + fee ≤ spent)
        × (spent
            ≤ paid_out (outputs_of from to amount fee paid_by_sender spent) + fee + dust_threshold)
  unfolding outputs_of sum_by IsPayable
  outputs_of-value spent payable enough fits = (ground arith, ground arith)

  outputs_of-receiver :
      (spent : ℕ)
      → IsPayable
      → (rest : List TxOut) × (outputs_of from to amount fee paid_by_sender spent
          ≡ record { value = received; script_pubkey = to.script_pubkey } ∷ rest)
        × All
            (λ (out : TxOut).
              (out.script_pubkey ≡ from.script_pubkey) × (dust_threshold < out.value))
            rest
  unfolding outputs_of IsPayable
  outputs_of-receiver spent payable =
      let change = sub64 spent (total_amount amount fee paid_by_sender) in
      elim (Bool-cases (ltb dust_threshold change)) [
        | inl large ↦ (
          record { value = change; script_pubkey = from.script_pubkey } ∷ [],
          ground arith,
          ((refl, ground arith), tt),
        )
        | inr small ↦ ([], ground arith, tt)
      ]

  -- For a usable record and a fee without overflow the builder does not panic. It gives a payment, or
  -- it refuses for lack of value, and then the record holds what it held.
  pub build_transaction_with_fee-IsBuilt :
      (m : UtxoManager)
      → IsUsable addr m
      → IsPayable
      → Returns (build_transaction_with_fee addr from to amount fee paid_by_sender m) (IsBuilt m)
  unfolding build_transaction_with_fee IsBuilt sum_by count
  build_transaction_with_fee-IsBuilt m usable payable =
      let total = total_amount amount fee paid_by_sender in
      let stop : ℕ → Bool = λ sum. ltb total sum in
      let (p, runs, q) = pick-IsPicked stop addr m usable.fits usable.txids in
      rw runs (elim (Bool-cases (ltb p.sum total)) [
        | inl short ↦ rw short (
          refl,
          IsPicked-short stop total addr m p (λ h. ground arith) q (ground arith),
          IsPicked-Restored stop addr m p usable.once q,
        )
        | inr enough ↦
            rw (enough, to_inputs-Returns p.utxos q.txids)
              (let reached : total ≤ p.sum = ground arith in
                let fits : p.sum < u64_size = omega (arith, q.value, q.summed, usable.fits) in
                let (least, most) = outputs_of-value p.sum payable reached fits in
                record {
                  inputs = refl;
                  spent = λ a. omega (arith, q.split a);
                  worth = omega (arith, q.value);
                  txids = q.txids;
                  txids_left = q.txids_left;
                  receiver = outputs_of-receiver p.sum payable;
                  least_fee = omega (arith, q.summed);
                  most_fee = omega (arith, q.summed);
                })
      ])
