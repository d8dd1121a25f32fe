-- ===== src/Wallet/MultiSend/Amounts.antt =====
-- The amounts of a payment of two senders: each output, and their sum.
use ord_indexer.Base.{
  ℕ, ◌+◌, ◌-◌, ◌*◌, ◌≤◌, ◌<◌, ◌≡◌, ap, List, if◌then◌else◌, arith, All, refl, ltb, Bool-cases, inl,
  inr, add64, sub64, u64_size,
}
use ord_indexer.Bitcoin.{TxOut}
use ord_indexer.Wallet.Sets.{sum_by, sum_by-append}
use ord_indexer.Wallet.Txn.{Address, dust_threshold, paid_out}
use ord_indexer.Wallet.MultiSend.{Arguments, fee_halves, total_amounts, change, outputs_of}

-- What a sender gets back of the value spent over a share: all but dust, to their own script.
abbrev pub IsChange : Address → ℕ → ℕ → List TxOut → Type 0
IsChange address spent share rest =
    All
      (λ (out : TxOut). (out.script_pubkey ≡ address.script_pubkey) × (dust_threshold < out.value))
      rest
    × (paid_out rest + share ≤ spent)
    × (spent ≤ paid_out rest + share + dust_threshold)

pub change-IsChange :
    (address : Address) (spent share : ℕ)
    → share ≤ spent
    → spent < u64_size
    → IsChange address spent share (change address (sub64 spent share))
unfolding sum_by
change-IsChange address spent share enough fits =
    let left : sub64 spent share ≡ spent - share = omega arith in
    rw left (elim (Bool-cases (ltb dust_threshold (spent - share))) [
      | inl large ↦ rw large (((refl, ground arith), tt), omega arith, omega arith)
      | inr small ↦ rw small (tt, omega arith, ground arith)
    ])

module _ (a : Arguments) (fee : ℕ) where
  -- Amounts and fee fit a word together, and a receiver who pays gets enough to pay.
  unfoldable pub IsPayable : Type 0
  IsPayable =
      (a.amount0 + a.amount1 + fee < u64_size)
      × (if a.paid_by_sender then Unit {0} else fee ≤ a.amount0 + a.amount1)

  abbrev pub received : ℕ
  received = if a.paid_by_sender then a.amount0 + a.amount1 else a.amount0 + a.amount1 - fee

  change-value :
      (address : Address) (n : ℕ)
      → (paid_out (change address n) ≤ n) × (n ≤ paid_out (change address n) + dust_threshold)
  unfolding sum_by
  change-value address n = (ground arith, ground arith)

  fee_halves_sum : fee < u64_size → (fee_halves fee).0 + (fee_halves fee).1 ≡ fee
  fee_halves_sum h = ground arith

  total_amounts-sum : IsPayable → (total_amounts a fee).0 + (total_amounts a fee).1 ≡ received + fee
  unfolding IsPayable
  total_amounts-sum payable =
      let halves = fee_halves_sum (omega (arith, payable.0)) in ground (arith, halves)

  abbrev pub sent : ℕ
  sent =
      let (fee0, fee1) = fee_halves fee in
      if a.paid_by_sender
      then add64 a.amount0 a.amount1
      else sub64 (sub64 (add64 a.amount0 a.amount1) fee0) fee1

  pub sent_lem : IsPayable → sent ≡ received
  unfolding IsPayable
  sent_lem payable =
      let halves = fee_halves_sum (omega (arith, payable.0)) in ground (arith, halves)

  abbrev pub change0 : ℕ → List TxOut
  change0 spent = change a.address0 (sub64 spent (total_amounts a fee).0)

  abbrev pub change1 : ℕ → List TxOut
  change1 spent = change a.address1 (sub64 spent (total_amounts a fee).1)

  paid_out-outputs_of :
      (spent0 spent1 : ℕ)
      → paid_out (outputs_of a fee spent0 spent1)
        ≡ sent + (paid_out (change0 spent0) + paid_out (change1 spent1))
  unfolding outputs_of sum_by
  paid_out-outputs_of spent0 spent1 =
      ap (λ n. sent + n)
        (sum_by-append (λ (out : TxOut). out.value) (change0 spent0) (change1 spent1))

  pub outputs_of-value :
      (spent0 spent1 : ℕ)
      → IsPayable
      → (total_amounts a fee).0 ≤ spent0
      → (total_amounts a fee).1 ≤ spent1
      → spent0 < u64_size
      → spent1 < u64_size
      → (paid_out (outputs_of a fee spent0 spent1) + fee ≤ spent0 + spent1)
        × (spent0 + spent1 ≤ paid_out (outputs_of a fee spent0 spent1) + fee + 2 * dust_threshold)
  outputs_of-value spent0 spent1 payable enough0 enough1 fits0 fits1 =
      let (total0, total1) = total_amounts a fee in
      let (up0, low0) = change-value a.address0 (sub64 spent0 total0) in
      let (up1, low1) = change-value a.address1 (sub64 spent1 total1) in
      let paid = paid_out-outputs_of spent0 spent1 in
      let left0 : sub64 spent0 total0 ≡ spent0 - total0 = omega arith in
      let left1 : sub64 spent1 total1 ≡ spent1 - total1 = omega arith in
      let value = sent_lem payable in
      let totals = total_amounts-sum payable in (omega arith, omega arith)
