-- ===== src/Wallet/RuneTransfer/Spec.antt =====
-- What a transfer of a rune is: the rune it moves, its outputs and its fee.
use ord_indexer.Base.{
  ℕ, ◌+◌, ◌-◌, ◌*◌, ◌≤◌, ◌<◌, ◌≡◌, refl, Bool, false, List, [], ◌∷◌, ◌++◌, ltb, if◌then◌else◌, done,
  Returns, All, arith, Bool-cases, inl, inr, add64, sub64, u64_size,
}
use ord_indexer.Bitcoin.{ScriptBuf}
use ord_indexer.Runes.{Runestone}
use ord_indexer.Wallet.Sets.{count, sum_by}
use ord_indexer.Wallet.Utxos.{Utxo, RunicUtxo, UtxoManager, btc_set, record_btc_utxos}
use ord_indexer.Wallet.Utxos.Laws.{value_of}
use ord_indexer.Wallet.Select.{RunicPicked}
use ord_indexer.Wallet.Select.Laws.{copies, IsTxid, pick-IsPicked}
use ord_indexer.Wallet.Select.Runic.{balance_in, btc_in, IsRunicTxid}
use ord_indexer.Wallet.Txn.{
  Built, ok, refused, dust_threshold, inputs_for, paid_out, to_inputs-Returns,
}
use ord_indexer.Wallet.RuneOutputs.{need_change_rune_output, required_btc_for_rune_output, plain}
use ord_indexer.Wallet.Transfer.Spec.{IsUsable, Restored, IsPicked-short, IsPicked-Restored}
use ord_indexer.Wallet.RuneTransfer.{Arguments, fee_payer, Draft, outputs_of, build_with_runes}

plain-IsTxid : (us : List RunicUtxo) → All IsRunicTxid us → All IsTxid (plain us)
plain-IsTxid [] h = tt
plain-IsTxid (u ∷ us) h = (h.0, plain-IsTxid us h.1)

module _ (encipher : Runestone → ScriptBuf) (a : Arguments) (fee postage : ℕ) where
  -- Whether the sender gets runes back, and the bitcoin that the outputs with runes carry.
  abbrev pub gives_back : List RunicUtxo → Bool
  gives_back us = need_change_rune_output (balance_in us) a.amount us

  abbrev pub carried : List RunicUtxo → ℕ
  carried us = if gives_back us then postage * 2 else postage

  -- The outputs of a transfer pay what carries the rune, and then the change.
  outputs_of-value :
      (us : List RunicUtxo) (spent : ℕ)
      → btc_in us ≤ carried us
      → fee + (carried us - btc_in us) ≤ spent
      → spent < u64_size
      → (paid_out (
              outputs_of encipher a
                (gives_back us)
                postage
                (sub64 (sub64 spent fee) (carried us - btc_in us)))
            + fee
          ≤ btc_in us + spent)
        × (btc_in us + spent
            ≤ paid_out (
                outputs_of encipher a
                  (gives_back us)
                  postage
                  (sub64 (sub64 spent fee) (carried us - btc_in us)))
              + fee
              + dust_threshold)
  unfolding sum_by
  outputs_of-value us spent le enough fits = (ground arith, ground arith)

  -- A transfer spends the runic outputs first and then outputs of the payer, which all leave the
  -- record. It spends no fewer runes than it moves, and exactly those if nothing goes back; and
  -- it loses no more bitcoin than the dust beside its fee.
  pub record IsSent (m : UtxoManager) (d : Draft) (m' : UtxoManager) : Type 0 where
    pub inputs : d.txn.input ≡ inputs_for (plain d.runic_utxos) ++ inputs_for d.fee_utxos
    pub enough_runes : a.amount ≤ balance_in d.runic_utxos
    pub exact_runes : gives_back d.runic_utxos ≡ false → balance_in d.runic_utxos ≡ a.amount
    pub fee_spent :
        (u : Utxo)
        → copies u d.fee_utxos + copies u (btc_set (fee_payer a) m')
          ≡ copies u (btc_set (fee_payer a) m)
    pub outputs :
        (change : ℕ) × (d.txn.output
          ≡ outputs_of encipher a (gives_back d.runic_utxos) postage change)
    pub least_fee : paid_out d.txn.output + fee ≤ btc_in d.runic_utxos + value_of d.fee_utxos
    pub most_fee :
        btc_in d.runic_utxos + value_of d.fee_utxos ≤ paid_out d.txn.output + fee + dust_threshold

  -- The result once the runic outputs are picked: a transfer, or a payer who holds less than the fee
  -- and the missing postage, and the payer's record restored.
  unfoldable pub IsBuiltWith :
      List RunicUtxo → UtxoManager → Built (ℕ × ℕ) Draft × UtxoManager → Type 0
  IsBuiltWith us m (ok d, m') = (d.runic_utxos ≡ us) × (m'.r ≡ m.r) × IsSent m d m'
  IsBuiltWith us m (refused need, m') =
      (need ≡ (0, fee))
      × (m'.r ≡ m.r)
      × (value_of (btc_set (fee_payer a) m) < fee + (carried us - btc_in us))
      × Restored (fee_payer a) m m'

  pub build_with_runes-IsBuiltWith :
      (r : RunicPicked)
      → r.sum ≡ balance_in r.utxos
      → r.btc ≡ btc_in r.utxos
      → All IsRunicTxid r.utxos
      → a.amount ≤ balance_in r.utxos
      → btc_in r.utxos ≤ carried r.utxos
      → fee + postage * 2 < u64_size
      → IsUsable (fee_payer a) r.manager
      → Returns (build_with_runes encipher a fee postage r) (IsBuiltWith r.utxos r.manager)
  unfolding build_with_runes IsBuiltWith sum_by count record_btc_utxos
  build_with_runes-IsBuiltWith r summed btc_summed ids enough le fits usable =
      let us = r.utxos in
      let actual : ℕ = carried us - btc_in us in
      let need : ℕ = fee + actual in
      let required : required_btc_for_rune_output (need_change_rune_output r.sum a.amount us)
            postage
          ≡ done (carried us) =
        rw summed (ground arith) in
      let carries : carried us < u64_size = ground arith in
      let actual_lem : sub64 (carried us) r.btc ≡ actual = omega arith in
      let need_lem : add64 fee actual ≡ need = ground arith in
      let stop : ℕ → Bool = λ sum. ltb need sum in
      let (p, runs, q) = pick-IsPicked stop (fee_payer a) r.manager usable.fits usable.txids in
      rw (required, actual_lem, need_lem, runs)
        (elim (Bool-cases (ltb p.sum need)) [
          | inl short ↦ rw short (
            refl,
            q.runic,
            IsPicked-short stop need (fee_payer a) r.manager p (λ h. ground arith) q (ground arith),
            IsPicked-Restored stop (fee_payer a) r.manager p usable.once q,
          )
          | inr rich ↦
              let reached : need ≤ p.sum = ground arith in
              let spent : p.sum < u64_size = omega (arith, q.value, q.summed, usable.fits) in
              let (least, most) = outputs_of-value us p.sum le reached spent in
              rw
                (
                  rich,
                  to_inputs-Returns (plain us) (plain-IsTxid us ids),
                  to_inputs-Returns p.utxos q.txids,
                  summed,
                )
                (
                  refl,
                  q.runic,
                  record {
                    inputs = refl;
                    enough_runes = enough;
                    exact_runes = λ h. ground arith;
                    fee_spent = λ u. omega (arith, q.split u);
                    outputs = (sub64 (sub64 p.sum fee) actual, refl);
                    least_fee = omega (arith, q.summed);
                    most_fee = omega (arith, q.summed);
                  },
                )
        ])
