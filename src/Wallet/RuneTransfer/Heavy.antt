-- ===== src/Wallet/RuneTransfer/Heavy.antt =====
-- Runic outputs that carry more bitcoin than the outputs of the transfer need.
use ord_indexer.Base.{
  ℕ, ◌+◌, ◌*◌, ◌<◌, ◌≡◌, refl, Bool, true, ltb, done, Returns, arith, add64, sub64, u64_size,
}
use ord_indexer.Bitcoin.{ScriptBuf}
use ord_indexer.Runes.{Runestone}
use ord_indexer.Wallet.Sets.{sum_by}
use ord_indexer.Wallet.Utxos.{btc_set, record_btc_utxos}
use ord_indexer.Wallet.Utxos.Laws.{value_of}
use ord_indexer.Wallet.Select.{RunicPicked}
use ord_indexer.Wallet.Select.Laws.{pick-IsPicked}
use ord_indexer.Wallet.Select.Runic.{balance_in, btc_in}
use ord_indexer.Wallet.Txn.{refused}
use ord_indexer.Wallet.RuneOutputs.{need_change_rune_output, required_btc_for_rune_output}
use ord_indexer.Wallet.Transfer.Spec.{IsUsable}
use ord_indexer.Wallet.RuneTransfer.{Arguments, fee_payer, build_with_runes}
use ord_indexer.Wallet.RuneTransfer.Spec.{carried}

module _ (encipher : Runestone → ScriptBuf) (a : Arguments) (fee postage : ℕ) where
  -- Where the picked runic outputs carry more bitcoin than the outputs of the transfer and the fee
  -- need together, and this bitcoin and the payer's fit a word, the builder refuses the transfer for
  -- its fee, and the runic outputs that were picked stay out of the record.
  pub build_with_runes_heavy :
      (r : RunicPicked)
      → r.sum ≡ balance_in r.utxos
      → r.btc ≡ btc_in r.utxos
      → carried encipher a fee postage r.utxos + fee < btc_in r.utxos
      → btc_in r.utxos + value_of (btc_set (fee_payer a) r.manager) < u64_size
      → postage * 2 < u64_size
      → IsUsable (fee_payer a) r.manager
      → Returns
          (build_with_runes encipher a fee postage r)
          (λ x. (x.0 ≡ refused (0, fee)) × (x.1.r ≡ r.manager.r))
  unfolding build_with_runes sum_by record_btc_utxos
  build_with_runes_heavy r summed btc_summed heavy fits small usable =
      let us = r.utxos in
      let carries : ℕ = carried encipher a fee postage us in
      let required : required_btc_for_rune_output (need_change_rune_output r.sum a.amount us)
            postage
          ≡ done carries =
        rw summed (ground arith) in
      let need : ℕ = add64 fee (sub64 carries r.btc) in
      let need_lem : need + btc_in us ≡ u64_size + carries + fee = omega arith in
      let stop : ℕ → Bool = λ sum. ltb need sum in
      let (p, runs, q) = pick-IsPicked stop (fee_payer a) r.manager usable.fits usable.txids in
      let less : p.sum < need = omega (arith, q.value, q.summed, need_lem) in
      let short : ltb p.sum need ≡ true = ground (arith, less) in
      rw (required, runs, short) (refl, q.runic)
