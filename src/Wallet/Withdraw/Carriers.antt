-- ===== src/Wallet/Withdraw/Carriers.antt =====
-- What the transfer of runes leaves to be sent (wallet/src/bitcoin/runestone.rs and the variant of rune
-- transfers in wallet/src/transaction_handler.rs), for the withdrawal of runes.
use ord_indexer.Base.{
  refl, ap, ◌∙◌, ℕ, zero, suc, ◌≤◌, ◌<◌, ◌≡◌, false, List, [], ◌∷◌, ◌++◌, map, All, length, ltb,
  ◌==◌, arith, Ensures, ◌⊎◌, sub64, add64, Ensures-after, Ensures-bind, Bool-cases, inl, inr,
}
use ord_indexer.Bitcoin.{OutPoint, TxIn, TxOut}
use ord_indexer.Runes.{RuneId}
use ord_indexer.Wallet.Utxos.{
  Utxo, RunicUtxo, UtxoManager, fold_balance, record_btc_utxos, record_runic_utxos,
}
use ord_indexer.Wallet.Txn.{
  Address, Built, ok, refused, outpoint_of, to_input, to_inputs, fee_of, Built-ensures,
}
use ord_indexer.Wallet.Kinds.{RunestoneTransfer}
use ord_indexer.Wallet.RuneOutputs.{
  rune_outputs, runestone_for, postage_to, default_postage, required_btc_for_rune_output, plain,
  need_change_rune_output,
}
use ord_indexer.Wallet.Select.{pick, pick_runic}
use ord_indexer.Wallet.Submit.Sums.{pick_runic-sum}
use ord_indexer.Wallet.RuneTransfer.{
  Arguments, Draft, fee_payer, build_with_runes, build_transaction_with_fee, transfer_loop,
}
use ord_indexer.Wallet.Submit.{Unsigned, runestone_txn}
use ord_indexer.Wallet.Flow.{WhenSome, Gives}
use ord_indexer.Wallet.Withdraw.{World}
use ord_indexer.Wallet.Withdraw.Sending.{spends}
use ord_indexer.Wallet.Withdraw.Known.{
  Knows, Knows-resp, record_runic_utxos-Knows, pick_runic-Knows, pick-Knows, picked_bind,
}

-- The outputs that carry the rune. Where the spent balances are the amount, in one output at most, the
-- receiver's output comes first. Otherwise a runestone that sends the amount to output 2 comes first,
-- then an output for the sender and the receiver's, which is output 2.
abbrev pub PaysRunes :
    World → RuneId → ℕ → Address → Address → ℕ → List RunicUtxo → List TxOut → Type 0
PaysRunes w runeid amount sender receiver postage us output =
    ((fold_balance 0 us ≡ amount)
      × (length us ≤ 1)
      × ((rest : List TxOut) × (output ≡ postage_to receiver postage ∷ rest)))
    ⊎ (((amount < fold_balance 0 us) ⊎ (1 < length us))
        × ((rest : List TxOut) × (output
              ≡ record { value = 0; script_pubkey = w.encipher (runestone_for runeid amount) }
                ∷ postage_to sender postage
                ∷ postage_to receiver postage
                ∷ rest)))

-- A transaction spends outputs that are as they should be and hold the amount of the rune, and then
-- others, and pays the rune like that.
abbrev pub Carries :
    (RunicUtxo → Type 0)
    → World
    → RuneId
    → ℕ
    → Address
    → Address
    → ℕ
    → List OutPoint
    → List TxOut
    → Type 0
Carries P w runeid amount sender receiver postage spent output =
    (us : List RunicUtxo) × (others : List OutPoint) × All P us
    × (spent ≡ map outpoint_of (plain us) ++ others)
    × (amount ≤ fold_balance 0 us)
    × PaysRunes w runeid amount sender receiver postage us output

-- What waits for its signatures has the rune, the amount and the addresses that were asked for, and
-- outputs that are as they should be and hold the amount.
pub record IsFor (P : RunicUtxo → Type 0) (a : Arguments) (t : RunestoneTransfer) : Type 0 where
  runeid : t.runeid ≡ a.runeid
  amount : t.amount ≡ a.amount
  sender_address : t.sender_address ≡ a.sender_address
  receiver_address : t.receiver_address ≡ a.receiver_address
  postage : t.postage ≡ default_postage
  known : All P t.runic_utxos
  enough : ltb (fold_balance 0 t.runic_utxos) t.amount ≡ false

to_inputs-spent :
    (us : List Utxo)
    → Ensures (to_inputs us) (λ is. map (λ (i : TxIn). i.previous_output) is ≡ map outpoint_of us)
unfolding to_inputs to_input
to_inputs-spent [] = refl
to_inputs-spent (u ∷ us) = elim (Bool-cases (length u.txid == 32)) [
  | inl whole ↦ rw whole (
      Ensures-bind (to_inputs us) _ _ _ (to_inputs-spent us)
        (λ is same. ap (λ l. outpoint_of u ∷ l) same))
  | inr other ↦ rw other tt
]

map-append : {A B : Type 0} (f : A → B) (xs ys : List A) → map f (xs ++ ys) ≡ map f xs ++ map f ys
map-append f [] ys = refl
map-append f (x ∷ xs) ys = ap (λ l. f x ∷ l) (map-append f xs ys)

rune_outputs-PaysRunes :
    (w : World) (runeid : RuneId) (amount : ℕ) (sender receiver : Address) (postage : ℕ)
    (us : List RunicUtxo) (rest : List TxOut)
    → amount ≤ fold_balance 0 us
    → PaysRunes w runeid amount sender receiver postage us (
        rune_outputs w.encipher runeid amount
          (need_change_rune_output (fold_balance 0 us) amount us)
          sender
          receiver
          postage
        ++ rest)
rune_outputs-PaysRunes w runeid amount sender receiver postage us rest enough =
    elim (Bool-cases (ltb amount (fold_balance 0 us))) [
      | inl more ↦ rw more (inr (inl (ground arith), (rest, refl)))
      | inr whole ↦ elim (Bool-cases (ltb 1 (length us))) [
        | inl several ↦ rw (whole, several) (inr (inr (ground arith), (rest, refl)))
        | inr one ↦ rw (whole, one) (inl (ground arith, ground arith, (rest, refl)))
      ]
    ]

module _ (P : RunicUtxo → Type 0) (w : World) (a : Arguments) where
  abbrev pub Good : UtxoManager → Type 0
  Good m = Knows P a.sender_addr a.runeid m

  abbrev IsGood : Built (ℕ × ℕ) Draft × UtxoManager → Type 0
  IsGood (refused e, m) = Good m
  IsGood (ok d, m) =
      Good m × All P d.runic_utxos × (ltb (fold_balance 0 d.runic_utxos) a.amount ≡ false)

  build-IsGood :
      (fee postage : ℕ) (m : UtxoManager)
      → Good m
      → Ensures (build_transaction_with_fee w.encipher a fee postage m) IsGood
  unfolding build_transaction_with_fee build_with_runes record_btc_utxos
  build-IsGood fee postage m good =
      picked_bind (pick_runic (λ sum. ltb a.amount sum) a.sender_addr a.runeid m) _ _ IsGood
        (pick_runic-Knows P a.sender_addr a.runeid (λ sum. ltb a.amount sum) m good)
        (λ r runs (all, left).
          let need_change = need_change_rune_output r.sum a.amount r.utxos in
          let (balance, btc) = pick_runic-sum _ a.sender_addr a.runeid m r runs in
          elim (Bool-cases (ltb r.sum a.amount)) [
            | inl short ↦ rw short (
                record_runic_utxos-Knows P a.sender_addr a.runeid a.runeid r.utxos r.manager
                  (λ _. all) left)
            | inr enough ↦ rw enough (
                Ensures-after (required_btc_for_rune_output need_change postage) _ IsGood
                  (λ required.
                    let need = add64 fee (sub64 required r.btc) in
                    picked_bind (pick (λ sum. ltb need sum) (fee_payer a) r.manager) _ _ IsGood
                      (pick-Knows P a.sender_addr a.runeid (λ sum. ltb need sum) (fee_payer a)
                        r.manager left)
                      (λ p runs' left'. elim (Bool-cases (ltb p.sum need)) [
                        | inl poor ↦ rw poor (
                            Knows-resp P a.sender_addr a.runeid p.manager
                              (record_btc_utxos (fee_payer a) p.utxos p.manager) refl left')
                        | inr rich ↦ rw rich (
                            Ensures-after (to_inputs (plain r.utxos)) _ IsGood (λ input0.
                              Ensures-after (to_inputs p.utxos) _ IsGood
                                (λ input1. (left', all, rw balance enough))))
                      ])))
          ])

  abbrev pub BuiltFor : Built (ℕ × ℕ) RunestoneTransfer × UtxoManager → Type 0
  BuiltFor (refused e, m) = Good m
  BuiltFor (ok t, m) = IsFor P a t

  pub transfer_loop-IsFor :
      (fuel total_fee : ℕ) (m : UtxoManager)
      → Good m
      → Gives (transfer_loop w.encipher w.vsize a fuel total_fee default_postage m) BuiltFor
  unfolding transfer_loop record_btc_utxos
  transfer_loop-IsFor zero total_fee m good = tt
  transfer_loop-IsFor (suc fuel) total_fee m good =
      Built-ensures (build_transaction_with_fee w.encipher a total_fee default_postage m) _ IsGood
        (WhenSome BuiltFor) (build-IsGood total_fee default_postage m good)
        (λ required m' left. left)
        (λ d m' (left, all, enough).
          let fee = fee_of (w.vsize d.txn) a.fee_per_vbytes in
          let runic = record_runic_utxos a.sender_addr a.runeid d.runic_utxos m' in
          let back = record_btc_utxos (fee_payer a) d.fee_utxos runic in
          elim (Bool-cases (fee == total_fee)) [
            | inl same ↦ rw same (record {
              runeid = refl;
              amount = refl;
              sender_address = refl;
              receiver_address = refl;
              postage = refl;
              known = all;
              enough = enough;
            })
            | inr other ↦ rw other (
                transfer_loop-IsFor fuel fee back (
                  Knows-resp P a.sender_addr a.runeid runic back refl (
                    record_runic_utxos-Knows P a.sender_addr a.runeid a.runeid d.runic_utxos m'
                      (λ _. all) left)))
          ])

pub runestone_txn-Carries :
    (P : RunicUtxo → Type 0) (w : World) (a : Arguments) (t : RunestoneTransfer)
    → IsFor P a t
    → Ensures (runestone_txn w.encipher t) (λ u.
      Carries P w a.runeid a.amount a.sender_address a.receiver_address default_postage
        (spends u.txn)
        u.txn.output)
unfolding runestone_txn
runestone_txn-Carries P w a t h =
    let sum = fold_balance 0 t.runic_utxos in
    let need_change = need_change_rune_output sum t.amount t.runic_utxos in
    let Q : Unsigned → Type 0 = λ u.
      Carries P w t.runeid t.amount t.sender_address t.receiver_address t.postage (spends u.txn)
        u.txn.output in
    let many : t.amount ≤ sum = ground (arith, h.enough) in
    rw (← h.runeid, ← h.amount, ← h.sender_address, ← h.receiver_address, ← h.postage)
      (Ensures-bind (to_inputs (plain t.runic_utxos)) _ _ Q (to_inputs-spent (plain t.runic_utxos))
        (λ runic_input same.
          Ensures-after (required_btc_for_rune_output need_change t.postage) _ Q (λ required.
            Ensures-after (to_inputs t.fee_utxos) _ Q (λ fee_input. (
              t.runic_utxos,
              map (λ (i : TxIn). i.previous_output) fee_input,
              h.known,
              map-append _ runic_input fee_input
                  ∙ ap (λ l. l ++ map (λ (i : TxIn). i.previous_output) fee_input) same,
              many,
              rune_outputs-PaysRunes w t.runeid t.amount t.sender_address t.receiver_address
                  t.postage t.runic_utxos _ many,
            )))))
