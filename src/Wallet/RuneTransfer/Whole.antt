-- ===== src/Wallet/RuneTransfer/Whole.antt =====
-- The builder of a rune transfer from its start: what it gives, and what it leaves in the record.
use ord_indexer.Base.{
  ℕ, ◌+◌, ◌*◌, ◌≤◌, ◌<◌, ◌≡◌, refl, sym, Bool, true, List, [], ltb, Returns, Returns-mono, All,
  arith, Bool-cases, inl, inr, ◌⊎◌, u64_size,
}
use ord_indexer.Bitcoin.{ScriptBuf}
use ord_indexer.Runes.{Runestone}
use ord_indexer.Wallet.Sets.{count, sum_by, IsOnce, insert_all_lem}
use ord_indexer.Wallet.Utxos.{
  Addr, RunicUtxo, RunicUtxo-discrete, UtxoManager, btc_set, runic_map, runic_set,
  record_runic_utxos,
}
use ord_indexer.Wallet.Utxos.Laws.{value_of}
use ord_indexer.Wallet.Utxos.Runic.{runic_set-record}
use ord_indexer.Wallet.Select.{RunicPicked}
use ord_indexer.Wallet.Select.Runic.{
  runic_copies, balance_in, btc_in, IsRunicTxid, Fits, IsRunicPicked, pick_runic-IsRunicPicked,
}
use ord_indexer.Wallet.Txn.{Built, ok, refused}
use ord_indexer.Wallet.Transfer.Spec.{IsUsable, Restored}
use ord_indexer.Wallet.RuneTransfer.{
  Arguments, fee_payer, Draft, build_with_runes, build_transaction_with_fee,
}
use ord_indexer.Wallet.RuneTransfer.Spec.{
  carried, IsSent, IsBuiltWith, build_with_runes-IsBuiltWith,
}

module _ (encipher : Runestone → ScriptBuf) (a : Arguments) (fee postage : ℕ) where
  abbrev runes : UtxoManager → List RunicUtxo
  runes m = runic_set a.sender_addr a.runeid m

  -- The runic outputs of the sender are usable: none twice, sums that fit, txids of 32 bytes, and no
  -- more bitcoin in all of them together than one postage.
  pub record IsRunicUsable (m : UtxoManager) : Type 0 where
    pub once : IsOnce RunicUtxo-discrete (runes m)
    pub fits : Fits (runes m)
    pub txids : All IsRunicTxid (runes m)
    pub light : btc_in (runes m) ≤ postage

  -- What left the record of runic outputs.
  abbrev pub HasTaken : List RunicUtxo → UtxoManager → UtxoManager → Type 0
  HasTaken us m m' =
      (u : RunicUtxo) → runic_copies u us + runic_copies u (runes m') ≡ runic_copies u (runes m)

  -- A transfer takes its runic outputs; too few runes leave the record as it was; and too little
  -- bitcoin restores the payer's outputs, but not the runic ones that were picked.
  unfoldable pub IsBuilt : UtxoManager → Built (ℕ × ℕ) Draft × UtxoManager → Type 0
  IsBuilt m (ok d, m') = IsSent encipher a fee postage m d m' × HasTaken d.runic_utxos m m'
  IsBuilt m (refused need, m') =
      ((need ≡ (a.amount, 0)) × (balance_in (runes m) < a.amount) × HasTaken [] m m')
      ⊎ ((need ≡ (0, fee))
          × (value_of (btc_set (fee_payer a) m) < fee + postage * 2)
          × Restored (fee_payer a) m m'
          × (us : List RunicUtxo) × (a.amount ≤ balance_in us)
          × HasTaken us m m')

  same_runes : (m m' : UtxoManager) → m'.r ≡ m.r → runes m' ≡ runes m
  unfolding runic_set runic_map
  same_runes m m' e = rw e refl

  same_btc : (addr : Addr) (m m' : UtxoManager) → m'.b ≡ m.b → btc_set addr m' ≡ btc_set addr m
  unfolding btc_set
  same_btc addr m m' e = rw e refl

  module _ (m : UtxoManager) (r : RunicPicked) (stop : ℕ → Bool) (usable : IsRunicUsable m)
      (q : IsRunicPicked stop a.sender_addr a.runeid [] m r) where
    carried-le : btc_in r.utxos ≤ carried encipher a fee postage r.utxos
    unfolding sum_by
    carried-le =
        let most : btc_in r.utxos ≤ postage = omega (arith, q.btc_value, usable.light) in
        ground arith

    taken : HasTaken r.utxos m r.manager
    unfolding count
    taken u = omega (arith, q.split u)

    put_back : HasTaken [] m (record_runic_utxos a.sender_addr a.runeid r.utxos r.manager)
    unfolding count
    put_back u =
        let back =
          (insert_all_lem RunicUtxo-discrete (λ (x : RunicUtxo). x.balance) r.utxos
              (runes r.manager) (λ b. omega (arith, taken b, usable.once b))).0
            u in
        rw (runic_set-record a.sender_addr a.runeid r.utxos r.manager)
          (omega (arith, back, taken u))

    too_few :
        (stop r.sum ≡ true → a.amount ≤ r.sum) → r.sum < a.amount → balance_in (runes m) < a.amount
    unfolding sum_by
    too_few reach short = elim q.ended [
      | inl empty ↦
          let gone : balance_in (runes r.manager) ≡ 0 = rw empty refl in
          omega (arith, q.value, q.summed, gone)
      | inr stopped ↦ absurd (omega (arith, reach stopped))
    ]

    payer-IsUsable : IsUsable (fee_payer a) m → IsUsable (fee_payer a) r.manager
    payer-IsUsable h =
        let same = same_btc (fee_payer a) m r.manager q.bitcoin in
        record { once = rw same h.once; fits = rw same h.fits; txids = rw same h.txids }

  abbrev Result : Type 0
  Result = Built (ℕ × ℕ) Draft × UtxoManager

  IsBuiltWith-IsBuilt :
      (m : UtxoManager) (r : RunicPicked) (stop : ℕ → Bool) (usable : IsRunicUsable m)
      (q : IsRunicPicked stop a.sender_addr a.runeid [] m r)
      → a.amount ≤ balance_in r.utxos
      → (x : Result) → IsBuiltWith encipher a fee postage r.utxos r.manager x
      → IsBuilt m x
  unfolding IsBuiltWith IsBuilt
  IsBuiltWith-IsBuilt m r stop usable q enough (ok d, m') (same, left, sent) =
      let same_set = same_btc (fee_payer a) m r.manager q.bitcoin in
      (
        record {
          inputs = sent.inputs;
          enough_runes = sent.enough_runes;
          exact_runes = sent.exact_runes;
          fee_spent = λ u. rw (sym same_set) (sent.fee_spent u);
          outputs = sent.outputs;
          least_fee = sent.least_fee;
          most_fee = sent.most_fee;
        },
        (λ u. rw (same, same_runes r.manager m' left) (taken m r stop usable q u)),
      )
  IsBuiltWith-IsBuilt m r stop usable q enough (refused need, m') (is_fee, left, poor, back) =
      let same_set = same_btc (fee_payer a) m r.manager q.bitcoin in
      let at_most : carried encipher a fee postage r.utxos ≤ postage * 2 = ground arith in
      let short : value_of (btc_set (fee_payer a) r.manager) < fee + postage * 2 = omega arith in
      inr (
        is_fee,
        rw (sym same_set) short,
        record {
          held = λ u. rw (sym same_set) (back.held u);
          value = rw (sym same_set) back.value;
        },
        r.utxos,
        enough,
        (λ u. rw (same_runes r.manager m' left) (taken m r stop usable q u)),
      )

  -- Where the outputs of the sender with the rune and those of the payer are recorded once each, have
  -- txids of 32 bytes and sums that fit, all those with the rune carry together no more bitcoin than
  -- one postage, and the fee and two postages fit a word, the builder does not panic, and its result is one of three: a transfer, which takes its outputs from
  -- the record; a refusal for too few runes, and the runic outputs are what they were; or a refusal
  -- as the payer holds too little, which restores the payer's outputs and loses the runic ones that
  -- were picked.
  pub build_transaction_with_fee-IsSent :
      (m : UtxoManager)
      → IsRunicUsable m
      → IsUsable (fee_payer a) m
      → fee + postage * 2 < u64_size
      → Returns (build_transaction_with_fee encipher a fee postage m) (IsBuilt m)
  unfolding build_transaction_with_fee IsBuilt
  build_transaction_with_fee-IsSent m usable pays fits =
      let stop : ℕ → Bool = λ sum. ltb a.amount sum in
      let (r, runs, q) =
        pick_runic-IsRunicPicked stop a.sender_addr a.runeid m usable.fits usable.txids in
      rw runs (elim (Bool-cases (ltb r.sum a.amount)) [
        | inl short ↦ rw short (
            inl (
              refl,
              too_few m r stop usable q (λ h. ground arith) (ground arith),
              put_back m r stop usable q,
            ))
        | inr many ↦
            let enough : a.amount ≤ balance_in r.utxos = ground (arith, q.summed) in
            rw many (
              Returns-mono (build_with_runes encipher a fee postage r)
                (IsBuiltWith encipher a fee postage r.utxos r.manager) (IsBuilt m)
                (build_with_runes-IsBuiltWith encipher a fee postage r q.summed q.btc_summed q.txids
                  enough (carried-le m r stop usable q) fits
                  (payer-IsUsable m r stop usable q pays))
                (λ x h. IsBuiltWith-IsBuilt m r stop usable q enough x h))
      ])
