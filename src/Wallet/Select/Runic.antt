-- ===== src/Wallet/Select/Runic.antt =====
-- What the picking of runic outputs does.
use ord_indexer.Base.{
  ℕ, zero, suc, ◌+◌, ◌<◌, ◌≡◌, refl, ◌∙◌, Bool, true, some, List, [], ◌∷◌, ◌++◌, length, All, arith,
  add64, add128, u64_size, u128_size, Bool-cases, ◌⊎◌, inl, inr,
}
use ord_indexer.Runes.{RuneId}
use ord_indexer.Wallet.Sets.{
  remove, count, sum_by, min_by_key, count-remove, sum_by-remove, length-remove, All-remove,
  min_by_key_found, All-min_by_key, sum_by-append, count-append, All-append,
}
use ord_indexer.Wallet.Utxos.{
  Addr, RunicUtxo, RunicUtxo-discrete, UtxoManager, runic_set, get_runic_utxo,
}
use ord_indexer.Wallet.Utxos.Runic.{get_runic_utxo_lem, get_runic_utxo-btc}
use ord_indexer.Wallet.Select.{RunicPicked, pick_runic_loop, pick_runic}
use ord_indexer.Wallet.Select.Laws.{IsTxid}

abbrev pub runic_copies : RunicUtxo → List RunicUtxo → ℕ
runic_copies = count RunicUtxo-discrete

abbrev pub balance_in : List RunicUtxo → ℕ
balance_in = sum_by (λ (u : RunicUtxo). u.balance)

abbrev pub btc_in : List RunicUtxo → ℕ
btc_in = sum_by (λ (u : RunicUtxo). u.utxo.value)

abbrev pub IsRunicTxid : RunicUtxo → Type 0
IsRunicTxid u = IsTxid u.utxo

-- What fits the words that the loop sums in.
pub record Fits (l : List RunicUtxo) : Type 0 where
  pub balance : balance_in l < u128_size
  pub btc : btc_in l < u64_size

-- The picked outputs and the rest are what there was, with those picked before; the bitcoin outputs
-- are as they were; the sums are the picked ones; and the loop ended by its test or for lack of
-- outputs.
pub record IsRunicPicked (stop : ℕ → Bool) (addr : Addr) (id : RuneId) (us : List RunicUtxo)
    (m : UtxoManager) (p : RunicPicked) : Type 0 where
  pub split :
      (a : RunicUtxo)
      → runic_copies a p.utxos + runic_copies a (runic_set addr id p.manager)
        ≡ runic_copies a us + runic_copies a (runic_set addr id m)
  pub value :
      balance_in p.utxos + balance_in (runic_set addr id p.manager)
      ≡ balance_in us + balance_in (runic_set addr id m)
  pub btc_value :
      btc_in p.utxos + btc_in (runic_set addr id p.manager)
      ≡ btc_in us + btc_in (runic_set addr id m)
  pub summed : p.sum ≡ balance_in p.utxos
  pub btc_summed : p.btc ≡ btc_in p.utxos
  pub btc_fits : p.btc < u64_size
  pub bitcoin : p.manager.b ≡ m.b
  pub txids : All IsRunicTxid p.utxos
  pub ended : (runic_set addr id p.manager ≡ []) ⊎ (stop p.sum ≡ true)

module _ (stop : ℕ → Bool) (addr : Addr) (id : RuneId) where
  abbrev next : UtxoManager → UtxoManager
  next m = (get_runic_utxo addr id m).1

  -- One output moves from the record to the picked ones.
  record IsStep (us : List RunicUtxo) (m : UtxoManager) (u : RunicUtxo) : Type 0 where
    copied :
        (a : RunicUtxo)
        → runic_copies a (us ++ u ∷ []) + runic_copies a (runic_set addr id (next m))
          ≡ runic_copies a us + runic_copies a (runic_set addr id m)
    valued :
        balance_in (us ++ u ∷ []) + balance_in (runic_set addr id (next m))
        ≡ balance_in us + balance_in (runic_set addr id m)
    btc_valued :
        btc_in (us ++ u ∷ []) + btc_in (runic_set addr id (next m))
        ≡ btc_in us + btc_in (runic_set addr id m)
    added : balance_in (us ++ u ∷ []) ≡ balance_in us + u.balance
    btc_added : btc_in (us ++ u ∷ []) ≡ btc_in us + u.utxo.value
    fewer : length (runic_set addr id (next m)) + 1 ≡ length (runic_set addr id m)

  step :
      (us : List RunicUtxo) (m : UtxoManager) (u : RunicUtxo)
      → min_by_key (λ (x : RunicUtxo). x.balance) (runic_set addr id m) ≡ some u
      → runic_set addr id (next m) ≡ remove RunicUtxo-discrete u (runic_set addr id m)
      → IsStep us m u
  unfolding count sum_by
  step us m u least left =
      let dec = RunicUtxo-discrete in
      let balance : RunicUtxo → ℕ = λ x. x.balance in
      let btc : RunicUtxo → ℕ = λ x. x.utxo.value in
      let l = runic_set addr id m in
      let there = min_by_key_found dec balance l u least in
      record {
        copied = λ a.
            rw left omega (arith, count-remove dec a u l there, count-append dec a us (u ∷ []));
        valued =
            rw left omega
              (arith, sum_by-remove dec balance u l there, sum_by-append balance us (u ∷ []));
        btc_valued =
            rw left omega (arith, sum_by-remove dec btc u l there, sum_by-append btc us (u ∷ []));
        added = omega (arith, sum_by-append balance us (u ∷ []));
        btc_added = omega (arith, sum_by-append btc us (u ∷ []));
        fewer = rw left (length-remove dec u l there);
      }

  IsRunicPicked-trans :
      (us : List RunicUtxo) (m : UtxoManager) (u : RunicUtxo) (p : RunicPicked)
      → IsStep us m u
      → IsRunicPicked stop addr id (us ++ u ∷ []) (next m) p
      → IsRunicPicked stop addr id us m p
  IsRunicPicked-trans us m u p s q = record {
    split = λ a. q.split a ∙ s.copied a;
    value = q.value ∙ s.valued;
    btc_value = q.btc_value ∙ s.btc_valued;
    summed = q.summed;
    btc_summed = q.btc_summed;
    btc_fits = q.btc_fits;
    bitcoin = q.bitcoin ∙ get_runic_utxo-btc addr id m;
    txids = q.txids;
    ended = q.ended;
  }

  -- What the loop relies on at the outputs picked so far.
  record IsReady (us : List RunicUtxo) (sum btc : ℕ) (m : UtxoManager) : Type 0 where
    summed : sum ≡ balance_in us
    btc_summed : btc ≡ btc_in us
    fits : balance_in us + balance_in (runic_set addr id m) < u128_size
    btc_fits : btc_in us + btc_in (runic_set addr id m) < u64_size
    txids : All IsRunicTxid us
    txids_left : All IsRunicTxid (runic_set addr id m)

  IsRunicPicked-here :
      (us : List RunicUtxo) (sum btc : ℕ) (m : UtxoManager)
      → IsReady us sum btc m
      → (runic_set addr id m ≡ []) ⊎ (stop sum ≡ true)
      → IsRunicPicked stop addr id us m (record { utxos = us; sum = sum; btc = btc; manager = m })
  IsRunicPicked-here us sum btc m ready end = record {
    split = λ a. refl;
    value = refl;
    btc_value = refl;
    summed = ready.summed;
    btc_summed = ready.btc_summed;
    btc_fits = omega (arith, ready.btc_summed, ready.btc_fits);
    bitcoin = refl;
    txids = ready.txids;
    ended = end;
  }

  IsReady-next :
      (us : List RunicUtxo) (sum btc : ℕ) (m : UtxoManager) (u : RunicUtxo)
      → min_by_key (λ (x : RunicUtxo). x.balance) (runic_set addr id m) ≡ some u
      → runic_set addr id (next m) ≡ remove RunicUtxo-discrete u (runic_set addr id m)
      → IsReady us sum btc m
      → IsReady (us ++ u ∷ []) (add128 sum u.balance) (add64 btc u.utxo.value) (next m)
  IsReady-next us sum btc m u least left ready =
      let s = step us m u least left in
      let l = runic_set addr id m in
      let here =
        All-min_by_key IsRunicTxid (λ (x : RunicUtxo). x.balance) l u least ready.txids_left in
      record {
        summed = omega (arith, s.added, s.valued, ready.summed, ready.fits);
        btc_summed = omega (arith, s.btc_added, s.btc_valued, ready.btc_summed, ready.btc_fits);
        fits = omega (arith, s.valued, ready.fits);
        btc_fits = omega (arith, s.btc_valued, ready.btc_fits);
        txids = All-append IsRunicTxid us (u ∷ []) ready.txids (here, tt);
        txids_left = rw left (All-remove RunicUtxo-discrete IsRunicTxid u l ready.txids_left);
      }

  pick_runic_loop-IsRunicPicked :
      (fuel : ℕ) (us : List RunicUtxo) (sum btc : ℕ) (m : UtxoManager)
      → length (runic_set addr id m) < fuel
      → IsReady us sum btc m
      → (p : RunicPicked) × (pick_runic_loop fuel stop addr id us sum btc m ≡ some p)
        × IsRunicPicked stop addr id us m p
  unfolding pick_runic_loop
  pick_runic_loop-IsRunicPicked zero us sum btc m enough ready = absurd (omega arith)
  pick_runic_loop-IsRunicPicked (suc fuel) us sum btc m enough ready =
      elim (get_runic_utxo_lem addr id m) [
        | inl (nil, same) ↦ (
          record { utxos = us; sum = sum; btc = btc; manager = m },
          rw (same, pick_runic_loop) refl,
          IsRunicPicked-here us sum btc m ready (inl nil),
        )
        | inr (u, popped, least, left) ↦
            let s = step us m u least left in
            let us' : List RunicUtxo = us ++ u ∷ [] in
            let sum' : ℕ = add128 sum u.balance in
            let btc' : ℕ = add64 btc u.utxo.value in
            let ready' = IsReady-next us sum btc m u least left ready in
            elim (Bool-cases (stop sum')) [
              | inl enough_runes ↦ (
                record { utxos = us'; sum = sum'; btc = btc'; manager = next m },
                rw (popped, enough_runes, pick_runic_loop) refl,
                IsRunicPicked-trans us m u _ s
                    (IsRunicPicked-here us' sum' btc' (next m) ready' (inr enough_runes)),
              )
              | inr more ↦
                  let (p, runs, picked) =
                    pick_runic_loop-IsRunicPicked fuel us' sum' btc' (next m)
                      (omega (arith, s.fewer)) ready' in
                  (
                    p,
                    rw (popped, more, pick_runic_loop) runs,
                    IsRunicPicked-trans us m u p s picked,
                  )
            ]
      ]

  -- The picking ends, for the fuel is enough, and of the runic outputs none is lost.
  pub pick_runic-IsRunicPicked :
      (m : UtxoManager)
      → Fits (runic_set addr id m)
      → All IsRunicTxid (runic_set addr id m)
      → (p : RunicPicked) × (pick_runic stop addr id m ≡ some p) × IsRunicPicked stop addr id [] m p
  unfolding pick_runic sum_by
  pick_runic-IsRunicPicked m fits all =
      pick_runic_loop-IsRunicPicked (suc (length (runic_set addr id m))) [] 0 0 m (omega arith)
        (record {
          summed = refl;
          btc_summed = refl;
          fits = omega (arith, fits.balance);
          btc_fits = omega (arith, fits.btc);
          txids = tt;
          txids_left = all;
        })
