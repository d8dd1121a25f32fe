-- ===== src/Wallet/Select/Laws.antt =====
-- What the picking of bitcoin outputs does: nothing is lost or counted twice, and it goes on until
-- the test or the last output.
use ord_indexer.Base.{
  ℕ, zero, suc, ◌+◌, ◌≤◌, ◌<◌, ◌≡◌, ◌≢◌, ◌⊎◌, refl, ◌∙◌, Bool, true, some, List, [], ◌∷◌, ◌++◌,
  length, All, arith, add64, u64_size, Bool-cases, inl, inr,
}
use ord_indexer.Wallet.Sets.{
  remove, count, sum_by, min_by_key, count-remove, sum_by-remove, length-remove, All-remove,
  min_by_key_found, All-min_by_key, sum_by-append, count-append, All-append,
}
use ord_indexer.Wallet.Utxos.{Addr, Utxo, Utxo-discrete, UtxoManager, btc_set, get_bitcoin_utxo}
use ord_indexer.Wallet.Utxos.Laws.{
  value_of, get_bitcoin_utxo_lem, get_bitcoin_utxo_others, get_bitcoin_utxo-runic,
}
use ord_indexer.Wallet.Select.{Picked, pick_loop, pick}

abbrev pub copies : Utxo → List Utxo → ℕ
copies = count Utxo-discrete

-- A txid of the management canister is 32 bytes.
abbrev pub IsTxid : Utxo → Type 0
IsTxid u = length u.txid ≡ 32

-- The picked outputs and the rest are what there was, with those picked before; other addresses and
-- the runic outputs are as they were; the sum is the value picked; and the loop ended by its test
-- or for lack of outputs.
pub record IsPicked (stop : ℕ → Bool) (addr : Addr) (us : List Utxo) (m : UtxoManager) (p : Picked)
    : Type 0 where
  pub split :
      (a : Utxo)
      → copies a p.utxos + copies a (btc_set addr p.manager)
        ≡ copies a us + copies a (btc_set addr m)
  pub value :
      value_of p.utxos + value_of (btc_set addr p.manager) ≡ value_of us + value_of (btc_set addr m)
  pub summed : p.sum ≡ value_of p.utxos
  pub others : (a : Addr) → a ≢ addr → btc_set a p.manager ≡ btc_set a m
  pub runic : p.manager.r ≡ m.r
  pub txids : All IsTxid p.utxos
  pub txids_left : All IsTxid (btc_set addr p.manager)
  pub ended : (btc_set addr p.manager ≡ []) ⊎ (stop p.sum ≡ true)

module _ (stop : ℕ → Bool) (addr : Addr) where
  abbrev next : UtxoManager → UtxoManager
  next m = (get_bitcoin_utxo addr m).1

  -- One output moves from the record to the picked ones.
  record IsStep (us : List Utxo) (m : UtxoManager) (u : Utxo) : Type 0 where
    found : 1 ≤ copies u (btc_set addr m)
    copied :
        (a : Utxo)
        → copies a (us ++ u ∷ []) + copies a (btc_set addr (next m))
          ≡ copies a us + copies a (btc_set addr m)
    valued :
        value_of (us ++ u ∷ []) + value_of (btc_set addr (next m))
        ≡ value_of us + value_of (btc_set addr m)
    added : value_of (us ++ u ∷ []) ≡ value_of us + u.value
    fewer : length (btc_set addr (next m)) + 1 ≡ length (btc_set addr m)

  step :
      (us : List Utxo) (m : UtxoManager) (u : Utxo)
      → min_by_key (λ (x : Utxo). x.value) (btc_set addr m) ≡ some u
      → btc_set addr (next m) ≡ remove Utxo-discrete u (btc_set addr m)
      → IsStep us m u
  unfolding count sum_by
  step us m u least left =
      let l = btc_set addr m in
      let there = min_by_key_found Utxo-discrete (λ (x : Utxo). x.value) l u least in
      record {
        found = there;
        copied = λ a. rw left (
            omega (
              arith,
              count-remove Utxo-discrete a u l there,
              count-append Utxo-discrete a us (u ∷ []),
            ));
        valued = rw left (
            omega (
              arith,
              sum_by-remove Utxo-discrete (λ (x : Utxo). x.value) u l there,
              sum_by-append (λ (x : Utxo). x.value) us (u ∷ []),
            ));
        added = omega (arith, sum_by-append (λ (x : Utxo). x.value) us (u ∷ []));
        fewer = rw left (length-remove Utxo-discrete u l there);
      }

  IsPicked-trans :
      (us : List Utxo) (m : UtxoManager) (u : Utxo) (p : Picked)
      → IsStep us m u
      → IsPicked stop addr (us ++ u ∷ []) (next m) p
      → IsPicked stop addr us m p
  IsPicked-trans us m u p s q = record {
    split = λ a. q.split a ∙ s.copied a;
    value = q.value ∙ s.valued;
    summed = q.summed;
    others = λ a h. q.others a h ∙ get_bitcoin_utxo_others addr a m h;
    runic = q.runic ∙ get_bitcoin_utxo-runic addr m;
    txids = q.txids;
    txids_left = q.txids_left;
    ended = q.ended;
  }

  IsPicked-here :
      (us : List Utxo) (sum : ℕ) (m : UtxoManager)
      → sum ≡ value_of us
      → All IsTxid us
      → All IsTxid (btc_set addr m)
      → (btc_set addr m ≡ []) ⊎ (stop sum ≡ true)
      → IsPicked stop addr us m (record { utxos = us; sum = sum; manager = m })
  IsPicked-here us sum m e ids all end = record {
    split = λ a. refl;
    value = refl;
    summed = e;
    others = λ a h. refl;
    runic = refl;
    txids = ids;
    txids_left = all;
    ended = end;
  }

  pick_loop-IsPicked :
      (fuel : ℕ) (us : List Utxo) (sum : ℕ) (m : UtxoManager)
      → length (btc_set addr m) < fuel
      → sum ≡ value_of us
      → value_of us + value_of (btc_set addr m) < u64_size
      → All IsTxid us
      → All IsTxid (btc_set addr m)
      → (p : Picked) × (pick_loop fuel stop addr us sum m ≡ some p) × IsPicked stop addr us m p
  unfolding pick_loop
  pick_loop-IsPicked zero us sum m enough e fits ids all = absurd (omega arith)
  pick_loop-IsPicked (suc fuel) us sum m enough e fits ids all =
      elim (get_bitcoin_utxo_lem addr m) [
        | inl (nil, same) ↦ (
          record { utxos = us; sum = sum; manager = m },
          rw (same, pick_loop) refl,
          IsPicked-here us sum m e ids all (inl nil),
        )
        | inr (u, popped, least, left) ↦
            let s = step us m u least left in
            let us' : List Utxo = us ++ u ∷ [] in
            let sum' : ℕ = add64 sum u.value in
            let l = btc_set addr m in
            let e' : sum' ≡ value_of us' = omega (arith, s.added, s.valued) in
            let id = All-min_by_key IsTxid (λ (x : Utxo). x.value) l u least all in
            let ids' = All-append IsTxid us (u ∷ []) ids (id, tt) in
            let all' : All IsTxid (btc_set addr (next m)) =
              rw left (All-remove Utxo-discrete IsTxid u l all) in
            elim (Bool-cases (stop sum')) [
              | inl enough_value ↦ (
                record { utxos = us'; sum = sum'; manager = next m },
                rw (popped, enough_value, pick_loop) refl,
                IsPicked-trans us m u _ s
                    (IsPicked-here us' sum' (next m) e' ids' all' (inr enough_value)),
              )
              | inr more ↦
                  let (p, runs, picked) =
                    pick_loop-IsPicked fuel us' sum' (next m) (omega (arith, s.fewer)) e'
                      (omega (arith, s.valued)) ids' all' in
                  (p, rw (popped, more, pick_loop) runs, IsPicked-trans us m u p s picked)
            ]
      ]

  -- For an address whose values fit a word together and whose txids are of 32 bytes the picking ends.
  -- The picked outputs and the rest are what there was, the sum is the value picked, other addresses
  -- and the runic outputs are as they were, and the loop went on to its test or the last output.
  pub pick-IsPicked :
      (m : UtxoManager)
      → value_of (btc_set addr m) < u64_size
      → All IsTxid (btc_set addr m)
      → (p : Picked) × (pick stop addr m ≡ some p) × IsPicked stop addr [] m p
  unfolding pick sum_by
  pick-IsPicked m fits all =
      pick_loop-IsPicked (suc (length (btc_set addr m))) [] 0 m (omega arith) refl (omega arith) tt
        all
