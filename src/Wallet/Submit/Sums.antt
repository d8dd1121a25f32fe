-- ===== src/Wallet/Submit/Sums.antt =====
-- The sums that the picking loops give are the sums that the handler folds over what was picked.
use ord_indexer.Base.{
  ℕ, zero, suc, ◌≡◌, refl, ap, ◌∙◌, sym, Bool, Option, none, some, List, [], ◌∷◌, ◌++◌, length,
  add64, add128, Bool-cases, Option-cases, inl, inr,
}
use ord_indexer.Runes.{RuneId}
use ord_indexer.Wallet.Utxos.{
  Addr, Utxo, RunicUtxo, UtxoManager, btc_set, runic_set, get_bitcoin_utxo, get_runic_utxo,
  fold_value, fold_balance,
}
use ord_indexer.Wallet.Select.{Picked, RunicPicked, pick_loop, pick, pick_runic_loop, pick_runic}
use ord_indexer.Wallet.Submit.{fold_btc}

fold_value-snoc :
    (us : List Utxo) (u : Utxo) (n : ℕ)
    → fold_value n (us ++ u ∷ []) ≡ add64 (fold_value n us) u.value
unfolding fold_value
fold_value-snoc [] u n = refl
fold_value-snoc (x ∷ us) u n = fold_value-snoc us u (add64 n x.value)

fold_balance-snoc :
    (us : List RunicUtxo) (u : RunicUtxo) (n : ℕ)
    → fold_balance n (us ++ u ∷ []) ≡ add128 (fold_balance n us) u.balance
unfolding fold_balance
fold_balance-snoc [] u n = refl
fold_balance-snoc (x ∷ us) u n = fold_balance-snoc us u (add128 n x.balance)

fold_btc-snoc :
    (us : List RunicUtxo) (u : RunicUtxo) (n : ℕ)
    → fold_btc n (us ++ u ∷ []) ≡ add64 (fold_btc n us) u.utxo.value
unfolding fold_btc
fold_btc-snoc [] u n = refl
fold_btc-snoc (x ∷ us) u n = fold_btc-snoc us u (add64 n x.utxo.value)

-- What an optional value satisfies where there is one.
abbrev pub Holds : {A : Type 0} → Option A → (A → Type 0) → Type 0
Holds none P = Unit
Holds (some a) P = P a

module _ {A : Type 0} where
  Holds-some : (o : Option A) (P : A → Type 0) (a : A) → Holds o P → o ≡ some a → P a
  Holds-some none P a h e = cc
  Holds-some (some b) P a h e = rw (the_same b a e) h
    where
      the_same : (x y : A) → some x ≡ some y → y ≡ x
      the_same x y r = cc

abbrev IsSummed : Picked → Type 0
IsSummed p = p.sum ≡ fold_value 0 p.utxos

abbrev IsRunicSummed : RunicPicked → Type 0
IsRunicSummed p = (p.sum ≡ fold_balance 0 p.utxos) × (p.btc ≡ fold_btc 0 p.utxos)

module _ (stop : ℕ → Bool) (addr : Addr) where
  pick_loop-IsSummed :
      (fuel : ℕ) (us : List Utxo) (sum : ℕ) (m : UtxoManager)
      → sum ≡ fold_value 0 us
      → Holds (pick_loop fuel stop addr us sum m) IsSummed
  unfolding pick_loop
  pick_loop-IsSummed zero us sum m e = tt
  pick_loop-IsSummed (suc fuel) us sum m e = elim (Option-cases (get_bitcoin_utxo addr m).0) [
    | inl nothing ↦ rw (nothing, pick_loop) e
    | inr (u, popped) ↦
        let next : fold_value 0 (us ++ u ∷ []) ≡ add64 sum u.value =
          fold_value-snoc us u 0 ∙ ap (λ n. add64 n u.value) (sym e) in
        elim (Bool-cases (stop (add64 sum u.value))) [
          | inl enough ↦ rw (popped, enough, pick_loop) (sym next)
          | inr more ↦
              rw (popped, more, pick_loop)
                (pick_loop-IsSummed fuel (us ++ u ∷ []) (add64 sum u.value)
                  (get_bitcoin_utxo addr m).1 (sym next))
        ]
  ]

  pub pick-sum :
      (m : UtxoManager) (p : Picked) → pick stop addr m ≡ some p → fold_value 0 p.utxos ≡ p.sum
  unfolding pick fold_value
  pick-sum m p runs = sym (
      Holds-some (pick stop addr m) IsSummed p
        (pick_loop-IsSummed (suc (length (btc_set addr m))) [] 0 m refl) runs)

module _ (stop : ℕ → Bool) (addr : Addr) (id : RuneId) where
  pick_runic_loop-IsRunicSummed :
      (fuel : ℕ) (us : List RunicUtxo) (sum btc : ℕ) (m : UtxoManager)
      → sum ≡ fold_balance 0 us
      → btc ≡ fold_btc 0 us
      → Holds (pick_runic_loop fuel stop addr id us sum btc m) IsRunicSummed
  unfolding pick_runic_loop
  pick_runic_loop-IsRunicSummed zero us sum btc m e k = tt
  pick_runic_loop-IsRunicSummed (suc fuel) us sum btc m e k =
      elim (Option-cases (get_runic_utxo addr id m).0) [
        | inl nothing ↦ rw (nothing, pick_runic_loop) (e, k)
        | inr (u, popped) ↦
            let next : fold_balance 0 (us ++ u ∷ []) ≡ add128 sum u.balance =
              fold_balance-snoc us u 0 ∙ ap (λ n. add128 n u.balance) (sym e) in
            let next_btc : fold_btc 0 (us ++ u ∷ []) ≡ add64 btc u.utxo.value =
              fold_btc-snoc us u 0 ∙ ap (λ n. add64 n u.utxo.value) (sym k) in
            elim (Bool-cases (stop (add128 sum u.balance))) [
              | inl enough ↦ rw (popped, enough, pick_runic_loop) (sym next, sym next_btc)
              | inr more ↦
                  rw (popped, more, pick_runic_loop)
                    (pick_runic_loop-IsRunicSummed fuel (us ++ u ∷ []) (add128 sum u.balance)
                      (add64 btc u.utxo.value) (get_runic_utxo addr id m).1 (sym next)
                      (sym next_btc))
            ]
      ]

  pub pick_runic-sum :
      (m : UtxoManager) (p : RunicPicked)
      → pick_runic stop addr id m ≡ some p
      → (fold_balance 0 p.utxos ≡ p.sum) × (fold_btc 0 p.utxos ≡ p.btc)
  unfolding pick_runic fold_balance fold_btc
  pick_runic-sum m p runs =
      let (balance, btc) =
        Holds-some (pick_runic stop addr id m) IsRunicSummed p
          (pick_runic_loop-IsRunicSummed (suc (length (runic_set addr id m))) [] 0 0 m refl refl)
          runs in
      (sym balance, sym btc)
