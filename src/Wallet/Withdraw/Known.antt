-- ===== src/Wallet/Withdraw/Known.antt =====
-- What is known of the runic outputs of an address and a rune holds through the whole of a withdrawal:
-- the fetches (wallet/src/updater.rs), the picking and the builder (wallet/src/bitcoin/runestone.rs).
use ord_indexer.Base.{
  ◌>>=◌, ℕ, zero, suc, ◌≡◌, ◌≢◌, ◌∙◌, refl, ap, sym, Bool, Option, none, some, List, [], ◌∷◌, ◌++◌,
  All, length, lookup-insert, lookup-erase_ne, erase, add64, add128, arith, Outcome, done, panic,
  unwrap, Ensures, Bool-cases, Option-cases, inl, inr,
}
use ord_indexer.Base.{insert as put}
use ord_indexer.Runes.{RuneId, RuneId-discrete, RuneBalance, Result, ok, err}
use ord_indexer.Wallet.Sets.{insert_all, All-insert_all, All-remove, All-min_by_key, All-append}
use ord_indexer.Wallet.Utxos.{
  Addr, Addr-discrete, Utxo, RunicUtxo, RunicUtxo-discrete, UtxoManager, runic_map, runic_set,
  btc_set, record_btc_utxos, record_runic_utxos, remove_btc_utxo, get_bitcoin_utxo, get_runic_utxo,
  is_recorded_as_runic,
}
use ord_indexer.Wallet.Utxos.Laws.{get_bitcoin_utxo-runic}
use ord_indexer.Wallet.Utxos.Runic.{runic_set-record, get_runic_utxo_lem}
use ord_indexer.Wallet.Select.{Picked, pick_loop, pick, pick_runic_loop, pick_runic}
use ord_indexer.Wallet.Submit.Sums.{Holds}
use ord_indexer.Wallet.Flow.{run, expect, Gives, Gives-bind, Gives-after, Gives-run}
use ord_indexer.Wallet.Fetch.{
  Ledger, TargetType, runes_of, after_runes, record_runes, sort_utxo, sort_page, is_short,
  fetch_pages, fetch_utxos_and_update_balances,
}

-- What is picked, and what follows.
pub picked_bind :
    {A B : Type 0} (o : Option A) (f : A → Outcome B) (R : A → Type 0) (Q : B → Type 0)
    → Holds o R
    → ((x : A) → o ≡ some x → R x → Ensures (f x) Q)
    → Ensures (unwrap o >>= f) Q
picked_bind none f R Q h k = tt
picked_bind (some x) f R Q h k = k x refl h

runic_set-record_other :
    (addr : Addr) (id other : RuneId) (us : List RunicUtxo) (m : UtxoManager)
    → id ≢ other
    → runic_set addr id (record_runic_utxos addr other us m) ≡ runic_set addr id m
unfolding runic_set runic_map record_runic_utxos
runic_set-record_other addr id other us m apart =
    let rest = erase RuneId-discrete other (runic_map addr m) in
    let new =
      put RuneId-discrete other (insert_all RunicUtxo-discrete us (runic_set addr other m)) rest in
    ground (
      arith,
      lookup-insert Addr-discrete addr addr new m.r,
      lookup-insert RuneId-discrete id other
          (insert_all RunicUtxo-discrete us (runic_set addr other m)) rest,
      lookup-erase_ne RuneId-discrete id other (runic_map addr m) apart,
    )

pick_loop-runic :
    (stop : ℕ → Bool) (addr : Addr) (n : UtxoManager) (fuel : ℕ) (us : List Utxo) (sum : ℕ)
    (m : UtxoManager)
    → m.r ≡ n.r
    → Holds (pick_loop fuel stop addr us sum m) (λ p. p.manager.r ≡ n.r)
unfolding pick_loop
pick_loop-runic stop addr n zero us sum m e = tt
pick_loop-runic stop addr n (suc fuel) us sum m e =
    let e' = get_bitcoin_utxo-runic addr m ∙ e in
    elim (Option-cases (get_bitcoin_utxo addr m).0) [
      | inl nothing ↦ rw (nothing, pick_loop) e
      | inr (u, popped) ↦ elim (Bool-cases (stop (add64 sum u.value))) [
        | inl enough ↦ rw (popped, enough, pick_loop) e'
        | inr more ↦
            rw (popped, more, pick_loop)
              (pick_loop-runic stop addr n fuel (us ++ u ∷ []) (add64 sum u.value)
                (get_bitcoin_utxo addr m).1 e')
      ]
    ]

module _ (P : RunicUtxo → Type 0) (addr : Addr) (id : RuneId) where
  -- All that is recorded of the rune is as it should be.
  abbrev pub Knows : UtxoManager → Type 0
  Knows m = All P (runic_set addr id m)

  -- Only the runic outputs matter.
  pub Knows-resp : (m n : UtxoManager) → n.r ≡ m.r → Knows m → Knows n
  unfolding runic_set runic_map
  Knows-resp m n e h = rw e h

  pub record_runic_utxos-Knows :
      (other : RuneId) (us : List RunicUtxo) (m : UtxoManager)
      → (other ≡ id → All P us)
      → Knows m
      → Knows (record_runic_utxos addr other us m)
  record_runic_utxos-Knows other us m new h = elim (RuneId-discrete id other) [
    | yes same ↦
        rw (← same, runic_set-record addr id us m)
          (All-insert_all RunicUtxo-discrete P us (runic_set addr id m) (new (sym same)) h)
    | no apart ↦ rw (runic_set-record_other addr id other us m apart) h
  ]

  get_runic_utxo-Knows :
      (m : UtxoManager) (u : RunicUtxo)
      → (get_runic_utxo addr id m).0 ≡ some u
      → Knows m
      → P u × Knows (get_runic_utxo addr id m).1
  get_runic_utxo-Knows m u popped h = elim (get_runic_utxo_lem addr id m) [
    | inl (empty, nothing) ↦ absurd (clash u (sym popped ∙ ap (λ x. x.0) nothing))
    | inr (v, found, least, left) ↦
        let same : v ≡ u = the_same v u (sym found ∙ popped) in
        (
          rw (← same) (All-min_by_key P _ (runic_set addr id m) v least h),
          rw left (All-remove RunicUtxo-discrete P v (runic_set addr id m) h),
        )
  ]
    where
      clash : (x : RunicUtxo) → some x ≡ none → ⊥
      clash x e = cc

      the_same : (x y : RunicUtxo) → some x ≡ some y → x ≡ y
      the_same x y e = cc

  pick_runic_loop-Knows :
      (stop : ℕ → Bool) (fuel : ℕ) (us : List RunicUtxo) (sum btc : ℕ) (m : UtxoManager)
      → All P us
      → Knows m
      → Holds
          (pick_runic_loop fuel stop addr id us sum btc m)
          (λ p. All P p.utxos × Knows p.manager)
  unfolding pick_runic_loop
  pick_runic_loop-Knows stop zero us sum btc m all h = tt
  pick_runic_loop-Knows stop (suc fuel) us sum btc m all h =
      elim (Option-cases (get_runic_utxo addr id m).0) [
        | inl nothing ↦ rw (nothing, pick_runic_loop) (all, h)
        | inr (u, popped) ↦
            let (good, left) = get_runic_utxo-Knows m u popped h in
            let all' = All-append P us (u ∷ []) all (good, tt) in
            elim (Bool-cases (stop (add128 sum u.balance))) [
              | inl enough ↦ rw (popped, enough, pick_runic_loop) (all', left)
              | inr more ↦
                  rw (popped, more, pick_runic_loop)
                    (pick_runic_loop-Knows stop fuel (us ++ u ∷ []) (add128 sum u.balance)
                      (add64 btc u.utxo.value) (get_runic_utxo addr id m).1 all' left)
            ]
      ]

  pub pick_runic-Knows :
      (stop : ℕ → Bool) (m : UtxoManager)
      → Knows m
      → Holds (pick_runic stop addr id m) (λ p. All P p.utxos × Knows p.manager)
  unfolding pick_runic
  pick_runic-Knows stop m h =
      pick_runic_loop-Knows stop (suc (length (runic_set addr id m))) [] 0 0 m tt h

  pub pick-Knows :
      (stop : ℕ → Bool) (payer : Addr) (m : UtxoManager)
      → Knows m
      → Holds (pick stop payer m) (λ p. Knows p.manager)
  unfolding pick
  pick-Knows stop payer m h =
      after (pick stop payer m)
        (pick_loop-runic stop payer m (suc (length (btc_set payer m))) [] 0 m refl)
    where
      after :
          (o : Option Picked) → Holds o (λ p. p.manager.r ≡ m.r) → Holds o (λ p. Knows p.manager)
      after none e = tt
      after (some p) e = Knows-resp m p.manager e h

  -- What the indexer tells of an output is as it should be, where it tells of the rune.
  abbrev pub Tells : Ledger → Type 0
  Tells l =
      (u : Utxo) (runes : List RuneBalance)
      → runes_of l u ≡ done (ok runes)
      → All (λ (x : RuneBalance). x.id ≡ id → P (record { utxo = u; balance = x.balance })) runes

  record_runes-Knows :
      (u : Utxo) (runes : List RuneBalance) (m : UtxoManager)
      → All (λ (x : RuneBalance). x.id ≡ id → P (record { utxo = u; balance = x.balance })) runes
      → Knows m
      → Knows (record_runes addr u runes m)
  unfolding record_runes remove_btc_utxo
  record_runes-Knows u [] m told h = h
  record_runes-Knows u (x ∷ runes) m told h =
      let m₀ = remove_btc_utxo addr u m in
      let us : List RunicUtxo = record { utxo = u; balance = x.balance } ∷ [] in
      record_runes-Knows u runes (record_runic_utxos addr x.id us m₀) told.1
        (record_runic_utxos-Knows x.id us m₀ (λ same. (told.0 same, tt)) (Knows-resp m m₀ refl h))

  sort_utxo-Knows :
      (l : Ledger) (u : Utxo) (answer : Result (List RuneBalance)) (s : List Utxo × UtxoManager)
      → Tells l
      → runes_of l u ≡ done answer
      → Knows s.1
      → Knows (sort_utxo addr u answer s).1
  unfolding sort_utxo
  sort_utxo-Knows l u (err e) (plain, m) tells told h = h
  sort_utxo-Knows l u (ok []) (plain, m) tells told h = h
  sort_utxo-Knows l u (ok (x ∷ runes)) (plain, m) tells told h =
      record_runes-Knows u (x ∷ runes) m (tells u (x ∷ runes) told) h

  after_told :
      (x : Outcome (Result (List RuneBalance)))
      (f : Result (List RuneBalance) → Outcome (List Utxo × UtxoManager))
      → ((answer : Result (List RuneBalance))
          → x ≡ done answer
          → Ensures (f answer) (λ s. Knows s.1))
      → Ensures (after_runes x f) (λ s. Knows s.1)
  after_told (done answer) f k = k answer refl
  after_told panic f k = tt

  sort_page-Knows :
      (l : Ledger) (us : List Utxo) (s : List Utxo × UtxoManager)
      → Tells l
      → Knows s.1
      → Ensures (sort_page l addr us s) (λ s'. Knows s'.1)
  unfolding sort_page
  sort_page-Knows l [] s tells h = h
  sort_page-Knows l (u ∷ us) (plain, m) tells h =
      elim (Bool-cases (is_recorded_as_runic addr u m)) [
        | inl known ↦ rw known (sort_page-Knows l us (plain, m) tells h)
        | inr new ↦ rw new (
            after_told (runes_of l u) _ (λ answer e.
              sort_page-Knows l us (sort_utxo addr u answer (plain, m)) tells
                (sort_utxo-Knows l u answer (plain, m) tells e h)))
      ]

  fetch_pages-Knows :
      (l : Ledger) (target : TargetType) (fuel : ℕ) (filter : Option (List ℕ)) (m : UtxoManager)
      → Tells l
      → Knows m
      → Gives (fetch_pages l addr target fuel filter m) Knows
  unfolding fetch_pages record_btc_utxos
  fetch_pages-Knows l target zero filter m tells h = tt
  fetch_pages-Knows l target (suc fuel) filter m tells h =
      Gives-after (expect (l.get_utxos addr filter)) _ Knows (λ page.
        Gives-bind (run (sort_page l addr page.utxos ([], m))) _ (λ s. Knows s.1) Knows
          (Gives-run (sort_page l addr page.utxos ([], m)) (λ s. Knows s.1)
            (sort_page-Knows l page.utxos ([], m) tells h))
          (λ (plain, m₁) sorted.
            let m₂ = record_btc_utxos addr plain m₁ in
            let recorded = Knows-resp m₁ m₂ refl sorted in
            elim (Option-cases page.next_page) [
              | inl last ↦ rw last recorded
              | inr (next, more) ↦ elim (Bool-cases (is_short l addr target m₂)) [
                | inl short ↦
                    rw (more, short) (fetch_pages-Knows l target fuel (some next) m₂ tells recorded)
                | inr enough ↦ rw (more, enough) recorded
              ]
            ]))

  pub fetch-Knows :
      (l : Ledger) (fuel : ℕ) (target : TargetType) (m : UtxoManager)
      → Tells l
      → Knows m
      → Gives (fetch_utxos_and_update_balances l addr fuel target m) Knows
  unfolding fetch_utxos_and_update_balances
  fetch-Knows l fuel target m tells h = fetch_pages-Knows l target fuel none m tells h
