-- ===== src/Wallet/Fetch/Ends.antt =====
-- A fetch ends (`fetch_utxos_and_update_balances`).
use ord_indexer.Base.{
  ℕ, zero, suc, ◌≤◌, ◌≡◌, refl, Option, none, some, List, [], ◌∷◌, length, done, All, arith,
  Bool-cases, inl, inr,
}
use ord_indexer.Runes.{RuneBalance, Result}
use ord_indexer.Wallet.Utxos.{Addr, Utxo, UtxoManager, record_btc_utxos, is_recorded_as_runic}
use ord_indexer.Wallet.Fetch.{
  Page, Ledger, TargetType, runes_of, sort_utxo, sort_page, is_short, fetch_pages,
  fetch_utxos_and_update_balances,
}

-- The indexer answers for the output, with runes or an error.
abbrev pub IsAnswered : Ledger → Utxo → Type 0
IsAnswered l u = (answer : Result (List RuneBalance)) × (runes_of l u ≡ done answer)

-- The ledger gives these pages one after the other, and the indexer answers for their outputs.
abbrev pub ArePages : Ledger → Addr → Option (List ℕ) → Page → List Page → Type 0
ArePages l addr filter p [] =
    (l.get_utxos addr filter ≡ some p) × All (IsAnswered l) p.utxos × (p.next_page ≡ none)
ArePages l addr filter p (q ∷ ps) =
    (l.get_utxos addr filter ≡ some p)
    × All (IsAnswered l) p.utxos
    × ((next : List ℕ) × (p.next_page ≡ some next) × ArePages l addr (some next) q ps)

sort_page-ends :
    (l : Ledger) (addr : Addr) (us : List Utxo) (s : List Utxo × UtxoManager)
    → All (IsAnswered l) us
    → (s' : List Utxo × UtxoManager) × (sort_page l addr us s ≡ done s')
unfolding sort_page
sort_page-ends l addr [] s h = (s, refl)
sort_page-ends l addr (u ∷ us) (plain, m) ((answer, told), rest) =
    elim (Bool-cases (is_recorded_as_runic addr u m)) [
      | inl known ↦ rw known (sort_page-ends l addr us (plain, m) rest)
      | inr new ↦
          rw (new, told) (sort_page-ends l addr us (sort_utxo addr u answer (plain, m)) rest)
    ]

fetch_pages-ends :
    (l : Ledger) (addr : Addr) (target : TargetType) (ps : List Page) (fuel : ℕ)
    (filter : Option (List ℕ)) (p : Page) (m : UtxoManager)
    → ArePages l addr filter p ps
    → suc (length ps) ≤ fuel
    → (m' : UtxoManager) × (fetch_pages l addr target fuel filter m ≡ done (some m'))
unfolding fetch_pages
fetch_pages-ends l addr target ps zero filter p m h enough = absurd (omega arith)
fetch_pages-ends l addr target [] (suc fuel) filter p m (got, answered, last) enough =
    let ((plain, m₁), sorted) = sort_page-ends l addr p.utxos ([], m) answered in
    (record_btc_utxos addr plain m₁, rw (got, sorted, last) refl)
fetch_pages-ends l addr target (q ∷ ps) (suc fuel) filter p m (got, answered, (next, more, rest))
      enough =
    let ((plain, m₁), sorted) = sort_page-ends l addr p.utxos ([], m) answered in
    let m₂ = record_btc_utxos addr plain m₁ in
    elim (Bool-cases (is_short l addr target m₂)) [
      | inl short ↦
          let (m', e) =
            fetch_pages-ends l addr target ps fuel (some next) q m₂ rest (omega arith) in
          (m', rw (got, sorted, more, short) e)
      | inr reached ↦ (m₂, rw (got, sorted, more, reached) refl)
    ]

-- When the ledger gives finitely many pages and the indexer answers for each of their outputs, a
-- fetch with as many turns as there are pages ends without a panic.
pub fetch-ends :
    (l : Ledger) (addr : Addr) (target : TargetType) (p : Page) (ps : List Page) (m : UtxoManager)
    → ArePages l addr none p ps
    → (m' : UtxoManager) × (fetch_utxos_and_update_balances l addr (suc (length ps)) target m
        ≡ done (some m'))
unfolding fetch_utxos_and_update_balances
fetch-ends l addr target p ps m h =
    fetch_pages-ends l addr target ps (suc (length ps)) none p m h (omega arith)
