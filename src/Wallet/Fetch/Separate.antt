-- ===== src/Wallet/Fetch/Separate.antt =====
-- A fetch keeps outputs with runes apart from outputs of bitcoin alone
-- (`fetch_utxos_and_update_balances`).
use ord_indexer.Base.{
  ℕ, zero, suc, ◌≡◌, ◌∙◌, refl, sym, ap, Bool, true, false, Option, none, some, List, [], ◌∷◌, ◌++◌,
  Outcome, done, panic, All, arith, Option-cases, Bool-cases, inl, inr, if_pos, Ensures,
}
use ord_indexer.Runes.{RuneBalance, Result, ok, err}
use ord_indexer.Wallet.Sets.{remove, insert_all, count, IsOnce, count-append}
use ord_indexer.Wallet.Utxos.{
  Addr, Addr-discrete, Utxo, Utxo-discrete, UtxoManager, btc_set, record_btc_utxos,
  record_runic_utxos, remove_btc_utxo, is_recorded_as_runic,
}
use ord_indexer.Wallet.Utxos.Laws.{btc_set-record}
use ord_indexer.Wallet.Flow.{run, expect, Gives, Gives-bind, Gives-after, Gives-run}
use ord_indexer.Wallet.Fetch.{
  Ledger, TargetType, runes_of, after_runes, record_runes, sort_utxo, sort_page, is_short,
  fetch_pages, fetch_utxos_and_update_balances,
}
use ord_indexer.Wallet.Fetch.Recorded.{
  count-remove_le, insert_all-IsOnce, insert_all-absent, gone, count_other, recorded_before,
  btc_set-record_runes, recorded-record, count-none,
}

-- Each output of bitcoin alone is recorded once, and none of them holds runes.
pub record IsSeparate (addr : Addr) (m : UtxoManager) : Type 0 where
  pub once : IsOnce Utxo-discrete (btc_set addr m)
  pub apart :
      (u : Utxo) → is_recorded_as_runic addr u m ≡ true → count Utxo-discrete u (btc_set addr m) ≡ 0

-- The indexer knows of no runes of the output, or gives no answer.
abbrev has_runes : Result (List RuneBalance) → Bool
has_runes (err e) = false
has_runes (ok []) = false
has_runes (ok (rune ∷ runes)) = true

abbrev IsPlain : Ledger → Utxo → Type 0
IsPlain l u =
    (answer : Result (List RuneBalance)) × (runes_of l u ≡ done answer) × (has_runes answer ≡ false)

same_answer :
    (a b : Result (List RuneBalance))
    → ◌≡◌ {A = Outcome (Result (List RuneBalance))} (done a) (done b)
    → a ≡ b
same_answer a b e = cc

clash :
    (l : Ledger) (u : Utxo) (answer : Result (List RuneBalance))
    → runes_of l u ≡ done answer
    → has_runes answer ≡ true
    → IsPlain l u
    → ⊥
clash l u answer e runic (b, f, no_runes) =
    let equal : answer ≡ b = same_answer answer b (sym e ∙ f) in cc

plain_absent :
    (l : Ledger) (u : Utxo) (answer : Result (List RuneBalance)) (plain : List Utxo)
    → runes_of l u ≡ done answer
    → has_runes answer ≡ true
    → All (IsPlain l) plain
    → count Utxo-discrete u plain ≡ 0
unfolding count
plain_absent l u answer [] e runic all = refl
plain_absent l u answer (y ∷ plain) e runic (here, rest) = elim (Utxo-discrete u y) [
  | yes same ↦ absurd (clash l u answer e runic (rw same here))
  | no other ↦ ground (arith, plain_absent l u answer plain e runic rest)
]

-- The state of a fetch: the record, and the outputs of bitcoin alone that are not yet recorded.
pub record IsSorted (l : Ledger) (addr : Addr) (s : List Utxo × UtxoManager) : Type 0 where
  pub separate : IsSeparate addr s.1
  pub waiting : (u : Utxo) → is_recorded_as_runic addr u s.1 ≡ true → count Utxo-discrete u s.0 ≡ 0
  pub plain : All (IsPlain l) s.0

record_runes-IsSorted :
    (l : Ledger) (addr : Addr) (u : Utxo) (runes : List RuneBalance) (plain : List Utxo)
    (m : UtxoManager)
    → count Utxo-discrete u plain ≡ 0
    → IsSorted l addr (plain, m)
    → IsSorted l addr (plain, record_runes addr u runes m)
unfolding record_runes
record_runes-IsSorted l addr u [] plain m new h = h
record_runes-IsSorted l addr u (rune ∷ runes) plain m new h =
    record_runes-IsSorted l addr u runes plain m₁ new (record {
      separate = record {
        once = λ a.
            omega (
              arith,
              left a,
              count-remove_le Utxo-discrete a u (btc_set addr m),
              h.separate.once a,
            );
        apart = λ v recorded. elim (recorded_before addr v u rune m recorded) [
          | inl same ↦ rw same (left u ∙ gone u (btc_set addr m) h.separate.once)
          | inr before ↦ omega (
            arith,
            left v,
            count-remove_le Utxo-discrete v u (btc_set addr m),
            h.separate.apart v before,
          )
        ];
      };
      waiting = λ v recorded. elim (recorded_before addr v u rune m recorded) [
        | inl same ↦ rw same new
        | inr before ↦ h.waiting v before
      ];
      plain = h.plain;
    })
  where
    m₀ : UtxoManager
    m₀ = remove_btc_utxo addr u m

    m₁ : UtxoManager
    m₁ = record_runic_utxos addr rune.id (record { utxo = u; balance = rune.balance } ∷ []) m₀

    left :
        (a : Utxo)
        → count Utxo-discrete a (btc_set addr m₁)
          ≡ count Utxo-discrete a (remove Utxo-discrete u (btc_set addr m))
    left a = ap (count Utxo-discrete a) (btc_set-record_runes addr u rune m)

All-snoc : (P : Utxo → Type 0) (xs : List Utxo) (x : Utxo) → All P xs → P x → All P (xs ++ (x ∷ []))
All-snoc P [] x h k = (k, tt)
All-snoc P (y ∷ ys) x h k = (h.0, All-snoc P ys x h.1 k)

-- An output without runes waits to be recorded.
push-IsSorted :
    (l : Ledger) (addr : Addr) (u : Utxo) (answer : Result (List RuneBalance)) (plain : List Utxo)
    (m : UtxoManager)
    → is_recorded_as_runic addr u m ≡ false
    → runes_of l u ≡ done answer
    → has_runes answer ≡ false
    → IsSorted l addr (plain, m)
    → IsSorted l addr (plain ++ (u ∷ []), m)
push-IsSorted l addr u answer plain m new told no_runes h = record {
  separate = h.separate;
  waiting = λ v recorded. elim (Utxo-discrete v u) [
    | yes same ↦ absurd (both v same recorded)
    | no other ↦ omega (
      arith,
      count-append Utxo-discrete v plain (u ∷ []),
      h.waiting v recorded,
      count_other v u other,
    )
  ];
  plain = All-snoc (IsPlain l) plain u h.plain (answer, told, no_runes);
}
  where
    both : (v : Utxo) → v ≡ u → is_recorded_as_runic addr v m ≡ true → ⊥
    both v same recorded =
        let here : is_recorded_as_runic addr u m ≡ true = rw same at recorded in cc

-- One turn of the loop over a page.
sort_utxo-IsSorted :
    (l : Ledger) (addr : Addr) (u : Utxo) (answer : Result (List RuneBalance))
    (s : List Utxo × UtxoManager)
    → is_recorded_as_runic addr u s.1 ≡ false
    → runes_of l u ≡ done answer
    → IsSorted l addr s
    → IsSorted l addr (sort_utxo addr u answer s)
unfolding sort_utxo
sort_utxo-IsSorted l addr u (err e) (plain, m) new told h =
    push-IsSorted l addr u (err e) plain m new told refl h
sort_utxo-IsSorted l addr u (ok []) (plain, m) new told h =
    push-IsSorted l addr u (ok []) plain m new told refl h
sort_utxo-IsSorted l addr u (ok (rune ∷ runes)) (plain, m) new told h =
    record_runes-IsSorted l addr u (rune ∷ runes) plain m
      (plain_absent l u (ok (rune ∷ runes)) plain told refl h.plain) h

after_told :
    (x : Outcome (Result (List RuneBalance)))
    (f : Result (List RuneBalance) → Outcome (List Utxo × UtxoManager))
    (Q : List Utxo × UtxoManager → Type 0)
    → ((answer : Result (List RuneBalance)) → x ≡ done answer → Ensures (f answer) Q)
    → Ensures (after_runes x f) Q
after_told (done answer) f Q k = k answer refl
after_told panic f Q k = tt

sort_page-IsSorted :
    (l : Ledger) (addr : Addr) (us : List Utxo) (s : List Utxo × UtxoManager)
    → IsSorted l addr s
    → Ensures (sort_page l addr us s) (IsSorted l addr)
unfolding sort_page
sort_page-IsSorted l addr [] s h = h
sort_page-IsSorted l addr (u ∷ us) (plain, m) h =
    elim (Bool-cases (is_recorded_as_runic addr u m)) [
      | inl known ↦ rw known (sort_page-IsSorted l addr us (plain, m) h)
      | inr new ↦ rw new (
          after_told (runes_of l u) _ (IsSorted l addr) (λ answer e.
            sort_page-IsSorted l addr us (sort_utxo addr u answer (plain, m))
              (sort_utxo-IsSorted l addr u answer (plain, m) new e h)))
    ]

-- The outputs that were sorted out are recorded at the end of a page.
record-IsSeparate :
    (l : Ledger) (addr : Addr) (s : List Utxo × UtxoManager)
    → IsSorted l addr s
    → IsSeparate addr (record_btc_utxos addr s.0 s.1)
record-IsSeparate l addr (plain, m) h =
    let same =
      btc_set-record addr addr plain m
      ∙ if_pos (Addr-discrete addr addr) refl (insert_all Utxo-discrete plain (btc_set addr m))
          (btc_set addr m) in
    record {
      once =
          λ a. rw same (insert_all-IsOnce Utxo-discrete plain (btc_set addr m) h.separate.once a);
      apart = λ v recorded.
          let before = sym (recorded-record addr v plain m) ∙ recorded in
          rw same (
            insert_all-absent Utxo-discrete v plain (btc_set addr m) (h.waiting v before)
              (h.separate.apart v before));
    }

fetch_pages-IsSeparate :
    (l : Ledger) (addr : Addr) (target : TargetType) (fuel : ℕ) (filter : Option (List ℕ))
    (m : UtxoManager)
    → IsSeparate addr m
    → Gives (fetch_pages l addr target fuel filter m) (IsSeparate addr)
unfolding fetch_pages
fetch_pages-IsSeparate l addr target zero filter m h = tt
fetch_pages-IsSeparate l addr target (suc fuel) filter m h =
    Gives-after (expect (l.get_utxos addr filter)) _ (IsSeparate addr) (λ page.
      Gives-bind (run (sort_page l addr page.utxos ([], m))) _ (IsSorted l addr) (IsSeparate addr)
        (Gives-run (sort_page l addr page.utxos ([], m)) (IsSorted l addr)
          (sort_page-IsSorted l addr page.utxos ([], m) (start h)))
        (λ (plain, m₁) sorted.
          let m₂ = record_btc_utxos addr plain m₁ in
          let separate = record-IsSeparate l addr (plain, m₁) sorted in
          elim (Option-cases page.next_page) [
            | inl last ↦ rw last separate
            | inr (next, more) ↦ elim (Bool-cases (is_short l addr target m₂)) [
              | inl short ↦
                  rw (more, short)
                    (fetch_pages-IsSeparate l addr target fuel (some next) m₂ separate)
              | inr enough ↦ rw (more, enough) separate
            ]
          ]))
  where
    start : IsSeparate addr m → IsSorted l addr ([], m)
    start separate = record { separate = separate; waiting = λ u e. count-none u; plain = tt }

-- A fetch of any number of pages, whatever the ledger and the indexer answer, keeps the record of
-- the address separate: each output of bitcoin alone stands there once, and none of them is
-- recorded as holding a rune.
pub fetch-IsSeparate :
    (l : Ledger) (addr : Addr) (fuel : ℕ) (target : TargetType) (m : UtxoManager)
    → IsSeparate addr m
    → Gives (fetch_utxos_and_update_balances l addr fuel target m) (IsSeparate addr)
unfolding fetch_utxos_and_update_balances
fetch-IsSeparate l addr fuel target m h = fetch_pages-IsSeparate l addr target fuel none m h
