-- ===== src/Wallet/Fetch/Tests.antt =====
-- An address with an output of bitcoin alone and one with runes, on two pages.
use ord_indexer.Base.{
  ℕ, ◌≡◌, refl, Option, none, some, List, [], ◌∷◌, ◌==◌, if◌then◌else◌, done, arith, lookup,
  replicate,
}
use ord_indexer.Runes.{RuneId, RuneBalance, Result, ok}
use ord_indexer.Wallet.Sets.{count}
use ord_indexer.Wallet.Utxos.{Addr, Utxo, UtxoManager, btc_set}
use ord_indexer.Wallet.Flow.{Gives}
use ord_indexer.Wallet.Fetch.{Page, Ledger, bitcoin_target, fetch_utxos_and_update_balances}
use ord_indexer.Wallet.Fetch.Separate.{IsSeparate, fetch-IsSeparate}
use ord_indexer.Wallet.Fetch.Ends.{fetch-ends}

abbrev rune_a : RuneId
rune_a = record { block = 840000; tx = 3 }

abbrev output_at : ℕ → Utxo
output_at v = record { txid = replicate 32 1; vout = v; value = 10000; height = 840000 }

abbrev first_page : Page
first_page = record { utxos = output_at 0 ∷ []; next_page = some (9 ∷ []) }

abbrev last_page : Page
last_page = record { utxos = output_at 1 ∷ []; next_page = none }

abbrev page_at : Option (List ℕ) → Option Page
page_at none = some first_page
page_at (some p) = some last_page

-- The second output holds runes.
abbrev runes_at : ℕ → Result (List RuneBalance)
runes_at vout = if vout == 1 then ok (record { id = rune_a; balance = 30 } ∷ []) else ok []

abbrev ledger : Ledger
ledger = record {
  get_utxos = λ addr filter. page_at filter;
  get_runes_by_utxo = λ txid vout. some (runes_at vout);
}

abbrev nothing : UtxoManager
nothing = record { r = []; b = [] }

abbrev addr : Addr
addr = 7 ∷ []

fetch-ends_example :
    (m : UtxoManager) × (fetch_utxos_and_update_balances ledger addr 2
        (bitcoin_target 50000)
        nothing
      ≡ done (some m))
fetch-ends_example =
    fetch-ends ledger addr (bitcoin_target 50000) first_page (last_page ∷ []) nothing
      (refl, ((ok [], refl), tt), (9 ∷ [], refl, (refl, ((runes_at 1, refl), tt), refl)))

nothing-IsSeparate : IsSeparate addr nothing
unfolding btc_set lookup count
nothing-IsSeparate = record { once = λ u. omega arith; apart = λ u h. refl }

fetch-IsSeparate_example :
    Gives
      (fetch_utxos_and_update_balances ledger addr 2 (bitcoin_target 50000) nothing)
      (IsSeparate addr)
fetch-IsSeparate_example =
    fetch-IsSeparate ledger addr 2 (bitcoin_target 50000) nothing nothing-IsSeparate
