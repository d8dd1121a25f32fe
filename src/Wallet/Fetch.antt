-- ===== src/Wallet/Fetch.antt =====
-- The record of unspent outputs is brought up to date (wallet/src/updater.rs). The bitcoin canister
-- gives the outputs of an address in pages, and the indexer the runes of an output; both are the
-- parameter `l`. No other call of the wallet runs in between.
pub mod Recorded
pub mod Separate
pub mod Ends
mod Tests
use ord_indexer.Base.{
  ℕ, zero, suc, Bool, true, false, ◌&&◌, Option, none, some, List, [], ◌∷◌, ◌++◌, length, ltb, ◌==◌,
  if◌then◌else◌, Outcome, done, panic, unwrap,
}
use ord_indexer.Runes.{RuneId, RuneBalance, Result, ok, err}
use ord_indexer.Wallet.Utxos.{
  Addr, Utxo, RunicUtxo, UtxoManager, record_btc_utxos, record_runic_utxos, remove_btc_utxo,
  is_recorded_as_runic, get_bitcoin_balance, get_runestone_balance,
}
use ord_indexer.Wallet.Flow.{Flow, ◌>>=◌, return, expect, run}

pub record Page : Type 0 where
  pub utxos : List Utxo
  pub next_page : Option (List ℕ)

-- An answer that is none is a call that failed.
pub record Ledger : Type 0 where
  -- `bitcoin_get_utxos`, of an address and from a page on
  pub get_utxos : Addr → Option (List ℕ) → Option Page
  -- `get_runes_by_utxo` of the indexer, of a transaction id's bytes and an output
  pub get_runes_by_utxo : List ℕ → ℕ → Option (Result (List RuneBalance))

pub data TargetType : Type 0 where
  bitcoin_target : ℕ → TargetType
  runic_target : RuneId → ℕ → TargetType

-- Each rune of an output is recorded, and the output is no longer one of bitcoin alone.
unfoldable pub record_runes : Addr → Utxo → List RuneBalance → UtxoManager → UtxoManager
record_runes addr u [] m = m
record_runes addr u (rune ∷ runes) m = record_runes addr u runes (
    record_runic_utxos addr rune.id (record { utxo = u; balance = rune.balance } ∷ [])
      (remove_btc_utxo addr u m))

-- What the indexer says of an output; an id that is not of 32 bytes panics.
abbrev pub runes_of : Ledger → Utxo → Outcome (Result (List RuneBalance))
runes_of l u = if length u.txid == 32 then unwrap (l.get_runes_by_utxo u.txid u.vout) else panic

abbrev pub after_runes {ℓ} :
    {A : Type ℓ}
    → Outcome A
    → (A → Outcome (List Utxo × UtxoManager))
    → Outcome (List Utxo × UtxoManager)
after_runes panic f = panic
after_runes (done a) f = f a

-- One turn of the loop over a page: the outputs of bitcoin alone so far, and the record.
unfoldable pub sort_utxo :
    Addr → Utxo → Result (List RuneBalance) → List Utxo × UtxoManager → List Utxo × UtxoManager
unfolding record_runes
sort_utxo addr u (err e) (plain, m) = (plain ++ (u ∷ []), m)
sort_utxo addr u (ok []) (plain, m) = (plain ++ (u ∷ []), m)
sort_utxo addr u (ok (rune ∷ runes)) (plain, m) = (plain, record_runes addr u (rune ∷ runes) m)

module _ (l : Ledger) (addr : Addr) where
  -- The loop over a page.
  unfoldable pub sort_page : List Utxo → List Utxo × UtxoManager → Outcome (List Utxo × UtxoManager)
  sort_page [] s = done s
  sort_page (u ∷ us) (plain, m) =
      let skip = sort_page us (plain, m) in
      let asked =
        after_runes (runes_of l u) (λ runes. sort_page us (sort_utxo addr u runes (plain, m))) in
      if is_recorded_as_runic addr u m then skip else asked

  -- Whether the balance is still short of the target.
  unfoldable pub is_short : TargetType → UtxoManager → Bool
  is_short (bitcoin_target target) m = ltb (get_bitcoin_balance addr m) target
  is_short (runic_target runeid target) m = ltb (get_runestone_balance addr runeid m) target

  -- The loop over the pages, with at most so many.
  unfoldable pub fetch_pages : TargetType → ℕ → Option (List ℕ) → UtxoManager → Flow UtxoManager
  unfolding sort_page is_short
  fetch_pages target zero filter m = done none
  fetch_pages target (suc fuel) filter m = do
    page ← expect (l.get_utxos addr filter)
    (plain, m₁) ← run (sort_page page.utxos ([], m))
    let m₂ = record_btc_utxos addr plain m₁
    elim (page.next_page) [
      | none ↦ return m₂
      | some next ↦
          let more = fetch_pages target fuel (some next) m₂ in
          if is_short target m₂ then more else return m₂
    ]

  unfoldable pub fetch_utxos_and_update_balances : ℕ → TargetType → UtxoManager → Flow UtxoManager
  unfolding fetch_pages
  fetch_utxos_and_update_balances fuel target m = fetch_pages target fuel none m
