-- ===== src/Wallet/Utxos.antt =====
-- The wallet's record of unspent outputs (wallet/src/state/utxo_manager.rs): for each address its
-- bitcoin outputs, and for each address and rune the outputs that hold the rune. An address is the
-- bytes of its text. The stable maps are copied out, changed, and written back, as in the source.
pub mod Laws
pub mod Runic
use ord_indexer.Base.{
  ℕ, Bool, true, false, ◌||◌, Option, none, some, List, [], ◌∷◌, Dict, lookup, erase, add64, add128,
  ℕ_discrete,
}
use ord_indexer.Base.{insert as put}
use ord_indexer.Runes.{RuneId, RuneId-discrete}
use ord_indexer.Wallet.Sets.{contains, insert, remove, insert_all, min_by_key}

abbrev pub Addr : Type 0
Addr = List ℕ

-- `Utxo` and its outpoint, of the management canister
pub record Utxo : Type 0 where
  pub txid : List ℕ
  pub vout : ℕ
  pub value : ℕ
  pub height : ℕ

pub record RunicUtxo : Type 0 where
  pub utxo : Utxo
  pub balance : ℕ

unfoldable pub Addr-discrete : Discrete Addr
unfolding ℕ_discrete
Addr-discrete = hlevel ℕ_discrete

unfoldable pub Utxo-discrete : Discrete Utxo
unfolding ℕ_discrete
Utxo-discrete = hlevel ℕ_discrete

unfoldable pub RunicUtxo-discrete : Discrete RunicUtxo
unfolding Utxo-discrete ℕ_discrete
RunicUtxo-discrete = hlevel (Utxo-discrete, ℕ_discrete)

abbrev pub RunicUtxoMap : Type 0
RunicUtxoMap = Dict RuneId (List RunicUtxo)

pub record UtxoManager : Type 0 where
  pub r : Dict Addr RunicUtxoMap
  pub b : Dict Addr (List Utxo)

-- `map.get(&key).unwrap_or_default()`, at sets and at maps of sets
abbrev pub list_or_empty {ℓ} : {A : Type ℓ} → Option (List A) → List A
list_or_empty none = []
list_or_empty (some l) = l

-- The recorded outputs of an address, and those that hold a rune.
unfoldable pub btc_set : Addr → UtxoManager → List Utxo
btc_set addr m = list_or_empty (lookup Addr-discrete addr m.b)

unfoldable pub runic_map : Addr → UtxoManager → RunicUtxoMap
runic_map addr m = list_or_empty (lookup Addr-discrete addr m.r)

unfoldable pub runic_set : Addr → RuneId → UtxoManager → List RunicUtxo
unfolding runic_map
runic_set addr id m = list_or_empty (lookup RuneId-discrete id (runic_map addr m))

unfoldable pub record_btc_utxos : Addr → List Utxo → UtxoManager → UtxoManager
unfolding btc_set
record_btc_utxos addr utxos m = record m {
  b = put Addr-discrete addr (insert_all Utxo-discrete utxos (btc_set addr m)) m.b;
}

unfoldable pub record_runic_utxos : Addr → RuneId → List RunicUtxo → UtxoManager → UtxoManager
unfolding runic_map runic_set
record_runic_utxos addr id utxos m =
    let current = runic_set addr id m in
    let rest = erase RuneId-discrete id (runic_map addr m) in
    record m {
      r =
          put Addr-discrete addr
            (put RuneId-discrete id (insert_all RunicUtxo-discrete utxos current) rest) m.r;
    }

-- The output with the least value, which leaves the record.
unfoldable pub get_bitcoin_utxo : Addr → UtxoManager → Option Utxo × UtxoManager
unfolding btc_set
get_bitcoin_utxo addr m = elim (lookup Addr-discrete addr m.b) [
  | none ↦ (none, m)
  | some utxos ↦ elim (min_by_key (λ (u : Utxo). u.value) utxos) [
    | none ↦ (none, m)
    | some least ↦
        (some least, record m { b = put Addr-discrete addr (remove Utxo-discrete least utxos) m.b })
  ]
]

unfoldable pub get_runic_utxo : Addr → RuneId → UtxoManager → Option RunicUtxo × UtxoManager
get_runic_utxo addr id m = elim (lookup Addr-discrete addr m.r) [
  | none ↦ (none, m)
  | some map ↦
      let utxos = list_or_empty (lookup RuneId-discrete id map) in
      elim (min_by_key (λ (u : RunicUtxo). u.balance) utxos) [
        | none ↦ (none, m)
        | some least ↦ (
          some least,
          record m {
            r =
                put Addr-discrete addr
                  (put RuneId-discrete id (remove RunicUtxo-discrete least utxos)
                    (erase RuneId-discrete id map))
                  m.r;
          },
        )
      ]
]

-- `utxos.contains(utxo)`, where a runic output is looked up by its plain output
unfoldable pub holds_utxo : Utxo → List RunicUtxo → Bool
holds_utxo u [] = false
holds_utxo u (x ∷ l) = elim (Utxo-discrete u x.utxo) [ yes _ ↦ true | no _ ↦ holds_utxo u l ]

unfoldable pub any_holds : Utxo → RunicUtxoMap → Bool
unfolding holds_utxo
any_holds u [] = false
any_holds u ((id, utxos) ∷ map) = holds_utxo u utxos || any_holds u map

unfoldable pub is_recorded_as_runic : Addr → Utxo → UtxoManager → Bool
unfolding any_holds runic_map
is_recorded_as_runic addr u m = any_holds u (runic_map addr m)

-- `utxos.iter().fold(0, |balance, utxo| balance + …)`
unfoldable pub fold_balance : ℕ → List RunicUtxo → ℕ
fold_balance sum [] = sum
fold_balance sum (x ∷ l) = fold_balance (add128 sum x.balance) l

unfoldable pub fold_value : ℕ → List Utxo → ℕ
fold_value sum [] = sum
fold_value sum (x ∷ l) = fold_value (add64 sum x.value) l

unfoldable pub get_runestone_balance : Addr → RuneId → UtxoManager → ℕ
unfolding runic_set fold_balance
get_runestone_balance addr id m = fold_balance 0 (runic_set addr id m)

unfoldable pub get_bitcoin_balance : Addr → UtxoManager → ℕ
unfolding btc_set fold_value
get_bitcoin_balance addr m = fold_value 0 (btc_set addr m)

unfoldable pub balances_of : RunicUtxoMap → Dict RuneId ℕ → Dict RuneId ℕ
unfolding fold_balance
balances_of [] balances = balances
balances_of ((id, utxos) ∷ map) balances =
    balances_of map (put RuneId-discrete id (fold_balance 0 utxos) balances)

unfoldable pub all_rune_with_balances : Addr → UtxoManager → Dict RuneId ℕ
unfolding balances_of runic_map
all_rune_with_balances addr m = balances_of (runic_map addr m) []

unfoldable pub remove_btc_utxo : Addr → Utxo → UtxoManager → UtxoManager
unfolding btc_set
remove_btc_utxo addr u m = record m {
  b = put Addr-discrete addr (remove Utxo-discrete u (btc_set addr m)) m.b;
}
