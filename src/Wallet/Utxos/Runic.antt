-- ===== src/Wallet/Utxos/Runic.antt =====
-- Each operation on the runic outputs, seen from the set of an address and a rune.
use ord_indexer.Base.{
  ◌≡◌, refl, Option, none, some, List, [], lookup, lookup-insert, arith, Option-cases, inl, inr,
  ◌⊎◌, erase,
}
use ord_indexer.Base.{insert as put}
use ord_indexer.Runes.{RuneId, RuneId-discrete}
use ord_indexer.Wallet.Sets.{insert_all, remove, min_by_key, min_by_key-none}
use ord_indexer.Wallet.Utxos.{
  Addr, Addr-discrete, RunicUtxo, RunicUtxo-discrete, UtxoManager, runic_map, runic_set,
  list_or_empty, record_runic_utxos, get_runic_utxo,
}

abbrev least_runic : List RunicUtxo → Option RunicUtxo
least_runic = min_by_key (λ (u : RunicUtxo). u.balance)

-- A set written back under an address and a rune is read there.
runic_set-put :
    (addr : Addr) (id : RuneId) (l : List RunicUtxo) (m : UtxoManager)
    → runic_set addr id (record m {
      r =
          put Addr-discrete addr
            (put RuneId-discrete id l (erase RuneId-discrete id (runic_map addr m)))
            m.r;
    })
      ≡ l
unfolding runic_set runic_map
runic_set-put addr id l m =
    let rest = erase RuneId-discrete id (runic_map addr m) in
    ground (
      arith,
      lookup-insert Addr-discrete addr addr (put RuneId-discrete id l rest) m.r,
      lookup-insert RuneId-discrete id id l rest,
    )

pub runic_set-record :
    (addr : Addr) (id : RuneId) (us : List RunicUtxo) (m : UtxoManager)
    → runic_set addr id (record_runic_utxos addr id us m)
      ≡ insert_all RunicUtxo-discrete us (runic_set addr id m)
unfolding record_runic_utxos
runic_set-record addr id us m =
    runic_set-put addr id (insert_all RunicUtxo-discrete us (runic_set addr id m)) m

-- What the search for the least balance finds, and what it leaves.
pub get_runic_utxo_lem :
    (addr : Addr) (id : RuneId) (m : UtxoManager)
    → ((runic_set addr id m ≡ []) × (get_runic_utxo addr id m ≡ (none, m)))
      ⊎ ((u : RunicUtxo) × ((get_runic_utxo addr id m).0 ≡ some u)
          × (min_by_key (λ (x : RunicUtxo). x.balance) (runic_set addr id m) ≡ some u)
          × (runic_set addr id (get_runic_utxo addr id m).1
              ≡ remove RunicUtxo-discrete u (runic_set addr id m)))
unfolding get_runic_utxo runic_set runic_map lookup
get_runic_utxo_lem addr id m = elim (Option-cases (lookup Addr-discrete addr m.r)) [
  | inl unknown ↦ inl (rw unknown refl, rw (unknown, get_runic_utxo) refl)
  | inr (map, known) ↦
      let utxos = list_or_empty (lookup RuneId-discrete id map) in
      elim (Option-cases (least_runic utxos)) [
        | inl empty ↦ inl (ground (arith, min_by_key-none _ utxos empty), ground arith)
        | inr (u, found) ↦
            let left = remove RunicUtxo-discrete u utxos in
            let rest = erase RuneId-discrete id map in
            inr (
              u,
              ground arith,
              ground arith,
              ground (
                arith,
                lookup-insert Addr-discrete addr addr (put RuneId-discrete id left rest) m.r,
                lookup-insert RuneId-discrete id id left rest,
              ),
            )
      ]
]

pub get_runic_utxo-btc :
    (addr : Addr) (id : RuneId) (m : UtxoManager) → (get_runic_utxo addr id m).1.b ≡ m.b
unfolding get_runic_utxo
get_runic_utxo-btc addr id m = ground arith
