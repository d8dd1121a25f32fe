-- ===== src/Wallet/Utxos/Laws.antt =====
-- Each operation on the bitcoin outputs, seen from the set of an address.
use ord_indexer.Base.{
  sym, ap, All, ◌+◌, ◌≤◌, Option, ℕ, ◌≡◌, ◌≢◌, none, some, List, [], ite, lookup, lookup-insert,
  arith, Option-cases, inl, inr, ◌⊎◌,
}
use ord_indexer.Wallet.Sets.{
  count, min_by_key_found, min_by_key-le, count-remove, sum_by-remove, insert_all, remove,
  min_by_key, sum_by, min_by_key-none,
}
use ord_indexer.Wallet.Utxos.{
  Addr, Addr-discrete, Utxo, Utxo-discrete, UtxoManager, btc_set, record_btc_utxos,
  get_bitcoin_utxo,
}

-- The value of a list of outputs.
abbrev pub value_of : List Utxo → ℕ
value_of = sum_by (λ (u : Utxo). u.value)

-- The set of an address after a write to a set: the new one, at that address alone.
pub btc_set-record :
    (addr a : Addr) (us : List Utxo) (m : UtxoManager)
    → btc_set a (record_btc_utxos addr us m)
      ≡ ite (Addr-discrete a addr) (insert_all Utxo-discrete us (btc_set addr m)) (btc_set a m)
unfolding record_btc_utxos btc_set
btc_set-record addr a us m =
    ground
      (arith, lookup-insert Addr-discrete a addr (insert_all Utxo-discrete us (btc_set addr m)) m.b)

-- What the search for the least output finds, and what it leaves.
pub get_bitcoin_utxo_lem :
    (addr : Addr) (m : UtxoManager)
    → ((btc_set addr m ≡ []) × (get_bitcoin_utxo addr m ≡ (none, m)))
      ⊎ ((u : Utxo) × ((get_bitcoin_utxo addr m).0 ≡ some u)
          × (min_by_key (λ (x : Utxo). x.value) (btc_set addr m) ≡ some u)
          × (btc_set addr (get_bitcoin_utxo addr m).1 ≡ remove Utxo-discrete u (btc_set addr m)))
unfolding get_bitcoin_utxo btc_set
get_bitcoin_utxo_lem addr m = elim (Option-cases (lookup Addr-discrete addr m.b)) [
  | inl unknown ↦ inl (ground arith, ground arith)
  | inr (l, known) ↦ elim (Option-cases (min_by_key (λ (x : Utxo). x.value) l)) [
    | inl empty ↦ inl (ground (arith, min_by_key-none _ l empty), ground arith)
    | inr (u, found) ↦ inr (
      u,
      ground arith,
      ground arith,
      ground (arith, lookup-insert Addr-discrete addr addr (remove Utxo-discrete u l) m.b),
    )
  ]
]

-- Other addresses stay as they are.
pub get_bitcoin_utxo_others :
    (addr a : Addr) (m : UtxoManager)
    → a ≢ addr
    → btc_set a (get_bitcoin_utxo addr m).1 ≡ btc_set a m
unfolding get_bitcoin_utxo btc_set
get_bitcoin_utxo_others addr a m h = elim (Option-cases (lookup Addr-discrete addr m.b)) [
  | inl unknown ↦ ground arith
  | inr (l, known) ↦ elim (Option-cases (min_by_key (λ (x : Utxo). x.value) l)) [
    | inl empty ↦ ground arith
    | inr (u, found) ↦
        ground (arith, lookup-insert Addr-discrete a addr (remove Utxo-discrete u l) m.b)
  ]
]

pub get_bitcoin_utxo-runic : (addr : Addr) (m : UtxoManager) → (get_bitcoin_utxo addr m).1.r ≡ m.r
unfolding get_bitcoin_utxo
get_bitcoin_utxo-runic addr m = ground arith

-- What the search takes is the least output by value, and it leaves the record once, with its value,
-- while all other outputs of the address stay.
pub get_bitcoin_utxo-IsLeast :
    (addr : Addr) (m : UtxoManager) (u : Utxo)
    → (get_bitcoin_utxo addr m).0 ≡ some u
    → All (λ (x : Utxo). u.value ≤ x.value) (btc_set addr m)
      × ((a : Utxo)
          → count Utxo-discrete a (btc_set addr (get_bitcoin_utxo addr m).1)
              + ite (Utxo-discrete a u) 1 0
            ≡ count Utxo-discrete a (btc_set addr m))
      × (value_of (btc_set addr (get_bitcoin_utxo addr m).1) + u.value ≡ value_of (btc_set addr m))
get_bitcoin_utxo-IsLeast addr m u taken = elim (get_bitcoin_utxo_lem addr m) [
  | inl (nil, nothing) ↦
      absurd (none_some (ap (λ (r : Option Utxo × UtxoManager). r.0) nothing) taken)
  | inr (v, found, least, left) ↦
      let l = btc_set addr m in
      let value : Utxo → ℕ = λ x. x.value in
      let same : v ≡ u = cc in
      let least' : min_by_key value l ≡ some u = rw (sym same) least in
      let there = min_by_key_found Utxo-discrete value l u least' in
      rw (left, same)
        (
          min_by_key-le value l u least',
          (λ a. count-remove Utxo-discrete a u l there),
          sum_by-remove Utxo-discrete value u l there,
        )
]
  where
    none_some : {o : Option Utxo} → o ≡ none → o ≡ some u → ⊥
    none_some e k = cc
