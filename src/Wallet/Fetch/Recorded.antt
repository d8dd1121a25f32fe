-- ===== src/Wallet/Fetch/Recorded.antt =====
-- What recording an output does to the sets of an address (wallet/src/state/utxo_manager.rs).
use ord_indexer.Base.{
  ℕ, ◌+◌, ◌≤◌, ◌≡◌, ◌≢◌, ◌∙◌, refl, sym, ap, true, false, some, List, [], ◌∷◌, ite, lookup,
  lookup-insert, erase, arith, Bool-cases, inl, inr, ◌⊎◌, if_pos,
}
use ord_indexer.Base.{insert as put}
use ord_indexer.Runes.{RuneId, RuneId-discrete, RuneBalance}
use ord_indexer.Wallet.Sets.{
  contains, insert, remove, insert_all, count, IsOnce, count-remove, count-insert_new,
  contains-count,
}
use ord_indexer.Wallet.Utxos.{
  Addr, Addr-discrete, Utxo, Utxo-discrete, RunicUtxo, RunicUtxo-discrete, RunicUtxoMap,
  UtxoManager, btc_set, list_or_empty, runic_map, runic_set, record_btc_utxos, record_runic_utxos,
  remove_btc_utxo, holds_utxo, any_holds, is_recorded_as_runic,
}

module _ {A : Type 0} (dec : Discrete A) where
  pub count-remove_le : (a x : A) (l : List A) → count dec a (remove dec x l) ≤ count dec a l
  unfolding count remove
  count-remove_le a x [] = omega arith
  count-remove_le a x (y ∷ l) = ground (arith, count-remove_le a x l)

  pub count-insert_le :
      (a x : A) (l : List A) → count dec a (insert dec x l) ≤ count dec a l + ite (dec a x) 1 0
  unfolding count insert
  count-insert_le a x [] = omega arith
  count-insert_le a x (y ∷ l) = ground (arith, count-insert_le a x l)

  pub IsOnce-insert :
      (x : A) (l : List A) → IsOnce dec l → contains dec x l ≡ false → IsOnce dec (insert dec x l)
  IsOnce-insert x l once new a =
      ground (arith, count-insert_new dec a x l new, contains-count dec x l new, once a)

  pub insert_all-IsOnce : (xs l : List A) → IsOnce dec l → IsOnce dec (insert_all dec xs l)
  unfolding insert_all
  insert_all-IsOnce [] l once = once
  insert_all-IsOnce (x ∷ xs) l once = elim (Bool-cases (contains dec x l)) [
    | inl there ↦ rw there (insert_all-IsOnce xs l once)
    | inr new ↦ rw new (insert_all-IsOnce xs (insert dec x l) (IsOnce-insert x l once new))
  ]

  pub insert_all-absent :
      (a : A) (xs l : List A)
      → count dec a xs ≡ 0
      → count dec a l ≡ 0
      → count dec a (insert_all dec xs l) ≡ 0
  unfolding insert_all count
  insert_all-absent a [] l h k = k
  insert_all-absent a (x ∷ xs) l h k = elim (Bool-cases (contains dec x l)) [
    | inl there ↦ rw there (insert_all-absent a xs l (ground arith) k)
    | inr new ↦ rw new (
        insert_all-absent a xs (insert dec x l) (ground arith)
          (ground (arith, count-insert_le a x l)))
  ]

pub holds-insert :
    (v : Utxo) (x : RunicUtxo) (l : List RunicUtxo)
    → holds_utxo v (insert RunicUtxo-discrete x l) ≡ true
    → (v ≡ x.utxo) ⊎ (holds_utxo v l ≡ true)
unfolding holds_utxo insert
holds-insert v x [] h = ground arith
holds-insert v x (y ∷ l) h = ground (arith, holds-insert v x l)

pub holds-insert_all :
    (v : Utxo) (x : RunicUtxo) (l : List RunicUtxo)
    → holds_utxo v (insert_all RunicUtxo-discrete (x ∷ []) l) ≡ true
    → (v ≡ x.utxo) ⊎ (holds_utxo v l ≡ true)
unfolding insert_all
holds-insert_all v x l h = ground (arith, holds-insert v x l)

pub any_holds-put :
    (v : Utxo) (id : RuneId) (l : List RunicUtxo) (map : RunicUtxoMap)
    → any_holds v (put RuneId-discrete id l map) ≡ true
    → (holds_utxo v l ≡ true) ⊎ (any_holds v map ≡ true)
unfolding any_holds put
any_holds-put v id l [] h = ground arith
any_holds-put v id l ((j, k) ∷ map) h = ground (arith, any_holds-put v id l map)

pub any_holds-erase :
    (v : Utxo) (id : RuneId) (map : RunicUtxoMap)
    → any_holds v (erase RuneId-discrete id map) ≡ true
    → any_holds v map ≡ true
unfolding any_holds erase
any_holds-erase v id [] h = h
any_holds-erase v id ((j, k) ∷ map) h = ground (arith, any_holds-erase v id map)

pub any_holds-lookup :
    (v : Utxo) (id : RuneId) (map : RunicUtxoMap)
    → holds_utxo v (list_or_empty (lookup RuneId-discrete id map)) ≡ true
    → any_holds v map ≡ true
unfolding any_holds lookup holds_utxo
any_holds-lookup v id [] h = h
any_holds-lookup v id ((j, k) ∷ map) h = ground (arith, any_holds-lookup v id map)

-- An output that is recorded as runic after a rune was recorded is this one, or was before.
pub recorded_after :
    (addr : Addr) (v u : Utxo) (id : RuneId) (balance : ℕ) (m : UtxoManager)
    → is_recorded_as_runic addr v
        (record_runic_utxos addr id (record { utxo = u; balance = balance } ∷ []) m)
      ≡ true
    → (v ≡ u) ⊎ (is_recorded_as_runic addr v m ≡ true)
unfolding is_recorded_as_runic record_runic_utxos runic_map runic_set
recorded_after addr v u id balance m h =
    let map : RunicUtxoMap = runic_map addr m in
    let x : RunicUtxo = record { utxo = u; balance = balance } in
    let l = list_or_empty (lookup RuneId-discrete id map) in
    let new =
      put RuneId-discrete id (insert_all RunicUtxo-discrete (x ∷ []) l)
        (erase RuneId-discrete id map) in
    let written : lookup Addr-discrete addr (put Addr-discrete addr new m.r) ≡ some new =
      lookup-insert Addr-discrete addr addr new m.r
      ∙ if_pos (Addr-discrete addr addr) refl (some new) (lookup Addr-discrete addr m.r) in
    let h' : any_holds v new ≡ true = rw written at h in
    elim (any_holds-put v id _ _ h') [
      | inl here ↦ elim (holds-insert_all v x l here) [
        | inl same ↦ inl same
        | inr before ↦ inr (any_holds-lookup v id map before)
      ]
      | inr there ↦ inr (any_holds-erase v id map there)
    ]

-- The set of bitcoin outputs after one was taken out.
pub btc_set-remove :
    (addr : Addr) (u : Utxo) (m : UtxoManager)
    → btc_set addr (remove_btc_utxo addr u m) ≡ remove Utxo-discrete u (btc_set addr m)
unfolding btc_set remove_btc_utxo
btc_set-remove addr u m = ap list_or_empty (
    lookup-insert Addr-discrete addr addr (remove Utxo-discrete u (btc_set addr m)) m.b
    ∙ if_pos (Addr-discrete addr addr) refl (some (remove Utxo-discrete u (btc_set addr m)))
        (lookup Addr-discrete addr m.b))

pub gone :
    (u : Utxo) (l : List Utxo)
    → IsOnce Utxo-discrete l
    → count Utxo-discrete u (remove Utxo-discrete u l) ≡ 0
gone u l once =
    let one : ℕ = 1 in
    let same : ite (Utxo-discrete u u) one 0 ≡ one = if_pos (Utxo-discrete u u) refl one 0 in
    ground (arith, once u, count-remove_le Utxo-discrete u u l, count-remove Utxo-discrete u u l)

pub recorded-remove :
    (addr : Addr) (v u : Utxo) (m : UtxoManager)
    → is_recorded_as_runic addr v (remove_btc_utxo addr u m) ≡ is_recorded_as_runic addr v m
unfolding is_recorded_as_runic remove_btc_utxo runic_map
recorded-remove addr v u m = refl

pub count_other : (v u : Utxo) → v ≢ u → count Utxo-discrete v (u ∷ []) ≡ 0
unfolding count
count_other v u other = ground arith

-- One turn of the loop over the runes of an output.
pub recorded_before :
    (addr : Addr) (v u : Utxo) (rune : RuneBalance) (m : UtxoManager)
    → is_recorded_as_runic addr v (
        record_runic_utxos addr rune.id
          (record { utxo = u; balance = rune.balance } ∷ [])
          (remove_btc_utxo addr u m))
      ≡ true
    → (v ≡ u) ⊎ (is_recorded_as_runic addr v m ≡ true)
recorded_before addr v u rune m h =
    elim (recorded_after addr v u rune.id rune.balance (remove_btc_utxo addr u m) h) [
      | inl same ↦ inl same
      | inr before ↦ inr (sym (recorded-remove addr v u m) ∙ before)
    ]

pub btc_set-record_runes :
    (addr : Addr) (u : Utxo) (rune : RuneBalance) (m : UtxoManager)
    → btc_set addr (
        record_runic_utxos addr rune.id
          (record { utxo = u; balance = rune.balance } ∷ [])
          (remove_btc_utxo addr u m))
      ≡ remove Utxo-discrete u (btc_set addr m)
unfolding btc_set record_runic_utxos
btc_set-record_runes addr u rune m = btc_set-remove addr u m

pub recorded-record :
    (addr : Addr) (v : Utxo) (us : List Utxo) (m : UtxoManager)
    → is_recorded_as_runic addr v (record_btc_utxos addr us m) ≡ is_recorded_as_runic addr v m
unfolding is_recorded_as_runic record_btc_utxos runic_map
recorded-record addr v us m = refl

pub count-none : (u : Utxo) → count Utxo-discrete u [] ≡ 0
unfolding count
count-none u = refl
