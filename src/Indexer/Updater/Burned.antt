-- ===== src/Indexer/Updater/Burned.antt =====
-- The end of a block: what was burned in it enters the entries.
use ord_indexer.Base.{
  ℕ, ◌+◌, ◌<◌, ◌≡◌, refl, none, some, [], ◌∷◌, Dict, lookup, insert, lookup-insert, All, Returns,
  Returns-bind, Returns-mono, u128_size, arith, ltb, true,
}
use ord_indexer.Runes.{RuneId, RuneId-discrete}
use ord_indexer.Indexer.Lot.{Lot}
use ord_indexer.Indexer.Entry.{RuneEntry}
use ord_indexer.Indexer.Balances.{Balances, amount, counted}
use ord_indexer.Indexer.Tables.{Tables}
use ord_indexer.Indexer.Updater.{RuneUpdater, update_entries, update}

abbrev pub Entries : Type 0
Entries = Dict RuneId RuneEntry

-- What the entry of a rune counts as burned.
unfoldable pub burned_of : RuneId → Entries → ℕ
burned_of r entries = elim (lookup RuneId-discrete r entries) [ none ↦ 0 | some e ↦ e.burned ]

abbrev pub HasEntry : Entries → RuneId × Lot → Type 0
HasEntry entries (id, x) = (e : RuneEntry) × (lookup RuneId-discrete id entries ≡ some e)

HasEntry-insert :
    (entries : Entries) (id : RuneId) (e : RuneEntry) (p : RuneId × Lot)
    → HasEntry entries p
    → HasEntry (insert RuneId-discrete id e entries) p
HasEntry-insert entries id e (j, x) (e', found) = elim (RuneId-discrete j id) [
  | yes same ↦ (e, ground (arith, lookup-insert RuneId-discrete j id e entries))
  | no other ↦ (e', ground (arith, lookup-insert RuneId-discrete j id e entries))
]

All-HasEntry-insert :
    (entries : Entries) (id : RuneId) (e : RuneEntry) (l : Balances)
    → All (HasEntry entries) l
    → All (HasEntry (insert RuneId-discrete id e entries)) l
All-HasEntry-insert entries id e [] h = tt
All-HasEntry-insert entries id e (p ∷ l) h =
    (HasEntry-insert entries id e p h.0, All-HasEntry-insert entries id e l h.1)

burned_of-insert :
    (r id : RuneId) (e : RuneEntry) (x : ℕ) (entries : Entries)
    → lookup RuneId-discrete id entries ≡ some e
    → burned_of r (insert RuneId-discrete id (record e { burned = e.burned + x }) entries)
      ≡ burned_of r entries + counted r id x
unfolding burned_of counted
burned_of-insert r id e x entries found =
    ground (arith, lookup-insert RuneId-discrete r id (record e { burned = e.burned + x }) entries)

-- The sum of one rune, before it is written.
burned_of-found :
    (id : RuneId) (e : RuneEntry) (entries : Entries)
    → lookup RuneId-discrete id entries ≡ some e
    → burned_of id entries ≡ e.burned
unfolding burned_of
burned_of-found id e entries found = rw (found, burned_of) refl

counted_of : (id : RuneId) (x : ℕ) (l : Balances) → amount id ((id, x) ∷ l) ≡ x + amount id l
unfolding amount counted
counted_of id x l = ground arith

update_entries-Returns :
    (l : Balances) (entries : Entries)
    → All (HasEntry entries) l
    → ((r : RuneId) → burned_of r entries + amount r l < u128_size)
    → Returns
        (update_entries l entries)
        (λ entries'. (r : RuneId) → burned_of r entries' ≡ burned_of r entries + amount r l)
unfolding update_entries amount
update_entries-Returns [] entries known fits = λ r. omega arith
update_entries-Returns ((id, x) ∷ l) entries known fits =
    let (e, found) = known.0 in
    let sum : e.burned + x < u128_size =
      omega (arith, fits id, counted_of id x l, burned_of-found id e entries found) in
    let small : ltb (e.burned + x) u128_size ≡ true = ground arith in
    let next : Entries = insert RuneId-discrete id (record e { burned = e.burned + x }) entries in
    let added = λ (r : RuneId). burned_of-insert r id e x entries found in
    rw (found, small)
      (Returns-mono (update_entries l next) _ _
        (update_entries-Returns l next
          (All-HasEntry-insert entries id (record e { burned = e.burned + x }) l known.1)
          (λ r. omega (arith, fits r, added r)))
        (λ entries' h r. omega (arith, h r, added r)))

-- Where each burned rune has an entry and no sum passes a `u128`, the end of a block does not panic,
-- and of every rune the entry's burned amount grows by exactly what the block burned.
pub update-Returns :
    (u : RuneUpdater) (t : Tables)
    → All (HasEntry t.rune_id_to_rune_entry) u.burned
    → ((r : RuneId) → burned_of r t.rune_id_to_rune_entry + amount r u.burned < u128_size)
    → Returns (update u t) (λ t'.
      ((r : RuneId)
        → burned_of r t'.rune_id_to_rune_entry
          ≡ burned_of r t.rune_id_to_rune_entry + amount r u.burned)
      × (t'.outpoint_to_rune_balances ≡ t.outpoint_to_rune_balances))
unfolding update
update-Returns u t known fits =
    Returns-bind (update_entries u.burned t.rune_id_to_rune_entry) _ _ _
      (update_entries-Returns u.burned t.rune_id_to_rune_entry known fits) (λ entries h. (h, refl))
