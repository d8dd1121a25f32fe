-- ===== src/Indexer/Memory/Upgrade.antt =====
-- An upgrade keeps the canister's state (`persistence`, then `restore` in the new code).
use Prim.Native.String.{String}
use ord_indexer.Base.{ℕ, ◌≡◌, refl, Option, some, ◌>>=◌, Returns, ◌∙◌, if◌then◌else◌, ◌==◌}
use ord_indexer.Indexer.Tables.{Tables}
use ord_indexer.Indexer.Memory.{
  Custom, text_box, outputs_box, entries_box, ids_box, transactions_box, heights_box, Cells,
  no_cells, put_tables, StableMemory, IsStable, persistence, retrieve, restore,
}

-- The cells of a canister that is set up.
abbrev pub cells_of : String → String → Tables → Cells
unfolding put_tables
cells_of url hash t =
    put_tables t (record no_cells { rpc_url = some url; first_block_hash = some hash })

-- The slots once all the cells are in them.
abbrev stored : {Heap : Type 0} → StableMemory Heap → String → String → Tables → Heap → Heap
stored m url hash t x =
    let x0 = m.store_custom_data 0 (text_box url) x in
    let x1 = m.store_custom_data 1 (outputs_box t.outpoint_to_rune_balances) x0 in
    let x2 = m.store_custom_data 2 (entries_box t.rune_id_to_rune_entry) x1 in
    let x3 = m.store_custom_data 3 (ids_box t.rune_to_rune_id) x2 in
    let x4 = m.store_custom_data 4 (transactions_box t.transaction_id_to_rune) x3 in
    let x5 = m.store_custom_data 5 (heights_box t.height_to_block_hash) x4 in
    m.store_custom_data 6 (text_box hash) x5

-- An upgrade of a canister that is set up does not panic, and afterwards its cells are what they
-- were: every table, the address of the node and the first block's hash.
pub restore-persistence :
    {Heap : Type 0} (m : StableMemory Heap) (url hash : String) (t : Tables) (x : Heap)
    → IsStable m
    → Returns
        (persistence m x (cells_of url hash t) >>= λ (c, y). restore m y)
        (λ (c, y). c ≡ cells_of url hash t)
unfolding persistence restore retrieve cells_of
restore-persistence {Heap} m url hash t x stable =
    let (y, e) = stable.upgrade_enough (stored m url hash t x) in
    let kept = λ (i : ℕ). stable.upgrade_keeps i (stored m url hash t x) y e in
    let read : (i : ℕ) → m.retrieve_custom_data i (m.stable_memory_post_upgrade y) ≡ found i = λ i.
      kept i
      ∙ rw
          (
            stable.retrieve_store, stable.retrieve_store, stable.retrieve_store,
            stable.retrieve_store, stable.retrieve_store, stable.retrieve_store,
            stable.retrieve_store,
          )
          refl in
    rw (e, restore, read 0, read 6, read 1, read 2, read 3, read 4, read 5) refl
  where
    found : ℕ → Option Custom
    found i =
        if i == 6
        then some (text_box hash)
        else if i == 5
        then some (heights_box t.height_to_block_hash)
        else if i == 4
        then some (transactions_box t.transaction_id_to_rune)
        else if i == 3
        then some (ids_box t.rune_to_rune_id)
        else if i == 2
        then some (entries_box t.rune_id_to_rune_entry)
        else if i == 1
        then some (outputs_box t.outpoint_to_rune_balances)
        else if i == 0
        then some (text_box url)
        else m.retrieve_custom_data i x
