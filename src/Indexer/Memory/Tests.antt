-- ===== src/Indexer/Memory/Tests.antt =====
-- An upgrade on a stable memory that is a function of the slot.
use ord_indexer.Base.{
  ℕ, ◌≡◌, refl, ap, sym, Option, none, some, [], ◌∷◌, ◌==◌, if◌then◌else◌, ◌>>=◌, Returns,
}
use ord_indexer.Indexer.Tables.{Tables, no_tables}
use ord_indexer.Indexer.Memory.{Custom, StableMemory, IsStable, persistence, restore}
use ord_indexer.Indexer.Memory.Upgrade.{cells_of, restore-persistence}

abbrev slots : StableMemory (ℕ → Option Custom)
slots = record {
  stable_memory_init = λ x i. none;
  store_custom_data = λ j v x i. if i == j then some v else x i;
  retrieve_custom_data = λ i x. x i;
  stable_memory_pre_upgrade = λ x. some x;
  stable_memory_post_upgrade = λ x. x;
}

same_some : {A : Type 0} (a b : A) → some a ≡ some b → a ≡ b
same_some a b e = cc

slots-IsStable : IsStable slots
slots-IsStable = record {
  retrieve_store = λ i j v x. refl;
  upgrade_enough = λ x. (x, refl);
  upgrade_keeps = λ i x y e. ap (λ (f : ℕ → Option Custom). f i) (sym (same_some x y e));
}

abbrev some_tables : Tables
some_tables = record no_tables { height_to_block_hash = (5, 1 ∷ []) ∷ [] }

restore-persistence_example :
    Returns
      (persistence slots (λ i. none) (cells_of "http://node" "00" some_tables) >>= λ (c, y).
        restore slots y)
      (λ (c, y). c ≡ cells_of "http://node" "00" some_tables)
restore-persistence_example =
    restore-persistence slots "http://node" "00" some_tables (λ i. none) slots-IsStable
