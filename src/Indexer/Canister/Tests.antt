-- ===== src/Indexer/Canister/Tests.antt =====
-- The installation on a stable memory of one slot.
use ord_indexer.Base.{◌≡◌, refl, Option, none, some, [], ◌∷◌, done, inl, Returns}
use ord_indexer.Indexer.Memory.{
  Custom, no_cells, StableMemory, tables_of, get_url, get_first_block_hash,
}
use ord_indexer.Indexer.Sync.{armed}
use ord_indexer.Indexer.Canister.{Text, init}
use ord_indexer.Indexer.Canister.First.{IsFirst, init-IsFirst}

abbrev one_slot : StableMemory (Option Custom)
one_slot = record {
  stable_memory_init = λ x. none;
  store_custom_data = λ i v x. some v;
  retrieve_custom_data = λ i x. x;
  stable_memory_pre_upgrade = λ x. some x;
  stable_memory_post_upgrade = λ x. x;
}

abbrev text : Text
text = record {
  txid_from_str = λ s. inl "bad length";
  hash_from_str = λ s. some (7 ∷ []);
  hash_to_string = λ h. "07";
  spaced_rune_to_string = λ r. "A";
}

init-IsFirst_example :
    Returns (init one_slot text "http://node" "07" none no_cells) (λ (timer, c, heap).
      (timer ≡ armed 1)
      × (get_url c ≡ done "http://node")
      × (get_first_block_hash c ≡ done "07")
      × Returns (tables_of c) (IsFirst (7 ∷ [])))
init-IsFirst_example = init-IsFirst one_slot text "http://node" "07" (7 ∷ []) none no_cells refl
