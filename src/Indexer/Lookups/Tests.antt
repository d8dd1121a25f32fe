-- ===== src/Indexer/Lookups/Tests.antt =====
-- An etching that is recorded and then looked up.
use ord_indexer.Base.{◌≡◌, refl, none, some, false, [], ◌∷◌, panic, insert, lookup}
use ord_indexer.Runes.{RuneId, Artifact, cenotaph}
use ord_indexer.Indexer.Tables.{Tables, no_tables}
use ord_indexer.Indexer.Updater.{RuneUpdater, new_entry, create_rune_entry}
use ord_indexer.Indexer.Lookups.{get_etching}
use ord_indexer.Indexer.Lookups.Unnamed.{get_etching-create_rune_entry}

abbrev updater : RuneUpdater
updater = record { block_time = 7; burned = []; height = 840001; minimum = 0 }

abbrev etched_id : RuneId
etched_id = record { block = 840001; tx = 2 }

abbrev etching : Artifact
etching = cenotaph (record { etching = some 99; mint = none })

abbrev with_rune : Tables
with_rune = record no_tables {
  transaction_id_to_rune = (5 ∷ [], 99) ∷ [];
  rune_id_to_rune_entry =
      (
        etched_id,
        record {
          block = 840001;
          burned = 0;
          divisibility = 0;
          etching = 5 ∷ [];
          mints = 0;
          premine = 0;
          spaced_rune = record { rune = 99; spacers = 0 };
          symbol = none;
          terms = none;
          timestamp = 7;
          turbo = false;
        },
      )
      ∷ [];
}

get_etching-create_rune_entry_example : get_etching (5 ∷ []) with_rune ≡ panic
unfolding create_rune_entry new_entry insert lookup
get_etching-create_rune_entry_example =
    get_etching-create_rune_entry updater (5 ∷ []) etching etched_id 99 no_tables with_rune refl
      refl
