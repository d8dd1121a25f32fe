-- ===== src/Indexer/Lookups/Unnamed.antt =====
-- What the lookup of an etching finds (`get_etching`): nothing writes the table from names to ids
-- but the first entry, so an etching that the updater has recorded is not found.
use ord_indexer.Base.{
  ℕ, ◌≡◌, refl, none, some, lookup, lookup-insert, insert, ◌∙◌, if_pos, some, Ensures-after, done,
  panic, Ensures, Ensures-done, ℕ_discrete,
}
use ord_indexer.Bitcoin.{Txid, BlockHash-discrete}
use ord_indexer.Runes.{RuneId, Artifact}
use ord_indexer.Indexer.Tables.{Tables}
use ord_indexer.Indexer.Updater.{RuneUpdater, new_entry, create_rune_entry}
use ord_indexer.Indexer.Lookups.{get_etching}

recorded :
    (u : RuneUpdater) (txid : Txid) (a : Artifact) (id : RuneId) (rune : ℕ) (t : Tables)
    → lookup ℕ_discrete rune t.rune_to_rune_id ≡ none
    → Ensures (create_rune_entry u txid a (some (id, rune)) t) (λ t'. get_etching txid t' ≡ panic)
unfolding create_rune_entry get_etching
recorded u txid a id rune t unnamed =
    let here : lookup BlockHash-discrete txid
          (insert BlockHash-discrete txid rune t.transaction_id_to_rune)
        ≡ some rune =
      lookup-insert BlockHash-discrete txid txid rune t.transaction_id_to_rune
      ∙ if_pos (BlockHash-discrete txid txid) refl (some rune)
          (lookup BlockHash-discrete txid t.transaction_id_to_rune) in
    Ensures-after (new_entry u txid a id rune) _ _ (λ entry. rw (here, unnamed) refl)

-- When the updater records an etching whose rune has no id in the table of names, the lookup of
-- this transaction panics.
pub get_etching-create_rune_entry :
    (u : RuneUpdater) (txid : Txid) (a : Artifact) (id : RuneId) (rune : ℕ) (t t' : Tables)
    → lookup ℕ_discrete rune t.rune_to_rune_id ≡ none
    → create_rune_entry u txid a (some (id, rune)) t ≡ done t'
    → get_etching txid t' ≡ panic
get_etching-create_rune_entry u txid a id rune t t' unnamed ran =
    Ensures-done (create_rune_entry u txid a (some (id, rune)) t) _ t'
      (recorded u txid a id rune t unnamed) ran
