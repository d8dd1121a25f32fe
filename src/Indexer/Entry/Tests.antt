-- ===== src/Indexer/Entry/Tests.antt =====
-- The code's own tests of mints and supply, and the theorems at concrete entries.
use ord_indexer.Base.{◌≡◌, ◌↔◌, refl, none, some}
use ord_indexer.Runes.{Terms, ok, err, MintError, OrdError}
use ord_indexer.Indexer.Entry.{RuneEntry, default_entry, mintable, supply, amount_of}
use ord_indexer.Indexer.Entry.Window.{IsOpen, mintable-ok_iff}

abbrev terms : Terms
terms = record {
  cap = some 1;
  height = (some 10, some 20);
  amount = some 1000;
  offset = (some 0, some 10);
}

abbrev entry : RuneEntry
entry = record default_entry { terms = some terms; block = 10 }

mintable-default : mintable default_entry 0 ≡ err (OrdError.index MintError.unmintable)
unfolding mintable
mintable-default = refl

mintable-multiple_terms : mintable entry 10 ≡ ok 1000
unfolding mintable
mintable-multiple_terms = refl

mintable-no_cap :
    mintable (record entry { terms = some (record terms { cap = none }) }) 10
    ≡ err (OrdError.index (MintError.cap 0))
unfolding mintable
mintable-no_cap = refl

mintable-late_start :
    mintable (record entry { terms = some (record terms { offset = (some 1, some 10) }) }) 10
    ≡ err (OrdError.index (MintError.start 11))
unfolding mintable
mintable-late_start = refl

mintable-early_end :
    mintable (record entry { terms = some (record terms { offset = (some 0, some 0) }) }) 10
    ≡ err (OrdError.index (MintError.end 10))
unfolding mintable
mintable-early_end = refl

supply-premine : supply (record entry { mints = 1; premine = 1 }) ≡ 1001
unfolding supply
supply-premine = refl

mintable-ok_iff_example :
    (mintable entry 10 ≡ ok 1000) ↔ (IsOpen entry (some terms) 10 × (1000 ≡ amount_of (some terms)))
mintable-ok_iff_example = mintable-ok_iff entry 10 1000
