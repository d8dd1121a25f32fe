-- ===== src/Indexer/Codec/Tests.antt =====
-- Forms of the right sizes, and an entry that goes through each coding.
use ord_indexer.Base.{
  ℕ, zero, suc, ◌≡◌, refl, Bool, true, false, Option, none, some, List, [], ◌∷◌, replicate, length,
  arith,
}
use ord_indexer.Runes.{RuneId, SpacedRune, Terms}
use ord_indexer.Indexer.Entry.{RuneEntry, default_entry}
use ord_indexer.Indexer.Codec.{
  Fixed, Forms, entry_to_bytes, entry_from_bytes, load_entry, store_entry,
}
use ord_indexer.Indexer.Codec.Bytes.{AreFixed, EntryFits, entry_from_bytes-entry_to_bytes}
use ord_indexer.Indexer.Codec.Tuples.{load_entry-store_entry}
use ord_indexer.Indexer.Codec.SatRange.{load, store}
use ord_indexer.Indexer.Codec.SatRange.Packed.{load-store}

-- A number in front, and padding up to the size.
abbrev first_of : List ℕ → ℕ
first_of [] = 0
first_of (n ∷ ns) = n

abbrev pad : (k : ℕ) → Fixed ℕ (suc k)
pad k = record { as_fixed_size_bytes = λ n. n ∷ replicate k 0; from_fixed_size_bytes = first_of }

abbrev of_option : Option ℕ → ℕ
of_option none = 0
of_option (some n) = suc n

abbrev to_option : ℕ → Option ℕ
to_option zero = none
to_option (suc n) = some n

abbrev of_bool : Bool → ℕ
of_bool true = 1
of_bool false = 0

abbrev to_bool : ℕ → Bool
to_bool zero = false
to_bool (suc n) = true

abbrev of_terms : Option Terms → List ℕ
of_terms none = replicate 7 0
of_terms (some t) =
    1
    ∷ of_option t.cap
    ∷ of_option t.height.0
    ∷ of_option t.height.1
    ∷ of_option t.amount
    ∷ of_option t.offset.0
    ∷ of_option t.offset.1
    ∷ []

abbrev to_terms : List ℕ → Option Terms
to_terms (suc n ∷ c ∷ h ∷ i ∷ a ∷ o ∷ p ∷ l) = some (record {
  cap = to_option c;
  height = (to_option h, to_option i);
  amount = to_option a;
  offset = (to_option o, to_option p);
})
to_terms _ = none

abbrev to_id : List ℕ → RuneId
to_id (b ∷ t ∷ l) = record { block = b; tx = t }
to_id _ = record { block = 0; tx = 0 }

abbrev to_spaced : List ℕ → SpacedRune
to_spaced (r ∷ s ∷ l) = record { rune = r; spacers = s }
to_spaced _ = record { rune = 0; spacers = 0 }

abbrev forms : Forms 20 6
forms = record {
  byte = pad 0;
  u64 = pad 7;
  u128 = pad 15;
  bool = record {
    as_fixed_size_bytes = λ b. of_bool b ∷ [];
    from_fixed_size_bytes = λ l. to_bool (first_of l);
  };
  symbol = record {
    as_fixed_size_bytes = λ c. of_option c ∷ replicate 4 0;
    from_fixed_size_bytes = λ l. to_option (first_of l);
  };
  rune_id = record {
    as_fixed_size_bytes = λ id. id.block ∷ id.tx ∷ replicate 10 0;
    from_fixed_size_bytes = to_id;
  };
  spaced_rune = record {
    as_fixed_size_bytes = λ r. r.rune ∷ r.spacers ∷ replicate 18 0;
    from_fixed_size_bytes = to_spaced;
  };
  terms = record { as_fixed_size_bytes = of_terms; from_fixed_size_bytes = to_terms };
}

to_option-of_option : (o : Option ℕ) → to_option (of_option o) ≡ o
to_option-of_option none = refl
to_option-of_option (some n) = refl

to_bool-of_bool : (b : Bool) → to_bool (of_bool b) ≡ b
to_bool-of_bool true = refl
to_bool-of_bool false = refl

length-of_terms : (t : Option Terms) → length (of_terms t) ≡ 7
length-of_terms none = refl
length-of_terms (some t) = refl

to_terms-of_terms : (t : Option Terms) → to_terms (of_terms t) ≡ t
to_terms-of_terms none = refl
to_terms-of_terms (some t) =
    rw
      (
        to_option-of_option t.cap,
        to_option-of_option t.height.0,
        to_option-of_option t.height.1,
        to_option-of_option t.amount,
        to_option-of_option t.offset.0,
        to_option-of_option t.offset.1,
      )
      refl

forms-AreFixed : AreFixed forms
forms-AreFixed = record {
  byte = record { exact_size = λ n h. refl; read_back = λ n h. refl };
  u64 = record { exact_size = λ n h. refl; read_back = λ n h. refl };
  u128 = record { exact_size = λ n h. refl; read_back = λ n h. refl };
  bool = record { exact_size = λ b h. refl; read_back = λ b h. to_bool-of_bool b };
  symbol = record { exact_size = λ c h. refl; read_back = λ c h. to_option-of_option c };
  rune_id = record { exact_size = λ id h. refl; read_back = λ id h. refl };
  spaced_rune = record { exact_size = λ r h. refl; read_back = λ r h. refl };
  terms = record { exact_size = λ t h. length-of_terms t; read_back = λ t h. to_terms-of_terms t };
}

abbrev some_entry : RuneEntry
some_entry = record default_entry {
  block = 840000;
  mints = 3;
  spaced_rune = record { rune = 99; spacers = 1 };
  symbol = some 0x29C9;
}

some_entry-EntryFits : EntryFits some_entry
some_entry-EntryFits = record {
  block = omega arith;
  burned = omega arith;
  divisibility = omega arith;
  etching = refl;
  mints = omega arith;
  premine = omega arith;
  spaced_rune = (omega arith, omega arith);
  symbol = omega arith;
  terms = tt;
  timestamp = omega arith;
}

entry_from_bytes-entry_to_bytes_example :
    entry_from_bytes forms (entry_to_bytes forms some_entry) ≡ some_entry
entry_from_bytes-entry_to_bytes_example =
    entry_from_bytes-entry_to_bytes forms forms-AreFixed some_entry some_entry-EntryFits

load_entry-store_entry_example : load_entry (store_entry some_entry) ≡ some_entry
load_entry-store_entry_example = load_entry-store_entry some_entry refl (ground arith)

load-store_example :
    (load (store (100, 5000000100)) ≡ (100, 5000000100)) × (length (store (100, 5000000100)) ≡ 11)
load-store_example = load-store 100 5000000100 (omega arith) (omega arith) (omega arith)
