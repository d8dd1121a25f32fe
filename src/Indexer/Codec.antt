-- ===== src/Indexer/Codec.antt =====
-- How the tables' values are stored (ord_canister/src/index/entry.rs): as tuples, and as bytes of a
-- fixed size. The fixed-size forms of numbers, of options and of the types of `ordinals` are other
-- crates' and the parameter `f`; where the code counts an offset into the buffer, what is left of the
-- buffer is passed on here. A transaction id is its 32 bytes.
pub mod SatRange
pub mod Tuples
pub mod Bytes
mod Tests
use ord_indexer.Base.Bits.{from_le_bytes, to_le_bytes}
use ord_indexer.Base.{ℕ, ◌+◌, Bool, Option, none, some, List, [], ◌∷◌, ◌++◌, take, drop}
use ord_indexer.Bitcoin.{Txid}
use ord_indexer.Runes.{RuneId, SpacedRune, Terms, RuneBalance}
use ord_indexer.Indexer.Entry.{RuneEntry}

-- `AsFixedSizeBytes` of a type, in so many bytes
pub record Fixed (A : Type 0) (size : ℕ) : Type 0 where
  pub as_fixed_size_bytes : A → List ℕ
  pub from_fixed_size_bytes : List ℕ → A

-- The forms that other crates define.
pub record Forms (spaced_size terms_size : ℕ) : Type 0 where
  pub byte : Fixed ℕ 1
  pub u64 : Fixed ℕ 8
  pub u128 : Fixed ℕ 16
  pub bool : Fixed Bool 1
  pub symbol : Fixed (Option ℕ) 5
  pub rune_id : Fixed RuneId 12
  pub spaced_rune : Fixed SpacedRune spaced_size
  pub terms : Fixed (Option Terms) (terms_size + 1)

-- A field is read from the front of what is left.
unfoldable pub read_field : {A : Type 0} {size : ℕ} → Fixed A size → List ℕ → A × List ℕ
read_field {size = size} f buf = (f.from_fixed_size_bytes (take size buf), drop size buf)

-- `TxidValue`, whose bytes are copied
abbrev pub txid_value : Fixed Txid 32
txid_value = record { as_fixed_size_bytes = λ t. t; from_fixed_size_bytes = λ buf. buf }

-- `OutPointValue`, 36 bytes that are copied
abbrev pub out_point_value : Fixed (List ℕ) 36
out_point_value = record { as_fixed_size_bytes = λ t. t; from_fixed_size_bytes = λ buf. buf }

module _ {spaced_size terms_size : ℕ} (f : Forms spaced_size terms_size) where
  unfoldable pub balance_to_bytes : RuneBalance → List ℕ
  balance_to_bytes b = f.rune_id.as_fixed_size_bytes b.id ++ f.u128.as_fixed_size_bytes b.balance

  unfoldable pub balance_from_bytes : List ℕ → RuneBalance
  balance_from_bytes buf =
      let (id, left) = read_field f.rune_id buf in
      record { id = id; balance = f.u128.from_fixed_size_bytes left }

  unfoldable pub entry_to_bytes : RuneEntry → List ℕ
  entry_to_bytes e =
      f.u64.as_fixed_size_bytes e.block
      ++ (f.u128.as_fixed_size_bytes e.burned
          ++ (f.byte.as_fixed_size_bytes e.divisibility
              ++ (txid_value.as_fixed_size_bytes e.etching
                  ++ (f.u128.as_fixed_size_bytes e.mints
                      ++ (f.u128.as_fixed_size_bytes e.premine
                          ++ (f.spaced_rune.as_fixed_size_bytes e.spaced_rune
                              ++ (f.symbol.as_fixed_size_bytes e.symbol
                                  ++ (f.terms.as_fixed_size_bytes e.terms
                                      ++ (f.u64.as_fixed_size_bytes e.timestamp
                                          ++ f.bool.as_fixed_size_bytes e.turbo)))))))))

  unfoldable pub entry_from_bytes : List ℕ → RuneEntry
  entry_from_bytes buf =
      let (block, left₁) = read_field f.u64 buf in
      let (burned, left₂) = read_field f.u128 left₁ in
      let (divisibility, left₃) = read_field f.byte left₂ in
      let (etching, left₄) = read_field txid_value left₃ in
      let (mints, left₅) = read_field f.u128 left₄ in
      let (premine, left₆) = read_field f.u128 left₅ in
      let (spaced_rune, left₇) = read_field f.spaced_rune left₆ in
      let (symbol, left₈) = read_field f.symbol left₇ in
      let (terms, left₉) = read_field f.terms left₈ in
      let (timestamp, left) = read_field f.u64 left₉ in
      record {
        block = block;
        burned = burned;
        divisibility = divisibility;
        etching = etching;
        mints = mints;
        premine = premine;
        spaced_rune = spaced_rune;
        symbol = symbol;
        terms = terms;
        timestamp = timestamp;
        turbo = f.bool.from_fixed_size_bytes left;
      }

-- `TermsEntryValue`
abbrev pub TermsEntryValue : Type 0
TermsEntryValue = Option ℕ × (Option ℕ × Option ℕ) × Option ℕ × (Option ℕ × Option ℕ)

-- `RuneEntryValue`
pub record RuneEntryValue : Type 0 where
  pub block : ℕ
  pub burned : ℕ
  pub divisibility : ℕ
  pub etching : ℕ × ℕ
  pub mints : ℕ
  pub premine : ℕ
  pub spaced_rune : ℕ × ℕ
  pub symbol : Option ℕ
  pub terms : Option TermsEntryValue
  pub timestamp : ℕ
  pub turbo : Bool

abbrev load_terms : Option TermsEntryValue → Option Terms
load_terms none = none
load_terms (some (cap, height, amount, offset)) =
    some (record { cap = cap; height = height; amount = amount; offset = offset })

abbrev store_terms : Option Terms → Option TermsEntryValue
store_terms none = none
store_terms (some t) = some (t.cap, t.height, t.amount, t.offset)

-- `RuneEntry::load`
unfoldable pub load_entry : RuneEntryValue → RuneEntry
load_entry v = record {
  block = v.block;
  burned = v.burned;
  divisibility = v.divisibility;
  etching = to_le_bytes 16 v.etching.0 ++ to_le_bytes 16 v.etching.1;
  mints = v.mints;
  premine = v.premine;
  spaced_rune = record { rune = v.spaced_rune.0; spacers = v.spaced_rune.1 };
  symbol = v.symbol;
  terms = load_terms v.terms;
  timestamp = v.timestamp;
  turbo = v.turbo;
}

-- `RuneEntry::store`
unfoldable pub store_entry : RuneEntry → RuneEntryValue
store_entry e = record {
  block = e.block;
  burned = e.burned;
  divisibility = e.divisibility;
  etching = (from_le_bytes (take 16 e.etching), from_le_bytes (take 16 (drop 16 e.etching)));
  mints = e.mints;
  premine = e.premine;
  spaced_rune = (e.spaced_rune.rune, e.spaced_rune.spacers);
  symbol = e.symbol;
  terms = store_terms e.terms;
  timestamp = e.timestamp;
  turbo = e.turbo;
}
