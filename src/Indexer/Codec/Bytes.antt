-- ===== src/Indexer/Codec/Bytes.antt =====
-- What is stored as bytes is read back (`AsFixedSizeBytes` of balances and entries).
use ord_indexer.Base.{ℕ, ◌^◌, ◌<◌, ◌≡◌, none, some, refl, Option, List, ◌++◌, length}
use ord_indexer.Base.Slices.{take-append, drop-append}
use ord_indexer.Runes.{RuneId, SpacedRune, Terms, RuneBalance}
use ord_indexer.Indexer.Entry.{RuneEntry}
use ord_indexer.Indexer.Codec.{
  Fixed, Forms, read_field, txid_value, balance_to_bytes, balance_from_bytes, entry_to_bytes,
  entry_from_bytes,
}

-- What is documented of a fixed-size form, for the values that fit it.
pub record IsFixed {A : Type 0} {size : ℕ} (f : Fixed A size) (Fits : A → Type 0) : Type 0 where
  pub exact_size : (a : A) → Fits a → length (f.as_fixed_size_bytes a) ≡ size
  pub read_back : (a : A) → Fits a → f.from_fixed_size_bytes (f.as_fixed_size_bytes a) ≡ a

read_field-append :
    {A : Type 0} {size : ℕ} (f : Fixed A size) (Fits : A → Type 0) (a : A) (left : List ℕ)
    → IsFixed f Fits
    → Fits a
    → read_field f (f.as_fixed_size_bytes a ++ left) ≡ (a, left)
unfolding read_field
read_field-append {size = size} f Fits a left fixed fits =
    rw
      (
        take-append size (f.as_fixed_size_bytes a) left (fixed.exact_size a fits),
        drop-append size (f.as_fixed_size_bytes a) left (fixed.exact_size a fits),
        fixed.read_back a fits,
      )
      refl

abbrev pub OptionFits : Option ℕ → ℕ → Type 0
OptionFits none bound = Unit
OptionFits (some n) bound = n < bound

abbrev pub IdFits : RuneId → Type 0
IdFits id = (id.block < 2 ^ 64) × (id.tx < 2 ^ 32)

abbrev pub SpacedFits : SpacedRune → Type 0
SpacedFits r = (r.rune < 2 ^ 128) × (r.spacers < 2 ^ 32)

abbrev pub TermsFit : Option Terms → Type 0
TermsFit none = Unit
TermsFit (some t) =
    OptionFits t.cap (2 ^ 128)
    × OptionFits t.amount (2 ^ 128)
    × OptionFits t.height.0 (2 ^ 64)
    × OptionFits t.height.1 (2 ^ 64)
    × OptionFits t.offset.0 (2 ^ 64)
    × OptionFits t.offset.1 (2 ^ 64)

-- The laws of all forms.
pub record AreFixed {spaced_size terms_size : ℕ} (f : Forms spaced_size terms_size) : Type 0 where
  pub byte : IsFixed f.byte (λ n. n < 2 ^ 8)
  pub u64 : IsFixed f.u64 (λ n. n < 2 ^ 64)
  pub u128 : IsFixed f.u128 (λ n. n < 2 ^ 128)
  pub bool : IsFixed f.bool (λ b. Unit)
  pub symbol : IsFixed f.symbol (λ c. OptionFits c (2 ^ 32))
  pub rune_id : IsFixed f.rune_id IdFits
  pub spaced_rune : IsFixed f.spaced_rune SpacedFits
  pub terms : IsFixed f.terms TermsFit

-- The fields of an entry are in the ranges of their types.
pub record EntryFits (e : RuneEntry) : Type 0 where
  pub block : e.block < 2 ^ 64
  pub burned : e.burned < 2 ^ 128
  pub divisibility : e.divisibility < 2 ^ 8
  pub etching : length e.etching ≡ 32
  pub mints : e.mints < 2 ^ 128
  pub premine : e.premine < 2 ^ 128
  pub spaced_rune : SpacedFits e.spaced_rune
  pub symbol : OptionFits e.symbol (2 ^ 32)
  pub terms : TermsFit e.terms
  pub timestamp : e.timestamp < 2 ^ 64

txid_value-IsFixed : IsFixed txid_value (λ t. length t ≡ 32)
txid_value-IsFixed = record { exact_size = λ t h. h; read_back = λ t h. refl }

module _ {spaced_size terms_size : ℕ} (f : Forms spaced_size terms_size) (laws : AreFixed f) where
  -- A balance in the range of its types is read back from the bytes that it was stored in.
  pub balance_from_bytes-balance_to_bytes :
      (b : RuneBalance)
      → IdFits b.id
      → b.balance < 2 ^ 128
      → balance_from_bytes f (balance_to_bytes f b) ≡ b
  unfolding balance_from_bytes balance_to_bytes
  balance_from_bytes-balance_to_bytes b hi hb =
      rw
        (
          read_field-append f.rune_id IdFits b.id (f.u128.as_fixed_size_bytes b.balance)
              laws.rune_id hi,
          laws.u128.read_back b.balance hb,
        )
        refl

  -- So is an entry.
  pub entry_from_bytes-entry_to_bytes :
      (e : RuneEntry) → EntryFits e → entry_from_bytes f (entry_to_bytes f e) ≡ e
  unfolding entry_from_bytes entry_to_bytes
  entry_from_bytes-entry_to_bytes e fits =
      rw
        (
          read_field-append f.u64 _ e.block _ laws.u64 fits.block,
          read_field-append f.u128 _ e.burned _ laws.u128 fits.burned,
          read_field-append f.byte _ e.divisibility _ laws.byte fits.divisibility,
          read_field-append txid_value _ e.etching _ txid_value-IsFixed fits.etching,
          read_field-append f.u128 _ e.mints _ laws.u128 fits.mints,
          read_field-append f.u128 _ e.premine _ laws.u128 fits.premine,
          read_field-append f.spaced_rune _ e.spaced_rune _ laws.spaced_rune fits.spaced_rune,
          read_field-append f.symbol _ e.symbol _ laws.symbol fits.symbol,
          read_field-append f.terms _ e.terms _ laws.terms fits.terms,
          read_field-append f.u64 _ e.timestamp _ laws.u64 fits.timestamp,
          laws.bool.read_back e.turbo tt,
        )
        refl
