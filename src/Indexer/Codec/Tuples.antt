-- ===== src/Indexer/Codec/Tuples.antt =====
-- What is stored as a tuple is read back (`Entry for RuneEntry`): the transaction id goes through two
-- numbers of sixteen bytes each.
use ord_indexer.Base.Bits.{from_le_bytes, to_le_bytes, IsByte, to_le_bytes-from_le_bytes}
use ord_indexer.Base.{
  ℕ, ◌≡◌, ◌∙◌, refl, ap, sym, none, some, Option, List, take, drop, length, All, arith,
}
use ord_indexer.Base.Slices.{
  length-take, length-drop, take_all, take-append-drop, All-take, All-drop,
}
use ord_indexer.Runes.{Terms}
use ord_indexer.Indexer.Entry.{RuneEntry}
use ord_indexer.Indexer.Codec.{load_terms, store_terms, load_entry, store_entry}

half-to_le_bytes :
    (bs : List ℕ) → length bs ≡ 16 → All IsByte bs → to_le_bytes 16 (from_le_bytes bs) ≡ bs
half-to_le_bytes bs h bytes =
    ap (λ (n : ℕ). to_le_bytes n (from_le_bytes bs)) (sym h) ∙ to_le_bytes-from_le_bytes bs bytes

load_terms-store_terms : (t : Option Terms) → load_terms (store_terms t) ≡ t
load_terms-store_terms none = refl
load_terms-store_terms (some t) = refl

-- An entry whose transaction id has 32 bytes is read back from the tuple that it was stored as.
pub load_entry-store_entry :
    (e : RuneEntry) → length e.etching ≡ 32 → All IsByte e.etching → load_entry (store_entry e) ≡ e
unfolding load_entry store_entry
load_entry-store_entry e size bytes =
    let front = take 16 e.etching in
    let back = drop 16 e.etching in
    let whole : take 16 back ≡ back = take_all 16 back (omega (arith, length-drop 16 e.etching)) in
    rw
      (
        half-to_le_bytes front (length-take 16 e.etching (omega arith))
            (All-take IsByte 16 e.etching bytes),
        whole,
        half-to_le_bytes back (length-drop 16 e.etching ∙ omega arith)
            (All-drop IsByte 16 e.etching bytes),
        take-append-drop 16 e.etching,
        load_terms-store_terms e.terms,
      )
      refl
