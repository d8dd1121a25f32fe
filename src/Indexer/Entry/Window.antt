-- ===== src/Indexer/Entry/Window.antt =====
-- When a rune can be minted (`RuneEntry::mintable`), against the window that its terms describe.
use Prim.Native.Nat.{min, max}
use ord_indexer.Base.{
  ℕ, ◌+◌, ◌-◌, ◌≤◌, ◌<◌, ◌≡◌, ◌↔◌, refl, Option, none, some, arith, u64_size, leb,
}
use ord_indexer.Runes.{Terms, Result, ok, err, MintError}
use ord_indexer.Indexer.Entry.{
  RuneEntry, mintable, start, end_of, or_default, amount_of, join, shift, refuse_before,
  refuse_after, refuse_if, ◌>>◌,
}

-- A bound that is given holds of the height.
abbrev pub Reached : Option ℕ → ℕ → Type 0
Reached none h = Unit
Reached (some s) h = s ≤ h

abbrev pub NotReached : Option ℕ → ℕ → Type 0
NotReached none h = Unit
NotReached (some e) h = h < e

-- The same, of a bound that is given as an offset from the block of the etching; the sum stays
-- within 64 bits.
abbrev pub ReachedFrom : ℕ → Option ℕ → ℕ → Type 0
ReachedFrom block none h = Unit
ReachedFrom block (some o) h = min (block + o) (u64_size - 1) ≤ h

abbrev pub NotReachedFrom : ℕ → Option ℕ → ℕ → Type 0
NotReachedFrom block none h = Unit
NotReachedFrom block (some o) h = h < min (block + o) (u64_size - 1)

-- The window of the terms: past both of the given starts, before both of the given ends, and with
-- a mint left.
abbrev pub IsOpen : RuneEntry → Option Terms → ℕ → Type 0
IsOpen e none h = ⊥
IsOpen e (some terms) h =
    Reached terms.height.0 h
    × ReachedFrom e.block terms.offset.0 h
    × NotReached terms.height.1 h
    × NotReachedFrom e.block terms.offset.1 h
    × (e.mints < or_default terms.cap)

-- The two starts of the terms, joined by the code into one.
passes_start :
    (block h : ℕ) (offset height : Option ℕ)
    → (refuse_before (join max (shift block offset) height) h ≡ ok tt)
      ↔ (Reached height h × ReachedFrom block offset h)
passes_start block h none none = ground arith
passes_start block h none (some s) = ground arith
passes_start block h (some o) none = ground arith
passes_start block h (some o) (some s) = ground arith

passes_end :
    (block h : ℕ) (offset height : Option ℕ)
    → (refuse_after (join min (shift block offset) height) h ≡ ok tt)
      ↔ (NotReached height h × NotReachedFrom block offset h)
passes_end block h none none = ground arith
passes_end block h none (some s) = ground arith
passes_end block h (some o) none = ground arith
passes_end block h (some o) (some s) = ground arith

passes_both :
    (a b : Result (Unit {0})) (cap amount mints n : ℕ)
    → ((a >> (b >> (refuse_if (leb cap mints) (MintError.cap cap) >> ok amount))) ≡ ok n)
      ↔ ((a ≡ ok tt) × (b ≡ ok tt) × (mints < cap) × (n ≡ amount))
passes_both (ok _) (ok _) cap amount mints n = ground arith
passes_both (ok _) (err e) cap amount mints n = ground arith
passes_both (err e) b cap amount mints n = ground arith

-- A rune can be minted exactly while its window is open, and what a mint gives is the amount of
-- its terms, or nothing where they name none.
pub mintable-ok_iff :
    (e : RuneEntry) (h n : ℕ)
    → (mintable e h ≡ ok n) ↔ (IsOpen e e.terms h × (n ≡ amount_of e.terms))
unfolding mintable
mintable-ok_iff e h n = go (e.terms) refl
  where
    go :
        (t : Option Terms)
        → e.terms ≡ t
        → (mintable e h ≡ ok n) ↔ (IsOpen e e.terms h × (n ≡ amount_of e.terms))
    go none p = rw (p, mintable, start, end_of) (ground arith)
    go (some t) p =
        let s = passes_start e.block h t.offset.0 t.height.0 in
        let l = passes_end e.block h t.offset.1 t.height.1 in
        let both =
          passes_both (refuse_before (join max (shift e.block t.offset.0) t.height.0) h)
            (refuse_after (join min (shift e.block t.offset.1) t.height.1) h) (or_default t.cap)
            (or_default t.amount) e.mints n in
        rw (p, mintable, start, end_of)
          (λ m. ground (arith, both.0 m, s.0, l.0), λ w. both.1 (ground (arith, s.1, l.1)))
