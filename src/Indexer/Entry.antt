-- ===== src/Indexer/Entry.antt =====
-- The entry of a rune (ord_canister/src/index/entry.rs): when it can be minted, and its supply.
pub mod Window
pub mod Supply
mod Tests
use Prim.Native.Nat.{max, min}
use ord_indexer.Base.{
  ℕ, Bool, true, false, Option, none, some, leb, ltb, add128, mul128, saturating_add64,
}
use ord_indexer.Bitcoin.{Txid, all_zeros}
use ord_indexer.Runes.{SpacedRune, Terms, MintError, OrdError, Result, ok, err}

pub record RuneEntry : Type 0 where
  pub block : ℕ
  pub burned : ℕ
  pub divisibility : ℕ
  pub etching : Txid
  pub mints : ℕ
  pub premine : ℕ
  pub spaced_rune : SpacedRune
  pub symbol : Option ℕ
  pub terms : Option Terms
  pub timestamp : ℕ
  pub turbo : Bool

-- `RuneEntry::default()`
abbrev pub default_entry : RuneEntry
default_entry = record {
  block = 0;
  burned = 0;
  divisibility = 0;
  etching = all_zeros;
  mints = 0;
  premine = 0;
  spaced_rune = record { rune = 0; spacers = 0 };
  symbol = none;
  terms = none;
  timestamp = 0;
  turbo = false;
}

-- `Option::unwrap_or_default` at a number
abbrev pub or_default : Option ℕ → ℕ
or_default none = 0
or_default (some n) = n

-- `relative.zip(absolute).map(f).or(relative).or(absolute)`
abbrev join : (ℕ → ℕ → ℕ) → Option ℕ → Option ℕ → Option ℕ
join f (some relative) (some absolute) = some (f relative absolute)
join f (some relative) none = some relative
join f none absolute = absolute

abbrev shift : ℕ → Option ℕ → Option ℕ
shift block none = none
shift block (some offset) = some (saturating_add64 block offset)

unfoldable pub start : RuneEntry → Option ℕ
start e = elim (e.terms) [
  | none ↦ none
  | some terms ↦ join max (shift e.block terms.offset.0) terms.height.0
]

-- `RuneEntry::end`
unfoldable pub end_of : RuneEntry → Option ℕ
end_of e = elim (e.terms) [
  | none ↦ none
  | some terms ↦ join min (shift e.block terms.offset.1) terms.height.1
]

infixl 5 ◌>>=◌ ◌>>◌
abbrev ◌>>=◌ {ℓ κ} : {A : Type ℓ} {B : Type κ} → Result A → (A → Result B) → Result B
ok a >>= f = f a
err e >>= f = err e

abbrev ◌>>◌ {ℓ} : {B : Type ℓ} → Result (Unit {0}) → Result B → Result B
m >> k = m >>= λ _. k

abbrev terms_or_refuse : Option Terms → Result Terms
terms_or_refuse none = err (OrdError.index MintError.unmintable)
terms_or_refuse (some terms) = ok terms

abbrev refuse_if : Bool → MintError → Result (Unit {0})
refuse_if true e = err (OrdError.index e)
refuse_if false e = ok tt

abbrev refuse_before : Option ℕ → ℕ → Result (Unit {0})
refuse_before none height = ok tt
refuse_before (some s) height = refuse_if (ltb height s) (MintError.start s)

abbrev refuse_after : Option ℕ → ℕ → Result (Unit {0})
refuse_after none height = ok tt
refuse_after (some e) height = refuse_if (leb e height) (MintError.end e)

unfoldable pub mintable : RuneEntry → ℕ → Result ℕ
unfolding start end_of
mintable e height = do
  terms ← terms_or_refuse e.terms
  refuse_before (start e) height
  refuse_after (end_of e) height
  let cap = or_default terms.cap
  refuse_if (leb cap e.mints) (MintError.cap cap)
  ok (or_default terms.amount)

abbrev cap_of : Option Terms → ℕ
cap_of none = 0
cap_of (some terms) = or_default terms.cap

abbrev pub amount_of : Option Terms → ℕ
amount_of none = 0
amount_of (some terms) = or_default terms.amount

unfoldable pub supply : RuneEntry → ℕ
supply e = add128 e.premine (mul128 e.mints (amount_of e.terms))

unfoldable pub max_supply : RuneEntry → ℕ
max_supply e = add128 e.premine (mul128 (cap_of e.terms) (amount_of e.terms))

pub record Pile : Type 0 where
  pub amount : ℕ
  pub divisibility : ℕ
  pub symbol : Option ℕ

unfoldable pub pile : RuneEntry → ℕ → Pile
pile e amount = record { amount = amount; divisibility = e.divisibility; symbol = e.symbol }
