-- ===== src/Indexer/Lot.antt =====
-- Amounts of runes (ord_canister/src/index/lot.rs): a newtype over `u128` whose operators panic
-- where the sum or the difference leaves the type.
use ord_indexer.Base.{
  ℕ, ◌+◌, ◌-◌, ◌/◌, ◌%◌, ◌≤◌, ◌<◌, ◌≡◌, Option, arith, Outcome, done, unwrap, u128_size,
  checked_add128, checked_sub128,
}

-- `struct Lot(pub u128)`; `Lot::n` is the number itself.
abbrev pub Lot : Type 0
Lot = ℕ

unfoldable pub checked_add : Lot → Lot → Option Lot
checked_add a b = checked_add128 a b

unfoldable pub checked_sub : Lot → Lot → Option Lot
checked_sub a b = checked_sub128 a b

-- `impl Add`, `AddAssign`, and their versions with a `u128` on the right
unfoldable pub add : Lot → Lot → Outcome Lot
unfolding checked_add
add a b = unwrap (checked_add a b)

-- `impl Sub` and `SubAssign`
unfoldable pub sub : Lot → Lot → Outcome Lot
unfolding checked_sub
sub a b = unwrap (checked_sub a b)

-- `impl Div<u128>` and `Rem<u128>`, at a divisor that is not zero
abbrev pub div : Lot → ℕ → Lot
div a n = a / n

abbrev pub rem : Lot → ℕ → Lot
rem a n = a % n

pub add-Returns : (a b : Lot) → a + b < u128_size → add a b ≡ done (a + b)
unfolding add
add-Returns a b h = ground arith

pub sub-Returns : (a b : Lot) → b ≤ a → sub a b ≡ done (a - b)
unfolding sub
sub-Returns a b h = ground arith
