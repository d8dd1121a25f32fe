-- ===== src/Base/Words.antt =====
-- Machine words as native numbers: sizes, checked and wrapping operations.
use Prim.Native.Nat.{ℕ, ◌+◌, ◌-◌, ◌*◌, ◌%◌, ◌^◌, min}
use mathlib.Core.Option.{Option, none, some}
use ord_indexer.Base.Tests.{ltb, if◌then◌else◌}

abbrev pub u64_size : ℕ
u64_size = 2 ^ 64

abbrev pub u128_size : ℕ
u128_size = 2 ^ 128

-- `u64::saturating_add`
abbrev pub saturating_add64 : ℕ → ℕ → ℕ
saturating_add64 a b = min (a + b) (u64_size - 1)

-- Plain `+`, `-` and `*` on `u64` and `u128`, which wrap in a release build.
abbrev pub add64 : ℕ → ℕ → ℕ
add64 a b = (a + b) % u64_size

abbrev pub sub64 : ℕ → ℕ → ℕ
sub64 a b = (a + u64_size - b) % u64_size

abbrev pub mul64 : ℕ → ℕ → ℕ
mul64 a b = a * b % u64_size

abbrev pub add128 : ℕ → ℕ → ℕ
add128 a b = (a + b) % u128_size

abbrev pub mul128 : ℕ → ℕ → ℕ
mul128 a b = a * b % u128_size

-- `u128::checked_add` and `u128::checked_sub`
abbrev pub checked_add128 : ℕ → ℕ → Option ℕ
checked_add128 a b = if ltb (a + b) u128_size then some (a + b) else none

abbrev pub checked_sub128 : ℕ → ℕ → Option ℕ
checked_sub128 a b = if ltb a b then none else some (a - b)

-- `u32::try_from` of a size
abbrev pub u32_of : ℕ → Option ℕ
u32_of n = if ltb n (2 ^ 32) then some n else none

abbrev pub add32 : ℕ → ℕ → ℕ
add32 a b = (a + b) % 2 ^ 32
