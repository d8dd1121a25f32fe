-- ===== src/Base/Bits.antt =====
-- Masks and disjoint sums of bits as arithmetic, and little-endian bytes.
use Prim.Native.Nat.{
  ℕ, zero, suc, ◌+◌, ◌-◌, ◌*◌, ◌/◌, ◌%◌, ◌^◌, ◌≤◌, ◌<◌, min, max, bit_and, bit_or, digits,
  bit_and-bitwise, bit_or-bitwise,
}
use mathlib.Core.Path.{◌≡◌, refl, sym, ap, ◌∙◌}
use mathlib.Core.List.{List, [], ◌∷◌}
use native.Mathlib.Nat.{
  mod-eq-sub-div-mul, div-div-eq-div-mul, div-mul-le_self, mul_left_comm, zero-mod,
}
use Prim.Native.Nat.pow
use native.Mathlib.Omega.{arith}
use ord_indexer.Base.Lists.{length, All}

mod_twice : (a m : ℕ) → (a / 2 % m) * 2 + a % 2 ≡ a % (2 * m)
mod_twice a m = omega (
  arith,
  mod-eq-sub-div-mul (a / 2) m,
  mod-eq-sub-div-mul a (2 * m),
  ap (λ (q : ℕ). q * m) (div-div-eq-div-mul a 2 m),
  mul_left_comm (a / (2 * m)) 2 m,
  div-mul-le_self (a / 2) m,
)

pow_suc : (k : ℕ) → 2 ^ suc k ≡ 2 * 2 ^ k
pow_suc k = omega (arith, pow.suc 2 k)

pow_pos : (k : ℕ) → 1 ≤ 2 ^ k
pow_pos zero = omega arith
pow_pos (suc k) = omega (arith, pow_suc k, pow_pos k)

half_mask : (k : ℕ) → (2 ^ suc k - 1) / 2 ≡ 2 ^ k - 1
half_mask k = omega (arith, pow_suc k, pow_pos k)

odd_mask : (k : ℕ) → (2 ^ suc k - 1) % 2 ≡ 1
odd_mask k = omega (arith, pow_suc k, pow_pos k)

-- Enough digits of a number, each against one of a mask, make up its remainder.
masked_digits : (n k a : ℕ) → a ≤ n → digits (λ _. 0) min n a (2 ^ k - 1) ≡ a % 2 ^ k
masked_digits zero k zero h = sym (zero-mod (2 ^ k))
masked_digits (suc n) k zero h = sym (zero-mod (2 ^ k))
masked_digits zero k (suc a) h = absurd (omega arith)
masked_digits (suc n) zero (suc a) h = omega (arith, masked_digits n 0 (suc a / 2) (omega arith))
masked_digits (suc n) (suc k) (suc a) h = omega (
  arith,
  ap (λ (m : ℕ). digits (λ _. 0) min n (suc a / 2) m) (half_mask k),
  masked_digits n k (suc a / 2) (omega arith),
  mod_twice (suc a) (2 ^ k),
  odd_mask k,
  ap (λ (m : ℕ). suc a % m) (pow_suc k),
)

-- A mask of `k` ones keeps the lowest `k` bits.
pub bit_and_mask : (k a : ℕ) → bit_and a (2 ^ k - 1) ≡ a % 2 ^ k
bit_and_mask k a = (λ i. bit_and-bitwise a (2 ^ k - 1) i) ∙ masked_digits a k a (omega arith)

half_shift : (k d : ℕ) → d * 2 ^ suc k ≡ 2 * (d * 2 ^ k)
half_shift k d = ap (λ (m : ℕ). d * m) (pow_suc k) ∙ mul_left_comm d 2 (2 ^ k)

half : (k d : ℕ) → d * 2 ^ suc k / 2 ≡ d * 2 ^ k
half k d = omega (arith, half_shift k d)

joined_digits :
    (n k a d : ℕ) → a ≤ n → a < 2 ^ k → digits (λ b. b) max n a (d * 2 ^ k) ≡ a + d * 2 ^ k
joined_digits zero k zero d h small = omega arith
joined_digits (suc n) k zero d h small = omega arith
joined_digits zero k (suc a) d h small = absurd (omega arith)
joined_digits (suc n) zero (suc a) d h small = absurd (omega arith)
joined_digits (suc n) (suc k) (suc a) d h small = omega (
  arith,
  half_shift k d,
  ap (λ (m : ℕ). digits (λ b. b) max n (suc a / 2) m) (half k d),
  joined_digits n k (suc a / 2) d (omega arith) (omega (arith, pow_suc k)),
)

-- A number shifted past another one is added to it.
pub bit_or_shift : (k a d : ℕ) → a < 2 ^ k → bit_or a (d * 2 ^ k) ≡ a + d * 2 ^ k
bit_or_shift k a d h = (λ i. bit_or-bitwise a (d * 2 ^ k) i) ∙ joined_digits a k a d (omega arith) h

-- The value of bytes, the lowest first: `from_le_bytes`.
unfoldable pub from_le_bytes : List ℕ → ℕ
from_le_bytes [] = 0
from_le_bytes (b ∷ bs) = b + 256 * from_le_bytes bs

-- The lowest `n` bytes of a number: `to_le_bytes`.
unfoldable pub to_le_bytes : ℕ → ℕ → List ℕ
to_le_bytes zero v = []
to_le_bytes (suc n) v = v % 256 ∷ to_le_bytes n (v / 256)

abbrev pub IsByte : ℕ → Type 0
IsByte b = b < 256

pub to_le_bytes-from_le_bytes :
    (bs : List ℕ) → All IsByte bs → to_le_bytes (length bs) (from_le_bytes bs) ≡ bs
unfolding to_le_bytes from_le_bytes
to_le_bytes-from_le_bytes [] h = refl
to_le_bytes-from_le_bytes (b ∷ bs) (hb, hs) =
    let low : (b + 256 * from_le_bytes bs) % 256 ≡ b = omega arith in
    let high : (b + 256 * from_le_bytes bs) / 256 ≡ from_le_bytes bs = omega arith in
    rw (low, high) (ap (λ (l : List ℕ). b ∷ l) (to_le_bytes-from_le_bytes bs hs))

pub length-to_le_bytes : (n v : ℕ) → length (to_le_bytes n v) ≡ n
unfolding to_le_bytes
length-to_le_bytes zero v = refl
length-to_le_bytes (suc n) v = ap suc (length-to_le_bytes n (v / 256))
