-- ===== src/Indexer/Codec/SatRange/Packed.antt =====
-- A range of satoshis is packed into eleven bytes and read back (`SatRange`).
use Prim.Native.Nat.{bit_and, bit_or}
use ord_indexer.Base.Bits.{from_le_bytes, to_le_bytes, bit_and_mask, bit_or_shift}
use ord_indexer.Base.{
  ℕ, ◌+◌, ◌-◌, ◌*◌, ◌/◌, ◌%◌, ◌^◌, ◌≤◌, ◌<◌, ◌≡◌, refl, ◌∙◌, [], ◌∷◌, ◌++◌, take, drop, length,
  sub64, add64, u128_size, arith,
}
use ord_indexer.Indexer.Codec.SatRange.{load, store}

low_seven : (n : ℕ) → from_le_bytes (take 7 (take 11 (to_le_bytes 16 n)) ++ (0 ∷ [])) ≡ n % 2 ^ 56
unfolding from_le_bytes to_le_bytes
low_seven n = omega arith

from_sixth :
    (n : ℕ)
    → n < 2 ^ 84
    → from_le_bytes (drop 6 (take 11 (to_le_bytes 16 n)) ++ (0 ∷ 0 ∷ 0 ∷ [])) ≡ n / 2 ^ 48
unfolding from_le_bytes to_le_bytes
from_sixth n h = omega arith

-- A range whose start has 51 bits and whose length has 33 is read back as it was stored, from
-- eleven bytes.
pub load-store :
    (start end : ℕ)
    → start < 2 ^ 51
    → start ≤ end
    → end - start < 2 ^ 33
    → (load (store (start, end)) ≡ (start, end)) × (length (store (start, end)) ≡ 11)
unfolding load store
load-store start end hs le hd =
    let d = end - start in
    let delta : sub64 end start ≡ d = omega arith in
    let shifted : d * 2 ^ 51 % u128_size ≡ d * 2 ^ 51 = omega arith in
    let n = start + d * 2 ^ 51 in
    let joined : bit_or start (d * 2 ^ 51) ≡ n = bit_or_shift 51 start d hs in
    let base : bit_and (n % 2 ^ 56) (2 ^ 51 - 1) ≡ start =
      bit_and_mask 51 (n % 2 ^ 56) ∙ omega arith in
    let span : n / 2 ^ 48 / 8 ≡ d = omega arith in
    let stop : add64 start d ≡ end = omega arith in
    rw (delta, shifted, joined)
      (rw (low_seven n, from_sixth n (omega arith), base, span, stop) refl, eleven n)
  where
    eleven : (n : ℕ) → length (take 11 (to_le_bytes 16 n)) ≡ 11
    eleven n = unfold to_le_bytes in refl
