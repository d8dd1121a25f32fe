-- ===== src/Indexer/Codec/SatRange.antt =====
-- A range of satoshis (`Entry for SatRange` of ord_canister/src/index/entry.rs): 51 bits of base and
-- 33 of length, in eleven bytes.
pub mod Packed
use Prim.Native.Nat.{bit_and, bit_or}
use ord_indexer.Base.Bits.{from_le_bytes, to_le_bytes}
use ord_indexer.Base.{
  ℕ, ◌-◌, ◌*◌, ◌/◌, ◌%◌, ◌^◌, List, [], ◌∷◌, ◌++◌, take, drop, add64, sub64, u128_size,
}

-- `SatRange::load`, of eleven bytes
unfoldable pub load : List ℕ → ℕ × ℕ
load bytes =
    let raw_base = from_le_bytes (take 7 bytes ++ (0 ∷ [])) in
    let base = bit_and raw_base (2 ^ 51 - 1) in
    let raw_delta = from_le_bytes (drop 6 bytes ++ (0 ∷ 0 ∷ 0 ∷ [])) in
    let delta = raw_delta / 8 in (base, add64 base delta)

-- `SatRange::store`
unfoldable pub store : ℕ × ℕ → List ℕ
store (start, end) =
    let delta = sub64 end start in
    let n = bit_or start (delta * 2 ^ 51 % u128_size) in take 11 (to_le_bytes 16 n)
