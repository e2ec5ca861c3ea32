-- ===== src/Safety/Crc32.antt =====
-- include/safeedge/safety/crc32.hpp and src/safety/crc32.cpp: CRC-32/AUTOSAR, a byte at a time. The
-- value of a `Crc32` object is its running state, a number below 2 ^ 32.
pub mod Reference
pub mod Detection
mod Tests
use Prim.Native.Nat.{bit_xor}
use safeedge.Common.{
  refl, ◌≡◌, ℕ, zero, suc, ◌/◌, ◌%◌, ◌^◌, List, [], ◌∷◌, ◌==◌, if◌then◌else◌, get_or,
}

abbrev pub reflected_polynomial : ℕ
reflected_polynomial = 0xC8DF352F

abbrev pub initial : ℕ
initial = 0xFFFFFFFF

abbrev pub final_xor : ℕ
final_xor = 0xFFFFFFFF

abbrev pub check_value : ℕ
check_value = 0x1697D06A

-- One round of the inner loop of `buildTable`: shift right, and apply the reversed polynomial when
-- the low bit is set.
unfoldable pub shift_bit : ℕ → ℕ
shift_bit remainder =
    if remainder % 2 == 0 then remainder / 2 else bit_xor (remainder / 2) reflected_polynomial

-- `bits` rounds.
unfoldable pub shift_bits : ℕ → ℕ → ℕ
shift_bits zero remainder = remainder
shift_bits (suc bits) remainder = shift_bits bits (shift_bit remainder)

-- The entries of the table from `index` on, `count` of them.
unfoldable pub table_from : ℕ → ℕ → List ℕ
table_from index zero = []
table_from index (suc count) = shift_bits 8 index ∷ table_from (suc index) count

unfoldable pub build_table : List ℕ
build_table = table_from 0 256

-- `update(std::uint8_t)`.
unfoldable pub update_byte : ℕ → ℕ → ℕ
update_byte state byte = bit_xor (state / 2 ^ 8) (get_or build_table (bit_xor state byte % 2 ^ 8) 0)

-- `update(std::span<const std::uint8_t>)`.
unfoldable pub update : ℕ → List ℕ → ℕ
update state [] = state
update state (byte ∷ bytes) = update (update_byte state byte) bytes

-- `update(std::uint16_t)` and `update(std::uint32_t)`, little-endian.
unfoldable pub update_u16 : ℕ → ℕ → ℕ
update_u16 state v = update_byte (update_byte state (v % 256)) (v / 2 ^ 8 % 256)

unfoldable pub update_u32 : ℕ → ℕ → ℕ
update_u32 state v =
    update_byte
      (update_byte (update_byte (update_byte state (v % 256)) (v / 2 ^ 8 % 256)) (v / 2 ^ 16 % 256))
      (v / 2 ^ 24 % 256)

unfoldable pub value : ℕ → ℕ
value state = bit_xor state final_xor

unfoldable pub reset : ℕ → ℕ
reset state = initial

-- The one-shot `compute`.
unfoldable pub compute : List ℕ → ℕ
compute bytes = value (update initial bytes)
