-- ===== src/Common/Words.antt =====
-- Machine words as native numbers.
use Prim.Native.Nat.{ℕ, ◌%◌, ◌^◌}

-- A `std::uint64_t` counter wraps.
abbrev pub u64 : ℕ → ℕ
u64 n = n % 2 ^ 64

abbrev pub u32 : ℕ → ℕ
u32 n = n % 2 ^ 32
