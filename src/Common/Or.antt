-- ===== src/Common/Or.antt =====
-- The inclusive or of fields that do not overlap, as a sum.
use Prim.Native.Nat.{
  ℕ, zero, suc, ◌+◌, ◌*◌, ◌/◌, ◌%◌, ◌^◌, ◌≤◌, ◌<◌, bit_or, digits, bit_or-bitwise, max,
}
use mathlib.Core.Path.{◌≡◌, refl, ap, ◌∙◌}
use native.Mathlib.Nat.{pow-suc}
use native.Mathlib.Omega.{arith}
use safeedge.Common.Xor.{double}

abbrev or_digits : ℕ → ℕ → ℕ → ℕ
or_digits = digits (λ (b : ℕ). b) max

or_digits_enough : (a b n m : ℕ) (k : ℕ) → a ≤ k → k ≡ n → a ≤ m → or_digits n a b ≡ or_digits m a b
or_digits_enough zero b zero zero k h e p = refl
or_digits_enough zero b zero (suc m) k h e p = refl
or_digits_enough zero b (suc n) zero k h e p = refl
or_digits_enough zero b (suc n) (suc m) k h e p = refl
or_digits_enough (suc a) b zero m k h e p = absurd (omega arith)
or_digits_enough (suc a) b (suc n) zero k h e p = absurd (omega arith)
or_digits_enough (suc a) b (suc n) (suc m) k h e p =
    omega (arith, or_digits_enough (suc a / 2) (b / 2) n m n (omega arith) refl (omega arith))

or_step : (a b : ℕ) → bit_or a b ≡ bit_or (a / 2) (b / 2) * 2 + max (a % 2) (b % 2)
or_step zero b = omega (arith, bit_or-bitwise 0 b, bit_or-bitwise 0 (b / 2))
or_step (suc a) b = omega (
  arith,
  bit_or-bitwise (suc a) b,
  bit_or-bitwise (suc a / 2) (b / 2),
  or_digits_enough (suc a / 2) (b / 2) a (suc a / 2) a (omega arith) refl (omega arith),
)

-- `low | (high << k)`, where `low` has `k` digits.
pub or_fields : (k low high : ℕ) → low < 2 ^ k → bit_or low (high * 2 ^ k) ≡ low + high * 2 ^ k
or_fields zero low high h =
    let none : low ≡ 0 = omega arith in rw none (bit_or-bitwise 0 (high * 2 ^ 0) ∙ omega arith)
or_fields (suc k) low high h =
    let half : high * 2 ^ suc k / 2 ≡ high * 2 ^ k = omega (arith, double high k) in
    omega (
      arith,
      or_step low (high * 2 ^ suc k),
      ap (λ (x : ℕ). bit_or (low / 2) x) half,
      or_fields k (low / 2) high (omega (arith, pow-suc 2 k)),
      double high k,
    )
