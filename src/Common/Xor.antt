-- ===== src/Common/Xor.antt =====
-- Laws of the exclusive or at every width, from its two equations on halves and lowest digits.
use Prim.Native.Nat.{
  ℕ, zero, suc, ◌+◌, ◌*◌, ◌/◌, ◌%◌, ◌^◌, ◌≤◌, ◌<◌, bit_xor, differ, digits, bit_xor-bitwise,
}
use mathlib.Core.Path.{◌≡◌, refl, sym, ap, ◌∙◌}
use native.Mathlib.Nat.{pow-suc, mul_comm, div-div-eq-div-mul}
use native.Mathlib.Omega.{arith}

abbrev xor_digits : ℕ → ℕ → ℕ → ℕ
xor_digits = digits (λ (b : ℕ). b) differ

-- Any fuel that is not below the first operand gives the same digits.
xor_digits_enough :
    (a b n m : ℕ) (k : ℕ) → a ≤ k → k ≡ n → a ≤ m → xor_digits n a b ≡ xor_digits m a b
xor_digits_enough zero b zero zero k h e p = refl
xor_digits_enough zero b zero (suc m) k h e p = refl
xor_digits_enough zero b (suc n) zero k h e p = refl
xor_digits_enough zero b (suc n) (suc m) k h e p = refl
xor_digits_enough (suc a) b zero m k h e p = absurd (omega arith)
xor_digits_enough (suc a) b (suc n) zero k h e p = absurd (omega arith)
xor_digits_enough (suc a) b (suc n) (suc m) k h e p =
    omega (arith, xor_digits_enough (suc a / 2) (b / 2) n m n (omega arith) refl (omega arith))

xor_step : (a b : ℕ) → bit_xor a b ≡ bit_xor (a / 2) (b / 2) * 2 + differ (a % 2) (b % 2)
xor_step zero b = omega (arith, bit_xor-bitwise 0 b, bit_xor-bitwise 0 (b / 2))
xor_step (suc a) b = omega (
  arith,
  bit_xor-bitwise (suc a) b,
  bit_xor-bitwise (suc a / 2) (b / 2),
  xor_digits_enough (suc a / 2) (b / 2) a (suc a / 2) a (omega arith) refl (omega arith),
)

differ_digits : (x y : ℕ) → x < 2 → y < 2 → differ x y ≡ (x + y) % 2
differ_digits zero y h k = omega arith
differ_digits (suc zero) zero h k = refl
differ_digits (suc zero) (suc zero) h k = refl
differ_digits (suc zero) (suc (suc y)) h k = absurd (omega arith)
differ_digits (suc (suc x)) y h k = absurd (omega arith)

-- The lowest digit and the rest.
pub xor_low : (a b : ℕ) → bit_xor a b % 2 ≡ (a + b) % 2
xor_low a b = omega (arith, xor_step a b, differ_digits (a % 2) (b % 2) (omega arith) (omega arith))

pub xor_half : (a b : ℕ) → bit_xor a b / 2 ≡ bit_xor (a / 2) (b / 2)
xor_half a b =
    omega (arith, xor_step a b, differ_digits (a % 2) (b % 2) (omega arith) (omega arith))

-- A number is its half and its lowest digit.
eq_of_half : (a b : ℕ) → a / 2 ≡ b / 2 → a % 2 ≡ b % 2 → a ≡ b
eq_of_half a b h l = omega arith

pub zero-xor : (b : ℕ) → bit_xor 0 b ≡ b
zero-xor b = bit_xor-bitwise 0 b

xor_comm_upto : (n a b : ℕ) → a ≤ n → b ≤ n → bit_xor a b ≡ bit_xor b a
xor_comm_upto zero zero zero h k = refl
xor_comm_upto zero (suc a) b h k = absurd (omega arith)
xor_comm_upto zero zero (suc b) h k = absurd (omega arith)
xor_comm_upto (suc n) a b h k =
    eq_of_half _ _
      (xor_half a b
        ∙ (xor_comm_upto n (a / 2) (b / 2) (omega arith) (omega arith) ∙ sym (xor_half b a)))
      (omega (arith, xor_low a b, xor_low b a))

pub xor_comm : (a b : ℕ) → bit_xor a b ≡ bit_xor b a
xor_comm a b = xor_comm_upto (a + b) a b (omega arith) (omega arith)

pub xor-zero : (a : ℕ) → bit_xor a 0 ≡ a
xor-zero a = xor_comm a 0 ∙ zero-xor a

xor_assoc_upto :
    (n a b c : ℕ) → a ≤ n → b ≤ n → c ≤ n → bit_xor (bit_xor a b) c ≡ bit_xor a (bit_xor b c)
xor_assoc_upto zero zero zero zero h k l = refl
xor_assoc_upto zero (suc a) b c h k l = absurd (omega arith)
xor_assoc_upto zero zero (suc b) c h k l = absurd (omega arith)
xor_assoc_upto zero zero zero (suc c) h k l = absurd (omega arith)
xor_assoc_upto (suc n) a b c h k l =
    eq_of_half _ _
      (rw (xor_half (bit_xor a b) c, xor_half a b, xor_half a (bit_xor b c), xor_half b c)
        (xor_assoc_upto n (a / 2) (b / 2) (c / 2) (omega arith) (omega arith) (omega arith)))
      (omega (arith, xor_low (bit_xor a b) c, xor_low a b, xor_low a (bit_xor b c), xor_low b c))

pub xor_assoc : (a b c : ℕ) → bit_xor (bit_xor a b) c ≡ bit_xor a (bit_xor b c)
xor_assoc a b c = xor_assoc_upto (a + b + c) a b c (omega arith) (omega arith) (omega arith)

xor_self_upto : (n a : ℕ) → a ≤ n → bit_xor a a ≡ 0
xor_self_upto zero zero h = refl
xor_self_upto zero (suc a) h = absurd (omega arith)
xor_self_upto (suc n) a h =
    eq_of_half _ _ (xor_half a a ∙ xor_self_upto n (a / 2) (omega arith))
      (omega (arith, xor_low a a))

pub xor_self : (a : ℕ) → bit_xor a a ≡ 0
xor_self a = xor_self_upto a a (omega arith)

pub xor_cancel : (a b : ℕ) → bit_xor (bit_xor a b) b ≡ a
xor_cancel a b = xor_assoc a b b ∙ (ap (bit_xor a) (xor_self b) ∙ xor-zero a)

pub xor_injective : (a b p : ℕ) → bit_xor a p ≡ bit_xor b p → a ≡ b
xor_injective a b p h = sym (xor_cancel a p) ∙ (ap (λ (x : ℕ). bit_xor x p) h ∙ xor_cancel b p)

-- The same digits on both sides go away.
pub xor_both : (a b p : ℕ) → bit_xor (bit_xor a p) (bit_xor b p) ≡ bit_xor a b
xor_both a b p =
    xor_assoc a p (bit_xor b p)
    ∙ ap (bit_xor a)
        (sym (xor_assoc p b p) ∙ (ap (λ (x : ℕ). bit_xor x p) (xor_comm p b) ∙ xor_cancel b p))

pub xor-lt : (k a b : ℕ) → a < 2 ^ k → b < 2 ^ k → bit_xor a b < 2 ^ k
xor-lt zero a b h l =
    let a0 : a ≡ 0 = omega arith in let b0 : b ≡ 0 = omega arith in rw (a0, b0) (omega arith)
xor-lt (suc k) a b h l = omega (
  arith,
  pow-suc 2 k,
  xor_half a b,
  xor-lt k (a / 2) (b / 2) (omega (arith, pow-suc 2 k)) (omega (arith, pow-suc 2 k)),
)

half_shift : (k a : ℕ) → a / 2 ^ suc k ≡ a / 2 / 2 ^ k
half_shift k a =
    ap (λ (n : ℕ). a / n) (pow-suc 2 k ∙ mul_comm (2 ^ k) 2) ∙ sym (div-div-eq-div-mul a 2 (2 ^ k))

-- Shifting right by `k` digits.
pub xor_shift : (k a b : ℕ) → bit_xor a b / 2 ^ k ≡ bit_xor (a / 2 ^ k) (b / 2 ^ k)
xor_shift zero a b =
    let shift0 : (x : ℕ) → x / 2 ^ 0 ≡ x = λ x. omega arith in
    rw (shift0 (bit_xor a b), shift0 a, shift0 b)
xor_shift (suc k) a b =
    rw (half_shift k (bit_xor a b), half_shift k a, half_shift k b, xor_half a b)
      (xor_shift k (a / 2) (b / 2))

pub double : (h k : ℕ) → h * 2 ^ suc k ≡ 2 * (h * 2 ^ k)
double h k = omega (arith, ap (λ (t : ℕ). h * t) (pow-suc 2 k))

-- Digits from the `k`-th on and digits below it do not meet.
pub xor_fields : (k h l : ℕ) → l < 2 ^ k → bit_xor (h * 2 ^ k) l ≡ h * 2 ^ k + l
xor_fields zero h l b = let l0 : l ≡ 0 = omega arith in rw l0 (xor-zero (h * 1) ∙ omega arith)
xor_fields (suc k) h l b =
    eq_of_half _ _
      (xor_half (h * 2 ^ suc k) l
        ∙ (ap (λ (x : ℕ). bit_xor x (l / 2)) (omega (arith, double h k))
            ∙ (xor_fields k h (l / 2) (omega (arith, pow-suc 2 k)) ∙ omega (arith, double h k))))
      (omega (arith, xor_low (h * 2 ^ suc k) l, double h k))
