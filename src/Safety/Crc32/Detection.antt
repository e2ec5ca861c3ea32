-- ===== src/Safety/Crc32/Detection.antt =====
-- What the checksum detects for certain: a change within one byte.
use Prim.Native.Nat.{bit_xor}
use safeedge.Common.{
  ℕ, zero, suc, ◌/◌, ◌^◌, ◌<◌, ◌≡◌, ◌≢◌, sym, ap, ◌∙◌, inl, inr, List, [], ◌∷◌, ◌++◌, All, arith,
}
use safeedge.Common.Xor.{xor_comm, xor_injective, xor_shift, xor-lt}
use safeedge.Safety.Crc32.{
  reflected_polynomial, initial, final_xor, shift_bit, shift_bits, update_byte, update, value,
  compute,
}
use safeedge.Safety.Crc32.Reference.{serial_byte, parity, shift_even, shift_odd, update_byte-serial}

pub shift_bit-lt : (a : ℕ) → a < 2 ^ 32 → shift_bit a < 2 ^ 32
shift_bit-lt a h = elim (parity a) [
  | inl p ↦ rw (shift_even a p) (omega arith)
  | inr p ↦ rw (shift_odd a p) (xor-lt 32 (a / 2) reflected_polynomial (omega arith) (omega arith))
]

shift_bits-lt : (n a : ℕ) → a < 2 ^ 32 → shift_bits n a < 2 ^ 32
unfolding shift_bits
shift_bits-lt zero a h = h
shift_bits-lt (suc n) a h = shift_bits-lt n (shift_bit a) (shift_bit-lt a h)

-- The top bit of the reflected polynomial is set, so a round's top bit is the bit shifted out.
top_bit : (a b : ℕ) → a < 2 ^ 31 → b < 2 ^ 31 → a ≢ bit_xor b reflected_polynomial
top_bit a b h k e =
    let gone : b / 2 ^ 31 ≡ 0 = omega arith in
    omega (
      arith,
      xor_shift 31 b reflected_polynomial,
      ap (λ (x : ℕ). bit_xor x (reflected_polynomial / 2 ^ 31)) gone,
    )

shift_bit-injective : (a b : ℕ) → a < 2 ^ 32 → b < 2 ^ 32 → shift_bit a ≡ shift_bit b → a ≡ b
shift_bit-injective a b h k e = elim (parity a) [
  | inl p ↦ elim (parity b) [
    | inl q ↦ omega (arith, sym (shift_even a p) ∙ (e ∙ shift_even b q))
    | inr q ↦ absurd (
        top_bit (a / 2) (b / 2) (omega arith) (omega arith)
          (sym (shift_even a p) ∙ (e ∙ shift_odd b q)))
  ]
  | inr p ↦ elim (parity b) [
    | inl q ↦ absurd (
        top_bit (b / 2) (a / 2) (omega arith) (omega arith)
          (sym (shift_even b q) ∙ (sym e ∙ shift_odd a p)))
    | inr q ↦ omega (
      arith,
      xor_injective (a / 2) (b / 2) reflected_polynomial
          (sym (shift_odd a p) ∙ (e ∙ shift_odd b q)),
    )
  ]
]

shift_bits-injective :
    (n a b : ℕ) → a < 2 ^ 32 → b < 2 ^ 32 → shift_bits n a ≡ shift_bits n b → a ≡ b
unfolding shift_bits
shift_bits-injective zero a b h k e = e
shift_bits-injective (suc n) a b h k e =
    shift_bit-injective a b h k
      (shift_bits-injective n (shift_bit a) (shift_bit b) (shift_bit-lt a h) (shift_bit-lt b k) e)

pub update_byte-lt :
    (state byte : ℕ) → state < 2 ^ 32 → byte < 256 → update_byte state byte < 2 ^ 32
unfolding serial_byte
update_byte-lt state byte h k =
    rw (update_byte-serial state byte k)
      (shift_bits-lt 8 (bit_xor state byte) (xor-lt 32 state byte h (omega arith)))

-- Neither the state nor the byte that enters is lost.
update_byte-injective :
    (s t x y : ℕ)
    → s < 2 ^ 32
    → t < 2 ^ 32
    → x < 256
    → y < 256
    → update_byte s x ≡ update_byte t y
    → bit_xor s x ≡ bit_xor t y
unfolding serial_byte
update_byte-injective s t x y hs ht hx hy e =
    shift_bits-injective 8 (bit_xor s x) (bit_xor t y) (xor-lt 32 s x hs (omega arith))
      (xor-lt 32 t y ht (omega arith))
      (sym (update_byte-serial s x hx) ∙ (e ∙ update_byte-serial t y hy))

pub update-lt :
    (state : ℕ) (bytes : List ℕ)
    → state < 2 ^ 32
    → All (λ (b : ℕ). b < 256) bytes
    → update state bytes < 2 ^ 32
unfolding update
update-lt state [] h a = h
update-lt state (byte ∷ bytes) h a =
    update-lt (update_byte state byte) bytes (update_byte-lt state byte h a.0) a.1

update-injective :
    (s t : ℕ) (bytes : List ℕ)
    → s < 2 ^ 32
    → t < 2 ^ 32
    → All (λ (b : ℕ). b < 256) bytes
    → update s bytes ≡ update t bytes
    → s ≡ t
unfolding update
update-injective s t [] hs ht a e = e
update-injective s t (byte ∷ bytes) hs ht a e = xor_injective s t byte (
    update_byte-injective s t byte byte hs ht a.0 a.0 (
      update-injective (update_byte s byte) (update_byte t byte) bytes
        (update_byte-lt s byte hs a.0) (update_byte-lt t byte ht a.0) a.1 e))

update_change :
    (state : ℕ) (before : List ℕ) (x y : ℕ) (after : List ℕ)
    → state < 2 ^ 32
    → All (λ (b : ℕ). b < 256) before
    → x < 256
    → y < 256
    → All (λ (b : ℕ). b < 256) after
    → update state (before ++ x ∷ after) ≡ update state (before ++ y ∷ after)
    → x ≡ y
unfolding update
update_change state [] x y after h b hx hy a e =
    let same = update_byte-injective state state x y h h hx hy (
      update-injective (update_byte state x) (update_byte state y) after
        (update_byte-lt state x h hx) (update_byte-lt state y h hy) a e) in
    xor_injective x y state (xor_comm x state ∙ (same ∙ xor_comm state y))
update_change state (byte ∷ before) x y after h b hx hy a e =
    update_change (update_byte state byte) before x y after (update_byte-lt state byte h b.0) b.1 hx
      hy a e

-- A change within a single byte, of any of its bits, always changes the checksum.
pub compute_change :
    (before : List ℕ) (x y : ℕ) (after : List ℕ)
    → All (λ (b : ℕ). b < 256) before
    → x < 256
    → y < 256
    → All (λ (b : ℕ). b < 256) after
    → x ≢ y
    → compute (before ++ x ∷ after) ≢ compute (before ++ y ∷ after)
unfolding compute value
compute_change before x y after b hx hy a ne e = ne (
    update_change initial before x y after (omega arith) b hx hy a (
      xor_injective (update initial (before ++ x ∷ after)) (update initial (before ++ y ∷ after))
        final_xor e))
