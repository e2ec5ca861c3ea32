-- ===== src/Safety/Crc32/Reference.antt =====
-- The table-driven checksum against the bit-serial one: the polynomial division that the table
-- abbreviates.
use Prim.Native.Nat.{bit_xor}
use safeedge.Common.{
  All, ◌⊎◌, ℕ, zero, suc, ◌+◌, ◌*◌, ◌/◌, ◌%◌, ◌^◌, ◌<◌, ◌≡◌, refl, sym, ap, ◌∙◌, List, [], ◌∷◌,
  ◌==◌, get_or, Bool-cases, inl, inr, arith,
}
use safeedge.Common.Xor.{
  xor_low, xor_half, xor_assoc, xor_comm, xor_both, xor_shift, xor_fields, xor-zero, double,
}
use safeedge.Safety.Crc32.{
  reflected_polynomial, initial, shift_bit, shift_bits, table_from, build_table, update_byte,
  update, value, compute,
}

-- One byte of the bit-serial algorithm: it enters at the low end, and eight rounds shift it out.
unfoldable pub serial_byte : ℕ → ℕ → ℕ
serial_byte state byte = shift_bits 8 (bit_xor state byte)

serial_update : ℕ → List ℕ → ℕ
serial_update state [] = state
serial_update state (byte ∷ bytes) = serial_update (serial_byte state byte) bytes

pub serial_compute : List ℕ → ℕ
serial_compute bytes = value (serial_update initial bytes)

pub shift_even : (a : ℕ) → a % 2 ≡ 0 → shift_bit a ≡ a / 2
unfolding shift_bit
shift_even a h = ground arith

pub shift_odd : (a : ℕ) → a % 2 ≡ 1 → shift_bit a ≡ bit_xor (a / 2) reflected_polynomial
unfolding shift_bit
shift_odd a h = ground arith

pub parity : (a : ℕ) → (a % 2 ≡ 0) ⊎ (a % 2 ≡ 1)
parity a = elim (Bool-cases (a % 2 == 0)) [
  | inl e ↦ inl (ground arith)
  | inr e ↦ inr (ground arith)
]

-- A round is linear in the exclusive or.
shift_bit-xor : (a b : ℕ) → shift_bit (bit_xor a b) ≡ bit_xor (shift_bit a) (shift_bit b)
shift_bit-xor a b = elim (parity a) [
  | inl p ↦ elim (parity b) [
    | inl q ↦
        rw (shift_even (bit_xor a b) (omega (arith, xor_low a b)), shift_even a p, shift_even b q)
          (xor_half a b)
    | inr q ↦
        rw
          (
            shift_odd (bit_xor a b) (omega (arith, xor_low a b)),
            shift_even a p,
            shift_odd b q,
            xor_half a b,
          )
          (xor_assoc (a / 2) (b / 2) reflected_polynomial)
  ]
  | inr p ↦ elim (parity b) [
    | inl q ↦
        rw
          (
            shift_odd (bit_xor a b) (omega (arith, xor_low a b)),
            shift_odd a p,
            shift_even b q,
            xor_half a b,
          )
          (xor_assoc (a / 2) (b / 2) reflected_polynomial
            ∙ (ap (bit_xor (a / 2)) (xor_comm (b / 2) reflected_polynomial)
                ∙ sym (xor_assoc (a / 2) reflected_polynomial (b / 2))))
    | inr q ↦
        rw
          (
            shift_even (bit_xor a b) (omega (arith, xor_low a b)),
            shift_odd a p,
            shift_odd b q,
            xor_half a b,
          )
          (sym (xor_both (a / 2) (b / 2) reflected_polynomial))
  ]
]

shift_bits-xor :
    (n a b : ℕ) → shift_bits n (bit_xor a b) ≡ bit_xor (shift_bits n a) (shift_bits n b)
unfolding shift_bits
shift_bits-xor zero a b = refl
shift_bits-xor (suc n) a b =
    ap (shift_bits n) (shift_bit-xor a b) ∙ shift_bits-xor n (shift_bit a) (shift_bit b)

-- Eight rounds drop a byte of zeros.
shift_bits-high : (n h : ℕ) → shift_bits n (h * 2 ^ n) ≡ h
unfolding shift_bits
shift_bits-high zero h = omega arith
shift_bits-high (suc n) h =
    ap (shift_bits n)
      (shift_even (h * 2 ^ suc n) (omega (arith, double h n)) ∙ omega (arith, double h n))
    ∙ shift_bits-high n h

get_or-table_from :
    (i index count : ℕ) → i < count → get_or (table_from index count) i 0 ≡ shift_bits 8 (index + i)
unfolding table_from
get_or-table_from i index zero h = absurd (omega arith)
get_or-table_from zero index (suc count) h = ap (shift_bits 8) (omega arith)
get_or-table_from (suc i) index (suc count) h =
    get_or-table_from i (suc index) count (omega arith) ∙ ap (shift_bits 8) (omega arith)

get_or-build_table : (i : ℕ) → i < 256 → get_or build_table i 0 ≡ shift_bits 8 i
unfolding build_table
get_or-build_table i h = get_or-table_from i 0 256 h ∙ ap (shift_bits 8) (omega arith)

-- A byte through the table is a byte through eight rounds.
pub update_byte-serial :
    (state byte : ℕ) → byte < 256 → update_byte state byte ≡ serial_byte state byte
unfolding serial_byte update_byte
update_byte-serial state byte h =
    let t = bit_xor state byte in
    let high : t / 2 ^ 8 ≡ state / 2 ^ 8 =
      xor_shift 8 state byte
      ∙ (ap (bit_xor (state / 2 ^ 8)) (omega arith) ∙ xor-zero (state / 2 ^ 8)) in
    let split : bit_xor (t / 2 ^ 8 * 2 ^ 8) (t % 2 ^ 8) ≡ t =
      xor_fields 8 (t / 2 ^ 8) (t % 2 ^ 8) (omega arith) ∙ omega arith in
    let back : shift_bits 8 t ≡ bit_xor (t / 2 ^ 8) (shift_bits 8 (t % 2 ^ 8)) =
      ap (shift_bits 8) (sym split)
      ∙ (shift_bits-xor 8 (t / 2 ^ 8 * 2 ^ 8) (t % 2 ^ 8)
          ∙ ap (λ (x : ℕ). bit_xor x (shift_bits 8 (t % 2 ^ 8))) (shift_bits-high 8 (t / 2 ^ 8))) in
    ap (bit_xor (state / 2 ^ 8)) (get_or-build_table (t % 2 ^ 8) (omega arith))
    ∙ (ap (λ (x : ℕ). bit_xor x (shift_bits 8 (t % 2 ^ 8))) (sym high) ∙ sym back)

update-serial :
    (state : ℕ) (bytes : List ℕ)
    → All (λ (b : ℕ). b < 256) bytes
    → update state bytes ≡ serial_update state bytes
unfolding update serial_update
update-serial state [] h = refl
update-serial state (byte ∷ bytes) h =
    ap (λ (s : ℕ). update s bytes) (update_byte-serial state byte h.0)
    ∙ update-serial (serial_byte state byte) bytes h.1

-- On bytes, the table-driven checksum is the bit-serial one.
pub compute-serial_compute :
    (bytes : List ℕ) → All (λ (b : ℕ). b < 256) bytes → compute bytes ≡ serial_compute bytes
unfolding compute serial_compute
compute-serial_compute bytes h = ap value (update-serial initial bytes h)
