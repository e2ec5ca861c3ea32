-- ===== src/Rt/Histogram/Buckets.antt =====
-- The layout of the buckets: every value is in range, within its bucket's bound, and the bound is
-- close.
use native.Mathlib.Nat.{le-div_iff_mul-le, div-lt_iff_lt-mul, lt-div-mul-add, mul-le-mul_left}
use safeedge.Common.{
  false, true, subst, ℕ, zero, suc, ◌+◌, ◌-◌, ◌*◌, ◌/◌, ◌%◌, ◌^◌, ◌≤◌, ◌<◌, ◌≡◌, refl, ap, ◌∙◌,
  arith, dec_lt, Bool-cases, ltb, inl, inr,
}
use safeedge.Common.Xor.{double}
use safeedge.Rt.Histogram.{bucket_count, top_bit, bucket_index_for, bucket_upper_bound}

ltb-false : (a b : ℕ) → b ≤ a → ltb a b ≡ false
ltb-false a b h = ground arith

ltb-true : (a b : ℕ) → a < b → ltb a b ≡ true
ltb-true a b h = ground arith

pow_suc : (k : ℕ) → 2 ^ suc k ≡ 2 * 2 ^ k
pow_suc k = omega (arith, double 1 k)

pow_pos : (k : ℕ) → 1 ≤ 2 ^ k
pow_pos zero = omega arith
pow_pos (suc k) = omega (arith, pow_suc k, pow_pos k)

-- The most significant set bit brackets a number between two powers of two.
top_bit_bounds :
    (bits value : ℕ)
    → 1 ≤ value
    → value < 2 ^ suc bits
    → (2 ^ top_bit bits value ≤ value)
      × (value < 2 * 2 ^ top_bit bits value)
      × (top_bit bits value ≤ bits)
unfolding top_bit
top_bit_bounds zero value l u = (omega arith, omega arith, omega arith)
top_bit_bounds (suc bits) value l u = elim (Bool-cases (ltb value 2)) [
  | inl e ↦ rw e (ground arith)
  | inr e ↦
      let half : value / 2 < 2 ^ suc bits = omega (arith, pow_suc (suc bits)) in
      let some : 1 ≤ value / 2 = ground arith in
      let b = top_bit_bounds bits (value / 2) some half in
      let p = pow_suc (top_bit bits (value / 2)) in rw e (omega arith, omega arith, omega arith)
]

-- The bucket of a value above the linear region, by its shift and its leading bits.
record Located (value shift lead : ℕ) : Type 0 where
  shift_range : (1 ≤ shift) × (shift ≤ 58)
  lead_range : (32 ≤ lead) × (lead < 64)
  below : lead * 2 ^ shift ≤ value
  above : value < lead * 2 ^ shift + 2 ^ shift
  index : bucket_index_for value ≡ shift * 32 + lead

abbrev shift_of : ℕ → ℕ
shift_of value = top_bit 63 value - 5

pow_shift : (e s : ℕ) → e ≡ suc (suc (suc (suc (suc s)))) → 2 ^ e ≡ 32 * 2 ^ s
pow_shift e s h =
    ap (λ (k : ℕ). 2 ^ k) h
    ∙ omega (
      arith,
      pow_suc s,
      pow_suc (suc s),
      pow_suc (suc (suc s)),
      pow_suc (suc (suc (suc s))),
      pow_suc (suc (suc (suc (suc s)))),
    )

-- A power of two that is at most `value` for a value of at least 64 has an exponent of at least 6.
exponent_bound : (e value : ℕ) → 64 ≤ value → value < 2 * 2 ^ e → 6 ≤ e
exponent_bound zero value l u = absurd (omega arith)
exponent_bound (suc zero) value l u = absurd (omega arith)
exponent_bound (suc (suc zero)) value l u = absurd (omega arith)
exponent_bound (suc (suc (suc zero))) value l u = absurd (omega arith)
exponent_bound (suc (suc (suc (suc zero)))) value l u = absurd (omega arith)
exponent_bound (suc (suc (suc (suc (suc zero))))) value l u = absurd (omega arith)
exponent_bound (suc (suc (suc (suc (suc (suc e)))))) value l u = omega arith

index_closed :
    (value lead : ℕ)
    → 64 ≤ value
    → 6 ≤ top_bit 63 value
    → value / 2 ^ shift_of value ≡ lead
    → 32 ≤ lead
    → lead < 64
    → bucket_index_for value ≡ shift_of value * 32 + lead
unfolding bucket_index_for
index_closed value lead l six e low high =
    let f : ltb value 64 ≡ false = ltb-false value 64 l in rw (f, e) (omega arith)

value-Located :
    (value : ℕ)
    → 64 ≤ value
    → value < 2 ^ 64
    → Located value (shift_of value) (value / 2 ^ shift_of value)
value-Located value l u =
    let b = top_bit_bounds 63 value (omega arith) u in
    let s = shift_of value in
    let six = exponent_bound (top_bit 63 value) value l b.1 in
    let p = pow_shift (top_bit 63 value) s (omega arith) in
    let some = pow_pos s in
    let low : 32 ≤ value / 2 ^ s =
      (le-div_iff_mul-le {k = 2 ^ s} {x = 32} {y = value} (omega arith)).1 (omega arith) in
    let high : value / 2 ^ s < 64 =
      (div-lt_iff_lt-mul {k = 2 ^ s} {x = value} {y = 64} (omega arith)).1 (omega arith) in
    record {
      shift_range = (omega arith, omega arith);
      lead_range = (low, high);
      below =
          (le-div_iff_mul-le {k = 2 ^ s} {x = value / 2 ^ s} {y = value} (omega arith)).0
            (omega arith);
      above = lt-div-mul-add {a = value} {b = 2 ^ s} (omega arith);
      index = index_closed value (value / 2 ^ s) l six refl low high;
    }

pow_mono : (a b : ℕ) → 2 ^ a ≤ 2 ^ (a + b)
pow_mono a zero = let e : a + 0 ≡ a = omega arith in rw e (omega arith)
pow_mono a (suc b) =
    let e : a + suc b ≡ suc (a + b) = omega arith in
    rw e (omega (arith, pow_mono a b, pow_suc (a + b)))

-- The bound of a bucket above the linear region.
bound_closed :
    (shift lead : ℕ)
    → 1 ≤ shift
    → shift ≤ 58
    → 32 ≤ lead
    → lead < 64
    → bucket_upper_bound (shift * 32 + lead) + 1 ≡ lead * 2 ^ shift + 2 ^ shift
unfolding bucket_upper_bound
bound_closed shift lead l u low high =
    let f : ltb (shift * 32 + lead) 64 ≡ false = ltb-false (shift * 32 + lead) 64 (omega arith) in
    let sh : (shift * 32 + lead - 64) / 32 + 1 ≡ shift = omega arith in
    let su : 32 + (shift * 32 + lead - 64) % 32 ≡ lead = omega arith in
    let top : 2 ^ shift ≤ 2 ^ (shift + (58 - shift)) = pow_mono shift (58 - shift) in
    let e : shift + (58 - shift) ≡ 58 = omega arith in
    let top' : 2 ^ shift ≤ 2 ^ 58 = subst (λ (k : ℕ). 2 ^ shift ≤ 2 ^ k) e top in
    let all : 2 ^ shift * (lead + 1) ≤ 2 ^ shift * 64 = mul-le-mul_left (2 ^ shift) (omega arith) in
    let some = pow_pos shift in rw (f, sh, su) (omega arith)

index_exact : (value : ℕ) → value < 64 → bucket_index_for value ≡ value
unfolding bucket_index_for
index_exact value h = let f : ltb value 64 ≡ true = ltb-true value 64 h in rw f refl

bound_exact : (index : ℕ) → index < 64 → bucket_upper_bound index ≡ index
unfolding bucket_upper_bound
bound_exact index h = let f : ltb index 64 ≡ true = ltb-true index 64 h in rw f refl

-- Every value has a bucket.
pub bucket_index_for-lt : (value : ℕ) → value < 2 ^ 64 → bucket_index_for value < bucket_count
bucket_index_for-lt value u = elim (dec_lt value 64) [
  | yes p ↦ omega (arith, index_exact value p)
  | no p ↦
      let v = value-Located value (omega arith) u in
      omega (arith, v.index, v.shift_range, v.lead_range)
]

-- A value lies within the bound of its bucket, and the bound exceeds it by at most a thirty-second
-- part: a bucket's bound is within about 3.1% of everything in the bucket.
pub bucket_bounds :
    (value : ℕ)
    → value < 2 ^ 64
    → let bound = bucket_upper_bound (bucket_index_for value) in
      (value ≤ bound) × (32 * bound ≤ 33 * value)
bucket_bounds value u = elim (dec_lt value 64) [
  | yes p ↦ rw (index_exact value p, bound_exact value p) (omega arith, omega arith)
  | no p ↦
      let v = value-Located value (omega arith) u in
      let s = shift_of value in
      let q = value / 2 ^ s in
      let b = bound_closed s q v.shift_range.0 v.shift_range.1 v.lead_range.0 v.lead_range.1 in
      let wide : 2 ^ s * 32 ≤ 2 ^ s * q = mul-le-mul_left (2 ^ s) v.lead_range.0 in
      rw v.index (omega (arith, v.above, v.below), omega (arith, v.above, v.below))
]

step_closed :
    (shift lead index : ℕ)
    → index ≡ shift * 32 + lead
    → 1 ≤ shift
    → suc index < 1920
    → 32 ≤ lead
    → lead < 64
    → bucket_upper_bound index ≤ bucket_upper_bound (suc index)
step_closed shift lead index e l u low high =
    let here = bound_closed shift lead l (omega arith) low high in
    elim (dec_lt lead 63) [
      | yes p ↦
          let next = bound_closed shift (suc lead) l (omega arith) (omega arith) (omega arith) in
          let e' : suc index ≡ shift * 32 + suc lead = omega arith in
          rw (e', e) (omega (arith, here, next))
      | no p ↦
          let next =
            bound_closed (suc shift) 32 (omega arith) (omega arith) (omega arith) (omega arith) in
          let e' : suc index ≡ suc shift * 32 + 32 = omega arith in
          let q : lead ≡ 63 = omega arith in
          let here' =
            subst (λ (k : ℕ). bucket_upper_bound (shift * 32 + k) + 1 ≡ k * 2 ^ shift + 2 ^ shift) q
              here in
          rw (e', e, q) (omega (arith, here', next, pow_suc shift))
    ]

bound_step :
    (index : ℕ) → suc index < 1920 → bucket_upper_bound index ≤ bucket_upper_bound (suc index)
bound_step index h = elim (dec_lt (suc index) 64) [
  | yes p ↦ rw (bound_exact index (omega arith), bound_exact (suc index) p) (omega arith)
  | no p ↦ elim (dec_lt index 64) [
    | yes r ↦
        let e : index ≡ 63 = omega arith in
        rw (e, bound_exact 63 (omega arith))
          (omega (arith, bound_closed 1 32 (omega arith) (omega arith) (omega arith) (omega arith)))
    | no r ↦
        step_closed (index / 32 - 1) (index % 32 + 32) index (omega arith) (omega arith)
          (omega arith) (omega arith) (omega arith)
  ]
]

pub bound_mono : (i k : ℕ) → i + k < 1920 → bucket_upper_bound i ≤ bucket_upper_bound (i + k)
bound_mono i zero h = let e : i + 0 ≡ i = omega arith in rw e (omega arith)
bound_mono i (suc k) h =
    let e : i + suc k ≡ suc (i + k) = omega arith in
    rw e (omega (arith, bound_mono i k (omega arith), bound_step (i + k) (omega arith)))

-- Everything in a bucket or in one before it is within the bucket's bound.
pub bound_of_before :
    (value index : ℕ)
    → value < 2 ^ 64
    → bucket_index_for value ≤ index
    → index < bucket_count
    → value ≤ bucket_upper_bound index
bound_of_before value index u h l =
    let k = index - bucket_index_for value in
    let e : bucket_index_for value + k ≡ index = omega arith in
    let up =
      subst (λ (j : ℕ). bucket_upper_bound (bucket_index_for value) ≤ bucket_upper_bound j) e
        (bound_mono (bucket_index_for value) k (omega arith)) in
    omega (arith, bucket_bounds value u)

-- The values of a nonnegative `std::int64_t` stay below the last octave, and so do their bounds.
pub bucket_index_for_signed : (value : ℕ) → value < 2 ^ 63 → bucket_index_for value < 1888
bucket_index_for_signed value u = elim (dec_lt value 64) [
  | yes p ↦ omega (arith, index_exact value p)
  | no p ↦
      let v = value-Located value (omega arith) (omega arith) in
      let s = shift_of value in
      let q = value / 2 ^ s in
      elim (dec_lt s 58) [
        | yes r ↦ omega (arith, v.index, v.lead_range)
        | no r ↦
            let e : s ≡ 58 = omega (arith, v.shift_range) in
            let b : q * 2 ^ 58 ≤ value = subst (λ (k : ℕ). q * 2 ^ k ≤ value) e v.below in
            absurd (omega (arith, v.lead_range))
      ]
]

pub bound_signed : (index : ℕ) → index < 1888 → bucket_upper_bound index < 2 ^ 63
bound_signed index h =
    let k = 1887 - index in
    let e : index + k ≡ 1887 = omega arith in
    let up =
      subst (λ (j : ℕ). bucket_upper_bound index ≤ bucket_upper_bound j) e
        (bound_mono index k (omega arith)) in
    omega (arith, bound_closed 57 63 (omega arith) (omega arith) (omega arith) (omega arith))
