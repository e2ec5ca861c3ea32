-- ===== src/Rt/Histogram.antt =====
-- include/safeedge/rt/latency_histogram.hpp and src/rt/latency_histogram.cpp: a histogram with
-- logarithmic buckets. A method that changes it returns the new one.
pub mod Buckets
pub mod Recording
pub mod Percentile
pub mod Tests
use safeedge.Common.{
  ℕ, zero, suc, ◌+◌, ◌-◌, ◌*◌, ◌/◌, ◌%◌, ◌^◌, ℤ, pos, negsuc, pos_part, max_ℤ, min_ℤ, List, [], ◌∷◌,
  ltb, leb, ◌==◌, if◌then◌else◌, get_or, set, u64,
}

abbrev pub sub_bucket_bits : ℕ
sub_bucket_bits = 5

abbrev pub sub_bucket_count : ℕ
sub_bucket_count = 32

abbrev pub linear_limit : ℕ
linear_limit = sub_bucket_count * 2

abbrev pub octaves : ℕ
octaves = 58

abbrev pub bucket_count : ℕ
bucket_count = linear_limit + octaves * sub_bucket_count

-- The position of the most significant set bit of a number below 2 ^ (`bits` + 1), 0 for 0:
-- `63 - std::countl_zero(value)` for 63 bits.
unfoldable pub top_bit : ℕ → ℕ → ℕ
top_bit zero value = 0
top_bit (suc bits) value =
    let rest = top_bit bits (value / 2) in if ltb value 2 then 0 else suc rest

-- The mask `kSubBucketCount - 1` keeps the low five bits.
unfoldable pub bucket_index_for : ℕ → ℕ
unfolding top_bit
bucket_index_for value =
    let exponent = top_bit 63 value in
    let shift = exponent - sub_bucket_bits in
    let sub = value / 2 ^ shift % sub_bucket_count in
    let octave = shift - 1 in
    if ltb value linear_limit then value else linear_limit + octave * sub_bucket_count + sub

unfoldable pub bucket_upper_bound : ℕ → ℕ
bucket_upper_bound index =
    let offset = index - linear_limit in
    let shift = offset / sub_bucket_count + 1 in
    let sub = offset % sub_bucket_count in
    let lower = u64 ((sub_bucket_count + sub) * 2 ^ shift) in
    if ltb index linear_limit then index else u64 (lower + 2 ^ shift + (2 ^ 64 - 1))

-- The arithmetic on `double` that the histogram uses. `clamp_unit` is `std::clamp(q, 0.0, 1.0)`, and
-- `ceil_u64` is `std::ceil` with the cast to `std::uint64_t`.
pub record Arithmetic (Double : Type 0) : Type 0 where
  pub of_ℤ : ℤ → Double
  pub of_ℕ : ℕ → Double
  pub plus : Double → Double → Double
  pub times : Double → Double → Double
  pub over : Double → Double → Double
  pub clamp_unit : Double → Double
  pub ceil_u64 : Double → ℕ

pub record LatencyHistogram (Double : Type 0) : Type 0 where
  pub buckets : List ℕ
  pub count : ℕ
  pub sum : Double
  pub max_value : ℤ
  pub min_value : ℤ

abbrev pub int64_max : ℕ
int64_max = 2 ^ 63 - 1

-- `buckets_.fill(0)` and the `{}` of a new array.
abbrev pub zeros : ℕ → List ℕ
zeros zero = []
zeros (suc n) = 0 ∷ zeros n

-- `static_cast<std::int64_t>` of a `std::uint64_t`.
abbrev pub to_signed : ℕ → ℤ
to_signed x = if ltb x (2 ^ 63) then pos x else negsuc (2 ^ 64 - 1 - x)

-- The sum bucket by bucket, of arrays that are equally long.
abbrev pub add_buckets : List ℕ → List ℕ → List ℕ
add_buckets [] ys = []
add_buckets (x ∷ xs) [] = x ∷ xs
add_buckets (x ∷ xs) (y ∷ ys) = u64 (x + y) ∷ add_buckets xs ys

-- The loop of `percentile`, from the bucket `index` on.
abbrev pub scan : List ℕ → ℕ → ℕ → ℕ → ℤ → ℤ
scan [] index seen target top = top
scan (b ∷ bs) index seen target top =
    let rest = scan bs (suc index) (u64 (seen + b)) target top in
    if leb target (u64 (seen + b)) then min_ℤ (to_signed (bucket_upper_bound index)) top else rest

-- `std::clamp<std::uint64_t>(target, 1, count_)`.
abbrev pub clamp_target : ℕ → ℕ → ℕ
clamp_target target count = if ltb target 1 then 1 else (if ltb count target then count else target)

module _ {Double : Type 0} ⦃ar : Arithmetic Double⦄ where
  unfoldable pub empty_histogram : LatencyHistogram Double
  empty_histogram = record {
    buckets = zeros bucket_count;
    count = 0;
    sum = ar.of_ℤ (pos 0);
    max_value = pos 0;
    min_value = pos int64_max;
  }

  unfoldable pub record_many : LatencyHistogram Double → ℤ → ℕ → LatencyHistogram Double
  record_many h value n =
      let clamped = max_ℤ value (pos 0) in
      let index = bucket_index_for (pos_part clamped) in
      if n == 0 then h else record {
        buckets = set h.buckets index (u64 (get_or h.buckets index 0 + n));
        count = u64 (h.count + n);
        sum = ar.plus h.sum (ar.times (ar.of_ℤ clamped) (ar.of_ℕ n));
        max_value = max_ℤ h.max_value clamped;
        min_value = min_ℤ h.min_value clamped;
      }

  unfoldable pub record_one : LatencyHistogram Double → ℤ → LatencyHistogram Double
  unfolding record_many
  record_one h value = record_many h value 1

  unfoldable pub merge : LatencyHistogram Double → LatencyHistogram Double → LatencyHistogram Double
  merge h other = if other.count == 0 then h else record {
    buckets = add_buckets h.buckets other.buckets;
    count = u64 (h.count + other.count);
    sum = ar.plus h.sum other.sum;
    max_value = max_ℤ h.max_value other.max_value;
    min_value = min_ℤ h.min_value other.min_value;
  }

  unfoldable pub reset : LatencyHistogram Double → LatencyHistogram Double
  unfolding empty_histogram
  reset h = empty_histogram

  unfoldable pub min_of : LatencyHistogram Double → ℤ
  min_of h = if h.count == 0 then pos 0 else h.min_value

  unfoldable pub mean : LatencyHistogram Double → Double
  mean h = if h.count == 0 then ar.of_ℤ (pos 0) else ar.over h.sum (ar.of_ℕ h.count)

  unfoldable pub percentile : LatencyHistogram Double → Double → ℤ
  percentile h quantile =
      let target = ar.ceil_u64 (ar.times (ar.clamp_unit quantile) (ar.of_ℕ h.count)) in
      if h.count == 0 then pos 0 else scan h.buckets 0 0 (clamp_target target h.count) h.max_value

  -- The histogram of a list of samples, the latest of them first.
  unfoldable pub histogram_of : List ℤ → LatencyHistogram Double
  histogram_of [] = empty_histogram
  histogram_of (x ∷ xs) = record_one (histogram_of xs) x
