-- ===== src/Rt/Histogram/Tests.antt =====
-- Examples for the histogram, with thousandths for `double`.
use safeedge.Common.{
  ℕ, ◌+◌, ◌*◌, ◌/◌, ◌≤◌, arith, ℤ, pos, negsuc, pos_part, List, [], ◌∷◌, ltb, if◌then◌else◌,
}
use safeedge.Rt.Histogram.{
  Arithmetic, bucket_upper_bound, bucket_index_for, percentile, histogram_of,
}
use safeedge.Rt.Histogram.Buckets.{bucket_bounds}
use safeedge.Rt.Histogram.Percentile.{IsQuantile, rank_of, percentile-IsQuantile}

instance abbrev pub thousandths : Arithmetic ℕ
thousandths = record {
  of_ℤ = λ x. 1000 * pos_part x;
  of_ℕ = λ n. 1000 * n;
  plus = λ a b. a + b;
  times = λ a b. a * b / 1000;
  over = λ a b. a * 1000 / b;
  clamp_unit = λ a. if ltb 1000 a then 1000 else a;
  ceil_u64 = λ a. (a + 999) / 1000;
}

abbrev samples : List ℤ
samples = pos 100 ∷ negsuc 4 ∷ pos 5 ∷ []

bucket_bounds_example :
    (1000 ≤ bucket_upper_bound (bucket_index_for 1000))
    × (32 * bucket_upper_bound (bucket_index_for 1000) ≤ 33 * 1000)
bucket_bounds_example = bucket_bounds 1000 (omega arith)

percentile-IsQuantile_example :
    IsQuantile
      (percentile {Double = ℕ} (histogram_of samples) 500)
      (rank_of {Double = ℕ} 500 3)
      samples
percentile-IsQuantile_example =
    percentile-IsQuantile ℕ samples 500 (omega arith) (omega arith)
      (omega arith, (omega arith, (omega arith, tt)))
