-- ===== src/Rt/Histogram/Percentile.antt =====
-- What a reported percentile says of the samples.
use safeedge.Common.{
  ◌==◌, false, u64, ap, sym, ◌∙◌, get_or, min_ℤ, ◌⊎◌, ℕ, suc, ◌+◌, ◌-◌, ◌*◌, ◌^◌, ◌≤◌, ◌<◌, ◌≡◌,
  refl, subst, arith, dec_lt, Bool, true, Bool-cases, inl, inr, ltb, leb, if◌then◌else◌, ℤ, pos,
  pos_part, List, [], ◌∷◌, All, length,
}
use safeedge.Rt.Histogram.{
  LatencyHistogram, histogram_of, scan, to_signed, bucket_count, percentile, clamp_target,
  Arithmetic, bucket_index_for, bucket_upper_bound,
}
use safeedge.Rt.Histogram.Buckets.{
  bound_signed, bound_mono, bucket_bounds, bound_of_before, bucket_index_for_signed,
}
use safeedge.Rt.Histogram.Recording.{
  length-buckets, buckets-count_at, max_value-IsBound, count-length, clamped, count_at, IsSamples,
}

-- The number of samples whose value passes a test.
unfoldable pub count_where : (ℕ → Bool) → List ℤ → ℕ
count_where test [] = 0
count_where test (x ∷ xs) =
    let rest = count_where test xs in if test (clamped x) then rest + 1 else rest

-- The samples in buckets before `i`.
abbrev before : ℕ → ℕ → Bool
before i value = ltb (bucket_index_for value) i

abbrev pub at_most : ℕ → ℕ → Bool
at_most p value = leb value p

-- Further below `p` than a thirty-third part of `p`.
abbrev pub far_below : ℕ → ℕ → Bool
far_below p value = ltb (33 * value) (32 * p)

count_where_mono :
    (test test' : ℕ → Bool) (xs : List ℤ)
    → All (λ (x : ℤ). test (clamped x) ≡ true → test' (clamped x) ≡ true) xs
    → count_where test xs ≤ count_where test' xs
unfolding count_where
count_where_mono test test' [] h = omega arith
count_where_mono test test' (x ∷ xs) h =
    let rest = count_where_mono test test' xs h.1 in
    elim (Bool-cases (test (clamped x))) [
      | inl e ↦ rw (e, h.0 e) (omega arith)
      | inr e ↦ elim (Bool-cases (test' (clamped x))) [
        | inl f ↦ rw (e, f) (omega arith)
        | inr f ↦ rw (e, f) rest
      ]
    ]

count_where-length : (test : ℕ → Bool) (xs : List ℤ) → count_where test xs ≤ length xs
unfolding count_where
count_where-length test [] = omega arith
count_where-length test (x ∷ xs) = ground (arith, count_where-length test xs)

count_where-All :
    (test : ℕ → Bool) (xs : List ℤ)
    → All (λ (x : ℤ). test (clamped x) ≡ true) xs
    → count_where test xs ≡ length xs
unfolding count_where
count_where-All test [] h = refl
count_where-All test (x ∷ xs) h = rw (h.0) (omega (arith, count_where-All test xs h.1))

All-map : (P Q : ℤ → Type 0) (xs : List ℤ) → ((x : ℤ) → P x → Q x) → All P xs → All Q xs
All-map P Q [] f h = tt
All-map P Q (x ∷ xs) f h = (f x h.0, All-map P Q xs f h.1)

All-both : (P Q : ℤ → Type 0) (xs : List ℤ) → All P xs → All Q xs → All (λ (x : ℤ). P x × Q x) xs
All-both P Q [] h k = tt
All-both P Q (x ∷ xs) h k = ((h.0, k.0), All-both P Q xs h.1 k.1)

before-suc :
    (i : ℕ) (xs : List ℤ)
    → count_where (before (suc i)) xs ≡ count_where (before i) xs + count_at i xs
unfolding count_where count_at
before-suc i [] = refl
before-suc i (x ∷ xs) = ground (arith, before-suc i xs)

-- A value from the bucket `i` on is not far below the bound of `i`.
not_far :
    (i p value : ℕ)
    → i < 1888
    → p ≤ bucket_upper_bound i
    → value < 2 ^ 63
    → far_below p value ≡ true
    → before i value ≡ true
not_far i p value l h k e = elim (dec_lt (bucket_index_for value) i) [
  | yes r ↦ ground arith
  | no r ↦
      let up =
        bound_mono i (bucket_index_for value - i)
          (omega (arith, bucket_index_for_signed value k)) in
      let j : i + (bucket_index_for value - i) ≡ bucket_index_for value = omega arith in
      let up' = subst (λ (n : ℕ). bucket_upper_bound i ≤ bucket_upper_bound n) j up in
      let o = bucket_bounds value (omega arith) in
      let far : 33 * value < 32 * p = ground arith in absurd (omega arith)
]

-- What a value reported for the rank `target` says of the samples.
pub record IsQuantile (p : ℤ) (target : ℕ) (xs : List ℤ) : Type 0 where
  pub nonnegative : p ≡ pos (pos_part p)
  pub covers : target ≤ count_where (at_most (pos_part p)) xs
  pub tight : count_where (far_below (pos_part p)) xs < target

module _ (target m : ℕ) (xs : List ℤ) (s : IsSamples xs) (b : All (λ (x : ℤ). clamped x ≤ m) xs)
    (u : length xs < 2 ^ 64) (t : target ≤ length xs) where
  -- Every sample is in a bucket before 1888.
  all_before : (i : ℕ) → 1888 ≤ i → count_where (before i) xs ≡ length xs
  all_before i h = count_where-All (before i) xs (
      All-map (λ (x : ℤ). clamped x < 2 ^ 63) (λ (x : ℤ). before i (clamped x) ≡ true) xs
        (λ x k. let l = bucket_index_for_signed (clamped x) k in ground arith) s)

  -- The bucket at which the scan stops.
  found :
      (i p : ℕ)
      → i < 1888
      → p ≤ bucket_upper_bound i
      → (p ≡ bucket_upper_bound i) ⊎ (p ≡ m)
      → count_where (before i) xs < target
      → target ≤ count_where (before (suc i)) xs
      → IsQuantile (pos p) target xs
  found i p l h c low high = record {
    nonnegative = refl;
    covers = omega (
      arith,
      count_where_mono (before (suc i)) (at_most p) xs (
          All-map (λ (x : ℤ). (clamped x < 2 ^ 63) × (clamped x ≤ m))
            (λ (x : ℤ). before (suc i) (clamped x) ≡ true → at_most p (clamped x) ≡ true) xs
            (λ x k e.
              let v : bucket_index_for (clamped x) ≤ i = ground arith in
              let o = bound_of_before (clamped x) i (omega (arith, k)) v (omega arith) in
              elim c [ inl q ↦ ground arith | inr q ↦ ground arith ])
            (All-both (λ (x : ℤ). clamped x < 2 ^ 63) (λ (x : ℤ). clamped x ≤ m) xs s b)),
    );
    tight = omega (
      arith,
      count_where_mono (far_below p) (before i) xs (
          All-map (λ (x : ℤ). clamped x < 2 ^ 63)
            (λ (x : ℤ). far_below p (clamped x) ≡ true → before i (clamped x) ≡ true) xs
            (λ x k e. not_far i p (clamped x) l h k e) s),
    );
  }

  reported :
      (i : ℕ)
      → i < 1888
      → count_where (before i) xs < target
      → target ≤ count_where (before (suc i)) xs
      → IsQuantile (min_ℤ (to_signed (bucket_upper_bound i)) (pos m)) target xs
  reported i l low high =
      let ub = bucket_upper_bound i in
      let small = bound_signed i l in
      let e : ltb ub (2 ^ 63) ≡ true = ground arith in
      elim (Bool-cases (ltb m ub)) [
        | inl f ↦
            let r : min_ℤ (to_signed ub) (pos m) ≡ pos m = ground arith in
            subst (λ (p : ℤ). IsQuantile p target xs) (sym r)
              (found i m l (ground arith) (inr refl) low high)
        | inr f ↦
            let r : min_ℤ (to_signed ub) (pos m) ≡ pos ub = ground arith in
            subst (λ (p : ℤ). IsQuantile p target xs) (sym r)
              (found i ub l (omega arith) (inl refl) low high)
      ]

  scan-IsQuantile :
      (bs : List ℕ) (i seen : ℕ)
      → ((j : ℕ) → get_or bs j 0 ≡ count_at (i + j) xs)
      → seen ≡ count_where (before i) xs
      → seen < target
      → i + length bs ≡ bucket_count
      → IsQuantile (scan bs i seen target (pos m)) target xs
  scan-IsQuantile [] i seen g e l k = absurd (omega (arith, all_before i (omega arith)))
  scan-IsQuantile (b ∷ bs) i seen g e l k =
      let here : b ≡ count_at i xs = g 0 ∙ ap (λ (j : ℕ). count_at j xs) (omega arith) in
      let next = before-suc i xs in
      let bounded = count_where-length (before (suc i)) xs in
      let sum : u64 (seen + b) ≡ count_where (before (suc i)) xs = omega arith in
      let low : i < 1888 = elim (dec_lt i 1888) [
        | yes p ↦ p
        | no p ↦ absurd (omega (arith, all_before i (omega arith)))
      ] in
      elim (dec_lt (u64 (seen + b)) target) [
        | yes p ↦
            let f : leb target (u64 (seen + b)) ≡ false = ground arith in
            rw f (
              scan-IsQuantile bs (suc i) (u64 (seen + b))
                (λ j. g (suc j) ∙ ap (λ (n : ℕ). count_at n xs) (omega arith)) sum p (omega arith))
        | no p ↦
            let f : leb target (u64 (seen + b)) ≡ true = ground arith in
            rw f (reported i low (omega arith) (omega arith))
      ]

clamp_target_bounds :
    (target count : ℕ)
    → 1 ≤ count
    → (1 ≤ clamp_target target count) × (clamp_target target count ≤ count)
clamp_target_bounds target count h = ground arith

none : (xs : List ℤ) → count_where (before 0) xs ≡ 0
unfolding count_where
none [] = refl
none (x ∷ xs) = ground (arith, none xs)

-- The rank that `percentile` looks for, 1 for the smallest sample.
unfoldable pub rank_of : {Double : Type 0} → ⦃ar : Arithmetic Double⦄ → Double → ℕ → ℕ
rank_of {Double} ⦃ar⦄ quantile count =
    clamp_target (ar.ceil_u64 (ar.times (ar.clamp_unit quantile) (ar.of_ℕ count))) count

module _ (Double : Type 0) ⦃ar : Arithmetic Double⦄ where
  -- The percentile of a histogram of samples, at least one and fewer than 2 ^ 64: it is not negative,
  -- at least as many samples as the rank are at most it, and fewer samples than the rank are below
  -- it by more than a thirty-third part of it. So the true percentile does not exceed it, and it
  -- exceeds the true one by at most a thirty-second part. Negative samples count as zero.
  pub percentile-IsQuantile :
      (xs : List ℤ) (quantile : Double)
      → 1 ≤ length xs
      → length xs < 2 ^ 64
      → IsSamples xs
      → IsQuantile (percentile (histogram_of xs) quantile) (rank_of quantile (length xs)) xs
  unfolding percentile rank_of
  percentile-IsQuantile xs quantile some u s =
      let h : LatencyHistogram Double = histogram_of xs in
      let c : h.count ≡ length xs = count-length Double xs u in
      let f : (length xs == 0) ≡ false = ground arith in
      let m = max_value-IsBound Double xs in
      let rank = rank_of quantile (length xs) in
      let bounds =
        clamp_target_bounds (ar.ceil_u64 (ar.times (ar.clamp_unit quantile) (ar.of_ℕ (length xs))))
          (length xs) some in
      let q =
        scan-IsQuantile rank (pos_part h.max_value) xs s m.0 u (omega arith) h.buckets 0 0
          (λ j. buckets-count_at Double xs j u s ∙ ap (λ (n : ℕ). count_at n xs) (omega arith))
          (sym (none xs)) (omega arith) (omega (arith, length-buckets Double xs)) in
      let q' = subst (λ (p : ℤ). IsQuantile (scan h.buckets 0 0 rank p) rank xs) (sym m.1) q in
      rw (c, f) q'
