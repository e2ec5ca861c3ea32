-- ===== src/Rt/Histogram/Recording.antt =====
-- What the buckets, the count and the extremes of a histogram say of its samples.
use safeedge.Common.{
  inr, inl, Bool-cases, sym, length-append, ◌++◌, ℕ, zero, suc, ◌+◌, ◌^◌, ◌≤◌, ◌<◌, ◌≡◌, refl, ap,
  ◌∙◌, arith, u64, ◌==◌, if◌then◌else◌, ℤ, pos, pos_part, max_ℤ, List, [], ◌∷◌, All, length, get_or,
  set, length-set,
}
use safeedge.Rt.Histogram.{
  merge, add_buckets, bucket_count, bucket_index_for, Arithmetic, empty_histogram, record_one,
  record_many, zeros, histogram_of,
}
use safeedge.Rt.Histogram.Buckets.{bucket_index_for-lt}

-- What a sample counts as.
abbrev pub clamped : ℤ → ℕ
clamped x = pos_part (max_ℤ x (pos 0))

-- The number of samples in the bucket `i`.
unfoldable pub count_at : ℕ → List ℤ → ℕ
count_at i [] = 0
count_at i (x ∷ xs) =
    let rest = count_at i xs in if bucket_index_for (clamped x) == i then rest + 1 else rest

-- Samples of `std::int64_t`.
abbrev pub IsSamples : List ℤ → Type 0
IsSamples = All λ (x : ℤ). clamped x < 2 ^ 63

get_or-set :
    (xs : List ℕ) (i j v : ℕ)
    → i < length xs
    → get_or (set xs i v) j 0 ≡ (if i == j then v else get_or xs j 0)
get_or-set [] i j v h = absurd (omega arith)
get_or-set (x ∷ xs) zero zero v h = ground arith
get_or-set (x ∷ xs) zero (suc j) v h = ground arith
get_or-set (x ∷ xs) (suc i) zero v h = ground arith
get_or-set (x ∷ xs) (suc i) (suc j) v h = ground (arith, get_or-set xs i j v (omega arith))

get_or-zeros : (n i : ℕ) → get_or (zeros n) i 0 ≡ 0
get_or-zeros zero i = refl
get_or-zeros (suc n) zero = refl
get_or-zeros (suc n) (suc i) = get_or-zeros n i

length-zeros : (n : ℕ) → length (zeros n) ≡ n
length-zeros zero = refl
length-zeros (suc n) = omega (arith, length-zeros n)

count_at-length : (i : ℕ) (xs : List ℤ) → count_at i xs ≤ length xs
unfolding count_at
count_at-length i [] = omega arith
count_at-length i (x ∷ xs) = ground (arith, count_at-length i xs)

weaken :
    (a b : ℕ) (xs : List ℤ)
    → a ≤ b
    → All (λ (x : ℤ). clamped x ≤ a) xs
    → All (λ (x : ℤ). clamped x ≤ b) xs
weaken a b [] l h = tt
weaken a b (x ∷ xs) l h = (omega (arith, h.0), weaken a b xs l h.1)

counted :
    (k i a b c d : ℕ)
    → a ≡ c
    → b ≡ d
    → c + 1 < 2 ^ 64
    → (k ≡ i → c ≡ d)
    → (if k == i then u64 (a + 1) else b) ≡ (if k == i then d + 1 else d)
counted k i a b c d e f l g = ground arith

module _ (Double : Type 0) ⦃ar : Arithmetic Double⦄ where
  pub length-buckets :
      (xs : List ℤ) → length (histogram_of {Double = Double} xs).buckets ≡ bucket_count
  unfolding histogram_of empty_histogram record_one record_many
  length-buckets [] = length-zeros bucket_count
  length-buckets (x ∷ xs) =
      length-set (histogram_of {Double = Double} xs).buckets _ _ ∙ length-buckets xs

  pub count-length :
      (xs : List ℤ) → length xs < 2 ^ 64 → (histogram_of {Double = Double} xs).count ≡ length xs
  unfolding histogram_of empty_histogram record_one record_many
  count-length [] h = refl
  count-length (x ∷ xs) h = omega (arith, count-length xs (omega arith))

  -- Every bucket counts exactly the samples that belong in it, negative ones as zero, as long as
  -- there are fewer than 2 ^ 64 samples.
  pub buckets-count_at :
      (xs : List ℤ) (i : ℕ)
      → length xs < 2 ^ 64
      → IsSamples xs
      → get_or (histogram_of {Double = Double} xs).buckets i 0 ≡ count_at i xs
  unfolding histogram_of empty_histogram record_one record_many count_at
  buckets-count_at [] i h s = get_or-zeros bucket_count i
  buckets-count_at (x ∷ xs) i h s =
      let k = bucket_index_for (clamped x) in
      let bs = (histogram_of {Double = Double} xs).buckets in
      let b = bucket_index_for-lt (clamped x) (omega (arith, s.0)) in
      let w = get_or-set bs k i (u64 (get_or bs k 0 + 1)) (omega (arith, length-buckets xs)) in
      let here = buckets-count_at xs k (omega arith) s.1 in
      let there = buckets-count_at xs i (omega arith) s.1 in
      w
      ∙ counted k i (get_or bs k 0) (get_or bs i 0) (count_at k xs) (count_at i xs) here there
          (omega (arith, count_at-length k xs)) (λ e. ap (λ (j : ℕ). count_at j xs) e)

  -- The largest sample is kept, zero if there is none above.
  pub max_value-IsBound :
      (xs : List ℤ)
      → All (λ (x : ℤ). clamped x ≤ pos_part (histogram_of {Double = Double} xs).max_value) xs
        × ((histogram_of {Double = Double} xs).max_value
            ≡ pos (pos_part (histogram_of {Double = Double} xs).max_value))
  unfolding histogram_of empty_histogram record_one record_many
  max_value-IsBound [] = (tt, refl)
  max_value-IsBound (x ∷ xs) =
      let rest = max_value-IsBound xs in
      let m = (histogram_of {Double = Double} xs).max_value in
      let up : pos_part m ≤ pos_part (max_ℤ m (max_ℤ x (pos 0))) = ground arith in
      ((ground arith, weaken (pos_part m) _ xs up rest.0), ground arith)

get_or-add_buckets :
    (xs ys : List ℕ) (i : ℕ)
    → length xs ≡ length ys
    → get_or xs i 0 + get_or ys i 0 < 2 ^ 64
    → get_or (add_buckets xs ys) i 0 ≡ get_or xs i 0 + get_or ys i 0
get_or-add_buckets [] [] i h u = refl
get_or-add_buckets [] (y ∷ ys) i h u = absurd (omega arith)
get_or-add_buckets (x ∷ xs) [] i h u = absurd (omega arith)
get_or-add_buckets (x ∷ xs) (y ∷ ys) zero h u = omega arith
get_or-add_buckets (x ∷ xs) (y ∷ ys) (suc i) h u = get_or-add_buckets xs ys i (omega arith) u

count_at-append : (i : ℕ) (xs ys : List ℤ) → count_at i (xs ++ ys) ≡ count_at i xs + count_at i ys
unfolding count_at
count_at-append i [] ys = omega arith
count_at-append i (x ∷ xs) ys = ground (arith, count_at-append i xs ys)

All-append : (P : ℤ → Type 0) (xs ys : List ℤ) → All P xs → All P ys → All P (xs ++ ys)
All-append P [] ys h k = k
All-append P (x ∷ xs) ys h k = (h.0, All-append P xs ys h.1 k)

module _ (Double : Type 0) ⦃ar : Arithmetic Double⦄ where
  -- Merging two histograms gives, in every bucket and in the count, the histogram of all samples of
  -- both, as long as there are fewer than 2 ^ 64.
  pub merge-histogram_of :
      (xs ys : List ℤ) (i : ℕ)
      → length xs + length ys < 2 ^ 64
      → IsSamples xs
      → IsSamples ys
      → let merged = merge (histogram_of {Double = Double} xs) (histogram_of ys) in
        let whole = histogram_of {Double = Double} (xs ++ ys) in
        (get_or merged.buckets i 0 ≡ get_or whole.buckets i 0) × (merged.count ≡ whole.count)
  unfolding merge
  merge-histogram_of xs ys i u s t =
      let cx = count-length Double xs (omega arith) in
      let cy = count-length Double ys (omega arith) in
      let both = length-append xs ys in
      let bx = buckets-count_at Double xs i (omega arith) s in
      let by = buckets-count_at Double ys i (omega arith) t in
      let bw =
        buckets-count_at Double (xs ++ ys) i (omega arith)
          (All-append (λ (x : ℤ). clamped x < 2 ^ 63) xs ys s t) in
      let cw = count-length Double (xs ++ ys) (omega arith) in
      let a = count_at-append i xs ys in
      let lx = count_at-length i xs in
      let ly = count_at-length i ys in
      let sum =
        get_or-add_buckets (histogram_of {Double = Double} xs).buckets
          (histogram_of {Double = Double} ys).buckets i
          (length-buckets Double xs ∙ sym (length-buckets Double ys)) (omega arith) in
      elim (Bool-cases ((histogram_of {Double = Double} ys).count == 0)) [
        | inl e ↦
            let z : (histogram_of {Double = Double} ys).count ≡ 0 = ground arith in
            rw e (omega arith, omega arith)
        | inr e ↦ rw e (omega arith, omega arith)
      ]
