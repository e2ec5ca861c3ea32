-- ===== src/Rt/Guard/Scopes/Reports.antt =====
-- Lists of violations: what they leave alone, where they end, and what they count.
use safeedge.Common.{
  suc, length, ◌^◌, leb, ◌<◌, u64, ◌+◌, ◌⊎◌, Bool-cases, inl, inr, ℕ, ◌≡◌, refl, sym, ap, ◌∙◌,
  arith, true, false, ltb, if◌then◌else◌, List, [], ◌∷◌, ◌++◌,
}
use safeedge.Rt.Guard.{
  count_violation, is_abort, aborted, ◌>>=◌, AllocationReport, Process, running, Guard,
  report_violation,
}
use safeedge.Rt.Guard.Scopes.{largest, reported, ended, report_all}

pub violation-cases :
    (bytes : ℕ) (g : Guard)
    → ((report : AllocationReport) × (report_violation bytes g
          ≡ running (record g { report = report }))
        × ((n : ℕ) (m : ℕ)
            → report_violation bytes (record g { no_alloc_depth = n; allow_depth = m })
              ≡ running (record g { no_alloc_depth = n; allow_depth = m; report = report })))
      ⊎ ((report : AllocationReport) × (report_violation bytes g ≡ aborted report)
          × ((n : ℕ) (m : ℕ)
              → report_violation bytes (record g { no_alloc_depth = n; allow_depth = m })
                ≡ aborted report))
unfolding report_violation
violation-cases bytes g = elim (Bool-cases (is_abort g.policy)) [
  | inl e ↦ inr (count_violation bytes g.report, rw e refl, λ n m. rw e refl)
  | inr e ↦ inl (count_violation bytes g.report, rw e refl, λ n m. rw e refl)
]

pub report_all-append :
    (xs ys : List ℕ) (g : Guard)
    → report_all (xs ++ ys) g ≡ (report_all xs g >>= λ h. report_all ys h)
unfolding report_all
report_all-append [] ys g = refl
report_all-append (x ∷ xs) ys g = elim (violation-cases x g) [
  | inl (report, e, _) ↦ rw e (report_all-append xs ys (record g { report = report }))
  | inr (report, e, _) ↦ rw e refl
]

-- Reports leave the depths alone, so what follows them may rely on the depths.
pub report_all-cong :
    (xs : List ℕ) (g : Guard) (f k : Guard → Process)
    → ((report : AllocationReport)
        → f (record g { report = report }) ≡ k (record g { report = report }))
    → (report_all xs g >>= f) ≡ (report_all xs g >>= k)
unfolding report_all
report_all-cong [] g f k same = same g.report
report_all-cong (x ∷ xs) g f k same = elim (violation-cases x g) [
  | inl (report, e, _) ↦ rw e (report_all-cong xs (record g { report = report }) f k same)
  | inr (report, e, _) ↦ rw e refl
]

-- Reports at other depths are the same ones.
pub report_all-depths :
    (xs : List ℕ) (g : Guard) (n m : ℕ) (f : Guard → Process)
    → (report_all xs (record g { no_alloc_depth = n; allow_depth = m }) >>= f)
      ≡ (report_all xs g >>= λ h. f (record h { no_alloc_depth = n; allow_depth = m }))
unfolding report_all
report_all-depths [] g n m f = refl
report_all-depths (x ∷ xs) g n m f = elim (violation-cases x g) [
  | inl (report, e, d) ↦ rw (e, d n m) (report_all-depths xs (record g { report = report }) n m f)
  | inr (report, e, d) ↦ rw (e, d n m) refl
]

count_violation-reported :
    (x : ℕ) (report : AllocationReport)
    → report.violations < 2 ^ 64
    → count_violation x report ≡ reported (x ∷ []) report
unfolding count_violation reported largest
count_violation-reported x report h = ground arith

pub report_all-ended :
    (xs : List ℕ) (g : Guard)
    → is_abort g.policy ≡ true
    → g.report.violations < 2 ^ 64
    → report_all xs g ≡ ended xs g
unfolding report_all ended report_violation
report_all-ended [] g e h = refl
report_all-ended (x ∷ xs) g e h = rw e (ap aborted (count_violation-reported x g.report h))

reported_none :
    (report : AllocationReport) → report.violations < 2 ^ 64 → reported [] report ≡ report
unfolding reported largest
reported_none report h = ground arith

count_violation_bound :
    (x : ℕ) (report : AllocationReport) → (count_violation x report).violations < 2 ^ 64
unfolding count_violation
count_violation_bound x report = omega arith

reported_more :
    (x : ℕ) (xs : List ℕ) (report : AllocationReport)
    → reported xs (count_violation x report) ≡ reported (x ∷ xs) report
unfolding reported largest count_violation
reported_more x xs report =
    let counted : u64 (u64 (report.violations + 1) + length xs)
        ≡ u64 (report.violations + suc (length xs)) =
      omega arith in
    let larger : (if ltb report.largest_bytes x then x else report.largest_bytes)
        ≡ (if leb x report.largest_bytes then report.largest_bytes else x) =
      ground arith in
    rw (counted, larger) refl

pub report_all-reported :
    (xs : List ℕ) (g : Guard)
    → is_abort g.policy ≡ false
    → g.report.violations < 2 ^ 64
    → report_all xs g ≡ running (record g { report = reported xs g.report })
unfolding report_all report_violation
report_all-reported [] g e h =
    ap (λ (r : AllocationReport). running (record g { report = r }))
      (sym (reported_none g.report h))
report_all-reported (x ∷ xs) g e h =
    let r = count_violation x g.report in
    rw e (
      report_all-reported xs (record g { report = r }) e (count_violation_bound x g.report)
      ∙ ap (λ (q : AllocationReport). running (record g { report = q }))
          (reported_more x xs g.report))
