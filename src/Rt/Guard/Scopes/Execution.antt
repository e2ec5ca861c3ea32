-- ===== src/Rt/Guard/Scopes/Execution.antt =====
-- The guard against the code that runs under it: what is counted is what the text of the scopes says.
use safeedge.Common.{
  ◌^◌, ◌<◌, ◌-◌, ◌+◌, Bool-cases, inl, inr, ℕ, ◌≡◌, refl, sym, ap, ◌∙◌, arith, Bool, true, not,
  ◌&&◌, ltb, ◌==◌, if◌then◌else◌, List, ◌++◌,
}
use safeedge.Rt.Guard.{
  is_abort, ◌>>=◌, AllocationReport, Process, running, Guard, report_violation, enter_no_alloc,
  leave_no_alloc, enter_allow_alloc, leave_allow_alloc, note_allocation,
}
use safeedge.Rt.Guard.Scopes.{
  execute, forbidden, reported, ended, report_all, Code, done, allocates, without_alloc, with_alloc,
}
use safeedge.Rt.Guard.Scopes.Reports.{
  violation-cases, report_all-append, report_all-cong, report_all-depths, report_all-ended,
  report_all-reported,
}

note_allocation_cases :
    (guarded exempt : Bool) (bytes : ℕ) (g : Guard)
    → ltb 0 g.no_alloc_depth ≡ guarded
    → not (g.allow_depth == 0) ≡ exempt
    → note_allocation bytes g
      ≡ (if guarded && not exempt then report_violation bytes g else running g)
unfolding note_allocation
note_allocation_cases guarded exempt bytes g a b =
    let test : ltb 0 g.no_alloc_depth && g.allow_depth == 0 ≡ guarded && not exempt =
      ground arith in
    rw test refl

inside : (g : Guard) → ltb 0 (enter_no_alloc g).no_alloc_depth ≡ true
unfolding enter_no_alloc
inside g = ground arith

exempted : (g : Guard) → not ((enter_allow_alloc g).allow_depth == 0) ≡ true
unfolding enter_allow_alloc
exempted g = ground arith

-- A block of code that reports the violations `xs` on the way from one depth back to it.
block :
    (xs ys : List ℕ) (g : Guard) (n m : ℕ) (body f : Guard → Process)
    → body (record g { no_alloc_depth = n; allow_depth = m })
      ≡ report_all xs (record g { no_alloc_depth = n; allow_depth = m })
    → ((report : AllocationReport)
        → f (record g { no_alloc_depth = n; allow_depth = m; report = report })
          ≡ report_all ys (record g { report = report }))
    → (body (record g { no_alloc_depth = n; allow_depth = m }) >>= f) ≡ report_all (xs ++ ys) g
block xs ys g n m body f e after =
    ap (λ (p : Process). p >>= f) e
    ∙ (report_all-depths xs g n m f
        ∙ (report_all-cong xs g (λ h. f (record h { no_alloc_depth = n; allow_depth = m }))
              (λ h. report_all ys h) after
            ∙ sym (report_all-append xs ys g)))

back : (d : ℕ) → d + 1 - 1 ≡ d
back d = omega arith

execute-forbidden :
    (code : Code) (guarded exempt : Bool) (g : Guard)
    → ltb 0 g.no_alloc_depth ≡ guarded
    → not (g.allow_depth == 0) ≡ exempt
    → execute code g ≡ report_all (forbidden guarded exempt code) g
unfolding execute forbidden report_all enter_no_alloc leave_no_alloc enter_allow_alloc
    leave_allow_alloc
execute-forbidden done guarded exempt g a b = refl
execute-forbidden (allocates bytes rest) guarded exempt g a b =
    let n = note_allocation_cases guarded exempt bytes g a b in
    elim (Bool-cases (guarded && not exempt)) [
      | inl e ↦
          rw (n, e)
            (elim (violation-cases bytes g) [
              | inl (report, v, _) ↦
                  rw v (execute-forbidden rest guarded exempt (record g { report = report }) a b)
              | inr (report, v, _) ↦ rw v refl
            ])
      | inr e ↦ rw (n, e) (execute-forbidden rest guarded exempt g a b)
    ]
execute-forbidden (without_alloc body rest) guarded exempt g a b =
    block (forbidden true exempt body) (forbidden guarded exempt rest) g (g.no_alloc_depth + 1)
      g.allow_depth (execute body) (λ h. execute rest (leave_no_alloc h))
      (execute-forbidden body true exempt (enter_no_alloc g) (inside g) b)
      (λ report.
        ap (λ (d : ℕ). execute rest (record g { no_alloc_depth = d; report = report }))
          (back g.no_alloc_depth)
        ∙ execute-forbidden rest guarded exempt (record g { report = report }) a b)
execute-forbidden (with_alloc body rest) guarded exempt g a b =
    block (forbidden guarded true body) (forbidden guarded exempt rest) g g.no_alloc_depth
      (g.allow_depth + 1) (execute body) (λ h. execute rest (leave_allow_alloc h))
      (execute-forbidden body guarded true (enter_allow_alloc g) a (exempted g))
      (λ report.
        ap (λ (d : ℕ). execute rest (record g { allow_depth = d; report = report }))
          (back g.allow_depth)
        ∙ execute-forbidden rest guarded exempt (record g { report = report }) a b)

-- However the scopes nest, a thread reports exactly the allocations that stand in a block without
-- allocations and in no exempted block. Under `kAbort` the first of them, if there is one, ends the
-- process with that one counted, and nothing runs after it. Under the other policies the code runs to
-- its end with the depths as they were, and the report counts them all, modulo 2 ^ 64, and has the
-- largest size. The count before is one of 64 bits.
pub execute-reported :
    (code : Code) (g : Guard)
    → g.report.violations < 2 ^ 64
    → let xs = forbidden (ltb 0 g.no_alloc_depth) (not (g.allow_depth == 0)) code in
      execute code g ≡ (
        if is_abort g.policy
        then ended xs g
        else running (record g { report = reported xs g.report }))
execute-reported code g h =
    let xs = forbidden (ltb 0 g.no_alloc_depth) (not (g.allow_depth == 0)) code in
    let said =
      execute-forbidden code (ltb 0 g.no_alloc_depth) (not (g.allow_depth == 0)) g refl refl in
    elim (Bool-cases (is_abort g.policy)) [
      | inl e ↦ rw e (said ∙ report_all-ended xs g e h)
      | inr e ↦ rw e (said ∙ report_all-reported xs g e h)
    ]
