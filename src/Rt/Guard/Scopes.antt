-- ===== src/Rt/Guard/Scopes.antt =====
-- Code that runs under the guard, and what its text says of the allocations.
pub mod Reports
pub mod Execution
use safeedge.Common.{
  suc, length, ◌^◌, leb, ◌<◌, u64, ◌-◌, ◌+◌, ◌⊎◌, Bool-cases, inl, inr, ℕ, ◌≡◌, refl, sym, ap, ◌∙◌,
  arith, Bool, true, false, not, ◌&&◌, ltb, ◌==◌, if◌then◌else◌, List, [], ◌∷◌, ◌++◌,
}
use safeedge.Rt.Guard.{
  count_violation, is_abort, aborted, ◌>>=◌, AllocationReport, Process, running, Guard,
  report_violation, enter_no_alloc, leave_no_alloc, enter_allow_alloc, leave_allow_alloc,
  note_allocation,
}

-- Code with allocations and blocks of the two scopes, each with what follows it.
pub data Code : Type 0 where
  done : Code
  allocates : ℕ → Code → Code
  without_alloc : Code → Code → Code
  with_alloc : Code → Code → Code

-- The code as a thread runs it: a destructor does not run once the process has ended.
unfoldable pub execute : Code → Guard → Process
execute done g = running g
execute (allocates bytes rest) g = note_allocation bytes g >>= λ h. execute rest h
execute (without_alloc body rest) g =
    execute body (enter_no_alloc g) >>= λ h. execute rest (leave_no_alloc h)
execute (with_alloc body rest) g =
    execute body (enter_allow_alloc g) >>= λ h. execute rest (leave_allow_alloc h)

-- The sizes of the allocations in a block without allocations and in no exempted block, in order,
-- for code inside such blocks or not.
unfoldable pub forbidden : Bool → Bool → Code → List ℕ
forbidden guarded exempt done = []
forbidden guarded exempt (allocates bytes rest) =
    let more = forbidden guarded exempt rest in if guarded && not exempt then bytes ∷ more else more
forbidden guarded exempt (without_alloc body rest) =
    forbidden true exempt body ++ forbidden guarded exempt rest
forbidden guarded exempt (with_alloc body rest) =
    forbidden guarded true body ++ forbidden guarded exempt rest

-- Violations of these sizes in turn, of which an abort leaves out the ones after it.
unfoldable pub report_all : List ℕ → Guard → Process
report_all [] g = running g
report_all (bytes ∷ more) g = report_violation bytes g >>= λ h. report_all more h

-- The largest of a size and a list of sizes.
unfoldable pub largest : ℕ → List ℕ → ℕ
largest n [] = n
largest n (x ∷ xs) = largest (if leb x n then n else x) xs

-- A report after violations of these sizes.
unfoldable pub reported : List ℕ → AllocationReport → AllocationReport
reported xs report = record {
  violations = u64 (report.violations + length xs);
  largest_bytes = largest report.largest_bytes xs;
}

-- A process that ends at the first of the sizes, if there is one.
unfoldable pub ended : List ℕ → Guard → Process
ended [] g = running g
ended (bytes ∷ more) g = aborted (reported (bytes ∷ []) g.report)
