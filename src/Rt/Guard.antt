-- ===== src/Rt/Guard.antt =====
-- include/safeedge/rt/no_alloc_guard.hpp and src/rt/no_alloc_guard.cpp, as one thread sees them: its
-- two depths, and the counters that all threads share.
pub mod Scopes
mod Tests
use safeedge.Common.{
  ℕ, zero, suc, ◌+◌, ◌-◌, Bool, true, false, not, ◌&&◌, ltb, ◌==◌, if◌then◌else◌, u64,
}

pub data AllocationPolicy : Type 0 where
  ignore count abort : AllocationPolicy

pub record AllocationReport : Type 0 where
  pub violations : ℕ
  pub largest_bytes : ℕ

-- The depths of a thread, and what all threads share.
pub record Guard : Type 0 where
  pub no_alloc_depth : ℕ
  pub allow_depth : ℕ
  pub report : AllocationReport
  pub policy : AllocationPolicy
  pub installed : Bool

-- `std::abort` ends the process, and the report is what it had counted.
pub data Process : Type 0 where
  running : Guard → Process
  aborted : AllocationReport → Process

-- What follows in a process, unless it has ended.
infixl 5 ◌>>=◌
abbrev pub ◌>>=◌ : Process → (Guard → Process) → Process
running g >>= f = f g
aborted report >>= f = aborted report

abbrev pub is_abort : AllocationPolicy → Bool
is_abort abort = true
is_abort _ = false

-- The counters of `reportViolation`. The loop of `compare_exchange_weak` leaves the larger one of the
-- two numbers.
unfoldable pub count_violation : ℕ → AllocationReport → AllocationReport
count_violation bytes report = record {
  violations = u64 (report.violations + 1);
  largest_bytes = if ltb report.largest_bytes bytes then bytes else report.largest_bytes;
}

-- The message before an abort does not change the state.
unfoldable pub report_violation : ℕ → Guard → Process
report_violation bytes g =
    let counted = count_violation bytes g.report in
    if not (is_abort g.policy) then running (record g { report = counted }) else aborted counted

-- The constructors and destructors of the scopes. A destructor runs after its constructor, so the
-- depth that it decrements is positive.
unfoldable pub enter_no_alloc : Guard → Guard
enter_no_alloc g = record g { no_alloc_depth = g.no_alloc_depth + 1 }

unfoldable pub leave_no_alloc : Guard → Guard
leave_no_alloc g = record g { no_alloc_depth = g.no_alloc_depth - 1 }

unfoldable pub enter_allow_alloc : Guard → Guard
enter_allow_alloc g = record g { allow_depth = g.allow_depth + 1 }

unfoldable pub leave_allow_alloc : Guard → Guard
leave_allow_alloc g = record g { allow_depth = g.allow_depth - 1 }

unfoldable pub set_allocation_policy : AllocationPolicy → Guard → Guard
set_allocation_policy policy g = record g { policy = policy }

unfoldable pub reset_allocation_report : Guard → Guard
reset_allocation_report g = record g { report = record { violations = 0; largest_bytes = 0 } }

unfoldable pub mark_guard_installed : Guard → Guard
mark_guard_installed g = record g { installed = true }

unfoldable pub in_no_alloc_scope : Guard → Bool
in_no_alloc_scope g = ltb 0 g.no_alloc_depth && g.allow_depth == 0

unfoldable pub note_allocation : ℕ → Guard → Process
unfolding report_violation
note_allocation bytes g =
    if ltb 0 g.no_alloc_depth && g.allow_depth == 0 then report_violation bytes g else running g
