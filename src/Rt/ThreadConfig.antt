-- ===== src/Rt/ThreadConfig.antt =====
-- include/safeedge/rt/thread_config.hpp and src/rt/thread_config.cpp, on Linux. What the calls of the
-- operating system return is the record `System`; the texts of the diagnostics are enumerated, so
-- their buffer is the list of those that were appended.
pub mod Report
mod Tests
use safeedge.Common.{
  ℕ, zero, suc, ◌+◌, ◌*◌, ◌/◌, ◌%◌, Bool, true, false, not, ◌&&◌, ◌||◌, ℤ, pos, ltb_ℤ, List, [],
  ◌∷◌, ◌++◌, ltb, ◌==◌, if◌then◌else◌,
}

pub data SchedulingPolicy : Type 0 where
  default fifo round_robin : SchedulingPolicy

pub record ThreadConfig : Type 0 where
  pub policy : SchedulingPolicy
  pub priority : ℤ
  pub cpu : ℤ
  pub lock_memory : Bool
  pub prefault_stack : Bool
  pub prefault_bytes : ℕ

pub data Diagnostic : Type 0 where
  setschedparam_failed policy_not_in_force setaffinity_failed : Diagnostic
  affinity_not_in_force mlockall_failed prefault_out_of_range : Diagnostic

pub record ThreadConfigReport : Type 0 where
  pub scheduling_applied : Bool
  pub affinity_applied : Bool
  pub memory_locked : Bool
  pub stack_prefaulted : Bool
  pub effective_policy : ℕ
  pub effective_priority : ℤ
  pub diagnostics : List Diagnostic

-- The constants and calls of the operating system: what setting returns, what reading back returns,
-- if it succeeds, and whether the affinity read back is the requested processor alone.
pub record System : Type 0 where
  pub sched_other : ℕ
  pub sched_fifo : ℕ
  pub sched_rr : ℕ
  pub setschedparam : ℕ → ℤ → Bool
  pub getschedparam_succeeds : Bool
  pub actual_policy : ℕ
  pub actual_priority : ℤ
  pub setaffinity : ℤ → Bool
  pub affinity_is : ℤ → Bool
  pub mlockall : Bool
  pub page : ℤ

abbrev pub is_default : SchedulingPolicy → Bool
is_default default = true
is_default _ = false

unfoldable pub to_posix_policy : System → SchedulingPolicy → ℕ
to_posix_policy os fifo = os.sched_fifo
to_posix_policy os round_robin = os.sched_rr
to_posix_policy os default = os.sched_other

unfoldable pub fully_applied : ThreadConfigReport → Bool
fully_applied r = elim (r.diagnostics) [ [] ↦ true | _ ∷ _ ↦ false ]

unfoldable pub append_diagnostic : ThreadConfigReport → Diagnostic → ThreadConfigReport
append_diagnostic r d = record r { diagnostics = r.diagnostics ++ d ∷ [] }

unfoldable pub empty_report : ThreadConfigReport
empty_report = record {
  scheduling_applied = false;
  affinity_applied = false;
  memory_locked = false;
  stack_prefaulted = false;
  effective_policy = 0;
  effective_priority = pos 0;
  diagnostics = [];
}

-- `set_call_succeeded`.
unfoldable pub set_call_succeeds : System → ThreadConfig → Bool
unfolding to_posix_policy
set_call_succeeds os c =
    is_default c.policy || os.setschedparam (to_posix_policy os c.policy) c.priority

-- Scheduling policy and priority.
unfoldable pub set_scheduling : System → ThreadConfig → ThreadConfigReport → ThreadConfigReport
unfolding set_call_succeeds append_diagnostic
set_scheduling os c r =
    if set_call_succeeds os c
    then record r { scheduling_applied = true }
    else append_diagnostic r setschedparam_failed

-- The policy in force, read back.
unfoldable pub read_back : System → ThreadConfig → ThreadConfigReport → ThreadConfigReport
unfolding set_call_succeeds append_diagnostic to_posix_policy
read_back os c r =
    let read = record r {
      effective_policy = os.actual_policy;
      effective_priority = os.actual_priority;
    } in
    if not os.getschedparam_succeeds
    then r
    else (if set_call_succeeds os c
          && not (is_default c.policy)
          && not (os.actual_policy == to_posix_policy os c.policy)
        then append_diagnostic (record read { scheduling_applied = false }) policy_not_in_force
        else read)

-- CPU affinity.
unfoldable pub set_affinity : System → ThreadConfig → ThreadConfigReport → ThreadConfigReport
unfolding append_diagnostic
set_affinity os c r =
    if ltb_ℤ c.cpu (pos 0)
    then record r { affinity_applied = true }
    else (if not (os.setaffinity c.cpu)
        then append_diagnostic r setaffinity_failed
        else (if os.affinity_is c.cpu
            then record r { affinity_applied = true }
            else append_diagnostic r affinity_not_in_force))

-- Memory locking.
unfoldable pub lock : System → ThreadConfig → ThreadConfigReport → ThreadConfigReport
unfolding append_diagnostic
lock os c r =
    if not c.lock_memory || os.mlockall
    then record r { memory_locked = true }
    else append_diagnostic r mlockall_failed

-- `std::size_t` of the page size, where it is positive.
abbrev pub page_size : System → ℕ
page_size os = elim (os.page) [ pos zero ↦ 4096 | pos (suc n) ↦ suc n | _ ↦ 4096 ]

-- Stack prefault.
unfoldable pub prefault : System → ThreadConfig → ThreadConfigReport → ThreadConfigReport
unfolding append_diagnostic
prefault os c r =
    let pages = c.prefault_bytes / page_size os in
    if not c.prefault_stack
    then record r { stack_prefaulted = true }
    else (if ltb 0 pages && ltb pages 65536
        then record r { stack_prefaulted = true }
        else append_diagnostic r prefault_out_of_range)

unfoldable pub apply_thread_config : System → ThreadConfig → ThreadConfigReport
unfolding set_scheduling read_back set_affinity lock prefault empty_report
apply_thread_config os c =
    prefault os c
      (lock os c (set_affinity os c (read_back os c (set_scheduling os c empty_report))))
