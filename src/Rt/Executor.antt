-- ===== src/Rt/Executor.antt =====
-- include/safeedge/rt/cyclic_executor.hpp and src/rt/cyclic_executor.cpp: the loop that runs a
-- callback once in every period. The clock, the stop flag and the allocation counter are read from
-- outside, so what the loop reads in a cycle is a `Reading`; the callback is behind those readings.
pub mod Cadence
mod Tests
use safeedge.Common.{
  ltb, ◌||◌, pos_part, ◌==◌, ℕ, zero, suc, ◌+◌, ◌-◌, ◌^◌, ℤ, pos, ◌+ℤ◌, ◌-ℤ◌, ltb_ℤ, Bool, true,
  false, not, ◌&&◌, List, [], ◌∷◌, if◌then◌else◌, u64,
}
use safeedge.Rt.Histogram.{Arithmetic, LatencyHistogram, empty_histogram, record_one}

pub data OverrunPolicy : Type 0 where
  skip_missed run_late : OverrunPolicy

pub record CycleContext : Type 0 where
  pub index : ℕ
  pub wakeup_jitter_ns : ℤ
  pub period_ns : ℤ

pub record ExecutorStats (Double : Type 0) : Type 0 where
  pub cycles_executed : ℕ
  pub overruns : ℕ
  pub skipped_cycles : ℕ
  pub allocation_violations : ℕ
  pub wakeup_jitter : LatencyHistogram Double
  pub execution_time : LatencyHistogram Double
  pub cycle_total : LatencyHistogram Double

-- The time after `sleepUntil` and the time when the callback has returned.
pub record Reading : Type 0 where
  pub woke_ns : ℤ
  pub finished_ns : ℤ

abbrev pub is_skip_missed : OverrunPolicy → Bool
is_skip_missed skip_missed = true
is_skip_missed run_late = false

-- The inner `while` loop: the deadline and the number of skipped cycles after at most `fuel` rounds.
unfoldable pub skip_to : ℕ → ℤ → ℤ → ℤ → ℤ × ℕ
skip_to zero finished_ns period_ns deadline_ns = (deadline_ns, 0)
skip_to (suc fuel) finished_ns period_ns deadline_ns =
    let (later_ns, skipped) = skip_to fuel finished_ns period_ns (deadline_ns +ℤ period_ns) in
    if not (ltb_ℤ finished_ns deadline_ns) then (later_ns, suc skipped) else (deadline_ns, 0)

-- What a cycle of the loop did: the context of the callback, and how many cycles it skipped.
pub record Outcome : Type 0 where
  pub context : CycleContext
  pub skipped : ℕ

-- The statistics and the next deadline.
pub record Loop (Double : Type 0) : Type 0 where
  pub stats : ExecutorStats Double
  pub deadline_ns : ℤ

-- The deadline after a cycle that finished at `finished_ns`, and the cycles skipped. Every round of
-- the `while` loop takes at least a nanosecond off the delay, so the fuel is enough.
unfoldable pub next_deadline : OverrunPolicy → ℤ → ℤ → ℤ → ℤ × ℕ
next_deadline policy period_ns finished_ns deadline_ns =
    let deadline' = deadline_ns +ℤ period_ns in
    let fuel = suc (pos_part (finished_ns -ℤ deadline')) in
    if not (ltb_ℤ finished_ns deadline') && is_skip_missed policy
    then skip_to fuel finished_ns period_ns deadline'
    else (deadline', 0)

module _ {Double : Type 0} ⦃ar : Arithmetic Double⦄ where
  unfoldable pub reset_stats : ExecutorStats Double → ExecutorStats Double
  reset_stats s = record {
    cycles_executed = 0;
    overruns = 0;
    skipped_cycles = 0;
    allocation_violations = 0;
    wakeup_jitter = empty_histogram;
    execution_time = empty_histogram;
    cycle_total = empty_histogram;
  }

  -- The body of the `for` loop, from the return of `sleepUntil` on.
  unfoldable pub cycle : OverrunPolicy → ℤ → ℕ → Loop Double → Reading → Loop Double × Outcome
  cycle policy period_ns index l r =
      let s : ExecutorStats Double = l.stats in
      let jitter_ns = r.woke_ns -ℤ l.deadline_ns in
      let overrun = not (ltb_ℤ r.finished_ns (l.deadline_ns +ℤ period_ns)) in
      let (next_ns, missed) = next_deadline policy period_ns r.finished_ns l.deadline_ns in
      (
        record {
          stats = record s {
            wakeup_jitter = record_one s.wakeup_jitter jitter_ns;
            execution_time = record_one s.execution_time (r.finished_ns -ℤ r.woke_ns);
            cycle_total = record_one s.cycle_total (r.finished_ns -ℤ l.deadline_ns);
            cycles_executed = u64 (s.cycles_executed + 1);
            overruns = if overrun then u64 (s.overruns + 1) else s.overruns;
            skipped_cycles = u64 (s.skipped_cycles + missed);
          };
          deadline_ns = next_ns;
        },
        record {
          context = record { index = index; wakeup_jitter_ns = jitter_ns; period_ns = period_ns };
          skipped = missed;
        },
      )

  -- The `for` loop, over the stop flag and the readings of each round, as far as these go.
  unfoldable pub loop :
      OverrunPolicy → ℤ → ℕ → ℕ → Loop Double → List (Bool × Reading) → Loop Double × List Outcome
  loop policy period_ns max_cycles index l [] = (l, [])
  loop policy period_ns max_cycles index l ((stop, r) ∷ rounds) =
      let (l', outcome) = cycle policy period_ns index l r in
      let (l'', outcomes) = loop policy period_ns max_cycles (u64 (index + 1)) l' rounds in
      if (max_cycles == 0 || ltb index max_cycles) && not stop
      then (l'', outcome ∷ outcomes)
      else (l, [])

  -- `run`, with the clock at its start and the counter of allocations before and after it.
  unfoldable pub run :
      ExecutorStats Double
      → OverrunPolicy
      → ℤ
      → ℕ
      → ℤ
      → List (Bool × Reading)
      → ℕ
      → ℕ
      → ExecutorStats Double × List Outcome
  run s policy period_ns max_cycles now_ns rounds violations_at_start violations_at_end =
      let (l, outcomes) =
        loop policy period_ns max_cycles 0 (record { stats = s; deadline_ns = now_ns +ℤ period_ns })
          rounds in
      let end : ExecutorStats Double = l.stats in
      if not (ltb_ℤ (pos 0) period_ns) then (s, []) else (
        record end {
          allocation_violations = u64 (violations_at_end + 2 ^ 64 - violations_at_start);
        },
        outcomes,
      )
