-- ===== src/Rt/Executor/Tests.antt =====
-- Examples for the cyclic executor.
use safeedge.Common.{ℕ, ◌≡◌, ◌⊎◌, arith, pos, ◌+ℤ◌, ◌<ℤ◌, ◌≤ℤ◌, Bool, false, List, [], ◌∷◌}
use safeedge.Rt.Histogram.{LatencyHistogram}
use safeedge.Rt.Histogram.Tests.{thousandths}
use safeedge.Rt.Executor.{Loop, Reading, skip_missed, next_deadline, loop}
use safeedge.Rt.Executor.Cadence.{grid, periods, next_deadline-future, loop-grid}

abbrev blank : LatencyHistogram ℕ
blank = record { buckets = []; count = 0; sum = 0; max_value = pos 0; min_value = pos 0 }

abbrev start : Loop ℕ
start = record {
  stats = record {
    cycles_executed = 0;
    overruns = 0;
    skipped_cycles = 0;
    allocation_violations = 0;
    wakeup_jitter = blank;
    execution_time = blank;
    cycle_total = blank;
  };
  deadline_ns = pos 1000;
}

-- The first cycle finishes in time, the second one misses two deadlines.
abbrev rounds : List (Bool × Reading)
rounds =
    (false, record { woke_ns = pos 1010; finished_ns = pos 1500 })
    ∷ (false, record { woke_ns = pos 2010; finished_ns = pos 4500 })
    ∷ []

next_deadline-future_example :
    (pos 4500 <ℤ (next_deadline skip_missed (pos 1000) (pos 4500) (pos 2000)).0)
    × (((next_deadline skip_missed (pos 1000) (pos 4500) (pos 2000)).0 ≡ pos 2000 +ℤ pos 1000)
        ⊎ ((next_deadline skip_missed (pos 1000) (pos 4500) (pos 2000)).0 ≤ℤ pos 4500 +ℤ pos 1000))
next_deadline-future_example = next_deadline-future 1000 (pos 4500) (pos 2000) (omega arith)

loop-grid_example :
    let (l', outcomes) = loop skip_missed (pos 1000) 0 0 start rounds in
    l'.deadline_ns ≡ grid (pos 1000) 1000 (periods outcomes)
loop-grid_example = loop-grid skip_missed 1000 0 0 start rounds
