-- ===== src/Rt/Guard/Tests.antt =====
-- Examples for the allocation guard.
use safeedge.Common.{refl, arith, ◌≡◌, true}
use safeedge.Rt.Guard.Scopes.Execution.{execute-reported}
use safeedge.Rt.Guard.{
  aborted, abort, running, enter_no_alloc, count_violation, report_violation, note_allocation,
  Guard, ignore,
}
use safeedge.Rt.Guard.Scopes.{
  largest, forbidden, reported, Code, done, allocates, without_alloc, with_alloc, execute,
}

abbrev fresh : Guard
fresh = record {
  no_alloc_depth = 0;
  allow_depth = 0;
  report = record { violations = 0; largest_bytes = 0 };
  policy = ignore;
  installed = true;
}

-- Of four allocations, the second and the last one are forbidden.
abbrev program : Code
program =
    allocates 8
      (without_alloc (allocates 16 (with_alloc (allocates 32 done) (allocates 64 done))) done)

execute-reported_example :
    execute program fresh
    ≡ running (record fresh { report = record { violations = 2; largest_bytes = 64 } })
unfolding reported forbidden largest
execute-reported_example = execute-reported program fresh (omega arith)

-- The default policy ends the process at the first of them.
default_aborts :
    execute program (record fresh { policy = abort })
    ≡ aborted (record { violations = 1; largest_bytes = 16 })
unfolding execute note_allocation report_violation count_violation enter_no_alloc
default_aborts = refl
