-- ===== src/Apps/Daemon/Tests.antt =====
-- A daemon at a thousand cycles per second, and one at ten.
use safeedge.Apps.Daemon.Slow.{start_control-IsReady, slow_frequency}
use safeedge.Apps.Daemon.Startup.{period_of}
use safeedge.Apps.Daemon.Telegrams.{Ready, run_accepts}
use safeedge.Apps.Daemon.Torque.{run-IsStopped, cycle_demand, IsStopped}
use safeedge.Apps.Daemon.Watcher.{
  run_watcher-appearances, takes, watches, appearances, at_rest, appears, run_watcher, Action,
}
use safeedge.Apps.Daemon.Transitions.{run_sequence, last_torque, last_state, changes}
use mathlib.Core.Option.{some}
use safeedge.Common.{
  inl, zero, suc, ℕ, ◌≤◌, ◌<◌, ◌+◌, ◌^◌, pos, true, false, List, [], ◌∷◌, All, ◌≡◌, refl, arith,
  u64,
}
use safeedge.Common.Decimal.{decimal_double, Decimal, whole}
use safeedge.Apps.Daemon.{Literals, Reading, Control, run, cycle, start_control}
use safeedge.Safety.BlackChannel.Telegram.{SafetyAddress}

abbrev literals : Literals Decimal
literals = record {
  ten = whole (pos 10);
  tenth = whole (pos 0);
  half = whole (pos 1);
  five = whole (pos 5);
  position_min = whole (pos 0);
  position_max = whole (pos 0);
  position = whole (pos 0);
}

abbrev address : SafetyAddress
address = record { source = 0x0011; destination = 0x2200; parameter_signature = 0xDEADBEEF }

abbrev reading : Reading
reading = record {
  estop = false;
  acknowledge = false;
  transition_ns = 100;
  statistics = record {
    cycles_executed = 0;
    overruns = 0;
    skipped_cycles = 0;
    allocation_violations = 0;
    jitter_p50 = pos 0;
    jitter_p99 = pos 0;
    jitter_p999 = pos 0;
    jitter_max = pos 0;
    execution_p50 = pos 0;
    execution_p99 = pos 0;
    execution_max = pos 0;
  };
  age_ns = 200;
  estop_again = false;
  uptime_ns = pos 300;
}

abbrev pressed : Reading
pressed = record reading { estop = true }

abbrev zeros : ℕ → List ℕ
zeros zero = []
zeros (suc n) = 0 ∷ zeros n

abbrev begin : Control Decimal
begin = start_control literals address (zeros 73) (zeros 64) 50

begin-IsReady : (period : ℕ) → Ready period 0 begin
begin-IsReady period =
    start_control-IsReady literals address (zeros 73) (zeros 64) 50 period refl (omega arith)

abbrev three : List Reading
three = reading ∷ pressed ∷ reading ∷ []

no_telegrams_before : begin.accepted + 3 < 2 ^ 64
unfolding start_control
no_telegrams_before = omega arith

run_accepts_example :
    let c' = (run literals true 1000000 0 three begin).0 in
    (c'.accepted ≡ begin.accepted + 3)
    × (c'.rejected ≡ begin.rejected)
    × (c'.receiver.safe_state ≡ false)
run_accepts_example =
    run_accepts literals true 1000000 0 three begin (omega arith) (begin-IsReady 1000000)
      no_telegrams_before

ten_per_second : period_of (pos 10) ≡ some 100000000
unfolding period_of
ten_per_second = refl

slow_frequency_example :
    All (λ s. s.torque_permitted ≡ 0) (run literals true 100000000 0 three begin).1
slow_frequency_example =
    slow_frequency literals 10 100000000 true three address (zeros 73) (zeros 64) 50 (omega arith)
      ten_per_second refl (omega arith)

cycle_demand_example :
    ((cycle literals true 1000000 0 pressed begin).1.torque_permitted ≡ 0)
    × IsStopped (cycle literals true 1000000 0 pressed begin).0
cycle_demand_example = cycle_demand literals true 1000000 0 pressed begin (inl refl)

-- After the emergency stop was pressed.
abbrev stopped : Control Decimal
stopped = (cycle literals true 1000000 0 pressed begin).0

stopped-IsStopped : IsStopped stopped
stopped-IsStopped = (cycle_demand literals true 1000000 0 pressed begin (inl refl)).1

run-IsStopped_example :
    All (λ s. s.torque_permitted ≡ 0) (run literals true 1000000 1 three stopped).1
    × IsStopped (run literals true 1000000 1 three stopped).0
run-IsStopped_example =
    run-IsStopped literals true 1000000 1 three stopped stopped-IsStopped (refl, (refl, (refl, tt)))

no_transitions_before : begin.safety_sequence < 2 ^ 64
unfolding start_control
no_transitions_before = omega arith

run_sequence_example :
    let (c', snapshots) = run literals true 1000000 0 three begin in
    c'.safety_sequence
    ≡ u64 (begin.safety_sequence + changes (last_state begin) (last_torque begin) snapshots)
run_sequence_example = run_sequence literals true 1000000 0 three begin no_transitions_before

-- One file, taken once, while the loop looks for it twice.
abbrev one_file : List Action
one_file = appears ∷ watches true ∷ takes ∷ watches true ∷ watches true ∷ takes ∷ takes ∷ []

taken_once : (run_watcher one_file at_rest).1 ≡ 1
unfolding run_watcher
taken_once = refl

run_watcher-appearances_example : (run_watcher one_file at_rest).1 ≤ appearances one_file
run_watcher-appearances_example =
    run_watcher-appearances one_file (tt, (refl, (tt, (refl, (refl, (tt, (tt, tt)))))))
