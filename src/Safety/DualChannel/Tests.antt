-- ===== src/Safety/DualChannel/Tests.antt =====
-- Examples for the dual-channel supervisor.
use safeedge.Common.{◌≡◌, refl, true, false, [], ◌∷◌, pos, negsuc, arith, gt}
use safeedge.Common.Decimal.{Decimal, whole, decimal_double, lt_decimal}
use safeedge.Safety.Types.{
  no_restriction, safely_limited_speed, SafetyState, limited_speed, operational, no_fault,
  channel_discrepancy, SafetyLimits, SafetyInputs, SafetyOutputs,
}
use safeedge.Safety.Machine.{SafetyStateMachine, outputs_for}
use safeedge.Safety.Machine
use safeedge.Safety.Machine.Invariant.{TorqueConditions}
use safeedge.Safety.DualChannel.{DualChannelSupervisor, evaluate, run, combine}
use safeedge.Safety.DualChannel.Combine.{IsLimit, combine-outputs_for, combine-speed_limit}
use safeedge.Safety.DualChannel.Discrepancy.{
  IsBacked, evaluate_needs_both, ReportsDiscrepancy, run-ReportsDiscrepancy,
}

abbrev limits : SafetyLimits Decimal
limits = record {
  limited_speed = whole (pos 10);
  position_min = whole (pos 0);
  position_max = whole (pos 100);
  position_monitoring_enabled = false;
  standstill_window = whole (pos 2);
  standstill_speed = whole (pos 1);
  stop_time_limit_ns = pos 500;
}

abbrev channel_in : SafetyState → SafetyStateMachine Decimal
channel_in s = record {
  limits = limits;
  state = s;
  fault = no_fault;
  stop_started_ns = pos 0;
  standstill_reference = whole (pos 0);
}

abbrev slow : SafetyInputs Decimal
slow = record {
  speed_magnitude = whole (pos 5);
  position = whole (pos 51);
  emergency_stop_asserted = false;
  communication_ok = true;
  heartbeat_ok = true;
  self_test_passed = true;
  request = safely_limited_speed;
  acknowledge = false;
  timestamp_ns = pos 400;
}

abbrev fast : SafetyInputs Decimal
fast = record slow { speed_magnitude = whole (pos 11) }

abbrev unrestricted : SafetyInputs Decimal
unrestricted = record slow { request = no_restriction }

abbrev running : DualChannelSupervisor Decimal
running = record {
  config = record { limits = limits; discrepancy_tolerance_ns = pos 5 };
  channel_a = channel_in limited_speed;
  channel_b = channel_in limited_speed;
  disagreement_since_ns = negsuc 0;
  discrepancy_latched = false;
  diagnostics = record {
    disagreeing_cycles = 0;
    discrepancy_faults = 0;
    longest_disagreement_ns = pos 0;
  };
}

abbrev split : DualChannelSupervisor Decimal
split = record running { disagreement_since_ns = pos 10 }

abbrev forced : DualChannelSupervisor Decimal
forced = record split {
  discrepancy_latched = true;
  channel_a = record (channel_in SafetyState.safe_torque_off) { fault = channel_discrepancy };
}

running-IsBacked : IsBacked running
running-IsBacked = record { backed = λ e. cc }

evaluate_needs_both_example :
    TorqueConditions running.channel_b slow (Machine.evaluate running.channel_b slow).1
unfolding evaluate Machine.evaluate
evaluate_needs_both_example =
    (evaluate_needs_both running slow slow (pos 20) running-IsBacked refl).1

run-ReportsDiscrepancy_example :
    ReportsDiscrepancy forced ((slow, slow, pos 30) ∷ (slow, fast, pos 40) ∷ [])
    × ((run forced ((slow, slow, pos 30) ∷ (slow, fast, pos 40) ∷ [])).discrepancy_latched ≡ true)
unfolding Machine.evaluate
run-ReportsDiscrepancy_example =
    run-ReportsDiscrepancy forced ((slow, slow, pos 30) ∷ (slow, fast, pos 40) ∷ []) refl refl
      (refl, (refl, tt))

lt-asymmetric : (x y : Decimal) → lt_decimal x y ≡ true → lt_decimal y x ≡ false
lt-asymmetric x y h = ground arith

ten-IsLimit : IsLimit (whole (pos 10))
ten-IsLimit = record {
  asymmetric = lt-asymmetric;
  positive = refl;
  finite = refl;
  unbounded = refl;
}

combine-outputs_for_example :
    (combine
      (outputs_for (channel_in operational) operational)
      (outputs_for (channel_in limited_speed) limited_speed)).speed_limit
    ≡ whole (pos 10)
unfolding outputs_for
combine-outputs_for_example =
    (combine-outputs_for (channel_in operational) (channel_in limited_speed) operational
      limited_speed ten-IsLimit refl).3

abbrev permitted : SafetyOutputs Decimal
permitted = record {
  torque_permitted = true;
  motion_permitted = true;
  speed_limit = whole (pos 9);
  brake_engaged = false;
  state = limited_speed;
  fault = no_fault;
  fault_latched = false;
}

combine-speed_limit_example :
    let c = combine permitted (record permitted { speed_limit = whole (pos 4) }) in
    (gt c.speed_limit (whole (pos 9)) ≡ false) × (gt c.speed_limit (whole (pos 4)) ≡ false)
combine-speed_limit_example =
    combine-speed_limit permitted (record permitted { speed_limit = whole (pos 4) }) lt-asymmetric
