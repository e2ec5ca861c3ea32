-- ===== src/Safety/Machine/Tests.antt =====
-- Examples for the safety state machine, at whole-number speeds and positions.
use safeedge.Common.{◌-ℤ◌, ◌≡◌, refl, true, false, [], ◌∷◌, pos, gt}
use safeedge.Common.Decimal.{Decimal, nan, whole, minus_infinite, decimal_double}
use safeedge.Safety.Types.{
  SafetyFunction, no_restriction, safely_limited_speed, SafetyState, stopping, limited_speed,
  operational, no_fault, communication_fault, emergency_stop, SafetyLimits, SafetyInputs,
}
use safeedge.Safety.Machine.{SafetyStateMachine, power_on, evaluate, run}
use safeedge.Safety.Machine.Invariant.{
  IsDenied, TorqueConditions, evaluate-demand, evaluate-latched, evaluate-torque,
}
use safeedge.Safety.Machine.Monitors.{evaluate-stopping}
use safeedge.Safety.Machine.Transitions.{Transition, evaluate-Transition, DeniesAll, run-latched}
use safeedge.Safety.Machine.Gaps.{self_test_bypass, evaluate_unordered}

abbrev limits : SafetyLimits Decimal
limits = record {
  limited_speed = whole (pos 10);
  position_min = whole (pos 0);
  position_max = whole (pos 100);
  position_monitoring_enabled = true;
  standstill_window = whole (pos 2);
  standstill_speed = whole (pos 1);
  stop_time_limit_ns = pos 500;
}

abbrev machine_in : SafetyState → SafetyStateMachine Decimal
machine_in s = record {
  limits = limits;
  state = s;
  fault = no_fault;
  stop_started_ns = pos 100;
  standstill_reference = whole (pos 50);
}

abbrev latched : SafetyStateMachine Decimal
latched = record (machine_in SafetyState.safe_torque_off) { fault = communication_fault }

abbrev healthy : SafetyInputs Decimal
healthy = record {
  speed_magnitude = whole (pos 5);
  position = whole (pos 51);
  emergency_stop_asserted = false;
  communication_ok = true;
  heartbeat_ok = true;
  self_test_passed = false;
  request = no_restriction;
  acknowledge = false;
  timestamp_ns = pos 400;
}

abbrev pressed : SafetyInputs Decimal
pressed = record healthy { emergency_stop_asserted = true }

abbrev slow : SafetyInputs Decimal
slow = record healthy { request = safely_limited_speed }

abbrev standing : SafetyInputs Decimal
standing = record healthy {
  speed_magnitude = whole (pos 0);
  request = SafetyFunction.safe_operating_stop;
}

evaluate-demand_example :
    IsDenied (evaluate (machine_in operational) pressed).1
    × ((evaluate (machine_in operational) pressed).1.fault_latched ≡ true)
    × ((evaluate (machine_in operational) pressed).1.fault ≡ emergency_stop)
unfolding evaluate
evaluate-demand_example = evaluate-demand (machine_in operational) pressed refl

evaluate-latched_example :
    IsDenied (evaluate latched (record healthy { acknowledge = true })).1
    × ((evaluate latched (record healthy { acknowledge = true })).0.fault ≡ no_fault)
unfolding evaluate
evaluate-latched_example =
    evaluate-latched latched (record healthy { acknowledge = true }) refl refl

evaluate-torque_example :
    TorqueConditions
      (machine_in SafetyState.safe_torque_off)
      slow
      (evaluate (machine_in SafetyState.safe_torque_off) slow).1
unfolding evaluate
evaluate-torque_example = evaluate-torque (machine_in SafetyState.safe_torque_off) slow refl

evaluate-stopping_example : (evaluate (machine_in stopping) healthy).0 ≡ machine_in stopping
unfolding evaluate ◌-ℤ◌
evaluate-stopping_example = evaluate-stopping (machine_in stopping) healthy refl refl refl

evaluate-Transition_example :
    Transition limited_speed (evaluate (machine_in limited_speed) healthy).1.state
evaluate-Transition_example = evaluate-Transition (machine_in limited_speed) healthy

run-latched_example :
    ((run latched (healthy ∷ pressed ∷ slow ∷ [])).fault ≡ communication_fault)
    × DeniesAll latched (healthy ∷ pressed ∷ slow ∷ [])
unfolding evaluate
run-latched_example =
    run-latched latched (healthy ∷ pressed ∷ slow ∷ []) refl (refl, (refl, (refl, tt)))

self_test_bypass_example :
    let o =
      (evaluate
        (run (power_on limits) (pressed ∷ record healthy { acknowledge = true } ∷ []))
        healthy).1 in
    (o.torque_permitted ≡ true) × (o.motion_permitted ≡ true)
unfolding evaluate
self_test_bypass_example =
    self_test_bypass limits pressed (record healthy { acknowledge = true }) healthy refl refl refl
      refl refl

abbrev outside : SafetyInputs Decimal
outside = record healthy { position = minus_infinite }

-- Above the band.
abbrev beyond : SafetyInputs Decimal
beyond = record healthy { position = whole (pos 101) }

abbrev unmeasured : SafetyInputs Decimal
unmeasured = record slow { speed_magnitude = nan }

gt-nan : (d : Decimal) → gt {Double = Decimal} nan d ≡ false
gt-nan nan = refl
gt-nan _ = refl

le-nan : (d : Decimal) → decimal_double.le nan d ≡ false
le-nan nan = refl
le-nan _ = refl

evaluate_unordered_example :
    evaluate (machine_in limited_speed) unmeasured
    ≡ evaluate (machine_in limited_speed) (record unmeasured { speed_magnitude = whole (pos 0) })
evaluate_unordered_example =
    evaluate_unordered (machine_in limited_speed) unmeasured (whole (pos 0)) (whole (pos 5)) gt-nan
      le-nan refl refl refl
