-- ===== src/Safety/Machine.antt =====
-- src/safety/safety_state_machine.cpp: the IEC 61800-5-2 supervisor. A method that changes the
-- machine returns the new one.
pub mod Invariant
pub mod Monitors
pub mod Transitions
pub mod Gaps
pub mod Names
mod Tests
use safeedge.Common.{
  List, [], ◌∷◌, Bool, true, false, not, ◌&&◌, ◌||◌, ℤ, pos, ◌-ℤ◌, ltb_ℤ, if◌then◌else◌,
  FloatingPoint, gt,
}
use safeedge.Safety.Types.{
  SafetyFunction, no_restriction, safe_stop1, safe_operating_stop, safely_limited_speed,
  SafetyState, self_test, stopping, operating_stop, limited_speed, operational, FaultReason,
  no_fault, emergency_stop, speed_limit_exceeded, position_limit_exceeded, standstill_deviation,
  stop_time_exceeded, communication_fault, watchdog_timeout, invalid_request, is_fault,
  SafetyLimits, SafetyInputs, SafetyOutputs,
}

pub record SafetyStateMachine (Double : Type 0) : Type 0 where
  pub limits : SafetyLimits Double
  pub state : SafetyState
  pub fault : FaultReason
  pub stop_started_ns : ℤ
  pub standstill_reference : Double

-- How a part of `evaluate` ends: by its `return`, or by falling through.
pub data Flow (A : Type 0) : Type 0 where
  returns proceeds : A → Flow A

-- `state_ == SafetyState::kOperational || state_ == SafetyState::kLimitedSpeed`.
abbrev pub in_motion : SafetyState → Bool
in_motion operational = true
in_motion limited_speed = true
in_motion _ = false

module _ {Double : Type 0} ⦃fp : FloatingPoint Double⦄ where
  -- The constructor.
  unfoldable pub power_on : SafetyLimits Double → SafetyStateMachine Double
  power_on l = record {
    limits = l;
    state = self_test;
    fault = no_fault;
    stop_started_ns = pos 0;
    standstill_reference = fp.zero_value;
  }

  unfoldable pub reset : SafetyStateMachine Double → SafetyStateMachine Double
  reset m = record m {
    state = self_test;
    fault = no_fault;
    stop_started_ns = pos 0;
    standstill_reference = fp.zero_value;
  }

  unfoldable pub set_limits :
      SafetyStateMachine Double → SafetyLimits Double → SafetyStateMachine Double
  set_limits m l = record m { limits = l }

  unfoldable pub fault_latched : SafetyStateMachine Double → Bool
  fault_latched m = is_fault m.fault

  unfoldable pub enter_safe_torque_off :
      SafetyStateMachine Double → FaultReason → SafetyStateMachine Double
  enter_safe_torque_off m reason = record m {
    state = SafetyState.safe_torque_off;
    fault = if is_fault reason && not (is_fault m.fault) then reason else m.fault;
  }

  unfoldable pub force_fault : SafetyStateMachine Double → FaultReason → SafetyStateMachine Double
  unfolding enter_safe_torque_off
  force_fault m reason = enter_safe_torque_off m reason

  unfoldable pub unconditional_demand_active : SafetyInputs Double → Bool
  unconditional_demand_active i =
      i.emergency_stop_asserted || not i.communication_ok || not i.heartbeat_ok

  unfoldable pub unconditional_demand_reason : SafetyInputs Double → FaultReason
  unconditional_demand_reason i =
      if i.emergency_stop_asserted
      then emergency_stop
      else (if not i.communication_ok
          then communication_fault
          else (if not i.heartbeat_ok then watchdog_timeout else no_fault))

  -- The `switch` of `outputsFor`, over outputs whose report fields are set.
  outputs_switch : SafetyState → SafetyLimits Double → SafetyOutputs Double → SafetyOutputs Double
  outputs_switch SafetyState.safe_torque_off l o = record o {
    torque_permitted = false;
    motion_permitted = false;
    speed_limit = fp.zero_value;
    brake_engaged = true;
  }
  outputs_switch self_test l o = record o {
    torque_permitted = false;
    motion_permitted = false;
    speed_limit = fp.zero_value;
    brake_engaged = true;
  }
  outputs_switch stopping l o = record o {
    torque_permitted = true;
    motion_permitted = false;
    speed_limit = fp.zero_value;
    brake_engaged = false;
  }
  outputs_switch operating_stop l o = record o {
    torque_permitted = true;
    motion_permitted = false;
    speed_limit = fp.zero_value;
    brake_engaged = false;
  }
  outputs_switch limited_speed l o = record o {
    torque_permitted = true;
    motion_permitted = true;
    speed_limit = l.limited_speed;
    brake_engaged = false;
  }
  outputs_switch operational l o = record o {
    torque_permitted = true;
    motion_permitted = true;
    speed_limit = fp.infinity;
    brake_engaged = false;
  }

  -- A default-constructed `SafetyOutputs`.
  unfoldable pub default_outputs : SafetyOutputs Double
  default_outputs = record {
    torque_permitted = false;
    motion_permitted = false;
    speed_limit = fp.zero_value;
    brake_engaged = true;
    state = SafetyState.safe_torque_off;
    fault = no_fault;
    fault_latched = false;
  }

  unfoldable pub outputs_for : SafetyStateMachine Double → SafetyState → SafetyOutputs Double
  unfolding outputs_switch default_outputs
  outputs_for m s =
      outputs_switch s m.limits
        (record default_outputs { state = s; fault = m.fault; fault_latched = is_fault m.fault })

  -- The `switch` of part 3.
  monitor_state :
      SafetyState
      → SafetyStateMachine Double
      → SafetyInputs Double
      → Flow (SafetyStateMachine Double)
  unfolding enter_safe_torque_off
  monitor_state self_test m i =
      if not i.self_test_passed
      then returns m
      else returns (record m { state = SafetyState.safe_torque_off })
  monitor_state limited_speed m i =
      if gt i.speed_magnitude m.limits.limited_speed
      then returns (enter_safe_torque_off m speed_limit_exceeded)
      else proceeds m
  monitor_state operating_stop m i =
      if gt (fp.fabs (fp.sub i.position m.standstill_reference)) m.limits.standstill_window
      then returns (enter_safe_torque_off m standstill_deviation)
      else (if gt i.speed_magnitude m.limits.standstill_speed
          then returns (enter_safe_torque_off m standstill_deviation)
          else proceeds m)
  monitor_state stopping m i =
      if fp.le i.speed_magnitude m.limits.standstill_speed
      then returns (enter_safe_torque_off m no_fault)
      else (if ltb_ℤ m.limits.stop_time_limit_ns (i.timestamp_ns -ℤ m.stop_started_ns)
          then returns (enter_safe_torque_off m stop_time_exceeded)
          else returns m)
  monitor_state SafetyState.safe_torque_off m i = proceeds m
  monitor_state operational m i = proceeds m

  -- The position band of part 3.
  monitor_position :
      SafetyStateMachine Double → SafetyInputs Double → Flow (SafetyStateMachine Double)
  unfolding enter_safe_torque_off
  monitor_position m i =
      if m.limits.position_monitoring_enabled && in_motion m.state
      then (if fp.lt i.position m.limits.position_min || gt i.position m.limits.position_max
          then returns (enter_safe_torque_off m position_limit_exceeded)
          else proceeds m)
      else proceeds m

  -- `case kSafeStop1` of part 4, by `state_`.
  request_stop1 :
      SafetyState → SafetyStateMachine Double → SafetyInputs Double → SafetyStateMachine Double
  request_stop1 operational m i = record m { state = stopping; stop_started_ns = i.timestamp_ns }
  request_stop1 limited_speed m i = record m { state = stopping; stop_started_ns = i.timestamp_ns }
  request_stop1 operating_stop m i = record m { state = stopping; stop_started_ns = i.timestamp_ns }
  request_stop1 SafetyState.safe_torque_off m i = record m { state = SafetyState.safe_torque_off }
  request_stop1 _ m i = m

  -- `case kSafeOperatingStop` of part 4.
  request_operating_stop :
      SafetyState → SafetyStateMachine Double → SafetyInputs Double → SafetyStateMachine Double
  unfolding enter_safe_torque_off
  request_operating_stop SafetyState.safe_torque_off m i = enter_safe_torque_off m invalid_request
  request_operating_stop s m i =
      if in_motion s
      then (if gt i.speed_magnitude m.limits.standstill_speed
          then enter_safe_torque_off m invalid_request
          else record m { state = operating_stop; standstill_reference = i.position })
      else m

  -- `state_ == kSafeTorqueOff || state_ == kOperational || state_ == kOperatingStop`.
  request_limited_speed :
      SafetyState → SafetyStateMachine Double → SafetyInputs Double → SafetyStateMachine Double
  unfolding enter_safe_torque_off
  request_limited_speed limited_speed m i = m
  request_limited_speed self_test m i = m
  request_limited_speed stopping m i = m
  request_limited_speed _ m i =
      if gt i.speed_magnitude m.limits.limited_speed
      then enter_safe_torque_off m speed_limit_exceeded
      else record m { state = limited_speed }

  -- `case kNone` of part 4.
  request_no_restriction : SafetyState → SafetyStateMachine Double → SafetyStateMachine Double
  request_no_restriction SafetyState.safe_torque_off m = record m { state = operational }
  request_no_restriction limited_speed m = record m { state = operational }
  request_no_restriction operating_stop m = record m { state = operational }
  request_no_restriction _ m = m

  -- The `switch` of part 4.
  request_transition :
      SafetyFunction → SafetyStateMachine Double → SafetyInputs Double → SafetyStateMachine Double
  unfolding enter_safe_torque_off request_stop1 request_operating_stop request_limited_speed
      request_no_restriction
  request_transition SafetyFunction.safe_torque_off m i = enter_safe_torque_off m no_fault
  request_transition safe_stop1 m i = request_stop1 m.state m i
  request_transition safe_operating_stop m i = request_operating_stop m.state m i
  request_transition safely_limited_speed m i = request_limited_speed m.state m i
  request_transition no_restriction m i = request_no_restriction m.state m

  -- Parts 3 and 4, which run when there is neither a demand nor a latched fault.
  monitor_and_request : SafetyStateMachine Double → SafetyInputs Double → SafetyStateMachine Double
  unfolding monitor_state monitor_position request_transition
  monitor_and_request m i = elim (monitor_state m.state m i) [
    | returns m' ↦ m'
    | proceeds m' ↦ elim (monitor_position m' i) [
      | returns m'' ↦ m''
      | proceeds m'' ↦ request_transition i.request m'' i
    ]
  ]

  -- The machine after `evaluate`.
  next_machine : SafetyStateMachine Double → SafetyInputs Double → SafetyStateMachine Double
  unfolding unconditional_demand_active unconditional_demand_reason enter_safe_torque_off
      monitor_and_request
  next_machine m i =
      if unconditional_demand_active i
      then enter_safe_torque_off m (unconditional_demand_reason i)
      else (if is_fault m.fault
          then record m {
            state = SafetyState.safe_torque_off;
            fault = if i.acknowledge then no_fault else m.fault;
          }
          else monitor_and_request m i)

  -- Every `return` of the source is `outputsFor(state_)` of the machine as it then is.
  unfoldable pub evaluate :
      SafetyStateMachine Double
      → SafetyInputs Double
      → SafetyStateMachine Double × SafetyOutputs Double
  unfolding next_machine outputs_for
  evaluate m i = let m' = next_machine m i in (m', outputs_for m' m'.state)

  -- The machine after each of a list of inputs in turn.
  unfoldable pub run :
      SafetyStateMachine Double → List (SafetyInputs Double) → SafetyStateMachine Double
  run m [] = m
  run m (i ∷ is) = run (evaluate m i).0 is
