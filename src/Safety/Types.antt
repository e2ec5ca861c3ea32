-- ===== src/Safety/Types.antt =====
-- The data of include/safeedge/safety/safety_state_machine.hpp.
use safeedge.Common.{ℕ, ◌==◌, ◌≡◌, Bool, true, false, ℤ, ltb, if◌then◌else◌, arith}

-- `kNone` is `no_restriction`.
pub data SafetyFunction : Type 0 where
  no_restriction safe_torque_off safe_stop1 safe_operating_stop safely_limited_speed :
      SafetyFunction

pub data SafetyState : Type 0 where
  safe_torque_off self_test stopping operating_stop limited_speed operational : SafetyState

-- `kNone` is `no_fault`.
pub data FaultReason : Type 0 where
  no_fault self_test_failed emergency_stop speed_limit_exceeded position_limit_exceeded :
      FaultReason
  standstill_deviation stop_time_exceeded communication_fault watchdog_timeout : FaultReason
  channel_discrepancy invalid_request : FaultReason

-- The value of the enumerator; lower is more restrictive.
abbrev pub rank : SafetyState → ℕ
rank SafetyState.safe_torque_off = 0
rank self_test = 1
rank stopping = 2
rank operating_stop = 3
rank limited_speed = 4
rank operational = 5

-- `a == b` on states.
abbrev pub same_state : SafetyState → SafetyState → Bool
same_state a b = rank a == rank b

-- `std::min` on states.
abbrev pub min_state : SafetyState → SafetyState → SafetyState
min_state a b = if ltb (rank b) (rank a) then b else a

-- `reason != FaultReason::kNone`.
abbrev pub is_fault : FaultReason → Bool
is_fault no_fault = false
is_fault _ = true

pub record SafetyLimits (Double : Type 0) : Type 0 where
  pub limited_speed : Double
  pub position_min : Double
  pub position_max : Double
  pub position_monitoring_enabled : Bool
  pub standstill_window : Double
  pub standstill_speed : Double
  pub stop_time_limit_ns : ℤ

pub record SafetyInputs (Double : Type 0) : Type 0 where
  pub speed_magnitude : Double
  pub position : Double
  pub emergency_stop_asserted : Bool
  pub communication_ok : Bool
  pub heartbeat_ok : Bool
  pub self_test_passed : Bool
  pub request : SafetyFunction
  pub acknowledge : Bool
  pub timestamp_ns : ℤ

pub record SafetyOutputs (Double : Type 0) : Type 0 where
  pub torque_permitted : Bool
  pub motion_permitted : Bool
  pub speed_limit : Double
  pub brake_engaged : Bool
  pub state : SafetyState
  pub fault : FaultReason
  pub fault_latched : Bool

pub rank-injective : (a b : SafetyState) → rank a ≡ rank b → a ≡ b
rank-injective a b h = ground arith
