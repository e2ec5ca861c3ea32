-- ===== src/Safety/Machine/Names.antt =====
-- The three `toString` of src/safety/safety_state_machine.cpp. The `"?"` behind each `switch` is
-- for values outside the enumeration, which the data types do not have.
use Prim.Native.String.{String}
use text.Mathlib.Text.{◌==◌}
use safeedge.Common.{ap, ◌≡◌, refl, if◌then◌else◌}
use safeedge.Safety.Types.{
  SafetyFunction, no_restriction, safe_stop1, safe_operating_stop, safely_limited_speed,
  SafetyState, self_test, stopping, operating_stop, limited_speed, operational, FaultReason,
  no_fault, self_test_failed, emergency_stop, speed_limit_exceeded, position_limit_exceeded,
  standstill_deviation, stop_time_exceeded, communication_fault, watchdog_timeout,
  channel_discrepancy, invalid_request,
}

pub state_name : SafetyState → String
state_name self_test = "SelfTest"
state_name SafetyState.safe_torque_off = "STO"
state_name stopping = "SS1-Stopping"
state_name operating_stop = "SOS"
state_name limited_speed = "SLS"
state_name operational = "Operational"

pub fault_name : FaultReason → String
fault_name no_fault = "none"
fault_name self_test_failed = "self-test failed"
fault_name emergency_stop = "emergency stop"
fault_name speed_limit_exceeded = "speed limit exceeded"
fault_name position_limit_exceeded = "position limit exceeded"
fault_name standstill_deviation = "standstill deviation"
fault_name stop_time_exceeded = "stop time exceeded"
fault_name communication_fault = "communication fault"
fault_name watchdog_timeout = "watchdog timeout"
fault_name channel_discrepancy = "channel discrepancy"
fault_name invalid_request = "invalid request"

pub function_name : SafetyFunction → String
function_name no_restriction = "none"
function_name SafetyFunction.safe_torque_off = "STO"
function_name safe_stop1 = "SS1"
function_name safe_operating_stop = "SOS"
function_name safely_limited_speed = "SLS"

-- Left inverses, which show that no two names of one kind agree.
read_state : String → SafetyState
read_state s =
    if s == "SelfTest"
    then self_test
    else (if s == "SS1-Stopping"
        then stopping
        else (if s == "SOS"
            then operating_stop
            else (if s == "SLS"
                then limited_speed
                else (if s == "Operational" then operational else SafetyState.safe_torque_off))))

read_fault : String → FaultReason
read_fault s =
    if s == "self-test failed"
    then self_test_failed
    else (if s == "emergency stop"
        then emergency_stop
        else (if s == "speed limit exceeded"
            then speed_limit_exceeded
            else (if s == "position limit exceeded"
                then position_limit_exceeded
                else (if s == "standstill deviation"
                    then standstill_deviation
                    else (if s == "stop time exceeded"
                        then stop_time_exceeded
                        else (if s == "communication fault"
                            then communication_fault
                            else (if s == "watchdog timeout"
                                then watchdog_timeout
                                else (if s == "channel discrepancy"
                                    then channel_discrepancy
                                    else (if s == "invalid request"
                                        then invalid_request
                                        else no_fault)))))))))

read_function : String → SafetyFunction
read_function s =
    if s == "STO"
    then SafetyFunction.safe_torque_off
    else (if s == "SS1"
        then safe_stop1
        else (if s == "SOS"
            then safe_operating_stop
            else (if s == "SLS" then safely_limited_speed else no_restriction)))

read_state-state_name : (s : SafetyState) → read_state (state_name s) ≡ s
unfolding read_state state_name
read_state-state_name self_test = refl
read_state-state_name _ = refl

read_fault-fault_name : (r : FaultReason) → read_fault (fault_name r) ≡ r
unfolding read_fault fault_name
read_fault-fault_name no_fault = refl
read_fault-fault_name _ = refl

read_function-function_name : (f : SafetyFunction) → read_function (function_name f) ≡ f
unfolding read_function function_name
read_function-function_name no_restriction = refl
read_function-function_name _ = refl

-- A log line tells any two states, any two fault reasons and any two safety functions apart.
pub names_injective :
    ((a b : SafetyState) → state_name a ≡ state_name b → a ≡ b)
    × ((a b : FaultReason) → fault_name a ≡ fault_name b → a ≡ b)
    × ((a b : SafetyFunction) → function_name a ≡ function_name b → a ≡ b)
names_injective = (
  (λ a b e. cc (read_state-state_name a, read_state-state_name b, ap read_state e)),
  (λ a b e. cc (read_fault-fault_name a, read_fault-fault_name b, ap read_fault e)),
  λ a b e. cc (read_function-function_name a, read_function-function_name b, ap read_function e),
)
