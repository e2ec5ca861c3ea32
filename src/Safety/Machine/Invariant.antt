-- ===== src/Safety/Machine/Invariant.antt =====
-- What one `evaluate` guarantees whatever came before: the latch, the unconditional demands, and
-- what has to hold for torque to be permitted.
use safeedge.Common.{
  sym, Bool-cases, inl, inr, ◌≡◌, ◌≢◌, true, false, if◌then◌else◌, FloatingPoint, arith,
}
use safeedge.Safety.Types.{
  SafetyState, self_test, no_fault, emergency_stop, communication_fault, watchdog_timeout, is_fault,
  SafetyInputs, SafetyOutputs,
}
use safeedge.Safety.Machine.{
  SafetyStateMachine, unconditional_demand_active, outputs_for, monitor_and_request, next_machine,
  evaluate,
}

-- A latched fault means that torque is off.
pub record IsValid {Double : Type 0} (m : SafetyStateMachine Double) : Type 0 where
  pub latched_off : is_fault m.fault ≡ true → m.state ≡ SafetyState.safe_torque_off

-- Every permission is withheld.
pub record IsDenied {Double : Type 0} (o : SafetyOutputs Double) : Type 0 where
  pub torque : o.torque_permitted ≡ false
  pub motion : o.motion_permitted ≡ false
  pub brake : o.brake_engaged ≡ true
  pub off : o.state ≡ SafetyState.safe_torque_off

-- What a cycle found before it permitted torque.
pub record TorqueConditions {Double : Type 0} (m : SafetyStateMachine Double)
    (i : SafetyInputs Double) (o : SafetyOutputs Double) : Type 0 where
  pub no_stop : i.emergency_stop_asserted ≡ false
  pub communication : i.communication_ok ≡ true
  pub heartbeat : i.heartbeat_ok ≡ true
  pub was_unlatched : m.fault ≡ no_fault
  pub is_unlatched : (o.fault ≡ no_fault) × (o.fault_latched ≡ false)
  pub was_tested : m.state ≢ self_test
  pub brake_released : o.brake_engaged ≡ false

module _ {Double : Type 0} ⦃fp : FloatingPoint Double⦄ where
  outputs_for-IsDenied :
      (m : SafetyStateMachine Double)
      → m.state ≡ SafetyState.safe_torque_off
      → IsDenied (outputs_for m m.state)
  unfolding outputs_for
  outputs_for-IsDenied m h = ground arith

  monitor_and_request-IsValid :
      (m : SafetyStateMachine Double) (i : SafetyInputs Double)
      → is_fault m.fault ≡ false
      → IsValid (monitor_and_request m i)
  unfolding monitor_and_request
  monitor_and_request-IsValid m i h = ground arith

  next_machine-IsValid :
      (m : SafetyStateMachine Double) (i : SafetyInputs Double) → IsValid (next_machine m i)
  unfolding next_machine
  next_machine-IsValid m i = elim (Bool-cases (is_fault m.fault)) [
    | inl e ↦ ground arith
    | inr e ↦ ground arith
  ]

  -- After any cycle, from any machine at all, a latched fault means that torque is off.
  pub evaluate-IsValid :
      (m : SafetyStateMachine Double) (i : SafetyInputs Double) → IsValid (evaluate m i).0
  unfolding evaluate
  evaluate-IsValid m i = next_machine-IsValid m i

  -- While an emergency stop, a communication fault or a missed heartbeat demands it, a cycle denies
  -- everything from every state and latches a fault: the fault that was latched before, or else the
  -- first of the three causes.
  pub evaluate-demand :
      (m : SafetyStateMachine Double) (i : SafetyInputs Double)
      → unconditional_demand_active i ≡ true
      → IsDenied (evaluate m i).1
        × ((evaluate m i).1.fault_latched ≡ true)
        × ((evaluate m i).1.fault ≡ (
            if is_fault m.fault
            then m.fault
            else (if i.emergency_stop_asserted
                then emergency_stop
                else (if i.communication_ok then watchdog_timeout else communication_fault))))
  unfolding evaluate
  evaluate-demand m i h = ground arith

  -- A cycle that starts with a latched fault, no demand being active, denies everything, and clears
  -- the fault exactly when it is acknowledged: an acknowledgement starts no motion.
  pub evaluate-latched :
      (m : SafetyStateMachine Double) (i : SafetyInputs Double)
      → is_fault m.fault ≡ true
      → unconditional_demand_active i ≡ false
      → IsDenied (evaluate m i).1
        × ((evaluate m i).0.fault ≡ (if i.acknowledge then no_fault else m.fault))
  unfolding evaluate
  evaluate-latched m i h d = ground arith

  monitor_and_request-no_fault :
      (m : SafetyStateMachine Double) (i : SafetyInputs Double)
      → is_fault m.fault ≡ false
      → (outputs_for (monitor_and_request m i) (monitor_and_request m i).state).torque_permitted
        ≡ true
      → ((monitor_and_request m i).fault ≡ no_fault)
        × (m.state ≢ self_test)
        × ((outputs_for (monitor_and_request m i) (monitor_and_request m i).state).brake_engaged
            ≡ false)
  unfolding monitor_and_request outputs_for
  monitor_and_request-no_fault m i h t = ground arith

  -- Torque is permitted only if the emergency stop is released, communication and heartbeat are
  -- healthy, no fault was latched before the cycle or is latched after it, and the self test was
  -- over before the cycle; then the brake is released.
  pub evaluate-torque :
      (m : SafetyStateMachine Double) (i : SafetyInputs Double)
      → (evaluate m i).1.torque_permitted ≡ true
      → TorqueConditions m i (evaluate m i).1
  unfolding evaluate
  evaluate-torque m i h = elim (Bool-cases (is_fault m.fault)) [
    | inl e ↦ ground arith
    | inr e ↦ ground (arith, monitor_and_request-no_fault m i)
  ]

  outputs_for-fault_latched :
      (m : SafetyStateMachine Double) (s : SafetyState)
      → (outputs_for m s).fault_latched ≡ is_fault m.fault
  unfolding outputs_for
  outputs_for-fault_latched m s = ground arith

  -- A cycle reports a latched fault just if it leaves one.
  pub evaluate-fault_latched :
      (m : SafetyStateMachine Double) (i : SafetyInputs Double)
      → is_fault (evaluate m i).0.fault ≡ (evaluate m i).1.fault_latched
  unfolding evaluate
  evaluate-fault_latched m i =
      sym (outputs_for-fault_latched (evaluate m i).0 (evaluate m i).0.state)
