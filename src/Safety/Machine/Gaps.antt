-- ===== src/Safety/Machine/Gaps.antt =====
-- Where the self test and the monitors of src/safety/safety_state_machine.cpp leave a gap, beside
-- what they do guarantee.
use safeedge.Common.{
  Bool, All, ◌≡◌, refl, true, false, List, [], ◌∷◌, FloatingPoint, gt, if◌then◌else◌, arith,
}
use safeedge.Safety.Types.{
  stopping, SafetyState, self_test, no_restriction, no_fault, SafetyInputs, SafetyLimits,
}
use safeedge.Safety.Machine.{
  SafetyStateMachine, power_on, unconditional_demand_active, evaluate, run,
}

-- The machine is in SS1.
abbrev pub is_stopping : SafetyState → Bool
is_stopping stopping = true
is_stopping _ = false

module _ {Double : Type 0} ⦃fp : FloatingPoint Double⦄ where
  -- No cycle of the list reports a passed self test, and none demands a stop.
  abbrev pub Untested : List (SafetyInputs Double) → Type 0
  Untested = All λ (i : SafetyInputs Double).
      (i.self_test_passed ≡ false) × (unconditional_demand_active i ≡ false)

  untested_step :
      (m : SafetyStateMachine Double) (i : SafetyInputs Double)
      → m.state ≡ self_test
      → m.fault ≡ no_fault
      → i.self_test_passed ≡ false
      → unconditional_demand_active i ≡ false
      → (evaluate m i).0 ≡ m
  unfolding evaluate
  untested_step m i s f t d = ground arith

  -- As long as no cycle demands a stop and the self test has not passed, the machine stays as it was
  -- in the self test, whatever is requested.
  pub run-Untested :
      (m : SafetyStateMachine Double) (is : List (SafetyInputs Double))
      → m.state ≡ self_test
      → m.fault ≡ no_fault
      → Untested is
      → run m is ≡ m
  unfolding run
  run-Untested m [] s f u = refl
  run-Untested m (i ∷ is) s f u = rw (untested_step m i s f u.0.0 u.0.1) (run-Untested m is s f u.1)

  -- But one cycle with a demand and one with an acknowledgement lead past the self test: after
  -- power-on, such a pair is enough for the next demand-free request for unrestricted motion to be
  -- granted, whether the self test has passed in any of the three cycles or not.
  pub self_test_bypass :
      (l : SafetyLimits Double) (demanded acknowledged requested : SafetyInputs Double)
      → unconditional_demand_active demanded ≡ true
      → unconditional_demand_active acknowledged ≡ false
      → acknowledged.acknowledge ≡ true
      → unconditional_demand_active requested ≡ false
      → requested.request ≡ no_restriction
      → let o = (evaluate (run (power_on l) (demanded ∷ acknowledged ∷ [])) requested).1 in
        (o.torque_permitted ≡ true) × (o.motion_permitted ≡ true)
  unfolding evaluate power_on run
  self_test_bypass l i j k di dj aj dk rk = ground arith

  -- A measured speed that no comparison finds above or below anything, such as a NaN, is taken for
  -- a standstill: in every state but SS1, and whatever is requested, the cycle is the one that would
  -- be run at a speed `slow` within the limits of SLS and of standstill. Only in SS1 it is taken for a
  -- speed `fast` above standstill, so that the stop does not end early.
  pub evaluate_unordered :
      (m : SafetyStateMachine Double) (i : SafetyInputs Double) (slow fast : Double)
      → ((d : Double) → gt i.speed_magnitude d ≡ false)
      → ((d : Double) → fp.le i.speed_magnitude d ≡ false)
      → gt slow m.limits.limited_speed ≡ false
      → gt slow m.limits.standstill_speed ≡ false
      → fp.le fast m.limits.standstill_speed ≡ false
      → evaluate m i
        ≡ evaluate m (record i { speed_magnitude = if is_stopping m.state then fast else slow })
  unfolding evaluate
  evaluate_unordered m i slow fast g l a b c =
      ground
        (arith, g m.limits.limited_speed, g m.limits.standstill_speed, l m.limits.standstill_speed)
