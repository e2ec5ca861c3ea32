-- ===== src/Safety/Machine/Monitors.antt =====
-- The monitors of part 3 of `evaluate`: the speed limit of SLS, the standstill of SOS, the time
-- limit of SS1 and the position band.
use safeedge.Common.{
  ◌&&◌, not, Bool, ◌||◌, refl, subst, All, ◌≡◌, ◌≢◌, true, false, List, [], ◌∷◌, ◌-ℤ◌, ltb_ℤ,
  if◌then◌else◌, FloatingPoint, gt, arith,
}
use safeedge.Safety.Types.{
  is_fault, SafetyFunction, SafetyState, stopping, operating_stop, limited_speed, no_fault,
  stop_time_exceeded, SafetyInputs,
}
use safeedge.Safety.Machine.{
  is_fault, SafetyFunction, safe_operating_stop, run, SafetyStateMachine, in_motion,
  unconditional_demand_active, evaluate,
}

module _ {Double : Type 0} ⦃fp : FloatingPoint Double⦄ where
  -- Whenever a cycle ends in SLS, on entry or on staying, the measured speed does not exceed the
  -- speed limit that the outputs report.
  pub evaluate-limited_speed :
      (m : SafetyStateMachine Double) (i : SafetyInputs Double)
      → (evaluate m i).1.state ≡ limited_speed
      → gt i.speed_magnitude (evaluate m i).1.speed_limit ≡ false
  unfolding evaluate
  evaluate-limited_speed m i h = ground arith

  -- A cycle that starts and ends in SOS keeps the standstill reference, and finds the axis at
  -- standstill speed and inside the window round the reference.
  pub evaluate-operating_stop :
      (m : SafetyStateMachine Double) (i : SafetyInputs Double)
      → m.state ≡ operating_stop
      → (evaluate m i).1.state ≡ operating_stop
      → ((evaluate m i).0.standstill_reference ≡ m.standstill_reference)
        × (gt i.speed_magnitude m.limits.standstill_speed ≡ false)
        × (gt (fp.fabs (fp.sub i.position m.standstill_reference)) m.limits.standstill_window
            ≡ false)
  unfolding evaluate
  evaluate-operating_stop m i s h = ground arith

  -- A cycle that enters SOS was in motion before, was asked for SOS, found the axis at standstill
  -- speed, and takes its position as the reference.
  pub evaluate_enters_operating_stop :
      (m : SafetyStateMachine Double) (i : SafetyInputs Double)
      → m.state ≢ operating_stop
      → (evaluate m i).1.state ≡ operating_stop
      → (in_motion m.state ≡ true)
        × (i.request ≡ safe_operating_stop)
        × (gt i.speed_magnitude m.limits.standstill_speed ≡ false)
        × ((evaluate m i).0.standstill_reference ≡ i.position)
  unfolding evaluate
  evaluate_enters_operating_stop m i s h = ground arith

  -- A cycle that finds the machine in motion with band monitoring on permits motion only at a
  -- position inside the band.
  pub evaluate-position :
      (m : SafetyStateMachine Double) (i : SafetyInputs Double)
      → in_motion m.state ≡ true
      → m.limits.position_monitoring_enabled ≡ true
      → (evaluate m i).1.motion_permitted ≡ true
      → (fp.lt i.position m.limits.position_min ≡ false)
        × (gt i.position m.limits.position_max ≡ false)
  unfolding evaluate
  evaluate-position m i h e p = ground arith

  -- With band monitoring on, the position is below or above the band.
  abbrev pub IsOutside : SafetyStateMachine Double → SafetyInputs Double → Type 0
  IsOutside m i =
      (m.limits.position_monitoring_enabled ≡ true)
      × ((fp.lt i.position m.limits.position_min || gt i.position m.limits.position_max) ≡ true)

  -- The machine stands: in STO, or in SOS with the axis at standstill speed inside the window.
  abbrev pub stands : SafetyState → SafetyStateMachine Double → SafetyInputs Double → Bool
  stands SafetyState.safe_torque_off m i = true
  stands operating_stop m i =
      not (gt (fp.fabs (fp.sub i.position m.standstill_reference)) m.limits.standstill_window)
      && not (gt i.speed_magnitude m.limits.standstill_speed)
  stands _ m i = false

  -- The request is for motion that a standing machine is granted.
  abbrev pub asks_for_motion :
      SafetyFunction → SafetyStateMachine Double → SafetyInputs Double → Bool
  asks_for_motion SafetyFunction.no_restriction m i = true
  asks_for_motion SafetyFunction.safely_limited_speed m i =
      not (gt i.speed_magnitude m.limits.limited_speed)
  asks_for_motion _ m i = false

  -- One cycle of SS1 with no demand and no fault: whatever is requested, a standstill ends it in STO
  -- with no fault, running over the time limit ends it in STO with a fault, and otherwise the
  -- machine is unchanged.
  pub evaluate-stopping :
      (m : SafetyStateMachine Double) (i : SafetyInputs Double)
      → m.state ≡ stopping
      → m.fault ≡ no_fault
      → unconditional_demand_active i ≡ false
      → (evaluate m i).0 ≡ (
          if fp.le i.speed_magnitude m.limits.standstill_speed
          then record m { state = SafetyState.safe_torque_off }
          else (if ltb_ℤ m.limits.stop_time_limit_ns (i.timestamp_ns -ℤ m.stop_started_ns)
              then record m { state = SafetyState.safe_torque_off; fault = stop_time_exceeded }
              else m))
  unfolding evaluate
  evaluate-stopping m i s f d = ground arith

  -- The machine is in SS1 after each of the inputs.
  abbrev pub StaysStopping : SafetyStateMachine Double → List (SafetyInputs Double) → Type 0
  StaysStopping m [] = Unit {0}
  StaysStopping m (i ∷ is) = ((evaluate m i).1.state ≡ stopping) × StaysStopping (evaluate m i).0 is

  stays_step :
      (m : SafetyStateMachine Double) (i : SafetyInputs Double)
      → m.state ≡ stopping
      → (evaluate m i).1.state ≡ stopping
      → ((evaluate m i).0 ≡ m)
        × (ltb_ℤ m.limits.stop_time_limit_ns (i.timestamp_ns -ℤ m.stop_started_ns) ≡ false)
        × (fp.le i.speed_magnitude m.limits.standstill_speed ≡ false)
  unfolding evaluate
  stays_step m i s h = ground arith

  -- As long as SS1 lasts, over any number of cycles and whatever is requested, the machine does not
  -- change, and each of the cycles came before the time limit and above standstill speed.
  pub run-StaysStopping :
      (m : SafetyStateMachine Double) (is : List (SafetyInputs Double))
      → m.state ≡ stopping
      → StaysStopping m is
      → (run m is ≡ m)
        × All
            (λ (i : SafetyInputs Double).
              (ltb_ℤ m.limits.stop_time_limit_ns (i.timestamp_ns -ℤ m.stop_started_ns) ≡ false)
              × (fp.le i.speed_magnitude m.limits.standstill_speed ≡ false))
            is
  unfolding run
  run-StaysStopping m [] s h = (refl, tt)
  run-StaysStopping m (i ∷ is) s h =
      let step = stays_step m i s h.0 in
      let rest = run-StaysStopping m is s (subst (λ n. StaysStopping n is) step.0 h.1) in
      (rw (step.0) rest.0, ((step.1, step.2), rest.1))
