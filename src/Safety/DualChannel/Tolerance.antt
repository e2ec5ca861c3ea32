-- ===== src/Safety/DualChannel/Tolerance.antt =====
-- How long the channels may disagree: the timer of the cross-comparison over a run of cycles.
use safeedge.Common.{◌≡◌, false, List, [], ◌∷◌, ℤ, ◌-ℤ◌, ltb_ℤ, FloatingPoint}
use safeedge.Safety.Types.{SafetyInputs, same_state}
use safeedge.Safety.Machine.{
  SafetyStateMachine, fault_latched, unconditional_demand_active, outputs_for,
}
use safeedge.Safety.Machine
use safeedge.Safety.DualChannel.{DualChannelSupervisor, evaluate}

-- No discrepancy is latched, and the timer of a disagreement has run since a time, under a tolerance.
pub record IsTiming {Double : Type 0} (tolerance start : ℤ) (s : DualChannelSupervisor Double)
    : Type 0 where
  pub unlatched : s.discrepancy_latched ≡ false
  pub timer : s.disagreement_since_ns ≡ start
  pub tolerates : s.config.discrepancy_tolerance_ns ≡ tolerance

module _ {Double : Type 0} ⦃fp : FloatingPoint Double⦄ where
  -- The channels' results differ in the state.
  abbrev pub Disagrees :
      DualChannelSupervisor Double → SafetyInputs Double → SafetyInputs Double → Type 0
  Disagrees s i j =
      same_state (Machine.evaluate s.channel_a i).1.state (Machine.evaluate s.channel_b j).1.state
      ≡ false

  -- Every cycle finds a disagreement, at most the tolerance after a time.
  abbrev pub DisagreesWithin :
      ℤ
      → DualChannelSupervisor Double
      → List (SafetyInputs Double × SafetyInputs Double × ℤ)
      → Type 0
  DisagreesWithin start s [] = Unit {0}
  DisagreesWithin start s ((i, j, now_ns) ∷ cycles) =
      Disagrees s i j
      × (ltb_ℤ s.config.discrepancy_tolerance_ns (now_ns -ℤ start) ≡ false)
      × DisagreesWithin start (evaluate s i j now_ns).0 cycles
