-- ===== src/Safety/Machine/Transitions.antt =====
-- The states that one `evaluate` can lead to, and the latch over a run of cycles.
use safeedge.Common.{
  FloatingPoint, arith, ◌∙◌, ◌≡◌, List, [], ◌∷◌, All, not, ◌&&◌, refl, true, false, Bool,
}
use safeedge.Safety.Types.{
  SafetyState, self_test, stopping, operating_stop, limited_speed, operational, SafetyInputs,
}
use safeedge.Safety.Machine.Invariant.{IsDenied}
use safeedge.Safety.Machine.{
  run, unconditional_demand_active, is_fault, SafetyStateMachine, in_motion, evaluate,
}

-- The states in which torque is applied but no SS1 is running.
abbrev is_energised : SafetyState → Bool
is_energised operating_stop = true
is_energised s = in_motion s

-- The safety functions as a transition relation on states: STO can be reached from everywhere, and
-- nothing else can be reached from the self test or from SS1.
pub data Transition : SafetyState → SafetyState → Type 0 where
  stay : (s : SafetyState) → Transition s s
  torque_off : (s : SafetyState) → Transition s SafetyState.safe_torque_off
  stop : (s : SafetyState) → is_energised s ≡ true → Transition s stopping
  hold : (s : SafetyState) → in_motion s ≡ true → Transition s operating_stop
  enable : (s : SafetyState) → in_motion s ≡ true → Transition SafetyState.safe_torque_off s
  resume : (s : SafetyState) → in_motion s ≡ true → Transition operating_stop s
  restrict : Transition operational limited_speed
  release : Transition limited_speed operational

-- The same as a test, for which the tactics find the constructor.
can_go : SafetyState → SafetyState → Bool
can_go s SafetyState.safe_torque_off = true
can_go self_test t = elim t [ self_test ↦ true | _ ↦ false ]
can_go stopping t = elim t [ stopping ↦ true | _ ↦ false ]
can_go SafetyState.safe_torque_off t = in_motion t
can_go operating_stop t = elim t [ self_test ↦ false | _ ↦ true ]
can_go limited_speed t = elim t [ self_test ↦ false | _ ↦ true ]
can_go operational t = elim t [ self_test ↦ false | _ ↦ true ]

module _ {Double : Type 0} ⦃fp : FloatingPoint Double⦄ where
  can_go-evaluate :
      (m : SafetyStateMachine Double) (i : SafetyInputs Double)
      → can_go m.state (evaluate m i).1.state ≡ true
  unfolding evaluate can_go
  can_go-evaluate m i = ground arith

can_go-Transition : (s t : SafetyState) → can_go s t ≡ true → Transition s t
unfolding can_go
can_go-Transition s SafetyState.safe_torque_off h = torque_off s
can_go-Transition self_test self_test h = stay self_test
can_go-Transition self_test _ h = cc
can_go-Transition stopping stopping h = stay stopping
can_go-Transition stopping _ h = cc
can_go-Transition SafetyState.safe_torque_off t h = enable t h
can_go-Transition _ self_test h = cc
can_go-Transition operating_stop stopping h = stop operating_stop refl
can_go-Transition limited_speed stopping h = stop limited_speed refl
can_go-Transition operational stopping h = stop operational refl
can_go-Transition operating_stop operating_stop h = stay operating_stop
can_go-Transition operating_stop t h = resume t (ground arith)
can_go-Transition limited_speed limited_speed h = stay limited_speed
can_go-Transition limited_speed operating_stop h = hold limited_speed refl
can_go-Transition limited_speed operational h = release
can_go-Transition operational limited_speed h = restrict
can_go-Transition operational operating_stop h = hold operational refl
can_go-Transition operational operational h = stay operational

module _ {Double : Type 0} ⦃fp : FloatingPoint Double⦄ where
  -- A cycle moves only along the transition relation of the safety functions, whatever its inputs.
  pub evaluate-Transition :
      (m : SafetyStateMachine Double) (i : SafetyInputs Double)
      → Transition m.state (evaluate m i).1.state
  evaluate-Transition m i = can_go-Transition _ _ (can_go-evaluate m i)

  -- No cycle is an acknowledgement at which every demand has cleared.
  abbrev pub Unacknowledged : List (SafetyInputs Double) → Type 0
  Unacknowledged is =
      All
        (λ (i : SafetyInputs Double). i.acknowledge && not (unconditional_demand_active i) ≡ false)
        is

  -- Every cycle of a run denies everything.
  abbrev pub DeniesAll : SafetyStateMachine Double → List (SafetyInputs Double) → Type 0
  DeniesAll m [] = Unit {0}
  DeniesAll m (i ∷ is) = IsDenied (evaluate m i).1 × DeniesAll (evaluate m i).0 is

  pub latched_step :
      (m : SafetyStateMachine Double) (i : SafetyInputs Double)
      → is_fault m.fault ≡ true
      → i.acknowledge && not (unconditional_demand_active i) ≡ false
      → IsDenied (evaluate m i).1 × ((evaluate m i).0.fault ≡ m.fault)
  unfolding evaluate
  latched_step m i f a = ground arith

  -- A latched fault outlasts any run of cycles without an effective acknowledgement: its reason
  -- stays the first one, and every cycle of the run denies everything.
  pub run-latched :
      (m : SafetyStateMachine Double) (is : List (SafetyInputs Double))
      → is_fault m.fault ≡ true
      → Unacknowledged is
      → ((run m is).fault ≡ m.fault) × DeniesAll m is
  unfolding run
  run-latched m [] f u = (refl, tt)
  run-latched m (i ∷ is) f u =
      let step = latched_step m i f u.0 in
      let rest = run-latched (evaluate m i).0 is (rw (step.1) f) u.1 in
      (rest.0 ∙ step.1, (step.0, rest.1))
