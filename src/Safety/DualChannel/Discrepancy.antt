-- ===== src/Safety/DualChannel/Discrepancy.antt =====
-- The cross-comparison and its latch.
use safeedge.Common.{
  ap, Bool-cases, inl, inr, ◌≡◌, refl, ◌∙◌, true, false, not, ◌&&◌, ◌||◌, List, [], ◌∷◌, ℤ, pos,
  negsuc, ◌-ℤ◌, ltb_ℤ, if◌then◌else◌, FloatingPoint, arith,
}
use safeedge.Safety.Types.{SafetyState, is_fault, SafetyInputs, SafetyOutputs, same_state}
use safeedge.Safety.Machine.{
  SafetyStateMachine, fault_latched, unconditional_demand_active, outputs_for,
}
use safeedge.Safety.Machine
use safeedge.Safety.Machine.Transitions.{latched_step}
use safeedge.Safety.Machine.Invariant.{TorqueConditions, evaluate-torque}
use safeedge.Safety.DualChannel.{
  DualChannelSupervisor, evaluate, run, compared, combine, cross_compare, conclude,
  force_discrepancy, discrepancy_outputs,
}

-- A latched discrepancy is backed by a latched fault in at least one of the channels.
pub record IsBacked {Double : Type 0} ⦃fp : FloatingPoint Double⦄ (s : DualChannelSupervisor Double)
    : Type 0 where
  pub backed :
      s.discrepancy_latched ≡ true → (fault_latched s.channel_a || fault_latched s.channel_b) ≡ true

-- Both channels are in STO with a latched fault, and the discrepancy is latched.
pub record IsForced {Double : Type 0} (s : DualChannelSupervisor Double) : Type 0 where
  pub latched : s.discrepancy_latched ≡ true
  pub a_off : s.channel_a.state ≡ SafetyState.safe_torque_off
  pub b_off : s.channel_b.state ≡ SafetyState.safe_torque_off
  pub a_latched : is_fault s.channel_a.fault ≡ true
  pub b_latched : is_fault s.channel_b.fault ≡ true

module _ {Double : Type 0} ⦃fp : FloatingPoint Double⦄ where
  conclude-IsBacked :
      (s : DualChannelSupervisor Double) (a b : SafetyOutputs Double) → IsBacked (conclude s a b).0
  unfolding conclude fault_latched
  conclude-IsBacked s a b = ground arith

  -- After any cycle a latched discrepancy is backed by a channel's latched fault.
  pub evaluate-IsBacked :
      (s : DualChannelSupervisor Double) (i j : SafetyInputs Double) (now_ns : ℤ)
      → IsBacked (evaluate s i j now_ns).0
  unfolding evaluate
  evaluate-IsBacked s i j now_ns =
      conclude-IsBacked (compared s i j now_ns) (Machine.evaluate s.channel_a i).1
        (Machine.evaluate s.channel_b j).1

  conclude-torque :
      (s : DualChannelSupervisor Double) (a b : SafetyOutputs Double)
      → (conclude s a b).1.torque_permitted ≡ true
      → (a.torque_permitted ≡ true) × (b.torque_permitted ≡ true)
  unfolding conclude combine
  conclude-torque s a b h = ground arith

  -- Torque is permitted only if each of the channels found every condition for it on its own
  -- inputs, and no discrepancy was latched; the premise on the latch holds after any cycle.
  pub evaluate_needs_both :
      (s : DualChannelSupervisor Double) (i j : SafetyInputs Double) (now_ns : ℤ)
      → IsBacked s
      → (evaluate s i j now_ns).1.torque_permitted ≡ true
      → TorqueConditions s.channel_a i (Machine.evaluate s.channel_a i).1
        × TorqueConditions s.channel_b j (Machine.evaluate s.channel_b j).1
        × (s.discrepancy_latched ≡ false)
  unfolding evaluate fault_latched
  evaluate_needs_both s i j now_ns v h =
      let both =
        conclude-torque (compared s i j now_ns) (Machine.evaluate s.channel_a i).1
          (Machine.evaluate s.channel_b j).1 h in
      let a = evaluate-torque s.channel_a i both.0 in
      let b = evaluate-torque s.channel_b j both.1 in (a, b, ground arith)

  conclude-since :
      (s : DualChannelSupervisor Double) (a b : SafetyOutputs Double)
      → (conclude s a b).0.disagreement_since_ns ≡ s.disagreement_since_ns
  unfolding conclude
  conclude-since s a b = ground arith

  cross_compare-since :
      (s : DualChannelSupervisor Double) (a b : SafetyState) (now_ns : ℤ)
      → (cross_compare s a b now_ns).disagreement_since_ns ≡ (
          if same_state a b
          then negsuc 0
          else (if ltb_ℤ s.disagreement_since_ns (pos 0) then now_ns else s.disagreement_since_ns))
  unfolding cross_compare
  cross_compare-since s a b now_ns = elim (Bool-cases (same_state a b)) [
    | inl e ↦ rw (e, cross_compare)
    | inr e ↦ rw (e, cross_compare) (ground arith)
  ]

  -- The timer of a cycle, on every branch: agreement clears it, a disagreement starts it at the
  -- current time, and one that was running goes on from where it started.
  pub evaluate-since :
      (s : DualChannelSupervisor Double) (i j : SafetyInputs Double) (now_ns : ℤ)
      → (evaluate s i j now_ns).0.disagreement_since_ns ≡ (
          if same_state
            (Machine.evaluate s.channel_a i).1.state
            (Machine.evaluate s.channel_b j).1.state
          then negsuc 0
          else (if ltb_ℤ s.disagreement_since_ns (pos 0) then now_ns else s.disagreement_since_ns))
  unfolding evaluate
  evaluate-since s i j now_ns =
      conclude-since (compared s i j now_ns) (Machine.evaluate s.channel_a i).1
        (Machine.evaluate s.channel_b j).1
      ∙ cross_compare-since
          (record s {
            channel_a = (Machine.evaluate s.channel_a i).0;
            channel_b = (Machine.evaluate s.channel_b j).0;
          })
          (Machine.evaluate s.channel_a i).1.state (Machine.evaluate s.channel_b j).1.state now_ns

  force_discrepancy-IsForced : (s : DualChannelSupervisor Double) → IsForced (force_discrepancy s)
  unfolding force_discrepancy
  force_discrepancy-IsForced s = ground arith

  cross_compare-IsForced :
      (s : DualChannelSupervisor Double) (a b : SafetyState) (now_ns : ℤ)
      → same_state a b ≡ false
      → ltb_ℤ s.disagreement_since_ns (pos 0) ≡ false
      → ltb_ℤ s.config.discrepancy_tolerance_ns (now_ns -ℤ s.disagreement_since_ns) ≡ true
      → s.discrepancy_latched ≡ false
      → IsForced (cross_compare s a b now_ns)
  unfolding cross_compare
  cross_compare-IsForced s a b now_ns d r t l = ground (arith)

  conclude_forced :
      (s : DualChannelSupervisor Double) (a b : SafetyOutputs Double)
      → IsForced s
      → conclude s a b ≡ (s, discrepancy_outputs)
  unfolding conclude fault_latched
  conclude_forced s a b f = ground arith

  -- A cycle that finds the channels in disagreement beyond the tolerance, with the timer running and no
  -- discrepancy latched.
  pub evaluate_discrepancy :
      (s : DualChannelSupervisor Double) (i j : SafetyInputs Double) (now_ns : ℤ)
      → same_state (Machine.evaluate s.channel_a i).1.state (Machine.evaluate s.channel_b j).1.state
        ≡ false
      → ltb_ℤ s.disagreement_since_ns (pos 0) ≡ false
      → ltb_ℤ s.config.discrepancy_tolerance_ns (now_ns -ℤ s.disagreement_since_ns) ≡ true
      → s.discrepancy_latched ≡ false
      → IsForced (evaluate s i j now_ns).0 × ((evaluate s i j now_ns).1 ≡ discrepancy_outputs)
  unfolding evaluate
  evaluate_discrepancy s i j now_ns d r t l =
      let forced : IsForced (compared s i j now_ns) =
        cross_compare-IsForced
          (record s {
            channel_a = (Machine.evaluate s.channel_a i).0;
            channel_b = (Machine.evaluate s.channel_b j).0;
          })
          (Machine.evaluate s.channel_a i).1.state (Machine.evaluate s.channel_b j).1.state now_ns d
          r t l in
      let done =
        conclude_forced (compared s i j now_ns) (Machine.evaluate s.channel_a i).1
          (Machine.evaluate s.channel_b j).1 forced in
      rw done (forced, refl)

  -- The discrepancy is latched and so is channel A.
  latched_compare :
      (s : DualChannelSupervisor Double) (a b : SafetyState) (now_ns : ℤ)
      → s.discrepancy_latched ≡ true
      → ((cross_compare s a b now_ns).discrepancy_latched ≡ true)
        × ((cross_compare s a b now_ns).channel_a ≡ s.channel_a)
  unfolding cross_compare
  latched_compare s a b now_ns h = ground arith

  conclude_latched :
      (s : DualChannelSupervisor Double) (a b : SafetyOutputs Double)
      → s.discrepancy_latched ≡ true
      → is_fault s.channel_a.fault ≡ true
      → conclude s a b ≡ (s, discrepancy_outputs)
  unfolding conclude fault_latched
  conclude_latched s a b h f = ground arith

  -- A cycle of a latched discrepancy in which channel A is not acknowledged.
  latched_cycle :
      (s : DualChannelSupervisor Double) (i j : SafetyInputs Double) (now_ns : ℤ)
      → s.discrepancy_latched ≡ true
      → is_fault s.channel_a.fault ≡ true
      → i.acknowledge && not (unconditional_demand_active i) ≡ false
      → ((evaluate s i j now_ns).1 ≡ discrepancy_outputs)
        × ((evaluate s i j now_ns).0.discrepancy_latched ≡ true)
        × (is_fault (evaluate s i j now_ns).0.channel_a.fault ≡ true)
  unfolding evaluate
  latched_cycle s i j now_ns h f u =
      let kept = latched_step s.channel_a i f u in
      let s' : DualChannelSupervisor Double = record s {
        channel_a = (Machine.evaluate s.channel_a i).0;
        channel_b = (Machine.evaluate s.channel_b j).0;
      } in
      let c =
        latched_compare s' (Machine.evaluate s.channel_a i).1.state
          (Machine.evaluate s.channel_b j).1.state now_ns h in
      let f' : is_fault (compared s i j now_ns).channel_a.fault ≡ true =
        ap (λ (m : SafetyStateMachine Double). is_fault m.fault) c.1 ∙ (ap is_fault kept.1 ∙ f) in
      let done =
        conclude_latched (compared s i j now_ns) (Machine.evaluate s.channel_a i).1
          (Machine.evaluate s.channel_b j).1 c.0 f' in
      rw done (refl, c.0, f')

  -- Channel A is acknowledged in none of the cycles at which its demands have cleared.
  abbrev pub UnacknowledgedA : List (SafetyInputs Double × SafetyInputs Double × ℤ) → Type 0
  UnacknowledgedA [] = Unit {0}
  UnacknowledgedA ((i, j, now_ns) ∷ cycles) =
      (i.acknowledge && not (unconditional_demand_active i) ≡ false) × UnacknowledgedA cycles

  -- Every cycle returns the outputs of a latched discrepancy.
  abbrev pub ReportsDiscrepancy :
      DualChannelSupervisor Double → List (SafetyInputs Double × SafetyInputs Double × ℤ) → Type 0
  ReportsDiscrepancy s [] = Unit {0}
  ReportsDiscrepancy s ((i, j, now_ns) ∷ cycles) =
      ((evaluate s i j now_ns).1 ≡ discrepancy_outputs)
      × ReportsDiscrepancy (evaluate s i j now_ns).0 cycles

  -- Until channel A is acknowledged, a latched discrepancy with channel A's fault latched outlasts
  -- any run of cycles, whatever channel B sees and whether the channels agree again or not: each
  -- cycle denies everything and reports the discrepancy.
  pub run-ReportsDiscrepancy :
      (s : DualChannelSupervisor Double)
      (cycles : List (SafetyInputs Double × SafetyInputs Double × ℤ))
      → s.discrepancy_latched ≡ true
      → is_fault s.channel_a.fault ≡ true
      → UnacknowledgedA cycles
      → ReportsDiscrepancy s cycles × ((run s cycles).discrepancy_latched ≡ true)
  unfolding run
  run-ReportsDiscrepancy s [] h f u = (tt, h)
  run-ReportsDiscrepancy s ((i, j, now_ns) ∷ cycles) h f u =
      let step = latched_cycle s i j now_ns h f u.0 in
      let rest = run-ReportsDiscrepancy (evaluate s i j now_ns).0 cycles step.1 step.2 u.1 in
      ((step.0, rest.0), rest.1)
