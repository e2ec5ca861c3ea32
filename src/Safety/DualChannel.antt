-- ===== src/Safety/DualChannel.antt =====
-- src/safety/dual_channel.cpp: the 1oo2D supervisor over two safety state machines.
pub mod Discrepancy
pub mod Tolerance
pub mod Stop
pub mod Combine
mod Tests
use safeedge.Common.{
  ℕ, ◌+◌, ℤ, pos, negsuc, ◌-ℤ◌, ltb_ℤ, max_ℤ, Bool, true, false, not, ◌&&◌, ◌||◌, List, [], ◌∷◌,
  u64, if◌then◌else◌, FloatingPoint, min_double,
}
use safeedge.Safety.Types.{
  SafetyState, channel_discrepancy, is_fault, same_state, min_state, SafetyLimits, SafetyInputs,
  SafetyOutputs,
}
use safeedge.Safety.Machine.{
  SafetyStateMachine, power_on, fault_latched, force_fault, default_outputs,
}
use safeedge.Safety.Machine

pub record Config (Double : Type 0) : Type 0 where
  pub limits : SafetyLimits Double
  pub discrepancy_tolerance_ns : ℤ

pub record Diagnostics : Type 0 where
  pub disagreeing_cycles : ℕ
  pub discrepancy_faults : ℕ
  pub longest_disagreement_ns : ℤ

-- `disagreement_since_ns` is -1 when the channels agree.
pub record DualChannelSupervisor (Double : Type 0) : Type 0 where
  pub config : Config Double
  pub channel_a : SafetyStateMachine Double
  pub channel_b : SafetyStateMachine Double
  pub disagreement_since_ns : ℤ
  pub discrepancy_latched : Bool
  pub diagnostics : Diagnostics

abbrev no_diagnostics : Diagnostics
no_diagnostics = record {
  disagreeing_cycles = 0;
  discrepancy_faults = 0;
  longest_disagreement_ns = pos 0;
}

module _ {Double : Type 0} ⦃fp : FloatingPoint Double⦄ where
  -- The constructor.
  unfoldable pub supervisor : Config Double → DualChannelSupervisor Double
  supervisor c = record {
    config = c;
    channel_a = power_on c.limits;
    channel_b = power_on c.limits;
    disagreement_since_ns = negsuc 0;
    discrepancy_latched = false;
    diagnostics = no_diagnostics;
  }

  unfoldable pub reset : DualChannelSupervisor Double → DualChannelSupervisor Double
  reset s = record s {
    channel_a = Machine.reset s.channel_a;
    channel_b = Machine.reset s.channel_b;
    disagreement_since_ns = negsuc 0;
    discrepancy_latched = false;
    diagnostics = no_diagnostics;
  }

  unfoldable pub combine : SafetyOutputs Double → SafetyOutputs Double → SafetyOutputs Double
  combine a b = record {
    torque_permitted = a.torque_permitted && b.torque_permitted;
    motion_permitted = a.motion_permitted && b.motion_permitted;
    speed_limit = min_double a.speed_limit b.speed_limit;
    brake_engaged = a.brake_engaged || b.brake_engaged;
    state = min_state a.state b.state;
    fault = if is_fault a.fault then a.fault else b.fault;
    fault_latched = a.fault_latched || b.fault_latched;
  }

  -- The body of the test for a disagreement that has lasted too long.
  force_discrepancy : DualChannelSupervisor Double → DualChannelSupervisor Double
  unfolding force_fault
  force_discrepancy s = record s {
    discrepancy_latched = true;
    diagnostics = record diagnostics {
      discrepancy_faults = u64 (diagnostics.discrepancy_faults + 1);
    };
    channel_a = force_fault channel_a channel_discrepancy;
    channel_b = force_fault channel_b channel_discrepancy;
  }
    where
      open s use {diagnostics, channel_a, channel_b}

  -- The start of the current disagreement, in a cycle that disagrees.
  since : DualChannelSupervisor Double → ℤ → ℤ
  since s now_ns = if ltb_ℤ s.disagreement_since_ns (pos 0) then now_ns else s.disagreement_since_ns

  -- The branch of the cross-comparison for channels that disagree.
  disagree : DualChannelSupervisor Double → ℤ → DualChannelSupervisor Double
  unfolding force_discrepancy since
  disagree s now_ns =
      let duration : ℤ = now_ns -ℤ since s now_ns in
      let s' : DualChannelSupervisor Double = record s {
        disagreement_since_ns = since s now_ns;
        diagnostics = record diagnostics {
          disagreeing_cycles = u64 (diagnostics.disagreeing_cycles + 1);
          longest_disagreement_ns = max_ℤ diagnostics.longest_disagreement_ns duration;
        };
      } in
      if ltb_ℤ s.config.discrepancy_tolerance_ns duration && not s.discrepancy_latched
      then force_discrepancy s'
      else s'
    where
      open s use {diagnostics}

  -- The cross-comparison.
  cross_compare :
      DualChannelSupervisor Double → SafetyState → SafetyState → ℤ → DualChannelSupervisor Double
  unfolding disagree
  cross_compare s a b now_ns =
      if not (same_state a b)
      then disagree s now_ns
      else record s { disagreement_since_ns = negsuc 0 }

  -- What is returned while a discrepancy is latched.
  abbrev pub discrepancy_outputs : SafetyOutputs Double
  unfolding default_outputs
  discrepancy_outputs = record default_outputs {
    state = SafetyState.safe_torque_off;
    fault = channel_discrepancy;
    fault_latched = true;
  }

  -- The release of the latch, and the result.
  conclude :
      DualChannelSupervisor Double
      → SafetyOutputs Double
      → SafetyOutputs Double
      → DualChannelSupervisor Double × SafetyOutputs Double
  unfolding combine fault_latched default_outputs
  conclude s a b =
      if s.discrepancy_latched
      then (if not (fault_latched s.channel_a) && not (fault_latched s.channel_b)
          then (record s { discrepancy_latched = false }, combine a b)
          else (s, discrepancy_outputs))
      else (s, combine a b)

  -- The supervisor after both channels are evaluated and cross-compared.
  compared :
      DualChannelSupervisor Double
      → SafetyInputs Double
      → SafetyInputs Double
      → ℤ
      → DualChannelSupervisor Double
  unfolding cross_compare
  compared s channel_a_inputs channel_b_inputs now_ns =
      let (channel_a, a) = Machine.evaluate s.channel_a channel_a_inputs in
      let (channel_b, b) = Machine.evaluate s.channel_b channel_b_inputs in
      cross_compare (record s { channel_a = channel_a; channel_b = channel_b }) a.state b.state
        now_ns

  unfoldable pub evaluate :
      DualChannelSupervisor Double
      → SafetyInputs Double
      → SafetyInputs Double
      → ℤ
      → DualChannelSupervisor Double × SafetyOutputs Double
  unfolding compared conclude
  evaluate s channel_a_inputs channel_b_inputs now_ns =
      conclude (compared s channel_a_inputs channel_b_inputs now_ns)
        (Machine.evaluate s.channel_a channel_a_inputs).1
        (Machine.evaluate s.channel_b channel_b_inputs).1

  -- The supervisor after each of a list of cycles in turn, with the two inputs and the time of each.
  unfoldable pub run :
      DualChannelSupervisor Double
      → List (SafetyInputs Double × SafetyInputs Double × ℤ)
      → DualChannelSupervisor Double
  run s [] = s
  run s ((i, j, now_ns) ∷ cycles) = run (evaluate s i j now_ns).0 cycles
