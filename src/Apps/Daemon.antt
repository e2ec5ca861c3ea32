-- ===== src/Apps/Daemon.antt =====
-- src/apps/safeedged.cpp: the control cycle of the daemon, in which the sender, the receiver, the
-- supervisor and the snapshot meet. What a cycle reads from other threads, the clocks and the executor
-- is a `Reading`; the floating-point literals are `Literals`.
pub mod Watcher
pub mod Startup
pub mod Torque
pub mod Telegrams
pub mod Slow
pub mod Transitions
mod Tests
use safeedge.Common.{
  ◌%◌, ℕ, ◌+◌, ◌*◌, ◌^◌, ◌-◌, ℤ, pos, Bool, true, false, not, ◌&&◌, ◌||◌, List, [], ◌∷◌, ◌==◌, u64,
  if◌then◌else◌, FloatingPoint,
}
use safeedge.Safety.Types.{
  SafetyState, FaultReason, SafetyFunction, safely_limited_speed, SafetyInputs, SafetyOutputs,
  SafetyLimits, same_state, rank,
}
use safeedge.Safety.DualChannel.{DualChannelSupervisor, Config}
use safeedge.Safety.DualChannel
use safeedge.Safety.BlackChannel.Telegram.{SafetyAddress, Telegram, view}
use safeedge.Safety.BlackChannel.Sender.{SafetySender, encode, new_sender}
use safeedge.Safety.BlackChannel.Receiver.{
  SafetyReceiver, Received, ReceiveStatus, valid, receive, new_receiver,
}
use safeedge.Edge.Snapshot.{RuntimeSnapshot}

-- The literals 10.0, 0.1, 0.5 and 5.0, and the default members of `SafetyLimits` that the daemon
-- leaves alone.
pub record Literals (Double : Type 0) : Type 0 where
  pub ten : Double
  pub tenth : Double
  pub half : Double
  pub five : Double
  pub position_min : Double
  pub position_max : Double
  pub position : Double

-- What the executor's statistics and their percentiles give.
pub record Statistics : Type 0 where
  pub cycles_executed : ℕ
  pub overruns : ℕ
  pub skipped_cycles : ℕ
  pub allocation_violations : ℕ
  pub jitter_p50 : ℤ
  pub jitter_p99 : ℤ
  pub jitter_p999 : ℤ
  pub jitter_max : ℤ
  pub execution_p50 : ℤ
  pub execution_p99 : ℤ
  pub execution_max : ℤ

-- What a cycle reads: the two flags, the clock at a transition and at the end, the flag again, the
-- statistics and the time since the start.
pub record Reading : Type 0 where
  pub estop : Bool
  pub acknowledge : Bool
  pub transition_ns : ℕ
  pub statistics : Statistics
  pub age_ns : ℕ
  pub estop_again : Bool
  pub uptime_ns : ℤ

-- The locals of the control thread.
pub record Control (Double : Type 0) : Type 0 where
  pub supervisor : DualChannelSupervisor Double
  pub sender : SafetySender
  pub receiver : SafetyReceiver
  pub telegram : Telegram
  pub payload_out : List ℕ
  pub accepted : ℕ
  pub rejected : ℕ
  pub last_safety_state : SafetyState
  pub last_torque_permitted : Bool
  pub last_transition_ns : ℕ
  pub safety_sequence : ℕ

abbrev pub payload_in : List ℕ
payload_in = 1 ∷ 2 ∷ 3 ∷ 4 ∷ 5 ∷ 6 ∷ 7 ∷ 8 ∷ []

abbrev pub watchdog_ns : ℤ
watchdog_ns = pos 50_000_000

abbrev pub flag : Bool → ℕ
flag true = 1
flag false = 0

abbrev pub is_valid_status : ReceiveStatus → Bool
is_valid_status valid = true
is_valid_status _ = false

-- The value of a `FaultReason`.
abbrev pub fault_code : FaultReason → ℕ
fault_code FaultReason.no_fault = 0
fault_code FaultReason.self_test_failed = 1
fault_code FaultReason.emergency_stop = 2
fault_code FaultReason.speed_limit_exceeded = 3
fault_code FaultReason.position_limit_exceeded = 4
fault_code FaultReason.standstill_deviation = 5
fault_code FaultReason.stop_time_exceeded = 6
fault_code FaultReason.communication_fault = 7
fault_code FaultReason.watchdog_timeout = 8
fault_code FaultReason.channel_discrepancy = 9
fault_code FaultReason.invalid_request = 10

-- The telegram round trip of a cycle.
unfoldable pub pass_telegram : {Double : Type 0} → Control Double → ℤ → Control Double
pass_telegram c now_ns =
    let (done, sender, telegram) = encode c.sender payload_in 0 c.telegram in
    let (receiver, received) = receive c.receiver (view telegram) now_ns c.payload_out in
    if done
    then if is_valid_status received.status
      then record c {
        sender = sender;
        telegram = telegram;
        receiver = receiver;
        payload_out = received.payload_out;
        accepted = u64 (c.accepted + 1);
      }
      else record c {
        sender = sender;
        telegram = telegram;
        receiver = receiver;
        payload_out = received.payload_out;
        rejected = u64 (c.rejected + 1);
      }
    else record c { sender = sender; telegram = telegram }

-- A transition gets a stamp and a number.
unfoldable pub note_transition :
    {Double : Type 0} → Control Double → SafetyOutputs Double → Reading → Control Double
note_transition c outputs reading =
    if not (same_state outputs.state c.last_safety_state)
      || not (flag outputs.torque_permitted == flag c.last_torque_permitted)
    then record c {
      last_safety_state = outputs.state;
      last_torque_permitted = outputs.torque_permitted;
      last_transition_ns = reading.transition_ns;
      safety_sequence = u64 (c.safety_sequence + 1);
    }
    else c

-- The snapshot of a cycle.
unfoldable pub snapshot_of :
    {Double : Type 0} → Bool → Control Double → SafetyOutputs Double → Reading → RuntimeSnapshot
snapshot_of scheduling_applied c outputs reading =
    let stats = reading.statistics in
    record {
      cycles_executed = stats.cycles_executed;
      overruns = stats.overruns;
      skipped_cycles = stats.skipped_cycles;
      allocation_violations = stats.allocation_violations;
      jitter_p50_ns = stats.jitter_p50;
      jitter_p99_ns = stats.jitter_p99;
      jitter_p999_ns = stats.jitter_p999;
      jitter_max_ns = stats.jitter_max;
      execution_p50_ns = stats.execution_p50;
      execution_p99_ns = stats.execution_p99;
      execution_max_ns = stats.execution_max;
      safety_state = rank outputs.state;
      fault_reason = fault_code outputs.fault;
      torque_permitted = flag outputs.torque_permitted;
      fault_latched = flag outputs.fault_latched;
      safety_transition_monotonic_ns = c.last_transition_ns;
      safety_sequence = c.safety_sequence;
      safety_state_age_ns = (reading.age_ns + 2 ^ 64 - c.last_transition_ns) % 2 ^ 64;
      estop_asserted = flag reading.estop_again;
      telegrams_accepted = c.accepted;
      telegrams_rejected = c.rejected;
      realtime_scheduling_granted = flag scheduling_applied;
      uptime_ns = reading.uptime_ns;
    }

module _ {Double : Type 0} ⦃fp : FloatingPoint Double⦄ (literals : Literals Double) where
  -- The configuration of the supervisor.
  unfoldable pub supervisor_config : Config Double
  supervisor_config = record {
    limits = record {
      limited_speed = literals.ten;
      position_min = literals.position_min;
      position_max = literals.position_max;
      position_monitoring_enabled = false;
      standstill_window = literals.half;
      standstill_speed = literals.tenth;
      stop_time_limit_ns = pos 500_000_000;
    };
    discrepancy_tolerance_ns = pos 5_000_000;
  }

  -- The inputs of a cycle, for both channels.
  unfoldable pub inputs_of : SafetyReceiver → Reading → ℤ → SafetyInputs Double
  inputs_of receiver reading now_ns = record {
    speed_magnitude = literals.five;
    position = literals.position;
    emergency_stop_asserted = reading.estop;
    communication_ok = not receiver.safe_state;
    heartbeat_ok = true;
    self_test_passed = true;
    request = safely_limited_speed;
    acknowledge = reading.acknowledge;
    timestamp_ns = now_ns;
  }

  -- The supervisor's part of a cycle, after the telegram.
  unfoldable pub decide :
      Control Double → Reading → ℤ → DualChannelSupervisor Double × SafetyOutputs Double
  unfolding inputs_of
  decide c reading now_ns =
      let inputs = inputs_of c.receiver reading now_ns in
      DualChannel.evaluate c.supervisor inputs inputs now_ns

  -- The control thread before its first cycle. `address` is used by both ends, `buffer` is what a
  -- new telegram's bytes are.
  unfoldable pub start_control : SafetyAddress → List ℕ → List ℕ → ℕ → Control Double
  unfolding supervisor_config
  start_control address buffer payload_out now_ns = record {
    supervisor = DualChannel.supervisor supervisor_config;
    sender = new_sender address;
    receiver = new_receiver address watchdog_ns;
    telegram = record { bytes = buffer; size = 0 };
    payload_out = payload_out;
    accepted = 0;
    rejected = 0;
    last_safety_state = SafetyState.safe_torque_off;
    last_torque_permitted = false;
    last_transition_ns = now_ns;
    safety_sequence = 0;
  }

  -- One cycle: the new locals and the snapshot that is stored.
  unfoldable pub cycle : Bool → ℕ → ℕ → Reading → Control Double → Control Double × RuntimeSnapshot
  cycle scheduling_applied period_ns index reading c =
      let now_ns = pos (period_ns * index) in
      let passed = pass_telegram c now_ns in
      let (supervisor, outputs) = decide passed reading now_ns in
      let noted = note_transition (record passed { supervisor = supervisor }) outputs reading in
      (noted, snapshot_of scheduling_applied noted outputs reading)

  -- The cycles from an index on, one for each reading.
  unfoldable pub run :
      Bool → ℕ → ℕ → List Reading → Control Double → Control Double × List RuntimeSnapshot
  run scheduling_applied period_ns index [] c = (c, [])
  run scheduling_applied period_ns index (reading ∷ readings) c =
      let (c', snapshot) = cycle scheduling_applied period_ns index reading c in
      let (c'', snapshots) = run scheduling_applied period_ns (index + 1) readings c' in
      (c'', snapshot ∷ snapshots)
