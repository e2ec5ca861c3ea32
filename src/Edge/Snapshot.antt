-- ===== src/Edge/Snapshot.antt =====
-- include/safeedge/edge/runtime_snapshot.hpp: what one cycle of the runtime publishes.
use safeedge.Common.{ℕ, ℤ, pos}

pub record RuntimeSnapshot : Type 0 where
  pub cycles_executed : ℕ
  pub overruns : ℕ
  pub skipped_cycles : ℕ
  pub allocation_violations : ℕ
  pub jitter_p50_ns : ℤ
  pub jitter_p99_ns : ℤ
  pub jitter_p999_ns : ℤ
  pub jitter_max_ns : ℤ
  pub execution_p50_ns : ℤ
  pub execution_p99_ns : ℤ
  pub execution_max_ns : ℤ
  pub safety_state : ℕ
  pub fault_reason : ℕ
  pub torque_permitted : ℕ
  pub fault_latched : ℕ
  pub safety_transition_monotonic_ns : ℕ
  pub safety_sequence : ℕ
  pub safety_state_age_ns : ℕ
  pub estop_asserted : ℕ
  pub telegrams_accepted : ℕ
  pub telegrams_rejected : ℕ
  pub realtime_scheduling_granted : ℕ
  pub uptime_ns : ℤ

-- `RuntimeSnapshot{}`
unfoldable pub empty_snapshot : RuntimeSnapshot
empty_snapshot = record {
  cycles_executed = 0;
  overruns = 0;
  skipped_cycles = 0;
  allocation_violations = 0;
  jitter_p50_ns = pos 0;
  jitter_p99_ns = pos 0;
  jitter_p999_ns = pos 0;
  jitter_max_ns = pos 0;
  execution_p50_ns = pos 0;
  execution_p99_ns = pos 0;
  execution_max_ns = pos 0;
  safety_state = 0;
  fault_reason = 0;
  torque_permitted = 0;
  fault_latched = 0;
  safety_transition_monotonic_ns = 0;
  safety_sequence = 0;
  safety_state_age_ns = 0;
  estop_asserted = 0;
  telegrams_accepted = 0;
  telegrams_rejected = 0;
  realtime_scheduling_granted = 0;
  uptime_ns = pos 0;
}
