-- ===== src/Safety/DualChannel/Stop.antt =====
-- What one channel's refusal does to the supervisor.
use safeedge.Common.{ℤ, ◌≡◌, true, false, arith, FloatingPoint}
use safeedge.Safety.Types.{SafetyState, is_fault, SafetyInputs, SafetyOutputs}
use safeedge.Safety.Machine
use safeedge.Safety.DualChannel.{
  compared, DualChannelSupervisor, evaluate, cross_compare, conclude, combine,
}

module _ {Double : Type 0} ⦃fp : FloatingPoint Double⦄ where
  cross_compare-channel_a :
      (s : DualChannelSupervisor Double) (a b : SafetyState) (now_ns : ℤ)
      → is_fault s.channel_a.fault ≡ true
      → is_fault (cross_compare s a b now_ns).channel_a.fault ≡ true
  unfolding cross_compare
  cross_compare-channel_a s a b now_ns h = ground arith

  conclude-channel_a :
      (s : DualChannelSupervisor Double) (a b : SafetyOutputs Double)
      → is_fault s.channel_a.fault ≡ true
      → is_fault (conclude s a b).0.channel_a.fault ≡ true
  unfolding conclude
  conclude-channel_a s a b h = ground arith

  conclude-no_torque :
      (s : DualChannelSupervisor Double) (a b : SafetyOutputs Double)
      → a.torque_permitted ≡ false
      → (conclude s a b).1.torque_permitted ≡ false
  unfolding conclude combine
  conclude-no_torque s a b h = ground arith

  -- A fault that channel A has latched after its evaluation outlasts the cross-comparison.
  pub evaluate-channel_a :
      (s : DualChannelSupervisor Double) (i j : SafetyInputs Double) (now_ns : ℤ)
      → is_fault (Machine.evaluate s.channel_a i).0.fault ≡ true
      → is_fault (evaluate s i j now_ns).0.channel_a.fault ≡ true
  unfolding evaluate
  evaluate-channel_a s i j now_ns h =
      conclude-channel_a _ (Machine.evaluate s.channel_a i).1 (Machine.evaluate s.channel_b j).1 (
        cross_compare-channel_a
          (record s {
            channel_a = (Machine.evaluate s.channel_a i).0;
            channel_b = (Machine.evaluate s.channel_b j).0;
          })
          (Machine.evaluate s.channel_a i).1.state (Machine.evaluate s.channel_b j).1.state now_ns
          h)

  -- No torque from channel A is no torque from the supervisor.
  pub evaluate-no_torque :
      (s : DualChannelSupervisor Double) (i j : SafetyInputs Double) (now_ns : ℤ)
      → (Machine.evaluate s.channel_a i).1.torque_permitted ≡ false
      → (evaluate s i j now_ns).1.torque_permitted ≡ false
  unfolding evaluate
  evaluate-no_torque s i j now_ns h =
      conclude-no_torque (compared s i j now_ns) (Machine.evaluate s.channel_a i).1
        (Machine.evaluate s.channel_b j).1 h
