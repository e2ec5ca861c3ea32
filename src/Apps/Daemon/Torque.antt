-- ===== src/Apps/Daemon/Torque.antt =====
-- When a cycle of the daemon may publish a permission of torque.
use safeedge.Safety.BlackChannel.Receiver.{SafetyReceiver}
use safeedge.Safety.DualChannel.{DualChannelSupervisor}
use safeedge.Common.{All, ◌⊎◌}
use safeedge.Common.{
  ℕ, ◌+◌, ◌*◌, ℤ, pos, ◌≡◌, ap, ◌∙◌, Bool, true, false, List, [], ◌∷◌, arith, FloatingPoint,
  Bool-cases, inl, inr, if_both,
}
use safeedge.Safety.Types.{SafetyOutputs, is_fault}
use safeedge.Safety.Machine
use safeedge.Safety.Machine.Invariant.{evaluate-fault_latched, evaluate-demand, evaluate-latched}
use safeedge.Safety.DualChannel.Stop.{evaluate-channel_a, evaluate-no_torque}
use safeedge.Apps.Daemon.{
  flag, SafetyOutputs, Literals, Reading, Control, cycle, run, decide, inputs_of, pass_telegram,
  note_transition, snapshot_of,
}

-- Channel A has a fault latched.
abbrev pub IsStopped : {Double : Type 0} → Control Double → Type 0
IsStopped c = is_fault c.supervisor.channel_a.fault ≡ true

module _ {Double : Type 0} ⦃fp : FloatingPoint Double⦄ (literals : Literals Double) where
  demanded :
      (r : SafetyReceiver) (reading : Reading) (now_ns : ℤ)
      → (reading.estop ≡ true) ⊎ (r.safe_state ≡ true)
      → Machine.unconditional_demand_active (inputs_of literals r reading now_ns) ≡ true
  unfolding inputs_of Machine.unconditional_demand_active
  demanded r reading now_ns (inl e) = ground arith
  demanded r reading now_ns (inr e) = ground arith

  note_transition-IsStopped :
      (c : Control Double) (o : SafetyOutputs Double) (reading : Reading)
      → IsStopped c
      → IsStopped (note_transition c o reading)
  unfolding note_transition
  note_transition-IsStopped c o reading h = if_both IsStopped _ (λ _. h) (λ _. h)

  -- A demand stops the cycle and latches.
  decide_demand :
      (c : Control Double) (reading : Reading) (now_ns : ℤ)
      → Machine.unconditional_demand_active (inputs_of literals c.receiver reading now_ns) ≡ true
      → ((decide literals c reading now_ns).1.torque_permitted ≡ false)
        × (is_fault (decide literals c reading now_ns).0.channel_a.fault ≡ true)
  unfolding decide
  decide_demand c reading now_ns d =
      let i = inputs_of literals c.receiver reading now_ns in
      let s = c.supervisor in
      let denied = evaluate-demand s.channel_a i d in
      (
        evaluate-no_torque s i i now_ns denied.0.torque,
        evaluate-channel_a s i i now_ns (evaluate-fault_latched s.channel_a i ∙ denied.1),
      )

  -- Without an acknowledgement a latched fault stays, and denies torque.
  decide_latched :
      (c : Control Double) (reading : Reading) (now_ns : ℤ)
      → is_fault c.supervisor.channel_a.fault ≡ true
      → reading.acknowledge ≡ false
      → ((decide literals c reading now_ns).1.torque_permitted ≡ false)
        × (is_fault (decide literals c reading now_ns).0.channel_a.fault ≡ true)
  unfolding decide
  decide_latched c reading now_ns h a =
      let i = inputs_of literals c.receiver reading now_ns in
      let s = c.supervisor in
      elim (Bool-cases (Machine.unconditional_demand_active i)) [
        | inl d ↦ decide_demand c reading now_ns d
        | inr d ↦
            let (denied, kept) = evaluate-latched s.channel_a i h d in
            (
              evaluate-no_torque s i i now_ns denied.torque,
              evaluate-channel_a s i i now_ns (ap is_fault kept ∙ rw a h),
            )
      ]

  pub pass_telegram-supervisor :
      (c : Control Double) (now_ns : ℤ) → (pass_telegram c now_ns).supervisor ≡ c.supervisor
  unfolding pass_telegram
  pass_telegram-supervisor c now_ns = ground arith

  cycle_refused :
      (applied : Bool) (period index : ℕ) (reading : Reading) (c : Control Double)
      → let passed = pass_telegram c (pos (period * index)) in
        let decided = decide literals passed reading (pos (period * index)) in
        (decided.1.torque_permitted ≡ false)
        → is_fault decided.0.channel_a.fault ≡ true
        → ((cycle literals applied period index reading c).1.torque_permitted ≡ 0)
          × IsStopped (cycle literals applied period index reading c).0
  unfolding cycle snapshot_of
  cycle_refused applied period index reading c off latched =
      let now_ns = pos (period * index) in
      let passed = pass_telegram c now_ns in
      let decided = decide literals passed reading now_ns in
      (
        ap flag off,
        note_transition-IsStopped (record passed { supervisor = decided.0 }) decided.1 reading
            latched,
      )

  -- A cycle that reads the emergency stop, or whose receiver is in the safe state after its telegram,
  -- publishes that torque is not permitted and leaves a latched fault, whatever the state
  -- before it and the acknowledgement.
  pub cycle_demand :
      (applied : Bool) (period index : ℕ) (reading : Reading) (c : Control Double)
      → (reading.estop ≡ true)
        ⊎ ((pass_telegram c (pos (period * index))).receiver.safe_state ≡ true)
      → ((cycle literals applied period index reading c).1.torque_permitted ≡ 0)
        × IsStopped (cycle literals applied period index reading c).0
  cycle_demand applied period index reading c cause =
      let now_ns = pos (period * index) in
      let passed = pass_telegram c now_ns in
      let d = decide_demand passed reading now_ns (demanded passed.receiver reading now_ns cause) in
      cycle_refused applied period index reading c d.0 d.1

  cycle_latched :
      (applied : Bool) (period index : ℕ) (reading : Reading) (c : Control Double)
      → IsStopped c
      → reading.acknowledge ≡ false
      → ((cycle literals applied period index reading c).1.torque_permitted ≡ 0)
        × IsStopped (cycle literals applied period index reading c).0
  cycle_latched applied period index reading c h a =
      let now_ns = pos (period * index) in
      let passed = pass_telegram c now_ns in
      let kept : is_fault passed.supervisor.channel_a.fault ≡ true =
        ap (λ (s : DualChannelSupervisor Double). is_fault s.channel_a.fault)
          (pass_telegram-supervisor c now_ns)
        ∙ h in
      let d = decide_latched passed reading now_ns kept a in
      cycle_refused applied period index reading c d.0 d.1

  -- Once a fault is latched in channel A, no run of cycles without an acknowledgement publishes a
  -- permission of torque again, whatever the emergency stop and the telegrams do meanwhile:
  -- clearing the emergency stop does not restart the machine.
  pub run-IsStopped :
      (applied : Bool) (period index : ℕ) (readings : List Reading) (c : Control Double)
      → IsStopped c
      → All (λ r. r.acknowledge ≡ false) readings
      → All (λ s. s.torque_permitted ≡ 0) (run literals applied period index readings c).1
        × IsStopped (run literals applied period index readings c).0
  unfolding run
  run-IsStopped applied period index [] c h a = (tt, h)
  run-IsStopped applied period index (reading ∷ readings) c h a =
      let here = cycle_latched applied period index reading c h a.0 in
      let rest =
        run-IsStopped applied period (index + 1) readings
          (cycle literals applied period index reading c).0 here.1 a.1 in
      ((here.0, rest.0), rest.1)
