-- ===== src/Apps/Daemon/Slow.antt =====
-- What happens at a period above the watchdog's time.
use mathlib.Core.Option.{some}
use safeedge.Safety.Types.{self_test}
use safeedge.Safety.Machine
use safeedge.Safety.DualChannel
use safeedge.Safety.DualChannel.Stop.{evaluate-no_torque}
use safeedge.Safety.DualChannel.{DualChannelSupervisor}
use safeedge.Safety.Machine.Invariant.{evaluate-torque}
use safeedge.Apps.Daemon.{inputs_of, decide, flag, snapshot_of}
use safeedge.Apps.Daemon.Torque.{pass_telegram-supervisor}
use safeedge.Apps.Daemon.Startup.{period_of, period_of_watchdog}
use safeedge.Apps.Daemon.{start_control, watchdog_ns, payload_in}
use safeedge.Safety.BlackChannel.Receiver.{new_receiver}
use safeedge.Safety.BlackChannel.Sender.{new_sender}
use safeedge.Apps.Daemon.Telegrams.{next_delay}
use safeedge.Common.{
  ℕ, ◌+◌, ◌*◌, ◌≤◌, ◌<◌, pos, ℤ, ◌≡◌, ◌≢◌, refl, ap, ◌∙◌, Bool, true, false, List, [], ◌∷◌, All,
  length, arith, FloatingPoint, Bool-cases, inl, inr, if_both,
}
use safeedge.Safety.BlackChannel.Telegram.{view, SafetyAddress, max_telegram_bytes}
use safeedge.Safety.BlackChannel.Sender.{encode}
use safeedge.Safety.BlackChannel.Delivery.{receive-refused, receive-Deliverable}
use safeedge.Safety.BlackChannel.Receiver.{SafetyReceiver, valid, receive, is_late}
use safeedge.Apps.Daemon.{
  payload_in, Literals, Reading, Control, cycle, run, pass_telegram, is_valid_status,
}
use safeedge.Apps.Daemon.Telegrams.{Ready, pass_telegram-Passed, encode_done, cycle_telegrams}
use safeedge.Apps.Daemon.Torque.{cycle_demand}

receive_safe_state :
    (r : SafetyReceiver) (raw : List ℕ) (now_ns : ℤ) (out : List ℕ)
    → r.safe_state ≡ true
    → (receive r raw now_ns out).0.safe_state ≡ true
unfolding receive
receive_safe_state r raw now_ns out h = ground arith

late_refused :
    (r : SafetyReceiver) (raw : List ℕ) (now_ns : ℤ) (out : List ℕ)
    → r.synchronised ≡ true
    → is_late r now_ns ≡ true
    → (receive r raw now_ns out).1.status ≢ valid
late_refused r raw now_ns out s l e =
    let prompt = (receive-Deliverable r raw now_ns out e).in_time s in cc

-- A telegram whose receiver ends in the safe state.
pass_telegram_safe_state :
    {Double : Type 0} (c : Control Double) (now_ns : ℤ)
    → (receive c.receiver
        (view (encode c.sender payload_in 0 c.telegram).2)
        now_ns
        c.payload_out).0.safe_state
      ≡ true
    → (pass_telegram c now_ns).receiver.safe_state ≡ true
unfolding pass_telegram
pass_telegram_safe_state c now_ns h =
    let (done, sender, telegram) = encode c.sender payload_in 0 c.telegram in
    let (receiver, received) = receive c.receiver (view telegram) now_ns c.payload_out in
    if_both (λ (c' : Control _). c'.receiver.safe_state ≡ true) done
      (λ _.
        if_both (λ (c' : Control _). c'.receiver.safe_state ≡ true)
          (is_valid_status received.status) (λ _. h) (λ _. h))
      (λ bad. absurd (let ok = encode_done c.sender c.telegram in cc))

-- Synchronised at the telegram of the cycle before `index + 1`.
record IsBehind (period index : ℕ) (r : SafetyReceiver) : Type 0 where
  synchronised : r.synchronised ≡ true
  time : r.last_valid_ns ≡ pos (period * index)
  watchdog : r.watchdog_ns ≡ watchdog_ns

behind_late :
    (period index : ℕ) (r : SafetyReceiver)
    → 50_000_000 < period
    → IsBehind period index r
    → is_late r (pos (period * (index + 1))) ≡ true
behind_late period index r h v = rw (v.time, v.watchdog, next_delay period index) (ground arith)

module _ {Double : Type 0} ⦃fp : FloatingPoint Double⦄ (literals : Literals Double) where
  cycle_safe_state :
      (applied : Bool) (period index : ℕ) (reading : Reading) (c : Control Double)
      → (pass_telegram c (pos (period * index))).receiver.safe_state ≡ true
      → ((cycle literals applied period index reading c).1.torque_permitted ≡ 0)
        × ((cycle literals applied period index reading c).0.receiver.safe_state ≡ true)
  cycle_safe_state applied period index reading c h = (
    (cycle_demand literals applied period index reading c (inr h)).0,
    cycle_telegrams literals (λ s r t out a j. r.safe_state ≡ true) applied period index reading c
        h,
  )

  -- Once the receiver is in the safe state, no cycle ever permits torque again, and no
  -- acknowledgement helps: the daemon does not reset its receiver.
  pub run_silenced :
      (applied : Bool) (period index : ℕ) (readings : List Reading) (c : Control Double)
      → c.receiver.safe_state ≡ true
      → All (λ s. s.torque_permitted ≡ 0) (run literals applied period index readings c).1
        × ((run literals applied period index readings c).0.receiver.safe_state ≡ true)
  unfolding run
  run_silenced applied period index [] c h = (tt, h)
  run_silenced applied period index (reading ∷ readings) c h =
      let now_ns = pos (period * index) in
      let stuck = pass_telegram_safe_state c now_ns (
        receive_safe_state c.receiver (view (encode c.sender payload_in 0 c.telegram).2) now_ns
          c.payload_out h) in
      let here = cycle_safe_state applied period index reading c stuck in
      let rest =
        run_silenced applied period (index + 1) readings
          (cycle literals applied period index reading c).0 here.1 in
      ((here.0, rest.0), rest.1)

  behind_silenced :
      (applied : Bool) (period index : ℕ) (readings : List Reading) (c : Control Double)
      → 50_000_000 < period
      → IsBehind period index c.receiver
      → All (λ s. s.torque_permitted ≡ 0) (run literals applied period (index + 1) readings c).1
  unfolding run
  behind_silenced applied period index [] c h v = tt
  behind_silenced applied period index (reading ∷ readings) c h v =
      let now_ns = pos (period * (index + 1)) in
      let raw = view (encode c.sender payload_in 0 c.telegram).2 in
      let refused =
        late_refused c.receiver raw now_ns c.payload_out v.synchronised
          (behind_late period index c.receiver h v) in
      let stuck =
        pass_telegram_safe_state c now_ns
          (receive-refused c.receiver raw now_ns c.payload_out refused).0 in
      let here = cycle_safe_state applied period (index + 1) reading c stuck in
      let rest =
        run_silenced applied period (index + 1 + 1) readings
          (cycle literals applied period (index + 1) reading c).0 here.1 in
      (here.0, rest.0)

  -- With a period above the watchdog's 50 milliseconds, the first telegram is accepted and the second
  -- one is late: from the second cycle on no cycle permits torque, whatever is acknowledged.
  pub slow_run :
      (applied : Bool) (period index : ℕ) (reading : Reading) (readings : List Reading)
      (c : Control Double)
      → 50_000_000 < period
      → Ready period index c
      → All
          (λ s. s.torque_permitted ≡ 0)
          (run literals applied period
            (index + 1)
            readings
            (cycle literals applied period index reading c).0).1
  slow_run applied period index reading readings c h v =
      let x = pass_telegram-Passed period index c v in
      let behind : IsBehind period index (pass_telegram c (pos (period * index))).receiver =
        record {
          synchronised = x.synchronised;
          time = x.time;
          watchdog = x.watchdog ∙ v.watchdog;
        } in
      behind_silenced applied period index readings
        (cycle literals applied period index reading c).0 h
        (cycle_telegrams literals (λ s r t out a j. IsBehind period index r) applied period index
          reading c behind)

  -- The control thread before its first cycle is ready.
  pub start_control-IsReady :
      (address : SafetyAddress) (buffer out : List ℕ) (now_ns period : ℕ)
      → length buffer ≡ max_telegram_bytes
      → 8 ≤ length out
      → Ready period 0 (start_control literals address buffer out now_ns)
  unfolding start_control new_sender new_receiver
  start_control-IsReady address buffer out now_ns period b o = record {
    in_step = record {
      same_address = refl;
      unlatched = refl;
      in_range = omega arith;
      expected = λ s. absurd (ground arith);
    };
    buffer = b;
    room = o;
    watchdog = refl;
    prompt = refl;
  }

  untested :
      (c : Control Double) (reading : Reading) (now_ns : ℤ)
      → c.supervisor.channel_a.state ≡ self_test
      → (decide literals c reading now_ns).1.torque_permitted ≡ false
  unfolding decide
  untested c reading now_ns h =
      let i = inputs_of literals c.receiver reading now_ns in
      evaluate-no_torque c.supervisor i i now_ns
        (elim (Bool-cases (Machine.evaluate c.supervisor.channel_a i).1.torque_permitted) [
          | inl on ↦ absurd ((evaluate-torque c.supervisor.channel_a i on).was_tested h)
          | inr off ↦ off
        ])

  -- The first cycle only leaves the self test.
  first_cycle :
      (applied : Bool) (period : ℕ) (reading : Reading) (c : Control Double)
      → c.supervisor.channel_a.state ≡ self_test
      → (cycle literals applied period 0 reading c).1.torque_permitted ≡ 0
  unfolding cycle snapshot_of
  first_cycle applied period reading c h =
      let now_ns = pos (period * 0) in
      let passed = pass_telegram c now_ns in
      ap flag (
        untested passed reading now_ns (
          ap (λ (s : DualChannelSupervisor Double). s.channel_a.state)
            (pass_telegram-supervisor literals c now_ns)
          ∙ h))

  start_untested :
      (address : SafetyAddress) (buffer out : List ℕ) (now_ns : ℕ)
      → (start_control literals address buffer out now_ns).supervisor.channel_a.state ≡ self_test
  unfolding start_control DualChannel.supervisor Machine.power_on
  start_untested address buffer out now_ns = refl

  -- A daemon that is started with an accepted frequency below 20 per second never permits torque, in
  -- any run of its cycles and whatever is read and acknowledged in them: its period is above the
  -- watchdog of its own receiver.
  pub slow_frequency :
      (hz period : ℕ) (applied : Bool) (readings : List Reading) (address : SafetyAddress)
      (buffer out : List ℕ) (now_ns : ℕ)
      → hz < 20
      → period_of (pos hz) ≡ some period
      → length buffer ≡ max_telegram_bytes
      → 8 ≤ length out
      → All
          (λ s. s.torque_permitted ≡ 0)
          (run literals applied period 0 readings
            (start_control literals address buffer out now_ns)).1
  unfolding run
  slow_frequency hz period applied [] address buffer out now_ns h p b o = tt
  slow_frequency hz period applied (reading ∷ readings) address buffer out now_ns h p b o =
      let c = start_control literals address buffer out now_ns in
      let slow : 50000000 < period = elim (period_of_watchdog hz period p) [
        | inl fast ↦ absurd (omega arith)
        | inr slow ↦ slow.1
      ] in
      (
        first_cycle applied period reading c (start_untested address buffer out now_ns),
        slow_run applied period 0 reading readings c slow
            (start_control-IsReady address buffer out now_ns period b o),
      )
