-- ===== src/Apps/Daemon/Telegrams.antt =====
-- The telegrams of the control cycle: at which periods every one of them is accepted.
use safeedge.Safety.Types.{SafetyOutputs}
use safeedge.Safety.BlackChannel.Delivery.{receive_synchronised}
use safeedge.Common.{
  eq_of_parts, ℕ, ◌+◌, ◌*◌, ◌^◌, ◌≤◌, ◌<◌, u64, ℤ, pos, ◌-ℤ◌, -ℤ_parts, ◌≡◌, refl, ap, ◌∙◌, Bool,
  true, false, ◌&&◌, List, [], ◌∷◌, length, arith, FloatingPoint, if_both, length-write_bytes,
}
use safeedge.Safety.BlackChannel.Telegram.{Telegram, view, max_telegram_bytes}
use safeedge.Safety.BlackChannel.Sender.{SafetySender, encode}
use safeedge.Safety.BlackChannel.Receiver.{SafetyReceiver, Received, valid, receive, is_late}
use safeedge.Safety.BlackChannel.RoundTrip.{IsBytes, InStep, exchange, exchange-Exchanged}
use safeedge.Apps.Daemon.{
  SafetyOutputs, is_valid_status, Literals, Reading, Control, cycle, run, decide, pass_telegram,
  note_transition, payload_in, watchdog_ns,
}

-- The two ends are in step, their buffers have their sizes, and a telegram at the time of the cycle
-- is not late.
pub record IsReady (period index : ℕ) (s : SafetySender) (r : SafetyReceiver) (t : Telegram)
    (out : List ℕ) : Type 0 where
  pub in_step : InStep s r
  pub buffer : length t.bytes ≡ max_telegram_bytes
  pub room : 8 ≤ length out
  pub watchdog : r.watchdog_ns ≡ watchdog_ns
  pub prompt : r.synchronised && is_late r (pos (period * index)) ≡ false

-- The part of the locals that the telegrams use.
abbrev pub Ready : {Double : Type 0} → ℕ → ℕ → Control Double → Type 0
Ready period index c = IsReady period index c.sender c.receiver c.telegram c.payload_out

-- A cycle that accepted its telegram, at `now_ns`.
pub record Passed {Double : Type 0} (c c' : Control Double) (now_ns : ℤ) : Type 0 where
  pub in_step : InStep c'.sender c'.receiver
  pub buffer : length c'.telegram.bytes ≡ max_telegram_bytes
  pub room : length c'.payload_out ≡ length c.payload_out
  pub watchdog : c'.receiver.watchdog_ns ≡ c.receiver.watchdog_ns
  pub time : c'.receiver.last_valid_ns ≡ now_ns
  pub synchronised : c'.receiver.synchronised ≡ true
  pub accepted : c'.accepted ≡ u64 (c.accepted + 1)
  pub rejected : c'.rejected ≡ c.rejected

payload_in-IsBytes : IsBytes payload_in
payload_in-IsBytes = (
  omega arith,
  (
    omega arith,
    (omega arith, (omega arith, (omega arith, (omega arith, (omega arith, (omega arith, tt)))))),
  ),
)

pub encode_done : (s : SafetySender) (t : Telegram) → (encode s payload_in 0 t).0 ≡ true
unfolding encode
encode_done s t = refl

valid_status : (r : Received) → r.status ≡ valid → is_valid_status r.status ≡ true
valid_status r e = rw e refl

pub pass_telegram-Passed :
    {Double : Type 0} (period index : ℕ) (c : Control Double)
    → Ready period index c
    → Passed c (pass_telegram c (pos (period * index))) (pos (period * index))
unfolding pass_telegram exchange
pass_telegram-Passed period index c v =
    let now_ns = pos (period * index) in
    let x =
      exchange-Exchanged c.sender c.receiver c.telegram c.payload_out payload_in 0 now_ns v.in_step
        v.buffer payload_in-IsBytes (omega arith) (omega arith) v.room v.prompt in
    let (done, sender, telegram) = encode c.sender payload_in 0 c.telegram in
    let (receiver, received) = receive c.receiver (view telegram) now_ns c.payload_out in
    let good : received.status ≡ valid = ap (λ (a : Received). a.status) x.received in
    if_both (λ c'. Passed c c' now_ns) done
      (λ _.
        if_both (λ c'. Passed c c' now_ns) (is_valid_status received.status)
          (λ _. record {
            in_step = x.in_step;
            buffer = x.buffer;
            room =
                ap (λ (a : Received). length a.payload_out) x.received
                ∙ length-write_bytes c.payload_out 0 payload_in;
            watchdog = x.watchdog;
            time = x.time;
            synchronised =
                receive_synchronised c.receiver (view telegram) now_ns c.payload_out good;
            accepted = refl;
            rejected = refl;
          })
          (λ bad. absurd (let ok = valid_status received good in cc)))
      (λ bad. absurd (let ok = encode_done c.sender c.telegram in cc))

-- The time from one cycle's telegram to the next is the period.
pub next_delay :
    (period index : ℕ) → pos (period * (index + 1)) -ℤ pos (period * index) ≡ pos period
next_delay period index =
    let d = -ℤ_parts (pos (period * (index + 1))) (pos (period * index)) in
    let step : period * (index + 1) ≡ period * index + period = omega arith in
    eq_of_parts _ _ (omega arith)

not_late : (b c : Bool) → c ≡ false → b && c ≡ false
not_late b c e = ground arith

-- With a period of at most the watchdog's time, the next cycle is ready too.
next-IsReady :
    {Double : Type 0} (period index : ℕ) (c c' : Control Double)
    → period ≤ 50_000_000
    → Ready period index c
    → Passed c c' (pos (period * index))
    → Ready period (index + 1) c'
next-IsReady period index c c' h v x = record {
  in_step = x.in_step;
  buffer = x.buffer;
  room = rw x.room v.room;
  watchdog = x.watchdog ∙ v.watchdog;
  prompt =
      not_late c'.receiver.synchronised (is_late c'.receiver (pos (period * (index + 1))))
        (rw (x.watchdog, v.watchdog, x.time, next_delay period index) (ground arith));
}

module _ {Double : Type 0} ⦃fp : FloatingPoint Double⦄ (literals : Literals Double) where
  -- The supervisor's part of a cycle leaves the telegrams alone.
  note_transition_telegrams :
      (P : SafetySender → SafetyReceiver → Telegram → List ℕ → ℕ → ℕ → Type 0) (c : Control Double)
      (o : SafetyOutputs Double) (reading : Reading)
      → P c.sender c.receiver c.telegram c.payload_out c.accepted c.rejected
      → let c' = note_transition c o reading in
        P c'.sender c'.receiver c'.telegram c'.payload_out c'.accepted c'.rejected
  unfolding note_transition
  note_transition_telegrams P c o reading h =
      if_both
        (λ (c' : Control Double).
          P c'.sender c'.receiver c'.telegram c'.payload_out c'.accepted c'.rejected)
        _ (λ _. h) (λ _. h)

  pub cycle_telegrams :
      (P : SafetySender → SafetyReceiver → Telegram → List ℕ → ℕ → ℕ → Type 0) (applied : Bool)
      (period index : ℕ) (reading : Reading) (c : Control Double)
      → let p = pass_telegram c (pos (period * index)) in
        P p.sender p.receiver p.telegram p.payload_out p.accepted p.rejected
        → let c' = (cycle literals applied period index reading c).0 in
          P c'.sender c'.receiver c'.telegram c'.payload_out c'.accepted c'.rejected
  unfolding cycle
  cycle_telegrams P applied period index reading c h =
      let p = pass_telegram c (pos (period * index)) in
      let decided = decide literals p reading (pos (period * index)) in
      note_transition_telegrams P (record p { supervisor = decided.0 }) decided.1 reading h

  -- A cycle that is ready accepts its telegram, and the next one is ready.
  cycle-Ready :
      (applied : Bool) (period index : ℕ) (reading : Reading) (c : Control Double)
      → period ≤ 50_000_000
      → Ready period index c
      → Ready period (index + 1) (cycle literals applied period index reading c).0
        × ((cycle literals applied period index reading c).0.accepted ≡ u64 (c.accepted + 1))
        × ((cycle literals applied period index reading c).0.rejected ≡ c.rejected)
  cycle-Ready applied period index reading c h v =
      let x = pass_telegram-Passed period index c v in
      cycle_telegrams
        (λ s r t out a j.
          IsReady period (index + 1) s r t out × (a ≡ u64 (c.accepted + 1)) × (j ≡ c.rejected))
        applied period index reading c
        (
          next-IsReady period index c (pass_telegram c (pos (period * index))) h v x,
          x.accepted,
          x.rejected,
        )

  -- At a period of at most 50 milliseconds the telegram of every cycle is accepted, for any number of
  -- cycles below 2 ^ 64 and whatever the clocks and the flags read: the accepted telegrams count the
  -- cycles, none is rejected, and the receiver does not enter the safe state.
  pub run_accepts :
      (applied : Bool) (period index : ℕ) (readings : List Reading) (c : Control Double)
      → period ≤ 50_000_000
      → Ready period index c
      → c.accepted + length readings < 2 ^ 64
      → let c' = (run literals applied period index readings c).0 in
        (c'.accepted ≡ c.accepted + length readings)
        × (c'.rejected ≡ c.rejected)
        × (c'.receiver.safe_state ≡ false)
  unfolding run
  run_accepts applied period index [] c h v b = (omega arith, refl, v.in_step.unlatched)
  run_accepts applied period index (reading ∷ readings) c h v b =
      let (ready, accepted, rejected) = cycle-Ready applied period index reading c h v in
      let (all, none_rejected, unlatched) =
        run_accepts applied period (index + 1) readings
          (cycle literals applied period index reading c).0 h ready (omega arith) in
      (omega arith, none_rejected ∙ rejected, unlatched)
