-- ===== src/Safety/BlackChannel/Delivery.antt =====
-- What `receive` and `poll` guarantee of any input at all: when a payload is delivered, and what
-- happens when it is not.
use safeedge.Common.{ℕ, ◌≤◌, ◌≡◌, ◌≢◌, ◌⊎◌, refl, ℤ, true, false, List, [], ◌∷◌, length, arith}
use safeedge.Safety.BlackChannel.Telegram.{overhead_bytes, max_telegram_bytes}
use safeedge.Safety.BlackChannel.Sender.{successor}
use safeedge.Safety.BlackChannel.Receiver.{
  Received, accept, unacceptable_delay, refuse, latch, SafetyReceiver, ReceiveStatus, valid,
  timeout, in_safe_state, receive, receive_authentic, poll, nothing, crc_matches, is_late,
  payload_length, payload_of, status_of, consecutive_number_of,
}

-- What had to hold of a receiver and a telegram for its payload to be delivered.
pub record Deliverable (r : SafetyReceiver) (raw : List ℕ) (now_ns : ℤ) (payload_out : List ℕ)
    : Type 0 where
  pub unlatched : r.safe_state ≡ false
  pub long_enough : overhead_bytes ≤ length raw
  pub short_enough : length raw ≤ max_telegram_bytes
  pub fits : payload_length raw ≤ length payload_out
  pub authentic : crc_matches r.address raw ≡ true
  pub in_time : r.synchronised ≡ true → is_late r now_ns ≡ false
  pub in_order :
      r.synchronised ≡ true → consecutive_number_of raw ≡ successor r.last_consecutive_number

authentic_in_order :
    (r : SafetyReceiver) (payload : List ℕ) (status n : ℕ) (now_ns : ℤ) (out : List ℕ)
    → (receive_authentic r payload status n now_ns out).1.status ≡ valid
    → r.synchronised ≡ true
    → n ≡ successor r.last_consecutive_number
unfolding receive_authentic
authentic_in_order r payload status n now_ns out h s = ground arith

-- `receive` reports a valid telegram only if the receiver had no fault latched, the telegram and its
-- payload fit, the checksum matches under the receiver's own address, and, once synchronised, the
-- telegram is in time and carries the number after the last one.
pub receive-Deliverable :
    (r : SafetyReceiver) (raw : List ℕ) (now_ns : ℤ) (payload_out : List ℕ)
    → (receive r raw now_ns payload_out).1.status ≡ valid
    → Deliverable r raw now_ns payload_out
unfolding receive
receive-Deliverable r raw now_ns payload_out h = ground (
  arith,
  authentic_in_order r (payload_of raw) (status_of raw) (consecutive_number_of raw) now_ns
      payload_out,
)

authentic_refused :
    (r : SafetyReceiver) (payload : List ℕ) (status n : ℕ) (now_ns : ℤ) (out : List ℕ)
    → ((receive_authentic r payload status n now_ns out).1.status ≡ valid)
      ⊎ (((receive_authentic r payload status n now_ns out).0.safe_state ≡ true)
          × ((receive_authentic r payload status n now_ns out).1
              ≡ nothing (receive_authentic r payload status n now_ns out).1.status out))
unfolding receive_authentic
authentic_refused r payload status n now_ns out = ground arith

-- A telegram that is not valid leaves the receiver in the safe state, and delivers nothing: the
-- caller's buffer is untouched, and payload size and status byte read zero.
pub receive-refused :
    (r : SafetyReceiver) (raw : List ℕ) (now_ns : ℤ) (payload_out : List ℕ)
    → (receive r raw now_ns payload_out).1.status ≢ valid
    → ((receive r raw now_ns payload_out).0.safe_state ≡ true)
      × ((receive r raw now_ns payload_out).1
          ≡ nothing (receive r raw now_ns payload_out).1.status payload_out)
unfolding receive
receive-refused r raw now_ns payload_out h = ground (
  arith,
  authentic_refused r (payload_of raw) (status_of raw) (consecutive_number_of raw) now_ns
      payload_out,
)

-- A call of the receiver other than an acknowledgement.
pub data Call : Type 0 where
  receives : List ℕ → ℤ → List ℕ → Call
  polls : ℤ → Call

-- What a call gives back: of `receive` its result and what it wrote, of `poll` its result.
pub data Reply : Type 0 where
  received : Received → Reply
  polled : ReceiveStatus → Reply

unfoldable pub step : SafetyReceiver → Call → SafetyReceiver × Reply
step r (receives raw now_ns payload_out) =
    let (r', result) = receive r raw now_ns payload_out in (r', received result)
step r (polls now_ns) = let (r', status) = poll r now_ns in (r', polled status)

-- The receiver after a list of calls, and what each gave back.
unfoldable pub run : SafetyReceiver → List Call → SafetyReceiver × List Reply
run r [] = (r, [])
run r (c ∷ cs) = let (r', reply) = step r c in let (r'', rest) = run r' cs in (r'', reply ∷ rest)

-- A reply that delivers nothing: it says that the receiver is in the safe state, and after `receive`
-- the buffer is the caller's own, and the size and the status byte are zero.
abbrev pub refusal : Call → Reply
refusal (receives raw now_ns payload_out) =
    received
      record { status = in_safe_state; payload_out = payload_out; payload_size = 0; status_out = 0 }
refusal (polls now_ns) = polled in_safe_state

abbrev pub refusals : List Call → List Reply
refusals [] = []
refusals (c ∷ cs) = refusal c ∷ refusals cs

step_safe_state : (r : SafetyReceiver) (c : Call) → r.safe_state ≡ true → step r c ≡ (r, refusal c)
unfolding step receive poll
step_safe_state r (receives raw now_ns payload_out) h = ground arith
step_safe_state r (polls now_ns) h = ground arith

-- Once a fault is latched, no sequence of telegrams and polls delivers anything or changes the
-- receiver: every call reports the safe state, and every `receive` leaves the caller's buffer as it
-- was and the size and the status byte at zero.
pub run_safe_state :
    (r : SafetyReceiver) (cs : List Call) → r.safe_state ≡ true → run r cs ≡ (r, refusals cs)
unfolding run
run_safe_state r [] h = refl
run_safe_state r (c ∷ cs) h = rw (step_safe_state r c h, run_safe_state r cs h) refl

-- When `poll` times out, a well-formed and authentic telegram at that time is refused the same way:
-- the watchdog counts it as a timeout and latches, and only the recorded fault differs.
pub poll-receive :
    (r : SafetyReceiver) (raw : List ℕ) (now_ns : ℤ) (payload_out : List ℕ)
    → overhead_bytes ≤ length raw
    → length raw ≤ max_telegram_bytes
    → payload_length raw ≤ length payload_out
    → crc_matches r.address raw ≡ true
    → (poll r now_ns).1 ≡ timeout
    → receive r raw now_ns payload_out
      ≡ (record (poll r now_ns).0 { last_fault = unacceptable_delay }, nothing timeout payload_out)
unfolding receive poll latch refuse
poll-receive r raw now_ns payload_out a b c d e = ground arith

authentic_synchronised :
    (r : SafetyReceiver) (payload : List ℕ) (status n : ℕ) (now_ns : ℤ) (out : List ℕ)
    → (receive_authentic r payload status n now_ns out).1.status ≡ valid
    → (receive_authentic r payload status n now_ns out).0.synchronised ≡ true
unfolding receive_authentic accept
authentic_synchronised r payload status n now_ns out h = ground arith

-- A receiver that has accepted a telegram is synchronised.
pub receive_synchronised :
    (r : SafetyReceiver) (raw : List ℕ) (now_ns : ℤ) (payload_out : List ℕ)
    → (receive r raw now_ns payload_out).1.status ≡ valid
    → (receive r raw now_ns payload_out).0.synchronised ≡ true
unfolding receive
receive_synchronised r raw now_ns payload_out h = ground (
  arith,
  authentic_synchronised r (payload_of raw) (status_of raw) (consecutive_number_of raw) now_ns
      payload_out,
)
