-- ===== src/Safety/BlackChannel/RoundTrip.antt =====
-- A sender and a receiver in step: every telegram arrives as it was sent, over any number of
-- telegrams and over the wrap of the consecutive number.
use safeedge.Common.{
  ◌&&◌, ltb, ℕ, ◌+◌, ◌≤◌, ◌<◌, ◌^◌, ◌%◌, ◌/◌, ◌≡◌, sym, ap, subst, ◌∙◌, ℤ, true, false, List, [],
  ◌∷◌, All, length, write_bytes, length-write_bytes, arith, Bool-cases, inl, inr,
}
use safeedge.Common.Xor.{xor-lt}
use safeedge.Safety.Crc32
use safeedge.Safety.Crc32.{initial, final_xor}
use safeedge.Safety.Crc32.Detection.{update_byte-lt, update-lt}
use safeedge.Safety.BlackChannel.Telegram.{
  SafetyAddress, Telegram, view, overhead_bytes, max_payload_bytes, max_telegram_bytes,
  compute_telegram_crc, write_u32_le, u32_le,
}
use safeedge.Safety.BlackChannel.Sender.{SafetySender, encode, successor}
use safeedge.Safety.BlackChannel.Receiver.{
  SafetyReceiver, Received, valid, receive, receive_authentic, crc_matches, is_late, payload_length,
  payload_of, status_of, consecutive_number_of,
}
use safeedge.Safety.BlackChannel.Frame.{
  frame, length-frame, payload_of-frame, status_of-frame, consecutive_number_of-frame, crc_of-frame,
  encode-frame,
}
use safeedge.Safety.BlackChannel.Sequence.{successor_bounds}

-- Both ends share the address and the receiver expects the sender's next number.
pub record InStep (s : SafetySender) (r : SafetyReceiver) : Type 0 where
  pub same_address : r.address ≡ s.address
  pub unlatched : r.safe_state ≡ false
  pub in_range : s.consecutive_number < 2 ^ 32
  pub expected : r.synchronised ≡ true → s.consecutive_number ≡ successor r.last_consecutive_number

abbrev pub IsBytes : List ℕ → Type 0
IsBytes = All λ (b : ℕ). b < 256

update_u16-lt : (c v : ℕ) → c < 2 ^ 32 → Crc32.update_u16 c v < 2 ^ 32
unfolding Crc32.update_u16
update_u16-lt c v h =
    update_byte-lt _ (v / 2 ^ 8 % 256) (update_byte-lt c (v % 256) h (omega arith)) (omega arith)

update_u32-lt : (c v : ℕ) → c < 2 ^ 32 → Crc32.update_u32 c v < 2 ^ 32
unfolding Crc32.update_u32
update_u32-lt c v h =
    update_byte-lt _ (v / 2 ^ 24 % 256)
      (update_byte-lt _ (v / 2 ^ 16 % 256)
        (update_byte-lt _ (v / 2 ^ 8 % 256) (update_byte-lt c (v % 256) h (omega arith))
          (omega arith))
        (omega arith))
      (omega arith)

pub compute_telegram_crc-lt :
    (a : SafetyAddress) (payload : List ℕ) (status n : ℕ)
    → IsBytes payload
    → status < 256
    → compute_telegram_crc a payload status n < 2 ^ 32
unfolding compute_telegram_crc Crc32.value
compute_telegram_crc-lt a payload status n b h =
    xor-lt 32 _ final_xor
      (update_u32-lt _ a.parameter_signature (
        update_u16-lt _ a.destination (
          update_u16-lt _ a.source (
            update_u32-lt _ n
              (update_byte-lt _ status (update-lt initial payload (omega arith) b) h)))))
      (omega arith)

-- The checksum of a frame that was made for an address matches under that address.
crc_matches-frame :
    (a : SafetyAddress) (payload : List ℕ) (status n : ℕ)
    → IsBytes payload
    → status < 256
    → n < 2 ^ 32
    → crc_matches a (frame payload status n (compute_telegram_crc a payload status n)) ≡ true
unfolding crc_matches
crc_matches-frame a payload status n b h l =
    let crc = compute_telegram_crc a payload status n in
    rw
      (
        crc_of-frame payload status n crc (compute_telegram_crc-lt a payload status n b h),
        payload_of-frame payload status n crc,
        status_of-frame payload status n crc,
        consecutive_number_of-frame payload status n crc l,
      )
      (ground arith)

-- What a call of `receive` leaves when it delivers.
abbrev pub delivered : List ℕ → ℕ → List ℕ → Received
delivered payload status out = record {
  status = valid;
  payload_out = write_bytes out 0 payload;
  payload_size = length payload;
  status_out = status;
}

-- The receiver after it accepted the telegram with number `n` at time `now_ns`.
record Advanced (r r' : SafetyReceiver) (n : ℕ) (now_ns : ℤ) : Type 0 where
  address : r'.address ≡ r.address
  unlatched : r'.safe_state ≡ r.safe_state
  number : r'.last_consecutive_number ≡ n
  time : r'.last_valid_ns ≡ now_ns
  watchdog : r'.watchdog_ns ≡ r.watchdog_ns

authentic-Advanced :
    (r : SafetyReceiver) (payload : List ℕ) (status n : ℕ) (now_ns : ℤ) (out : List ℕ)
    → (r.synchronised ≡ true → n ≡ successor r.last_consecutive_number)
    → ((receive_authentic r payload status n now_ns out).1 ≡ delivered payload status out)
      × Advanced r (receive_authentic r payload status n now_ns out).0 n now_ns
unfolding receive_authentic
authentic-Advanced r payload status n now_ns out h = ground arith

receive_checked :
    (r : SafetyReceiver) (raw : List ℕ) (now_ns : ℤ) (out : List ℕ)
    → r.safe_state ≡ false
    → overhead_bytes ≤ length raw
    → length raw ≤ max_telegram_bytes
    → payload_length raw ≤ length out
    → crc_matches r.address raw ≡ true
    → r.synchronised && is_late r now_ns ≡ false
    → receive r raw now_ns out
      ≡ receive_authentic r (payload_of raw) (status_of raw) (consecutive_number_of raw) now_ns out
unfolding receive
receive_checked r raw now_ns out a b c d e f = ground arith

receive-frame :
    (s : SafetySender) (r : SafetyReceiver) (payload : List ℕ) (status : ℕ) (now_ns : ℤ)
    (out : List ℕ)
    → InStep s r
    → IsBytes payload
    → status < 256
    → length payload ≤ max_payload_bytes
    → length payload ≤ length out
    → r.synchronised && is_late r now_ns ≡ false
    → let crc = compute_telegram_crc s.address payload status s.consecutive_number in
      receive r (frame payload status s.consecutive_number crc) now_ns out
      ≡ receive_authentic r payload status s.consecutive_number now_ns out
receive-frame s r payload status now_ns out v b h l m t =
    let n = s.consecutive_number in
    let crc = compute_telegram_crc s.address payload status n in
    let size = length-frame payload status n crc in
    receive_checked r (frame payload status n crc) now_ns out v.unlatched (omega arith)
      (omega arith) (omega arith)
      (ap (λ (a : SafetyAddress). crc_matches a (frame payload status n crc)) v.same_address
        ∙ crc_matches-frame s.address payload status n b h v.in_range)
      t
    ∙ rw (
      payload_of-frame payload status n crc,
      status_of-frame payload status n crc,
      consecutive_number_of-frame payload status n crc v.in_range,
    )

-- One telegram sent and received.
unfoldable pub exchange :
    SafetySender
    → SafetyReceiver
    → Telegram
    → List ℕ
    → List ℕ × ℕ × ℤ
    → SafetySender × SafetyReceiver × Telegram × Received
exchange s r telegram out (payload, status, now_ns) =
    let (done, s', telegram') = encode s payload status telegram in
    let (r', received) = receive r (view telegram') now_ns out in (s', r', telegram', received)

-- What one exchange of ends in step leaves: the payload and the status are delivered, and the ends
-- are in step again.
pub record Exchanged (r : SafetyReceiver) (payload : List ℕ) (status : ℕ) (now_ns : ℤ)
    (out : List ℕ) (result : SafetySender × SafetyReceiver × Telegram × Received) : Type 0 where
  pub received : result.3 ≡ delivered payload status out
  pub in_step : InStep result.0 result.1
  pub time : result.1.last_valid_ns ≡ now_ns
  pub watchdog : result.1.watchdog_ns ≡ r.watchdog_ns
  pub buffer : length result.2.bytes ≡ max_telegram_bytes

length-encode :
    (s : SafetySender) (payload : List ℕ) (status : ℕ) (t : Telegram)
    → length (encode s payload status t).2.bytes ≡ length t.bytes
unfolding encode write_u32_le
length-encode s payload status t =
    let n = length payload in
    let crc = compute_telegram_crc s.address payload status s.consecutive_number in
    let second = write_bytes (write_bytes t.bytes 0 payload) n (status ∷ []) in
    let third = write_bytes second (n + 1) (u32_le s.consecutive_number) in
    elim (Bool-cases (ltb max_payload_bytes n)) [
      | inl e ↦ rw e
      | inr e ↦ rw e (
          length-write_bytes third (n + 1 + 4) (u32_le crc)
          ∙ (length-write_bytes second (n + 1) (u32_le s.consecutive_number)
              ∙ (length-write_bytes (write_bytes t.bytes 0 payload) n (status ∷ [])
                  ∙ length-write_bytes t.bytes 0 payload)))
    ]

-- A sender and a receiver in step exchange any payload of bytes that fits: `receive` of what
-- `encode` wrote delivers exactly that payload and status, and the ends stay in step.
pub exchange-Exchanged :
    (s : SafetySender) (r : SafetyReceiver) (t : Telegram) (out payload : List ℕ) (status : ℕ)
    (now_ns : ℤ)
    → InStep s r
    → length t.bytes ≡ max_telegram_bytes
    → IsBytes payload
    → status < 256
    → length payload ≤ max_payload_bytes
    → length payload ≤ length out
    → r.synchronised && is_late r now_ns ≡ false
    → Exchanged r payload status now_ns out (exchange s r t out (payload, status, now_ns))
unfolding exchange
exchange-Exchanged s r t out payload status now_ns v k b h l m e =
    let sent = encode-frame s payload status t l k in
    let n = s.consecutive_number in
    let got =
      ap (λ (raw : List ℕ). receive r raw now_ns out) sent.2
      ∙ receive-frame s r payload status now_ns out v b h l m e in
    let adv = authentic-Advanced r payload status n now_ns out v.expected in
    record {
      received = ap (λ (p : SafetyReceiver × Received). p.1) got ∙ adv.0;
      in_step =
          subst
            (λ (p : SafetySender).
              InStep p (receive r (view (encode s payload status t).2) now_ns out).0)
            (sym sent.1)
            (record {
              same_address =
                  ap (λ (p : SafetyReceiver × Received). p.0.address) got
                  ∙ (adv.1.address ∙ v.same_address);
              unlatched =
                  ap (λ (p : SafetyReceiver × Received). p.0.safe_state) got
                  ∙ (adv.1.unlatched ∙ v.unlatched);
              in_range = (successor_bounds n).1;
              expected = λ _. ap successor (
                  sym (
                    ap (λ (p : SafetyReceiver × Received). p.0.last_consecutive_number) got
                    ∙ adv.1.number));
            });
      time = ap (λ (p : SafetyReceiver × Received). p.0.last_valid_ns) got ∙ adv.1.time;
      watchdog = ap (λ (p : SafetyReceiver × Received). p.0.watchdog_ns) got ∙ adv.1.watchdog;
      buffer = length-encode s payload status t ∙ k;
    }
