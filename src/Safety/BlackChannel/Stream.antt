-- ===== src/Safety/BlackChannel/Stream.antt =====
-- Any number of telegrams, one after the other, from a sender to a receiver in step with it.
use safeedge.Common.{
  ℕ, ◌≤◌, ◌<◌, ◌≡◌, refl, ap, ◌∙◌, ℤ, ◌-ℤ◌, ltb_ℤ, Bool, false, ◌&&◌, List, [], ◌∷◌, All, length,
  arith,
}
use safeedge.Safety.BlackChannel.Telegram.{Telegram, max_payload_bytes, max_telegram_bytes}
use safeedge.Safety.BlackChannel.Sender.{SafetySender}
use safeedge.Safety.BlackChannel.Receiver.{SafetyReceiver, Received, is_late}
use safeedge.Safety.BlackChannel.RoundTrip.{
  InStep, IsBytes, delivered, exchange, exchange-Exchanged,
}

-- A payload, its status byte, and the time at which its telegram is received.
abbrev pub Item : Type 0
Item = List ℕ × ℕ × ℤ

-- Each item is sent and received before the next one.
unfoldable pub exchange_all :
    SafetySender
    → SafetyReceiver
    → Telegram
    → List ℕ
    → List Item
    → SafetySender × SafetyReceiver × List Received
exchange_all s r t out [] = (s, r, [])
exchange_all s r t out (item ∷ items) =
    let (s', r', t', received) = exchange s r t out item in
    let (s'', r'', rest) = exchange_all s' r' t' out items in (s'', r'', received ∷ rest)

-- A payload of bytes that fits the telegram and the buffer `out`.
abbrev pub Fits : List ℕ → Item → Type 0
Fits out (payload, status, now_ns) =
    IsBytes payload
    × (status < 256)
    × (length payload ≤ max_payload_bytes)
    × (length payload ≤ length out)

-- No item is received later after the one before than the watchdog allows.
unfoldable pub Prompt : ℤ → ℤ → List Item → Type 0
Prompt watchdog_ns last_ns [] = Unit
Prompt watchdog_ns last_ns ((payload, status, now_ns) ∷ items) =
    (ltb_ℤ watchdog_ns (now_ns -ℤ last_ns) ≡ false) × Prompt watchdog_ns now_ns items

-- What the calls of `receive` should leave.
unfoldable pub delivered_all : List ℕ → List Item → List Received
delivered_all out [] = []
delivered_all out ((payload, status, now_ns) ∷ items) =
    delivered payload status out ∷ delivered_all out items

in_time : (b c : Bool) → c ≡ false → b && c ≡ false
in_time b c e = ground arith

-- A sender and a receiver in step pass on any list of payloads that fit, received one after the
-- other without a delay beyond the watchdog: every payload and status byte is delivered, in order
-- and once, and the ends stay in step, over the wrap of the consecutive number too.
pub exchange_all-delivered_all :
    (s : SafetySender) (r : SafetyReceiver) (t : Telegram) (out : List ℕ) (items : List Item)
    → InStep s r
    → length t.bytes ≡ max_telegram_bytes
    → All (Fits out) items
    → Prompt r.watchdog_ns r.last_valid_ns items
    → InStep (exchange_all s r t out items).0 (exchange_all s r t out items).1
      × ((exchange_all s r t out items).2 ≡ delivered_all out items)
unfolding exchange_all delivered_all Prompt
exchange_all-delivered_all s r t out [] v k f p = (v, refl)
exchange_all-delivered_all s r t out ((payload, status, now_ns) ∷ items) v k f p =
    let x =
      exchange-Exchanged s r t out payload status now_ns v k f.0.0 f.0.1 f.0.2 f.0.3
        (in_time r.synchronised (is_late r now_ns) p.0) in
    let (s', r', t', received) = exchange s r t out (payload, status, now_ns) in
    let rest =
      exchange_all-delivered_all s' r' t' out items x.in_step x.buffer f.1
        (rw (x.watchdog, x.time) p.1) in
    (
      rest.0,
      ap (◌∷◌ received) rest.1 ∙ ap (λ (a : Received). a ∷ delivered_all out items) x.received,
    )
