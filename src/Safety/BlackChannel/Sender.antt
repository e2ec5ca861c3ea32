-- ===== src/Safety/BlackChannel/Sender.antt =====
-- The sender of src/safety/black_channel.cpp. A call that changes it returns the new one.
use safeedge.Common.{
  ℕ, ◌+◌, Bool, true, false, List, [], ◌∷◌, ltb, ◌==◌, if◌then◌else◌, length, write_bytes, u32,
}
use safeedge.Safety.BlackChannel.Telegram.{
  SafetyAddress, Telegram, write_u32_le, compute_telegram_crc, status_bytes,
  consecutive_number_bytes, overhead_bytes, max_payload_bytes,
}

pub record SafetySender : Type 0 where
  pub address : SafetyAddress
  pub consecutive_number : ℕ

-- The constructor of a sender.
unfoldable pub new_sender : SafetyAddress → SafetySender
new_sender address = record { address = address; consecutive_number = 1 }

unfoldable pub restart_sequence : SafetySender → ℕ → SafetySender
restart_sequence s start = record s { consecutive_number = start }

-- `++n`, skipping zero; the same in `encode` and in `receive`.
unfoldable pub successor : ℕ → ℕ
successor n = if u32 (n + 1) == 0 then 1 else u32 (n + 1)

unfoldable pub encode : SafetySender → List ℕ → ℕ → Telegram → Bool × SafetySender × Telegram
encode s payload status out =
    let n = length payload in
    let bytes = write_bytes out.bytes 0 payload in
    let bytes = write_bytes bytes n (status ∷ []) in
    let bytes = write_u32_le bytes (n + status_bytes) s.consecutive_number in
    let crc = compute_telegram_crc s.address payload status s.consecutive_number in
    let bytes = write_u32_le bytes (n + status_bytes + consecutive_number_bytes) crc in
    if ltb max_payload_bytes n then (false, s, out) else (
      true,
      record s { consecutive_number = successor s.consecutive_number },
      record { bytes = bytes; size = n + overhead_bytes },
    )
