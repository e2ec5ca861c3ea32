-- ===== src/Safety/BlackChannel/Telegram.antt =====
-- Addresses, telegrams and their checksum, of include/safeedge/safety/black_channel.hpp and
-- src/safety/black_channel.cpp. Bytes are numbers below 256.
use Prim.Native.Nat.{bit_or}
use safeedge.Common.{ℕ, ◌+◌, ◌*◌, ◌/◌, ◌%◌, ◌^◌, List, [], ◌∷◌, get_or, take, write_bytes}
use safeedge.Safety.Crc32

pub record SafetyAddress : Type 0 where
  pub source : ℕ
  pub destination : ℕ
  pub parameter_signature : ℕ

abbrev pub max_payload_bytes : ℕ
max_payload_bytes = 64

abbrev pub status_bytes : ℕ
status_bytes = 1

abbrev pub consecutive_number_bytes : ℕ
consecutive_number_bytes = 4

abbrev pub crc_bytes : ℕ
crc_bytes = 4

abbrev pub overhead_bytes : ℕ
overhead_bytes = status_bytes + consecutive_number_bytes + crc_bytes

abbrev pub max_telegram_bytes : ℕ
max_telegram_bytes = max_payload_bytes + overhead_bytes

-- `bytes` is the whole array, `max_telegram_bytes` long.
pub record Telegram : Type 0 where
  pub bytes : List ℕ
  pub size : ℕ

abbrev pub view : Telegram → List ℕ
view t = take t.size t.bytes

-- The caller has checked that the four bytes are in range.
unfoldable pub read_u32_le : List ℕ → ℕ → ℕ
read_u32_le bytes offset =
    bit_or
      (bit_or (bit_or (get_or bytes offset 0) (get_or bytes (offset + 1) 0 * 2 ^ 8))
        (get_or bytes (offset + 2) 0 * 2 ^ 16))
      (get_or bytes (offset + 3) 0 * 2 ^ 24)

-- The four bytes that `writeUint32Le` stores, in the order of their addresses.
unfoldable pub u32_le : ℕ → List ℕ
u32_le value =
    (value % 256) ∷ (value / 2 ^ 8 % 256) ∷ (value / 2 ^ 16 % 256) ∷ (value / 2 ^ 24 % 256) ∷ []

unfoldable pub write_u32_le : List ℕ → ℕ → ℕ → List ℕ
unfolding write_bytes
write_u32_le bytes offset value = write_bytes bytes offset (u32_le value)

unfoldable pub compute_telegram_crc : SafetyAddress → List ℕ → ℕ → ℕ → ℕ
compute_telegram_crc address payload status consecutive_number =
    let crc = Crc32.update Crc32.initial payload in
    let crc = Crc32.update_byte crc status in
    let crc = Crc32.update_u32 crc consecutive_number in
    let crc = Crc32.update_u16 crc address.source in
    let crc = Crc32.update_u16 crc address.destination in
    let crc = Crc32.update_u32 crc address.parameter_signature in Crc32.value crc
