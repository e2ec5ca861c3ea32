-- ===== src/Safety/BlackChannel/Frame.antt =====
-- The bytes on the wire: what `encode` writes, and what the reading functions of the receiver find
-- in them.
use safeedge.Common.{
  ltb, ℕ, ◌+◌, ◌*◌, ◌/◌, ◌%◌, ◌≤◌, ◌<◌, ◌^◌, ◌≡◌, refl, sym, ap, ◌∙◌, true, false, List, [], ◌∷◌,
  ◌++◌, length, take, take-append, length-append, get_or-append, write_bytes, take-write_bytes,
  length-write_bytes, arith,
}
use mathlib.Core.List.{append_assoc}
use safeedge.Common.Or.{or_fields}
use safeedge.Safety.BlackChannel.Telegram.{
  Telegram, view, overhead_bytes, max_payload_bytes, max_telegram_bytes, status_bytes,
  consecutive_number_bytes, u32_le, read_u32_le, write_u32_le, compute_telegram_crc,
}
use safeedge.Safety.BlackChannel.Sender.{SafetySender, encode, successor}
use safeedge.Safety.BlackChannel.Receiver.{
  payload_length, payload_of, status_of, consecutive_number_of, crc_of,
}

-- The documented wire layout: payload, status byte, consecutive number, checksum.
unfoldable pub frame : List ℕ → ℕ → ℕ → ℕ → List ℕ
frame payload status number crc = payload ++ (status ∷ (u32_le number ++ u32_le crc))

pub length-frame :
    (payload : List ℕ) (status number crc : ℕ)
    → length (frame payload status number crc) ≡ length payload + overhead_bytes
unfolding frame u32_le
length-frame payload status number crc = length-append payload _ ∙ omega arith

-- Four bytes read back the word that was written.
read_u32_le-u32_le :
    (before after : List ℕ) (value offset : ℕ)
    → value < 2 ^ 32
    → offset ≡ length before
    → read_u32_le (before ++ (u32_le value ++ after)) offset ≡ value
unfolding read_u32_le u32_le
read_u32_le-u32_le before after value offset h e =
    let rest = u32_le value ++ after in
    let b0 = value % 256 in
    let b1 = value / 2 ^ 8 % 256 in
    let b2 = value / 2 ^ 16 % 256 in
    let b3 = value / 2 ^ 24 % 256 in
    rw
      (
        get_or-append before rest 0 offset 0 (omega arith),
        get_or-append before rest 1 (offset + 1) 0 (omega arith),
        get_or-append before rest 2 (offset + 2) 0 (omega arith),
        get_or-append before rest 3 (offset + 3) 0 (omega arith),
        or_fields 8 b0 b1 (omega arith),
        or_fields 16 (b0 + b1 * 2 ^ 8) b2 (omega arith),
        or_fields 24 (b0 + b1 * 2 ^ 8 + b2 * 2 ^ 16) b3 (omega arith),
      )
      (omega arith)

module _ (payload : List ℕ) (status number crc : ℕ) where
  pub payload_length-frame : payload_length (frame payload status number crc) ≡ length payload
  payload_length-frame = omega (arith, length-frame payload status number crc)

  pub payload_of-frame : payload_of (frame payload status number crc) ≡ payload
  unfolding frame
  payload_of-frame = rw payload_length-frame (take-append payload _)

  pub status_of-frame : status_of (frame payload status number crc) ≡ status
  unfolding frame
  status_of-frame = get_or-append payload _ 0 _ 0 (omega (arith, payload_length-frame))

  pub consecutive_number_of-frame :
      number < 2 ^ 32 → consecutive_number_of (frame payload status number crc) ≡ number
  unfolding frame consecutive_number_of u32_le
  consecutive_number_of-frame h =
      let offset = payload_length (frame payload status number crc) + status_bytes in
      ap (λ (xs : List ℕ). read_u32_le xs offset)
        (sym (append_assoc payload (status ∷ []) (u32_le number ++ u32_le crc)))
      ∙ read_u32_le-u32_le (payload ++ status ∷ []) (u32_le crc) number offset h
          (omega (arith, length-append payload (status ∷ []), payload_length-frame))

  pub crc_of-frame : crc < 2 ^ 32 → crc_of (frame payload status number crc) ≡ crc
  unfolding frame crc_of u32_le
  crc_of-frame h =
      let before = status ∷ u32_le number in
      let offset =
        payload_length (frame payload status number crc)
        + status_bytes
        + consecutive_number_bytes in
      ap (λ (xs : List ℕ). read_u32_le xs offset) (sym (append_assoc payload before (u32_le crc)))
      ∙ read_u32_le-u32_le (payload ++ before) [] crc offset h
          (omega (arith, length-append payload before, payload_length-frame))

-- The four writes of `encode`, from the end of the telegram to its start.
written :
    (buffer payload : List ℕ) (status number crc : ℕ)
    → length payload ≤ max_payload_bytes
    → length buffer ≡ max_telegram_bytes
    → let n = length payload in
      take (n + overhead_bytes) (
        write_u32_le
          (write_u32_le (write_bytes (write_bytes buffer 0 payload) n (status ∷ [])) (n + 1) number)
          (n + 1 + 4)
          crc)
      ≡ frame payload status number crc
unfolding frame write_u32_le u32_le
written buffer payload status number crc h l =
    let n = length payload in
    let first = write_bytes buffer 0 payload in
    let second = write_bytes first n (status ∷ []) in
    let third = write_bytes second (n + 1) (u32_le number) in
    let l1 = length-write_bytes buffer 0 payload in
    let l2 = length-write_bytes first n (status ∷ []) in
    let l3 = length-write_bytes second (n + 1) (u32_le number) in
    take-write_bytes third (n + 1 + 4) (u32_le crc) (n + overhead_bytes) (omega arith) (omega arith)
    ∙ (ap (λ (xs : List ℕ). xs ++ u32_le crc)
          (take-write_bytes second (n + 1) (u32_le number) (n + 1 + 4) (omega arith) (omega arith)
            ∙ (ap (λ (xs : List ℕ). xs ++ u32_le number)
                  (take-write_bytes first n (status ∷ []) (n + 1) (omega arith) (omega arith)
                    ∙ ap (λ (xs : List ℕ). xs ++ status ∷ [])
                        (take-write_bytes buffer 0 payload n (omega arith) (omega arith)))
                ∙ append_assoc payload (status ∷ []) (u32_le number)))
        ∙ append_assoc payload (status ∷ u32_le number) (u32_le crc))

-- A payload that fits is encoded, and the telegram's bytes are exactly the wire layout of the
-- payload, the status, the sender's number and the checksum of these; what the buffer held before
-- does not show, and the sender moves on by one number.
pub encode-frame :
    (s : SafetySender) (payload : List ℕ) (status : ℕ) (out : Telegram)
    → length payload ≤ max_payload_bytes
    → length out.bytes ≡ max_telegram_bytes
    → let (done, s', out') = encode s payload status out in
      (done ≡ true)
      × (s' ≡ record s { consecutive_number = successor s.consecutive_number })
      × (view out'
          ≡ frame payload status s.consecutive_number
              (compute_telegram_crc s.address payload status s.consecutive_number))
unfolding encode frame
encode-frame s payload status out h l =
    let fits : ltb max_payload_bytes (length payload) ≡ false = ground arith in
    rw fits (
      refl,
      refl,
      written out.bytes payload status s.consecutive_number
          (compute_telegram_crc s.address payload status s.consecutive_number) h l,
    )
