-- ===== src/Safety/BlackChannel/Corruption.antt =====
-- What the telegram's checksum protects: the bytes on the wire and the address that is not sent.
use safeedge.Common.{
  ◌/◌, ◌^◌, ◌%◌, ℕ, ◌≤◌, ◌<◌, ◌≡◌, ◌≢◌, refl, sym, ap, subst, ◌∙◌, ℤ, false, List, [], ◌∷◌, ◌++◌,
  All, length, arith, ◌==◌,
}
use safeedge.Common.Xor.{xor-lt}
use safeedge.Safety.Crc32
use safeedge.Safety.Crc32.{compute, initial, final_xor, update, value}
use safeedge.Safety.Crc32.Detection.{update-lt, compute_change}
use safeedge.Safety.BlackChannel.Telegram.{
  SafetyAddress, u32_le, compute_telegram_crc, overhead_bytes, max_payload_bytes,
  max_telegram_bytes,
}
use safeedge.Safety.BlackChannel.Receiver.{
  SafetyReceiver, crc_mismatch, receive, crc_matches, payload_length,
}
use safeedge.Safety.BlackChannel.Frame.{
  frame, length-frame, payload_of-frame, status_of-frame, consecutive_number_of-frame, crc_of-frame,
}

abbrev u16_le : ℕ → List ℕ
u16_le v = (v % 256) ∷ (v / 2 ^ 8 % 256) ∷ []

-- Everything that the two ends have to agree on, as one string of bytes.
unfoldable pub protected : SafetyAddress → List ℕ → ℕ → ℕ → List ℕ
protected a payload status n =
    payload
    ++ status
      ∷ (u32_le n ++ (u16_le a.source ++ (u16_le a.destination ++ u32_le a.parameter_signature)))

update-append : (c : ℕ) (xs ys : List ℕ) → update c (xs ++ ys) ≡ update (update c xs) ys
unfolding update
update-append c [] ys = refl
update-append c (x ∷ xs) ys = update-append (Crc32.update_byte c x) xs ys

-- The telegram's checksum is the checksum of the payload, the status byte, the consecutive number,
-- both identifiers and the parameter signature, one after the other and little-endian.
pub compute_telegram_crc-compute :
    (a : SafetyAddress) (payload : List ℕ) (status n : ℕ)
    → compute_telegram_crc a payload status n ≡ compute (protected a payload status n)
unfolding compute_telegram_crc compute protected update u32_le Crc32.update_u32 Crc32.update_u16
compute_telegram_crc-compute a payload status n = ap value (
    sym (
      update-append initial payload (
        status
        ∷ (u32_le n
            ++ (u16_le a.source ++ (u16_le a.destination ++ u32_le a.parameter_signature))))))

All-append :
    (xs ys : List ℕ)
    → All (λ (b : ℕ). b < 256) xs
    → All (λ (b : ℕ). b < 256) ys
    → All (λ (b : ℕ). b < 256) (xs ++ ys)
All-append [] ys h k = k
All-append (x ∷ xs) ys h k = (h.0, All-append xs ys h.1 k)

compute-lt : (bytes : List ℕ) → All (λ (b : ℕ). b < 256) bytes → compute bytes < 2 ^ 32
unfolding compute value
compute-lt bytes h =
    xor-lt 32 (update initial bytes) final_xor (update-lt initial bytes (omega arith) h)
      (omega arith)

ne-crc_matches : (b c : ℕ) → b ≢ c → b == c ≡ false
ne-crc_matches b c ne = ground arith

not_authentic :
    (r : SafetyReceiver) (raw : List ℕ) (now_ns : ℤ) (out : List ℕ)
    → r.safe_state ≡ false
    → overhead_bytes ≤ length raw
    → length raw ≤ max_telegram_bytes
    → payload_length raw ≤ length out
    → crc_matches r.address raw ≡ false
    → (receive r raw now_ns out).1.status ≡ crc_mismatch
unfolding receive
not_authentic r raw now_ns out a b c d e = ground arith

module _ (a : SafetyAddress) (payload : List ℕ) (status n : ℕ) (r : SafetyReceiver)
    (payload' : List ℕ) (status' n' : ℕ) (before after : List ℕ) (x y : ℕ) where
  crc_differs :
      All (λ (b : ℕ). b < 256) before
      → x < 256
      → y < 256
      → All (λ (b : ℕ). b < 256) after
      → x ≢ y
      → protected a payload status n ≡ before ++ x ∷ after
      → protected r.address payload' status' n' ≡ before ++ y ∷ after
      → n' < 2 ^ 32
      → crc_matches r.address (frame payload' status' n' (compute_telegram_crc a payload status n))
        ≡ false
  unfolding crc_matches
  crc_differs b hx hy af ne p q l =
      let crc = compute_telegram_crc a payload status n in
      let same = compute_telegram_crc-compute a payload status n ∙ ap compute p in
      let bound =
        subst (λ (c : ℕ). c < 2 ^ 32) (sym same)
          (compute-lt (before ++ x ∷ after) (All-append before (x ∷ after) b (hx, af))) in
      rw
        (
          crc_of-frame payload' status' n' crc bound,
          payload_of-frame payload' status' n' crc,
          status_of-frame payload' status' n' crc,
          consecutive_number_of-frame payload' status' n' crc l,
          same,
          compute_telegram_crc-compute r.address payload' status' n',
          q,
        )
        (ne-crc_matches (compute (before ++ x ∷ after)) (compute (before ++ y ∷ after))
          (compute_change before x y after b hx hy af ne))

  -- A telegram that was made for the address `a`, and arrives with another payload, status byte or
  -- number or at another address, so that the protected bytes differ within one byte, is refused
  -- for its checksum. The receiver has no fault latched, and the payload fits.
  pub receive-corrupted :
      (now_ns : ℤ) (out : List ℕ)
      → r.safe_state ≡ false
      → length payload' ≤ max_payload_bytes
      → length payload' ≤ length out
      → All (λ (b : ℕ). b < 256) before
      → x < 256
      → y < 256
      → All (λ (b : ℕ). b < 256) after
      → x ≢ y
      → protected a payload status n ≡ before ++ x ∷ after
      → protected r.address payload' status' n' ≡ before ++ y ∷ after
      → n' < 2 ^ 32
      → (receive r
          (frame payload' status' n' (compute_telegram_crc a payload status n))
          now_ns
          out).1.status
        ≡ crc_mismatch
  receive-corrupted now_ns out s f g b hx hy af ne p q l =
      let crc = compute_telegram_crc a payload status n in
      let size = length-frame payload' status' n' crc in
      not_authentic r (frame payload' status' n' crc) now_ns out s (omega arith) (omega arith)
        (omega arith) (crc_differs b hx hy af ne p q l)
