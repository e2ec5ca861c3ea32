-- ===== src/Safety/BlackChannel/Sequence.antt =====
-- How a synchronised receiver classifies an authentic telegram by its number, against the numbers
-- that the producer really uses.
use safeedge.Common.{
  dec_lt, ℕ, zero, suc, ◌+◌, ◌-◌, ◌≤◌, ◌<◌, ◌^◌, ◌≡◌, ◌≢◌, ap, ◌∙◌, ℤ, true, List, u32, u64, arith,
}
use safeedge.Safety.BlackChannel.Sender.{successor}
use safeedge.Safety.BlackChannel.Delivery.{receive-Deliverable}
use safeedge.Safety.BlackChannel.Receiver.{
  status_of, payload_of, consecutive_number_of, receive, SafetyReceiver, valid, sequence_gap,
  receive_authentic,
}

-- The number that the producer uses `k` telegrams after the one with number `n`.
unfoldable pub number_after : ℕ → ℕ → ℕ
number_after zero n = n
number_after (suc k) n = number_after k (successor n)

-- Zero is never used, and numbers fit their four bytes.
pub successor_bounds : (n : ℕ) → (1 ≤ successor n) × (successor n < 2 ^ 32)
unfolding successor
successor_bounds n = ground arith

successor-lt : (n : ℕ) → suc n < 2 ^ 32 → successor n ≡ suc n
unfolding successor
successor-lt n h = ground arith

successor_wrap : (n : ℕ) → suc n ≡ 2 ^ 32 → successor n ≡ 1
unfolding successor
successor_wrap n h = ground arith

-- Up to the wrap the numbers just go up, and over it they skip zero.
number_after-below : (k n : ℕ) → n + k < 2 ^ 32 → number_after k n ≡ n + k
unfolding number_after
number_after-below zero n h = omega arith
number_after-below (suc k) n h =
    ap (number_after k) (successor-lt n (omega arith))
    ∙ (number_after-below k (suc n) (omega arith) ∙ omega arith)

number_after-wrap :
    (k n : ℕ)
    → n < 2 ^ 32
    → 2 ^ 32 ≤ n + k
    → n + k < 2 ^ 32 + 2 ^ 31
    → number_after k n ≡ n + k + 1 - 2 ^ 32
unfolding number_after
number_after-wrap zero n h w b = absurd (omega arith)
number_after-wrap (suc k) n h w b = elim (dec_lt (suc n) (2 ^ 32)) [
  | yes p ↦
      ap (number_after k) (successor-lt n p)
      ∙ (number_after-wrap k (suc n) p (omega arith) (omega arith) ∙ omega arith)
  | no p ↦
      ap (number_after k) (successor_wrap n (omega arith))
      ∙ (number_after-below k 1 (omega arith) ∙ omega arith)
]

successor-ne : (n : ℕ) → n ≢ successor n
unfolding successor
successor-ne n e = ground arith

authentic_accepted :
    (r : SafetyReceiver) (payload : List ℕ) (status n : ℕ) (now_ns : ℤ) (out : List ℕ)
    → (receive_authentic r payload status n now_ns out).1.status ≡ valid
    → let r' = (receive_authentic r payload status n now_ns out).0 in
      (r'.synchronised ≡ true) × (r'.last_consecutive_number ≡ n)
unfolding receive_authentic
authentic_accepted r payload status n now_ns out h = ground arith

accepted :
    (r : SafetyReceiver) (raw : List ℕ) (now_ns : ℤ) (out : List ℕ)
    → (receive r raw now_ns out).1.status ≡ valid
    → let r' = (receive r raw now_ns out).0 in
      (r'.synchronised ≡ true) × (r'.last_consecutive_number ≡ consecutive_number_of raw)
unfolding receive
accepted r raw now_ns out h = ground (
  arith,
  authentic_accepted r (payload_of raw) (status_of raw) (consecutive_number_of raw) now_ns out,
)

-- A telegram that was accepted is not accepted again when it is replayed, whenever that is.
pub receive_replay :
    (r : SafetyReceiver) (raw : List ℕ) (now_ns later_ns : ℤ) (out out' : List ℕ)
    → (receive r raw now_ns out).1.status ≡ valid
    → (receive (receive r raw now_ns out).0 raw later_ns out').1.status ≢ valid
receive_replay r raw now_ns later_ns out out' h again =
    let was = accepted r raw now_ns out h in
    let d = receive-Deliverable (receive r raw now_ns out).0 raw later_ns out' again in
    successor-ne (consecutive_number_of raw) (d.in_order was.0 ∙ ap successor was.1)

module _ (r : SafetyReceiver) (payload : List ℕ) (status n : ℕ) (now_ns : ℤ) (out : List ℕ)
    (s : r.synchronised ≡ true) where
  -- Closed forms of the two tests, at a variable number.
  gap_at :
      (expected d : ℕ)
      → successor r.last_consecutive_number ≡ expected
      → n ≢ expected
      → n ≢ r.last_consecutive_number
      → u32 (n + 2 ^ 32 - expected) ≡ d
      → d < 2 ^ 31
      → ((receive_authentic r payload status n now_ns out).1.status ≡ sequence_gap)
        × ((receive_authentic r payload status n now_ns out).0.diagnostics.telegrams_lost
            ≡ u64 (r.diagnostics.telegrams_lost + d))
  unfolding receive_authentic
  gap_at expected d e ne nl u b = ground arith

  -- If `lost` telegrams went missing, at least one and fewer than 2 ^ 31, and the numbers did not
  -- wrap, the next telegram is refused as a gap and exactly `lost` telegrams are counted.
  pub receive_gap :
      (lost : ℕ)
      → 1 ≤ lost
      → lost < 2 ^ 31
      → r.last_consecutive_number + suc lost < 2 ^ 32
      → n ≡ number_after (suc lost) r.last_consecutive_number
      → ((receive_authentic r payload status n now_ns out).1.status ≡ sequence_gap)
        × ((receive_authentic r payload status n now_ns out).0.diagnostics.telegrams_lost
            ≡ u64 (r.diagnostics.telegrams_lost + lost))
  receive_gap lost l u w e =
      let n' = number_after-below (suc lost) r.last_consecutive_number w in
      let x = successor-lt r.last_consecutive_number (omega arith) in
      gap_at (suc r.last_consecutive_number) lost x (omega arith) (omega arith) (omega arith) u

  -- But if the missing telegrams span the wrap, the zero that the producer skips is counted too:
  -- `lost` missing telegrams count as `lost + 1`.
  pub receive_gap_over_wrap :
      (lost : ℕ)
      → 1 ≤ lost
      → suc lost < 2 ^ 31
      → suc r.last_consecutive_number < 2 ^ 32
      → 2 ^ 32 ≤ r.last_consecutive_number + suc lost
      → n ≡ number_after (suc lost) r.last_consecutive_number
      → ((receive_authentic r payload status n now_ns out).1.status ≡ sequence_gap)
        × ((receive_authentic r payload status n now_ns out).0.diagnostics.telegrams_lost
            ≡ u64 (r.diagnostics.telegrams_lost + (lost + 1)))
  receive_gap_over_wrap lost l u p w e =
      let n' =
        number_after-wrap (suc lost) r.last_consecutive_number (omega arith) w (omega arith) in
      let x = successor-lt r.last_consecutive_number p in
      gap_at (suc r.last_consecutive_number) (lost + 1) x (omega arith) (omega arith) (omega arith)
        (omega arith)
