-- ===== src/Safety/BlackChannel/Tests.antt =====
-- Examples for the black channel.
use safeedge.Common.{
  ◌<◌, ℕ, zero, suc, ◌≡◌, ◌≢◌, refl, pos, true, false, List, [], ◌∷◌, ◌++◌, All, length, arith,
}
use safeedge.Safety.Crc32.{
  compute, update, update_byte, update_u16, update_u32, value, build_table, table_from, shift_bits,
  shift_bit,
}
use safeedge.Safety.BlackChannel.Telegram.{
  SafetyAddress, Telegram, compute_telegram_crc, u32_le, read_u32_le,
}
use safeedge.Safety.BlackChannel.Sender.{SafetySender, successor}
use safeedge.Safety.BlackChannel.Receiver.{
  unacceptable_delay, SafetyReceiver, valid, timeout, crc_mismatch, nothing, receive,
  receive_authentic, accept, refuse, crc_matches, crc_of, consecutive_number_of, poll, no_fault,
}
use safeedge.Safety.BlackChannel.Delivery.{
  refusals, Call, poll-receive, Deliverable, receive-Deliverable, receive-refused, run, receives,
  polls, run_safe_state,
}
use safeedge.Safety.BlackChannel.Sequence.{number_after}
use safeedge.Safety.BlackChannel.Frame.{frame}
use safeedge.Safety.BlackChannel.RoundTrip.{InStep}
use safeedge.Common.{◌-ℤ◌}
use safeedge.Safety.BlackChannel.Stream.{
  Item, exchange_all, delivered_all, Prompt, exchange_all-delivered_all,
}
use safeedge.Safety.BlackChannel.Corruption.{
  protected, receive-corrupted, compute_telegram_crc-compute,
}

abbrev address : SafetyAddress
address = record { source = 1; destination = 2; parameter_signature = 7 }

abbrev zeros : ℕ → List ℕ
zeros zero = []
zeros (suc n) = 0 ∷ zeros n

abbrev blank : Telegram
blank = record { bytes = zeros 73; size = 0 }

abbrev sender : SafetySender
sender = record { address = address; consecutive_number = 1 }

abbrev receiver : SafetyReceiver
receiver = record {
  address = address;
  watchdog_ns = pos 10;
  last_valid_ns = pos 0;
  last_consecutive_number = 0;
  synchronised = false;
  safe_state = false;
  last_fault = no_fault;
  diagnostics = record {
    accepted = 0;
    rejected_malformed = 0;
    rejected_crc = 0;
    rejected_repetition = 0;
    rejected_sequence_gap = 0;
    rejected_out_of_order = 0;
    timeouts = 0;
    telegrams_lost = 0;
    last_accepted_consecutive_number = 0;
  };
}

abbrev synchronised_at : ℕ → SafetyReceiver
synchronised_at n = record receiver { synchronised = true; last_consecutive_number = n }

abbrev latched : SafetyReceiver
latched = record receiver { safe_state = true }

abbrev raw : List ℕ
raw = frame (10 ∷ 20 ∷ []) 3 1 (compute_telegram_crc address (10 ∷ 20 ∷ []) 3 1)

raw_valid : (receive receiver raw (pos 4) (zeros 64)).1.status ≡ valid
unfolding receive receive_authentic accept crc_matches crc_of consecutive_number_of
    compute_telegram_crc update update_byte update_u16 update_u32 value build_table table_from
    shift_bits shift_bit frame u32_le read_u32_le
raw_valid = refl

receive-Deliverable_example : Deliverable receiver raw (pos 4) (zeros 64)
receive-Deliverable_example = receive-Deliverable receiver raw (pos 4) (zeros 64) raw_valid

short_malformed : (receive receiver (1 ∷ []) (pos 4) (zeros 64)).1.status ≢ valid
unfolding receive refuse
short_malformed = λ e. ground arith

receive-refused_example :
    ((receive receiver (1 ∷ []) (pos 4) (zeros 64)).0.safe_state ≡ true)
    × ((receive receiver (1 ∷ []) (pos 4) (zeros 64)).1
        ≡ nothing (receive receiver (1 ∷ []) (pos 4) (zeros 64)).1.status (zeros 64))
receive-refused_example = receive-refused receiver (1 ∷ []) (pos 4) (zeros 64) short_malformed

abbrev calls : List Call
calls = receives raw (pos 4) (zeros 64) ∷ polls (pos 5) ∷ []

run_safe_state_example : run latched calls ≡ (latched, refusals calls)
run_safe_state_example = run_safe_state latched calls refl

-- Number 5 was accepted, 6 and 7 are missing.
two_missing : 8 ≡ number_after 3 5
unfolding number_after successor
two_missing = refl

-- The last number but one was accepted, the last one is missing, and number 1 arrives.
missing_at_the_wrap : 1 ≡ number_after 2 4294967294
unfolding number_after successor
missing_at_the_wrap = refl

in_step : InStep sender receiver
in_step = record {
  same_address = refl;
  unlatched = refl;
  in_range = omega arith;
  expected = λ e. ground arith;
}

abbrev items : List Item
items = (10 ∷ [], 3, pos 4) ∷ (20 ∷ [], 4, pos 14) ∷ []

promptly : Prompt (pos 10) (pos 0) items
unfolding Prompt ◌-ℤ◌
promptly = (refl, (refl, tt))

exchange_all-delivered_all_example :
    InStep
      (exchange_all sender receiver blank (zeros 64) items).0
      (exchange_all sender receiver blank (zeros 64) items).1
    × ((exchange_all sender receiver blank (zeros 64) items).2 ≡ delivered_all (zeros 64) items)
exchange_all-delivered_all_example =
    exchange_all-delivered_all sender receiver blank (zeros 64) items in_step refl
      (
        ((omega arith, tt), omega arith, omega arith, omega arith),
        (((omega arith, tt), omega arith, omega arith, omega arith), tt),
      )
      promptly

abbrev trailer : List ℕ
trailer = 1 ∷ 0 ∷ 0 ∷ 0 ∷ 1 ∷ 0 ∷ 2 ∷ 0 ∷ 7 ∷ 0 ∷ 0 ∷ 0 ∷ []

sent_bytes : protected address (10 ∷ []) 3 1 ≡ (10 ∷ []) ++ 3 ∷ trailer
unfolding protected u32_le
sent_bytes = refl

seen_bytes : protected address (10 ∷ []) 2 1 ≡ (10 ∷ []) ++ 2 ∷ trailer
unfolding protected u32_le
seen_bytes = refl

trailer_bytes : All (λ (b : ℕ). b < 256) trailer
trailer_bytes = ground arith

-- The status byte 3 arrives as 2.
receive-corrupted_example :
    (receive receiver
      (frame (10 ∷ []) 2 1 (compute_telegram_crc address (10 ∷ []) 3 1))
      (pos 4)
      (zeros 64)).1.status
    ≡ crc_mismatch
receive-corrupted_example =
    receive-corrupted address (10 ∷ []) 3 1 receiver (10 ∷ []) 2 1 (10 ∷ []) trailer 3 2 (pos 4)
      (zeros 64) refl (omega arith) (omega arith) (omega arith, tt) (omega arith) (omega arith)
      trailer_bytes (omega arith) sent_bytes seen_bytes (omega arith)

compute_telegram_crc-compute_example :
    compute_telegram_crc address (10 ∷ []) 3 1 ≡ compute (protected address (10 ∷ []) 3 1)
compute_telegram_crc-compute_example = compute_telegram_crc-compute address (10 ∷ []) 3 1

late_poll : (poll (synchronised_at 0) (pos 20)).1 ≡ timeout
unfolding poll ◌-ℤ◌
late_poll = refl

raw_authentic : crc_matches address raw ≡ true
unfolding crc_matches crc_of consecutive_number_of compute_telegram_crc update update_byte
    update_u16 update_u32 value build_table table_from shift_bits shift_bit frame u32_le read_u32_le
raw_authentic = refl

length-raw : length raw ≡ 11
unfolding frame u32_le
length-raw = refl

poll-receive_example : receive (synchronised_at 0) raw (pos 20) (zeros 64) ≡ (
  record (poll (synchronised_at 0) (pos 20)).0 { last_fault = unacceptable_delay },
  nothing timeout (zeros 64),
)
poll-receive_example =
    poll-receive (synchronised_at 0) raw (pos 20) (zeros 64) (omega (arith, length-raw))
      (omega (arith, length-raw)) (omega (arith, length-raw)) raw_authentic late_poll
