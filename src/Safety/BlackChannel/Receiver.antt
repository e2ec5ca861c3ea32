-- ===== src/Safety/BlackChannel/Receiver.antt =====
-- The receiver of src/safety/black_channel.cpp. A call that changes it returns the new one, beside
-- what it returns and what it writes through its reference arguments.
use safeedge.Common.{
  ℕ, ◌+◌, ◌-◌, ◌^◌, ℤ, pos, ◌-ℤ◌, ltb_ℤ, Bool, true, false, not, ◌&&◌, ◌||◌, List, ltb, leb, ◌==◌,
  if◌then◌else◌, length, get_or, take, write_bytes, u32, u64,
}
use safeedge.Safety.BlackChannel.Sender.{successor}
use safeedge.Safety.BlackChannel.Telegram.{
  SafetyAddress, read_u32_le, compute_telegram_crc, status_bytes, consecutive_number_bytes,
  overhead_bytes, max_telegram_bytes,
}

pub data TransmissionFault : Type 0 where
  no_fault corruption unintended_repetition incorrect_sequence loss : TransmissionFault
  unacceptable_delay insertion masquerade addressing_error : TransmissionFault

pub data ReceiveStatus : Type 0 where
  valid malformed crc_mismatch repetition sequence_gap out_of_order timeout in_safe_state :
      ReceiveStatus

pub record ReceiverDiagnostics : Type 0 where
  pub accepted : ℕ
  pub rejected_malformed : ℕ
  pub rejected_crc : ℕ
  pub rejected_repetition : ℕ
  pub rejected_sequence_gap : ℕ
  pub rejected_out_of_order : ℕ
  pub timeouts : ℕ
  pub telegrams_lost : ℕ
  pub last_accepted_consecutive_number : ℕ

pub record SafetyReceiver : Type 0 where
  pub address : SafetyAddress
  pub watchdog_ns : ℤ
  pub last_valid_ns : ℤ
  pub last_consecutive_number : ℕ
  pub synchronised : Bool
  pub safe_state : Bool
  pub last_fault : TransmissionFault
  pub diagnostics : ReceiverDiagnostics

-- The constructor of a receiver.
unfoldable pub new_receiver : SafetyAddress → ℤ → SafetyReceiver
new_receiver address watchdog_ns = record {
  address = address;
  watchdog_ns = watchdog_ns;
  last_valid_ns = pos 0;
  last_consecutive_number = 0;
  synchronised = false;
  safe_state = false;
  last_fault = no_fault;
  diagnostics = record {
    accepted = 0;
    rejected_malformed = 0;
    rejected_crc = 0;
    rejected_repetition = 0;
    rejected_sequence_gap = 0;
    rejected_out_of_order = 0;
    timeouts = 0;
    telegrams_lost = 0;
    last_accepted_consecutive_number = 0;
  };
}

unfoldable pub latch : SafetyReceiver → TransmissionFault → SafetyReceiver
latch r fault = record r { safe_state = true; last_fault = fault }

unfoldable pub acknowledge_and_reset : SafetyReceiver → ℤ → SafetyReceiver
acknowledge_and_reset r now_ns = record r {
  safe_state = false;
  last_fault = no_fault;
  synchronised = false;
  last_consecutive_number = 0;
  last_valid_ns = now_ns;
}

-- What a call of `receive` returns and leaves in the caller's buffer and variables.
pub record Received : Type 0 where
  pub status : ReceiveStatus
  pub payload_out : List ℕ
  pub payload_size : ℕ
  pub status_out : ℕ

unfoldable pub poll : SafetyReceiver → ℤ → SafetyReceiver × ReceiveStatus
poll r now_ns =
    if r.safe_state
    then (r, in_safe_state)
    else (if not r.synchronised
        then (r, valid)
        else (if ltb_ℤ r.watchdog_ns (now_ns -ℤ r.last_valid_ns)
            then (
              latch
                  (record r { diagnostics = record diagnostics { timeouts = u64 (timeouts + 1) } })
                  loss,
              timeout,
            )
            else (r, valid)))
  where
    open r use {diagnostics, diagnostics.{timeouts}}

-- Both output variables are reset at the start of each call.
abbrev pub nothing : ReceiveStatus → List ℕ → Received
nothing status payload_out = record {
  status = status;
  payload_out = payload_out;
  payload_size = 0;
  status_out = 0;
}

-- A refusal: count it, latch the fault, deliver nothing.
unfoldable pub refuse :
    SafetyReceiver
    → ReceiverDiagnostics
    → TransmissionFault
    → ReceiveStatus
    → List ℕ
    → SafetyReceiver × Received
unfolding latch
refuse r counted fault status payload_out =
    (latch (record r { diagnostics = counted }) fault, nothing status payload_out)

-- The part "accept" of `receive`.
unfoldable pub accept : SafetyReceiver → List ℕ → ℕ → ℕ → ℤ → List ℕ → SafetyReceiver × Received
accept r payload status consecutive_number now_ns payload_out = (
  record r {
    last_consecutive_number = consecutive_number;
    last_valid_ns = now_ns;
    diagnostics = record diagnostics {
      accepted = u64 (accepted + 1);
      last_accepted_consecutive_number = consecutive_number;
    };
  },
  record {
    status = valid;
    payload_out = write_bytes payload_out 0 payload;
    payload_size = length payload;
    status_out = status;
  },
)
  where
    open r use {diagnostics, diagnostics.{accepted}}

-- `consecutive_number - expected` on `std::uint32_t`.
abbrev pub sequence_delta : ℕ → ℕ → ℕ
sequence_delta consecutive_number expected = u32 (consecutive_number + 2 ^ 32 - expected)

-- The part "freshness and ordering" of `receive`. The cast of the delta to `std::int32_t` is
-- negative from 2 ^ 31 on.
unfoldable pub receive_authentic :
    SafetyReceiver → List ℕ → ℕ → ℕ → ℤ → List ℕ → SafetyReceiver × Received
unfolding accept refuse
receive_authentic r payload status consecutive_number now_ns payload_out =
    let expected = successor r.last_consecutive_number in
    let delta = sequence_delta consecutive_number expected in
    if not r.synchronised
    then accept (record r { synchronised = true }) payload status consecutive_number now_ns
        payload_out
    else (if consecutive_number == expected
        then accept r payload status consecutive_number now_ns payload_out
        else (if consecutive_number == r.last_consecutive_number
            then refuse r
                (record diagnostics { rejected_repetition = u64 (rejected_repetition + 1) })
                unintended_repetition repetition payload_out
            else (if leb (2 ^ 31) delta
                then refuse r
                    (record diagnostics { rejected_out_of_order = u64 (rejected_out_of_order + 1) })
                    incorrect_sequence out_of_order payload_out
                else refuse r
                    (record diagnostics {
                      telegrams_lost = u64 (telegrams_lost + delta);
                      rejected_sequence_gap = u64 (rejected_sequence_gap + 1);
                    })
                    loss sequence_gap payload_out)))
  where
    open r use {
      diagnostics,
      diagnostics.{
        rejected_repetition, rejected_out_of_order, telegrams_lost, rejected_sequence_gap,
      },
    }

-- The fields of a telegram that is long enough.
abbrev pub payload_length : List ℕ → ℕ
payload_length raw = length raw - overhead_bytes

abbrev pub payload_of : List ℕ → List ℕ
payload_of raw = take (payload_length raw) raw

abbrev pub status_of : List ℕ → ℕ
status_of raw = get_or raw (payload_length raw) 0

unfoldable pub consecutive_number_of : List ℕ → ℕ
consecutive_number_of raw = read_u32_le raw (payload_length raw + status_bytes)

unfoldable pub crc_of : List ℕ → ℕ
crc_of raw = read_u32_le raw (payload_length raw + status_bytes + consecutive_number_bytes)

-- `received_crc == expected_crc`.
unfoldable pub crc_matches : SafetyAddress → List ℕ → Bool
crc_matches address raw =
    crc_of raw
    == compute_telegram_crc address (payload_of raw) (status_of raw) (consecutive_number_of raw)

-- Longer than `now_ns - last_valid_ns_ > watchdog_ns_` allows.
abbrev pub is_late : SafetyReceiver → ℤ → Bool
is_late r now_ns = ltb_ℤ r.watchdog_ns (now_ns -ℤ r.last_valid_ns)

unfoldable pub receive : SafetyReceiver → List ℕ → ℤ → List ℕ → SafetyReceiver × Received
unfolding refuse
receive r raw now_ns payload_out =
    let counted = record diagnostics { rejected_malformed = u64 (rejected_malformed + 1) } in
    if r.safe_state
    then (r, nothing in_safe_state payload_out)
    else (if ltb (length raw) overhead_bytes || ltb max_telegram_bytes (length raw)
        then refuse r counted corruption malformed payload_out
        else (if ltb (length payload_out) (payload_length raw)
            then refuse r counted corruption malformed payload_out
            else (if not (crc_matches r.address raw)
                then refuse r (record diagnostics { rejected_crc = u64 (rejected_crc + 1) })
                    corruption crc_mismatch payload_out
                else (if r.synchronised && is_late r now_ns
                    then refuse r (record diagnostics { timeouts = u64 (timeouts + 1) })
                        unacceptable_delay timeout payload_out
                    else receive_authentic r (payload_of raw) (status_of raw)
                        (consecutive_number_of raw) now_ns payload_out))))
  where
    open r use {diagnostics, diagnostics.{rejected_malformed, rejected_crc, timeouts}}
