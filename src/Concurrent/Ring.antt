-- ===== src/Concurrent/Ring.antt =====
-- include/safeedge/concurrent/spsc_ring.hpp: a bounded queue between one producer and one consumer,
-- over two counters that wrap at 2 ^ 64. Every access of a counter that the threads share, and every
-- access of a slot, is one step; the accesses are taken in one total order.
pub mod Queue
pub mod Invariant
pub mod Produce
pub mod Consume
pub mod Refine
pub mod Size
mod Tests
use safeedge.Common.{
  ℕ, zero, suc, ◌+◌, ◌-◌, ◌%◌, ◌^◌, ◌≤◌, ◌<◌, ◌==◌, ltb, leb, u64, if◌then◌else◌, List, [], ◌∷◌,
  get_or, set, Bool, true, false,
}

-- Where the producer stands in `emplaceFrom`, with the locals that are live there.
pub data Producer (A : Type 0) : Type 0 where
  out_of_push : (result : Bool) → Producer A
  refreshing_read : (value : A) (write : ℕ) → Producer A
  filling : (value : A) (write : ℕ) → Producer A
  publishing : (value : A) (write : ℕ) → Producer A

-- Where the consumer stands in `tryPop`. Between the calls, `out` is what the last one that returned
-- true has given.
pub data Consumer (A : Type 0) : Type 0 where
  out_of_pop : (result : Bool) → Consumer A
  refreshing_write : (read : ℕ) → Consumer A
  taking : (read : ℕ) → Consumer A
  releasing : (read : ℕ) (out : A) → Consumer A

-- The members of `ProducerState`, `ConsumerState` and `SpscRing`, and the two threads.
pub record World (A : Type 0) : Type 0 where
  pub write_pos : ℕ
  pub cached_read_pos : ℕ
  pub read_pos : ℕ
  pub cached_write_pos : ℕ
  pub slots : List A
  pub producer : Producer A
  pub consumer : Consumer A

-- What a step shows to the callers: a value is accepted or handed out, or a call returns false.
pub data Event (A : Type 0) : Type 0 where
  silent : Event A
  pushed : (value : A) → Event A
  popped : (value : A) → Event A
  push_failed : Event A
  pop_failed : Event A

-- `a - b` of two `std::uint64_t`.
abbrev pub sub_u64 : ℕ → ℕ → ℕ
sub_u64 a b = (a + 2 ^ 64 - b) % 2 ^ 64

-- `position & kIndexMask`, for a capacity that is a power of two.
abbrev pub slot_of : ℕ → ℕ → ℕ
slot_of capacity position = position % capacity

-- `emplaceFrom` up to its first test.
unfoldable pub call_push : {A : Type 0} → ℕ → A → Producer A → World A → World A
call_push capacity value (out_of_push result) w =
    if leb capacity (sub_u64 w.write_pos w.cached_read_pos)
    then record w { producer = refreshing_read value w.write_pos }
    else record w { producer = filling value w.write_pos }
call_push capacity value _ w = w

-- The next access of the producer.
unfoldable pub producer_step : {A : Type 0} → ℕ → Producer A → World A → World A × Event A
producer_step capacity (out_of_push result) w = (w, silent)
producer_step capacity (refreshing_read value write) w =
    if leb capacity (sub_u64 write w.read_pos)
    then (record w { cached_read_pos = w.read_pos; producer = out_of_push false }, push_failed)
    else (record w { cached_read_pos = w.read_pos; producer = filling value write }, silent)
producer_step capacity (filling value write) w = (
  record w {
    slots = set w.slots (slot_of capacity write) value;
    producer = publishing value write;
  },
  silent,
)
producer_step capacity (publishing value write) w =
    (record w { write_pos = u64 (write + 1); producer = out_of_push true }, pushed value)

-- `tryPop` up to its first test.
unfoldable pub call_pop : {A : Type 0} → Consumer A → World A → World A
call_pop (out_of_pop result) w =
    if w.read_pos == w.cached_write_pos
    then record w { consumer = refreshing_write w.read_pos }
    else record w { consumer = taking w.read_pos }
call_pop _ w = w

-- The next access of the consumer. `default` is what a value-initialised slot holds.
unfoldable pub consumer_step : {A : Type 0} → ℕ → A → Consumer A → World A → World A × Event A
consumer_step capacity default (out_of_pop result) w = (w, silent)
consumer_step capacity default (refreshing_write read) w =
    if read == w.write_pos
    then (record w { cached_write_pos = w.write_pos; consumer = out_of_pop false }, pop_failed)
    else (record w { cached_write_pos = w.write_pos; consumer = taking read }, silent)
consumer_step capacity default (taking read) w = (
  record w { consumer = releasing read (get_or w.slots (slot_of capacity read) default) },
  silent,
)
consumer_step capacity default (releasing read out) w =
    (record w { read_pos = u64 (read + 1); consumer = out_of_pop true }, popped out)

-- `sizeApprox`, `fullApprox` and `emptyApprox`, of the two counters.
unfoldable pub size_approx : ℕ → ℕ → ℕ
size_approx write read = sub_u64 write read

unfoldable pub full_approx : ℕ → ℕ → ℕ → Bool
unfolding size_approx
full_approx capacity write read = leb capacity (size_approx write read)

unfoldable pub empty_approx : ℕ → ℕ → Bool
unfolding size_approx
empty_approx write read = size_approx write read == 0
