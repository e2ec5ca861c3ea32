-- ===== src/Concurrent/Ring/Tests.antt =====
-- A ring of two slots whose counters are about to wrap.
use native.Mathlib.Nat.{dvd-mul_right}
use safeedge.Concurrent.Ring.Refine.{run-QueueRun}
use safeedge.Concurrent.Ring.Queue.{
  consume, pop, produce, step, push, run, Action, QueueRun, accepted,
}
use safeedge.Concurrent.Ring.Invariant.{IsValid, IsCapacity}
use safeedge.Common.{ℕ, ◌-◌, ◌^◌, List, [], ◌∷◌, ◌≡◌, refl, arith, true}
use safeedge.Concurrent.Ring.{
  consumer_step, call_pop, producer_step, call_push, out_of_pop, out_of_push, World,
}

abbrev last : ℕ
last = 2 ^ 64 - 1

two-IsCapacity : IsCapacity 2
two-IsCapacity = record {
  at_least_two = omega arith;
  fits = omega arith;
  divides = dvd-mul_right 2 (2 ^ 63);
}

abbrev drained : World ℕ
drained = record {
  write_pos = last;
  cached_read_pos = last;
  read_pos = last;
  cached_write_pos = last;
  slots = 0 ∷ 0 ∷ [];
  producer = out_of_push true;
  consumer = out_of_pop true;
}

drained-IsValid : IsValid 2 0 drained []
drained-IsValid = record {
  counters = record {
    written = last;
    read = last;
    seen_written = last;
    seen_read = last;
    write_pos_lem = refl;
    read_pos_lem = refl;
    cached_write_pos_lem = refl;
    cached_read_pos_lem = refl;
    size_lem = omega arith;
    bounded = omega arith;
    seen_written_bounds = (omega arith, omega arith);
    seen_read_bounds = (omega arith, omega arith);
  };
  length_slots = refl;
  contents = tt;
  producer_at = tt;
  consumer_at = tt;
}

-- Two values go in, a third does not, and one comes out while the producer looks again.
abbrev schedule : List (Action ℕ)
schedule =
    push 7
    ∷ produce
    ∷ produce
    ∷ pop
    ∷ push 8
    ∷ consume
    ∷ produce
    ∷ consume
    ∷ produce
    ∷ push 9
    ∷ produce
    ∷ consume
    ∷ push 9
    ∷ produce
    ∷ produce
    ∷ produce
    ∷ []

what_happens : accepted (run 2 0 schedule drained).1 ≡ 7 ∷ 8 ∷ 9 ∷ []
unfolding run step call_push producer_step call_pop consumer_step
what_happens = refl

run-QueueRun_example :
    (q' : List ℕ) × QueueRun 2 [] (run 2 0 schedule drained).1 q'
    × IsValid 2 0 (run 2 0 schedule drained).0 q'
run-QueueRun_example = run-QueueRun 2 0 two-IsCapacity schedule drained [] drained-IsValid
