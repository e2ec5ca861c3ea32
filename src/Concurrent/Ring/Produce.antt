-- ===== src/Concurrent/Ring/Produce.antt =====
-- The steps of the producer: one that publishes a value puts it behind the queue, the others leave
-- the queue alone.
use safeedge.Common.{
  ℕ, ◌+◌, ◌-◌, ◌%◌, ◌^◌, ◌≤◌, leb, List, [], ◌∷◌, ◌++◌, length, length-append, get_or, length-set,
  ◌≡◌, refl, sym, ap, ◌∙◌, arith, Bool-cases, inl, inr,
}
use safeedge.Concurrent.Ring.{
  World, Producer, out_of_push, refreshing_read, filling, publishing, Consumer, out_of_pop,
  refreshing_write, taking, releasing, call_push, producer_step,
}
use native.Mathlib.Nat.{mod-lt}
use safeedge.Concurrent.Ring.Queue.{unchanged, enqueue, full}
use safeedge.Concurrent.Ring.Invariant.{
  IsCapacity, Refines, IsValid, ProducerAt, ConsumerAt, see_read, publish, Contents-set,
  Contents-append, slot_of-u64, get_or-set_self,
}

module _ {A : Type 0} (c : ℕ) (default : A) (h : IsCapacity c) where
  -- The first value stays the first.
  more_behind :
      (read_pos : ℕ) (q : List A) (value : A) (read seen_written : ℕ) (p : Consumer A)
      → seen_written ≤ read + length q
      → ConsumerAt default read_pos read seen_written q p
      → ConsumerAt default read_pos read seen_written (q ++ value ∷ []) p
  more_behind read_pos q value read seen (out_of_pop result) h i = i
  more_behind read_pos q value read seen (refreshing_write position) h i = i
  more_behind read_pos q value read seen (taking position) h i = i
  more_behind read_pos [] value read seen (releasing position out) h (i, l, e) =
      absurd (omega arith)
  more_behind read_pos (x ∷ q) value read seen (releasing position out) h (i, l, e) = (i, l, e)

  -- Between two calls.
  pub call_push-IsValid :
      (value : A) (p : Producer A) (w : World A) (q : List A)
      → w.producer ≡ p
      → IsValid c default w q
      → IsValid c default (call_push c value p w) q
  unfolding call_push
  call_push-IsValid value (out_of_push result) w q e v =
      let n = v.counters in
      let fits = h.fits in
      elim (Bool-cases (leb c ((w.write_pos + 2 ^ 64 - w.cached_read_pos) % 2 ^ 64))) [
        | inl is_full ↦ rw is_full record {
          counters = n;
          length_slots = v.length_slots;
          contents = v.contents;
          producer_at = refl;
          consumer_at = v.consumer_at;
        }
        | inr room ↦ rw room record {
          counters = n;
          length_slots = v.length_slots;
          contents = v.contents;
          producer_at = (refl, ground arith);
          consumer_at = v.consumer_at;
        }
      ]
  call_push-IsValid value (refreshing_read other write) w q e v = v
  call_push-IsValid value (filling other write) w q e v = v
  call_push-IsValid value (publishing other write) w q e v = v

  pub producer_step-Refines :
      (p : Producer A) (w : World A) (q : List A)
      → w.producer ≡ p
      → (v : IsValid c default w q)
      → ProducerAt c default w.write_pos w.slots v.counters.written v.counters.seen_read p
      → Refines c default (producer_step c p w) q
  unfolding producer_step
  producer_step-Refines (out_of_push result) w q e v i = (q, unchanged, v)
  producer_step-Refines (refreshing_read value write) w q e v i =
      let n = v.counters in
      let fits = h.fits in
      elim (Bool-cases (leb c ((write + 2 ^ 64 - w.read_pos) % 2 ^ 64))) [
        | inl is_full ↦ rw is_full (
          q,
          full (ground arith),
          record {
            counters = see_read n;
            length_slots = v.length_slots;
            contents = v.contents;
            producer_at = tt;
            consumer_at = v.consumer_at;
          },
        )
        | inr room ↦ rw room (
          q,
          unchanged,
          record {
            counters = see_read n;
            length_slots = v.length_slots;
            contents = v.contents;
            producer_at = (i, ground arith);
            consumer_at = v.consumer_at;
          },
        )
      ]
  producer_step-Refines (filling value write) w q e v (i, r) =
      let n = v.counters in
      let least = h.at_least_two in
      let slot : write % c ≡ n.written % c =
        ap (λ (k : ℕ). k % c) (i ∙ n.write_pos_lem) ∙ slot_of-u64 c n.written h in
      rw slot (
        q,
        unchanged,
        record {
          counters = n;
          length_slots = length-set w.slots (n.written % c) value ∙ v.length_slots;
          contents =
              Contents-set c default q w.slots n.read n.written value (omega arith) (omega arith)
                v.contents;
          producer_at = (
            i,
            r,
            get_or-set_self w.slots (n.written % c) value default
                (omega (arith, v.length_slots, mod-lt n.written {m = c} (omega arith))),
          );
          consumer_at = v.consumer_at;
        },
      )
  producer_step-Refines (publishing value write) w q e v (i, r, s) =
      let n = v.counters in
      (
        q ++ value ∷ [],
        enqueue (omega arith),
        record {
          counters =
              publish n (length (q ++ value ∷ [])) (length-append q (value ∷ []) ∙ omega arith) r
                write i;
          length_slots = v.length_slots;
          contents =
              Contents-append c default q w.slots n.read value v.contents
                (ap (λ (k : ℕ). get_or w.slots (k % c) default) (sym n.size_lem) ∙ s);
          producer_at = tt;
          consumer_at =
              more_behind w.read_pos q value n.read n.seen_written w.consumer (omega arith)
                v.consumer_at;
        },
      )
