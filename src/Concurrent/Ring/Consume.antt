-- ===== src/Concurrent/Ring/Consume.antt =====
-- The steps of the consumer: one that releases a slot takes the first value off the queue, the
-- others leave the queue alone.
use safeedge.Common.{
  subst, ℕ, ◌%◌, ◌≤◌, ◌==◌, List, [], ◌∷◌, length, get_or, ◌≡◌, refl, sym, ap, ◌∙◌, arith,
  Bool-cases, inl, inr,
}
use safeedge.Concurrent.Ring.{
  World, popped, pop_failed, Consumer, out_of_pop, refreshing_write, taking, releasing, call_pop,
  consumer_step,
}
use safeedge.Concurrent.Ring.Queue.{QueueStep, unchanged, dequeue, empty}
use safeedge.Concurrent.Ring.Invariant.{
  IsCapacity, Refines, IsValid, ConsumerAt, see_written, release, Contents, slot_of-u64,
}

module _ {A : Type 0} (c : ℕ) (default : A) (h : IsCapacity c) where
  pub call_pop-IsValid :
      (p : Consumer A) (w : World A) (q : List A)
      → w.consumer ≡ p
      → IsValid c default w q
      → IsValid c default (call_pop p w) q
  unfolding call_pop
  call_pop-IsValid (out_of_pop result) w q e v =
      let n = v.counters in
      let fits = h.fits in
      elim (Bool-cases (w.read_pos == w.cached_write_pos)) [
        | inl looks_empty ↦ rw looks_empty record {
          counters = n;
          length_slots = v.length_slots;
          contents = v.contents;
          producer_at = v.producer_at;
          consumer_at = refl;
        }
        | inr some ↦ rw some record {
          counters = n;
          length_slots = v.length_slots;
          contents = v.contents;
          producer_at = v.producer_at;
          consumer_at = (refl, ground arith);
        }
      ]
  call_pop-IsValid (refreshing_write read) w q e v = v
  call_pop-IsValid (taking read) w q e v = v
  call_pop-IsValid (releasing read out) w q e v = v

  no_values : (q : List A) → length q ≤ 0 → q ≡ []
  no_values [] h = refl
  no_values (x ∷ q) h = absurd (omega arith)

  first_value :
      (slots q : List A) (read : ℕ)
      → 1 ≤ length q
      → Contents c default slots read q
      → get_or q 0 default ≡ get_or slots (read % c) default
  first_value slots [] read h i = absurd (omega arith)
  first_value slots (x ∷ q) read h (i, is) = sym i

  pub consumer_step-Refines :
      (p : Consumer A) (w : World A) (q : List A)
      → w.consumer ≡ p
      → (v : IsValid c default w q)
      → ConsumerAt default w.read_pos v.counters.read v.counters.seen_written q p
      → Refines c default (consumer_step c default p w) q
  unfolding consumer_step
  consumer_step-Refines (out_of_pop result) w q e v i = (q, unchanged, v)
  consumer_step-Refines (refreshing_write read) w q e v i =
      let n = v.counters in
      let fits = h.fits in
      elim (Bool-cases (read == w.write_pos)) [
        | inl none_left ↦ rw none_left (
          q,
          subst (λ (xs : List A). QueueStep c xs pop_failed xs) (sym (no_values q (ground arith)))
              empty,
          record {
            counters = see_written n;
            length_slots = v.length_slots;
            contents = v.contents;
            producer_at = v.producer_at;
            consumer_at = tt;
          },
        )
        | inr some_left ↦ rw some_left (
          q,
          unchanged,
          record {
            counters = see_written n;
            length_slots = v.length_slots;
            contents = v.contents;
            producer_at = v.producer_at;
            consumer_at = (i, ground arith);
          },
        )
      ]
  consumer_step-Refines (taking read) w q e v (i, more) =
      let n = v.counters in
      let slot : read % c ≡ n.read % c =
        ap (λ (k : ℕ). k % c) (i ∙ n.read_pos_lem) ∙ slot_of-u64 c n.read h in
      (
        q,
        unchanged,
        record {
          counters = n;
          length_slots = v.length_slots;
          contents = v.contents;
          producer_at = v.producer_at;
          consumer_at = (
            i,
            more,
            first_value w.slots q n.read (omega arith) v.contents
                ∙ ap (λ (k : ℕ). get_or w.slots k default) (sym slot),
          );
        },
      )
  consumer_step-Refines (releasing read out) w [] e v (i, more, s) =
      let n = v.counters in absurd (omega arith)
  consumer_step-Refines (releasing read out) w (x ∷ q) e v (i, more, s) =
      let n = v.counters in
      (
        q,
        subst (λ (z : A). QueueStep c (x ∷ q) (popped z) q) s dequeue,
        record {
          counters = release n more read i;
          length_slots = v.length_slots;
          contents = v.contents.1;
          producer_at = v.producer_at;
          consumer_at = tt;
        },
      )
