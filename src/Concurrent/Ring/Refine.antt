-- ===== src/Concurrent/Ring/Refine.antt =====
-- Every interleaving of the two threads is a run of a bounded first-in-first-out queue.
use safeedge.Common.{ℕ, ◌≤◌, List, [], ◌∷◌, ◌++◌, length, ◌≡◌, refl, sym, ap, ◌∙◌}
use safeedge.Concurrent.Ring.{World, Event}
use safeedge.Concurrent.Ring.Queue.{
  Action, push, produce, pop, consume, step, run, QueueStep, unchanged, enqueue, dequeue, full,
  empty, QueueRun, done, then, accepted, handed_out,
}
use safeedge.Concurrent.Ring.Invariant.{IsCapacity, Refines, IsValid}
use mathlib.Core.List.{append_assoc, append-nil}
use safeedge.Concurrent.Ring.Produce.{call_push-IsValid, producer_step-Refines}
use safeedge.Concurrent.Ring.Consume.{call_pop-IsValid, consumer_step-Refines}

module _ {A : Type 0} (c : ℕ) (default : A) (h : IsCapacity c) where
  step-Refines :
      (a : Action A) (w : World A) (q : List A)
      → IsValid c default w q
      → Refines c default (step c default a w) q
  unfolding step
  step-Refines (push value) w q v =
      (q, unchanged, call_push-IsValid c default h value w.producer w q refl v)
  step-Refines produce w q v = producer_step-Refines c default h w.producer w q refl v v.producer_at
  step-Refines pop w q v = (q, unchanged, call_pop-IsValid c default h w.consumer w q refl v)
  step-Refines consume w q v = consumer_step-Refines c default h w.consumer w q refl v v.consumer_at

  -- From a ring that holds a queue, with the counters at any value, every interleaving of the calls
  -- and the accesses of the two threads shows the callers a run of a bounded queue, and leaves a
  -- ring that holds the queue of its end: a push is accepted only with room, and returns
  -- false only if the queue was full; a pop hands out the first value, and returns false only if the
  -- queue was empty.
  pub run-QueueRun :
      (schedule : List (Action A)) (w : World A) (q : List A)
      → IsValid c default w q
      → (q' : List A) × QueueRun c q (run c default schedule w).1 q'
        × IsValid c default (run c default schedule w).0 q'
  unfolding run
  run-QueueRun [] w q v = (q, done, v)
  run-QueueRun (a ∷ schedule) w q v =
      let (q', one, v') = step-Refines a w q v in
      let (q'', more, v'') = run-QueueRun schedule (step c default a w).0 q' v' in
      (q'', then one more, v'')

  QueueStep-fifo :
      {q q' : List A} {event : Event A} (events : List (Event A)) (rest : List A)
      → QueueStep c q event q'
      → q' ++ accepted events ≡ handed_out events ++ rest
      → q ++ accepted (event ∷ events) ≡ handed_out (event ∷ events) ++ rest
  QueueStep-fifo events rest unchanged e = e
  QueueStep-fifo events rest (enqueue {q} {value} _) e =
      sym (append_assoc q (value ∷ []) (accepted events)) ∙ e
  QueueStep-fifo events rest (dequeue {value}) e = ap (◌∷◌ value) e
  QueueStep-fifo events rest (full _) e = e
  QueueStep-fifo events rest empty e = e

  QueueRun-fifo :
      {q q' : List A} {events : List (Event A)}
      → QueueRun c q events q'
      → q ++ accepted events ≡ handed_out events ++ q'
  QueueRun-fifo (done {q}) = append-nil q
  QueueRun-fifo (then {q'' = rest} {events = events} one more) =
      QueueStep-fifo events rest one (QueueRun-fifo more)

  -- The values that came out are a prefix of those that went in, in order, none lost and none twice;
  -- what is still missing is the ring's contents, at most its capacity.
  pub run-fifo :
      (schedule : List (Action A)) (w : World A)
      → IsValid c default w []
      → (rest : List A) × (accepted (run c default schedule w).1
          ≡ handed_out (run c default schedule w).1 ++ rest)
        × (length rest ≤ c)
  run-fifo schedule w v =
      let (rest, ran, v') = run-QueueRun schedule w [] v in
      (rest, QueueRun-fifo ran, v'.counters.bounded)
