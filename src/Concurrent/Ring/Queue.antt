-- ===== src/Concurrent/Ring/Queue.antt =====
-- The interleavings of a producer and a consumer, and the bounded queue that they are to be.
use safeedge.Common.{ℕ, ◌<◌, List, [], ◌∷◌, ◌++◌, length, ◌≡◌}
use safeedge.Concurrent.Ring.{
  World, Event, call_push, producer_step, call_pop, consumer_step, silent, pushed, popped,
  push_failed, pop_failed,
}

-- Who moves next, or that a call begins.
pub data Action (A : Type 0) : Type 0 where
  push : (value : A) → Action A
  produce : Action A
  pop : Action A
  consume : Action A

unfoldable pub step : {A : Type 0} → ℕ → A → Action A → World A → World A × Event A
step capacity default (push value) w = (call_push capacity value w.producer w, silent)
step capacity default produce w = producer_step capacity w.producer w
step capacity default pop w = (call_pop w.consumer w, silent)
step capacity default consume w = consumer_step capacity default w.consumer w

unfoldable pub run : {A : Type 0} → ℕ → A → List (Action A) → World A → World A × List (Event A)
run capacity default [] w = (w, [])
run capacity default (a ∷ schedule) w =
    let (w', event) = step capacity default a w in
    let (w'', events) = run capacity default schedule w' in (w'', event ∷ events)

-- A queue of at most `capacity` values: what each event does to it.
pub data QueueStep {A : Type 0} (capacity : ℕ) : List A → Event A → List A → Type 0 where
  unchanged : {q : List A} → QueueStep capacity q silent q
  enqueue :
      {q : List A} {value : A}
      → length q < capacity
      → QueueStep capacity q (pushed value) (q ++ value ∷ [])
  dequeue : {q : List A} {value : A} → QueueStep capacity (value ∷ q) (popped value) q
  full : {q : List A} → length q ≡ capacity → QueueStep capacity q push_failed q
  empty : QueueStep capacity [] pop_failed []

pub data QueueRun {A : Type 0} (capacity : ℕ) : List A → List (Event A) → List A → Type 0 where
  done : {q : List A} → QueueRun capacity q [] q
  then :
      {q q' q'' : List A} {event : Event A} {events : List (Event A)}
      → QueueStep capacity q event q'
      → QueueRun capacity q' events q''
      → QueueRun capacity q (event ∷ events) q''

-- The values accepted and the values handed out, in order.
abbrev pub accepted : {A : Type 0} → List (Event A) → List A
accepted [] = []
accepted (pushed value ∷ events) = value ∷ accepted events
accepted (_ ∷ events) = accepted events

abbrev pub handed_out : {A : Type 0} → List (Event A) → List A
handed_out [] = []
handed_out (popped value ∷ events) = value ∷ handed_out events
handed_out (_ ∷ events) = handed_out events
