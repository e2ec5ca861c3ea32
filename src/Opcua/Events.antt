-- ===== src/Opcua/Events.antt =====
-- src/opcua/events.cpp, and the publishing loop of src/apps/safeedge_opcua.cpp: which events a client
-- hears of, and what they say of the transitions that were not seen one by one.
pub mod Account
mod Tests
use mathlib.Core.Option.{Option, none, some}
use safeedge.Common.{
  ℕ, ◌+◌, ◌-◌, ◌%◌, ◌^◌, ltb, ◌==◌, ℤ, Bool, true, false, not, ◌&&◌, if◌then◌else◌, List, [], ◌∷◌,
}
use safeedge.Edge.Snapshot.{RuntimeSnapshot}
use safeedge.Opcua.AddressSpace.{int64_of}

pub record SafetyTransitionEvent : Type 0 where
  pub transition_monotonic_ns : ℤ
  pub safety_sequence : ℕ
  pub missed_transitions : ℕ
  pub safety_state : ℕ
  pub torque_permitted : Bool

unfoldable pub describe_transition : RuntimeSnapshot → ℕ → SafetyTransitionEvent
describe_transition snapshot previous_sequence =
    let advanced = (snapshot.safety_sequence + 2 ^ 64 - previous_sequence) % 2 ^ 64 in
    record {
      transition_monotonic_ns = int64_of snapshot.safety_transition_monotonic_ns;
      safety_sequence = snapshot.safety_sequence;
      safety_state = snapshot.safety_state;
      torque_permitted = not (snapshot.torque_permitted == 0);
      missed_transitions = if ltb 1 advanced then advanced - 1 else 0;
    }

-- The severity that `fireSafetyTransition` writes.
unfoldable pub severity : SafetyTransitionEvent → ℕ
severity event = if event.torque_permitted then 100 else 500

-- What the calls of open62541 in `fireSafetyTransition` give: whether there is a server with a
-- namespace, whether the event is created, whether all of its fields are written, and whether it is
-- triggered.
pub record Firing : Type 0 where
  pub ready : Bool
  pub created : Bool
  pub written : Bool
  pub triggered : Bool

-- `fireSafetyTransition`. It triggers the event even if a field could not be written, and then says
-- that it failed.
unfoldable pub fire_safety_transition : Firing → Bool
fire_safety_transition f =
    if not f.ready then false else if not f.created then false else f.written && f.triggered

-- `have_sequence` and `last_sequence` of the publisher.
pub record Publisher : Type 0 where
  pub have_sequence : Bool
  pub last_sequence : ℕ

abbrev pub start_publisher : Publisher
start_publisher = record { have_sequence = false; last_sequence = 0 }

-- What a round of the loop meets: what `tryLoad` gives, and what firing an event would meet.
pub record Round : Type 0 where
  pub read : Option RuntimeSnapshot
  pub firing : Firing

-- An event that a round describes, what firing it meets, and whether a failure is logged.
pub record Attempt : Type 0 where
  pub event : SafetyTransitionEvent
  pub firing : Firing
  pub warned : Bool

-- The attempt to fire an event, whose outcome the publisher does not keep.
unfoldable pub attempt : SafetyTransitionEvent → Firing → Attempt
unfolding fire_safety_transition
attempt event firing = record {
  event = event;
  firing = firing;
  warned = not (fire_safety_transition firing);
}

-- One round of the loop.
unfoldable pub poll : Publisher → Round → Publisher × Option Attempt
poll p round = elim round.read [
  | none ↦ (p, none)
  | some snapshot ↦
      if not p.have_sequence
      then (record { have_sequence = true; last_sequence = snapshot.safety_sequence }, none)
      else if not (snapshot.safety_sequence == p.last_sequence)
      then (
        record p { last_sequence = snapshot.safety_sequence },
        some (attempt (describe_transition snapshot p.last_sequence) round.firing),
      )
      else (p, none)
]

-- An attempt, before those of later rounds.
abbrev pub before : Option Attempt → Publisher × List Attempt → Publisher × List Attempt
before none (p, attempts) = (p, attempts)
before (some a) (p, attempts) = (p, a ∷ attempts)

-- Rounds in turn, and the events that they attempt to fire.
unfoldable pub poll_all : Publisher → List Round → Publisher × List Attempt
poll_all p [] = (p, [])
poll_all p (round ∷ rounds) = let (p', a) = poll p round in before a (poll_all p' rounds)
