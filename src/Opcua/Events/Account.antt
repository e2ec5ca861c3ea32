-- ===== src/Opcua/Events/Account.antt =====
-- The events and their counts account for every transition that the sequence number shows, but those
-- of an event that could not be fired are told to nobody.
use mathlib.Core.Option.{Option, none, some}
use safeedge.Common.{
  Bool, ◌&&◌, if◌then◌else◌, ◌||◌, ◌||◌, sym, ◌∙◌, ap, ℕ, ◌+◌, ◌^◌, ◌<◌, ◌==◌, u64, true, false,
  List, [], ◌∷◌, All, ◌≡◌, refl, arith, Bool-cases, inl, inr,
}
use safeedge.Edge.Snapshot.{RuntimeSnapshot}
use safeedge.Opcua.Events.{
  before, Round, Attempt, Firing, attempt, SafetyTransitionEvent, describe_transition, Publisher,
  poll, poll_all,
}

-- The transitions that an event stands for: its own, and those it says were missed.
abbrev pub transitions : SafetyTransitionEvent → ℕ
transitions event = 1 + event.missed_transitions

-- An event reaches the clients with all of its fields.
abbrev pub complete : Firing → Bool
complete f = f.ready && f.created && f.written && f.triggered

-- The transitions of the events that reach the clients so.
abbrev pub told : List Attempt → ℕ
told [] = 0
told (a ∷ rest) = (if complete a.firing then transitions a.event else 0) + told rest

-- The transitions of the other events.
abbrev pub lost : List Attempt → ℕ
lost [] = 0
lost (a ∷ rest) = (if complete a.firing then 0 else transitions a.event) + lost rest

-- A sequence number of 64 bits, if one is read.
abbrev pub InRange : Option RuntimeSnapshot → Type 0
InRange none = Unit
InRange (some s) = s.safety_sequence < 2 ^ 64

describe_transition_counts :
    (s : RuntimeSnapshot) (last : ℕ)
    → s.safety_sequence < 2 ^ 64
    → last < 2 ^ 64
    → (s.safety_sequence == last) ≡ false
    → (n : ℕ)
    → u64 (last + (1 + (describe_transition s last).missed_transitions + n))
      ≡ u64 (s.safety_sequence + n)
unfolding describe_transition
describe_transition_counts s last h k e n = ground arith

-- The transitions of an attempt, with those of the attempts after it.
abbrev counted : Option Attempt → ℕ → ℕ
counted none n = n
counted (some a) n = transitions a.event + n

-- An event that does not reach the clients, or not with all of its fields, is logged.
abbrev pub IsLogged : Attempt → Type 0
IsLogged a = (complete a.firing || a.warned) ≡ true

abbrev AllLogged : Option Attempt → Type 0
AllLogged none = Unit
AllLogged (some a) = IsLogged a

attempt-IsLogged : (event : SafetyTransitionEvent) (f : Firing) → IsLogged (attempt event f)
unfolding attempt
attempt-IsLogged event f = ground arith

poll_counts :
    (p : Publisher) (read : Option RuntimeSnapshot) (firing : Firing) (n : ℕ)
    → p.have_sequence ≡ true
    → p.last_sequence < 2 ^ 64
    → InRange read
    → let (p', a) = poll p (record { read = read; firing = firing }) in
      (p'.have_sequence ≡ true)
      × (p'.last_sequence < 2 ^ 64)
      × (u64 (p.last_sequence + counted a n) ≡ u64 (p'.last_sequence + n))
      × AllLogged a
unfolding poll attempt
poll_counts p none firing n h k r = (h, k, refl, tt)
poll_counts p (some s) firing n h k r = elim (Bool-cases (s.safety_sequence == p.last_sequence)) [
  | inl e ↦ rw (h, e) (refl, k, refl, tt)
  | inr e ↦
      rw (h, e)
        (
          refl,
          r,
          describe_transition_counts s p.last_sequence r k e n,
          attempt-IsLogged (describe_transition s p.last_sequence) firing,
        )
]

before-counted :
    (a : Option Attempt) (r : Publisher × List Attempt)
    → ((before a r).0 ≡ r.0)
      × (told (before a r).1 + lost (before a r).1 ≡ counted a (told r.1 + lost r.1))
before-counted none r = (refl, refl)
before-counted (some a) r = (refl, ground arith)

before-IsLogged :
    (a : Option Attempt) (r : Publisher × List Attempt)
    → AllLogged a
    → All IsLogged r.1
    → All IsLogged (before a r).1
before-IsLogged none r l ls = ls
before-IsLogged (some a) r l ls = (l, ls)

-- For a publisher that has a sequence number, whatever numbers of 64 bits it reads and whether
-- firing events succeeds or not: the last number it holds is the number it began with, advanced,
-- modulo 2 ^ 64, by the transitions of the events that reach the clients with all of their fields,
-- each event standing for its own transition and those it says were missed, and by the transitions
-- of the other events; and every one of the others is logged.
pub poll_all-told :
    (p : Publisher) (rounds : List Round)
    → p.have_sequence ≡ true
    → p.last_sequence < 2 ^ 64
    → All (λ round. InRange round.read) rounds
    → let (p', attempts) = poll_all p rounds in
      (p'.last_sequence ≡ u64 (p.last_sequence + (told attempts + lost attempts)))
      × All IsLogged attempts
unfolding poll_all
poll_all-told p [] h k r = (omega arith, tt)
poll_all-told p (round ∷ rounds) h k (r, rs) =
    let (p', a) = poll p round in
    let rest = poll_all p' rounds in
    let (h', k', e, l) = poll_counts p round.read round.firing (told rest.1 + lost rest.1) h k r in
    let (same, counts) = before-counted a rest in
    let (later, logs) = poll_all-told p' rounds h' k' rs in
    (
      ap (λ q. q.last_sequence) same
          ∙ later
          ∙ sym e
          ∙ ap (λ n. u64 (p.last_sequence + n)) (sym counts),
      before-IsLogged a rest l logs,
    )
