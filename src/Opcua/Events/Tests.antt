-- ===== src/Opcua/Events/Tests.antt =====
-- A publisher that meets a counter that wraps.
use mathlib.Core.Option.{Option, none, some}
use safeedge.Edge.Snapshot.{RuntimeSnapshot, empty_snapshot}
use safeedge.Opcua.Events.{
  attempt, Firing, Round, describe_transition, poll, Publisher, poll_all, start_publisher,
}
use safeedge.Opcua.Events.Account.{IsLogged, lost, poll_all-told, told}
use safeedge.Common.{false, All, ◌≡◌, refl, List, [], ◌∷◌, u64, ℕ, ◌-◌, ◌^◌, ◌+◌, arith, true}

abbrev at_sequence : ℕ → RuntimeSnapshot
at_sequence n = record empty_snapshot { safety_sequence = n }

abbrev succeeds : Firing
succeeds = record { ready = true; created = true; written = true; triggered = true }

abbrev reads : Option RuntimeSnapshot → Firing → Round
reads read firing = record { read = read; firing = firing }

-- The second event cannot be created.
abbrev rounds : List Round
rounds =
    reads (some (at_sequence (2 ^ 64 - 1))) succeeds
    ∷ reads none succeeds
    ∷ reads (some (at_sequence 2)) (record succeeds { created = false })
    ∷ reads (some (at_sequence 2)) succeeds
    ∷ []

abbrev publisher : Publisher
publisher = record { have_sequence = true; last_sequence = 2 ^ 64 - 3 }

-- Clients are told of two transitions, and the three after them are lost.
two_told : told (poll_all publisher rounds).1 ≡ 2
unfolding poll_all poll describe_transition attempt
two_told = refl

three_lost : lost (poll_all publisher rounds).1 ≡ 3
unfolding poll_all poll describe_transition attempt
three_lost = refl

poll_all-told_example :
    let (p', attempts) = poll_all publisher rounds in
    (p'.last_sequence ≡ u64 (publisher.last_sequence + (told attempts + lost attempts)))
    × All IsLogged attempts
poll_all-told_example =
    poll_all-told publisher rounds refl (omega arith)
      (omega arith, (tt, (omega arith, (omega arith, tt))))

-- The first snapshot that is read fires nothing.
silent_start : (poll_all start_publisher (reads (some (at_sequence 7)) succeeds ∷ [])).1 ≡ []
unfolding poll_all poll
silent_start = refl
