-- ===== src/Apps/Daemon/Transitions.antt =====
-- The sequence number that a cycle publishes counts the transitions.
use safeedge.Common.{
  subst, ℤ, ℕ, ◌+◌, ◌*◌, ◌^◌, ◌<◌, u64, pos, ◌≡◌, refl, ap, sym, ◌∙◌, Bool, true, false, not, ◌||◌,
  ◌==◌, List, [], ◌∷◌, arith, FloatingPoint, Bool-cases, inl, inr, if◌then◌else◌,
}
use safeedge.Safety.Types.{SafetyOutputs, rank}
use safeedge.Apps.Daemon.{
  Literals, Reading, Control, cycle, run, decide, flag, pass_telegram, note_transition, snapshot_of,
}
use safeedge.Edge.Snapshot.{RuntimeSnapshot}

-- Two published decisions differ.
abbrev pub differs : ℕ → ℕ → RuntimeSnapshot → Bool
differs state torque s = not (s.safety_state == state) || not (s.torque_permitted == torque)

-- The decisions in a list of snapshots that differ from the one before, the first one from a state
-- and a permission that are given.
abbrev pub changes : ℕ → ℕ → List RuntimeSnapshot → ℕ
changes state torque [] = 0
changes state torque (s ∷ ss) =
    (if differs state torque s then 1 else 0) + changes s.safety_state s.torque_permitted ss

-- The number after a snapshot.
abbrev next_sequence : ℕ → ℕ → ℕ → RuntimeSnapshot → ℕ
next_sequence state torque n s = if differs state torque s then u64 (n + 1) else n

count_one :
    (b : Bool) (n m k : ℕ)
    → m ≡ (if b then u64 (n + 1) else n)
    → u64 (m + k) ≡ u64 (n + ((if b then 1 else 0) + k))
count_one true n m k e = omega arith
count_one false n m k e = omega arith

next_bound : (b : Bool) (n : ℕ) → n < 2 ^ 64 → (if b then u64 (n + 1) else n) < 2 ^ 64
next_bound true n h = omega arith
next_bound false n h = h

-- The locals that hold the last decision.
abbrev pub last_state : {Double : Type 0} → Control Double → ℕ
last_state c = rank c.last_safety_state

abbrev pub last_torque : {Double : Type 0} → Control Double → ℕ
last_torque c = flag c.last_torque_permitted

module _ {Double : Type 0} ⦃fp : FloatingPoint Double⦄ (literals : Literals Double) where
  pass_telegram_keeps :
      (c : Control Double) (now_ns : ℤ)
      → (last_state (pass_telegram c now_ns) ≡ last_state c)
        × (last_torque (pass_telegram c now_ns) ≡ last_torque c)
        × ((pass_telegram c now_ns).safety_sequence ≡ c.safety_sequence)
  unfolding pass_telegram
  pass_telegram_keeps c now_ns = ground arith

  -- What a cycle does to the locals, in terms of its snapshot.
  note_transition_counts :
      (applied : Bool) (c : Control Double) (o : SafetyOutputs Double) (reading : Reading)
      → let c' = note_transition c o reading in
        let s = snapshot_of applied c' o reading in
        (s.safety_sequence ≡ c'.safety_sequence)
        × (last_state c' ≡ s.safety_state)
        × (last_torque c' ≡ s.torque_permitted)
        × (c'.safety_sequence ≡ (
            if differs (last_state c) (last_torque c) s
            then u64 (c.safety_sequence + 1)
            else c.safety_sequence))
  unfolding note_transition snapshot_of
  note_transition_counts applied c o reading =
      let test =
        not (rank o.state == last_state c) || not (flag o.torque_permitted == last_torque c) in
      elim (Bool-cases test) [
        | inl moved ↦ rw moved (refl, refl, refl, refl)
        | inr same ↦ rw same (refl, ground arith, ground arith, refl)
      ]

  cycle_counts :
      (applied : Bool) (period index : ℕ) (reading : Reading) (c : Control Double)
      → let (c', s) = cycle literals applied period index reading c in
        (s.safety_sequence ≡ c'.safety_sequence)
        × (last_state c' ≡ s.safety_state)
        × (last_torque c' ≡ s.torque_permitted)
        × (c'.safety_sequence ≡ (
            if differs (last_state c) (last_torque c) s
            then u64 (c.safety_sequence + 1)
            else c.safety_sequence))
  unfolding cycle
  cycle_counts applied period index reading c =
      let now_ns = pos (period * index) in
      let p = pass_telegram c now_ns in
      let (supervisor, outputs) = decide literals p reading now_ns in
      let (state, torque, sequence) = pass_telegram_keeps c now_ns in
      let s = (cycle literals applied period index reading c).1 in
      let (shown, new_state, new_torque, counted) =
        note_transition_counts applied (record p { supervisor = supervisor }) outputs reading in
      (
        shown,
        new_state,
        new_torque,
        counted
            ∙ (ap (λ (a : ℕ). next_sequence a (last_torque p) p.safety_sequence s) state
                ∙ (ap (λ (b : ℕ). next_sequence (last_state c) b p.safety_sequence s) torque
                    ∙ ap (λ (n : ℕ). next_sequence (last_state c) (last_torque c) n s) sequence)),
      )

  -- The sequence number counts the published decisions that differ from the one before in the state
  -- or in the permission of torque, modulo 2 ^ 64: over any run of cycles it rises by their number.
  pub run_sequence :
      (applied : Bool) (period index : ℕ) (readings : List Reading) (c : Control Double)
      → c.safety_sequence < 2 ^ 64
      → let (c', snapshots) = run literals applied period index readings c in
        c'.safety_sequence
        ≡ u64 (c.safety_sequence + changes (last_state c) (last_torque c) snapshots)
  unfolding run
  run_sequence applied period index [] c h = omega arith
  run_sequence applied period index (reading ∷ readings) c h =
      let (shown, state, torque, counted) = cycle_counts applied period index reading c in
      let c' = (cycle literals applied period index reading c).0 in
      let s = (cycle literals applied period index reading c).1 in
      let moved = differs (last_state c) (last_torque c) s in
      let bound : c'.safety_sequence < 2 ^ 64 =
        subst (λ (n : ℕ). n < 2 ^ 64) (sym counted) (next_bound moved c.safety_sequence h) in
      let snapshots = (run literals applied period (index + 1) readings c').1 in
      let rest = run_sequence applied period (index + 1) readings c' bound in
      rest
      ∙ (ap (λ (a : ℕ). u64 (c'.safety_sequence + changes a (last_torque c') snapshots)) state
          ∙ (ap (λ (b : ℕ). u64 (c'.safety_sequence + changes s.safety_state b snapshots)) torque
              ∙ count_one moved c.safety_sequence c'.safety_sequence
                  (changes s.safety_state s.torque_permitted snapshots) counted))
