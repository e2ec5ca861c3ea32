-- ===== src/Apps/Daemon/Watcher.antt =====
-- src/apps/safeedged.cpp, `FileFlagWatcher`: a thread that polls for a file and sets a flag that the
-- control loop reads. Each access of the file or of the flag is a step, and others make the file
-- appear and disappear in between.
use safeedge.Common.{
  ℕ, zero, suc, ◌+◌, ◌≤◌, ◌≡◌, refl, ap, Bool, true, false, not, ◌&&◌, if◌then◌else◌, List, [], ◌∷◌,
  All, arith, Bool-cases, inl, inr,
}

pub data Mode : Type 0 where
  level latch_once : Mode

-- Where the loop of `run` stands.
pub data Phase : Type 0 where
  looking : Phase
  showing : (present : Bool) → Phase
  unlinking : Phase
  setting : Phase

pub record Watcher : Type 0 where
  pub mode : Mode
  pub present : Bool
  pub asserted : Bool
  pub phase : Phase

-- Who moves: somebody creates or removes the file, the thread makes its next access, where `unlink`
-- succeeds or not, or the control loop reads the flag.
pub data Action : Type 0 where
  appears : Action
  disappears : Action
  watches : (unlinks : Bool) → Action
  takes : Action

abbrev same_flag : Bool → Bool → Bool
same_flag true b = b
same_flag false b = not b

-- After `access`, by the mode.
look : Mode → Watcher → Watcher
look level w = if same_flag w.present w.asserted then w else record w { phase = showing w.present }
look latch_once w = if w.present then record w { phase = unlinking } else w

unfoldable pub watch : Bool → Phase → Watcher → Watcher
unfolding look
watch unlinks looking w = look w.mode w
watch unlinks (showing present) w = record w { asserted = present; phase = looking }
watch unlinks unlinking w = record w { present = w.present && not unlinks; phase = setting }
watch unlinks setting w = record w { asserted = true; phase = looking }

-- `takeOnce`
unfoldable pub take_once : Watcher → Watcher × Bool
take_once w = (record w { asserted = false }, w.asserted)

-- The watcher after a schedule, and how often `takeOnce` returned true.
unfoldable pub run_watcher : List Action → Watcher → Watcher × ℕ
unfolding take_once watch
run_watcher [] w = (w, 0)
run_watcher (appears ∷ schedule) w = run_watcher schedule (record w { present = true })
run_watcher (disappears ∷ schedule) w = run_watcher schedule (record w { present = false })
run_watcher (watches unlinks ∷ schedule) w = run_watcher schedule (watch unlinks w.phase w)
run_watcher (takes ∷ schedule) w =
    let (w', taken) = take_once w in
    let (w'', count) = run_watcher schedule w' in (w'', (if taken then 1 else 0) + count)

-- How often the file was created in a schedule.
abbrev pub appearances : List Action → ℕ
appearances [] = 0
appearances (appears ∷ schedule) = suc (appearances schedule)
appearances (_ ∷ schedule) = appearances schedule

-- Every `unlink` of the schedule succeeds.
abbrev pub Unlinks : Action → Type 0
Unlinks (watches unlinks) = unlinks ≡ true
Unlinks _ = Unit

one : Bool → ℕ
one true = 1
one false = 0

-- The events on their way from the file to the control loop.
pending : Phase → Watcher → ℕ
unfolding one
pending looking w = one w.present + one w.asserted
pending (showing present) w = one w.present + one w.asserted
pending unlinking w = 1 + one w.asserted
pending setting w = one w.present + 1 + one w.asserted

-- The latching watcher has no use for the phase of the other mode.
abbrev IsLatching : Phase → Type 0
IsLatching (showing present) = ⊥
IsLatching _ = Unit

watch-pending :
    (p : Phase) (w : Watcher)
    → w.phase ≡ p
    → w.mode ≡ latch_once
    → IsLatching p
    → (pending (watch true p w).phase (watch true p w) ≤ pending p w)
      × IsLatching (watch true p w).phase
      × ((watch true p w).mode ≡ latch_once)
unfolding watch pending
watch-pending looking w e m l = elim (Bool-cases w.present) [
  | inl there ↦ rw (m, there) (ground arith, tt, refl)
  | inr gone ↦ rw (m, gone, e) (ground arith, tt, refl)
]
watch-pending (showing present) w e m l = absurd l
watch-pending unlinking w e m l = (ground arith, tt, m)
watch-pending setting w e m l = (ground arith, tt, m)

appears-pending :
    (p : Phase) (w : Watcher) → pending p (record w { present = true }) ≤ 1 + pending p w
unfolding pending
appears-pending p w = ground arith

disappears-pending :
    (p : Phase) (w : Watcher) → pending p (record w { present = false }) ≤ pending p w
unfolding pending
disappears-pending p w = ground arith

takes-pending :
    (p : Phase) (w : Watcher)
    → (if w.asserted then 1 else 0) + pending p (record w { asserted = false }) ≤ pending p w
unfolding pending
takes-pending p w = ground arith

-- With every `unlink` succeeding, the latching watcher delivers no more acknowledgements than the file
-- was created times, in every interleaving of the three parties.
run_watcher-pending :
    (schedule : List Action) (w : Watcher)
    → w.mode ≡ latch_once
    → IsLatching w.phase
    → All Unlinks schedule
    → (run_watcher schedule w).1 ≤ appearances schedule + pending w.phase w
unfolding run_watcher
run_watcher-pending [] w m l u = omega arith
run_watcher-pending (appears ∷ schedule) w m l u = omega (
  arith,
  appears-pending w.phase w,
  run_watcher-pending schedule (record w { present = true }) m l u.1,
)
run_watcher-pending (disappears ∷ schedule) w m l u = omega (
  arith,
  disappears-pending w.phase w,
  run_watcher-pending schedule (record w { present = false }) m l u.1,
)
run_watcher-pending (watches unlinks ∷ schedule) w m l u =
    let (less, latching, mode) = watch-pending w.phase w refl m l in
    let always : watch unlinks w.phase w ≡ watch true w.phase w =
      ap (λ (b : Bool). watch b w.phase w) u.0 in
    let count : (run_watcher schedule (watch unlinks w.phase w)).1
        ≡ (run_watcher schedule (watch true w.phase w)).1 =
      ap (λ (w' : Watcher). (run_watcher schedule w').1) always in
    omega (arith, run_watcher-pending schedule (watch true w.phase w) mode latching u.1)
run_watcher-pending (takes ∷ schedule) w m l u = omega (
  arith,
  takes-pending w.phase w,
  run_watcher-pending schedule (record w { asserted = false }) m l u.1,
)

-- A latching watcher that starts with no file and no flag.
abbrev pub at_rest : Watcher
at_rest = record { mode = latch_once; present = false; asserted = false; phase = looking }

-- While every `unlink` succeeds, the control loop takes no more acknowledgements than the file was
-- created times, in every interleaving of whoever creates and removes the file, the watching thread
-- and the loop.
pub run_watcher-appearances :
    (schedule : List Action)
    → All Unlinks schedule
    → (run_watcher schedule at_rest).1 ≤ appearances schedule
unfolding pending
run_watcher-appearances schedule u = omega (arith, run_watcher-pending schedule at_rest refl tt u)

-- A look at the file, an `unlink` that fails, the flag, and a read of it by the loop, `n` times.
abbrev pub stuck_rounds : ℕ → List Action
stuck_rounds zero = []
stuck_rounds (suc n) = watches false ∷ watches false ∷ watches false ∷ takes ∷ stuck_rounds n

stuck : (n : ℕ) → (run_watcher (stuck_rounds n) (record at_rest { present = true })).1 ≡ n
unfolding run_watcher
stuck zero = refl
stuck (suc n) = omega (arith, stuck n)

-- A file that was created once and that the daemon cannot remove acknowledges in every round, for any
-- number of them: the result of `unlink` is not looked at.
pub stuck_acknowledge : (n : ℕ) → (run_watcher (appears ∷ stuck_rounds n) at_rest).1 ≡ n
unfolding run_watcher
stuck_acknowledge n = stuck n
