-- ===== src/Rt/Executor/Cadence.antt =====
-- The deadlines of the loop: on the grid that its start fixes, and after an overrun the next of the
-- grid that is still to come.
use safeedge.Common.{
  ◌||◌, ◌==◌, u64, ltb, ◌⊎◌, u64, ℕ, zero, suc, ◌+◌, ◌*◌, ◌≤◌, ◌<◌, ◌≡◌, refl, ap, ◌∙◌, arith, ℤ,
  pos, pos_part, neg_part, ◌+ℤ◌, ◌-ℤ◌, ◌≤ℤ◌, ◌<ℤ◌, ltb_ℤ, +ℤ_parts, -ℤ_parts, eq_of_parts, Bool,
  Bool-cases, inl, inr, not, ◌&&◌, List, [], ◌∷◌,
}
use safeedge.Rt.Histogram.{Arithmetic}
use safeedge.Rt.Executor.{
  is_skip_missed, OverrunPolicy, skip_missed, skip_to, next_deadline, Loop, Outcome, Reading, cycle,
  loop,
}

-- `k` periods after `d`.
abbrev pub grid : ℤ → ℕ → ℕ → ℤ
grid d p k = d +ℤ pos (k * p)

grid_step : (d : ℤ) (p k j : ℕ) → grid (grid d p k) p j ≡ grid d p (k + j)
grid_step d p k j =
    let a = +ℤ_parts d (pos (k * p)) in
    let b = +ℤ_parts (grid d p k) (pos (j * p)) in
    let c = +ℤ_parts d (pos ((k + j) * p)) in
    let e : (k + j) * p ≡ k * p + j * p = omega arith in eq_of_parts _ _ (omega arith)

grid_first : (d : ℤ) (p k : ℕ) → grid (d +ℤ pos p) p k ≡ grid d p (suc k)
grid_first d p k =
    let a = +ℤ_parts d (pos p) in
    let b = +ℤ_parts (d +ℤ pos p) (pos (k * p)) in
    let c = +ℤ_parts d (pos (suc k * p)) in
    let e : suc k * p ≡ k * p + p = omega arith in eq_of_parts _ _ (omega arith)

grid_none : (d : ℤ) (p : ℕ) → d ≡ grid d p 0
grid_none d p = let a = +ℤ_parts d (pos (0 * p)) in eq_of_parts _ _ (omega arith)

skip_to-grid :
    (fuel : ℕ) (f : ℤ) (p : ℕ) (d : ℤ)
    → (skip_to fuel f (pos p) d).0 ≡ grid d p (skip_to fuel f (pos p) d).1
unfolding skip_to
skip_to-grid zero f p d = grid_none d p
skip_to-grid (suc fuel) f p d = elim (Bool-cases (not (ltb_ℤ f d))) [
  | inl e ↦
      rw e (
        skip_to-grid fuel f p (d +ℤ pos p) ∙ grid_first d p (skip_to fuel f (pos p) (d +ℤ pos p)).1)
  | inr e ↦ rw e (grid_none d p)
]

-- Enough fuel passes the finishing time.
skip_to-future :
    (fuel : ℕ) (f : ℤ) (p : ℕ) (d : ℤ)
    → 1 ≤ p
    → pos_part f + neg_part d < fuel + pos_part d + neg_part f
    → f <ℤ (skip_to fuel f (pos p) d).0
unfolding skip_to
skip_to-future zero f p d h m = omega arith
skip_to-future (suc fuel) f p d h m = elim (Bool-cases (not (ltb_ℤ f d))) [
  | inl e ↦ rw e (skip_to-future fuel f p (d +ℤ pos p) h (omega (arith, +ℤ_parts d (pos p))))
  | inr e ↦ rw e (ground arith)
]

-- No more than a period past it.
skip_to-near :
    (fuel : ℕ) (f : ℤ) (p : ℕ) (d : ℤ)
    → d ≤ℤ f +ℤ pos p
    → (skip_to fuel f (pos p) d).0 ≤ℤ f +ℤ pos p
unfolding skip_to
skip_to-near zero f p d h = h
skip_to-near (suc fuel) f p d h = elim (Bool-cases (not (ltb_ℤ f d))) [
  | inl e ↦
      let l : d ≤ℤ f = ground arith in
      rw e
        (skip_to-near fuel f p (d +ℤ pos p) (omega (arith, +ℤ_parts d (pos p), +ℤ_parts f (pos p))))
  | inr e ↦ rw e h
]

-- Whatever the policy, the deadline moves on by one period and one for each skipped cycle.
next_deadline-grid :
    (policy : OverrunPolicy) (p : ℕ) (f d : ℤ)
    → (next_deadline policy (pos p) f d).0 ≡ grid d p (suc (next_deadline policy (pos p) f d).1)
unfolding next_deadline
next_deadline-grid policy p f d =
    elim (Bool-cases (not (ltb_ℤ f (d +ℤ pos p)) && is_skip_missed policy)) [
      | inl e ↦ rw e (
          skip_to-grid (suc (pos_part (f -ℤ (d +ℤ pos p)))) f p (d +ℤ pos p)
          ∙ grid_first d p (skip_to (suc (pos_part (f -ℤ (d +ℤ pos p)))) f (pos p) (d +ℤ pos p)).1)
      | inr e ↦ rw e (grid_none (d +ℤ pos p) p ∙ grid_first d p 0)
    ]

-- Under the policy that skips, and for a positive period, the deadline after a cycle is later than
-- the end of the cycle, so the `while` loop has ended within its fuel; and it is either the next one
-- or at most a period later than the end of the cycle.
pub next_deadline-future :
    (p : ℕ) (f d : ℤ)
    → 1 ≤ p
    → let next = (next_deadline skip_missed (pos p) f d).0 in
      (f <ℤ next) × ((next ≡ d +ℤ pos p) ⊎ (next ≤ℤ f +ℤ pos p))
unfolding next_deadline
next_deadline-future p f d h =
    elim (Bool-cases (not (ltb_ℤ f (d +ℤ pos p)) && is_skip_missed skip_missed)) [
      | inl e ↦
          let l : d +ℤ pos p ≤ℤ f = ground arith in
          let g = -ℤ_parts f (d +ℤ pos p) in
          rw e (
            skip_to-future (suc (pos_part (f -ℤ (d +ℤ pos p)))) f p (d +ℤ pos p) h (omega arith),
            inr (
                skip_to-near (suc (pos_part (f -ℤ (d +ℤ pos p)))) f p (d +ℤ pos p)
                  (omega (arith, +ℤ_parts f (pos p)))),
          )
      | inr e ↦ rw e (ground arith, inl refl)
    ]

-- The periods that passed in a list of cycles, the skipped ones included.
unfoldable pub periods : List Outcome → ℕ
periods [] = 0
periods (o ∷ os) = suc o.skipped + periods os

module _ {Double : Type 0} ⦃ar : Arithmetic Double⦄ where
  cycle-grid :
      (policy : OverrunPolicy) (p index : ℕ) (l : Loop Double) (r : Reading)
      → let (l', outcome) = cycle policy (pos p) index l r in
        l'.deadline_ns ≡ grid l.deadline_ns p (suc outcome.skipped)
  unfolding cycle
  cycle-grid policy p index l r = next_deadline-grid policy p r.finished_ns l.deadline_ns

  -- The cadence does not drift: after any number of rounds, whatever the clock read and under either
  -- policy, the deadline lies exactly as many periods after the first one as cycles were run and
  -- skipped.
  pub loop-grid :
      (policy : OverrunPolicy) (p max_cycles index : ℕ) (l : Loop Double)
      (rounds : List (Bool × Reading))
      → let (l', outcomes) = loop policy (pos p) max_cycles index l rounds in
        l'.deadline_ns ≡ grid l.deadline_ns p (periods outcomes)
  unfolding loop periods
  loop-grid policy p max_cycles index l [] = grid_none l.deadline_ns p
  loop-grid policy p max_cycles index l ((stop, r) ∷ rounds) =
      let l' : Loop Double = (cycle policy (pos p) index l r).0 in
      let rest = loop-grid policy p max_cycles (u64 (index + 1)) l' rounds in
      elim (Bool-cases ((max_cycles == 0 || ltb index max_cycles) && not stop)) [
        | inl e ↦ rw e (
            rest
            ∙ (ap
                  (λ (d : ℤ).
                    grid d p
                      (periods (loop policy (pos p) max_cycles (u64 (index + 1)) l' rounds).1))
                  (cycle-grid policy p index l r)
                ∙ grid_step l.deadline_ns p _ _))
        | inr e ↦ rw e (grid_none l.deadline_ns p)
      ]
