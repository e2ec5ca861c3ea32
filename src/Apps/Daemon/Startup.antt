-- ===== src/Apps/Daemon/Startup.antt =====
-- src/apps/safeedged.cpp: the settings that the loop is started with. `strtol` is a parameter: the
-- number at the start of a text, and the rest of the text.
use native.Mathlib.Nat.{mod-add-div, mod-lt}
use safeedge.Common.{dec_lt, ◌⊎◌, Bool-cases, inl, inr}
use mathlib.Core.Option.{Option, none, some}
use safeedge.Common.{
  ℕ, ◌/◌, ◌*◌, ◌+◌, ◌≤◌, ◌<◌, ltb, leb, ℤ, pos, negsuc, ◌||◌, if◌then◌else◌, List, [], ◌∷◌, ◌≡◌,
  refl, arith,
}

unfoldable pub environment_long : (List ℕ → ℤ × List ℕ) → Option (List ℕ) → ℤ → ℤ
environment_long strtol none fallback = fallback
environment_long strtol (some []) fallback = fallback
environment_long strtol (some (c ∷ cs)) fallback = elim (strtol (c ∷ cs)).1 [
  | [] ↦ (strtol (c ∷ cs)).0
  | _ ↦ fallback
]

-- The text of a setting, where the empty one counts as absent.
unfoldable pub environment_string : Option (List ℕ) → List ℕ → List ℕ
environment_string none fallback = fallback
environment_string (some []) fallback = fallback
environment_string (some (c ∷ cs)) fallback = c ∷ cs

-- The test of SAFEEDGE_FREQUENCY_HZ, and the period in nanoseconds; absent if it is refused.
unfoldable pub period_of : ℤ → Option ℕ
period_of (negsuc n) = none
period_of (pos hz) = if leb hz 0 || ltb 100000 hz then none else some (1000000000 / hz)

unfoldable pub start_period : (List ℕ → ℤ × List ℕ) → Option (List ℕ) → Option ℕ
start_period strtol setting = period_of (environment_long strtol setting (pos 1000))

-- A quotient of a positive divisor, between the bounds that its product gives.
quotient : (n d : ℕ) → 1 ≤ d → (d * (n / d) ≤ n) × (n < d * (n / d) + d)
quotient n d h = let f = mod-add-div n d in let l = mod-lt n {m = d} h in (omega arith, omega arith)

-- A frequency that the daemon accepts is from 1 to 100000 per second, and its period is the
-- whole nanoseconds of the quotient: from ten microseconds to a second.
pub period_of_bounds :
    (hz : ℤ) (period : ℕ)
    → period_of hz ≡ some period
    → (n : ℕ) × (hz ≡ pos n) × (1 ≤ n) × (n ≤ 100000) × (10000 ≤ period) × (period ≤ 1000000000)
unfolding period_of
period_of_bounds (negsuc n) period e = cc
period_of_bounds (pos hz) period e = elim (Bool-cases (leb hz 0 || ltb 100000 hz)) [
  | inl out ↦ absurd (ground arith)
  | inr fine ↦
      let low : 1 ≤ hz = ground arith in
      let high : hz ≤ 100000 = ground arith in
      let is_quotient : 1000000000 / hz ≡ period = ground arith in
      let (under, over) = quotient 1000000000 hz low in
      (hz, refl, low, high, grind arith, grind arith)
]

-- The frequencies whose period is within the watchdog's 50 milliseconds are those from 20 on.
pub period_of_watchdog :
    (hz period : ℕ)
    → period_of (pos hz) ≡ some period
    → ((20 ≤ hz) × (period ≤ 50000000)) ⊎ ((hz < 20) × (50000000 < period))
unfolding period_of
period_of_watchdog hz period e =
    let (n, same, low, high, least, most) = period_of_bounds (pos hz) period e in
    let is_quotient : 1000000000 / hz ≡ period = ground arith in
    let (under, over) = quotient 1000000000 hz (ground arith) in
    elim (dec_lt hz 20) [
      | yes slow ↦ inr (slow, grind arith)
      | no fast ↦ inl (omega arith, grind arith)
    ]
