-- ===== src/Concurrent/Ring/Size.antt =====
-- The occupancy that either side reads off the counters.
use safeedge.Common.{ℕ, ◌==◌, List, length, ◌≡◌, arith}
use safeedge.Concurrent.Ring.{World, size_approx, full_approx, empty_approx}
use safeedge.Concurrent.Ring.Invariant.{IsCapacity, IsValid}

-- While no thread moves, `sizeApprox` is the number of values in the ring, also when a counter has
-- wrapped, and `fullApprox` and `emptyApprox` tell whether it is full and whether it is empty.
pub size_approx-length :
    {A : Type 0} (c : ℕ) (default : A) (w : World A) (q : List A)
    → IsCapacity c
    → IsValid c default w q
    → (size_approx w.write_pos w.read_pos ≡ length q)
      × (full_approx c w.write_pos w.read_pos ≡ length q == c)
      × (empty_approx w.write_pos w.read_pos ≡ length q == 0)
unfolding size_approx full_approx empty_approx
size_approx-length c default w q h v =
    let n = v.counters in
    let fits = h.fits in
    let size : size_approx w.write_pos w.read_pos ≡ length q = omega arith in
    (size, ground (arith, size), ground (arith, size))
