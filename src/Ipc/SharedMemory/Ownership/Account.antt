-- ===== src/Ipc/SharedMemory/Ownership/Account.antt =====
-- Every mapping has its owner, whatever the process does with its regions.
use mathlib.Core.Option.{Option, none, some}
use safeedge.Ipc.SharedMemory.{
  fails, returns, remove_name, Outcome, invalid_argument, name_operation, name_is_well_formed,
  refused, ok, SharedMemoryRegion, World, System, create, open_existing, close, move_assign,
  unlink_name,
}
use safeedge.Ipc.SharedMemory.Contract.{
  IsNotNull, create-Holds, open_existing-Holds, Holds, LeavesNothing,
}
use safeedge.Common.{
  if_both, ℕ, ◌+◌, ◌≤◌, ◌<◌, ◌==◌, false, List, [], ◌∷◌, set, length, length-set, All, ◌≡◌, refl,
  ap, sym, ◌∙◌, subst, arith, inl, inr, ◌⊎◌,
}
use safeedge.Ipc.SharedMemory.Ownership.{
  Process, Use, creates, opens, moves, closes, unlinks, region_at, assign, use_regions, use_all,
  destroy, owns, owners, held, Accounts, InScope,
}
use safeedge.Ipc.SharedMemory.Ownership.Count.{
  owns_empty, owners-set, owns-le, region_at-set, held-close, owns_self,
}

-- A region takes over what another one owned, and lets go of its own mapping.
assign-Accounts :
    (rs : List SharedMemoryRegion) (i : ℕ) (r : SharedMemoryRegion) (w : World)
    → i < length rs
    → ((m : ℕ × ℕ) → (m.0 == 0) ≡ false → held m w.mappings ≡ owners m rs + owns m r)
    → Accounts (set rs i r) (close (region_at rs i) w).1
assign-Accounts rs i r w k a m h =
    let old = region_at rs i in
    let x : ℕ × ℕ = (old.address, old.size) in
    let still : (old.address == 0) ≡ false → 1 ≤ held x w.mappings =
      λ e. omega (arith, a x e, owns-le x rs i k, owns_self old) in
    omega (arith, held-close m old w h still, owners-set m rs i r k, a m h)

Makes : SharedMemoryRegion × World → World → Type 0
Makes (r, w') w =
    (m : ℕ × ℕ) → (m.0 == 0) ≡ false → held m w'.mappings ≡ owns m r + held m w.mappings

made-Makes :
    (names : List (List ℕ)) (bytes : ℕ) (r : SharedMemoryRegion) (w w' : World)
    → Holds r names bytes w w' ⊎ LeavesNothing r w w'
    → Makes (r, w') w
unfolding Makes held owns
made-Makes names bytes r w w' (inl (a, n, o, same)) m h = rw (same, n) refl
made-Makes names bytes r w w' (inr (a, n, o, same)) m h =
    rw same (omega (arith, owns_empty m r h a))

left-Makes :
    (name : List ℕ) (r : SharedMemoryRegion) (w w' : World)
    → r.address ≡ 0
    → w' ≡ record w { names = name ∷ w.names }
    → Makes (r, w') w
unfolding Makes
left-Makes name r w w' a same m h = rw same (omega (arith, owns_empty m r h a))

create-Makes :
    (sys : System) (name : Option (List ℕ)) (bytes : ℕ) (w : World)
    → IsNotNull sys.mmap
    → Makes (create sys name bytes w) w
unfolding create ok
create-Makes sys none bytes w k =
    made-Makes [] bytes (refused name_operation invalid_argument) w w (inr (refl, refl, refl, refl))
create-Makes sys (some name) bytes w k =
    let (r, w') = create sys (some name) bytes w in
    elim ((create-Holds sys name bytes w k).1) [
      | inl holds ↦ made-Makes (name ∷ w.names) bytes r w w' (inl holds)
      | inr (a, n, o, inl same) ↦ made-Makes [] bytes r w w' (inr (a, n, o, same))
      | inr (a, n, o, inr (same, failed)) ↦ left-Makes name r w w' a same
    ]

open_existing-Makes :
    (sys : System) (name : Option (List ℕ)) (bytes : ℕ) (w : World)
    → IsNotNull sys.mmap
    → Makes (open_existing sys name bytes w) w
open_existing-Makes sys name bytes w k =
    let (r, w') = open_existing sys name bytes w in
    made-Makes w.names bytes r w w' (elim (open_existing-Holds sys name bytes w k) [
      | inl (holds, fits) ↦ inl holds
      | inr nothing ↦ inr nothing
    ])

made-assign-Accounts :
    (rs : List SharedMemoryRegion) (i : ℕ) (made : SharedMemoryRegion × World) (w : World)
    → i < length rs
    → Accounts rs w
    → Makes made w
    → let p' = assign i rs made in Accounts p'.regions p'.world
unfolding move_assign close Makes assign region_at
made-assign-Accounts rs i (r, w') w k a makes =
    assign-Accounts rs i r w' k (λ m h. omega (arith, a m h, makes m h))

-- A region moved into another one; what is left of the source owns nothing.
moves-Accounts :
    (rs : List SharedMemoryRegion) (to from : ℕ) (w : World)
    → (to == from) ≡ false
    → to < length rs
    → from < length rs
    → Accounts rs w
    → let (left, target, w') = move_assign (region_at rs to) (region_at rs from) w in
      Accounts (set (set rs to target) from left) w'
unfolding move_assign
moves-Accounts rs to from w e k l a m h =
    let source = region_at rs from in
    let left = record source { address = 0; size = 0 } in
    let old = region_at rs to in
    let x : ℕ × ℕ = (old.address, old.size) in
    let moved = set rs to source in
    let still : (old.address == 0) ≡ false → 1 ≤ held x w.mappings =
      λ f. omega (arith, a x f, owns-le x rs to k, owns_self old) in
    let same : owns m (region_at moved from) ≡ owns m source =
      ap (λ (r : SharedMemoryRegion). owns m r) (region_at-set rs to from source e) in
    omega (
      arith,
      a m h,
      held-close m old w h still,
      owners-set m rs to source k,
      owners-set m moved from left (omega (arith, length-set rs to source)),
      owns_empty m left h refl,
      same,
    )

remove_name-mappings :
    (u : Outcome (Unit {0})) (name : List ℕ) (w : World)
    → (remove_name u name w).mappings ≡ w.mappings
remove_name-mappings (returns _) name w = refl
remove_name-mappings (fails e) name w = refl

unlink_name-mappings :
    (u : Outcome (Unit {0})) (name : Option (List ℕ)) (w : World)
    → (unlink_name u name w).mappings ≡ w.mappings
unfolding unlink_name
unlink_name-mappings u none w = refl
unlink_name-mappings u (some name) w =
    if_both (λ (v : World). v.mappings ≡ w.mappings) (name_is_well_formed (some name))
      (λ e. remove_name-mappings u name w) (λ e. refl)

close_empties : (r : SharedMemoryRegion) (w : World) → (close r w).0.address ≡ 0
unfolding close
close_empties r w = refl

-- One use keeps the account.
use_regions-Accounts :
    (u : Use) (p : Process)
    → InScope (length p.regions) u
    → Accounts p.regions p.world
    → let p' = use_regions u p in Accounts p'.regions p'.world
unfolding use_regions
use_regions-Accounts (creates i sys name bytes) p (k, n) a =
    made-assign-Accounts p.regions i (create sys name bytes p.world) p.world k a
      (create-Makes sys name bytes p.world n)
use_regions-Accounts (opens i sys name bytes) p (k, n) a =
    made-assign-Accounts p.regions i (open_existing sys name bytes p.world) p.world k a
      (open_existing-Makes sys name bytes p.world n)
use_regions-Accounts (moves to from) p (k, l) a =
    if_both (λ (q : Process). Accounts q.regions q.world) (to == from) (λ e. a)
      (λ e. moves-Accounts p.regions to from p.world e k l a)
use_regions-Accounts (closes i) p k a =
    let r = region_at p.regions i in
    assign-Accounts p.regions i (close r p.world).0 p.world k
      (λ m h. omega (arith, a m h, owns_empty m (close r p.world).0 h (close_empties r p.world)))
use_regions-Accounts (unlinks u name) p _ a =
    λ m h. ap (λ (ms : List (ℕ × ℕ)). held m ms) (unlink_name-mappings u name p.world) ∙ a m h

use_regions-length : (u : Use) (p : Process) → length (use_regions u p).regions ≡ length p.regions
unfolding use_regions
use_regions-length (creates i sys name bytes) p = length-set p.regions i _
use_regions-length (opens i sys name bytes) p = length-set p.regions i _
use_regions-length (moves to from) p =
    if_both (λ (q : Process). length q.regions ≡ length p.regions) (to == from) (λ e. refl)
      (λ e. length-set (set p.regions to _) from _ ∙ length-set p.regions to _)
use_regions-length (closes i) p = length-set p.regions i _
use_regions-length (unlinks u name) p = refl

destroy-held :
    (rs : List SharedMemoryRegion) (w : World)
    → Accounts rs w
    → (m : ℕ × ℕ) → (m.0 == 0) ≡ false
    → held m (destroy rs w).mappings ≡ 0
unfolding destroy owners
destroy-held [] w a m h = a m h
destroy-held (r ∷ rs) w a m h =
    let x : ℕ × ℕ = (r.address, r.size) in
    let still : (r.address == 0) ≡ false → 1 ≤ held x w.mappings =
      λ e. omega (arith, a x e, owns_self r) in
    let rest : Accounts rs (close r w).1 =
      λ n k. omega (arith, a n k, held-close n r w k (λ e. still e)) in
    destroy-held rs (close r w).1 rest m h

-- In a process in which as many regions own a mapping as it is held, creating, opening, moving,
-- closing and unlinking, in any order and at any regions that there are, keeps it so: no mapping is
-- lost, and no region owns one that was unmapped. Once the regions are destroyed, no mapping is held.
-- It relies on `mmap` not to map at the null pointer.
pub use_all-Accounts :
    (uses : List Use) (p : Process)
    → All (InScope (length p.regions)) uses
    → Accounts p.regions p.world
    → let p' = use_all uses p in
      Accounts p'.regions p'.world
      × ((m : ℕ × ℕ) → (m.0 == 0) ≡ false → held m (destroy p'.regions p'.world).mappings ≡ 0)
unfolding use_all
use_all-Accounts [] p s a = (a, destroy-held p.regions p.world a)
use_all-Accounts (u ∷ uses) p (s, ss) a =
    let p' = use_regions u p in
    let scoped : All (InScope (length p'.regions)) uses =
      subst (λ (n : ℕ). All (InScope n) uses) (sym (use_regions-length u p)) ss in
    use_all-Accounts uses p' scoped (use_regions-Accounts u p s a)
