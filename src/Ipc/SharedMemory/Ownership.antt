-- ===== src/Ipc/SharedMemory/Ownership.antt =====
-- A process that creates, opens, moves and closes regions: who owns which mapping.
pub mod Count
pub mod Account
use mathlib.Core.Option.{Option, none, some}
use safeedge.Ipc.SharedMemory.{
  Outcome, invalid_argument, name_operation, name_is_well_formed, refused, ok, SharedMemoryRegion,
  new_region, World, System, create, open_existing, close, move_assign, same_mapping, erase,
  unlink_name,
}
use safeedge.Ipc.SharedMemory.Contract.{
  IsNotNull, create-Holds, open_existing-Holds, Holds, LeavesNothing,
}
use safeedge.Common.{
  if_both, ℕ, zero, suc, ◌+◌, ◌≤◌, ◌<◌, ◌==◌, Bool, true, false, if◌then◌else◌, List, [], ◌∷◌, set,
  get_or, length, length-set, All, ◌≡◌, refl, ap, sym, ◌∙◌, subst, arith, Bool-cases, inl, inr, ◌⊎◌,
}

-- The regions of a process, and what it holds.
pub record Process : Type 0 where
  pub regions : List SharedMemoryRegion
  pub world : World

-- What a process does with its regions, by their indexes.
pub data Use : Type 0 where
  creates : (i : ℕ) → System → Option (List ℕ) → ℕ → Use
  opens : (i : ℕ) → System → Option (List ℕ) → ℕ → Use
  moves : (to from : ℕ) → Use
  closes : (i : ℕ) → Use
  unlinks : Outcome (Unit {0}) → Option (List ℕ) → Use

pub region_at : List SharedMemoryRegion → ℕ → SharedMemoryRegion
region_at regions i = get_or regions i new_region

-- What `create` or `openExisting` returns is moved into a region; what is left of it is destroyed.
abbrev pub assign : ℕ → List SharedMemoryRegion → SharedMemoryRegion × World → Process
unfolding region_at
assign i regions (made, w) =
    let (left, target, w') = move_assign (region_at regions i) made w in
    record { regions = set regions i target; world = (close left w').1 }

unfoldable pub use_regions : Use → Process → Process
unfolding region_at
use_regions (creates i sys name bytes) p = assign i p.regions (create sys name bytes p.world)
use_regions (opens i sys name bytes) p = assign i p.regions (open_existing sys name bytes p.world)
use_regions (moves to from) p =
    if to == from
    then p
    else let (left, target, w) =
        move_assign (region_at p.regions to) (region_at p.regions from) p.world in
      record { regions = set (set p.regions to target) from left; world = w }
use_regions (closes i) p =
    let (r, w) = close (region_at p.regions i) p.world in
    record { regions = set p.regions i r; world = w }
use_regions (unlinks shm_unlink name) p = record p { world = unlink_name shm_unlink name p.world }

unfoldable pub use_all : List Use → Process → Process
use_all [] p = p
use_all (use_of ∷ uses) p = use_all uses (use_regions use_of p)

-- The destructors of the regions.
unfoldable pub destroy : List SharedMemoryRegion → World → World
destroy [] w = w
destroy (r ∷ rs) w = destroy rs (close r w).1

pub one : Bool → ℕ
one true = 1
one false = 0

-- Whether a region owns a mapping, how many do, and how often it is mapped.
unfoldable pub owns : ℕ × ℕ → SharedMemoryRegion → ℕ
unfolding one
owns m r = one (same_mapping m (r.address, r.size))

unfoldable pub owners : ℕ × ℕ → List SharedMemoryRegion → ℕ
owners m [] = 0
owners m (r ∷ rs) = owns m r + owners m rs

unfoldable pub held : ℕ × ℕ → List (ℕ × ℕ) → ℕ
unfolding one
held m [] = 0
held m (x ∷ xs) = one (same_mapping m x) + held m xs

-- Every mapping is owned by as many regions as it is mapped, each region owning one.
abbrev pub Accounts : List SharedMemoryRegion → World → Type 0
Accounts regions w = (m : ℕ × ℕ) → (m.0 == 0) ≡ false → held m w.mappings ≡ owners m regions

-- The indexes are of regions that the process has, and `mmap` gives no null pointer.
abbrev pub InScope : ℕ → Use → Type 0
InScope n (creates i sys name bytes) = (i < n) × IsNotNull sys.mmap
InScope n (opens i sys name bytes) = (i < n) × IsNotNull sys.mmap
InScope n (moves to from) = (to < n) × (from < n)
InScope n (closes i) = i < n
InScope n (unlinks shm_unlink name) = Unit
