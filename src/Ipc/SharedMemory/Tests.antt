-- ===== src/Ipc/SharedMemory/Tests.antt =====
-- Two regions, one made, moved and destroyed.
use mathlib.Core.Option.{some}
use safeedge.Ipc.SharedMemory.{System, returns, fails, World, new_region, create}
use safeedge.Ipc.SharedMemory.Contract.{
  LeavesAtMostName, create_steps, first_failure, create-Holds, Holds,
}
use safeedge.Ipc.SharedMemory.Ownership.{
  Process, Use, creates, moves, closes, use_all, destroy, held, owners, Accounts,
}
use safeedge.Ipc.SharedMemory.Ownership.Count.{owns_empty}
use safeedge.Ipc.SharedMemory.Ownership.Account.{use_all-Accounts}
use safeedge.Common.{ℕ, List, [], ◌∷◌, ◌≡◌, refl, ◌==◌, false, ◌⊎◌, arith}

abbrev system : System
system = record {
  shm_open = returns 3;
  ftruncate = returns tt;
  fstat = returns 64;
  mmap = returns 4096;
  shm_unlink = returns tt;
}

-- The mapping fails.
abbrev full : System
full = record system { mmap = fails 12 }

-- `/a`
abbrev name : List ℕ
name = 47 ∷ 97 ∷ []

abbrev nothing_held : World
nothing_held = record { names = []; descriptors = []; mappings = [] }

create-Holds_example :
    let (r, w') = create full (some name) 64 nothing_held in
    (r.error ≡ first_failure (create_steps full name 64))
    × (Holds r (name ∷ []) 64 nothing_held w'
        ⊎ LeavesAtMostName r full.shm_unlink name nothing_held w')
create-Holds_example = create-Holds full name 64 nothing_held tt

no_name_left : (create full (some name) 64 nothing_held).1 ≡ nothing_held
unfolding create
no_name_left = refl

-- If the name cannot be removed either, it stays.
name_left :
    (create (record full { shm_unlink = fails 1 }) (some name) 64 nothing_held).1
    ≡ record nothing_held { names = name ∷ [] }
unfolding create
name_left = refl

abbrev process : Process
process = record { regions = new_region ∷ new_region ∷ []; world = nothing_held }

process-Accounts : Accounts process.regions process.world
unfolding held owners
process-Accounts = λ m h. omega (arith, owns_empty m new_region h refl)

abbrev uses : List Use
uses = creates 0 system (some name) 64 ∷ moves 1 0 ∷ closes 0 ∷ []

use_all-Accounts_example :
    let p' = use_all uses process in
    Accounts p'.regions p'.world
    × ((m : ℕ × ℕ) → (m.0 == 0) ≡ false → held m (destroy p'.regions p'.world).mappings ≡ 0)
use_all-Accounts_example =
    use_all-Accounts uses process
      ((omega arith, refl), ((omega arith, omega arith), (omega arith, tt))) process-Accounts
