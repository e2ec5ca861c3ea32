-- ===== src/Ipc/SharedMemory.antt =====
-- src/ipc/shared_memory.cpp on Linux, and include/safeedge/ipc/shared_memory.hpp: a region of shared
-- memory and who owns its mapping. What the calls of the operating system return is a `System`; what
-- the process holds afterwards, its names, descriptors and mappings, is a `World`.
pub mod Contract
pub mod Ownership
mod Tests
use mathlib.Core.Option.{Option, none, some}
use safeedge.Common.{
  ℕ, ◌+◌, ltb, ◌==◌, Bool, true, false, not, ◌&&◌, ◌||◌, if◌then◌else◌, List, [], ◌∷◌, set, get_or,
}

-- What a call returns, or its `errno`.
pub data Outcome {ℓ} (A : Type ℓ) : Type ℓ where
  returns : A → Outcome A
  fails : (error_number : ℕ) → Outcome A

-- `SharedMemoryError::operation`, where no operation is the null pointer.
pub data Operation : Type 0 where
  no_operation name_operation size_operation shm_open_operation : Operation
  ftruncate_operation mmap_operation fstat_operation : Operation

pub record SharedMemoryError : Type 0 where
  pub operation : Operation
  pub error_number : ℕ

abbrev pub no_error : SharedMemoryError
no_error = record { operation = no_operation; error_number = 0 }

-- `SharedMemoryError::ok`
unfoldable pub ok : SharedMemoryError → Bool
ok error = elim error.operation [ no_operation ↦ true | _ ↦ false ]

-- An address is a number, and the null pointer is 0.
pub record SharedMemoryRegion : Type 0 where
  pub address : ℕ
  pub size : ℕ
  pub error : SharedMemoryError

abbrev pub new_region : SharedMemoryRegion
new_region = record { address = 0; size = 0; error = no_error }

abbrev pub refused : Operation → ℕ → SharedMemoryRegion
refused operation e = record new_region {
  error = record { operation = operation; error_number = e };
}

abbrev pub is_valid : SharedMemoryRegion → Bool
is_valid r = not (r.address == 0)

-- `EINVAL`
abbrev pub invalid_argument : ℕ
invalid_argument = 22

-- The names that exist, the descriptors that are open, and the mappings with their sizes.
pub record World : Type 0 where
  pub names : List (List ℕ)
  pub descriptors : List ℕ
  pub mappings : List (ℕ × ℕ)

abbrev pub same_text : List ℕ → List ℕ → Bool
same_text [] [] = true
same_text (c ∷ cs) (d ∷ ds) = c == d && same_text cs ds
same_text _ _ = false

abbrev pub same_mapping : ℕ × ℕ → ℕ × ℕ → Bool
same_mapping (a, m) (b, n) = a == b && m == n

-- A list without the first member that is the same as a given one.
abbrev pub erase {ℓ} : {A : Type ℓ} → (A → A → Bool) → A → List A → List A
erase same x [] = []
erase same x (y ∷ ys) = let rest = erase same x ys in if same x y then ys else y ∷ rest

abbrev pub close_descriptor : ℕ → World → World
close_descriptor d w = record w { descriptors = erase (λ a b. a == b) d w.descriptors }

-- `shm_unlink`, by what it returns, which the code ignores.
abbrev pub remove_name : Outcome (Unit {0}) → List ℕ → World → World
remove_name (returns _) name w = record w { names = erase same_text name w.names }
remove_name (fails e) name w = w

-- `strchr(name, '/') != nullptr`
has_slash : List ℕ → Bool
has_slash [] = false
has_slash (c ∷ cs) = c == 47 || has_slash cs

-- `nameIsWellFormed`, of a C string that may be null.
unfoldable pub name_is_well_formed : Option (List ℕ) → Bool
unfolding has_slash
name_is_well_formed none = false
name_is_well_formed (some []) = false
name_is_well_formed (some (c ∷ [])) = false
name_is_well_formed (some (c ∷ cs)) = c == 47 && not (has_slash cs)

-- What the calls return: the descriptor, nothing, the size of the object, the address, and nothing.
pub record System : Type 0 where
  pub shm_open : Outcome ℕ
  pub ftruncate : Outcome (Unit {0})
  pub fstat : Outcome ℕ
  pub mmap : Outcome ℕ
  pub shm_unlink : Outcome (Unit {0})

-- `mapDescriptor`, and the address and size of the region.
unfoldable pub map_descriptor : Outcome ℕ → ℕ → World → SharedMemoryRegion × World
map_descriptor (fails e) bytes w = (refused mmap_operation e, w)
map_descriptor (returns a) bytes w = (
  record { address = a; size = if not (a == 0) then bytes else 0; error = no_error },
  record w { mappings = (a, bytes) ∷ w.mappings },
)

-- `create` once the object is open.
unfoldable pub create_opened : System → List ℕ → ℕ → ℕ → World → SharedMemoryRegion × World
unfolding map_descriptor
create_opened sys name bytes d w = elim sys.ftruncate [
  | fails e ↦
      (refused ftruncate_operation e, remove_name sys.shm_unlink name (close_descriptor d w))
  | returns _ ↦
      let (region, mapped) = map_descriptor sys.mmap bytes w in
      let closed = close_descriptor d mapped in
      (region, if not (is_valid region) then remove_name sys.shm_unlink name closed else closed)
]

-- `SharedMemoryRegion::create`
unfoldable pub create : System → Option (List ℕ) → ℕ → World → SharedMemoryRegion × World
unfolding create_opened name_is_well_formed
create sys none bytes w = (refused name_operation invalid_argument, w)
create sys (some name) bytes w =
    if not (name_is_well_formed (some name))
    then (refused name_operation invalid_argument, w)
    else if bytes == 0
    then (refused size_operation invalid_argument, w)
    else elim sys.shm_open [
      | fails e ↦ (refused shm_open_operation e, w)
      | returns d ↦
          create_opened sys name bytes d
            (record w { names = name ∷ w.names; descriptors = d ∷ w.descriptors })
    ]

-- `openExisting` once the object is open.
unfoldable pub attach_opened : System → ℕ → ℕ → World → SharedMemoryRegion × World
unfolding map_descriptor
attach_opened sys bytes d w = elim sys.fstat [
  | fails e ↦ (refused fstat_operation e, close_descriptor d w)
  | returns st_size ↦
      if ltb st_size bytes
      then (refused size_operation invalid_argument, close_descriptor d w)
      else let (region, mapped) = map_descriptor sys.mmap bytes w in
        (region, close_descriptor d mapped)
]

-- `SharedMemoryRegion::openExisting`
unfoldable pub open_existing : System → Option (List ℕ) → ℕ → World → SharedMemoryRegion × World
unfolding attach_opened name_is_well_formed
open_existing sys name bytes w =
    if not (name_is_well_formed name)
    then (refused name_operation invalid_argument, w)
    else elim sys.shm_open [
      | fails e ↦ (refused shm_open_operation e, w)
      | returns d ↦ attach_opened sys bytes d (record w { descriptors = d ∷ w.descriptors })
    ]

-- `unlinkName`
unfoldable pub unlink_name : Outcome (Unit {0}) → Option (List ℕ) → World → World
unfolding name_is_well_formed
unlink_name shm_unlink none w = w
unlink_name shm_unlink (some name) w =
    if name_is_well_formed (some name) then remove_name shm_unlink name w else w

-- `SharedMemoryRegion::close`, which the destructor calls.
unfoldable pub close : SharedMemoryRegion → World → SharedMemoryRegion × World
close r w = (
  record r { address = 0; size = 0 },
  if r.address == 0
      then w
      else record w { mappings = erase same_mapping (r.address, r.size) w.mappings },
)

-- The move constructor: what is left of the source, and the new region.
abbrev pub move_construct : SharedMemoryRegion → SharedMemoryRegion × SharedMemoryRegion
move_construct source = (record source { address = 0; size = 0 }, source)

-- A move assignment from another region: what is left of the source, and the new target.
unfoldable pub move_assign :
    SharedMemoryRegion
    → SharedMemoryRegion
    → World
    → SharedMemoryRegion × SharedMemoryRegion × World
unfolding close
move_assign target source w =
    let (left, moved) = move_construct source in (left, moved, (close target w).1)
