-- ===== src/Ipc/SharedMemory/Contract.antt =====
-- What creating and opening a region leaves behind, whatever the calls of the operating system return.
use mathlib.Core.Option.{none, Option, some}
use safeedge.Ipc.SharedMemory.{
  invalid_argument, shm_open_operation, size_operation, no_error, name_operation, mmap_operation,
  SharedMemoryError, ftruncate_operation, Operation, remove_name, Outcome, returns, fails, ok,
  SharedMemoryRegion, World, System, create, create_opened, open_existing, attach_opened,
  map_descriptor, same_text, name_is_well_formed,
}
use safeedge.Common.{
  if◌then◌else◌, Bool, if_both, Bool-cases, ℕ, ◌==◌, true, false, not, List, [], ◌∷◌, ◌≡◌, refl,
  arith, ltb, ◌≤◌, ◌⊎◌, inl, inr,
}

-- `mmap` never returns the null pointer for a mapping that is made.
abbrev pub IsNotNull : Outcome ℕ → Type 0
IsNotNull (returns a) = (a == 0) ≡ false
IsNotNull (fails e) = Unit

-- A call fails.
abbrev pub IsFailure : Outcome (Unit {0}) → Type 0
IsFailure (returns _) = ⊥
IsFailure (fails e) = Unit

-- Steps in turn, each with its name and the error number with which it fails, if it fails: the error of
-- the first one that fails, or none.
unfoldable pub first_failure : List (Operation × Option ℕ) → SharedMemoryError
first_failure [] = no_error
first_failure ((step, none) ∷ steps) = first_failure steps
first_failure ((step, some e) ∷ steps) = record { operation = step; error_number = e }

-- A test that is refused as an invalid argument.
abbrev pub checked : Bool → Option ℕ
checked passes = if passes then none else some invalid_argument

abbrev pub failure_of {ℓ} : {A : Type ℓ} → Outcome A → Option ℕ
failure_of (returns _) = none
failure_of (fails e) = some e

-- The steps of `create` and of `openExisting`.
unfoldable pub create_steps : System → List ℕ → ℕ → List (Operation × Option ℕ)
create_steps sys name bytes =
    (name_operation, checked (name_is_well_formed (some name)))
    ∷ (size_operation, checked (not (bytes == 0)))
    ∷ (shm_open_operation, failure_of sys.shm_open)
    ∷ (ftruncate_operation, failure_of sys.ftruncate)
    ∷ (mmap_operation, failure_of sys.mmap)
    ∷ []

-- A region that is not made: it is empty, and the process holds what it held.
abbrev pub LeavesNothing : SharedMemoryRegion → World → World → Type 0
LeavesNothing r w w' = (r.address ≡ 0) × (r.size ≡ 0) × (ok r.error ≡ false) × (w' ≡ w)

-- The same, but that the new name may stay where `shm_unlink` fails.
abbrev pub LeavesAtMostName :
    SharedMemoryRegion → Outcome (Unit {0}) → List ℕ → World → World → Type 0
LeavesAtMostName r shm_unlink name w w' =
    (r.address ≡ 0)
    × (r.size ≡ 0)
    × (ok r.error ≡ false)
    × ((w' ≡ w) ⊎ ((w' ≡ record w { names = name ∷ w.names }) × IsFailure shm_unlink))

-- A region that is made: it is of the size that was asked for, and the process holds its mapping more,
-- the names that are given, and no descriptor more.
abbrev pub Holds : SharedMemoryRegion → List (List ℕ) → ℕ → World → World → Type 0
Holds r names bytes w w' =
    ((r.address == 0) ≡ false)
    × (r.size ≡ bytes)
    × (ok r.error ≡ true)
    × (w' ≡ record {
      names = names;
      descriptors = w.descriptors;
      mappings = (r.address, bytes) ∷ w.mappings;
    })

same_number_refl : (n : ℕ) → (n == n) ≡ true
same_number_refl n = ground arith

same_text_refl : (name : List ℕ) → same_text name name ≡ true
same_text_refl [] = refl
same_text_refl (c ∷ cs) = rw (same_number_refl c, same_text_refl cs) refl

module _ (sys : System) (name : List ℕ) (bytes d : ℕ) (w : World) where
  opened : World
  opened = record w { names = name ∷ w.names; descriptors = d ∷ w.descriptors }

  closed : World
  closed = record w { names = name ∷ w.names }

  remove_name-closed :
      (u : Outcome (Unit {0}))
      → (remove_name u name closed ≡ w)
        ⊎ ((remove_name u name closed ≡ record w { names = name ∷ w.names }) × IsFailure u)
  unfolding closed
  remove_name-closed (returns _) = inl (rw (same_text_refl name) refl)
  remove_name-closed (fails e) = inr (refl, tt)

  create_opened-Holds :
      (t : Outcome (Unit {0})) (m : Outcome ℕ)
      → sys.ftruncate ≡ t
      → sys.mmap ≡ m
      → IsNotNull m
      → let (r, w') = create_opened sys name bytes d opened in
        (r.error
          ≡ first_failure
              ((ftruncate_operation, failure_of t) ∷ (mmap_operation, failure_of m) ∷ []))
        × (Holds r (name ∷ w.names) bytes w w' ⊎ LeavesAtMostName r sys.shm_unlink name w w')
  unfolding create_opened map_descriptor ok opened closed first_failure
  create_opened-Holds (fails e) m f g h =
      rw (f, same_number_refl d) (refl, inr (refl, refl, refl, remove_name-closed sys.shm_unlink))
  create_opened-Holds (returns _) (fails e) f g h =
      rw (f, g, same_number_refl d)
        (refl, inr (refl, refl, refl, remove_name-closed sys.shm_unlink))
  create_opened-Holds (returns _) (returns a) f g h =
      rw (f, g, h, same_number_refl d) (refl, inl (refl, refl, refl, refl))

attach_opened-Holds :
    (sys : System) (bytes d : ℕ) (w : World) (t m : Outcome ℕ)
    → sys.fstat ≡ t
    → sys.mmap ≡ m
    → IsNotNull m
    → let opened = record w { descriptors = d ∷ w.descriptors } in
      let (r, w') = attach_opened sys bytes d opened in
      (Holds r w.names bytes w w' × ((n : ℕ) × (t ≡ returns n) × (bytes ≤ n)))
      ⊎ LeavesNothing r w w'
unfolding attach_opened map_descriptor ok
attach_opened-Holds sys bytes d w (fails e) m f g h =
    rw (f, same_number_refl d) (inr (refl, refl, refl, refl))
attach_opened-Holds sys bytes d w (returns n) (fails e) f g h = elim (Bool-cases (ltb n bytes)) [
  | inl small ↦ rw (f, small, same_number_refl d) (inr (refl, refl, refl, refl))
  | inr enough ↦ rw (f, enough, g, same_number_refl d) (inr (refl, refl, refl, refl))
]
attach_opened-Holds sys bytes d w (returns n) (returns a) f g h = elim (Bool-cases (ltb n bytes)) [
  | inl small ↦ rw (f, small, same_number_refl d) (inr (refl, refl, refl, refl))
  | inr enough ↦
      let fits : bytes ≤ n = ground arith in
      rw (f, enough, g, h, same_number_refl d) (inl ((refl, refl, refl, refl), (n, refl, fits)))
]

Outcome-cases : (o : Outcome ℕ) → ((a : ℕ) × (o ≡ returns a)) ⊎ ((e : ℕ) × (o ≡ fails e))
Outcome-cases (returns a) = inl (a, refl)
Outcome-cases (fails e) = inr (e, refl)

-- Creating a region, whatever the calls of the operating system return, either makes it under its
-- name, mapped in the size that was asked for, or leaves no descriptor and no mapping behind, and the
-- name at most where `shm_unlink` fails to remove it. The error is that of the first of the steps that
-- fails, by its name and error number, and none if the region is made. It relies on `mmap` not to map
-- at the null pointer.
pub create-Holds :
    (sys : System) (name : List ℕ) (bytes : ℕ) (w : World)
    → IsNotNull sys.mmap
    → let (r, w') = create sys (some name) bytes w in
      (r.error ≡ first_failure (create_steps sys name bytes))
      × (Holds r (name ∷ w.names) bytes w w' ⊎ LeavesAtMostName r sys.shm_unlink name w w')
unfolding create ok first_failure create_steps opened
create-Holds sys name bytes w h = elim (Bool-cases (name_is_well_formed (some name))) [
  | inr e ↦ rw e (refl, inr (refl, refl, refl, inl refl))
  | inl e ↦ elim (Bool-cases (bytes == 0)) [
    | inl z ↦ rw (e, z) (refl, inr (refl, refl, refl, inl refl))
    | inr z ↦ elim (Outcome-cases sys.shm_open) [
      | inl (d, o) ↦
          rw (e, z, o) (create_opened-Holds sys name bytes d w sys.ftruncate sys.mmap refl refl h)
      | inr (n, o) ↦ rw (e, z, o) (refl, inr (refl, refl, refl, inl refl))
    ]
  ]
]

-- Opening one that exists makes it in the size that was asked for, which is never more than the object
-- has, or leaves no descriptor and no mapping behind; the names are untouched.
pub open_existing-Holds :
    (sys : System) (name : Option (List ℕ)) (bytes : ℕ) (w : World)
    → IsNotNull sys.mmap
    → let (r, w') = open_existing sys name bytes w in
      (Holds r w.names bytes w w' × ((n : ℕ) × (sys.fstat ≡ returns n) × (bytes ≤ n)))
      ⊎ LeavesNothing r w w'
unfolding open_existing ok
open_existing-Holds sys name bytes w h =
    let P : SharedMemoryRegion × World → Type 0 = λ x.
      (Holds x.0 w.names bytes w x.1 × ((n : ℕ) × (sys.fstat ≡ returns n) × (bytes ≤ n)))
      ⊎ LeavesNothing x.0 w x.1 in
    if_both P (not (name_is_well_formed name)) (λ e. inr (refl, refl, refl, refl))
      (λ e. elim (Outcome-cases sys.shm_open) [
        | inl (d, o) ↦ rw o (attach_opened-Holds sys bytes d w sys.fstat sys.mmap refl refl h)
        | inr (n, o) ↦ rw o (inr (refl, refl, refl, refl))
      ])
