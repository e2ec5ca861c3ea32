-- ===== src/Ipc/SharedMemory/Ownership/Count.antt =====
-- What creating, closing and replacing a region does to the numbers of owners and of mappings.
use safeedge.Ipc.SharedMemory.{SharedMemoryRegion, World, close, same_mapping, erase}
use safeedge.Common.{
  ℕ, zero, suc, ◌+◌, ◌≤◌, ◌<◌, ◌==◌, Bool, true, false, List, [], ◌∷◌, set, length, ◌≡◌, refl,
  subst, arith, Bool-cases, inl, inr,
}
use safeedge.Ipc.SharedMemory.Ownership.{region_at, one, owns, owners, held}

same_trans : (m x y : ℕ × ℕ) → same_mapping x y ≡ true → same_mapping m x ≡ same_mapping m y
same_trans m x y e = ground arith

pub same_refl : (x : ℕ × ℕ) → same_mapping x x ≡ true
same_refl x = ground arith

pub held-erase :
    (m x : ℕ × ℕ) (ms : List (ℕ × ℕ))
    → 1 ≤ held x ms
    → held m (erase same_mapping x ms) + one (same_mapping m x) ≡ held m ms
unfolding held one
held-erase m x [] h = absurd (omega arith)
held-erase m x (y ∷ ys) h = elim (Bool-cases (same_mapping x y)) [
  | inl e ↦ rw (e, same_trans m x y e) (omega arith)
  | inr e ↦
      let there : 1 ≤ held x ys = omega (arith, subst (λ (b : Bool). 1 ≤ one b + held x ys) e h) in
      let rest = held-erase m x ys there in rw e (omega (arith, rest))
]

pub owns_empty :
    (m : ℕ × ℕ) (r : SharedMemoryRegion) → (m.0 == 0) ≡ false → r.address ≡ 0 → owns m r ≡ 0
unfolding owns one
owns_empty m r h e = rw (e, h) refl

pub owners-set :
    (m : ℕ × ℕ) (rs : List SharedMemoryRegion) (i : ℕ) (r : SharedMemoryRegion)
    → i < length rs
    → owners m (set rs i r) + owns m (region_at rs i) ≡ owners m rs + owns m r
unfolding owners region_at
owners-set m [] i r h = absurd (omega arith)
owners-set m (x ∷ xs) zero r h = omega arith
owners-set m (x ∷ xs) (suc i) r h = omega (arith, owners-set m xs i r (omega arith))

pub owns-le :
    (m : ℕ × ℕ) (rs : List SharedMemoryRegion) (i : ℕ)
    → i < length rs
    → owns m (region_at rs i) ≤ owners m rs
unfolding owners region_at
owns-le m [] i h = absurd (omega arith)
owns-le m (x ∷ xs) zero h = omega arith
owns-le m (x ∷ xs) (suc i) h = omega (arith, owns-le m xs i (omega arith))

pub region_at-set :
    (rs : List SharedMemoryRegion) (i j : ℕ) (r : SharedMemoryRegion)
    → (i == j) ≡ false
    → region_at (set rs i r) j ≡ region_at rs j
unfolding region_at
region_at-set [] i j r h = refl
region_at-set (x ∷ xs) zero zero r h = absurd (ground arith)
region_at-set (x ∷ xs) zero (suc j) r h = refl
region_at-set (x ∷ xs) (suc i) zero r h = refl
region_at-set (x ∷ xs) (suc i) (suc j) r h = region_at-set xs i j r (ground arith)

-- Closing a region takes away its mapping.
pub held-close :
    (m : ℕ × ℕ) (r : SharedMemoryRegion) (w : World)
    → (m.0 == 0) ≡ false
    → ((r.address == 0) ≡ false → 1 ≤ held (r.address, r.size) w.mappings)
    → held m (close r w).1.mappings + owns m r ≡ held m w.mappings
unfolding close owns
held-close m r w h k = elim (Bool-cases (r.address == 0)) [
  | inl e ↦ rw (e, owns_empty m r h (ground arith)) (omega arith)
  | inr e ↦ rw e (held-erase m (r.address, r.size) w.mappings (k e))
]

pub owns_self : (r : SharedMemoryRegion) → owns (r.address, r.size) r ≡ 1
unfolding owns one
owns_self r = rw (same_refl (r.address, r.size)) refl
