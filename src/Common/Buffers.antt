-- ===== src/Common/Buffers.antt =====
-- Fixed buffers as lists: writes in place, and what a prefix then holds.
use Prim.Native.Nat.{ℕ, zero, suc, ◌+◌, ◌≤◌, ◌<◌}
use mathlib.Core.Path.{◌≡◌, refl, sym, ap, ◌∙◌}
use mathlib.Core.List.{List, [], ◌∷◌, ◌++◌, append_assoc, append-nil}
use native.Mathlib.Omega.{arith}
use safeedge.Common.Lists.{length, take, get_or}

module _ {ℓ} {A : Type ℓ} where
  -- A write at an index out of range changes nothing; the callers' bounds rule it out.
  abbrev pub set : List A → ℕ → A → List A
  set [] i v = []
  set (x ∷ xs) zero v = v ∷ xs
  set (x ∷ xs) (suc i) v = x ∷ set xs i v

  -- `std::copy` of a list into a buffer from an index on.
  unfoldable pub write_bytes : List A → ℕ → List A → List A
  write_bytes buffer i [] = buffer
  write_bytes buffer i (y ∷ ys) = write_bytes (set buffer i y) (suc i) ys

  pub length-set : (xs : List A) (i : ℕ) (v : A) → length (set xs i v) ≡ length xs
  length-set [] i v = refl
  length-set (x ∷ xs) zero v = refl
  length-set (x ∷ xs) (suc i) v = ap suc (length-set xs i v)

  pub length-write_bytes :
      (xs : List A) (i : ℕ) (ys : List A) → length (write_bytes xs i ys) ≡ length xs
  unfolding write_bytes
  length-write_bytes xs i [] = refl
  length-write_bytes xs i (y ∷ ys) = length-write_bytes (set xs i y) (suc i) ys ∙ length-set xs i y

  pub take-set :
      (xs : List A) (i : ℕ) (v : A)
      → i < length xs
      → take (suc i) (set xs i v) ≡ take i xs ++ v ∷ []
  take-set [] i v h = absurd (omega arith)
  take-set (x ∷ xs) zero v h = refl
  take-set (x ∷ xs) (suc i) v h = ap (◌∷◌ x) (take-set xs i v (omega arith))

  -- Writing behind a prefix extends it.
  pub take-write_bytes :
      (xs : List A) (i : ℕ) (ys : List A) (n : ℕ)
      → n ≡ i + length ys
      → n ≤ length xs
      → take n (write_bytes xs i ys) ≡ take i xs ++ ys
  unfolding write_bytes
  take-write_bytes xs i [] n e h =
      ap (λ (k : ℕ). take k xs) (omega arith) ∙ sym (append-nil (take i xs))
  take-write_bytes xs i (y ∷ ys) n e h =
      take-write_bytes (set xs i y) (suc i) ys n (omega arith) (omega (arith, length-set xs i y))
      ∙ (ap (λ (zs : List A). zs ++ ys) (take-set xs i y (omega arith))
          ∙ append_assoc (take i xs) (y ∷ []) ys)

  pub get_or-append :
      (xs ys : List A) (i j : ℕ) (d : A) → j ≡ length xs + i → get_or (xs ++ ys) j d ≡ get_or ys i d
  get_or-append [] ys i j d e = ap (λ (k : ℕ). get_or ys k d) (omega arith)
  get_or-append (x ∷ xs) ys i zero d e = absurd (omega arith)
  get_or-append (x ∷ xs) ys i (suc j) d e = get_or-append xs ys i j d (omega arith)
