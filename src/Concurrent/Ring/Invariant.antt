-- ===== src/Concurrent/Ring/Invariant.antt =====
-- What the ring's counters and slots have to do with the queue that it holds, in every position of
-- the two threads.
use safeedge.Common.{
  ℕ, zero, suc, ◌+◌, ◌/◌, ◌%◌, ◌^◌, ◌≤◌, ◌<◌, u64, List, [], ◌∷◌, ◌++◌, length, get_or, set, ◌≡◌,
  ◌≢◌, refl, ap, ◌∙◌, arith, dec_lt,
}
use Prim.Native.Nat.{◌∣◌}
use native.Mathlib.Nat.{mod-mod_of_dvd, mod-add-div}
use safeedge.Concurrent.Ring.Queue.{QueueStep}
use safeedge.Concurrent.Ring.{
  Event, World, Producer, out_of_push, refreshing_read, filling, publishing, Consumer, out_of_pop,
  refreshing_write, taking, releasing, slot_of,
}

-- A power of two of at least two that a `std::size_t` holds.
pub record IsCapacity (capacity : ℕ) : Type 0 where
  pub at_least_two : 2 ≤ capacity
  pub fits : capacity < 2 ^ 64
  pub divides : capacity ∣ 2 ^ 64

-- The slots from a position on hold the values, in order.
abbrev pub Contents : {A : Type 0} → ℕ → A → List A → ℕ → List A → Type 0
Contents capacity default slots position [] = Unit
Contents capacity default slots position (x ∷ xs) =
    (get_or slots (position % capacity) default ≡ x)
    × Contents capacity default slots (suc position) xs

-- Between its test and its store the producer has room, and before the store of the counter its
-- value is in the slot.
abbrev pub ProducerAt : {A : Type 0} → ℕ → A → ℕ → List A → ℕ → ℕ → Producer A → Type 0
ProducerAt capacity default write_pos slots written seen_read (out_of_push result) = Unit
ProducerAt capacity default write_pos slots written seen_read (refreshing_read value write) =
    write ≡ write_pos
ProducerAt capacity default write_pos slots written seen_read (filling value write) =
    (write ≡ write_pos) × (written < seen_read + capacity)
ProducerAt capacity default write_pos slots written seen_read (publishing value write) =
    (write ≡ write_pos)
    × (written < seen_read + capacity)
    × (get_or slots (written % capacity) default ≡ value)

abbrev pub ConsumerAt : {A : Type 0} → A → ℕ → ℕ → ℕ → List A → Consumer A → Type 0
ConsumerAt default read_pos read seen_written q (out_of_pop result) = Unit
ConsumerAt default read_pos read seen_written q (refreshing_write position) = position ≡ read_pos
ConsumerAt default read_pos read seen_written q (taking position) =
    (position ≡ read_pos) × (read < seen_written)
ConsumerAt default read_pos read seen_written q (releasing position out) =
    (position ≡ read_pos) × (read < seen_written) × (get_or q 0 default ≡ out)

-- The four positions without their wrap-around: `written` and `read`, and what the other side has
-- last seen of them, `seen_written` and `seen_read`.
pub record Counters (capacity write_pos cached_read_pos read_pos cached_write_pos size : ℕ)
    : Type 0 where
  pub written : ℕ
  pub read : ℕ
  pub seen_written : ℕ
  pub seen_read : ℕ
  pub write_pos_lem : write_pos ≡ u64 written
  pub read_pos_lem : read_pos ≡ u64 read
  pub cached_write_pos_lem : cached_write_pos ≡ u64 seen_written
  pub cached_read_pos_lem : cached_read_pos ≡ u64 seen_read
  pub size_lem : written ≡ read + size
  pub bounded : size ≤ capacity
  pub seen_written_bounds : (read ≤ seen_written) × (seen_written ≤ written)
  pub seen_read_bounds : (seen_read ≤ read) × (written ≤ seen_read + capacity)

-- How an access of a counter moves them.
module _ {c write_pos cached_read_pos read_pos cached_write_pos size : ℕ}
    (n : Counters c write_pos cached_read_pos read_pos cached_write_pos size) where
  open n use {
    written, read, seen_written, seen_read, write_pos_lem, read_pos_lem, cached_write_pos_lem,
    cached_read_pos_lem, size_lem, bounded, seen_written_bounds, seen_read_bounds,
  }

  abbrev pub see_read : Counters c write_pos read_pos read_pos cached_write_pos size
  see_read = record {
    written = written;
    read = read;
    seen_written = seen_written;
    seen_read = read;
    write_pos_lem = write_pos_lem;
    read_pos_lem = read_pos_lem;
    cached_write_pos_lem = cached_write_pos_lem;
    cached_read_pos_lem = read_pos_lem;
    size_lem = size_lem;
    bounded = bounded;
    seen_written_bounds = seen_written_bounds;
    seen_read_bounds = (omega arith, omega arith);
  }

  abbrev pub see_written : Counters c write_pos cached_read_pos read_pos write_pos size
  see_written = record {
    written = written;
    read = read;
    seen_written = written;
    seen_read = seen_read;
    write_pos_lem = write_pos_lem;
    read_pos_lem = read_pos_lem;
    cached_write_pos_lem = write_pos_lem;
    cached_read_pos_lem = cached_read_pos_lem;
    size_lem = size_lem;
    bounded = bounded;
    seen_written_bounds = (omega arith, omega arith);
    seen_read_bounds = seen_read_bounds;
  }

  abbrev pub publish :
      (size' : ℕ)
      → size' ≡ suc size
      → written < seen_read + c
      → (position : ℕ) → position ≡ write_pos
      → Counters c (u64 (position + 1)) cached_read_pos read_pos cached_write_pos size'
  publish size' grown room position same = record {
    written = suc written;
    read = read;
    seen_written = seen_written;
    seen_read = seen_read;
    write_pos_lem = omega arith;
    read_pos_lem = read_pos_lem;
    cached_write_pos_lem = cached_write_pos_lem;
    cached_read_pos_lem = cached_read_pos_lem;
    size_lem = omega arith;
    bounded = omega arith;
    seen_written_bounds = (omega arith, omega arith);
    seen_read_bounds = (omega arith, omega arith);
  }

-- The store of the read position takes the first value away.
abbrev pub release :
    {c write_pos cached_read_pos read_pos cached_write_pos size : ℕ}
    (n : Counters c write_pos cached_read_pos read_pos cached_write_pos (suc size))
    → n.read < n.seen_written
    → (position : ℕ) → position ≡ read_pos
    → Counters c write_pos cached_read_pos (u64 (position + 1)) cached_write_pos size
release n more position same = record {
  written = n.written;
  read = suc n.read;
  seen_written = n.seen_written;
  seen_read = n.seen_read;
  write_pos_lem = n.write_pos_lem;
  read_pos_lem = omega arith;
  cached_write_pos_lem = n.cached_write_pos_lem;
  cached_read_pos_lem = n.cached_read_pos_lem;
  size_lem = omega arith;
  bounded = omega arith;
  seen_written_bounds = (omega arith, omega arith);
  seen_read_bounds = (omega arith, omega arith);
}

-- The ring holds the queue.
pub record IsValid {A : Type 0} (capacity : ℕ) (default : A) (w : World A) (q : List A)
    : Type 0 where
  pub counters :
      Counters capacity w.write_pos w.cached_read_pos w.read_pos w.cached_write_pos (length q)
  pub length_slots : length w.slots ≡ capacity
  pub contents : Contents capacity default w.slots counters.read q
  pub producer_at :
      ProducerAt capacity default w.write_pos w.slots counters.written counters.seen_read w.producer
  pub consumer_at : ConsumerAt default w.read_pos counters.read counters.seen_written q w.consumer

-- Positions less than a capacity apart have different slots.
pub slots_apart : (c a b : ℕ) → a < b → b < a + c → a % c ≢ b % c
slots_apart c a b h k e = elim (dec_lt (a / c) (b / c)) [
  | yes less ↦ grind (arith, mod-add-div a c, mod-add-div b c)
  | no more ↦ grind (arith, mod-add-div a c, mod-add-div b c)
]

-- A position that has wrapped has the slot of the position.
pub slot_of-u64 : (c n : ℕ) → IsCapacity c → slot_of c (u64 n) ≡ n % c
slot_of-u64 c n h = mod-mod_of_dvd c n h.divides

pub get_or-set_self {ℓ} :
    {A : Type ℓ} (xs : List A) (i : ℕ) (v d : A) → i < length xs → get_or (set xs i v) i d ≡ v
get_or-set_self [] i v d h = absurd (omega arith)
get_or-set_self (x ∷ xs) zero v d h = refl
get_or-set_self (x ∷ xs) (suc i) v d h = get_or-set_self xs i v d (omega arith)

get_or-set_ne {ℓ} :
    {A : Type ℓ} (xs : List A) (i j : ℕ) (v d : A) → i ≢ j → get_or (set xs j v) i d ≡ get_or xs i d
get_or-set_ne [] i j v d h = refl
get_or-set_ne (x ∷ xs) zero zero v d h = absurd (h refl)
get_or-set_ne (x ∷ xs) zero (suc j) v d h = refl
get_or-set_ne (x ∷ xs) (suc i) zero v d h = refl
get_or-set_ne (x ∷ xs) (suc i) (suc j) v d h = get_or-set_ne xs i j v d (λ e. h (ap suc e))

module _ {A : Type 0} (c : ℕ) (default : A) where
  -- A write behind the queue leaves it alone.
  pub Contents-set :
      (q slots : List A) (p w : ℕ) (v : A)
      → p + length q ≤ w
      → w < p + c
      → Contents c default slots p q
      → Contents c default (set slots (w % c) v) p q
  Contents-set [] slots p w v l b h = tt
  Contents-set (x ∷ q) slots p w v l b (h, hs) = (
    get_or-set_ne slots (p % c) (w % c) v default (slots_apart c p w (omega arith) b) ∙ h,
    Contents-set q slots (suc p) w v (omega arith) (omega arith) hs,
  )

  -- The slot behind it extends it.
  pub Contents-append :
      (q slots : List A) (p : ℕ) (v : A)
      → Contents c default slots p q
      → get_or slots ((p + length q) % c) default ≡ v
      → Contents c default slots p (q ++ v ∷ [])
  Contents-append [] slots p v h e =
      (ap (λ (k : ℕ). get_or slots (k % c) default) (let z : p ≡ p + 0 = omega arith in z) ∙ e, tt)
  Contents-append (x ∷ q) slots p v (h, hs) e = (
    h,
    Contents-append q slots (suc p) v hs (
        ap (λ (k : ℕ). get_or slots (k % c) default)
          (let z : suc p + length q ≡ p + suc (length q) = omega arith in z)
        ∙ e),
  )

-- A step that shows the event takes the queue to one that the ring then holds.
abbrev pub Refines : {A : Type 0} → ℕ → A → World A × Event A → List A → Type 0
Refines {A} capacity default (w, event) q =
    (q' : List A) × QueueStep capacity q event q' × IsValid capacity default w q'
