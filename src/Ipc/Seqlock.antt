-- ===== src/Ipc/Seqlock.antt =====
-- include/safeedge/ipc/seqlock_slot.hpp: one writer publishes a value word by word between two
-- writes of a counter, and a reader copies the words between two reads of it. Every access of an
-- atomic is one step, and the steps of the two interleave in any order; the accesses are taken in
-- one total order. `T` and its copy to and from the array of words (`std::memcpy`) are parameters.
pub mod Steps
pub mod Invariant
pub mod Snapshot
pub mod Progress
mod Tests
use safeedge.Common.{
  ℕ, zero, suc, ◌+◌, ◌*◌, ◌-◌, ◌/◌, ◌%◌, ◌≤◌, ◌==◌, ltb, if◌then◌else◌, u64, List, [], ◌∷◌, ◌++◌,
  length, get_or, set, ◌≡◌, Bool, true, false,
}

-- `kWordCount` for a type of `size` bytes.
unfoldable pub word_count : ℕ → ℕ
word_count size = (size + 8 - 1) / 8

-- `sizeof(T)`, the `memcpy` of a value into a zeroed `staging` array and the `memcpy` back.
pub record Layout (T : Type 0) : Type 0 where
  pub size : ℕ
  pub stage : T → List ℕ
  pub unstage : List ℕ → T

-- What `std::memcpy` does for a trivially copyable type.
pub record IsTriviallyCopyable {T : Type 0} (layout : Layout T) : Type 0 where
  pub length-stage : (value : T) → length (layout.stage value) ≡ word_count layout.size
  pub unstage-stage : (value : T) → layout.unstage (layout.stage value) ≡ value

-- Where the writer stands in `store`, with the locals that are live there.
pub data Writer (T : Type 0) : Type 0 where
  idle : Writer T
  marking : (start : ℕ) (value : T) → Writer T
  copying : (start : ℕ) (value : T) (index : ℕ) → Writer T

-- Where the reader stands in `tryLoad`.
pub data Reader (T : Type 0) : Type 0 where
  ready : Reader T
  sampling : (attempt : ℕ) → Reader T
  loading : (attempt before : ℕ) (staging : List ℕ) → Reader T
  returned : (out : T) → Reader T
  gave_up : Reader T

-- The slot, the two threads, and, for the statements only, the values that were ever stable in the
-- slot, the latest first.
pub record World (T : Type 0) : Type 0 where
  pub sequence : ℕ
  pub words : List ℕ
  pub writer : Writer T
  pub reader : Reader T
  pub published : List T

-- The call of `store`, up to its load of the counter. There is one writer, so a call starts only
-- when the previous one has returned.
unfoldable pub call_store : {T : Type 0} → T → Writer T → World T → World T
call_store value idle w = record w { writer = marking w.sequence value }
call_store value _ w = w

-- The next access of the writer.
unfoldable pub writer_step : {T : Type 0} → Layout T → Writer T → World T → World T
writer_step layout idle w = w
writer_step layout (marking start value) w = record w {
  sequence = u64 (start + 1);
  writer = copying start value 0;
}
writer_step layout (copying start value index) w =
    if ltb index (word_count layout.size)
    then record w {
      words = set w.words index (get_or (layout.stage value) index 0);
      writer = copying start value (suc index);
    }
    else record w { sequence = u64 (start + 2); writer = idle; published = value ∷ w.published }

-- `writeInProgress`, of the value of the counter.
unfoldable pub write_in_progress : ℕ → Bool
write_in_progress sequence = sequence % 2 == 1

-- `generation`, of the value of the counter.
unfoldable pub generation : ℕ → ℕ
generation sequence = sequence / 2

-- The call of `tryLoad`.
unfoldable pub call_load : {T : Type 0} → World T → World T
call_load w = record w { reader = sampling 0 }

-- The next access of the reader, which makes at most `max_attempts` attempts.
unfoldable pub reader_step : {T : Type 0} → Layout T → ℕ → Reader T → World T → World T
unfolding write_in_progress
reader_step layout max_attempts ready w = w
reader_step layout max_attempts (sampling attempt) w =
    if ltb attempt max_attempts
    then if write_in_progress w.sequence
      then record w { reader = sampling (suc attempt) }
      else record w { reader = loading attempt w.sequence [] }
    else record w { reader = gave_up }
reader_step layout max_attempts (loading attempt before staging) w =
    if ltb (length staging) (word_count layout.size)
    then record w {
      reader = loading attempt before (staging ++ get_or w.words (length staging) 0 ∷ []);
    }
    else if w.sequence == before
    then record w { reader = returned (layout.unstage staging) }
    else record w { reader = sampling (suc attempt) }
reader_step layout max_attempts (returned out) w = w
reader_step layout max_attempts gave_up w = w
