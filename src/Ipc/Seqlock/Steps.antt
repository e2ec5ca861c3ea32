-- ===== src/Ipc/Seqlock/Steps.antt =====
-- The interleavings of one call of `tryLoad` with the stores of the writer.
use safeedge.Common.{ℕ, suc, List, [], ◌∷◌, length, ◌≤◌}
use safeedge.Ipc.Seqlock.{Layout, World, call_store, writer_step, reader_step}

-- Who moves next, or that a `store` is called.
pub data Action (T : Type 0) : Type 0 where
  store : (value : T) → Action T
  write : Action T
  read : Action T

unfoldable pub step : {T : Type 0} → Layout T → ℕ → Action T → World T → World T
step layout max_attempts (store value) w = call_store value w.writer w
step layout max_attempts write w = writer_step layout w.writer w
step layout max_attempts read w = reader_step layout max_attempts w.reader w

unfoldable pub run : {T : Type 0} → Layout T → ℕ → List (Action T) → World T → World T
run layout max_attempts [] w = w
run layout max_attempts (a ∷ schedule) w =
    run layout max_attempts schedule (step layout max_attempts a w)

-- The accesses of the reader in a schedule.
abbrev pub reads : {T : Type 0} → List (Action T) → ℕ
reads [] = 0
reads (store value ∷ schedule) = reads schedule
reads (write ∷ schedule) = reads schedule
reads (read ∷ schedule) = suc (reads schedule)

-- The value was stable in the slot at some time since `floor` values had been.
pub data Recent {T : Type 0} (floor : ℕ) (value : T) : List T → Type 0 where
  latest : {older : List T} → floor ≤ suc (length older) → Recent floor value (value ∷ older)
  earlier :
      {newer : T} {older : List T} → Recent floor value older → Recent floor value (newer ∷ older)
