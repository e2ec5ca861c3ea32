-- ===== src/Ipc/Seqlock/Tests.antt =====
-- A slot of two words, and a load that collides with a store.
use safeedge.Ipc.Seqlock.Snapshot.{load-Recent}
use safeedge.Ipc.Seqlock.Progress.{load-is_over, load-alone, alone, is_over}
use safeedge.Ipc.Seqlock.Invariant.{holds, IsValid}
use safeedge.Common.{
  ◌≤◌, ◌*◌, ℕ, List, [], ◌∷◌, ◌≡◌, refl, arith, get_or, true, ◌<◌, ◌^◌, length, ◌+◌,
}
use safeedge.Ipc.Seqlock.{
  ready, idle, Layout, IsTriviallyCopyable, World, call_load, word_count, returned, call_store,
  reader_step, writer_step,
}
use safeedge.Ipc.Seqlock.Steps.{reads, write, store, read, Recent, Action, run, step}

abbrev pair_layout : Layout (ℕ × ℕ)
pair_layout = record {
  size = 16;
  stage = λ p. p.0 ∷ p.1 ∷ [];
  unstage = λ words. (get_or words 0 0, get_or words 1 0);
}

pair_layout-IsTriviallyCopyable : IsTriviallyCopyable pair_layout
unfolding word_count
pair_layout-IsTriviallyCopyable = record { length-stage = λ p. refl; unstage-stage = λ p. refl }

abbrev fresh : World (ℕ × ℕ)
fresh = record {
  sequence = 0;
  words = 0 ∷ 0 ∷ [];
  writer = idle;
  reader = ready;
  published = (0, 0) ∷ [];
}

fresh-IsValid : IsValid pair_layout 0 fresh
unfolding word_count
fresh-IsValid = record {
  phase = (omega arith, holds refl);
  length_words = refl;
  nonempty = omega arith;
}

-- The reader takes its first word before the store and its second after it, and tries again.
abbrev collision : List (Action (ℕ × ℕ))
collision =
    read
    ∷ read
    ∷ store (5, 6)
    ∷ write
    ∷ write
    ∷ write
    ∷ read
    ∷ write
    ∷ read
    ∷ read
    ∷ read
    ∷ read
    ∷ read
    ∷ []

after_collision : (run pair_layout 32 collision (call_load fresh)).reader ≡ returned (5, 6)
unfolding run step call_load call_store writer_step reader_step word_count
after_collision = refl

few_stores :
    length (run pair_layout 32 collision (call_load fresh)).published
    < length (fresh.published) + 2 ^ 63
unfolding run step call_load call_store writer_step reader_step word_count
few_stores = omega arith

load-Recent_example : Recent 1 (5, 6) (run pair_layout 32 collision (call_load fresh)).published
load-Recent_example =
    load-Recent pair_layout pair_layout-IsTriviallyCopyable 0 32 collision fresh (5, 6)
      fresh-IsValid few_stores after_collision

-- One attempt in a slot whose counter moves every time.
abbrev one_attempt : List (Action (ℕ × ℕ))
one_attempt = read ∷ read ∷ store (5, 6) ∷ write ∷ read ∷ read ∷ read ∷ []

enough_reads : 1 * (word_count 16 + 2) + 1 ≤ reads one_attempt
unfolding word_count
enough_reads = omega arith

load-is_over_example : is_over (run pair_layout 1 one_attempt (call_load fresh)).reader ≡ true
load-is_over_example = load-is_over pair_layout 1 one_attempt fresh enough_reads

load-alone_example :
    (run pair_layout 32 (alone (word_count 16 + 2)) (call_load fresh)).reader ≡ returned (0, 0)
load-alone_example =
    load-alone pair_layout 32 0 (0, 0) [] fresh pair_layout-IsTriviallyCopyable fresh-IsValid refl
      refl (omega arith)
