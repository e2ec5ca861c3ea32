-- ===== src/Ipc/Seqlock/Progress.antt =====
-- A load ends after a bounded number of accesses, whatever the writer does; alone it succeeds, and
-- against a writer that died inside a store it fails.
use safeedge.Ipc.Seqlock.Invariant.{holds, InPhase, Holds, next_word, take-all, IsValid}
use safeedge.Ipc.Seqlock.Steps.{write, store, read, step, reads, Action, run}
use safeedge.Common.{◌++◌, ◌∙◌, ◌==◌, ltb, subst, zero, take, refl, ap}
use safeedge.Common.{
  false, List, true, Bool, ℕ, suc, ◌+◌, ◌*◌, ◌-◌, ◌≤◌, ◌<◌, [], ◌∷◌, length, get_or, length-append,
  ◌≡◌, arith,
}
use safeedge.Ipc.Seqlock.{
  marking, write_in_progress, copying, idle, IsTriviallyCopyable, Writer, writer_step, call_store,
  call_load, Layout, Reader, ready, sampling, loading, returned, gave_up, World, word_count,
  reader_step,
}

-- A bound on the accesses that a load still makes, with `n` words to a value.
abbrev remaining : {T : Type 0} → ℕ → ℕ → Reader T → ℕ
remaining n max_attempts ready = 0
remaining n max_attempts (sampling attempt) = (max_attempts - attempt) * (n + 2) + 1
remaining n max_attempts (loading attempt before staging) =
    (max_attempts - suc attempt) * (n + 2) + 1 + (n - length staging) + 1
remaining n max_attempts (returned out) = 0
remaining n max_attempts gave_up = 0

attempt_over : (m a n : ℕ) → a < m → (m - a) * (n + 2) ≡ (m - suc a) * (n + 2) + (n + 2)
attempt_over m a n h = let e : m - a ≡ suc (m - suc a) = omega arith in rw e (omega arith)

reader_step-remaining :
    {T : Type 0} (layout : Layout T) (max_attempts : ℕ) (r : Reader T) (w : World T)
    → w.reader ≡ r
    → remaining (word_count layout.size) max_attempts (reader_step layout max_attempts r w).reader
      ≤ remaining (word_count layout.size) max_attempts r - 1
unfolding reader_step
reader_step-remaining layout m ready w e = rw e (omega arith)
reader_step-remaining layout m (sampling attempt) w e =
    ground (arith, attempt_over m attempt (word_count layout.size))
reader_step-remaining layout m (loading attempt before staging) w e =
    ground (arith, length-append staging (get_or w.words (length staging) 0 ∷ []))
reader_step-remaining layout m (returned out) w e = rw e (omega arith)
reader_step-remaining layout m gave_up w e = rw e (omega arith)

writer_step-reader :
    {T : Type 0} (layout : Layout T) (p : Writer T) (w : World T)
    → (writer_step layout p w).reader ≡ w.reader
unfolding writer_step
writer_step-reader layout p w = ground arith

call_store-reader :
    {T : Type 0} (value : T) (p : Writer T) (w : World T) → (call_store value p w).reader ≡ w.reader
unfolding call_store
call_store-reader value p w = ground arith

-- The call has returned.
abbrev pub is_over : {T : Type 0} → Reader T → Bool
is_over (sampling attempt) = false
is_over (loading attempt before staging) = false
is_over _ = true

none_remaining : {T : Type 0} (n m : ℕ) (r : Reader T) → remaining n m r ≤ 0 → is_over r ≡ true
none_remaining n m ready h = refl
none_remaining n m (sampling attempt) h = absurd (omega arith)
none_remaining n m (loading attempt before staging) h = absurd (omega arith)
none_remaining n m (returned out) h = refl
none_remaining n m gave_up h = refl

run-remaining :
    {T : Type 0} (layout : Layout T) (max_attempts : ℕ) (schedule : List (Action T)) (w : World T)
    → remaining (word_count layout.size) max_attempts (run layout max_attempts schedule w).reader
      ≤ remaining (word_count layout.size) max_attempts w.reader - reads schedule
unfolding run step
run-remaining layout m [] w = omega arith
run-remaining layout m (store value ∷ schedule) w =
    let n = word_count layout.size in
    subst
      (λ (r : Reader _).
        remaining n m (run layout m (store value ∷ schedule) w).reader
        ≤ remaining n m r - reads schedule)
      (call_store-reader value w.writer w)
      (run-remaining layout m schedule (call_store value w.writer w))
run-remaining layout m (write ∷ schedule) w =
    let n = word_count layout.size in
    subst
      (λ (r : Reader _).
        remaining n m (run layout m (write ∷ schedule) w).reader ≤ remaining n m r - reads schedule)
      (writer_step-reader layout w.writer w)
      (run-remaining layout m schedule (writer_step layout w.writer w))
run-remaining layout m (read ∷ schedule) w = omega (
  arith,
  reader_step-remaining layout m w.reader w refl,
  run-remaining layout m schedule (reader_step layout m w.reader w),
)

-- `tryLoad` is bounded: once the reader has made `max_attempts` times the number of words plus two
-- accesses, and one more step, the call is over, whatever the writer did in between.
pub load-is_over :
    {T : Type 0} (layout : Layout T) (max_attempts : ℕ) (schedule : List (Action T)) (w : World T)
    → max_attempts * (word_count layout.size + 2) + 1 ≤ reads schedule
    → is_over (run layout max_attempts schedule (call_load w)).reader ≡ true
unfolding call_load
load-is_over layout m schedule w h =
    let n = word_count layout.size in
    let bound : remaining n m (run layout m schedule (call_load w)).reader
        ≤ (m - 0) * (n + 2) + 1 - reads schedule =
      run-remaining layout m schedule (call_load w) in
    let first : (m - 0) * (n + 2) ≡ m * (n + 2) = ap (λ (k : ℕ). k * (n + 2)) (omega arith) in
    none_remaining n m (run layout m schedule (call_load w)).reader (omega arith)

-- The reader alone.
abbrev pub alone : {T : Type 0} → ℕ → List (Action T)
alone zero = []
alone (suc n) = read ∷ alone n

held_words :
    {T : Type 0} (layout : Layout T) (words : List ℕ) (vs : List T) (value : T) (older : List T)
    → Holds layout words vs
    → vs ≡ value ∷ older
    → words ≡ layout.stage value
held_words layout words vs value older (holds {value = v} e) q =
    let same : v ≡ value = cc in e ∙ ap layout.stage same

-- The rest of a first attempt in a slot that nobody writes.
module _ {T : Type 0} (layout : Layout T) (max_attempts : ℕ) where
  load_word :
      (w : World T) (attempt before : ℕ) (staging : List ℕ)
      → length staging < word_count layout.size
      → reader_step layout max_attempts (loading attempt before staging) w ≡ record w {
        reader = loading attempt before (staging ++ get_or w.words (length staging) 0 ∷ []);
      }
  unfolding reader_step
  load_word w attempt before staging h =
      let more : ltb (length staging) (word_count layout.size) ≡ true = ground arith in rw more refl

  -- A sample of an even counter, and of an odd one.
  sample_even :
      (w : World T) (attempt : ℕ)
      → attempt < max_attempts
      → write_in_progress w.sequence ≡ false
      → reader_step layout max_attempts (sampling attempt) w
        ≡ record w { reader = loading attempt w.sequence [] }
  unfolding reader_step
  sample_even w attempt h e =
      let more : ltb attempt max_attempts ≡ true = ground arith in rw (more, e) refl

  sample_odd :
      (w : World T) (attempt : ℕ)
      → attempt < max_attempts
      → write_in_progress w.sequence ≡ true
      → reader_step layout max_attempts (sampling attempt) w
        ≡ record w { reader = sampling (suc attempt) }
  unfolding reader_step
  sample_odd w attempt h e =
      let more : ltb attempt max_attempts ≡ true = ground arith in rw (more, e) refl

  finish_load :
      (rest : ℕ) (w : World T) (attempt : ℕ) (staging : List ℕ)
      → w.reader ≡ loading attempt w.sequence staging
      → length w.words ≡ word_count layout.size
      → length staging + rest ≡ word_count layout.size
      → staging ≡ take (length staging) w.words
      → (run layout max_attempts (alone (suc rest)) w).reader ≡ returned (layout.unstage w.words)
  unfolding run step reader_step
  finish_load zero w attempt staging e n l p =
      let done : ltb (length staging) (word_count layout.size) ≡ false = ground arith in
      let same : (w.sequence == w.sequence) ≡ true = ground arith in
      ap (λ (r : Reader T). (reader_step layout max_attempts r w).reader) e
      ∙ rw (done, same)
          (ap (λ (xs : List ℕ). returned (layout.unstage xs))
            (p ∙ take-all (length staging) w.words (omega arith)))
  finish_load (suc rest) w attempt staging e n l p =
      let x = get_or w.words (length staging) 0 in
      ap
        (λ (r : Reader T).
          (run layout max_attempts (alone (suc rest)) (reader_step layout max_attempts r w)).reader)
        e
      ∙ (ap (λ (w' : World T). (run layout max_attempts (alone (suc rest)) w').reader)
            (load_word w attempt w.sequence staging (omega arith))
          ∙ finish_load rest (record w { reader = loading attempt w.sequence (staging ++ x ∷ []) })
              attempt (staging ++ x ∷ []) refl n (omega (arith, length-append staging (x ∷ [])))
              (next_word staging w.words (omega arith) p))

  idle_phase :
      (base : ℕ) (p : Writer T) (w : World T) (value : T) (older : List T)
      → InPhase layout base w p
      → p ≡ idle
      → w.published ≡ value ∷ older
      → (write_in_progress w.sequence ≡ false) × (w.words ≡ layout.stage value)
  unfolding write_in_progress
  idle_phase base idle w value older (s, h) e q =
      (ground arith, held_words layout w.words w.published value older h q)
  idle_phase base (marking start other) w value older v e q = cc
  idle_phase base (copying start other index) w value older v e q = cc

  -- With nobody writing, `tryLoad` succeeds at its first attempt, and gives the value that the slot
  -- holds, if it may make an attempt at all.
  pub load-alone :
      (base : ℕ) (value : T) (older : List T) (w : World T)
      → IsTriviallyCopyable layout
      → IsValid layout base w
      → w.writer ≡ idle
      → w.published ≡ value ∷ older
      → 1 ≤ max_attempts
      → (run layout max_attempts (alone (word_count layout.size + 2)) (call_load w)).reader
        ≡ returned value
  unfolding run step reader_step call_load
  load-alone base value older w copyable v q held h =
      let (even, words) = idle_phase base w.writer w value older v.phase q held in
      let n = word_count layout.size in
      let count : n + 2 ≡ suc (suc n) = omega arith in
      ap (λ (k : ℕ). (run layout max_attempts (alone k) (call_load w)).reader) count
      ∙ (ap (λ (w' : World T). (run layout max_attempts (alone (suc n)) w').reader)
            (sample_even (call_load w) 0 (omega arith) even)
          ∙ (finish_load n (record w { reader = loading 0 w.sequence [] }) 0 [] refl v.length_words
                (omega arith) refl
              ∙ ap returned (ap layout.unstage words ∙ copyable.unstage-stage value)))

  dead_load :
      (rest attempt : ℕ) (w : World T)
      → attempt + rest ≡ max_attempts
      → write_in_progress w.sequence ≡ true
      → w.reader ≡ sampling attempt
      → (run layout max_attempts (alone (suc rest)) w).reader ≡ gave_up
  unfolding run step reader_step
  dead_load zero attempt w l odd e =
      let out : ltb attempt max_attempts ≡ false = ground arith in
      ap (λ (r : Reader T). (reader_step layout max_attempts r w).reader) e ∙ rw out refl
  dead_load (suc rest) attempt w l odd e =
      ap
        (λ (r : Reader T).
          (run layout max_attempts (alone (suc rest)) (reader_step layout max_attempts r w)).reader)
        e
      ∙ (ap (λ (w' : World T). (run layout max_attempts (alone (suc rest)) w').reader)
            (sample_odd w attempt (omega arith) odd)
          ∙ dead_load rest (suc attempt) (record w { reader = sampling (suc attempt) })
              (omega arith) odd refl)

  copying_phase :
      (base : ℕ) (p : Writer T) (w : World T) (start index : ℕ) (value : T)
      → InPhase layout base w p
      → p ≡ copying start value index
      → write_in_progress w.sequence ≡ true
  unfolding write_in_progress
  copying_phase base idle w start index value v e = cc
  copying_phase base (marking _ _) w start index value v e = cc
  copying_phase base (copying _ _ _) w start index value (s, _, _, _) e = ground arith

  -- After a writer that died inside a store, `tryLoad` returns false once it has made all its
  -- attempts: it does not hang.
  pub load_dead :
      (base start index : ℕ) (value : T) (w : World T)
      → IsValid layout base w
      → w.writer ≡ copying start value index
      → (run layout max_attempts (alone (max_attempts + 1)) (call_load w)).reader ≡ gave_up
  unfolding run step reader_step call_load
  load_dead base start index value w v q =
      let odd = copying_phase base w.writer w start index value v.phase q in
      ap (λ (k : ℕ). (run layout max_attempts (alone k) (call_load w)).reader)
        (let count : max_attempts + 1 ≡ suc max_attempts = omega arith in count)
      ∙ dead_load max_attempts 0 (call_load w) (omega arith) odd refl
