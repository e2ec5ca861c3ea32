-- ===== src/Ipc/Seqlock/Invariant.antt =====
-- What the writer keeps true of the slot in every interleaving: the counter counts the stores, twice
-- each, and between two stores the words are those of the last value.
use safeedge.Common.{
  length-append, ◌^◌, ℕ, zero, suc, ◌+◌, ◌*◌, ◌-◌, ◌≤◌, ◌==◌, ◌<◌, ltb, u64, List, [], ◌∷◌, ◌++◌,
  length, get_or, set, take, length-set, ◌≡◌, refl, sym, ap, ◌∙◌, Bool-cases, inl, inr, arith,
}
use safeedge.Ipc.Seqlock.{
  call_load, ready, sampling, loading, returned, gave_up, write_in_progress, returned, loading,
  write_in_progress, sampling, Layout, IsTriviallyCopyable, Writer, idle, marking, copying, Reader,
  World, word_count, call_store, writer_step, reader_step, generation,
}
use safeedge.Ipc.Seqlock.Steps.{Action, store, write, read, step, run}

-- The stores that have completed.
abbrev pub stores : {T : Type 0} → List T → ℕ
stores published = length published - 1

-- The words are those of the latest value.
pub data Holds {T : Type 0} (layout : Layout T) (words : List ℕ) : List T → Type 0 where
  holds :
      {value : T} {older : List T} → words ≡ layout.stage value → Holds layout words (value ∷ older)

-- The slot in each phase of the writer; the counter was at twice `base` before the first value.
abbrev pub InPhase : {T : Type 0} → Layout T → ℕ → World T → Writer T → Type 0
InPhase layout base w idle =
    (w.sequence ≡ u64 (2 * (base + stores w.published))) × Holds layout w.words w.published
InPhase layout base w (marking start value) =
    (w.sequence ≡ u64 (2 * (base + stores w.published)))
    × Holds layout w.words w.published
    × (start ≡ w.sequence)
InPhase layout base w (copying start value index) =
    (w.sequence ≡ u64 (2 * (base + stores w.published) + 1))
    × (start ≡ u64 (2 * (base + stores w.published)))
    × (index ≤ word_count layout.size)
    × (take index w.words ≡ take index (layout.stage value))

pub record IsValid {T : Type 0} (layout : Layout T) (base : ℕ) (w : World T) : Type 0 where
  pub phase : InPhase layout base w w.writer
  pub length_words : length w.words ≡ word_count layout.size
  pub nonempty : 1 ≤ length w.published

pub take-all {ℓ} : {A : Type ℓ} (n : ℕ) (xs : List A) → length xs ≤ n → take n xs ≡ xs
take-all zero [] h = refl
take-all zero (x ∷ xs) h = absurd (omega arith)
take-all (suc n) [] h = refl
take-all (suc n) (x ∷ xs) h = ap (◌∷◌ x) (take-all n xs (omega arith))

pub take-snoc :
    (n : ℕ) (xs : List ℕ) → n < length xs → take (suc n) xs ≡ take n xs ++ get_or xs n 0 ∷ []
take-snoc n [] h = absurd (omega arith)
take-snoc zero (x ∷ xs) h = refl
take-snoc (suc n) (x ∷ xs) h = ap (◌∷◌ x) (take-snoc n xs (omega arith))

-- Reading one more word.
pub next_word :
    (xs words : List ℕ)
    → length xs < length words
    → xs ≡ take (length xs) words
    → xs ++ get_or words (length xs) 0 ∷ []
      ≡ take (length (xs ++ get_or words (length xs) 0 ∷ [])) words
next_word xs words h e =
    let x = get_or words (length xs) 0 in
    let one_more : length (xs ++ x ∷ []) ≡ suc (length xs) =
      length-append xs (x ∷ []) ∙ omega arith in
    ap (λ (ys : List ℕ). ys ++ x ∷ []) e
    ∙ sym (take-snoc (length xs) words h)
    ∙ ap (λ (n : ℕ). take n words) (sym one_more)

-- Copying one more word.
copy_word :
    (n : ℕ) (xs ys : List ℕ)
    → n < length xs
    → n < length ys
    → take n xs ≡ take n ys
    → take (suc n) (set xs n (get_or ys n 0)) ≡ take (suc n) ys
copy_word n [] ys h k e = absurd (omega arith)
copy_word n (x ∷ xs) [] h k e = absurd (omega arith)
copy_word zero (x ∷ xs) (y ∷ ys) h k e = refl
copy_word (suc n) (x ∷ xs) (y ∷ ys) h k e =
    let heads : x ≡ y = cc in
    let tails : take n xs ≡ take n ys = cc in
    let rest = copy_word n xs ys (omega arith) (omega arith) tails in cc

phase_generation :
    {T : Type 0} (layout : Layout T) (p : Writer T) (w : World T)
    → InPhase layout 0 w p
    → stores w.published < 2 ^ 63
    → generation w.sequence ≡ stores w.published
unfolding generation
phase_generation layout idle w (s, _) h = omega arith
phase_generation layout (marking _ _) w (s, _, _) h = omega arith
phase_generation layout (copying _ _ _) w (s, _, _, _) h = omega arith

module _ {T : Type 0} (layout : Layout T) (copyable : IsTriviallyCopyable layout) (base : ℕ) where
  writer_step-IsValid :
      (p : Writer T) (w : World T)
      → w.writer ≡ p
      → InPhase layout base w p
      → length w.words ≡ word_count layout.size
      → 1 ≤ length w.published
      → IsValid layout base (writer_step layout p w)
  unfolding writer_step
  writer_step-IsValid idle w e (s, h) n k = record {
    phase = rw e (s, h);
    length_words = n;
    nonempty = k;
  }
  writer_step-IsValid (marking start value) w e (s, h, f) n k = record {
    phase = (omega arith, omega arith, omega arith, refl);
    length_words = n;
    nonempty = k;
  }
  writer_step-IsValid (copying start value index) w e (s, f, i, t) n k =
      let full = copyable.length-stage value in
      elim (Bool-cases (ltb index (word_count layout.size))) [
        | inl more ↦ rw more record {
          phase = (
            s,
            f,
            ground arith,
            copy_word index w.words (layout.stage value) (ground arith) (ground arith) t,
          );
          length_words = length-set w.words index (get_or (layout.stage value) index 0) ∙ n;
          nonempty = k;
        }
        | inr done ↦
            let size : index ≡ word_count layout.size = ground arith in
            let all =
              sym (take-all index w.words (omega arith))
              ∙ t
              ∙ take-all index (layout.stage value) (omega arith) in
            rw done
              record { phase = (omega arith, holds all); length_words = n; nonempty = omega arith }
      ]

  call_store-IsValid :
      (value : T) (p : Writer T) (w : World T)
      → w.writer ≡ p
      → InPhase layout base w p
      → length w.words ≡ word_count layout.size
      → 1 ≤ length w.published
      → IsValid layout base (call_store value p w)
  unfolding call_store
  call_store-IsValid value idle w e (s, h) n k = record {
    phase = (s, h, refl);
    length_words = n;
    nonempty = k;
  }
  call_store-IsValid value (marking start other) w e v n k = record {
    phase = rw e v;
    length_words = n;
    nonempty = k;
  }
  call_store-IsValid value (copying start other index) w e v n k = record {
    phase = rw e v;
    length_words = n;
    nonempty = k;
  }

  with_reader :
      (w : World T) (r : Reader T)
      → IsValid layout base w
      → IsValid layout base (record w { reader = r })
  with_reader w r v = record {
    phase = v.phase;
    length_words = v.length_words;
    nonempty = v.nonempty;
  }

  pub call_load-IsValid : (w : World T) → IsValid layout base w → IsValid layout base (call_load w)
  unfolding call_load
  call_load-IsValid w v = with_reader w (sampling 0) v

  -- The reader changes nothing but itself.
  reader_step-IsValid :
      (max_attempts : ℕ) (r : Reader T) (w : World T)
      → IsValid layout base w
      → IsValid layout base (reader_step layout max_attempts r w)
  unfolding reader_step
  reader_step-IsValid m ready w v = v
  reader_step-IsValid m (sampling attempt) w v = elim (Bool-cases (ltb attempt m)) [
    | inl more ↦ elim (Bool-cases (write_in_progress w.sequence)) [
      | inl odd ↦ rw (more, odd) (with_reader w _ v)
      | inr even ↦ rw (more, even) (with_reader w _ v)
    ]
    | inr out ↦ rw out (with_reader w _ v)
  ]
  reader_step-IsValid m (loading attempt before staging) w v =
      elim (Bool-cases (ltb (length staging) (word_count layout.size))) [
        | inl more ↦ rw more (with_reader w _ v)
        | inr done ↦ elim (Bool-cases (w.sequence == before)) [
          | inl same ↦ rw (done, same) (with_reader w _ v)
          | inr other ↦ rw (done, other) (with_reader w _ v)
        ]
      ]
  reader_step-IsValid m (returned out) w v = v
  reader_step-IsValid m gave_up w v = v

  pub step-IsValid :
      (max_attempts : ℕ) (a : Action T) (w : World T)
      → IsValid layout base w
      → IsValid layout base (step layout max_attempts a w)
  unfolding step
  step-IsValid m (store value) w v =
      call_store-IsValid value w.writer w refl v.phase v.length_words v.nonempty
  step-IsValid m write w v = writer_step-IsValid w.writer w refl v.phase v.length_words v.nonempty
  step-IsValid m read w v = reader_step-IsValid m w.reader w v

  -- From a slot in which the counter, the words and the writer agree, every interleaving of calls of
  -- `store`, the accesses of the writer and the accesses of the reader keeps them so: the
  -- counter is twice the number of completed stores, plus one during a store, and the words are those
  -- of the last value stored, or during a store a prefix of the new one.
  pub run-IsValid :
      (max_attempts : ℕ) (schedule : List (Action T)) (w : World T)
      → IsValid layout base w
      → IsValid layout base (run layout max_attempts schedule w)
  unfolding run
  run-IsValid m [] w v = v
  run-IsValid m (a ∷ schedule) w v =
      run-IsValid m schedule (step layout m a w) (step-IsValid m a w v)

-- With fewer than 2 ^ 63 stores since the slot was created, `generation` is the number of stores
-- completed, also while a store is in progress.
pub generation-stores :
    {T : Type 0} (layout : Layout T) (w : World T)
    → IsValid layout 0 w
    → stores w.published < 2 ^ 63
    → generation w.sequence ≡ stores w.published
generation-stores layout w v h = phase_generation layout w.writer w v.phase h
