-- ===== src/Ipc/Seqlock/Snapshot.antt =====
-- A load returns one of the values that were stable in the slot while it ran, never a mixture.
use safeedge.Common.{
  ◌==◌, [], length-append, ◌∙◌, sym, ◌^◌, ℕ, suc, ◌+◌, ◌*◌, ◌≤◌, ◌<◌, ltb, u64, List, ◌∷◌, length,
  get_or, set, take, ◌≡◌, refl, ap, subst, Bool-cases, inl, inr, arith, Bool, true, false,
}
use safeedge.Ipc.Seqlock.{
  call_load, call_store, reader_step, IsTriviallyCopyable, Layout, Writer, idle, marking, copying,
  Reader, ready, sampling, loading, returned, gave_up, World, word_count, call_store, writer_step,
  write_in_progress,
}
use safeedge.Ipc.Seqlock.Steps.{
  Action, store, write, read, step, run, store, run, step, Action, latest, Recent, earlier,
}
use safeedge.Ipc.Seqlock.Invariant.{
  next_word, step-IsValid, call_load-IsValid, take-all, IsValid, holds, stores, Holds, InPhase,
}

-- The words are not being written.
abbrev is_stable : {T : Type 0} → Writer T → Bool
is_stable idle = true
is_stable (marking _ _) = true
is_stable (copying _ _ _) = false

-- What a load has got so far: it sampled the counter after `k` stores, and as long as nothing has
-- been written since, its words are a prefix of the slot's.
abbrev InLoad : {T : Type 0} → Layout T → ℕ → ℕ → List T → List ℕ → Bool → Reader T → Type 0
InLoad layout base floor published words stable ready = Unit
InLoad layout base floor published words stable (sampling attempt) = Unit
InLoad layout base floor published words stable (loading attempt before staging) =
    (k : ℕ) × (before ≡ u64 (2 * (base + k)))
    × (floor ≤ suc k)
    × (k ≤ stores published)
    × (length staging ≤ word_count layout.size)
    × (k ≡ stores published → stable ≡ true → staging ≡ take (length staging) words)
InLoad layout base floor published words stable (returned out) = Recent floor out published
InLoad layout base floor published words stable gave_up = Unit

writer_step-published :
    {T : Type 0} (layout : Layout T) (p : Writer T) (w : World T)
    → length w.published ≤ length (writer_step layout p w).published
unfolding writer_step
writer_step-published layout p w = ground arith

call_store-published :
    {T : Type 0} (value : T) (p : Writer T) (w : World T)
    → length w.published ≤ length (call_store value p w).published
unfolding call_store
call_store-published value p w = ground arith

reader_step-published :
    {T : Type 0} (layout : Layout T) (max_attempts : ℕ) (r : Reader T) (w : World T)
    → length w.published ≤ length (reader_step layout max_attempts r w).published
unfolding reader_step
reader_step-published layout max_attempts r w = ground arith

step-published :
    {T : Type 0} (layout : Layout T) (max_attempts : ℕ) (a : Action T) (w : World T)
    → length w.published ≤ length (step layout max_attempts a w).published
unfolding step
step-published layout m (store value) w = call_store-published value w.writer w
step-published layout m write w = writer_step-published layout w.writer w
step-published layout m read w = reader_step-published layout m w.reader w

run-published :
    {T : Type 0} (layout : Layout T) (max_attempts : ℕ) (schedule : List (Action T)) (w : World T)
    → length w.published ≤ length (run layout max_attempts schedule w).published
unfolding run
run-published layout m [] w = omega arith
run-published layout m (a ∷ schedule) w =
    omega (arith, step-published layout m a w, run-published layout m schedule (step layout m a w))

module _ {T : Type 0} (layout : Layout T) (base floor : ℕ) where
  -- A step of the writer that completes no store.
  same_values :
      (vs : List T) (xs ys : List ℕ) (s t : Bool) (r : Reader T)
      → (t ≡ true → (s ≡ true) × (xs ≡ ys))
      → InLoad layout base floor vs xs s r
      → InLoad layout base floor vs ys t r
  same_values vs xs ys s t ready c i = i
  same_values vs xs ys s t (sampling attempt) c i = i
  same_values vs xs ys s t (loading attempt before staging) c (k, b, f, l, n, p) = (
    k,
    b,
    f,
    l,
    n,
    λ e q. subst (λ (zs : List ℕ). staging ≡ take (length staging) zs) (c q).1 (p e (c q).0),
  )
  same_values vs xs ys s t (returned out) c i = i
  same_values vs xs ys s t gave_up c i = i

  -- One that does.
  newer_value :
      (value : T) (vs : List T) (xs : List ℕ) (s t : Bool) (r : Reader T)
      → 1 ≤ length vs
      → InLoad layout base floor vs xs s r
      → InLoad layout base floor (value ∷ vs) xs t r
  newer_value value vs xs s t ready n i = i
  newer_value value vs xs s t (sampling attempt) n i = i
  newer_value value vs xs s t (loading attempt before staging) n (k, b, f, l, m, p) =
      (k, b, f, omega arith, m, λ e q. absurd (omega arith))
  newer_value value vs xs s t (returned out) n i = earlier i
  newer_value value vs xs s t gave_up n i = i

  abbrev Loads : World T → Reader T → Type 0
  Loads w r = InLoad layout base floor w.published w.words (is_stable w.writer) r

  writer_step-InLoad :
      (p : Writer T) (w : World T)
      → w.writer ≡ p
      → 1 ≤ length w.published
      → Loads w w.reader
      → Loads (writer_step layout p w) (writer_step layout p w).reader
  unfolding writer_step
  writer_step-InLoad idle w e n i = i
  writer_step-InLoad (marking start value) w e n i =
      same_values w.published w.words w.words (is_stable w.writer) false w.reader (λ q. cc) i
  writer_step-InLoad (copying start value index) w e n i =
      elim (Bool-cases (ltb index (word_count layout.size))) [
        | inl more ↦ rw more (
            same_values w.published w.words
              (set w.words index (get_or (layout.stage value) index 0)) (is_stable w.writer) false
              w.reader (λ q. cc) i)
        | inr done ↦
            rw done (newer_value value w.published w.words (is_stable w.writer) true w.reader n i)
      ]

  call_store-InLoad :
      (value : T) (p : Writer T) (w : World T)
      → w.writer ≡ p
      → Loads w w.reader
      → Loads (call_store value p w) (call_store value p w).reader
  unfolding call_store
  call_store-InLoad value idle w e i =
      same_values w.published w.words w.words (is_stable w.writer) true w.reader
        (λ q. (ap is_stable e, refl)) i
  call_store-InLoad value (marking start other) w e i = i
  call_store-InLoad value (copying start other index) w e i = i

  -- The counter at the end of an attempt: equal only if nothing was written in between.
  same_counter :
      (p : Writer T) (w : World T) (k : ℕ)
      → InPhase layout base w p
      → w.sequence ≡ u64 (2 * (base + k))
      → k ≤ stores w.published
      → stores w.published < k + 2 ^ 63
      → (k ≡ stores w.published) × (is_stable p ≡ true) × Holds layout w.words w.published
  same_counter idle w k (s, h) e l b = (omega arith, refl, h)
  same_counter (marking start value) w k (s, h, f) e l b = (omega arith, refl, h)
  same_counter (copying start value index) w k (s, f, i, t) e l b = absurd (omega arith)

  -- The counter at the beginning of an attempt.
  even_counter :
      (p : Writer T) (w : World T)
      → InPhase layout base w p
      → write_in_progress w.sequence ≡ false
      → w.sequence ≡ u64 (2 * (base + stores w.published))
  unfolding write_in_progress
  even_counter idle w (s, h) e = s
  even_counter (marking start value) w (s, h, f) e = s
  even_counter (copying start value index) w (s, f, i, t) e = absurd (ground arith)

  Holds-Recent :
      (words : List ℕ) (vs : List T) (out : T)
      → IsTriviallyCopyable layout
      → floor ≤ length vs
      → Holds layout words vs
      → out ≡ layout.unstage words
      → Recent floor out vs
  Holds-Recent words vs out c f (holds {value} {older} e) o =
      subst (λ (v : T). Recent floor v (value ∷ older))
        (sym (o ∙ ap layout.unstage e ∙ c.unstage-stage value)) (latest f)

  module _ (copyable : IsTriviallyCopyable layout) (max_attempts : ℕ) where
    reader_step-InLoad :
        (r : Reader T) (w : World T)
        → w.reader ≡ r
        → IsValid layout base w
        → floor ≤ length w.published
        → length w.published < floor + 2 ^ 63
        → Loads w r
        → Loads (reader_step layout max_attempts r w) (reader_step layout max_attempts r w).reader
    unfolding reader_step
    reader_step-InLoad ready w e v f b i = rw e i
    reader_step-InLoad (sampling attempt) w e v f b i =
        elim (Bool-cases (ltb attempt max_attempts)) [
          | inl more ↦ elim (Bool-cases (write_in_progress w.sequence)) [
            | inl odd ↦ rw (more, odd) tt
            | inr even ↦
                let n = v.nonempty in
                rw (more, even)
                  (
                    stores w.published,
                    even_counter w.writer w v.phase even,
                    omega arith,
                    omega arith,
                    omega arith,
                    λ _ _. refl,
                  )
          ]
          | inr out ↦ rw out tt
        ]
    reader_step-InLoad (loading attempt before staging) w e v f b (k, s, fk, l, n, p) =
        elim (Bool-cases (ltb (length staging) (word_count layout.size))) [
          | inl more ↦ rw more (
            k,
            s,
            fk,
            l,
            ground (arith, length-append staging (get_or w.words (length staging) 0 ∷ [])),
            λ q t. next_word staging w.words (ground (arith, v.length_words)) (p q t),
          )
          | inr done ↦ elim (Bool-cases (w.sequence == before)) [
            | inl same ↦
                let m = v.nonempty in
                let (q, t, h) =
                  same_counter w.writer w k v.phase (ground (arith, s)) l (omega arith) in
                rw (done, same)
                  (Holds-Recent w.words w.published (layout.unstage staging) copyable f h (
                    ap layout.unstage
                      (p q t ∙ take-all (length staging) w.words (ground (arith, v.length_words)))))
            | inr other ↦ rw (done, other) tt
          ]
        ]
    reader_step-InLoad (returned out) w e v f b i = rw e i
    reader_step-InLoad gave_up w e v f b i = rw e tt

    step-InLoad :
        (a : Action T) (w : World T)
        → IsValid layout base w
        → floor ≤ length w.published
        → length w.published < floor + 2 ^ 63
        → Loads w w.reader
        → Loads (step layout max_attempts a w) (step layout max_attempts a w).reader
    unfolding step
    step-InLoad (store value) w v f b i = call_store-InLoad value w.writer w refl i
    step-InLoad write w v f b i = writer_step-InLoad w.writer w refl v.nonempty i
    step-InLoad read w v f b i = reader_step-InLoad w.reader w refl v f b i

    run-InLoad :
        (schedule : List (Action T)) (w : World T)
        → IsValid layout base w
        → floor ≤ length w.published
        → length (run layout max_attempts schedule w).published < floor + 2 ^ 63
        → Loads w w.reader
        → Loads (run layout max_attempts schedule w) (run layout max_attempts schedule w).reader
    unfolding run
    run-InLoad [] w v f b i = i
    run-InLoad (a ∷ schedule) w v f b i =
        let w' = step layout max_attempts a w in
        let here = step-published layout max_attempts a w in
        let later = run-published layout max_attempts schedule w' in
        run-InLoad schedule w' (step-IsValid layout copyable base max_attempts a w v) (omega arith)
          b (step-InLoad a w v f (omega arith) i)

-- A `tryLoad` that returns true gives a value that was stable in the slot at some time since the
-- call, in every interleaving with any number of calls of `store` below 2 ^ 63: no mixture of two
-- values, and none older than the last one stored before the call.
pub load-Recent :
    {T : Type 0} (layout : Layout T) (copyable : IsTriviallyCopyable layout) (base max_attempts : ℕ)
    (schedule : List (Action T)) (w : World T) (out : T)
    → IsValid layout base w
    → length (run layout max_attempts schedule (call_load w)).published
      < length w.published + 2 ^ 63
    → (run layout max_attempts schedule (call_load w)).reader ≡ returned out
    → Recent (length w.published) out (run layout max_attempts schedule (call_load w)).published
unfolding call_load
load-Recent layout copyable base max_attempts schedule w out v b e =
    let start = call_load w in
    let w' = run layout max_attempts schedule start in
    subst
      (λ (r : Reader _).
        InLoad layout base (length w.published) w'.published w'.words (is_stable w'.writer) r)
      e
      (run-InLoad layout base (length w.published) copyable max_attempts schedule start
        (call_load-IsValid layout copyable base w v) (omega arith) b tt)
