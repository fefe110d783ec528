-- ===== src/Util/Batcher/Order.antt =====
-- What the batch writer hands over: every item that it had room for, once and in order.
use switchpilot.Prelude.{
  ◌≤◌, ◌≡◌, inl, inr, refl, sym, ap, ◌∙◌, Bool, List, [], ◌∷◌, ◌++◌, append_assoc, append-nil,
  Option, none, some, Bool-cases, leb, length, length-append, arith, if◌then◌else◌,
}
use switchpilot.Util.Batcher.{
  Limits, Batcher, Event, pushed, ticked, settled, created, start_flush, end_flush, flush_now,
  settle, push, handle, run,
}

module _ {ℓ} {A : Type ℓ} where
  abbrev pub concat : List (List A) → List A
  concat [] = []
  concat (xs ∷ xss) = xs ++ concat xss

  -- The items of the pushes that found room, in the order of the events.
  abbrev pub taken : Limits → Event A → Batcher A → List A
  taken limits (pushed item) b = if leb limits.max_buffer (length b.buffer) then [] else item ∷ []
  taken limits ticked b = []
  taken limits (settled ok) b = []

  abbrev pub accepted : Limits → List (Event A) → Batcher A → List A
  accepted limits [] b = []
  accepted limits (e ∷ events) b = taken limits e b ++ accepted limits events (handle limits e b)

  -- What was handed over, and then what waits.
  abbrev pub all_of : Batcher A → List A
  all_of b = concat b.handed ++ b.buffer

  concat-append : (xss : List (List A)) (xs : List A) → concat (xss ++ (xs ∷ [])) ≡ concat xss ++ xs
  concat-append [] xs = append-nil xs
  concat-append (ys ∷ xss) xs =
      ap (λ zs. ys ++ zs) (concat-append xss xs) ∙ sym (append_assoc ys (concat xss) xs)

  all_of-flush_now :
      (b : Batcher A)
      → (all_of (flush_now b) ≡ all_of b) × (length (flush_now b).buffer ≤ length b.buffer)
  unfolding flush_now
  all_of-flush_now b = after_start b.flushing b.buffer refl
    where
      after_start :
          (flight : Option (List A)) (waiting : List A)
          → b.buffer ≡ waiting
          → (all_of (start_flush flight waiting b) ≡ all_of b)
            × (length (start_flush flight waiting b).buffer ≤ length b.buffer)
      after_start (some batch) waiting e = (refl, omega arith)
      after_start none [] e = (refl, omega arith)
      after_start none (x ∷ xs) e = (
        append-nil (concat (b.handed ++ ((x ∷ xs) ∷ [])))
            ∙ concat-append b.handed (x ∷ xs)
            ∙ ap (λ ys. concat b.handed ++ ys) (sym e),
        omega arith,
      )

  all_of-settle :
      (ok : Bool) (b : Batcher A)
      → (all_of (settle ok b) ≡ all_of b) × (length (settle ok b).buffer ≡ length b.buffer)
  unfolding settle
  all_of-settle ok b = after_end b.flushing
    where
      after_end :
          (flight : Option (List A))
          → (all_of (end_flush ok flight b) ≡ all_of b)
            × (length (end_flush ok flight b).buffer ≡ length b.buffer)
      after_end none = (refl, refl)
      after_end (some batch) = (refl, refl)

  -- One event keeps the buffer in its bound and loses or doubles nothing.
  IsKept : Limits → Event A → Batcher A → Type ℓ
  IsKept limits e b =
      (all_of (handle limits e b) ≡ all_of b ++ taken limits e b)
      × (length (handle limits e b).buffer ≤ limits.max_buffer)

  handle-IsKept :
      (limits : Limits) (e : Event A) (b : Batcher A)
      → length b.buffer ≤ limits.max_buffer
      → IsKept limits e b
  unfolding handle IsKept push
  handle-IsKept limits (pushed item) b h =
      elim (Bool-cases (leb limits.max_buffer (length b.buffer))) [
        | inl full ↦ rw full (sym (append-nil (all_of b)), h)
        | inr room ↦
            let more = record b { buffer = b.buffer ++ (item ∷ []) } in
            let longer = length-append b.buffer (item ∷ []) in
            let joined = append_assoc (concat b.handed) b.buffer (item ∷ []) in
            elim (Bool-cases (leb limits.max_batch (length more.buffer))) [
              | inl flushes ↦
                  let (same, shorter) = all_of-flush_now more in
                  rw (room, flushes) (same ∙ sym joined, ground (arith, longer, shorter))
              | inr waits ↦ rw (room, waits) (sym joined, ground (arith, longer))
            ]
      ]
  handle-IsKept limits ticked b h =
      let (same, shorter) = all_of-flush_now b in
      (same ∙ sym (append-nil (all_of b)), omega (arith, shorter))
  handle-IsKept limits (settled ok) b h =
      let (same, equal) = all_of-settle ok b in
      (same ∙ sym (append-nil (all_of b)), omega (arith, equal))

  run_keeps :
      (limits : Limits) (events : List (Event A)) (b : Batcher A)
      → length b.buffer ≤ limits.max_buffer
      → (all_of (run limits events b) ≡ all_of b ++ accepted limits events b)
        × (length (run limits events b).buffer ≤ limits.max_buffer)
  unfolding run IsKept
  run_keeps limits [] b h = (sym (append-nil (all_of b)), h)
  run_keeps limits (e ∷ events) b h =
      let (here, small) = handle-IsKept limits e b h in
      let (rest, bound) = run_keeps limits events (handle limits e b) small in
      (
        rest
            ∙ ap (λ xs. xs ++ accepted limits events (handle limits e b)) here
            ∙ append_assoc (all_of b) (taken limits e b)
                (accepted limits events (handle limits e b)),
        bound,
      )

  -- Whatever the order of pushes, ticks, calls and settlements, and whether flushes fail or not, the
  -- batches handed over and then the buffer hold exactly the items of the pushes that found room,
  -- each once and in order, and the buffer never exceeds its limit.
  pub run_complete :
      (limits : Limits) (events : List (Event A))
      → (concat (run limits events created).handed ++ (run limits events created).buffer
          ≡ accepted limits events created)
        × (length (run limits events created).buffer ≤ limits.max_buffer)
  run_complete limits events = run_keeps limits events created (omega arith)
