-- ===== src/Realtime/BatchWriter/Laws.antt =====
-- No update is lost or stored twice while the database takes the batches.
use geo.Base.{
  ℕ, ◌≡◌, refl, sym, ap, ◌∙◌, inl, inr, Bool, true, false, none, some, List, [], ◌∷◌, ◌++◌, leb,
  if◌then◌else◌, Bool-cases, if_cases, length, List-cases,
}
use Prim.Native.Nat.{ℕ}
use mathlib.Core.List.{append-nil, List, ◌∷◌, ◌++◌, append_assoc}
use geo.Realtime.BatchWriter.{
  Input, location_updated, other_event, tick, cancel, closed, done, Writer, insert_batch, flush,
  step, run,
}

module _ (State : Type 0) where
  abbrev update_of : Input State → List State
  update_of (location_updated (some s)) = s ∷ []
  update_of _ = []

  -- What was received and decoded, in order.
  abbrev pub updates : List (Input State) → List State
  updates [] = []
  updates (i ∷ inputs) = update_of i ++ updates inputs

  -- The updates that the writer has: stored, or waiting.
  abbrev pub accepted : Writer State → List State
  accepted w = w.stored ++ w.batch

  -- What may wait after one input: with a tick, a full batch of `size`, or the end of the channel or of
  -- the context, nothing may.
  abbrev pub waiting_after : ℕ → List State → Input State → List State
  waiting_after size batch (location_updated (some s)) =
      if leb size (length (batch ++ s ∷ [])) then [] else batch ++ s ∷ []
  waiting_after size batch (location_updated none) = batch
  waiting_after size batch other_event = batch
  waiting_after size batch cancel = batch
  waiting_after size batch tick = []
  waiting_after size batch closed = []
  waiting_after size batch done = []

  -- What may wait when these inputs have come after a batch.
  abbrev pub waiting : ℕ → List State → List (Input State) → List State
  waiting size batch [] = batch
  waiting size batch (i ∷ inputs) = waiting size (waiting_after size batch i) inputs

  module _ (insert : Bool → List State → Bool)
      (takes : (c : Bool) (b : List State) → insert c b ≡ true) (size : ℕ) where
    insert_batch-accepted :
        (c : Bool) (w : Writer State) → accepted (insert_batch State insert c w) ≡ accepted w
    unfolding insert_batch
    insert_batch-accepted c w = rw (takes c w.batch) (append-nil (w.stored ++ w.batch))

    -- What a flush leaves is one of two, by the batch.
    insert_cases-accepted :
        (c : Bool) (b : List State) (w v : Writer State)
        → accepted v ≡ accepted w
        → accepted (elim b [ [] ↦ v | s ∷ l ↦ insert_batch State insert c w ]) ≡ accepted w
    insert_cases-accepted c [] w v same = same
    insert_cases-accepted c (s ∷ l) w v same = insert_batch-accepted c w

    flush-accepted : (w : Writer State) → accepted (flush State insert w) ≡ accepted w
    unfolding flush
    flush-accepted w = insert_cases-accepted w.cancelled w.batch w w refl

    done_cases-accepted :
        (b : List State) (w : Writer State)
        → accepted (elim b [
          | [] ↦ record w { running = false }
          | s ∷ l ↦ record (insert_batch State insert false w) { running = false }
        ])
          ≡ accepted w
    done_cases-accepted [] w = refl
    done_cases-accepted (s ∷ l) w = insert_batch-accepted false w

    step-accepted :
        (w : Writer State) (i : Input State)
        → accepted (step State insert size w i) ≡ accepted w ++ update_of i
    unfolding step
    step-accepted w (location_updated none) = sym (append-nil _)
    step-accepted w (location_updated (some s)) =
        let w' : Writer State = record w { batch = w.batch ++ s ∷ [] } in
        if_cases (λ v. accepted v ≡ accepted w ++ s ∷ []) (leb size (length w'.batch))
          (λ _. flush-accepted w' ∙ sym (append_assoc w.stored w.batch (s ∷ [])))
          (λ _. sym (append_assoc w.stored w.batch (s ∷ [])))
    step-accepted w other_event = sym (append-nil _)
    step-accepted w tick = flush-accepted w ∙ sym (append-nil _)
    step-accepted w cancel = sym (append-nil _)
    step-accepted w closed = flush-accepted w ∙ sym (append-nil _)
    step-accepted w done = done_cases-accepted w.batch w ∙ sym (append-nil _)

    -- The inputs that the loop takes before it ends.
    abbrev pub taken : Writer State → List (Input State) → List (Input State)
    taken w [] = []
    taken w (i ∷ inputs) =
        let rest = taken (step State insert size w i) inputs in if w.running then i ∷ rest else []

    flush-batch : (w : Writer State) → (flush State insert w).batch ≡ []
    unfolding flush insert_batch
    flush-batch w = elim (List-cases w.batch) [
      | inl empty ↦ rw (empty, flush) empty
      | inr (s, b, e) ↦ rw (e, flush) refl
    ]

    step-batch :
        (w : Writer State) (i : Input State)
        → (step State insert size w i).batch ≡ waiting_after size w.batch i
    unfolding step insert_batch
    step-batch w (location_updated none) = refl
    step-batch w (location_updated (some s)) =
        let w' : Writer State = record w { batch = w.batch ++ s ∷ [] } in
        elim (Bool-cases (leb size (length (w.batch ++ s ∷ [])))) [
          | inl full ↦ rw full (flush-batch w')
          | inr room ↦ rw room refl
        ]
    step-batch w other_event = refl
    step-batch w tick = flush-batch w
    step-batch w cancel = refl
    step-batch w closed = flush-batch w
    step-batch w done = elim (List-cases w.batch) [
      | inl empty ↦ rw (empty, step) empty
      | inr (s, b, e) ↦ rw (e, step) refl
    ]

    run-batch :
        (w : Writer State) (inputs : List (Input State))
        → (run State insert size w inputs).batch ≡ waiting size w.batch (taken w inputs)
    unfolding run
    run-batch w [] = refl
    run-batch w (i ∷ inputs) = elim (Bool-cases w.running) [
      | inr over ↦ rw over refl
      | inl on ↦ simp on (
          run-batch (step State insert size w i) inputs
          ∙ ap (λ b. waiting size b (taken (step State insert size w i) inputs)) (step-batch w i))
    ]

    all_accepted :
        (w : Writer State) (inputs : List (Input State))
        → accepted (run State insert size w inputs) ≡ accepted w ++ updates (taken w inputs)
    unfolding run
    all_accepted w [] = sym (append-nil _)
    all_accepted w (i ∷ inputs) =
        let w' = step State insert size w i in
        elim (Bool-cases w.running) [
          | inr over ↦
              ap (λ b. accepted (if b then run State insert size w' inputs else w)) over
              ∙ sym (append-nil _)
              ∙ ap (λ b. accepted w ++ updates (if b then i ∷ taken w' inputs else [])) (sym over)
          | inl on ↦
              ap (λ b. accepted (if b then run State insert size w' inputs else w)) on
              ∙ all_accepted w' inputs
              ∙ ap (λ l. l ++ updates (taken w' inputs)) (step-accepted w i)
              ∙ append_assoc (accepted w) (update_of i) _
              ∙ ap (λ b. accepted w ++ updates (if b then i ∷ taken w' inputs else [])) (sym on)
        ]

    -- While the database takes every batch, what is stored and then what waits are the updates that
    -- were received until Run returned, all of them, once each and in order. Only those wait that came,
    -- or waited before, since the last tick or full batch, and none once the end of the channel or of
    -- the context has made Run return: that comes with a last insert.
    pub run-accepted :
        (w : Writer State) (inputs : List (Input State))
        → (accepted (run State insert size w inputs) ≡ accepted w ++ updates (taken w inputs))
          × ((run State insert size w inputs).batch ≡ waiting size w.batch (taken w inputs))
    run-accepted w inputs = (all_accepted w inputs, run-batch w inputs)

  -- A database that takes nothing on a context that is cancelled: when the channel's end is noticed
  -- before the context's, the updates that wait are not stored.
  pub closed_loses_batch :
      (insert : Bool → List State → Bool) (size : ℕ) (w : Writer State)
      → ((b : List State) → insert true b ≡ false)
      → (step State insert size (step State insert size w cancel) closed).stored ≡ w.stored
  unfolding step flush insert_batch
  closed_loses_batch insert size w refuses = elim (List-cases w.batch) [
    | inl empty ↦ rw (empty, step)
    | inr (s, b, e) ↦ rw (e, step) (rw (refuses (s ∷ b)))
  ]

  -- The other order of the two keeps them.
  pub done_keeps_batch :
      (insert : Bool → List State → Bool) (size : ℕ) (w : Writer State)
      → ((b : List State) → insert false b ≡ true)
      → (step State insert size (step State insert size w cancel) done).stored ≡ accepted w
  unfolding step insert_batch
  done_keeps_batch insert size w takes = elim (List-cases w.batch) [
    | inl empty ↦ rw (empty, step) (sym (append-nil _))
    | inr (s, b, e) ↦ rw (e, step) (rw (takes w.batch) (ap (λ l. w.stored ++ l) e))
  ]
