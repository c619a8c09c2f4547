-- ===== src/Realtime/BatchWriter.antt =====
-- internal/storage/location_batch.go: LocationBatchWriter, which collects the location updates of
-- the event bus and inserts them in batches. `insert` tells whether PostgreSQL took a batch, for
-- the context of the call; the update that an event holds is its argument, `none` where the JSON
-- does not decode.
pub mod Laws
use geo.Base.{
  ℕ, zero, suc, Bool, true, false, Option, none, some, List, [], ◌∷◌, ◌++◌, leb, if◌then◌else◌,
  length,
}
use Prim.Native.Nat.{ℕ, suc}
use geo.Base.Int.{ℤ, pos, negsuc}

-- NewLocationBatchWriter: the batch size and the seconds between two flushes.
pub new_location_batch_writer : ℤ → ℤ → ℕ × ℕ
new_location_batch_writer batch_size flush_sec =
    (positive_or 500 batch_size, positive_or 5 flush_sec)
  where
    positive_or : ℕ → ℤ → ℕ
    positive_or d (pos zero) = d
    positive_or d (pos (suc n)) = suc n
    positive_or d (negsuc n) = d

module _ (State : Type 0) where
  -- What the select of Run receives. `cancel` is no
  -- message: there the context is cancelled, from outside. `closed` is the end of the channel, and
  -- `done` the end of the context, as Run notices it.
  pub data Input : Type 0 where
    location_updated : Option State → Input
    other_event : Input
    tick : Input
    cancel : Input
    closed : Input
    done : Input

  -- `cancelled` says whether the context of Run is cancelled already.
  pub record Writer : Type 0 where
    pub batch : List State
    pub stored : List State
    pub cancelled : Bool
    pub running : Bool

  -- insertBatch on a context; a batch that is not taken is gone.
  pub insert_batch : (Bool → List State → Bool) → Bool → Writer → Writer
  insert_batch insert context w = record w {
    stored = if insert context w.batch then w.stored ++ w.batch else w.stored;
    batch = [];
  }

  -- flush
  pub flush : (Bool → List State → Bool) → Writer → Writer
  unfolding insert_batch
  flush insert w = elim w.batch [ [] ↦ w | s ∷ batch ↦ insert_batch insert w.cancelled w ]

  -- One round of the loop of Run, for a batch size.
  pub step : (Bool → List State → Bool) → ℕ → Writer → Input → Writer
  unfolding flush
  step insert size w (location_updated none) = w
  step insert size w (location_updated (some s)) =
      let w' = record w { batch = w.batch ++ s ∷ [] } in
      if leb size (length w'.batch) then flush insert w' else w'
  step insert size w other_event = w
  step insert size w tick = flush insert w
  step insert size w cancel = record w { cancelled = true }
  step insert size w closed = record (flush insert w) { running = false }
  step insert size w done = elim w.batch [
    | [] ↦ record w { running = false }
    | s ∷ batch ↦ record (insert_batch insert false w) { running = false }
  ]

  pub run : (Bool → List State → Bool) → ℕ → Writer → List Input → Writer
  unfolding step
  run insert size w [] = w
  run insert size w (i ∷ inputs) =
      let next = run insert size (step insert size w i) inputs in if w.running then next else w
