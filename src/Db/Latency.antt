-- ===== src/Db/Latency.antt =====
-- The tracking of slow batches, and the return of the batches that are not locked to the pool when
-- the sequencer changes (the end of common/db.py).
pub mod Switch
pub mod Queue
use zsequencer.Prelude.{
  ℕ, ◌+◌, Bool, true, false, Option, none, some, List, [], ◌∷◌, ◌++◌, String, leb, ltb, map, ◌||◌,
  if◌then◌else◌,
}
use zsequencer.Prelude.Int.{pos}
use zsequencer.State.{OperationalState, sequenced, locked, finalized}
use zsequencer.Errors.{Result, ok, err, ◌>>=◌}
use zsequencer.Dict.{Dict}
use zsequencer.Batch.{Batch}
use zsequencer.BatchSequence.{BatchSequence, get_last_index_or_default}
use zsequencer.BatchSequence.Filter.{filter}
use zsequencer.Db.{TimestampedIndex, App, InMemoryDb, app_of, put_app}

-- `queue[-1][1] < last_index`, or no queue.
unfoldable pub is_above_last : ℕ → List TimestampedIndex → Bool
is_above_last last_index [] = true
is_above_last last_index (t ∷ []) = ltb t.index last_index
is_above_last last_index (t ∷ u ∷ queue) = is_above_last last_index (u ∷ queue)

-- The loop that takes the indices up to `last_index` off the queue.
unfoldable pub pop_up_to : ℕ → List TimestampedIndex → List TimestampedIndex
pop_up_to last_index [] = []
pop_up_to last_index (t ∷ queue) =
    let rest = pop_up_to last_index queue in if leb t.index last_index then rest else t ∷ queue

-- The queue of an app after `track_sequencing_indices`.
unfoldable pub tracked : OperationalState → ℕ → ℕ → List TimestampedIndex → List TimestampedIndex
tracked sequenced last_index current_time queue =
    if is_above_last last_index queue
    then queue ++ record { time = current_time; index = last_index } ∷ []
    else queue
tracked state last_index current_time queue = pop_up_to last_index queue

unfoldable pub track_sequencing_indices :
    InMemoryDb → String → OperationalState → ℕ → ℕ → Result InMemoryDb
unfolding tracked
track_sequencing_indices db app_name state last_index current_time = do
  app ← app_of db app_name
  let queue = tracked state last_index current_time app.latency_tracking_queue
  ok (put_app db app_name (record app { latency_tracking_queue = queue }))

-- `queue[0][0] < current_time - border`, with the border moved to the other side.
unfoldable pub is_delayed : ℕ → ℕ → List TimestampedIndex → Bool
is_delayed border current_time [] = false
is_delayed border current_time (t ∷ queue) = ltb (t.time + border) current_time

-- The loop of `has_delayed_batches` over the apps.
unfoldable pub any_delayed : ℕ → ℕ → Dict App → Bool
unfolding is_delayed
any_delayed border current_time [] = false
any_delayed border current_time ((app_name, app) ∷ apps) =
    if is_delayed border current_time app.latency_tracking_queue
    then true
    else any_delayed border current_time apps

unfoldable pub has_delayed_batches : ℕ → ℕ → InMemoryDb → Bool
unfolding any_delayed
has_delayed_batches border current_time db = any_delayed border current_time db.apps

-- What `reset_latency_queue` leaves in the queue.
unfoldable pub reset_queue : BatchSequence → ℕ → List TimestampedIndex
unfolding tracked
reset_queue s current_time =
    let last_index = get_last_index_or_default s sequenced 0 in
    if ltb (get_last_index_or_default s finalized 0) last_index
    then tracked sequenced last_index current_time []
    else []

unfoldable pub reset_latency_queue : InMemoryDb → String → ℕ → Result InMemoryDb
unfolding reset_queue
reset_latency_queue db app_name current_time = do
  app ← app_of db app_name
  let queue = reset_queue app.operational_batch_sequence current_time
  ok (put_app db app_name (record app { latency_tracking_queue = queue }))

-- The app after `reinitialize_sequenced_batches`.
unfoldable pub reinitialized : App → App
reinitialized app =
    let s = app.operational_batch_sequence in
    let last_locked_index = pos (get_last_index_or_default s locked 0) in
    let unlocked = filter s sequenced none (some last_locked_index) none in
    record app {
      initialized_batch_bodies = app.initialized_batch_bodies ++ map (λ b. b.body) unlocked.batches;
      operational_batch_sequence = filter s sequenced none none (some last_locked_index);
    }

unfoldable pub reinitialize_sequenced_batches : InMemoryDb → String → Result InMemoryDb
unfolding reinitialized
reinitialize_sequenced_batches db app_name = do
  app ← app_of db app_name
  ok (put_app db app_name (reinitialized app))
