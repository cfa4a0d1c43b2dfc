-- ===== src/Db/Query.antt =====
-- The readers of the database that combine the chunk files with the memory, and the flags of
-- censored apps (common/db.py).
pub mod Storage
use zsequencer.Prelude.{
  ℕ, zero, suc, ◌+◌, ◌-◌, Bool, true, false, Option, none, some, List, [], ◌∷◌, String, ltb, leb,
  if◌then◌else◌,
}
use zsequencer.Prelude.Int.{pos}
use zsequencer.State.{OperationalState, sequenced, finalized}
use zsequencer.Errors.{Result, ok, err, ◌>>=◌, index_error}
use zsequencer.Dict.{Dict}
use zsequencer.Batch.{BatchRecord}
use zsequencer.BatchSequence
use zsequencer.BatchSequence.{
  BatchSequence, is_empty, get_or_empty, get_last_or_empty, get_last_index_or_default,
  get_first_index_or_default, before_global_index_offset,
}
use zsequencer.BatchSequence.Filter.{filter, truncate_by_size}
use zsequencer.BatchSequence.Extend.{extend}
use zsequencer.Snapshot.{load_batches}
use zsequencer.Db.{App, InMemoryDb, SyncPointData, app_of, put_app}

unfoldable pub get_first_finalized_batch : App → ℕ
get_first_finalized_batch app =
    get_first_index_or_default app.operational_batch_sequence finalized before_global_index_offset

unfoldable pub get_batch_record_by_index_or_empty :
    InMemoryDb → String → ℕ → Result (Option BatchRecord)
get_batch_record_by_index_or_empty db app_name index = do
  app ← app_of db app_name
  get_or_empty app.operational_batch_sequence index

unfoldable pub get_last_operational_batch_record_or_empty :
    InMemoryDb → String → OperationalState → Result (Option BatchRecord)
get_last_operational_batch_record_or_empty db app_name state = do
  app ← app_of db app_name
  ok (get_last_or_empty app.operational_batch_sequence state)

unfoldable pub get_locked_sync_point_or_empty : InMemoryDb → String → Result (Option SyncPointData)
get_locked_sync_point_or_empty db app_name = do app ← app_of db app_name; ok app.locked_sync_point

unfoldable pub get_finalized_sync_point_or_empty :
    InMemoryDb → String → Result (Option SyncPointData)
get_finalized_sync_point_or_empty db app_name = do
  app ← app_of db app_name
  ok app.finalized_sync_point

-- `get_global_operational_batch_sequence`, whose size limit is in bytes.
module _ (db : InMemoryDb) (app_name : String) (app : App) (state : OperationalState)
    (limit : ℕ) where
  -- The part in memory, after what was read from the storage.
  unfoldable pub with_memory : BatchSequence → ℕ → ℕ → Result BatchSequence
  with_memory result remaining after = do
    memory ←
        truncate_by_size (filter app.operational_batch_sequence state none (some (pos after)) none)
          remaining
    if is_empty result.batches then ok memory else extend result memory

  -- The result of a call that has reached the limit in the storage.
  unfoldable pub limited : BatchSequence → Result BatchSequence
  limited result = do
    truncated ← truncate_by_size result limit
    ok (filter truncated state none none none)

  -- One round of the loop loads chunks and joins them to the result.
  unfoldable pub load_round : BatchSequence → ℕ → ℕ → Result BatchSequence
  load_round result remaining after = do
    batches ← load_batches db.snapshot_manager app_name after (some remaining)
    extend result batches

  -- The loop over the storage; it does not end by itself if a round brings nothing, so it runs on
  -- fuel, and gives nothing when that is used up.
  unfoldable pub storage_rounds : ℕ → BatchSequence → ℕ → ℕ → Option (Result BatchSequence)
  unfolding with_memory limited load_round get_first_finalized_batch
  storage_rounds zero result remaining after = none
  storage_rounds (suc fuel) result remaining after =
      elim (ltb (after + 1) (get_first_finalized_batch app)) [
        | false ↦ some (with_memory result remaining after)
        | true ↦ elim (load_round result remaining after) [
          | err e ↦ some (err e)
          | ok next ↦ elim (leb limit next.size) [
            | true ↦ some (limited next)
            | false ↦
                storage_rounds fuel next (limit - next.size)
                  (get_last_index_or_default next sequenced before_global_index_offset)
          ]
        ]
      ]

unfoldable pub rounds_for :
    InMemoryDb → String → OperationalState → ℕ → ℕ → Result App → Option (Result BatchSequence)
unfolding storage_rounds
rounds_for db app_name state limit after (err e) = some (err e)
rounds_for db app_name state limit after (ok app) =
    storage_rounds db app_name app state limit (suc (get_first_finalized_batch app))
      BatchSequence.empty limit after

unfoldable pub get_global_operational_batch_sequence :
    InMemoryDb → String → OperationalState → ℕ → ℕ → Option (Result BatchSequence)
unfolding rounds_for
get_global_operational_batch_sequence db app_name state limit after =
    rounds_for db app_name state limit after (app_of db app_name)

unfoldable pub set_censoring : Bool → InMemoryDb → String → Result InMemoryDb
set_censoring value db app_name = do
  app ← app_of db app_name
  ok (put_app db app_name (record app { is_sequencer_censoring = value }))

unfoldable pub set_sequencer_censoring : InMemoryDb → String → Result InMemoryDb
unfolding set_censoring
set_sequencer_censoring db app_name = set_censoring true db app_name

unfoldable pub clear_sequencer_censoring : InMemoryDb → String → Result InMemoryDb
unfolding set_censoring
clear_sequencer_censoring db app_name = set_censoring false db app_name

-- `any(…)` over the configured apps stops at the first that is censored.
unfoldable pub is_sequencer_censoring : InMemoryDb → List String → Result Bool
is_sequencer_censoring db [] = ok false
is_sequencer_censoring db (app_name ∷ rest) = app_of db app_name >>= λ app.
    elim app.is_sequencer_censoring [ true ↦ ok true | false ↦ is_sequencer_censoring db rest ]

-- The first body of the pool, or `IndexError`.
first_body : List String → Result String
first_body [] = err index_error
first_body (body ∷ rest) = ok body

unfoldable pub censored_bodies : Dict App → Result (Dict String)
unfolding first_body
censored_bodies [] = ok []
censored_bodies ((app_name, app) ∷ rest) =
    let others = censored_bodies rest in
    if app.is_sequencer_censoring
    then (first_body app.initialized_batch_bodies >>= λ body.
        others >>= λ bodies. ok ((app_name, body) ∷ bodies))
    else others

unfoldable pub get_apps_censored_batch_bodies : InMemoryDb → Result (Dict String)
unfolding censored_bodies
get_apps_censored_batch_bodies db = censored_bodies db.apps
