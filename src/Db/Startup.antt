-- ===== src/Db/Startup.antt =====
-- The start and the end of a node's database, and the arrival of new apps (common/db.py). The disk
-- of an app and the chunk files that it lists are arguments.
use zsequencer.Prelude.{ℕ, false, none, some, List, [], ◌∷◌, String}
use zsequencer.Errors.{Result, ok, ◌>>=◌}
use zsequencer.Dict.{Dict, lookup, insert}
use zsequencer.BatchSequence
use zsequencer.BatchSequence.{BatchSequence}
use zsequencer.Network.{Network}
use zsequencer.Snapshot.{Storage, SnapshotManager, initialize_app_storage, load_latest_chunks}
use zsequencer.Db.{App, InMemoryDb}
use zsequencer.Db.Promotion.{store_snapshot}

-- The entry of an app with the batches that were loaded for it.
unfoldable pub fresh_app : BatchSequence → App
fresh_app s = record {
  nodes_state = [];
  locked_sync_point = none;
  finalized_sync_point = none;
  initialized_batch_bodies = [];
  operational_batch_sequence = s;
  is_sequencer_censoring = false;
  latency_tracking_queue = [];
}

module _ (disk_of : String → Storage) (files_of : String → List ℕ) where
  unfoldable pub initialize_storage : SnapshotManager → String → Result SnapshotManager
  initialize_storage m app_name = do
    st ← initialize_app_storage (disk_of app_name) (files_of app_name)
    ok (insert app_name st m)

  -- `SnapshotManager.initialize`
  unfoldable pub initialize_storages : SnapshotManager → List String → Result SnapshotManager
  unfolding initialize_storage
  initialize_storages m [] = ok m
  initialize_storages m (app_name ∷ rest) =
      initialize_storage m app_name >>= λ m'. initialize_storages m' rest

  -- One name of the loop of `fetch_apps`: the entry of an app, and the storage of a new one.
  unfoldable pub fetch_app : InMemoryDb → String → Result InMemoryDb
  unfolding fresh_app initialize_storage
  fetch_app db app_name = elim (lookup app_name db.apps) [
    | some app ↦ ok db
    | none ↦ initialize_storage db.snapshot_manager app_name >>= λ m. ok (record db {
      apps = insert app_name (fresh_app BatchSequence.empty) db.apps;
      snapshot_manager = m;
    })
  ]

  unfoldable pub fetch_apps : InMemoryDb → List String → Result InMemoryDb
  unfolding fetch_app
  fetch_apps db [] = ok db
  fetch_apps db (app_name ∷ rest) = fetch_app db app_name >>= λ db'. fetch_apps db' rest

-- `_load_finalized_batches_for_all_apps`
unfoldable pub load_finalized_batches : ℕ → SnapshotManager → List String → Result (Dict App)
unfolding fresh_app
load_finalized_batches border m [] = ok []
load_finalized_batches border m (app_name ∷ rest) = load_latest_chunks m app_name border >>= λ s.
    load_finalized_batches border m rest >>= λ apps. ok ((app_name, fresh_app s) ∷ apps)

unfoldable pub initialize :
    (String → Storage) → (String → List ℕ) → ℕ → InMemoryDb → List String → Result InMemoryDb
unfolding initialize_storages load_finalized_batches
initialize disk_of files_of border db app_names = do
  m ← initialize_storages disk_of files_of db.snapshot_manager app_names
  apps ← load_finalized_batches border m app_names
  ok (record db { apps = apps; snapshot_manager = m })

-- The loop of `shutdown`, which stores what is finalized whatever its size.
unfoldable pub store_all : Network → InMemoryDb → Dict App → Result InMemoryDb
store_all net db [] = ok db
store_all net db ((app_name, app) ∷ rest) =
    store_snapshot net db app_name false >>= λ db'. store_all net db' rest

unfoldable pub shutdown : Network → InMemoryDb → Result InMemoryDb
unfolding store_all
shutdown net db = store_all net db db.apps
