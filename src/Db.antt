-- ===== src/Db.antt =====
-- The in-memory database of a node (common/db.py): its state, the pool of batch bodies that wait
-- to be sequenced, and the chain of sequenced batches. The other methods are in the modules below.
pub mod Pool
pub mod Chain
pub mod Promotion
pub mod Latency
pub mod Query
pub mod Startup
pub mod Valid
use Prim.Native.String.{◌++◌ as append_text}
use zsequencer.Prelude.{
  ℕ, ◌+◌, Bool, true, false, Option, none, some, List, [], ◌∷◌, ◌++◌, String, leb, ltb, map,
  if◌then◌else◌,
}
use zsequencer.State.{OperationalState, sequenced}
use zsequencer.Errors.{Result, ok, err, ◌>>=◌, key_error}
use zsequencer.Dict.{Dict, lookup, insert}
use zsequencer.Batch.{Batch, BatchRecord, get_utf8_size}
use zsequencer.BatchSequence.{BatchSequence, append, get_last_or_empty}
use zsequencer.Snapshot.{SnapshotManager}

-- What a node last reported to the sequencer.
pub record NodeState : Type 0 where
  pub node_id : String
  pub sequenced_index : ℕ
  pub sequenced_chaining_hash : String
  pub locked_index : ℕ
  pub locked_chaining_hash : String
  pub update_timestamp : ℕ

-- `SignatureData`; the peer synchronisation of the node passes one with no parent index.
pub record SignatureData : Type 0 where
  pub state : OperationalState
  pub index : ℕ
  pub chaining_hash : String
  pub signature : String
  pub nonsigners : List String
  pub tag : ℕ
  pub timestamp : ℕ
  pub parent_index : Option ℕ

-- What is kept of a `SignatureData` as a sync point of an app.
pub record SyncPointData : Type 0 where
  pub index : ℕ
  pub chaining_hash : String
  pub signature : String
  pub nonsigners : List String
  pub tag : ℕ

-- A `TimestampedIndex` of the latency queue.
pub record TimestampedIndex : Type 0 where
  pub time : ℕ
  pub index : ℕ

-- The two sync points stand in the dict of the nodes' states under keys of their own.
pub record App : Type 0 where
  pub nodes_state : Dict NodeState
  pub locked_sync_point : Option SyncPointData
  pub finalized_sync_point : Option SyncPointData
  pub initialized_batch_bodies : List String
  pub operational_batch_sequence : BatchSequence
  pub is_sequencer_censoring : Bool
  pub latency_tracking_queue : List TimestampedIndex

-- `first_finalized_index` is one for all apps.
pub record InMemoryDb : Type 0 where
  pub apps : Dict App
  pub snapshot_manager : SnapshotManager
  pub is_sequencer_down : Bool
  pub first_finalized_index : Option ℕ

-- `self.apps[app_name]`, or `KeyError`.
app_or_raise : Option App → Result App
app_or_raise none = err key_error
app_or_raise (some app) = ok app

unfoldable pub app_of : InMemoryDb → String → Result App
unfolding app_or_raise
app_of db app_name = app_or_raise (lookup app_name db.apps)

-- The database with an app's entry changed in place.
unfoldable pub put_app : InMemoryDb → String → App → InMemoryDb
put_app db app_name app = record db { apps = insert app_name app db.apps }

-- The loop of `pop_limited_initialized_batch_bodies`: the bodies taken and those left.
unfoldable pub pop_limited : ℕ → ℕ → List String → List String × List String
pop_limited max_size total [] = ([], [])
pop_limited max_size total (body ∷ rest) =
    let (taken, left) = pop_limited max_size (total + get_utf8_size body) rest in
    if ltb max_size (total + get_utf8_size body) then ([], body ∷ rest) else (body ∷ taken, left)

unfoldable pub pop_limited_initialized_batch_bodies :
    InMemoryDb → String → ℕ → Result (List String × InMemoryDb)
unfolding pop_limited
pop_limited_initialized_batch_bodies db app_name max_size = do
  app ← app_of db app_name
  let popped = pop_limited max_size 0 app.initialized_batch_bodies
  ok (popped.0, put_app db app_name (record app { initialized_batch_bodies = popped.1 }))

unfoldable pub init_batch_bodies : InMemoryDb → String → List String → Result InMemoryDb
init_batch_bodies db app_name [] = ok db
init_batch_bodies db app_name (body ∷ bodies) = do
  app ← app_of db app_name
  let pool = app.initialized_batch_bodies ++ body ∷ bodies
  ok (put_app db app_name (record app { initialized_batch_bodies = pool }))

-- `deque.extendleft` pushes the items one by one, so the last one comes first.
unfoldable pub extend_left {ℓ} : {A : Type ℓ} → List A → List A → List A
extend_left queue [] = queue
extend_left queue (x ∷ xs) = extend_left (x ∷ queue) xs

unfoldable pub reinit_missed_batch_bodies : InMemoryDb → String → List String → Result InMemoryDb
unfolding extend_left
reinit_missed_batch_bodies db app_name batch_bodies = do
  app ← app_of db app_name
  let pool = extend_left app.initialized_batch_bodies batch_bodies
  ok (put_app db app_name (record app { initialized_batch_bodies = pool }))

unfoldable pub clear_initialized_batch_bodies : InMemoryDb → String → Result InMemoryDb
clear_initialized_batch_bodies db app_name = do
  app ← app_of db app_name
  ok (put_app db app_name (record app { initialized_batch_bodies = [] }))

-- The batch that the two initializers append.
abbrev pub new_batch : String → String → Batch
new_batch body chaining_hash = record {
  body = body;
  chaining_hash = chaining_hash;
  parent_index = none;
  next_index = none;
  timestamp = none;
  locked_signature = none;
  locked_nonsigners = none;
  locked_tag = none;
  finalized_signature = none;
  finalized_nonsigners = none;
  finalized_tag = none;
}

-- `.get_last_or_empty().get("batch", {}).get("chaining_hash", "")`
hash_of_batch : Option Batch → String
hash_of_batch none = ""
hash_of_batch (some batch) = batch.chaining_hash

unfoldable pub hash_of_record : Option BatchRecord → String
unfolding hash_of_batch
hash_of_record none = ""
hash_of_record (some r) = hash_of_batch r.batch

unfoldable pub last_chaining_hash : BatchSequence → String
unfolding hash_of_record get_last_or_empty
last_chaining_hash s = hash_of_record (get_last_or_empty s sequenced)

module _ (gen_hash : String → String) where
  -- The loop of `sequencer_init_batch_bodies`.
  unfoldable pub sequence_bodies : BatchSequence → String → List String → BatchSequence
  sequence_bodies s chaining_hash [] = s
  sequence_bodies s chaining_hash (body ∷ rest) =
      let batch_hash = gen_hash body in
      let next_hash = gen_hash (append_text chaining_hash batch_hash) in
      sequence_bodies (append s (new_batch body next_hash)).0 next_hash rest

  unfoldable pub sequencer_init_batch_bodies : InMemoryDb → String → List String → Result InMemoryDb
  unfolding sequence_bodies last_chaining_hash
  sequencer_init_batch_bodies db app_name [] = ok db
  sequencer_init_batch_bodies db app_name (body ∷ bodies) = do
    app ← app_of db app_name
    let s = app.operational_batch_sequence
    let s' = sequence_bodies s (last_chaining_hash s) (body ∷ bodies)
    ok (put_app db app_name (record app { operational_batch_sequence = s' }))

  -- The loop of `insert_sequenced_batch_bodies`.
  unfoldable pub insert_bodies : BatchSequence → String → List String → BatchSequence
  insert_bodies s chaining_hash [] = s
  insert_bodies s chaining_hash (body ∷ rest) =
      let next_hash = gen_hash (append_text chaining_hash (gen_hash body)) in
      insert_bodies (append s (new_batch body next_hash)).0 next_hash rest

  unfoldable pub insert_sequenced_batch_bodies :
      InMemoryDb → String → List String → Result InMemoryDb
  unfolding insert_bodies last_chaining_hash
  insert_sequenced_batch_bodies db app_name [] = ok db
  insert_sequenced_batch_bodies db app_name (body ∷ bodies) = do
    app ← app_of db app_name
    let s = app.operational_batch_sequence
    let s' = insert_bodies s (last_chaining_hash s) (body ∷ bodies)
    ok (put_app db app_name (record app { operational_batch_sequence = s' }))
