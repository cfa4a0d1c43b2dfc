-- ===== src/Db/Promotion.antt =====
-- Locking and finalizing batches by a signature (common/db.py, `promote_batches` and the snapshot
-- of the finalized batches).
pub mod Safety
pub mod Effect
pub mod Valid
pub mod Outcome
pub mod Raised
use zsequencer.Prelude.{
  ℕ, ◌+◌, Bool, true, false, not, ◌&&◌, ◌||◌, Option, none, some, List, [], ◌∷◌, String, leb, ltb,
  ◌==◌, set, str_eq, ◌-◌, if◌then◌else◌,
}
use zsequencer.Prelude.Int.{ℤ, pos}
use zsequencer.State.{OperationalState, sequenced, locked, finalized}
use zsequencer.Errors.{Result, ok, err, ◌>>=◌, key_error}
use zsequencer.Dict.{Dict, lookup, insert}
use zsequencer.Network.{Network}
use zsequencer.Quorum.{SyncPoint, is_sync_point_signature_verified}
use zsequencer.Batch.{Batch, BatchRecord}
use zsequencer.BatchSequence.{
  BatchSequence, get_last_index_or_default, get_last_or_empty, get_or_empty, promote,
  get_batch_or_empty, before_global_index_offset,
}
use zsequencer.BatchSequence.Filter.{filter}
use zsequencer.Snapshot.{
  Storage, SnapshotManager, storage_of, store_batch_sequence, get_latest_chunks_start_index,
}
use zsequencer.Db.{SignatureData, App, InMemoryDb, app_of, put_app}

-- The state to which a signature promotes: a signature on a sequenced batch locks it, and one on a
-- locked batch finalizes it. Any other is invalid.
unfoldable pub promotion_state : OperationalState → Option OperationalState
promotion_state sequenced = some locked
promotion_state locked = some finalized
promotion_state finalized = none

-- A batch object changed in place; nothing happens if there is no such batch.
change_at : List Batch → ℕ → Option Batch → (Batch → Batch) → List Batch
change_at batches i none f = batches
change_at batches i (some batch) f = set batches i (f batch)

unfoldable pub update_batch : BatchSequence → ℕ → (Batch → Batch) → BatchSequence
unfolding change_at
update_batch s index f = record s {
  batches = change_at s.batches (index - s.index_offset) (get_batch_or_empty s index) f;
}

-- `target_batch.update(…)`
unfoldable pub signed : OperationalState → SignatureData → ℕ → Batch → Batch
signed finalized d parent_index batch = record batch {
  parent_index = some parent_index;
  finalized_signature = some d.signature;
  finalized_nonsigners = some d.nonsigners;
  finalized_tag = some d.tag;
  timestamp = some d.timestamp;
}
signed state d parent_index batch = record batch {
  parent_index = some parent_index;
  locked_signature = some d.signature;
  locked_nonsigners = some d.nonsigners;
  locked_tag = some d.tag;
  timestamp = some d.timestamp;
}

abbrev pub record_index : Option BatchRecord → Option ℕ
record_index none = none
record_index (some r) = some r.index

-- `last_batch_record and signature_data["index"] <= last_batch_record["index"]`
is_old : Option ℕ → ℕ → Bool
is_old none index = false
is_old (some last) index = leb index last

-- `last_finalized_index and signature_data["parent_index"] != last_finalized_index`
has_other_parent : Option ℕ → ℕ → Bool
has_other_parent none parent_index = false
has_other_parent (some last) parent_index = not (last == 0) && not (parent_index == last)

same_index : ℕ → Option ℕ → Bool
same_index locked_index none = false
same_index locked_index (some finalized_index) = locked_index == finalized_index

-- A batch is locked and not yet finalized, and the signature would lock another.
is_lock_pending : OperationalState → Option ℕ → Option ℕ → Bool
unfolding same_index
is_lock_pending locked (some last_locked) last_finalized =
    not (same_index last_locked last_finalized)
is_lock_pending _ last last_finalized = false

-- `.get("batch", {})` of the record at the signed index.
unfoldable pub record_batch : Option BatchRecord → Option Batch
record_batch none = none
record_batch (some r) = r.batch

-- Finalizing links the last finalized batch to the next, or keeps the first finalized index.
link_next : Option ℕ → ℕ → BatchSequence → BatchSequence
link_next none index s = s
link_next (some last) index s =
    update_batch s last (λ batch. record batch { next_index = some index })

first_index : Option ℕ → ℕ → Option ℕ → Option ℕ
first_index none index first = some index
first_index (some last) index first = first

-- The batches and their states after a promotion that passed every check.
unfoldable pub promoted_sequence :
    BatchSequence → OperationalState → Option ℕ → SignatureData → ℕ → BatchSequence
unfolding link_next
promoted_sequence s finalized last_finalized d parent_index =
    promote
      (update_batch (link_next last_finalized d.index s) d.index (signed finalized d parent_index))
      d.index finalized
promoted_sequence s state last_finalized d parent_index =
    promote (update_batch s d.index (signed state d parent_index)) d.index state

unfoldable pub promoted_first : OperationalState → Option ℕ → ℕ → Option ℕ → Option ℕ
unfolding first_index
promoted_first finalized last_finalized index first = first_index last_finalized index first
promoted_first state last_finalized index first = first

-- `self.apps[app_name]["operational_batch_sequence"] = …`
unfoldable pub set_sequence : InMemoryDb → String → App → BatchSequence → InMemoryDb
set_sequence db app_name app s = put_app db app_name (record app { operational_batch_sequence = s })

optional_index : Option ℕ → Option ℤ
optional_index none = none
optional_index (some i) = some (pos i)

store_fresh : InMemoryDb → String → BatchSequence → Result InMemoryDb
store_fresh db app_name fresh = do
  m ← store_batch_sequence db.snapshot_manager app_name fresh
  ok (record db { snapshot_manager = m })

store_if_large : Network → InMemoryDb → String → Bool → BatchSequence → Result InMemoryDb
unfolding store_fresh
store_if_large net db app_name only_if_size_exceeds fresh =
    if only_if_size_exceeds && ltb fresh.size net.snapshot_chunk_size
    then ok db
    else store_fresh db app_name fresh

-- `_store_snapshot`
unfoldable pub store_snapshot : Network → InMemoryDb → String → Bool → Result InMemoryDb
unfolding optional_index store_if_large
store_snapshot net db app_name only_if_size_exceeds = do
  st ← storage_of db.snapshot_manager app_name
  app ← app_of db app_name
  let s = app.operational_batch_sequence
  let last = get_last_index_or_default s finalized before_global_index_offset
  let fresh = filter s sequenced none (optional_index st.last_persisted_index) (some (pos last))
  store_if_large net db app_name only_if_size_exceeds fresh

-- `_prune_old_finalized_batches`
unfoldable pub prune_old_finalized_batches : Network → InMemoryDb → String → Result InMemoryDb
prune_old_finalized_batches net db app_name = do
  border ← get_latest_chunks_start_index db.snapshot_manager app_name net.remove_chunk_border
  app ← app_of db app_name
  ok (
      set_sequence db app_name app
        (filter app.operational_batch_sequence sequenced none (some (pos border)) none))

-- What follows a promotion: only a finalization stores and prunes.
after_promotion : Network → OperationalState → String → InMemoryDb → Result InMemoryDb
after_promotion net finalized app_name db = do
  db' ← store_snapshot net db app_name true
  prune_old_finalized_batches net db' app_name
after_promotion net state app_name db = ok db

-- The checks on a verified signature before the target batch is looked up.
unfoldable pub is_refused : OperationalState → Option ℕ → Option ℕ → SignatureData → ℕ → Bool
unfolding is_old has_other_parent is_lock_pending
is_refused target last last_finalized d parent_index =
    is_old last d.index
    || has_other_parent last_finalized parent_index
    || is_lock_pending target last last_finalized

-- The target batch is there, with the chaining hash that was signed.
unfoldable pub is_target : SignatureData → Option Batch → Bool
is_target d none = false
is_target d (some batch) = str_eq d.chaining_hash batch.chaining_hash

-- The database after the updates of a promotion that passed every check.
unfoldable pub promoted_db :
    InMemoryDb → String → App → SignatureData → ℕ → OperationalState → InMemoryDb
unfolding promoted_first
promoted_db db app_name app d parent_index target =
    let s = app.operational_batch_sequence in
    let last_finalized = record_index (get_last_or_empty s finalized) in
    let s' = promoted_sequence s target last_finalized d parent_index in
    let first = promoted_first target last_finalized d.index db.first_finalized_index in
    set_sequence (record db { first_finalized_index = first }) app_name app s'

-- The updates, and the snapshot and the pruning after a finalization.
unfoldable pub perform_promotion :
    Network
    → InMemoryDb
    → String
    → App
    → SignatureData
    → ℕ
    → OperationalState
    → Result (Bool × InMemoryDb)
unfolding after_promotion
perform_promotion net db app_name app d parent_index target =
    after_promotion net target app_name (promoted_db db app_name app d parent_index target)
    >>= λ db'. ok (true, db')

check_target :
    Network
    → InMemoryDb
    → String
    → App
    → SignatureData
    → ℕ
    → OperationalState
    → Result (Bool × InMemoryDb)
unfolding record_batch
check_target net db app_name app d parent_index target = do
  found ← get_or_empty app.operational_batch_sequence d.index
  if is_target d (record_batch found)
      then perform_promotion net db app_name app d parent_index target
      else ok (false, db)

-- The part of `promote_batches` after the signature is verified.
unfoldable pub apply_promotion :
    Network
    → InMemoryDb
    → String
    → SignatureData
    → ℕ
    → OperationalState
    → Result (Bool × InMemoryDb)
unfolding check_target
apply_promotion net db app_name d parent_index target = do
  app ← app_of db app_name
  let s = app.operational_batch_sequence
  let last = record_index (get_last_or_empty s target)
  let last_finalized = record_index (get_last_or_empty s finalized)
  if is_refused target last last_finalized d parent_index
      then ok (false, db)
      else check_target net db app_name app d parent_index target

abbrev pub sync_point_of : String → SignatureData → ℕ → SyncPoint
sync_point_of app_name d parent_index = record {
  app_name = app_name;
  state = d.state;
  index = d.index;
  chaining_hash = d.chaining_hash;
  tag = d.tag;
  timestamp = d.timestamp;
  parent_index = parent_index;
  signature_hex = d.signature;
  nonsigners = d.nonsigners;
}

-- The part of `promote_batches` after the state is checked.
check_signature :
    Network
    → InMemoryDb
    → String
    → SignatureData
    → Option ℕ
    → OperationalState
    → Result (Bool × InMemoryDb)
unfolding apply_promotion
check_signature net db app_name d none target = err key_error
check_signature net db app_name d (some parent_index) target = do
  verified ← is_sync_point_signature_verified net (sync_point_of app_name d parent_index)
  if verified then apply_promotion net db app_name d parent_index target else ok (false, db)

start_promotion :
    Network
    → InMemoryDb
    → String
    → SignatureData
    → Option OperationalState
    → Result (Bool × InMemoryDb)
unfolding check_signature
start_promotion net db app_name d none = ok (false, db)
start_promotion net db app_name d (some target) =
    check_signature net db app_name d d.parent_index target

unfoldable pub promote_batches :
    Network → InMemoryDb → String → SignatureData → Result (Bool × InMemoryDb)
unfolding start_promotion promotion_state
promote_batches net db app_name d = start_promotion net db app_name d (promotion_state d.state)
