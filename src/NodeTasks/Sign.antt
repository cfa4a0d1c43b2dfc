-- ===== src/NodeTasks/Sign.antt =====
-- The signing of a sync point that the sequencer asks for (`sign_sync_point` of node/tasks.py).
pub mod Checks
use zsequencer.Prelude.{
  ℕ, ◌+◌, Bool, true, false, not, ◌&&◌, ◌||◌, ◌==◌, Option, none, some, String, ltb, leb, str_eq,
  if◌then◌else◌,
}
use zsequencer.State.{
  State, state_of_name, OperationalState, sequenced, locked, finalized, operational,
  is_state_before_or_equal,
}
use zsequencer.Errors.{
  Result, ok, err, ◌>>=◌, raise_if, invalid_request, http_error, type_error, key_error, value_error,
}
use zsequencer.Batch.{Batch, BatchRecord}
use zsequencer.Network.{Network}
use zsequencer.Db.{InMemoryDb}
use zsequencer.Db.Query.{
  get_last_operational_batch_record_or_empty, get_batch_record_by_index_or_empty,
}

-- `SignSyncPointRequest`; the state is any text.
pub record SignSyncPointRequest : Type 0 where
  pub app_name : String
  pub state : String
  pub index : ℕ
  pub parent_index : ℕ
  pub chaining_hash : String
  pub timestamp : ℕ

unfoldable pub is_locked : String → Bool
is_locked state = str_eq state "locked"

-- A point on locked batches has a time within 10 seconds of the clock; any other has the time 0.
unfoldable pub check_timestamp : ℕ → SignSyncPointRequest → Result (Unit {0})
unfolding is_locked
check_timestamp now p = elim (is_locked p.state) [
  | true ↦ raise_if invalid_request (not (ltb now (p.timestamp + 10) && ltb p.timestamp (now + 10)))
  | false ↦ raise_if invalid_request (not (p.timestamp == 0))
]

-- `last_finalized_batch["timestamp"] > timestamp`, where a missing key raises.
unfoldable pub is_later : Option ℕ → ℕ → Result Bool
is_later none timestamp = err key_error
is_later (some last) timestamp = ok (ltb timestamp last)

unfoldable pub check_increasing : SignSyncPointRequest → Batch → Result (Unit {0})
unfolding is_later
check_increasing p last = elim (is_locked p.state) [
  | true ↦ is_later last.timestamp p.timestamp >>= λ later. raise_if invalid_request later
  | false ↦ ok tt
]

check_last_batch : SignSyncPointRequest → ℕ → Option Batch → Result (Unit {0})
unfolding check_increasing
check_last_batch p last_index none = ok tt
check_last_batch p last_index (some batch) =
    check_increasing p batch >>= λ u. raise_if invalid_request (not (p.parent_index == last_index))

-- The checks against the last finalized batch, if there is one.
unfoldable pub check_parent : SignSyncPointRequest → Option BatchRecord → Result (Unit {0})
unfolding check_last_batch
check_parent p none = ok tt
check_parent p (some r) = check_last_batch p r.index r.batch

has_hash : String → Option Batch → Bool
has_hash chaining_hash none = false
has_hash chaining_hash (some batch) = str_eq batch.chaining_hash chaining_hash

-- The record at the index has the chaining hash and has reached the state.
unfoldable pub is_at_point : SignSyncPointRequest → State → BatchRecord → Bool
unfolding has_hash
is_at_point p base_state r =
    has_hash p.chaining_hash r.batch
    && is_state_before_or_equal base_state (operational r.state)
    && (r.index == p.index)

-- The last check. Where there is no record, the text of the warning reads its state, which raises;
-- a text that names no state raises in the comparison, here or in the warning.
unfoldable pub check_point : SignSyncPointRequest → Option BatchRecord → Result (Unit {0})
unfolding is_at_point state_of_name
check_point p none = err key_error
check_point p (some r) = elim (state_of_name p.state) [
  | none ↦ err value_error
  | some base_state ↦ raise_if invalid_request (not (is_at_point p base_state r))
]

module _ (net : Network) (bls_sign : String → String) where
  unfoldable pub sync_point_hash : SignSyncPointRequest → String
  sync_point_hash p =
      net.gen_hash
        (net.sync_point_json p.app_name p.state p.index p.chaining_hash p.timestamp p.parent_index)

  unfoldable pub sign_sync_point : InMemoryDb → ℕ → SignSyncPointRequest → Result String
  unfolding check_timestamp check_parent check_point sync_point_hash
  sign_sync_point db now p = do
    timely ← check_timestamp now p
    last ← get_last_operational_batch_record_or_empty db p.app_name finalized
    follows ← check_parent p last
    found ← get_batch_record_by_index_or_empty db p.app_name p.index
    matches ← check_point p found
    ok (bls_sign (sync_point_hash p))
