-- ===== src/Db/Promotion/Outcome.antt =====
-- What `promote_batches` leaves where it raises: its updates come before the snapshot and the
-- pruning, which may raise (common/db.py).
use zsequencer.Prelude.{ℕ, Bool, true, false, Option, none, some, String, if◌then◌else◌}
use zsequencer.State.{OperationalState, finalized}
use zsequencer.Errors.{Result, ok, err}
use zsequencer.BatchSequence.{get_last_or_empty, get_or_empty}
use zsequencer.Network.{Network}
use zsequencer.Quorum.{is_sync_point_signature_verified}
use zsequencer.Db.{SignatureData, App, InMemoryDb, app_of}
use zsequencer.Db.Promotion.{
  promotion_state, record_index, record_batch, store_snapshot, is_refused, is_target, promoted_db,
  sync_point_of, promote_batches,
}

-- The database where the snapshot or the pruning raises: what was done before is kept.
unfoldable pub after_raised : Network → OperationalState → String → InMemoryDb → InMemoryDb
after_raised net finalized app_name db = elim (store_snapshot net db app_name true) [
  | err e ↦ db
  | ok db' ↦ db'
]
after_raised net state app_name db = db

-- The same for the checks of the target batch, which come before the updates.
unfoldable pub target_raised :
    Network → InMemoryDb → String → App → SignatureData → ℕ → OperationalState → InMemoryDb
unfolding after_raised record_batch
target_raised net db app_name app d parent_index target =
    elim (get_or_empty app.operational_batch_sequence d.index) [
      | err e ↦ db
      | ok found ↦
          if is_target d (record_batch found)
          then after_raised net target app_name (promoted_db db app_name app d parent_index target)
          else db
    ]

unfoldable pub apply_raised :
    Network → InMemoryDb → String → SignatureData → ℕ → OperationalState → InMemoryDb
unfolding target_raised
apply_raised net db app_name d parent_index target = elim (app_of db app_name) [
  | err e ↦ db
  | ok app ↦
      let s = app.operational_batch_sequence in
      let last = record_index (get_last_or_empty s target) in
      let last_finalized = record_index (get_last_or_empty s finalized) in
      if is_refused target last last_finalized d parent_index
      then db
      else target_raised net db app_name app d parent_index target
]

unfoldable pub signature_raised :
    Network → InMemoryDb → String → SignatureData → Option ℕ → OperationalState → InMemoryDb
unfolding apply_raised
signature_raised net db app_name d none target = db
signature_raised net db app_name d (some parent_index) target =
    elim (is_sync_point_signature_verified net (sync_point_of app_name d parent_index)) [
      | err e ↦ db
      | ok false ↦ db
      | ok true ↦ apply_raised net db app_name d parent_index target
    ]

-- The database that `promote_batches` leaves where it raises.
unfoldable pub promotion_raised : Network → InMemoryDb → String → SignatureData → InMemoryDb
unfolding signature_raised
promotion_raised net db app_name d = elim (promotion_state d.state) [
  | none ↦ db
  | some target ↦ signature_raised net db app_name d d.parent_index target
]

-- `promote_batches` with the database that it leaves, also where it raises.
unfoldable pub promotion_outcome :
    Network → InMemoryDb → String → SignatureData → InMemoryDb × Result Bool
unfolding promotion_raised
promotion_outcome net db app_name d = elim (promote_batches net db app_name d) [
  | err e ↦ (promotion_raised net db app_name d, err e)
  | ok (promoted, db') ↦ (db', ok promoted)
]
