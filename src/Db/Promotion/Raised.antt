-- ===== src/Db/Promotion/Raised.antt =====
-- A promotion that raises leaves the sequences of all apps valid.
use zsequencer.Prelude.{
  ℕ, ◌≤◌, ◌≡◌, true, false, Option, none, some, String, Bool-cases, Option-cases, inl, inr,
}
use zsequencer.State.{OperationalState, sequenced, locked, finalized}
use zsequencer.Errors.{ok, Result-cases}
use zsequencer.BatchSequence.{get_last_or_empty, get_or_empty}
use zsequencer.BatchSequence.Lookup.{get_batch_some}
use zsequencer.BatchSequence.Validity.{IsValid}
use zsequencer.Network.{Network}
use zsequencer.Quorum.{is_sync_point_signature_verified}
use zsequencer.Db.{SignatureData, App, InMemoryDb, app_of}
use zsequencer.Db.Promotion.{
  promotion_state, record_index, record_batch, store_snapshot, is_refused, is_target, promoted_db,
  promoted_first, sync_point_of, promote_batches,
}
use zsequencer.Db.Promotion.Safety.{target_found}
use zsequencer.Db.Promotion.Valid.{
  AppsValid, app_of_found, set_sequence-AppsValid, promoted_sequence-IsValid, apps-store_snapshot,
  promote_batches-AppsValid,
}
use zsequencer.Db.Promotion.Outcome.{
  after_raised, target_raised, apply_raised, signature_raised, promotion_raised, promotion_outcome,
}

-- The same as a record.
pub record IsKept (db : InMemoryDb) : Type 0 where
  pub valid : AppsValid db

module _ (net : Network) (name : String) where
  after_raised-AppsValid :
      (t : OperationalState) (db : InMemoryDb) → AppsValid db → IsKept (after_raised net t name db)
  unfolding after_raised
  after_raised-AppsValid sequenced db a = record { valid = a }
  after_raised-AppsValid locked db a = record { valid = a }
  after_raised-AppsValid finalized db a = elim (Result-cases (store_snapshot net db name true)) [
    | inl (stored, e) ↦
        rw (after_raised, e)
          (record { valid = rw (apps-store_snapshot net db name true stored e) a })
    | inr (x, e) ↦ rw (after_raised, e) (record { valid = a })
  ]

  promoted_db-AppsValid :
      (db : InMemoryDb) (app : App) (d : SignatureData) (p : ℕ) (t : OperationalState)
      → app.operational_batch_sequence.index_offset ≤ d.index
      → IsValid app.operational_batch_sequence
      → AppsValid db
      → IsKept (promoted_db db name app d p t)
  unfolding promoted_db
  promoted_db-AppsValid db app d p t o v a =
      let last = record_index (get_last_or_empty app.operational_batch_sequence finalized) in
      let first = promoted_first t last d.index db.first_finalized_index in
      record {
        valid =
            set_sequence-AppsValid (record db { first_finalized_index = first }) name app _ a
              (promoted_sequence-IsValid app.operational_batch_sequence t last d p o v);
      }

  target_raised-AppsValid :
      (db : InMemoryDb) (app : App) (d : SignatureData) (p : ℕ) (t : OperationalState)
      → app_of db name ≡ ok app
      → AppsValid db
      → IsKept (target_raised net db name app d p t)
  unfolding target_raised
  target_raised-AppsValid db app d p t known a =
      let s = app.operational_batch_sequence in
      elim (Result-cases (get_or_empty s d.index)) [
        | inr (x, e) ↦ rw (target_raised, e) (record { valid = a })
        | inl (found, e) ↦ elim (Bool-cases (is_target d (record_batch found))) [
          | inr f ↦ rw (target_raised, e, f) (record { valid = a })
          | inl f ↦
              let (b, g, same) = target_found d s found e f in
              let (i, j) = get_batch_some s d.index b g in
              rw (target_raised, e, f)
                (after_raised-AppsValid t (promoted_db db name app d p t)
                  (promoted_db-AppsValid db app d p t i
                    (a name app (app_of_found db name app known)) a).valid)
        ]
      ]

  apply_raised-AppsValid :
      (db : InMemoryDb) (d : SignatureData) (p : ℕ) (t : OperationalState)
      → AppsValid db
      → IsKept (apply_raised net db name d p t)
  unfolding apply_raised
  apply_raised-AppsValid db d p t a = elim (Result-cases (app_of db name)) [
    | inr (x, e) ↦ rw (apply_raised, e) (record { valid = a })
    | inl (app, e) ↦
        let s = app.operational_batch_sequence in
        elim (Bool-cases (
          is_refused t (record_index (get_last_or_empty s t))
            (record_index (get_last_or_empty s finalized)) d p)) [
              | inl f ↦ rw (apply_raised, e, f) (record { valid = a })
              | inr f ↦ rw (apply_raised, e, f) (target_raised-AppsValid db app d p t e a)
            ]
  ]

  signature_raised-AppsValid :
      (db : InMemoryDb) (d : SignatureData) (p : Option ℕ) (t : OperationalState)
      → AppsValid db
      → IsKept (signature_raised net db name d p t)
  unfolding signature_raised
  signature_raised-AppsValid db d none t a = record { valid = a }
  signature_raised-AppsValid db d (some p) t a =
      elim (Result-cases (is_sync_point_signature_verified net (sync_point_of name d p))) [
        | inr (x, e) ↦ rw (signature_raised, e) (record { valid = a })
        | inl (false, e) ↦ rw (signature_raised, e) (record { valid = a })
        | inl (true, e) ↦ rw (signature_raised, e) (apply_raised-AppsValid db d p t a)
      ]

  pub promotion_raised-AppsValid :
      (db : InMemoryDb) (d : SignatureData) → AppsValid db → IsKept (promotion_raised net db name d)
  unfolding promotion_raised
  promotion_raised-AppsValid db d a = elim (Option-cases (promotion_state d.state)) [
    | inl e ↦ rw (promotion_raised, e) (record { valid = a })
    | inr (t, e) ↦ rw (promotion_raised, e) (signature_raised-AppsValid db d d.parent_index t a)
  ]

  pub promotion_outcome-AppsValid :
      (db : InMemoryDb) (d : SignatureData)
      → AppsValid db
      → IsKept (promotion_outcome net db name d).0
  unfolding promotion_outcome
  promotion_outcome-AppsValid db d a = elim (Result-cases (promote_batches net db name d)) [
    | inr (x, e) ↦ rw (promotion_outcome, e) (promotion_raised-AppsValid db d a)
    | inl ((r, db'), e) ↦
        rw (promotion_outcome, e)
          (record { valid = promote_batches-AppsValid net db name d r db' a e })
  ]
