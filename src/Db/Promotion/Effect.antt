-- ===== src/Db/Promotion/Effect.antt =====
-- What a lock leaves behind: the state of the app after `promote_batches` returns true.
use zsequencer.Prelude.{
  ℕ, ◌+◌, ◌-◌, ◌≤◌, ◌<◌, ◌≡◌, refl, sym, ◌∙◌, true, false, Option, none, some, List, String, length,
  length-set, arith, Option-cases, inl, inr,
}
use zsequencer.State.{sequenced, locked, finalized}
use zsequencer.Errors.{ok, ok-eq-ok}
use zsequencer.Network.{Network}
use zsequencer.Batch.{Batch}
use zsequencer.BatchSequence.{
  BatchSequence, get_last_index_or_default, get_last_or_empty, get_batch_or_empty,
}
use zsequencer.BatchSequence.Lookup.{get_batch_some, last-sequenced}
use zsequencer.BatchSequence.Promote.{last-promote}
use zsequencer.BatchSequence.Validity.{IsValid}
use zsequencer.Db.{SignatureData, App, InMemoryDb, app_of}
use zsequencer.Db.Pool.{app_of-put_app}
use zsequencer.Db.Promotion.{
  promote_batches, perform_promotion, promoted_db, promoted_sequence, update_batch, change_at,
  signed, set_sequence, record_index, is_refused,
}
use zsequencer.Db.Promotion.Safety.{promote_batches_lock}

perform_lock :
    (net : Network) (db : InMemoryDb) (name : String) (app : App) (d : SignatureData) (p : ℕ)
    (db' : InMemoryDb)
    → perform_promotion net db name app d p locked ≡ ok (true, db')
    → db' ≡ promoted_db db name app d p locked
unfolding perform_promotion
perform_lock net db name app d p db' h = cc

length-change_at :
    (bs : List Batch) (i : ℕ) (o : Option Batch) (f : Batch → Batch)
    → length (change_at bs i o f) ≡ length bs
unfolding change_at
length-change_at bs i none f = refl
length-change_at bs i (some b) f = length-set bs i (f b)

newer_than_locked :
    (s : BatchSequence) (last_finalized : Option ℕ) (d : SignatureData) (p : ℕ)
    → 1 ≤ d.index
    → is_refused locked (record_index (get_last_or_empty s locked)) last_finalized d p ≡ false
    → get_last_index_or_default s locked 0 < d.index
unfolding is_refused get_last_or_empty get_last_index_or_default
newer_than_locked s last_finalized d p o h = elim (Option-cases s.locked_last_index) [
  | inl e ↦ rw e o
  | inr (i, e) ↦ let h' = rw e at h in rw e (ground arith)
]

up_to_last :
    (s : BatchSequence) (d : SignatureData) (p : ℕ)
    → s.index_offset ≤ d.index
    → d.index < s.index_offset + length s.batches
    → d.index ≤ get_last_index_or_default (update_batch s d.index (signed locked d p)) sequenced 0
unfolding update_batch
up_to_last s d p above below =
    let s' = update_batch s d.index (signed locked d p) in
    let n =
      length-change_at s.batches (d.index - s.index_offset) (get_batch_or_empty s d.index)
        (signed locked d p) in
    let e = last-sequenced s' d.index 0 above (rw n below) in omega (arith, e, n)

-- The last locked and the last finalized index after the batches are locked up to an index.
locked_last :
    (s : BatchSequence) (last_finalized : Option ℕ) (d : SignatureData) (p : ℕ) (b : Batch)
    → IsValid s
    → get_batch_or_empty s d.index ≡ some b
    → get_last_index_or_default s locked 0 < d.index
    → (get_last_index_or_default (promoted_sequence s locked last_finalized d p) locked 0 ≡ d.index)
      × (get_last_index_or_default (promoted_sequence s locked last_finalized d p) finalized 0
          ≡ get_last_index_or_default s finalized 0)
unfolding promoted_sequence update_batch get_last_index_or_default
locked_last s last_finalized d p b v found newer =
    let (above, below) = get_batch_some s d.index b found in
    let s' = update_batch s d.index (signed locked d p) in
    let up_to = up_to_last s d p above below in
    let pos : 1 ≤ d.index = omega (arith, v.offset_pos) in
    let l = last-promote s' d.index locked locked pos up_to in
    let f = last-promote s' d.index locked finalized pos up_to in (omega (arith, l, newer), f)

-- After promote_batches returns true for a signature over sequenced batches of a known app with
-- a valid sequence, the last locked index of the app is the signed index, and its last
-- finalized index is what it was.
pub promote_batches-locks :
    (net : Network) (db : InMemoryDb) (name : String) (app : App) (d : SignatureData)
    (db' : InMemoryDb)
    → app_of db name ≡ ok app
    → IsValid app.operational_batch_sequence
    → d.state ≡ sequenced
    → promote_batches net db name d ≡ ok (true, db')
    → (app' : App) × (app_of db' name ≡ ok app')
      × (get_last_index_or_default app'.operational_batch_sequence locked 0 ≡ d.index)
      × (get_last_index_or_default app'.operational_batch_sequence finalized 0
          ≡ get_last_index_or_default app.operational_batch_sequence finalized 0)
unfolding promoted_db set_sequence
promote_batches-locks net db name app d db' known v s h =
    let (p, x, b, e, found, not_refused, performed) = promote_batches_lock net db name d db' s h in
    let same : x ≡ app = ok-eq-ok (sym e ∙ known) in
    let q = app.operational_batch_sequence in
    let last_finalized = record_index (get_last_or_empty q finalized) in
    let found' = rw same at found in
    let (above, below) = get_batch_some q d.index b found' in
    let newer =
      newer_than_locked q last_finalized d p (omega (arith, v.offset_pos))
        (rw same at not_refused) in
    let (l, f) = locked_last q last_finalized d p b v found' newer in
    let db'≡ = perform_lock net db name app d p db' (rw same at performed) in
    let app' : App = record app {
      operational_batch_sequence = promoted_sequence q locked last_finalized d p;
    } in
    (app', rw db'≡ (app_of-put_app _ name app'), l, f)
