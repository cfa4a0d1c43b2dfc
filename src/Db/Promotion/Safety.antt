-- ===== src/Db/Promotion/Safety.antt =====
-- When `promote_batches` promotes, and what it does not touch.
use zsequencer.Prelude.{
  ℕ, ◌≤◌, ◌<◌, ◌≡◌, refl, Bool, true, false, Option, none, some, String, arith, eq_iff, inl, inr,
}
use zsequencer.State.{sequenced, OperationalState, locked, finalized}
use zsequencer.Errors.{ok, Result-cases}
use zsequencer.Network.{Network}
use zsequencer.Quorum.{is_sync_point_signature_verified}
use zsequencer.Batch.{Batch, BatchRecord}
use zsequencer.BatchSequence.{
  BatchSequence, get_last_or_empty, get_or_empty, get_batch_or_empty, with_state,
}
use zsequencer.Db.{SignatureData, App, InMemoryDb, app_of}
use zsequencer.Db.Promotion.{
  promotion_state, record_index, is_refused, is_target, perform_promotion, check_target,
  apply_promotion, check_signature, start_promotion, promote_batches, sync_point_of, record_batch,
}

module _ (net : Network) (db : InMemoryDb) (app_name : String) (d : SignatureData) where
  perform_true :
      (app : App) (p : ℕ) (t : OperationalState) (r : Bool) (db' : InMemoryDb)
      → perform_promotion net db app_name app d p t ≡ ok (r, db')
      → r ≡ true
  unfolding perform_promotion
  perform_true app p t r db' h = ground arith

  check_target-false :
      (app : App) (p : ℕ) (t : OperationalState) (db' : InMemoryDb)
      → check_target net db app_name app d p t ≡ ok (false, db')
      → db' ≡ db
  unfolding check_target
  check_target-false app p t db' h = ground (arith, perform_true app p t false db')

  apply_promotion-false :
      (p : ℕ) (t : OperationalState) (db' : InMemoryDb)
      → apply_promotion net db app_name d p t ≡ ok (false, db')
      → db' ≡ db
  unfolding apply_promotion
  apply_promotion-false p t db' h = elim (Result-cases (app_of db app_name)) [
    | inl (app, e) ↦ ground (arith, check_target-false app p t db', e)
    | inr (x, e) ↦ ground arith
  ]

  check_signature-false :
      (p : Option ℕ) (t : OperationalState) (db' : InMemoryDb)
      → check_signature net db app_name d p t ≡ ok (false, db')
      → db' ≡ db
  unfolding check_signature
  check_signature-false none t db' h = cc
  check_signature-false (some p) t db' h = ground (arith, apply_promotion-false p t db')

  start_promotion-false :
      (t : Option OperationalState) (db' : InMemoryDb)
      → start_promotion net db app_name d t ≡ ok (false, db')
      → db' ≡ db
  unfolding start_promotion
  start_promotion-false none db' h = cc
  start_promotion-false (some t) db' h = check_signature-false d.parent_index t db' h

-- A promotion that is refused changes nothing in the database.
pub promote_batches_refused :
    (net : Network) (db : InMemoryDb) (app_name : String) (d : SignatureData) (db' : InMemoryDb)
    → promote_batches net db app_name d ≡ ok (false, db')
    → db' ≡ db
unfolding promote_batches
promote_batches_refused net db app_name d db' h =
    start_promotion-false net db app_name d (promotion_state d.state) db' h

-- What a promotion rests on: a verified signature with its parent, and a batch at the signed index
-- with the signed chaining hash, after every batch promoted so far, whose parent is the last
-- finalized batch; a batch is locked only when the locked one before it is finalized.
pub record IsJustified (net : Network) (db : InMemoryDb) (app_name : String) (d : SignatureData)
    : Type 0 where
  pub target : OperationalState
  pub parent : ℕ
  pub app : App
  pub batch : Batch
  pub promotes : promotion_state d.state ≡ some target
  pub has_parent : d.parent_index ≡ some parent
  pub verified : is_sync_point_signature_verified net (sync_point_of app_name d parent) ≡ ok true
  pub has_app : app_of db app_name ≡ ok app
  pub found : get_batch_or_empty app.operational_batch_sequence d.index ≡ some batch
  pub same_hash : d.chaining_hash ≡ batch.chaining_hash
  pub newer :
      (i : ℕ)
      → record_index (get_last_or_empty app.operational_batch_sequence target) ≡ some i
      → i < d.index
  pub follows :
      (i : ℕ)
      → record_index (get_last_or_empty app.operational_batch_sequence finalized) ≡ some i
      → 1 ≤ i
      → parent ≡ i
  pub none_pending :
      (i : ℕ)
      → target ≡ locked
      → record_index (get_last_or_empty app.operational_batch_sequence locked) ≡ some i
      → record_index (get_last_or_empty app.operational_batch_sequence finalized) ≡ some i

module _ (d : SignatureData) where
  pub target_found :
      (s : BatchSequence) (found : Option BatchRecord)
      → get_or_empty s d.index ≡ ok found
      → is_target d (record_batch found) ≡ true
      → (b : Batch) × (get_batch_or_empty s d.index ≡ some b) × (d.chaining_hash ≡ b.chaining_hash)
  unfolding get_or_empty
  target_found s found h k = go (get_batch_or_empty s d.index) h
    where
      go :
          (o : Option Batch)
          → with_state s d.index o ≡ ok found
          → (b : Batch) × (o ≡ some b) × (d.chaining_hash ≡ b.chaining_hash)
      go none e = absurd (unfold with_state is_target record_batch in ground arith)
      go (some b) e = (
        b,
        refl,
        unfold with_state is_target record_batch in
            ground (arith, eq_iff d.chaining_hash b.chaining_hash),
      )

  not_refused :
      (t : OperationalState) (last last_finalized : Option ℕ) (p : ℕ)
      → is_refused t last last_finalized d p ≡ false
      → ((i : ℕ) → last ≡ some i → i < d.index)
        × ((i : ℕ) → last_finalized ≡ some i → 1 ≤ i → p ≡ i)
        × ((i : ℕ) → t ≡ locked → last ≡ some i → last_finalized ≡ some i)
  unfolding is_refused
  not_refused t last last_finalized p h =
      ((λ i e. ground arith), (λ i e k. ground arith), (λ i x e. ground arith))

module _ (net : Network) (db : InMemoryDb) (app_name : String) (d : SignatureData) where
  check_target-true :
      (app : App) (p : ℕ) (t : OperationalState) (db' : InMemoryDb)
      → check_target net db app_name app d p t ≡ ok (true, db')
      → (found : Option BatchRecord) × (get_or_empty app.operational_batch_sequence d.index
          ≡ ok found)
        × (is_target d (record_batch found) ≡ true)
        × (perform_promotion net db app_name app d p t ≡ ok (true, db'))
  unfolding check_target
  check_target-true app p t db' h =
      elim (Result-cases (get_or_empty app.operational_batch_sequence d.index)) [
        | inl (found, e) ↦ (found, e, ground arith, ground arith)
        | inr (x, e) ↦ absurd (ground arith)
      ]

  apply_promotion-true :
      (p : ℕ) (t : OperationalState) (db' : InMemoryDb)
      → apply_promotion net db app_name d p t ≡ ok (true, db')
      → (app : App) × (app_of db app_name ≡ ok app)
        × (is_refused t
              (record_index (get_last_or_empty app.operational_batch_sequence t))
              (record_index (get_last_or_empty app.operational_batch_sequence finalized))
              d
              p
            ≡ false)
        × (check_target net db app_name app d p t ≡ ok (true, db'))
  unfolding apply_promotion
  apply_promotion-true p t db' h = elim (Result-cases (app_of db app_name)) [
    | inl (app, e) ↦ (app, e, ground arith, ground arith)
    | inr (x, e) ↦ absurd (ground arith)
  ]

  -- A call that promotes has come through the state, the parent and the signature.
  Verified : InMemoryDb → Option OperationalState → Option ℕ → Type 0
  Verified db' promotes parent =
      (t : OperationalState) × (p : ℕ) × (promotes ≡ some t)
      × (parent ≡ some p)
      × (is_sync_point_signature_verified net (sync_point_of app_name d p) ≡ ok true)
      × (apply_promotion net db app_name d p t ≡ ok (true, db'))

  check_signature-true :
      (p : Option ℕ) (t : OperationalState) (db' : InMemoryDb)
      → check_signature net db app_name d p t ≡ ok (true, db')
      → Verified db' (some t) p
  unfolding check_signature Verified
  check_signature-true none t db' h = absurd (cc)
  check_signature-true (some p) t db' h =
      elim (Result-cases (is_sync_point_signature_verified net (sync_point_of app_name d p))) [
        | inl (true, e) ↦ (t, p, refl, refl, e, ground arith)
        | inl (false, e) ↦ absurd (ground arith)
        | inr (x, e) ↦ absurd (ground arith)
      ]

  start_promotion-true :
      (t : Option OperationalState) (db' : InMemoryDb)
      → start_promotion net db app_name d t ≡ ok (true, db')
      → Verified db' t d.parent_index
  unfolding start_promotion
  start_promotion-true none db' h = absurd (cc)
  start_promotion-true (some t) db' h = check_signature-true d.parent_index t db' h

  -- A promotion that is performed rests on a verified signature with its parent index, and on a
  -- batch at the signed index with the signed chaining hash, above the last index of the target
  -- state, with the last finalized index as its parent if there is one, and not locked while
  -- another lock is pending.
  pub promote_batches-IsJustified :
      (db' : InMemoryDb)
      → promote_batches net db app_name d ≡ ok (true, db')
      → IsJustified net db app_name d
  unfolding promote_batches Verified
  promote_batches-IsJustified db' h =
      let (t, p, x, y, z, w) = start_promotion-true (promotion_state d.state) db' h in
      let (app, a, b, c) = apply_promotion-true p t db' w in
      let (found, e, f, g) = check_target-true app p t db' c in
      let (batch, i, j) = target_found d app.operational_batch_sequence found e f in
      let (k, l, m) =
        not_refused d t (record_index (get_last_or_empty app.operational_batch_sequence t))
          (record_index (get_last_or_empty app.operational_batch_sequence finalized)) p b in
      record {
        target = t;
        parent = p;
        app = app;
        batch = batch;
        promotes = x;
        has_parent = y;
        verified = z;
        has_app = a;
        found = i;
        same_hash = j;
        newer = k;
        follows = l;
        none_pending = λ n q r. m n q (rw q r);
      }

  lock_of :
      (t : OperationalState) → d.state ≡ sequenced → promotion_state d.state ≡ some t → t ≡ locked
  unfolding promotion_state
  lock_of t s e = let e' = rw s at e in cc

  -- The updates that a promotion performs, at a batch of the app.
  pub promote_batches_performs :
      (db' : InMemoryDb)
      → promote_batches net db app_name d ≡ ok (true, db')
      → (t : OperationalState) × (p : ℕ) × (app : App) × (b : Batch) × (app_of db app_name ≡ ok app)
        × (get_batch_or_empty app.operational_batch_sequence d.index ≡ some b)
        × (perform_promotion net db app_name app d p t ≡ ok (true, db'))
  unfolding promote_batches Verified
  promote_batches_performs db' h =
      let (t, p, x, y, z, w) = start_promotion-true (promotion_state d.state) db' h in
      let (app, a, b, c) = apply_promotion-true p t db' w in
      let (found, e, f, g) = check_target-true app p t db' c in
      let (batch, i, j) = target_found d app.operational_batch_sequence found e f in
      (t, p, app, batch, a, i, g)

  -- What is performed on a signature over sequenced batches is a lock, of a newer index.
  pub promote_batches_lock :
      (db' : InMemoryDb)
      → d.state ≡ sequenced
      → promote_batches net db app_name d ≡ ok (true, db')
      → (p : ℕ) × (app : App) × (b : Batch) × (app_of db app_name ≡ ok app)
        × (get_batch_or_empty app.operational_batch_sequence d.index ≡ some b)
        × (is_refused locked
              (record_index (get_last_or_empty app.operational_batch_sequence locked))
              (record_index (get_last_or_empty app.operational_batch_sequence finalized))
              d
              p
            ≡ false)
        × (perform_promotion net db app_name app d p locked ≡ ok (true, db'))
  unfolding promote_batches Verified
  promote_batches_lock db' s h =
      let (t, p, x, y, z, w) = start_promotion-true (promotion_state d.state) db' h in
      let is_locked : t ≡ locked = lock_of t s x in
      let w' = rw is_locked at w in
      let (app, a, b, c) = apply_promotion-true p locked db' w' in
      let (found, e, f, g) = check_target-true app p locked db' c in
      let (batch, i, j) = target_found d app.operational_batch_sequence found e f in
      (p, app, batch, a, i, b, g)
