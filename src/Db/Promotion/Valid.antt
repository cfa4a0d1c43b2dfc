-- ===== src/Db/Promotion/Valid.antt =====
-- The validity of the sequences of all apps, and what a promotion does to it.
use zsequencer.Prelude.{
  ℕ, zero, suc, ◌-◌, ◌≤◌, ◌≡◌, refl, sym, ◌∙◌, Bool, true, false, Option, none, some, List, [], ◌∷◌,
  String, arith, set, length-set, get_elem?, str_eq, Bool-cases, inl, inr,
}
use zsequencer.State.{OperationalState, sequenced, locked, finalized}
use zsequencer.Errors.{ok, Result-cases}
use zsequencer.Dict.{lookup, lookup-insert}
use zsequencer.Network.{Network}
use zsequencer.Batch.{Batch, get_batch_size}
use zsequencer.BatchSequence.{
  BatchSequence, batches_size, get_batch_or_empty, promote, get_last_or_empty,
}
use zsequencer.BatchSequence.Lookup.{get_batch_some}
use zsequencer.BatchSequence.Validity.{IsValid, promote-IsValid}
use zsequencer.BatchSequence.Filter.{filter}
use zsequencer.BatchSequence.Filter.Keep.{filter-IsValid}
use zsequencer.Db.{SignatureData, App, InMemoryDb, app_of, put_app}
use zsequencer.Db.Promotion.Safety.{promote_batches_refused, promote_batches_performs}
use zsequencer.Prelude.Int.{pos}
use zsequencer.Snapshot.{storage_of, get_latest_chunks_start_index}
use zsequencer.Db.Promotion.{
  update_batch, change_at, link_next, signed, promoted_sequence, set_sequence, store_snapshot,
  store_if_large, prune_old_finalized_batches, after_promotion, perform_promotion, promoted_db,
  promoted_first, promote_batches, record_index,
}

-- Every app has a valid sequence.
abbrev pub AppsValid : InMemoryDb → Type 0
AppsValid db =
    (name : String) (app : App)
    → lookup name db.apps ≡ some app
    → IsValid app.operational_batch_sequence

batches_size-set :
    (bs : List Batch) (i : ℕ) (b c : Batch)
    → get_elem? bs i ≡ some b
    → c.body ≡ b.body
    → batches_size (set bs i c) ≡ batches_size bs
unfolding batches_size get_batch_size
batches_size-set [] i b c h e = cc
batches_size-set (x ∷ bs) zero b c h e = ground arith
batches_size-set (x ∷ bs) (suc i) b c h e = omega (arith, batches_size-set bs i b c h e)

get_elem?-get_batch :
    (s : BatchSequence) (i : ℕ) (b : Batch)
    → get_batch_or_empty s i ≡ some b
    → get_elem? s.batches (i - s.index_offset) ≡ some b
unfolding get_batch_or_empty
get_elem?-get_batch s i b h = ground arith

-- Changing a batch in place, its body left, keeps a sequence valid.
pub update_batch-IsValid :
    (s : BatchSequence) (i : ℕ) (f : Batch → Batch)
    → ((b : Batch) → (f b).body ≡ b.body)
    → IsValid s
    → IsValid (update_batch s i f)
unfolding update_batch
update_batch-IsValid s i f same v = go (get_batch_or_empty s i) refl
  where
    go :
        (o : Option Batch)
        → get_batch_or_empty s i ≡ o
        → IsValid (record s { batches = change_at s.batches (i - s.index_offset) o f })
    go none e = v
    go (some b) e =
        let n = length-set s.batches (i - s.index_offset) (f b) in
        record {
          offset_pos = v.offset_pos;
          sized =
              v.sized
              ∙ sym (
                  batches_size-set s.batches (i - s.index_offset) b (f b)
                    (get_elem?-get_batch s i b e) (same b));
          locked_in = rw n v.locked_in;
          finalized_in = rw n v.finalized_in;
          ordered = v.ordered;
        }

index_offset-update_batch :
    (s : BatchSequence) (i : ℕ) (f : Batch → Batch)
    → (update_batch s i f).index_offset ≡ s.index_offset
unfolding update_batch
index_offset-update_batch s i f = refl

body-signed :
    (t : OperationalState) (d : SignatureData) (p : ℕ) (b : Batch) → (signed t d p b).body ≡ b.body
unfolding signed
body-signed sequenced d p b = refl
body-signed locked d p b = refl
body-signed finalized d p b = refl

link_next-IsValid :
    (last : Option ℕ) (i : ℕ) (s : BatchSequence) → IsValid s → IsValid (link_next last i s)
unfolding link_next
link_next-IsValid none i s v = v
link_next-IsValid (some j) i s v =
    update_batch-IsValid s j (λ b. record b { next_index = some i }) (λ b. refl) v

index_offset-link_next :
    (last : Option ℕ) (i : ℕ) (s : BatchSequence)
    → (link_next last i s).index_offset ≡ s.index_offset
unfolding link_next
index_offset-link_next none i s = refl
index_offset-link_next (some j) i s = index_offset-update_batch s j _

promote_updated :
    (s : BatchSequence) (t : OperationalState) (d : SignatureData) (p : ℕ)
    → s.index_offset ≤ d.index
    → IsValid s
    → IsValid (promote (update_batch s d.index (signed t d p)) d.index t)
promote_updated s t d p h v =
    promote-IsValid _ d.index t (rw (index_offset-update_batch s d.index (signed t d p)) h)
      (update_batch-IsValid s d.index (signed t d p) (body-signed t d p) v)

pub promoted_sequence-IsValid :
    (s : BatchSequence) (t : OperationalState) (last : Option ℕ) (d : SignatureData) (p : ℕ)
    → s.index_offset ≤ d.index
    → IsValid s
    → IsValid (promoted_sequence s t last d p)
unfolding promoted_sequence
promoted_sequence-IsValid s sequenced last d p h v = promote_updated s sequenced d p h v
promoted_sequence-IsValid s locked last d p h v = promote_updated s locked d p h v
promoted_sequence-IsValid s finalized last d p h v =
    promote_updated (link_next last d.index s) finalized d p
      (rw (index_offset-link_next last d.index s) h) (link_next-IsValid last d.index s v)

pub app_of_found :
    (db : InMemoryDb) (name : String) (app : App)
    → app_of db name ≡ ok app
    → lookup name db.apps ≡ some app
unfolding app_of
app_of_found db name app h = ground arith

-- An app's sequence replaced by a valid one.
pub set_sequence-AppsValid :
    (db : InMemoryDb) (name : String) (app : App) (s : BatchSequence)
    → AppsValid db
    → IsValid s
    → AppsValid (set_sequence db name app s)
unfolding set_sequence put_app
set_sequence-AppsValid db name app s a v j x e = elim (Bool-cases (str_eq j name)) [
  | inl y ↦
      let z : x ≡ record app { operational_batch_sequence = s } =
        ground
          (arith, lookup-insert name j (record app { operational_batch_sequence = s }) db.apps) in
      rw z v
  | inr y ↦
      a j x (
        ground
          (arith, lookup-insert name j (record app { operational_batch_sequence = s }) db.apps))
]

module _ (net : Network) where
  apps-store_if_large :
      (db : InMemoryDb) (name : String) (only : Bool) (fresh : BatchSequence) (db' : InMemoryDb)
      → store_if_large net db name only fresh ≡ ok db'
      → db'.apps ≡ db.apps
  unfolding store_if_large
  apps-store_if_large db name only fresh db' h = ground arith

  pub apps-store_snapshot :
      (db : InMemoryDb) (name : String) (only : Bool) (db' : InMemoryDb)
      → store_snapshot net db name only ≡ ok db'
      → db'.apps ≡ db.apps
  unfolding store_snapshot
  apps-store_snapshot db name only db' h =
      elim (Result-cases (storage_of db.snapshot_manager name)) [
        | inl (st, e) ↦ elim (Result-cases (app_of db name)) [
          | inl (app, f) ↦ apps-store_if_large db name only _ db' (rw f at (rw e at h))
          | inr (x, f) ↦ absurd (let z = rw f at (rw e at h) in cc)
        ]
        | inr (x, e) ↦ absurd (let z = rw e at h in cc)
      ]

  prune-AppsValid :
      (db : InMemoryDb) (name : String) (db' : InMemoryDb)
      → prune_old_finalized_batches net db name ≡ ok db'
      → AppsValid db
      → AppsValid db'
  unfolding prune_old_finalized_batches
  prune-AppsValid db name db' h a =
      elim (Result-cases
        (get_latest_chunks_start_index db.snapshot_manager name net.remove_chunk_border)) [
          | inl (border, e) ↦ elim (Result-cases (app_of db name)) [
            | inl (app, f) ↦
                let s' =
                  filter app.operational_batch_sequence sequenced none (some (pos border)) none in
                let z : db' ≡ set_sequence db name app s' = ground arith in
                rw z (
                  set_sequence-AppsValid db name app s' a (
                    filter-IsValid app.operational_batch_sequence sequenced none (some (pos border))
                      none (a name app (app_of_found db name app f))))
            | inr (x, f) ↦ absurd (let z = rw f at (rw e at h) in cc)
          ]
          | inr (x, e) ↦ absurd (let z = rw e at h in cc)
        ]

  after_promotion-AppsValid :
      (t : OperationalState) (name : String) (db db' : InMemoryDb)
      → after_promotion net t name db ≡ ok db'
      → AppsValid db
      → AppsValid db'
  unfolding after_promotion
  after_promotion-AppsValid sequenced name db db' h a = let z : db' ≡ db = cc in rw z a
  after_promotion-AppsValid locked name db db' h a = let z : db' ≡ db = cc in rw z a
  after_promotion-AppsValid finalized name db db' h a =
      elim (Result-cases (store_snapshot net db name true)) [
        | inl (stored, e) ↦
            prune-AppsValid stored name db' (rw e at h)
              (rw (apps-store_snapshot db name true stored e) a)
        | inr (x, e) ↦ absurd (let z = rw e at h in cc)
      ]

  perform_promotion-AppsValid :
      (db : InMemoryDb) (name : String) (app : App) (d : SignatureData) (p : ℕ)
      (t : OperationalState) (db' : InMemoryDb)
      → perform_promotion net db name app d p t ≡ ok (true, db')
      → app.operational_batch_sequence.index_offset ≤ d.index
      → IsValid app.operational_batch_sequence
      → AppsValid db
      → AppsValid db'
  unfolding perform_promotion promoted_db
  perform_promotion-AppsValid db name app d p t db' h o v a =
      let last = record_index (get_last_or_empty app.operational_batch_sequence finalized) in
      let first = promoted_first t last d.index db.first_finalized_index in
      let b = promoted_db db name app d p t in
      elim (Result-cases (after_promotion net t name b)) [
        | inl (x, e) ↦
            let z : db' ≡ x = (let y = rw e at h in cc) in
            rw z (
              after_promotion-AppsValid t name b x e (
                set_sequence-AppsValid (record db { first_finalized_index = first }) name app _ a
                  (promoted_sequence-IsValid app.operational_batch_sequence t last d p o v)))
        | inr (x, e) ↦ absurd (let y = rw e at h in cc)
      ]

  -- If the sequences of all apps are valid, they are so after every call of promote_batches
  -- that returns, whether it promotes or refuses, with the snapshot and the pruning that follow
  -- a finalization.
  pub promote_batches-AppsValid :
      (db : InMemoryDb) (name : String) (d : SignatureData) (r : Bool) (db' : InMemoryDb)
      → AppsValid db
      → promote_batches net db name d ≡ ok (r, db')
      → AppsValid db'
  promote_batches-AppsValid db name d false db' a h =
      rw (promote_batches_refused net db name d db' h) a
  promote_batches-AppsValid db name d true db' a h =
      let (t, p, app, b, e, f, g) = promote_batches_performs net db name d db' h in
      let v = a name app (app_of_found db name app e) in
      let (i, j) = get_batch_some app.operational_batch_sequence d.index b f in
      perform_promotion-AppsValid db name app d p t db' g i v a
