-- ===== src/Switch/Sync/Valid.antt =====
-- The sync with the locks of the network leaves the sequences of all apps valid.
use zsequencer.Prelude.{
  ℕ, zero, suc, ◌+◌, ◌-◌, ◌≡◌, refl, Bool, true, false, Option, none, some, List, [], ◌∷◌, String,
  leb, Bool-cases, Option-cases, inl, inr,
}
use zsequencer.State.{locked}
use zsequencer.Errors.{ok, err, ◌>>=◌, >>=-eq-ok, Result-cases}
use zsequencer.Dict.{Dict}
use zsequencer.Network.{Network}
use zsequencer.Config.{Config}
use zsequencer.Quorum.{is_sync_point_signature_verified}
use zsequencer.Db.{SignatureData, InMemoryDb, insert_sequenced_batch_bodies}
use zsequencer.Db.Promotion.Valid.{AppsValid}
use zsequencer.Db.Promotion.Outcome.{promotion_outcome}
use zsequencer.Db.Promotion.Raised.{promotion_outcome-AppsValid}
use zsequencer.Db.Valid.{reinitialize-AppsValid, insert_sequenced-AppsValid}
use zsequencer.Db.Latency.{reinitialize_sequenced_batches}
use zsequencer.Db.Query.{get_last_operational_batch_record_or_empty}
use zsequencer.NodeTasks.{index_or_before}
use zsequencer.Switch.Sync.{
  Lock, LastLockedBatchEntry, PeerAnswer, no_page, page, Outcome, done, more, claimed_point,
  target_signature, page_length, promote_all, promote_page, after_page, sync_page, sync_pages,
  known_node, sync_with_peer_node, sync_entries, sync_app_with_locks, sync_with_latest_locks,
}

-- The database that is left has valid sequences.
pub record LeavesValid {V : Type 0} (o : Outcome V) : Type 0 where
  pub kept : AppsValid o.0

-- What a call within the fuel leaves.
abbrev LeavesValidIfSome : {V : Type 0} → Option (Outcome V) → Type 0
LeavesValidIfSome {V = V} r = (o : Outcome V) → r ≡ some o → LeavesValid o

some-LeavesValid :
    {V : Type 0} {o o' : Outcome V} → LeavesValid o → some o ≡ some o' → LeavesValid o'
some-LeavesValid {o = o} {o' = o'} k e = let same : o ≡ o' = cc in rw same at k

none-LeavesValid : {V : Type 0} {o' : Outcome V} → none ≡ some o' → LeavesValid o'
none-LeavesValid e = absurd cc

module _ (net : Network) (name : String) where
  promote_all-LeavesValid :
      (ds : List SignatureData) (db : InMemoryDb)
      → AppsValid db
      → LeavesValid (promote_all net name ds db)
  unfolding promote_all
  promote_all-LeavesValid [] db a = record { kept = a }
  promote_all-LeavesValid (d ∷ ds) db a =
      let k = promotion_outcome-AppsValid net name db d a in
      elim (Result-cases (promotion_outcome net db name d).1) [
        | inr (x, e) ↦ rw (promote_all, e) (record { kept = k.valid })
        | inl (false, e) ↦ rw (promote_all, e) (record { kept = k.valid })
        | inl (true, e) ↦ rw (promote_all, e) (promote_all-LeavesValid ds _ k.valid)
      ]

  module _ (entry : LastLockedBatchEntry) (lock : Lock) where
    after_page-LeavesValid :
        (after last : ℕ) (o : Outcome Bool)
        → LeavesValid o
        → LeavesValid (after_page net name entry lock after last o)
    unfolding after_page
    after_page-LeavesValid after last (db, err e) k = record { kept = k.kept }
    after_page-LeavesValid after last (db, ok false) k = record { kept = k.kept }
    after_page-LeavesValid after last (db, ok true) k = record { kept = k.kept }

    promote_page-LeavesValid :
        (last : ℕ) (ds : List SignatureData) (db : InMemoryDb)
        → AppsValid db
        → LeavesValid (promote_page net name entry lock last ds db)
    unfolding promote_page
    promote_page-LeavesValid last ds db a = elim (Bool-cases (leb entry.index last)) [
      | inl x ↦ rw x (promote_all-LeavesValid (target_signature entry lock ∷ ds) db a)
      | inr x ↦ rw x (promote_all-LeavesValid ds db a)
    ]

    sync_page-LeavesValid :
        (answer : PeerAnswer) (after : ℕ) (db : InMemoryDb)
        → AppsValid db
        → LeavesValid (sync_page net name entry lock answer after db)
    unfolding sync_page
    sync_page-LeavesValid no_page after db a = record { kept = a }
    sync_page-LeavesValid (page [] ds) after db a = record { kept = a }
    sync_page-LeavesValid (page (b ∷ bs) ds) after db a =
        elim (Result-cases (insert_sequenced_batch_bodies net.gen_hash db name (b ∷ bs))) [
          | inr (x, e) ↦ rw (e, sync_page) (record { kept = a })
          | inl (db1, e) ↦
              rw (e, sync_page)
                (after_page-LeavesValid after _ _ (
                  promote_page-LeavesValid _ ds db1
                    (insert_sequenced-AppsValid db name net.gen_hash (b ∷ bs) db1 e a)))
        ]

    sync_pages-LeavesValid :
        (answers : ℕ → PeerAnswer) (fuel after : ℕ) (db : InMemoryDb)
        → AppsValid db
        → LeavesValidIfSome (sync_pages net name entry lock answers fuel after db)
    unfolding sync_pages
    sync_pages-LeavesValid answers zero after db a o h = none-LeavesValid h
    sync_pages-LeavesValid answers (suc fuel) after db a o h =
        let k = sync_page-LeavesValid (answers after) after db a in
        elim (Result-cases (sync_page net name entry lock (answers after) after db).1) [
          | inr (x, e) ↦ some-LeavesValid (record { kept = k.kept }) (rw (sync_pages, e) at h)
          | inl (done r, e) ↦ some-LeavesValid (record { kept = k.kept }) (rw (sync_pages, e) at h)
          | inl (more, e) ↦
              sync_pages-LeavesValid answers fuel (after + page_length (answers after)) _ k.kept o
                (rw (sync_pages, e) at h)
        ]

  module _ (c : Config net.Key) (answers : String → ℕ → PeerAnswer) where
    sync_with_peer_node-LeavesValid :
        (entry : LastLockedBatchEntry) (lock : Lock) (self_last : ℕ) (db : InMemoryDb)
        → AppsValid db
        → LeavesValidIfSome (sync_with_peer_node net name c answers entry lock self_last db)
    unfolding sync_with_peer_node
    sync_with_peer_node-LeavesValid entry lock self_last db a o h =
        let start = known_node net name c answers entry.node_id >>= λ node.
        reinitialize_sequenced_batches db name in
        elim (Result-cases start) [
          | inr (x, e) ↦ some-LeavesValid (record { kept = a }) (rw (sync_with_peer_node, e) at h)
          | inl (db1, e) ↦
              let (node, e1, e2) = >>=-eq-ok (known_node net name c answers entry.node_id) _ e in
              sync_pages-LeavesValid entry lock (answers entry.node_id)
                (suc (entry.index - self_last)) self_last db1
                (reinitialize-AppsValid db name db1 e2 a) o (rw (sync_with_peer_node, e) at h)
        ]

    after_peer-LeavesValid :
        (entry : LastLockedBatchEntry) (lock : Lock) (entries : List LastLockedBatchEntry)
        (self_last : ℕ) (db : InMemoryDb) (synced : Option (Outcome Bool))
        → entry.lock ≡ some lock
        → leb entry.index self_last ≡ false
        → is_sync_point_signature_verified net (claimed_point name entry lock) ≡ ok true
        → sync_with_peer_node net name c answers entry lock self_last db ≡ synced
        → LeavesValidIfSome synced
        → ((d : InMemoryDb)
            → AppsValid d
            → LeavesValidIfSome (sync_entries net name c answers entries self_last d))
        → LeavesValidIfSome (sync_entries net name c answers (entry ∷ entries) self_last db)
    unfolding sync_entries
    after_peer-LeavesValid entry lock entries self_last db none e x f g k rest o h =
        none-LeavesValid (rw (sync_entries, e, x, f, g) at h)
    after_peer-LeavesValid entry lock entries self_last db (some (db1, err y)) e x f g k rest o h =
        some-LeavesValid (record { kept = (k _ refl).kept }) (rw (sync_entries, e, x, f, g) at h)
    after_peer-LeavesValid entry lock entries self_last db (some (db1, ok true)) e x f g k rest o
          h =
        some-LeavesValid (record { kept = (k _ refl).kept }) (rw (sync_entries, e, x, f, g) at h)
    after_peer-LeavesValid entry lock entries self_last db (some (db1, ok false)) e x f g k rest o
          h =
        rest db1 (k _ refl).kept o (rw (sync_entries, e, x, f, g) at h)

    sync_entries-LeavesValid :
        (entries : List LastLockedBatchEntry) (self_last : ℕ) (db : InMemoryDb)
        → AppsValid db
        → LeavesValidIfSome (sync_entries net name c answers entries self_last db)
    unfolding sync_entries
    sync_entries-LeavesValid [] self_last db a o h = some-LeavesValid (record { kept = a }) h
    sync_entries-LeavesValid (entry ∷ entries) self_last db a o h = elim (Option-cases entry.lock) [
      | inl e ↦ sync_entries-LeavesValid entries self_last db a o (rw (sync_entries, e) at h)
      | inr (lock, e) ↦ elim (Bool-cases (leb entry.index self_last)) [
        | inl x ↦ some-LeavesValid (record { kept = a }) (rw (sync_entries, e, x) at h)
        | inr x ↦
            elim (Result-cases
              (is_sync_point_signature_verified net (claimed_point name entry lock))) [
                | inr (y, f) ↦
                    some-LeavesValid (record { kept = a }) (rw (sync_entries, e, x, f) at h)
                | inl (false, f) ↦
                    sync_entries-LeavesValid entries self_last db a o
                      (rw (sync_entries, e, x, f) at h)
                | inl (true, f) ↦
                    after_peer-LeavesValid entry lock entries self_last db _ e x f refl
                      (sync_with_peer_node-LeavesValid entry lock self_last db a)
                      (sync_entries-LeavesValid entries self_last) o h
              ]
      ]
    ]

    sync_app-LeavesValid :
        (entries : List LastLockedBatchEntry) (db : InMemoryDb)
        → AppsValid db
        → LeavesValidIfSome (sync_app_with_locks net name c answers entries db)
    unfolding sync_app_with_locks
    sync_app-LeavesValid entries db a o h =
        elim (Result-cases (reinitialize_sequenced_batches db name)) [
          | inr (x, e) ↦ some-LeavesValid (record { kept = a }) (rw (sync_app_with_locks, e) at h)
          | inl (db1, e) ↦
              let v = reinitialize-AppsValid db name db1 e a in
              elim (Result-cases (get_last_operational_batch_record_or_empty db1 name locked)) [
                | inr (x, f) ↦
                    some-LeavesValid (record { kept = v }) (rw (sync_app_with_locks, e, f) at h)
                | inl (last, f) ↦
                    sync_entries-LeavesValid entries (index_or_before last) db1 v o
                      (rw (sync_app_with_locks, e, f) at h)
              ]
        ]

pub sync_with_latest_locks-LeavesValid :
    (net : Network) (c : Config net.Key) (answers : String → String → ℕ → PeerAnswer)
    (entries : Dict (List LastLockedBatchEntry)) (db : InMemoryDb) (o : Outcome (Unit {0}))
    → AppsValid db
    → sync_with_latest_locks net c answers entries db ≡ some o
    → LeavesValid o
unfolding sync_with_latest_locks
sync_with_latest_locks-LeavesValid net c answers [] db o a h =
    some-LeavesValid (record { kept = a }) h
sync_with_latest_locks-LeavesValid net c answers ((name, entries) ∷ rest) db o a h =
    elim (Option-cases (sync_app_with_locks net name c (answers name) entries db)) [
      | inl e ↦ none-LeavesValid (rw (sync_with_latest_locks, e) at h)
      | inr ((db1, r), e) ↦
          let k = sync_app-LeavesValid net name c (answers name) entries db a (db1, r) e in
          elim (Result-cases r) [
            | inr (x, f) ↦
                some-LeavesValid (record { kept = k.kept }) (rw (sync_with_latest_locks, e, f) at h)
            | inl (u, f) ↦
                sync_with_latest_locks-LeavesValid net c answers rest db1 o k.kept
                  (rw (sync_with_latest_locks, e, f) at h)
          ]
    ]
