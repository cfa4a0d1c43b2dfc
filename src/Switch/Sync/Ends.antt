-- ===== src/Switch/Sync/Ends.antt =====
-- The loop over the pages of a peer ends, and with it the sync with the locks of the network.
use zsequencer.Prelude.{
  ℕ, zero, suc, ◌+◌, ◌-◌, ◌≤◌, ◌≡◌, refl, Bool, true, false, Option, some, List, [], ◌∷◌, String,
  arith, leb, ◌&&◌, Bool-cases, Option-cases, inl, inr,
}
use zsequencer.State.{locked}
use zsequencer.Errors.{Result, ok, err, ◌>>=◌, Result-cases}
use zsequencer.Dict.{Dict}
use zsequencer.Network.{Network}
use zsequencer.Config.{Config}
use zsequencer.Quorum.{is_sync_point_signature_verified}
use zsequencer.Db.{InMemoryDb, insert_sequenced_batch_bodies}
use zsequencer.Db.Latency.{reinitialize_sequenced_batches}
use zsequencer.Db.Query.{get_last_operational_batch_record_or_empty}
use zsequencer.NodeTasks.{index_or_before}
use zsequencer.Switch.Sync.{
  Lock, LastLockedBatchEntry, PeerAnswer, no_page, page, Outcome, done, more, claimed_point,
  page_length, after_page, sync_page, sync_pages, known_node, sync_with_peer_node, sync_entries,
  sync_app_with_locks, sync_with_latest_locks,
}

-- A value that was computed within the fuel.
abbrev Returns {ℓ} : {V : Type ℓ} → Option V → Type ℓ
Returns {V = V} o = (v : V) × (o ≡ some v)

module _ (net : Network) (name : String) (entry : LastLockedBatchEntry) (lock : Lock) where
  -- After a page that is not the last one, the index of the entry is beyond its batches.
  beyond :
      (after last : ℕ) (o : Outcome Bool)
      → after ≤ entry.index
      → (after_page net name entry lock after last o).1 ≡ ok more
      → suc last ≤ entry.index
  unfolding after_page
  beyond after last (db, err e) h k = absurd cc
  beyond after last (db, ok false) h k = absurd cc
  beyond after last (db, ok true) h k =
      elim (Bool-cases (leb after entry.index && leb entry.index last)) [
        | inl x ↦ let k' : ok (done true) ≡ ok more = rw x at k in absurd cc
        | inr x ↦ ground arith
      ]

  -- So the next request begins later, and still not after the index.
  advances :
      (answer : PeerAnswer) (after : ℕ) (db : InMemoryDb)
      → after ≤ entry.index
      → (sync_page net name entry lock answer after db).1 ≡ ok more
      → (1 ≤ page_length answer) × (suc (after + page_length answer) ≤ entry.index)
  unfolding sync_page page_length
  advances no_page after db h k = absurd cc
  advances (page [] ds) after db h k = absurd cc
  advances (page (b ∷ bs) ds) after db h k =
      elim (Result-cases (insert_sequenced_batch_bodies net.gen_hash db name (b ∷ bs))) [
        | inr (x, e) ↦ let k' : err x ≡ ok more = rw (e, sync_page) at k in absurd cc
        | inl (db', e) ↦ (omega arith, beyond after _ _ h (rw (e, sync_page) at k))
      ]

  pub sync_pages-Returns :
      (answers : ℕ → PeerAnswer) (fuel after : ℕ) (db : InMemoryDb)
      → after ≤ entry.index
      → suc entry.index ≤ fuel + after
      → Returns (sync_pages net name entry lock answers fuel after db)
  unfolding sync_pages
  sync_pages-Returns answers zero after db h k = absurd (omega arith)
  sync_pages-Returns answers (suc fuel) after db h k =
      let db' = (sync_page net name entry lock (answers after) after db).0 in
      elim (Result-cases (sync_page net name entry lock (answers after) after db).1) [
        | inr (x, e) ↦ ((db', err x), rw (sync_pages, e) refl)
        | inl (done r, e) ↦ ((db', ok r), rw (sync_pages, e) refl)
        | inl (more, e) ↦
            let (x, y) = advances (answers after) after db h e in
            rw (sync_pages, e)
              (sync_pages-Returns answers fuel (after + page_length (answers after)) _ (omega arith)
                (omega arith))
      ]

module _ (net : Network) (name : String) (c : Config net.Key)
    (answers : String → ℕ → PeerAnswer) where
  pub sync_with_peer_node-Returns :
      (entry : LastLockedBatchEntry) (lock : Lock) (self_last : ℕ) (db : InMemoryDb)
      → self_last ≤ entry.index
      → Returns (sync_with_peer_node net name c answers entry lock self_last db)
  unfolding sync_with_peer_node
  sync_with_peer_node-Returns entry lock self_last db h =
      elim (Result-cases (
        known_node net name c answers entry.node_id >>= λ node.
        reinitialize_sequenced_batches db name)) [
          | inr (x, e) ↦ ((db, err x), rw (sync_with_peer_node, e) refl)
          | inl (db', e) ↦
              rw (sync_with_peer_node, e)
                (sync_pages-Returns net name entry lock (answers entry.node_id)
                  (suc (entry.index - self_last)) self_last db' h (omega arith))
        ]

  -- After the sync with a peer the loop ends or goes on with the other entries.
  after_peer :
      (entry : LastLockedBatchEntry) (lock : Lock) (entries : List LastLockedBatchEntry)
      (self_last : ℕ) (db db' : InMemoryDb) (r : Result Bool)
      → entry.lock ≡ some lock
      → leb entry.index self_last ≡ false
      → is_sync_point_signature_verified net (claimed_point name entry lock) ≡ ok true
      → sync_with_peer_node net name c answers entry lock self_last db ≡ some (db', r)
      → ((d : InMemoryDb) → Returns (sync_entries net name c answers entries self_last d))
      → Returns (sync_entries net name c answers (entry ∷ entries) self_last db)
  unfolding sync_entries
  after_peer entry lock entries self_last db db' (err y) e x f g rest =
      ((db', err y), rw (sync_entries, e, x, f, g) refl)
  after_peer entry lock entries self_last db db' (ok true) e x f g rest =
      ((db', ok tt), rw (sync_entries, e, x, f, g) refl)
  after_peer entry lock entries self_last db db' (ok false) e x f g rest =
      rw (sync_entries, e, x, f, g) (rest db')

  sync_entries-Returns :
      (entries : List LastLockedBatchEntry) (self_last : ℕ) (db : InMemoryDb)
      → Returns (sync_entries net name c answers entries self_last db)
  unfolding sync_entries
  sync_entries-Returns [] self_last db = ((db, ok tt), refl)
  sync_entries-Returns (entry ∷ entries) self_last db = elim (Option-cases entry.lock) [
    | inl e ↦ rw (sync_entries, e) (sync_entries-Returns entries self_last db)
    | inr (lock, e) ↦ elim (Bool-cases (leb entry.index self_last)) [
      | inl x ↦ ((db, ok tt), rw (sync_entries, e, x) refl)
      | inr x ↦
          elim (Result-cases
            (is_sync_point_signature_verified net (claimed_point name entry lock))) [
              | inr (y, f) ↦ ((db, err y), rw (sync_entries, e, x, f) refl)
              | inl (false, f) ↦
                  rw (sync_entries, e, x, f) (sync_entries-Returns entries self_last db)
              | inl (true, f) ↦
                  let ((db', r), g) =
                    sync_with_peer_node-Returns entry lock self_last db (ground arith) in
                  after_peer entry lock entries self_last db db' r e x f g
                    (sync_entries-Returns entries self_last)
            ]
    ]
  ]

  sync_app-Returns :
      (entries : List LastLockedBatchEntry) (db : InMemoryDb)
      → Returns (sync_app_with_locks net name c answers entries db)
  unfolding sync_app_with_locks
  sync_app-Returns entries db = elim (Result-cases (reinitialize_sequenced_batches db name)) [
    | inr (x, e) ↦ ((db, err x), rw (sync_app_with_locks, e) refl)
    | inl (db', e) ↦
        elim (Result-cases (get_last_operational_batch_record_or_empty db' name locked)) [
          | inr (x, f) ↦ ((db', err x), rw (sync_app_with_locks, e, f) refl)
          | inl (last, f) ↦
              rw (sync_app_with_locks, e, f)
                (sync_entries-Returns entries (index_or_before last) db')
        ]
  ]

-- The sync with the latest locks ends, with a result or an exception, whatever the other nodes
-- answer: each peer is asked for pages at most once for each index up to the one it claims, and
-- once more.
pub sync_with_latest_locks-Returns :
    (net : Network) (c : Config net.Key) (answers : String → String → ℕ → PeerAnswer)
    (entries : Dict (List LastLockedBatchEntry)) (db : InMemoryDb)
    → (r : Outcome (Unit {0})) × (sync_with_latest_locks net c answers entries db ≡ some r)
unfolding sync_with_latest_locks
sync_with_latest_locks-Returns net c answers [] db = ((db, ok tt), refl)
sync_with_latest_locks-Returns net c answers ((name, entries) ∷ rest) db =
    let ((db', r), e) = sync_app-Returns net name c (answers name) entries db in
    elim (Result-cases r) [
      | inr (x, f) ↦ ((db', err x), rw (sync_with_latest_locks, e, f) refl)
      | inl (u, f) ↦
          rw (sync_with_latest_locks, e, f) (sync_with_latest_locks-Returns net c answers rest db')
    ]
