-- ===== src/Switch/Sync.antt =====
-- How a node comes to the latest lock of the network when the sequencer changes (node/switch.py):
-- it asks every other node for its last locked batch, and fetches the batches from one that has a
-- later lock. What the other nodes answer is an argument. The entries of a lock come together in
-- an answer, as `promote_batches` writes them, and a page of batches has both of its entries.
pub mod Peers
pub mod Ends
pub mod Valid
pub mod Fault
use zsequencer.Prelude.{
  ℕ, zero, suc, ◌+◌, ◌-◌, Bool, true, false, ◌&&◌, Option, none, some, List, [], ◌∷◌, String, leb,
  length, if◌then◌else◌,
}
use zsequencer.State.{sequenced, locked}
use zsequencer.Errors.{Result, ok, err, ◌>>=◌}
use zsequencer.Dict.{Dict, lookup}
use zsequencer.Network.{Network}
use zsequencer.Config.{Config, NodeData, last_state, data_or_raise}
use zsequencer.Quorum.{SyncPoint, is_sync_point_signature_verified}
use zsequencer.Db.{SignatureData, InMemoryDb, insert_sequenced_batch_bodies}
use zsequencer.Db.Promotion.Outcome.{promotion_outcome}
use zsequencer.Db.Latency.{reinitialize_sequenced_batches}
use zsequencer.Db.Query.{get_last_operational_batch_record_or_empty}
use zsequencer.NodeTasks.{index_or_before}

-- The entries of a batch that a lock adds.
pub record Lock : Type 0 where
  pub signature : String
  pub nonsigners : List String
  pub tag : ℕ
  pub timestamp : ℕ
  pub parent_index : ℕ

pub record LastLockedBatchEntry : Type 0 where
  pub node_id : String
  pub index : ℕ
  pub chaining_hash : String
  pub lock : Option Lock

-- The answer to a request for batches: an error of any kind, or a page.
pub data PeerAnswer : Type 0 where
  no_page : PeerAnswer
  page : (batches : List String) (finalized_signatures : List SignatureData) → PeerAnswer

-- A call that may raise, with the database that it leaves in either case.
abbrev pub Outcome {ℓ} : Type ℓ → Type ℓ
Outcome V = InMemoryDb × Result V

-- The loop over the pages is over with a result, or goes on.
pub data Progress : Type 0 where
  done : Bool → Progress
  more : Progress

-- The dict that `_sync_with_peer_node` hands to `promote_batches`, which has no parent index.
unfoldable pub target_signature : LastLockedBatchEntry → Lock → SignatureData
target_signature entry lock = record {
  state = sequenced;
  index = entry.index;
  chaining_hash = entry.chaining_hash;
  signature = lock.signature;
  nonsigners = lock.nonsigners;
  tag = lock.tag;
  timestamp = lock.timestamp;
  parent_index = none;
}

-- The sync point that a peer claims to be locked.
unfoldable pub claimed_point : String → LastLockedBatchEntry → Lock → SyncPoint
claimed_point app_name entry lock = record {
  app_name = app_name;
  state = sequenced;
  index = entry.index;
  chaining_hash = entry.chaining_hash;
  tag = lock.tag;
  timestamp = lock.timestamp;
  parent_index = lock.parent_index;
  signature_hex = lock.signature;
  nonsigners = lock.nonsigners;
}

-- The number of batches on a page.
unfoldable pub page_length : PeerAnswer → ℕ
page_length no_page = 0
page_length (page batches signatures) = length batches

module _ (net : Network) (app_name : String) where
  -- The signatures in their order, up to the first that does not promote.
  unfoldable pub promote_all : List SignatureData → InMemoryDb → Outcome Bool
  promote_all [] db = (db, ok true)
  promote_all (d ∷ ds) db =
      let (db', promoted) = promotion_outcome net db app_name d in
      elim promoted [
        | err e ↦ (db', err e)
        | ok false ↦ (db', ok false)
        | ok true ↦ promote_all ds db'
      ]

  module _ (entry : LastLockedBatchEntry) (lock : Lock) where
    -- The promotions of a page: the claimed lock if the batches reach it, and the page's own.
    unfoldable pub promote_page : ℕ → List SignatureData → InMemoryDb → Outcome Bool
    unfolding promote_all
    promote_page last_sequenced_index signatures db =
        if leb entry.index last_sequenced_index
        then promote_all (target_signature entry lock ∷ signatures) db
        else promote_all signatures db

    -- Whether the page was the last one.
    unfoldable pub after_page : ℕ → ℕ → Outcome Bool → Outcome Progress
    after_page after_index last_sequenced_index (db, err e) = (db, err e)
    after_page after_index last_sequenced_index (db, ok false) = (db, ok (done false))
    after_page after_index last_sequenced_index (db, ok true) = (
      db,
      ok (
          if leb after_index entry.index && leb entry.index last_sequenced_index
          then done true
          else more),
    )

    -- A round of the loop.
    unfoldable pub sync_page : PeerAnswer → ℕ → InMemoryDb → Outcome Progress
    unfolding promote_page after_page
    sync_page no_page after_index db = (db, ok (done false))
    sync_page (page [] signatures) after_index db = (db, ok (done false))
    sync_page (page (body ∷ bodies) signatures) after_index db =
        elim (insert_sequenced_batch_bodies net.gen_hash db app_name (body ∷ bodies)) [
          | err e ↦ (db, err e)
          | ok db' ↦
              let last_sequenced_index = after_index + length (body ∷ bodies) in
              after_page after_index last_sequenced_index
                (promote_page last_sequenced_index signatures db')
        ]

    -- The loop; it gives nothing when the fuel is used up.
    unfoldable pub sync_pages : (ℕ → PeerAnswer) → ℕ → ℕ → InMemoryDb → Option (Outcome Bool)
    unfolding sync_page page_length
    sync_pages answers zero after_index db = none
    sync_pages answers (suc fuel) after_index db =
        let (db', progress) = sync_page (answers after_index) after_index db in
        elim progress [
          | err e ↦ some (db', err e)
          | ok (done result) ↦ some (db', ok result)
          | ok more ↦ sync_pages answers fuel (after_index + page_length (answers after_index)) db'
        ]

  module _ (c : Config net.Key) (answers : String → ℕ → PeerAnswer) where
    -- `zconfig.NODES[node_id]`
    unfoldable pub known_node : String → Result (NodeData net.Key)
    known_node node_id = do s ← last_state c; data_or_raise (lookup node_id s.nodes)

    -- `_sync_with_peer_node`, with one round for each index up to the claimed one.
    unfoldable pub sync_with_peer_node :
        LastLockedBatchEntry → Lock → ℕ → InMemoryDb → Option (Outcome Bool)
    unfolding sync_pages known_node
    sync_with_peer_node entry lock self_last_index db =
        elim (known_node entry.node_id >>= λ node. reinitialize_sequenced_batches db app_name) [
          | err e ↦ some (db, err e)
          | ok db' ↦
              sync_pages entry lock (answers entry.node_id) (suc (entry.index - self_last_index))
                self_last_index db'
        ]

    -- The loop over the entries of an app.
    unfoldable pub sync_entries :
        List LastLockedBatchEntry → ℕ → InMemoryDb → Option (Outcome (Unit {0}))
    unfolding sync_with_peer_node claimed_point
    sync_entries [] self_last_index db = some (db, ok tt)
    sync_entries (entry ∷ entries) self_last_index db = elim entry.lock [
      | none ↦ sync_entries entries self_last_index db
      | some lock ↦ elim (leb entry.index self_last_index) [
        | true ↦ some (db, ok tt)
        | false ↦ elim (is_sync_point_signature_verified net (claimed_point app_name entry lock)) [
          | err e ↦ some (db, err e)
          | ok false ↦ sync_entries entries self_last_index db
          | ok true ↦ elim (sync_with_peer_node entry lock self_last_index db) [
            | none ↦ none
            | some (db', err e) ↦ some (db', err e)
            | some (db', ok true) ↦ some (db', ok tt)
            | some (db', ok false) ↦ sync_entries entries self_last_index db'
          ]
        ]
      ]
    ]

    -- The batches that are not locked go back to the pool, and the entries are gone through.
    unfoldable pub sync_app_with_locks :
        List LastLockedBatchEntry → InMemoryDb → Option (Outcome (Unit {0}))
    unfolding sync_entries index_or_before
    sync_app_with_locks entries db = elim (reinitialize_sequenced_batches db app_name) [
      | err e ↦ some (db, err e)
      | ok db' ↦ elim (get_last_operational_batch_record_or_empty db' app_name locked) [
        | err e ↦ some (db', err e)
        | ok last_locked ↦ sync_entries entries (index_or_before last_locked) db'
      ]
    ]

-- `_sync_with_latest_locks`
unfoldable pub sync_with_latest_locks :
    (net : Network)
    → Config net.Key
    → (String → String → ℕ → PeerAnswer)
    → Dict (List LastLockedBatchEntry)
    → InMemoryDb
    → Option (Outcome (Unit {0}))
unfolding sync_app_with_locks
sync_with_latest_locks net c answers [] db = some (db, ok tt)
sync_with_latest_locks net c answers ((app_name, entries) ∷ rest) db =
    elim (sync_app_with_locks net app_name c (answers app_name) entries db) [
      | none ↦ none
      | some (db', err e) ↦ some (db', err e)
      | some (db', ok u) ↦ sync_with_latest_locks net c answers rest db'
    ]
