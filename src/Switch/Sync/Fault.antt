-- ===== src/Switch/Sync/Fault.antt =====
-- The promotion of the lock that a peer claims.
use zsequencer.Prelude.{
  ℕ, zero, suc, ◌+◌, ◌-◌, ◌≡◌, refl, ap, ◌∙◌, Bool, true, false, ◌&&◌, some, List, [], ◌∷◌, String,
  leb, arith, Bool-cases, inl, inr,
}
use zsequencer.Errors.{Result, ok, err, ◌>>=◌, key_error, Result-cases}
use zsequencer.Network.{Network}
use zsequencer.Config.{Config}
use zsequencer.Db.{SignatureData, InMemoryDb, insert_sequenced_batch_bodies}
use zsequencer.Db.Promotion.{promote_batches}
use zsequencer.Db.Latency.{reinitialize_sequenced_batches}
use zsequencer.Switch.Sync.{
  Lock, LastLockedBatchEntry, PeerAnswer, no_page, page, Outcome, done, more, target_signature,
  page_length, promote_all, promote_page, after_page, sync_page, sync_pages, known_node,
  sync_with_peer_node,
}

-- A call that raised is not one that gave a value.
raised_not_ok :
    {V : Type 0} (db : InMemoryDb) (r r' : Result V) (o : Outcome V)
    → some (db, r) ≡ some o
    → ¬ (r ≡ r')
    → ¬ (o.1 ≡ r')
raised_not_ok db r r' o h n k =
    let same : (db, r) ≡ o = cc in n (ap (λ (x : Outcome _). x.1) same ∙ k)

module _ (net : Network) (name : String) (entry : LastLockedBatchEntry) (lock : Lock) where
  -- The dict of the claimed lock has no parent index, which is read.
  promote_target_raises :
      (db : InMemoryDb) → promote_batches net db name (target_signature entry lock) ≡ err key_error
  unfolding promote_batches target_signature
  promote_target_raises db = refl

  unreached_not_done :
      (after last : ℕ) (o : Outcome Bool)
      → leb entry.index last ≡ false
      → ¬ ((after_page net name entry lock after last o).1 ≡ ok (done true))
  unfolding after_page
  unreached_not_done after last (db', err e) x h = absurd cc
  unreached_not_done after last (db', ok false) x h = absurd cc
  unreached_not_done after last (db', ok true) x h =
      let y : (leb after entry.index && leb entry.index last) ≡ false = ground (arith, x) in
      let k : ok more ≡ ok (done true) = rw y at h in absurd cc

  after_page_not_done :
      (after last : ℕ) (ds : List SignatureData) (db : InMemoryDb)
      → ¬ (
          (after_page net name entry lock after last
            (promote_page net name entry lock last ds db)).1
          ≡ ok (done true))
  unfolding promote_page after_page zsequencer.Db.Promotion.Outcome.promotion_outcome
  after_page_not_done after last ds db h = elim (Bool-cases (leb entry.index last)) [
    | inl x ↦
        let k : err key_error ≡ ok (done true) =
          rw (x, promote_all, promote_target_raises db, after_page) at h in
        absurd cc
    | inr x ↦ unreached_not_done after last _ x (rw x at h)
  ]

  sync_page_not_done :
      (answer : PeerAnswer) (after : ℕ) (db : InMemoryDb)
      → ¬ ((sync_page net name entry lock answer after db).1 ≡ ok (done true))
  unfolding sync_page
  sync_page_not_done no_page after db h = cc
  sync_page_not_done (page [] ds) after db h = cc
  sync_page_not_done (page (b ∷ bs) ds) after db h =
      elim (Result-cases (insert_sequenced_batch_bodies net.gen_hash db name (b ∷ bs))) [
        | inr (x, e) ↦ let k : err x ≡ ok (done true) = rw (e, sync_page) at h in absurd cc
        | inl (db1, e) ↦ after_page_not_done after _ ds db1 (rw (e, sync_page) at h)
      ]

  sync_pages_not_true :
      (answers : ℕ → PeerAnswer) (fuel after : ℕ) (db : InMemoryDb) (o : Outcome Bool)
      → sync_pages net name entry lock answers fuel after db ≡ some o
      → ¬ (o.1 ≡ ok true)
  unfolding sync_pages
  sync_pages_not_true answers zero after db o h k = absurd cc
  sync_pages_not_true answers (suc fuel) after db o h k =
      let db' = (sync_page net name entry lock (answers after) after db).0 in
      elim (Result-cases (sync_page net name entry lock (answers after) after db).1) [
        | inr (x, e) ↦ raised_not_ok db' (err x) (ok true) o (rw (sync_pages, e) at h) (λ q. cc) k
        | inl (done true, e) ↦ absurd (sync_page_not_done (answers after) after db e)
        | inl (done false, e) ↦
            raised_not_ok db' (ok false) (ok true) o (rw (sync_pages, e) at h) (λ q. cc) k
        | inl (more, e) ↦
            sync_pages_not_true answers fuel (after + page_length (answers after)) db' o
              (rw (sync_pages, e) at h) k
      ]

-- The sync with a peer never succeeds: where it ends it has returned false or raised, whatever
-- the peer answers.
pub sync_with_peer_node-fails :
    (net : Network) (name : String) (c : Config net.Key) (answers : String → ℕ → PeerAnswer)
    (entry : LastLockedBatchEntry) (lock : Lock) (self_last : ℕ) (db : InMemoryDb)
    (o : Outcome Bool)
    → sync_with_peer_node net name c answers entry lock self_last db ≡ some o
    → ¬ (o.1 ≡ ok true)
unfolding sync_with_peer_node
sync_with_peer_node-fails net name c answers entry lock self_last db o h k =
    elim (Result-cases (
      known_node net name c answers entry.node_id >>= λ node.
      reinitialize_sequenced_batches db name)) [
        | inr (x, e) ↦
            raised_not_ok db (err x) (ok true) o (rw (sync_with_peer_node, e) at h) (λ q. cc) k
        | inl (db1, e) ↦
            sync_pages_not_true net name entry lock (answers entry.node_id)
              (suc (entry.index - self_last)) self_last db1 o (rw (sync_with_peer_node, e) at h) k
      ]
