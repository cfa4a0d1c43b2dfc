-- ===== src/SequencerRoutes/Admission.antt =====
-- What the sequencer has checked of batches that it takes, and what it notes of their node.
use mathlib.Core.List.{Memᴰ}
use mathlib.Core.List.Memᴰ.{head, tail, not-nil}
use zsequencer.Prelude.{
  ℕ, ◌≤◌, ◌≡◌, refl, ap, ◌∙◌, Bool, true, false, not, Option, none, some, List, [], ◌∷◌, String,
  arith,
}
use zsequencer.State.{sequenced, locked, finalized}
use zsequencer.Errors.{
  Result, ok, err, ◌>>=◌, >>=-eq-ok, ok-eq-ok, raise_if, raise_if-ok, batches_limit_exceeded,
  batch_size_exceeded, permission_denied, invalid_request,
}
use zsequencer.Dict.{lookup, contains, lookup-insert_self, insert}
use zsequencer.Batch.{get_utf8_size}
use zsequencer.BatchSequence.{BatchSequence}
use zsequencer.RateLimit.{MovingWindowRateLimiter}
use zsequencer.Network.{Network}
use zsequencer.Config.{Config, NetworkState, last_state, posting_nodes, node_send_limit_per_window}
use zsequencer.Db.{SignatureData, App, InMemoryDb, app_of, put_app, sequencer_init_batch_bodies}
use zsequencer.Db.Pool.{app_of-put_app}
use zsequencer.SyncPoint.{upsert_node_state}
use zsequencer.Db.Query.{
  get_global_operational_batch_sequence, get_last_operational_batch_record_or_empty,
}
use zsequencer.NodeTasks.{
  index_or_before, SequencerPutBatchesRequest, SequencerPutBatchesResponseData,
}
use zsequencer.SequencerRoutes.{
  first_next_index, finalized_signatures, rounds, last_locked_signature, after_step, before_step,
  node_state_of, respond, process_batches, is_name, any_exceeds, admit, put_batches,
  try_acquire_rate_limit_of_other_nodes,
}

was_true : (b : Bool) → not b ≡ false → b ≡ true
was_true true h = refl
was_true false h = absurd (cc)

some-eq-some : {A : Type 0} {x y : A} → some x ≡ some y → x ≡ y
some-eq-some e = cc

after_step-eq-ok :
    {V W : Type 0} (r : Result V) (next : V → Option (Result W)) {w : W}
    → after_step r next ≡ some (ok w)
    → (v : V) × (r ≡ ok v) × (next v ≡ some (ok w))
after_step-eq-ok (err x) next h = absurd (cc)
after_step-eq-ok (ok v) next h = (v, refl, h)

before_step-eq-ok :
    {V W : Type 0} (o : Option (Result V)) (next : V → Option (Result W)) {w : W}
    → before_step o next ≡ some (ok w)
    → (v : V) × (o ≡ some (ok v)) × (next v ≡ some (ok w))
before_step-eq-ok none next h = absurd (cc)
before_step-eq-ok (some (err x)) next h = absurd (cc)
before_step-eq-ok (some (ok v)) next h = (v, refl, h)

within_limit :
    (limit : ℕ) (bs : List String)
    → any_exceeds limit bs ≡ false
    → (b : String) → Memᴰ b bs
    → get_utf8_size b ≤ limit
unfolding any_exceeds
within_limit limit [] h b m = absurd (not-nil m)
within_limit limit (x ∷ bs) h b (head e) = rw e (ground (arith, h))
within_limit limit (x ∷ bs) h b (tail m) = within_limit limit bs (ground (arith, h)) b m

-- The rate limit of the node, its share of the bandwidth, grants its batches, none of them is too large, the node has the role
-- to post in the last network state, the app is known, and the indices that the node reports are
-- its state in the database that is left.
pub record IsAdmitted (net : Network) (c : Config net.Key) (limiter : MovingWindowRateLimiter)
    (request : SequencerPutBatchesRequest) (node_id : String) (now later time : ℕ) (db : InMemoryDb)
    : Type 0 where
  pub limit : ℕ
  pub is_limit : node_send_limit_per_window c ≡ ok limit
  pub granted :
      (try_acquire_rate_limit_of_other_nodes limit limiter node_id request.batches now later).0
      ≡ true
  pub sized : (b : String) → Memᴰ b request.batches → get_utf8_size b ≤ c.max_batch_size
  pub state : NetworkState net.Key
  pub is_last : last_state c ≡ ok state
  pub posting : contains node_id (posting_nodes state) ≡ true
  pub known : is_name request.app_name c.apps ≡ true
  pub app : App
  pub has_app : app_of db request.app_name ≡ ok app
  pub reported : lookup node_id app.nodes_state ≡ some (node_state_of request node_id time)

responded :
    (db : InMemoryDb) (request : SequencerPutBatchesRequest) (node_id : String) (now : ℕ)
    (s : BatchSequence) (locked_signature : Option SignatureData) (last : ℕ)
    (ds : List SignatureData) (response : SequencerPutBatchesResponseData) (db' : InMemoryDb)
    → respond db request node_id now s locked_signature last ds ≡ ok (response, db')
    → (app : App) × (app_of db' request.app_name ≡ ok app)
      × (lookup node_id app.nodes_state ≡ some (node_state_of request node_id now))
unfolding respond upsert_node_state
responded db request node_id now s locked_signature last ds response db' h =
    let (db1, e1, h1) =
      >>=-eq-ok (upsert_node_state db request.app_name (node_state_of request node_id now)) _ h in
    let (app, e2, h2) = >>=-eq-ok (app_of db request.app_name) _ e1 in
    let same : db1 ≡ db' =
      ap (λ (x : SequencerPutBatchesResponseData × InMemoryDb). x.1) (ok-eq-ok h1) in
    let noted : App = record app {
      nodes_state = insert node_id (node_state_of request node_id now) app.nodes_state;
    } in
    let written : put_app db request.app_name noted ≡ db' = ok-eq-ok h2 ∙ same in
    (
      noted,
      rw written at (app_of-put_app db request.app_name noted),
      lookup-insert_self node_id (node_state_of request node_id now) app.nodes_state,
    )

module _ (net : Network) (c : Config net.Key) (limiter : MovingWindowRateLimiter) (db : InMemoryDb)
    (request : SequencerPutBatchesRequest) (node_id : String) (now later time : ℕ) where
  -- The database that is left is the one of the response.
  processed :
      (response : SequencerPutBatchesResponseData) (db' : InMemoryDb)
      → process_batches net db request node_id time ≡ some (ok (response, db'))
      → (app : App) × (app_of db' request.app_name ≡ ok app)
        × (lookup node_id app.nodes_state ≡ some (node_state_of request node_id time))
  unfolding process_batches
  processed response db' h =
      let (db1, e1, h1) =
        after_step-eq-ok
          (sequencer_init_batch_bodies net.gen_hash db request.app_name request.batches) _ h in
      let (s, e2, h2) =
        before_step-eq-ok
          (get_global_operational_batch_sequence db1 request.app_name sequenced
            net.node_receive_limit request.sequenced_index)
          _ h1 in
      let (d, e3, h3) =
        after_step-eq-ok
          (get_last_operational_batch_record_or_empty db1 request.app_name locked
            >>= last_locked_signature)
          _ h2 in
      let (last, e4, h4) =
        after_step-eq-ok (get_last_operational_batch_record_or_empty db1 request.app_name finalized)
          _ h3 in
      let (next, e5, h5) = after_step-eq-ok (first_next_index db1 request) _ h4 in
      let (ds, e6, h6) =
        before_step-eq-ok
          (finalized_signatures db1 request.app_name s (rounds (app_of db1 request.app_name)) next)
          _ h5 in
      responded db1 request node_id time s d (index_or_before last) ds response db'
        (some-eq-some h6)

  -- Where put_batches returns a response, the rate limit of the node, its share of the
  -- bandwidth in the last network state, granted its batches, none of them is above the size
  -- limit, the node has the role to post in the last network state, the app is known, and the
  -- indices that the node reported are its state in the database that is left.
  pub put_batches-IsAdmitted :
      (response : SequencerPutBatchesResponseData) (db' : InMemoryDb)
      (limiter' : MovingWindowRateLimiter)
      → put_batches net c limiter db request node_id now later time
        ≡ some (ok (response, db', limiter'))
      → IsAdmitted net c limiter request node_id now later time db'
  unfolding put_batches admit
  put_batches-IsAdmitted response db' limiter' h =
      let (l, e1, h1) = after_step-eq-ok (admit net c limiter request node_id now later) _ h in
      let ((r, db1), e2, h2) =
        before_step-eq-ok (process_batches net db request node_id time) _ h1 in
      let same : db1 ≡ db' = cc in
      let (app, a, b) = processed r db1 e2 in
      let (limit, e0, h0) = >>=-eq-ok (node_send_limit_per_window c) _ e1 in
      let granted =
        (try_acquire_rate_limit_of_other_nodes limit limiter node_id request.batches now later).0 in
      let (u3, e3, h3) = >>=-eq-ok (raise_if batches_limit_exceeded (not granted)) _ h0 in
      let (u4, e4, h4) =
        >>=-eq-ok (raise_if batch_size_exceeded (any_exceeds c.max_batch_size request.batches)) _
          h3 in
      let (s, e5, h5) = >>=-eq-ok (last_state c) _ h4 in
      let (u6, e6, h6) =
        >>=-eq-ok (raise_if permission_denied (not (contains node_id (posting_nodes s)))) _ h5 in
      let (u7, e7, h7) =
        >>=-eq-ok (raise_if invalid_request (not (is_name request.app_name c.apps))) _ h6 in
      record {
        limit = limit;
        is_limit = e0;
        granted = was_true granted (raise_if-ok _ (not granted) e3);
        sized = within_limit c.max_batch_size request.batches (raise_if-ok _ _ e4);
        state = s;
        is_last = e5;
        posting = was_true _ (raise_if-ok _ (not (contains node_id (posting_nodes s))) e6);
        known = was_true _ (raise_if-ok _ (not (is_name request.app_name c.apps)) e7);
        app = app;
        has_app = rw same at a;
        reported = b;
      }
