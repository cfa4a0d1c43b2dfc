-- ===== src/NodeTasks/Send.antt =====
-- What a node takes from its pool to send, and where it goes if the sequencer does not take it.
use mathlib.Core.List.{reverse}
use mathlib.Core.Path.{subst}
use zsequencer.Config.{node_send_limit_per_window}
use zsequencer.Prelude.{
  ℕ, ◌≤◌, ◌≡◌, refl, Bool, true, false, not, List, ◌++◌, String, arith, str_eq,
}
use zsequencer.State.{sequenced, locked, finalized}
use zsequencer.Errors.{ok, code, is_not_sequencer}
use zsequencer.RateLimit.{update_max_cost, get_remaining_capacity, try_acquire}
use zsequencer.RateLimit.Acquire
use zsequencer.RateLimit.Acquire.{
  recent_cost, events_of, get_remaining_capacity_lem, events-get_remaining, try_acquire_lem,
}
use zsequencer.BatchSequence.{get_last_or_empty}
use zsequencer.RateLimit.Later.{granted_later}
use zsequencer.Network.{Network}
use zsequencer.Db.{
  App, InMemoryDb, app_of, put_app, pop_limited_initialized_batch_bodies,
  reinit_missed_batch_bodies, hash_of_record,
}
use zsequencer.Db.Pool.{
  IsSplit, with_pool, bodies_size, app_of-put_app, pop_limited_initialized_batch_bodies-IsSplit,
  reinit_after_pop,
}
use zsequencer.Db.Query.{get_last_operational_batch_record_or_empty}
use zsequencer.SequencerManager.{StateAnswer}
use zsequencer.NodeTasks.{
  Process, Clocks, Answer, no_answer, refused, accepted, zdb, with_db, attempt, and_then,
  SequencerPutBatchesRequest, index_or_before, take_batches, make_request, handle_answer,
  on_exception, after_refusal, send_app_batches, get_remaining_capacity_of_self_node,
  try_acquire_rate_limit_of_self_node, self_node_rate_limit_id,
}

-- The sequencer did not take the batches, and did not say that it is no sequencer.
abbrev pub is_failure : Answer → Bool
is_failure no_answer = true
is_failure (refused c) = not (str_eq c (code is_not_sequencer))
is_failure (accepted response) = false

-- The request for a run of bodies of an app.
abbrev request_for : String → App → List String → ℕ → SequencerPutBatchesRequest
request_for name app bodies time = record {
  app_name = name;
  batches = bodies;
  sequenced_index = index_or_before (get_last_or_empty app.operational_batch_sequence sequenced);
  sequenced_chaining_hash =
      hash_of_record (get_last_or_empty app.operational_batch_sequence sequenced);
  locked_index = index_or_before (get_last_or_empty app.operational_batch_sequence locked);
  locked_chaining_hash = hash_of_record (get_last_or_empty app.operational_batch_sequence locked);
  finalized_index = index_or_before (get_last_or_empty app.operational_batch_sequence finalized);
  timestamp = time;
}

module _ {Key : Type 0} (p : Process Key) (name : String) (app : App)
    (known : app_of (zdb p) name ≡ ok app) (clocks : Clocks) where
  abbrev room : ℕ
  room = (get_remaining_capacity_of_self_node p.limiter clocks.at_capacity).0

  -- The process after a run of bodies is taken from the pool.
  abbrev left_with : List String → Process Key
  left_with left =
      with_db
        (record p {
          limiter = (get_remaining_capacity_of_self_node p.limiter clocks.at_capacity).1;
        })
        (put_app (zdb p) name (with_pool app left))

  -- What a node takes from the pool of a known app is the front of it.
  taken_lem :
      (taken left : List String) × (take_batches p name clocks
        ≡ ok (request_for name app taken clocks.time, left_with left))
      × (pop_limited_initialized_batch_bodies (zdb p) name room
          ≡ ok (taken, put_app (zdb p) name (with_pool app left)))
      × IsSplit room 0 app.initialized_batch_bodies taken left
  unfolding take_batches make_request get_last_operational_batch_record_or_empty
  taken_lem =
      let (taken, left, e, split) =
        pop_limited_initialized_batch_bodies-IsSplit (zdb p) name room app known in
      (taken, left, rw (e, app_of-put_app (zdb p) name (with_pool app left)) refl, e, split)

app_of_down :
    (db : InMemoryDb) (name : String) (app : App)
    → app_of db name ≡ ok app
    → app_of (record db { is_sequencer_down = true }) name ≡ ok app
unfolding app_of
app_of_down db name app h = h

module _ (net : Network) (set_order : List String → List String) where
  -- What happens to the bodies of a request that fails.
  failed :
      (request : SequencerPutBatchesRequest) (clocks : Clocks) (answers : String → StateAnswer)
      (a : Answer) (q : Process net.Key) (db : InMemoryDb)
      → is_failure a ≡ true
      → reinit_missed_batch_bodies (zdb q) request.app_name request.batches ≡ ok db
      → on_exception net set_order request (handle_answer net set_order request clocks answers a q)
        ≡ ok (0, with_db q (record db { is_sequencer_down = true }))
  unfolding on_exception handle_answer after_refusal attempt and_then
  failed request clocks answers no_answer q db f e = rw e refl
  failed request clocks answers (refused c) q db f e =
      let g : str_eq c (code is_not_sequencer) ≡ false = ground (arith, f) in rw (e, g) refl
  failed request clocks answers (accepted response) q db f e = absurd (cc)

  -- If the sequencer does not answer, or refuses with another error than that it is no
  -- sequencer, send_app_batches returns 0, the bodies that were popped from the pool of the
  -- known app, within the capacity that is left, are put back in front of the others in reverse
  -- order, and the sequencer is marked as down.
  pub send_app_batches_failed :
      (p : Process net.Key) (name : String) (app : App) (clocks : Clocks)
      (answer : SequencerPutBatchesRequest → Answer) (answers : String → StateAnswer)
      → app_of (zdb p) name ≡ ok app
      → ((request : SequencerPutBatchesRequest) → is_failure (answer request) ≡ true)
      → (taken left : List String) × (popped : InMemoryDb) × (p' : Process net.Key)
        × (pop_limited_initialized_batch_bodies
              (zdb p)
              name
              (get_remaining_capacity_of_self_node p.limiter clocks.at_capacity).0
            ≡ ok (taken, popped))
        × (taken ++ left ≡ app.initialized_batch_bodies)
        × (send_app_batches net set_order p name clocks answer answers ≡ ok (0, p'))
        × (app_of (zdb p') name ≡ ok (with_pool app (reverse taken ++ left)))
        × ((zdb p').is_sequencer_down ≡ true)
  unfolding send_app_batches
  send_app_batches_failed p name app clocks answer answers known fails =
      let (taken, left, e, popped, split) = taken_lem p name app known clocks in
      let q = left_with p name app known clocks left in
      let request = request_for name app taken clocks.time in
      let (left', whole, back) =
        reinit_after_pop (zdb p) name (room p name app known clocks) app known taken (zdb q)
          popped in
      let db = put_app (zdb q) name (with_pool app (reverse taken ++ left')) in
      (
        taken,
        left',
        zdb q,
        with_db q (record db { is_sequencer_down = true }),
        popped,
        whole,
        rw e (failed request clocks answers (answer request) q db (fails request) back),
        app_of_down db name _
            (app_of-put_app (zdb q) name (with_pool app (reverse taken ++ left'))),
        refl,
      )

-- What a node takes from the pool of a known app fits its rate limit: with every window valid
-- at the clock and the maximum up to date with the node's share of the bandwidth, the cost of
-- the request is granted when it is recorded after the answer.
pub take_batches-fits :
    {Key : Type 0} (p : Process Key) (name : String) (app : App) (clocks : Clocks) (clock : ℕ)
    → app_of (zdb p) name ≡ ok app
    → clock ≤ clocks.at_capacity
    → Acquire.IsValid p.limiter clock
    → (limit : ℕ) → node_send_limit_per_window p.manager.zconfig ≡ ok limit
    → p.limiter.max_cost ≡ limit
    → (request : SequencerPutBatchesRequest) × (p' : Process Key) × (take_batches p name clocks
        ≡ ok (request, p'))
      × ((try_acquire_rate_limit_of_self_node limit p'.limiter request.batches clocks.at_acquire
            clocks.after_acquire).0
          ≡ true)
unfolding try_acquire_rate_limit_of_self_node get_remaining_capacity_of_self_node
take_batches-fits p name app clocks clock known h v limit is_limit m =
    let (taken, left, e, popped, split) = taken_lem p name app known clocks in
    (
      request_for name app taken clocks.time,
      left_with p name app known clocks left,
      e,
      subst
          (λ n.
            (try_acquire
              (update_max_cost
                (get_remaining_capacity p.limiter self_node_rate_limit_id clocks.at_capacity).1 n)
              self_node_rate_limit_id (bodies_size taken) clocks.at_acquire clocks.after_acquire).0
            ≡ true)
          m
          (granted_later p.limiter self_node_rate_limit_id clock clocks.at_capacity
            clocks.at_acquire clocks.after_acquire (bodies_size taken) h v
            (omega (arith, split.fits))),
    )
