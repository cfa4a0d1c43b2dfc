-- ===== src/NodeTasks.antt =====
-- The tasks of a node (node/tasks.py) with its own rate limit (node/rate_limit.py): sending the
-- pool to the sequencer, and following the sequencer's answer. The answer is a function of the
-- request, and readings of the clocks are arguments. The signing of sync points is in Sign.
pub mod Sign
pub mod Send
pub mod Valid
use zsequencer.Prelude.{
  ℕ, Bool, true, false, not, ◌&&◌, ◌||◌, ◌==◌, Option, none, some, List, [], ◌∷◌, String, ltb, leb,
  str_eq, if◌then◌else◌,
}
use zsequencer.State.{OperationalState, sequenced, locked, finalized}
use zsequencer.Errors.{Error, Result, ok, err, ◌>>=◌, code, is_not_sequencer}
use zsequencer.Distinct.{to_set, member}
use zsequencer.Batch.{BatchRecord}
use zsequencer.BatchSequence.{before_global_index_offset}
use zsequencer.RateLimit.{
  MovingWindowRateLimiter, update_max_cost, get_remaining_capacity, try_acquire,
}
use zsequencer.Network.{Network}
use zsequencer.Config
use zsequencer.Config.{Config, set_synced_flag, node_send_limit_per_window}
use zsequencer.Db.{
  SignatureData, InMemoryDb, hash_of_record, pop_limited_initialized_batch_bodies,
  reinit_missed_batch_bodies, insert_sequenced_batch_bodies,
}
use zsequencer.Db.Pool.{bodies_size}
use zsequencer.Db.Promotion.{record_index}
use zsequencer.Db.Promotion.Outcome.{promotion_outcome}
use zsequencer.Db.Latency.{track_sequencing_indices}
use zsequencer.Db.Query.{
  get_last_operational_batch_record_or_empty, set_sequencer_censoring, clear_sequencer_censoring,
}
use zsequencer.SequencerManager.{Manager, StateAnswer, reset_sequencer}

abbrev pub self_node_rate_limit_id : String
self_node_rate_limit_id = "self_node_rate_limit"

-- `now` and `later` are the clock in `get_remaining_capacity` and after it.
unfoldable pub try_acquire_rate_limit_of_self_node :
    ℕ → MovingWindowRateLimiter → List String → ℕ → ℕ → Bool × MovingWindowRateLimiter
unfolding bodies_size
try_acquire_rate_limit_of_self_node node_send_limit limiter batch_bodies now later =
    try_acquire (update_max_cost limiter node_send_limit) self_node_rate_limit_id
      (bodies_size batch_bodies) now later

unfoldable pub get_remaining_capacity_of_self_node :
    MovingWindowRateLimiter → ℕ → ℕ × MovingWindowRateLimiter
get_remaining_capacity_of_self_node limiter now =
    get_remaining_capacity limiter self_node_rate_limit_id now

-- `.get("index", 0)` of a record.
unfoldable pub index_or_before : Option BatchRecord → ℕ
index_or_before none = before_global_index_offset
index_or_before (some r) = r.index

-- `SequencerPutBatchesRequest`
pub record SequencerPutBatchesRequest : Type 0 where
  pub app_name : String
  pub batches : List String
  pub sequenced_index : ℕ
  pub sequenced_chaining_hash : String
  pub locked_index : ℕ
  pub locked_chaining_hash : String
  pub finalized_index : ℕ
  pub timestamp : ℕ

pub record SequencerPutBatchesResponseData : Type 0 where
  pub batches : List String
  pub last_finalized_index : ℕ
  pub finalized_signatures : List SignatureData
  pub last_locked_signature : Option SignatureData

-- What comes of the request: an exception on the way, an error, or the data.
pub data Answer : Type 0 where
  no_answer : Answer
  refused : (code : String) → Answer
  accepted : SequencerPutBatchesResponseData → Answer

-- The singletons of a node's process.
pub record Process (Key : Type 0) : Type 0 where
  pub manager : Manager Key
  pub limiter : MovingWindowRateLimiter

-- The readings of the clocks during a call: the monotonic clock at its three uses, and the time.
pub record Clocks : Type 0 where
  pub at_capacity : ℕ
  pub at_acquire : ℕ
  pub after_acquire : ℕ
  pub time : ℕ

-- The database of a process.
abbrev pub zdb : {Key : Type 0} → Process Key → InMemoryDb
zdb p = p.manager.zdb

abbrev pub with_db : {Key : Type 0} → Process Key → InMemoryDb → Process Key
with_db p db = record p { manager = record p.manager { zdb = db } }

-- A run of statements: the state that it leaves, also where it raises.
abbrev pub Run : Type 0 → Type 0
Run S = S × Option Error

-- A statement that changes nothing if it raises.
unfoldable pub attempt : {S : Type 0} → S → Result S → Run S
attempt s (ok s') = (s', none)
attempt s (err e) = (s, some e)

unfoldable pub and_then : {S : Type 0} → Run S → (S → Run S) → Run S
and_then (s, some e) next = (s, some e)
and_then (s, none) next = next s

unfoldable pub make_request :
    InMemoryDb → String → List String → ℕ → Result SequencerPutBatchesRequest
unfolding index_or_before
make_request db app_name batch_bodies time = do
  last_sequenced ← get_last_operational_batch_record_or_empty db app_name sequenced
  last_locked ← get_last_operational_batch_record_or_empty db app_name locked
  last_finalized ← get_last_operational_batch_record_or_empty db app_name finalized
  ok (record {
    app_name = app_name;
    batches = batch_bodies;
    sequenced_index = index_or_before last_sequenced;
    sequenced_chaining_hash = hash_of_record last_sequenced;
    locked_index = index_or_before last_locked;
    locked_chaining_hash = hash_of_record last_locked;
    finalized_index = index_or_before last_finalized;
    timestamp = time;
  })

-- The part of `send_app_batches` before the request is sent.
unfoldable pub take_batches :
    {Key : Type 0}
    → Process Key
    → String
    → Clocks
    → Result (SequencerPutBatchesRequest × Process Key)
unfolding get_remaining_capacity_of_self_node make_request
take_batches p app_name clocks = do
  let (max_size, limiter) = get_remaining_capacity_of_self_node p.limiter clocks.at_capacity
  popped ← pop_limited_initialized_batch_bodies (zdb p) app_name max_size
  request ← make_request popped.1 app_name popped.0 clocks.time
  ok (request, with_db (record p { limiter = limiter }) popped.1)

module _ (net : Network) where
  -- A promotion whose result is only logged.
  unfoldable pub promote_or_log : InMemoryDb → String → SignatureData → Run InMemoryDb
  promote_or_log db app_name d =
      let (db', promoted) = promotion_outcome net db app_name d in
      elim promoted [ err e ↦ (db', some e) | ok b ↦ (db', none) ]

  -- The last locked signature of the answer, if it is above the last locked index and not above
  -- the last sequenced one.
  unfoldable pub lock_if_between :
      String → SignatureData → Option BatchRecord → Option BatchRecord → InMemoryDb → Run InMemoryDb
  unfolding promote_or_log index_or_before
  lock_if_between app_name d last_sequenced last_locked db =
      if ltb (index_or_before last_locked) d.index && leb d.index (index_or_before last_sequenced)
      then promote_or_log db app_name d
      else (db, none)

  unfoldable pub sync_locked : String → Option SignatureData → InMemoryDb → Run InMemoryDb
  unfolding lock_if_between
  sync_locked app_name signature db =
      elim (get_last_operational_batch_record_or_empty db app_name sequenced) [
        | err e ↦ (db, some e)
        | ok last_sequenced ↦ elim (get_last_operational_batch_record_or_empty db app_name locked) [
          | err e ↦ (db, some e)
          | ok last_locked ↦ elim signature [
            | none ↦ (db, none)
            | some d ↦ lock_if_between app_name d last_sequenced last_locked db
          ]
        ]
      ]

  -- The finalized signatures in their order, up to the first that does not promote.
  unfoldable pub sync_finalized : String → List SignatureData → InMemoryDb → Run InMemoryDb
  sync_finalized app_name [] db = (db, none)
  sync_finalized app_name (d ∷ rest) db =
      let (db', promoted) = promotion_outcome net db app_name d in
      elim promoted [
        | err e ↦ (db', some e)
        | ok true ↦ sync_finalized app_name rest db'
        | ok false ↦ (db', none)
      ]

  -- The last index of a state is tracked if there is one.
  unfoldable pub track_last : String → OperationalState → ℕ → InMemoryDb → Result InMemoryDb
  unfolding index_or_before
  track_last app_name state time db = do
    last ← get_last_operational_batch_record_or_empty db app_name state
    if index_or_before last == before_global_index_offset
        then ok db
        else track_sequencing_indices db app_name state (index_or_before last) time

  unfoldable pub sync_with_sequencer :
      String → SequencerPutBatchesResponseData → ℕ → InMemoryDb → Run InMemoryDb
  unfolding sync_locked sync_finalized track_last
  sync_with_sequencer app_name response time db =
      and_then
        (and_then
          (and_then
            (and_then
              (attempt db (insert_sequenced_batch_bodies net.gen_hash db app_name response.batches))
              (λ db1. sync_locked app_name response.last_locked_signature db1))
            (λ db2. sync_finalized app_name response.finalized_signatures db2))
          (λ db3. attempt db3 (track_last app_name sequenced time db3)))
        (λ db4. attempt db4 (track_last app_name finalized time db4))

  -- The bodies that were sent and did not come back. Python lists a set in an order of its own,
  -- which is `set_order`.
  unfoldable pub missing_from : List String → List String → List String
  missing_from batches [] = []
  missing_from batches (body ∷ rest) =
      let others = missing_from batches rest in
      if member str_eq body batches then others else body ∷ others

  unfoldable pub censored_batch_bodies : List String → List String → List String
  unfolding missing_from
  censored_batch_bodies sent batches = missing_from batches (to_set str_eq sent)

  module _ (set_order : List String → List String) where
    unfoldable pub mark_censoring : String → List String → InMemoryDb → Run InMemoryDb
    mark_censoring app_name [] db = attempt db (clear_sequencer_censoring db app_name)
    mark_censoring app_name (body ∷ bodies) db =
        and_then (attempt db (reinit_missed_batch_bodies db app_name (set_order (body ∷ bodies))))
          (λ db'. attempt db' (set_sequencer_censoring db' app_name))

    -- The database after an answer with data.
    unfoldable pub follow_sequencer :
        String → List String → SequencerPutBatchesResponseData → ℕ → InMemoryDb → Run InMemoryDb
    unfolding sync_with_sequencer mark_censoring censored_batch_bodies
    follow_sequencer app_name sent response time db =
        and_then (sync_with_sequencer app_name response time db) (λ db'.
          mark_censoring app_name (censored_batch_bodies sent response.batches)
            (record db' { is_sequencer_down = false }))

    abbrev run_db : Process net.Key → Run InMemoryDb → Run (Process net.Key)
    run_db p r = (with_db p r.0, r.1)

    -- The failover of a node whose sequencer says that it is none, or a sequencer that is down.
    unfoldable pub after_refusal :
        String → ℕ → (String → StateAnswer) → Process net.Key → Run (Process net.Key)
    after_refusal c time answers p =
        if str_eq c (code is_not_sequencer)
        then attempt p
            (reset_sequencer p.manager time answers >>= λ m. ok (record p { manager = m }))
        else (with_db p (record (zdb p) { is_sequencer_down = true }), none)

    -- The `try` block of `send_app_batches`, with what it returns.
    unfoldable pub handle_answer :
        SequencerPutBatchesRequest
        → Clocks
        → (String → StateAnswer)
        → Answer
        → Process net.Key
        → ℕ × Run (Process net.Key)
    unfolding follow_sequencer after_refusal try_acquire_rate_limit_of_self_node
    handle_answer request clocks answers no_answer p = (0, (p, some Error.runtime_error))
    handle_answer request clocks answers (refused c) p = (
      before_global_index_offset,
      and_then
          (attempt p (
            reinit_missed_batch_bodies (zdb p) request.app_name request.batches >>= λ db.
            ok (with_db p db)))
          (λ p'. after_refusal c clocks.time answers p'),
    )
    handle_answer request clocks answers (accepted response) p = (
      response.last_finalized_index,
      and_then
          (attempt p (
            node_send_limit_per_window p.manager.zconfig >>= λ limit. ok (record p {
              limiter =
                  (try_acquire_rate_limit_of_self_node limit p.limiter request.batches
                    clocks.at_acquire clocks.after_acquire).1;
            })))
          (λ q.
            run_db q
              (follow_sequencer request.app_name request.batches response clocks.time (zdb q))),
    )

    -- The `except` block: the bodies go back to the pool, and the sequencer is taken for down.
    unfoldable pub on_exception :
        SequencerPutBatchesRequest → ℕ × Run (Process net.Key) → Result (ℕ × Process net.Key)
    on_exception request (returned, (p, none)) = ok (returned, p)
    on_exception request (returned, (p, some e)) = do
      db ← reinit_missed_batch_bodies (zdb p) request.app_name request.batches
      ok (before_global_index_offset, with_db p (record db { is_sequencer_down = true }))

    unfoldable pub send_app_batches :
        Process net.Key
        → String
        → Clocks
        → (SequencerPutBatchesRequest → Answer)
        → (String → StateAnswer)
        → Result (ℕ × Process net.Key)
    unfolding take_batches handle_answer on_exception
    send_app_batches p app_name clocks answer answers = do
      taken ← take_batches p app_name clocks
      on_exception taken.0 (handle_answer taken.0 clocks answers (answer taken.0) taken.1)

    -- Whether the node has what the sequencer has finalized, with the process that is left.
    unfoldable pub send_app_batches_iteration :
        Process net.Key
        → String
        → Clocks
        → (SequencerPutBatchesRequest → Answer)
        → (String → StateAnswer)
        → Result (Bool × Process net.Key)
    unfolding send_app_batches index_or_before
    send_app_batches_iteration p app_name clocks answer answers = do
      sent ← send_app_batches p app_name clocks answer answers
      last ← get_last_operational_batch_record_or_empty (zdb sent.1) app_name sequenced
      ok ((sent.0 == before_global_index_offset) || leb sent.0 (index_or_before last), sent.1)
