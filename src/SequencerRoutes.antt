-- ===== src/SequencerRoutes.antt =====
-- The route by which nodes hand their batches to the sequencer (sequencer/routers.py) with the rate
-- limit of the other nodes (sequencer/rate_limit.py).
pub mod Walk
pub mod Admission
use zsequencer.Prelude.{
  ℕ, zero, suc, ◌+◌, Bool, true, false, not, ◌&&◌, ◌||◌, ◌==◌, Option, none, some, List, [], ◌∷◌,
  String, ltb, leb, map, length, str_eq, if◌then◌else◌,
}
use zsequencer.State.{sequenced, locked, finalized}
use zsequencer.Errors.{
  Result, ok, err, ◌>>=◌, key_error, raise_if, batches_limit_exceeded, batch_size_exceeded,
  permission_denied, invalid_request,
}
use zsequencer.Dict.{contains}
use zsequencer.Batch.{Batch, BatchRecord, get_utf8_size}
use zsequencer.BatchSequence.{
  BatchSequence, has_any, get_last_index_or_default, before_global_index_offset,
}
use zsequencer.RateLimit.{MovingWindowRateLimiter, update_max_cost, try_acquire}
use zsequencer.Network.{Network}
use zsequencer.Config.{Config, last_state, posting_nodes, node_send_limit_per_window}
use zsequencer.Guards.{validate_version, verify_node_access, sequencer_only, not_paused}
use zsequencer.Db.{SignatureData, NodeState, App, InMemoryDb, app_of, sequencer_init_batch_bodies}
use zsequencer.Db.Pool.{bodies_size}
use zsequencer.Db.Query.{
  get_global_operational_batch_sequence, get_last_operational_batch_record_or_empty,
  get_batch_record_by_index_or_empty,
}
use zsequencer.SyncPoint.{upsert_node_state}
use zsequencer.NodeTasks.{
  SequencerPutBatchesRequest, SequencerPutBatchesResponseData, index_or_before,
}

-- `now` and `later` are the clock in `get_remaining_capacity` and after it.
unfoldable pub try_acquire_rate_limit_of_other_nodes :
    ℕ → MovingWindowRateLimiter → String → List String → ℕ → ℕ → Bool × MovingWindowRateLimiter
try_acquire_rate_limit_of_other_nodes node_send_limit limiter node_id batch_bodies now later =
    try_acquire (update_max_cost limiter node_send_limit) node_id (bodies_size batch_bodies) now
      later

-- `d[key]`, or `KeyError`.
unfoldable pub value_or_raise {ℓ} : {V : Type ℓ} → Option V → Result V
value_or_raise none = err key_error
value_or_raise (some v) = ok v

-- `record["batch"]` of a record or of `{}`.
unfoldable pub batch_of_record : Option BatchRecord → Result Batch
unfolding value_or_raise
batch_of_record none = err key_error
batch_of_record (some r) = value_or_raise r.batch

-- The signature that locked a batch.
unfoldable pub locked_signature_info : ℕ → Batch → Result SignatureData
unfolding value_or_raise
locked_signature_info index batch = do
  parent_index ← value_or_raise batch.parent_index
  signature ← value_or_raise batch.locked_signature
  nonsigners ← value_or_raise batch.locked_nonsigners
  tag ← value_or_raise batch.locked_tag
  ok (record {
    state = sequenced;
    index = index;
    chaining_hash = batch.chaining_hash;
    signature = signature;
    nonsigners = nonsigners;
    tag = tag;
    timestamp = 0;
    parent_index = some parent_index;
  })

-- The signature that finalized a batch.
unfoldable pub finalized_signature_info : ℕ → Batch → Result SignatureData
unfolding value_or_raise
finalized_signature_info index batch = do
  parent_index ← value_or_raise batch.parent_index
  signature ← value_or_raise batch.finalized_signature
  nonsigners ← value_or_raise batch.finalized_nonsigners
  tag ← value_or_raise batch.finalized_tag
  timestamp ← value_or_raise batch.timestamp
  ok (record {
    state = locked;
    index = index;
    chaining_hash = batch.chaining_hash;
    signature = signature;
    nonsigners = nonsigners;
    tag = tag;
    timestamp = timestamp;
    parent_index = some parent_index;
  })

unfoldable pub last_locked_signature : Option BatchRecord → Result (Option SignatureData)
unfolding locked_signature_info value_or_raise
last_locked_signature none = ok none
last_locked_signature (some r) = do
  batch ← value_or_raise r.batch
  d ← locked_signature_info r.index batch
  ok (some d)

-- The condition of the loop over the finalized signatures, for an index that is there.
unfoldable pub is_within : BatchSequence → ℕ → Bool
is_within batch_sequence next_index =
    not (next_index == 0)
    && (not (has_any batch_sequence sequenced)
        || leb next_index
            (get_last_index_or_default batch_sequence sequenced before_global_index_offset))

module _ (db : InMemoryDb) (app_name : String) (batch_sequence : BatchSequence) where
  -- The batch at an index with the signature that finalized it.
  unfoldable pub signature_at : ℕ → Result (Batch × SignatureData)
  unfolding batch_of_record finalized_signature_info
  signature_at index = do
    found ← get_batch_record_by_index_or_empty db app_name index
    batch ← batch_of_record found
    d ← finalized_signature_info index batch
    ok (batch, d)

  add_signature :
      SignatureData → Option (Result (List SignatureData)) → Option (Result (List SignatureData))
  add_signature d none = none
  add_signature d (some (err e)) = some (err e)
  add_signature d (some (ok ds)) = some (ok (d ∷ ds))

  -- The loop along the next indices; it gives nothing when the fuel is used up.
  unfoldable pub finalized_signatures : ℕ → Option ℕ → Option (Result (List SignatureData))
  unfolding is_within signature_at add_signature
  finalized_signatures zero next_index = none
  finalized_signatures (suc fuel) none = some (ok [])
  finalized_signatures (suc fuel) (some next_index) = elim (is_within batch_sequence next_index) [
    | false ↦ some (ok [])
    | true ↦ elim (signature_at next_index) [
      | err e ↦ some (err e)
      | ok found ↦ add_signature found.1 (finalized_signatures fuel found.0.next_index)
    ]
  ]

next_of_record : Option BatchRecord → Option ℕ
next_of_record none = none
next_of_record (some r) = elim r.batch [ none ↦ none | some batch ↦ batch.next_index ]

-- Where the loop begins: after the finalized index of the node, or at the first finalized batch.
unfoldable pub first_next_index : InMemoryDb → SequencerPutBatchesRequest → Result (Option ℕ)
unfolding next_of_record
first_next_index db request = elim (request.finalized_index == 0) [
  | true ↦ ok db.first_finalized_index
  | false ↦
      get_batch_record_by_index_or_empty db request.app_name request.finalized_index >>= λ found.
      ok (next_of_record found)
]

-- As many rounds as the sequence of the app has batches, and two more.
unfoldable pub rounds : Result App → ℕ
rounds (err e) = 1
rounds (ok app) = suc (suc (length app.operational_batch_sequence.batches))

-- A step that may not return, after one that returns.
abbrev pub after_step {ℓ κ} :
    {V : Type ℓ} {W : Type κ} → Result V → (V → Option (Result W)) → Option (Result W)
after_step (err e) next = some (err e)
after_step (ok v) next = next v

-- A step that returns, after one that may not.
abbrev pub before_step {ℓ κ} :
    {V : Type ℓ} {W : Type κ} → Option (Result V) → (V → Option (Result W)) → Option (Result W)
before_step none next = none
before_step (some r) next = after_step r next

unfoldable pub node_state_of : SequencerPutBatchesRequest → String → ℕ → NodeState
node_state_of request node_id now = record {
  node_id = node_id;
  sequenced_index = request.sequenced_index;
  sequenced_chaining_hash = request.sequenced_chaining_hash;
  locked_index = request.locked_index;
  locked_chaining_hash = request.locked_chaining_hash;
  update_timestamp = now;
}

-- The response with the database that the call leaves.
unfoldable pub respond :
    InMemoryDb
    → SequencerPutBatchesRequest
    → String
    → ℕ
    → BatchSequence
    → Option SignatureData
    → ℕ
    → List SignatureData
    → Result (SequencerPutBatchesResponseData × InMemoryDb)
unfolding node_state_of
respond db request node_id now batch_sequence last_locked last_finalized signatures = do
  db' ← upsert_node_state db request.app_name (node_state_of request node_id now)
  ok (
    record {
      batches = map (λ b. b.body) batch_sequence.batches;
      last_finalized_index = last_finalized;
      finalized_signatures = signatures;
      last_locked_signature = last_locked;
    },
    db',
  )

module _ (net : Network) where
  -- `_put_batches`
  unfoldable pub process_batches :
      InMemoryDb
      → SequencerPutBatchesRequest
      → String
      → ℕ
      → Option (Result (SequencerPutBatchesResponseData × InMemoryDb))
  unfolding last_locked_signature finalized_signatures first_next_index rounds respond
  process_batches db0 request node_id now =
      after_step (sequencer_init_batch_bodies net.gen_hash db0 request.app_name request.batches)
        (λ db.
          before_step
            (get_global_operational_batch_sequence db request.app_name sequenced
              net.node_receive_limit request.sequenced_index)
            (λ batch_sequence.
              after_step
                (get_last_operational_batch_record_or_empty db request.app_name locked
                  >>= last_locked_signature)
                (λ last_locked.
                  after_step
                    (get_last_operational_batch_record_or_empty db request.app_name finalized)
                    (λ last_finalized. after_step (first_next_index db request) (λ next_index.
                      before_step
                        (finalized_signatures db request.app_name batch_sequence
                          (rounds (app_of db request.app_name)) next_index)
                        (λ signatures. some (
                          respond db request node_id now batch_sequence last_locked
                            (index_or_before last_finalized) signatures)))))))

-- `name in names`
unfoldable pub is_name : String → List String → Bool
is_name name [] = false
is_name name (n ∷ names) = if str_eq name n then true else is_name name names

-- Some batch is larger than the limit.
unfoldable pub any_exceeds : ℕ → List String → Bool
any_exceeds limit [] = false
any_exceeds limit (batch ∷ batches) = ltb limit (get_utf8_size batch) || any_exceeds limit batches

module _ (net : Network) (c : Config net.Key) where
  -- The checks of `put_batches`, with the limiter that they leave.
  unfoldable pub admit :
      MovingWindowRateLimiter
      → SequencerPutBatchesRequest
      → String
      → ℕ
      → ℕ
      → Result MovingWindowRateLimiter
  unfolding try_acquire_rate_limit_of_other_nodes any_exceeds is_name
  admit limiter request node_id now later = do
    limit ← node_send_limit_per_window c
    let (granted, limiter') =
        try_acquire_rate_limit_of_other_nodes limit limiter node_id request.batches now later
    limited ← raise_if batches_limit_exceeded (not granted)
    sized ← raise_if batch_size_exceeded (any_exceeds c.max_batch_size request.batches)
    s ← last_state c
    posting ← raise_if permission_denied (not (contains node_id (posting_nodes s)))
    known ← raise_if invalid_request (not (is_name request.app_name c.apps))
    ok limiter'

  -- The dependencies of the route, in their order.
  unfoldable pub put_batches_guards :
      String → Option String → Option String → String → Result (Unit {0})
  put_batches_guards version signature signer body =
      validate_version c "sequencer" version >>= λ u1.
      verify_node_access net c signature signer body >>= λ u2.
      sequencer_only c >>= λ u3. not_paused c

  -- The handler; `time` is the clock of the update, `now` and `later` those of the limiter.
  unfoldable pub put_batches :
      MovingWindowRateLimiter
      → InMemoryDb
      → SequencerPutBatchesRequest
      → String
      → ℕ
      → ℕ
      → ℕ
      → Option (Result (SequencerPutBatchesResponseData × InMemoryDb × MovingWindowRateLimiter))
  unfolding admit process_batches
  put_batches limiter db request node_id now later time =
      after_step (admit limiter request node_id now later) (λ limiter'.
        before_step (process_batches net db request node_id time)
          (λ done. some (ok (done.0, done.1, limiter'))))
