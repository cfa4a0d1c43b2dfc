-- ===== src/NodeRoutes.antt =====
-- The routes of a node (node/routers.py): the arrival of batches from users, disputes, the switch of
-- the sequencer, and the reading of batches. Readings of clocks are arguments.
pub mod Dispute
use zsequencer.Prelude.{
  ℕ, ◌+◌, Bool, true, false, not, ◌&&◌, ◌||◌, ◌==◌, Option, none, some, List, [], ◌∷◌, String, ltb,
  leb, map, str_eq, if◌then◌else◌,
}
use zsequencer.State.{OperationalState, sequenced, locked, finalized}
use zsequencer.Errors.{
  Error, Result, ok, err, ◌>>=◌, key_error, index_error, assertion_error, http_error, raise_if,
  is_not_posting_node, invalid_request, batch_size_exceeded, batches_limit_exceeded,
  issue_not_found, invalid_timestamp, sequencer_change_not_approved, invalid_sequencer,
}
use zsequencer.Dict.{Dict, lookup, insert}
use zsequencer.Batch.{Batch, BatchRecord, get_utf8_size}
use zsequencer.BatchSequence.{BatchSequence, is_empty, get_first_or_empty}
use zsequencer.RateLimit.{MovingWindowRateLimiter}
use zsequencer.Network.{Network}
use zsequencer.Config
use zsequencer.Config.{Config, has_role, last_state, data_or_raise, node_send_limit_per_window}
use zsequencer.Guards.{
  validate_version, is_synced, not_sequencer, not_paused, verify_sequencer_access,
}
use zsequencer.Db.{InMemoryDb, SignatureData, init_batch_bodies, sequencer_init_batch_bodies}
use zsequencer.Db.Latency.{has_delayed_batches}
use zsequencer.Db.Query.{
  is_sequencer_censoring, get_last_operational_batch_record_or_empty,
  get_global_operational_batch_sequence,
}
use zsequencer.Switch.{
  SwitchProof, SwitchSettings, is_switch_approved, get_next_sequencer_id, node_of,
}
use zsequencer.SequencerManager.{Manager, names_of}
use zsequencer.SequencerRoutes.{
  is_name, value_or_raise, batch_of_record, finalized_signature_info, after_step, before_step,
}
use zsequencer.NodeTasks.{
  Process, zdb, with_db, Run, attempt, and_then, index_or_before,
  try_acquire_rate_limit_of_self_node,
}
use zsequencer.NodeTasks.Sign.{SignSyncPointRequest, sign_sync_point}

-- The bodies that are not too large.
unfoldable pub valid_batches : ℕ → List String → List String
valid_batches limit [] = []
valid_batches limit (item ∷ batches) =
    let rest = valid_batches limit batches in
    if leb (get_utf8_size item) limit then item ∷ rest else rest

-- The apps of a bulk request that are known.
unfoldable pub filtered_batches : List String → Dict (List String) → Dict (List String)
filtered_batches apps [] = []
filtered_batches apps ((app_name, batches) ∷ rest) =
    let others = filtered_batches apps rest in
    if is_name app_name apps then (app_name, batches) ∷ others else others

module _ (net : Network) (now later : ℕ) where
  -- The bodies go to the pool of a node; the sequencer takes them within its own rate limit and
  -- sequences them at once. The limiter is kept also where a step raises.
  unfoldable pub take_in : String → List String → Process net.Key → Run (Process net.Key)
  unfolding try_acquire_rate_limit_of_self_node
  take_in app_name bodies p = elim (Config.is_sequencer p.manager.zconfig) [
    | false ↦ attempt p (init_batch_bodies (zdb p) app_name bodies >>= λ db. ok (with_db p db))
    | true ↦ elim (node_send_limit_per_window p.manager.zconfig) [
      | err e ↦ (p, some e)
      | ok limit ↦
          let acquired = try_acquire_rate_limit_of_self_node limit p.limiter bodies now later in
          let p' : Process net.Key = record p { limiter = acquired.1 } in
          and_then (attempt p' (raise_if batches_limit_exceeded (not acquired.0) >>= λ u. ok p'))
            (λ q. attempt q (
              sequencer_init_batch_bodies net.gen_hash (zdb q) app_name bodies >>= λ db.
              ok (with_db q db)))
    ]
  ]

  -- The loop over the apps of a bulk request.
  unfoldable pub take_in_all : Dict (List String) → Process net.Key → Run (Process net.Key)
  unfolding take_in valid_batches
  take_in_all [] p = (p, none)
  take_in_all ((app_name, batches) ∷ rest) p =
      and_then (take_in app_name (valid_batches p.manager.zconfig.max_batch_size batches) p)
        (λ q. take_in_all rest q)

  unfoldable pub put_bulk_batches : Dict (List String) → Process net.Key → Run (Process net.Key)
  unfolding take_in_all filtered_batches
  put_bulk_batches request p = elim (has_role "posting" p.manager.zconfig.node.roles) [
    | false ↦ (p, some (http_error is_not_posting_node))
    | true ↦ take_in_all (filtered_batches p.manager.zconfig.apps request) p
  ]

  -- The checks on one body.
  unfoldable pub check_batch : Config net.Key → String → String → Result (Unit {0})
  check_batch c app_name body = do
    posting ← raise_if is_not_posting_node (not (has_role "posting" c.node.roles))
    named ← raise_if invalid_request (str_eq app_name "")
    known ← raise_if invalid_request (not (is_name app_name c.apps))
    raise_if batch_size_exceeded (ltb c.max_batch_size (get_utf8_size body))

  unfoldable pub put_batch : String → String → Process net.Key → Run (Process net.Key)
  unfolding take_in check_batch
  put_batch app_name body p =
      and_then (attempt p (check_batch p.manager.zconfig app_name body >>= λ u. ok p))
        (λ q. take_in app_name (body ∷ []) q)

-- The dependencies of the routes that take batches.
unfoldable pub put_guards : {Key : Type 0} → Config Key → String → Result (Unit {0})
put_guards c version =
    validate_version c "node" version >>= λ u1. is_synced c >>= λ u2. not_paused c

module _ (net : Network) (bls_sign : String → String) where
  -- The dependencies of the route in their order, then the signature.
  unfoldable pub post_sign_sync_point :
      Config net.Key
      → InMemoryDb
      → String
      → Option String
      → Option String
      → String
      → ℕ
      → SignSyncPointRequest
      → Result String
  post_sign_sync_point c db version signature signer body now request =
      validate_version c "node" version >>= λ u1. not_sequencer c >>= λ u2. is_synced c >>= λ u3.
      verify_sequencer_access net c signature signer body >>= λ u4.
      sign_sync_point net bls_sign db now request

-- `DisputeRequest`
pub record DisputeRequest : Type 0 where
  pub sequencer_id : String
  pub apps_censored_batches : Dict String
  pub timestamp : ℕ

-- The censored bodies of other nodes go to the pool.
unfoldable pub init_censored : Dict String → InMemoryDb → Run InMemoryDb
init_censored [] db = (db, none)
init_censored ((app_name, batch) ∷ rest) db =
    and_then (attempt db (init_batch_bodies db app_name (batch ∷ [])))
      (λ db'. init_censored rest db')

module _ {Key : Type 0} (c : Config Key) where
  -- The node sees the sequencer censor, be slow or be down; the tests run until one holds.
  unfoldable pub has_issue : InMemoryDb → ℕ → Result Bool
  has_issue db now = is_sequencer_censoring db c.apps >>= λ censoring.
      ok
        (censoring || has_delayed_batches c.finalization_time_border now db || db.is_sequencer_down)

  -- A dispute against this node, or against its sequencer with which it has no issue.
  unfoldable pub is_rejected : InMemoryDb → ℕ → DisputeRequest → Result Bool
  unfolding has_issue
  is_rejected db now request = elim (Config.is_sequencer c) [
    | true ↦ ok (str_eq request.sequencer_id c.node.id)
    | false ↦ elim (str_eq request.sequencer_id c.sequencer.id) [
      | false ↦ ok false
      | true ↦ has_issue db now >>= λ issue. ok (not issue)
    ]
  ]

  -- The time of the dispute is within 5 seconds of the clock.
  unfoldable pub is_timely : ℕ → ℕ → Bool
  is_timely now timestamp = leb now (timestamp + 5) && leb timestamp (now + 5)

  -- The nodes that the log line looks up.
  unfoldable pub log_nodes : Option String → String → Result (Unit {0})
  log_nodes none sequencer_id = err key_error
  log_nodes (some signer) sequencer_id = do
    s ← last_state c
    signer_data ← data_or_raise (lookup signer s.nodes)
    disputed ← data_or_raise (lookup sequencer_id s.nodes)
    current ← data_or_raise (lookup c.sequencer.id s.nodes)
    ok tt

  -- `dispute_message` is the hash of the sequencer's id and the time.
  module _ (bls_sign : String → String) (dispute_message : String → ℕ → String) where
    unfoldable pub confirm_dispute : ℕ → Option String → DisputeRequest → Result String
    unfolding is_timely log_nodes
    confirm_dispute now signer request = do
      timely ← raise_if invalid_timestamp (not (is_timely now request.timestamp))
      logged ← log_nodes signer request.sequencer_id
      ok (bls_sign (dispute_message request.sequencer_id request.timestamp))

    -- The part of `post_dispute` after the rejection of a dispute.
    unfoldable pub accept_dispute :
        ℕ → Option String → DisputeRequest → InMemoryDb → InMemoryDb × Result String
    unfolding init_censored confirm_dispute
    accept_dispute now signer request db =
        let run =
          if Config.is_sequencer c
          then (db, none)
          else init_censored request.apps_censored_batches db in
        (run.0, elim run.1 [ some e ↦ err e | none ↦ confirm_dispute now signer request ])

    -- `post_dispute`, with the database that it leaves, also where it raises.
    unfoldable pub post_dispute :
        ℕ → Option String → DisputeRequest → InMemoryDb → InMemoryDb × Result String
    unfolding is_rejected accept_dispute
    post_dispute now signer request db = elim (is_rejected db now request) [
      | err e ↦ (db, err e)
      | ok true ↦ (db, err (http_error issue_not_found))
      | ok false ↦ accept_dispute now signer request db
    ]

first_proof : List SwitchProof → Result SwitchProof
first_proof [] = err index_error
first_proof (proof ∷ proofs) = ok proof

-- The sequencer to which `post_switch_sequencer` starts the switch; its log line looks up both.
unfoldable pub post_switch_sequencer :
    {Key : Type 0} → SwitchSettings Key → Config Key → List SwitchProof → Result String
unfolding first_proof
post_switch_sequencer settings c proofs = do
  approved ← is_switch_approved settings proofs
  accepted ← raise_if sequencer_change_not_approved (not approved)
  proof ← first_proof proofs
  current ← raise_if invalid_sequencer (not (str_eq proof.sequencer_id c.sequencer.id))
  next ← get_next_sequencer_id c proof.sequencer_id
  old_node ← node_of settings proof.sequencer_id
  new_node ← node_of settings next
  ok next

-- `AppState`
pub record AppState : Type 0 where
  pub last_sequenced_index : ℕ
  pub last_locked_index : ℕ
  pub last_finalized_index : ℕ

-- The states of the apps that `get_state` gives.
unfoldable pub app_states : InMemoryDb → List String → Result (Dict AppState)
app_states db [] = ok []
app_states db (app_name ∷ rest) =
    get_last_operational_batch_record_or_empty db app_name sequenced >>= λ a.
    get_last_operational_batch_record_or_empty db app_name locked >>= λ b.
    get_last_operational_batch_record_or_empty db app_name finalized >>= λ c.
    app_states db rest >>= λ states.
    let app_state : AppState = record {
      last_sequenced_index = index_or_before a;
      last_locked_index = index_or_before b;
      last_finalized_index = index_or_before c;
    } in
    ok ((app_name, app_state) ∷ states)

-- The state of a path is "locked" or "finalized" here.
unfoldable pub is_signed_state : OperationalState → Bool
is_signed_state sequenced = false
is_signed_state state = true

-- The record that `get_last_batch_by_state` sends.
unfoldable pub get_last_batch_by_state :
    InMemoryDb → List String → String → OperationalState → Result (Option BatchRecord)
unfolding is_signed_state
get_last_batch_by_state db apps app_name state = do
  known ← raise_if invalid_request (not (is_name app_name apps))
  signed ← raise_if invalid_request (not (is_signed_state state))
  get_last_operational_batch_record_or_empty db app_name state

last_records : InMemoryDb → OperationalState → List String → Result (Dict BatchRecord)
last_records db state [] = ok []
last_records db state (app_name ∷ rest) =
    get_last_operational_batch_record_or_empty db app_name state >>= λ last.
    last_records db state rest >>= λ others.
    ok (elim last [ none ↦ others | some r ↦ (app_name, r) ∷ others ])

unfoldable pub get_last_batches_in_bulk_mode :
    InMemoryDb → List String → OperationalState → Result (Dict BatchRecord)
unfolding is_signed_state last_records
get_last_batches_in_bulk_mode db apps state = do
  signed ← raise_if invalid_request (not (is_signed_state state))
  last_records db state apps

-- `GetBatchesData`
pub record GetBatchesData : Type 0 where
  pub batches : List String
  pub first_chaining_hash : String
  pub finalized_signatures : List SignatureData

-- The signatures of the batches that have one, from the index of the first.
unfoldable pub signatures_from : ℕ → List Batch → Result (List SignatureData)
unfolding finalized_signature_info
signatures_from index [] = ok []
signatures_from index (batch ∷ rest) = elim batch.finalized_signature [
  | none ↦ signatures_from (index + 1) rest
  | some signature ↦ finalized_signature_info index batch >>= λ d.
      signatures_from (index + 1) rest >>= λ ds. ok (d ∷ ds)
]

-- The indices of the records are consecutive, so the assertion on all is one on the first.
batches_data : ℕ → BatchSequence → Result (Option GetBatchesData)
unfolding signatures_from
batches_data after s = elim (is_empty s.batches) [
  | true ↦ ok none
  | false ↦ elim (s.index_offset == after + 1) [
    | false ↦ err assertion_error
    | true ↦ batch_of_record (get_first_or_empty s sequenced) >>= λ first.
        signatures_from s.index_offset s.batches >>= λ ds. ok (
          some (record {
            batches = map (λ b. b.body) s.batches;
            first_chaining_hash = first.chaining_hash;
            finalized_signatures = ds;
          }))
  ]
]

unfoldable pub get_batches :
    Network
    → InMemoryDb
    → List String
    → String
    → OperationalState
    → ℕ
    → Option (Result (Option GetBatchesData))
unfolding batches_data
get_batches net db apps app_name state after =
    after_step (raise_if invalid_request (not (is_name app_name apps))) (λ u.
      before_step
        (get_global_operational_batch_sequence db app_name state net.node_receive_limit after)
        (λ s. some (batches_data after s)))
