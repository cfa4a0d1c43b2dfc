-- ===== src/Tests/Sending.antt =====
-- A node that sends its pool, signs a sync point and hands batches to the sequencer.
use mathlib.Core.List.{reverse}
use zsequencer.Prelude.{
  ◌≡◌, ◌++◌, refl, sym, ℕ, String, true, false, none, some, List, [], ◌∷◌, arith, Option, zero, suc,
  ◌-◌, get_elem?, lt_or_le, inl, inr,
}
use zsequencer.Errors.{ok, err, Result}
use zsequencer.Dict.{lookup, insert}
use zsequencer.Batch.{Batch, get_utf8_size, get_batch_size}
use zsequencer.BatchSequence
use zsequencer.BatchSequence.{
  BatchSequence, get_batch_or_empty, append, get_last_or_empty, get_or_empty, get_state,
  get_first_index_or_default, has_any, get_last_index_or_default, batches_size,
}
use zsequencer.BatchSequence.Filter.{
  filter, truncate_by_size, before_index_offset, excluding_last_index, excludes_target,
  final_start_inclusive, final_end_exclusive, cut, target_last_index, window, relative,
}
use zsequencer.Prelude.Int.{◌-ℤ◌, ◌+ℤ◌}
use zsequencer.ExtendedInt as ExtendedInt
use zsequencer.Distinct.{to_set}
use zsequencer.Config.{
  last_state, state_at, posting_nodes, has_role, node_send_limit_per_window,
  node_receive_limit_per_window,
}
use zsequencer.SyncPoint.{upsert_node_state}
use zsequencer.Db.Latency.{track_sequencing_indices}
use zsequencer.Db.Query.{
  get_last_operational_batch_record_or_empty, clear_sequencer_censoring,
  get_batch_record_by_index_or_empty, get_global_operational_batch_sequence,
}
use zsequencer.RateLimit.{
  MovingWindowRateLimiter, get_remaining_capacity, try_acquire, check_capacity, update_max_cost,
}
use zsequencer.RateLimit.Acquire
use zsequencer.Db.{
  SignatureData, App, InMemoryDb, app_of, put_app, pop_limited_initialized_batch_bodies,
  insert_sequenced_batch_bodies, sequencer_init_batch_bodies,
}
use zsequencer.Db.Pool.{with_pool, bodies_size}
use zsequencer.Db.Promotion.Valid.{AppsValid}
use zsequencer.NodeTasks.{
  Process, Clocks, Answer, no_answer, accepted, zdb, SequencerPutBatchesRequest,
  SequencerPutBatchesResponseData, take_batches, send_app_batches,
  get_remaining_capacity_of_self_node, try_acquire_rate_limit_of_self_node, and_then, attempt,
}
use zsequencer.NodeTasks.Send.{send_app_batches_failed, take_batches-fits}
use zsequencer.NodeTasks.Valid.{send_app_batches-AppsValid}
use zsequencer.NodeTasks.Sign.{SignSyncPointRequest, sign_sync_point, sync_point_hash}
use zsequencer.NodeTasks.Sign.Checks.{IsChecked, sign_sync_point-IsChecked}
use zsequencer.SequencerRoutes.{put_batches, finalized_signatures, rounds}
use zsequencer.SequencerRoutes.Walk.{finalized_signatures-return, IsForward}
use zsequencer.SequencerRoutes.Admission.{IsAdmitted, put_batches-IsAdmitted}
use zsequencer.Tests.Sequence.{three, first, second, third}
use zsequencer.Tests.Node.{net, db, app, new_db, new_app, new_sequence-IsValid}
use zsequencer.Tests.Cluster.{config, state_answers}

abbrev limiter : MovingWindowRateLimiter
limiter = record { max_cost = 10; window_length = 5; windows = [] }

limiter-IsValid : Acquire.IsValid limiter 0
unfolding lookup
limiter-IsValid = record { exact = λ id w e. absurd (cc); past = λ id w e. absurd (cc) }

abbrev process : Process ℕ
process = record {
  manager = record { zconfig = config; zdb = new_db; has_received_node_updates = false };
  limiter = limiter;
}

abbrev clocks : Clocks
clocks = record { at_capacity = 3; at_acquire = 4; after_acquire = 5; time = 9 }

known : app_of new_db "a" ≡ ok new_app
unfolding app_of lookup
known = refl

config_limit : node_send_limit_per_window config ≡ ok 10
unfolding node_send_limit_per_window node_receive_limit_per_window last_state state_at posting_nodes
    has_role
config_limit = refl

take_batches-fits_example :
    (request : SequencerPutBatchesRequest) × (p' : Process ℕ) × (take_batches process "a" clocks
      ≡ ok (request, p'))
    × ((try_acquire_rate_limit_of_self_node 10 p'.limiter request.batches 4 5).0 ≡ true)
take_batches-fits_example =
    take_batches-fits process "a" new_app clocks 0 known (omega arith) limiter-IsValid 10
      config_limit refl

send_app_batches_failed_example :
    (taken left : List String) × (popped : InMemoryDb) × (p' : Process ℕ)
    × (pop_limited_initialized_batch_bodies new_db "a"
          (get_remaining_capacity_of_self_node limiter 3).0
        ≡ ok (taken, popped))
    × (taken ++ left ≡ "xx" ∷ "yyy" ∷ [])
    × (send_app_batches net (λ s. s) process "a" clocks (λ request. no_answer) state_answers
        ≡ ok (0, p'))
    × (app_of (zdb p') "a" ≡ ok (with_pool new_app (reverse taken ++ left)))
    × ((zdb p').is_sequencer_down ≡ true)
send_app_batches_failed_example =
    send_app_batches_failed net (λ s. s) process "a" new_app clocks (λ request. no_answer)
      state_answers known (λ request. refl)

-- The sequencer sequences what it is sent.
abbrev echo : SequencerPutBatchesRequest → Answer
echo request = accepted (record {
  batches = request.batches;
  last_finalized_index = 0;
  finalized_signatures = [];
  last_locked_signature = none;
})

process_of : Result (ℕ × Process ℕ) → Process ℕ
process_of (ok (n, p)) = p
process_of (err e) = process

abbrev sent : Process ℕ
sent = process_of (send_app_batches net (λ s. s) process "a" clocks echo state_answers)

sent_ok : send_app_batches net (λ s. s) process "a" clocks echo state_answers ≡ ok (0, sent)
unfolding send_app_batches process_of pop_limited_initialized_batch_bodies app_of lookup
    get_last_operational_batch_record_or_empty put_app insert and_then attempt
    insert_sequenced_batch_bodies get_remaining_capacity get_utf8_size append
    track_sequencing_indices to_set clear_sequencer_censoring node_send_limit_per_window
    node_receive_limit_per_window last_state state_at posting_nodes has_role
sent_ok = refl

pub new_db-AppsValid : AppsValid new_db
unfolding lookup
new_db-AppsValid name x e =
    let same : new_app ≡ x = ground arith in rw (sym same) new_sequence-IsValid

send_app_batches-AppsValid_example : AppsValid (zdb sent)
send_app_batches-AppsValid_example =
    send_app_batches-AppsValid net (λ s. s) process "a" clocks echo state_answers 0 sent sent_ok
      new_db-AppsValid

-- A point on the sequenced batch 6 of three, whose batch 4 is the last finalized one.
abbrev request : SignSyncPointRequest
request = record {
  app_name = "a";
  state = "sequenced";
  index = 6;
  parent_index = 4;
  chaining_hash = "hc";
  timestamp = 0;
}

signed_point : sign_sync_point net (λ s. s) db 9 request ≡ ok "hc"
unfolding sign_sync_point app_of lookup get_last_operational_batch_record_or_empty get_last_or_empty
    get_batch_or_empty get_batch_record_by_index_or_empty get_or_empty get_state
signed_point = refl

sign_sync_point-IsChecked_example :
    IsChecked db 9 request × ("hc" ≡ sync_point_hash net (λ s. s) request)
sign_sync_point-IsChecked_example =
    sign_sync_point-IsChecked net (λ s. s) db 9 request "hc" signed_point

-- A node hands two bodies to the sequencer.
abbrev batches_request : SequencerPutBatchesRequest
batches_request = record {
  app_name = "a";
  batches = "xx" ∷ "yyy" ∷ [];
  sequenced_index = 0;
  sequenced_chaining_hash = "";
  locked_index = 0;
  locked_chaining_hash = "";
  finalized_index = 0;
  timestamp = 0;
}

abbrev sequencer_db : InMemoryDb
sequencer_db = record new_db { first_finalized_index = none }

response_of :
    Option (Result (SequencerPutBatchesResponseData × InMemoryDb × MovingWindowRateLimiter))
    → SequencerPutBatchesResponseData × InMemoryDb × MovingWindowRateLimiter
response_of (some (ok r)) = r
response_of r = (
  record {
    batches = [];
    last_finalized_index = 0;
    finalized_signatures = [];
    last_locked_signature = none;
  },
  sequencer_db,
  limiter,
)

abbrev responded : SequencerPutBatchesResponseData × InMemoryDb × MovingWindowRateLimiter
responded = response_of (put_batches net config limiter sequencer_db batches_request "n" 3 4 9)

responded_ok :
    put_batches net config limiter sequencer_db batches_request "n" 3 4 9
    ≡ some (ok (responded.0, responded.1, responded.2))
unfolding put_batches response_of try_acquire bodies_size get_utf8_size check_capacity
    get_remaining_capacity lookup update_max_cost node_send_limit_per_window
    node_receive_limit_per_window last_state state_at posting_nodes has_role
    sequencer_init_batch_bodies app_of get_global_operational_batch_sequence put_app insert
    get_first_index_or_default has_any get_last_index_or_default append filter truncate_by_size
    BatchSequence.empty get_last_operational_batch_record_or_empty get_last_or_empty
    before_index_offset ExtendedInt.from_optional_int excluding_last_index excludes_target
    final_start_inclusive final_end_exclusive cut target_last_index upsert_node_state get_state
    batches_size get_batch_size ExtendedInt.ge ExtendedInt.add ExtendedInt.max ◌-ℤ◌ ExtendedInt.min
    window relative ◌+ℤ◌
responded_ok = refl

put_batches-IsAdmitted_example : IsAdmitted net config limiter batches_request "n" 3 4 9 responded.1
put_batches-IsAdmitted_example =
    put_batches-IsAdmitted net config limiter sequencer_db batches_request "n" 3 4 9 responded.0
      responded.1 responded.2 responded_ok

-- The finalized batch 4 is followed by the batch 5.
abbrev linked : BatchSequence
linked = record three { batches = record first { next_index = some 5 } ∷ second ∷ third ∷ [] }

linked_next :
    (n j : ℕ) (b : Batch)
    → get_elem? linked.batches n ≡ some b
    → b.next_index ≡ some j
    → (n ≡ 0) × (j ≡ 5)
linked_next zero j b h k = (refl, cc)
linked_next (suc zero) j b h k = absurd (cc)
linked_next (suc (suc zero)) j b h k = absurd (cc)
linked_next (suc (suc (suc n))) j b h k = absurd (cc)

linked-IsForward : IsForward linked
unfolding get_batch_or_empty
linked-IsForward i j b h k = elim (lt_or_le i 4) [
  | inl x ↦ absurd (ground arith)
  | inr x ↦ let (m, l) = linked_next (i - 4) j b (ground arith) k in omega (arith, x, m, l)
]

abbrev linked_app : App
linked_app = record app { operational_batch_sequence = linked }

abbrev linked_db : InMemoryDb
linked_db = record db { apps = ("a", linked_app) ∷ [] }

linked_known : app_of linked_db "a" ≡ ok linked_app
unfolding app_of lookup
linked_known = refl

finalized_signatures-return_example :
    (r : Result (List SignatureData)) × (finalized_signatures linked_db "a" linked
        (rounds (app_of linked_db "a"))
        (some 4)
      ≡ some r)
finalized_signatures-return_example =
    finalized_signatures-return linked_db "a" linked linked_app linked_known linked-IsForward
      (some 4)
