-- ===== src/NodeTasks/Valid.antt =====
-- A node that sends its pool keeps the sequences of its apps valid, whatever it is answered.
use zsequencer.Prelude.{
  ℕ, ◌≡◌, refl, ap, true, false, ◌&&◌, ◌==◌, Option, none, some, List, [], ◌∷◌, String, str_eq, ltb,
  leb, Bool-cases, Option-cases, inl, inr,
}
use mathlib.Core.Path.{subst}
use zsequencer.State.{OperationalState, sequenced, locked, finalized}
use zsequencer.Errors.{Result, ok, err, >>=-eq-ok, ok-eq-ok, Result-cases, code, is_not_sequencer}
use zsequencer.BatchSequence.{before_global_index_offset}
use zsequencer.Network.{Network}
use zsequencer.Config.{update_sequencer, node_send_limit_per_window}
use zsequencer.Db.{
  SignatureData, InMemoryDb, reinit_missed_batch_bodies, pop_limited_initialized_batch_bodies,
}
use zsequencer.Db.Promotion.Valid.{AppsValid}
use zsequencer.Db.Promotion.Outcome.{promotion_outcome}
use zsequencer.Db.Promotion.Raised.{promotion_outcome-AppsValid}
use zsequencer.Db.Latency.{reinitialize_sequenced_batches, reset_latency_queue}
use zsequencer.Db.Query.{
  set_sequencer_censoring, clear_sequencer_censoring, get_last_operational_batch_record_or_empty,
}
use zsequencer.Db.Valid.{
  modify-AppsValid, reinit_missed-AppsValid, set_censoring-AppsValid, track-AppsValid,
  reset_latency_queue-AppsValid, reinitialize-AppsValid, insert_sequenced-AppsValid,
  pop_limited-AppsValid,
}
use zsequencer.SequencerManager.{
  Manager, StateAnswer, forget_nodes_state, reset_apps, names_of, reset_to, reset_if_other,
  reset_sequencer, find_network_sequencer,
}
use zsequencer.NodeTasks.{
  Run, attempt, and_then, Process, Clocks, Answer, no_answer, refused, accepted, zdb,
  SequencerPutBatchesRequest, SequencerPutBatchesResponseData, take_batches, make_request,
  promote_or_log, lock_if_between, sync_locked, sync_finalized, track_last, sync_with_sequencer,
  mark_censoring, follow_sequencer, after_refusal, handle_answer, on_exception, send_app_batches,
  index_or_before, get_remaining_capacity_of_self_node,
}

-- The state that a run leaves has a property, also where it raises.
pub record Kept {S : Type 0} (P : S → Type 0) (run : Run S) : Type 0 where
  pub kept : P run.0

module _ {S : Type 0} {P : S → Type 0} where
  pub attempt_keeps :
      (s : S) (r : Result S) → P s → ((s' : S) → r ≡ ok s' → P s') → Kept P (attempt s r)
  unfolding attempt
  attempt_keeps s (ok s') p keeps = record { kept = keeps s' refl }
  attempt_keeps s (err e) p keeps = record { kept = p }

  pub and_then_keeps :
      {run : Run S} {next : S → Run S}
      → Kept P run
      → ((s : S) → P s → Kept P (next s))
      → Kept P (and_then run next)
  unfolding and_then
  and_then_keeps {run = (s, some e)} k keeps = record { kept = k.kept }
  and_then_keeps {run = (s, none)} k keeps = keeps s k.kept

module _ (db : InMemoryDb) (name : String) where
  pub forget-AppsValid :
      (db' : InMemoryDb) → forget_nodes_state db name ≡ ok db' → AppsValid db → AppsValid db'
  unfolding forget_nodes_state
  forget-AppsValid db' = modify-AppsValid db name _ db' (λ app v. v)

pub reset_apps-AppsValid :
    (now : ℕ) (names : List String) (db db' : InMemoryDb)
    → reset_apps now db names ≡ ok db'
    → AppsValid db
    → AppsValid db'
unfolding reset_apps
reset_apps-AppsValid now [] db db' h a = rw (ok-eq-ok h) at a
reset_apps-AppsValid now (name ∷ names) db db' h a =
    let (db1, e1, h1) = >>=-eq-ok (reinitialize_sequenced_batches db name) _ h in
    let (db2, e2, h2) = >>=-eq-ok (forget_nodes_state db1 name) _ h1 in
    let (db3, e3, h3) = >>=-eq-ok (reset_latency_queue db2 name now) _ h2 in
    reset_apps-AppsValid now names db3 db' h3 (
      reset_latency_queue-AppsValid db2 name now db3 e3
        (forget-AppsValid db1 name db2 e2 (reinitialize-AppsValid db name db1 e1 a)))

module _ {Key : Type 0} where
  reset_if_other-AppsValid :
      (m : Manager Key) (now : ℕ) (found : Option String) (m' : Manager Key)
      → reset_if_other m now found ≡ ok m'
      → AppsValid m.zdb
      → AppsValid m'.zdb
  unfolding reset_if_other reset_to
  reset_if_other-AppsValid m now none m' h a = let e : m ≡ m' = ok-eq-ok h in rw e at a
  reset_if_other-AppsValid m now (some id) m' h a =
      elim (Bool-cases (str_eq m.zconfig.sequencer.id id)) [
        | inl x ↦ let e : m ≡ m' = ok-eq-ok (rw x at h) in rw e at a
        | inr x ↦
            let (c, e1, h1) = >>=-eq-ok (update_sequencer m.zconfig id) _ (rw x at h) in
            let (db, e2, h2) = >>=-eq-ok (reset_apps now m.zdb (names_of m.zdb.apps)) _ h1 in
            let same : db ≡ m'.zdb = ap (λ (x : Manager Key). x.zdb) (ok-eq-ok h2) in
            rw same at (reset_apps-AppsValid now (names_of m.zdb.apps) m.zdb db e2 a)
      ]

  pub reset_sequencer-AppsValid :
      (m : Manager Key) (now : ℕ) (answers : String → StateAnswer) (m' : Manager Key)
      → reset_sequencer m now answers ≡ ok m'
      → AppsValid m.zdb
      → AppsValid m'.zdb
  unfolding reset_sequencer
  reset_sequencer-AppsValid m now answers m' h a =
      let (found, e, h1) = >>=-eq-ok (find_network_sequencer m.zconfig answers) _ h in
      reset_if_other-AppsValid m now found m' h1 a

module _ (net : Network) (name : String) where
  promote_or_log-AppsValid :
      (db : InMemoryDb) (d : SignatureData)
      → AppsValid db
      → Kept AppsValid (promote_or_log net db name d)
  unfolding promote_or_log
  promote_or_log-AppsValid db d a =
      let k = promotion_outcome-AppsValid net name db d a in
      elim (Result-cases (promotion_outcome net db name d).1) [
        | inr (x, e) ↦ rw (promote_or_log, e) (record { kept = k.valid })
        | inl (b, e) ↦ rw (promote_or_log, e) (record { kept = k.valid })
      ]

  sync_locked-AppsValid :
      (signature : Option SignatureData) (db : InMemoryDb)
      → AppsValid db
      → Kept AppsValid (sync_locked net name signature db)
  unfolding sync_locked lock_if_between
  sync_locked-AppsValid signature db a =
      elim (Result-cases (get_last_operational_batch_record_or_empty db name sequenced)) [
        | inr (x, e) ↦ rw (sync_locked, e) (record { kept = a })
        | inl (l, e) ↦
            elim (Result-cases (get_last_operational_batch_record_or_empty db name locked)) [
              | inr (x, f) ↦ rw (sync_locked, e, f) (record { kept = a })
              | inl (k, f) ↦ elim (Option-cases signature) [
                | inl g ↦ rw (sync_locked, e, f, g) (record { kept = a })
                | inr (d, g) ↦
                    elim (Bool-cases
                      (ltb (index_or_before k) d.index && leb d.index (index_or_before l))) [
                        | inl x ↦
                            rw (sync_locked, e, f, g, lock_if_between, x)
                              (promote_or_log-AppsValid db d a)
                        | inr x ↦
                            rw (sync_locked, e, f, g, lock_if_between, x) (record { kept = a })
                      ]
              ]
            ]
      ]

  sync_finalized-AppsValid :
      (ds : List SignatureData) (db : InMemoryDb)
      → AppsValid db
      → Kept AppsValid (sync_finalized net name ds db)
  unfolding sync_finalized
  sync_finalized-AppsValid [] db a = record { kept = a }
  sync_finalized-AppsValid (d ∷ ds) db a =
      let k = promotion_outcome-AppsValid net name db d a in
      elim (Result-cases (promotion_outcome net db name d).1) [
        | inl (true, e) ↦ rw (sync_finalized, e) (sync_finalized-AppsValid ds _ k.valid)
        | inl (false, e) ↦ rw (sync_finalized, e) (record { kept = k.valid })
        | inr (x, e) ↦ rw (sync_finalized, e) (record { kept = k.valid })
      ]

  track_last-AppsValid :
      (state : OperationalState) (time : ℕ) (db db' : InMemoryDb)
      → track_last net name state time db ≡ ok db'
      → AppsValid db
      → AppsValid db'
  unfolding track_last
  track_last-AppsValid state time db db' h a =
      let (l, e, h1) = >>=-eq-ok (get_last_operational_batch_record_or_empty db name state) _ h in
      elim (Bool-cases (index_or_before l == before_global_index_offset)) [
        | inl x ↦ rw (ok-eq-ok (rw x at h1)) at a
        | inr x ↦ track-AppsValid db name state (index_or_before l) time db' (rw x at h1) a
      ]

  sync_with_sequencer-AppsValid :
      (response : SequencerPutBatchesResponseData) (time : ℕ) (db : InMemoryDb)
      → AppsValid db
      → Kept AppsValid (sync_with_sequencer net name response time db)
  unfolding sync_with_sequencer
  sync_with_sequencer-AppsValid response time db a =
      and_then_keeps
        (and_then_keeps
          (and_then_keeps
            (and_then_keeps
              (attempt_keeps db _ a
                (λ x e. insert_sequenced-AppsValid db name net.gen_hash response.batches x e a))
              (λ d1 v. sync_locked-AppsValid response.last_locked_signature d1 v))
            (λ d2 v. sync_finalized-AppsValid response.finalized_signatures d2 v))
          (λ d3 v. attempt_keeps d3 _ v (λ x e. track_last-AppsValid sequenced time d3 x e v)))
        (λ d4 v. attempt_keeps d4 _ v (λ x e. track_last-AppsValid finalized time d4 x e v))

  module _ (set_order : List String → List String) where
    mark_censoring-AppsValid :
        (bodies : List String) (db : InMemoryDb)
        → AppsValid db
        → Kept AppsValid (mark_censoring net set_order name bodies db)
    unfolding mark_censoring set_sequencer_censoring clear_sequencer_censoring
    mark_censoring-AppsValid [] db a =
        attempt_keeps db _ a (λ x e. set_censoring-AppsValid db name false x e a)
    mark_censoring-AppsValid (b ∷ bs) db a =
        and_then_keeps
          (attempt_keeps db _ a (λ x e. reinit_missed-AppsValid db name (set_order (b ∷ bs)) x e a))
          (λ d v. attempt_keeps d _ v (λ x e. set_censoring-AppsValid d name true x e v))

    follow_sequencer-AppsValid :
        (sent : List String) (response : SequencerPutBatchesResponseData) (time : ℕ)
        (db : InMemoryDb)
        → AppsValid db
        → Kept AppsValid (follow_sequencer net set_order name sent response time db)
    unfolding follow_sequencer
    follow_sequencer-AppsValid sent response time db a =
        and_then_keeps (sync_with_sequencer-AppsValid response time db a)
          (λ d v. mark_censoring-AppsValid _ (record d { is_sequencer_down = false }) v)

    after_refusal-AppsValid :
        (c : String) (time : ℕ) (answers : String → StateAnswer) (p : Process net.Key)
        → AppsValid (zdb p)
        → Kept (λ q. AppsValid (zdb q)) (after_refusal net set_order c time answers p)
    unfolding after_refusal
    after_refusal-AppsValid c time answers p a =
        elim (Bool-cases (str_eq c (code is_not_sequencer))) [
          | inl x ↦ rw x (
              attempt_keeps p _ a (λ q e.
                let (m, e1, h1) = >>=-eq-ok (reset_sequencer p.manager time answers) _ e in
                let same : m ≡ q.manager = ap (λ (x : Process net.Key). x.manager) (ok-eq-ok h1) in
                rw same at (reset_sequencer-AppsValid p.manager time answers m e1 a)))
          | inr x ↦ rw x (record { kept = a })
        ]

module _ (net : Network) (set_order : List String → List String) where
  handle_answer-AppsValid :
      (request : SequencerPutBatchesRequest) (clocks : Clocks) (answers : String → StateAnswer)
      (answer : Answer) (p : Process net.Key)
      → AppsValid (zdb p)
      → Kept
          (λ q. AppsValid (zdb q))
          (handle_answer net set_order request clocks answers answer p).1
  unfolding handle_answer
  handle_answer-AppsValid request clocks answers no_answer p a = record { kept = a }
  handle_answer-AppsValid request clocks answers (refused c) p a =
      and_then_keeps
        (attempt_keeps p _ a (λ q e.
          let (db, e1, h1) =
            >>=-eq-ok (reinit_missed_batch_bodies (zdb p) request.app_name request.batches) _ e in
          let same : db ≡ zdb q = ap (λ (x : Process net.Key). zdb x) (ok-eq-ok h1) in
          rw same at (reinit_missed-AppsValid (zdb p) request.app_name request.batches db e1 a)))
        (λ q v. after_refusal-AppsValid net request.app_name set_order c clocks.time answers q v)
  handle_answer-AppsValid request clocks answers (accepted response) p a =
      and_then_keeps
        (attempt_keeps p _ a (λ q e.
          let (limit, e1, h1) = >>=-eq-ok (node_send_limit_per_window p.manager.zconfig) _ e in
          let same : zdb p ≡ zdb q = ap (λ (x : Process net.Key). zdb x) (ok-eq-ok h1) in
          rw same at a))
        (λ q v. record {
          kept =
              (follow_sequencer-AppsValid net request.app_name set_order request.batches response
                clocks.time (zdb q) v).kept;
        })

  on_exception-AppsValid :
      (request : SequencerPutBatchesRequest) (r : ℕ × Run (Process net.Key)) (n : ℕ)
      (p' : Process net.Key)
      → on_exception net set_order request r ≡ ok (n, p')
      → Kept (λ q. AppsValid (zdb q)) r.1
      → AppsValid (zdb p')
  unfolding on_exception
  on_exception-AppsValid request (k, (p, none)) n p' h a =
      let same : p ≡ p' = cc in rw same at a.kept
  on_exception-AppsValid request (k, (p, some x)) n p' h a =
      let (db, e1, h1) =
        >>=-eq-ok (reinit_missed_batch_bodies (zdb p) request.app_name request.batches) _ h in
      let same : record db { is_sequencer_down = true } ≡ zdb p' =
        ap (λ (x : ℕ × Process net.Key). zdb x.1) (ok-eq-ok h1) in
      let v : AppsValid (record db { is_sequencer_down = true }) =
        reinit_missed-AppsValid (zdb p) request.app_name request.batches db e1 a.kept in
      subst AppsValid same v

  taken-AppsValid :
      (p : Process net.Key) (name : String) (clocks : Clocks) (request : SequencerPutBatchesRequest)
      (p' : Process net.Key)
      → take_batches p name clocks ≡ ok (request, p')
      → AppsValid (zdb p)
      → AppsValid (zdb p')
  unfolding take_batches
  taken-AppsValid p name clocks request p' h a =
      let room = (get_remaining_capacity_of_self_node p.limiter clocks.at_capacity).0 in
      let ((taken, db), e, h1) =
        >>=-eq-ok (pop_limited_initialized_batch_bodies (zdb p) name room) _ h in
      let (r, e2, h2) = >>=-eq-ok (make_request db name taken clocks.time) _ h1 in
      let same : db ≡ zdb p' =
        ap (λ (x : SequencerPutBatchesRequest × Process net.Key). zdb x.1) (ok-eq-ok h2) in
      rw same at (pop_limited-AppsValid (zdb p) name room taken db e a)

  -- If the sequences of all apps are valid, they are so after every call of send_app_batches
  -- that returns, whether the sequencer refuses, does not answer or answers with batches and
  -- signatures, and also where a step on the answer raises, which leaves what a promotion had
  -- done before it raised.
  pub send_app_batches-AppsValid :
      (p : Process net.Key) (name : String) (clocks : Clocks)
      (answer : SequencerPutBatchesRequest → Answer) (answers : String → StateAnswer) (n : ℕ)
      (p' : Process net.Key)
      → send_app_batches net set_order p name clocks answer answers ≡ ok (n, p')
      → AppsValid (zdb p)
      → AppsValid (zdb p')
  unfolding send_app_batches
  send_app_batches-AppsValid p name clocks answer answers n p' h a =
      let ((request, q), e, h1) = >>=-eq-ok (take_batches p name clocks) _ h in
      on_exception-AppsValid request
        (handle_answer net set_order request clocks answers (answer request) q) n p' h1
        (handle_answer-AppsValid request clocks answers (answer request) q
          (taken-AppsValid p name clocks request q e a))
