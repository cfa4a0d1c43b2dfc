-- ===== src/Switch/Change/Sound.antt =====
-- A switch returns, and leaves a running node with valid sequences.
use zsequencer.Prelude.{
  ℕ, ◌≡◌, refl, ap, true, false, some, List, [], ◌∷◌, String, str_eq, Bool-cases, inl, inr,
}
use zsequencer.Errors.{ok, err, Result-cases}
use zsequencer.Dict.{lookup}
use zsequencer.Network.{Network}
use zsequencer.Config.{
  Config, NodeData, NetworkState, last_state, data_or_raise, pause, unpause, update_sequencer,
  is_sequencer,
}
use zsequencer.Db.{InMemoryDb, clear_initialized_batch_bodies}
use zsequencer.Db.Promotion.Valid.{AppsValid}
use zsequencer.Db.Valid.{modify-AppsValid, reset_latency_queue-AppsValid}
use zsequencer.SequencerManager.{Manager}
use zsequencer.NodeTasks.{Run, and_then}
use zsequencer.NodeTasks.Valid.{Kept, attempt_keeps, and_then_keeps, forget-AppsValid}
use zsequencer.Switch.Sync.{PeerAnswer, Outcome}
use zsequencer.Switch.Sync.Ends.{sync_with_latest_locks-Returns}
use zsequencer.Switch.Sync.Valid.{LeavesValid, sync_with_latest_locks-LeavesValid}
use zsequencer.Switch.Sync.Peers.{LastLockedAnswer, get_network_last_locked_batch_entries_sorted}
use zsequencer.Switch.Change.{
  for_each, clear_app, restart_app, run_of, run_on, begin_sequencing, restart_apps, finish_switch,
  switched, switch_to_sequencer,
}

for_each-Kept :
    (step : InMemoryDb → String → Run InMemoryDb) (names : List String) (db : InMemoryDb)
    → ((d : InMemoryDb) (name : String) → AppsValid d → Kept AppsValid (step d name))
    → AppsValid db
    → Kept AppsValid (for_each step names db)
unfolding for_each
for_each-Kept step [] db keeps a = record { kept = a }
for_each-Kept step (name ∷ names) db keeps a =
    and_then_keeps (keeps db name a) (λ d v. for_each-Kept step names d keeps v)

clear_app-Kept :
    (db : InMemoryDb) (name : String) → AppsValid db → Kept AppsValid (clear_app db name)
unfolding clear_app clear_initialized_batch_bodies
clear_app-Kept db name a =
    attempt_keeps db _ a (λ d e. modify-AppsValid db name _ d (λ app v. v) e a)

restart_app-Kept :
    (now : ℕ) (db : InMemoryDb) (name : String)
    → AppsValid db
    → Kept AppsValid (restart_app now db name)
unfolding restart_app
restart_app-Kept now db name a =
    and_then_keeps (attempt_keeps db _ a (λ d e. forget-AppsValid db name d e a))
      (λ d v. attempt_keeps d _ v (λ d' e. reset_latency_queue-AppsValid d name now d' e v))

run_of-Kept : (o : Outcome (Unit {0})) → LeavesValid o → Kept AppsValid (run_of o)
unfolding run_of
run_of-Kept (db, err e) k = record { kept = k.kept }
run_of-Kept (db, ok u) k = record { kept = k.kept }

module _ {Key : Type 0} (c : Config Key) where
  -- Valid sequences, and the configuration given.
  abbrev IsSound : Manager Key → Type 0
  IsSound m = AppsValid m.zdb × (m.zconfig ≡ c)

  run_on-Kept :
      (m : Manager Key) (run : Run InMemoryDb)
      → m.zconfig ≡ c
      → Kept AppsValid run
      → Kept IsSound (run_on m run)
  unfolding run_on
  run_on-Kept m (db, e) h k = record { kept = (k.kept, h) }

  begin-Kept : (m : Manager Key) → IsSound m → Kept IsSound (begin_sequencing m)
  unfolding begin_sequencing
  begin-Kept m (a, h) = elim (Bool-cases (is_sequencer m.zconfig)) [
    | inl x ↦ rw x (
        run_on-Kept (record m { has_received_node_updates = false }) _ h
          (for_each-Kept clear_app m.zconfig.apps m.zdb clear_app-Kept a))
    | inr x ↦ rw x (record { kept = (a, h) })
  ]

  restart-Kept : (now : ℕ) (m : Manager Key) → IsSound m → Kept IsSound (restart_apps now m)
  unfolding restart_apps
  restart-Kept now m (a, h) =
      run_on-Kept m _ h
        (for_each-Kept (restart_app now) m.zconfig.apps m.zdb (restart_app-Kept now) a)

  -- `finally` after a run that may have raised.
  finish_sound :
      (run : Run (Manager Key))
      → Kept IsSound run
      → AppsValid (finish_switch run).zdb × ((finish_switch run).zconfig ≡ unpause c)
  unfolding finish_switch
  finish_sound (m, e) k = (k.kept.0, ap unpause k.kept.1)

module _ (net : Network) where
  switched-Kept :
      (m : Manager net.Key) (now : ℕ) (locks : String → LastLockedAnswer)
      (pages : String → String → ℕ → PeerAnswer)
      → AppsValid m.zdb
      → (run : Run (Manager net.Key)) × (switched net m now locks pages ≡ some run)
        × Kept (IsSound m.zconfig) run
  unfolding switched
  switched-Kept m now locks pages a =
      elim (Result-cases (get_network_last_locked_batch_entries_sorted m.zconfig locks)) [
        | inr (x, e) ↦ ((m, some x), rw (switched, e) refl, record { kept = (a, refl) })
        | inl (entries, e) ↦
            let (synced, f) = sync_with_latest_locks-Returns net m.zconfig pages entries m.zdb in
            let k =
              sync_with_latest_locks-LeavesValid net m.zconfig pages entries m.zdb synced a f in
            (
              and_then (and_then (run_on m (run_of synced)) begin_sequencing) (restart_apps now),
              rw (switched, e, f) refl,
              and_then_keeps
                  (and_then_keeps
                    (run_on-Kept m.zconfig m (run_of synced) refl (run_of-Kept synced k))
                    (begin-Kept m.zconfig))
                  (restart-Kept m.zconfig now),
            )
      ]

module _ {Key : Type 0} where
  last_state-pause : (c : Config Key) → last_state (pause c) ≡ last_state c
  unfolding last_state pause
  last_state-pause c = refl

  update_sequencer-known :
      (c : Config Key) (id : String) (s : NetworkState Key) (node_data : NodeData Key)
      → last_state c ≡ ok s
      → lookup id s.nodes ≡ some node_data
      → update_sequencer (pause c) id ≡ ok (record c { sequencer = node_data; paused = true })
  unfolding update_sequencer data_or_raise pause
  update_sequencer-known c id s node_data known found = rw (last_state-pause c, known, found) refl

module _ (net : Network) where
  -- A switch to a known node that is not the sequencer returns, whatever the other nodes answer
  -- and also where a step of it raises: that node is the sequencer then, the node is not
  -- paused, the rest of its configuration is as before, and the sequences of all apps are valid
  -- if they were.
  pub switch_to_sequencer-returns :
      (m : Manager net.Key) (id : String) (now : ℕ) (locks : String → LastLockedAnswer)
      (pages : String → String → ℕ → PeerAnswer) (s : NetworkState net.Key)
      (node_data : NodeData net.Key)
      → str_eq id m.zconfig.sequencer.id ≡ false
      → last_state m.zconfig ≡ ok s
      → lookup id s.nodes ≡ some node_data
      → AppsValid m.zdb
      → (m' : Manager net.Key) × (switch_to_sequencer net m id now locks pages ≡ some m')
        × AppsValid m'.zdb
        × (m'.zconfig ≡ record m.zconfig { sequencer = node_data; paused = false })
  unfolding switch_to_sequencer unpause
  switch_to_sequencer-returns m id now locks pages s node_data other known found a =
      let c : Config net.Key = record m.zconfig { sequencer = node_data; paused = true } in
      let e : update_sequencer (pause m.zconfig) id ≡ ok c =
        update_sequencer-known m.zconfig id s node_data known found in
      let (run, f, k) = switched-Kept net (record m { zconfig = c }) now locks pages a in
      let (v, w) = finish_sound c run k in
      (finish_switch run, rw (switch_to_sequencer, other, e, f) refl, v, w)
