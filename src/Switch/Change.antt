-- ===== src/Switch/Change.antt =====
-- The switch to another sequencer (node/switch.py). The lock that keeps two switches apart is what
-- lets a switch be one function; the wait before the new sequencer is used changes no state, and
-- the clock after it is an argument.
pub mod Sound
use zsequencer.Prelude.{
  ℕ, Bool, true, false, Option, none, some, List, [], ◌∷◌, String, str_eq, if◌then◌else◌,
}
use zsequencer.Errors.{Error, Result, ok, err}
use zsequencer.Network.{Network}
use zsequencer.Config.{Config, pause, unpause, update_sequencer, is_sequencer}
use zsequencer.Db.{InMemoryDb, clear_initialized_batch_bodies}
use zsequencer.Db.Latency.{reset_latency_queue}
use zsequencer.SequencerManager.{Manager, forget_nodes_state}
use zsequencer.NodeTasks.{Run, attempt, and_then}
use zsequencer.Switch.Sync.{PeerAnswer, Outcome, sync_with_latest_locks}
use zsequencer.Switch.Sync.Peers.{LastLockedAnswer, get_network_last_locked_batch_entries_sorted}

-- A loop over names, which ends with the first exception.
unfoldable pub for_each :
    (InMemoryDb → String → Run InMemoryDb) → List String → InMemoryDb → Run InMemoryDb
for_each step [] db = (db, none)
for_each step (name ∷ names) db = and_then (step db name) (λ db'. for_each step names db')

unfoldable pub clear_app : InMemoryDb → String → Run InMemoryDb
clear_app db app_name = attempt db (clear_initialized_batch_bodies db app_name)

-- The states of the nodes and the latency queue of an app.
unfoldable pub restart_app : ℕ → InMemoryDb → String → Run InMemoryDb
restart_app now db app_name =
    and_then (attempt db (forget_nodes_state db app_name))
      (λ db'. attempt db' (reset_latency_queue db' app_name now))

-- An exception and the database that is left.
unfoldable pub run_of : Outcome (Unit {0}) → Run InMemoryDb
run_of (db, err e) = (db, some e)
run_of (db, ok u) = (db, none)

module _ {Key : Type 0} where
  unfoldable pub run_on : Manager Key → Run InMemoryDb → Run (Manager Key)
  run_on m (db, e) = (record m { zdb = db }, e)

  -- What a node does that finds itself the sequencer.
  unfoldable pub begin_sequencing : Manager Key → Run (Manager Key)
  unfolding for_each clear_app run_on
  begin_sequencing m =
      if is_sequencer m.zconfig
      then run_on (record m { has_received_node_updates = false })
          (for_each clear_app m.zconfig.apps m.zdb)
      else (m, none)

  unfoldable pub restart_apps : ℕ → Manager Key → Run (Manager Key)
  unfolding for_each restart_app run_on
  restart_apps now m = run_on m (for_each (restart_app now) m.zconfig.apps m.zdb)

  -- `finally`
  unfoldable pub finish_switch : Run (Manager Key) → Manager Key
  finish_switch (m, e) = record m { zconfig = unpause m.zconfig }

module _ (net : Network) where
  -- The `try` block from the sync on.
  unfoldable pub switched :
      Manager net.Key
      → ℕ
      → (String → LastLockedAnswer)
      → (String → String → ℕ → PeerAnswer)
      → Option (Run (Manager net.Key))
  unfolding run_of run_on begin_sequencing restart_apps
  switched m now locks pages = elim (get_network_last_locked_batch_entries_sorted m.zconfig locks) [
    | err e ↦ some (m, some e)
    | ok entries ↦ elim (sync_with_latest_locks net m.zconfig pages entries m.zdb) [
      | none ↦ none
      | some synced ↦
          some (and_then (and_then (run_on m (run_of synced)) begin_sequencing) (restart_apps now))
    ]
  ]

  unfoldable pub switch_to_sequencer :
      Manager net.Key
      → String
      → ℕ
      → (String → LastLockedAnswer)
      → (String → String → ℕ → PeerAnswer)
      → Option (Manager net.Key)
  unfolding switched finish_switch
  switch_to_sequencer m new_sequencer_id now locks pages =
      elim (str_eq new_sequencer_id m.zconfig.sequencer.id) [
        | true ↦ some m
        | false ↦ elim (update_sequencer (pause m.zconfig) new_sequencer_id) [
          | err e ↦ some (finish_switch (record m { zconfig = pause m.zconfig }, some e))
          | ok c ↦ elim (switched (record m { zconfig = c }) now locks pages) [
            | none ↦ none
            | some run ↦ some (finish_switch run)
          ]
        ]
      ]
