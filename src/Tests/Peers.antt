-- ===== src/Tests/Peers.antt =====
-- A switch of the sequencer in a cluster of two nodes, with a later lock at the other node.
use zsequencer.Prelude.{
  Option, suc, ◌%◌, length, get_elem?, Bool, List, str_eq, false, ◌≡◌, refl, ℕ, String, true, some,
  [], ◌∷◌, arith,
}
use zsequencer.Errors.{ok}
use zsequencer.Dict.{lookup}
use zsequencer.Config.{
  attesting_nodes, nodes_where, sequencing_nodes, get_nodes_with_role, has_role, last_state,
  state_at,
}
use zsequencer.Db.Promotion.Valid.{AppsValid}
use zsequencer.SequencerManager.{Manager}
use zsequencer.Switch.Sync.{
  Lock, LastLockedBatchEntry, PeerAnswer, page, Outcome, sync_with_peer_node,
  sync_with_latest_locks,
}
use zsequencer.Switch.Sync.Ends.{sync_with_peer_node-Returns, sync_with_latest_locks-Returns}
use zsequencer.Switch.Sync.Fault.{sync_with_peer_node-fails}
use zsequencer.Switch.Sync.Peers.{LastLockedAnswer, fetched}
use zsequencer.Switch.Change.{switch_to_sequencer}
use zsequencer.Switch.Change.Sound.{switch_to_sequencer-returns}
use zsequencer.Distinct.{IsDistinct, to_set, to_set-IsDistinct}
use zsequencer.Switch.Approval.{str_eq_self}
use zsequencer.Db.{app_of}
use zsequencer.Db.Query.{is_sequencer_censoring}
use zsequencer.Db.Latency.{has_delayed_batches}
use zsequencer.Switch.{
  SwitchProof, SwitchSettings, is_dispute_approved, is_switch_approved, node_of, reaches_half,
  get_next_sequencer_id, ids_of_nodes, sequencing_ids,
}
use zsequencer.Switch.Dispute.{switch_proof, asked_ids, send_dispute_requests}
use zsequencer.Switch.Next.{get_next_sequencer_id_lem, IsAscending, IsSequencing}
use mathlib.Core.List.{Memᴰ, append-nil}
use mathlib.Core.List.Memᴰ.{head}
use zsequencer.Switch.Dispute.Accepted.{IsWait, own_proof, send_dispute_requests-is_switch_approved}
use zsequencer.Tests.Switching.{settings}
use zsequencer.Tests.Node.{net, new_db}
use zsequencer.Tests.Cluster.{config, cluster, node_n}
use zsequencer.Tests.Sending.{new_db-AppsValid}

abbrev lock : Lock
lock = record { signature = "s"; nonsigners = []; tag = 1; timestamp = 3; parent_index = 0 }

abbrev entry : LastLockedBatchEntry
entry = record { node_id = "m"; index = 2; chaining_hash = "h"; lock = some lock }

-- A batch on each page.
abbrev pages : String → String → ℕ → PeerAnswer
pages app_name node_id after_index = page ("x" ∷ []) []

sync_with_latest_locks_example :
    (r : Outcome (Unit {0})) × (sync_with_latest_locks net config pages
        (("a", entry ∷ []) ∷ [])
        new_db
      ≡ some r)
sync_with_latest_locks_example =
    sync_with_latest_locks-Returns net config pages (("a", entry ∷ []) ∷ []) new_db

peer_run :
    (o : Outcome Bool) × (sync_with_peer_node net "a" config (pages "a") entry lock 0 new_db
      ≡ some o)
peer_run = sync_with_peer_node-Returns net "a" config (pages "a") entry lock 0 new_db (omega arith)

sync_with_peer_node_example : ¬ (peer_run.0.1 ≡ ok true)
sync_with_peer_node_example =
    sync_with_peer_node-fails net "a" config (pages "a") entry lock 0 new_db peer_run.0 peer_run.1

abbrev manager : Manager ℕ
manager = record { zconfig = config; zdb = new_db; has_received_node_updates = true }

-- The other node has a lock on an app that this node has not locked yet.
abbrev locks : String → LastLockedAnswer
locks node_id = fetched (
    ("a", record { index = 2; batch = some (record { chaining_hash = "h"; lock = some lock }) })
    ∷ [])

last_cluster : last_state config ≡ ok cluster
unfolding last_state state_at
last_cluster = refl

known_n : lookup "n" cluster.nodes ≡ some node_n
unfolding lookup
known_n = refl

switch_to_sequencer_example :
    (m' : Manager ℕ) × (switch_to_sequencer net manager "n" 9 locks pages ≡ some m')
    × AppsValid m'.zdb
    × (m'.zconfig ≡ record config { sequencer = node_n; paused = false })
switch_to_sequencer_example =
    switch_to_sequencer-returns net manager "n" 9 locks pages cluster node_n refl last_cluster
      known_n new_db-AppsValid

-- The sequencer is down for the node "n", and "s" agrees.
abbrev manager_down : Manager ℕ
manager_down = record manager { zdb = record new_db { is_sequencer_down = true } }

abbrev all_settings : SwitchSettings ℕ
all_settings = record settings { threshold_percent = 100 }

-- All requests are done at once.
abbrev at_once : List String → List (List String)
at_once ids = ids ∷ []

abbrev agreeing : String → Option String
agreeing node_id = some "t"

abbrev sent_proofs : List SwitchProof
sent_proofs =
    own_proof all_settings manager_down (λ s. s) 5
    ∷ switch_proof all_settings agreeing "m" 5 "m" "t"
    ∷ []

disputed_m :
    send_dispute_requests all_settings manager_down (λ s. s) 5 agreeing (some at_once)
    ≡ ok (some (sent_proofs, "n"))
unfolding send_dispute_requests is_sequencer_censoring app_of lookup has_delayed_batches
    is_dispute_approved node_of reaches_half get_next_sequencer_id switch_proof last_state state_at
    asked_ids attesting_nodes nodes_where sequencing_ids sequencing_nodes get_nodes_with_role
    has_role zsequencer.Prelude.Texts.str_leb
disputed_m = refl

own_approved :
    is_dispute_approved all_settings (own_proof all_settings manager_down (λ s. s) 5) ≡ ok true
unfolding is_dispute_approved lookup switch_proof
own_approved = refl

at_once-IsWait : IsWait at_once
at_once-IsWait = record {
  asked = λ ids id m. rw (append-nil ids) at m;
  once = λ ids d. rw (append-nil ids) d;
}

names-IsDistinct : IsDistinct {A = String} ("n" ∷ "m" ∷ [])
unfolding to_set
names-IsDistinct = to_set-IsDistinct str_eq str_eq_self ("n" ∷ "m" ∷ []) (omega arith)

attesting-IsDistinct : IsDistinct (ids_of_nodes (attesting_nodes cluster))
unfolding ids_of_nodes attesting_nodes nodes_where
attesting-IsDistinct = names-IsDistinct

send_dispute_requests_example :
    (is_switch_approved all_settings sent_proofs ≡ ok true)
    × (config.synced_flag ≡ true)
    × (config.paused ≡ false)
send_dispute_requests_example =
    send_dispute_requests-is_switch_approved all_settings manager_down cluster (λ s. s) 5 agreeing
      at_once sent_proofs "n" own_approved last_cluster attesting-IsDistinct at_once-IsWait
      disputed_m

sequencing-IsDistinct : IsDistinct (ids_of_nodes (sequencing_nodes cluster))
unfolding ids_of_nodes sequencing_nodes get_nodes_with_role nodes_where has_role
sequencing-IsDistinct = names-IsDistinct

n_sequences : Memᴰ "n" (ids_of_nodes (sequencing_nodes cluster))
unfolding ids_of_nodes sequencing_nodes get_nodes_with_role nodes_where has_role
n_sequences = head refl

-- After the last node comes the first.
get_next_sequencer_id_example :
    (i : ℕ) × (next : String) × (get_elem? (sequencing_ids cluster) i ≡ some "n")
    × (get_elem? (sequencing_ids cluster) (suc i % length (sequencing_ids cluster)) ≡ some next)
    × (get_next_sequencer_id config "n" ≡ ok next)
    × IsAscending (sequencing_ids cluster)
    × IsSequencing cluster next
get_next_sequencer_id_example =
    get_next_sequencer_id_lem config cluster "n" last_cluster sequencing-IsDistinct n_sequences
