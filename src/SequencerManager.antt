-- ===== src/SequencerManager.antt =====
-- The discovery of the network's sequencer and the failover to it (common/sequencer_manager.py).
-- The answers of the other nodes to the queries of their state, and the clock, are arguments.
pub mod Votes
use zsequencer.Prelude.{
  ℕ, ◌+◌, ◌*◌, Bool, true, false, not, ◌&&◌, ◌||◌, ◌==◌, Option, none, some, List, [], ◌∷◌, String,
  ltb, leb, max, map, str_eq, if◌then◌else◌,
}
use zsequencer.Errors.{
  Result, ok, err, ◌>>=◌, key_error, value_error, zero_division, code, is_sequencer,
}
use zsequencer.Dict.{Dict, lookup, insert, contains}
use zsequencer.Config
use zsequencer.Config.{
  NodeData, NetworkState, Config, sequencing_nodes, attesting_nodes, last_state, update_sequencer,
  data_or_raise,
}
use zsequencer.Db.{App, InMemoryDb, NodeState, app_of, put_app}
use zsequencer.Db.Latency.{reinitialize_sequenced_batches, reset_latency_queue}

-- The answer of a node to `GET /node/state`.
pub data StateAnswer : Type 0 where
  -- a client error, an HTTP error or a timeout
  unreachable : StateAnswer
  error_answer : (code : String) → StateAnswer
  state_answer : (sequencer_id : String) → StateAnswer

-- What `_query_node_state` makes of the answer of a node; only the sequencer refuses the query.
unfoldable pub query_node_state : String → StateAnswer → String × Option String
query_node_state node_id unreachable = (node_id, none)
query_node_state node_id (error_answer c) =
    if str_eq c (code is_sequencer) then (node_id, some node_id) else (node_id, none)
query_node_state node_id (state_answer sequencer_id) = (node_id, some sequencer_id)

-- `dict.fromkeys(sequencing_nodes, 0)`
unfoldable pub no_votes {ℓ} : {N : Type ℓ} → Dict N → Dict ℕ
no_votes [] = []
no_votes ((address, node_data) ∷ rest) = (address, 0) ∷ no_votes rest

-- `max(sequencers_stake, key=…)`: the first key with the greatest stake.
unfoldable pub max_stake : String → ℕ → Dict ℕ → String
max_stake best stake [] = best
max_stake best stake ((id, s) ∷ rest) =
    let a = max_stake id s rest in let b = max_stake best stake rest in if ltb stake s then a else b

unfoldable pub max_stake_id : Dict ℕ → Result String
unfolding max_stake
max_stake_id [] = err value_error
max_stake_id ((id, s) ∷ rest) = ok (max_stake id s rest)

unfoldable pub votes_or_raise : Option ℕ → Result ℕ
votes_or_raise none = err key_error
votes_or_raise (some n) = ok n

-- `sequencers_stake[id] += stake`
unfoldable pub add_stake : Dict ℕ → String → ℕ → Result (Dict ℕ)
unfolding votes_or_raise
add_stake stakes id stake = do
  n ← votes_or_raise (lookup id stakes)
  ok (insert id (n + stake) stakes)

-- `(id, id) in results`
unfoldable pub names_itself : String → List (String × Option String) → Bool
names_itself id [] = false
names_itself id ((node_id, none) ∷ rest) = names_itself id rest
names_itself id ((node_id, some sequencer_id) ∷ rest) =
    if str_eq id node_id && str_eq id sequencer_id then true else names_itself id rest

-- The end of `_find_network_sequencer`, the threshold multiplied out.
unfoldable pub accept_sequencer :
    ℕ → ℕ → List (String × Option String) → String → ℕ → Result (Option String)
accept_sequencer threshold_percent total_stake results id stake =
    if total_stake == 0
    then err zero_division
    else ok (
        if leb (threshold_percent * total_stake) (100 * stake) && names_itself id results
        then some id
        else none)

init_or_found : String → Option String → String
init_or_found init_sequencer_id none = init_sequencer_id
init_or_found init_sequencer_id (some id) = id

module _ {Key : Type 0} where
  -- The results of the queries to every attesting node but this one.
  unfoldable pub query_all :
      (String → StateAnswer) → String → Dict (NodeData Key) → List (String × Option String)
  unfolding query_node_state
  query_all answers own_id [] = []
  query_all answers own_id ((node_id, node_data) ∷ rest) =
      let results = query_all answers own_id rest in
      if str_eq node_id own_id
      then results
      else query_node_state node_id (answers node_id) ∷ results

  -- `sequencer_id and sequencer_id in sequencing_nodes`
  unfoldable pub is_candidate : Dict (NodeData Key) → String → Bool
  is_candidate sequencing sequencer_id =
      not (str_eq sequencer_id "") && contains sequencer_id sequencing

  -- The loop over the results.
  unfoldable pub count_votes :
      Dict (NodeData Key)
      → Dict (NodeData Key)
      → List (String × Option String)
      → Dict ℕ
      → Result (Dict ℕ)
  unfolding data_or_raise
  count_votes sequencing attesting [] stakes = ok stakes
  count_votes sequencing attesting ((node_id, none) ∷ rest) stakes =
      count_votes sequencing attesting rest stakes
  count_votes sequencing attesting ((node_id, some sequencer_id) ∷ rest) stakes =
      elim (is_candidate sequencing sequencer_id) [
        | false ↦ count_votes sequencing attesting rest stakes
        | true ↦ data_or_raise (lookup node_id attesting) >>= λ node_data.
            add_stake stakes sequencer_id node_data.stake >>= λ stakes'.
            count_votes sequencing attesting rest stakes'
      ]

  unfoldable pub find_network_sequencer :
      Config Key → (String → StateAnswer) → Result (Option String)
  unfolding query_all no_votes count_votes max_stake_id votes_or_raise accept_sequencer
  find_network_sequencer c answers = do
    s ← last_state c
    let results = query_all answers c.node.id (attesting_nodes s)
    stakes ←
        count_votes (sequencing_nodes s) (attesting_nodes s) results (no_votes (sequencing_nodes s))
    id ← max_stake_id stakes
    stake ← votes_or_raise (lookup id stakes)
    accept_sequencer c.threshold_percent s.total_stake results id (stake + c.node.stake)

  unfoldable pub init_sequencer : String → Config Key → (String → StateAnswer) → Result (Config Key)
  unfolding find_network_sequencer init_or_found
  init_sequencer init_sequencer_id c answers = do
    found ← find_network_sequencer c answers
    update_sequencer c (init_or_found init_sequencer_id found)

-- `zdb.apps[app_name]["nodes_state"] = {}`, where the sync points are kept too.
unfoldable pub forget_nodes_state : InMemoryDb → String → Result InMemoryDb
forget_nodes_state db app_name = do
  app ← app_of db app_name
  ok (
      put_app db app_name
        (record app { nodes_state = []; locked_sync_point = none; finalized_sync_point = none }))

-- `for app_name in zdb.apps`
unfoldable pub names_of {ℓ} : {V : Type ℓ} → Dict V → List String
names_of [] = []
names_of ((name, v) ∷ rest) = name ∷ names_of rest

-- The loop of `reset_sequencer`.
unfoldable pub reset_apps : ℕ → InMemoryDb → List String → Result InMemoryDb
unfolding forget_nodes_state
reset_apps now db [] = ok db
reset_apps now db (app_name ∷ rest) = reinitialize_sequenced_batches db app_name >>= λ db1.
    forget_nodes_state db1 app_name >>= λ db2.
    reset_latency_queue db2 app_name now >>= λ db3. reset_apps now db3 rest

-- What `SequencerManager` reads and changes: the configuration, the database and its own flag.
pub record Manager (Key : Type 0) : Type 0 where
  pub zconfig : Config Key
  pub zdb : InMemoryDb
  pub has_received_node_updates : Bool

-- `.get(node_id, {}).get("update_timestamp", 0)`
timestamp_or_zero : Option NodeState → ℕ
timestamp_or_zero none = 0
timestamp_or_zero (some s) = s.update_timestamp

-- The latest of the times at which a node reported on some app; `max` of nothing raises.
unfoldable pub last_request_time : String → Dict App → Result ℕ
unfolding timestamp_or_zero
last_request_time node_id [] = err value_error
last_request_time node_id ((name, app) ∷ []) =
    ok (timestamp_or_zero (lookup node_id app.nodes_state))
last_request_time node_id ((name, app) ∷ other ∷ rest) =
    last_request_time node_id (other ∷ rest) >>= λ t.
    ok (max (timestamp_or_zero (lookup node_id app.nodes_state)) t)

module _ {Key : Type 0} where
  -- The stake of the other attesting nodes that were silent for more than 10 seconds.
  unfoldable pub disconnected_stake : String → ℕ → InMemoryDb → Dict (NodeData Key) → Result ℕ
  unfolding last_request_time
  disconnected_stake own_id now db [] = ok 0
  disconnected_stake own_id now db ((node_id, node_data) ∷ rest) =
      let others = disconnected_stake own_id now db rest in
      if str_eq node_id own_id
      then others
      else (last_request_time node_id db.apps >>= λ t.
          others >>= λ stake. ok (if ltb (t + 10) now then node_data.stake + stake else stake))

  unfoldable pub not_receiving_node_updates : Manager Key → ℕ → Result Bool
  unfolding disconnected_stake
  not_receiving_node_updates m now = do
    s ← last_state m.zconfig
    stake ← disconnected_stake m.zconfig.node.id now m.zdb (attesting_nodes s)
    if s.total_stake == 0
        then err zero_division
        else ok (leb (m.zconfig.threshold_percent * s.total_stake) (100 * stake))

  -- `reset_sequencer` for a sequencer that was found and is not the current one.
  unfoldable pub reset_to : Manager Key → ℕ → String → Result (Manager Key)
  unfolding reset_apps names_of
  reset_to m now id = do
    c ← update_sequencer m.zconfig id
    db ← reset_apps now m.zdb (names_of m.zdb.apps)
    ok (record {
      zconfig = c;
      zdb = db;
      has_received_node_updates =
          if Config.is_sequencer c then false else m.has_received_node_updates;
    })

  unfoldable pub reset_if_other : Manager Key → ℕ → Option String → Result (Manager Key)
  unfolding reset_to
  reset_if_other m now none = ok m
  reset_if_other m now (some id) =
      if str_eq m.zconfig.sequencer.id id then ok m else reset_to m now id

  unfoldable pub reset_sequencer : Manager Key → ℕ → (String → StateAnswer) → Result (Manager Key)
  unfolding reset_if_other find_network_sequencer
  reset_sequencer m now answers = do
    found ← find_network_sequencer m.zconfig answers
    reset_if_other m now found

  unfoldable pub detect_and_reset_sequencer_on_failover :
      Manager Key → ℕ → (String → StateAnswer) → Result (Manager Key)
  unfolding not_receiving_node_updates reset_sequencer
  detect_and_reset_sequencer_on_failover m now answers = do
    silent ← not_receiving_node_updates m now
    if silent
        then (if m.has_received_node_updates then reset_sequencer m now answers else ok m)
        else ok (record m { has_received_node_updates = true })
