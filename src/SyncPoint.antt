-- ===== src/SyncPoint.antt =====
-- The choice of the next sync point by the sequencer (sequencer/tasks.py), with the methods of the
-- database on the nodes' states (common/db.py) that it reads and that record a sync point.
pub mod Sorted
pub mod Choice
use zsequencer.Prelude.{
  ℕ, ◌+◌, ◌*◌, Bool, true, false, Option, none, some, List, [], ◌∷◌, String, leb, ltb, ◌==◌, ◌||◌,
  str_eq, if◌then◌else◌,
}
use zsequencer.Errors.{Result, ok, err, ◌>>=◌, key_error, zero_division}
use zsequencer.Dict.{Dict, lookup, insert, contains}
use zsequencer.Db.{NodeState, SignatureData, SyncPointData, App, InMemoryDb, app_of, put_app}

unfoldable pub upsert_node_state : InMemoryDb → String → NodeState → Result InMemoryDb
upsert_node_state db app_name node_state = do
  app ← app_of db app_name
  ok (
      put_app db app_name
        (record app { nodes_state = insert node_state.node_id node_state app.nodes_state }))

-- The states of the nodes that attest.
unfoldable pub attesting_states {ℓ} : {N : Type ℓ} → Dict N → Dict NodeState → List NodeState
attesting_states attesting_nodes [] = []
attesting_states attesting_nodes ((address, node_info) ∷ rest) =
    let states = attesting_states attesting_nodes rest in
    elim (lookup address attesting_nodes) [ none ↦ states | some node ↦ node_info ∷ states ]

unfoldable pub get_nodes_state {ℓ} :
    {N : Type ℓ} → InMemoryDb → Dict N → String → Result (List NodeState)
unfolding attesting_states
get_nodes_state db attesting_nodes app_name = do
  app ← app_of db app_name
  ok (attesting_states attesting_nodes app.nodes_state)

unfoldable pub sync_point_data : SignatureData → SyncPointData
sync_point_data d = record {
  index = d.index;
  chaining_hash = d.chaining_hash;
  signature = d.signature;
  nonsigners = d.nonsigners;
  tag = d.tag;
}

unfoldable pub upsert_locked_sync_point : InMemoryDb → String → SignatureData → Result InMemoryDb
unfolding sync_point_data
upsert_locked_sync_point db app_name d = do
  app ← app_of db app_name
  ok (put_app db app_name (record app { locked_sync_point = some (sync_point_data d) }))

unfoldable pub upsert_finalized_sync_point : InMemoryDb → String → SignatureData → Result InMemoryDb
unfolding sync_point_data
upsert_finalized_sync_point db app_name d = do
  app ← app_of db app_name
  ok (put_app db app_name (record app { finalized_sync_point = some (sync_point_data d) }))

-- `….get("index", 0)` of a sync point.
unfoldable pub index_or_zero : Option SyncPointData → ℕ
index_or_zero none = 0
index_or_zero (some p) = p.index

-- The stakes of `zconfig.NODES` and `zconfig.NODE`, `TOTAL_STAKE` and `THRESHOLD_PERCENT`.
pub record Stakes : Type 0 where
  pub nodes : Dict ℕ
  pub own : ℕ
  pub total : ℕ
  pub threshold_percent : ℕ

-- `NODES[node_id]["stake"]`, or `KeyError`.
unfoldable pub stake_or_raise : Option ℕ → Result ℕ
stake_or_raise none = err key_error
stake_or_raise (some stake) = ok stake

unfoldable pub sum_stakes_of : Stakes → List String → Result ℕ
unfolding stake_or_raise
sum_stakes_of stakes [] = ok 0
sum_stakes_of stakes (node_id ∷ rest) =
    let others = sum_stakes_of stakes rest in
    do stake ← stake_or_raise (lookup node_id stakes.nodes); sum ← others; ok (stake + sum)

-- `100 * stake / TOTAL_STAKE >= THRESHOLD_PERCENT`, multiplied out.
unfoldable pub reaches_threshold : Stakes → ℕ → Result Bool
reaches_threshold stakes stake =
    if stakes.total == 0
    then err zero_division
    else ok (leb (stakes.threshold_percent * stakes.total) (100 * stake))

unfoldable pub has_threshold : Stakes → List String → Result Bool
unfolding sum_stakes_of reaches_threshold
has_threshold stakes party = do
  stake ← sum_stakes_of stakes party
  reaches_threshold stakes (stake + stakes.own)

-- `s["node_id"]` added to a set.
unfoldable pub includes : String → List String → Bool
includes id [] = false
includes id (x ∷ xs) = str_eq id x || includes id xs

unfoldable pub add_to_set : String → List String → List String
unfolding includes
add_to_set id xs = if includes id xs then xs else id ∷ xs

module _ (index_of : NodeState → ℕ) where
  -- The states above an index.
  unfoldable pub states_above : ℕ → List NodeState → List NodeState
  states_above border [] = []
  states_above border (s ∷ states) =
      let rest = states_above border states in if ltb border (index_of s) then s ∷ rest else rest

  -- Python's stable sort by the index, with the greatest first.
  unfoldable pub insert_descending : NodeState → List NodeState → List NodeState
  insert_descending s [] = s ∷ []
  insert_descending s (t ∷ states) =
      let rest = insert_descending s states in
      if leb (index_of t) (index_of s) then s ∷ t ∷ states else t ∷ rest

  unfoldable pub sort_descending : List NodeState → List NodeState
  unfolding insert_descending
  sort_descending [] = []
  sort_descending (s ∷ states) = insert_descending s (sort_descending states)

  -- The nodes that have reached an index.
  unfoldable pub party : ℕ → List NodeState → List String
  unfolding add_to_set
  party index [] = []
  party index (s ∷ states) =
      let rest = party index states in
      if leb index (index_of s) then add_to_set s.node_id rest else rest

  -- The loop over the sorted states.
  unfoldable pub first_with_threshold :
      Stakes → List NodeState → List NodeState → Result (Option (NodeState × List String))
  unfolding has_threshold party
  first_with_threshold stakes sorted [] = ok none
  first_with_threshold stakes sorted (state ∷ rest) =
      let later = first_with_threshold stakes sorted rest in
      has_threshold stakes (party (index_of state) sorted) >>= λ reached.
      if reached then ok (some (state, party (index_of state) sorted)) else later

  -- The choice among the states of the nodes; no state above the index gives no sync point.
  unfoldable pub find_sync_point :
      Stakes → ℕ → List NodeState → Result (Option (NodeState × List String))
  unfolding first_with_threshold sort_descending states_above
  find_sync_point stakes border states =
      let sorted = sort_descending (states_above border states) in
      first_with_threshold stakes sorted sorted

unfoldable pub find_locked_sync_point {ℓ} :
    {N : Type ℓ} → Stakes → Dict N → InMemoryDb → String → Result (Option (NodeState × List String))
unfolding find_sync_point index_or_zero get_nodes_state
find_locked_sync_point stakes attesting_nodes db app_name = do
  states ← get_nodes_state db attesting_nodes app_name
  app ← app_of db app_name
  find_sync_point (λ s. s.sequenced_index) stakes (index_or_zero app.locked_sync_point) states

unfoldable pub find_finalized_sync_point {ℓ} :
    {N : Type ℓ} → Stakes → Dict N → InMemoryDb → String → Result (Option (NodeState × List String))
unfolding find_sync_point index_or_zero get_nodes_state
find_finalized_sync_point stakes attesting_nodes db app_name = do
  states ← get_nodes_state db attesting_nodes app_name
  app ← app_of db app_name
  find_sync_point (λ s. s.locked_index) stakes (index_or_zero app.finalized_sync_point) states
