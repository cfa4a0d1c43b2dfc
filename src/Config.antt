-- ===== src/Config.antt =====
-- The state of the configuration that the program reads and changes while it runs (config.py), and
-- the network state with the roles of the nodes (schema.py).
pub mod History
use zsequencer.Prelude.{
  ℕ, ◌+◌, ◌/◌, Bool, true, false, not, ◌==◌, Option, none, some, List, [], ◌∷◌, String, ltb, length,
  str_eq, if◌then◌else◌,
}
use zsequencer.Errors.{Result, ok, err, ◌>>=◌, key_error, zero_division}
use zsequencer.Dict.{Dict, lookup}

-- The entries of a node that the modelled code reads.
pub record NodeData (Key : Type 0) : Type 0 where
  pub id : String
  pub stake : ℕ
  pub roles : List String
  pub public_key_g2 : Key

pub record NetworkState (Key : Type 0) : Type 0 where
  pub tag : ℕ
  pub timestamp : ℕ
  pub nodes : Dict (NodeData Key)
  pub aggregated_public_key : Key
  pub total_stake : ℕ

-- `role in roles`
unfoldable pub has_role : String → List String → Bool
has_role role [] = false
has_role role (r ∷ roles) = if str_eq role r then true else has_role role roles

module _ {Key : Type 0} where
  -- The entries that a test selects, in their order.
  unfoldable pub nodes_where : (NodeData Key → Bool) → Dict (NodeData Key) → Dict (NodeData Key)
  nodes_where test [] = []
  nodes_where test ((address, node_data) ∷ rest) =
      let others = nodes_where test rest in
      if test node_data then (address, node_data) ∷ others else others

  unfoldable pub get_nodes_with_role : NetworkState Key → String → Dict (NodeData Key)
  unfolding nodes_where
  get_nodes_with_role s role = nodes_where (λ node_data. has_role role node_data.roles) s.nodes

  unfoldable pub sequencing_nodes : NetworkState Key → Dict (NodeData Key)
  unfolding get_nodes_with_role
  sequencing_nodes s = get_nodes_with_role s "sequencing"

  unfoldable pub posting_nodes : NetworkState Key → Dict (NodeData Key)
  unfolding get_nodes_with_role
  posting_nodes s = get_nodes_with_role s "posting"

  unfoldable pub attesting_nodes : NetworkState Key → Dict (NodeData Key)
  unfolding nodes_where
  attesting_nodes s = nodes_where (λ node_data. ltb 0 node_data.stake) s.nodes

-- A dict whose keys are tags.
unfoldable pub state_at {ℓ} : {S : Type ℓ} → ℕ → List (ℕ × S) → Option S
state_at tag [] = none
state_at tag ((t, s) ∷ rest) = if tag == t then some s else state_at tag rest

-- What a registry gives for a node; the roles may be missing.
pub record RegisteredNode (Key : Type 0) : Type 0 where
  pub id : String
  pub stake : ℕ
  pub roles : Option (List String)
  pub public_key_g2 : Key

pub record Config (Key : Type 0) : Type 0 where
  pub historical_network_state : List (ℕ × NetworkState Key)
  pub network_status_tag : Option ℕ
  pub node : NodeData Key
  pub sequencer : NodeData Key
  pub paused : Bool
  pub synced_flag : Bool
  -- the names of `APPS`
  pub apps : List String
  pub version : String
  -- in percent
  pub threshold_percent : ℕ
  -- sizes in bytes
  pub max_batch_size : ℕ
  -- the bytes that all nodes may send in a window
  pub bandwidth_per_window : ℕ
  -- in seconds
  pub finalization_time_border : ℕ

roles_or_both : Option (List String) → List String
roles_or_both none = "posting" ∷ "sequencing" ∷ []
roles_or_both (some roles) = roles

-- `NETWORK_STATUS_TAG` only moves to a greater tag.
unfoldable pub newer_tag : Option ℕ → ℕ → Option ℕ
newer_tag none tag = some tag
newer_tag (some last) tag = if ltb last tag then some tag else some last

-- `limit / count`, in whole bytes: sizes are whole, so the fraction of a byte decides nothing.
divided : ℕ → ℕ → Result ℕ
divided limit count = if count == 0 then err zero_division else ok (limit / count)

module _ {Key : Type 0} where
  unfoldable pub pause : Config Key → Config Key
  pause c = record c { paused = true }

  unfoldable pub unpause : Config Key → Config Key
  unpause c = record c { paused = false }

  unfoldable pub set_synced_flag : Config Key → Config Key
  set_synced_flag c = record c { synced_flag = true }

  unfoldable pub is_sequencer : Config Key → Bool
  is_sequencer c = str_eq c.sequencer.id c.node.id

  state_or_raise : Option (NetworkState Key) → Result (NetworkState Key)
  state_or_raise none = err key_error
  state_or_raise (some s) = ok s

  state_of_tag : List (ℕ × NetworkState Key) → Option ℕ → Result (NetworkState Key)
  unfolding state_or_raise
  state_of_tag history none = err key_error
  state_of_tag history (some tag) = state_or_raise (state_at tag history)

  unfoldable pub last_state : Config Key → Result (NetworkState Key)
  unfolding state_of_tag
  last_state c = state_of_tag c.historical_network_state c.network_status_tag

  unfoldable pub node_receive_limit_per_window : Config Key → Result ℕ
  unfolding divided
  node_receive_limit_per_window c = do
    s ← last_state c
    divided c.bandwidth_per_window (length s.nodes)

  unfoldable pub node_send_limit_per_window : Config Key → Result ℕ
  unfolding divided
  node_send_limit_per_window c = do
    limit ← node_receive_limit_per_window c
    s ← last_state c
    divided limit (length (posting_nodes s))

  -- `NODES[node_id]`, or `KeyError`.
  unfoldable pub data_or_raise : Option (NodeData Key) → Result (NodeData Key)
  data_or_raise none = err key_error
  data_or_raise (some node_data) = ok node_data

  unfoldable pub update_sequencer : Config Key → String → Result (Config Key)
  unfolding data_or_raise
  update_sequencer c sequencer_id = do
    s ← last_state c
    node_data ← data_or_raise (lookup sequencer_id s.nodes)
    ok (record c { sequencer = node_data })

  -- The loop over the registered nodes.
  unfoldable pub node_data_of : Dict (RegisteredNode Key) → Dict (NodeData Key)
  unfolding roles_or_both
  node_data_of [] = []
  node_data_of ((address, n) ∷ rest) =
      let node_data : NodeData Key = record {
        id = n.id;
        stake = n.stake;
        roles = roles_or_both n.roles;
        public_key_g2 = n.public_key_g2;
      } in
      (address, node_data) ∷ node_data_of rest

  -- `sum([node["stake"] for node in nodes_data.values()])`
  unfoldable pub stake_of_all : Dict (NodeData Key) → ℕ
  stake_of_all [] = 0
  stake_of_all ((address, node_data) ∷ rest) = node_data.stake + stake_of_all rest

  -- `get_network_state`; `registered` is what the source of the nodes gives for a tag, or its
  -- failure after the retries, `aggregate` the sum of the keys, and `now` the clock.
  module _ (registered : ℕ → Result (Dict (RegisteredNode Key)))
      (aggregate : Dict (NodeData Key) → Key) (now : ℕ) where
    unfoldable pub fetched_state : Dict (RegisteredNode Key) → ℕ → NetworkState Key
    unfolding node_data_of stake_of_all
    fetched_state nodes tag =
        let nodes_data = node_data_of nodes in
        record {
          tag = tag;
          timestamp = now;
          nodes = nodes_data;
          aggregated_public_key = aggregate nodes_data;
          total_stake = stake_of_all nodes_data;
        }

    unfoldable pub get_network_state : Config Key → ℕ → Result (NetworkState Key × Config Key)
    unfolding fetched_state newer_tag
    get_network_state c tag = elim (state_at tag c.historical_network_state) [
      | some s ↦ ok (s, c)
      | none ↦ registered tag >>= λ nodes. ok (
        fetched_state nodes tag,
        record c {
          historical_network_state = (tag, fetched_state nodes tag) ∷ c.historical_network_state;
          network_status_tag = newer_tag c.network_status_tag tag;
        },
      )
    ]
