-- ===== src/Network.antt =====
-- What the code takes from outside of itself: the registry of the nodes by network tag, the hash,
-- the signature scheme and the rendering of a sync point (config.py, common/utils.py and the
-- libraries xxhash, eigensdk and json), with the settings that the modelled code reads.
use zsequencer.Prelude.{ℕ, String, Bool}
use zsequencer.Dict.{Dict}

pub record Node (Key : Type 0) : Type 0 where
  pub stake : ℕ
  pub public_key_g2 : Key

-- `NetworkState`, as the signatures are checked against it.
pub record NetworkState (Key : Type 0) : Type 0 where
  pub attesting_nodes : Dict (Node Key)
  pub total_stake : ℕ
  pub aggregated_public_key : Key

pub record Network : Type 1 where
  -- the group of the public keys, with its subtraction
  pub Key : Type 0
  pub subtract : Key → Key → Key
  -- `is_bls_sig_verified` of a signature, a message and a key
  pub is_bls_sig_verified : String → String → Key → Bool
  -- xxhash's `xxh128_hexdigest`
  pub gen_hash : String → String
  -- `json.dumps` of app name, state, index, chaining hash, timestamp and parent index
  pub sync_point_json : String → String → ℕ → String → ℕ → ℕ → String
  -- `zconfig.get_network_state`
  pub get_network_state : ℕ → NetworkState Key
  pub threshold_percent : ℕ
  -- in bytes
  pub snapshot_chunk_size : ℕ
  pub remove_chunk_border : ℕ
  pub node_receive_limit : ℕ
