-- ===== src/Quorum.antt =====
-- The check of an aggregated signature on a sync point (common/bls.py).
pub mod Sound
use zsequencer.Prelude.{
  ℕ, ◌+◌, ◌*◌, Bool, true, false, Option, none, some, List, [], ◌∷◌, String, leb, ◌==◌,
  if◌then◌else◌,
}
use zsequencer.State.{name_of, OperationalState}
use zsequencer.Errors.{Result, ok, err, ◌>>=◌, key_error, zero_division}
use zsequencer.Dict.{Dict, lookup}
use zsequencer.Network.{Node, NetworkState, Network}

-- `100 * nonsigners_stake / total_stake <= 100 - threshold`, multiplied out; the division raises
-- for a total of 0.
unfoldable pub has_quorum : ℕ → ℕ → ℕ → Result Bool
has_quorum threshold_percent nonsigners_stake total_stake =
    if total_stake == 0
    then err zero_division
    else ok (leb (100 * nonsigners_stake + threshold_percent * total_stake) (100 * total_stake))

module _ {Key : Type 0} where
  -- `nodes_info.get(node_id, {}).get("stake", 0)`
  unfoldable pub stake_or_zero : Option (Node Key) → ℕ
  stake_or_zero none = 0
  stake_or_zero (some node) = node.stake

  unfoldable pub sum_stakes : Dict (Node Key) → List String → ℕ
  unfolding stake_or_zero
  sum_stakes nodes_info [] = 0
  sum_stakes nodes_info (node_id ∷ rest) =
      stake_or_zero (lookup node_id nodes_info) + sum_stakes nodes_info rest

  -- `nodes_info[node_id]["public_key_g2"]`, or `KeyError`.
  key_or_raise : Option (Node Key) → Result Key
  key_or_raise none = err key_error
  key_or_raise (some node) = ok node.public_key_g2

  unfoldable pub compute_signature_public_key :
      (Key → Key → Key) → Dict (Node Key) → Key → List String → Result Key
  unfolding key_or_raise
  compute_signature_public_key subtract nodes_info aggregated [] = ok aggregated
  compute_signature_public_key subtract nodes_info aggregated (node_id ∷ rest) =
      key_or_raise (lookup node_id nodes_info) >>= λ key.
      compute_signature_public_key subtract nodes_info (subtract aggregated key) rest

-- The arguments of `is_sync_point_signature_verified`.
pub record SyncPoint : Type 0 where
  pub app_name : String
  pub state : OperationalState
  pub index : ℕ
  pub chaining_hash : String
  pub tag : ℕ
  pub timestamp : ℕ
  pub parent_index : ℕ
  pub signature_hex : String
  pub nonsigners : List String

module _ (net : Network) where
  -- The message that is signed for a sync point.
  unfoldable pub sync_point_message : SyncPoint → String
  sync_point_message p = net.gen_hash (
      net.sync_point_json p.app_name (name_of p.state) p.index p.chaining_hash p.timestamp
        p.parent_index)

  unfoldable pub is_sync_point_signature_verified : SyncPoint → Result Bool
  unfolding has_quorum sum_stakes compute_signature_public_key sync_point_message
  is_sync_point_signature_verified p =
      let network_state = net.get_network_state p.tag in
      let nodes_info = network_state.attesting_nodes in
      do
        key ←
            compute_signature_public_key net.subtract nodes_info network_state.aggregated_public_key
              p.nonsigners
        quorum ←
            has_quorum net.threshold_percent (sum_stakes nodes_info p.nonsigners)
              network_state.total_stake
        ok (
            if quorum
            then net.is_bls_sig_verified p.signature_hex (sync_point_message p) key
            else false)
