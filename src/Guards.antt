-- ===== src/Guards.antt =====
-- The conditions that a request must meet before its handler runs (common/utils.py and
-- common/auth.py). A missing header is `none`, and "" for the version.
pub mod Access
use zsequencer.Prelude.{
  Bool, true, false, not, ◌&&◌, ◌||◌, Option, none, some, String, str_eq, if◌then◌else◌,
}
use zsequencer.Errors.{
  Result, ok, err, ◌>>=◌, raise_if, http_error, permission_denied, invalid_request,
  is_not_sequencer, not_synced, invalid_node_version, is_paused,
}
use zsequencer.Errors
use zsequencer.Dict.{lookup}
use zsequencer.Config
use zsequencer.Config.{NodeData, Config, last_state}
use zsequencer.Network.{Network}

module _ {Key : Type 0} (c : Config Key) where
  unfoldable pub sequencer_only : Result (Unit {0})
  sequencer_only = raise_if is_not_sequencer (not (Config.is_sequencer c))

  unfoldable pub not_sequencer : Result (Unit {0})
  not_sequencer = raise_if Errors.is_sequencer (Config.is_sequencer c)

  -- The routes of the sequencer need the version; on those of a node it may be left out.
  unfoldable pub validate_version : String → String → Result (Unit {0})
  validate_version role version =
      let is_other = not (str_eq version c.version) in
      let is_missing = str_eq version "" in
      let cond1 = (is_missing || is_other) && str_eq role "sequencer" in
      let cond2 = not is_missing && is_other && str_eq role "node" in
      raise_if invalid_node_version (cond1 || cond2)

  unfoldable pub is_synced : Result (Unit {0})
  is_synced = raise_if not_synced (not (Config.is_sequencer c) && not c.synced_flag)

  unfoldable pub not_paused : Result (Unit {0})
  not_paused = raise_if is_paused c.paused

-- A header that the call needs.
header_or_denied : Option String → Result String
header_or_denied none = err (http_error permission_denied)
header_or_denied (some text) = ok text

signer_or_denied : {Key : Type 0} → Option (NodeData Key) → Result (NodeData Key)
signer_or_denied none = err (http_error permission_denied)
signer_or_denied (some node_data) = ok node_data

module _ (net : Network) (c : Config net.Key) where
  unfoldable pub verify_node_access : Option String → Option String → String → Result (Unit {0})
  unfolding header_or_denied signer_or_denied
  verify_node_access signature signer body = do
    signature' ← header_or_denied signature
    signer' ← header_or_denied signer
    s ← last_state c
    node_data ← signer_or_denied (lookup signer' s.nodes)
    filled ← raise_if invalid_request (str_eq body "")
    raise_if permission_denied
        (not (net.is_bls_sig_verified signature' (net.gen_hash body) node_data.public_key_g2))

  -- `signer != SEQUENCER["id"]`
  other_signer : Option String → Bool
  other_signer none = true
  other_signer (some signer) = not (str_eq signer c.sequencer.id)

  unfoldable pub verify_sequencer_access :
      Option String → Option String → String → Result (Unit {0})
  unfolding verify_node_access other_signer
  verify_sequencer_access signature signer body = do
    verified ← verify_node_access signature signer body
    raise_if permission_denied (other_signer signer)
