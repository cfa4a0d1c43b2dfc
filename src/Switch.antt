-- ===== src/Switch.antt =====
-- The approval of a new sequencer and its choice (node/switch.py). The clock is a function of the
-- proof that is checked, since it is read for each.
pub mod Approval
pub mod Next
pub mod Sync
pub mod Change
pub mod Dispute
use zsequencer.Prelude.{
  ℕ, suc, ◌+◌, ◌*◌, ◌%◌, Bool, true, false, ◌&&◌, ◌==◌, Option, none, some, List, [], ◌∷◌, String,
  leb, ltb, length, map, get_elem?, str_eq, if◌then◌else◌,
}
use zsequencer.Errors.{Result, ok, err, ◌>>=◌, key_error, zero_division, index_error}
use zsequencer.Dict.{Dict, lookup}
use zsequencer.Distinct.{to_set}
use zsequencer.Network.{Node}
use zsequencer.Config.{Config, NodeData, NetworkState, last_state, sequencing_nodes}
use zsequencer.Prelude.Texts.{str_leb}

pub record SwitchProof : Type 0 where
  pub node_id : String
  pub sequencer_id : String
  pub timestamp : ℕ
  pub signature : String

-- What the checks read: the nodes, the total stake, the threshold in percent, the message that is
-- signed in a dispute, the check of a signature and the clock.
pub record SwitchSettings (Key : Type 0) : Type 0 where
  pub nodes : Dict (Node Key)
  pub total_stake : ℕ
  pub threshold_percent : ℕ
  pub dispute_message : String → ℕ → String
  pub is_bls_sig_verified : String → String → Key → Bool
  pub clock : SwitchProof → ℕ

module _ {Key : Type 0} (c : SwitchSettings Key) where
  -- `NODES[node_id]`, or `KeyError`.
  node_or_raise : Option (Node Key) → Result (Node Key)
  node_or_raise none = err key_error
  node_or_raise (some node) = ok node

  unfoldable pub node_of : String → Result (Node Key)
  unfolding node_or_raise
  node_of node_id = node_or_raise (lookup node_id c.nodes)

  -- `now - 10 <= timestamp <= now`
  unfoldable pub is_recent : SwitchProof → Bool
  is_recent p = leb (c.clock p) (p.timestamp + 10) && leb p.timestamp (c.clock p)

  unfoldable pub is_dispute_approved : SwitchProof → Result Bool
  unfolding is_recent node_of
  is_dispute_approved p = elim (is_recent p) [
    | false ↦ ok false
    | true ↦ node_of p.node_id >>= λ node. ok (
        c.is_bls_sig_verified p.signature (c.dispute_message p.sequencer_id p.timestamp)
          node.public_key_g2)
  ]

  -- `[proof.node_id for proof in proofs if is_dispute_approved(proof)]`
  unfoldable pub approved_ids : List SwitchProof → Result (List String)
  approved_ids [] = ok []
  approved_ids (p ∷ ps) =
      let rest = approved_ids ps in
      do
        approved ← is_dispute_approved p
        ids ← rest
        ok (if approved then p.node_id ∷ ids else ids)

  unfoldable pub stake_sum : List String → Result ℕ
  stake_sum [] = ok 0
  stake_sum (node_id ∷ ids) =
      let rest = stake_sum ids in do node ← node_of node_id; sum ← rest; ok (node.stake + sum)

  -- `100 * stake / TOTAL_STAKE >= THRESHOLD_PERCENT / 2`, multiplied out.
  unfoldable pub reaches_half : ℕ → Result Bool
  reaches_half stake =
      if c.total_stake == 0
      then err zero_division
      else ok (leb (c.threshold_percent * c.total_stake) (200 * stake))

  -- The same `(timestamp, sequencer_id)`.
  unfoldable pub same_dispute : SwitchProof → SwitchProof → Bool
  same_dispute p q = (p.timestamp == q.timestamp) && str_eq p.sequencer_id q.sequencer_id

  unfoldable pub is_switch_approved : List SwitchProof → Result Bool
  unfolding reaches_half
  is_switch_approved proofs =
      if ltb 1 (length (to_set same_dispute proofs))
      then ok false
      else if ltb (length (to_set str_eq (map (λ p. p.node_id) proofs))) (length proofs)
      then ok false
      else (approved_ids proofs >>= λ ids. stake_sum ids >>= reaches_half)

-- `ids.index(id)`
unfoldable pub index_of : String → List String → Option ℕ
index_of id [] = none
index_of id (x ∷ xs) =
    let rest = index_of id xs in
    if str_eq id x then some 0 else elim rest [ none ↦ none | some i ↦ some (suc i) ]

id_or_raise : Option String → Result String
id_or_raise none = err index_error
id_or_raise (some id) = ok id

next_in : List String → Option ℕ → Result String
unfolding id_or_raise
next_in ids none = id_or_raise (get_elem? ids 0)
next_in ids (some i) = id_or_raise (get_elem? ids (suc i % length ids))

-- `[node["id"] for node in …]`
unfoldable pub ids_of_nodes : {Key : Type 0} → Dict (NodeData Key) → List String
ids_of_nodes [] = []
ids_of_nodes ((address, node) ∷ rest) = node.id ∷ ids_of_nodes rest

-- `sorted` by the id, of which only the ids are used.
unfoldable pub insert_id : String → List String → List String
insert_id id [] = id ∷ []
insert_id id (x ∷ xs) = let rest = insert_id id xs in if str_leb id x then id ∷ x ∷ xs else x ∷ rest

unfoldable pub sort_ids : List String → List String
unfolding insert_id
sort_ids [] = []
sort_ids (id ∷ ids) = insert_id id (sort_ids ids)

-- The ids of the nodes with the role to sequence, in order.
unfoldable pub sequencing_ids : {Key : Type 0} → NetworkState Key → List String
unfolding ids_of_nodes sort_ids
sequencing_ids s = sort_ids (ids_of_nodes (sequencing_nodes s))

unfoldable pub get_next_sequencer_id : {Key : Type 0} → Config Key → String → Result String
unfolding next_in index_of sequencing_ids
get_next_sequencer_id c old_sequencer_id =
    last_state c >>= λ s. next_in (sequencing_ids s) (index_of old_sequencer_id (sequencing_ids s))
