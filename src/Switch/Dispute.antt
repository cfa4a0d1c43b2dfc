-- ===== src/Switch/Dispute.antt =====
-- The dispute of a node against its sequencer (node/switch.py). The other nodes' signatures are
-- arguments, and so are the signing of a message, and `asyncio.wait`: in which sets the requests are
-- done, or that the time for them was over. Shares of the stake are added up as stakes.
pub mod Names
pub mod Accepted
use zsequencer.Prelude.{
  str_eq, ℕ, ◌+◌, Bool, true, false, not, ◌||◌, Option, none, some, List, [], ◌∷◌, ◌++◌, String,
  if◌then◌else◌,
}
use zsequencer.Errors.{Result, ok, err, ◌>>=◌}
use zsequencer.Dict.{Dict}
use zsequencer.Network.{Node}
use zsequencer.Config.{Config, NodeData, last_state, attesting_nodes}
use zsequencer.Db.Latency.{has_delayed_batches}
use zsequencer.Db.Query.{is_sequencer_censoring}
use zsequencer.SequencerManager.{Manager}
use zsequencer.Switch.{
  SwitchProof, SwitchSettings, is_dispute_approved, node_of, reaches_half, get_next_sequencer_id,
}

-- The proofs that were gathered, and the stake behind them.
abbrev pub Gathered : Type 0
Gathered = List SwitchProof × ℕ

-- The ids of the nodes to which requests are made: the attesting nodes other than the own one.
unfoldable pub asked_ids : {Key : Type 0} → String → Dict (NodeData Key) → List String
asked_ids own_id [] = []
asked_ids own_id ((address, node) ∷ rest) =
    let others = asked_ids own_id rest in if str_eq node.id own_id then others else node.id ∷ others

-- `answers` has the signature of each node that gives one.
module _ {Key : Type 0} (c : SwitchSettings Key) (answers : String → Option String)
    (sequencer_id : String) (timestamp : ℕ) where
  unfoldable pub switch_proof : String → String → SwitchProof
  switch_proof node_id signature = record {
    node_id = node_id;
    sequencer_id = sequencer_id;
    timestamp = timestamp;
    signature = signature;
  }

  -- A request that is done: its proof is counted if it has one that is approved.
  unfoldable pub count_one : String → Option String → Gathered → Result Gathered
  unfolding switch_proof
  count_one node_id none g = ok g
  count_one node_id (some signature) (results, stake) =
      let proof = switch_proof node_id signature in
      is_dispute_approved c proof >>= λ approved. elim approved [
        | false ↦ ok (results, stake)
        | true ↦ node_of c node_id >>= λ node. ok (results ++ proof ∷ [], stake + node.stake)
      ]

  -- The loop over the requests that are done.
  unfoldable pub count_done : List String → Gathered → Result Gathered
  unfolding count_one
  count_done [] g = ok g
  count_done (node_id ∷ rest) g = count_one node_id (answers node_id) g >>= λ g'. count_done rest g'

  -- The loop while requests are pending and the stake is below half of the threshold.
  unfoldable pub gather_pending : List (List String) → Gathered → Result Gathered
  unfolding count_done
  gather_pending [] g = ok g
  gather_pending (done ∷ pending) g = reaches_half c g.1 >>= λ reached. elim reached [
    | true ↦ ok g
    | false ↦ count_done done g >>= λ g'. gather_pending pending g'
  ]

  -- `finish` gives the sets in which the requests are done. The stake of the node itself is counted
  -- from the start, and divided by the total.
  unfoldable pub gather_disputes : Config Key → (List String → List (List String)) → Result Gathered
  unfolding gather_pending asked_ids
  gather_disputes conf finish = last_state conf >>= λ s. node_of c conf.node.id >>= λ node.
      reaches_half c node.stake >>= λ reached.
      gather_pending (finish (asked_ids conf.node.id (attesting_nodes s))) ([], node.stake)

  -- The proofs are sent, and the sequencer is switched, if the stake reaches half of the threshold.
  -- The log line looks up both sequencers.
  unfoldable pub proofs_if_reached :
      Config Key → SwitchProof → Gathered → Result (Option (List SwitchProof × String))
  proofs_if_reached conf own (gathered, stake) = reaches_half c stake >>= λ reached. elim reached [
    | false ↦ ok none
    | true ↦ get_next_sequencer_id conf sequencer_id >>= λ next.
        node_of c sequencer_id >>= λ old_node.
        node_of c next >>= λ new_node. ok (some (own ∷ gathered, next))
  ]

  -- The part of `send_dispute_requests` after its own proof; `none` is a timeout.
  unfoldable pub dispute :
      Config Key
      → SwitchProof
      → Option (List String → List (List String))
      → Result (Option (List SwitchProof × String))
  unfolding gather_disputes proofs_if_reached
  dispute conf own none = ok none
  dispute conf own (some finish) = elim (gather_disputes conf finish) [
    | err e ↦ ok none
    | ok g ↦ proofs_if_reached conf own g
  ]

-- The proofs that a node sends with the sequencer to which it switches, if it disputes.
unfoldable pub send_dispute_requests :
    {Key : Type 0}
    → SwitchSettings Key
    → Manager Key
    → (String → String)
    → ℕ
    → (String → Option String)
    → Option (List String → List (List String))
    → Result (Option (List SwitchProof × String))
unfolding dispute switch_proof
send_dispute_requests c m bls_sign now answers finish =
    is_sequencer_censoring m.zdb m.zconfig.apps >>= λ censoring.
    let delayed = has_delayed_batches m.zconfig.finalization_time_border now m.zdb in
    let issue = censoring || delayed || m.zdb.is_sequencer_down in
    if not m.zconfig.synced_flag || m.zconfig.paused || not issue
    then ok none
    else (let id = m.zconfig.sequencer.id in
        let own =
          switch_proof c answers id now m.zconfig.node.id (bls_sign (c.dispute_message id now)) in
        dispute c answers id now m.zconfig own finish)
