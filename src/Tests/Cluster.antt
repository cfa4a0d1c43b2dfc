-- ===== src/Tests/Cluster.antt =====
-- A cluster of two nodes: its configuration, the discovery of the sequencer and signed requests.
use zsequencer.Prelude.{
  inr, ◌≡◌, ◌≤◌, ◌+◌, refl, sym, ℕ, String, true, false, none, some, [], ◌∷◌, arith,
}
use zsequencer.Errors.{Result, err, ok, code}
use zsequencer.Dict.{Dict, lookup, insert}
use zsequencer.Config
use zsequencer.Config.{
  NodeData, NetworkState, RegisteredNode, Config, last_state, state_at, stake_of_all,
  get_network_state, has_role, data_or_raise,
}
use zsequencer.Config.History.{IsHistory, get_network_state-IsHistory}
use zsequencer.SequencerManager.{
  StateAnswer, error_answer, find_network_sequencer, is_candidate, add_stake, names_itself,
}
use zsequencer.SequencerManager.Votes.{IsFound, find_network_sequencer-IsFound}
use zsequencer.Guards.{verify_sequencer_access}
use zsequencer.Guards.Access.{IsSigned, verify_sequencer_access-IsSigned}
use zsequencer.Db.{InMemoryDb, app_of, init_batch_bodies}
use zsequencer.Db.Query.{is_sequencer_censoring}
use zsequencer.Db.Latency.{has_delayed_batches}
use zsequencer.NodeTasks.{and_then, attempt}
use zsequencer.NodeRoutes.{DisputeRequest, post_dispute, has_issue}
use zsequencer.NodeRoutes.Dispute.{post_dispute_lem}
use zsequencer.Tests.Node.{net, db}

abbrev pub node_n : NodeData ℕ
node_n = record { id = "n"; stake = 10; roles = "posting" ∷ "sequencing" ∷ []; public_key_g2 = 1 }

abbrev pub node_m : NodeData ℕ
node_m = record { id = "m"; stake = 5; roles = "posting" ∷ "sequencing" ∷ []; public_key_g2 = 2 }

abbrev pub cluster : NetworkState ℕ
cluster = record {
  tag = 3;
  timestamp = 0;
  nodes = ("n", node_n) ∷ ("m", node_m) ∷ [];
  aggregated_public_key = 3;
  total_stake = 15;
}

abbrev pub config : Config ℕ
config = record {
  historical_network_state = (3, cluster) ∷ [];
  network_status_tag = some 3;
  node = node_n;
  sequencer = node_m;
  paused = false;
  synced_flag = true;
  apps = "a" ∷ [];
  version = "v1";
  threshold_percent = 50;
  max_batch_size = 10;
  bandwidth_per_window = 40;
  finalization_time_border = 5;
}

known_tag :
    (tag : ℕ) (s : NetworkState ℕ)
    → state_at tag config.historical_network_state ≡ some s
    → (tag ≡ 3) × (cluster ≡ s)
unfolding state_at
known_tag tag s e = (ground arith, ground arith)

config-IsHistory : IsHistory config
unfolding last_state stake_of_all state_at
config-IsHistory = record {
  last_tag = 3;
  last = cluster;
  is_last = refl;
  at_tag = refl;
  greatest = λ tag s e. let (x, y) = known_tag tag s e in omega (arith, x);
  exact = λ tag s e. let (x, y) = known_tag tag s e in rw (sym y) (sym x, refl);
}

-- A registry that knows one node at each tag.
abbrev registered : ℕ → Result (Dict (RegisteredNode ℕ))
registered tag = ok (("n", record { id = "n"; stake = tag; roles = none; public_key_g2 = 1 }) ∷ [])

state_of : Result (NetworkState ℕ × Config ℕ) → NetworkState ℕ × Config ℕ
state_of (ok r) = r
state_of (err e) = (cluster, config)

abbrev at_seven : NetworkState ℕ × Config ℕ
at_seven = state_of (get_network_state registered (λ nodes. 1) 9 config 7)

seven_fetched : get_network_state registered (λ nodes. 1) 9 config 7 ≡ ok at_seven
unfolding state_of get_network_state state_at
seven_fetched = refl

get_network_state-IsHistory_example :
    IsHistory at_seven.1 × (state_at 7 at_seven.1.historical_network_state ≡ some at_seven.0)
get_network_state-IsHistory_example =
    get_network_state-IsHistory registered (λ nodes. 1) 9 config 7 at_seven.0 at_seven.1
      (inr config-IsHistory) seven_fetched

-- The other node says that it is the sequencer.
abbrev pub state_answers : String → StateAnswer
state_answers id = error_answer "IsSequencerError"

found_m : find_network_sequencer config state_answers ≡ ok (some "m")
unfolding find_network_sequencer last_state state_at lookup code Config.sequencing_nodes
    Config.attesting_nodes Config.get_nodes_with_role Config.nodes_where has_role is_candidate
    add_stake insert names_itself
found_m = refl

find_network_sequencer_example : IsFound config state_answers "m"
find_network_sequencer_example = find_network_sequencer-IsFound config state_answers "m" found_m

access_m : verify_sequencer_access net config (some "s") (some "m") "body" ≡ ok tt
unfolding verify_sequencer_access last_state lookup state_at
access_m = refl

verify_sequencer_access_example :
    IsSigned net config (some "s") (some "m") "body" × (some "m" ≡ some config.sequencer.id)
verify_sequencer_access_example =
    verify_sequencer_access-IsSigned net config (some "s") (some "m") "body" access_m

-- The sequencer is down, and another node disputes it.
abbrev db_down : InMemoryDb
db_down = record db { is_sequencer_down = true }

abbrev dispute : DisputeRequest
dispute = record { sequencer_id = "m"; apps_censored_batches = ("a", "zz") ∷ []; timestamp = 8 }

signed_dispute : (post_dispute config (λ s. s) (λ id t. id) 9 (some "n") dispute db_down).1 ≡ ok "m"
unfolding post_dispute last_state lookup Config.is_sequencer is_sequencer_censoring app_of
    has_delayed_batches and_then attempt init_batch_bodies state_at data_or_raise
signed_dispute = refl

post_dispute_example :
    (9 ≤ 8 + 5)
    × (8 ≤ 9 + 5)
    × (◌≡◌ {A = String} "m" "m")
    × (Config.is_sequencer config ≡ false)
    × (has_issue config db_down 9 ≡ ok true)
post_dispute_example =
    post_dispute_lem config (λ s. s) (λ id t. id) 9 (some "n") dispute db_down "m" refl
      signed_dispute
