-- ===== src/State.antt =====
-- The states of a batch (common/state.py). A batch is initialized in the pool of its node,
-- sequenced by the sequencer, then locked and finalized by signatures of the nodes.
use zsequencer.Prelude.{
  ℕ, Bool, Option, none, some, String, List, [], ◌∷◌, leb, str_eq, if◌then◌else◌,
}

-- `OperationalState`, in the order of `OPERATIONAL_STATES`.
pub data OperationalState : Type 0 where
  sequenced locked finalized : OperationalState

-- `State`: an operational state, or `initialized`.
pub data State : Type 0 where
  initialized : State
  operational : OperationalState → State

-- The states are texts in the source.
abbrev pub name_of : OperationalState → String
name_of sequenced = "sequenced"
name_of locked = "locked"
name_of finalized = "finalized"

-- The state that a text names, if it is one of `STATES`.
unfoldable pub state_of_name : String → Option State
state_of_name name =
    if str_eq name "initialized"
    then some initialized
    else if str_eq name "sequenced"
    then some (operational sequenced)
    else if str_eq name "locked"
    then some (operational locked)
    else if str_eq name "finalized"
    then some (operational finalized)
    else none

-- `OPERATIONAL_STATES`
abbrev pub operational_states : List OperationalState
operational_states = sequenced ∷ locked ∷ finalized ∷ []

-- `STATES.index`, the place of a state in the tuple `STATES`.
abbrev pub index : State → ℕ
index initialized = 0
index (operational sequenced) = 1
index (operational locked) = 2
index (operational finalized) = 3

abbrev pub is_state_before_or_equal : State → State → Bool
is_state_before_or_equal base_state comparison_state =
    leb (index base_state) (index comparison_state)
