-- ===== src/BatchSequence.antt =====
-- A run of consecutive batches with the last index that each state has reached
-- (common/batch_sequence.py): its state, its readers and its promotion.
pub mod Filter
pub mod Extend
pub mod Lookup
pub mod Validity
pub mod Promote
use zsequencer.Prelude.{
  ℕ, ◌+◌, ◌-◌, min, max, Bool, true, false, not, Option, none, some, List, [], ◌∷◌, ltb, leb, ◌==◌,
  length, get_elem?, if◌then◌else◌, ◌++◌,
}
use zsequencer.State.{
  OperationalState, sequenced, locked, finalized, operational, operational_states,
  is_state_before_or_equal,
}
use zsequencer.Errors.{Result, ok, err, runtime_error}
use zsequencer.Batch.{Batch, BatchRecord, get_batch_size}

abbrev pub global_index_offset : ℕ
global_index_offset = 1

abbrev pub before_global_index_offset : ℕ
before_global_index_offset = 0

-- The dict `_each_state_last_index` never has the key "sequenced", so it is two options.
pub record BatchSequence : Type 0 where
  pub index_offset : ℕ
  pub batches : List Batch
  pub locked_last_index : Option ℕ
  pub finalized_last_index : Option ℕ
  pub size : ℕ

unfoldable pub batches_size : List Batch → ℕ
batches_size [] = 0
batches_size (b ∷ bs) = get_batch_size b + batches_size bs

-- `__init__`
unfoldable pub make : ℕ → List Batch → Option ℕ → Option ℕ → BatchSequence
make index_offset batches locked_last finalized_last = record {
  index_offset = index_offset;
  batches = batches;
  locked_last_index = locked_last;
  finalized_last_index = finalized_last;
  size = batches_size batches;
}

-- `BatchSequence()`
unfoldable pub empty : BatchSequence
unfolding make batches_size
empty = make global_index_offset [] none none

unfoldable pub create_empty : BatchSequence → BatchSequence
unfolding make batches_size
create_empty s = make s.index_offset [] none none

abbrev pub is_empty : List Batch → Bool
is_empty [] = true
is_empty (b ∷ bs) = false

abbrev pub get : Option ℕ → ℕ → ℕ
get none default = default
get (some i) default = i

unfoldable pub get_last_index_or_default : BatchSequence → OperationalState → ℕ → ℕ
get_last_index_or_default s sequenced default =
    if is_empty s.batches then default else s.index_offset + length s.batches - 1
get_last_index_or_default s locked default = get s.locked_last_index default
get_last_index_or_default s finalized default = get s.finalized_last_index default

unfoldable pub has_any : BatchSequence → OperationalState → Bool
unfolding get_last_index_or_default
has_any s state =
    not (get_last_index_or_default s state before_global_index_offset == before_global_index_offset)

unfoldable pub get_first_index_or_default : BatchSequence → OperationalState → ℕ → ℕ
unfolding has_any
get_first_index_or_default s state default = if has_any s state then s.index_offset else default

-- `_get_batch_or_empty`: the relative index is negative below the offset.
unfoldable pub get_batch_or_empty : BatchSequence → ℕ → Option Batch
get_batch_or_empty s index =
    if ltb index s.index_offset then none else get_elem? s.batches (index - s.index_offset)

-- The loop of `_get_state` over the states that are left.
unfoldable pub find_state : BatchSequence → ℕ → List OperationalState → Result OperationalState
unfolding get_last_index_or_default
find_state s index [] = err runtime_error
find_state s index (state ∷ rest) =
    if leb index (get_last_index_or_default s state before_global_index_offset)
    then ok state
    else find_state s index rest

-- `_get_state`
unfoldable pub get_state : BatchSequence → ℕ → Result OperationalState
unfolding find_state
get_state s index =
    if ltb index global_index_offset
    then err runtime_error
    else find_state s index (finalized ∷ locked ∷ sequenced ∷ [])

-- A record or `{}` at an index that was looked up, where 0 means that there is none.
record_at : BatchSequence → OperationalState → ℕ → Option BatchRecord
record_at s state index =
    if index == before_global_index_offset
    then none
    else some (record { batch = get_batch_or_empty s index; index = index; state = state })

unfoldable pub get_first_or_empty : BatchSequence → OperationalState → Option BatchRecord
unfolding record_at get_first_index_or_default
get_first_or_empty s state =
    record_at s state (get_first_index_or_default s state before_global_index_offset)

unfoldable pub get_last_or_empty : BatchSequence → OperationalState → Option BatchRecord
unfolding record_at get_last_index_or_default
get_last_or_empty s state =
    record_at s state (get_last_index_or_default s state before_global_index_offset)

-- The record of a batch that was found; its state is looked up, which may raise.
unfoldable pub with_state : BatchSequence → ℕ → Option Batch → Result (Option BatchRecord)
with_state s index none = ok none
with_state s index (some b) = elim (get_state s index) [
  | ok state ↦ ok (some (record { batch = some b; index = index; state = state }))
  | err e ↦ err e
]

unfoldable pub get_or_empty : BatchSequence → ℕ → Result (Option BatchRecord)
unfolding with_state
get_or_empty s index = with_state s index (get_batch_or_empty s index)

-- `append`, with the index that it returns.
unfoldable pub append : BatchSequence → Batch → BatchSequence × ℕ
unfolding get_last_index_or_default
append s batch =
    let s' : BatchSequence = record s {
      batches = s.batches ++ batch ∷ [];
      size = s.size + get_batch_size batch;
    } in
    (s', get_last_index_or_default s' sequenced before_global_index_offset)

-- One entry of `_each_state_last_index`, raised to an index.
raise_last : ℕ → Option ℕ → Option ℕ
raise_last feasible last = some (max (get last feasible) feasible)

-- One round of the loop of `promote`.
promote_state : BatchSequence → ℕ → OperationalState → OperationalState → BatchSequence
unfolding raise_last
promote_state s feasible target sequenced = s
promote_state s feasible target locked =
    if is_state_before_or_equal (operational locked) (operational target)
    then record s { locked_last_index = raise_last feasible s.locked_last_index }
    else s
promote_state s feasible target finalized =
    if is_state_before_or_equal (operational finalized) (operational target)
    then record s { finalized_last_index = raise_last feasible s.finalized_last_index }
    else s

promote_states : BatchSequence → ℕ → OperationalState → List OperationalState → BatchSequence
unfolding promote_state
promote_states s feasible target [] = s
promote_states s feasible target (current ∷ rest) =
    promote_states (promote_state s feasible target current) feasible target rest

unfoldable pub promote : BatchSequence → ℕ → OperationalState → BatchSequence
unfolding promote_states get_last_index_or_default
promote s last_index target =
    let feasible =
      min last_index (get_last_index_or_default s sequenced before_global_index_offset) in
    if leb feasible before_global_index_offset
    then s
    else promote_states s feasible target operational_states
