-- ===== src/BatchSequence/Extend.antt =====
-- Joining two sequences, and the form that is written to a chunk file: `extend`, `to_mapping` and
-- `from_mapping` of common/batch_sequence.py.
pub mod Join
pub mod RoundTrip
use zsequencer.Prelude.{
  ℕ, ◌+◌, Bool, true, not, Option, none, some, List, [], ◌∷◌, leb, ◌==◌, ◌++◌, if◌then◌else◌,
}
use zsequencer.State.{OperationalState, sequenced, locked, finalized}
use zsequencer.Errors.{Result, ok, err, value_error}
use zsequencer.Batch.{Batch}
use zsequencer.BatchSequence.{
  BatchSequence, make, is_empty, get_last_index_or_default, append, promote,
  before_global_index_offset,
}

-- `_includes_only_finalized_batches`
unfoldable pub includes_only_finalized_batches : BatchSequence → Bool
unfolding get_last_index_or_default
includes_only_finalized_batches s =
    if is_empty s.batches
    then true
    else leb (get_last_index_or_default s sequenced before_global_index_offset)
        (get_last_index_or_default s finalized before_global_index_offset)

-- `for batch in other.batches(): self.append(batch)`
unfoldable pub append_all : BatchSequence → List Batch → BatchSequence
append_all s [] = s
append_all s (b ∷ bs) = append_all (append s b).0 bs

unfoldable pub promote_entry : BatchSequence → OperationalState → Option ℕ → BatchSequence
promote_entry s state none = s
promote_entry s state (some index) = promote s index state

unfoldable pub extend : BatchSequence → BatchSequence → Result BatchSequence
extend s other =
    let appended = append_all s other.batches in
    let promoted = promote_entry appended locked other.locked_last_index in
    if is_empty other.batches
    then ok s
    else if not (includes_only_finalized_batches s)
    then err value_error
    else if is_empty s.batches
    then ok (record {
      index_offset = other.index_offset;
      batches = other.batches;
      locked_last_index = other.locked_last_index;
      finalized_last_index = other.finalized_last_index;
      size = other.size;
    })
    else if not
        (other.index_offset == get_last_index_or_default s sequenced before_global_index_offset + 1)
    then err value_error
    else ok (promote_entry promoted finalized other.finalized_last_index)

-- The dict of `to_mapping`, with the entries of its dict of states in order.
pub record Mapping : Type 0 where
  pub index_offset : ℕ
  pub batches : List Batch
  pub each_state_last_index : List (OperationalState × ℕ)

entry : OperationalState → Option ℕ → List (OperationalState × ℕ)
entry state none = []
entry state (some last) = (state, last) ∷ []

unfoldable pub to_mapping : BatchSequence → Mapping
unfolding entry
to_mapping s = record {
  index_offset = s.index_offset;
  batches = s.batches;
  each_state_last_index =
      entry locked s.locked_last_index ++ entry finalized s.finalized_last_index;
}

-- The entries of a dict read one by one; the constructor refuses the key "sequenced".
read_entries : BatchSequence → List (OperationalState × ℕ) → Result BatchSequence
read_entries s [] = ok s
read_entries s ((sequenced, last) ∷ rest) = err value_error
read_entries s ((locked, last) ∷ rest) =
    read_entries (record s { locked_last_index = some last }) rest
read_entries s ((finalized, last) ∷ rest) =
    read_entries (record s { finalized_last_index = some last }) rest

unfoldable pub from_mapping : Mapping → Result BatchSequence
unfolding read_entries make
from_mapping m = read_entries (make m.index_offset m.batches none none) m.each_state_last_index
