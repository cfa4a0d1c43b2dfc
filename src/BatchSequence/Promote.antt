-- ===== src/BatchSequence/Promote.antt =====
-- What `promote` does to the last index of each state.
use zsequencer.Prelude.{ℕ, ◌≤◌, ◌≡◌, max, arith, if◌then◌else◌}
use zsequencer.State.{
  OperationalState, sequenced, locked, finalized, is_state_before_or_equal, operational,
}
use zsequencer.BatchSequence.{BatchSequence, get_last_index_or_default, promote}

-- Promotion changes no batch.
pub batches-promote :
    (s : BatchSequence) (i : ℕ) (t : OperationalState) → (promote s i t).batches ≡ s.batches
unfolding promote
batches-promote s i sequenced = ground arith
batches-promote s i locked = ground arith
batches-promote s i finalized = ground arith

pub index_offset-promote :
    (s : BatchSequence) (i : ℕ) (t : OperationalState)
    → (promote s i t).index_offset ≡ s.index_offset
unfolding promote
index_offset-promote s i sequenced = ground arith
index_offset-promote s i locked = ground arith
index_offset-promote s i finalized = ground arith

-- Promoting up to a positive index of the sequence raises the last index of the target state
-- and of each state before it to that index at least, and leaves the states after it as they
-- are.
pub last-promote :
    (s : BatchSequence) (i : ℕ) (t u : OperationalState)
    → 1 ≤ i
    → i ≤ get_last_index_or_default s sequenced 0
    → get_last_index_or_default (promote s i t) u 0 ≡ (
        if is_state_before_or_equal (operational u) (operational t)
        then max (get_last_index_or_default s u 0) i
        else get_last_index_or_default s u 0)
unfolding promote
last-promote s i sequenced sequenced h k = ground arith
last-promote s i sequenced locked h k = ground arith
last-promote s i sequenced finalized h k = ground arith
last-promote s i locked sequenced h k = ground arith
last-promote s i locked locked h k = ground arith
last-promote s i locked finalized h k = ground arith
last-promote s i finalized sequenced h k = ground arith
last-promote s i finalized locked h k = ground arith
last-promote s i finalized finalized h k = ground arith

-- The order of two promotions does not matter.
pub promote_comm :
    (s : BatchSequence) (i j : ℕ) (t u : OperationalState)
    → promote (promote s i t) j u ≡ promote (promote s j u) i t
unfolding promote
promote_comm s i j sequenced sequenced = ground arith
promote_comm s i j sequenced locked = ground arith
promote_comm s i j sequenced finalized = ground arith
promote_comm s i j locked sequenced = ground arith
promote_comm s i j locked locked = ground arith
promote_comm s i j locked finalized = ground arith
promote_comm s i j finalized sequenced = ground arith
promote_comm s i j finalized locked = ground arith
promote_comm s i j finalized finalized = ground arith
