-- ===== src/BatchSequence/Lookup.antt =====
-- Reading a sequence by index: which indices have a batch, and how the states go.
use zsequencer.Prelude.{
  ℕ, ◌+◌, ◌-◌, ◌≤◌, ◌<◌, ◌≡◌, refl, Option, none, some, List, [], ◌∷◌, length, get_elem?-none,
  arith, if◌then◌else◌, lt_or_le, inl, inr, leb,
}
use zsequencer.State.{sequenced, locked, finalized, OperationalState}
use zsequencer.Errors.{ok}
use zsequencer.Batch.{Batch, BatchRecord}
use zsequencer.BatchSequence.{
  BatchSequence, is_empty, create_empty, get_last_index_or_default, get_batch_or_empty, get_state,
  get_or_empty, with_state, get,
}

pub get-create_empty : (s : BatchSequence) (i : ℕ) → get_batch_or_empty (create_empty s) i ≡ none
unfolding get_batch_or_empty create_empty
get-create_empty s i = ground arith

pub get_batch-none :
    (s : BatchSequence) (i : ℕ)
    → s.index_offset + length s.batches ≤ i
    → get_batch_or_empty s i ≡ none
unfolding get_batch_or_empty
get_batch-none s i h = ground (arith, get_elem?-none s.batches (i - s.index_offset))

pub last-sequenced :
    (s : BatchSequence) (i d : ℕ)
    → s.index_offset ≤ i
    → i < s.index_offset + length s.batches
    → get_last_index_or_default s sequenced d + 1 ≡ s.index_offset + length s.batches
unfolding get_last_index_or_default
last-sequenced s i d h k = go s.batches k
  where
    go :
        (bs : List Batch)
        → i < s.index_offset + length bs
        → (if is_empty bs then d else s.index_offset + length bs - 1) + 1
          ≡ s.index_offset + length bs
    go [] k = absurd (omega arith)
    go (b ∷ bs) k = omega arith

pub get-below : (s : BatchSequence) (i : ℕ) → i < s.index_offset → get_batch_or_empty s i ≡ none
unfolding get_batch_or_empty
get-below s i h = ground arith

-- An index with a batch lies in the sequence.
pub get_batch_some :
    (s : BatchSequence) (i : ℕ) (b : Batch)
    → get_batch_or_empty s i ≡ some b
    → (s.index_offset ≤ i) × (i < s.index_offset + length s.batches)
get_batch_some s i b h = elim (lt_or_le i s.index_offset) [
  | inl x ↦ absurd (cc (h, get-below s i x))
  | inr x ↦ elim (lt_or_le i (s.index_offset + length s.batches)) [
    | inl y ↦ (x, y)
    | inr y ↦ absurd (cc (h, get_batch-none s i y))
  ]
]

-- The latest state that an index has reached.
abbrev pub state_of : BatchSequence → ℕ → OperationalState
state_of s i =
    if leb i (get s.finalized_last_index 0)
    then finalized
    else if leb i (get s.locked_last_index 0)
    then locked
    else sequenced

-- An index in a sequence has a state.
pub get_state-ok :
    (s : BatchSequence) (i : ℕ)
    → 1 ≤ s.index_offset
    → s.index_offset ≤ i
    → i < s.index_offset + length s.batches
    → get_state s i ≡ ok (state_of s i)
unfolding get_state
get_state-ok s i o h k = ground (arith, last-sequenced s i 0 h k)

abbrev pub record_of : BatchSequence → ℕ → Option Batch → Option BatchRecord
record_of s i none = none
record_of s i (some b) = some (record { batch = some b; index = i; state = state_of s i })

-- With a positive offset, looking up a record raises nothing.
pub get_or_empty-ok :
    (s : BatchSequence) (i : ℕ)
    → 1 ≤ s.index_offset
    → get_or_empty s i ≡ ok (record_of s i (get_batch_or_empty s i))
unfolding get_or_empty
get_or_empty-ok s i o = go (get_batch_or_empty s i) refl
  where
    go : (x : Option Batch) → get_batch_or_empty s i ≡ x → with_state s i x ≡ ok (record_of s i x)
    go none e = refl
    go (some b) e =
        let (h, k) = get_batch_some s i b e in rw (get_state-ok s i o h k, with_state) refl
