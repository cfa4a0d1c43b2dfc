-- ===== src/BatchSequence/Validity.antt =====
-- The invariant of a sequence, under appending and promoting.
use zsequencer.Prelude.{
  ℕ, ◌+◌, ◌≤◌, ◌<◌, ◌≡◌, refl, Option, none, some, List, [], ◌∷◌, ◌++◌, length, length-append,
  arith,
}
use zsequencer.State.{OperationalState, sequenced, locked, finalized}
use zsequencer.Batch.{Batch}
use zsequencer.BatchSequence.{
  BatchSequence, batches_size, empty, create_empty, get, append, promote,
}

-- The last index of a state, where there is one, is the index of a batch of the sequence.
abbrev pub InRange : ℕ → ℕ → Option ℕ → Type 0
InRange offset n none = Unit {0}
InRange offset n (some last) = (offset ≤ last) × (last < offset + n)

pub record IsValid (s : BatchSequence) : Type 0 where
  pub offset_pos : 1 ≤ s.index_offset
  pub sized : s.size ≡ batches_size s.batches
  pub locked_in : InRange s.index_offset (length s.batches) s.locked_last_index
  pub finalized_in : InRange s.index_offset (length s.batches) s.finalized_last_index
  -- what is finalized is locked
  pub ordered : get s.finalized_last_index 0 ≤ get s.locked_last_index 0

pub IsValid-empty : IsValid empty
unfolding empty
IsValid-empty = record {
  offset_pos = omega arith;
  sized = refl;
  locked_in = tt;
  finalized_in = tt;
  ordered = omega arith;
}

pub IsValid-create_empty : (s : BatchSequence) → IsValid s → IsValid (create_empty s)
unfolding create_empty
IsValid-create_empty s v = record {
  offset_pos = v.offset_pos;
  sized = refl;
  locked_in = tt;
  finalized_in = tt;
  ordered = omega arith;
}

pub batches_size-append :
    (xs ys : List Batch) → batches_size (xs ++ ys) ≡ batches_size xs + batches_size ys
unfolding batches_size
batches_size-append [] ys = omega arith
batches_size-append (x ∷ xs) ys = omega (arith, batches_size-append xs ys)

pub InRange-le :
    (offset n m : ℕ) (last : Option ℕ) → n ≤ m → InRange offset n last → InRange offset m last
InRange-le offset n m none h r = tt
InRange-le offset n m (some i) h r = omega arith

pub append-IsValid : (s : BatchSequence) (b : Batch) → IsValid s → IsValid (append s b).0
unfolding append batches_size
append-IsValid s b v =
    let longer : length s.batches ≤ length (s.batches ++ b ∷ []) =
      omega (arith, length-append s.batches (b ∷ [])) in
    record {
      offset_pos = v.offset_pos;
      sized = omega (arith, v.sized, batches_size-append s.batches (b ∷ []));
      locked_in = InRange-le _ _ _ s.locked_last_index longer v.locked_in;
      finalized_in = InRange-le _ _ _ s.finalized_last_index longer v.finalized_in;
      ordered = v.ordered;
    }

-- Promoting up to an index at or after the first batch keeps a valid sequence valid.
pub promote-IsValid :
    (s : BatchSequence) (i : ℕ) (t : OperationalState)
    → s.index_offset ≤ i
    → IsValid s
    → IsValid (promote s i t)
unfolding promote
promote-IsValid s i sequenced h v = ground arith
promote-IsValid s i locked h v = ground arith
promote-IsValid s i finalized h v = ground arith
