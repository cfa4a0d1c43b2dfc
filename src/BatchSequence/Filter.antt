-- ===== src/BatchSequence/Filter.antt =====
-- `BatchSequence.filter` and `truncate_by_size` (common/batch_sequence.py), which cut a window out
-- of a sequence and keep the indices of the batches.
pub mod Window
pub mod Select
pub mod Keep
pub mod Truncate
pub mod Halves
use zsequencer.Prelude.{
  ℕ, ◌+◌, ◌-◌, min, Bool, false, Option, none, some, List, [], ◌∷◌, ltb, leb, ◌||◌, length, take,
  drop, if◌then◌else◌,
}
use zsequencer.Prelude.Int.{ℤ, pos, negsuc, ◌-ℤ◌, ltb_ℤ, pos_part}
use zsequencer.State.{OperationalState, sequenced, operational, is_state_before_or_equal}
use zsequencer.Errors.{Result, ok, ◌>>=◌}
use zsequencer.ExtendedInt
use zsequencer.ExtendedInt.{ExtendedInt, int, inf, minus_inf}
use zsequencer.Batch.{Batch, get_batch_size}
use zsequencer.BatchSequence.{
  BatchSequence, make, create_empty, is_empty, get_last_index_or_default, get_state,
  before_global_index_offset,
}

-- `before_index_offset`, which is -1 for an offset of 0.
unfoldable pub before_index_offset : BatchSequence → ℤ
before_index_offset s = pos s.index_offset -ℤ pos 1

-- Python's reading of one bound of a slice of a list of `n` items.
bound : ℕ → ℤ → ℕ
bound n (pos k) = min k n
bound n (negsuc k) = n - (k + 1)

bound_or : ℕ → ℕ → Option ℤ → ℕ
unfolding bound
bound_or n default none = default
bound_or n default (some k) = bound n k

-- `xs[start:end]`
unfoldable pub slice {ℓ} : {A : Type ℓ} → Option ℤ → Option ℤ → List A → List A
unfolding bound_or
slice start end xs =
    let a = bound_or (length xs) 0 start in
    let b = bound_or (length xs) (length xs) end in take (b - a) (drop a xs)

-- The last index of the target state; a sequenced target has no limit.
unfoldable pub target_last_index : BatchSequence → OperationalState → ExtendedInt
unfolding ExtendedInt.from_optional_int get_last_index_or_default
target_last_index s sequenced = ExtendedInt.from_optional_int none inf
target_last_index s state =
    ExtendedInt.from_optional_int
      (some (pos (get_last_index_or_default s state before_global_index_offset))) inf

excluding_last : BatchSequence → Option OperationalState → Option ℤ
unfolding get_last_index_or_default
excluding_last s none = none
excluding_last s (some state) =
    some (pos (get_last_index_or_default s state before_global_index_offset))

-- The last index of the excluded state, where 0 stands for no such batch.
unfoldable pub excluding_last_index : BatchSequence → Option OperationalState → ExtendedInt
unfolding excluding_last ExtendedInt.from_optional_int ExtendedInt.eq_int
excluding_last_index s exclude =
    let last = ExtendedInt.from_optional_int (excluding_last s exclude) minus_inf in
    if ExtendedInt.eq_int last (pos before_global_index_offset) then minus_inf else last

unfoldable pub excludes_target : Option OperationalState → OperationalState → Bool
excludes_target none target = false
excludes_target (some state) target =
    is_state_before_or_equal (operational state) (operational target)

unfoldable pub final_start_inclusive :
    BatchSequence → Option OperationalState → ExtendedInt → ExtendedInt
final_start_inclusive s exclude start =
    ExtendedInt.add
      (ExtendedInt.max (ExtendedInt.max start (excluding_last_index s exclude))
        (int (before_index_offset s)))
      (pos 1)

unfoldable pub final_end_exclusive : BatchSequence → OperationalState → ExtendedInt → ExtendedInt
final_end_exclusive s target end =
    ExtendedInt.add (ExtendedInt.min end (target_last_index s target)) (pos 1)

-- The entry of a state in the window that begins at `first`; it is dropped if the state ends
-- before, or if there are no batches.
unfoldable pub restrict : ℕ → List Batch → Option ℕ → Option ℕ
restrict first batches none = none
restrict first batches (some last) =
    if is_empty batches || ltb last first
    then none
    else some (min (first + length batches - 1) last)

get_int : Option ℤ → ℤ
get_int none = pos 0
get_int (some k) = k

-- The last part of `filter`: the slice, its first index and its states. The relative start is never
-- negative, since the start is above `before_index_offset`.
unfoldable pub window : BatchSequence → Option ℤ → Option ℤ → BatchSequence
unfolding slice restrict make get_int
window s relative_start relative_end =
    let batches = slice relative_start relative_end s.batches in
    let first = s.index_offset + pos_part (get_int relative_start) in
    make first batches (restrict first batches s.locked_last_index)
      (restrict first batches s.finalized_last_index)

unfoldable pub relative : BatchSequence → ExtendedInt → Option ℤ
unfolding ExtendedInt.sub ExtendedInt.to_optional_int
relative s a = ExtendedInt.to_optional_int (ExtendedInt.sub a (pos s.index_offset))

unfoldable pub cut : BatchSequence → ExtendedInt → ExtendedInt → BatchSequence
cut s start end = window s (relative s start) (relative s end)

unfoldable pub filter :
    BatchSequence → OperationalState → Option OperationalState → Option ℤ → Option ℤ → BatchSequence
filter s target exclude start_exclusive end_inclusive =
    let start = ExtendedInt.from_optional_int start_exclusive minus_inf in
    let end = ExtendedInt.from_optional_int end_inclusive inf in
    let final_start = final_start_inclusive s exclude start in
    let final_end = final_end_exclusive s target end in
    if excludes_target exclude target
    then create_empty s
    else if ExtendedInt.ge start end
    then create_empty s
    else if ExtendedInt.eq_int (target_last_index s target) (pos before_global_index_offset)
    then create_empty s
    else if ExtendedInt.ge final_start final_end
    then create_empty s
    else cut s final_start final_end

-- The loop of `truncate_by_size` over the records from `index` on: the last index that fits.
unfoldable pub fitting_end : BatchSequence → ℕ → List Batch → ℕ → ℕ → ℤ → Result ℤ
fitting_end s limit [] index total end_index = ok end_index
fitting_end s limit (batch ∷ rest) index total end_index =
    let next = fitting_end s limit rest (index + 1) (total + get_batch_size batch) (pos index) in
    get_state s index >>= λ _.
    if ltb limit (total + get_batch_size batch) then ok end_index else next

unfoldable pub cut_at : BatchSequence → ℤ → BatchSequence
cut_at s end_index =
    if ltb_ℤ (before_index_offset s) end_index
    then filter s sequenced none none (some end_index)
    else create_empty s

-- `truncate_by_size`, with the limit in bytes; it raises where a record has no state.
unfoldable pub truncate_by_size : BatchSequence → ℕ → Result BatchSequence
truncate_by_size s limit =
    let end = fitting_end s limit s.batches s.index_offset 0 (before_index_offset s) in
    if leb limit 0 || is_empty s.batches
    then ok (create_empty s)
    else if leb s.size limit
    then ok s
    else (end >>= λ end_index. ok (cut_at s end_index))
