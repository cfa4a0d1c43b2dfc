-- ===== src/Tests/Sequence.antt =====
-- The operations on sequences run on three batches.
use zsequencer.Prelude.{◌≡◌, ◌≢◌, refl, false, none, some, [], ◌∷◌, arith, if◌then◌else◌, ◌⊎◌, ◌+◌}
use mathlib.Core.Logic.{◌↔◌}
use zsequencer.Prelude.Int.{pos}
use zsequencer.State.{sequenced, locked}
use zsequencer.Errors.{ok, err, value_error}
use zsequencer.Batch.{Batch, get_batch_size, get_utf8_size}
use zsequencer.BatchSequence.{
  BatchSequence, batches_size, append, promote, get_or_empty, get_last_index_or_default, is_empty,
}
use zsequencer.BatchSequence.Validity.{IsValid}
use zsequencer.BatchSequence.Filter.{filter, truncate_by_size}
use zsequencer.BatchSequence.Filter.Select.{selects}
use zsequencer.BatchSequence.Filter.Keep.{get_or_empty-filter}
use zsequencer.BatchSequence.Filter.Truncate.{truncate_by_size-IsLongestFit, IsLongestFit}
use zsequencer.BatchSequence.Extend.{
  extend, promote_entry, append_all, includes_only_finalized_batches, to_mapping, from_mapping,
}
use zsequencer.BatchSequence.Extend.Join.{extend-ok, extend-error}
use zsequencer.BatchSequence.Extend.RoundTrip.{from_mapping-to_mapping}
use zsequencer.Db.{new_batch}

abbrev pub first : Batch
first = new_batch "a" "ha"

abbrev pub second : Batch
second = new_batch "bb" "hb"

abbrev pub third : Batch
third = new_batch "ccc" "hc"

-- Three batches from index 4 on: the first is finalized and the second is locked.
abbrev pub three : BatchSequence
three = record {
  index_offset = 4;
  batches = first ∷ second ∷ third ∷ [];
  locked_last_index = some 5;
  finalized_last_index = some 4;
  size = 6;
}

pub three-IsValid : IsValid three
unfolding batches_size get_batch_size get_utf8_size
three-IsValid = record {
  offset_pos = omega arith;
  sized = refl;
  locked_in = (omega arith, omega arith);
  finalized_in = (omega arith, omega arith);
  ordered = omega arith;
}

-- Two finalized batches, and a batch after them.
abbrev two : BatchSequence
two = record {
  index_offset = 1;
  batches = first ∷ second ∷ [];
  locked_last_index = some 2;
  finalized_last_index = some 2;
  size = 3;
}

abbrev one_more : BatchSequence
one_more = record {
  index_offset = 3;
  batches = third ∷ [];
  locked_last_index = some 3;
  finalized_last_index = none;
  size = 3;
}

two-IsValid : IsValid two
unfolding batches_size get_batch_size get_utf8_size
two-IsValid = record {
  offset_pos = omega arith;
  sized = refl;
  locked_in = (omega arith, omega arith);
  finalized_in = (omega arith, omega arith);
  ordered = omega arith;
}

one_more-IsValid : IsValid one_more
unfolding batches_size get_batch_size get_utf8_size
one_more-IsValid = record {
  offset_pos = omega arith;
  sized = refl;
  locked_in = (omega arith, omega arith);
  finalized_in = tt;
  ordered = omega arith;
}

-- The locked batches after index 4 are the second one alone.
get_or_empty-filter_example :
    get_or_empty (filter three locked none (some (pos 4)) none) 5
    ≡ (if selects three locked none (some (pos 4)) none 5 then get_or_empty three 5 else ok none)
get_or_empty-filter_example =
    get_or_empty-filter three locked none (some (pos 4)) none 5 three-IsValid

-- Four bytes hold the first two batches.
truncate_by_size-IsLongestFit_example :
    (r : BatchSequence) × (truncate_by_size three 4 ≡ ok r) × IsValid r × IsLongestFit three 4 r
truncate_by_size-IsLongestFit_example =
    truncate_by_size-IsLongestFit three 4 three-IsValid (omega arith)

abbrev three_joined : BatchSequence
three_joined = record {
  index_offset = 1;
  batches = first ∷ second ∷ third ∷ [];
  locked_last_index = some 3;
  finalized_last_index = some 2;
  size = 6;
}

two-extend : extend two one_more ≡ ok three_joined
unfolding extend includes_only_finalized_batches promote_entry promote append_all append
    get_batch_size get_utf8_size
two-extend = refl

extend-ok_example :
    IsValid three_joined
    × (three_joined.batches ≡ first ∷ second ∷ third ∷ [])
    × (three_joined.index_offset ≡ 1)
extend-ok_example = extend-ok two one_more two-IsValid one_more-IsValid two-extend

-- A sequence with batches that are not finalized takes no more.
extend-error_example : (extend three one_more ≡ err value_error) ↔ (
    (is_empty one_more.batches ≡ false)
    × ((includes_only_finalized_batches three ≡ false)
        ⊎ ((is_empty three.batches ≡ false)
            × (one_more.index_offset ≢ get_last_index_or_default three sequenced 0 + 1))))
extend-error_example = extend-error three one_more

from_mapping-to_mapping_example : from_mapping (to_mapping three) ≡ ok three
from_mapping-to_mapping_example = from_mapping-to_mapping three three-IsValid.sized
