-- ===== src/BatchSequence/Filter/Halves.antt =====
-- `filter` at one index alone cuts a sequence in two halves.
use zsequencer.Prelude.{
  ℕ, ◌+◌, ◌-◌, ◌≤◌, ◌<◌, ◌≡◌, refl, true, false, none, some, List, arith, take, drop, length,
  lt_or_le, inl, inr, min, take-min, Option, length-drop, drop-min, take-length,
}
use zsequencer.Prelude.Int.{ℤ, pos, ◌-ℤ◌, ◌+ℤ◌}
use zsequencer.ExtendedInt
use zsequencer.ExtendedInt.{ExtendedInt, int, inf, minus_inf}
use zsequencer.State.{sequenced}
use zsequencer.Batch.{Batch}
use zsequencer.BatchSequence.{BatchSequence, make, create_empty}
use zsequencer.BatchSequence.Filter.{
  filter, cut, window, excludes_target, slice, bound_or, before_index_offset, final_start_inclusive,
  final_end_exclusive, target_last_index, excluding_last_index,
}
use zsequencer.BatchSequence.Filter.Select.{first_kept, end_kept}
use zsequencer.BatchSequence.Filter.Window.{relative_pos, cut-window, relative_inf}

slice_from : (lo : ℕ) (xs : List Batch) → slice (some (pos lo)) none xs ≡ drop lo xs
unfolding slice bound_or
slice_from lo xs =
    let short : length (drop lo xs) ≤ length xs - min lo (length xs) =
      omega (arith, length-drop lo xs) in
    rw (drop-min lo xs) (take-length (length xs - min lo (length xs)) (drop lo xs) short)

slice_to : (hi : ℕ) (xs : List Batch) → slice (some (pos 0)) (some (pos hi)) xs ≡ take hi xs
unfolding slice bound_or
slice_to hi xs =
    let none_before : min 0 (length xs) ≡ 0 = omega arith in
    let whole : min hi (length xs) - 0 ≡ min hi (length xs) = omega arith in
    rw (none_before, whole) (take-min hi xs)

window_batches : (s : BatchSequence) (a b : Option ℤ) → (window s a b).batches ≡ slice a b s.batches
unfolding window make
window_batches s a b = refl

first_kept_all :
    (s : BatchSequence)
    → 1 ≤ s.index_offset
    → first_kept s none none ≡ int (pos (s.index_offset + 0))
unfolding final_start_inclusive ExtendedInt.max ExtendedInt.add before_index_offset ◌-ℤ◌ ◌+ℤ◌
    excluding_last_index
first_kept_all s o = ground arith

first_kept_after :
    (s : BatchSequence) (last : ℕ)
    → 1 ≤ s.index_offset
    → first_kept s none (some (pos last)) ≡ int (pos (s.index_offset + (last + 1 - s.index_offset)))
unfolding final_start_inclusive ExtendedInt.max ExtendedInt.add before_index_offset ◌-ℤ◌ ◌+ℤ◌
    excluding_last_index
first_kept_after s last o = ground arith

end_kept_at :
    (s : BatchSequence) (last : ℕ) → end_kept s sequenced (some (pos last)) ≡ int (pos (last + 1))
unfolding final_end_exclusive target_last_index ExtendedInt.min ExtendedInt.add ◌+ℤ◌
end_kept_at s last = ground arith

end_kept_all : (s : BatchSequence) → end_kept s sequenced none ≡ inf
unfolding final_end_exclusive target_last_index ExtendedInt.min ExtendedInt.add ◌+ℤ◌
end_kept_all s = refl

cut_from :
    (s : BatchSequence) (lo : ℕ)
    → (cut s (int (pos (s.index_offset + lo))) inf).batches ≡ drop lo s.batches
cut_from s lo =
    rw (cut-window, relative_pos s lo, relative_inf s, window_batches) (slice_from lo s.batches)

ge_pos-false : (a b : ℕ) → a < b → ExtendedInt.ge (int (pos a)) (int (pos b)) ≡ false
unfolding ExtendedInt.ge ExtendedInt.lt
ge_pos-false a b h = ground arith

ge_pos-true : (a b : ℕ) → b ≤ a → ExtendedInt.ge (int (pos a)) (int (pos b)) ≡ true
unfolding ExtendedInt.ge ExtendedInt.lt
ge_pos-true a b h = ground arith

cut_to :
    (s : BatchSequence) (hi : ℕ)
    → (cut s (int (pos (s.index_offset + 0))) (int (pos (s.index_offset + hi)))).batches
      ≡ take hi s.batches
cut_to s hi =
    rw (cut-window, relative_pos s 0, relative_pos s hi, window_batches) (slice_to hi s.batches)

cut_below :
    (s : BatchSequence) (end : ℕ)
    → s.index_offset ≤ end
    → (cut s (int (pos (s.index_offset + 0))) (int (pos end))).batches
      ≡ take (end - s.index_offset) s.batches
cut_below s end h =
    let e : s.index_offset + (end - s.index_offset) ≡ end = omega arith in
    rw e at (cut_to s (end - s.index_offset))

pub filter_up_to :
    (s : BatchSequence) (last : ℕ)
    → 1 ≤ s.index_offset
    → (filter s sequenced none none (some (pos last))).batches
      ≡ take (last + 1 - s.index_offset) s.batches
unfolding filter create_empty excludes_target ExtendedInt.from_optional_int ExtendedInt.eq_int
    target_last_index ExtendedInt.ge cut
filter_up_to s last o = elim (lt_or_le s.index_offset (last + 1)) [
  | inl h ↦
      let below = ge_pos-false (s.index_offset + 0) (last + 1) (omega arith) in
      rw (first_kept_all s o, end_kept_at s last, below) (cut_below s (last + 1) (omega arith))
  | inr h ↦
      let e : last + 1 - s.index_offset ≡ 0 = omega arith in
      let above = ge_pos-true (s.index_offset + 0) (last + 1) (omega arith) in
      rw (first_kept_all s o, end_kept_at s last, above, e) refl
]

pub filter_from :
    (s : BatchSequence) (last : ℕ)
    → 1 ≤ s.index_offset
    → (filter s sequenced none (some (pos last)) none).batches
      ≡ drop (last + 1 - s.index_offset) s.batches
unfolding filter create_empty excludes_target ExtendedInt.ge ExtendedInt.from_optional_int
    ExtendedInt.eq_int target_last_index
filter_from s last o =
    rw (first_kept_after s last o, end_kept_all s) (cut_from s (last + 1 - s.index_offset))
