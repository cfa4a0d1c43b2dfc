-- ===== src/BatchSequence/Filter/Truncate.antt =====
-- `truncate_by_size` and the batches that fit in a limit.
use zsequencer.Prelude.{
  ℕ, zero, suc, ◌+◌, ◌-◌, ◌≤◌, ◌<◌, ◌≡◌, refl, sym, min, true, none, some, List, [], ◌∷◌, ◌||◌,
  length, take, take-length, take-min, arith, ltb, leb, if◌then◌else◌, Bool-cases, inl, inr,
}
use zsequencer.Prelude.Int.{ℤ, pos, ◌-ℤ◌, ◌+ℤ◌}
use zsequencer.State.{sequenced}
use zsequencer.Errors.{ok}
use zsequencer.ExtendedInt
use zsequencer.ExtendedInt.{ExtendedInt, int, inf, minus_inf}
use zsequencer.Batch.{Batch, get_batch_size}
use zsequencer.BatchSequence.{BatchSequence, make, create_empty, batches_size, is_empty}
use zsequencer.BatchSequence.Lookup.{get_state-ok}
use zsequencer.BatchSequence.Validity.{IsValid, IsValid-create_empty}
use zsequencer.BatchSequence.Filter.{
  slice, bound_or, window, filter, before_index_offset, final_start_inclusive, final_end_exclusive,
  excluding_last_index, target_last_index, fitting_end, cut_at, truncate_by_size, excludes_target,
}
use zsequencer.BatchSequence.Filter.Window.{cut-window, relative_pos}
use zsequencer.BatchSequence.Filter.Select.{first_kept, end_kept}
use zsequencer.BatchSequence.Filter.Keep.{filter-IsValid}

-- How many batches from the start fit, next to `total` bytes.
pub fit : ℕ → ℕ → List Batch → ℕ
fit limit total [] = 0
fit limit total (b ∷ bs) =
    if ltb limit (total + get_batch_size b)
    then 0
    else suc (fit limit (total + get_batch_size b) bs)

abbrev end_after : ℤ → ℕ → ℕ → ℤ
end_after e index zero = e
end_after e index (suc k) = pos (index + k)

fitting_end_lem :
    (s : BatchSequence) (limit : ℕ) (bs : List Batch) (index total : ℕ) (e : ℤ)
    → 1 ≤ s.index_offset
    → s.index_offset ≤ index
    → index + length bs ≤ s.index_offset + length s.batches
    → fitting_end s limit bs index total e ≡ ok (end_after e index (fit limit total bs))
unfolding fitting_end fit
fitting_end_lem s limit [] index total e o h k = refl
fitting_end_lem s limit (b ∷ bs) index total e o h k =
    rw (get_state-ok s index o h (omega arith))
      (elim (Bool-cases (ltb limit (total + get_batch_size b))) [
        | inl x ↦ rw x refl
        | inr x ↦ rw x (
            rw
              (fitting_end_lem s limit bs (index + 1) (total + get_batch_size b) (pos index) o
                (omega arith) (omega arith))
              (go (fit limit (total + get_batch_size b) bs)))
      ])
  where
    go : (k : ℕ) → ok (end_after (pos index) (index + 1) k) ≡ ok (pos (index + k))
    go zero = ground arith
    go (suc k) = ground arith

start_first :
    (s : BatchSequence)
    → 1 ≤ s.index_offset
    → first_kept s none none ≡ int (pos (s.index_offset + 0))
unfolding final_start_inclusive excluding_last_index ExtendedInt.max ExtendedInt.add
    before_index_offset ◌-ℤ◌ ◌+ℤ◌
start_first s o = ground arith

end_first :
    (s : BatchSequence) (k : ℕ)
    → end_kept s sequenced (some (pos (s.index_offset + k))) ≡ int (pos (s.index_offset + suc k))
unfolding final_end_exclusive target_last_index ExtendedInt.min ExtendedInt.add ◌+ℤ◌
end_first s k = ground arith

filter_first :
    (s : BatchSequence) (k : ℕ)
    → 1 ≤ s.index_offset
    → filter s sequenced none none (some (pos (s.index_offset + k)))
      ≡ window s (some (pos 0)) (some (pos (suc k)))
unfolding filter excludes_target ExtendedInt.ge ExtendedInt.from_optional_int target_last_index
    window ExtendedInt.eq_int
filter_first s k o =
    rw (start_first s o, end_first s k)
      (elim (Bool-cases
        (ExtendedInt.lt (int (pos (s.index_offset + 0))) (int (pos (s.index_offset + suc k))))) [
          | inl x ↦ rw x (rw (cut-window, relative_pos s 0, relative_pos s (suc k)) refl)
          | inr x ↦ absurd (unfold ExtendedInt.lt in ground arith)
        ])

slice_first : (k : ℕ) (xs : List Batch) → slice (some (pos 0)) (some (pos k)) xs ≡ take k xs
unfolding slice bound_or
slice_first k xs =
    let e : min k (length xs) - min 0 (length xs) ≡ min k (length xs) = omega arith in
    let z : min 0 (length xs) ≡ 0 = omega arith in rw e (rw z (take-min k xs))

fit-le :
    (limit total : ℕ) (bs : List Batch)
    → total ≤ limit
    → total + batches_size (take (fit limit total bs) bs) ≤ limit
unfolding fit batches_size
fit-le limit total [] h = omega arith
fit-le limit total (b ∷ bs) h = elim (Bool-cases (ltb limit (total + get_batch_size b))) [
  | inl x ↦ rw x (omega arith)
  | inr x ↦ rw x (omega (arith, fit-le limit (total + get_batch_size b) bs (ground arith)))
]

fit_maximal :
    (limit total : ℕ) (bs : List Batch)
    → fit limit total bs < length bs
    → limit < total + batches_size (take (suc (fit limit total bs)) bs)
unfolding fit batches_size
fit_maximal limit total [] h = absurd (omega arith)
fit_maximal limit total (b ∷ bs) h = elim (Bool-cases (ltb limit (total + get_batch_size b))) [
  | inl x ↦ rw x (ground arith)
  | inr x ↦
      rw x
        (omega (arith, fit_maximal limit (total + get_batch_size b) bs (omega (arith, rw x at h))))
]

fit_empty : (limit total : ℕ) (bs : List Batch) → is_empty bs ≡ true → fit limit total bs ≡ 0
unfolding fit
fit_empty limit total [] h = refl
fit_empty limit total (b ∷ bs) h = cc

-- `r` is the longest run of batches from the start of `s` that has at most `limit` bytes.
pub record IsLongestFit (s : BatchSequence) (limit : ℕ) (r : BatchSequence) : Type 0 where
  pub kept : ℕ
  pub same_start : r.index_offset ≡ s.index_offset
  pub prefix : r.batches ≡ take kept s.batches
  pub fits : r.size ≤ limit
  pub maximal : kept < length s.batches → limit < batches_size (take (suc kept) s.batches)

cut_at-before : (s : BatchSequence) → cut_at s (before_index_offset s) ≡ create_empty s
unfolding cut_at before_index_offset ◌-ℤ◌
cut_at-before s = ground arith

cut_at-index :
    (s : BatchSequence) (k : ℕ)
    → cut_at s (pos (s.index_offset + k))
      ≡ filter s sequenced none none (some (pos (s.index_offset + k)))
unfolding cut_at before_index_offset ◌-ℤ◌
cut_at-index s k = ground arith

IsLongestFit-empty :
    (s : BatchSequence) (limit : ℕ)
    → fit limit 0 s.batches ≡ 0
    → IsLongestFit s limit (create_empty s)
unfolding create_empty make
IsLongestFit-empty s limit e = record {
  kept = 0;
  same_start = refl;
  prefix = refl;
  fits = unfold batches_size in omega arith;
  maximal = λ h. let m = rw e at (fit_maximal limit 0 s.batches (rw e h)) in omega arith;
}

IsLongestFit-window :
    (s : BatchSequence) (limit k : ℕ)
    → fit limit 0 s.batches ≡ k
    → IsLongestFit s limit (window s (some (pos 0)) (some (pos k)))
unfolding window make
IsLongestFit-window s limit k e = record {
  kept = k;
  same_start = omega arith;
  prefix = slice_first k s.batches;
  fits =
      let m = rw e at (fit-le limit 0 s.batches (omega arith)) in
      rw (slice_first k s.batches) (omega arith);
  maximal = λ h. let m = rw e at (fit_maximal limit 0 s.batches (rw e h)) in omega arith;
}

IsLongestFit-self :
    (s : BatchSequence) (limit : ℕ) → IsValid s → s.size ≤ limit → IsLongestFit s limit s
IsLongestFit-self s limit v h = record {
  kept = length s.batches;
  same_start = refl;
  prefix = sym (take-length (length s.batches) s.batches (omega arith));
  fits = h;
  maximal = λ k. absurd (omega arith);
}

cut_at_lem :
    (s : BatchSequence) (limit : ℕ)
    → IsValid s
    → let r = cut_at s (end_after (before_index_offset s) s.index_offset (fit limit 0 s.batches)) in
      IsValid r × IsLongestFit s limit r
cut_at_lem s limit v = go (fit limit 0 s.batches) refl
  where
    go :
        (k : ℕ)
        → fit limit 0 s.batches ≡ k
        → let r = cut_at s (end_after (before_index_offset s) s.index_offset k) in
          IsValid r × IsLongestFit s limit r
    go zero e = rw (cut_at-before s) (IsValid-create_empty s v, IsLongestFit-empty s limit e)
    go (suc k) e =
        let f = filter s sequenced none none (some (pos (s.index_offset + k))) in
        rw (cut_at-index s k) (
          filter-IsValid s sequenced none none (some (pos (s.index_offset + k))) v,
          rw (filter_first s k v.offset_pos) (IsLongestFit-window s limit (suc k) e),
        )

-- truncate_by_size of a valid sequence succeeds for a positive limit and returns the longest
-- run of batches from the start within the limit, as a valid sequence.
pub truncate_by_size-IsLongestFit :
    (s : BatchSequence) (limit : ℕ)
    → IsValid s
    → 1 ≤ limit
    → (r : BatchSequence) × (truncate_by_size s limit ≡ ok r) × IsValid r × IsLongestFit s limit r
unfolding truncate_by_size
truncate_by_size-IsLongestFit s limit v h = elim (Bool-cases (leb limit 0 || is_empty s.batches)) [
  | inl x ↦ (
    create_empty s,
    rw x refl,
    IsValid-create_empty s v,
    IsLongestFit-empty s limit (no_batches x),
  )
  | inr x ↦ elim (Bool-cases (leb s.size limit)) [
    | inl y ↦ (s, rw (x, y) refl, v, IsLongestFit-self s limit v (ground arith))
    | inr y ↦
        let (p, q) = cut_at_lem s limit v in
        (
          cut_at s (end_after (before_index_offset s) s.index_offset (fit limit 0 s.batches)),
          rw
              (
                x,
                y,
                fitting_end_lem s limit s.batches s.index_offset 0 (before_index_offset s)
                    v.offset_pos (omega arith) (omega arith),
              )
              refl,
          p,
          q,
        )
  ]
]
  where
    no_batches : (leb limit 0 || is_empty s.batches) ≡ true → fit limit 0 s.batches ≡ 0
    no_batches x = fit_empty limit 0 s.batches (ground arith)
