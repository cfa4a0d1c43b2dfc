-- ===== src/BatchSequence/Filter/Select.antt =====
-- Which batches `filter` keeps, by their indices.
use zsequencer.Prelude.{
  ℕ, ◌+◌, ◌≤◌, ◌<◌, ◌≡◌, ◌≢◌, refl, sym, Bool, true, false, not, ◌&&◌, Option, none, some, length,
  arith, leb, if◌then◌else◌, Bool-cases, lt_or_le, inl, inr, ◌⊎◌,
}
use zsequencer.Prelude.Int.{ℤ, pos, ◌-ℤ◌, ltb_ℤ}
use zsequencer.State.{OperationalState, sequenced, locked, finalized}
use zsequencer.ExtendedInt
use zsequencer.ExtendedInt.{ExtendedInt, int, inf, minus_inf}
use zsequencer.ExtendedInt.Order.{max-lt, min-lt, ge_lem, lt_of_between}
use zsequencer.Batch.{Batch}
use zsequencer.BatchSequence.{
  BatchSequence, create_empty, get_last_index_or_default, get_batch_or_empty,
}
use zsequencer.BatchSequence.Validity.{IsValid}
use zsequencer.BatchSequence.Lookup.{get-create_empty, get_batch-none, get-below, last-sequenced}
use zsequencer.BatchSequence.Filter.Window.{cut_lem, start_index, lt-add_one}
use zsequencer.BatchSequence.Filter.{
  before_index_offset, target_last_index, excluding_last_index, excludes_target,
  final_start_inclusive, final_end_exclusive, cut, filter,
}

-- What `filter` keeps of a sequence, said of one index: it lies after `start_exclusive`, up to
-- `end_inclusive`, has reached the target state and has not reached the excluded state.
abbrev pub after : Option ℤ → ℕ → Bool
after none i = true
after (some k) i = ltb_ℤ k (pos i)

abbrev pub up_to : Option ℤ → ℕ → Bool
up_to none i = true
up_to (some k) i = not (ltb_ℤ k (pos i))

abbrev pub has_reached : BatchSequence → OperationalState → ℕ → Bool
has_reached s sequenced i = true
has_reached s state i = leb i (get_last_index_or_default s state 0)

abbrev pub is_excluded : BatchSequence → Option OperationalState → ℕ → Bool
is_excluded s none i = false
is_excluded s (some state) i = leb i (get_last_index_or_default s state 0)

abbrev pub selects :
    BatchSequence → OperationalState → Option OperationalState → Option ℤ → Option ℤ → ℕ → Bool
selects s target exclude start end i =
    after start i && up_to end i && has_reached s target i && not (is_excluded s exclude i)

module _ (i : ℕ) where
  lt-start :
      (start : Option ℤ)
      → ExtendedInt.lt (ExtendedInt.from_optional_int start minus_inf) (int (pos i)) ≡ after start i
  unfolding ExtendedInt.lt ExtendedInt.from_optional_int
  lt-start none = refl
  lt-start (some k) = ground arith

  lt-end :
      (end : Option ℤ)
      → not (ExtendedInt.lt (ExtendedInt.from_optional_int end inf) (int (pos i))) ≡ up_to end i
  unfolding ExtendedInt.lt ExtendedInt.from_optional_int
  lt-end none = refl
  lt-end (some k) = ground arith

  lt-target :
      (s : BatchSequence) (t : OperationalState)
      → not (ExtendedInt.lt (target_last_index s t) (int (pos i))) ≡ has_reached s t i
  unfolding ExtendedInt.lt target_last_index
  lt-target s sequenced = refl
  lt-target s locked = ground arith
  lt-target s finalized = ground arith

  lt-excluding :
      (s : BatchSequence) (e : Option OperationalState)
      → 1 ≤ i
      → ExtendedInt.lt (excluding_last_index s e) (int (pos i)) ≡ not (is_excluded s e i)
  unfolding ExtendedInt.lt excluding_last_index
  lt-excluding s none h = refl
  lt-excluding s (some sequenced) h = ground arith
  lt-excluding s (some locked) h = ground arith
  lt-excluding s (some finalized) h = ground arith

  lt-before :
      (s : BatchSequence)
      → ExtendedInt.lt (int (before_index_offset s)) (int (pos i)) ≡ leb s.index_offset i
  unfolding ExtendedInt.lt before_index_offset ◌-ℤ◌
  lt-before s = ground arith

  lt-final_end :
      (s : BatchSequence) (t : OperationalState) (end : Option ℤ)
      → ExtendedInt.lt
          (int (pos i))
          (final_end_exclusive s t (ExtendedInt.from_optional_int end inf))
        ≡ (up_to end i && has_reached s t i)
  unfolding final_end_exclusive
  lt-final_end s t end = rw (lt-add_one, min-lt) (ground (arith, lt-end end, lt-target s t))

  lt-final_start :
      (s : BatchSequence) (e : Option OperationalState) (start : Option ℤ)
      → 1 ≤ i
      → ExtendedInt.lt
          (int (pos i))
          (final_start_inclusive s e (ExtendedInt.from_optional_int start minus_inf))
        ≡ not ((after start i && not (is_excluded s e i)) && leb s.index_offset i)
  unfolding final_start_inclusive
  lt-final_start s e start h =
      rw (lt-add_one, max-lt, max-lt, lt-start start, lt-excluding s e h, lt-before s) refl

-- In a valid sequence a batch that has reached a state has reached every earlier one.
reached_earlier :
    (s : BatchSequence) (t : OperationalState) (e : Option OperationalState) (i : ℕ)
    → IsValid s
    → s.index_offset ≤ i
    → i < s.index_offset + length s.batches
    → excludes_target e t ≡ true
    → has_reached s t i ≡ true
    → is_excluded s e i ≡ true
unfolding excludes_target
reached_earlier s t none i v h k x r = cc
reached_earlier s t (some sequenced) i v h k x r = ground (arith, last-sequenced s i 0 h k)
reached_earlier s sequenced (some locked) i v h k x r = cc
reached_earlier s locked (some locked) i v h k x r = r
reached_earlier s finalized (some locked) i v h k x r =
    unfold get_last_index_or_default in ground (arith, v.ordered)
reached_earlier s sequenced (some finalized) i v h k x r = cc
reached_earlier s locked (some finalized) i v h k x r = cc
reached_earlier s finalized (some finalized) i v h k x r = r

none-if : {A : Type 0} (b : Bool) (o : Option A) → b ≡ false → none ≡ (if b then o else none)
none-if b o h = rw h refl

module _ (i : ℕ) where
  start_after_end :
      (start end : Option ℤ)
      → ExtendedInt.ge
          (ExtendedInt.from_optional_int start minus_inf)
          (ExtendedInt.from_optional_int end inf)
        ≡ true
      → (after start i && up_to end i) ≡ false
  unfolding ExtendedInt.ge ExtendedInt.from_optional_int
  start_after_end none none h = cc
  start_after_end none (some b) h = cc
  start_after_end (some a) none h = cc
  start_after_end (some a) (some b) h = ground arith

  target_without_batches :
      (s : BatchSequence) (t : OperationalState)
      → 1 ≤ i
      → ExtendedInt.eq_int (target_last_index s t) (pos 0) ≡ true
      → has_reached s t i ≡ false
  unfolding target_last_index ExtendedInt.eq_int
  target_without_batches s sequenced o h = cc
  target_without_batches s locked o h = ground arith
  target_without_batches s finalized o h = ground arith

max_finite : (a b : ExtendedInt) → a ≢ inf → b ≢ inf → ExtendedInt.max a b ≢ inf
unfolding ExtendedInt.max
max_finite a b h k = ground arith

start_finite : (start : Option ℤ) → ExtendedInt.from_optional_int start minus_inf ≢ inf
unfolding ExtendedInt.from_optional_int
start_finite none h = cc
start_finite (some k) h = cc

excluding_finite :
    (s : BatchSequence) (e : Option OperationalState) → excluding_last_index s e ≢ inf
unfolding excluding_last_index
excluding_finite s none = ground arith
excluding_finite s (some st) = ground arith

pub start_of_filter :
    (s : BatchSequence) (e : Option OperationalState) (start : Option ℤ)
    → 1 ≤ s.index_offset
    → (lo : ℕ) × (final_start_inclusive s e (ExtendedInt.from_optional_int start minus_inf)
        ≡ int (pos (s.index_offset + lo)))
unfolding final_start_inclusive
start_of_filter s e start o =
    start_index s _ (max_finite _ _ (start_finite start) (excluding_finite s e)) o

-- The ends of the window that `filter` cuts out.
abbrev pub first_kept : BatchSequence → Option OperationalState → Option ℤ → ExtendedInt
first_kept s e start = final_start_inclusive s e (ExtendedInt.from_optional_int start minus_inf)

abbrev pub end_kept : BatchSequence → OperationalState → Option ℤ → ExtendedInt
end_kept s t end = final_end_exclusive s t (ExtendedInt.from_optional_int end inf)

module _ (s : BatchSequence) (t : OperationalState) (e : Option OperationalState)
    (start end : Option ℤ) where
  -- The result is the empty sequence, or the window between the two ends.
  pub filter-cases :
      (filter s t e start end ≡ create_empty s)
      ⊎ ((filter s t e start end ≡ cut s (first_kept s e start) (end_kept s t end))
          × (ExtendedInt.ge (first_kept s e start) (end_kept s t end) ≡ false))
  unfolding filter
  filter-cases = ground arith

if_same : (b : Bool) → ◌≡◌ {A = Option Batch} (if b then none else none) none
if_same true = refl
if_same false = refl

below_start : (k i : ℕ) → ExtendedInt.lt (int (pos i)) (int (pos k)) ≡ not (leb k i)
unfolding ExtendedInt.lt
below_start k i = ground arith

module _ (s : BatchSequence) (t : OperationalState) (e : Option OperationalState)
    (start end : Option ℤ) (i : ℕ) where
  window_empty :
      s.index_offset ≤ i
      → 1 ≤ i
      → ExtendedInt.ge (first_kept s e start) (end_kept s t end) ≡ true
      → selects s t e start end i ≡ false
  window_empty h o y = ground (
    arith,
    ge_lem (first_kept s e start) (end_kept s t end),
    lt_of_between (first_kept s e start) (end_kept s t end) (int (pos i)),
    lt-final_end i s t end,
    lt-final_start i s e start o,
  )

  cut-selects :
      s.index_offset ≤ i
      → 1 ≤ s.index_offset
      → ExtendedInt.ge (first_kept s e start) (end_kept s t end) ≡ false
      → get_batch_or_empty (cut s (first_kept s e start) (end_kept s t end)) i
        ≡ (if selects s t e start end i then get_batch_or_empty s i else none)
  cut-selects h o y =
      let (lo, x) = start_of_filter s e start o in
      let below : ExtendedInt.lt (int (pos (s.index_offset + lo))) (end_kept s t end) ≡ true =
        ground (arith, ge_lem (first_kept s e start) (end_kept s t end), x) in
      rw x (
        rw (cut_lem s lo (end_kept s t end) i below) (
          ground (
            arith,
            lt-final_end i s t end,
            lt-final_start i s e start (omega (arith, h, o)),
            x,
            below_start (s.index_offset + lo) i,
          )))

module _ (s : BatchSequence) (t : OperationalState) (e : Option OperationalState)
    (start end : Option ℤ) (i : ℕ) where
  filter_inside :
      IsValid s
      → s.index_offset ≤ i
      → i < s.index_offset + length s.batches
      → get_batch_or_empty (filter s t e start end) i
        ≡ (if selects s t e start end i then get_batch_or_empty s i else none)
  unfolding filter
  filter_inside v h k = elim (Bool-cases (excludes_target e t)) [
    | inl x ↦ rw (x) (
        rw get-create_empty
          (none-if (selects s t e start end i) _ (ground (arith, reached_earlier s t e i v h k x))))
    | inr x ↦
        rw x
          (elim (Bool-cases (
            ExtendedInt.ge (ExtendedInt.from_optional_int start minus_inf)
              (ExtendedInt.from_optional_int end inf))) [
                | inl y ↦
                    rw (y, get-create_empty)
                      (none-if (selects s t e start end i) _
                        (ground (arith, start_after_end i start end y)))
                | inr y ↦
                    rw y (elim (Bool-cases (ExtendedInt.eq_int (target_last_index s t) (pos 0))) [
                      | inl z ↦
                          rw (z, get-create_empty)
                            (none-if (selects s t e start end i) _ (
                              ground (
                                arith,
                                target_without_batches i s t (omega (arith, v.offset_pos)) z,
                              )))
                      | inr z ↦
                          rw z
                            (elim (Bool-cases
                              (ExtendedInt.ge (first_kept s e start) (end_kept s t end))) [
                                | inl w ↦
                                    rw (w, get-create_empty)
                                      (none-if (selects s t e start end i) _ (
                                        window_empty s t e start end i h
                                          (omega (arith, v.offset_pos)) w))
                                | inr w ↦ rw w (cut-selects s t e start end i h v.offset_pos w)
                              ])
                    ])
              ])
  ]

  filter_outside :
      1 ≤ s.index_offset
      → get_batch_or_empty s i ≡ none
      → get_batch_or_empty (filter s t e start end) i ≡ none
  filter_outside o n = elim (filter-cases s t e start end) [
    | inl x ↦ rw x (get-create_empty s i)
    | inr (x, y) ↦
        let (lo, z) = start_of_filter s e start o in
        let below : ExtendedInt.lt (int (pos (s.index_offset + lo))) (end_kept s t end) ≡ true =
          ground (arith, ge_lem (first_kept s e start) (end_kept s t end), z) in
        rw (x, z, cut_lem s lo (end_kept s t end) i below, n) (if_same _)
  ]

  -- `filter` keeps exactly the batches that its arguments select, each at its own index.
  pub get-filter :
      IsValid s
      → get_batch_or_empty (filter s t e start end) i
        ≡ (if selects s t e start end i then get_batch_or_empty s i else none)
  get-filter v = elim (lt_or_le i s.index_offset) [
    | inl b ↦
        rw (get-below s i b) (rw (filter_outside v.offset_pos (get-below s i b)) (sym (if_same _)))
    | inr b ↦ elim (lt_or_le i (s.index_offset + length s.batches)) [
      | inl c ↦ filter_inside v b c
      | inr c ↦
          rw (get_batch-none s i c)
            (rw (filter_outside v.offset_pos (get_batch-none s i c)) (sym (if_same _)))
    ]
  ]
