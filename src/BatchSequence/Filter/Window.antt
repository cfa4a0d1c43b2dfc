-- ===== src/BatchSequence/Filter/Window.antt =====
-- The window that `filter` cuts out, read at an index.
use zsequencer.Prelude.{
  ℕ, suc, ◌+◌, ◌-◌, ◌≤◌, ◌≡◌, ◌≢◌, refl, min, true, not, ◌&&◌, none, some, List, length, get_elem?,
  get_elem?-take, get_elem?-drop, get_elem?-none, arith, ltb, leb, if◌then◌else◌,
}
use zsequencer.Prelude.Int.{pos, negsuc, ◌-ℤ◌, ◌+ℤ◌}
use zsequencer.ExtendedInt
use zsequencer.ExtendedInt.{ExtendedInt, int, inf, minus_inf}
use zsequencer.BatchSequence.{BatchSequence, make, get_batch_or_empty}
use zsequencer.BatchSequence.Filter.{slice, bound_or, window, relative, before_index_offset, cut}

-- A cut list read at an index.
pub get_elem?-slice :
    {A : Type 0} (lo : ℕ) (xs : List A) (j : ℕ)
    → get_elem? (slice (some (pos lo)) none xs) j ≡ get_elem? xs (lo + j)
unfolding slice bound_or
get_elem?-slice lo xs j =
    rw (get_elem?-take, get_elem?-drop)
      (ground (arith, get_elem?-none xs (lo + j), get_elem?-none xs (min lo (length xs) + j)))

pub get_elem?-slice_to :
    {A : Type 0} (lo hi : ℕ) (xs : List A) (j : ℕ)
    → get_elem? (slice (some (pos lo)) (some (pos hi)) xs) j
      ≡ (if ltb (lo + j) hi then get_elem? xs (lo + j) else none)
unfolding slice bound_or
get_elem?-slice_to lo hi xs j =
    rw (get_elem?-take, get_elem?-drop)
      (ground (arith, get_elem?-none xs (lo + j), get_elem?-none xs (min lo (length xs) + j)))

-- A batch of the window is the batch of the sequence at the same index.
pub window_from :
    (s : BatchSequence) (lo i : ℕ)
    → get_batch_or_empty (window s (some (pos lo)) none) i
      ≡ (if leb (s.index_offset + lo) i then get_batch_or_empty s i else none)
unfolding get_batch_or_empty window make
window_from s lo i = rw (get_elem?-slice) (ground arith)

pub window_to :
    (s : BatchSequence) (lo hi i : ℕ)
    → get_batch_or_empty (window s (some (pos lo)) (some (pos hi))) i ≡ (
        if leb (s.index_offset + lo) i && ltb i (s.index_offset + hi)
        then get_batch_or_empty s i
        else none)
unfolding get_batch_or_empty window make
window_to s lo hi i = rw (get_elem?-slice_to) (ground arith)

pub relative_pos :
    (s : BatchSequence) (k : ℕ) → relative s (int (pos (s.index_offset + k))) ≡ some (pos k)
unfolding relative ExtendedInt.add ◌+ℤ◌
relative_pos s k = ground arith

pub cut-window :
    (s : BatchSequence) (a b : ExtendedInt) → cut s a b ≡ window s (relative s a) (relative s b)
unfolding cut
cut-window s a b = refl

pub relative_inf : (s : BatchSequence) → relative s inf ≡ none
unfolding relative
relative_inf s = refl

pub cut_lem :
    (s : BatchSequence) (lo : ℕ) (b : ExtendedInt) (i : ℕ)
    → ExtendedInt.lt (int (pos (s.index_offset + lo))) b ≡ true
    → get_batch_or_empty (cut s (int (pos (s.index_offset + lo))) b) i ≡ (
        if leb (s.index_offset + lo) i && ExtendedInt.lt (int (pos i)) b
        then get_batch_or_empty s i
        else none)
unfolding ExtendedInt.lt
cut_lem s lo inf i h =
    rw (cut-window, relative_pos s lo, relative_inf s, window_from s lo i) (ground arith)
cut_lem s lo minus_inf i h = cc
cut_lem s lo (int (negsuc m)) i h = ground arith
cut_lem s lo (int (pos m)) i h =
    let e : m ≡ s.index_offset + (m - s.index_offset) = ground arith in
    rw (cut-window, relative_pos s lo)
      (rw e (
        rw (relative_pos s (m - s.index_offset), window_to s lo (m - s.index_offset) i)
          (ground arith)))

-- The window's start is an index at or after the offset.
pub start_index :
    (s : BatchSequence) (x : ExtendedInt)
    → x ≢ inf
    → 1 ≤ s.index_offset
    → (lo : ℕ) × (ExtendedInt.add (ExtendedInt.max x (int (before_index_offset s))) (pos 1)
        ≡ int (pos (s.index_offset + lo)))
unfolding ExtendedInt.max ExtendedInt.add before_index_offset ◌-ℤ◌ ◌+ℤ◌
start_index s inf h o = absurd (h refl)
start_index s minus_inf h o = (0, ground arith)
start_index s (int (negsuc k)) h o = (0, ground arith)
start_index s (int (pos k)) h o = (suc k - s.index_offset, ground arith)

pub lt-add_one :
    (x : ExtendedInt) (i : ℕ)
    → ExtendedInt.lt (int (pos i)) (ExtendedInt.add x (pos 1))
      ≡ not (ExtendedInt.lt x (int (pos i)))
unfolding ExtendedInt.lt ExtendedInt.add ◌+ℤ◌
lt-add_one inf i = refl
lt-add_one minus_inf i = refl
lt-add_one (int z) i = ground arith
