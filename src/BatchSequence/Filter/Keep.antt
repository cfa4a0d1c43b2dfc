-- ===== src/BatchSequence/Filter/Keep.antt =====
-- What `filter` keeps besides the batches: the invariant, and the state of each batch.
use zsequencer.Prelude.{
  ℕ, ◌+◌, ◌≤◌, ◌<◌, ◌≡◌, refl, sym, ◌∙◌, Bool, true, false, Option, none, some, List, [], ◌∷◌,
  length, arith, leb, if◌then◌else◌, inl, inr,
}
use zsequencer.Prelude.Int.{ℤ, pos}
use zsequencer.State.{OperationalState}
use zsequencer.Errors.{ok}
use zsequencer.Batch.{Batch}
use zsequencer.BatchSequence.{BatchSequence, make, get_batch_or_empty, get, get_or_empty}
use zsequencer.BatchSequence.Validity.{IsValid, InRange, IsValid-create_empty}
use zsequencer.BatchSequence.Lookup.{
  get-create_empty, get_batch_some, state_of, record_of, get_or_empty-ok,
}
use zsequencer.BatchSequence.Filter.{slice, window, restrict, relative, filter}
use zsequencer.BatchSequence.Filter.Window.{cut-window, relative_pos}
use zsequencer.BatchSequence.Filter.Select.{
  filter-cases, end_kept, selects, get-filter, start_of_filter,
}

restrict-InRange :
    (first : ℕ) (bs : List Batch) (last : Option ℕ)
    → InRange first (length bs) (restrict first bs last)
unfolding restrict
restrict-InRange first bs none = tt
restrict-InRange first [] (some i) = tt
restrict-InRange first (b ∷ bs) (some i) = ground arith

restrict_mono :
    (first : ℕ) (bs : List Batch) (a b : Option ℕ)
    → get a 0 ≤ get b 0
    → get (restrict first bs a) 0 ≤ get (restrict first bs b) 0
unfolding restrict
restrict_mono first [] a b h = ground arith
restrict_mono first (x ∷ bs) none b h = omega arith
restrict_mono first (x ∷ bs) (some i) none h = ground arith
restrict_mono first (x ∷ bs) (some i) (some j) h = ground arith

window-IsValid :
    (s : BatchSequence) (lo : ℕ) (re : Option ℤ) → IsValid s → IsValid (window s (some (pos lo)) re)
unfolding window make
window-IsValid s lo re v =
    let bs = slice (some (pos lo)) re s.batches in
    record {
      offset_pos = omega (arith, v.offset_pos);
      sized = refl;
      locked_in = restrict-InRange (s.index_offset + lo) bs s.locked_last_index;
      finalized_in = restrict-InRange (s.index_offset + lo) bs s.finalized_last_index;
      ordered =
          restrict_mono (s.index_offset + lo) bs s.finalized_last_index s.locked_last_index
            v.ordered;
    }

-- Filtering a valid sequence gives a valid sequence.
pub filter-IsValid :
    (s : BatchSequence) (t : OperationalState) (e : Option OperationalState) (start end : Option ℤ)
    → IsValid s
    → IsValid (filter s t e start end)
filter-IsValid s t e start end v = elim (filter-cases s t e start end) [
  | inl x ↦ rw x (IsValid-create_empty s v)
  | inr (x, y) ↦
      let (lo, z) = start_of_filter s e start v.offset_pos in
      rw (x, z, cut-window, relative_pos s lo) (window-IsValid s lo _ v)
]

module _ (first : ℕ) (bs : List Batch) (i : ℕ) (h : first ≤ i) (k : i < first + length bs) where
  restrict-leb : (last : Option ℕ) → leb i (get (restrict first bs last) 0) ≡ leb i (get last 0)
  unfolding restrict
  restrict-leb none = refl
  restrict-leb (some j) = go bs k
    where
      go :
          (bs : List Batch)
          → i < first + length bs
          → leb i (get (restrict first bs (some j)) 0) ≡ leb i j
      go [] k = absurd (omega arith)
      go (b ∷ bs) k = ground arith

window_state :
    (s : BatchSequence) (lo : ℕ) (re : Option ℤ) (i : ℕ)
    → let w = window s (some (pos lo)) re in
      w.index_offset ≤ i → i < w.index_offset + length w.batches → state_of w i ≡ state_of s i
unfolding window make
window_state s lo re i h k =
    let bs = slice (some (pos lo)) re s.batches in
    let first = s.index_offset + lo in
    rw
      (
        restrict-leb first bs i h k s.finalized_last_index,
        restrict-leb first bs i h k s.locked_last_index,
      )
      refl

-- A batch of the filtered sequence is in the state in which it was.
filter_state :
    (s : BatchSequence) (t : OperationalState) (e : Option OperationalState) (start end : Option ℤ)
    (i : ℕ) (b : Batch)
    → 1 ≤ s.index_offset
    → get_batch_or_empty (filter s t e start end) i ≡ some b
    → state_of (filter s t e start end) i ≡ state_of s i
filter_state s t e start end i b o h =
    let (p, q) = get_batch_some (filter s t e start end) i b h in
    elim (filter-cases s t e start end) [
      | inl x ↦ absurd (cc (h, x, get-create_empty s i))
      | inr (x, y) ↦
          let (lo, z) = start_of_filter s e start o in
          let w : filter s t e start end
              ≡ window s (some (pos lo)) (relative s (end_kept s t end)) =
            rw (x, z, cut-window, relative_pos s lo) refl in
          rw w (window_state s lo (relative s (end_kept s t end)) i (rw w at p) (rw w at q))
    ]

record_of_if :
    (s : BatchSequence) (i : ℕ) (c : Bool) (o x : Option Batch)
    → x ≡ (if c then o else none)
    → ok (record_of s i x) ≡ (if c then ok (record_of s i o) else ok none)
record_of_if s i true o x h = rw h refl
record_of_if s i false o x h = rw h refl

-- On a valid sequence filter keeps exactly the records that its target state, excluded state
-- and two bounds select, each with its index and its state.
pub get_or_empty-filter :
    (s : BatchSequence) (t : OperationalState) (e : Option OperationalState) (start end : Option ℤ)
    (i : ℕ)
    → IsValid s
    → get_or_empty (filter s t e start end) i
      ≡ (if selects s t e start end i then get_or_empty s i else ok none)
get_or_empty-filter s t e start end i v =
    rw
      (
        get_or_empty-ok (filter s t e start end) i (filter-IsValid s t e start end v).offset_pos,
        get_or_empty-ok s i v.offset_pos,
      )
      (go (get_batch_or_empty (filter s t e start end) i) refl)
  where
    go :
        (x : Option Batch)
        → get_batch_or_empty (filter s t e start end) i ≡ x
        → ok (record_of (filter s t e start end) i (get_batch_or_empty (filter s t e start end) i))
          ≡ (if selects s t e start end i
              then ok (record_of s i (get_batch_or_empty s i))
              else ok none)
    go none h = rw h (record_of_if s i _ _ none (sym h ∙ get-filter s t e start end i v))
    go (some b) h =
        rw (h, filter_state s t e start end i b v.offset_pos h)
          (record_of_if s i _ _ (some b) (sym h ∙ get-filter s t e start end i v))
