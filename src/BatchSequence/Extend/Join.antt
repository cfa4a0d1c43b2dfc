-- ===== src/BatchSequence/Extend/Join.antt =====
-- When `extend` succeeds, and what the joined sequence holds.
use zsequencer.Prelude.{
  ℕ, ◌+◌, ◌≤◌, ◌≡◌, not, ◌&&◌, if◌then◌else◌, ◌≢◌, ◌↔◌, ◌⊎◌, refl, sym, ◌∙◌, true, false, Option,
  none, some, List, [], ◌∷◌, ◌++◌, length, arith, inl, inr,
}
use mathlib.Core.List.{append_assoc, append-nil}
use zsequencer.State.{OperationalState, sequenced, locked, finalized}
use zsequencer.Errors.{ok, err, value_error}
use zsequencer.Batch.{Batch}
use zsequencer.BatchSequence.{BatchSequence, is_empty, append, get_last_index_or_default}
use zsequencer.BatchSequence.Validity.{IsValid, InRange, append-IsValid, promote-IsValid}
use zsequencer.BatchSequence.Promote.{batches-promote, index_offset-promote}
use zsequencer.BatchSequence.Extend.{
  append_all, promote_entry, extend, includes_only_finalized_batches,
}

batches-append_all :
    (s : BatchSequence) (bs : List Batch) → (append_all s bs).batches ≡ s.batches ++ bs
unfolding append_all append
batches-append_all s [] = sym (append-nil s.batches)
batches-append_all s (b ∷ bs) =
    batches-append_all (append s b).0 bs ∙ append_assoc s.batches (b ∷ []) bs

index_offset-append_all :
    (s : BatchSequence) (bs : List Batch) → (append_all s bs).index_offset ≡ s.index_offset
unfolding append_all append
index_offset-append_all s [] = refl
index_offset-append_all s (b ∷ bs) = index_offset-append_all (append s b).0 bs

append_all-IsValid : (s : BatchSequence) (bs : List Batch) → IsValid s → IsValid (append_all s bs)
unfolding append_all
append_all-IsValid s [] v = v
append_all-IsValid s (b ∷ bs) v = append_all-IsValid (append s b).0 bs (append-IsValid s b v)

promote_entry-IsValid :
    (s : BatchSequence) (t : OperationalState) (last : Option ℕ) (o n : ℕ)
    → s.index_offset ≤ o
    → InRange o n last
    → IsValid s
    → IsValid (promote_entry s t last)
unfolding promote_entry
promote_entry-IsValid s t none o n h r v = v
promote_entry-IsValid s t (some i) o n h r v = promote-IsValid s i t (omega arith) v

batches-promote_entry :
    (s : BatchSequence) (t : OperationalState) (last : Option ℕ)
    → ((promote_entry s t last).batches ≡ s.batches)
      × ((promote_entry s t last).index_offset ≡ s.index_offset)
unfolding promote_entry
batches-promote_entry s t none = (refl, refl)
batches-promote_entry s t (some i) = (batches-promote s i t, index_offset-promote s i t)

-- The sequence that `extend` makes of two sequences with batches.
abbrev pub joined : BatchSequence → BatchSequence → BatchSequence
joined s other =
    promote_entry (promote_entry (append_all s other.batches) locked other.locked_last_index)
      finalized other.finalized_last_index

joined_lem :
    (s other : BatchSequence)
    → ((joined s other).batches ≡ s.batches ++ other.batches)
      × ((joined s other).index_offset ≡ s.index_offset)
joined_lem s other =
    let a = append_all s other.batches in
    let p = promote_entry a locked other.locked_last_index in
    let (x, y) = batches-promote_entry a locked other.locked_last_index in
    let (z, w) = batches-promote_entry p finalized other.finalized_last_index in
    (z ∙ x ∙ batches-append_all s other.batches, w ∙ y ∙ index_offset-append_all s other.batches)

joined-IsValid :
    (s other : BatchSequence)
    → IsValid s
    → IsValid other
    → s.index_offset ≤ other.index_offset
    → IsValid (joined s other)
joined-IsValid s other v w h =
    let a = append_all s other.batches in
    let p = promote_entry a locked other.locked_last_index in
    let va = append_all-IsValid s other.batches v in
    let ha : a.index_offset ≤ other.index_offset = rw (index_offset-append_all s other.batches) h in
    let vp =
      promote_entry-IsValid a locked other.locked_last_index other.index_offset
        (length other.batches) ha w.locked_in va in
    let hp : p.index_offset ≤ other.index_offset =
      rw ((batches-promote_entry a locked other.locked_last_index).1) ha in
    promote_entry-IsValid p finalized other.finalized_last_index other.index_offset
      (length other.batches) hp w.finalized_in vp

-- extend raises exactly if the other sequence has batches and this one is not fully finalized,
-- or has batches and does not end just before the other one.
pub extend-error :
    (s other : BatchSequence)
    → (extend s other ≡ err value_error) ↔ (
        (is_empty other.batches ≡ false)
        × ((includes_only_finalized_batches s ≡ false)
            ⊎ ((is_empty s.batches ≡ false)
                × (other.index_offset ≢ get_last_index_or_default s sequenced 0 + 1))))
unfolding extend
extend-error s other = (ground arith, ground arith)

pub extend-cases :
    (s other r : BatchSequence)
    → extend s other ≡ ok r
    → ((is_empty other.batches ≡ true) × (r ≡ s))
      ⊎ (((is_empty other.batches ≡ false) × (is_empty s.batches ≡ true) × (r ≡ other))
          ⊎ ((is_empty other.batches ≡ false)
              × (is_empty s.batches ≡ false)
              × (other.index_offset ≡ get_last_index_or_default s sequenced 0 + 1)
              × (r ≡ joined s other)))
unfolding extend
extend-cases s other r h = ground arith

append-empty : (xs ys : List Batch) → is_empty ys ≡ true → xs ≡ xs ++ ys
append-empty xs [] h = sym (append-nil xs)
append-empty xs (y ∷ ys) h = cc

empty-append : (xs ys : List Batch) → is_empty xs ≡ true → ys ≡ xs ++ ys
empty-append [] ys h = refl
empty-append (x ∷ xs) ys h = cc

offset-le-last :
    (s : BatchSequence)
    → is_empty s.batches ≡ false
    → s.index_offset ≤ get_last_index_or_default s sequenced 0 + 1
unfolding get_last_index_or_default
offset-le-last s h = ground arith

-- Where extend succeeds on valid sequences the result is valid and holds the batches of both in
-- order, from the first index of the first one that has batches.
pub extend-ok :
    (s other : BatchSequence) {r : BatchSequence}
    → IsValid s
    → IsValid other
    → extend s other ≡ ok r
    → IsValid r
      × (r.batches ≡ s.batches ++ other.batches)
      × (r.index_offset ≡ (
          if is_empty s.batches && not (is_empty other.batches)
          then other.index_offset
          else s.index_offset))
extend-ok s other {r} v w h = elim (extend-cases s other r h) [
  | inl (x, e) ↦ rw e (v, append-empty s.batches other.batches x, ground arith)
  | inr (inl (x, y, e)) ↦ rw e (w, empty-append s.batches other.batches y, ground arith)
  | inr (inr (x, y, z, e)) ↦
      let (p, q) = joined_lem s other in
      rw e (joined-IsValid s other v w (rw z (offset-le-last s y)), p, ground (arith, q))
]
