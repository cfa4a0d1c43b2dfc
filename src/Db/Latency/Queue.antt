-- ===== src/Db/Latency/Queue.antt =====
-- The queue of the tracked indices.
use zsequencer.Prelude.{
  ℕ, ◌≤◌, ◌<◌, ◌≡◌, true, List, [], ◌∷◌, ◌++◌, arith, leb, Bool-cases, inl, inr, ltb→lt,
}
use zsequencer.State.{OperationalState, sequenced, locked, finalized}
use zsequencer.Db.{TimestampedIndex}
use zsequencer.Db.Latency.{is_above_last, pop_up_to, tracked}

-- An entry before all of the queue.
abbrev pub IsBefore : TimestampedIndex → List TimestampedIndex → Type 0
IsBefore t [] = Unit {0}
IsBefore t (u ∷ queue) = (t.time ≤ u.time) × (t.index < u.index)

-- The indices grow, and the times do not shrink; no time is after `now`.
abbrev pub IsTimeline : ℕ → List TimestampedIndex → Type 0
IsTimeline now [] = Unit {0}
IsTimeline now (t ∷ queue) = (t.time ≤ now) × IsBefore t queue × IsTimeline now queue

-- All tracked indices are above `last_index`.
abbrev pub AllAbove : ℕ → List TimestampedIndex → Type 0
AllAbove last_index [] = Unit {0}
AllAbove last_index (t ∷ queue) = (last_index < t.index) × AllAbove last_index queue

pop_up_to-IsTimeline :
    (now last_index : ℕ) (queue : List TimestampedIndex)
    → IsTimeline now queue
    → IsTimeline now (pop_up_to last_index queue)
unfolding pop_up_to
pop_up_to-IsTimeline now last_index [] h = h
pop_up_to-IsTimeline now last_index (t ∷ queue) h = elim (Bool-cases (leb t.index last_index)) [
  | inl e ↦ rw e (pop_up_to-IsTimeline now last_index queue h.2)
  | inr e ↦ rw e h
]

above_all :
    (now last_index : ℕ) (t : TimestampedIndex) (queue : List TimestampedIndex)
    → last_index < t.index
    → IsTimeline now (t ∷ queue)
    → AllAbove last_index (t ∷ queue)
above_all now last_index t [] l h = (l, tt)
above_all now last_index t (u ∷ queue) l h =
    (l, above_all now last_index u queue (omega (arith, h.1.1)) h.2)

pop_up_to-AllAbove :
    (now last_index : ℕ) (queue : List TimestampedIndex)
    → IsTimeline now queue
    → AllAbove last_index (pop_up_to last_index queue)
unfolding pop_up_to
pop_up_to-AllAbove now last_index [] h = tt
pop_up_to-AllAbove now last_index (t ∷ queue) h = elim (Bool-cases (leb t.index last_index)) [
  | inl e ↦ rw e (pop_up_to-AllAbove now last_index queue h.2)
  | inr e ↦ rw e (above_all now last_index t queue (ground arith) h)
]

push-IsTimeline :
    (now then_ last_index : ℕ) (queue : List TimestampedIndex)
    → now ≤ then_
    → is_above_last last_index queue ≡ true
    → IsTimeline now queue
    → IsTimeline then_ (queue ++ record { time = then_; index = last_index } ∷ [])
unfolding is_above_last
push-IsTimeline now then_ last_index [] l e h = (omega arith, tt, tt)
push-IsTimeline now then_ last_index (t ∷ []) l e h =
    (omega arith, (omega arith, ltb→lt t.index last_index e), (omega arith, tt, tt))
push-IsTimeline now then_ last_index (t ∷ u ∷ queue) l e h =
    (omega arith, h.1, push-IsTimeline now then_ last_index (u ∷ queue) l e h.2)

IsTimeline-le :
    (now later : ℕ) (queue : List TimestampedIndex)
    → now ≤ later
    → IsTimeline now queue
    → IsTimeline later queue
IsTimeline-le now later [] l h = tt
IsTimeline-le now later (t ∷ queue) l h = (omega arith, h.1, IsTimeline-le now later queue l h.2)

-- Tracking an index at a time that is not earlier keeps an ordered queue in the order of its
-- times and indices, and tracking a finalized index leaves only indices above it.
pub tracked-IsTimeline :
    (state : OperationalState) (now later last_index : ℕ) (queue : List TimestampedIndex)
    → now ≤ later
    → IsTimeline now queue
    → IsTimeline later (tracked state last_index later queue)
      × AllAbove last_index (tracked finalized last_index later queue)
unfolding tracked
tracked-IsTimeline sequenced now later last_index queue l h = (
  elim (Bool-cases (is_above_last last_index queue)) [
    | inl e ↦ rw e (push-IsTimeline now later last_index queue l e h)
    | inr e ↦ rw e (IsTimeline-le now later queue l h)
  ],
  pop_up_to-AllAbove now last_index queue h,
)
tracked-IsTimeline locked now later last_index queue l h = (
  pop_up_to-IsTimeline later last_index queue (IsTimeline-le now later queue l h),
  pop_up_to-AllAbove now last_index queue h,
)
tracked-IsTimeline finalized now later last_index queue l h = (
  pop_up_to-IsTimeline later last_index queue (IsTimeline-le now later queue l h),
  pop_up_to-AllAbove now last_index queue h,
)
