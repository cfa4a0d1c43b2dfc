-- ===== src/SyncPoint/Sorted.antt =====
-- The selection and the sorting of the nodes' states.
use zsequencer.Prelude.{
  ℕ, ◌≤◌, ◌<◌, ◌≡◌, true, List, [], ◌∷◌, leb, ltb, arith, Bool-cases, leb→le, ltb→lt, lt→ltb, inl,
  inr,
}
use mathlib.Core.List.{Memᴰ}
use mathlib.Core.List.Memᴰ.{head, tail, cases_cons}
use zsequencer.Db.{NodeState}
use zsequencer.SyncPoint.{states_above, insert_descending, sort_descending}

module _ (index_of : NodeState → ℕ) where
  -- The states in the order of their indices, with the greatest first.
  abbrev pub IsBelow : ℕ → List NodeState → Type 0
  IsBelow i [] = Unit {0}
  IsBelow i (s ∷ states) = index_of s ≤ i

  abbrev pub IsDescending : List NodeState → Type 0
  IsDescending [] = Unit {0}
  IsDescending (s ∷ states) = IsBelow (index_of s) states × IsDescending states

  insert_descending-IsBelow :
      (i : ℕ) (s : NodeState) (states : List NodeState)
      → index_of s ≤ i
      → IsBelow i states
      → IsBelow i (insert_descending index_of s states)
  unfolding insert_descending
  insert_descending-IsBelow i s [] h b = h
  insert_descending-IsBelow i s (t ∷ states) h b =
      elim (Bool-cases (leb (index_of t) (index_of s))) [ inl e ↦ rw e h | inr e ↦ rw e b ]

  insert_descending-IsDescending :
      (s : NodeState) (states : List NodeState)
      → IsDescending states
      → IsDescending (insert_descending index_of s states)
  unfolding insert_descending
  insert_descending-IsDescending s [] d = (tt, tt)
  insert_descending-IsDescending s (t ∷ states) d =
      elim (Bool-cases (leb (index_of t) (index_of s))) [
        | inl e ↦ let h = leb→le (index_of t) (index_of s) e in rw e (h, d)
        | inr e ↦ rw e (
          insert_descending-IsBelow (index_of t) s states (ground arith) d.0,
          insert_descending-IsDescending s states d.1,
        )
      ]

  pub sort_descending-IsDescending :
      (states : List NodeState) → IsDescending (sort_descending index_of states)
  unfolding sort_descending
  sort_descending-IsDescending [] = tt
  sort_descending-IsDescending (s ∷ states) =
      insert_descending-IsDescending s (sort_descending index_of states)
        (sort_descending-IsDescending states)

  -- Selecting and sorting lose no state above the index, and invent none.
  mem-insert_descending :
      (x s : NodeState) (states : List NodeState)
      → Memᴰ x (insert_descending index_of s states)
      → Memᴰ x (s ∷ states)
  unfolding insert_descending
  mem-insert_descending x s [] m = m
  mem-insert_descending x s (t ∷ states) m = elim (Bool-cases (leb (index_of t) (index_of s))) [
    | inl e ↦ rw e at m
    | inr e ↦ elim (cases_cons {b = t} {l = insert_descending index_of s states} (rw e at m)) [
      | inl h ↦ tail (head h)
      | inr m' ↦ elim (cases_cons (mem-insert_descending x s states m')) [
        | inl h ↦ head h
        | inr m'' ↦ tail (tail m'')
      ]
    ]
  ]

  mem_insert_descending_of :
      (x s : NodeState) (states : List NodeState)
      → Memᴰ x (s ∷ states)
      → Memᴰ x (insert_descending index_of s states)
  unfolding insert_descending
  mem_insert_descending_of x s [] m = m
  mem_insert_descending_of x s (t ∷ states) m = elim (Bool-cases (leb (index_of t) (index_of s))) [
    | inl e ↦ rw e m
    | inr e ↦ rw e (elim (cases_cons m) [
      | inl h ↦ tail (mem_insert_descending_of x s states (head h))
      | inr m' ↦ elim (cases_cons m') [
        | inl h ↦ head h
        | inr m'' ↦ tail (mem_insert_descending_of x s states (tail m''))
      ]
    ])
  ]

  mem-sort_descending :
      (x : NodeState) (states : List NodeState)
      → Memᴰ x (sort_descending index_of states)
      → Memᴰ x states
  unfolding sort_descending
  mem-sort_descending x [] m = m
  mem-sort_descending x (s ∷ states) m =
      elim (cases_cons (mem-insert_descending x s (sort_descending index_of states) m)) [
        | inl h ↦ head h
        | inr m' ↦ tail (mem-sort_descending x states m')
      ]

  mem_sort_descending_of :
      (x : NodeState) (states : List NodeState)
      → Memᴰ x states
      → Memᴰ x (sort_descending index_of states)
  unfolding sort_descending
  mem_sort_descending_of x [] m = m
  mem_sort_descending_of x (s ∷ states) (head e) =
      mem_insert_descending_of x s (sort_descending index_of states) (head e)
  mem_sort_descending_of x (s ∷ states) (tail m) =
      mem_insert_descending_of x s (sort_descending index_of states)
        (tail (mem_sort_descending_of x states m))

  mem-states_above :
      (x : NodeState) (border : ℕ) (states : List NodeState)
      → Memᴰ x (states_above index_of border states)
      → Memᴰ x states × (border < index_of x)
  unfolding states_above
  mem-states_above x border [] m = elim m [ ]
  mem-states_above x border (s ∷ states) m = elim (Bool-cases (ltb border (index_of s))) [
    | inl e ↦ elim (cases_cons {b = s} {l = states_above index_of border states} (rw e at m)) [
      | inl h ↦ (head h, rw h (ltb→lt border (index_of s) e))
      | inr m' ↦ let i = mem-states_above x border states m' in (tail i.0, i.1)
    ]
    | inr e ↦ let i = mem-states_above x border states (rw e at m) in (tail i.0, i.1)
  ]

  mem_states_above_of :
      (x : NodeState) (border : ℕ) (states : List NodeState)
      → Memᴰ x states
      → border < index_of x
      → Memᴰ x (states_above index_of border states)
  unfolding states_above
  mem_states_above_of x border [] m h = m
  mem_states_above_of x border (s ∷ states) (head e) h =
      let above : ltb border (index_of s) ≡ true = lt→ltb border (index_of s) (rw e at h) in
      rw above (head e)
  mem_states_above_of x border (s ∷ states) (tail m) h =
      elim (Bool-cases (ltb border (index_of s))) [
        | inl e ↦ rw e (tail (mem_states_above_of x border states m h))
        | inr e ↦ rw e (mem_states_above_of x border states m h)
      ]

  pub below_first :
      (x s : NodeState) (states : List NodeState)
      → IsDescending (s ∷ states)
      → Memᴰ x (s ∷ states)
      → index_of x ≤ index_of s
  below_first x s states d (head e) = rw e (omega arith)
  below_first x s [] d (tail m) = elim m [ ]
  below_first x s (t ∷ states) d (tail m) =
      let first = below_first x t states d.1 m in omega (arith, first, d.0)

  -- The states above an index, sorted.
  abbrev pub candidates : ℕ → List NodeState → List NodeState
  candidates border states = sort_descending index_of (states_above index_of border states)

  pub candidate_of :
      (x : NodeState) (border : ℕ) (states : List NodeState)
      → Memᴰ x states
      → border < index_of x
      → Memᴰ x (candidates border states)
  candidate_of x border states m h =
      mem_sort_descending_of x (states_above index_of border states)
        (mem_states_above_of x border states m h)

  pub of_candidate :
      (x : NodeState) (border : ℕ) (states : List NodeState)
      → Memᴰ x (candidates border states)
      → Memᴰ x states × (border < index_of x)
  of_candidate x border states m =
      mem-states_above x border states
        (mem-sort_descending x (states_above index_of border states) m)
