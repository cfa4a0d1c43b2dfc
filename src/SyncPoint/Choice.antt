-- ===== src/SyncPoint/Choice.antt =====
-- The sync point that is chosen, and the stake behind it.
use zsequencer.Prelude.{
  ℕ, ◌≤◌, ◌<◌, ◌≡◌, refl, sym, true, false, Option, none, some, List, [], ◌∷◌, String, leb, arith,
  Bool-cases, leb→le, ◌⊎◌, inl, inr,
}
use mathlib.Core.Path.{subst}
use mathlib.Core.List.{Memᴰ}
use mathlib.Core.List.Memᴰ.{head, tail, cases_cons, not-nil}
use zsequencer.Errors.{ok, Result-cases, ok-eq-ok, err-not-ok}
use zsequencer.Db.{NodeState}
use zsequencer.SyncPoint.Sorted.{
  IsDescending, below_first, sort_descending-IsDescending, candidates, candidate_of, of_candidate,
}
use zsequencer.SyncPoint.{
  add_to_set, includes, Stakes, has_threshold, states_above, party, first_with_threshold,
  find_sync_point,
}

module _ (index_of : NodeState → ℕ) where
  mem-add_to_set :
      (id x : String) (set : List String) → Memᴰ id (add_to_set x set) → (id ≡ x) ⊎ Memᴰ id set
  unfolding add_to_set
  mem-add_to_set id x set m = elim (Bool-cases (includes x set)) [
    | inl e ↦ inr (rw e at m)
    | inr e ↦ cases_cons (rw e at m)
  ]

  -- Every node of the party has reached the index.
  mem-party :
      (id : String) (index : ℕ) (states : List NodeState)
      → Memᴰ id (party index_of index states)
      → (s : NodeState) × Memᴰ s states × (s.node_id ≡ id) × (index ≤ index_of s)
  unfolding party
  mem-party id index [] m = elim m [ ]
  mem-party id index (s ∷ states) m = elim (Bool-cases (leb index (index_of s))) [
    | inl e ↦ elim (mem-add_to_set id s.node_id (party index_of index states) (rw e at m)) [
      | inl h ↦ (s, head refl, sym h, leb→le index (index_of s) e)
      | inr m' ↦ let i = mem-party id index states m' in (i.0, tail i.1, i.2, i.3)
    ]
    | inr e ↦ let i = mem-party id index states (rw e at m) in (i.0, tail i.1, i.2, i.3)
  ]

  -- What the loop finds among the states that are left, and what it then knows of the others.
  abbrev IsFirst :
      Stakes → List NodeState → List NodeState → Option (NodeState × List String) → Type 0
  IsFirst stakes sorted rest none =
      (x : NodeState)
      → Memᴰ x rest
      → has_threshold stakes (party index_of (index_of x) sorted) ≡ ok false
  IsFirst stakes sorted rest (some (state, nodes)) =
      Memᴰ state rest
      × (nodes ≡ party index_of (index_of state) sorted)
      × (has_threshold stakes nodes ≡ ok true)
      × ((x : NodeState)
          → Memᴰ x rest
          → index_of state < index_of x
          → has_threshold stakes (party index_of (index_of x) sorted) ≡ ok false)

  -- A state without enough stake before the others.
  IsFirst-cons :
      (stakes : Stakes) (sorted : List NodeState) (s : NodeState) (rest : List NodeState)
      (r : Option (NodeState × List String))
      → has_threshold stakes (party index_of (index_of s) sorted) ≡ ok false
      → IsFirst stakes sorted rest r
      → IsFirst stakes sorted (s ∷ rest) r
  IsFirst-cons stakes sorted s rest none h f =
      λ x m. elim (cases_cons m) [ inl e ↦ rw e h | inr m' ↦ f x m' ]
  IsFirst-cons stakes sorted s rest (some (state, nodes)) h f = (
    tail f.0,
    f.1,
    f.2,
    λ x m above. elim (cases_cons m) [ inl e ↦ rw e h | inr m' ↦ f.3 x m' above ],
  )

  first_with_threshold-IsFirst :
      (stakes : Stakes) (sorted rest : List NodeState) (r : Option (NodeState × List String))
      → IsDescending index_of rest
      → first_with_threshold index_of stakes sorted rest ≡ ok r
      → IsFirst stakes sorted rest r
  unfolding first_with_threshold
  first_with_threshold-IsFirst stakes sorted [] r d e =
      let none_left : none ≡ r = ok-eq-ok e in
      subst (IsFirst stakes sorted []) none_left (λ x m. absurd (not-nil m))
  first_with_threshold-IsFirst stakes sorted (s ∷ rest) r d e =
      elim (Result-cases (has_threshold stakes (party index_of (index_of s) sorted))) [
        | inl (true, h) ↦
            let found : some (s, party index_of (index_of s) sorted) ≡ r = ok-eq-ok (rw h at e) in
            subst (IsFirst stakes sorted (s ∷ rest)) found (
              head refl,
              refl,
              h,
              λ x m above. let below = below_first index_of x s rest d m in absurd (omega arith),
            )
        | inl (false, h) ↦
            IsFirst-cons stakes sorted s rest r h
              (first_with_threshold-IsFirst stakes sorted rest r d.1 (rw h at e))
        | inr (x, h) ↦ absurd (err-not-ok x r (rw h at e))
      ]

  found-IsFirst :
      (stakes : Stakes) (border : ℕ) (states : List NodeState)
      (r : Option (NodeState × List String))
      → find_sync_point index_of stakes border states ≡ ok r
      → IsFirst stakes (candidates index_of border states) (candidates index_of border states) r
  unfolding find_sync_point
  found-IsFirst stakes border states r e =
      first_with_threshold-IsFirst stakes (candidates index_of border states)
        (candidates index_of border states) r
        (sort_descending-IsDescending index_of (states_above index_of border states)) e

  -- The nodes that report an index of at least `i`, where that is above the border.
  abbrev pub supporters : ℕ → List NodeState → ℕ → List String
  supporters border states i = party index_of i (candidates index_of border states)

  -- A chosen sync point is the state of a node, above the last sync point, and its party and
  -- the sequencer hold the threshold of the stake.
  pub find_sync_point-some :
      (stakes : Stakes) (border : ℕ) (states : List NodeState) (state : NodeState)
      (nodes : List String)
      → find_sync_point index_of stakes border states ≡ ok (some (state, nodes))
      → Memᴰ state states × (border < index_of state) × (has_threshold stakes nodes ≡ ok true)
  find_sync_point-some stakes border states state nodes e =
      let f = found-IsFirst stakes border states (some (state, nodes)) e in
      let here = of_candidate index_of state border states f.0 in (here.0, here.1, f.2)

  -- Each node of the party of a chosen sync point has reported at least its index.
  pub find_sync_point-party :
      (stakes : Stakes) (border : ℕ) (states : List NodeState) (state : NodeState)
      (nodes : List String) (id : String)
      → find_sync_point index_of stakes border states ≡ ok (some (state, nodes))
      → Memᴰ id nodes
      → (s : NodeState) × Memᴰ s states × (s.node_id ≡ id) × (index_of state ≤ index_of s)
  find_sync_point-party stakes border states state nodes id e m =
      let f = found-IsFirst stakes border states (some (state, nodes)) e in
      let p =
        mem-party id (index_of state) (candidates index_of border states) (subst (Memᴰ id) f.1 m) in
      (p.0, (of_candidate index_of p.0 border states p.1).0, p.2, p.3)

  -- For no index that a node reports above a chosen sync point do the sequencer and the nodes
  -- that have reached it hold the threshold of the stake.
  pub find_sync_point-highest :
      (stakes : Stakes) (border : ℕ) (states : List NodeState) (state : NodeState)
      (nodes : List String) (x : NodeState)
      → find_sync_point index_of stakes border states ≡ ok (some (state, nodes))
      → Memᴰ x states
      → index_of state < index_of x
      → has_threshold stakes (supporters border states (index_of x)) ≡ ok false
  find_sync_point-highest stakes border states state nodes x e m above =
      let f = found-IsFirst stakes border states (some (state, nodes)) e in
      let here = of_candidate index_of state border states f.0 in
      f.3 x (candidate_of index_of x border states m (omega (arith, here.1))) above

  -- Where no sync point is chosen, for no index that a node reports above the last one do the
  -- sequencer and the nodes that have reached it hold the threshold of the stake.
  pub find_sync_point-none :
      (stakes : Stakes) (border : ℕ) (states : List NodeState) (x : NodeState)
      → find_sync_point index_of stakes border states ≡ ok none
      → Memᴰ x states
      → border < index_of x
      → has_threshold stakes (supporters border states (index_of x)) ≡ ok false
  find_sync_point-none stakes border states x e m h =
      found-IsFirst stakes border states none e x (candidate_of index_of x border states m h)
