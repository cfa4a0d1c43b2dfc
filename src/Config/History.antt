-- ===== src/Config/History.antt =====
-- The history of network states that the configuration keeps by tag.
use zsequencer.Prelude.{
  ◌⊎◌, ℕ, ◌≤◌, ◌≡◌, refl, sym, Option, none, some, [], ◌∷◌, arith, ◌==◌, Bool-cases, inl, inr,
  Option-cases, lt_or_le, ltb,
}
use mathlib.Core.Path.{subst}
use zsequencer.Errors.{Result, ok, >>=-eq-ok, ok-eq-ok}
use zsequencer.Dict.{Dict}
use zsequencer.Config.{
  NodeData, NetworkState, RegisteredNode, Config, state_at, state_of_tag, last_state, stake_of_all,
  newer_tag, fetched_state, get_network_state,
}

module _ {Key : Type 0} where
  -- The last state is there, no tag of the history is above its tag, and each state has its tag
  -- and the stake of its nodes.
  pub record IsHistory (c : Config Key) : Type 0 where
    pub last_tag : ℕ
    pub last : NetworkState Key
    pub is_last : last_state c ≡ ok last
    pub at_tag : c.network_status_tag ≡ some last_tag
    pub greatest :
        (tag : ℕ) (s : NetworkState Key)
        → state_at tag c.historical_network_state ≡ some s
        → tag ≤ last_tag
    pub exact :
        (tag : ℕ) (s : NetworkState Key)
        → state_at tag c.historical_network_state ≡ some s
        → (s.tag ≡ tag) × (s.total_stake ≡ stake_of_all s.nodes)

  -- The configuration at the start has no network state.
  abbrev pub IsStart : Config Key → Type 0
  IsStart c = (c.historical_network_state ≡ []) × (c.network_status_tag ≡ none)

  module _ (registered : ℕ → Result (Dict (RegisteredNode Key)))
      (aggregate : Dict (NodeData Key) → Key) (now : ℕ) (nodes : Dict (RegisteredNode Key)) where
    fetched_exact :
        (c : Config Key) (t tag : ℕ) (s : NetworkState Key)
        → IsHistory c
        → state_at tag
            ((t, fetched_state registered aggregate now nodes t) ∷ c.historical_network_state)
          ≡ some s
        → (s.tag ≡ tag) × (s.total_stake ≡ stake_of_all s.nodes)
    unfolding state_at fetched_state
    fetched_exact c t tag s i e = elim (Bool-cases (tag == t)) [
      | inl h ↦
          let e' = rw h at e in
          let same : fetched_state registered aggregate now nodes t ≡ s = cc in
          let t' : tag ≡ t = ground (arith, h) in rw (sym same) (sym t', refl)
      | inr h ↦ i.exact tag s (ground (arith, h))
    ]

    fetched_greatest :
        (c : Config Key) (t tag last : ℕ) (s : NetworkState Key)
        → IsHistory c
        → state_at tag
            ((t, fetched_state registered aggregate now nodes t) ∷ c.historical_network_state)
          ≡ some s
        → newer_tag c.network_status_tag t ≡ some last
        → tag ≤ last
    unfolding state_at newer_tag
    fetched_greatest c t tag last s i e n =
        let n' = rw i.at_tag at n in
        elim (Bool-cases (tag == t)) [
          | inl h ↦ ground (arith, h)
          | inr h ↦ let k = i.greatest tag s (ground (arith, h)) in ground arith
        ]

    -- The last state after a new one is stored.
    fetched_last :
        (c : Config Key) (t last : ℕ)
        → IsHistory c
        → newer_tag c.network_status_tag t ≡ some last
        → (s : NetworkState Key) × (state_of_tag
              ((t, fetched_state registered aggregate now nodes t) ∷ c.historical_network_state)
              (newer_tag c.network_status_tag t)
            ≡ ok s)
    unfolding state_of_tag state_at newer_tag last_state
    fetched_last c t last i n =
        let k = i.is_last in
        let k' = rw i.at_tag at k in
        rw i.at_tag (elim (lt_or_le i.last_tag t) [
          | inl h ↦ (fetched_state registered aggregate now nodes t, ground arith)
          | inr h ↦ elim (Bool-cases (i.last_tag == t)) [
            | inl g ↦ (fetched_state registered aggregate now nodes t, ground (arith, g))
            | inr g ↦ (i.last, ground (arith, g, k'))
          ]
        ])

    newer_tag-some : (o : Option ℕ) (t : ℕ) → (last : ℕ) × (newer_tag o t ≡ some last)
    unfolding newer_tag
    newer_tag-some none t = (t, refl)
    newer_tag-some (some l) t = elim (Bool-cases (ltb l t)) [
      | inl h ↦ (t, rw h refl)
      | inr h ↦ (l, rw h refl)
    ]

    fetched-IsHistory :
        (c : Config Key) (t : ℕ)
        → IsHistory c
        → IsHistory (record c {
          historical_network_state =
              (t, fetched_state registered aggregate now nodes t) ∷ c.historical_network_state;
          network_status_tag = newer_tag c.network_status_tag t;
        })
    unfolding last_state
    fetched-IsHistory c t i =
        let (last, n) = newer_tag-some c.network_status_tag t in
        let (s, e) = fetched_last c t last i n in
        record {
          last_tag = last;
          last = s;
          is_last = e;
          at_tag = n;
          greatest = λ tag r k. fetched_greatest c t tag last r i k n;
          exact = λ tag r k. fetched_exact c t tag r i k;
        }

    -- The first state that is stored.
    first-IsHistory :
        (c : Config Key) (t : ℕ)
        → IsStart c
        → IsHistory (record c {
          historical_network_state =
              (t, fetched_state registered aggregate now nodes t) ∷ c.historical_network_state;
          network_status_tag = newer_tag c.network_status_tag t;
        })
    unfolding last_state state_of_tag state_at newer_tag fetched_state
    first-IsHistory c t (no_state, no_tag) = record {
      last_tag = t;
      last = fetched_state registered aggregate now nodes t;
      is_last = rw (no_tag, newer_tag) (ground arith);
      at_tag = rw (no_tag, newer_tag) refl;
      greatest = λ tag r k. let (x, y) = only tag r (rw no_state at k) in omega (arith, x);
      exact = λ tag r k. let (x, y) = only tag r (rw no_state at k) in rw (sym y) (sym x, refl);
    }
      where
        only :
            (tag : ℕ) (r : NetworkState Key)
            → state_at tag ((t, fetched_state registered aggregate now nodes t) ∷ []) ≡ some r
            → (tag ≡ t) × (fetched_state registered aggregate now nodes t ≡ r)
        only tag r k = elim (Bool-cases (tag == t)) [
          | inl h ↦ let k' = rw h at k in (ground (arith, h), cc)
          | inr h ↦ absurd (let k' : none ≡ some r = rw h at k in cc)
        ]

  cached :
      (c : Config Key) (tag : ℕ) (r : NetworkState Key)
      → IsStart c ⊎ IsHistory c
      → state_at tag c.historical_network_state ≡ some r
      → IsHistory c
  unfolding state_at
  cached c tag r (inl (no_state, no_tag)) f = let k : none ≡ some r = rw no_state at f in absurd cc
  cached c tag r (inr i) f = i

  -- Where get_network_state returns, from the cache or from the registry, on a configuration
  -- that has no network state yet or one for which this holds already, the last network state
  -- is there under the greatest tag, each state has its tag and the stake of its nodes, and the
  -- state that is returned is the one kept for the tag; what other methods do to the stored
  -- states is not followed.
  pub get_network_state-IsHistory :
      (registered : ℕ → Result (Dict (RegisteredNode Key))) (aggregate : Dict (NodeData Key) → Key)
      (now : ℕ) (c : Config Key) (tag : ℕ) (s : NetworkState Key) (c' : Config Key)
      → IsStart c ⊎ IsHistory c
      → get_network_state registered aggregate now c tag ≡ ok (s, c')
      → IsHistory c' × (state_at tag c'.historical_network_state ≡ some s)
  unfolding get_network_state
  get_network_state-IsHistory registered aggregate now c tag s c' h e =
      elim (Option-cases (state_at tag c.historical_network_state)) [
        | inl f ↦
            let (nodes, e1, e2) = >>=-eq-ok (registered tag) _ (rw (get_network_state, f) at e) in
            let fetched = fetched_state registered aggregate now nodes tag in
            let same = ok-eq-ok e2 in
            let kept : state_at tag ((tag, fetched) ∷ c.historical_network_state) ≡ some fetched =
              unfold state_at in ground arith in
            subst (λ x. IsHistory x.1 × (state_at tag x.1.historical_network_state ≡ some x.0)) same
              (
                elim h [
                  | inl start ↦ first-IsHistory registered aggregate now nodes c tag start
                  | inr i ↦ fetched-IsHistory registered aggregate now nodes c tag i
                ],
                kept,
              )
        | inr (r, f) ↦
            let same : ◌≡◌ {A = NetworkState Key × Config Key} (r, c) (s, c') =
              ok-eq-ok (rw (get_network_state, f) at e) in
            subst (λ x. IsHistory x.1 × (state_at tag x.1.historical_network_state ≡ some x.0)) same
              (cached c tag r h f, f)
      ]
