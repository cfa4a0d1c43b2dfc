-- ===== src/SequencerManager/Votes.antt =====
-- What the choice of the network's sequencer rests on.
use zsequencer.Prelude.{
  ℕ, ◌+◌, ◌*◌, ◌≤◌, ◌<◌, ◌≡◌, ◌≢◌, ◌⊎◌, ◌&&◌, refl, sym, ap, ◌∙◌, true, Option, none, some, List,
  [], ◌∷◌, String, arith, str_eq, eq_iff, Bool-cases, Option-cases, inl, inr, if◌then◌else◌,
}
use zsequencer.Errors.{ok, >>=-eq-ok}
use zsequencer.Dict.{Dict, lookup, insert, lookup-insert, contains}
use zsequencer.Config.{
  NodeData, NetworkState, Config, sequencing_nodes, attesting_nodes, last_state, data_or_raise,
}
use zsequencer.SequencerManager.{
  StateAnswer, unreachable, error_answer, state_answer, query_node_state, no_votes, max_stake_id,
  votes_or_raise, add_stake, names_itself, query_all, is_candidate, count_votes, accept_sequencer,
  find_network_sequencer,
}

eq_of : (a b : String) → str_eq a b ≡ true → b ≡ a
eq_of a b h = ground (arith, eq_iff a b)

add_stake-lookup :
    (stakes stakes' : Dict ℕ) (id : String) (stake : ℕ) (j : String) (n' : ℕ)
    → add_stake stakes id stake ≡ ok stakes'
    → lookup j stakes' ≡ some n'
    → (n : ℕ) × (lookup j stakes ≡ some n) × (n' ≤ n + (if str_eq j id then stake else 0))
unfolding add_stake votes_or_raise
add_stake-lookup stakes stakes' id stake j n' h e = elim (Option-cases (lookup id stakes)) [
  | inl k ↦ absurd (ground (arith, k))
  | inr (n, k) ↦
      let h' : insert id (n + stake) stakes ≡ stakes' = ground (arith, k) in
      let e' = rw (sym h') at e in
      let l = lookup-insert id j (n + stake) stakes in
      elim (Bool-cases (str_eq j id)) [
        | inl g ↦ rw g (n, rw (eq_of j id g) at k, ground (arith, l, g))
        | inr g ↦ rw g (n', ground (arith, l, g), omega arith)
      ]
]

queried : (node_id : String) (a : StateAnswer) → (query_node_state node_id a).0 ≡ node_id
unfolding query_node_state
queried node_id unreachable = refl
queried node_id (error_answer c) = ground arith
queried node_id (state_answer sequencer_id) = refl

named_first :
    (id : String) (r : String × Option String) (rest : List (String × Option String))
    → names_itself id (r ∷ rest) ≡ true
    → (r ≡ (id, some id)) ⊎ (names_itself id rest ≡ true)
unfolding names_itself
named_first id (n, none) rest h = inr h
named_first id (n, some s) rest h = elim (Bool-cases (str_eq id n && str_eq id s)) [
  | inl e ↦
      let a : id ≡ n = ground (arith, e, eq_iff id n) in
      let b : id ≡ s = ground (arith, e, eq_iff id s) in inl (rw (sym a, sym b) refl)
  | inr e ↦ inr (rw e at h)
]

votes_found : (o : Option ℕ) (n : ℕ) → votes_or_raise o ≡ ok n → o ≡ some n
unfolding votes_or_raise
votes_found none n h = absurd (cc)
votes_found (some m) n h = cc

accepted :
    (threshold total : ℕ) (results : List (String × Option String)) (m : String) (stake : ℕ)
    (id : String)
    → accept_sequencer threshold total results m stake ≡ ok (some id)
    → (m ≡ id) × (0 < total) × (threshold * total ≤ 100 * stake) × (names_itself id results ≡ true)
unfolding accept_sequencer
accepted threshold total results m stake id h = elim (Bool-cases (names_itself m results)) [
  | inl e ↦
      let q : m ≡ id = ground (arith, e) in (q, ground (arith, e), ground (arith, e), rw q at e)
  | inr e ↦ absurd (ground (arith, e))
]

module _ {Key : Type 0} where
  stake_of_entry : Option (NodeData Key) → ℕ
  stake_of_entry none = 0
  stake_of_entry (some node_data) = node_data.stake

  -- The stake of the nodes whose result names an id.
  unfoldable pub supporters_stake : Dict (NodeData Key) → String → List (String × Option String) → ℕ
  unfolding stake_of_entry
  supporters_stake attesting id [] = 0
  supporters_stake attesting id ((node_id, none) ∷ rest) = supporters_stake attesting id rest
  supporters_stake attesting id ((node_id, some sequencer_id) ∷ rest) =
      let others = supporters_stake attesting id rest in
      if str_eq id sequencer_id then stake_of_entry (lookup node_id attesting) + others else others

  data_found :
      (o : Option (NodeData Key)) (d : NodeData Key)
      → data_or_raise o ≡ ok d
      → stake_of_entry o ≡ d.stake
  unfolding data_or_raise stake_of_entry
  data_found none d h = absurd (cc)
  data_found (some x) d h = cc

  count_votes-lookup :
      (sequencing attesting : Dict (NodeData Key)) (results : List (String × Option String))
      (stakes stakes' : Dict ℕ) (j : String) (n' : ℕ)
      → count_votes sequencing attesting results stakes ≡ ok stakes'
      → lookup j stakes' ≡ some n'
      → (n : ℕ) × (lookup j stakes ≡ some n) × (n' ≤ n + supporters_stake attesting j results)
  unfolding count_votes supporters_stake
  count_votes-lookup sequencing attesting [] stakes stakes' j n' h e =
      let h' : stakes ≡ stakes' = cc in (n', rw h' e, omega arith)
  count_votes-lookup sequencing attesting ((node_id, none) ∷ rest) stakes stakes' j n' h e =
      count_votes-lookup sequencing attesting rest stakes stakes' j n' h e
  count_votes-lookup sequencing attesting ((node_id, some id) ∷ rest) stakes stakes' j n' h e =
      elim (Bool-cases (is_candidate sequencing id)) [
        | inr c ↦
            let (n, l, m) =
              count_votes-lookup sequencing attesting rest stakes stakes' j n'
                (rw (c, count_votes) at h) e in
            (n, l, ground (arith, m))
        | inl c ↦
            let (d, e1, h1) =
              >>=-eq-ok (data_or_raise (lookup node_id attesting)) _ (rw (c, count_votes) at h) in
            let (s1, e2, h2) = >>=-eq-ok (add_stake stakes id d.stake) _ h1 in
            let (n1, l1, m1) = count_votes-lookup sequencing attesting rest s1 stakes' j n' h2 e in
            let (n, l, m) = add_stake-lookup stakes s1 id d.stake j n1 e2 l1 in
            let d' = data_found (lookup node_id attesting) d e1 in (n, l, ground (arith, m, m1, d'))
      ]

  no_votes-lookup :
      (sequencing : Dict (NodeData Key)) (j : String) (n : ℕ)
      → lookup j (no_votes sequencing) ≡ some n
      → (n ≡ 0) × (contains j sequencing ≡ true)
  unfolding no_votes lookup
  no_votes-lookup [] j n h = absurd (cc)
  no_votes-lookup ((address, d) ∷ rest) j n h = elim (Bool-cases (str_eq j address)) [
    | inl e ↦ (ground (arith, e), rw (e, contains) refl)
    | inr e ↦ let (a, b) = no_votes-lookup rest j n (ground (arith, e)) in (a, rw (e, contains) b)
  ]

  confirmed :
      (answers : String → StateAnswer) (own id : String) (attesting : Dict (NodeData Key))
      → names_itself id (query_all answers own attesting) ≡ true
      → (id ≢ own) × (query_node_state id (answers id) ≡ (id, some id))
  unfolding query_all
  confirmed answers own id [] h = absurd (unfold names_itself in cc)
  confirmed answers own id ((node_id, d) ∷ rest) h = elim (Bool-cases (str_eq node_id own)) [
    | inl e ↦ confirmed answers own id rest (rw e at h)
    | inr e ↦
        elim (named_first id (query_node_state node_id (answers node_id))
          (query_all answers own rest) (rw e at h)) [
            | inl q ↦
                let n : node_id ≡ id = sym (queried node_id (answers node_id)) ∙ ap (λ r. r.0) q in
                let e' = rw n at e in ((λ x. ground (arith, e', x, eq_iff id own)), rw n at q)
            | inr k ↦ confirmed answers own id rest k
          ]
  ]

-- A node that is found for the network's sequencer is another sequencing node that took itself for
-- the sequencer when asked, and its supporters and this node hold the threshold of the stake.
pub record IsFound {Key : Type 0} (c : Config Key) (answers : String → StateAnswer) (id : String)
    : Type 0 where
  pub state : NetworkState Key
  pub is_last : last_state c ≡ ok state
  pub sequencing : contains id (sequencing_nodes state) ≡ true
  pub other : id ≢ c.node.id
  pub claims : query_node_state id (answers id) ≡ (id, some id)
  pub staked : 0 < state.total_stake
  pub supported :
      c.threshold_percent * state.total_stake
      ≤ 100
        * (supporters_stake
              (attesting_nodes state)
              id
              (query_all answers c.node.id (attesting_nodes state))
            + c.node.stake)

module _ {Key : Type 0} where
  -- A node that is found for the network's sequencer is another node with the role to sequence,
  -- took itself for the sequencer when it was asked, and its supporters among the attesting
  -- nodes and this node hold the threshold of the stake.
  pub find_network_sequencer-IsFound :
      (c : Config Key) (answers : String → StateAnswer) (id : String)
      → find_network_sequencer c answers ≡ ok (some id)
      → IsFound c answers id
  unfolding find_network_sequencer
  find_network_sequencer-IsFound c answers id h =
      let (s, e1, h1) = >>=-eq-ok (last_state c) _ h in
      let results = query_all answers c.node.id (attesting_nodes s) in
      let (stakes, e2, h2) =
        >>=-eq-ok
          (count_votes (sequencing_nodes s) (attesting_nodes s) results
            (no_votes (sequencing_nodes s)))
          _ h1 in
      let (m, e3, h3) = >>=-eq-ok (max_stake_id stakes) _ h2 in
      let (stake, e4, h4) = >>=-eq-ok (votes_or_raise (lookup m stakes)) _ h3 in
      let (same, positive, threshold, names) =
        accepted c.threshold_percent s.total_stake results m (stake + c.node.stake) id h4 in
      let e5 = rw same at (votes_found (lookup m stakes) stake e4) in
      let (n, l, k) =
        count_votes-lookup (sequencing_nodes s) (attesting_nodes s) results
          (no_votes (sequencing_nodes s)) stakes id stake e2 e5 in
      let (zero_votes, inside) = no_votes-lookup (sequencing_nodes s) id n l in
      let (other, claims) = confirmed answers c.node.id id (attesting_nodes s) names in
      record {
        state = s;
        is_last = e1;
        sequencing = inside;
        other = other;
        claims = claims;
        staked = positive;
        supported = grind (arith, threshold, k, zero_votes);
      }
