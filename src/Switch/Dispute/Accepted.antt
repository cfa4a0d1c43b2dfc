-- ===== src/Switch/Dispute/Accepted.antt =====
-- The proofs of a node that goes on with its dispute are approved.
use mathlib.Core.Path.{subst}
use mathlib.Core.List.{Memᴰ}
use mathlib.Core.List.Memᴰ.{head, tail, not-nil, cases_cons}
use zsequencer.Prelude.{
  ℕ, not, Option, eq_iff, ◌||◌, ◌+◌, ◌≤◌, ◌≡◌, refl, sym, ap, ◌∙◌, true, false, none, some, List,
  [], ◌∷◌, ◌++◌, String, arith, length, map, str_eq, Bool-cases, inl, inr, ltb,
}
use zsequencer.Errors.{ok, >>=-eq-ok, ok-eq-ok, Result-cases}
use zsequencer.Network.{Node}
use zsequencer.Dict.{Dict}
use zsequencer.Config.{Config, NodeData, NetworkState, last_state, attesting_nodes}
use zsequencer.Distinct.{IsDistinct, to_set, member, member_of}
use zsequencer.Switch.Approval.{same_dispute_self, length-ids}
use zsequencer.SequencerManager.{Manager}
use zsequencer.Db.Query.{is_sequencer_censoring}
use zsequencer.Db.Latency.{has_delayed_batches}
use zsequencer.Switch.{
  SwitchProof, SwitchSettings, is_dispute_approved, node_of, reaches_half, get_next_sequencer_id,
  approved_ids, stake_sum, same_dispute, is_switch_approved, ids_of_nodes,
}
use zsequencer.Switch.Dispute.{
  Gathered, switch_proof, asked_ids, count_one, count_done, gather_pending, gather_disputes,
  proofs_if_reached, dispute, send_dispute_requests,
}
use zsequencer.Switch.Dispute.Names.{IsDistinct-without, IsDistinct-prefix, length-to_set_distinct}

-- The node ids of proofs and of requests.
abbrev ids_of : List SwitchProof → List String
ids_of = map (λ p. p.node_id)

abbrev pub names_of_pending : List (List String) → List String
names_of_pending [] = []
names_of_pending (done ∷ pending) = done ++ names_of_pending pending

-- `asyncio.wait`, called until no request is pending: each request is done in one set at most.
pub record IsWait (finish : List String → List (List String)) : Type 0 where
  pub asked :
      (ids : List String) (id : String) → Memᴰ id (names_of_pending (finish ids)) → Memᴰ id ids
  pub once : (ids : List String) → IsDistinct ids → IsDistinct (names_of_pending (finish ids))

module _ {Key : Type 0} (own_id : String) where
  -- The node does not ask itself, and asks nodes of the state.
  asked_ids-other : (nodes : Dict (NodeData Key)) → ¬ Memᴰ own_id (asked_ids own_id nodes)
  unfolding asked_ids
  asked_ids-other [] m = not-nil m
  asked_ids-other ((address, node) ∷ rest) m = elim (Bool-cases (str_eq node.id own_id)) [
    | inl e ↦ asked_ids-other rest (rw e at m)
    | inr e ↦ elim (cases_cons {b = node.id} {l = asked_ids own_id rest} (rw e at m)) [
      | inl h ↦ absurd (ground (arith, e, h, eq_iff node.id own_id))
      | inr m' ↦ asked_ids-other rest m'
    ]
  ]

  asked_ids-of :
      (id : String) (nodes : Dict (NodeData Key))
      → Memᴰ id (asked_ids own_id nodes)
      → Memᴰ id (ids_of_nodes nodes)
  unfolding asked_ids ids_of_nodes
  asked_ids-of id [] m = m
  asked_ids-of id ((address, node) ∷ rest) m = elim (Bool-cases (str_eq node.id own_id)) [
    | inl e ↦ tail (asked_ids-of id rest (rw e at m))
    | inr e ↦ elim (cases_cons {b = node.id} {l = asked_ids own_id rest} (rw e at m)) [
      | inl h ↦ head h
      | inr m' ↦ tail (asked_ids-of id rest m')
    ]
  ]

  asked_ids-IsDistinct :
      (nodes : Dict (NodeData Key))
      → IsDistinct (ids_of_nodes nodes)
      → IsDistinct (asked_ids own_id nodes)
  unfolding asked_ids ids_of_nodes
  asked_ids-IsDistinct [] d = tt
  asked_ids-IsDistinct ((address, node) ∷ rest) (n, d) = elim (Bool-cases (str_eq node.id own_id)) [
    | inl e ↦ rw e (asked_ids-IsDistinct rest d)
    | inr e ↦ rw e ((λ m. n (asked_ids-of node.id rest m)), asked_ids-IsDistinct rest d)
  ]

module _ {Key : Type 0} (c : SwitchSettings Key) (answers : String → Option String)
    (sequencer_id : String) (timestamp : ℕ) where
  -- Approved proofs on the sequencer and the time, with the stake of their nodes.
  abbrev IsGathered : List SwitchProof → ℕ → Type 0
  IsGathered [] stake = stake ≡ 0
  IsGathered (p ∷ ps) stake =
      (is_dispute_approved c p ≡ ok true)
      × (p.sequencer_id ≡ sequencer_id)
      × (p.timestamp ≡ timestamp)
      × (node : Node Key) × (node_of c p.node_id ≡ ok node)
      × (rest : ℕ) × (stake ≡ node.stake + rest)
      × IsGathered ps rest

  IsGathered-append :
      (ps : List SwitchProof) (p : SwitchProof) (node : Node Key) (stake : ℕ)
      → IsGathered ps stake
      → is_dispute_approved c p ≡ ok true
      → p.sequencer_id ≡ sequencer_id
      → p.timestamp ≡ timestamp
      → node_of c p.node_id ≡ ok node
      → IsGathered (ps ++ p ∷ []) (stake + node.stake)
  IsGathered-append [] p node stake g a b t n = (a, b, t, node, n, 0, omega (arith, g), refl)
  IsGathered-append (q ∷ ps) p node stake (x, y, z, m, w, rest, e, g) a b t n = (
    x,
    y,
    z,
    m,
    w,
    rest + node.stake,
    omega (arith, e),
    IsGathered-append ps p node rest g a b t n,
  )

  gathered_ids :
      (ps : List SwitchProof) (stake : ℕ)
      → IsGathered ps stake
      → (approved_ids c ps ≡ ok (ids_of ps)) × (stake_sum c (ids_of ps) ≡ ok stake)
  unfolding approved_ids stake_sum
  gathered_ids [] stake g = (refl, ap ok (sym g))
  gathered_ids (p ∷ ps) stake (a, b, t, node, n, rest, e, g) =
      let (x, y) = gathered_ids ps rest g in (rw (a, x) refl, rw (n, y) (ap ok (sym e)))

  -- Proofs on one dispute count as one.
  member_same :
      (p q : SwitchProof) (set : List SwitchProof)
      → p.sequencer_id ≡ q.sequencer_id
      → p.timestamp ≡ q.timestamp
      → member (same_dispute c) p set ≡ member (same_dispute c) q set
  unfolding member same_dispute
  member_same p q [] h k = refl
  member_same p q (r ∷ set) h k = rw (h, k, member_same p q set h k) refl

  one_dispute :
      (ps : List SwitchProof) (stake : ℕ)
      → IsGathered ps stake
      → length (to_set (same_dispute c) ps) ≤ 1
  unfolding to_set member
  one_dispute [] stake g = omega arith
  one_dispute (p ∷ []) stake g = omega arith
  one_dispute (p ∷ q ∷ ps) stake (a, b, t, node, n, rest, e, g) =
      let known = member_of (same_dispute c) (same_dispute_self c ps) q (q ∷ ps) (head refl) in
      let same : member (same_dispute c) p (to_set (same_dispute c) (q ∷ ps)) ≡ true =
        member_same p q _ (b ∙ sym g.1) (t ∙ sym g.2) ∙ known in
      rw (to_set, same) (one_dispute (q ∷ ps) rest g)

  accepted :
      (ps : List SwitchProof) (stake : ℕ)
      → IsGathered ps stake
      → IsDistinct (ids_of ps)
      → reaches_half c stake ≡ ok true
      → is_switch_approved c ps ≡ ok true
  unfolding is_switch_approved
  accepted ps stake g d h =
      let (x, y) = gathered_ids ps stake g in
      let one : ltb 1 (length (to_set (same_dispute c) ps)) ≡ false =
        ground (arith, one_dispute ps stake g) in
      let all : ltb (length (to_set str_eq (ids_of ps))) (length ps) ≡ false =
        ground (arith, length-to_set_distinct (ids_of ps) d, length-ids c ps) in
      rw (one, all, x, y) h

  module _ (own : SwitchProof) where
    ids_append :
        (ps : List SwitchProof) (p : SwitchProof) (names : List String)
        → ids_of ps ++ p.node_id ∷ names ≡ ids_of (ps ++ p ∷ []) ++ names
    ids_append [] p names = refl
    ids_append (q ∷ ps) p names = ap (λ l. q.node_id ∷ l) (ids_append ps p names)

    -- What was gathered is on distinct nodes, apart from those that are still asked.
    abbrev IsApart : Gathered → List String → Type 0
    IsApart (ps, stake) names =
        IsGathered (own ∷ ps) stake × IsDistinct (ids_of (own ∷ ps) ++ names)

    IsApart-without :
        (ps : List SwitchProof) (stake : ℕ) (name : String) (names : List String)
        → IsApart (ps, stake) (name ∷ names)
        → IsApart (ps, stake) names
    IsApart-without ps stake name names (g, d) =
        (g, IsDistinct-without name (ids_of (own ∷ ps)) names d)

    count_one-IsApart :
        (name : String) (answer : Option String) (ps : List SwitchProof) (stake : ℕ) (g' : Gathered)
        (names : List String)
        → count_one c answers sequencer_id timestamp name answer (ps, stake) ≡ ok g'
        → IsApart (ps, stake) (name ∷ names)
        → IsApart g' names
    unfolding count_one switch_proof
    count_one-IsApart name none ps stake g' names h a =
        subst (λ k. IsApart k names) (ok-eq-ok h) (IsApart-without ps stake name names a)
    count_one-IsApart name (some signature) ps stake g' names h a =
        let p = switch_proof c answers sequencer_id timestamp name signature in
        let (approved, e, h1) = >>=-eq-ok (is_dispute_approved c p) _ h in
        elim (Bool-cases approved) [
          | inr x ↦
              subst (λ k. IsApart k names) (ok-eq-ok (rw x at h1))
                (IsApart-without ps stake name names a)
          | inl x ↦
              let (node, e2, h2) = >>=-eq-ok (node_of c name) _ (rw x at h1) in
              let (g, d) = a in
              subst (λ k. IsApart k names) (ok-eq-ok h2)
                (
                  IsGathered-append (own ∷ ps) p node stake g (e ∙ ap ok x) refl refl e2,
                  subst IsDistinct (ids_append (own ∷ ps) p names) d,
                )
        ]

    count_done-IsApart :
        (done : List String) (ps : List SwitchProof) (stake : ℕ) (g' : Gathered)
        (names : List String)
        → count_done c answers sequencer_id timestamp done (ps, stake) ≡ ok g'
        → IsApart (ps, stake) (done ++ names)
        → IsApart g' names
    unfolding count_done
    count_done-IsApart [] ps stake g' names h a = subst (λ k. IsApart k names) (ok-eq-ok h) a
    count_done-IsApart (name ∷ done) ps stake g' names h a =
        let ((ps1, stake1), e, h1) =
          >>=-eq-ok (count_one c answers sequencer_id timestamp name (answers name) (ps, stake)) _
            h in
        count_done-IsApart done ps1 stake1 g' names h1
          (count_one-IsApart name (answers name) ps stake (ps1, stake1) (done ++ names) e a)

    gather_pending-IsApart :
        (pending : List (List String)) (ps : List SwitchProof) (stake : ℕ) (g' : Gathered)
        → gather_pending c answers sequencer_id timestamp pending (ps, stake) ≡ ok g'
        → IsApart (ps, stake) (names_of_pending pending)
        → IsGathered (own ∷ g'.0) g'.1 × IsDistinct (ids_of (own ∷ g'.0))
    unfolding gather_pending
    gather_pending-IsApart [] ps stake g' h (g, d) =
        subst (λ k. IsGathered (own ∷ k.0) k.1 × IsDistinct (ids_of (own ∷ k.0))) (ok-eq-ok h)
          (g, IsDistinct-prefix (ids_of (own ∷ ps)) [] d)
    gather_pending-IsApart (done ∷ pending) ps stake g' h a =
        let (reached, e, h1) = >>=-eq-ok (reaches_half c stake) _ h in
        elim (Bool-cases reached) [
          | inl x ↦
              let (g, d) = a in
              subst (λ k. IsGathered (own ∷ k.0) k.1 × IsDistinct (ids_of (own ∷ k.0)))
                (ok-eq-ok (rw x at h1))
                (g, IsDistinct-prefix (ids_of (own ∷ ps)) (names_of_pending (done ∷ pending)) d)
          | inr x ↦
              let ((ps1, stake1), e1, h2) =
                >>=-eq-ok (count_done c answers sequencer_id timestamp done (ps, stake)) _
                  (rw x at h1) in
              gather_pending-IsApart pending ps1 stake1 g' h2
                (count_done-IsApart done ps stake (ps1, stake1) (names_of_pending pending) e1 a)
        ]

    disputed :
        (conf : Config Key) (s : NetworkState Key) (finish : List String → List (List String))
        (proofs : List SwitchProof) (next : String)
        → own.node_id ≡ conf.node.id
        → own.sequencer_id ≡ sequencer_id
        → own.timestamp ≡ timestamp
        → is_dispute_approved c own ≡ ok true
        → last_state conf ≡ ok s
        → IsDistinct (ids_of_nodes (attesting_nodes s))
        → IsWait finish
        → dispute c answers sequencer_id timestamp conf own (some finish) ≡ ok (some (proofs, next))
        → is_switch_approved c proofs ≡ ok true
    unfolding dispute gather_disputes proofs_if_reached
    disputed conf s finish proofs next o b t a known d w h =
        elim (Result-cases (gather_disputes c answers sequencer_id timestamp conf finish)) [
          | inr (x, e) ↦
              let k : ok none ≡ ok (some (proofs, next)) = rw (e, dispute) at h in absurd cc
          | inl ((ps, stake), e) ↦
              let ids = asked_ids conf.node.id (attesting_nodes s) in
              let (node, e1, h1) = >>=-eq-ok (node_of c conf.node.id) _ (rw known at e) in
              let (r, e2, h2) = >>=-eq-ok (reaches_half c node.stake) _ h1 in
              let apart : IsDistinct (own.node_id ∷ names_of_pending (finish ids)) = (
                λ m. asked_ids-other conf.node.id (attesting_nodes s) (w.asked ids _ (rw o at m)),
                w.once ids (asked_ids-IsDistinct conf.node.id (attesting_nodes s) d),
              ) in
              let (g, d') =
                gather_pending-IsApart (finish ids) [] node.stake (ps, stake) h2
                  ((a, b, t, node, rw o e1, 0, omega arith, refl), apart) in
              let (reached, e3, h3) = >>=-eq-ok (reaches_half c stake) _ (rw (e, dispute) at h) in
              elim (Bool-cases reached) [
                | inr x ↦ let k : ok none ≡ ok (some (proofs, next)) = rw x at h3 in absurd cc
                | inl x ↦
                    let (n, e4, h4) =
                      >>=-eq-ok (get_next_sequencer_id conf sequencer_id) _ (rw x at h3) in
                    let (n1, e5, h5) = >>=-eq-ok (node_of c sequencer_id) _ h4 in
                    let (n2, e6, h6) = >>=-eq-ok (node_of c n) _ h5 in
                    let same : own ∷ ps ≡ proofs = cc in
                    rw same at (accepted (own ∷ ps) stake g d' (e3 ∙ ap ok x))
              ]
        ]

-- The own proof of a dispute.
abbrev pub own_proof :
    {Key : Type 0} → SwitchSettings Key → Manager Key → (String → String) → ℕ → SwitchProof
own_proof c m bls_sign now =
    let id = m.zconfig.sequencer.id in
    switch_proof c (λ node_id. none) id now m.zconfig.node.id (bls_sign (c.dispute_message id now))

-- A node that goes on with a dispute sends proofs that is_switch_approved approves under the
-- same settings, if its own proof is approved, the attesting nodes of its last network state
-- have distinct ids and each request is done once at most; and it is synced and not paused.
pub send_dispute_requests-is_switch_approved :
    {Key : Type 0} (c : SwitchSettings Key) (m : Manager Key) (s : NetworkState Key)
    (bls_sign : String → String) (now : ℕ) (answers : String → Option String)
    (finish : List String → List (List String)) (proofs : List SwitchProof) (next : String)
    → is_dispute_approved c (own_proof c m bls_sign now) ≡ ok true
    → last_state m.zconfig ≡ ok s
    → IsDistinct (ids_of_nodes (attesting_nodes s))
    → IsWait finish
    → send_dispute_requests c m bls_sign now answers (some finish) ≡ ok (some (proofs, next))
    → (is_switch_approved c proofs ≡ ok true)
      × (m.zconfig.synced_flag ≡ true)
      × (m.zconfig.paused ≡ false)
unfolding send_dispute_requests switch_proof
send_dispute_requests-is_switch_approved c m s bls_sign now answers finish proofs next a known d w
      h =
    let id = m.zconfig.sequencer.id in
    let own = own_proof c m bls_sign now in
    let (censoring, e, h1) = >>=-eq-ok (is_sequencer_censoring m.zdb m.zconfig.apps) _ h in
    let issue =
      censoring
      || has_delayed_batches m.zconfig.finalization_time_border now m.zdb
      || m.zdb.is_sequencer_down in
    let stops = not m.zconfig.synced_flag || m.zconfig.paused || not issue in
    elim (Bool-cases stops) [
      | inl x ↦ let k : ok none ≡ ok (some (proofs, next)) = rw x at h1 in absurd cc
      | inr x ↦ (
        disputed c answers id now own m.zconfig s finish proofs next refl refl refl a known d w
            (rw x at h1),
        ground (arith, x),
        ground (arith, x),
      )
    ]
