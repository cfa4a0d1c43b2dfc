-- ===== src/NodeRoutes/Dispute.antt =====
-- When a node signs a dispute.
use zsequencer.Prelude.{
  ℕ, ◌+◌, ◌≤◌, ◌≡◌, sym, true, false, not, Option, none, some, String, arith, str_eq, eq_iff,
  Bool-cases, inl, inr,
}
use zsequencer.Errors.{
  Error, ok, err, >>=-eq-ok, ok-eq-ok, Result-cases, raise_if, raise_if-ok, invalid_timestamp,
}
use zsequencer.Config
use zsequencer.Config.{Config}
use zsequencer.Db.{InMemoryDb}
use zsequencer.NodeRoutes.{
  DisputeRequest, has_issue, is_rejected, is_timely, log_nodes, confirm_dispute, accept_dispute,
  post_dispute,
}

module _ {Key : Type 0} (c : Config Key) (bls_sign : String → String)
    (dispute_message : String → ℕ → String) (now : ℕ) (signer : Option String)
    (request : DisputeRequest) (db : InMemoryDb) where
  -- What was signed is the dispute, at a time near the clock.
  confirmed :
      (signature : String)
      → (accept_dispute c bls_sign dispute_message now signer request db).1 ≡ ok signature
      → (now ≤ request.timestamp + 5)
        × (request.timestamp ≤ now + 5)
        × (signature ≡ bls_sign (dispute_message request.sequencer_id request.timestamp))
  unfolding accept_dispute confirm_dispute is_timely
  confirmed signature h = go _ h
    where
      go :
          (o : Option Error)
          → (elim o [
            | some e ↦ err e
            | none ↦ confirm_dispute c bls_sign dispute_message now signer request
          ])
            ≡ ok signature
          → (now ≤ request.timestamp + 5)
            × (request.timestamp ≤ now + 5)
            × (signature ≡ bls_sign (dispute_message request.sequencer_id request.timestamp))
      go (some e) k = absurd (cc)
      go none k =
          let (u1, e1, h1) =
            >>=-eq-ok (raise_if invalid_timestamp (not (is_timely c now request.timestamp))) _ k in
          let (u2, e2, h2) = >>=-eq-ok (log_nodes c signer request.sequencer_id) _ h1 in
          let v = raise_if-ok invalid_timestamp (not (is_timely c now request.timestamp)) e1 in
          (ground (arith, v), ground (arith, v), sym (ok-eq-ok h2))

  own : Config.is_sequencer c ≡ true → c.sequencer.id ≡ c.node.id
  unfolding Config.is_sequencer
  own s = ground (arith, eq_iff c.sequencer.id c.node.id)

  not_rejected :
      is_rejected c db now request ≡ ok false
      → request.sequencer_id ≡ c.sequencer.id
      → (Config.is_sequencer c ≡ false) × (has_issue c db now ≡ ok true)
  unfolding is_rejected
  not_rejected h e = elim (Bool-cases (Config.is_sequencer c)) [
    | inl s ↦
        let k = ok-eq-ok (rw (s, is_rejected) at h) in
        absurd (ground (arith, k, e, s, eq_iff request.sequencer_id c.node.id, own s))
    | inr s ↦
        let same : str_eq request.sequencer_id c.sequencer.id ≡ true =
          ground (arith, e, eq_iff request.sequencer_id c.sequencer.id) in
        let (issue, e1, h1) =
          >>=-eq-ok (has_issue c db now) _ (rw (s, is_rejected, same, is_rejected) at h) in
        let k = ok-eq-ok h1 in let i : issue ≡ true = ground (arith, k) in (s, rw i at e1)
  ]

  -- A dispute against the current sequencer is signed only within 5 seconds of its time, by a
  -- node that is not the sequencer itself and that sees it censor, be slow or be down.
  pub post_dispute_lem :
      (signature : String)
      → request.sequencer_id ≡ c.sequencer.id
      → (post_dispute c bls_sign dispute_message now signer request db).1 ≡ ok signature
      → (now ≤ request.timestamp + 5)
        × (request.timestamp ≤ now + 5)
        × (signature ≡ bls_sign (dispute_message request.sequencer_id request.timestamp))
        × (Config.is_sequencer c ≡ false)
        × (has_issue c db now ≡ ok true)
  unfolding post_dispute
  post_dispute_lem signature current h = elim (Result-cases (is_rejected c db now request)) [
    | inr (x, e) ↦ absurd (let k = rw (e, post_dispute) at h in cc)
    | inl (true, e) ↦ absurd (let k = rw (e, post_dispute) at h in cc)
    | inl (false, e) ↦
        let (a, b, d) = confirmed signature (rw (e, post_dispute) at h) in
        let (f, g) = not_rejected e current in (a, b, d, f, g)
  ]
