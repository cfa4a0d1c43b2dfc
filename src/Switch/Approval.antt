-- ===== src/Switch/Approval.antt =====
-- What an approved switch rests on.
use zsequencer.Prelude.{
  ◌≤◌, ◌≡◌, sym, ◌∙◌, true, List, String, length, length-map, map, str_eq, eq_iff, arith,
}
use mathlib.Core.List.{Memᴰ}
use zsequencer.Errors.{ok, ◌>>=◌}
use zsequencer.Distinct.{to_set, to_set-only}
use zsequencer.Switch.{
  SwitchProof, SwitchSettings, approved_ids, stake_sum, reaches_half, same_dispute,
  is_switch_approved,
}

pub str_eq_self : (x : String) → str_eq x x ≡ true
str_eq_self x = ground (arith, eq_iff x x)

module _ {Key : Type 0} (c : SwitchSettings Key) (proofs : List SwitchProof) where
  pub same_dispute_self : (p : SwitchProof) → same_dispute c p p ≡ true
  unfolding same_dispute
  same_dispute_self p = ground (arith, eq_iff p.sequencer_id p.sequencer_id)

  same_dispute-true :
      (p q : SwitchProof)
      → same_dispute c p q ≡ true
      → (p.timestamp ≡ q.timestamp) × (p.sequencer_id ≡ q.sequencer_id)
  unfolding same_dispute
  same_dispute-true p q h = (ground arith, ground (arith, eq_iff p.sequencer_id q.sequencer_id))

  pub length-ids : length (map (λ (p : SwitchProof). p.node_id) proofs) ≡ length proofs
  length-ids = length-map proofs (λ p. p.node_id)

  passed :
      is_switch_approved c proofs ≡ ok true
      → (length (to_set (same_dispute c) proofs) ≤ 1)
        × (length proofs ≤ length (to_set str_eq (map (λ p. p.node_id) proofs)))
        × ((approved_ids c proofs >>= λ ids. stake_sum c ids >>= reaches_half c) ≡ ok true)
  unfolding is_switch_approved
  passed h = (ground arith, ground arith, ground arith)

  -- Any two proofs of an approved switch are on the same sequencer and the same time.
  pub is_switch_approved-same :
      (p q : SwitchProof)
      → is_switch_approved c proofs ≡ ok true
      → Memᴰ p proofs
      → Memᴰ q proofs
      → (p.timestamp ≡ q.timestamp) × (p.sequencer_id ≡ q.sequencer_id)
  is_switch_approved-same p q h m n =
      let (z, a, b) = to_set-only (same_dispute c) same_dispute_self proofs p q (passed h).0 m n in
      let (x, y) = same_dispute-true p z a in
      let (x', y') = same_dispute-true q z b in (x ∙ sym x', y ∙ sym y')
