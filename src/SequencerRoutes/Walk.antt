-- ===== src/SequencerRoutes/Walk.antt =====
-- The loop over the finalized signatures ends.
use zsequencer.Prelude.{
  ℕ, zero, suc, ◌+◌, ◌≤◌, ◌<◌, ◌≡◌, refl, sym, ap, ◌∙◌, Option, none, some, List, [], ◌∷◌, String,
  arith, length, Bool-cases, inl, inr,
}
use zsequencer.Errors.{Result, ok, err, >>=-eq-ok, ok-eq-ok, Result-cases}
use zsequencer.Batch.{Batch, BatchRecord}
use zsequencer.BatchSequence.{
  BatchSequence, get_batch_or_empty, get_or_empty, with_state, get_state,
}
use zsequencer.BatchSequence.Lookup.{get_batch_some}
use zsequencer.Db.{SignatureData, App, InMemoryDb, app_of}
use zsequencer.Db.Query.{get_batch_record_by_index_or_empty}
use zsequencer.SequencerRoutes.{
  value_or_raise, batch_of_record, finalized_signature_info, is_within, signature_at, add_signature,
  finalized_signatures, rounds,
}

-- The next finalized batch of each batch comes after it.
abbrev pub IsForward : BatchSequence → Type 0
IsForward s =
    (i j : ℕ) (b : Batch) → get_batch_or_empty s i ≡ some b → b.next_index ≡ some j → i < j

record_found :
    (s : BatchSequence) (i : ℕ) (found : Option BatchRecord) (b : Batch)
    → get_or_empty s i ≡ ok found
    → batch_of_record found ≡ ok b
    → get_batch_or_empty s i ≡ some b
unfolding get_or_empty
record_found s i found b h k = go (get_batch_or_empty s i) h
  where
    go : (o : Option Batch) → with_state s i o ≡ ok found → o ≡ some b
    go none e = absurd (unfold with_state batch_of_record in ground arith)
    go (some x) e = elim (Result-cases (get_state s i)) [
      | inr (y, f) ↦ absurd (unfold with_state in ground (arith, f))
      | inl (t, f) ↦ unfold with_state batch_of_record value_or_raise in ground (arith, f)
    ]

module _ (db : InMemoryDb) (name : String) (batch_sequence : BatchSequence) (app : App)
    (known : app_of db name ≡ ok app) where
  -- A signature is found at an index of the sequence of the app.
  signature_found :
      (i : ℕ) (b : Batch) (d : SignatureData)
      → signature_at db name batch_sequence i ≡ ok (b, d)
      → get_batch_or_empty app.operational_batch_sequence i ≡ some b
  unfolding signature_at get_batch_record_by_index_or_empty
  signature_found i b d h =
      let (found, e1, h1) = >>=-eq-ok (get_batch_record_by_index_or_empty db name i) _ h in
      let (app', e2, h2) = >>=-eq-ok (app_of db name) _ e1 in
      let (b', e3, h3) = >>=-eq-ok (batch_of_record found) _ h1 in
      let (d', e4, h4) = >>=-eq-ok (finalized_signature_info i b') _ h3 in
      let same : b' ≡ b = ap (λ (x : Batch × SignatureData). x.0) (ok-eq-ok h4) in
      let same_app : app' ≡ app = ok-eq-ok (sym e2 ∙ known) in
      record_found app.operational_batch_sequence i found b (rw same_app at h2) (rw same at e3)

  add_some :
      (d : SignatureData) (o : Option (Result (List SignatureData)))
      → ((r : Result (List SignatureData)) × (o ≡ some r))
      → (r : Result (List SignatureData)) × (add_signature db name batch_sequence d o ≡ some r)
  unfolding add_signature
  add_some d none (r, e) = absurd (cc)
  add_some d (some (err x)) e = (err x, refl)
  add_some d (some (ok ds)) e = (ok (d ∷ ds), refl)

  module _ (forward : IsForward app.operational_batch_sequence) where
    -- The fuel is enough for what is left of the sequence.
    abbrev IsEnough : ℕ → Option ℕ → Type 0
    IsEnough fuel none = 1 ≤ fuel
    IsEnough fuel (some n) =
        (1 ≤ fuel)
        × (app.operational_batch_sequence.index_offset ≤ n
            → app.operational_batch_sequence.index_offset
                + length app.operational_batch_sequence.batches
              < fuel + n)

    IsEnough-next :
        (fuel n : ℕ) (b : Batch)
        → get_batch_or_empty app.operational_batch_sequence n ≡ some b
        → IsEnough (suc fuel) (some n)
        → IsEnough fuel b.next_index
    IsEnough-next fuel n b g (p, q) = go b.next_index (λ j e. forward n j b g e)
      where
        go : (o : Option ℕ) → ((j : ℕ) → o ≡ some j → n < j) → IsEnough fuel o
        go none f =
            let (x, y) = get_batch_some app.operational_batch_sequence n b g in
            let w = q x in omega arith
        go (some j) f =
            let (x, y) = get_batch_some app.operational_batch_sequence n b g in
            let z = f j refl in let w = q x in (omega arith, λ k. omega arith)

    finalized_signatures-some :
        (fuel : ℕ) (next : Option ℕ)
        → IsEnough fuel next
        → (r : Result (List SignatureData)) × (finalized_signatures db name batch_sequence fuel next
            ≡ some r)
    unfolding finalized_signatures
    finalized_signatures-some zero none e = absurd (omega arith)
    finalized_signatures-some zero (some n) (p, q) = absurd (omega arith)
    finalized_signatures-some (suc fuel) none e = (ok [], refl)
    finalized_signatures-some (suc fuel) (some n) e =
        elim (Bool-cases (is_within batch_sequence n)) [
          | inr x ↦ (ok [], rw (x, finalized_signatures) refl)
          | inl x ↦ elim (Result-cases (signature_at db name batch_sequence n)) [
            | inr (y, f) ↦ (err y, rw (x, finalized_signatures, f) refl)
            | inl ((b, d), f) ↦
                rw (x, finalized_signatures, f)
                  (add_some d _ (
                    finalized_signatures-some fuel b.next_index
                      (IsEnough-next fuel n b (signature_found n b d f) e)))
          ]
        ]

    -- If the next index of each batch of a known app comes after the batch, the loop over the
    -- finalized signatures ends, with a list or an exception, within two rounds more than the
    -- sequence of the app has batches.
    pub finalized_signatures-return :
        (next : Option ℕ)
        → (r : Result (List SignatureData)) × (finalized_signatures db name batch_sequence
              (rounds (app_of db name))
              next
            ≡ some r)
    unfolding rounds
    finalized_signatures-return none = rw known (finalized_signatures-some _ none (omega arith))
    finalized_signatures-return (some n) =
        rw known (finalized_signatures-some _ (some n) (omega arith, λ k. omega arith))
