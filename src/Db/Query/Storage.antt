-- ===== src/Db/Query/Storage.antt =====
-- The loop over the chunk files ends.
use zsequencer.Prelude.{
  ℕ, zero, suc, ◌+◌, ◌-◌, ◌≤◌, ◌<◌, ◌≡◌, refl, ◌⊎◌, inl, inr, true, false, some, List, [], ◌∷◌,
  String, arith, ltb, leb, length, length-append, Bool-cases,
}
use zsequencer.State.{OperationalState, sequenced}
use zsequencer.Errors.{Result, ok, err, Result-cases, >>=-eq-ok}
use zsequencer.Batch.{Batch}
use zsequencer.BatchSequence
use zsequencer.BatchSequence.{BatchSequence, is_empty, get_last_index_or_default}
use zsequencer.BatchSequence.Validity.{IsValid, IsValid-empty}
use zsequencer.BatchSequence.Extend.Join.{extend-ok}
use zsequencer.Snapshot.{load_batches}
use zsequencer.Db.{App, InMemoryDb, app_of}
use zsequencer.Db.Query.{
  get_first_finalized_batch, with_memory, limited, load_round, storage_rounds, rounds_for,
  get_global_operational_batch_sequence,
}

-- Below the first batch in memory a load that succeeds brings batches after the index.
abbrev pub IsServed : InMemoryDb → String → App → Type 0
IsServed db name app =
    (after remaining : ℕ) (b : BatchSequence)
    → after + 1 < get_first_finalized_batch app
    → load_batches db.snapshot_manager name after (some remaining) ≡ ok b
    → IsValid b × (is_empty b.batches ≡ false) × (after < b.index_offset)

one_at_least : (bs : List Batch) → is_empty bs ≡ false → 1 ≤ length bs
one_at_least [] h = absurd (cc)
one_at_least (b ∷ bs) h = omega arith

none_in : (bs : List Batch) → is_empty bs ≡ true → length bs ≡ 0
none_in [] h = refl
none_in (b ∷ bs) h = absurd (cc)

not_empty : (bs : List Batch) → 1 ≤ length bs → is_empty bs ≡ false
not_empty [] h = absurd (omega arith)
not_empty (b ∷ bs) h = refl

module _ (db : InMemoryDb) (name : String) (app : App) (state : OperationalState) (limit : ℕ)
    (served : IsServed db name app) where
  abbrev last : BatchSequence → ℕ
  last s = get_last_index_or_default s sequenced 0

  -- Before a round the index is that of the last batch of the result, if it has one.
  abbrev IsReached : BatchSequence → ℕ → Type 0
  IsReached result after =
      IsValid result
      × ((is_empty result.batches ≡ true)
          ⊎ (after + 1 ≡ result.index_offset + length result.batches))

  -- A round brings the index forward.
  load_round-IsReached :
      (result : BatchSequence) (remaining after : ℕ) (next : BatchSequence)
      → after + 1 < get_first_finalized_batch app
      → IsReached result after
      → load_round db name app state limit result remaining after ≡ ok next
      → IsReached next (last next) × (after < last next)
  unfolding load_round get_last_index_or_default
  load_round-IsReached result remaining after next below (v, reached) h =
      let (b, e, g) =
        >>=-eq-ok (load_batches db.snapshot_manager name after (some remaining)) _ h in
      let (w, filled, ahead) = served after remaining b below e in
      let (x, batches, offset) = extend-ok result b v w g in
      let count : length next.batches ≡ length result.batches + length b.batches =
        rw batches (length-append result.batches b.batches) in
      let more = one_at_least b.batches filled in
      let full = not_empty next.batches (omega (arith, count, more)) in
      let forward : after < next.index_offset + length next.batches - 1 = elim reached [
        | inl y ↦
            let o : next.index_offset ≡ b.index_offset = ground (arith, offset, y, filled) in
            omega (arith, o, count, more, ahead)
        | inr y ↦ elim (Bool-cases (is_empty result.batches)) [
          | inl z ↦
              let o : next.index_offset ≡ b.index_offset = ground (arith, offset, z, filled) in
              omega (arith, o, count, more, ahead)
          | inr z ↦
              let o : next.index_offset ≡ result.index_offset = ground (arith, offset, z) in
              omega (arith, o, count, more, y)
        ]
      ] in
      rw full ((x, inr (omega (arith, count, more))), forward)

  storage_rounds-some :
      (fuel : ℕ) (result : BatchSequence) (remaining after : ℕ)
      → 1 ≤ fuel
      → get_first_finalized_batch app < fuel + after
      → IsReached result after
      → (r : Result BatchSequence) × (storage_rounds db name app state limit fuel result remaining
            after
          ≡ some r)
  unfolding storage_rounds
  storage_rounds-some zero result remaining after h k i = absurd (omega arith)
  storage_rounds-some (suc fuel) result remaining after h k i =
      elim (Bool-cases (ltb (after + 1) (get_first_finalized_batch app))) [
        | inr x ↦ (
          with_memory db name app state limit result remaining after,
          rw (x, storage_rounds) refl,
        )
        | inl x ↦ elim (Result-cases (load_round db name app state limit result remaining after)) [
          | inr (y, e) ↦ (err y, rw (x, storage_rounds, e) refl)
          | inl (next, e) ↦ elim (Bool-cases (leb limit next.size)) [
            | inl z ↦ (limited db name app state limit next, rw (x, storage_rounds, e, z) refl)
            | inr z ↦
                let below : after + 1 < get_first_finalized_batch app = ground (arith, x) in
                let (j, forward) = load_round-IsReached result remaining after next below i e in
                rw (x, storage_rounds, e, z)
                  (storage_rounds-some fuel next (limit - next.size) (last next)
                    (omega (arith, below)) (omega (arith, forward)) j)
          ]
        ]
      ]

  -- If every load of chunk files below the first batch in memory that succeeds brings a valid
  -- sequence with batches, which begins after the index asked for, the reading of a known app's
  -- batches over files and memory returns, with a sequence or an exception.
  pub get_global_operational_batch_sequence-returns :
      (after : ℕ)
      → app_of db name ≡ ok app
      → (r : Result BatchSequence) × (get_global_operational_batch_sequence db name state limit
            after
          ≡ some r)
  unfolding get_global_operational_batch_sequence rounds_for
  get_global_operational_batch_sequence-returns after known = rw known (
      storage_rounds-some (suc (get_first_finalized_batch app)) BatchSequence.empty limit after
        (omega arith) (omega arith) (IsValid-empty, inl (unfold BatchSequence.empty in refl)))
