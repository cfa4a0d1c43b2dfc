-- ===== src/Db/Latency/Switch.antt =====
-- What a change of the sequencer does to the batches that are not locked.
use zsequencer.Prelude.{
  ◌+◌, ◌-◌, ◌≡◌, ap, none, some, List, ◌++◌, String, map, take, drop, take-append-drop,
}
use zsequencer.Prelude.Int.{pos}
use zsequencer.State.{sequenced, locked}
use zsequencer.Batch.{Batch}
use zsequencer.BatchSequence.{get_last_index_or_default}
use zsequencer.BatchSequence.Filter.Halves.{filter_up_to, filter_from}
use zsequencer.BatchSequence.Filter.Keep.{filter-IsValid}
use zsequencer.BatchSequence.Validity.{IsValid}
use zsequencer.Db.{App}
use zsequencer.Db.Latency.{reinitialized}

-- The bodies of some batches.
abbrev pub bodies : List Batch → List String
bodies = map (λ b. b.body)

-- The batches of the app up to its last locked one.
abbrev pub locked_batches : App → List Batch
locked_batches app =
    let s = app.operational_batch_sequence in
    take (get_last_index_or_default s locked 0 + 1 - s.index_offset) s.batches

abbrev pub unlocked_batches : App → List Batch
unlocked_batches app =
    let s = app.operational_batch_sequence in
    drop (get_last_index_or_default s locked 0 + 1 - s.index_offset) s.batches

-- When the sequencer changes, a valid sequence keeps exactly its batches up to the last locked
-- one, and the bodies of the others go to the end of the pool in their order.
pub reinitialized_lem :
    (app : App)
    → IsValid app.operational_batch_sequence
    → ((reinitialized app).operational_batch_sequence.batches ≡ locked_batches app)
      × ((reinitialized app).initialized_batch_bodies
          ≡ app.initialized_batch_bodies ++ bodies (unlocked_batches app))
      × (locked_batches app ++ unlocked_batches app ≡ app.operational_batch_sequence.batches)
      × IsValid (reinitialized app).operational_batch_sequence
unfolding reinitialized
reinitialized_lem app v =
    let s = app.operational_batch_sequence in
    let last = get_last_index_or_default s locked 0 in
    (
      filter_up_to s last v.offset_pos,
      ap (λ l. app.initialized_batch_bodies ++ bodies l) (filter_from s last v.offset_pos),
      take-append-drop (last + 1 - s.index_offset) s.batches,
      filter-IsValid s sequenced none none (some (pos last)) v,
    )
