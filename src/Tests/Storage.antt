-- ===== src/Tests/Storage.antt =====
-- A sequence that is read from a chunk file and from the memory.
use zsequencer.Prelude.{
  ℕ, ◌+◌, ◌≡◌, ◌<◌, refl, sym, ◌∙◌, Bool, true, false, none, some, [], ◌∷◌, arith, ◌==◌, leb,
  Bool-cases, inl, inr, if◌then◌else◌, Option,
}
use zsequencer.State.{sequenced}
use zsequencer.Errors.{ok, Result, ok-eq-ok}
use zsequencer.Dict.{lookup}
use zsequencer.Batch.{get_utf8_size, get_batch_size}
use zsequencer.BatchSequence.{BatchSequence, batches_size, get_first_index_or_default}
use zsequencer.BatchSequence.Validity.{IsValid}
use zsequencer.BatchSequence.Extend.{to_mapping}
use zsequencer.Snapshot.{Storage, load_batches}
use zsequencer.Db.{App, InMemoryDb, app_of}
use zsequencer.Db.Query.{get_first_finalized_batch, get_global_operational_batch_sequence}
use zsequencer.Db.Query.Storage.{IsServed, get_global_operational_batch_sequence-returns}
use zsequencer.Tests.Sequence.{first, second, third}
use zsequencer.Tests.Node.{app, db}

-- The first batch is in a file, and the two after it are in memory.
abbrev chunk : BatchSequence
chunk = record {
  index_offset = 1;
  batches = first ∷ [];
  locked_last_index = some 1;
  finalized_last_index = some 1;
  size = 1;
}

chunk-IsValid : IsValid chunk
unfolding batches_size get_batch_size get_utf8_size
chunk-IsValid = record {
  offset_pos = omega arith;
  sized = refl;
  locked_in = (omega arith, omega arith);
  finalized_in = (omega arith, omega arith);
  ordered = omega arith;
}

abbrev memory : BatchSequence
memory = record {
  index_offset = 2;
  batches = second ∷ third ∷ [];
  locked_last_index = some 2;
  finalized_last_index = some 2;
  size = 5;
}

abbrev storage : Storage
storage = record {
  chunks = 1 ∷ [];
  last_persisted_index = some 1;
  disk = λ i. if i == 1 then some (to_mapping chunk) else none;
  pending = [];
}

abbrev stored_app : App
stored_app = record app { operational_batch_sequence = memory }

abbrev stored_db : InMemoryDb
stored_db = record db { apps = ("a", stored_app) ∷ []; snapshot_manager = ("a", storage) ∷ [] }

stored_known : app_of stored_db "a" ≡ ok stored_app
unfolding app_of lookup
stored_known = refl

either_way :
    (x : Bool)
    → ◌≡◌ {A = Result BatchSequence} (elim x [ true ↦ ok chunk | false ↦ ok chunk ]) (ok chunk)
either_way true = refl
either_way false = refl

loaded : (remaining : ℕ) → load_batches stored_db.snapshot_manager "a" 0 (some remaining) ≡ ok chunk
unfolding load_batches lookup zsequencer.Snapshot.storage_of zsequencer.Snapshot.find_file_pos
    zsequencer.Prelude.Int.◌-ℤ◌ zsequencer.Bisect.bisect zsequencer.Snapshot.load_chunks
    zsequencer.Snapshot.load_file zsequencer.BatchSequence.Extend.from_mapping to_mapping
    zsequencer.BatchSequence.Extend.extend zsequencer.BatchSequence.Filter.filter
    zsequencer.BatchSequence.Filter.excludes_target zsequencer.ExtendedInt.ge
    zsequencer.ExtendedInt.from_optional_int zsequencer.ExtendedInt.eq_int
    zsequencer.BatchSequence.Filter.target_last_index
    zsequencer.BatchSequence.Filter.final_start_inclusive zsequencer.ExtendedInt.add get_batch_size
    get_utf8_size zsequencer.BatchSequence.Extend.append_all
    zsequencer.BatchSequence.Extend.includes_only_finalized_batches
    zsequencer.BatchSequence.Extend.promote_entry
    zsequencer.BatchSequence.Filter.before_index_offset zsequencer.BatchSequence.Filter.cut
    zsequencer.BatchSequence.Filter.excluding_last_index
    zsequencer.BatchSequence.Filter.final_end_exclusive zsequencer.BatchSequence.Filter.relative
    zsequencer.BatchSequence.Filter.restrict zsequencer.BatchSequence.Filter.slice
    zsequencer.BatchSequence.Filter.window zsequencer.BatchSequence.append batches_size
    zsequencer.BatchSequence.create_empty zsequencer.BatchSequence.empty
    zsequencer.BatchSequence.get_last_index_or_default zsequencer.BatchSequence.make
    zsequencer.BatchSequence.promote zsequencer.ExtendedInt.eq zsequencer.ExtendedInt.gt
    zsequencer.ExtendedInt.lt zsequencer.ExtendedInt.max zsequencer.ExtendedInt.min
    zsequencer.ExtendedInt.sub zsequencer.ExtendedInt.to_optional_int zsequencer.Prelude.Int.◌+ℤ◌
loaded remaining = either_way (leb remaining 1)

first_in_memory : get_first_finalized_batch stored_app ≡ 2
unfolding get_first_finalized_batch get_first_index_or_default
first_in_memory = refl

served : IsServed stored_db "a" stored_app
served after remaining b below h =
    let start : after ≡ 0 = omega (arith, below, first_in_memory) in
    let h' = rw start at h in
    let same : chunk ≡ b = ok-eq-ok (sym (loaded remaining) ∙ h') in
    rw (sym same, start) (chunk-IsValid, refl, omega arith)

get_global_operational_batch_sequence_example :
    (r : Result BatchSequence) × (get_global_operational_batch_sequence stored_db "a" sequenced 9 0
      ≡ some r)
get_global_operational_batch_sequence_example =
    get_global_operational_batch_sequence-returns stored_db "a" stored_app sequenced 9 served 0
      stored_known
