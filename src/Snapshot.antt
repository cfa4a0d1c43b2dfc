-- ===== src/Snapshot.antt =====
-- The chunk files of the finalized batches (common/snapshot_manager.py). The files are parameters
-- of the state: `disk` is what a read of a file gives, and a write that was started with
-- `asyncio.create_task` is pending until it is done. A chunk's file name is its start index, padded
-- to twelve digits, so a chunk is named here by the index, and the names sort like the indices.
pub mod Store
use zsequencer.Prelude.{
  ℕ, ◌-◌, Bool, true, false, Option, none, some, List, [], ◌∷◌, ◌++◌, String, leb, ◌==◌, length,
  get_elem?, drop, if◌then◌else◌,
}
use zsequencer.Prelude.Int.{ℤ, pos, negsuc, ◌-ℤ◌}
use zsequencer.State.{sequenced}
use zsequencer.Errors.{Result, ok, err, ◌>>=◌, key_error, index_error}
use zsequencer.Dict.{Dict, lookup, insert}
use zsequencer.Bisect.{bisect}
use zsequencer.BatchSequence
use zsequencer.BatchSequence.{
  BatchSequence, is_empty, get_first_index_or_default, get_last_index_or_default,
  before_global_index_offset,
}
use zsequencer.BatchSequence.Filter.{filter}
use zsequencer.BatchSequence.Extend.{Mapping, extend, to_mapping, from_mapping}

-- What the manager keeps for one app, with the app's files.
pub record Storage : Type 0 where
  -- `_app_name_to_chunks[app_name]`
  pub chunks : List ℕ
  -- `_last_persisted_finalized_batch_index[app_name]`
  pub last_persisted_index : Option ℕ
  pub disk : ℕ → Option Mapping
  pub pending : List (ℕ × Mapping)

abbrev pub SnapshotManager : Type 0
SnapshotManager = Dict Storage

-- The entry of an app, or `KeyError`.
storage_or_raise : Option Storage → Result Storage
storage_or_raise none = err key_error
storage_or_raise (some st) = ok st

unfoldable pub storage_of : SnapshotManager → String → Result Storage
unfolding storage_or_raise
storage_of m app_name = storage_or_raise (lookup app_name m)

-- `_load_file`: a file that cannot be read gives an empty sequence.
read_mapping : Option Mapping → Result BatchSequence
read_mapping none = ok BatchSequence.empty
read_mapping (some m) = from_mapping m

unfoldable pub load_file : Storage → ℕ → Result BatchSequence
unfolding read_mapping
load_file st start_index = read_mapping (st.disk start_index)

-- `sorted`, by insertion.
insert_sorted : ℕ → List ℕ → List ℕ
insert_sorted x [] = x ∷ []
insert_sorted x (y ∷ ys) = if leb x y then x ∷ y ∷ ys else y ∷ insert_sorted x ys

unfoldable pub sort : List ℕ → List ℕ
unfolding insert_sorted
sort [] = []
sort (x ∷ xs) = insert_sorted x (sort xs)

-- `_index_files`: `files` are the start indices of the chunk files that `os.listdir` lists.
unfoldable pub index_files : Storage → List ℕ → Storage
unfolding sort
index_files st files = record st { chunks = sort files }

last_chunk : List ℕ → Option ℕ
last_chunk [] = none
last_chunk (c ∷ []) = some c
last_chunk (c ∷ d ∷ cs) = last_chunk (d ∷ cs)

set_last_index : Storage → Option ℕ → Result Storage
unfolding load_file
set_last_index st none = ok (record st { last_persisted_index = none })
set_last_index st (some c) = do
  sequence ← load_file st c
  ok (record st {
    last_persisted_index =
        some (get_last_index_or_default sequence sequenced before_global_index_offset);
  })

-- `_load_last_batch_index`
unfoldable pub load_last_batch_index : Storage → Result Storage
unfolding set_last_index last_chunk
load_last_batch_index st = set_last_index st (last_chunk st.chunks)

-- `initialize_app_storage`
unfoldable pub initialize_app_storage : Storage → List ℕ → Result Storage
unfolding index_files load_last_batch_index
initialize_app_storage st files = load_last_batch_index (index_files st files)

-- `bisect_right(indexed_chunks, batch_index) - 1`
starts_by : ℕ → Option ℕ → Bool
starts_by batch_index none = false
starts_by batch_index (some start) = leb start batch_index

unfoldable pub find_file_pos : List ℕ → ℕ → ℤ
unfolding starts_by
find_file_pos chunks batch_index =
    pos (bisect (λ i. starts_by batch_index (get_elem? chunks i)) (length chunks)) -ℤ pos 1

-- `merged.size_kb >= limit`, where no limit is infinite.
reaches : Option ℕ → ℕ → Bool
reaches none size = false
reaches (some limit) size = leb limit size

-- The loop of `load_batches` over the chunks that are left.
unfoldable pub load_chunks : Storage → ℕ → Option ℕ → List ℕ → BatchSequence → Result BatchSequence
unfolding reaches
load_chunks st after limit [] merged = ok merged
load_chunks st after limit (c ∷ cs) merged = load_file st c >>= λ sequence.
    extend merged (filter sequence sequenced none (some (pos after)) none) >>= λ merged'.
    elim (reaches limit merged'.size) [
      | true ↦ ok merged'
      | false ↦ load_chunks st after limit cs merged'
    ]

from_position : Storage → ℕ → Option ℕ → ℤ → Result BatchSequence
from_position st after limit (negsuc k) = ok BatchSequence.empty
from_position st after limit (pos k) =
    load_chunks st after limit (drop k st.chunks) BatchSequence.empty

unfoldable pub load_batches : SnapshotManager → String → ℕ → Option ℕ → Result BatchSequence
unfolding from_position
load_batches m app_name after limit = do
  st ← storage_of m app_name
  let first : ℕ = if after == 0 then 1 else after
  from_position st after limit (find_file_pos st.chunks first)

-- A chunk is listed at once, and its file is written later.
unfoldable pub store_in : Storage → BatchSequence → Storage
store_in st batches =
    let start = get_first_index_or_default batches sequenced before_global_index_offset in
    if is_empty batches.batches then st else record st {
      chunks = st.chunks ++ start ∷ [];
      last_persisted_index =
          some (get_last_index_or_default batches sequenced before_global_index_offset);
      pending = st.pending ++ (start, to_mapping batches) ∷ [];
    }

unfoldable pub store_batch_sequence :
    SnapshotManager → String → BatchSequence → Result SnapshotManager
store_batch_sequence m app_name batches = do
  st ← storage_of m app_name
  ok (insert app_name (store_in st batches) m)

write_file : (ℕ → Option Mapping) → ℕ → Mapping → ℕ → Option Mapping
write_file disk start_index m i = if start_index == i then some m else disk i

write_files : List (ℕ × Mapping) → (ℕ → Option Mapping) → ℕ → Option Mapping
unfolding write_file
write_files [] disk = disk
write_files ((start, m) ∷ rest) disk = write_files rest (write_file disk start m)

-- The pending writes are done.
unfoldable pub finish_writes : Storage → Storage
unfolding write_files
finish_writes st = record st { disk = write_files st.pending st.disk; pending = [] }

-- `indexed_chunks[i]`, or `IndexError`.
chunk_or_raise : Option ℕ → Result ℕ
chunk_or_raise none = err index_error
chunk_or_raise (some start) = ok start

-- `indexed_chunks[-count]` is the first chunk for a count of 0.
latest_start : List ℕ → ℕ → Result ℕ
unfolding chunk_or_raise
latest_start chunks count =
    if leb count (length chunks)
    then chunk_or_raise (get_elem? chunks (if count == 0 then 0 else length chunks - count))
    else ok before_global_index_offset

unfoldable pub get_latest_chunks_start_index : SnapshotManager → String → ℕ → Result ℕ
unfolding latest_start
get_latest_chunks_start_index m app_name latest_chunks_count = do
  st ← storage_of m app_name
  latest_start st.chunks latest_chunks_count

unfoldable pub load_latest_chunks : SnapshotManager → String → ℕ → Result BatchSequence
load_latest_chunks m app_name latest_chunks_count = do
  start ← get_latest_chunks_start_index m app_name latest_chunks_count
  load_batches m app_name start none
