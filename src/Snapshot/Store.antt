-- ===== src/Snapshot/Store.antt =====
-- A stored chunk, before and after the write of its file is done.
use zsequencer.Prelude.{
  ℕ, ◌≡◌, refl, sym, true, false, Option, none, some, List, [], ◌∷◌, ◌++◌, arith,
}
use mathlib.Core.List.{Memᴰ}
use mathlib.Core.List.Memᴰ.{head, tail}
use zsequencer.State.{sequenced}
use zsequencer.Errors.{ok, ok-eq-ok}
use zsequencer.BatchSequence
use zsequencer.BatchSequence.{
  BatchSequence, is_empty, get_first_index_or_default, before_global_index_offset,
}
use zsequencer.BatchSequence.Validity.{IsValid}
use zsequencer.BatchSequence.Extend.{Mapping, to_mapping}
use zsequencer.BatchSequence.Extend.RoundTrip.{from_mapping-to_mapping}
use zsequencer.Snapshot.{
  Storage, store_in, finish_writes, write_files, write_file, load_file, read_mapping,
}

-- The chunk of a sequence: its first index.
abbrev pub chunk_of : BatchSequence → ℕ
chunk_of s = get_first_index_or_default s sequenced before_global_index_offset

-- The last write of a file is what a read of it gives.
write_files-last :
    (pending : List (ℕ × Mapping)) (disk : ℕ → Option Mapping) (start : ℕ) (m : Mapping)
    → write_files (pending ++ (start, m) ∷ []) disk start ≡ some m
unfolding write_files write_file
write_files-last [] disk start m = ground arith
write_files-last ((i, n) ∷ pending) disk start m =
    write_files-last pending (write_file disk i n) start m

-- Once the pending writes are done, the file of a stored chunk that has batches gives the
-- stored sequence, if that is valid.
pub load_file-store_in :
    (st : Storage) (s : BatchSequence)
    → is_empty s.batches ≡ false
    → IsValid s
    → load_file (finish_writes (store_in st s)) (chunk_of s) ≡ ok s
unfolding load_file finish_writes store_in read_mapping
load_file-store_in st s nonempty v = rw nonempty (
    rw (write_files-last st.pending st.disk (chunk_of s) (to_mapping s))
      (from_mapping-to_mapping s v.sized))

mem_last : (i : ℕ) (is : List ℕ) → Memᴰ i (is ++ i ∷ [])
mem_last i [] = head refl
mem_last i (j ∷ is) = tail (mem_last i is)

-- Until its write is done, a chunk that has batches and no file yet is listed when it is
-- stored, but reads as an empty sequence and not as the one that was stored.
pub load_file-pending :
    (st : Storage) (s : BatchSequence)
    → is_empty s.batches ≡ false
    → st.disk (chunk_of s) ≡ none
    → Memᴰ (chunk_of s) (store_in st s).chunks
      × (load_file (store_in st s) (chunk_of s) ≡ ok BatchSequence.empty)
      × ¬ (load_file (store_in st s) (chunk_of s) ≡ ok s)
unfolding load_file store_in read_mapping BatchSequence.empty
load_file-pending st s nonempty h =
    rw (nonempty, h)
      (
        mem_last (chunk_of s) st.chunks,
        refl,
        λ e.
            let same : BatchSequence.empty ≡ s = ok-eq-ok e in
            let k : true ≡ false = rw (sym same) at nonempty in absurd cc,
      )
