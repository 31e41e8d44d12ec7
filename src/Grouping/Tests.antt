-- ===== src/Grouping/Tests.antt =====
-- A group of one delta chunk, with compressors that add a header to a buffer.
use chunk_grouping.Prelude.{
  ℕ, ◌≡◌, refl, true, some, none, inl, lookup, if◌then◌else◌, arith, List, [], ◌∷◌, length, ◌+◌,
}
use chunk_grouping.Chunk.{Chunk}
use chunk_grouping.Storage.{Storage, storage, write_base_chunk, get_chunk_content}
use chunk_grouping.Storage.{write_delta_chunk}
use chunk_grouping.Storage.Contents.{Stored}
use chunk_grouping.Storage.Writes
use chunk_grouping.Storage.Writes.{write-Stored}
use chunk_grouping.Storage.Cached.{storage-Ready}
use chunk_grouping.Storage.Based.{Based, nothing, write_base_chunk-Based, write_delta_chunk-Based}
use chunk_grouping.Grouping.Whole.{group_by_base-Grows}
use chunk_grouping.Grouping.Keys.{Ascends}
use chunk_grouping.Grouping.Divide.{any_named, deltas_of, lookup-divid_by_base}
use chunk_grouping.Grouping.{
  read_chunk, Compressors, Totals, content, compress_group, group_by_base, divid_by_base,
}
use chunk_grouping.Grouping.Compress.{Grows, compress_group-Grows}

abbrev base : Chunk
base = record { buf = 3 ∷ 1 ∷ 4 ∷ []; needs_to_free = true; len = 3; id = 0 }

abbrev delta : Chunk
delta = record { buf = 1 ∷ 5 ∷ []; needs_to_free = true; len = 2; id = 1 }

abbrev written : Storage
unfolding storage write_base_chunk
written = write_base_chunk (storage [] [] true 64) base

abbrev none_yet : Totals
none_yet = record {
  total_size_origin = 0;
  total_size_compressed = 0;
  grouping_num = 0;
  grouping_blocks = 0;
  sequence_compressed_size = 0;
  single_compressed_size = 0;
  zstd_total_size_compressed = 0;
  zstd_sequence_size_compressed = 0;
  zstd_single_size_compressed = 0;
}

-- a frame is a byte longer than a block, and a block than its bytes
abbrev sizes : Compressors
sizes = record {
  lz4_frame = λ bytes. length bytes + 2;
  lz4_block = λ bytes. length bytes + 1;
  zstd = λ bytes. length bytes + 3;
}

base-stored :
    content written 0
    ≡ some (record { buf = 3 ∷ 1 ∷ 4 ∷ []; needs_to_free = true; len = 3; id = 0 })
unfolding written get_chunk_content
base-stored = refl

-- the base chunk with the delta chunk behind it
compress_group-Grows_example :
    (t' : Totals) × (compress_group sizes written 16 (0, delta ∷ []) none_yet ≡ some t')
    × Grows 7 8 none_yet t'
compress_group-Grows_example =
    compress_group-Grows sizes written 0 base base-stored (delta ∷ []) none_yet

-- both chunks in the storage, with the records of the two writers
abbrev both : Storage
unfolding written write_delta_chunk
both = (write_delta_chunk written delta 0).0

abbrev pieces : List (List ℕ)
pieces = (3 ∷ 1 ∷ 4 ∷ []) ∷ (1 ∷ 5 ∷ []) ∷ []

written-Stored : Stored written ((3 ∷ 1 ∷ 4 ∷ []) ∷ [])
unfolding written storage
written-Stored =
    (write-Stored (storage [] [] true 64) (Writes.base base) [] refl (omega arith) (omega arith)
      (storage-Ready 64 (omega arith) (omega arith)).stored).0

both-Stored : Stored both pieces
unfolding both written storage write_base_chunk
both-Stored =
    (write-Stored written (Writes.delta delta 0) ((3 ∷ 1 ∷ 4 ∷ []) ∷ []) refl (omega arith)
      (omega arith) written-Stored).0

both-Based : Based both.meta_file.items (0 ∷ [])
unfolding both written storage write_base_chunk
both-Based =
    write_delta_chunk-Based written delta 0 (0 ∷ []) written-Stored.opened refl (inl refl) (
      write_base_chunk-Based (storage [] [] true 64) base []
        (storage-Ready 64 (omega arith) (omega arith)).stored.opened refl refl nothing)

group_by_base-Grows_example :
    (t' : Totals) × (group_by_base sizes both 16 none_yet ≡ some (t', both)) × Grows 7 8 none_yet t'
unfolding both written storage write_base_chunk write_delta_chunk read_chunk
group_by_base-Grows_example =
    group_by_base-Grows sizes both pieces (0 ∷ []) none_yet both-Stored both-Based

lookup-divid_by_base_example :
    (let groups = (divid_by_base sizes both none_yet).0 in
      Ascends 0 groups
      × (lookup 0 groups ≡ (
          if any_named 0 both.meta_file.items
          then some (deltas_of both.data_file 0 both.meta_file.items)
          else none)))
lookup-divid_by_base_example = lookup-divid_by_base sizes both none_yet 0
