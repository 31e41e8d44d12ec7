-- ===== src/Compression/Tests.antt =====
-- Two chunks through Palantir into an empty storage.
use chunk_grouping.Prelude.{
  ℕ, zero, suc, ◌==◌, ◌^◌, ◌-◌, refl, Option, none, some, true, List, [], ◌∷◌, length, ◌+◌, arith,
}
use chunk_grouping.Chunk.{Chunk}
use chunk_grouping.FastCdc.{FastCdc, FileSystem, fast_cdc}
use chunk_grouping.Index.{SuperFeatureIndex, palantir_index, super_feature_index}
use chunk_grouping.Storage.{Storage, storage, write_base_chunk}
use chunk_grouping.Storage.Writes.{base}
use chunk_grouping.Storage.Cached.{Ready, Fetched, get_delta_encoded_chunk-Ready, storage-Ready}
use chunk_grouping.Storage.Written.{write-Ready}
use chunk_grouping.Compression.{
  Chunker, FeatureIndex, FileMeta, DeltaCompression, palantir, bestfit,
}
use chunk_grouping.Compression.Laws.{Indexed, Swept}
use chunk_grouping.Compression.Loop.{add_chunks-Ready}
use chunk_grouping.Storage.Based.{nothing}
use chunk_grouping.Grouping.{Compressors}
use chunk_grouping.Grouping.Compress.{Grows}
use chunk_grouping.Grouping.Whole.{storage_cost}
use chunk_grouping.Index.BestAnswer.{IsOrder}
use chunk_grouping.Compression.BestFit.{MapsOf, bestfit-Indexed}
use chunk_grouping.Compression.Whole.{Added, add_file-Grows}
use chunk_grouping.Compression.Palantir.{LevelsOf, palantir_index-LevelsOf, palantir-Indexed}

abbrev first : Chunk
first = record { buf = 3 ∷ 1 ∷ 4 ∷ []; needs_to_free = true; len = 3; id = 0 }

abbrev second : Chunk
second = record { buf = 1 ∷ 5 ∷ []; needs_to_free = true; len = 2; id = 1 }

abbrev fresh : Storage
unfolding storage
fresh = storage [] [] true 64

fresh-Ready : Ready fresh [] []
unfolding fresh
fresh-Ready = storage-Ready 64 (omega arith) (omega arith)

abbrev held : Storage
unfolding fresh write_base_chunk
held = write_base_chunk fresh first

held-Ready : Ready held ((3 ∷ 1 ∷ 4 ∷ []) ∷ []) []
unfolding held
held-Ready = (write-Ready fresh (base first) [] [] refl (omega arith) (omega arith) fresh-Ready).0

get_delta_encoded_chunk-Ready_example :
    Fetched held ((3 ∷ 1 ∷ 4 ∷ []) ∷ []) [] second 0 (3 ∷ 1 ∷ 4 ∷ [])
get_delta_encoded_chunk-Ready_example =
    get_delta_encoded_chunk-Ready held ((3 ∷ 1 ∷ 4 ∷ []) ∷ []) [] second 0 (3 ∷ 1 ∷ 4 ∷ [])
      held-Ready refl

-- numbers in place of the floating-point features
abbrev features : FeatureIndex ℕ (List (SuperFeatureIndex ℕ))
features = palantir ◌==◌ ◌==◌ length

palantir-Indexed_example : Indexed (palantir {Float = ℕ} ◌==◌ ◌==◌ length) LevelsOf
palantir-Indexed_example = palantir-Indexed ◌==◌ ◌==◌ length

features-Indexed : Indexed features LevelsOf
features-Indexed = palantir-Indexed ◌==◌ ◌==◌ length

abbrev bytes : List ℕ
bytes = 3 ∷ 1 ∷ 4 ∷ 1 ∷ 5 ∷ 9 ∷ 2 ∷ []

abbrev files : FileSystem ℕ
files zero = some bytes
files (suc _) = none

abbrev meta : FileMeta ℕ
meta = record { file_name = 0; start_chunk_id = 2 ^ 32 - 1; end_chunk_id = none }

abbrev idle : DeltaCompression ℕ FastCdc (List (SuperFeatureIndex ℕ))
unfolding fast_cdc palantir_index super_feature_index fresh
idle = record {
  chunker = fast_cdc 2 4 1;
  index = palantir_index {Float = ℕ} ◌==◌ ◌==◌;
  storage = fresh;
  file_metas = [];
  base_chunk_count = 0;
  delta_chunk_count = 0;
  chunk_size_before_delta = 0;
  chunk_size_after_delta = 0;
  totals = record {
    total_size_origin = 0;
    total_size_compressed = 0;
    grouping_num = 0;
    grouping_blocks = 0;
    sequence_compressed_size = 0;
    single_compressed_size = 0;
    zstd_total_size_compressed = 0;
    zstd_sequence_size_compressed = 0;
    zstd_single_size_compressed = 0;
  };
}

-- a chunker that gives the chunks of a list
abbrev listed : Chunker ℕ (List Chunk)
listed = record { reinit_with_file = λ cs _. (cs, true); get_next_chunk = λ cs. next cs }
  where
    next : List Chunk → Option (List Chunk × Option Chunk)
    next [] = some ([], none)
    next (c ∷ cs) = some (cs, some c)

abbrev queued : DeltaCompression ℕ (List Chunk) (List (SuperFeatureIndex ℕ))
unfolding palantir_index super_feature_index fresh
queued = record {
  chunker = first ∷ second ∷ [];
  index = palantir_index {Float = ℕ} ◌==◌ ◌==◌;
  storage = fresh;
  file_metas = [];
  base_chunk_count = 0;
  delta_chunk_count = 0;
  chunk_size_before_delta = 0;
  chunk_size_after_delta = 0;
  totals = idle.totals;
}

add_chunks-Ready_example : Swept features LevelsOf 3 listed queued meta [] (first ∷ second ∷ []) []
unfolding queued fresh
add_chunks-Ready_example =
    add_chunks-Ready features LevelsOf features-Indexed 3 listed queued meta [] []
      (first ∷ second ∷ []) [] [] (omega arith) (second ∷ [], refl, ([], refl, refl))
      (refl, refl, omega arith, omega arith, (refl, refl, omega arith, omega arith, tt)) fresh-Ready
      nothing (palantir_index-LevelsOf ◌==◌ ◌==◌)

-- a frame is a byte longer than a block, and a block than its bytes
abbrev sizes : Compressors
sizes = record {
  lz4_frame = λ bytes. length bytes + 2;
  lz4_block = λ bytes. length bytes + 1;
  zstd = λ bytes. length bytes + 3;
}

add_file-Grows_example :
    (a : Added features LevelsOf 3 listed queued 0 sizes [] (first ∷ second ∷ []) []) × Grows
      (storage_cost sizes.lz4_frame sizes.lz4_block a.next.storage
        ((3 ∷ 1 ∷ 4 ∷ []) ∷ (1 ∷ 5 ∷ []) ∷ []))
      (storage_cost sizes.zstd sizes.zstd a.next.storage ((3 ∷ 1 ∷ 4 ∷ []) ∷ (1 ∷ 5 ∷ []) ∷ []))
      queued.totals
      a.next.totals
unfolding queued fresh
add_file-Grows_example =
    add_file-Grows features LevelsOf 3 listed queued 0 [] [] (first ∷ second ∷ []) [] []
      features-Indexed (omega arith) (second ∷ [], refl, ([], refl, refl))
      (refl, refl, omega arith, omega arith, (refl, refl, omega arith, omega arith, tt)) fresh-Ready
      nothing (palantir_index-LevelsOf ◌==◌ ◌==◌) sizes

as_it_is-IsOrder : IsOrder (λ counts. counts)
as_it_is-IsOrder counts id n = ((λ e. e), (λ e. e))

bestfit-Indexed_example : Indexed (bestfit {Float = ℕ} ◌==◌ ◌==◌ length (λ counts. counts)) MapsOf
bestfit-Indexed_example = bestfit-Indexed ◌==◌ ◌==◌ length (λ counts. counts) as_it_is-IsOrder
