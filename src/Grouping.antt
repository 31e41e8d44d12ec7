-- ===== src/Grouping.antt =====
-- storage/storage.cpp, `dividByBase` and `groupByBase`: the delta chunks are grouped by their base
-- chunk, and each group is compressed in runs of `group_size`.
-- The compressors are parameters: of a buffer they give the compressed size. The calls get a buffer
-- of the bound that the library computes, with which they succeed.
-- A `std::map` is an association list in the order of its keys. The seeks and reads of both
-- functions leave the files as they are, and both streams at their ends.
pub mod Compress
pub mod Keys
pub mod Divide
pub mod Weight
pub mod Bases
pub mod Whole
mod Tests
use chunk_grouping.Prelude.{
  ℕ, zero, suc, ◌+◌, ◌/◌, ◌%◌, true, false, ◌==◌, ltb, if◌then◌else◌, Option, none, some, ◌>>=◌,
  List, [], ◌∷◌, ◌++◌, length, take, drop, u32, u64,
}
use chunk_grouping.Chunk.{Chunk, joined}
use chunk_grouping.Stdio.{Stream, fseek_set}
use chunk_grouping.Storage.{
  Storage, ChunkMeta, base_chunk, delta_chunk, from_file_stream, get_chunk_content, rewound,
}

-- LZ4F_compressFrame, LZ4_compress_default and ZSTD_compress at level 10
pub record Compressors : Type 0 where
  pub lz4_frame : List ℕ → ℕ
  pub lz4_block : List ℕ → ℕ
  pub zstd : List ℕ → ℕ

-- The `size_t` counters of `DeltaCompression` that are handed in by reference.
pub record Totals : Type 0 where
  pub total_size_origin : ℕ
  pub total_size_compressed : ℕ
  pub grouping_num : ℕ
  pub grouping_blocks : ℕ
  pub sequence_compressed_size : ℕ
  pub single_compressed_size : ℕ
  pub zstd_total_size_compressed : ℕ
  pub zstd_sequence_size_compressed : ℕ
  pub zstd_single_size_compressed : ℕ

abbrev pub Groups : Type 0
Groups = List (ℕ × List Chunk)

-- `grouped_chunks[key]`, with what is then done to the entry
unfoldable pub at_key : ℕ → (List Chunk → List Chunk) → Groups → Groups
at_key key f [] = (key, f []) ∷ []
at_key key f ((j, chunks) ∷ rest) =
    if key == j
    then (j, f chunks) ∷ rest
    else if ltb key j
    then (key, f []) ∷ (j, chunks) ∷ rest
    else (j, chunks) ∷ at_key key f rest

-- a record's chunk, read from the data file under the number that its offset gives
unfoldable pub read_chunk : Stream ℕ → ChunkMeta → Chunk
unfolding from_file_stream
read_chunk data_file meta =
    (from_file_stream (fseek_set data_file meta.offset) meta.size (u32 (meta.offset / 8192))).0

abbrev pub add_compressed : Totals → ℕ → ℕ → Totals
add_compressed t lz4 zstd = record t {
  total_size_compressed = u64 (t.total_size_compressed + lz4);
  zstd_total_size_compressed = u64 (t.zstd_total_size_compressed + zstd);
}

-- `GetChunkContent`, for the content alone
abbrev pub content : Storage → ℕ → Option Chunk
content s id = get_chunk_content s id >>= λ r. some r.0

-- the loop that adds up the sizes of a run; the number of its chunks is counted beside
unfoldable pub run_size : List Chunk → Totals → Totals
run_size [] t = t
run_size (chunk ∷ chunks) t =
    run_size chunks (record t { total_size_origin = u64 (t.total_size_origin + chunk.len) })

-- `grouping_num_` and `grouping_blocks_`
abbrev pub count_group : List Chunk → Totals → Totals
count_group chunks t =
    if ltb 1 (length chunks)
    then record t {
      grouping_num = u64 (t.grouping_num + 1);
      grouping_blocks = u64 (t.grouping_blocks + length chunks);
    }
    else t

module _ (k : Compressors) where
  -- one round of the loop of `dividByBase`
  unfoldable pub divid_record : Stream ℕ → ChunkMeta → Groups × Totals → Groups × Totals
  unfolding read_chunk at_key
  divid_record data_file meta (groups, t) =
      let chunk = read_chunk data_file meta in
      let groups' =
        if meta.type == base_chunk
        then at_key meta.base_chunk_id (λ chunks. chunks) groups
        else groups in
      (
        if meta.type == delta_chunk
            then at_key meta.base_chunk_id (λ chunks. chunks ++ chunk ∷ []) groups'
            else groups',
        record t {
          single_compressed_size = u64 (t.single_compressed_size + k.lz4_frame chunk.buf);
          zstd_single_size_compressed = u64 (t.zstd_single_size_compressed + k.zstd chunk.buf);
        },
      )

  -- `while (fread(&meta, …) == 1)`, from the first record on
  unfoldable pub divid_loop : Stream ℕ → List ChunkMeta → Groups × Totals → Groups × Totals
  divid_loop data_file [] acc = acc
  divid_loop data_file (meta ∷ metas) acc =
      divid_loop data_file metas (divid_record data_file meta acc)

  -- `dividByBase`
  unfoldable pub divid_by_base : Storage → Totals → Groups × Totals
  unfolding divid_loop
  divid_by_base s t = divid_loop s.data_file s.meta_file.items ([], t)

  -- The base chunk by itself.
  unfoldable pub compress_base : Storage → ℕ → Totals → Option Totals
  compress_base s base_chunk_id t = do
    base ← content s base_chunk_id
    some (add_compressed t (k.lz4_block base.buf) (k.zstd base.buf))

  -- one run: with the base chunk in front, if it has fewer than 16 chunks
  unfoldable pub compress_run : Storage → ℕ → List Chunk → Totals → Option Totals
  unfolding run_size
  compress_run s base_chunk_id run t = do
    src ←
        if ltb (length run) 16
        then (content s base_chunk_id >>= λ base. some (base.buf ++ joined run))
        else some (joined run)
    some (add_compressed (run_size run t) (k.lz4_frame src) (k.zstd src))

  -- `for (i = 0; i < delta_chunks.size(); i += group_size)` over the chunks from `i` on, on fuel
  unfoldable pub run_loop : ℕ → Storage → ℕ → ℕ → List Chunk → Totals → Option Totals
  unfolding compress_run
  run_loop fuel s group_size base_chunk_id [] t = some t
  run_loop zero s group_size base_chunk_id (c ∷ cs) t = none
  run_loop (suc fuel) s group_size base_chunk_id (c ∷ cs) t = do
    t' ← compress_run s base_chunk_id (take group_size (c ∷ cs)) t
    run_loop fuel s group_size base_chunk_id (drop group_size (c ∷ cs)) t'

  -- the body of the loop over the groups; `test_base_chunk` is read and not used
  unfoldable pub compress_group : Storage → ℕ → ℕ × List Chunk → Totals → Option Totals
  compress_group s group_size (base_chunk_id, []) t = do
    test_base_chunk ← content s base_chunk_id
    compress_base s base_chunk_id t
  compress_group s group_size (base_chunk_id, c ∷ cs) t = do
    test_base_chunk ← content s base_chunk_id
    t' ← run_loop (length (c ∷ cs)) s group_size base_chunk_id (c ∷ cs) (count_group (c ∷ cs) t)
    if length (c ∷ cs) % 16 == 0 then compress_base s base_chunk_id t' else some t'

  unfoldable pub compress_groups : Storage → ℕ → Groups → Totals → Option Totals
  compress_groups s group_size [] t = some t
  compress_groups s group_size (g ∷ groups) t = do
    t' ← compress_group s group_size g t
    compress_groups s group_size groups t'

  -- `groupByBase`: `none` where a base chunk has no record
  unfoldable pub group_by_base : Storage → ℕ → Totals → Option (Totals × Storage)
  unfolding divid_by_base compress_groups rewound
  group_by_base s group_size t = do
    let divided : Groups × Totals = divid_by_base s t
    t' ← compress_groups s group_size divided.0 divided.1
    some (t', rewound s)
