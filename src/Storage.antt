-- ===== src/Storage.antt =====
-- storage/storage.h, storage/storage.cpp: the data file, the meta file and the cache.
-- The meta file is a stream of whole `ChunkMeta` records, 16 bytes each. `encoder_` is stored and
-- never called: the calls of `encode` and `decode` are commented out in the source.
pub mod Append
pub mod Contents
pub mod Writes
pub mod Faults
pub mod Coherent
pub mod Cached
pub mod Written
pub mod Based
mod Tests
use chunk_grouping.Prelude.{
  ℕ, ◌+◌, ◌*◌, ◌/◌, Bool, true, false, if◌then◌else◌, Option, none, some, ◌>>=◌, List, [], ◌∷◌,
  take, bit_and, u16, u64,
}
use chunk_grouping.Chunk.{Chunk}
use chunk_grouping.Cache.{ChunkCache, chunk_cache}
use chunk_grouping.Cache
use chunk_grouping.Stdio.{Stream, ftell, fseek_set, fseek_end, fread, fwrite}

abbrev pub base_chunk : ℕ
base_chunk = 1

abbrev pub delta_chunk : ℕ
delta_chunk = 2

abbrev pub duplicate_chunk : ℕ
duplicate_chunk = 3

pub record ChunkMeta : Type 0 where
  pub offset : ℕ
  pub base_chunk_id : ℕ
  pub size : ℕ
  pub type : ℕ

-- `sizeof(ChunkMeta)`: 8 + 4 + 2 + 1 bytes, aligned to 16
abbrev pub sizeof_chunk_meta : ℕ
sizeof_chunk_meta = 16

pub record Storage : Type 0 where
  pub cache : ChunkCache
  pub data_file : Stream ℕ
  pub meta_file : Stream ChunkMeta

-- the constructor, on the files as they are found: "w+" empties them, "r+" keeps them
unfoldable pub storage : List ℕ → List ChunkMeta → Bool → ℕ → Storage
unfolding chunk_cache
storage data_found meta_found compress_mode cache_size = record {
  cache = chunk_cache cache_size;
  data_file = fseek_end (record { items = if compress_mode then [] else data_found; pos = 0 });
  meta_file = fseek_end (record { items = if compress_mode then [] else meta_found; pos = 0 });
}

-- `Chunk::FromFileStream`. Where the file ends early the rest of the buffer is not initialised: the
-- model's buffer holds what was read.
unfoldable pub from_file_stream : Stream ℕ → ℕ → ℕ → Chunk × Stream ℕ
from_file_stream fp size id =
    let (bytes, fp') = fread fp size in
    (record { buf = bytes; needs_to_free = true; len = size; id = id }, fp')

-- `fwrite(chunk->buf(), 1, chunk->len(), data_)` and `fwrite(&meta, sizeof(ChunkMeta), 1, meta_)`
unfoldable pub write_chunk : Storage → Chunk → ChunkMeta → Storage
unfolding fwrite
write_chunk s chunk meta = record s {
  data_file = fwrite s.data_file (take chunk.len chunk.buf);
  meta_file = fwrite s.meta_file (meta ∷ []);
}

-- `WriteBaseChunk`
unfoldable pub write_base_chunk : Storage → Chunk → Storage
unfolding write_chunk
write_base_chunk s chunk = write_chunk s chunk (record {
  offset = u64 (ftell s.data_file);
  base_chunk_id = chunk.id;
  size = u16 chunk.len;
  type = base_chunk;
})

-- `WriteDeltaChunk`, with the length that it returns
unfoldable pub write_delta_chunk : Storage → Chunk → ℕ → Storage × ℕ
unfolding write_chunk
write_delta_chunk s chunk base_chunk_id = (
  write_chunk s chunk (record {
    offset = u64 (ftell s.data_file);
    base_chunk_id = base_chunk_id;
    size = u16 chunk.len;
    type = delta_chunk;
  }),
  chunk.len,
)

-- `fread(&meta, sizeof(ChunkMeta), 1, meta_)`: `none` where no record is read, and the variable
-- stays uninitialised
abbrev pub first_meta : List ChunkMeta → Option ChunkMeta
first_meta [] = none
first_meta (m ∷ _) = some m

-- the same after a seek to a byte offset
unfoldable pub read_meta : Storage → ℕ → Option ChunkMeta
read_meta s meta_offset =
    first_meta (fread (fseek_set s.meta_file (meta_offset / sizeof_chunk_meta)) 1).0

-- both streams back at their ends
unfoldable pub rewound : Storage → Storage
rewound s = record s { data_file = fseek_end s.data_file; meta_file = fseek_end s.meta_file }

-- `GetChunkContent`
unfoldable pub get_chunk_content : Storage → ℕ → Option (Chunk × Storage)
unfolding read_meta from_file_stream rewound
get_chunk_content s id = do
  meta ← read_meta s (id * sizeof_chunk_meta)
  let raw : Chunk × Stream ℕ = from_file_stream (fseek_set s.data_file meta.offset) meta.size id
  some (raw.0, rewound s)

-- `WriteDuplicateChunk`; the seek is to `base_chunk_id & sizeof(ChunkMeta)`
unfoldable pub write_duplicate_chunk : Storage → Chunk → ℕ → Option Storage
unfolding read_meta fwrite
write_duplicate_chunk s chunk base_chunk_id = do
  base_meta ← read_meta s (bit_and base_chunk_id sizeof_chunk_meta)
  let meta : ChunkMeta = record {
    offset = base_meta.offset;
    base_chunk_id = base_chunk_id;
    size = u16 chunk.len;
    type = duplicate_chunk;
  }
  some (record s { meta_file = fwrite (fseek_end s.meta_file) (meta ∷ []) })

-- `GetDeltaEncodedChunk`: the base chunk is brought into the cache, and the chunk is returned as it
-- is. `none` is a fault or a record that was not written.
unfoldable pub get_delta_encoded_chunk : Storage → Chunk → ℕ → Option (Chunk × Storage)
unfolding Cache.get Cache.add get_chunk_content
get_delta_encoded_chunk s chunk base_chunk_id = do
  found ← Cache.get s.cache base_chunk_id
  elim found.0 [
    | some _ ↦ some (chunk, record s { cache = found.1 })
    | none ↦ do
      base ← get_chunk_content (record s { cache = found.1 }) base_chunk_id
      cache ← Cache.add base.1.cache base_chunk_id base.0
      some (chunk, record base.1 { cache = cache })
  ]
