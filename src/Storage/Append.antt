-- ===== src/Storage/Append.antt =====
-- The writes append: to the data file the bytes of the chunk, to the meta file one record.
use chunk_grouping.Prelude.{
  ℕ, ◌<◌, ◌^◌, ◌≡◌, ap, ◌∙◌, [], ◌∷◌, ◌++◌, length, take, take_all, u16, u64, arith,
}
use chunk_grouping.Chunk.{Chunk}
use chunk_grouping.Stdio.{IsAtEnd, items-fwrite, fwrite-IsAtEnd}
use chunk_grouping.Storage.{
  Storage, ChunkMeta, base_chunk, delta_chunk, write_chunk, write_base_chunk, write_delta_chunk,
}

-- A chunk whose length is that of its buffer.
abbrev pub IsWhole : Chunk → Type 0
IsWhole c = c.len ≡ length c.buf

-- The streams stand at their ends, where every operation leaves them.
pub record IsOpen (s : Storage) : Type 0 where
  pub data_end : IsAtEnd s.data_file
  pub meta_end : IsAtEnd s.meta_file
  pub small : length s.data_file.items < 2 ^ 64

-- What `s'` has over `s`: the bytes of a chunk and a record that says where they are.
pub record Appends (s s' : Storage) (c : Chunk) (base_chunk_id type : ℕ) : Type 0 where
  pub data_items : s'.data_file.items ≡ s.data_file.items ++ c.buf
  pub meta_items :
      s'.meta_file.items
      ≡ s.meta_file.items
        ++ record {
          offset = length s.data_file.items;
          base_chunk_id = base_chunk_id;
          size = u16 c.len;
          type = type;
        }
          ∷ []
  pub data_end : IsAtEnd s'.data_file
  pub meta_end : IsAtEnd s'.meta_file

-- a chunk written with the record that the two writers make
abbrev recorded : Storage → Chunk → ℕ → ℕ → ChunkMeta
recorded s c base_chunk_id type = record {
  offset = u64 s.data_file.pos;
  base_chunk_id = base_chunk_id;
  size = u16 c.len;
  type = type;
}

write_chunk-Appends :
    (s : Storage) (c : Chunk) (base_chunk_id type : ℕ)
    → IsOpen s
    → IsWhole c
    → Appends s (write_chunk s c (recorded s c base_chunk_id type)) c base_chunk_id type
unfolding write_chunk
write_chunk-Appends s c base_chunk_id type o w =
    let bytes : take c.len c.buf ≡ c.buf = take_all c.len c.buf (omega arith) in
    let offset : u64 s.data_file.pos ≡ length s.data_file.items =
      omega (arith, o.data_end, o.small) in
    record {
      data_items =
          items-fwrite s.data_file (take c.len c.buf) o.data_end
          ∙ ap (◌++◌ s.data_file.items) bytes;
      meta_items =
          items-fwrite s.meta_file (recorded s c base_chunk_id type ∷ []) o.meta_end
          ∙ ap
              (λ n.
                s.meta_file.items
                ++ record {
                  offset = n;
                  base_chunk_id = base_chunk_id;
                  size = u16 c.len;
                  type = type;
                }
                  ∷ [])
              offset;
      data_end = fwrite-IsAtEnd s.data_file (take c.len c.buf) o.data_end;
      meta_end = fwrite-IsAtEnd s.meta_file (recorded s c base_chunk_id type ∷ []) o.meta_end;
    }

-- `WriteBaseChunk` appends the bytes of the chunk, and one record with its place, its length modulo
-- 2 ^ 16 and its own number as that of its base.
pub write_base_chunk-Appends :
    (s : Storage) (c : Chunk)
    → IsOpen s
    → IsWhole c
    → Appends s (write_base_chunk s c) c c.id base_chunk
unfolding write_base_chunk
write_base_chunk-Appends s c o w = write_chunk-Appends s c c.id base_chunk o w

-- `WriteDeltaChunk` does so with the number of the base chunk, and returns the length.
pub write_delta_chunk-Appends :
    (s : Storage) (c : Chunk) (base_chunk_id : ℕ)
    → IsOpen s
    → IsWhole c
    → Appends s (write_delta_chunk s c base_chunk_id).0 c base_chunk_id delta_chunk
unfolding write_delta_chunk
write_delta_chunk-Appends s c base_chunk_id o w =
    write_chunk-Appends s c base_chunk_id delta_chunk o w
