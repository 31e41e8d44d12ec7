-- ===== src/Storage/Faults.antt =====
-- Two places where the storage does not give back what was written: lengths from 2 ^ 16 on, and
-- duplicates.
use chunk_grouping.Prelude.{
  ℕ, ◌+◌, ◌*◌, ◌/◌, ◌%◌, ◌^◌, ◌<◌, ◌≡◌, refl, ap, ◌∙◌, true, some, [], ◌∷◌, length, length-append,
  take, drop, drop-append_length, get_elem?, get_elem?-append_length, bit_and, u16, arith,
}
use chunk_grouping.Prelude.Bits.{bit_and_lowest, bit_and-zero}
use chunk_grouping.Chunk.{Chunk}
use chunk_grouping.Stdio.{fseek_end, items-fwrite, fwrite-IsAtEnd, fwrite}
use chunk_grouping.Storage.{
  Storage, ChunkMeta, duplicate_chunk, base_chunk, read_meta, get_chunk_content, write_base_chunk,
  write_duplicate_chunk,
}
use chunk_grouping.Storage.Append.{IsWhole, IsOpen, write_base_chunk-Appends}
use chunk_grouping.Storage.Contents.{read_meta_lem, get_chunk_content_at}

-- The `uint16_t` size of the record is the length modulo 2 ^ 16, and only so many bytes come back.
pub get_chunk_content-write_base_chunk :
    (s : Storage) (c : Chunk)
    → IsOpen s
    → IsWhole c
    → length s.data_file.items + c.len < 2 ^ 64
    → get_chunk_content (write_base_chunk s c) (length s.meta_file.items)
      ≡ some (
        record {
          buf = take (c.len % 2 ^ 16) c.buf;
          needs_to_free = true;
          len = c.len % 2 ^ 16;
          id = length s.meta_file.items;
        },
        write_base_chunk s c,
      )
get_chunk_content-write_base_chunk s c o w room =
    let s' = write_base_chunk s c in
    let a = write_base_chunk-Appends s c o w in
    let n = length s.meta_file.items in
    let m : ChunkMeta = record {
      offset = length s.data_file.items;
      base_chunk_id = c.id;
      size = u16 c.len;
      type = base_chunk;
    } in
    let found : get_elem? s'.meta_file.items n ≡ some m =
      ap (λ ms. get_elem? ms n) a.meta_items
      ∙ get_elem?-append_length s.meta_file.items m [] n refl in
    let o' : IsOpen s' = record {
      data_end = a.data_end;
      meta_end = a.meta_end;
      small = omega (arith, ap length a.data_items, length-append s.data_file.items c.buf);
    } in
    let bytes : drop (length s.data_file.items) s'.data_file.items ≡ c.buf =
      ap (drop (length s.data_file.items)) a.data_items
      ∙ drop-append_length (length s.data_file.items) s.data_file.items c.buf refl in
    get_chunk_content_at s' n m o' found ∙ (λ j. some (
      record { buf = take (u16 c.len) (bytes j); needs_to_free = true; len = u16 c.len; id = n },
      s',
    ))

-- The byte offset `id & 16` is that of the first or of the second record, by one bit of the number.
bit_and_sixteen : (b : ℕ) → bit_and b 16 ≡ b / 16 % 2 * 16
bit_and_sixteen b = omega (
  arith,
  bit_and_lowest b 16,
  bit_and_lowest (b / 2) 8,
  bit_and_lowest (b / 2 / 2) 4,
  bit_and_lowest (b / 2 / 2 / 2) 2,
  bit_and_lowest (b / 2 / 2 / 2 / 2) 1,
  bit_and-zero (b / 2 / 2 / 2 / 2 / 2) (b / 2 / 2 / 2 / 2 / 2) (omega arith),
)

read_meta_masked :
    (s : Storage) (b : ℕ) (m : ChunkMeta)
    → get_elem? s.meta_file.items (b / 16 % 2) ≡ some m
    → read_meta s (bit_and b 16) ≡ some m
read_meta_masked s b m e = ap (read_meta s) (bit_and_sixteen b) ∙ read_meta_lem s (b / 16 % 2) m e

-- `WriteDuplicateChunk` copies the offset of record `(base_chunk_id / 16) % 2`, whichever record
-- the number names: `GetChunkContent` then gives bytes from there for the duplicate.
pub get_chunk_content-write_duplicate_chunk :
    (s : Storage) (c : Chunk) (base_chunk_id : ℕ) (m : ChunkMeta)
    → IsOpen s
    → get_elem? s.meta_file.items (base_chunk_id / 16 % 2) ≡ some m
    → (s' : Storage) × (write_duplicate_chunk s c base_chunk_id ≡ some s')
      × (get_chunk_content s' (length s.meta_file.items)
          ≡ some (
            record {
              buf = take (c.len % 2 ^ 16) (drop m.offset s.data_file.items);
              needs_to_free = true;
              len = c.len % 2 ^ 16;
              id = length s.meta_file.items;
            },
            s',
          ))
unfolding write_duplicate_chunk
get_chunk_content-write_duplicate_chunk s c base_chunk_id m o e =
    let n = length s.meta_file.items in
    let d : ChunkMeta = record {
      offset = m.offset;
      base_chunk_id = base_chunk_id;
      size = u16 c.len;
      type = duplicate_chunk;
    } in
    let s' : Storage = record s { meta_file = fwrite (fseek_end s.meta_file) (d ∷ []) } in
    let found : get_elem? s'.meta_file.items n ≡ some d =
      ap (λ ms. get_elem? ms n) (items-fwrite (fseek_end s.meta_file) (d ∷ []) refl)
      ∙ get_elem?-append_length s.meta_file.items d [] n refl in
    let o' : IsOpen s' = record {
      data_end = o.data_end;
      meta_end = fwrite-IsAtEnd (fseek_end s.meta_file) (d ∷ []) refl;
      small = o.small;
    } in
    (s', rw (read_meta_masked s base_chunk_id m e) refl, get_chunk_content_at s' n d o' found)
