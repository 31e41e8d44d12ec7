-- ===== src/Encoder.antt =====
-- encoder/encoder.h, encoder/xdelta.h: `XDelta`, the encoder of a chunk against a base chunk. The two
-- functions of xdelta3 are parameters. A chunk that is returned is a reference into the buffer of the
-- encoder, so its bytes are those that the buffer has when they are read. `none` is the end of the
-- process by `LOG(FATAL)`.
pub mod Lossless
mod Tests
use chunk_grouping.Prelude.{
  ℕ, ◌+◌, ◌==◌, ◌≤◌, ◌≡◌, if◌then◌else◌, Option, none, some, ◌>>=◌, List, [], ◌∷◌, ◌++◌, length,
  take, drop, replicate,
}
use chunk_grouping.Chunk.{Chunk, from_memory_ref}

-- What `xd3_encode_memory` and `xd3_decode_memory` give for two buffers and the room for the output:
-- a result code, and the bytes that they write.
pub record Xd3 : Type 0 where
  pub encode_memory : (input source : List ℕ) → (avail_size : ℕ) → ℕ × List ℕ
  pub decode_memory : (input source : List ℕ) → (avail_size : ℕ) → ℕ × List ℕ

-- the size of `chunk_buffer_`
abbrev pub buffer_size : ℕ
buffer_size = 32768

pub record XDelta : Type 0 where
  pub chunk_buffer : List ℕ

-- a chunk of the first `len` bytes of the buffer
pub record BufferRef : Type 0 where
  pub len : ℕ
  pub id : ℕ

-- `buf()` and `len()` of a chunk
abbrev pub bytes_of : Chunk → List ℕ
bytes_of c = take c.len c.buf

-- what is written to the buffer
abbrev pub overwrite : XDelta → List ℕ → XDelta
overwrite x out = record x { chunk_buffer = out ++ drop (length out) x.chunk_buffer }

-- the chunk behind a reference, as the buffer is now
unfoldable pub deref : XDelta → BufferRef → Chunk
unfolding from_memory_ref
deref x r = from_memory_ref x.chunk_buffer r.len r.id

module _ (xd3 : Xd3) where
  -- `encode`
  unfoldable pub encode : XDelta → (base_chunk new_chunk : Chunk) → Option (XDelta × BufferRef)
  encode x base_chunk new_chunk =
      let (result, out) =
        xd3.encode_memory (bytes_of new_chunk) (bytes_of base_chunk) buffer_size in
      if result == 0
      then some (overwrite x out, record { len = length out; id = new_chunk.id })
      else none

  -- `decode` of a delta that is not in the buffer itself
  unfoldable pub decode : XDelta → (base delta : Chunk) → Option (XDelta × BufferRef)
  decode x base delta =
      let (result, out) = xd3.decode_memory (bytes_of delta) (bytes_of base) buffer_size in
      if result == 0
      then some (overwrite x out, record { len = length out; id = delta.id })
      else none
