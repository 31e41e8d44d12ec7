-- ===== src/Storage/Writes.antt =====
-- Any sequence of `WriteBaseChunk` and `WriteDeltaChunk` calls, against a list of byte strings.
use chunk_grouping.Prelude.{
  ℕ, ◌+◌, ◌<◌, ◌^◌, ◌≡◌, ap, true, some, List, [], ◌∷◌, ◌++◌, append-nil, append_assoc, length,
  length-append, get_elem?, arith,
}
use chunk_grouping.Chunk.{Chunk}
use chunk_grouping.Storage.{
  Storage, get_chunk_content, write_base_chunk, write_delta_chunk, base_chunk, delta_chunk,
}
use chunk_grouping.Storage.Append.{IsWhole, write_base_chunk-Appends, write_delta_chunk-Appends}
use chunk_grouping.Storage.Contents.{Stored, Appends-Stored, get_chunk_content-Stored}

pub data Write : Type 0 where
  base : Chunk → Write
  delta : Chunk → (base_chunk_id : ℕ) → Write

abbrev pub chunk_of : Write → Chunk
chunk_of (base c) = c
chunk_of (delta c b) = c

abbrev pub write : Storage → Write → Storage
write s (base c) = write_base_chunk s c
write s (delta c b) = (write_delta_chunk s c b).0

abbrev pub write_all : Storage → List Write → Storage
write_all s [] = s
write_all s (w ∷ ws) = write_all (write s w) ws

abbrev pub contents_of : List Write → List (List ℕ)
contents_of [] = []
contents_of (w ∷ ws) = (chunk_of w).buf ∷ contents_of ws

-- Every chunk is whole and shorter than 2 ^ 16, and behind `used` bytes all of them stay below
-- 2 ^ 64.
abbrev pub Fit : ℕ → List Write → Type 0
Fit used [] = Unit {0}
Fit used (w ∷ ws) =
    let c = chunk_of w in
    IsWhole c × (c.len < 2 ^ 16) × (used + c.len < 2 ^ 64) × Fit (used + c.len) ws

pub write-Stored :
    (s : Storage) (w : Write) (contents : List (List ℕ))
    → IsWhole (chunk_of w)
    → (chunk_of w).len < 2 ^ 16
    → length s.data_file.items + (chunk_of w).len < 2 ^ 64
    → Stored s contents
    → Stored (write s w) (contents ++ (chunk_of w).buf ∷ [])
      × (length (write s w).data_file.items ≡ length s.data_file.items + (chunk_of w).len)
write-Stored s (base c) contents whole short room st =
    let a = write_base_chunk-Appends s c st.opened whole in
    (
      Appends-Stored s _ c c.id base_chunk contents a whole short room st,
      omega (arith, ap length a.data_items, length-append s.data_file.items c.buf),
    )
write-Stored s (delta c b) contents whole short room st =
    let a = write_delta_chunk-Appends s c b st.opened whole in
    (
      Appends-Stored s _ c b delta_chunk contents a whole short room st,
      omega (arith, ap length a.data_items, length-append s.data_file.items c.buf),
    )

-- A storage that holds `contents` holds, after any sequence of base and delta writes that fit, the
-- written chunks behind them.
pub write_all-Stored :
    (ws : List Write) (s : Storage) (contents : List (List ℕ))
    → Fit (length s.data_file.items) ws
    → Stored s contents
    → Stored (write_all s ws) (contents ++ contents_of ws)
write_all-Stored [] s contents fit st = rw append-nil st
write_all-Stored (w ∷ ws) s contents fit st =
    let (st', size) = write-Stored s w contents fit.0 fit.1 fit.2 st in
    let all =
      write_all-Stored ws (write s w) (contents ++ (chunk_of w).buf ∷ []) (rw size fit.3) st' in
    rw append_assoc at all

-- After any sequence of base and delta writes that fit, `GetChunkContent` gives the bytes of any
-- record, those from before and those written now, and leaves the storage as it is.
pub get_chunk_content-write_all :
    (ws : List Write) (s : Storage) (contents : List (List ℕ)) (i : ℕ) (bytes : List ℕ)
    → Fit (length s.data_file.items) ws
    → Stored s contents
    → get_elem? (contents ++ contents_of ws) i ≡ some bytes
    → get_chunk_content (write_all s ws) i
      ≡ some
          (record { buf = bytes; needs_to_free = true; len = length bytes; id = i }, write_all s ws)
get_chunk_content-write_all ws s contents i bytes fit st e =
    get_chunk_content-Stored (write_all s ws) (contents ++ contents_of ws) i bytes
      (write_all-Stored ws s contents fit st) e
