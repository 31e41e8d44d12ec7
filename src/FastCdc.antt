-- ===== src/FastCdc.antt =====
-- chunk/fast_cdc.h, chunk/fast_cdc.cpp, chunk/chunker.h and the part of utils/mapped_file.h that
-- they use. A mapped file is the list of its bytes; `file_read_ptr` is the list of the mapped bytes
-- from the pointer on, so that a read past the mapping is a fault, `none`.
-- The sizes are those of the configuration, read as numbers that are not negative.
pub mod Loops
pub mod Step
pub mod File
mod Tests
use chunk_grouping.Prelude.{
  ℕ, zero, suc, ◌+◌, ◌-◌, ◌≤◌, ◌≡◌, Bool, true, false, ◌==◌, leb, if◌then◌else◌, Option, none, some,
  ◌>>=◌, List, [], ◌∷◌, length, min, bit_and, u32, sub64,
}
use chunk_grouping.Chunk.{Chunk, from_memory_ref}
use chunk_grouping.Gear.{gear_step}

-- What `mapped_file(file_name)` holds: nothing, if `open` or `mmap` fails. (A mapping of length 0
-- is refused by `mmap`, and `map_success` is `mapped_len != 0`.)
pub record MappedFile : Type 0 where
  pub mapped : List ℕ

-- The file system, as `open` and `mmap` show it: `none` for a file that cannot be opened.
abbrev pub FileSystem {ℓ} : Type ℓ → Type ℓ
FileSystem Name = Name → Option (List ℕ)

unfoldable pub map_file {ℓ} : {Name : Type ℓ} → FileSystem Name → Name → MappedFile
map_file files name = elim (files name) [
  | none ↦ record { mapped = [] }
  | some bytes ↦ record { mapped = bytes }
]

pub record FastCdc : Type 0 where
  pub min_chunk_size : ℕ
  pub max_chunk_size : ℕ
  pub mask : ℕ
  pub next_chunk_id : ℕ
  pub file : MappedFile
  pub file_read_ptr : List ℕ
  pub remaining_file_len : ℕ

-- the constructor
unfoldable pub fast_cdc : ℕ → ℕ → ℕ → FastCdc
fast_cdc min_ck_sz max_ck_sz stop_mask = record {
  min_chunk_size = min_ck_sz;
  max_chunk_size = max_ck_sz;
  mask = stop_mask;
  next_chunk_id = 0;
  file = record { mapped = [] };
  file_read_ptr = [];
  remaining_file_len = 0;
}

-- `ReinitWithFile`; chunk numbers go on from file to file.
unfoldable pub reinit_with_file {ℓ} :
    {Name : Type ℓ} → FileSystem Name → FastCdc → Name → FastCdc × Bool
unfolding map_file
reinit_with_file files c name =
    let f = map_file files name in
    if length f.mapped == 0 then (record c { file = f }, false) else (
      record c { file = f; file_read_ptr = f.mapped; remaining_file_len = length f.mapped },
      true,
    )

-- The first `for`: it runs `rounds` times, one for each `chunk_size` up to `min_chunk_size`.
unfoldable pub min_loop : ℕ → ℕ → List ℕ → Option (ℕ × List ℕ)
min_loop zero finger_print p = some (finger_print, p)
min_loop (suc rounds) finger_print [] = none
min_loop (suc rounds) finger_print (byte ∷ p) = min_loop rounds (gear_step finger_print byte) p

-- The second `for`, with the rounds that its bound leaves: whether it found a cut, the last
-- `chunk_size`, and the read pointer.
unfoldable pub cut_loop : ℕ → ℕ → ℕ → ℕ → List ℕ → Option (Bool × ℕ × List ℕ)
cut_loop mask zero finger_print chunk_size p = some (false, chunk_size, p)
cut_loop mask (suc rounds) finger_print chunk_size [] = none
cut_loop mask (suc rounds) finger_print chunk_size (byte ∷ p) =
    let finger_print' = gear_step finger_print byte in
    let rest = cut_loop mask rounds finger_print' (chunk_size + 1) p in
    if bit_and finger_print' mask == 0 then some (true, chunk_size, p) else rest

-- `remaining_file_len -= chunk_size; return Chunk::FromMemoryRef(read_start, …)`
unfoldable pub emit : FastCdc → List ℕ → ℕ → List ℕ → FastCdc × Option Chunk
unfolding from_memory_ref
emit c read_start chunk_size p = (
  record c {
    next_chunk_id = u32 (c.next_chunk_id + 1);
    file_read_ptr = p;
    remaining_file_len = sub64 c.remaining_file_len chunk_size;
  },
  some (from_memory_ref read_start chunk_size c.next_chunk_id),
)

-- the size of the chunk: `chunk_size` at a cut, one less behind the loop
abbrev pub cut_size : Bool × ℕ × List ℕ → ℕ
cut_size (true, chunk_size, p) = chunk_size
cut_size (false, chunk_size, p) = chunk_size - 1

-- `GetNextChunk`: `none` for a read past the mapping; `(c, none)` for `nullptr`.
unfoldable pub get_next_chunk : FastCdc → Option (FastCdc × Option Chunk)
unfolding emit from_memory_ref
get_next_chunk c =
    if c.remaining_file_len == 0
    then some (c, none)
    else if leb c.remaining_file_len c.min_chunk_size
    then some (
      record c { next_chunk_id = u32 (c.next_chunk_id + 1); remaining_file_len = 0 },
      some (from_memory_ref c.file_read_ptr c.remaining_file_len c.next_chunk_id),
    )
    else (min_loop c.min_chunk_size 0 c.file_read_ptr >>= λ first.
        cut_loop c.mask (min c.remaining_file_len c.max_chunk_size - c.min_chunk_size) first.0
          (c.min_chunk_size + 1) first.1
        >>= λ last. some (emit c c.file_read_ptr (cut_size last) last.2))

-- `while ((chunk = GetNextChunk()) != nullptr)`, with fuel: `none` for a fault or no fuel left.
unfoldable pub all_chunks : ℕ → FastCdc → Option (FastCdc × List Chunk)
all_chunks zero c = none
all_chunks (suc fuel) c = elim (get_next_chunk c) [
  | none ↦ none
  | some (c', none) ↦ some (c', [])
  | some (c', some chunk) ↦ (all_chunks fuel c' >>= λ rest. some (rest.0, chunk ∷ rest.1))
]
