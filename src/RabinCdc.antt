-- ===== src/RabinCdc.antt =====
-- chunk/rabin_cdc.h, chunk/rabin_cdc.cpp: cut points where a Rabin fingerprint of the last 48 bytes
-- passes a mask. The members `deg`, `mod`, `append_byte` and the table loops of the constructor are
-- those of `Rabin`, with the same polynomial. Files and pointers are as in `FastCdc`.
pub mod Loop
pub mod Step
pub mod Tail
pub mod File
mod Tests
use chunk_grouping.Prelude.{
  ℕ, zero, suc, ◌+◌, ◌*◌, ◌/◌, ◌%◌, ◌^◌, Bool, true, false, ◌==◌, leb, ◌&&◌, ◌||◌, if◌then◌else◌,
  Option, none, some, ◌>>=◌, List, [], ◌∷◌, length, get_or, set, replicate, bit_and, bit_or,
  bit_xor, u8, u32, u64, sub64,
}
use chunk_grouping.Chunk.{Chunk, from_memory_ref}
use chunk_grouping.FastCdc.{MappedFile, FileSystem, map_file}
use chunk_grouping.Rabin.{winsize, polynomial_shift, out_table, mod_table}

-- the rolling state of `RabinCDC`
pub record Roll : Type 0 where
  pub window : List ℕ
  pub wpos : ℕ
  pub digest : ℕ

pub record RabinCdc : Type 0 where
  pub roll : Roll
  pub next_chunk_id : ℕ
  pub file : MappedFile
  pub file_read_ptr : List ℕ
  pub remaining_file_len : ℕ
  pub min_chunk_size : ℕ
  pub max_chunk_size : ℕ
  pub rabin_stop_mask : ℕ

unfoldable pub rabin_append : Roll → ℕ → Roll
rabin_append r b =
    let index = u8 (r.digest / 2 ^ polynomial_shift) in
    record r { digest = bit_xor (bit_or (u64 (r.digest * 2 ^ 8)) b) (mod_table index) }

unfoldable pub rabin_slide : Roll → ℕ → Roll
unfolding rabin_append
rabin_slide r b =
    let out = get_or r.window r.wpos 0 in
    rabin_append
      (record {
        window = set r.window r.wpos b;
        wpos = (r.wpos + 1) % winsize;
        digest = bit_xor r.digest (out_table out);
      })
      b

-- `rabin_reset` overwrites every field of the rolling state.
unfoldable pub rabin_reset : Roll
unfolding rabin_slide
rabin_reset = rabin_slide (record { window = replicate winsize 0; wpos = 0; digest = 0 }) 1

-- the constructor; `window`, `wpos` and `digest` are first set by `ReinitWithFile`
unfoldable pub rabin_cdc : ℕ → ℕ → ℕ → RabinCdc
rabin_cdc min_ck_sz max_ck_sz mask = record {
  roll = rabin_reset;
  next_chunk_id = 0;
  file = record { mapped = [] };
  file_read_ptr = [];
  remaining_file_len = 0;
  min_chunk_size = min_ck_sz;
  max_chunk_size = max_ck_sz;
  rabin_stop_mask = mask;
}

-- `ReinitWithFile`
unfoldable pub reinit_with_file {ℓ} :
    {Name : Type ℓ} → FileSystem Name → RabinCdc → Name → RabinCdc × Bool
unfolding map_file
reinit_with_file files c name =
    let f = map_file files name in
    if length f.mapped == 0 then (record c { roll = rabin_reset; file = f }, false) else (
      record c {
        roll = rabin_reset;
        file = f;
        file_read_ptr = f.mapped;
        remaining_file_len = length f.mapped;
      },
      true,
    )

-- `(chunk_size >= min && (digest & mask) == 0) || chunk_size >= max`
abbrev pub cuts : RabinCdc → ℕ → Roll → Bool
cuts c chunk_size r =
    (leb c.min_chunk_size chunk_size && (bit_and r.digest c.rabin_stop_mask == 0))
    || leb c.max_chunk_size chunk_size

-- The `for` with the rounds that its bound leaves: the size at a cut, or none; the rolling state
-- and the read pointer.
unfoldable pub cut_loop : RabinCdc → ℕ → ℕ → Roll → List ℕ → Option (Option ℕ × Roll × List ℕ)
cut_loop c zero chunk_size r p = some (none, r, p)
cut_loop c (suc rounds) chunk_size r [] = none
cut_loop c (suc rounds) chunk_size r (b ∷ p) =
    let r' = rabin_slide r b in
    let rest = cut_loop c rounds (chunk_size + 1) r' p in
    if cuts c chunk_size r' then some (some chunk_size, r', p) else rest

-- behind the loop: the chunk, or `nullptr` with the pointer at the end and the length as it was
unfoldable pub finish : RabinCdc → Option ℕ × Roll × List ℕ → RabinCdc × Option Chunk
unfolding from_memory_ref
finish c (none, r, p) = (record c { roll = r; file_read_ptr = p }, none)
finish c (some chunk_size, r, p) = (
  record c {
    roll = rabin_reset;
    next_chunk_id = u32 (c.next_chunk_id + 1);
    file_read_ptr = p;
    remaining_file_len = sub64 c.remaining_file_len chunk_size;
  },
  some (from_memory_ref c.file_read_ptr chunk_size c.next_chunk_id),
)

-- `GetNextChunk`: `none` for a read past the mapping; `(c, none)` for `nullptr`.
unfoldable pub get_next_chunk : RabinCdc → Option (RabinCdc × Option Chunk)
unfolding finish from_memory_ref
get_next_chunk c =
    if c.remaining_file_len == 0
    then some (c, none)
    else if leb c.remaining_file_len c.min_chunk_size
    then some (
      record c { next_chunk_id = u32 (c.next_chunk_id + 1); remaining_file_len = 0 },
      some (from_memory_ref c.file_read_ptr c.remaining_file_len c.next_chunk_id),
    )
    else (cut_loop c c.remaining_file_len 1 c.roll c.file_read_ptr >>= λ last. some (finish c last))

-- `while ((chunk = GetNextChunk()) != nullptr)`, with fuel: `none` for a fault or no fuel left.
unfoldable pub all_chunks : ℕ → RabinCdc → Option (RabinCdc × List Chunk)
all_chunks zero c = none
all_chunks (suc fuel) c = elim (get_next_chunk c) [
  | none ↦ none
  | some (c', none) ↦ some (c', [])
  | some (c', some chunk) ↦ (all_chunks fuel c' >>= λ rest. some (rest.0, chunk ∷ rest.1))
]
