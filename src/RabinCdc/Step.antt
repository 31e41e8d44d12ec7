-- ===== src/RabinCdc/Step.antt =====
-- One call of `GetNextChunk`: a chunk is split off, or the rest of the file is lost.
use native.Mathlib.Decide.{dec_le}
use chunk_grouping.Prelude.{
  ℕ, zero, suc, ◌+◌, ◌^◌, ◌≤◌, ◌<◌, ◌≡◌, ◌≢◌, refl, subst, ◌⊎◌, inl, inr, true, min, max, none,
  some, List, ◌++◌, length, take, drop, length-take, length-drop, take-append-take, append-nil, u32,
  sub64, arith,
}
use chunk_grouping.Chunk.{Chunk, from_memory_ref}
use chunk_grouping.RabinCdc.{RabinCdc, Roll, cuts, cut_loop, finish, get_next_chunk}
use chunk_grouping.RabinCdc.Loop.{slide_all, StopsAt, Ends, at_cut, nowhere, cut_loop-Ends}

-- The bytes of the file that no chunk holds yet.
abbrev pub pending : RabinCdc → List ℕ
pending c = take c.remaining_file_len c.file_read_ptr

pub record IsValid (c : RabinCdc) : Type 0 where
  pub inside : c.remaining_file_len ≤ length c.file_read_ptr
  pub small : c.remaining_file_len < 2 ^ 64

pub record Splits (c : RabinCdc) : Type 0 where
  pub next : RabinCdc
  pub chunk : Chunk
  pub returns : get_next_chunk c ≡ some (next, some chunk)
  pub bytes : chunk.buf ++ pending next ≡ pending c
  pub len : chunk.len ≡ length chunk.buf
  pub remaining : next.remaining_file_len + chunk.len ≡ c.remaining_file_len
  pub min_kept : next.min_chunk_size ≡ c.min_chunk_size
  pub max_kept : next.max_chunk_size ≡ c.max_chunk_size
  pub inside : next.remaining_file_len ≤ length next.file_read_ptr
  pub id : chunk.id ≡ c.next_chunk_id
  pub next_id : next.next_chunk_id ≡ u32 (c.next_chunk_id + 1)
  pub nonempty : 0 < chunk.len
  pub upper : chunk.len ≤ max c.min_chunk_size (max 1 c.max_chunk_size)
  pub lower : (min c.min_chunk_size c.max_chunk_size ≤ chunk.len) ⊎ (next.remaining_file_len ≡ 0)

-- No size up to the end of the file may end the chunk.
abbrev pub IsUncut : RabinCdc → Type 0
IsUncut c = (j : ℕ) → j < c.remaining_file_len → ¬ StopsAt c 1 c.roll c.file_read_ptr j

pub record Loses (c : RabinCdc) : Type 0 where
  pub next : RabinCdc
  pub returns : get_next_chunk c ≡ some (next, none)
  pub kept : next.remaining_file_len ≡ c.remaining_file_len
  pub ptr : next.file_read_ptr ≡ drop c.remaining_file_len c.file_read_ptr
  pub min_kept : next.min_chunk_size ≡ c.min_chunk_size
  pub uncut : IsUncut c

pub cuts-max : (c : RabinCdc) (n : ℕ) (r : Roll) → c.max_chunk_size ≤ n → cuts c n r ≡ true
cuts-max c n r h = ground arith

cuts-min :
    (c : RabinCdc) (n : ℕ) (r : Roll)
    → cuts c n r ≡ true
    → min c.min_chunk_size c.max_chunk_size ≤ n
cuts-min c n r h = ground arith

-- The first size that may end the chunk is at most the maximum.
first-upper :
    (c : RabinCdc) (k : ℕ)
    → ((j : ℕ) → j < k → ¬ StopsAt c 1 c.roll c.file_read_ptr j)
    → 1 + k ≤ max 1 c.max_chunk_size
first-upper c zero first = omega arith
first-upper c (suc j) first = elim (dec_le c.max_chunk_size (1 + j)) [
  | yes h ↦ absurd (
      first j (omega arith)
        (cuts-max c (1 + j) (slide_all c.roll (take (suc j) c.file_read_ptr)) h))
  | no h ↦ omega arith
]

module _ (c : RabinCdc) (v : IsValid c) where
  open v use {inside, small}

  pub short-Splits : c.remaining_file_len ≢ 0 → c.remaining_file_len ≤ c.min_chunk_size → Splits c
  unfolding get_next_chunk
  short-Splits ne h = record {
    next = record c { next_chunk_id = u32 (c.next_chunk_id + 1); remaining_file_len = 0 };
    chunk = from_memory_ref c.file_read_ptr c.remaining_file_len c.next_chunk_id;
    returns = ground arith;
    bytes = append-nil _;
    len = omega (arith, length-take c.remaining_file_len c.file_read_ptr);
    remaining = omega arith;
    min_kept = refl;
    max_kept = refl;
    inside = omega arith;
    id = refl;
    next_id = refl;
    nonempty = omega arith;
    upper = omega arith;
    lower = inr refl;
  }

  long-returns :
      {last : _}
      → c.min_chunk_size < c.remaining_file_len
      → cut_loop c c.remaining_file_len 1 c.roll c.file_read_ptr ≡ some last
      → get_next_chunk c ≡ some (finish c last)
  unfolding get_next_chunk
  long-returns h e = ground arith

  -- the end of the file, with no cut
  pub lost-Loses :
      c.min_chunk_size < c.remaining_file_len
      → IsUncut c
      → cut_loop c c.remaining_file_len 1 c.roll c.file_read_ptr
        ≡ some (
          none,
          slide_all c.roll (take c.remaining_file_len c.file_read_ptr),
          drop c.remaining_file_len c.file_read_ptr,
        )
      → Loses c
  unfolding finish
  lost-Loses h none_stops e = record {
    next =
        (finish c (
          none,
          slide_all c.roll (take c.remaining_file_len c.file_read_ptr),
          drop c.remaining_file_len c.file_read_ptr,
        )).0;
    returns = long-returns h e;
    kept = refl;
    ptr = refl;
    min_kept = refl;
    uncut = none_stops;
  }

  long-case :
      c.min_chunk_size < c.remaining_file_len
      → Ends c c.remaining_file_len 1 c.roll c.file_read_ptr
      → Splits c ⊎ Loses c
  unfolding finish
  long-case h (at_cut k lt here first e) = inl (record {
    next =
        (finish c (
          some (1 + k),
          slide_all c.roll (take (suc k) c.file_read_ptr),
          drop (suc k) c.file_read_ptr,
        )).0;
    chunk = from_memory_ref c.file_read_ptr (1 + k) c.next_chunk_id;
    returns = long-returns h e;
    bytes =
        subst
          (λ (n : ℕ).
            take n c.file_read_ptr
              ++ take (sub64 c.remaining_file_len (1 + k)) (drop (suc k) c.file_read_ptr)
            ≡ pending c)
          {x = suc k} (omega arith)
          (take-append-take (suc k) (sub64 c.remaining_file_len (1 + k)) c.remaining_file_len
            c.file_read_ptr (omega arith));
    len = omega (arith, length-take (1 + k) c.file_read_ptr);
    remaining = omega arith;
    min_kept = refl;
    max_kept = refl;
    inside = omega (arith, length-drop (suc k) c.file_read_ptr);
    id = refl;
    next_id = refl;
    nonempty = omega arith;
    upper = omega (arith, first-upper c k first);
    lower = inl (cuts-min c (1 + k) (slide_all c.roll (take (suc k) c.file_read_ptr)) here);
  })
  long-case h (nowhere none_stops e) = inr (lost-Loses h none_stops e)

-- Where bytes remain, a call does not read past the mapping. It splits off the next bytes of the
-- file as a chunk, or answers `nullptr` since no size up to the end of the file may end one.
pub get_next_chunk-cases :
    (c : RabinCdc) → IsValid c → c.remaining_file_len ≢ 0 → Splits c ⊎ Loses c
get_next_chunk-cases c v ne = elim (dec_le c.remaining_file_len c.min_chunk_size) [
  | yes h ↦ inl (short-Splits c v ne h)
  | no h ↦
      long-case c v (omega arith)
        (cut_loop-Ends c c.remaining_file_len 1 c.roll c.file_read_ptr v.inside)
]

pub get_next_chunk_end :
    (c : RabinCdc) → c.remaining_file_len ≡ 0 → get_next_chunk c ≡ some (c, none)
unfolding get_next_chunk
get_next_chunk_end c e = ground arith
