-- ===== src/RabinCdc/Tests.antt =====
-- The Rabin chunker at concrete files.
use chunk_grouping.Prelude.{
  ℕ, zero, suc, ◌-◌, ◌^◌, ◌≡◌, refl, length, none, some, List, [], ◌∷◌, arith,
}
use chunk_grouping.Rabin.{out_table, mod_table}
use chunk_grouping.RabinCdc.{RabinCdc, rabin_append, rabin_slide, rabin_reset, get_next_chunk}
use chunk_grouping.RabinCdc.Loop.{slide_all}
use chunk_grouping.RabinCdc.Step.{IsValid, IsUncut}
use chunk_grouping.RabinCdc.Tail.{get_next_chunk_tail}
use chunk_grouping.RabinCdc.File.{Chunked, all_chunks-Chunked}

-- the chunker in front of these bytes
abbrev standing : ℕ → ℕ → ℕ → List ℕ → RabinCdc
standing min_ck_sz max_ck_sz mask bytes = record {
  roll = rabin_reset;
  next_chunk_id = 0;
  file = record { mapped = bytes };
  file_read_ptr = bytes;
  remaining_file_len = length bytes;
  min_chunk_size = min_ck_sz;
  max_chunk_size = max_ck_sz;
  rabin_stop_mask = mask;
}

abbrev started : RabinCdc
started = standing 2 3 0xFF (3 ∷ 1 ∷ 4 ∷ 1 ∷ 5 ∷ [])

started-IsValid : IsValid started
started-IsValid = record { inside = omega arith; small = omega arith }

all_chunks-Chunked_example : Chunked 6 started
all_chunks-Chunked_example = all_chunks-Chunked 6 started (omega arith) started-IsValid

-- one byte, a minimum of none, and a mask that its fingerprint misses
abbrev tail : RabinCdc
tail = standing 0 8 (2 ^ 64 - 1) (7 ∷ [])

tail-IsUncut : IsUncut tail
unfolding slide_all rabin_slide rabin_reset rabin_append out_table mod_table
tail-IsUncut zero lt stop = cc
tail-IsUncut (suc j) lt stop = absurd (omega arith)

get_next_chunk_tail_example :
    (c' : RabinCdc) × (get_next_chunk tail ≡ some (c', none))
    × (c'.remaining_file_len ≡ 1)
    × (get_next_chunk c' ≡ none)
get_next_chunk_tail_example =
    get_next_chunk_tail tail (record { inside = omega arith; small = omega arith }) (omega arith)
      refl tail-IsUncut
