-- ===== src/FastCdc/Tests.antt =====
-- The gear chunker at a file of seven bytes, with chunks of two to four bytes.
use chunk_grouping.Prelude.{ℕ, zero, suc, ◌≡◌, refl, max, ◌>>=◌, none, some, List, [], ◌∷◌, arith}
use chunk_grouping.Chunk.{Chunk, joined}
use chunk_grouping.Gear.{gear_table, gear_step}
use chunk_grouping.FastCdc.{
  FastCdc, FileSystem, fast_cdc, reinit_with_file, emit, min_loop, cut_loop, get_next_chunk,
  all_chunks,
}
use chunk_grouping.FastCdc.Step.{IsValid, EndsAt, get_next_chunk-EndsAt}
use chunk_grouping.FastCdc.File.{IsNumbered, IsSized, opened, reinit_with_file-all_chunks}

abbrev bytes : List ℕ
bytes = 3 ∷ 1 ∷ 4 ∷ 1 ∷ 5 ∷ 9 ∷ 2 ∷ []

abbrev files : FileSystem ℕ
files zero = some bytes
files (suc zero) = some []
files (suc (suc _)) = none

abbrev idle : FastCdc
unfolding fast_cdc
idle = fast_cdc 2 4 1

abbrev started : FastCdc
started = opened idle bytes

started-IsValid : IsValid started
unfolding idle
started-IsValid = record { inside = omega arith; small = omega arith; positive = omega arith }

get_next_chunk-EndsAt_example :
    (r : FastCdc × Chunk) × (get_next_chunk started ≡ some (r.0, some r.1)) × EndsAt started r.1.len
unfolding idle
get_next_chunk-EndsAt_example = get_next_chunk-EndsAt started started-IsValid (omega arith)

reinit_with_file-all_chunks_example :
    (r : FastCdc × List Chunk) × (all_chunks 8 (reinit_with_file files idle 0).0 ≡ some r)
    × (joined r.1 ≡ bytes)
    × IsNumbered 0 r.1
    × IsSized 2 (max 2 4) r.1
unfolding idle
reinit_with_file-all_chunks_example =
    reinit_with_file-all_chunks files idle 0 3 (1 ∷ 4 ∷ 1 ∷ 5 ∷ 9 ∷ 2 ∷ []) 8 refl (omega arith)
      (omega arith) (omega arith)

abbrev lens : List Chunk → List ℕ
lens [] = []
lens (c ∷ cs) = c.len ∷ lens cs

-- the file in two chunks
chunks_test :
    (all_chunks 8 (reinit_with_file files idle 0).0 >>= λ r. some (lens r.1)) ≡ some (4 ∷ 3 ∷ [])
unfolding idle all_chunks get_next_chunk reinit_with_file gear_step min_loop cut_loop emit
    gear_table
chunks_test = refl
