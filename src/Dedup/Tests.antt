-- ===== src/Dedup/Tests.antt =====
-- Deduplication, with the bytes themselves for a digest of one byte.
use chunk_grouping.Prelude.{ℕ, ◌≡◌, refl, true, ◌==◌, ==_refl, List, [], ◌∷◌, get_or}
use chunk_grouping.Chunk.{Chunk}
use chunk_grouping.Dedup.{process_chunk, process_chunk_twice}

abbrev first_byte : List ℕ → ℕ
first_byte bytes = get_or bytes 0 0

abbrev once : Chunk
once = record { buf = 3 ∷ 1 ∷ []; needs_to_free = true; len = 2; id = 4 }

abbrev again : Chunk
again = record { buf = 3 ∷ 1 ∷ []; needs_to_free = true; len = 2; id = 9 }

process_chunk_twice_example :
    let (id, mp) = process_chunk ◌==◌ first_byte [] once in
    process_chunk ◌==◌ first_byte mp again ≡ (id, mp)
process_chunk_twice_example = process_chunk_twice ◌==◌ first_byte [] once again ==_refl refl
