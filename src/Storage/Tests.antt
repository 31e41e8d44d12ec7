-- ===== src/Storage/Tests.antt =====
-- The storage at concrete chunks.
use chunk_grouping.Prelude.{◌≡◌, refl, true, some, List, [], ◌∷◌, arith}
use chunk_grouping.Chunk.{Chunk}
use chunk_grouping.Stdio.{fwrite}
use chunk_grouping.Storage.{
  Storage, ChunkMeta, storage, get_chunk_content, base_chunk, write_chunk, write_base_chunk,
  write_delta_chunk, write_duplicate_chunk,
}
use chunk_grouping.Storage.Append.{IsOpen}
use chunk_grouping.Storage.Contents.{Stored}
use chunk_grouping.Storage.Writes.{
  Write, base, delta, contents_of, write_all, write_all-Stored, get_chunk_content-write_all,
}
use chunk_grouping.Storage.Faults.{
  get_chunk_content-write_base_chunk, get_chunk_content-write_duplicate_chunk,
}

abbrev fresh : Storage
unfolding storage
fresh = storage [] [] true 64

fresh-IsOpen : IsOpen fresh
unfolding fresh
fresh-IsOpen = record { data_end = refl; meta_end = refl; small = omega arith }

fresh-Stored : Stored fresh []
unfolding fresh
fresh-Stored = record { opened = fresh-IsOpen; count = refl; holds = λ i bytes e. cc }

abbrev first : Chunk
first = record { buf = 3 ∷ 1 ∷ 4 ∷ []; needs_to_free = true; len = 3; id = 0 }

abbrev second : Chunk
second = record { buf = 1 ∷ 5 ∷ []; needs_to_free = true; len = 2; id = 1 }

abbrev script : List Write
script = base first ∷ delta second 0 ∷ []

script-Stored : Stored (write_all fresh script) (contents_of script)
unfolding fresh
script-Stored =
    write_all-Stored script fresh []
      (refl, omega arith, omega arith, (refl, omega arith, omega arith, tt)) fresh-Stored

get_chunk_content-write_all_example :
    get_chunk_content (write_all fresh script) 0
    ≡ some (
      record { buf = 3 ∷ 1 ∷ 4 ∷ []; needs_to_free = true; len = 3; id = 0 },
      write_all fresh script,
    )
unfolding fresh
get_chunk_content-write_all_example =
    get_chunk_content-write_all script fresh [] 0 (3 ∷ 1 ∷ 4 ∷ [])
      (refl, omega arith, omega arith, (refl, omega arith, omega arith, tt)) fresh-Stored refl

get_chunk_content-write_base_chunk_example :
    get_chunk_content (write_base_chunk fresh first) 0
    ≡ some (
      record { buf = 3 ∷ 1 ∷ 4 ∷ []; needs_to_free = true; len = 3; id = 0 },
      write_base_chunk fresh first,
    )
unfolding fresh
get_chunk_content-write_base_chunk_example =
    get_chunk_content-write_base_chunk fresh first fresh-IsOpen refl (omega arith)

abbrev first_meta_written : ChunkMeta
first_meta_written = record { offset = 0; base_chunk_id = 0; size = 3; type = base_chunk }

get_chunk_content-write_duplicate_chunk_example :
    (s' : Storage) × (write_duplicate_chunk (write_all fresh script) first 1 ≡ some s')
    × (get_chunk_content s' 2
        ≡ some (record { buf = 3 ∷ 1 ∷ 4 ∷ []; needs_to_free = true; len = 3; id = 2 }, s'))
unfolding fresh write_base_chunk write_delta_chunk write_chunk fwrite
get_chunk_content-write_duplicate_chunk_example =
    get_chunk_content-write_duplicate_chunk (write_all fresh script) first 1 first_meta_written
      script-Stored.opened refl
