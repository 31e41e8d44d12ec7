-- ===== src/Cache/Tests.antt =====
-- The cache at concrete chunks.
use chunk_grouping.Prelude.{true, refl, inl, [], ◌∷◌, arith}
use chunk_grouping.Chunk.{Chunk}
use chunk_grouping.Cache.{ChunkCache, chunk_cache}
use chunk_grouping.Cache.Lru.{Refines}
use chunk_grouping.Cache.Start.{chunk_cache-Refines}
use chunk_grouping.Cache.Get.{Got, get-Refines}
use chunk_grouping.Cache.Insert.{Added, add-Refines}

abbrev fresh : ChunkCache
unfolding chunk_cache
fresh = chunk_cache 1

abbrev small : Chunk
small = record { buf = 3 ∷ 1 ∷ 4 ∷ []; needs_to_free = true; len = 3; id = 7 }

chunk_cache-Refines_example : Refines (chunk_cache 1) []
chunk_cache-Refines_example = chunk_cache-Refines 1 (omega arith) (omega arith)

fresh-Refines : Refines fresh []
unfolding fresh
fresh-Refines = chunk_cache-Refines 1 (omega arith) (omega arith)

add-Refines_example : Added fresh [] 7 small
unfolding fresh
add-Refines_example = add-Refines fresh [] 7 small fresh-Refines refl (omega arith) (inl refl)

-- the cache that holds this chunk, and a lookup of its number
held_Added : Added fresh [] 7 small
unfolding fresh
held_Added = add-Refines fresh [] 7 small fresh-Refines refl (omega arith) (inl refl)

get-Refines_example : Got held_Added.next ((7, small) ∷ []) 7
unfolding fresh
get-Refines_example = get-Refines held_Added.next ((7, small) ∷ []) 7 held_Added.refines
