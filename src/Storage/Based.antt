-- ===== src/Storage/Based.antt =====
-- storage/storage.cpp: the records that `AddFile` leaves in the meta file. A base chunk names itself
-- as its base, and a delta chunk names a base chunk that was written before it.
use chunk_grouping.Prelude.{
  ℕ, ◌<◌, ◌≡◌, refl, inl, inr, List, [], ◌∷◌, ◌++◌, length, length-append, ◌∈◌, arith,
}
use chunk_grouping.Chunk.{Chunk}
use chunk_grouping.Storage.{
  Storage, ChunkMeta, base_chunk, delta_chunk, write_base_chunk, write_delta_chunk,
}
use chunk_grouping.Storage.Append.{
  IsWhole, IsOpen, write_base_chunk-Appends, write_delta_chunk-Appends,
}

-- The records, with the numbers of the base chunks among them, the last one first.
pub data Based : List ChunkMeta → List ℕ → Type 0 where
  nothing : Based [] []
  base :
      (metas : List ChunkMeta) (bases : List ℕ) (m : ChunkMeta)
      → Based metas bases
      → m.type ≡ base_chunk
      → m.base_chunk_id ≡ length metas
      → Based (metas ++ m ∷ []) (length metas ∷ bases)
  delta :
      (metas : List ChunkMeta) (bases : List ℕ) (m : ChunkMeta)
      → Based metas bases
      → m.type ≡ delta_chunk
      → m.base_chunk_id ∈ bases
      → Based (metas ++ m ∷ []) bases

pub Based-lt :
    (id : ℕ) {metas : List ChunkMeta} {bases : List ℕ}
    → Based metas bases
    → id ∈ bases
    → id < length metas
Based-lt id nothing i = absurd i
Based-lt id (base metas bases m b type self) (inl e) = omega (arith, length-append metas (m ∷ []))
Based-lt id (base metas bases m b type self) (inr i) =
    omega (arith, length-append metas (m ∷ []), Based-lt id b i)
Based-lt id (delta metas bases m b type earlier) i =
    omega (arith, length-append metas (m ∷ []), Based-lt id b i)

pub write_base_chunk-Based :
    (s : Storage) (c : Chunk) (bases : List ℕ)
    → IsOpen s
    → IsWhole c
    → c.id ≡ length s.meta_file.items
    → Based s.meta_file.items bases
    → Based (write_base_chunk s c).meta_file.items (length s.meta_file.items ∷ bases)
write_base_chunk-Based s c bases o w numbered b =
    rw (write_base_chunk-Appends s c o w).meta_items
      (base s.meta_file.items bases _ b refl numbered)

pub write_delta_chunk-Based :
    (s : Storage) (c : Chunk) (base_chunk_id : ℕ) (bases : List ℕ)
    → IsOpen s
    → IsWhole c
    → base_chunk_id ∈ bases
    → Based s.meta_file.items bases
    → Based (write_delta_chunk s c base_chunk_id).0.meta_file.items bases
write_delta_chunk-Based s c base_chunk_id bases o w i b =
    rw (write_delta_chunk-Appends s c base_chunk_id o w).meta_items
      (delta s.meta_file.items bases _ b refl i)
