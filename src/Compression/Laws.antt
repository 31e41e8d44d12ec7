-- ===== src/Compression/Laws.antt =====
-- What the loop of `AddFile` relies on of an index and of a chunker, and what it leaves.
use chunk_grouping.Prelude.{
  ℕ, suc, ◌+◌, ◌∈◌, ◌<◌, ◌^◌, ◌≡◌, Option, none, some, List, [], ◌∷◌, ◌++◌, length, map, u32,
}
use chunk_grouping.Chunk.{Chunk, joined}
use chunk_grouping.Cache.Lru.{Entries}
use chunk_grouping.Storage.Append.{IsWhole}
use chunk_grouping.Storage.Based.{Based}
use chunk_grouping.Storage.Cached.{Ready}
use chunk_grouping.Compression.{
  Chunker, FeatureIndex, FileMeta, DeltaCompression, add_chunk, add_chunks,
}

-- What the loop relies on of an index: it never faults on the feature of a chunk, answers only with
-- the numbers that it was given, and takes another.
pub record Indexed {Float I : Type 0} (x : FeatureIndex Float I) (Of : List ℕ → I → Type 0)
    : Type 0 where
  pub answers :
      (bases : List ℕ) (i : I) (c : Chunk)
      → Of bases i
      → (r : Option ℕ) × (x.get_base_chunk_id i (x.feature c) ≡ some r)
        × ((id : ℕ) → r ≡ some id → id ∈ bases)
  pub adds :
      (n : ℕ) (bases : List ℕ) (i : I) (c : Chunk)
      → Of bases i
      → (i' : I) × (x.add_feature i (x.feature c) n ≡ some i') × Of (n ∷ bases) i'

-- The chunker gives these chunks, then none.
abbrev pub Yields : {Name C : Type 0} → Chunker Name C → C → List Chunk → C → Type 0
Yields c s [] last = c.get_next_chunk s ≡ some (last, none)
Yields {C} c s (chunk ∷ chunks) last =
    (t : C) × (c.get_next_chunk s ≡ some (t, some chunk)) × Yields c t chunks last

-- The chunks are numbered on from `n`, whole, shorter than 2 ^ 16, and behind `used` bytes all of
-- them stay below 2 ^ 64.
abbrev pub Storable : ℕ → ℕ → List Chunk → Type 0
Storable n used [] = Unit {0}
Storable n used (c ∷ cs) =
    (c.id ≡ n)
    × IsWhole c
    × (c.len < 2 ^ 16)
    × (used + c.len < 2 ^ 64)
    × Storable (suc n) (used + c.len) cs

abbrev pub buf_of : Chunk → List ℕ
buf_of c = c.buf

-- What the loop does not touch.
pub record Kept {Name C I : Type 0} (d next : DeltaCompression Name C I) (m meta : FileMeta Name)
    : Type 0 where
  pub metas : next.file_metas ≡ d.file_metas
  pub compressed : next.totals.total_size_compressed ≡ d.totals.total_size_compressed
  pub zstd_compressed : next.totals.zstd_total_size_compressed ≡ d.totals.zstd_total_size_compressed
  pub name : meta.file_name ≡ m.file_name

module _ {Name C I Float : Type 0} (x : FeatureIndex Float I) (Of : List ℕ → I → Type 0) where
  -- What one chunk leaves.
  pub record Taken (d : DeltaCompression Name C I) (m : FileMeta Name) (contents : List (List ℕ))
      (chunk : Chunk) : Type 0 where
    pub next : DeltaCompression Name C I
    pub meta : FileMeta Name
    pub now : Entries
    pub returns : add_chunk x (d, m) chunk ≡ some (next, meta)
    pub ready : Ready next.storage (contents ++ chunk.buf ∷ []) now
    pub bases : List ℕ
    pub based : Based next.storage.meta_file.items bases
    pub indexed : Of bases next.index
    pub used : length next.storage.data_file.items ≡ length d.storage.data_file.items + chunk.len
    pub chunker_kept : next.chunker ≡ d.chunker
    pub kept : Kept d next m meta
    pub counted :
        u32 (next.base_chunk_count + next.delta_chunk_count)
        ≡ u32 (d.base_chunk_count + d.delta_chunk_count + 1)
    pub level :
        d.chunk_size_before_delta ≡ d.chunk_size_after_delta
        → next.chunk_size_before_delta ≡ next.chunk_size_after_delta

  -- What the loop leaves.
  pub record Swept (fuel : ℕ) (c : Chunker Name C) (d : DeltaCompression Name C I)
      (m : FileMeta Name) (contents : List (List ℕ)) (chunks : List Chunk) (last : C) : Type 0 where
    pub next : DeltaCompression Name C I
    pub meta : FileMeta Name
    pub now : Entries
    pub returns : add_chunks fuel c x (d, m) ≡ some (next, meta)
    pub ready : Ready next.storage (contents ++ map buf_of chunks) now
    pub bases : List ℕ
    pub based : Based next.storage.meta_file.items bases
    pub indexed : Of bases next.index
    pub drained : next.chunker ≡ last
    pub kept : Kept d next m meta
    pub used :
        length next.storage.data_file.items
        ≡ length d.storage.data_file.items + length (joined chunks)
    pub counted :
        u32 (next.base_chunk_count + next.delta_chunk_count)
        ≡ u32 (d.base_chunk_count + d.delta_chunk_count + length chunks)
    pub level :
        d.chunk_size_before_delta ≡ d.chunk_size_after_delta
        → next.chunk_size_before_delta ≡ next.chunk_size_after_delta
