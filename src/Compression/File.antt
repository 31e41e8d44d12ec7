-- ===== src/Compression/File.antt =====
-- A file through FastCDC and the loop of `AddFile` into the storage, and back.
use chunk_grouping.Prelude.{ℕ, ◌+◌, ◌<◌, ◌^◌, ◌≡◌, ap, subst, max, some, List, ◌∷◌, length, arith}
use chunk_grouping.Chunk.{Chunk, joined}
use chunk_grouping.FastCdc.{FastCdc, FileSystem}
use chunk_grouping.FastCdc.File.{IsNumbered}
use chunk_grouping.Cache.Lru.{Entries}
use chunk_grouping.Storage.Based.{Based}
use chunk_grouping.Storage.Cached.{Ready}
use chunk_grouping.Compression.{FeatureIndex, FileMeta, DeltaCompression, fast_cdc_chunker}
use chunk_grouping.Compression.Laws.{Indexed, Swept}
use chunk_grouping.Compression.Loop.{add_chunks-Ready}
use chunk_grouping.Compression.Reads.{Read, bytes_of, opened-Read, length-joined, Storable-IsSized}

-- What storing a file leaves: the pieces of the file stand behind what was stored.
pub record FileStored {Name I Float : Type 0} (x : FeatureIndex Float I) (Of : List ℕ → I → Type 0)
    (files : FileSystem Name) (fuel : ℕ) (d : DeltaCompression Name FastCdc I) (m : FileMeta Name)
    (contents : List (List ℕ)) (bytes : List ℕ) : Type 0 where
  pub chunks : List Chunk
  pub last : FastCdc
  pub swept : Swept x Of fuel (fast_cdc_chunker files) d m contents chunks last
  pub whole : joined chunks ≡ bytes

-- A file that is read into a storage and an index that are in step.
pub add_chunks-Read :
    {Name I Float : Type 0} (x : FeatureIndex Float I) (Of : List ℕ → I → Type 0)
    (files : FileSystem Name) (d : DeltaCompression Name FastCdc I) (m : FileMeta Name)
    (contents : List (List ℕ)) (es : Entries) (name : Name) (fuel : ℕ) (bases : List ℕ)
    → Indexed x Of
    → (read : Read files d.chunker name)
    → max d.chunker.min_chunk_size d.chunker.max_chunk_size < 2 ^ 16
    → length (bytes_of (files name)) < fuel
    → d.chunker.next_chunk_id ≡ length contents
    → length contents + length (bytes_of (files name)) < 2 ^ 32
    → length d.storage.data_file.items + length (bytes_of (files name)) < 2 ^ 64
    → Ready d.storage contents es
    → Based d.storage.meta_file.items bases
    → Of bases d.index
    → FileStored x Of files fuel
        (record d { chunker = ((fast_cdc_chunker files).reinit_with_file d.chunker name).0 })
        m
        contents
        (bytes_of (files name))
add_chunks-Read x Of files d m contents es name fuel bases laws read small enough next few room r
      based o =
    let size = ap length read.whole in
    let count = length-joined _ _ read.chunks read.sized in
    record {
      chunks = read.chunks;
      last = read.last;
      swept =
          add_chunks-Ready x Of laws fuel (fast_cdc_chunker files)
            (record d { chunker = ((fast_cdc_chunker files).reinit_with_file d.chunker name).0 }) m
            contents es read.chunks read.last bases (omega (arith, size, count)) read.yields
            (Storable-IsSized (length contents) (length d.storage.data_file.items) _ _ read.chunks
              (subst (λ n. IsNumbered n read.chunks) next read.numbered) read.sized small
              (omega (arith, size, count)) (omega (arith, size, room)))
            r based o;
      whole = read.whole;
    }

-- After `ReinitWithFile` on a file that is not empty, the loop of `AddFile` over FastCDC, on fuel
-- above the size of the file, never faults, and stores the file: the pieces that it appends to the
-- storage, put together, are the file. The conditions: the next chunk number is the number of
-- stored pieces, numbers stay below 2 ^ 32 and sizes below 2 ^ 64, chunks below 2 ^ 16, and the
-- storage and the index are in step.
pub add_chunks-reinit_with_file :
    {Name I Float : Type 0} (x : FeatureIndex Float I) (Of : List ℕ → I → Type 0)
    (files : FileSystem Name) (d : DeltaCompression Name FastCdc I) (m : FileMeta Name)
    (contents : List (List ℕ)) (es : Entries) (name : Name) (b : ℕ) (bytes : List ℕ) (fuel : ℕ)
    (bases : List ℕ)
    → Indexed x Of
    → files name ≡ some (b ∷ bytes)
    → 0 < max d.chunker.min_chunk_size d.chunker.max_chunk_size
    → max d.chunker.min_chunk_size d.chunker.max_chunk_size < 2 ^ 16
    → length (b ∷ bytes) < fuel
    → d.chunker.next_chunk_id ≡ length contents
    → length contents + length (b ∷ bytes) < 2 ^ 32
    → length d.storage.data_file.items + length (b ∷ bytes) < 2 ^ 64
    → Ready d.storage contents es
    → Based d.storage.meta_file.items bases
    → Of bases d.index
    → FileStored x Of files fuel
        (record d { chunker = ((fast_cdc_chunker files).reinit_with_file d.chunker name).0 })
        m
        contents
        (b ∷ bytes)
add_chunks-reinit_with_file x Of files d m contents es name b bytes fuel bases laws found positive
      small enough next few room r based o =
    let read = opened-Read files d.chunker name b bytes found (omega (arith, few)) positive in
    let stored =
      add_chunks-Read x Of files d m contents es name fuel bases laws read small (rw found enough)
        next (rw found few) (rw found room) r based o in
    record {
      chunks = stored.chunks;
      last = stored.last;
      swept = stored.swept;
      whole = rw found at stored.whole;
    }
