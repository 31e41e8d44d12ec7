-- ===== src/Compression/Whole.antt =====
-- delta_compression.cpp, `AddFile` as a whole: the loop, the file meta, and `groupByBase`.
use chunk_grouping.Prelude.{
  ℕ, ◌+◌, ◌<◌, ◌-◌, ◌^◌, ◌≡◌, refl, none, some, List, [], ◌∷◌, ◌++◌, length, map, u32, arith,
}
use chunk_grouping.Chunk.{Chunk, joined}
use chunk_grouping.Cache.Lru.{Entries}
use chunk_grouping.Storage.Based.{Based}
use chunk_grouping.Storage.Cached.{Ready}
use chunk_grouping.Grouping.{Compressors, Totals, group_by_base}
use chunk_grouping.Grouping.Compress.{Grows}
use chunk_grouping.Grouping.Whole.{storage_cost, group_by_base-Grows}
use chunk_grouping.Compression.{Chunker, FeatureIndex, FileMeta, DeltaCompression, add_file}
use chunk_grouping.Compression.Laws.{Indexed, Yields, Storable, Swept, buf_of}
use chunk_grouping.Compression.Loop.{add_chunks-Ready}

module _ {Name C I Float : Type 0} (x : FeatureIndex Float I) (Of : List ℕ → I → Type 0) (fuel : ℕ)
    (c : Chunker Name C) (d : DeltaCompression Name C I) (name : Name) where
  -- the chunker behind `ReinitWithFile`
  abbrev pub opened_file : DeltaCompression Name C I
  opened_file = record d { chunker = (c.reinit_with_file d.chunker name).0 }

  abbrev pub blank_meta : FileMeta Name
  blank_meta = record { file_name = name; start_chunk_id = 2 ^ 32 - 1; end_chunk_id = none }

  -- What `AddFile` leaves.
  pub record Added (k : Compressors) (contents : List (List ℕ)) (chunks : List Chunk) (last : C)
      : Type 0 where
    pub next : DeltaCompression Name C I
    pub meta : FileMeta Name
    pub now : Entries
    pub bases : List ℕ
    pub returns : add_file fuel c x k d name ≡ some next
    pub ready : Ready next.storage (contents ++ map buf_of chunks) now
    pub based : Based next.storage.meta_file.items bases
    pub indexed : Of bases next.index
    pub drained : next.chunker ≡ last
    pub used :
        length next.storage.data_file.items
        ≡ length d.storage.data_file.items + length (joined chunks)
    pub metas : next.file_metas ≡ d.file_metas ++ meta ∷ []
    pub named : meta.file_name ≡ name
    pub counted :
        u32 (next.base_chunk_count + next.delta_chunk_count)
        ≡ u32 (d.base_chunk_count + d.delta_chunk_count + length chunks)

  -- the loop and `groupByBase` one after the other
  Added-Swept :
      (k : Compressors) (contents : List (List ℕ)) (chunks : List Chunk) (last : C)
      → (w : Swept x Of fuel c opened_file blank_meta contents chunks last) → (t : Totals)
      → group_by_base k w.next.storage 16 w.next.totals ≡ some (t, w.next.storage)
      → Added k contents chunks last
  unfolding add_file
  Added-Swept k contents chunks last w t grouped = record {
    next = record w.next { file_metas = w.next.file_metas ++ w.meta ∷ []; totals = t };
    meta = w.meta;
    now = w.now;
    bases = w.bases;
    returns = rw (w.returns, grouped) refl;
    ready = w.ready;
    based = w.based;
    indexed = w.indexed;
    drained = w.drained;
    used = w.used;
    metas = rw w.kept.metas refl;
    named = w.kept.name;
    counted = w.counted;
  }

  module _ (contents : List (List ℕ)) (es : Entries) (chunks : List Chunk) (last : C)
      (bases : List ℕ) (laws : Indexed x Of) (enough : length chunks < fuel)
      (yields : Yields c opened_file.chunker chunks last)
      (fits : Storable (length contents) (length d.storage.data_file.items) chunks)
      (ready : Ready d.storage contents es) (based : Based d.storage.meta_file.items bases)
      (indexed : Of bases d.index) where
    -- Whatever the compressors give for a buffer, `AddFile` of a file that the chunker cuts into
    -- storable chunks, on fuel above their number, does not fault: the chunks are stored behind the
    -- others and one file meta with the name of the file is written. Then every group of the storage is
    -- compressed, those of all files before once again: each compressed total grows, round 2 ^ 64, by
    -- what its compressor gives for the groups of all chunks that are stored then, one for each number
    -- that a record names as its base, each in runs of 16.
    pub add_file-Grows :
        (k : Compressors)
        → (a : Added k contents chunks last) × Grows
            (storage_cost k.lz4_frame k.lz4_block a.next.storage (contents ++ map buf_of chunks))
            (storage_cost k.zstd k.zstd a.next.storage (contents ++ map buf_of chunks))
            d.totals
            a.next.totals
    unfolding Added-Swept
    add_file-Grows k =
        let w =
          add_chunks-Ready x Of laws fuel c opened_file blank_meta contents es chunks last bases
            enough yields fits ready based indexed in
        let (t, grouped, g) =
          group_by_base-Grows k w.next.storage (contents ++ map buf_of chunks) w.bases w.next.totals
            w.ready.stored w.based in
        (
          Added-Swept k contents chunks last w t grouped,
          (omega (arith, g.0, w.kept.compressed), omega (arith, g.1, w.kept.zstd_compressed)),
        )

    -- what it leaves, without the totals
    pub add_file-Ready : (k : Compressors) → Added k contents chunks last
    add_file-Ready k = (add_file-Grows k).0
