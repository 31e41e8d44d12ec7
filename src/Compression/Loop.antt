-- ===== src/Compression/Loop.antt =====
-- The loop of `AddFile` over any chunker and any index that keeps its laws: every chunk is stored
-- under its number, and the storage gives it back.
use chunk_grouping.Prelude.{
  ℕ, zero, suc, ◌+◌, ◌∈◌, ◌<◌, ◌^◌, ◌≡◌, refl, sym, ap, subst, ◌∙◌, ◌-◌, ◌==◌, Bool-cases, inl, inr,
  Option, none, some, List, [], ◌∷◌, ◌++◌, append_assoc, append-nil, length, length-append, map,
  get_elem?-some, arith,
}
use chunk_grouping.Chunk.{Chunk, joined}
use chunk_grouping.Cache.Lru.{Entries}
use chunk_grouping.Storage.Append.{IsWhole}
use chunk_grouping.Storage.Writes.{base, delta}
use chunk_grouping.Storage.Based.{Based, Based-lt, write_base_chunk-Based, write_delta_chunk-Based}
use chunk_grouping.Storage.Cached.{Ready, get_delta_encoded_chunk-Ready}
use chunk_grouping.Storage.Written.{write-Ready}
use chunk_grouping.Compression.{
  Chunker, FeatureIndex, FileMeta, DeltaCompression, started_at, count_base, count_delta, add_chunk,
  add_chunks,
}
use chunk_grouping.Compression.Laws.{Indexed, Yields, Storable, buf_of, Taken, Swept}

started_at-name :
    {Name : Type 0} (m : FileMeta Name) (c : Chunk) → (started_at m c).file_name ≡ m.file_name
started_at-name m c = elim (Bool-cases (m.start_chunk_id == 2 ^ 32 - 1)) [
  | inl e ↦ rw e refl
  | inr e ↦ rw e refl
]

module _ {Name C I Float : Type 0} (x : FeatureIndex Float I) (Of : List ℕ → I → Type 0)
    (laws : Indexed x Of) where
  add_chunk-Ready :
      (d : DeltaCompression Name C I) (m : FileMeta Name) (contents : List (List ℕ)) (es : Entries)
      (chunk : Chunk) (bases : List ℕ)
      → Ready d.storage contents es
      → Based d.storage.meta_file.items bases
      → Of bases d.index
      → chunk.id ≡ length contents
      → IsWhole chunk
      → chunk.len < 2 ^ 16
      → length d.storage.data_file.items + chunk.len < 2 ^ 64
      → Taken x Of d m contents chunk
  unfolding add_chunk count_base count_delta
  add_chunk-Ready d m contents es chunk bases r based o numbered whole short room =
      go (laws.answers bases d.index chunk o)
    where
      go :
          ((answer : Option ℕ) × (x.get_base_chunk_id d.index (x.feature chunk) ≡ some answer)
            × ((id : ℕ) → answer ≡ some id → id ∈ bases))
          → Taken x Of d m contents chunk
      go (none, asked, _) =
          let n = length d.storage.meta_file.items in
          let at : chunk.id ≡ n = omega (arith, numbered, r.stored.count) in
          let (i, added, o') = laws.adds n bases d.index chunk o in
          let add : x.add_feature d.index (x.feature chunk) chunk.id ≡ some i =
            ap (λ k. x.add_feature d.index (x.feature chunk) k) at ∙ added in
          let (r', used) = write-Ready d.storage (base chunk) contents es whole short room r in
          record {
            next = count_base (record d { index = i }) chunk;
            meta = started_at m chunk;
            now = es;
            returns = rw (asked, add) refl;
            ready = r';
            bases = n ∷ bases;
            based = write_base_chunk-Based d.storage chunk bases r.stored.opened whole at based;
            indexed = o';
            used = used;
            chunker_kept = refl;
            kept = record {
              metas = refl;
              compressed = refl;
              zstd_compressed = refl;
              name = started_at-name m chunk;
            };
            counted = omega arith;
            level = λ e. e;
          }
      go (some id, asked, known) =
          let lt = Based-lt id based (known id refl) in
          let (bytes, stored) = get_elem?-some contents id (omega (arith, lt, r.stored.count)) in
          let f = get_delta_encoded_chunk-Ready d.storage contents es chunk id bytes r stored in
          let same = ap (λ (s : _). length s.items) f.data_kept in
          let (r', used) =
            write-Ready f.next (delta chunk id) contents f.now whole short (omega (arith, same))
              f.ready in
          record {
            next = count_delta (record d { storage = f.next }) chunk chunk id;
            meta = record (started_at m chunk) { end_chunk_id = some chunk.id };
            now = f.now;
            returns = rw (asked, f.returns) refl;
            ready = r';
            bases = bases;
            based =
                write_delta_chunk-Based f.next chunk id bases f.ready.stored.opened whole
                  (known id refl) (subst (λ (s : _). Based s.items bases) (sym f.meta_kept) based);
            indexed = o;
            used = omega (arith, used, same);
            chunker_kept = refl;
            kept = record {
              metas = refl;
              compressed = refl;
              zstd_compressed = refl;
              name = started_at-name m chunk;
            };
            counted = omega arith;
            level = λ e. rw e refl;
          }

  -- The loop of `AddFile`, on fuel above the number of chunks, never faults. It stores every chunk
  -- behind what was stored, so that record `n` has the bytes of chunk `n`; the cache and the index
  -- stay in step with the storage; each chunk is counted once, as base or as delta chunk; and the
  -- two counts of delta bytes stay equal where they were. This holds for any chunker that gives
  -- storable chunks, numbered on from the stored ones, and any index that keeps its laws.
  pub add_chunks-Ready :
      (fuel : ℕ) (c : Chunker Name C) (d : DeltaCompression Name C I) (m : FileMeta Name)
      (contents : List (List ℕ)) (es : Entries) (chunks : List Chunk) (last : C) (bases : List ℕ)
      → length chunks < fuel
      → Yields c d.chunker chunks last
      → Storable (length contents) (length d.storage.data_file.items) chunks
      → Ready d.storage contents es
      → Based d.storage.meta_file.items bases
      → Of bases d.index
      → Swept x Of fuel c d m contents chunks last
  unfolding add_chunks
  add_chunks-Ready zero c d m contents es chunks last bases enough y st r based o =
      absurd (omega arith)
  add_chunks-Ready (suc fuel) c d m contents es [] last bases enough y st r based o = record {
    next = record d { chunker = last };
    meta = m;
    now = es;
    returns = rw y refl;
    ready = rw append-nil r;
    bases = bases;
    based = based;
    indexed = o;
    drained = refl;
    kept = record { metas = refl; compressed = refl; zstd_compressed = refl; name = refl };
    used = omega arith;
    counted = omega arith;
    level = λ e. e;
  }
  add_chunks-Ready (suc fuel) c d m contents es (chunk ∷ chunks) last bases enough (t, gives, y)
        (numbered, whole, short, room, st) r based o =
      let a =
        add_chunk-Ready (record d { chunker = t }) m contents es chunk bases r based o numbered
          whole short room in
      let size : length (contents ++ chunk.buf ∷ []) ≡ suc (length contents) =
        omega (arith, length-append contents (chunk.buf ∷ [])) in
      let rest =
        add_chunks-Ready fuel c a.next a.meta (contents ++ chunk.buf ∷ []) a.now chunks last a.bases
          (omega arith) (rw a.chunker_kept y) (rw (size, a.used) st) a.ready a.based a.indexed in
      record {
        next = rest.next;
        meta = rest.meta;
        now = rest.now;
        returns = rw (add_chunks, gives) (rw (a.returns, rest.returns) refl);
        ready =
            subst (λ cs. Ready rest.next.storage cs rest.now)
              (append_assoc contents (chunk.buf ∷ []) (map buf_of chunks)) rest.ready;
        bases = rest.bases;
        based = rest.based;
        indexed = rest.indexed;
        drained = rest.drained;
        kept = record {
          metas = rest.kept.metas ∙ a.kept.metas;
          compressed = rest.kept.compressed ∙ a.kept.compressed;
          zstd_compressed = rest.kept.zstd_compressed ∙ a.kept.zstd_compressed;
          name = rest.kept.name ∙ a.kept.name;
        };
        used = omega (arith, rest.used, a.used, whole, length-append chunk.buf (joined chunks));
        counted = omega (arith, rest.counted, a.counted);
        level = λ e. rest.level (a.level e);
      }
