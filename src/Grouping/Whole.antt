-- ===== src/Grouping/Whole.antt =====
-- storage/storage.cpp, `groupByBase` as a whole, on a storage with the records of `AddFile`.
use chunk_grouping.Prelude.{
  ℕ, ◌≡◌, refl, sym, subst, ◌∙◌, inl, inr, Bool-cases, true, if◌then◌else◌, some, List, [], ◌∷◌,
  length, get_elem?, get_elem?-some, get_or, get_or_lem, lookup, arith,
}
use chunk_grouping.Chunk.{Chunk}
use chunk_grouping.Storage.{Storage, ChunkMeta}
use chunk_grouping.Storage.Contents.{Stored, get_chunk_content-Stored, rewound_lem}
use chunk_grouping.Storage.Based.{Based}
use chunk_grouping.Stdio.{Stream}
use chunk_grouping.Grouping.{
  Compressors, Totals, Groups, content, divid_record, divid_loop, divid_by_base, compress_groups,
  group_by_base,
}
use chunk_grouping.Grouping.Compress.{group_cost, Grows, Grows-trans, compress_group-Grows}
use chunk_grouping.Grouping.Divide.{any_named, deltas_of, lookup-divid_by_base}
use chunk_grouping.Grouping.Weight.{
  KeysBelow, sum_to, sum_to_ext, weight, entry_weight, sum_to-lookup,
}
use chunk_grouping.Grouping.Bases.{divid_by_base-KeysBelow}

-- the group of a number: the bytes that are stored under it, and the chunks of the delta records
-- that name it as their base, in the order of the records
abbrev pub entry_cost : (List ℕ → ℕ) → (List ℕ → ℕ) → List (List ℕ) → ℕ → List Chunk → ℕ
entry_cost frame block contents id chunks = group_cost frame block (get_or contents id []) chunks

-- What a compressor gives for a storage: for each number that a record names as its base, what it
-- gives for its group.
abbrev pub storage_cost : (List ℕ → ℕ) → (List ℕ → ℕ) → Storage → List (List ℕ) → ℕ
storage_cost frame block s contents =
    sum_to
      (λ id.
        if any_named id s.meta_file.items
        then entry_cost frame block contents id (deltas_of s.data_file id s.meta_file.items)
        else 0)
      (length contents)

module _ (k : Compressors) (s : Storage) (contents : List (List ℕ)) (st : Stored s contents) where
  content-Stored :
      (id : ℕ) (bytes : List ℕ)
      → get_elem? contents id ≡ some bytes
      → content s id
        ≡ some (record { buf = bytes; needs_to_free = true; len = length bytes; id = id })
  content-Stored id bytes e = rw (get_chunk_content-Stored s contents id bytes st e) refl

  compress_groups-Grows :
      (groups : Groups) (t : Totals)
      → KeysBelow (length contents) groups
      → (t' : Totals) × (compress_groups k s 16 groups t ≡ some t')
        × Grows
            (weight (entry_cost k.lz4_frame k.lz4_block contents) groups)
            (weight (entry_cost k.zstd k.zstd contents) groups)
            t
            t'
  unfolding compress_groups
  compress_groups-Grows [] t b = (t, refl, (omega arith, omega arith))
  compress_groups-Grows ((key, chunks) ∷ groups) t (lt, b) =
      let (bytes, e) = get_elem?-some contents key lt in
      let (t₁, e₁, g₁) = compress_group-Grows k s key _ (content-Stored key bytes e) chunks t in
      let (t₂, e₂, g₂) = compress_groups-Grows groups t₁ b in
      let lz4 = entry_cost k.lz4_frame k.lz4_block contents key chunks in
      let zstd = entry_cost k.zstd k.zstd contents key chunks in
      let g : Grows lz4 zstd t t₁ =
        subst
          (λ bs.
            Grows (group_cost k.lz4_frame k.lz4_block bs chunks)
              (group_cost k.zstd k.zstd bs chunks) t t₁)
          (sym (get_or_lem contents key [] bytes e)) g₁ in
      (
        t₂,
        rw (e₁, e₂) refl,
        Grows-trans lz4 (weight (entry_cost k.lz4_frame k.lz4_block contents) groups) zstd
            (weight (entry_cost k.zstd k.zstd contents) groups) t t₁ t₂ g g₂,
      )

  -- the entries of the map, as the records give them
  weight-divid_by_base :
      (frame block : List ℕ → ℕ) (t : Totals)
      → KeysBelow (length contents) (divid_by_base k s t).0
      → weight (entry_cost frame block contents) (divid_by_base k s t).0
        ≡ storage_cost frame block s contents
  weight-divid_by_base frame block t b =
      sym (
        sum_to-lookup (entry_cost frame block contents) 0 (length contents) (divid_by_base k s t).0
          (lookup-divid_by_base k s t 0).0 b)
      ∙ sum_to_ext _ _ (length contents) same
    where
      same :
          (id : ℕ)
          → entry_weight (entry_cost frame block contents) id (lookup id (divid_by_base k s t).0)
            ≡ (if any_named id s.meta_file.items
                then entry_cost frame block contents id (deltas_of s.data_file id s.meta_file.items)
                else 0)
      same id = elim (Bool-cases (any_named id s.meta_file.items)) [
        | inl e ↦ rw ((lookup-divid_by_base k s t id).1, e) refl
        | inr e ↦ rw ((lookup-divid_by_base k s t id).1, e) refl
      ]

-- the loop of `dividByBase` counts for single compression alone
divid_loop-kept :
    (k : Compressors) (data_file : Stream ℕ) (metas : List ChunkMeta) (groups : Groups) (t : Totals)
    → (let t' = (divid_loop k data_file metas (groups, t)).1 in
        (t'.total_size_compressed ≡ t.total_size_compressed)
        × (t'.zstd_total_size_compressed ≡ t.zstd_total_size_compressed))
unfolding divid_loop divid_record
divid_loop-kept k data_file [] groups t = (refl, refl)
divid_loop-kept k data_file (m ∷ metas) groups t = divid_loop-kept k data_file metas _ _

-- On a storage with the records of `AddFile`, whatever the compressors give for a buffer,
-- `groupByBase` returns and leaves the storage as it was. To the compressed total of LZ4 and to that of
-- ZSTD it adds, round 2 ^ 64, the sum of what that compressor gives for the groups: one for each number
-- that a record names as its base, with the bytes that are stored under it as the base chunk and the
-- chunks of the delta records that name it, in the order of the records, compressed in runs of 16
-- as `group_cost` says.
pub group_by_base-Grows :
    (k : Compressors) (s : Storage) (contents : List (List ℕ)) (bases : List ℕ) (t : Totals)
    → Stored s contents
    → Based s.meta_file.items bases
    → (t' : Totals) × (group_by_base k s 16 t ≡ some (t', s))
      × Grows
          (storage_cost k.lz4_frame k.lz4_block s contents)
          (storage_cost k.zstd k.zstd s contents)
          t
          t'
unfolding group_by_base divid_by_base
group_by_base-Grows k s contents bases t st b =
    let divided = divid_by_base k s t in
    let below : KeysBelow (length contents) divided.0 =
      subst (λ n. KeysBelow n divided.0) st.count (divid_by_base-KeysBelow k s bases t b) in
    let (t', e, g) = compress_groups-Grows k s contents st divided.0 divided.1 below in
    let kept = divid_loop-kept k s.data_file s.meta_file.items [] t in
    let lz4 = weight-divid_by_base k s contents st k.lz4_frame k.lz4_block t below in
    let zstd = weight-divid_by_base k s contents st k.zstd k.zstd t below in
    (
      t',
      rw (e, rewound_lem s st.opened) refl,
      (omega (arith, g.0, lz4, kept.0), omega (arith, g.1, zstd, kept.1)),
    )
