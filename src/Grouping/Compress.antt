-- ===== src/Grouping/Compress.antt =====
-- storage/storage.cpp, the body of the loop over the groups: what the compressors get of one group.
use native.Mathlib.Decide.{dec_lt}
use chunk_grouping.Prelude.{
  true, false, ℕ, zero, suc, ◌+◌, ◌*◌, ◌/◌, ◌%◌, ◌≤◌, ◌<◌, ◌≡◌, ◌≢◌, refl, ap, ◌∙◌, ◌==◌, ltb,
  if◌then◌else◌, Bool-cases, inl, inr, some, List, [], ◌∷◌, ◌++◌, length, length-take, length-drop,
  take, drop, take_all, drop_all, drop-drop, subst₂, u64, arith,
}
use chunk_grouping.Chunk.{Chunk, joined}
use chunk_grouping.Storage.{Storage}
use chunk_grouping.Grouping.{
  Compressors, Totals, content, compress_base, run_size, compress_run, run_loop, count_group,
  compress_group, add_compressed,
}
use chunk_grouping.Grouping.Weight.{sum_to, sum_to-shift, sum_to_ext}

-- the bytes of the chunks `16 * i` to `16 * i + 15`
abbrev pub run_bytes : List Chunk → ℕ → List ℕ
run_bytes cs i = joined (take 16 (drop (16 * i) cs))

-- What a compressor gives for a group: for each 16 delta chunks its size of their bytes, and for the
-- chunks that are left its size of the base chunk with their bytes behind it. Where none are left it is
-- the size of the base chunk alone, as `block` has it.
abbrev pub group_cost : (List ℕ → ℕ) → (List ℕ → ℕ) → List ℕ → List Chunk → ℕ
group_cost frame block base cs =
    sum_to (λ i. frame (run_bytes cs i)) (length cs / 16)
    + (if length cs % 16 == 0
        then block base
        else frame (base ++ joined (drop (16 * (length cs / 16)) cs)))

-- The total of LZ4 grows by `m` and that of ZSTD by `n`, round 2 ^ 64.
abbrev pub Grows : ℕ → ℕ → Totals → Totals → Type 0
Grows m n t t' =
    (u64 t'.total_size_compressed ≡ u64 (t.total_size_compressed + m))
    × (u64 t'.zstd_total_size_compressed ≡ u64 (t.zstd_total_size_compressed + n))

pub Grows-trans :
    (m m' n n' : ℕ) (t t' t'' : Totals)
    → Grows m n t t'
    → Grows m' n' t' t''
    → Grows (m + m') (n + n') t t''
Grows-trans m m' n n' t t' t'' g h = (omega (arith, g.0, h.0), omega (arith, g.1, h.1))

run_size-kept :
    (run : List Chunk) (t : Totals)
    → ((run_size run t).total_size_compressed ≡ t.total_size_compressed)
      × ((run_size run t).zstd_total_size_compressed ≡ t.zstd_total_size_compressed)
unfolding run_size
run_size-kept [] t = (refl, refl)
run_size-kept (c ∷ cs) t = run_size-kept cs _

count_group-kept :
    (cs : List Chunk) (t : Totals)
    → ((count_group cs t).total_size_compressed ≡ t.total_size_compressed)
      × ((count_group cs t).zstd_total_size_compressed ≡ t.zstd_total_size_compressed)
count_group-kept cs t = elim (Bool-cases (ltb 1 (length cs))) [
  | inl e ↦ rw e (refl, refl)
  | inr e ↦ rw e (refl, refl)
]

-- the runs of a group, for one compressor
module _ (frame : List ℕ → ℕ) (base : List ℕ) where
  abbrev run_cost : List Chunk → ℕ
  run_cost run = if ltb (length run) 16 then frame (base ++ joined run) else frame (joined run)

  abbrev runs_cost : List Chunk → ℕ
  runs_cost cs =
      sum_to (λ i. frame (run_bytes cs i)) (length cs / 16)
      + (if length cs % 16 == 0
          then 0
          else frame (base ++ joined (drop (16 * (length cs / 16)) cs)))

  short-cost : (cs : List Chunk) → length cs ≢ 0 → length cs < 16 → run_cost cs ≡ runs_cost cs
  short-cost cs ne lt =
      let none_full : length cs / 16 ≡ 0 = omega arith in
      let some_left : length cs % 16 ≡ length cs = omega arith in
      rw (none_full, some_left) (ground arith)

  -- the runs behind the first
  run_bytes-drop : (cs : List Chunk) (i : ℕ) → run_bytes (drop 16 cs) i ≡ run_bytes cs (suc i)
  run_bytes-drop cs i =
      ap (λ xs. joined (take 16 xs)) (drop-drop 16 (16 * i) cs)
      ∙ ap (λ n. joined (take 16 (drop n cs))) (omega arith)

  long-cost :
      (cs : List Chunk)
      → 16 ≤ length cs
      → run_cost (take 16 cs) + runs_cost (drop 16 cs) ≡ runs_cost cs
  long-cost cs ge =
      let ds = drop 16 cs in
      let m = length ds / 16 in
      let size : length ds + 16 ≡ length cs = omega (arith, length-drop 16 cs) in
      let full : ltb (length (take 16 cs)) 16 ≡ false = ground (arith, length-take 16 cs) in
      let left : length cs % 16 ≡ length ds % 16 = omega (arith, size) in
      let quotient : length cs / 16 ≡ suc m = omega (arith, size) in
      let rest : drop (16 * m) ds ≡ drop (16 * suc m) cs =
        drop-drop 16 (16 * m) cs ∙ ap (λ n. drop n cs) (omega arith) in
      let runs =
        sum_to_ext (λ i. frame (run_bytes ds i)) (λ i. frame (run_bytes cs (suc i))) m
          (λ i. ap frame (run_bytes-drop cs i)) in
      let shift = sum_to-shift (λ i. frame (run_bytes cs i)) m in
      rw (full, left, quotient, rest) (omega (arith, runs, shift))

  -- The first run and the others.
  runs_cost-step :
      (cs : List Chunk)
      → length cs ≢ 0
      → run_cost (take 16 cs) + runs_cost (drop 16 cs) ≡ runs_cost cs
  runs_cost-step cs ne = elim (dec_lt (length cs) 16) [
    | yes lt ↦
        rw (take_all 16 cs (omega arith), drop_all 16 cs (omega arith))
          (omega (arith, short-cost cs ne lt))
    | no ge ↦ long-cost cs (omega arith)
  ]

  group_cost_full :
      (block : List ℕ → ℕ) (cs : List Chunk)
      → (length cs % 16 == 0) ≡ true
      → group_cost frame block base cs ≡ runs_cost cs + block base
  group_cost_full block cs e = rw e (omega arith)

  group_cost_part :
      (block : List ℕ → ℕ) (cs : List Chunk)
      → (length cs % 16 == 0) ≡ false
      → group_cost frame block base cs ≡ runs_cost cs
  group_cost_part block cs e = rw e refl

module _ (k : Compressors) (s : Storage) (base_chunk_id : ℕ) (base : Chunk)
    (stored : content s base_chunk_id ≡ some base) where
  compress_base-Grows :
      (t : Totals)
      → (t' : Totals) × (compress_base k s base_chunk_id t ≡ some t')
        × Grows (k.lz4_block base.buf) (k.zstd base.buf) t t'
  unfolding compress_base
  compress_base-Grows t =
      (add_compressed t (k.lz4_block base.buf) (k.zstd base.buf), rw stored refl, omega arith)

  compress_run-Grows :
      (run : List Chunk) (t : Totals)
      → (t' : Totals) × (compress_run k s base_chunk_id run t ≡ some t')
        × Grows (run_cost k.lz4_frame base.buf run) (run_cost k.zstd base.buf run) t t'
  unfolding compress_run
  compress_run-Grows run t = elim (Bool-cases (ltb (length run) 16)) [
    | inl short ↦
        let src = base.buf ++ joined run in
        (
          add_compressed (run_size run t) (k.lz4_frame src) (k.zstd src),
          rw (short, stored) refl,
          rw short (omega (arith, run_size-kept run t)),
        )
    | inr full ↦
        let src = joined run in
        (
          add_compressed (run_size run t) (k.lz4_frame src) (k.zstd src),
          rw full refl,
          rw full (omega (arith, run_size-kept run t)),
        )
  ]

  -- With fuel for every chunk the loop over the runs ends.
  run_loop-Grows :
      (fuel : ℕ) (cs : List Chunk) (t : Totals)
      → length cs ≤ fuel
      → (t' : Totals) × (run_loop k fuel s 16 base_chunk_id cs t ≡ some t')
        × Grows (runs_cost k.lz4_frame base.buf cs) (runs_cost k.zstd base.buf cs) t t'
  unfolding run_loop
  run_loop-Grows fuel [] t h = (t, refl, omega arith)
  run_loop-Grows zero (c ∷ cs) t h = absurd (omega arith)
  run_loop-Grows (suc fuel) (c ∷ cs) t h =
      let first = take 16 (c ∷ cs) in
      let rest = drop 16 (c ∷ cs) in
      let lz4 = runs_cost-step k.lz4_frame base.buf (c ∷ cs) (omega arith) in
      let zstd = runs_cost-step k.zstd base.buf (c ∷ cs) (omega arith) in
      let (t₁, e₁, g₁) = compress_run-Grows first t in
      let (t₂, e₂, g₂) = run_loop-Grows fuel rest t₁ (omega (arith, length-drop 16 (c ∷ cs))) in
      (
        t₂,
        rw (e₁, e₂) refl,
        subst₂ (λ m n. Grows m n t t₂) lz4 zstd
            (Grows-trans (run_cost k.lz4_frame base.buf first) (runs_cost k.lz4_frame base.buf rest)
              (run_cost k.zstd base.buf first) (runs_cost k.zstd base.buf rest) t t₁ t₂ g₁ g₂),
      )

  -- Whatever the compressors give for a buffer, the compression of a group whose base chunk is stored
  -- returns, and adds to each total, round 2 ^ 64, what `group_cost` says of its compressor: for
  -- each run of 16 delta chunks the size of their bytes alone, and for the chunks behind the last
  -- full run the size of the base chunk with their bytes behind it. Where none are left it is the size of
  -- the base chunk alone, for which LZ4 is called without a frame.
  pub compress_group-Grows :
      (cs : List Chunk) (t : Totals)
      → (t' : Totals) × (compress_group k s 16 (base_chunk_id, cs) t ≡ some t')
        × Grows
            (group_cost k.lz4_frame k.lz4_block base.buf cs)
            (group_cost k.zstd k.zstd base.buf cs)
            t
            t'
  unfolding compress_group
  compress_group-Grows [] t =
      let (t', e, g) = compress_base-Grows t in
      (t', rw (stored, e) refl, (omega (arith, g.0), omega (arith, g.1)))
  compress_group-Grows (c ∷ cs) t =
      let (t₁, e₁, g₁) =
        run_loop-Grows (length (c ∷ cs)) (c ∷ cs) (count_group (c ∷ cs) t) (omega arith) in
      let kept = count_group-kept (c ∷ cs) t in
      elim (Bool-cases (length (c ∷ cs) % 16 == 0)) [
        | inl full ↦
            let (t₂, e₂, g₂) = compress_base-Grows t₁ in
            let lz4 = group_cost_full k.lz4_frame base.buf k.lz4_block (c ∷ cs) full in
            let zstd = group_cost_full k.zstd base.buf k.zstd (c ∷ cs) full in
            (
              t₂,
              rw (stored, e₁, full, e₂) refl,
              (omega (arith, lz4, g₁.0, g₂.0, kept.0), omega (arith, zstd, g₁.1, g₂.1, kept.1)),
            )
        | inr part ↦
            let lz4 = group_cost_part k.lz4_frame base.buf k.lz4_block (c ∷ cs) part in
            let zstd = group_cost_part k.zstd base.buf k.zstd (c ∷ cs) part in
            (
              t₁,
              rw (stored, e₁, part) refl,
              (omega (arith, lz4, g₁.0, kept.0), omega (arith, zstd, g₁.1, kept.1)),
            )
      ]
