-- ===== src/Pipeline/Finish.antt =====
-- `PipelineDeltaCompression::AddFile` comes to an end: all chunks of the file are written in order, or
-- an operation of a worker faults.
use chunk_grouping.Prelude.{
  ℕ, suc, ◌+◌, ◌-◌, ◌<◌, ◌^◌, ◌≡◌, ◌≢◌, refl, ap, sym, ◌∙◌, ◌⊎◌, inl, inr, Bool, true, some, List,
  [], ◌∷◌, ◌++◌, append-nil, length, length-append, u32, u64, sub64, arith,
}
use chunk_grouping.Chunk.{Chunk}
use chunk_grouping.Compression.{Chunker, FeatureIndex, FileMeta}
use chunk_grouping.Compression.Laws.{Yields}
use chunk_grouping.Pipeline.{Pipeline}
use chunk_grouping.Pipeline.Counts.{write_context-processed_chunk}
use chunk_grouping.Pipeline.Steps.{
  IsDry, Step, chunk_take, chunk_end, chunk_put, dedup_take, dedup_end, dedup_put, feature_take,
  feature_end, feature_put, match_take, match_end, match_put, write_take, Steps, stay, then,
}
use chunk_grouping.Pipeline.File.{start_file, end_file, IsIdle}
use chunk_grouping.Pipeline.Order.{flight, IsBounded}
use chunk_grouping.Pipeline.Drained.{IsClosed, Steps-IsClosed, Steps-drained}
use chunk_grouping.Pipeline.Progress.{Faults}
use chunk_grouping.Pipeline.Ends.{IsCounting, steps_left, Steps-Valid, run_on}
use chunk_grouping.Pipeline.Given.{IsGiving, Steps-IsGiving}

module _ {Name C Digest I Float : Type 0} (chunker : Chunker Name C) (same : Digest → Digest → Bool)
    (sha1_hash : List ℕ → Digest) (x : FeatureIndex Float I) where
  -- as many chunks are counted as are written
  Step-processed_chunk :
      (p : ℕ) (s t : Pipeline C Digest I Float)
      → Step chunker same sha1_hash x s t
      → s.writer.processed_chunk ≡ u64 (p + length s.written)
      → t.writer.processed_chunk ≡ u64 (p + length t.written)
  Step-processed_chunk p s t (chunk_take _ c chunk free e) h = h
  Step-processed_chunk p s t (chunk_end _ c free e) h = h
  Step-processed_chunk p s t (chunk_put _ c e b) h = h
  Step-processed_chunk p s t (dedup_take _ c rest free e) h = h
  Step-processed_chunk p s t (dedup_end _ free e) h = h
  Step-processed_chunk p s t (dedup_put _ c e b) h = h
  Step-processed_chunk p s t (feature_take _ c rest free e) h = h
  Step-processed_chunk p s t (feature_end _ free e) h = h
  Step-processed_chunk p s t (feature_put _ c e b) h = h
  Step-processed_chunk p s t (match_take _ c c' rest i free e m) h = h
  Step-processed_chunk p s t (match_end _ free e) h = h
  Step-processed_chunk p s t (match_put _ c e b) h = h
  Step-processed_chunk p s t (write_take _ c rest w e m) h = omega (
    arith,
    write_context-processed_chunk s.writer w c m,
    length-append s.written (c.chunk ∷ []),
    h,
  )

  Steps-processed_chunk :
      (p : ℕ) {s t : Pipeline C Digest I Float}
      → Steps chunker same sha1_hash x s t
      → s.writer.processed_chunk ≡ u64 (p + length s.written)
      → t.writer.processed_chunk ≡ u64 (p + length t.written)
  Steps-processed_chunk p stay h = h
  Steps-processed_chunk p (then {t = t} {u = u} r step) h =
      Step-processed_chunk p t u step (Steps-processed_chunk p r h)

  pub steps_join :
      {s t u : Pipeline C Digest I Float}
      → Steps chunker same sha1_hash x s t
      → Steps chunker same sha1_hash x t u
      → Steps chunker same sha1_hash x s u
  steps_join r stay = r
  steps_join r (then q step) = then (steps_join r q) step

  -- All workers have ended, these chunks are written, `p` and their number are counted, and unless
  -- there are none the last number of the file is that of the last of them.
  pub record IsDone (p : ℕ) (chunks : List Chunk) (u : Pipeline C Digest I Float) : Type 0 where
    pub dry : IsDry u.matching
    pub all_written : u.written ≡ chunks
    pub processed : u.writer.processed_chunk ≡ p + length chunks
    pub meta :
        (file_meta : FileMeta Name)
        → chunks ≢ []
        → (end_file u file_meta).end_chunk_id ≡ some (u32 (p + length chunks - 1))

  end_file-last :
      (u : Pipeline C Digest I Float) (m : FileMeta Name) (p : ℕ) (chunks : List Chunk)
      → u.writer.processed_chunk ≡ p + length chunks
      → p + length chunks < 2 ^ 64
      → chunks ≢ []
      → (end_file u m).end_chunk_id ≡ some (u32 (p + length chunks - 1))
  unfolding end_file
  end_file-last u m p [] e small ne = absurd (ne refl)
  end_file-last u m p (c ∷ cs) e small ne =
      let same : sub64 u.writer.processed_chunk 1 ≡ p + length (c ∷ cs) - 1 =
        omega (arith, e, small) in
      ap (λ k. some (u32 k)) same

  pub chunking_done :
      (u : Pipeline C Digest I Float) → IsClosed u → IsDry u.matching → u.chunking.done ≡ true
  chunking_done u (a, b, c, d) dry =
      let (features, matching) = d dry.1 in let (dedup, feature) = c features.1 in (b dedup.1).0.1

  module _ (s : Pipeline C Digest I Float) (file_name : Name) (chunks : List Chunk) (last : C)
      (idle : IsIdle s) (small : s.writer.processed_chunk + length chunks < 2 ^ 64) where
    abbrev start : Pipeline C Digest I Float
    start = (start_file chunker s file_name).0

    -- Where all workers have ended, the chunks of the file are written.
    pub drained-IsDone :
        (u : Pipeline C Digest I Float)
        → Yields chunker start.chunker chunks last
        → Steps chunker same sha1_hash x start u
        → IsDry u.matching
        → IsDone s.writer.processed_chunk chunks u
    unfolding start_file
    drained-IsDone u y q dry =
        let order : start.written ++ flight start ≡ start.given =
          rw (idle.match_queue, idle.feature_queue, idle.dedup_queue, idle.chunk_queue) refl in
        let bounded : IsBounded start = omega (
          arith,
          ap length idle.match_queue,
          ap length idle.feature_queue,
          ap length idle.dedup_queue,
          ap length idle.chunk_queue,
        ) in
        let closed : IsClosed start = ((λ _. refl), (λ d. cc), (λ d. cc), (λ d. cc)) in
        let giving : IsGiving chunker chunks start = record {
          rest = chunks;
          last = last;
          parts = refl;
          going = λ _. y;
          ended = λ d. cc;
        } in
        let g = Steps-IsGiving chunker chunks same sha1_hash x q giving in
        let none_left =
          g.ended (chunking_done u (Steps-IsClosed chunker same sha1_hash x q closed) dry) in
        let given : u.given ≡ chunks =
          sym (append-nil u.given) ∙ ap (◌++◌ u.given) (sym none_left) ∙ g.parts in
        let written = Steps-drained chunker same sha1_hash x q order bounded closed dry ∙ given in
        let count : u.writer.processed_chunk ≡ s.writer.processed_chunk + length chunks = omega (
          arith,
          Steps-processed_chunk s.writer.processed_chunk q (omega arith),
          ap length written,
        ) in
        record {
          dry = dry;
          all_written = written;
          processed = count;
          meta = λ m ne. end_file-last u m s.writer.processed_chunk chunks count small ne;
        }

    -- After `AddFile` has started the workers with empty queues on a file that the chunker cuts into
    -- `chunks`: wherever they are, there are steps of theirs that lead to where the chunks of the file
    -- are written, all of them and in order, and counted, or to an operation of a worker that faults.
    -- This holds where the chunker is in a valid state and a valid state has with each chunk that
    -- it gives one fewer to give and stays valid, as a FastCDC chunker in the middle of a file does,
    -- and where the count of all chunks stays below 2 ^ 64. The steps have a wait as a guard: a
    -- worker whose wake-up is lost, as can happen in `TaskQueue`, sleeps on, and nothing is
    -- said of that.
    pub start_file-IsDone :
        (Valid : C → Type 0) (left : C → ℕ) (t : Pipeline C Digest I Float)
        → IsCounting chunker Valid left
        → Valid start.chunker
        → Yields chunker start.chunker chunks last
        → Steps chunker same sha1_hash x start t
        → (u : Pipeline C Digest I Float) × Steps chunker same sha1_hash x t u
          × (Faults chunker same sha1_hash x u ⊎ IsDone s.writer.processed_chunk chunks u)
    start_file-IsDone Valid left t counting valid y r =
        let at_t = Steps-Valid chunker same sha1_hash x Valid left counting valid r in
        let (u, go, result) =
          run_on chunker same sha1_hash x Valid left counting (suc (steps_left left t)) t t at_t
            stay (omega arith) in
        (
          u,
          go,
          elim result [ inl f ↦ inl f | inr dry ↦ inr (drained-IsDone u y (steps_join r go) dry) ],
        )
