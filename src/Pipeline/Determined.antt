-- ===== src/Pipeline/Determined.antt =====
-- `PipelineDeltaCompression::AddFile` ends with what one chunk after the other gives, whatever the
-- order of the workers' steps.
use chunk_grouping.Prelude.{
  ℕ, ◌+◌, ◌<◌, ◌^◌, ◌≡◌, refl, sym, ap, ap₂, ◌∙◌, Bool, false, Option, none, some, List, [], ◌∷◌,
  ◌++◌, length,
}
use chunk_grouping.Chunk.{Chunk}
use chunk_grouping.Dedup.{Dedup}
use chunk_grouping.Compression.{Chunker, FeatureIndex}
use chunk_grouping.Compression.Laws.{Yields}
use chunk_grouping.Pipeline.{Context, Place, Pipeline, Writer, write_context}
use chunk_grouping.Pipeline.Steps.{IsDry, Steps}
use chunk_grouping.Pipeline.File.{start_file, IsIdle}
use chunk_grouping.Pipeline.Drained.{IsClosed, Steps-IsClosed}
use chunk_grouping.Pipeline.Progress.{Faults, chunker_faults, match_faults, write_faults}
use chunk_grouping.Pipeline.Given.{IsGiving, Steps-IsGiving}
use chunk_grouping.Pipeline.Finish.{IsDone, drained-IsDone, chunking_done}
use chunk_grouping.Pipeline.Sequential.{
  Work, sequential, sequential-none, features_of, dedup_all, match_all,
}
use chunk_grouping.Pipeline.Flush.{hand, waiting, finish, flush_of}
use chunk_grouping.Pipeline.Refines.{flush, Agrees, Steps-Agrees}

module _ {C Digest I Float : Type 0} where
  abbrev pub work_of : Pipeline C Digest I Float → Work Digest I
  work_of s = record { mp = s.mp; index = s.index; writer = s.writer }

waiting-nothing : {Float : Type 0} (p : Place Float) → p.queue ≡ [] → p.held ≡ none → waiting p ≡ []
waiting-nothing p q h = ap₂ (λ q h. q ++ hand h) q h

module _ {Name C Digest I Float : Type 0} (chunker : Chunker Name C) (same : Digest → Digest → Bool)
    (sha1_hash : List ℕ → Digest) (x : FeatureIndex Float I) where
  flush-nothing :
      (s : Pipeline C Digest I Float)
      → waiting s.chunking ≡ []
      → waiting s.dedup ≡ []
      → waiting s.features ≡ []
      → waiting s.matching ≡ []
      → flush same sha1_hash x s ≡ some (work_of s)
  flush-nothing s a b c d =
      ap₂
        (λ ds fs.
          flush_of same sha1_hash x s.mp s.index s.writer ds fs (waiting s.features)
            (waiting s.matching))
        a b
      ∙ ap₂ (λ ms ws. flush_of same sha1_hash x s.mp s.index s.writer [] [] ms ws) c d

  flush-IsClosed :
      (u : Pipeline C Digest I Float)
      → IsClosed u
      → IsDry u.matching
      → flush same sha1_hash x u ≡ some (work_of u)
  flush-IsClosed u (a, b, c, d) dry =
      let (features, hand₃) = d dry.1 in
      let (dedup, hand₂) = c features.1 in
      let (chunking, hand₁) = b dedup.1 in
      flush-nothing u (waiting-nothing u.chunking chunking.0 (a chunking.1))
        (waiting-nothing u.dedup dedup.0 hand₁) (waiting-nothing u.features features.0 hand₂)
        (waiting-nothing u.matching dry.0 hand₃)

  finish-none :
      (mp : Dedup Digest) (writer : Writer) (c : Context Float) (ws : List (Context Float))
      → write_context writer c ≡ none
      → (o : Option (I × List (Context Float)))
      → finish same sha1_hash x mp writer (c ∷ ws) o ≡ none
  finish-none mp writer c ws e none = refl
  finish-none mp writer c ws e (some r) = rw e refl

  -- an operation that faults leaves nothing to come to
  flush-Faults :
      (u : Pipeline C Digest I Float) (rest : List Chunk) (last : C)
      → (u.chunking.done ≡ false → Yields chunker u.chunker rest last)
      → Faults chunker same sha1_hash x u
      → flush same sha1_hash x u ≡ none
  flush-Faults u [] last y (chunker_faults free e) = let z = y free.1 in cc
  flush-Faults u (c ∷ cs) last y (chunker_faults free e) = let z = (y free.1).1 in cc
  flush-Faults u rest last y (match_faults c more free e m) = rw (e, m) refl
  flush-Faults u rest last y (write_faults c more e m) = rw e (
      finish-none (dedup_all same sha1_hash x u.mp (waiting u.chunking)).0 u.writer c
        (more ++ hand u.matching.held) m
        (match_all same sha1_hash x u.index (
          waiting u.features
          ++ features_of same sha1_hash x
              (waiting u.dedup ++ (dedup_all same sha1_hash x u.mp (waiting u.chunking)).1))))

  sequential-append :
      (cs ds : List Chunk) (w : Option (Work Digest I))
      → sequential same sha1_hash x w (cs ++ ds)
        ≡ sequential same sha1_hash x (sequential same sha1_hash x w cs) ds
  sequential-append [] ds w = refl
  sequential-append (c ∷ cs) ds w = sequential-append cs ds _

  module _ (s : Pipeline C Digest I Float) (file_name : Name) (chunks : List Chunk) (last : C)
      (idle : IsIdle s) (small : s.writer.processed_chunk + length chunks < 2 ^ 64) where
    abbrev start : Pipeline C Digest I Float
    start = (start_file chunker s file_name).0

    -- `AddFile` has started the workers with empty queues on a file that the chunker cuts into
    -- `chunks`, the count of all chunks stays below 2 ^ 64, and the workers have taken any steps in any
    -- order. If all workers have ended then, the chunks are written, all of them and in order, and the
    -- table of digests, the index, the storage and the counters are those that come of handling one
    -- chunk after the other. If an operation of a worker faults then, handling one chunk after the
    -- other faults too. That the workers end is not said.
    pub start_file-sequential :
        (u : Pipeline C Digest I Float)
        → Yields chunker start.chunker chunks last
        → Steps chunker same sha1_hash x start u
        → (IsDry u.matching
            → IsDone chunker same sha1_hash x s.writer.processed_chunk chunks u
              × (sequential same sha1_hash x (some (work_of s)) chunks ≡ some (work_of u)))
          × (Faults chunker same sha1_hash x u
              → sequential same sha1_hash x (some (work_of s)) chunks ≡ none)
    unfolding start_file
    start_file-sequential u y q = (
      (λ dry.
          let ended = g.ended (chunking_done chunker same sha1_hash x u closed dry) in
          (
            drained-IsDone chunker same sha1_hash x s file_name chunks last idle small u y q dry,
            whole
                ∙ ap₂ (λ o cs. sequential same sha1_hash x o cs) (flush-IsClosed u closed dry)
                    ended,
          )),
      (λ f.
          whole
          ∙ ap (λ o. sequential same sha1_hash x o g.rest) (flush-Faults u g.rest g.last g.going f)
          ∙ sequential-none same sha1_hash x g.rest),
    )
      where
        at_start : Agrees chunker same sha1_hash x (some (work_of s)) start
        at_start =
            flush-nothing start (waiting-nothing start.chunking idle.chunk_queue refl)
              (waiting-nothing start.dedup idle.dedup_queue refl)
              (waiting-nothing start.features idle.feature_queue refl)
              (waiting-nothing start.matching idle.match_queue refl)

        closed : IsClosed u
        closed =
            Steps-IsClosed chunker same sha1_hash x q ((λ _. refl), (λ d. cc), (λ d. cc), (λ d. cc))

        giving : IsGiving chunker chunks start
        giving = record {
          rest = chunks;
          last = last;
          parts = refl;
          going = λ _. y;
          ended = λ d. cc;
        }

        g : IsGiving chunker chunks u
        g = Steps-IsGiving chunker chunks same sha1_hash x q giving

        whole :
            sequential same sha1_hash x (some (work_of s)) chunks
            ≡ sequential same sha1_hash x (flush same sha1_hash x u) g.rest
        whole =
            ap (sequential same sha1_hash x (some (work_of s))) (sym g.parts)
            ∙ sequential-append u.given g.rest (some (work_of s))
            ∙ ap (λ o. sequential same sha1_hash x o g.rest)
                (sym (Steps-Agrees chunker same sha1_hash x (some (work_of s)) q at_start))
