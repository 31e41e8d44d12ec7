-- ===== src/Pipeline/Refines.antt =====
-- The steps of the workers against one chunk after the other.
use chunk_grouping.Prelude.{
  ℕ, ◌≡◌, sym, ap, ap₂, ◌∙◌, Bool, Option, none, ◌>>=◌, List, [], ◌∷◌, ◌++◌, append-nil,
}
use chunk_grouping.Compression.{Chunker, FeatureIndex}
use chunk_grouping.Pipeline.{Context, Place, Pipeline}
use chunk_grouping.Pipeline.Steps.{
  Step, chunk_take, chunk_end, chunk_put, dedup_take, dedup_end, dedup_put, feature_take,
  feature_end, feature_put, match_take, match_end, match_put, write_take, Steps, stay, then,
}
use chunk_grouping.Pipeline.Sequential.{Work, work_on, sequential, sequential-snoc}
use chunk_grouping.Pipeline.Flush.{
  hand, waiting, waiting-put, flush_of, flush_of-dedup, flush_of-feature, flush_of-match,
  flush_of-write,
}
use chunk_grouping.Pipeline.Behind.{flush_of-chunk}

module _ {Digest I Float : Type 0} (same : Digest → Digest → Bool) (sha1_hash : List ℕ → Digest)
    (x : FeatureIndex Float I) where
  -- All that is in the pipeline, worked off.
  abbrev pub flush : {C : Type 0} → Pipeline C Digest I Float → Option (Work Digest I)
  flush s =
      flush_of same sha1_hash x s.mp s.index s.writer (waiting s.chunking) (waiting s.dedup)
        (waiting s.features) (waiting s.matching)

module _ {Name C Digest I Float : Type 0} (chunker : Chunker Name C) (same : Digest → Digest → Bool)
    (sha1_hash : List ℕ → Digest) (x : FeatureIndex Float I) where
  -- the pipeline comes to the same as one chunk after the other
  abbrev pub Agrees : Option (Work Digest I) → Pipeline C Digest I Float → Type 0
  Agrees w s = flush same sha1_hash x s ≡ sequential same sha1_hash x w s.given

  abbrev fl :
      Pipeline C Digest I Float → (ds fs ms ws : List (Context Float)) → Option (Work Digest I)
  fl s ds fs ms ws = flush_of same sha1_hash x s.mp s.index s.writer ds fs ms ws

  waiting-free : (p : Place Float) → p.held ≡ none → p.queue ++ [] ≡ waiting p
  waiting-free p e = ap (λ h. p.queue ++ hand h) (sym e)

  waiting-cons :
      (p : Place Float) (c : Context Float) (rest : List (Context Float))
      → p.queue ≡ c ∷ rest
      → c ∷ (rest ++ hand p.held) ≡ waiting p
  waiting-cons p c rest e = ap (λ q. q ++ hand p.held) (sym e)

  Step-Agrees :
      (w : Option (Work Digest I)) (s t : Pipeline C Digest I Float)
      → Step chunker same sha1_hash x s t
      → Agrees w s
      → Agrees w t
  Step-Agrees w s t (chunk_take _ c chunk free e) h =
      flush_of-chunk same sha1_hash x s.mp s.index s.writer chunk s.chunking.queue (waiting s.dedup)
        (waiting s.features) (waiting s.matching)
      ∙ ap
          (λ ds.
            fl s ds (waiting s.dedup) (waiting s.features) (waiting s.matching)
            >>= work_on same sha1_hash x chunk)
          (sym (append-nil s.chunking.queue) ∙ waiting-free s.chunking free.0)
      ∙ ap (λ o. o >>= work_on same sha1_hash x chunk) h
      ∙ sym (sequential-snoc same sha1_hash x s.given chunk w)
  Step-Agrees w s t (chunk_end _ c free e) h = h
  Step-Agrees w s t (chunk_put _ c e b) h =
      ap (λ ds. fl s ds (waiting s.dedup) (waiting s.features) (waiting s.matching))
        (waiting-put s.chunking c e)
      ∙ h
  Step-Agrees w s t (dedup_take _ c rest free e) h =
      sym (
        flush_of-dedup same sha1_hash x s.mp s.index s.writer c (rest ++ hand s.chunking.held)
          s.dedup.queue (waiting s.features) (waiting s.matching))
      ∙ ap₂ (λ ds fs. fl s ds fs (waiting s.features) (waiting s.matching))
          (waiting-cons s.chunking c rest e) (waiting-free s.dedup free.0)
      ∙ h
  Step-Agrees w s t (dedup_end _ free e) h = h
  Step-Agrees w s t (dedup_put _ c e b) h =
      ap (λ fs. fl s (waiting s.chunking) fs (waiting s.features) (waiting s.matching))
        (waiting-put s.dedup c e)
      ∙ h
  Step-Agrees w s t (feature_take _ c rest free e) h =
      sym (
        flush_of-feature same sha1_hash x s.mp s.index s.writer c (waiting s.chunking)
          (rest ++ hand s.dedup.held) s.features.queue (waiting s.matching))
      ∙ ap₂ (λ fs ms. fl s (waiting s.chunking) fs ms (waiting s.matching))
          (waiting-cons s.dedup c rest e) (waiting-free s.features free.0)
      ∙ h
  Step-Agrees w s t (feature_end _ free e) h = h
  Step-Agrees w s t (feature_put _ c e b) h =
      ap (λ ms. fl s (waiting s.chunking) (waiting s.dedup) ms (waiting s.matching))
        (waiting-put s.features c e)
      ∙ h
  Step-Agrees w s t (match_take _ c c' rest i free e m) h =
      sym (
        flush_of-match same sha1_hash x s.mp s.index i s.writer c c' (waiting s.chunking)
          (waiting s.dedup) (rest ++ hand s.features.held) s.matching.queue m)
      ∙ ap₂ (λ ms ws. fl s (waiting s.chunking) (waiting s.dedup) ms ws)
          (waiting-cons s.features c rest e) (waiting-free s.matching free.0)
      ∙ h
  Step-Agrees w s t (match_end _ free e) h = h
  Step-Agrees w s t (match_put _ c e b) h =
      ap (λ ws. fl s (waiting s.chunking) (waiting s.dedup) (waiting s.features) ws)
        (waiting-put s.matching c e)
      ∙ h
  Step-Agrees w s t (write_take _ c rest w' e m) h =
      sym (
        flush_of-write same sha1_hash x s.mp s.index s.writer w' c (waiting s.chunking)
          (waiting s.dedup) (waiting s.features) (rest ++ hand s.matching.held) m)
      ∙ ap (λ ws. fl s (waiting s.chunking) (waiting s.dedup) (waiting s.features) ws)
          (waiting-cons s.matching c rest e)
      ∙ h

  -- Wherever the workers are, what is in the pipeline comes to what the chunks that were given come to,
  -- one after the other.
  pub Steps-Agrees :
      (w : Option (Work Digest I)) {s t : Pipeline C Digest I Float}
      → Steps chunker same sha1_hash x s t
      → Agrees w s
      → Agrees w t
  Steps-Agrees w stay h = h
  Steps-Agrees w (then {t = t} {u = u} r step) h = Step-Agrees w t u step (Steps-Agrees w r h)
