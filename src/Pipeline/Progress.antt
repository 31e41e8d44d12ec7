-- ===== src/Pipeline/Progress.antt =====
-- No deadlock: as long as the pipeline is not drained, some worker can take a step, or the operation
-- that is next faults.
use chunk_grouping.Prelude.{
  ℕ, ◌≡◌, refl, Bool, true, false, Option, none, some, List, [], ◌∷◌, arith,
}
use chunk_grouping.Chunk.{Chunk}
use chunk_grouping.Compression.{Chunker, FeatureIndex}
use chunk_grouping.Pipeline.{Context, Place, Pipeline, match_context, write_context}
use chunk_grouping.Pipeline.Steps.{
  IsFree, IsDry, Step, chunk_take, chunk_end, chunk_put, dedup_take, dedup_end, dedup_put,
  feature_take, feature_end, feature_put, match_take, match_end, match_put, write_take,
}

module _ {Float : Type 0} where
  -- How a place stands: its queue has a context; or it is empty, and the worker holds one; or the
  -- worker has ended; or it is free.
  data Standing (p : Place Float) : Type 0 where
    ready : (c : Context Float) (rest : List (Context Float)) → p.queue ≡ c ∷ rest → Standing p
    holding : (c : Context Float) → p.queue ≡ [] → p.held ≡ some c → Standing p
    over : IsDry p → Standing p
    free : p.queue ≡ [] → IsFree p → Standing p

  standing : (p : Place Float) → Standing p
  standing p = by_queue p.queue refl
    where
      by_done : (d : Bool) → p.queue ≡ [] → p.held ≡ none → p.done ≡ d → Standing p
      by_done true q h e = over (q, e)
      by_done false q h e = free q (h, e)

      by_held : (o : Option (Context Float)) → p.queue ≡ [] → p.held ≡ o → Standing p
      by_held none q h = by_done p.done q h refl
      by_held (some c) q h = holding c q h

      by_queue : (cs : List (Context Float)) → p.queue ≡ cs → Standing p
      by_queue [] q = by_held p.held q refl
      by_queue (c ∷ cs) q = ready c cs q

module _ {Name C Digest I Float : Type 0} (chunker : Chunker Name C) (same : Digest → Digest → Bool)
    (sha1_hash : List ℕ → Digest) (x : FeatureIndex Float I) where
  -- The operation that a worker does next is a fault.
  pub data Faults (s : Pipeline C Digest I Float) : Type 0 where
    chunker_faults : IsFree s.chunking → chunker.get_next_chunk s.chunker ≡ none → Faults s
    match_faults :
        (c : Context Float) (rest : List (Context Float))
        → IsFree s.matching
        → s.features.queue ≡ c ∷ rest
        → match_context x s.index c ≡ none
        → Faults s
    write_faults :
        (c : Context Float) (rest : List (Context Float))
        → s.matching.queue ≡ c ∷ rest
        → write_context s.writer c ≡ none
        → Faults s

  -- What comes next.
  pub data Progress (s : Pipeline C Digest I Float) : Type 0 where
    goes_on : (t : Pipeline C Digest I Float) → Step chunker same sha1_hash x s t → Progress s
    faults : Faults s → Progress s
    drained : IsDry s.matching → Progress s

  chunk_progress : (s : Pipeline C Digest I Float) → IsFree s.chunking → Progress s
  chunk_progress s f = go (chunker.get_next_chunk s.chunker) refl
    where
      go : (r : Option (C × Option Chunk)) → chunker.get_next_chunk s.chunker ≡ r → Progress s
      go none e = faults (chunker_faults f e)
      go (some (c, none)) e = goes_on _ (chunk_end s c f e)
      go (some (c, some chunk)) e = goes_on _ (chunk_take s c chunk f e)

  dedup_progress : (s : Pipeline C Digest I Float) → IsFree s.dedup → Progress s
  dedup_progress s f = elim (standing s.chunking) [
    | ready c rest q ↦ goes_on _ (dedup_take s c rest f q)
    | holding c q h ↦ goes_on _ (chunk_put s c h (rw q (omega arith)))
    | over dry ↦ goes_on _ (dedup_end s f dry)
    | free q g ↦ chunk_progress s g
  ]

  feature_progress : (s : Pipeline C Digest I Float) → IsFree s.features → Progress s
  feature_progress s f = elim (standing s.dedup) [
    | ready c rest q ↦ goes_on _ (feature_take s c rest f q)
    | holding c q h ↦ goes_on _ (dedup_put s c h (rw q (omega arith)))
    | over dry ↦ goes_on _ (feature_end s f dry)
    | free q g ↦ dedup_progress s g
  ]

  take_progress :
      (s : Pipeline C Digest I Float) (c : Context Float) (rest : List (Context Float))
      → IsFree s.matching
      → s.features.queue ≡ c ∷ rest
      → (r : Option (I × Context Float)) → match_context x s.index c ≡ r
      → Progress s
  take_progress s c rest f q none e = faults (match_faults c rest f q e)
  take_progress s c rest f q (some (i, c')) e = goes_on _ (match_take s c c' rest i f q e)

  match_progress : (s : Pipeline C Digest I Float) → IsFree s.matching → Progress s
  match_progress s f = elim (standing s.features) [
    | ready c rest q ↦ take_progress s c rest f q (match_context x s.index c) refl
    | holding c q h ↦ goes_on _ (feature_put s c h (rw q (omega arith)))
    | over dry ↦ goes_on _ (match_end s f dry)
    | free q g ↦ feature_progress s g
  ]

  write_progress :
      (s : Pipeline C Digest I Float) (c : Context Float) (rest : List (Context Float))
      → s.matching.queue ≡ c ∷ rest
      → (r : Option _) → write_context s.writer c ≡ r
      → Progress s
  write_progress s c rest q none e = faults (write_faults c rest q e)
  write_progress s c rest q (some w) e = goes_on _ (write_take s c rest w q e)

  pub progress : (s : Pipeline C Digest I Float) → Progress s
  progress s = elim (standing s.matching) [
    | ready c rest q ↦ write_progress s c rest q (write_context s.writer c) refl
    | holding c q h ↦ goes_on _ (match_put s c h (rw q (omega arith)))
    | over dry ↦ drained dry
    | free q g ↦ match_progress s g
  ]
