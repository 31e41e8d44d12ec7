-- ===== src/Pipeline/Steps.antt =====
-- The steps of the workers, and the pipelines that they reach from one with nothing in it.
use chunk_grouping.Prelude.{ℕ, ◌<◌, ◌≡◌, Bool, true, false, none, some, List, [], ◌∷◌, ◌++◌, length}
use chunk_grouping.Chunk.{Chunk}
use chunk_grouping.Dedup.{process_chunk}
use chunk_grouping.Compression.{Chunker, FeatureIndex}
use chunk_grouping.Pipeline.{
  max_queue_len, Context, Place, Pipeline, new_context, dedup_context, feature_context,
  match_context, write_context,
}

module _ {Float : Type 0} where
  -- `write_to_queue`
  abbrev pub put : Place Float → Context Float → Place Float
  put p c = record p { held = none; queue = p.queue ++ c ∷ [] }

  -- `TASK_NAME_queue_.pop()`
  abbrev pub pop : Place Float → List (Context Float) → Place Float
  pop p rest = record p { queue = rest }

  abbrev pub hold : Place Float → Context Float → Place Float
  hold p c = record p { held = some c }

  -- `task_done`
  abbrev pub task_done : Place Float → Place Float
  task_done p = record p { done = true }

  -- the worker of this place goes on, and holds nothing
  abbrev pub IsFree : Place Float → Type 0
  IsFree p = (p.held ≡ none) × (p.done ≡ false)

  -- nothing can come from this place any more
  abbrev pub IsDry : Place Float → Type 0
  IsDry p = (p.queue ≡ []) × (p.done ≡ true)

module _ {Name C Digest I Float : Type 0} (chunker : Chunker Name C) (same : Digest → Digest → Bool)
    (sha1_hash : List ℕ → Digest) (x : FeatureIndex Float I) where
  pub data Step : Pipeline C Digest I Float → Pipeline C Digest I Float → Type 0 where
    chunk_take :
        (s : Pipeline C Digest I Float) (chunker' : C) (chunk : Chunk)
        → IsFree s.chunking
        → chunker.get_next_chunk s.chunker ≡ some (chunker', some chunk)
        → Step s (record s {
          chunker = chunker';
          chunking = hold s.chunking (new_context chunk);
          given = s.given ++ chunk ∷ [];
        })
    chunk_end :
        (s : Pipeline C Digest I Float) (chunker' : C)
        → IsFree s.chunking
        → chunker.get_next_chunk s.chunker ≡ some (chunker', none)
        → Step s (record s { chunker = chunker'; chunking = task_done s.chunking })
    chunk_put :
        (s : Pipeline C Digest I Float) (c : Context Float)
        → s.chunking.held ≡ some c
        → length s.chunking.queue < max_queue_len
        → Step s (record s { chunking = put s.chunking c })
    dedup_take :
        (s : Pipeline C Digest I Float) (c : Context Float) (rest : List (Context Float))
        → IsFree s.dedup
        → s.chunking.queue ≡ c ∷ rest
        → Step s (record s {
          mp = (process_chunk same sha1_hash s.mp c.chunk).1;
          chunking = pop s.chunking rest;
          dedup = hold s.dedup (dedup_context (process_chunk same sha1_hash s.mp c.chunk) c);
        })
    dedup_end :
        (s : Pipeline C Digest I Float)
        → IsFree s.dedup
        → IsDry s.chunking
        → Step s (record s { dedup = task_done s.dedup })
    dedup_put :
        (s : Pipeline C Digest I Float) (c : Context Float)
        → s.dedup.held ≡ some c
        → length s.dedup.queue < max_queue_len
        → Step s (record s { dedup = put s.dedup c })
    feature_take :
        (s : Pipeline C Digest I Float) (c : Context Float) (rest : List (Context Float))
        → IsFree s.features
        → s.dedup.queue ≡ c ∷ rest
        → Step s (record s {
          dedup = pop s.dedup rest;
          features = hold s.features (feature_context x c);
        })
    feature_end :
        (s : Pipeline C Digest I Float)
        → IsFree s.features
        → IsDry s.dedup
        → Step s (record s { features = task_done s.features })
    feature_put :
        (s : Pipeline C Digest I Float) (c : Context Float)
        → s.features.held ≡ some c
        → length s.features.queue < max_queue_len
        → Step s (record s { features = put s.features c })
    match_take :
        (s : Pipeline C Digest I Float) (c c' : Context Float) (rest : List (Context Float))
        (index' : I)
        → IsFree s.matching
        → s.features.queue ≡ c ∷ rest
        → match_context x s.index c ≡ some (index', c')
        → Step s (record s {
          index = index';
          features = pop s.features rest;
          matching = hold s.matching c';
        })
    match_end :
        (s : Pipeline C Digest I Float)
        → IsFree s.matching
        → IsDry s.features
        → Step s (record s { matching = task_done s.matching })
    match_put :
        (s : Pipeline C Digest I Float) (c : Context Float)
        → s.matching.held ≡ some c
        → length s.matching.queue < max_queue_len
        → Step s (record s { matching = put s.matching c })
    write_take :
        (s : Pipeline C Digest I Float) (c : Context Float) (rest : List (Context Float))
        (writer' : _)
        → s.matching.queue ≡ c ∷ rest
        → write_context s.writer c ≡ some writer'
        → Step s (record s {
          writer = writer';
          matching = pop s.matching rest;
          written = s.written ++ c.chunk ∷ [];
        })

  -- any number of steps
  pub data Steps (s : Pipeline C Digest I Float) : Pipeline C Digest I Float → Type 0 where
    stay : Steps s s
    then : {t u : Pipeline C Digest I Float} → Steps s t → Step t u → Steps s u
