-- ===== src/Pipeline.antt =====
-- pipeline_delta_compression.h, pipeline_delta_compression.cpp: five workers and the four queues
-- between them. A worker holds at most one context: it takes one from the queue before it, works on
-- it, and puts it into the queue behind it. A step of the relation is one critical section of
-- `get_context_from_queue` or `write_to_queue` together with the work that follows a take. What a
-- worker works on (the chunker, the table of digests, the index, the storage) is its own, so that
-- the order of the work of two workers makes no difference to it.
-- A wait is a step that cannot be taken yet: the steps say nothing of a wake-up that is lost.
-- `AddFile`, which starts and joins the workers, is in the child module File.
pub mod Steps
pub mod Order
pub mod Drained
pub mod Progress
pub mod Ends
pub mod Given
pub mod Counts
pub mod File
pub mod Finish
pub mod Reads
pub mod Sequential
pub mod Flush
pub mod Behind
pub mod Refines
pub mod Determined
mod Tests
use chunk_grouping.Prelude.{
  ℕ, ◌+◌, ◌-◌, ◌<◌, ◌≡◌, Bool, true, false, ◌==◌, if◌then◌else◌, Option, none, some, ◌>>=◌, List,
  [], ◌∷◌, ◌++◌, length, u32, u64,
}
use chunk_grouping.Chunk.{Chunk}
use chunk_grouping.Dedup.{Dedup, process_chunk}
use chunk_grouping.Index.{Feature}
use chunk_grouping.Storage.{
  Storage, base_chunk, delta_chunk, duplicate_chunk, write_base_chunk, write_delta_chunk,
  write_duplicate_chunk, get_delta_encoded_chunk,
}
use chunk_grouping.Compression.{Chunker, FeatureIndex, FileMeta}

abbrev pub max_queue_len : ℕ
max_queue_len = 128

-- `context`; `none` is a member that was not set
pub record Context (Float : Type 0) : Type 0 where
  pub chunk : Chunk
  pub base_chunk_id : Option ℕ
  pub chunk_type : ℕ
  pub feature : Option (Feature Float)

-- what the last worker has: the storage and the counters
pub record Writer : Type 0 where
  pub storage : Storage
  pub total_size_origin : ℕ
  pub total_size_compressed : ℕ
  pub base_chunk_count : ℕ
  pub delta_chunk_count : ℕ
  pub duplicate_chunk_count : ℕ
  pub chunk_size_before_delta : ℕ
  pub chunk_size_after_delta : ℕ
  pub processed_chunk : ℕ

-- a worker's place: what it holds, and the queue behind it with its flag
pub record Place (Float : Type 0) : Type 0 where
  pub held : Option (Context Float)
  pub queue : List (Context Float)
  pub done : Bool

-- the pipeline. `given` and `written` are the history: the chunks that the chunker gave out, and
-- those that the last worker has written.
pub record Pipeline (C Digest I Float : Type 0) : Type 0 where
  pub chunker : C
  pub mp : Dedup Digest
  pub index : I
  pub writer : Writer
  pub chunking : Place Float
  pub dedup : Place Float
  pub features : Place Float
  pub matching : Place Float
  pub given : List Chunk
  pub written : List Chunk

module _ {Float : Type 0} where
  -- the context that `ChunkingWorker` makes
  abbrev pub new_context : Chunk → Context Float
  new_context chunk = record { chunk = chunk; base_chunk_id = none; chunk_type = 0; feature = none }

  -- `DedupWorker`
  unfoldable pub dedup_context :
      {Digest : Type 0} → ℕ × Dedup Digest → Context Float → Context Float
  dedup_context (dedup_base_id, mp) c =
      if dedup_base_id == c.chunk.id
      then c
      else record c { chunk_type = duplicate_chunk; base_chunk_id = some dedup_base_id }

  -- `ChunkWriteWorker`; `none` is a fault of the storage, or the end of the process for a type that
  -- is not one of the three
  unfoldable pub write_context : Writer → Context Float → Option Writer
  write_context w c =
      let w' : Writer = record w {
        total_size_origin = u64 (w.total_size_origin + c.chunk.len);
        processed_chunk = u64 (w.processed_chunk + 1);
      } in
      if c.chunk_type == duplicate_chunk
      then (do
        base_chunk_id ← c.base_chunk_id
        storage ← write_duplicate_chunk w.storage c.chunk base_chunk_id
        some (record w' {
          storage = storage;
          duplicate_chunk_count = u32 (w.duplicate_chunk_count + 1);
        }))
      else if c.chunk_type == base_chunk
      then some (record w' {
        storage = write_base_chunk w.storage c.chunk;
        base_chunk_count = u32 (w.base_chunk_count + 1);
        total_size_compressed = u64 (w.total_size_compressed + c.chunk.len);
      })
      else if c.chunk_type == delta_chunk
      then (do
        base_chunk_id ← c.base_chunk_id
        delta ← get_delta_encoded_chunk w.storage c.chunk base_chunk_id
        some (record w' {
          storage = (write_delta_chunk delta.1 delta.0 base_chunk_id).0;
          delta_chunk_count = u32 (w.delta_chunk_count + 1);
          chunk_size_before_delta = u64 (w.chunk_size_before_delta + c.chunk.len);
          chunk_size_after_delta = u64 (w.chunk_size_after_delta + delta.0.len);
          total_size_compressed = u64 (w.total_size_compressed + delta.0.len);
        }))
      else none

module _ {I Float : Type 0} (x : FeatureIndex Float I) where
  -- `FeatureCalcWorker`
  unfoldable pub feature_context : Context Float → Context Float
  feature_context c =
      if c.chunk_type == duplicate_chunk then c else record c { feature = some (x.feature c.chunk) }

  -- `ChunkMatchWorker`
  unfoldable pub match_context : I → Context Float → Option (I × Context Float)
  match_context index c = if c.chunk_type == duplicate_chunk then some (index, c) else (do
    feature ← c.feature
    found ← x.get_base_chunk_id index feature
    elim found [
      | none ↦ do
        index' ← x.add_feature index feature c.chunk.id
        some (index', record c { chunk_type = base_chunk })
      | some id ↦ some (index, record c { chunk_type = delta_chunk; base_chunk_id = some id })
    ])
