-- ===== src/Pipeline/File.antt =====
-- `PipelineDeltaCompression::AddFile`: the workers are started on a file, and joined when the last of
-- them has ended.
use chunk_grouping.Prelude.{◌≡◌, false, none, some, [], u32, sub64}
use chunk_grouping.Compression.{Chunker, FileMeta}
use chunk_grouping.Pipeline.{Place, Pipeline}

-- a worker that is started: it holds nothing, and its flag is not set
abbrev pub started : {Float : Type 0} → Place Float → Place Float
started p = record p { held = none; done = false }

module _ {C Digest I Float : Type 0} where
  -- up to the start of the threads; the history begins anew
  unfoldable pub start_file :
      {Name : Type 0}
      → Chunker Name C
      → Pipeline C Digest I Float
      → Name
      → Pipeline C Digest I Float × FileMeta Name
  start_file chunker s file_name = (
    record s {
      chunker = (chunker.reinit_with_file s.chunker file_name).0;
      chunking = started s.chunking;
      dedup = started s.dedup;
      features = started s.features;
      matching = started s.matching;
      given = [];
      written = [];
    },
    record {
      file_name = file_name;
      start_chunk_id = u32 s.writer.processed_chunk;
      end_chunk_id = none;
    },
  )

  -- behind the `join` of the last thread
  unfoldable pub end_file :
      {Name : Type 0} → Pipeline C Digest I Float → FileMeta Name → FileMeta Name
  end_file s file_meta = record file_meta {
    end_chunk_id = some (u32 (sub64 s.writer.processed_chunk 1));
  }

  -- Between two files the queues are empty.
  pub record IsIdle (s : Pipeline C Digest I Float) : Type 0 where
    pub chunk_queue : s.chunking.queue ≡ []
    pub dedup_queue : s.dedup.queue ≡ []
    pub feature_queue : s.features.queue ≡ []
    pub match_queue : s.matching.queue ≡ []
