-- ===== src/Pipeline/Tests.antt =====
-- A pipeline over a chunker that has two chunks, with an index that finds nothing.
use chunk_grouping.Prelude.{
  lookup_by, ℕ, zero, ◌+◌, ◌≤◌, ◌⊎◌, suc, ◌≡◌, refl, true, false, ◌==◌, none, some, [], ◌∷◌, ◌++◌,
  length, arith,
}
use chunk_grouping.Chunk.{Chunk}
use chunk_grouping.Storage.{base_chunk, storage}
use chunk_grouping.Index.{words}
use chunk_grouping.Compression.{Chunker, FeatureIndex, fast_cdc_chunker}
use chunk_grouping.Pipeline.{
  Context, Place, Pipeline, dedup_context, feature_context, match_context, write_context,
}
use chunk_grouping.Pipeline.Steps.{
  IsDry, Steps, stay, then, chunk_take, chunk_end, chunk_put, dedup_take, dedup_end, dedup_put,
  feature_take, feature_end, feature_put, match_take, match_end, match_put, write_take,
}
use chunk_grouping.Dedup.{process_chunk}
use chunk_grouping.Pipeline.Progress.{Faults}
use chunk_grouping.Pipeline.Ends.{steps_left, step_count, step_count-lt}
use chunk_grouping.Pipeline.File.{IsIdle, start_file}
use chunk_grouping.Pipeline.Finish.{IsDone, start_file-IsDone}
use chunk_grouping.Pipeline.Sequential.{sequential}
use chunk_grouping.Pipeline.Reads.{fast_cdc-IsCounting}
use chunk_grouping.FastCdc.{FastCdc, FileSystem, fast_cdc, reinit_with_file, get_next_chunk}
use chunk_grouping.FastCdc.Step.{IsValid}
use chunk_grouping.Pipeline.Determined.{work_of, start_file-sequential}
use chunk_grouping.Pipeline.Order.{flight, IsBounded, Steps-order}

abbrev numbered : ℕ → Chunk
numbered n = record { buf = n ∷ []; needs_to_free = true; len = 1; id = n }

-- its state is the number of chunks that are left
abbrev counter : Chunker ℕ ℕ
counter = record {
  reinit_with_file = λ c name. (c, true);
  get_next_chunk = λ n. elim n [ zero ↦ some (zero, none) | suc m ↦ some (m, some (numbered m)) ];
}

abbrev nothing : FeatureIndex ℕ ℕ
nothing = record {
  feature = λ chunk. words chunk.buf;
  get_base_chunk_id = λ x f. some none;
  add_feature = λ x f id. some x;
}

abbrev idle : Place ℕ
idle = record { held = none; queue = []; done = false }

abbrev fresh : Pipeline ℕ ℕ ℕ ℕ
unfolding storage
fresh = record {
  chunker = 2;
  mp = [];
  index = 0;
  writer = record {
    storage = storage [] [] true 64;
    total_size_origin = 0;
    total_size_compressed = 0;
    base_chunk_count = 0;
    delta_chunk_count = 0;
    duplicate_chunk_count = 0;
    chunk_size_before_delta = 0;
    chunk_size_after_delta = 0;
    processed_chunk = 0;
  };
  chunking = idle;
  dedup = idle;
  features = idle;
  matching = idle;
  given = [];
  written = [];
}

-- a chunk is taken and put, and the next one taken
abbrev ran : (t : Pipeline ℕ ℕ ℕ ℕ) × Steps counter ◌==◌ (λ bytes. length bytes) nothing fresh t
unfolding fresh
ran = (
  _,
  then
      (then (then stay (chunk_take _ 1 (numbered 1) (refl, refl) refl))
        (chunk_put _ _ refl (omega arith)))
      (chunk_take _ 0 (numbered 0) (refl, refl) refl),
)

fresh-IsBounded : IsBounded fresh
unfolding fresh
fresh-IsBounded = omega arith

Steps-order_example : (ran.0.written ++ flight ran.0 ≡ ran.0.given) × IsBounded ran.0
unfolding fresh
Steps-order_example =
    Steps-order counter ◌==◌ (λ bytes. length bytes) nothing ran.1 refl fresh-IsBounded

-- a file of one byte, and a FastCDC chunker
abbrev files : FileSystem ℕ
files zero = some (3 ∷ [])
files (suc _) = none

abbrev fast_cdcs : Chunker ℕ FastCdc
fast_cdcs = fast_cdc_chunker files

abbrev reading : Pipeline FastCdc ℕ ℕ ℕ
unfolding fresh fast_cdc
reading = record {
  chunker = fast_cdc 2 4 1;
  mp = [];
  index = 0;
  writer = fresh.writer;
  chunking = idle;
  dedup = idle;
  features = idle;
  matching = idle;
  given = [];
  written = [];
}

abbrev started_on : Pipeline FastCdc ℕ ℕ ℕ
unfolding reading start_file reinit_with_file
started_on = (start_file fast_cdcs reading 0).0

abbrev only : Chunk
only = record { buf = 3 ∷ []; needs_to_free = false; len = 1; id = 0 }

abbrev over : FastCdc
unfolding started_on
over = record started_on.chunker { next_chunk_id = 1; remaining_file_len = 0 }

reading-IsIdle : IsIdle reading
unfolding reading
reading-IsIdle = record {
  chunk_queue = refl;
  dedup_queue = refl;
  feature_queue = refl;
  match_queue = refl;
}

only-given : fast_cdcs.get_next_chunk started_on.chunker ≡ some (over, some only)
unfolding started_on over get_next_chunk
only-given = refl

none-given : fast_cdcs.get_next_chunk over ≡ some (over, none)
unfolding started_on over get_next_chunk
none-given = refl

started_on-IsValid : IsValid started_on.chunker
unfolding started_on
started_on-IsValid = record { inside = omega arith; small = omega arith; positive = omega arith }

start_file-IsDone_example :
    (u : Pipeline FastCdc ℕ ℕ ℕ) × Steps fast_cdcs ◌==◌ (λ bytes. length bytes) nothing started_on u
    × (Faults fast_cdcs ◌==◌ (λ bytes. length bytes) nothing u
        ⊎ IsDone fast_cdcs ◌==◌ (λ bytes. length bytes) nothing 0 (only ∷ []) u)
unfolding reading started_on
start_file-IsDone_example =
    start_file-IsDone fast_cdcs ◌==◌ (λ bytes. length bytes) nothing reading 0 (only ∷ []) over
      reading-IsIdle (omega arith) IsValid (λ c. c.remaining_file_len) started_on
      (fast_cdc-IsCounting files) started_on-IsValid (over, only-given, none-given) stay

-- FastCDC gives the chunk, the chunk is put, and the worker ends
abbrev chunked :
    (t : Pipeline FastCdc ℕ ℕ ℕ) × Steps fast_cdcs ◌==◌ (λ bytes. length bytes) nothing started_on t
unfolding started_on over
chunked = (
  _,
  then
      (then (then stay (chunk_take _ over only (refl, refl) only-given))
        (chunk_put _ _ refl (omega arith)))
      (chunk_end _ over (refl, refl) none-given),
)

step_count-lt_example :
    step_count fast_cdcs ◌==◌
        (λ bytes. length bytes)
        nothing
        IsValid
        (λ c. c.remaining_file_len)
        (fast_cdc-IsCounting files)
        chunked.1
      + steps_left (λ c. c.remaining_file_len) chunked.0
    ≤ steps_left (λ c. c.remaining_file_len) started_on
step_count-lt_example =
    step_count-lt fast_cdcs ◌==◌ (λ bytes. length bytes) nothing IsValid (λ c. c.remaining_file_len)
      (fast_cdc-IsCounting files) chunked.1 started_on-IsValid

abbrev matched : Context ℕ
matched = record {
  chunk = only;
  base_chunk_id = none;
  chunk_type = base_chunk;
  feature = some (words (3 ∷ []));
}

-- the chunk goes all the way, and the workers end
abbrev drained :
    (t : Pipeline FastCdc ℕ ℕ ℕ) × Steps fast_cdcs ◌==◌ (λ bytes. length bytes) nothing started_on t
unfolding started_on over process_chunk lookup_by dedup_context feature_context match_context
    write_context
drained = (
  _,
  then
      (then
        (then
          (then
            (then
              (then
                (then
                  (then
                    (then
                      (then
                        (then
                          (then (then stay (chunk_take _ over only (refl, refl) only-given))
                            (chunk_put _ _ refl (omega arith)))
                          (dedup_take _ _ [] (refl, refl) refl))
                        (dedup_put _ _ refl (omega arith)))
                      (feature_take _ _ [] (refl, refl) refl))
                    (feature_put _ _ refl (omega arith)))
                  (match_take _ _ matched [] 0 (refl, refl) refl refl))
                (match_put _ _ refl (omega arith)))
              (write_take _ _ [] _ refl refl))
            (chunk_end _ over (refl, refl) none-given))
          (dedup_end _ (refl, refl) (refl, refl)))
        (feature_end _ (refl, refl) (refl, refl)))
      (match_end _ (refl, refl) (refl, refl)),
)

start_file-sequential_example :
    (IsDry drained.0.matching
      → IsDone fast_cdcs ◌==◌ (λ bytes. length bytes) nothing 0 (only ∷ []) drained.0
        × (sequential ◌==◌ (λ bytes. length bytes) nothing (some (work_of reading)) (only ∷ [])
            ≡ some (work_of drained.0)))
    × (Faults fast_cdcs ◌==◌ (λ bytes. length bytes) nothing drained.0
        → sequential ◌==◌ (λ bytes. length bytes) nothing (some (work_of reading)) (only ∷ [])
          ≡ none)
unfolding reading started_on
start_file-sequential_example =
    start_file-sequential fast_cdcs ◌==◌ (λ bytes. length bytes) nothing reading 0 (only ∷ []) over
      reading-IsIdle (omega arith) drained.0 (over, only-given, none-given) drained.1

-- and it is what the file comes to
drained-IsDry : IsDry drained.0.matching
unfolding started_on over process_chunk lookup_by dedup_context feature_context match_context
    write_context
drained-IsDry = (refl, refl)
