-- ===== src/Program/Stores.antt =====
-- main.cpp from end to end: a run with the task "compression" and without the pipeline.
use Prim.Native.String.{String}
use chunk_grouping.Prelude.{
  ℕ, ◌≤◌, ◌<◌, ◌^◌, ◌≡◌, refl, ◌⊎◌, inl, inr, true, false, max, none, some, List, [], length, map,
  get_elem?, arith,
}
use chunk_grouping.FastCdc.{FastCdc, FileSystem, fast_cdc}
use chunk_grouping.Storage.{get_chunk_content, storage}
use chunk_grouping.Storage.Contents.{get_chunk_content-Stored}
use chunk_grouping.Storage.Based.{nothing}
use chunk_grouping.Storage.Cached.{storage-Ready}
use chunk_grouping.Grouping.{Compressors}
use chunk_grouping.Compression.{FeatureIndex, DeltaCompression}
use chunk_grouping.Compression.Laws.{Indexed}
use chunk_grouping.Configuration.{Table, Outcome, built}
use chunk_grouping.Program.{
  Entry, Class, Run, plain, main, compress_with, compress, constructed, walk,
}
use chunk_grouping.Program.Between.{all_bytes, InStep, regular_files, bytes_of_all, name_of}
use chunk_grouping.Program.Walk.{class_of, walk-Walked}

module _ {Name I : Type 0} (Of : List ℕ → I → Type 0) where
  -- The constructor leaves a compression in step, with nothing stored.
  constructed-InStep :
      (min_ck_sz max_ck_sz stop_mask cache_size : ℕ) (index : I)
      → 0 < max min_ck_sz max_ck_sz
      → max min_ck_sz max_ck_sz < 2 ^ 16
      → 0 < cache_size
      → cache_size ≤ 2 ^ 43
      → Of [] index
      → InStep Of
          (constructed {Name = Name} (fast_cdc min_ck_sz max_ck_sz stop_mask) index cache_size)
          []
  unfolding constructed fast_cdc storage
  constructed-InStep a b mask n index positive small some_memory most o = record {
    now = [];
    bases = [];
    ready = storage-Ready n some_memory most;
    based = nothing;
    indexed = o;
    between = record { idle = refl; numbered = refl; positive = positive; small = small };
  }

-- A run that is not pipelined is the walk from the constructor's object.
main-plain :
    {Name Plain Piped : Type 0} (config : Table) (directory : String → List (Entry Name))
    (class : Class Name Plain) (piped_class : Class Name Piped) (start next : Plain)
    (data_dir : String)
    → config.get_string "task" ≡ some "compression"
    → (config.get_bool "pipeline" ≡ none) ⊎ (config.get_bool "pipeline" ≡ some false)
    → config.get_string "task_data_dir" ≡ some data_dir
    → class.construct ≡ built start
    → walk class (directory data_dir) start ≡ some next
    → main config directory class piped_class ≡ built (plain next)
unfolding main compress_with compress
main-plain config directory class piped_class start next data_dir task (inl off) dir c w =
    rw (task, off, c, dir, w) refl
main-plain config directory class piped_class start next data_dir task (inr off) dir c w =
    rw (task, off, c, dir, w) refl

-- What a run over these files leaves.
pub record Finished {Name I Piped : Type 0}
    (result : Outcome (Run (DeltaCompression Name FastCdc I) Piped)) (files : FileSystem Name)
    (names : List Name) : Type 0 where
  pub next : DeltaCompression Name FastCdc I
  pub stored : List (List ℕ)
  pub returns : result ≡ built (plain next)
  pub whole : all_bytes stored ≡ bytes_of_all files names
  pub holds :
      (i : ℕ) (bytes : List ℕ)
      → get_elem? stored i ≡ some bytes
      → get_chunk_content next.storage i
        ≡ some
            (record { buf = bytes; needs_to_free = true; len = length bytes; id = i }, next.storage)
  pub metas : map name_of next.file_metas ≡ names

-- A run of `main` with the task "compression", without the pipeline, over FastCDC and any feature
-- and index that keep their laws, never faults, whatever is in the directory and whatever the
-- compressors. In the end the pieces that are stored, put together, are the regular files of the
-- directory, in the order of the walk; `GetChunkContent` gives every piece; and there is one file
-- meta for each regular file, with its name. The conditions: the index has no numbers yet, a chunk
-- has a byte and is below 2 ^ 16, the cache size is above 0 and at most 2 ^ 43, and all files
-- together have less than 2 ^ 32 bytes, less than the fuel.
pub main-Stored :
    {Name I Float Piped : Type 0} (x : FeatureIndex Float I) (Of : List ℕ → I → Type 0)
    (files : FileSystem Name) (fuel : ℕ) (k : Compressors) (config : Table)
    (directory : String → List (Entry Name)) (piped_class : Class Name Piped)
    (min_ck_sz max_ck_sz stop_mask cache_size : ℕ) (index : I) (data_dir : String)
    → (laws : Indexed x Of) → config.get_string "task" ≡ some "compression"
    → (config.get_bool "pipeline" ≡ none) ⊎ (config.get_bool "pipeline" ≡ some false)
    → config.get_string "task_data_dir" ≡ some data_dir
    → 0 < max min_ck_sz max_ck_sz
    → max min_ck_sz max_ck_sz < 2 ^ 16
    → 0 < cache_size
    → cache_size ≤ 2 ^ 43
    → Of [] index
    → length (bytes_of_all files (regular_files (directory data_dir))) < 2 ^ 32
    → length (bytes_of_all files (regular_files (directory data_dir))) < fuel
    → Finished
        (main config directory
          (class_of x files fuel k
            (built (constructed (fast_cdc min_ck_sz max_ck_sz stop_mask) index cache_size)))
          piped_class)
        files
        (regular_files (directory data_dir))
unfolding constructed storage
main-Stored x Of files fuel k config directory piped_class a b mask n index data_dir laws task off
      dir positive small some_memory most o few enough =
    let start = constructed (fast_cdc a b mask) index n in
    let w =
      walk-Walked x Of laws files fuel k (directory data_dir) (built start) start []
        (constructed-InStep Of a b mask n index positive small some_memory most o)
        (omega (arith, few)) (omega (arith, few)) enough in
    record {
      next = w.next;
      stored = w.stored;
      returns =
          main-plain config directory _ piped_class start w.next data_dir task off dir refl
            w.returns;
      whole = w.whole;
      holds = λ i bytes e.
          get_chunk_content-Stored w.next.storage w.stored i bytes w.in_step.ready.stored e;
      metas = w.metas;
    }
