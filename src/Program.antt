-- ===== src/Program.antt =====
-- main.cpp: the choice of the task and of the pipeline, and `AddFile` for each regular file of a
-- directory; and the members of a `DeltaCompression` as its constructor leaves them.
-- The walk over a directory is a list of its entries, in the order that the library gives them; a
-- directory that cannot be opened is not among the cases. The
-- two classes are what their constructors make and their `AddFile`, which is virtual. The command line
-- and the set-up of the logs are left out.
pub mod Between
pub mod Walk
pub mod Stores
mod Tests
use Prim.Native.String.{String}
use text.Mathlib.Text.{◌==◌}
use chunk_grouping.Prelude.{ℕ, Bool, true, false, if◌then◌else◌, Option, none, some, List, [], ◌∷◌}
use chunk_grouping.Storage.{storage}
use chunk_grouping.Grouping.{Totals}
use chunk_grouping.Compression.{DeltaCompression}
use chunk_grouping.Configuration.{Table, Outcome, built, fault, ◌>>=◌, text_of, need}

-- `std::filesystem::directory_entry`, with the path as `relative_path` gives it
pub record Entry (Name : Type 0) : Type 0 where
  pub is_regular_file : Bool
  pub path : Name

-- A class as `main` uses it: what its constructor makes, and `AddFile`, `none` for a fault.
pub record Class (Name Object : Type 0) : Type 0 where
  pub construct : Outcome Object
  pub add_file : Object → Name → Option Object

-- the object that is deleted in the end; `idle` is another task than "compression"
pub data Run (Plain Piped : Type 0) : Type 0 where
  idle : Run Plain Piped
  plain : Plain → Run Plain Piped
  piped : Piped → Run Plain Piped

abbrev pub value_or : Option Bool → Bool → Bool
value_or none default = default
value_or (some b) default = b

module _ {Name Object : Type 0} where
  -- the body of the loop over the entries
  unfoldable pub visit : Class Name Object → Object → Entry Name → Option Object
  visit class compression entry =
      if entry.is_regular_file then class.add_file compression entry.path else some compression

  -- the loop over the entries
  unfoldable pub walk : Class Name Object → List (Entry Name) → Object → Option Object
  unfolding visit
  walk class [] compression = some compression
  walk class (entry ∷ entries) compression = elim (visit class compression entry) [
    | none ↦ none
    | some next ↦ walk class entries next
  ]

  -- from the constructor to the end of the loop, for either class
  unfoldable pub compress :
      Table → (String → List (Entry Name)) → Class Name Object → Outcome Object
  unfolding walk
  compress config directory class = do
    compression ← class.construct
    let task_data_dir : String = text_of (config.get_string "task_data_dir")
    need (walk class (directory task_data_dir) compression)

module _ {Name Plain Piped : Type 0} (config : Table) (directory : String → List (Entry Name))
    (delta_compression : Class Name Plain) (pipeline_compression : Class Name Piped) where
  -- `if (pipeline)`
  unfoldable pub compress_with : Bool → Outcome (Run Plain Piped)
  unfolding compress
  compress_with true = compress config directory pipeline_compression >>= λ c. built (piped c)
  compress_with false = compress config directory delta_compression >>= λ c. built (plain c)

  -- `main`, behind the command line
  unfoldable pub main : Outcome (Run Plain Piped)
  unfolding compress_with
  main = do
    let task : String = text_of (config.get_string "task")
    if task == "compression"
        then compress_with (value_or (config.get_bool "pipeline") false)
        else built idle

-- The members of a `DeltaCompression` with this chunker and this index; the files of the storage are
-- opened with "w+", which empties them.
unfoldable pub constructed :
    {Name C I : Type 0} → C → I → (cache_size : ℕ) → DeltaCompression Name C I
unfolding storage
constructed chunker index cache_size = record {
  chunker = chunker;
  index = index;
  storage = storage [] [] true cache_size;
  file_metas = [];
  base_chunk_count = 0;
  delta_chunk_count = 0;
  chunk_size_before_delta = 0;
  chunk_size_after_delta = 0;
  totals = record {
    total_size_origin = 0;
    total_size_compressed = 0;
    grouping_num = 0;
    grouping_blocks = 0;
    sequence_compressed_size = 0;
    single_compressed_size = 0;
    zstd_total_size_compressed = 0;
    zstd_sequence_size_compressed = 0;
    zstd_single_size_compressed = 0;
  };
}
