-- ===== src/Program/Tests.antt =====
-- A directory with two regular files, of which one is empty, and a directory among them.
use text.Mathlib.Text.{◌==◌}
use chunk_grouping.Prelude
use chunk_grouping.Prelude.{
  ℕ, zero, suc, ◌≡◌, refl, inl, inr, true, false, if◌then◌else◌, Option, none, some, List, [], ◌∷◌,
  length, arith,
}
use chunk_grouping.FastCdc.{FileSystem, fast_cdc}
use chunk_grouping.Index.{SuperFeatureIndex, palantir_index}
use chunk_grouping.Grouping.{Compressors}
use chunk_grouping.Compression.{FeatureIndex, palantir}
use chunk_grouping.Compression.Palantir.{LevelsOf, palantir_index-LevelsOf, palantir-Indexed}
use chunk_grouping.Configuration.{Table, built, fault}
use chunk_grouping.Program.{Entry, Class, idle, main, constructed}
use chunk_grouping.Program.Walk.{class_of}
use chunk_grouping.Program.Stores.{Finished, main-Stored}

abbrev files : FileSystem ℕ
files zero = some (3 ∷ 1 ∷ 4 ∷ 1 ∷ 5 ∷ 9 ∷ 2 ∷ [])
files (suc zero) = some []
files (suc (suc _)) = none

abbrev entries : List (Entry ℕ)
entries =
    record { is_regular_file = true; path = 0 }
    ∷ record { is_regular_file = false; path = 2 }
    ∷ record { is_regular_file = true; path = 1 }
    ∷ []

abbrev config : Table
config = record {
  get_string = λ key.
      if key == "task"
      then some "compression"
      else if key == "task_data_dir"
      then some "data"
      else none;
  get_int = λ key. none;
  get_bool = λ key. none;
}

abbrev sizes : Compressors
sizes = record { lz4_frame = length; lz4_block = length; zstd = length }

abbrev not_made : Class ℕ ℕ
not_made = record { construct = fault; add_file = λ s name. none }

-- numbers in place of the floating-point features
abbrev features : FeatureIndex ℕ (List (SuperFeatureIndex ℕ))
features = palantir Prelude.◌==◌ Prelude.◌==◌ length

main-Stored_example :
    Finished
      (main config
        (λ dir. entries)
        (class_of features files 8 sizes
          (built (constructed (fast_cdc 2 4 1) (palantir_index Prelude.◌==◌ Prelude.◌==◌) 64)))
        not_made)
      files
      (0 ∷ 1 ∷ [])
main-Stored_example =
    main-Stored features LevelsOf files 8 sizes config (λ dir. entries) not_made 2 4 1 64
      (palantir_index Prelude.◌==◌ Prelude.◌==◌) "data"
      (palantir-Indexed Prelude.◌==◌ Prelude.◌==◌ length) refl (inl refl) refl (omega arith)
      (omega arith) (omega arith) (omega arith) (palantir_index-LevelsOf Prelude.◌==◌ Prelude.◌==◌)
      (omega arith) (omega arith)

-- another task makes nothing
abbrev other_config : Table
other_config = record {
  get_string = λ key. some "restore";
  get_int = λ key. none;
  get_bool = λ key. none;
}

other_task : main other_config (λ dir. entries) not_made not_made ≡ built idle
unfolding main
other_task = refl

-- and so does a configuration without a task
no_task :
    main (record other_config { get_string = λ key. none }) (λ dir. entries) not_made not_made
    ≡ built idle
unfolding main
no_task = refl
