-- ===== src/Configuration/Tests.antt =====
-- The configuration of config.toml, and the first lookup with two of the features.
use Prim.Native.String.{String}
use text.Mathlib.Text.{◌==◌}
use chunk_grouping.Prelude.{
  ℕ, Bool, ◌≡◌, ◌↔◌, refl, true, if◌then◌else◌, Option, none, some, List, [], ◌∷◌, length,
}
use chunk_grouping.Prelude
use chunk_grouping.Chunk.{Chunk}
use chunk_grouping.Configuration.{
  Table, Config, built, fast_cdc, palantir_type, delta_compression, finesse, make,
}
use chunk_grouping.Configuration.Accepts.{Mismatched, make-Mismatched}

abbrev chunk : Chunk
chunk = record { buf = 3 ∷ 1 ∷ 5 ∷ []; needs_to_free = true; len = 3; id = 5 }

make-Mismatched_example :
    (let a = make {Float = ℕ} Prelude.◌==◌ Prelude.◌==◌ length (λ counts. counts) finesse in
      a.operations.get_base_chunk_id a.start (a.operations.feature chunk) ≡ none)
    ↔ Mismatched finesse
make-Mismatched_example =
    make-Mismatched Prelude.◌==◌ Prelude.◌==◌ length (λ counts. counts) finesse chunk

-- config.toml
abbrev no_numbers : String → Option ℕ
no_numbers key = none

abbrev no_flags : String → Option Bool
no_flags key = none

abbrev root : Table
root = record {
  get_string = λ key.
      if key == "feature_index_path"
      then some "./test_data/default.index"
      else if key == "dedup_index_path"
      then some "./test_data/default.dedup"
      else if key == "chunk_data_path"
      then some "./test_data/default.data"
      else if key == "chunk_meta_path"
      then some "./test_data/default.meta"
      else if key == "file_meta_path"
      then some "./test_data/default.file"
      else none;
  get_int = no_numbers;
  get_bool = no_flags;
}

abbrev feature : Table
feature = record {
  get_string = λ key. if key == "type" then some "palantir" else none;
  get_int = no_numbers;
  get_bool = no_flags;
}

abbrev chunker : Table
chunker = record {
  get_string = λ key. if key == "type" then some "fast-cdc" else none;
  get_int = λ key. if key == "stop_mask" then some 8191 else some 8192;
  get_bool = no_flags;
}

abbrev on_storage : Table
on_storage = record {
  get_string = λ key. if key == "encoder" then some "xdelta" else none;
  get_int = λ key. if key == "cache_size" then some 500 else none;
  get_bool = no_flags;
}

abbrev shipped : Config
shipped = record {
  root = root;
  get_table = λ key.
      if key == "feature"
      then some feature
      else if key == "chunker"
      then some chunker
      else if key == "storage"
      then some on_storage
      else none;
}

-- it has `feature_index_path` and no `index_path`: the constructor goes on with an empty path
shipped_settings :
    delta_compression shipped
    ≡ built (record {
      index_path = "";
      chunk_data_path = "./test_data/default.data";
      chunk_meta_path = "./test_data/default.meta";
      file_meta_path = "./test_data/default.file";
      dedup_index_path = "./test_data/default.dedup";
      chunker = fast_cdc 8192 8192 8191;
      feature = palantir_type;
      cache_size = 500;
    })
unfolding delta_compression
shipped_settings = refl
