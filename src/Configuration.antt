-- ===== src/Configuration.antt =====
-- delta_compression.cpp, the constructor `DeltaCompression::DeltaCompression`, and what config.h gives
-- it: the parts that the configuration names. A table of cpptoml is a function from keys to values;
-- its numbers are those that are not negative.
pub mod Accepts
mod Tests
use Prim.Native.String.{String}
use text.Mathlib.Text.{◌==◌}
use chunk_grouping.Prelude.{ℕ, Bool, if◌then◌else◌, Option, none, some, List, [], ◌∷◌}
use chunk_grouping.Chunk.{Chunk}
use chunk_grouping.Index.{
  Feature, SuperFeatureIndex, super_feature_index, super_get, super_add, palantir_index,
}
use chunk_grouping.Index.BestFit.{Maps, best_fit_index}
use chunk_grouping.Features.{
  finesse_feature, n_transform_feature, odess_feature, default_odess_mask,
}
use chunk_grouping.Compression.{FeatureIndex, palantir, bestfit}

-- What the program uses of a table; `none` is a key that is not there.
pub record Table : Type 0 where
  pub get_string : String → Option String
  pub get_int : String → Option ℕ
  pub get_bool : String → Option Bool

pub record Config : Type 0 where
  pub root : Table
  pub get_table : String → Option Table

-- A constructor makes its object, ends the process by `LOG(FATAL)`, or reads a number or uses a table
-- that is not there.
pub data Outcome (A : Type 0) : Type 0 where
  built : A → Outcome A
  fatal fault : Outcome A

infixl 5 ◌>>=◌
abbrev pub ◌>>=◌ : {A B : Type 0} → Outcome A → (A → Outcome B) → Outcome B
built a >>= f = f a
fatal >>= f = fatal
fault >>= f = fault

-- the `*` of an option of text: the option of a key that is not there holds the empty text
abbrev pub text_of : Option String → String
text_of none = ""
text_of (some text) = text

-- the `*` of an option of a number, which holds no value that is set where the key is not there; and
-- the `->` of a table, which is null there
abbrev pub need : {A : Type 0} → Option A → Outcome A
need none = fault
need (some a) = built a

pub data ChunkerChoice : Type 0 where
  rabin_cdc fast_cdc : (min_chunk_size max_chunk_size stop_mask : ℕ) → ChunkerChoice

-- the keys of `feature_index_map`
pub data FeatureType : Type 0 where
  finesse odess n_transform palantir_type bestfit_type : FeatureType

abbrev pub feature_index_map : List (String × FeatureType)
feature_index_map =
    ("finesse", finesse)
    ∷ ("odess", odess)
    ∷ ("n-transform", n_transform)
    ∷ ("palantir", palantir_type)
    ∷ ("bestfit", bestfit_type)
    ∷ []

unfoldable pub find_type : String → List (String × FeatureType) → Outcome FeatureType
find_type feature_type [] = fatal
find_type feature_type ((name, t) ∷ rest) =
    let later = find_type feature_type rest in if feature_type == name then built t else later

-- what the constructor makes of the configuration
pub record Settings : Type 0 where
  pub index_path : String
  pub chunk_data_path : String
  pub chunk_meta_path : String
  pub file_meta_path : String
  pub dedup_index_path : String
  pub chunker : ChunkerChoice
  pub feature : FeatureType
  pub cache_size : ℕ

-- the two chunkers
unfoldable pub choose_chunker : String → Table → Outcome ChunkerChoice
choose_chunker chunker_type chunker =
    let sized : (ℕ → ℕ → ℕ → ChunkerChoice) → Outcome ChunkerChoice = λ make. (do
      min_chunk_size ← need (chunker.get_int "min_chunk_size")
      max_chunk_size ← need (chunker.get_int "max_chunk_size")
      stop_mask ← need (chunker.get_int "stop_mask")
      built (make min_chunk_size max_chunk_size stop_mask)) in
    if chunker_type == "rabin-cdc"
    then sized (λ a b m. rabin_cdc a b m)
    else if chunker_type == "fast-cdc"
    then sized (λ a b m. fast_cdc a b m)
    else fatal

-- the one encoder
unfoldable pub choose_encoder : String → Settings → Outcome Settings
choose_encoder encoder_name settings = if encoder_name == "xdelta" then built settings else fatal

-- `DeltaCompression::DeltaCompression`
unfoldable pub delta_compression : Config → Outcome Settings
unfolding choose_chunker find_type choose_encoder
delta_compression config = do
  let index_path : String = text_of (config.root.get_string "index_path")
  let chunk_data_path : String = text_of (config.root.get_string "chunk_data_path")
  let chunk_meta_path : String = text_of (config.root.get_string "chunk_meta_path")
  let file_meta_path : String = text_of (config.root.get_string "file_meta_path")
  let dedup_index_path : String = text_of (config.root.get_string "dedup_index_path")
  chunker_table ← need (config.get_table "chunker")
  let chunker_type : String = text_of (chunker_table.get_string "type")
  chunker ← choose_chunker chunker_type chunker_table
  feature_table ← need (config.get_table "feature")
  let feature_type : String = text_of (feature_table.get_string "type")
  feature ← find_type feature_type feature_index_map
  storage ← need (config.get_table "storage")
  let encoder_name : String = text_of (storage.get_string "encoder")
  cache_size ← need (storage.get_int "cache_size")
  choose_encoder encoder_name (record {
    index_path = index_path;
    chunk_data_path = chunk_data_path;
    chunk_meta_path = chunk_meta_path;
    file_meta_path = file_meta_path;
    dedup_index_path = dedup_index_path;
    chunker = chunker;
    feature = feature;
    cache_size = cache_size;
  })

-- a feature calculator with its index, as `feature_index_map` makes them
pub record AnyIndex (Float : Type 0) : Type 1 where
  pub State : Type 0
  pub operations : FeatureIndex Float State
  pub start : State

module _ {Float : Type 0} (same near : Float → Float → Bool) (zero_cal : List ℕ → Float)
    (order : List (ℕ × ℕ) → List (ℕ × ℕ)) where
  -- a feature with a `SuperFeatureIndex` of the default sizes
  abbrev pub with_super_index : (Chunk → Feature Float) → AnyIndex Float
  with_super_index feature = record {
    State = SuperFeatureIndex Float;
    operations = record {
      feature = feature;
      get_base_chunk_id = λ x f. super_get same near x f;
      add_feature = λ x f id. super_add same near x f id;
    };
    start = super_feature_index 3 1;
  }

  -- `feature_index_map[feature_type]()`
  unfoldable pub make : FeatureType → AnyIndex Float
  unfolding palantir_index best_fit_index
  make finesse = with_super_index (λ chunk. finesse_feature 3 4 chunk)
  make odess = with_super_index (λ chunk. odess_feature 3 4 default_odess_mask chunk)
  make n_transform = with_super_index (λ chunk. n_transform_feature 3 4 chunk)
  make palantir_type = record {
    State = List (SuperFeatureIndex Float);
    operations = palantir same near zero_cal;
    start = palantir_index same near;
  }
  make bestfit_type = record {
    State = Maps;
    operations = bestfit same near zero_cal order;
    start = best_fit_index;
  }
