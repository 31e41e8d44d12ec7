-- ===== src/Compression.antt =====
-- delta_compression.h, delta_compression.cpp: `AddFile` over a chunker, a feature calculator with its
-- index, and the storage. The chunker and the index are virtual in the source: here they are
-- records of their operations. `none` is a fault of one of the parts, or no fuel left.
pub mod Laws
pub mod Loop
pub mod Palantir
pub mod BestFit
pub mod Reads
pub mod File
pub mod Whole
mod Tests
use chunk_grouping.Prelude.{
  ℕ, zero, suc, ◌+◌, ◌-◌, ◌^◌, Bool, ◌==◌, if◌then◌else◌, Option, none, some, ◌>>=◌, List, [], ◌∷◌,
  ◌++◌, u32, u64,
}
use chunk_grouping.Chunk.{Chunk}
use chunk_grouping.FastCdc.{FastCdc, FileSystem}
use chunk_grouping.FastCdc
use chunk_grouping.RabinCdc.{RabinCdc}
use chunk_grouping.RabinCdc
use chunk_grouping.Index.{Feature, SuperFeatureIndex, palantir_get, palantir_add}
use chunk_grouping.Index.BestFit.{Maps, best_fit_get, best_fit_add}
use chunk_grouping.Features.{palantir_feature, odess_sub_features}
use chunk_grouping.Index.{words}
use chunk_grouping.Storage.{Storage, write_base_chunk, write_delta_chunk, get_delta_encoded_chunk}
use chunk_grouping.Grouping.{Compressors, Totals, group_by_base}

-- `Chunker`
pub record Chunker (Name State : Type 0) : Type 0 where
  pub reinit_with_file : State → Name → State × Bool
  pub get_next_chunk : State → Option (State × Option Chunk)

-- `FeatureCalculator` and `Index`
pub record FeatureIndex (Float State : Type 0) : Type 0 where
  pub feature : Chunk → Feature Float
  pub get_base_chunk_id : State → Feature Float → Option (Option ℕ)
  pub add_feature : State → Feature Float → ℕ → Option State

abbrev pub fast_cdc_chunker : {Name : Type 0} → FileSystem Name → Chunker Name FastCdc
fast_cdc_chunker files = record {
  reinit_with_file = λ c name. FastCdc.reinit_with_file files c name;
  get_next_chunk = λ c. FastCdc.get_next_chunk c;
}

abbrev pub rabin_cdc_chunker : {Name : Type 0} → FileSystem Name → Chunker Name RabinCdc
rabin_cdc_chunker files = record {
  reinit_with_file = λ c name. RabinCdc.reinit_with_file files c name;
  get_next_chunk = λ c. RabinCdc.get_next_chunk c;
}

module _ {Float : Type 0} (same near : Float → Float → Bool) (zero_cal : List ℕ → Float) where
  -- `declare_feature_type(palantir, PalantirFeature, PalantirIndex)`
  abbrev pub palantir : FeatureIndex Float (List (SuperFeatureIndex Float))
  palantir = record {
    feature = λ chunk. palantir_feature zero_cal chunk;
    get_base_chunk_id = λ x f. palantir_get same near x f;
    add_feature = λ x f id. palantir_add same near x f id;
  }

  -- `declare_feature_type(bestfit, OdessSubfeatures, BestFitIndex)`
  abbrev pub bestfit : (List (ℕ × ℕ) → List (ℕ × ℕ)) → FeatureIndex Float Maps
  bestfit order = record {
    feature = λ chunk. words (odess_sub_features chunk);
    get_base_chunk_id = λ x f. best_fit_get order x f;
    add_feature = λ x f id. best_fit_add x f id;
  }

-- `FileMeta`; `none` is a member that was not set
pub record FileMeta (Name : Type 0) : Type 0 where
  pub file_name : Name
  pub start_chunk_id : ℕ
  pub end_chunk_id : Option ℕ

-- `DeltaCompression`, less the members that `AddFile` does not use. `file_metas` is what was given
-- to the writer of file metas.
pub record DeltaCompression (Name C I : Type 0) : Type 0 where
  pub chunker : C
  pub index : I
  pub storage : Storage
  pub file_metas : List (FileMeta Name)
  pub base_chunk_count : ℕ
  pub delta_chunk_count : ℕ
  pub chunk_size_before_delta : ℕ
  pub chunk_size_after_delta : ℕ
  pub totals : Totals

module _ {Name : Type 0} where
  -- `if (-1 == file_meta.start_chunk_id)`
  abbrev pub started_at : FileMeta Name → Chunk → FileMeta Name
  started_at file_meta chunk =
      if file_meta.start_chunk_id == 2 ^ 32 - 1
      then record file_meta { start_chunk_id = chunk.id }
      else file_meta

module _ {Name C I : Type 0} where
  -- the closure `write_base_chunk` of `AddFile`
  unfoldable pub count_base : DeltaCompression Name C I → Chunk → DeltaCompression Name C I
  count_base d chunk = record d {
    storage = write_base_chunk d.storage chunk;
    base_chunk_count = u32 (d.base_chunk_count + 1);
    totals = record d.totals { total_size_origin = u64 (d.totals.total_size_origin + chunk.len) };
  }

  -- the closure `write_delta_chunk` of `AddFile`
  unfoldable pub count_delta :
      DeltaCompression Name C I → Chunk → Chunk → ℕ → DeltaCompression Name C I
  count_delta d chunk delta_chunk base_chunk_id = record d {
    chunk_size_before_delta = u64 (d.chunk_size_before_delta + chunk.len);
    storage = (write_delta_chunk d.storage delta_chunk base_chunk_id).0;
    delta_chunk_count = u32 (d.delta_chunk_count + 1);
    chunk_size_after_delta = u64 (d.chunk_size_after_delta + delta_chunk.len);
  }

module _ {Name C I Float : Type 0} where
  -- the body of the loop of `AddFile`, for one chunk
  unfoldable pub add_chunk :
      FeatureIndex Float I
      → DeltaCompression Name C I × FileMeta Name
      → Chunk
      → Option (DeltaCompression Name C I × FileMeta Name)
  add_chunk x (d, file_meta) chunk = do
    let f : Feature Float = x.feature chunk
    found ← x.get_base_chunk_id d.index f
    elim found [
      | none ↦ do
        index ← x.add_feature d.index f chunk.id
        some (count_base (record d { index = index }) chunk, started_at file_meta chunk)
      | some base_chunk_id ↦ do
        delta ← get_delta_encoded_chunk d.storage chunk base_chunk_id
        some (
          count_delta (record d { storage = delta.1 }) chunk delta.0 base_chunk_id,
          record (started_at file_meta chunk) { end_chunk_id = some chunk.id },
        )
    ]

  -- the loop of `AddFile` on fuel
  unfoldable pub add_chunks :
      ℕ
      → Chunker Name C
      → FeatureIndex Float I
      → DeltaCompression Name C I × FileMeta Name
      → Option (DeltaCompression Name C I × FileMeta Name)
  add_chunks zero c x (d, file_meta) = none
  add_chunks (suc fuel) c x (d, file_meta) = do
    next ← c.get_next_chunk d.chunker
    elim next.1 [
      | none ↦ some (record d { chunker = next.0 }, file_meta)
      | some chunk ↦ do
        r ← add_chunk x (record d { chunker = next.0 }, file_meta) chunk
        add_chunks fuel c x r
    ]

  -- `AddFile`
  unfoldable pub add_file :
      ℕ
      → Chunker Name C
      → FeatureIndex Float I
      → Compressors
      → DeltaCompression Name C I
      → Name
      → Option (DeltaCompression Name C I)
  add_file fuel c x k d file_name = do
    let opened : C × Bool = c.reinit_with_file d.chunker file_name
    r ← add_chunks fuel c x (
      record d { chunker = opened.0 },
      record { file_name = file_name; start_chunk_id = 2 ^ 32 - 1; end_chunk_id = none },
    )
    let done : DeltaCompression Name C I = record r.0 { file_metas = r.0.file_metas ++ r.1 ∷ [] }
    grouped ← group_by_base k done.storage 16 done.totals
    some (record done { totals = grouped.0; storage = grouped.1 })
