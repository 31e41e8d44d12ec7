-- ===== src/Features/Tests.antt =====
-- The features of a chunk of three bytes, with the number of bytes for an own feature.
use chunk_grouping.Prelude.{
  ℕ, ◌≡◌, refl, true, some, List, [], ◌∷◌, ◌==◌, length, get_or, replicate, arith,
}
use chunk_grouping.Chunk.{Chunk}
use chunk_grouping.Gear.{gear_table, gear_step}
use chunk_grouping.Index.{SuperFeatureIndex, super_feature_index, palantir_get, palantir_add}
use chunk_grouping.Features.{
  transform, n_transform_loop, odess_loop, palantir_group, palantir_feature,
}
use chunk_grouping.Features.Transforms.{
  prints, Below, Attained, sampled, IsLeast, n_transform_loop_least, odess_loop-IsLeast,
}
use chunk_grouping.Features.Group.{palantir_group-set}
use chunk_grouping.Features.Lookup.{IsPalantir, palantir_get-palantir_feature}

abbrev chunk : Chunk
chunk = record { buf = 3 ∷ 1 ∷ 4 ∷ []; needs_to_free = true; len = 3; id = 0 }

abbrev copy : Chunk
copy = record { buf = 3 ∷ 1 ∷ 4 ∷ []; needs_to_free = true; len = 3; id = 1 }

abbrev zero_cal : List ℕ → ℕ
zero_cal content = length content

abbrev level : ℕ → SuperFeatureIndex ℕ
unfolding super_feature_index
level n = super_feature_index n 1

level-IsPalantir : IsPalantir (level 3) (level 4) (level 6)
unfolding level
level-IsPalantir = record {
  first_level = refl;
  second_level = refl;
  third_level = refl;
  float_level = refl;
}

palantir_get-palantir_feature_example :
    (levels : List (SuperFeatureIndex ℕ)) × (palantir_add ◌==◌ ◌==◌
        (level 3 ∷ level 4 ∷ level 6 ∷ [])
        (palantir_feature zero_cal chunk)
        0
      ≡ some levels)
    × (palantir_get ◌==◌ ◌==◌ levels (palantir_feature zero_cal copy) ≡ some (some 0))
palantir_get-palantir_feature_example =
    palantir_get-palantir_feature ◌==◌ ◌==◌ zero_cal (level 3) (level 4) (level 6) chunk copy 0
      level-IsPalantir refl

n_transform_loop_least_example :
    let sub_feature = get_or (n_transform_loop (3 ∷ 1 ∷ []) 0 (replicate 12 0)) 2 0 in
    Below (λ q. transform q 2) sub_feature (prints 0 (3 ∷ 1 ∷ []))
    × Attained (λ q. transform q 2) sub_feature (prints 0 (3 ∷ 1 ∷ []))
unfolding gear_step gear_table
n_transform_loop_least_example =
    n_transform_loop_least 3 (1 ∷ []) 12 2 (omega arith) (omega arith, (omega arith, tt))

-- the mask 1 samples the even ones of the fingerprints
odess_loop-IsLeast_example :
    IsLeast
      (λ q. transform q 2)
      (get_or (odess_loop 1 (3 ∷ 1 ∷ 4 ∷ []) 0 (replicate 12 0)) 2 0)
      (sampled 1 (prints 0 (3 ∷ 1 ∷ 4 ∷ [])))
unfolding gear_step gear_table
odess_loop-IsLeast_example =
    odess_loop-IsLeast 1 (3 ∷ 1 ∷ 4 ∷ []) 12 2 (omega arith) (omega arith, tt)

-- the first sub-feature of the second group of two
palantir_group-set_example :
    palantir_group 2 2 (1 ∷ 2 ∷ 9 ∷ 4 ∷ []) ≡ palantir_group 2 2 (1 ∷ 2 ∷ 3 ∷ 4 ∷ [])
palantir_group-set_example =
    palantir_group-set 2 1 1 9 (1 ∷ 2 ∷ 3 ∷ 4 ∷ []) (omega arith) (omega arith)
