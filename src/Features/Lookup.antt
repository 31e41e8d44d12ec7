-- ===== src/Features/Lookup.antt =====
-- A chunk that was added to a Palantir index is found under the feature of any chunk with its bytes.
use chunk_grouping.Prelude.{
  ℕ, zero, suc, ◌≡◌, refl, sym, ap, ◌∙◌, Bool, some, List, [], ◌∷◌, map, length, take, replicate,
  arith,
}
use chunk_grouping.Chunk.{Chunk}
use chunk_grouping.Index.{
  SuperFeatureIndex, parts, super_feature, our_feature, palantir_get, palantir_add,
}
use chunk_grouping.Index.Super.{palantir_get-palantir_add}
use chunk_grouping.Features.{
  groups, super_features, odess_sub_loop, odess_sub_features, palantir_feature,
}

length-map-groups :
    (f : List ℕ → ℕ) (count size : ℕ) (xs : List ℕ) → length (map f (groups count size xs)) ≡ count
length-map-groups f zero size xs = refl
length-map-groups f (suc count) size xs = omega (arith, length-map-groups f count size _)

pub length-super_features :
    (skipped width sf_cnt sf_subf : ℕ) (xs : List ℕ)
    → length (super_features skipped width sf_cnt sf_subf xs) ≡ sf_cnt
unfolding super_features
length-super_features skipped width sf_cnt sf_subf xs = length-map-groups _ sf_cnt sf_subf xs

-- The feature is one of the bytes.
palantir_feature_bytes {ℓ} :
    {Float : Type ℓ} (zero_cal : List ℕ → Float) (c d : Chunk)
    → take c.len c.buf ≡ take d.len d.buf
    → palantir_feature zero_cal c ≡ palantir_feature zero_cal d
unfolding palantir_feature odess_sub_features
palantir_feature_bytes zero_cal c d e =
    ap
      (λ bytes.
        let subs = odess_sub_loop bytes 0 (replicate 12 0) in
        parts (
          super_feature (super_features 4 8 3 4 subs)
          ∷ super_feature (super_features 4 8 4 3 subs)
          ∷ super_feature (super_features 4 8 6 2 subs)
          ∷ our_feature (zero_cal bytes ∷ [])
          ∷ []))
      e

-- the sizes of the levels, as the constructor makes them
pub record IsPalantir {ℓ} {Float : Type ℓ} (x y z : SuperFeatureIndex Float) : Type ℓ where
  pub first_level : length x.index ≡ 3
  pub second_level : length y.index ≡ 4
  pub third_level : length z.index ≡ 6
  pub float_level : length z.index_float ≡ 1

-- `PalantirFeature` fits the levels of `PalantirIndex`: a chunk can be added, and a lookup with any
-- chunk of the same bytes then finds it.
pub palantir_get-palantir_feature {ℓ} :
    {Float : Type ℓ} (same near : Float → Float → Bool) (zero_cal : List ℕ → Float)
    (x y z : SuperFeatureIndex Float) (c d : Chunk) (id : ℕ)
    → IsPalantir x y z
    → take c.len c.buf ≡ take d.len d.buf
    → (levels : List (SuperFeatureIndex Float)) × (palantir_add same near
          (x ∷ y ∷ z ∷ [])
          (palantir_feature zero_cal c)
          id
        ≡ some levels)
      × (palantir_get same near levels (palantir_feature zero_cal d) ≡ some (some id))
unfolding palantir_feature odess_sub_features
palantir_get-palantir_feature same near zero_cal x y z c d id p e =
    let subs = odess_sub_features c in
    let (levels, added, found, _) =
      palantir_get-palantir_add same near x y z (super_features 4 8 3 4 subs)
        (super_features 4 8 4 3 subs) (super_features 4 8 6 2 subs)
        (zero_cal (take c.len c.buf) ∷ []) id (omega (arith, p.first_level))
        (omega (arith, p.first_level, length-super_features 4 8 3 4 subs))
        (omega (arith, p.second_level, length-super_features 4 8 4 3 subs))
        (omega (arith, p.third_level, length-super_features 4 8 6 2 subs))
        (omega (arith, p.float_level)) in
    (
      levels,
      added,
      ap (palantir_get same near levels) (sym (palantir_feature_bytes zero_cal c d e)) ∙ found,
    )
