-- ===== src/Index.antt =====
-- index/: from the feature of a chunk to the number of a base chunk that has a like one.
-- `float` is a type with two tests, `==` and `std::abs(x - y) < threshold`: both are parameters.
-- `none` is an exception of `std::get`, or a read behind the end of a vector.
pub mod Super
pub mod Numbers
pub mod BestMatch
pub mod BestCount
pub mod BestEntries
pub mod BestAnswer
pub mod BestFit
pub mod File
mod Tests
use chunk_grouping.Prelude.{
  ℕ, zero, suc, ◌+◌, ◌-◌, Bool, true, false, ◌==◌, ltb, if◌then◌else◌, Option, none, some, ◌>>=◌,
  List, [], ◌∷◌, ◌++◌, length, replicate, lookup, insert, lookup_by, insert_by, u32,
}

-- `std::variant<std::vector<uint64_t>, std::vector<float>>`
pub data Part {ℓ} (Float : Type ℓ) : Type ℓ where
  super_feature : List ℕ → Part Float
  our_feature : List Float → Part Float

-- `Feature`: the parts of a `PalantirFeature`, one part, or a vector of words
pub data Feature {ℓ} (Float : Type ℓ) : Type ℓ where
  parts : List (Part Float) → Feature Float
  part : Part Float → Feature Float
  words : List ℕ → Feature Float

-- `SuperFeatureIndex`: one map for each of its super features, and one for each own feature
pub record SuperFeatureIndex {ℓ} (Float : Type ℓ) : Type ℓ where
  pub index : List (List (ℕ × ℕ))
  pub index_float : List (List (Float × ℕ))

module _ {ℓ} {Float : Type ℓ} where
  -- the constructor
  unfoldable pub super_feature_index : ℕ → ℕ → SuperFeatureIndex Float
  super_feature_index super_feature_count our_feature_count = record {
    index = replicate super_feature_count [];
    index_float = replicate our_feature_count [];
  }

-- the loop over the super features, which ends at the first that is in its map
unfoldable pub first_fit : List (List (ℕ × ℕ)) → List ℕ → Option (Option ℕ)
first_fit [] features = some none
first_fit (m ∷ index) [] = none
first_fit (m ∷ index) (f ∷ features) = elim (lookup f m) [
  | some id ↦ some (some id)
  | none ↦ first_fit index features
]

-- `index_[i][feature[i]] = id` for each map
unfoldable pub add_words : List (List (ℕ × ℕ)) → List ℕ → ℕ → Option (List (List (ℕ × ℕ)))
add_words [] features id = some []
add_words (m ∷ index) [] id = none
add_words (m ∷ index) (f ∷ features) id =
    (add_words index features id >>= λ rest. some (insert f id m ∷ rest))

module _ {ℓ} {Float : Type ℓ} (same near : Float → Float → Bool) where
  -- the loop over one map of own features; its `break` leaves this loop alone. The entries are
  -- visited in the order of the list, and a `std::unordered_map` in an order of its own: where the
  -- keys of several entries are near, the answer is one of theirs in both
  unfoldable pub near_entry : List (Float × ℕ) → Float → Option ℕ → Option ℕ
  near_entry [] f result = result
  near_entry ((key, id) ∷ entries) f result =
      if near key f then some id else near_entry entries f result

  unfoldable pub near_fit : List (List (Float × ℕ)) → List Float → Option ℕ → Option (Option ℕ)
  unfolding near_entry
  near_fit [] features result = some result
  near_fit (m ∷ index) [] result = none
  near_fit (m ∷ index) (f ∷ features) result = near_fit index features (near_entry m f result)

  unfoldable pub add_floats :
      List (List (Float × ℕ)) → List Float → ℕ → Option (List (List (Float × ℕ)))
  add_floats [] features id = some []
  add_floats (m ∷ index) [] id = none
  add_floats (m ∷ index) (f ∷ features) id =
      (add_floats index features id >>= λ rest. some (insert_by same f id m ∷ rest))

  -- `SuperFeatureIndex::GetBaseChunkID`
  unfoldable pub super_get : SuperFeatureIndex Float → Feature Float → Option (Option ℕ)
  super_get x (part (super_feature features)) = first_fit x.index features
  super_get x (part (our_feature features)) = near_fit x.index_float features none
  super_get x (parts _) = none
  super_get x (words _) = none

  -- `SuperFeatureIndex::AddFeature`
  unfoldable pub super_add :
      SuperFeatureIndex Float → Feature Float → ℕ → Option (SuperFeatureIndex Float)
  super_add x (part (super_feature features)) id =
      (add_words x.index features id >>= λ m. some (record x { index = m }))
  super_add x (part (our_feature features)) id =
      (add_floats x.index_float features id >>= λ m. some (record x { index_float = m }))
  super_add x (parts _) id = none
  super_add x (words _) id = none

  -- `PalantirIndex::GetBaseChunkID` over the levels: each has a part of its own, and the last level
  -- that is asked has the last part too
  unfoldable pub get_levels : List (SuperFeatureIndex Float) → List (Part Float) → Option (Option ℕ)
  get_levels levels [] = none
  get_levels levels (f ∷ []) = none
  get_levels [] (f ∷ g ∷ fs) = none
  get_levels (level ∷ levels) (f ∷ last ∷ []) = do
    found ← super_get level (part f)
    elim found [ some id ↦ some (some id) | none ↦ super_get level (part last) ]
  get_levels (level ∷ levels) (f ∷ g ∷ h ∷ fs) = do
    found ← super_get level (part f)
    elim found [ some id ↦ some (some id) | none ↦ get_levels levels (g ∷ h ∷ fs) ]

  unfoldable pub palantir_get : List (SuperFeatureIndex Float) → Feature Float → Option (Option ℕ)
  palantir_get levels (parts fs) = get_levels levels fs
  palantir_get levels (part _) = none
  palantir_get levels (words _) = none

  -- `PalantirIndex::AddFeature` over the levels
  unfoldable pub add_levels :
      List (SuperFeatureIndex Float)
      → List (Part Float)
      → ℕ
      → Option (List (SuperFeatureIndex Float))
  add_levels levels [] id = none
  add_levels levels (f ∷ []) id = none
  add_levels [] (f ∷ g ∷ fs) id = none
  add_levels (level ∷ levels) (f ∷ last ∷ []) id = do
    level' ← super_add level (part f) id
    level'' ← super_add level' (part last) id
    some (level'' ∷ levels)
  add_levels (level ∷ levels) (f ∷ g ∷ h ∷ fs) id = do
    level' ← super_add level (part f) id
    rest ← add_levels levels (g ∷ h ∷ fs) id
    some (level' ∷ rest)

  unfoldable pub palantir_add :
      List (SuperFeatureIndex Float) → Feature Float → ℕ → Option (List (SuperFeatureIndex Float))
  palantir_add levels (parts fs) id = add_levels levels fs id
  palantir_add levels (part _) id = none
  palantir_add levels (words _) id = none

  -- `PalantirIndex::PalantirIndex`
  unfoldable pub palantir_index : List (SuperFeatureIndex Float)
  palantir_index = super_feature_index 3 1 ∷ super_feature_index 4 1 ∷ super_feature_index 6 1 ∷ []
