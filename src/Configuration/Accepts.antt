-- ===== src/Configuration/Accepts.antt =====
-- Which configured features the index that is made with them takes.
use chunk_grouping.Prelude.{
  ℕ, zero, suc, ◌≤◌, ◌≡◌, ◌↔◌, refl, Bool, none, some, Option, List, [], ◌∷◌, length, lookup_by,
  take, replicate, arith,
}
use chunk_grouping.Chunk.{Chunk}
use chunk_grouping.Features.{
  odess_sub_loop, odess_sub_features, finesse_feature, n_transform_feature, odess_feature,
}
use chunk_grouping.Features.Sizes.{length-odess_sub_features}
use chunk_grouping.Index.{words, super_get}
use chunk_grouping.Index.BestFit.{count_matches, best_fit_index, best_fit_get}
use chunk_grouping.Compression.Palantir.{palantir_index-LevelsOf, palantir-Indexed}
use chunk_grouping.Configuration.{
  FeatureType, finesse, odess, n_transform, palantir_type, bestfit_type, make,
}

-- no map has a word yet
count_matches-replicate :
    (n : ℕ) (fs : List ℕ) → n ≤ length fs → count_matches (replicate n []) fs [] ≡ some []
unfolding count_matches lookup_by
count_matches-replicate zero fs h = refl
count_matches-replicate (suc n) [] h = absurd (omega arith)
count_matches-replicate (suc n) (f ∷ fs) h = count_matches-replicate n fs (omega arith)

best_fit_get-best_fit_index :
    (Float : Type 0) (order : List (ℕ × ℕ) → List (ℕ × ℕ)) (chunk : Chunk)
    → best_fit_get {Float = Float} order best_fit_index (words (odess_sub_features chunk))
      ≡ some none
unfolding best_fit_get best_fit_index odess_sub_features
best_fit_get-best_fit_index Float order chunk =
    let size = length-odess_sub_features chunk in
    rw
      (count_matches-replicate 12 (odess_sub_loop (take chunk.len chunk.buf) 0 (replicate 12 0))
        (omega (arith, size)))
      refl

-- the feature calculators that give a vector of words to an index that takes a variant of vectors
abbrev pub Mismatched : FeatureType → Type 0
Mismatched finesse = Unit {0}
Mismatched odess = Unit {0}
Mismatched n_transform = Unit {0}
Mismatched palantir_type = ⊥
Mismatched bestfit_type = ⊥

always_none : {A : Type 0} (o : Option A) → o ≡ none → (o ≡ none) ↔ Unit {0}
always_none o e = ((λ _. tt), (λ _. e))

some_not_none : {A : Type 0} (o : Option A) (a : A) → o ≡ some a → (o ≡ none) ↔ ⊥
some_not_none o a e = ((λ n. cc), (λ b. absurd b))

-- The first lookup in a run, which every file with a chunk makes, ends in an exception exactly for the
-- features finesse, odess and n-transform, whatever the chunk: their index takes the other alternative
-- of the variant. For palantir and bestfit it answers.
pub make-Mismatched :
    {Float : Type 0} (same near : Float → Float → Bool) (zero_cal : List ℕ → Float)
    (order : List (ℕ × ℕ) → List (ℕ × ℕ)) (t : FeatureType) (chunk : Chunk)
    → (let a = make same near zero_cal order t in
        a.operations.get_base_chunk_id a.start (a.operations.feature chunk) ≡ none)
      ↔ Mismatched t
unfolding make finesse_feature n_transform_feature odess_feature super_get
make-Mismatched same near zero_cal order finesse chunk = always_none _ refl
make-Mismatched same near zero_cal order odess chunk = always_none _ refl
make-Mismatched same near zero_cal order n_transform chunk = always_none _ refl
make-Mismatched same near zero_cal order palantir_type chunk =
    let (r, run, _) =
      (palantir-Indexed same near zero_cal).answers [] _ chunk
        (palantir_index-LevelsOf same near) in
    some_not_none _ r run
make-Mismatched {Float} same near zero_cal order bestfit_type chunk =
    some_not_none _ none (best_fit_get-best_fit_index Float order chunk)
