-- ===== src/Index/Tests.antt =====
-- Lookup after insertion, with words for own features, and the best fit in small indexes.
use chunk_grouping.Prelude.{
  ℕ, ◌≡◌, refl, Option, lookup_by, insert_by, some, List, [], ◌∷◌, ◌==◌, arith,
}
use chunk_grouping.Index.{
  super_feature, part, SuperFeatureIndex, super_feature_index, words, super_get, super_add,
}
use chunk_grouping.Index.BestFit.{Maps, best_fit_get}
use chunk_grouping.Index.BestAnswer.{IsOrder, IsBest, best_fit_get-IsBest}
use chunk_grouping.Index.Super.{Apart, super_get-super_add}

abbrev three : SuperFeatureIndex ℕ
unfolding super_feature_index
three = super_feature_index 3 1

abbrev words_of : List ℕ
words_of = 11 ∷ 12 ∷ 13 ∷ []

super_get-super_add_example :
    (x' : SuperFeatureIndex ℕ) × (super_add ◌==◌ ◌==◌ three (part (super_feature words_of)) 7
      ≡ some x')
    × (super_get ◌==◌ ◌==◌ x' (part (super_feature words_of)) ≡ some (some 7))
    × ((gs : List ℕ)
        → Apart words_of gs
        → super_get ◌==◌ ◌==◌ x' (part (super_feature gs))
          ≡ super_get ◌==◌ ◌==◌ three (part (super_feature gs)))
unfolding three
super_get-super_add_example =
    super_get-super_add ◌==◌ ◌==◌ three words_of 7 (omega arith) (omega arith)

-- three maps of a best-fit index, and a feature with two words in common with chunk 7
abbrev shared : Maps
shared = ((1, 7 ∷ 8 ∷ []) ∷ []) ∷ ((2, 7 ∷ []) ∷ []) ∷ ((3, 9 ∷ []) ∷ []) ∷ []

as_it_is-IsOrder : IsOrder (λ counts. counts)
as_it_is-IsOrder counts id n = ((λ e. e), (λ e. e))

best_fit_get-IsBest_example :
    (r : Option ℕ) × (best_fit_get {Float = ℕ} (λ counts. counts) shared (words (1 ∷ 2 ∷ 5 ∷ []))
      ≡ some r)
    × IsBest shared (1 ∷ 2 ∷ 5 ∷ []) r
best_fit_get-IsBest_example =
    best_fit_get-IsBest ℕ (λ counts. counts) shared (1 ∷ 2 ∷ 5 ∷ []) as_it_is-IsOrder (omega arith)

-- four words in common are enough, and twice under one word counts twice
abbrev wide : Maps
wide = ((1, 8 ∷ 7 ∷ 7 ∷ []) ∷ []) ∷ ((2, 7 ∷ []) ∷ []) ∷ ((3, 8 ∷ 7 ∷ []) ∷ []) ∷ []

chosen : best_fit_get {Float = ℕ} (λ counts. counts) wide (words (1 ∷ 2 ∷ 3 ∷ [])) ≡ some (some 7)
unfolding best_fit_get lookup_by insert_by
chosen = refl
