-- ===== src/Index/BestFit.antt =====
-- index/best_fit_index.h, index/best_fit_index.cpp: the base chunk that shares most words.
-- `order` stands for the order in which the library goes through a map.
use chunk_grouping.Prelude.{
  ℕ, ◌+◌, ◌-◌, ◌^◌, ltb, if◌then◌else◌, Option, none, some, ◌>>=◌, List, [], ◌∷◌, ◌++◌, replicate,
  length, lookup, insert, u32, ◌==◌,
}
use chunk_grouping.Index.{Feature, parts, part, words}

abbrev pub Maps : Type 0
Maps = List (List (ℕ × List ℕ))

abbrev pub feature_count : ℕ
feature_count = 12

-- the constructor
unfoldable pub best_fit_index : Maps
best_fit_index = replicate feature_count []

abbrev pub count_of : Option ℕ → ℕ
count_of none = 0
count_of (some n) = n

-- `match_count[id]++` for each number
unfoldable pub count_ids : List ℕ → List (ℕ × ℕ) → List (ℕ × ℕ)
count_ids [] counts = counts
count_ids (id ∷ ids) counts =
    count_ids ids (insert id (u32 (count_of (lookup id counts) + 1)) counts)

-- the loop over the maps
unfoldable pub count_matches : Maps → List ℕ → List (ℕ × ℕ) → Option (List (ℕ × ℕ))
unfolding count_ids
count_matches [] features counts = some counts
count_matches (m ∷ index) [] counts = none
count_matches (m ∷ index) (f ∷ features) counts =
    count_matches index features
      (elim (lookup f m) [ none ↦ counts | some ids ↦ count_ids ids counts ])

-- the loop over the counts: `max_match` and `max_match_id`
unfoldable pub best_match : List (ℕ × ℕ) → ℕ → ℕ → ℕ × ℕ
best_match [] max_match max_match_id = (max_match, max_match_id)
best_match ((id, count) ∷ counts) max_match max_match_id =
    let more = ltb max_match count in
    best_match counts (if more then count else max_match) (if more then id else max_match_id)

-- behind the two loops
abbrev pub enough : ℕ × ℕ → Option ℕ
enough (max_match, max_match_id) = if ltb max_match 4 then none else some max_match_id

-- `GetBaseChunkID`
unfoldable pub best_fit_get {ℓ} :
    {Float : Type ℓ} → (List (ℕ × ℕ) → List (ℕ × ℕ)) → Maps → Feature Float → Option (Option ℕ)
unfolding count_matches best_match
best_fit_get order index (words features) = do
  counts ← count_matches index features []
  if length counts == 0 then some none else some (enough (best_match (order counts) 0 (2 ^ 32 - 1)))
best_fit_get order index (parts _) = none
best_fit_get order index (part _) = none

abbrev pub ids_of : Option (List ℕ) → List ℕ
ids_of none = []
ids_of (some ids) = ids

-- `index_[i][features[i]].push_back(id)`
unfoldable pub push_all : Maps → List ℕ → ℕ → Option Maps
push_all [] features id = some []
push_all (m ∷ index) [] id = none
push_all (m ∷ index) (f ∷ features) id = do
  rest ← push_all index features id
  some (insert f (ids_of (lookup f m) ++ id ∷ []) m ∷ rest)

-- `AddFeature`
unfoldable pub best_fit_add {ℓ} : {Float : Type ℓ} → Maps → Feature Float → ℕ → Option Maps
unfolding push_all
best_fit_add index (words features) id = push_all index features id
best_fit_add index (parts _) id = none
best_fit_add index (part _) id = none
