-- ===== src/Index/BestCount.antt =====
-- index/best_fit_index.cpp, `GetBaseChunkID`: what it counts are the words in common.
use chunk_grouping.Prelude.{
  ℕ, ◌+◌, ◌<◌, ◌≡◌, ◌^◌, refl, sym, ◌∙◌, inl, inr, Bool-cases, if◌then◌else◌, some, List, [], ◌∷◌,
  lookup, insert, lookup-insert_same, lookup-insert_other, ◌==◌, u32, arith,
}
use chunk_grouping.Index.BestFit.{Maps, count_of, count_ids, count_matches, ids_of}
use chunk_grouping.Index.BestMatch.{count_matches-step}

-- how often a number is in a list
abbrev pub occurrences : ℕ → List ℕ → ℕ
occurrences id [] = 0
occurrences id (j ∷ ids) = (if id == j then 1 else 0) + occurrences id ids

-- The words that the features have in common with the chunk of this number: for every map, how often
-- the number stands under the word there.
abbrev pub common : ℕ → Maps → List ℕ → ℕ
common id [] features = 0
common id (m ∷ index) [] = 0
common id (m ∷ index) (f ∷ features) =
    occurrences id (ids_of (lookup f m)) + common id index features

abbrev pub counted : ℕ → List (ℕ × ℕ) → ℕ
counted id counts = count_of (lookup id counts)

counted-insert :
    (id j : ℕ) (counts : List (ℕ × ℕ))
    → counted id counts < 2 ^ 32
    → counted id (insert j (u32 (counted j counts + 1)) counts)
      ≡ u32 (counted id counts + (if id == j then 1 else 0))
counted-insert id j counts small = elim (Bool-cases (id == j)) [
  | inl e ↦
      let same : id ≡ j = ground arith in
      rw (e, same, lookup-insert_same j (u32 (counted j counts + 1)) counts) refl
  | inr e ↦
      rw (e, lookup-insert_other id j (u32 (counted j counts + 1)) counts (ground arith))
        (omega (arith, small))
]

counted-count_ids :
    (id : ℕ) (ids : List ℕ) (counts : List (ℕ × ℕ))
    → counted id counts < 2 ^ 32
    → counted id (count_ids ids counts) ≡ u32 (counted id counts + occurrences id ids)
unfolding count_ids
counted-count_ids id [] counts small = omega arith
counted-count_ids id (j ∷ ids) counts small =
    let step = counted-insert id j counts small in
    omega (
      arith,
      step,
      counted-count_ids id ids (insert j (u32 (counted j counts + 1)) counts) (omega (arith, step)),
    )

-- What is counted for a number are the words in common, round 2 ^ 32.
pub counted-count_matches :
    (id : ℕ) (index : Maps) (features : List ℕ) (counts counts' : List (ℕ × ℕ))
    → counted id counts < 2 ^ 32
    → count_matches index features counts ≡ some counts'
    → counted id counts' ≡ u32 (counted id counts + common id index features)
unfolding count_matches
counted-count_matches id [] features counts counts' small e =
    let same : counts ≡ counts' = cc in rw (sym same) (omega arith)
counted-count_matches id (m ∷ index) [] counts counts' small e = cc
counted-count_matches id (m ∷ index) (f ∷ features) counts counts' small e =
    let ids = ids_of (lookup f m) in
    let step = counted-count_ids id ids counts small in
    let rest =
      counted-count_matches id index features (count_ids ids counts) counts' (omega (arith, step))
        (sym (count_matches-step m index f features counts) ∙ e) in
    omega (arith, step, rest)
