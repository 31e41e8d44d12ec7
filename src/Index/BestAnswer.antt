-- ===== src/Index/BestAnswer.antt =====
-- index/best_fit_index.cpp, `GetBaseChunkID`: the answer, against the words that are in common.
use chunk_grouping.Prelude.{
  ℕ, ◌≤◌, ◌<◌, ◌≡◌, ◌^◌, ◌-◌, ◌↔◌, refl, subst, inl, inr, Bool-cases, ltb, Option, true, none, some,
  List, [], ◌∷◌, length, lookup, lookup_by, ◌==◌, ◌∈◌, u32, arith,
}
use chunk_grouping.Index.{words}
use chunk_grouping.Index.BestFit.{Maps, count_of, count_matches, best_match, enough, best_fit_get}
use chunk_grouping.Index.BestMatch.{KeysIn, MapsIn, count_matches-KeysIn, count_matches_returns}
use chunk_grouping.Index.BestCount.{common, counted, counted-count_matches}
use chunk_grouping.Index.BestEntries.{
  EntryIn, IsMost, best_match-IsMost, EntryIn-lookup, lookup-EntryIn, count_matches-Distinct,
}

-- The loop over a map visits its entries, each of them and no other, in some order.
abbrev pub IsOrder : (List (ℕ × ℕ) → List (ℕ × ℕ)) → Type 0
IsOrder order =
    (counts : List (ℕ × ℕ)) (id n : ℕ) → EntryIn id n (order counts) ↔ EntryIn id n counts

-- The answer has 4 words in common, and no chunk has more; without one, no chunk has 4.
abbrev pub IsBest : Maps → List ℕ → Option ℕ → Type 0
IsBest index features none = (j : ℕ) → u32 (common j index features) < 4
IsBest index features (some id) =
    (4 ≤ u32 (common id index features))
    × ((j : ℕ) → u32 (common j index features) ≤ u32 (common id index features))

module _ (order : List (ℕ × ℕ) → List (ℕ × ℕ)) (ordered : IsOrder order) (index : Maps)
    (features : List ℕ) (counts : List (ℕ × ℕ))
    (run : count_matches index features [] ≡ some counts) where
  shared : (j : ℕ) → count_of (lookup j counts) ≡ u32 (common j index features)
  unfolding lookup_by
  shared j =
      let nothing_yet : counted j [] ≡ 0 = refl in
      omega (
        arith,
        nothing_yet,
        counted-count_matches j index features [] counts (omega (arith, nothing_yet)) run,
      )

  -- no count is larger than the largest
  below_most :
      (most : ℕ)
      → ((j n : ℕ) → EntryIn j n (order counts) → n ≤ most)
      → (j : ℕ) → count_of (lookup j counts) ≤ most
  below_most most all j = go (lookup j counts) refl
    where
      go : (found : Option ℕ) → lookup j counts ≡ found → count_of found ≤ most
      go none e = omega arith
      go (some n) e = all j n ((ordered counts j n).1 (lookup-EntryIn j counts n e))

  -- An answer is counted.
  abbrev IsCounted : Option ℕ → Type 0
  IsCounted none = Unit {0}
  IsCounted (some id) = (n : ℕ) × EntryIn id n counts

  answered :
      (r : ℕ × ℕ)
      → IsMost (order counts) 0 (2 ^ 32 - 1) r
      → IsBest index features (enough r) × IsCounted (enough r)
  answered (most, id) (up, all, from) = elim (Bool-cases (ltb most 4)) [
    | inl few ↦ rw few ((λ j. ground (arith, shared j, below_most most all j)), tt)
    | inr many ↦ elim from [
      | inl (zero_most, _) ↦ absurd (ground arith)
      | inr entry ↦
          let there = (ordered counts id most).0 entry in
          let at =
            EntryIn-lookup id most counts (count_matches-Distinct index features [] counts tt run)
              there in
          rw many (
            (
              ground (arith, shared id),
              λ j. omega (arith, shared id, shared j, at, below_most most all j),
            ),
            (most, there),
          )
    ]
  ]

KeysIn-EntryIn :
    (bases : List ℕ) (id n : ℕ) (counts : List (ℕ × ℕ))
    → KeysIn bases counts
    → EntryIn id n counts
    → id ∈ bases
KeysIn-EntryIn bases id n [] k e = absurd e
KeysIn-EntryIn bases id n ((j, c) ∷ counts) (i, k) (inl (a, b)) = rw a i
KeysIn-EntryIn bases id n ((j, c) ∷ counts) (i, k) (inr e) = KeysIn-EntryIn bases id n counts k e

nothing_counted :
    (counts : List (ℕ × ℕ)) (j : ℕ) → (length counts == 0) ≡ true → count_of (lookup j counts) ≡ 0
unfolding lookup_by
nothing_counted [] j e = refl
nothing_counted (c ∷ counts) j e = absurd (ground arith)

-- With a word for every map the lookup answers, in whatever order it visits the counts: with a base
-- chunk that has at least 4 words in common, and none has more; or with none, where no base chunk has
-- 4. The words in common are counted with 32 bits.
pub best_fit_get-IsBest {ℓ} :
    (Float : Type ℓ) (order : List (ℕ × ℕ) → List (ℕ × ℕ)) (index : Maps) (features : List ℕ)
    → IsOrder order
    → length index ≤ length features
    → (r : Option ℕ) × (best_fit_get {Float = Float} order index (words features) ≡ some r)
      × IsBest index features r
unfolding best_fit_get
best_fit_get-IsBest Float order index features ordered h =
    let (counts, run) = count_matches_returns index features [] h in
    elim (Bool-cases (length counts == 0)) [
      | inl empty ↦ (
        none,
        rw (run, empty) refl,
        λ j. omega (
          arith,
          shared order ordered index features counts run j,
          nothing_counted counts j empty,
        ),
      )
      | inr some_counted ↦
          let (best, _) =
            answered order ordered index features counts run
              (best_match (order counts) 0 (2 ^ 32 - 1))
              (best_match-IsMost (order counts) 0 (2 ^ 32 - 1)) in
          (enough (best_match (order counts) 0 (2 ^ 32 - 1)), rw (run, some_counted) refl, best)
    ]

-- and the answer is a number of the index.
pub best_fit_get-KeysIn {ℓ} :
    (Float : Type ℓ) (order : List (ℕ × ℕ) → List (ℕ × ℕ)) (index : Maps) (features bases : List ℕ)
    → IsOrder order
    → length index ≤ length features
    → MapsIn bases index
    → (r : Option ℕ) × (best_fit_get {Float = Float} order index (words features) ≡ some r)
      × ((id : ℕ) → r ≡ some id → id ∈ bases)
unfolding best_fit_get
best_fit_get-KeysIn Float order index features bases ordered h m =
    let (counts, run) = count_matches_returns index features [] h in
    elim (Bool-cases (length counts == 0)) [
      | inl empty ↦ (none, rw (run, empty) refl, λ id e. cc)
      | inr some_counted ↦
          let r = enough (best_match (order counts) 0 (2 ^ 32 - 1)) in
          let (_, entry) =
            answered order ordered index features counts run
              (best_match (order counts) 0 (2 ^ 32 - 1))
              (best_match-IsMost (order counts) 0 (2 ^ 32 - 1)) in
          (
            r,
            rw (run, some_counted) refl,
            λ id e.
                let (n, there) =
                  subst (λ o. IsCounted order ordered index features counts run o) e entry in
                KeysIn-EntryIn bases id n counts
                  (count_matches-KeysIn bases index features [] counts m tt run) there,
          )
    ]
