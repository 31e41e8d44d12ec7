-- ===== src/Index/BestMatch.antt =====
-- index/best_fit_index.cpp: what a lookup counts, and what it answers.
use chunk_grouping.Prelude.{
  ℕ, ◌≤◌, ◌≡◌, ap, ◌∙◌, refl, sym, subst, inl, inr, ◌∈◌, Bool-cases, Option, none, some, List, [],
  ◌∷◌, length, lookup, lookup_by, insert, insert_by, ◌==◌, arith,
}
use chunk_grouping.Index.BestFit.{Maps, count_ids, count_matches, ids_of}

-- All of these are among the others.
abbrev pub AllIn : List ℕ → List ℕ → Type 0
AllIn bases [] = Unit {0}
AllIn bases (id ∷ ids) = (id ∈ bases) × AllIn bases ids

-- The keys of an association list are among these.
abbrev pub KeysIn : List ℕ → List (ℕ × ℕ) → Type 0
KeysIn bases [] = Unit {0}
KeysIn bases ((id, count) ∷ counts) = (id ∈ bases) × KeysIn bases counts

abbrev pub MapIn : List ℕ → List (ℕ × List ℕ) → Type 0
MapIn bases [] = Unit {0}
MapIn bases ((word, ids) ∷ m) = AllIn bases ids × MapIn bases m

abbrev pub MapsIn : List ℕ → Maps → Type 0
MapsIn bases [] = Unit {0}
MapsIn bases (m ∷ index) = MapIn bases m × MapsIn bases index

-- one round of the loop over the maps
pub count_matches-step :
    (m : List (ℕ × List ℕ)) (index : Maps) (f : ℕ) (features : List ℕ) (counts : List (ℕ × ℕ))
    → count_matches (m ∷ index) (f ∷ features) counts
      ≡ count_matches index features (count_ids (ids_of (lookup f m)) counts)
unfolding count_matches count_ids
count_matches-step m index f features counts =
    ap (count_matches index features) (matched (lookup f m))
  where
    matched :
        (found : Option (List ℕ))
        → elim found [ none ↦ counts | some ids ↦ count_ids ids counts ]
          ≡ count_ids (ids_of found) counts
    matched none = refl
    matched (some ids) = refl

module _ (bases : List ℕ) where
  insert-KeysIn :
      (id n : ℕ) (counts : List (ℕ × ℕ))
      → id ∈ bases
      → KeysIn bases counts
      → KeysIn bases (insert id n counts)
  unfolding insert_by
  insert-KeysIn id n [] i k = (i, tt)
  insert-KeysIn id n ((j, c) ∷ counts) i (ij, k) = elim (Bool-cases (id == j)) [
    | inl e ↦ rw e (ij, k)
    | inr e ↦ rw e (ij, insert-KeysIn id n counts i k)
  ]

  count_ids-KeysIn :
      (ids : List ℕ) (counts : List (ℕ × ℕ))
      → AllIn bases ids
      → KeysIn bases counts
      → KeysIn bases (count_ids ids counts)
  unfolding count_ids
  count_ids-KeysIn [] counts a k = k
  count_ids-KeysIn (id ∷ ids) counts (i, a) k =
      count_ids-KeysIn ids _ a (insert-KeysIn id _ counts i k)

  pub lookup-AllIn :
      (word : ℕ) (m : List (ℕ × List ℕ)) → MapIn bases m → AllIn bases (ids_of (lookup word m))
  unfolding lookup_by
  lookup-AllIn word [] a = tt
  lookup-AllIn word ((j, ids) ∷ m) (a, rest) = elim (Bool-cases (word == j)) [
    | inl e ↦ rw e a
    | inr e ↦ rw e (lookup-AllIn word m rest)
  ]

  -- What is counted are numbers of the index alone.
  pub count_matches-KeysIn :
      (index : Maps) (features : List ℕ) (counts counts' : List (ℕ × ℕ))
      → MapsIn bases index
      → KeysIn bases counts
      → count_matches index features counts ≡ some counts'
      → KeysIn bases counts'
  unfolding count_matches
  count_matches-KeysIn [] features counts counts' a k e =
      let same : counts ≡ counts' = cc in subst (λ c. KeysIn bases c) same k
  count_matches-KeysIn (m ∷ index) [] counts counts' a k e = cc
  count_matches-KeysIn (m ∷ index) (f ∷ features) counts counts' (a, rest) k e =
      let ids = ids_of (lookup f m) in
      count_matches-KeysIn index features (count_ids ids counts) counts' rest
        (count_ids-KeysIn ids counts (lookup-AllIn f m a) k)
        (sym (count_matches-step m index f features counts) ∙ e)

-- With a word for every map the counting ends.
pub count_matches_returns :
    (index : Maps) (features : List ℕ) (counts : List (ℕ × ℕ))
    → length index ≤ length features
    → (counts' : List (ℕ × ℕ)) × (count_matches index features counts ≡ some counts')
unfolding count_matches
count_matches_returns [] features counts h = (counts, refl)
count_matches_returns (m ∷ index) [] counts h = absurd (omega arith)
count_matches_returns (m ∷ index) (f ∷ features) counts h =
    let (c, run) =
      count_matches_returns index features (count_ids (ids_of (lookup f m)) counts) (omega arith) in
    (c, count_matches-step m index f features counts ∙ run)
