-- ===== src/Compression/BestFit.antt =====
-- `OdessSubfeatures` and `BestFitIndex` keep the laws that the loop of `AddFile` relies on.
use chunk_grouping.Prelude.{
  ℕ, ◌≤◌, ◌≡◌, refl, inl, inr, Bool, Bool-cases, some, List, [], ◌∷◌, ◌++◌, length, lookup, insert,
  insert_by, ◌==◌, arith,
}
use chunk_grouping.Features.{odess_sub_features}
use chunk_grouping.Features.Sizes.{length-odess_sub_features}
use chunk_grouping.Index.BestFit.{Maps, ids_of, push_all, best_fit_index, best_fit_add}
use chunk_grouping.Index.BestMatch.{AllIn, MapIn, MapsIn, lookup-AllIn}
use chunk_grouping.Index.BestAnswer.{IsOrder, best_fit_get-KeysIn}
use chunk_grouping.Compression.{bestfit}
use chunk_grouping.Compression.Laws.{Indexed}

-- An index of twelve maps at most, with numbers of `bases` alone.
abbrev pub MapsOf : List ℕ → Maps → Type 0
MapsOf bases index = (length index ≤ 12) × MapsIn bases index

module _ (n : ℕ) (bases : List ℕ) where
  AllIn-cons : (ids : List ℕ) → AllIn bases ids → AllIn (n ∷ bases) ids
  AllIn-cons [] a = tt
  AllIn-cons (id ∷ ids) (i, a) = (inr i, AllIn-cons ids a)

  AllIn-snoc : (ids : List ℕ) → AllIn bases ids → AllIn (n ∷ bases) (ids ++ n ∷ [])
  AllIn-snoc [] a = (inl refl, tt)
  AllIn-snoc (id ∷ ids) (i, a) = (inr i, AllIn-snoc ids a)

  MapIn-cons : (m : List (ℕ × List ℕ)) → MapIn bases m → MapIn (n ∷ bases) m
  MapIn-cons [] a = tt
  MapIn-cons ((word, ids) ∷ m) (a, rest) = (AllIn-cons ids a, MapIn-cons m rest)

  insert-MapIn :
      (word : ℕ) (ids : List ℕ) (m : List (ℕ × List ℕ))
      → AllIn (n ∷ bases) ids
      → MapIn bases m
      → MapIn (n ∷ bases) (insert word ids m)
  unfolding insert_by
  insert-MapIn word ids [] a rest = (a, tt)
  insert-MapIn word ids ((j, old) ∷ m) a (b, rest) = elim (Bool-cases (word == j)) [
    | inl e ↦ rw e (a, MapIn-cons m rest)
    | inr e ↦ rw e (AllIn-cons old b, insert-MapIn word ids m a rest)
  ]

  -- `AddFeature` never faults where there is a word for every map.
  push_all-MapsIn :
      (index : Maps) (features : List ℕ)
      → length index ≤ length features
      → MapsIn bases index
      → (index' : Maps) × (push_all index features n ≡ some index')
        × MapsIn (n ∷ bases) index'
        × (length index' ≡ length index)
  unfolding push_all
  push_all-MapsIn [] features h a = ([], refl, tt, refl)
  push_all-MapsIn (m ∷ index) [] h a = absurd (omega arith)
  push_all-MapsIn (m ∷ index) (f ∷ features) h (a, rest) =
      let (index', run, b, size) = push_all-MapsIn index features (omega arith) rest in
      (
        insert f (ids_of (lookup f m) ++ n ∷ []) m ∷ index',
        rw run refl,
        (
          insert-MapIn f (ids_of (lookup f m) ++ n ∷ []) m
              (AllIn-snoc (ids_of (lookup f m)) (lookup-AllIn bases f m a)) a,
          b,
        ),
        omega (arith, size),
      )

-- The constructor's index has no numbers.
pub best_fit_index-MapsOf : MapsOf [] best_fit_index
unfolding best_fit_index
best_fit_index-MapsOf =
    (omega arith, (tt, (tt, (tt, (tt, (tt, (tt, (tt, (tt, (tt, (tt, (tt, (tt, tt)))))))))))))

-- Best-fit keeps the laws, in whatever order the counts are visited: no lookup and no insertion faults,
-- and the index answers only with numbers that were added.
pub bestfit-Indexed :
    {Float : Type 0} (same near : Float → Float → Bool) (zero_cal : List ℕ → Float)
    (order : List (ℕ × ℕ) → List (ℕ × ℕ))
    → IsOrder order
    → Indexed (bestfit same near zero_cal order) MapsOf
unfolding best_fit_add
bestfit-Indexed {Float} same near zero_cal order ordered = record {
  answers = λ bases index c (size, m).
      best_fit_get-KeysIn Float order index (odess_sub_features c) bases ordered
        (omega (arith, length-odess_sub_features c)) m;
  adds = λ n bases index c (size, m).
      let (index', run, b, same_size) =
        push_all-MapsIn n bases index (odess_sub_features c)
          (omega (arith, length-odess_sub_features c)) m in
      (index', run, (omega (arith, same_size), b));
}
