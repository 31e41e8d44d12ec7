-- ===== src/Index/BestEntries.antt =====
-- index/best_fit_index.cpp, `GetBaseChunkID`: the entries that are counted, and the largest of them.
use chunk_grouping.Prelude.{
  ℕ, ◌≤◌, ◌≡◌, refl, sym, subst, ◌∙◌, ◌⊎◌, inl, inr, Bool-cases, ltb, some, List, [], ◌∷◌, lookup,
  lookup_by, insert, insert_by, ◌==◌, arith,
}
use chunk_grouping.Index.BestFit.{Maps, count_of, count_ids, count_matches, best_match, ids_of}
use chunk_grouping.Index.BestMatch.{count_matches-step}

-- The entry stands in the list.
abbrev pub EntryIn : ℕ → ℕ → List (ℕ × ℕ) → Type 0
EntryIn id n [] = ⊥
EntryIn id n ((j, c) ∷ counts) = ((id ≡ j) × (n ≡ c)) ⊎ EntryIn id n counts

-- Every key stands in one entry.
abbrev pub Distinct : List (ℕ × ℕ) → Type 0
Distinct [] = Unit {0}
Distinct ((j, c) ∷ counts) = ((n : ℕ) → ¬ EntryIn j n counts) × Distinct counts

-- The largest count of the loop, and the entry that it is from.
abbrev pub IsMost : List (ℕ × ℕ) → ℕ → ℕ → ℕ × ℕ → Type 0
IsMost counts most id r =
    (most ≤ r.0)
    × ((j n : ℕ) → EntryIn j n counts → n ≤ r.0)
    × (((r.0 ≡ most) × (r.1 ≡ id)) ⊎ EntryIn r.1 r.0 counts)

pub best_match-IsMost :
    (counts : List (ℕ × ℕ)) (most id : ℕ) → IsMost counts most id (best_match counts most id)
unfolding best_match
best_match-IsMost [] most id = (omega arith, (λ j n e. absurd e), inl (refl, refl))
best_match-IsMost ((j, c) ∷ counts) most id = elim (Bool-cases (ltb most c)) [
  | inl more ↦
      let (up, all, from) = best_match-IsMost counts c j in
      let goes : best_match ((j, c) ∷ counts) most id ≡ best_match counts c j =
        rw (best_match, more) refl in
      subst (λ r. IsMost ((j, c) ∷ counts) most id r) (sym goes)
        (
          ground (arith, up),
          (λ i n e. elim e [ inl (_, at) ↦ omega (arith, at, up) | inr old ↦ all i n old ]),
          elim from [ inl (a, b) ↦ inr (inl (b, a)) | inr old ↦ inr (inr old) ],
        )
  | inr less ↦
      let (up, all, from) = best_match-IsMost counts most id in
      let goes : best_match ((j, c) ∷ counts) most id ≡ best_match counts most id =
        rw (best_match, less) refl in
      subst (λ r. IsMost ((j, c) ∷ counts) most id r) (sym goes)
        (
          up,
          (λ i n e. elim e [ inl (_, at) ↦ ground (arith, at, up) | inr old ↦ all i n old ]),
          elim from [ inl stay ↦ inl stay | inr old ↦ inr (inr old) ],
        )
]

pub EntryIn-lookup :
    (id n : ℕ) (counts : List (ℕ × ℕ))
    → Distinct counts
    → EntryIn id n counts
    → count_of (lookup id counts) ≡ n
unfolding lookup_by
EntryIn-lookup id n [] d e = absurd e
EntryIn-lookup id n ((j, c) ∷ counts) (fresh, d) (inl (a, b)) = ground (arith, a, b)
EntryIn-lookup id n ((j, c) ∷ counts) (fresh, d) (inr old) = elim (Bool-cases (id == j)) [
  | inl e ↦
      let same : id ≡ j = ground arith in
      absurd (fresh n (subst (λ i. EntryIn i n counts) same old))
  | inr e ↦ rw e (EntryIn-lookup id n counts d old)
]

pub lookup-EntryIn :
    (id : ℕ) (counts : List (ℕ × ℕ)) (n : ℕ) → lookup id counts ≡ some n → EntryIn id n counts
unfolding lookup_by
lookup-EntryIn id [] n e = cc
lookup-EntryIn id ((j, c) ∷ counts) n e = elim (Bool-cases (id == j)) [
  | inl t ↦ let here : lookup id ((j, c) ∷ counts) ≡ some c = rw t refl in inl (ground arith, cc)
  | inr t ↦
      let on : lookup id ((j, c) ∷ counts) ≡ lookup id counts = rw t refl in
      inr (lookup-EntryIn id counts n (sym on ∙ e))
]

insert-EntryIn :
    (id n j v : ℕ) (counts : List (ℕ × ℕ))
    → EntryIn id n (insert j v counts)
    → (id ≡ j) ⊎ ((m : ℕ) × EntryIn id m counts)
unfolding insert_by
insert-EntryIn id n j v [] e = elim e [ inl (a, b) ↦ inl a | inr b ↦ absurd b ]
insert-EntryIn id n j v ((i, c) ∷ counts) e = elim (Bool-cases (j == i)) [
  | inl t ↦
      let goes : insert j v ((i, c) ∷ counts) ≡ (i, v) ∷ counts = rw (insert_by, t) refl in
      elim (subst (λ cs. EntryIn id n cs) goes e) [
        | inl (a, b) ↦ inr (c, inl (a, refl))
        | inr old ↦ inr (n, inr old)
      ]
  | inr t ↦
      let goes : insert j v ((i, c) ∷ counts) ≡ (i, c) ∷ insert j v counts =
        rw (insert_by, t) refl in
      elim (subst (λ cs. EntryIn id n cs) goes e) [
        | inl at ↦ inr (n, inl at)
        | inr old ↦ elim (insert-EntryIn id n j v counts old) [
          | inl same ↦ inl same
          | inr (m, there) ↦ inr (m, inr there)
        ]
      ]
]

insert-Distinct : (j v : ℕ) (counts : List (ℕ × ℕ)) → Distinct counts → Distinct (insert j v counts)
unfolding insert_by
insert-Distinct j v [] d = ((λ n e. e), tt)
insert-Distinct j v ((i, c) ∷ counts) (fresh, d) = elim (Bool-cases (j == i)) [
  | inl t ↦ rw t (fresh, d)
  | inr t ↦ rw t (
    (λ n e. elim (insert-EntryIn i n j v counts e) [
      | inl same ↦ ground arith
      | inr (m, there) ↦ fresh m there
    ]),
    insert-Distinct j v counts d,
  )
]

count_ids-Distinct :
    (ids : List ℕ) (counts : List (ℕ × ℕ)) → Distinct counts → Distinct (count_ids ids counts)
unfolding count_ids
count_ids-Distinct [] counts d = d
count_ids-Distinct (id ∷ ids) counts d = count_ids-Distinct ids _ (insert-Distinct id _ counts d)

pub count_matches-Distinct :
    (index : Maps) (features : List ℕ) (counts counts' : List (ℕ × ℕ))
    → Distinct counts
    → count_matches index features counts ≡ some counts'
    → Distinct counts'
unfolding count_matches
count_matches-Distinct [] features counts counts' d e =
    let same : counts ≡ counts' = cc in rw (sym same) d
count_matches-Distinct (m ∷ index) [] counts counts' d e = cc
count_matches-Distinct (m ∷ index) (f ∷ features) counts counts' d e =
    let ids = ids_of (lookup f m) in
    count_matches-Distinct index features (count_ids ids counts) counts'
      (count_ids-Distinct ids counts d) (sym (count_matches-step m index f features counts) ∙ e)
