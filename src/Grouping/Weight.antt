-- ===== src/Grouping/Weight.antt =====
-- storage/storage.cpp, `grouped_chunks` of `dividByBase`: a sum over the entries of the map, against
-- a sum over the numbers.
use chunk_grouping.Prelude.{
  ℕ, zero, suc, ◌+◌, ◌≤◌, ◌<◌, ◌≡◌, refl, sym, ap₂, ◌∙◌, inl, inr, Bool-cases, true, ◌==◌, Option,
  none, some, if◌then◌else◌, List, [], ◌∷◌, lookup, lookup_by, arith,
}
use native.Mathlib.Decide.{dec_lt}
use chunk_grouping.Chunk.{Chunk}
use chunk_grouping.Grouping.{Groups}
use chunk_grouping.Grouping.Keys.{Ascends, lookup-Ascends}

-- the sum of a weight over the numbers below `n`
abbrev pub sum_to : (ℕ → ℕ) → ℕ → ℕ
sum_to w zero = 0
sum_to w (suc n) = sum_to w n + w n

pub sum_to-shift : (f : ℕ → ℕ) (n : ℕ) → f 0 + sum_to (λ i. f (suc i)) n ≡ sum_to f (suc n)
sum_to-shift f zero = omega arith
sum_to-shift f (suc n) = omega (arith, sum_to-shift f n)

pub sum_to_ext : (f g : ℕ → ℕ) (n : ℕ) → ((i : ℕ) → f i ≡ g i) → sum_to f n ≡ sum_to g n
sum_to_ext f g zero h = refl
sum_to_ext f g (suc n) h = omega (arith, h n, sum_to_ext f g n h)

sum_to-add : (f g : ℕ → ℕ) (n : ℕ) → sum_to (λ i. f i + g i) n ≡ sum_to f n + sum_to g n
sum_to-add f g zero = omega arith
sum_to-add f g (suc n) = omega (arith, sum_to-add f g n)

sum_to_zero : (n : ℕ) → sum_to (λ _. 0) n ≡ 0
sum_to_zero zero = refl
sum_to_zero (suc n) = omega (arith, sum_to_zero n)

-- a weight at one number alone
abbrev at_one : ℕ → ℕ → ℕ → ℕ
at_one key w i = if i == key then w else 0

sum_to-at_one_behind : (key w n : ℕ) → n ≤ key → sum_to (at_one key w) n ≡ 0
sum_to-at_one_behind key w zero h = refl
sum_to-at_one_behind key w (suc n) h = ground (arith, sum_to-at_one_behind key w n (omega arith))

sum_to-at_one : (key w n : ℕ) → key < n → sum_to (at_one key w) n ≡ w
sum_to-at_one key w zero h = absurd (omega arith)
sum_to-at_one key w (suc n) h = elim (dec_lt key n) [
  | yes lt ↦ ground (arith, sum_to-at_one key w n lt)
  | no ge ↦ ground (arith, sum_to-at_one_behind key w n (omega arith))
]

abbrev pub KeysBelow : ℕ → Groups → Type 0
KeysBelow n [] = Unit {0}
KeysBelow n ((key, _) ∷ groups) = (key < n) × KeysBelow n groups

-- Keys that go up are below what is above all numbers that have an entry.
pub KeysBelow-lookup :
    (lo n : ℕ) (groups : Groups)
    → Ascends lo groups
    → ((key : ℕ) → n ≤ key → lookup key groups ≡ none)
    → KeysBelow n groups
unfolding lookup_by
KeysBelow-lookup lo n [] a h = tt
KeysBelow-lookup lo n ((key, chunks) ∷ groups) (le, a) h =
    (below, KeysBelow-lookup (suc key) n groups a later)
  where
    below : key < n
    below = elim (dec_lt key n) [
      | yes lt ↦ lt
      | no ge ↦
          let here : (key == key) ≡ true = ground arith in
          let found : lookup key ((key, chunks) ∷ groups) ≡ some chunks = rw here refl in
          let absent = h key (omega arith) in absurd (cc)
    ]

    later : (j : ℕ) → n ≤ j → lookup j groups ≡ none
    later j le = elim (Bool-cases (j == key)) [
      | inl e ↦
          let found : lookup j ((key, chunks) ∷ groups) ≡ some chunks = rw e refl in
          let absent = h j le in absurd (cc)
      | inr e ↦
          let goes : lookup j ((key, chunks) ∷ groups) ≡ lookup j groups = rw e refl in
          sym goes ∙ h j le
    ]

module _ (entry : ℕ → List Chunk → ℕ) where
  abbrev pub weight : Groups → ℕ
  weight [] = 0
  weight ((key, chunks) ∷ groups) = entry key chunks + weight groups

  abbrev pub entry_weight : ℕ → Option (List Chunk) → ℕ
  entry_weight key none = 0
  entry_weight key (some chunks) = entry key chunks

  -- the entries, each at its number
  pub sum_to-lookup :
      (lo n : ℕ) (groups : Groups)
      → Ascends lo groups
      → KeysBelow n groups
      → sum_to (λ id. entry_weight id (lookup id groups)) n ≡ weight groups
  unfolding lookup_by
  sum_to-lookup lo n [] a b = sum_to_zero n
  sum_to-lookup lo n ((key, chunks) ∷ groups) (le, a) (lt, b) =
      sum_to_ext (λ id. entry_weight id (lookup id ((key, chunks) ∷ groups)))
        (λ id. at_one key (entry key chunks) id + entry_weight id (lookup id groups)) n split
      ∙ sum_to-add (at_one key (entry key chunks)) (λ id. entry_weight id (lookup id groups)) n
      ∙ ap₂ (λ x y. x + y) (sum_to-at_one key (entry key chunks) n lt)
          (sum_to-lookup (suc key) n groups a b)
    where
      split :
          (id : ℕ)
          → entry_weight id (lookup id ((key, chunks) ∷ groups))
            ≡ at_one key (entry key chunks) id + entry_weight id (lookup id groups)
      split id = elim (Bool-cases (id == key)) [
        | inl e ↦
            let same : id ≡ key = ground arith in
            let absent : lookup id groups ≡ none =
              lookup-Ascends (suc key) id groups a (omega (arith, same)) in
            rw (e, absent, same) (omega arith)
        | inr e ↦ rw e (omega arith)
      ]
