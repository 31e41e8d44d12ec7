-- ===== src/Index/Numbers.antt =====
-- The numbers in the maps of an index are those of base chunks that were added: a lookup never faults
-- and answers only with one of them.
use chunk_grouping.Prelude.{
  ℕ, ◌≤◌, ◌≡◌, refl, inl, inr, ◌∈◌, Bool, Bool-cases, Option, none, some, List, [], ◌∷◌, length,
  lookup_by, insert_by, lookup, insert, ◌==◌, arith,
}
use chunk_grouping.Index.{first_fit, add_words, near_entry, near_fit, add_floats}

abbrev pub NumberIn : List ℕ → Option ℕ → Type 0
NumberIn bases none = Unit {0}
NumberIn bases (some id) = id ∈ bases

abbrev pub Bounded : {K : Type 0} → List ℕ → List (K × ℕ) → Type 0
Bounded bases [] = Unit {0}
Bounded bases ((k, id) ∷ m) = (id ∈ bases) × Bounded bases m

abbrev pub MapsBounded : {K : Type 0} → List ℕ → List (List (K × ℕ)) → Type 0
MapsBounded bases [] = Unit {0}
MapsBounded bases (m ∷ ms) = Bounded bases m × MapsBounded bases ms

module _ {K : Type 0} where
  Bounded-cons :
      (n : ℕ) (bases : List ℕ) (m : List (K × ℕ)) → Bounded bases m → Bounded (n ∷ bases) m
  Bounded-cons n bases [] b = tt
  Bounded-cons n bases ((k, id) ∷ m) b = (inr b.0, Bounded-cons n bases m b.1)

  lookup_by-Bounded :
      (same : K → K → Bool) (k : K) (bases : List ℕ) (m : List (K × ℕ))
      → Bounded bases m
      → NumberIn bases (lookup_by same k m)
  unfolding lookup_by
  lookup_by-Bounded same k bases [] b = tt
  lookup_by-Bounded same k bases ((j, id) ∷ m) b = elim (Bool-cases (same k j)) [
    | inl t ↦ rw t b.0
    | inr f ↦ rw f (lookup_by-Bounded same k bases m b.1)
  ]

  insert_by-Bounded :
      (same : K → K → Bool) (k : K) (n : ℕ) (bases : List ℕ) (m : List (K × ℕ))
      → Bounded bases m
      → Bounded (n ∷ bases) (insert_by same k n m)
  unfolding insert_by
  insert_by-Bounded same k n bases [] b = (inl refl, tt)
  insert_by-Bounded same k n bases ((j, id) ∷ m) b = elim (Bool-cases (same k j)) [
    | inl t ↦ rw t (inl refl, Bounded-cons n bases m b.1)
    | inr f ↦ rw f (inr b.0, insert_by-Bounded same k n bases m b.1)
  ]

pub first_fit-Bounded :
    (bases : List ℕ) (ms : List (List (ℕ × ℕ))) (fs : List ℕ)
    → length ms ≤ length fs
    → MapsBounded bases ms
    → (r : Option ℕ) × (first_fit ms fs ≡ some r) × NumberIn bases r
unfolding first_fit
first_fit-Bounded bases [] fs h b = (none, refl, tt)
first_fit-Bounded bases (m ∷ ms) [] h b = absurd (omega arith)
first_fit-Bounded bases (m ∷ ms) (f ∷ fs) h b =
    go (lookup f m) refl (lookup_by-Bounded ◌==◌ f bases m b.0)
      (first_fit-Bounded bases ms fs (omega arith) b.1)
  where
    go :
        (found : Option ℕ)
        → lookup f m ≡ found
        → NumberIn bases found
        → (r : Option ℕ) × (first_fit ms fs ≡ some r) × NumberIn bases r
        → (r : Option ℕ) × (first_fit (m ∷ ms) (f ∷ fs) ≡ some r) × NumberIn bases r
    go (some id) e lt rest = (some id, rw (first_fit, e) refl, lt)
    go none e lt (r, run, below) = (r, rw (first_fit, e) run, below)

pub add_words-Bounded :
    (n : ℕ) (bases : List ℕ) (ms : List (List (ℕ × ℕ))) (fs : List ℕ)
    → length ms ≤ length fs
    → MapsBounded bases ms
    → (ms' : List (List (ℕ × ℕ))) × (add_words ms fs n ≡ some ms')
      × MapsBounded (n ∷ bases) ms'
      × (length ms' ≡ length ms)
unfolding add_words
add_words-Bounded n bases [] fs h b = ([], refl, tt, refl)
add_words-Bounded n bases (m ∷ ms) [] h b = absurd (omega arith)
add_words-Bounded n bases (m ∷ ms) (f ∷ fs) h b =
    let (rest, run, below, size) = add_words-Bounded n bases ms fs (omega arith) b.1 in
    (
      insert f n m ∷ rest,
      rw run refl,
      (insert_by-Bounded ◌==◌ f n bases m b.0, below),
      omega (arith, size),
    )

module _ {Float : Type 0} (same near : Float → Float → Bool) where
  near_entry-Bounded :
      (bases : List ℕ) (m : List (Float × ℕ)) (f : Float) (r : Option ℕ)
      → Bounded bases m
      → NumberIn bases r
      → NumberIn bases (near_entry same near m f r)
  unfolding near_entry
  near_entry-Bounded bases [] f r b lt = lt
  near_entry-Bounded bases ((key, id) ∷ m) f r b lt = elim (Bool-cases (near key f)) [
    | inl t ↦ rw t b.0
    | inr e ↦ rw e (near_entry-Bounded bases m f r b.1 lt)
  ]

  pub near_fit-Bounded :
      (bases : List ℕ) (ms : List (List (Float × ℕ))) (fs : List Float) (r : Option ℕ)
      → length ms ≤ length fs
      → MapsBounded bases ms
      → NumberIn bases r
      → (r' : Option ℕ) × (near_fit same near ms fs r ≡ some r') × NumberIn bases r'
  unfolding near_fit
  near_fit-Bounded bases [] fs r h b lt = (r, refl, lt)
  near_fit-Bounded bases (m ∷ ms) [] r h b lt = absurd (omega arith)
  near_fit-Bounded bases (m ∷ ms) (f ∷ fs) r h b lt =
      near_fit-Bounded bases ms fs (near_entry same near m f r) (omega arith) b.1
        (near_entry-Bounded bases m f r b.0 lt)

  pub add_floats-Bounded :
      (n : ℕ) (bases : List ℕ) (ms : List (List (Float × ℕ))) (fs : List Float)
      → length ms ≤ length fs
      → MapsBounded bases ms
      → (ms' : List (List (Float × ℕ))) × (add_floats same near ms fs n ≡ some ms')
        × MapsBounded (n ∷ bases) ms'
        × (length ms' ≡ length ms)
  unfolding add_floats
  add_floats-Bounded n bases [] fs h b = ([], refl, tt, refl)
  add_floats-Bounded n bases (m ∷ ms) [] h b = absurd (omega arith)
  add_floats-Bounded n bases (m ∷ ms) (f ∷ fs) h b =
      let (rest, run, below, size) = add_floats-Bounded n bases ms fs (omega arith) b.1 in
      (
        insert_by same f n m ∷ rest,
        rw run refl,
        (insert_by-Bounded same f n bases m b.0, below),
        omega (arith, size),
      )
