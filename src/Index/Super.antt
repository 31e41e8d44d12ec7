-- ===== src/Index/Super.antt =====
-- Lookup after insertion, for the super features.
use chunk_grouping.Prelude.{
  ℕ, ◌≤◌, ◌<◌, ◌≡◌, ◌≢◌, refl, ap, Bool, Option, none, some, List, [], ◌∷◌, length, lookup, insert,
  insert_by, lookup-insert_same, lookup-insert_other, arith,
}
use chunk_grouping.Index.{
  Part, super_feature, our_feature, part, parts, SuperFeatureIndex, first_fit, add_words,
  add_floats, super_get, super_add, get_levels, add_levels, palantir_get, palantir_add,
}

-- the maps with an entry for each word
abbrev pub inserted : List (List (ℕ × ℕ)) → List ℕ → ℕ → List (List (ℕ × ℕ))
inserted [] fs id = []
inserted (m ∷ ms) [] id = m ∷ ms
inserted (m ∷ ms) (f ∷ fs) id = insert f id m ∷ inserted ms fs id

-- With a word for every map the insertion succeeds.
add_words_lem :
    (ms : List (List (ℕ × ℕ))) (fs : List ℕ) (id : ℕ)
    → length ms ≤ length fs
    → add_words ms fs id ≡ some (inserted ms fs id)
unfolding add_words
add_words_lem [] fs id h = refl
add_words_lem (m ∷ ms) [] id h = absurd (omega arith)
add_words_lem (m ∷ ms) (f ∷ fs) id h = rw (add_words_lem ms fs id (omega arith)) refl

-- What was inserted last is what a lookup of the same words finds.
first_fit-inserted :
    (ms : List (List (ℕ × ℕ))) (fs : List ℕ) (id : ℕ)
    → 0 < length ms
    → length ms ≤ length fs
    → first_fit (inserted ms fs id) fs ≡ some (some id)
unfolding first_fit
first_fit-inserted [] fs id pos h = absurd (omega arith)
first_fit-inserted (m ∷ ms) [] id pos h = absurd (omega arith)
first_fit-inserted (m ∷ ms) (f ∷ fs) id pos h = rw (first_fit, lookup-insert_same f id m) refl

-- Two word lists with different words at every place.
abbrev pub Apart : List ℕ → List ℕ → Type 0
Apart [] gs = Unit {0}
Apart (f ∷ fs) [] = Unit {0}
Apart (f ∷ fs) (g ∷ gs) = (g ≢ f) × Apart fs gs

-- A lookup of other words does not see the insertion.
first_fit-Apart :
    (ms : List (List (ℕ × ℕ))) (fs gs : List ℕ) (id : ℕ)
    → Apart fs gs
    → first_fit (inserted ms fs id) gs ≡ first_fit ms gs
unfolding first_fit
first_fit-Apart [] fs gs id a = refl
first_fit-Apart (m ∷ ms) [] gs id a = refl
first_fit-Apart (m ∷ ms) (f ∷ fs) [] id a = refl
first_fit-Apart (m ∷ ms) (f ∷ fs) (g ∷ gs) id a =
    rw (first_fit, lookup-insert_other g f id m a.0)
      (ap (λ (r : Option (Option ℕ)). elim (lookup g m) [ some i ↦ some (some i) | none ↦ r ])
        (first_fit-Apart ms fs gs id a.1))

module _ {ℓ} {Float : Type ℓ} (same near : Float → Float → Bool) where
  -- the index with an entry for each word
  abbrev pub with_words : SuperFeatureIndex Float → List ℕ → ℕ → SuperFeatureIndex Float
  with_words x fs id = record x { index = inserted x.index fs id }

  pub super_add_lem :
      (x : SuperFeatureIndex Float) (fs : List ℕ) (id : ℕ)
      → length x.index ≤ length fs
      → super_add same near x (part (super_feature fs)) id ≡ some (with_words x fs id)
  unfolding super_add
  super_add_lem x fs id h = rw (add_words_lem x.index fs id h) refl

  pub super_get_lem :
      (x : SuperFeatureIndex Float) (fs : List ℕ) (id : ℕ)
      → 0 < length x.index
      → length x.index ≤ length fs
      → super_get same near (with_words x fs id) (part (super_feature fs)) ≡ some (some id)
  unfolding super_get
  super_get_lem x fs id pos h = first_fit-inserted x.index fs id pos h

  -- A super feature with a word for every map can be added. It is then found, as the chunk that was
  -- added last; a super feature with other words at every place is found, or not, as before.
  pub super_get-super_add :
      (x : SuperFeatureIndex Float) (fs : List ℕ) (id : ℕ)
      → 0 < length x.index
      → length x.index ≤ length fs
      → (x' : SuperFeatureIndex Float) × (super_add same near x (part (super_feature fs)) id
          ≡ some x')
        × (super_get same near x' (part (super_feature fs)) ≡ some (some id))
        × ((gs : List ℕ)
            → Apart fs gs
            → super_get same near x' (part (super_feature gs))
              ≡ super_get same near x (part (super_feature gs)))
  unfolding super_get
  super_get-super_add x fs id pos h = (
    with_words x fs id,
    super_add_lem x fs id h,
    first_fit-inserted x.index fs id pos h,
    λ gs a. first_fit-Apart x.index fs gs id a,
  )

  add_floats_total :
      (ms : List (List (Float × ℕ))) (fs : List Float) (id : ℕ)
      → length ms ≤ length fs
      → (ms' : List (List (Float × ℕ))) × (add_floats same near ms fs id ≡ some ms')
  unfolding add_floats
  add_floats_total [] fs id h = ([], refl)
  add_floats_total (m ∷ ms) [] id h = absurd (omega arith)
  add_floats_total (m ∷ ms) (f ∷ fs) id h =
      let (rest, e) = add_floats_total ms fs id (omega arith) in
      (insert_by same f id m ∷ rest, rw e refl)

  super_add_float :
      (x : SuperFeatureIndex Float) (fs : List Float) (id : ℕ)
      → length x.index_float ≤ length fs
      → (x' : SuperFeatureIndex Float) × (super_add same near x (part (our_feature fs)) id
          ≡ some x')
  unfolding super_add
  super_add_float x fs id h =
      let (ms, e) = add_floats_total x.index_float fs id h in
      (record x { index_float = ms }, rw e refl)

  -- A feature of three super features and one own feature, long enough for the three levels of a
  -- Palantir index, can be added, and a lookup of the same feature then finds the added chunk. So
  -- does any feature that has the same super feature in front, whatever follows.
  pub palantir_get-palantir_add :
      (x y z : SuperFeatureIndex Float) (fs gs hs : List ℕ) (own : List Float) (id : ℕ)
      → 0 < length x.index
      → length x.index ≤ length fs
      → length y.index ≤ length gs
      → length z.index ≤ length hs
      → length z.index_float ≤ length own
      → let feature =
          parts (super_feature fs ∷ super_feature gs ∷ super_feature hs ∷ our_feature own ∷ []) in
        (levels : List (SuperFeatureIndex Float)) × (palantir_add same near
            (x ∷ y ∷ z ∷ [])
            feature
            id
          ≡ some levels)
        × (palantir_get same near levels feature ≡ some (some id))
        × ((q r : Part Float) (ps : List (Part Float))
            → palantir_get same near levels (parts (super_feature fs ∷ q ∷ r ∷ ps))
              ≡ some (some id))
  unfolding palantir_get palantir_add get_levels add_levels
  palantir_get-palantir_add x y z fs gs hs own id pos hx hy hz ho =
      let (z', e) = super_add_float (with_words z hs id) own id ho in
      (
        with_words x fs id ∷ with_words y gs id ∷ z' ∷ [],
        rw (super_add_lem x fs id hx, super_add_lem y gs id hy, super_add_lem z hs id hz, e) refl,
        rw (super_get_lem x fs id pos hx) refl,
        λ q r ps. rw (super_get_lem x fs id pos hx) refl,
      )
