-- ===== src/Compression/Palantir.antt =====
-- The Palantir feature and its index keep the laws that the loop of `AddFile` relies on.
use chunk_grouping.Prelude.{
  ◌>>=◌, ℕ, ◌≤◌, ◌∈◌, ◌≡◌, refl, subst, ◌∙◌, Bool, Option, none, some, List, [], ◌∷◌, length, take,
  arith,
}
use chunk_grouping.Chunk.{Chunk}
use chunk_grouping.Index.{
  SuperFeatureIndex, parts, part, super_feature, our_feature, super_get, super_add, get_levels,
  add_levels, palantir_get, palantir_add, palantir_index, super_feature_index, first_fit,
}
use chunk_grouping.Index.Numbers.{
  NumberIn, MapsBounded, first_fit-Bounded, near_fit-Bounded, add_words-Bounded, add_floats-Bounded,
}
use chunk_grouping.Features.{super_features, odess_sub_features, palantir_feature}
use chunk_grouping.Features.Lookup.{IsPalantir, length-super_features}
use chunk_grouping.Compression.{palantir}
use chunk_grouping.Compression.Laws.{Indexed}

module _ {Float : Type 0} where
  -- A Palantir index of three levels, with numbers of `bases` alone.
  pub data LevelsOf (bases : List ℕ) (levels : List (SuperFeatureIndex Float)) : Type 0 where
    three :
        (x y z : SuperFeatureIndex Float)
        → levels ≡ x ∷ y ∷ z ∷ []
        → IsPalantir x y z
        → MapsBounded bases x.index
        → MapsBounded bases y.index
        → MapsBounded bases z.index
        → MapsBounded bases z.index_float
        → LevelsOf bases levels

  -- The constructor's index has no numbers.
  pub palantir_index-LevelsOf :
      (same near : Float → Float → Bool) → LevelsOf [] (palantir_index same near)
  unfolding palantir_index super_feature_index
  palantir_index-LevelsOf same near =
      three _ _ _ refl
        (record { first_level = refl; second_level = refl; third_level = refl; float_level = refl })
        (tt, (tt, (tt, tt))) (tt, (tt, (tt, (tt, tt)))) (tt, (tt, (tt, (tt, (tt, (tt, tt))))))
        (tt, tt)

module _ {Float : Type 0} (same near : Float → Float → Bool) (bases : List ℕ) where
  -- a level that is asked for words, and the next question where it has none of them
  answered :
      (x : SuperFeatureIndex Float) (fs : List ℕ) (next : Option (Option ℕ))
      → length x.index ≤ length fs
      → MapsBounded bases x.index
      → ((r : Option ℕ) × (next ≡ some r) × NumberIn bases r)
      → (r : Option ℕ) × ((do
        found ← super_get same near x (part (super_feature fs))
        elim found [ some id ↦ some (some id) | none ↦ next ])
          ≡ some r)
        × NumberIn bases r
  unfolding super_get
  answered x fs next h b rest = go (first_fit-Bounded bases x.index fs h b) rest
    where
      go :
          (r : Option ℕ) × (first_fit x.index fs ≡ some r) × NumberIn bases r
          → ((r : Option ℕ) × (next ≡ some r) × NumberIn bases r)
          → (r : Option ℕ) × ((do
            found ← super_get same near x (part (super_feature fs))
            elim found [ some id ↦ some (some id) | none ↦ next ])
              ≡ some r)
            × NumberIn bases r
      go (some id, run, below) rest = (some id, rw run refl, below)
      go (none, run, below) (r, e, lt) = (r, rw run e, lt)

  -- `PalantirIndex::GetBaseChunkID` at a feature of the right lengths
  got :
      (x y z : SuperFeatureIndex Float) (fs gs hs : List ℕ) (own : List Float)
      → length x.index ≤ length fs
      → length y.index ≤ length gs
      → length z.index ≤ length hs
      → length z.index_float ≤ length own
      → MapsBounded bases x.index
      → MapsBounded bases y.index
      → MapsBounded bases z.index
      → MapsBounded bases z.index_float
      → (r : Option ℕ) × (palantir_get same near
            (x ∷ y ∷ z ∷ [])
            (parts (super_feature fs ∷ super_feature gs ∷ super_feature hs ∷ our_feature own ∷ []))
          ≡ some r)
        × NumberIn bases r
  unfolding palantir_get get_levels super_get
  got x y z fs gs hs own hx hy hz ho a b c d = answered x fs _ hx a (
      answered y gs _ hy b
        (answered z hs _ hz c (near_fit-Bounded same near bases z.index_float own none ho d tt)))

  -- `PalantirIndex::AddFeature` at a feature of the right lengths
  added :
      (n : ℕ) (x y z : SuperFeatureIndex Float) (fs gs hs : List ℕ) (own : List Float)
      → length x.index ≤ length fs
      → length y.index ≤ length gs
      → length z.index ≤ length hs
      → length z.index_float ≤ length own
      → IsPalantir x y z
      → MapsBounded bases x.index
      → MapsBounded bases y.index
      → MapsBounded bases z.index
      → MapsBounded bases z.index_float
      → (levels : List (SuperFeatureIndex Float)) × (palantir_add same near
            (x ∷ y ∷ z ∷ [])
            (parts (super_feature fs ∷ super_feature gs ∷ super_feature hs ∷ our_feature own ∷ []))
            n
          ≡ some levels)
        × LevelsOf (n ∷ bases) levels
  unfolding palantir_add add_levels super_add
  added n x y z fs gs hs own hx hy hz ho p a b c d =
      let (xs, ex, bx, lx) = add_words-Bounded n bases x.index fs hx a in
      let (ys, ey, by_, ly) = add_words-Bounded n bases y.index gs hy b in
      let (zs, ez, bz, lz) = add_words-Bounded n bases z.index hs hz c in
      let (ws, ew, bw, lw) = add_floats-Bounded same near n bases z.index_float own ho d in
      let x' = record x { index = xs } in
      let y' = record y { index = ys } in
      let z' : SuperFeatureIndex Float = record { index = zs; index_float = ws } in
      (
        x' ∷ y' ∷ z' ∷ [],
        rw (ex, ey, ez, ew) refl,
        three x' y' z' refl
            (record {
              first_level = lx ∙ p.first_level;
              second_level = ly ∙ p.second_level;
              third_level = lz ∙ p.third_level;
              float_level = lw ∙ p.float_level;
            })
            bx by_ bz bw,
      )

module _ {Float : Type 0} (same near : Float → Float → Bool) (zero_cal : List ℕ → Float) where
  -- Palantir keeps the laws: the feature has a word for every map, so no lookup and no insertion
  -- faults; and the index answers only with numbers that were added.
  pub palantir-Indexed : Indexed (palantir same near zero_cal) LevelsOf
  unfolding palantir_feature
  palantir-Indexed = record {
    answers = λ bases levels c b. get bases levels c b;
    adds = λ n bases levels c b. add n bases levels c b;
  }
    where
      size :
          (width cnt subf : ℕ) (c : Chunk)
          → length (super_features 4 width cnt subf (odess_sub_features c)) ≡ cnt
      size width cnt subf c = length-super_features 4 width cnt subf (odess_sub_features c)

      get :
          (bases : List ℕ) (levels : List (SuperFeatureIndex Float)) (c : Chunk)
          → LevelsOf bases levels
          → (r : Option ℕ) × (palantir_get same near levels (palantir_feature zero_cal c) ≡ some r)
            × ((id : ℕ) → r ≡ some id → id ∈ bases)
      get bases levels c (three x y z e p bx by_ bz bw) =
          let (r, run, lt) =
            got same near bases x y z (super_features 4 8 3 4 (odess_sub_features c))
              (super_features 4 8 4 3 (odess_sub_features c))
              (super_features 4 8 6 2 (odess_sub_features c)) (zero_cal (take c.len c.buf) ∷ [])
              (omega (arith, p.first_level, size 8 3 4 c))
              (omega (arith, p.second_level, size 8 4 3 c))
              (omega (arith, p.third_level, size 8 6 2 c)) (omega (arith, p.float_level)) bx by_ bz
              bw in
          (r, rw e run, λ id f. subst (NumberIn bases) f lt)

      add :
          (n : ℕ) (bases : List ℕ) (levels : List (SuperFeatureIndex Float)) (c : Chunk)
          → LevelsOf bases levels
          → (i : List (SuperFeatureIndex Float)) × (palantir_add same near levels
                (palantir_feature zero_cal c)
                n
              ≡ some i)
            × LevelsOf (n ∷ bases) i
      add n bases levels c (three x y z e p bx by_ bz bw) =
          let (i, run, b) =
            added same near bases n x y z (super_features 4 8 3 4 (odess_sub_features c))
              (super_features 4 8 4 3 (odess_sub_features c))
              (super_features 4 8 6 2 (odess_sub_features c)) (zero_cal (take c.len c.buf) ∷ [])
              (omega (arith, p.first_level, size 8 3 4 c))
              (omega (arith, p.second_level, size 8 4 3 c))
              (omega (arith, p.third_level, size 8 6 2 c)) (omega (arith, p.float_level)) p bx by_
              bz bw in
          (i, rw e run, b)
