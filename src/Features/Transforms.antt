-- ===== src/Features/Transforms.antt =====
-- The sub-features of `NTransformFeature` and of `OdessFeature` are minima.
use chunk_grouping.Prelude.{
  ℕ, zero, suc, ◌+◌, ◌≤◌, ◌<◌, ◌≡◌, ◌≢◌, refl, sym, ap, ◌∙◌, ◌⊎◌, inl, inr, Bool-cases, ◌==◌,
  if◌then◌else◌, bit_and, List, [], ◌∷◌, length, replicate, get_or, min, subst, arith,
}
use chunk_grouping.Gear.{gear_step}
use chunk_grouping.Features.{transform, lower, lower_all, n_transform_loop, odess_loop}

-- the fingerprints after each byte
abbrev pub prints : ℕ → List ℕ → List ℕ
prints finger_print [] = []
prints finger_print (b ∷ bs) = let next = gear_step finger_print b in next ∷ prints next bs

-- `r` is at most every value of `t` on the fingerprints.
abbrev pub Below : (ℕ → ℕ) → ℕ → List ℕ → Type 0
Below t r [] = Unit {0}
Below t r (p ∷ ps) = (r ≤ t p) × Below t r ps

-- `r` is one of these values.
abbrev pub Attained : (ℕ → ℕ) → ℕ → List ℕ → Type 0
Attained t r [] = ⊥
Attained t r (p ∷ ps) = (r ≡ t p) ⊎ Attained t r ps

-- None of them is 0, which the source takes for a sub-feature that was not set.
abbrev pub NonZero : (ℕ → ℕ) → List ℕ → Type 0
NonZero t [] = Unit {0}
NonZero t (p ∷ ps) = (t p ≢ 0) × NonZero t ps

get_or-lower_all :
    (p i j : ℕ) (subs : List ℕ)
    → j < length subs
    → get_or (lower_all p i subs) j 0 ≡ lower (get_or subs j 0) (transform p (i + j))
unfolding lower_all
get_or-lower_all p i j [] h = absurd (omega arith)
get_or-lower_all p i zero (s ∷ subs) h = ap (λ n. lower s (transform p n)) {x = i} (omega arith)
get_or-lower_all p i (suc j) (s ∷ subs) h =
    get_or-lower_all p (suc i) j subs (omega arith)
    ∙ ap (λ n. lower (get_or subs j 0) (transform p n)) {x = suc i + j} (omega arith)

length-lower_all : (p i : ℕ) (subs : List ℕ) → length (lower_all p i subs) ≡ length subs
unfolding lower_all
length-lower_all p i [] = refl
length-lower_all p i (s ∷ subs) = omega (arith, length-lower_all p (suc i) subs)

lower_min : (s t : ℕ) → s ≢ 0 → lower s t ≡ min s t
unfolding lower
lower_min s t h = ground arith

lower_zero : (t : ℕ) → lower 0 t ≡ t
unfolding lower
lower_zero t = ground arith

-- one sub-feature through the fingerprints
abbrev lowered : (ℕ → ℕ) → ℕ → List ℕ → ℕ
lowered t s [] = s
lowered t s (p ∷ ps) = lowered t (lower s (t p)) ps

n_transform_loop-lowered :
    (bs : List ℕ) (p j : ℕ) (subs : List ℕ)
    → j < length subs
    → get_or (n_transform_loop bs p subs) j 0
      ≡ lowered (λ q. transform q j) (get_or subs j 0) (prints p bs)
unfolding n_transform_loop
n_transform_loop-lowered [] p j subs h = refl
n_transform_loop-lowered (b ∷ bs) p j subs h =
    let next = gear_step p b in
    n_transform_loop-lowered bs next j (lower_all next 0 subs)
      (omega (arith, length-lower_all next 0 subs))
    ∙ ap (λ s. lowered (λ q. transform q j) s (prints next bs)) (get_or-lower_all next 0 j subs h)
    ∙ ap
        (λ n.
          lowered (λ q. transform q j) (lower (get_or subs j 0) (transform next n))
            (prints next bs))
        {x = 0 + j} (omega arith)

Below-le : (t : ℕ → ℕ) (r s : ℕ) (ps : List ℕ) → r ≤ s → Below t s ps → Below t r ps
Below-le t r s [] h b = tt
Below-le t r s (p ∷ ps) h b = (omega (arith, b.0), Below-le t r s ps h b.1)

-- from a sub-feature that is set
lowered_set :
    (t : ℕ → ℕ) (s : ℕ) (ps : List ℕ)
    → s ≢ 0
    → NonZero t ps
    → (lowered t s ps ≤ s)
      × Below t (lowered t s ps) ps
      × ((lowered t s ps ≡ s) ⊎ Attained t (lowered t s ps) ps)
lowered_set t s [] ne nz = (omega arith, tt, inl refl)
lowered_set t s (p ∷ ps) ne nz =
    let m : lower s (t p) ≡ min s (t p) = lower_min s (t p) ne in
    let (le, below, at) = lowered_set t (lower s (t p)) ps (omega (arith, nz.0)) nz.1 in
    (
      omega arith,
      (omega arith, below),
      elim at [
        | inl e ↦ elim (min-cases s (t p)) [
          | inl f ↦ inl (omega arith)
          | inr f ↦ inr (inl (omega arith))
        ]
        | inr a ↦ inr (inr a)
      ],
    )
  where
    min-cases : (a b : ℕ) → (min a b ≡ a) ⊎ (min a b ≡ b)
    min-cases a b = ground arith

-- from one that is not
lowered_unset :
    (t : ℕ → ℕ) (p : ℕ) (ps : List ℕ)
    → NonZero t (p ∷ ps)
    → Below t (lowered t 0 (p ∷ ps)) (p ∷ ps) × Attained t (lowered t 0 (p ∷ ps)) (p ∷ ps)
lowered_unset t p ps nz =
    let (le, below, at) = lowered_set t (t p) ps nz.0 nz.1 in
    subst
      (λ s.
        ((lowered t s ps ≤ t p) × Below t (lowered t s ps) ps)
        × ((lowered t s ps ≡ t p) ⊎ Attained t (lowered t s ps) ps))
      (sym (lower_zero (t p))) ((le, below), at)

get_or-replicate : (n j : ℕ) → get_or {A = ℕ} (replicate n 0) j 0 ≡ 0
get_or-replicate zero j = refl
get_or-replicate (suc n) zero = refl
get_or-replicate (suc n) (suc j) = get_or-replicate n j

length-replicate_zero : (n : ℕ) → length {A = ℕ} (replicate n 0) ≡ n
length-replicate_zero zero = refl
length-replicate_zero (suc n) = omega (arith, length-replicate_zero n)

-- On a run of bytes that is not empty, with no transform of value 0, sub-feature `j` of
-- `NTransformFeature` is the least of its transforms of the fingerprints.
pub n_transform_loop_least :
    (b : ℕ) (bs : List ℕ) (n j : ℕ)
    → j < n
    → NonZero (λ q. transform q j) (prints 0 (b ∷ bs))
    → let sub_feature = get_or (n_transform_loop (b ∷ bs) 0 (replicate n 0)) j 0 in
      Below (λ q. transform q j) sub_feature (prints 0 (b ∷ bs))
      × Attained (λ q. transform q j) sub_feature (prints 0 (b ∷ bs))
n_transform_loop_least b bs n j h nz =
    let e =
      n_transform_loop-lowered (b ∷ bs) 0 j (replicate n 0) (omega (arith, length-replicate_zero n))
      ∙ ap (λ s. lowered (λ q. transform q j) s (prints 0 (b ∷ bs))) (get_or-replicate n j) in
    subst
      (λ r.
        Below (λ q. transform q j) r (prints 0 (b ∷ bs))
        × Attained (λ q. transform q j) r (prints 0 (b ∷ bs)))
      (sym e) (lowered_unset (λ q. transform q j) (gear_step 0 b) (prints (gear_step 0 b) bs) nz)

-- the fingerprints that the mask samples
abbrev pub sampled : ℕ → List ℕ → List ℕ
sampled mask [] = []
sampled mask (p ∷ ps) = let rest = sampled mask ps in if bit_and p mask == 0 then p ∷ rest else rest

odess_loop-lowered :
    (mask : ℕ) (bs : List ℕ) (p j : ℕ) (subs : List ℕ)
    → j < length subs
    → get_or (odess_loop mask bs p subs) j 0
      ≡ lowered (λ q. transform q j) (get_or subs j 0) (sampled mask (prints p bs))
unfolding odess_loop
odess_loop-lowered mask [] p j subs h = refl
odess_loop-lowered mask (b ∷ bs) p j subs h =
    let next = gear_step p b in
    let at : get_or (lower_all next 0 subs) j 0 ≡ lower (get_or subs j 0) (transform next j) =
      get_or-lower_all next 0 j subs h
      ∙ ap (λ n. lower (get_or subs j 0) (transform next n)) {x = 0 + j} (omega arith) in
    elim (Bool-cases (bit_and next mask == 0)) [
      | inl e ↦ rw e (
          odess_loop-lowered mask bs next j (lower_all next 0 subs)
            (omega (arith, length-lower_all next 0 subs))
          ∙ ap (λ s. lowered (λ q. transform q j) s (sampled mask (prints next bs))) at)
      | inr e ↦ rw e (odess_loop-lowered mask bs next j subs h)
    ]

-- `r` is the least of the values of `t` on the fingerprints, or 0 where there are none.
abbrev pub IsLeast : (ℕ → ℕ) → ℕ → List ℕ → Type 0
IsLeast t r [] = r ≡ 0
IsLeast t r (p ∷ ps) = Below t r (p ∷ ps) × Attained t r (p ∷ ps)

lowered-IsLeast : (t : ℕ → ℕ) (ps : List ℕ) → NonZero t ps → IsLeast t (lowered t 0 ps) ps
lowered-IsLeast t [] nz = refl
lowered-IsLeast t (p ∷ ps) nz = lowered_unset t p ps nz

-- With no transform of value 0, sub-feature `j` of `OdessFeature` is the least of its transforms of
-- the fingerprints that have no bit in common with the mask, and 0 where there are none such.
pub odess_loop-IsLeast :
    (mask : ℕ) (bs : List ℕ) (n j : ℕ)
    → j < n
    → NonZero (λ q. transform q j) (sampled mask (prints 0 bs))
    → IsLeast
        (λ q. transform q j)
        (get_or (odess_loop mask bs 0 (replicate n 0)) j 0)
        (sampled mask (prints 0 bs))
odess_loop-IsLeast mask bs n j h nz =
    let ps = sampled mask (prints 0 bs) in
    let e =
      odess_loop-lowered mask bs 0 j (replicate n 0) (omega (arith, length-replicate_zero n))
      ∙ ap (λ s. lowered (λ q. transform q j) s ps) (get_or-replicate n j) in
    subst (λ r. IsLeast (λ q. transform q j) r ps) (sym e)
      (lowered-IsLeast (λ q. transform q j) ps nz)
