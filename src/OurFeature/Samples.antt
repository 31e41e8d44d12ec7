-- ===== src/OurFeature/Samples.antt =====
-- What the two ways of sampling take.
use chunk_grouping.Prelude.{
  ℕ, zero, suc, ◌+◌, ◌*◌, ◌≤◌, ◌<◌, ◌≡◌, refl, ap, ◌∙◌, max, ltb, if◌then◌else◌, List, [], ◌∷◌,
  length, take, drop, length-drop, get_elem?, arith,
}
use chunk_grouping.OurFeature.{
  max_byte_loop, max_of, downsample_loop, downsample, region_loop, region_sample_max,
}

get_elem?-drop : (xs : List ℕ) (k j : ℕ) → get_elem? (drop k xs) j ≡ get_elem? xs (k + j)
get_elem?-drop xs zero j = ap (get_elem? xs) (omega arith)
get_elem?-drop [] (suc k) j = refl
get_elem?-drop (x ∷ xs) (suc k) j =
    let place : suc (k + j) ≡ suc k + j = omega arith in
    get_elem?-drop xs k j ∙ ap (get_elem? (x ∷ xs)) place

downsample_loop_lem :
    (fuel : ℕ) (content : List ℕ) (factor j : ℕ)
    → 0 < factor
    → length content ≤ fuel
    → get_elem? (downsample_loop fuel content factor) j ≡ get_elem? content (j * factor)
unfolding downsample_loop
downsample_loop_lem zero [] factor j pos h = refl
downsample_loop_lem zero (c ∷ content) factor j pos h = absurd (omega arith)
downsample_loop_lem (suc fuel) [] factor j pos h = refl
downsample_loop_lem (suc fuel) (c ∷ content) factor zero pos h =
    let place : 0 * factor ≡ 0 = omega arith in rw place refl
downsample_loop_lem (suc fuel) (c ∷ content) factor (suc j) pos h =
    let place : factor + j * factor ≡ suc j * factor = grind arith in
    downsample_loop_lem fuel (drop factor (c ∷ content)) factor j pos
      (omega (arith, length-drop factor (c ∷ content)))
    ∙ get_elem?-drop (c ∷ content) factor (j * factor)
    ∙ ap (get_elem? (c ∷ content)) place

-- With a factor above 0, `downsample` takes the bytes at the multiples of the factor, all of them and
-- no more.
pub get_elem?-downsample :
    (content : List ℕ) (factor j : ℕ)
    → 0 < factor
    → get_elem? (downsample content factor) j ≡ get_elem? content (j * factor)
unfolding downsample
get_elem?-downsample content factor j pos =
    downsample_loop_lem (length content) content factor j pos (omega arith)

max_byte_loop_lem : (m : ℕ) (xs : List ℕ) → max_byte_loop m xs ≡ max m (max_byte_loop 0 xs)
unfolding max_byte_loop
max_byte_loop_lem m [] = omega arith
max_byte_loop_lem m (x ∷ xs) =
    let left : (if ltb m x then x else m) ≡ max m x = ground arith in
    let right : (if ltb 0 x then x else 0) ≡ x = ground arith in
    rw (left, right) (omega (arith, max_byte_loop_lem (max m x) xs, max_byte_loop_lem x xs))

max_of-cons : (x : ℕ) (xs : List ℕ) → max_of (x ∷ xs) ≡ max x (max_of xs)
unfolding max_of max_byte_loop
max_of-cons x xs =
    let right : (if ltb 0 x then x else 0) ≡ x = ground arith in rw right (max_byte_loop_lem x xs)

max_of-nil : max_of [] ≡ 0
unfolding max_of max_byte_loop
max_of-nil = refl

max_of-take : (k : ℕ) (xs : List ℕ) → max_of xs ≡ max (max_of (take k xs)) (max_of (drop k xs))
max_of-take zero xs = omega (arith, max_of-nil)
max_of-take (suc k) [] = omega (arith, max_of-nil)
max_of-take (suc k) (x ∷ xs) =
    omega (arith, max_of-cons x xs, max_of-cons x (take k xs), max_of-take k xs)

region_loop_lem :
    (fuel : ℕ) (content : List ℕ) (size : ℕ)
    → 0 < size
    → length content ≤ fuel
    → max_of (region_loop fuel content size) ≡ max_of content
unfolding region_loop
region_loop_lem zero [] size pos h = refl
region_loop_lem zero (c ∷ content) size pos h = absurd (omega arith)
region_loop_lem (suc fuel) [] size pos h = refl
region_loop_lem (suc fuel) (c ∷ content) size pos h =
    let rest = drop size (c ∷ content) in
    omega (
      arith,
      max_of-cons (max_of (take size (c ∷ content))) (region_loop fuel rest size),
      region_loop_lem fuel rest size pos (omega (arith, length-drop size (c ∷ content))),
      max_of-take size (c ∷ content),
    )

-- With regions of a byte at least, the largest sample of `region_sample_max` is the largest byte.
pub max_of-region_sample_max :
    (content : List ℕ) (size : ℕ)
    → 0 < size
    → max_of (region_sample_max content size) ≡ max_of content
unfolding region_sample_max
max_of-region_sample_max content size pos =
    region_loop_lem (length content) content size pos (omega arith)
