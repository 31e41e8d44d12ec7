-- ===== src/Features/Group.antt =====
-- feature/features.cpp, `group` of `PalantirFeature`: what it does not see.
use chunk_grouping.Prelude.{
  ℕ, zero, suc, ◌+◌, ◌*◌, ◌/◌, ◌^◌, ◌<◌, ◌≡◌, refl, sym, ap, subst, ap₂, ◌∙◌, List, [], ◌∷◌, take,
  drop, get_or, set, arith,
}
use chunk_grouping.Gear.{gear_hash}
use chunk_grouping.Index.File.{write_word}
use chunk_grouping.Features
use chunk_grouping.Features.{groups, group_hash, super_features, palantir_group}

-- The hash of a group with another first sub-feature.
group_hash_first :
    (s t : ℕ) (g : List ℕ)
    → s < 2 ^ 32
    → t < 2 ^ 32
    → group_hash 4 8 (s ∷ g) ≡ group_hash 4 8 (t ∷ g)
unfolding group_hash write_word
group_hash_first s t g hs ht = ap (gear_hash 0) (tail s hs ∙ sym (tail t ht))
  where
    tail :
        (w : ℕ)
        → w < 2 ^ 32
        → drop 4 (Features.bytes_of 8 (w ∷ g)) ≡ 0 ∷ 0 ∷ 0 ∷ 0 ∷ Features.bytes_of 8 g
    tail w h = let z : w / 256 / 256 / 256 / 256 ≡ 0 = omega arith in rw z refl

-- A set behind the first `n` entries, seen by what is taken and what is dropped.
take-set : (n i t : ℕ) (xs : List ℕ) → take n (set xs (n + i) t) ≡ take n xs
take-set zero i t [] = refl
take-set zero i t (x ∷ xs) = refl
take-set (suc n) i t [] = refl
take-set (suc n) i t (x ∷ xs) =
    ap (λ m. take (suc n) (set (x ∷ xs) m t)) {x = suc n + i} {y = suc (n + i)} (omega arith)
    ∙ ap (λ ys. x ∷ ys) (take-set n i t xs)

drop-set : (n i t : ℕ) (xs : List ℕ) → drop n (set xs (n + i) t) ≡ set (drop n xs) i t
drop-set zero i t xs = ap (λ m. set xs m t) {x = 0 + i} (omega arith)
drop-set (suc n) i t [] = refl
drop-set (suc n) i t (x ∷ xs) =
    ap (λ m. drop (suc n) (set (x ∷ xs) m t)) {x = suc n + i} {y = suc (n + i)} (omega arith)
    ∙ drop-set n i t xs

get_or-drop : (n i : ℕ) (xs : List ℕ) → get_or (drop n xs) i 0 ≡ get_or xs (n + i) 0
get_or-drop zero i xs = ap (λ m. get_or xs m 0) (omega arith)
get_or-drop (suc n) i [] = refl
get_or-drop (suc n) i (x ∷ xs) =
    get_or-drop n i xs
    ∙ ap (λ m. get_or (x ∷ xs) m 0) {x = suc (n + i)} {y = suc n + i} (omega arith)

-- `group` of `PalantirFeature` does not see the first sub-feature of a group: another one in its place
-- makes no difference to any super feature, where both are below 2 ^ 32.
pub palantir_group-set :
    (sf_cnt m i t : ℕ) (sub_features : List ℕ)
    → t < 2 ^ 32
    → get_or sub_features (i * suc m) 0 < 2 ^ 32
    → palantir_group sf_cnt (suc m) (set sub_features (i * suc m) t)
      ≡ palantir_group sf_cnt (suc m) sub_features
unfolding super_features
palantir_group-set zero m i t subs ht h = refl
palantir_group-set (suc cnt) m zero t [] ht h = refl
palantir_group-set (suc cnt) m zero t (s ∷ subs) ht h =
    let at : zero * suc m ≡ zero = omega arith in
    let small : s < 2 ^ 32 = subst (λ n. get_or (s ∷ subs) n 0 < 2 ^ 32) at h in
    ap (λ n. palantir_group (suc cnt) (suc m) (set (s ∷ subs) n t)) at
    ∙ ap (λ n. n ∷ palantir_group cnt (suc m) (drop m subs))
        (group_hash_first t s (take m subs) ht small)
palantir_group-set (suc cnt) m (suc i) t subs ht h =
    let next : suc i * suc m ≡ suc m + i * suc m = grind arith in
    let behind : get_or (drop (suc m) subs) (i * suc m) 0 < 2 ^ 32 =
      omega (arith, get_or-drop (suc m) (i * suc m) subs, ap (λ n. get_or subs n 0) next) in
    ap (λ n. palantir_group (suc cnt) (suc m) (set subs n t)) next
    ∙ ap₂ (λ g rest. group_hash 4 8 g ∷ rest) (take-set (suc m) (i * suc m) t subs)
        (ap (palantir_group cnt (suc m)) (drop-set (suc m) (i * suc m) t subs)
          ∙ palantir_group-set cnt m i t (drop (suc m) subs) ht behind)
