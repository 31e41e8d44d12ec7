-- ===== src/Features/Sizes.antt =====
-- feature/features.cpp: how many sub-features `OdessSubfeatures` gives.
use chunk_grouping.Prelude.{
  ℕ, suc, ◌≡◌, refl, ap, ◌∙◌, Bool, Bool-cases, inl, inr, if◌then◌else◌, List, [], ◌∷◌, length,
  take, replicate,
}
use chunk_grouping.Chunk.{Chunk}
use chunk_grouping.Features.{lower_all, odess_sub_loop, odess_sub_features}

length-lower_all :
    (finger_print j : ℕ) (xs : List ℕ) → length (lower_all finger_print j xs) ≡ length xs
unfolding lower_all
length-lower_all finger_print j [] = refl
length-lower_all finger_print j (x ∷ xs) = ap suc (length-lower_all finger_print (suc j) xs)

if-length :
    (b : Bool) (xs ys : List ℕ) → length ys ≡ length xs → length (if b then ys else xs) ≡ length xs
if-length b xs ys e = elim (Bool-cases b) [ inl t ↦ rw t e | inr f ↦ rw f refl ]

length-odess_sub_loop :
    (bytes : List ℕ) (finger_print : ℕ) (xs : List ℕ)
    → length (odess_sub_loop bytes finger_print xs) ≡ length xs
unfolding odess_sub_loop
length-odess_sub_loop [] finger_print xs = refl
length-odess_sub_loop (b ∷ bs) finger_print xs =
    length-odess_sub_loop bs _ _ ∙ if-length _ xs _ (length-lower_all _ 0 xs)

pub length-odess_sub_features : (chunk : Chunk) → length (odess_sub_features chunk) ≡ 12
unfolding odess_sub_features
length-odess_sub_features chunk =
    length-odess_sub_loop (take chunk.len chunk.buf) 0 (replicate 12 0)
