-- ===== src/OurFeature/Modes.antt =====
-- The modes of `cal` that copy the first `FILE_SIZE` bytes of the content.
use chunk_grouping.Prelude.{
  ℕ, zero, suc, ◌+◌, ◌≤◌, ◌<◌, ◌≡◌, refl, ap, inl, inr, Bool-cases, leb, if◌then◌else◌, take, drop,
  get_elem?, get_elem?-some, Option, none, some, List, [], ◌∷◌, length, ◌>>=◌, arith,
}
use native.Mathlib.Decide.{dec_lt}
use chunk_grouping.OurFeature.{
  top_k, skewness, kurtosis, file_size, Floats, copy_loop, first_bytes, cal,
}

get_elem?-none : (xs : List ℕ) (i : ℕ) → length xs ≤ i → get_elem? xs i ≡ none
get_elem?-none [] i h = refl
get_elem?-none (x ∷ xs) zero h = absurd (omega arith)
get_elem?-none (x ∷ xs) (suc i) h = get_elem?-none xs i (omega arith)

take-drop-suc :
    (n : ℕ) (xs : List ℕ) (i x : ℕ)
    → get_elem? xs i ≡ some x
    → x ∷ take n (drop (suc i) xs) ≡ take (suc n) (drop i xs)
take-drop-suc n [] i x e = cc
take-drop-suc n (y ∷ xs) zero x e = cc
take-drop-suc n (y ∷ xs) (suc i) x e = take-drop-suc n xs i x e

-- Where there are as many bytes, the loop copies them,
copy_loop-take :
    (n : ℕ) (content : List ℕ) (i : ℕ)
    → i + n ≤ length content
    → copy_loop n content i ≡ some (take n (drop i content))
unfolding copy_loop
copy_loop-take zero content i h = refl
copy_loop-take (suc n) content i h =
    let (c, e) = get_elem?-some content i (omega arith) in
    rw (e, copy_loop-take n content (suc i) (omega arith))
      (ap (λ xs. some xs) (take-drop-suc n content i c e))

-- and where there are fewer, it reads past the end.
copy_loop-none :
    (n : ℕ) (content : List ℕ) (i : ℕ)
    → length content < i + n
    → i ≤ length content
    → copy_loop n content i ≡ none
unfolding copy_loop
copy_loop-none zero content i h le = absurd (omega arith)
copy_loop-none (suc n) content i h le = elim (dec_lt i (length content)) [
  | yes lt ↦
      let (c, e) = get_elem?-some content i lt in
      rw (e, copy_loop-none n content (suc i) (omega arith) (omega arith)) refl
  | no ge ↦ rw (get_elem?-none content i (omega arith)) refl
]

-- what is made of the first `FILE_SIZE` bytes, where there are as many
abbrev pub of_first_bytes : {F : Type 0} → (List ℕ → F) → List ℕ → Option F
of_first_bytes k content =
    if leb file_size (length content) then some (k (take file_size content)) else none

first_bytes-of_first_bytes :
    {F : Type 0} (k : List ℕ → F) (content : List ℕ)
    → (first_bytes content >>= λ temp. some (k temp)) ≡ of_first_bytes k content
unfolding first_bytes
first_bytes-of_first_bytes k content = elim (Bool-cases (leb file_size (length content))) [
  | inl t ↦
      let h : file_size ≤ length content = ground arith in
      rw (t, copy_loop-take file_size content 0 (omega (arith, h))) refl
  | inr f ↦
      let h : length content < file_size = ground arith in
      rw (f, copy_loop-none file_size content 0 (omega (arith, h)) (omega arith)) refl
]

-- In the modes skewness and kurtosis `cal` is the statistic of the first 8192 bytes of the content,
-- whatever follows them, and in the mode top_k it is 0. Of a content with fewer bytes all three
-- read past its end.
pub cal_first_bytes :
    {F : Type 0} (f : Floats F) (content : List ℕ)
    → (cal f skewness content ≡ of_first_bytes f.gsl_stats_skew content)
      × (cal f kurtosis content ≡ of_first_bytes f.gsl_stats_kurtosis content)
      × (cal f top_k content ≡ of_first_bytes (λ _. f.of_nat 0) content)
unfolding cal
cal_first_bytes f content = (
  first_bytes-of_first_bytes f.gsl_stats_skew content,
  first_bytes-of_first_bytes f.gsl_stats_kurtosis content,
  first_bytes-of_first_bytes (λ _. f.of_nat 0) content,
)
