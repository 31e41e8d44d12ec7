-- ===== src/RabinCdc/Loop.antt =====
-- What the loop of `GetNextChunk` does: it stops at the first size that may end the chunk, or reads
-- all that is left and stops nowhere.
use chunk_grouping.Prelude.{
  ℕ, zero, suc, ◌+◌, ◌≤◌, ◌<◌, ◌≡◌, refl, sym, ap, subst, inl, inr, true, false, Bool-cases, none,
  some, List, [], ◌∷◌, length, take, drop, arith,
}
use mathlib.Core.Path.{transport}
use chunk_grouping.RabinCdc.{RabinCdc, Roll, rabin_slide, cuts, cut_loop}

-- the rolling state behind a run of bytes
unfoldable pub slide_all : Roll → List ℕ → Roll
slide_all r [] = r
slide_all r (b ∷ bs) = slide_all (rabin_slide r b) bs

-- The loop may stop behind `k` bytes, having started at `chunk_size`.
abbrev pub StopsAt : RabinCdc → ℕ → Roll → List ℕ → ℕ → Type 0
StopsAt c chunk_size r p k = cuts c (chunk_size + k) (slide_all r (take (suc k) p)) ≡ true

-- the loop's end: a cut behind `k + 1` bytes, the first, or none in `rounds`
pub data Ends (c : RabinCdc) (rounds chunk_size : ℕ) (r : Roll) (p : List ℕ) : Type 0 where
  at_cut :
      (k : ℕ)
      → k < rounds
      → StopsAt c chunk_size r p k
      → ((j : ℕ) → j < k → ¬ StopsAt c chunk_size r p j)
      → cut_loop c rounds chunk_size r p
        ≡ some (some (chunk_size + k), slide_all r (take (suc k) p), drop (suc k) p)
      → Ends c rounds chunk_size r p
  nowhere :
      ((j : ℕ) → j < rounds → ¬ StopsAt c chunk_size r p j)
      → cut_loop c rounds chunk_size r p ≡ some (none, slide_all r (take rounds p), drop rounds p)
      → Ends c rounds chunk_size r p

module _ (c : RabinCdc) (chunk_size : ℕ) (r : Roll) (b : ℕ) (p : List ℕ) where
  -- what the later bytes say, said with the first byte in front
  StopsAt-suc :
      (j : ℕ)
      → StopsAt c (chunk_size + 1) (rabin_slide r b) p j ≡ StopsAt c chunk_size r (b ∷ p) (suc j)
  unfolding slide_all
  StopsAt-suc j =
      let e : chunk_size + 1 + j ≡ chunk_size + suc j = omega arith in
      ap (λ (n : ℕ). cuts c n (slide_all (rabin_slide r b) (take (suc j) p)) ≡ true) e

  skip :
      (n : ℕ)
      → cuts c chunk_size (rabin_slide r b) ≡ false
      → ((j : ℕ) → j < n → ¬ StopsAt c (chunk_size + 1) (rabin_slide r b) p j)
      → (j : ℕ) → j < suc n
      → ¬ StopsAt c chunk_size r (b ∷ p) j
  unfolding slide_all
  skip n miss later zero lt stop =
      let e : chunk_size + 0 ≡ chunk_size = omega arith in
      cc (subst (λ (m : ℕ). cuts c m (rabin_slide r b) ≡ true) e stop)
  skip n miss later (suc j) lt stop = later j (omega arith) (transport (sym (StopsAt-suc j)) stop)

  extend :
      (rounds : ℕ)
      → cuts c chunk_size (rabin_slide r b) ≡ false
      → Ends c rounds (chunk_size + 1) (rabin_slide r b) p
      → Ends c (suc rounds) chunk_size r (b ∷ p)
  unfolding cut_loop slide_all
  extend rounds miss (at_cut k lt here first e) =
      let size : chunk_size + 1 + k ≡ chunk_size + suc k = omega arith in
      at_cut (suc k) (omega arith) (transport (StopsAt-suc k) here) (skip k miss first)
        (rw (miss, e, size) refl)
  extend rounds miss (nowhere none_stops e) =
      nowhere (skip rounds miss none_stops) (rw (miss, e) refl)

-- Where the mapping has a byte for every round, the loop ends in one of the two ways.
pub cut_loop-Ends :
    (c : RabinCdc) (rounds chunk_size : ℕ) (r : Roll) (p : List ℕ)
    → rounds ≤ length p
    → Ends c rounds chunk_size r p
unfolding cut_loop slide_all
cut_loop-Ends c zero chunk_size r p h = nowhere (λ j lt. absurd (omega arith)) refl
cut_loop-Ends c (suc rounds) chunk_size r [] h = absurd (omega arith)
cut_loop-Ends c (suc rounds) chunk_size r (b ∷ p) h =
    let size : chunk_size ≡ chunk_size + 0 = omega arith in
    elim (Bool-cases (cuts c chunk_size (rabin_slide r b))) [
      | inl hit ↦
          at_cut 0 (omega arith) (subst (λ (n : ℕ). cuts c n (rabin_slide r b) ≡ true) size hit)
            (λ j lt. absurd (omega arith))
            (rw hit (ap (λ (n : ℕ). some (some n, rabin_slide r b, p)) size))
      | inr miss ↦
          extend c chunk_size r b p rounds miss
            (cut_loop-Ends c rounds (chunk_size + 1) (rabin_slide r b) p (omega arith))
    ]
