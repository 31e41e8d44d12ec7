-- ===== src/Rabin/Degree.antt =====
-- `deg` is the place of the highest bit, and the loop of `mod` ends with a lower degree than that
-- of the divisor.
use native.Mathlib.Nat.{mul-le-mul_right, pow-suc, pow-le-pow_right, one-le-pow}
use native.Mathlib.Decide.{dec_le, dec_lt}
use chunk_grouping.Prelude.{
  ℕ, zero, suc, ◌+◌, ◌-◌, ◌*◌, ◌/◌, ◌^◌, ◌≤◌, ◌<◌, ◌≡◌, refl, sym, ap, ◌∙◌, ltb, leb, true, false,
  Option, none, some, bit_and, u64, arith,
}
use chunk_grouping.Prelude.Bits.{bit_and_top, bit_xor-lt, pow-add}
use chunk_grouping.Rabin.{deg_loop, deg, deg_ge, mod_body, mod_loop, mod_poly}

-- What `deg` answers: no degree for 0, or the `d` with `2 ^ d ≤ p < 2 ^ (d + 1)`.
pub data HasDegree (p : ℕ) : Option ℕ → Type 0 where
  zero_poly : p ≡ 0 → HasDegree p none
  highest : (d : ℕ) → 2 ^ d ≤ p → p < 2 ^ suc d → HasDegree p (some d)

set_test : (n : ℕ) → 0 < n → ltb 0 n ≡ true
set_test n h = ground arith

clear_test : (n : ℕ) → n ≡ 0 → ltb 0 n ≡ false
clear_test n h = ground arith

deg_loop-HasDegree :
    (rounds i mask p : ℕ)
    → rounds + i ≡ 64
    → mask ≡ 2 ^ rounds / 2
    → p < 2 ^ rounds
    → HasDegree p (deg_loop rounds i mask p)
unfolding deg_loop
deg_loop-HasDegree zero i mask p n e h = zero_poly (omega arith)
deg_loop-HasDegree (suc m) i mask p n e h =
    let double : 2 ^ suc m ≡ 2 ^ m * 2 = pow-suc 2 m in
    let em : mask ≡ 2 ^ m = omega arith in
    let (set, clear) = bit_and_top m p h in
    elim (dec_le (2 ^ m) p) [
      | yes lo ↦
          let top : 63 - i ≡ m = omega arith in
          let hit : ltb 0 (bit_and mask p) ≡ true = rw em (set_test (bit_and (2 ^ m) p) (set lo)) in
          rw hit (rw top (highest m lo h))
      | no hi ↦
          let miss : ltb 0 (bit_and mask p) ≡ false =
            rw em (clear_test (bit_and (2 ^ m) p) (clear (omega arith))) in
          rw miss
            (deg_loop-HasDegree m (i + 1) (mask / 2) p (omega arith) (omega arith) (omega arith))
    ]

pub deg-HasDegree : (p : ℕ) → p < 2 ^ 64 → HasDegree p (deg p)
unfolding deg
deg-HasDegree p h = deg_loop-HasDegree 64 0 0x8000000000000000 p refl refl h

pow-lt-of : (m n : ℕ) → 2 ^ m < 2 ^ n → m < n
pow-lt-of m n h = elim (dec_lt m n) [
  | yes lt ↦ lt
  | no ge ↦
      absurd (omega (arith, pow-le-pow_right {n = 2} (omega arith) {i = n} {j = m} (omega arith)))
]

ge_test : (m n : ℕ) → m ≤ n → leb m n ≡ true
ge_test m n h = ground arith

lt_test : (m n : ℕ) → n < m → leb m n ≡ false
lt_test m n h = ground arith

mod_loop_more :
    (fuel x p : ℕ)
    → deg_ge (deg x) (deg p) ≡ true
    → mod_loop (suc fuel) x p ≡ mod_loop fuel (mod_body x p) p
unfolding mod_loop
mod_loop_more fuel x p e = rw e refl

mod_loop_done : (fuel x p : ℕ) → deg_ge (deg x) (deg p) ≡ false → mod_loop (suc fuel) x p ≡ some x
unfolding mod_loop
mod_loop_done fuel x p e = rw e refl

module _ (p dp : ℕ) (p_lo : 2 ^ dp ≤ p) (p_hi : p < 2 ^ suc dp) where
  -- `p` shifted to the degree of `x`; no bit is lost
  shifted :
      (n : ℕ)
      → dp ≤ n
      → n < 64
      → (2 ^ n ≤ u64 (p * 2 ^ (n - dp))) × (u64 (p * 2 ^ (n - dp)) < 2 ^ suc n)
  shifted n h top =
      let q : ℕ = 2 ^ (n - dp) in
      let whole : dp + (n - dp) ≡ n = omega arith in
      let low : 2 ^ n ≡ 2 ^ dp * q = ap (λ (m : ℕ). 2 ^ m) (sym whole) ∙ pow-add dp (n - dp) in
      let high : 2 ^ suc n ≡ 2 ^ suc dp * q =
        omega (arith, pow-suc 2 n, low, ap (λ (m : ℕ). m * q) (pow-suc 2 dp)) in
      let fits : 2 ^ suc n ≤ 2 ^ 64 =
        pow-le-pow_right {n = 2} (omega arith) {i = suc n} {j = 64} (omega arith) in
      let some_bit : 1 ≤ q = one-le-pow (n - dp) 2 (omega arith) in
      let lo : 2 ^ dp * q ≤ p * q = mul-le-mul_right q p_lo in
      let hi : suc p * q ≤ 2 ^ suc dp * q = mul-le-mul_right q p_hi in omega arith

  mod_body-lt :
      (x n : ℕ)
      → deg x ≡ some n
      → deg p ≡ some dp
      → dp ≤ n
      → n < 64
      → 2 ^ n ≤ x
      → x < 2 ^ suc n
      → mod_body x p < 2 ^ n
  unfolding mod_body
  mod_body-lt x n ex ep h top lo hi =
      rw (ex, ep)
        (let (s_lo, s_hi) = shifted n h top in
          bit_xor-lt n x (u64 (p * 2 ^ (n - dp))) lo hi s_lo s_hi)

  abbrev Ends : ℕ → ℕ → Type 0
  Ends fuel x = (r : ℕ) × (mod_loop fuel x p ≡ some r) × (r < 2 ^ dp)

  round-Ends :
      (fuel k x : ℕ) (o : Option ℕ)
      → deg p ≡ some dp
      → k < suc fuel
      → k ≤ 64
      → x < 2 ^ k
      → ((n y : ℕ) → n < fuel → n ≤ 64 → y < 2 ^ n → Ends fuel y)
      → deg x ≡ o
      → HasDegree x o
      → Ends (suc fuel) x
  round-Ends fuel k x none ep lt small hx rest e (zero_poly z) =
      (x, mod_loop_done fuel x p (rw (e, ep) refl), omega (arith, one-le-pow dp 2))
  round-Ends fuel k x (some n) ep lt small hx rest e (highest _ lo hi) =
      let below : n < k = pow-lt-of n k (omega arith) in
      elim (dec_le dp n) [
        | yes h ↦
            let (r, run, r_lt) =
              rest n (mod_body x p) (omega arith) (omega arith)
                (mod_body-lt x n e ep h (omega arith) lo hi) in
            (r, mod_loop_more fuel x p (rw (e, ep) (ge_test dp n h)) ∙ run, r_lt)
        | no h ↦
            let lower : n < dp = omega arith in
            (
              x,
              mod_loop_done fuel x p (rw (e, ep) (lt_test dp n lower)),
              omega (arith, pow-le-pow_right {n = 2} (omega arith) {i = suc n} {j = dp} lower),
            )
      ]

  -- With fuel above the number of bits of `x` the loop ends, below the degree of `p`.
  mod_loop-Ends : (fuel k x : ℕ) → deg p ≡ some dp → k < fuel → k ≤ 64 → x < 2 ^ k → Ends fuel x
  mod_loop-Ends zero k x ep lt small hx = absurd (omega arith)
  mod_loop-Ends (suc fuel) k x ep lt small hx =
      round-Ends fuel k x (deg x) ep lt small hx
        (λ n y lt' small' hy. mod_loop-Ends fuel n y ep lt' small' hy) refl
        (deg-HasDegree x
          (omega (arith, pow-le-pow_right {n = 2} (omega arith) {i = k} {j = 64} small)))

HasDegree-unique : (p d : ℕ) (o : Option ℕ) → HasDegree p o → 2 ^ d ≤ p → p < 2 ^ suc d → o ≡ some d
HasDegree-unique p d none (zero_poly z) lo hi = absurd (omega (arith, one-le-pow d 2))
HasDegree-unique p d (some n) (highest _ lo' hi') lo hi =
    ap some (omega (arith, pow-lt-of n (suc d) (omega arith), pow-lt-of d (suc n) (omega arith)))

-- The loop of `mod` ends within its 65 rounds on every `uint64_t`, for a divisor that is not 0, and
-- leaves a remainder of lower degree than the divisor.
pub mod_poly-lt :
    (x p d : ℕ)
    → x < 2 ^ 64
    → p < 2 ^ 64
    → 2 ^ d ≤ p
    → p < 2 ^ suc d
    → (mod_loop 65 x p ≡ some (mod_poly x p)) × (mod_poly x p < 2 ^ d)
unfolding mod_poly
mod_poly-lt x p d hx hp lo hi =
    let ep : deg p ≡ some d = HasDegree-unique p d (deg p) (deg-HasDegree p hp) lo hi in
    let (r, e, below) = mod_loop-Ends p d lo hi 65 64 x ep (omega arith) (omega arith) hx in
    (rw e refl, rw e below)
