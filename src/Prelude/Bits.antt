-- ===== src/Prelude/Bits.antt =====
-- `&` with a mask of low ones is a remainder.
use Prim.Native.Nat.{
  ℕ, zero, suc, ◌+◌, ◌-◌, ◌*◌, ◌/◌, ◌%◌, ◌^◌, ◌≤◌, ◌<◌, ◌∣◌, min, bit_and, digits, bit_and-bitwise,
  bit_xor, bit_xor-bitwise, differ,
}
use Prim.Native.Nat.add
use mathlib.Core.Path.{◌≡◌, refl, sym, ap, ap₂, subst, ◌∙◌}
use native.Mathlib.Nat.{
  pow-suc, one-le-pow, mod-lt, mod-eq_of_lt, mod-one, div-add-mod', add-mul-mod_self_right,
  dvd_refl, dvd-mul_right_of_dvd,
}
use native.Mathlib.Omega.{arith}

-- `digits` counts down a fuel; any fuel from the first number on gives the same digits.
min_digits : ℕ → ℕ → ℕ → ℕ
min_digits = digits (λ b. 0) min

enough_digits : (m n a b : ℕ) → a ≤ m → a ≤ n → min_digits m a b ≡ min_digits n a b
unfolding min_digits
enough_digits zero zero zero b hm hn = refl
enough_digits zero (suc n) zero b hm hn = refl
enough_digits (suc m) zero zero b hm hn = refl
enough_digits (suc m) (suc n) zero b hm hn = refl
enough_digits zero n (suc a) b hm hn = absurd (omega arith)
enough_digits (suc m) zero (suc a) b hm hn = absurd (omega arith)
enough_digits (suc m) (suc n) (suc a) b hm hn =
    ap (λ (d : ℕ). d * 2 + min (suc a % 2) (b % 2))
      (enough_digits m n (suc a / 2) (b / 2) (omega arith) (omega arith))

bit_and-digits : (a b : ℕ) → bit_and a b ≡ min_digits a a b
unfolding min_digits
bit_and-digits a b = bit_and-bitwise a b

pub bit_and_lowest : (a b : ℕ) → bit_and a b ≡ bit_and (a / 2) (b / 2) * 2 + min (a % 2) (b % 2)
unfolding min_digits
bit_and_lowest zero b = omega (arith, bit_and-digits 0 b, bit_and-digits 0 (b / 2))
bit_and_lowest (suc a) b = omega (
  arith,
  bit_and-digits (suc a) b,
  bit_and-digits (suc a / 2) (b / 2),
  enough_digits a (suc a / 2) (suc a / 2) (b / 2) (omega arith) (omega arith),
)

-- One more bit of the modulus takes one more bit of the number.
pub mod_double : (a m : ℕ) → 0 < m → a % (m * 2) ≡ (a / 2 % m) * 2 + a % 2
mod_double a m h =
    let q : ℕ = a / 2 / m in
    let r : ℕ = a / 2 % m in
    let split : a ≡ (r * 2 + a % 2) + q * (m * 2) = omega (arith, div-add-mod' (a / 2) m) in
    let below : r < m = mod-lt (a / 2) h in
    ap (λ (t : ℕ). t % (m * 2)) split
    ∙ add-mul-mod_self_right (r * 2 + a % 2) q (m * 2)
    ∙ mod-eq_of_lt (omega arith)

pub bit_and-zero : (n a : ℕ) → a ≤ n → bit_and a 0 ≡ 0
bit_and-zero n zero h = refl
bit_and-zero zero (suc a) h = absurd (omega arith)
bit_and-zero (suc n) (suc a) h =
    omega (arith, bit_and_lowest (suc a) 0, bit_and-zero n (suc a / 2) (omega arith))

pub bit_and_mask : (k a : ℕ) → bit_and a (2 ^ k - 1) ≡ a % 2 ^ k
bit_and_mask zero a = bit_and-zero a a (omega arith) ∙ sym (mod-one a)
bit_and_mask (suc k) a =
    let e : 2 ^ suc k ≡ 2 ^ k * 2 = pow-suc 2 k in
    let pos : 1 ≤ 2 ^ k = one-le-pow k 2 (omega arith) in
    let half : (2 ^ suc k - 1) / 2 ≡ 2 ^ k - 1 = omega arith in
    omega (
      arith,
      bit_and_lowest a (2 ^ suc k - 1),
      ap (bit_and (a / 2)) half,
      bit_and_mask k (a / 2),
      ap (λ (t : ℕ). a % t) e,
      mod_double a (2 ^ k) pos,
    )

pub pow-dvd-pow : (j k : ℕ) → 2 ^ k ∣ 2 ^ (j + k)
pow-dvd-pow zero k = subst (λ n. 2 ^ k ∣ 2 ^ n) (sym (add.zero k)) (dvd_refl (2 ^ k))
pow-dvd-pow (suc j) k =
    subst (λ n. 2 ^ k ∣ 2 ^ n) (sym (add.suc j k))
      (subst (λ n. 2 ^ k ∣ n) (sym (pow-suc 2 (j + k)))
        (dvd-mul_right_of_dvd (2 ^ k) (pow-dvd-pow j k) 2))

pub pow-add : (j k : ℕ) → 2 ^ (j + k) ≡ 2 ^ j * 2 ^ k
pow-add zero k = ap (λ (n : ℕ). 2 ^ n) (add.zero k) ∙ omega arith
pow-add (suc j) k =
    ap (λ (n : ℕ). 2 ^ n) (add.suc j k)
    ∙ omega (
      arith,
      pow-suc 2 (j + k),
      ap (λ (n : ℕ). n * 2) (pow-add j k),
      ap (λ (n : ℕ). n * 2 ^ k) (pow-suc 2 j),
    )

-- The bit `m` of a number with no higher bit is set exactly when the number has that size.
pub bit_and_top :
    (m p : ℕ)
    → p < 2 ^ suc m
    → (2 ^ m ≤ p → 0 < bit_and (2 ^ m) p) × (p < 2 ^ m → bit_and (2 ^ m) p ≡ 0)
bit_and_top zero zero h = (λ lo. absurd (omega arith), λ hi. refl)
bit_and_top zero (suc zero) h = (λ lo. omega arith, λ hi. absurd (omega arith))
bit_and_top zero (suc (suc p)) h = absurd (omega arith)
bit_and_top (suc m) p h =
    let e : 2 ^ suc m ≡ 2 ^ m * 2 = pow-suc 2 m in
    let e' : 2 ^ suc (suc m) ≡ 2 ^ suc m * 2 = pow-suc 2 (suc m) in
    let half : 2 ^ suc m / 2 ≡ 2 ^ m = omega arith in
    let step = bit_and_lowest (2 ^ suc m) p in
    let halved : bit_and (2 ^ suc m / 2) (p / 2) ≡ bit_and (2 ^ m) (p / 2) =
      ap (λ (n : ℕ). bit_and n (p / 2)) half in
    let (set, clear) = bit_and_top m (p / 2) (omega arith) in
    (
      λ lo. let s = set (omega arith) in omega (arith, step, halved, s),
      λ hi. let s = clear (omega arith) in omega (arith, step, halved, s),
    )

xor_digits : ℕ → ℕ → ℕ → ℕ
xor_digits = digits (λ b. b) differ

enough_xor_digits : (m n a b : ℕ) → a ≤ m → a ≤ n → xor_digits m a b ≡ xor_digits n a b
unfolding xor_digits
enough_xor_digits zero zero zero b hm hn = refl
enough_xor_digits zero (suc n) zero b hm hn = refl
enough_xor_digits (suc m) zero zero b hm hn = refl
enough_xor_digits (suc m) (suc n) zero b hm hn = refl
enough_xor_digits zero n (suc a) b hm hn = absurd (omega arith)
enough_xor_digits (suc m) zero (suc a) b hm hn = absurd (omega arith)
enough_xor_digits (suc m) (suc n) (suc a) b hm hn =
    ap (λ (d : ℕ). d * 2 + differ (suc a % 2) (b % 2))
      (enough_xor_digits m n (suc a / 2) (b / 2) (omega arith) (omega arith))

bit_xor-digits : (a b : ℕ) → bit_xor a b ≡ xor_digits a a b
unfolding xor_digits
bit_xor-digits a b = bit_xor-bitwise a b

pub bit_xor_lowest : (a b : ℕ) → bit_xor a b ≡ bit_xor (a / 2) (b / 2) * 2 + differ (a % 2) (b % 2)
unfolding xor_digits
bit_xor_lowest zero b = omega (arith, bit_xor-digits 0 b, bit_xor-digits 0 (b / 2))
bit_xor_lowest (suc a) b = omega (
  arith,
  bit_xor-digits (suc a) b,
  bit_xor-digits (suc a / 2) (b / 2),
  enough_xor_digits a (suc a / 2) (suc a / 2) (b / 2) (omega arith) (omega arith),
)

differ-le : (x y : ℕ) → x ≤ 1 → y ≤ 1 → differ x y ≤ 1
differ-le zero y hx hy = hy
differ-le (suc zero) zero hx hy = omega arith
differ-le (suc zero) (suc zero) hx hy = omega arith
differ-le (suc zero) (suc (suc y)) hx hy = absurd (omega arith)
differ-le (suc (suc x)) y hx hy = absurd (omega arith)

-- Two numbers with the same highest bit: their exclusive or has a lower one.
pub bit_xor-lt :
    (d a b : ℕ) → 2 ^ d ≤ a → a < 2 ^ suc d → 2 ^ d ≤ b → b < 2 ^ suc d → bit_xor a b < 2 ^ d
bit_xor-lt zero a b la ha lb hb =
    let ea : a ≡ 1 = omega arith in
    let eb : b ≡ 1 = omega arith in let e : bit_xor a b ≡ 0 = ap₂ bit_xor ea eb in omega (arith, e)
bit_xor-lt (suc d) a b la ha lb hb =
    let e : 2 ^ suc d ≡ 2 ^ d * 2 = pow-suc 2 d in
    let e' : 2 ^ suc (suc d) ≡ 2 ^ suc d * 2 = pow-suc 2 (suc d) in
    omega (
      arith,
      bit_xor_lowest a b,
      differ-le (a % 2) (b % 2) (omega arith) (omega arith),
      bit_xor-lt d (a / 2) (b / 2) (omega arith) (omega arith) (omega arith) (omega arith),
    )
