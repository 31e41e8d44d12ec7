-- ===== src/Gear/Window.antt =====
-- What the low bits of the fingerprint depend on: each step shifts the older bytes up by one bit,
-- so the low `k` bits know the last `k` bytes alone.
use native.Mathlib.Nat.{pow-suc, mod-mod_of_dvd, add-mul-mod_self_right, mod-add-div'}
use chunk_grouping.Prelude.{
  ℕ, suc, ◌+◌, ◌-◌, ◌*◌, ◌/◌, ◌%◌, ◌^◌, ◌≤◌, ◌∣◌, ◌≡◌, sym, ap, subst, ◌∙◌, List, [], ◌∷◌, ◌++◌,
  length, get_or, u64, bit_and, arith,
}
use chunk_grouping.Prelude.Bits.{bit_and_mask, pow-dvd-pow}
use chunk_grouping.Gear.{gear_table, gear_step, gear_hash}
use chunk_grouping.Gear.Hash.{gear_hash-append}

double-mod : (f a m : ℕ) → (f * 2 + a) % (m * 2) ≡ (f % m * 2 + a) % (m * 2)
double-mod f a m =
    let e : f * 2 + a ≡ (f % m * 2 + a) + f / m * (m * 2) = omega (arith, mod-add-div' f m) in
    ap (λ (t : ℕ). t % (m * 2)) e ∙ add-mul-mod_self_right (f % m * 2 + a) (f / m) (m * 2)

-- One step makes two fingerprints agree on one more bit.
gear_step_agree :
    (j f g b : ℕ)
    → suc j ≤ 64
    → f % 2 ^ j ≡ g % 2 ^ j
    → gear_step f b % 2 ^ suc j ≡ gear_step g b % 2 ^ suc j
unfolding gear_step
gear_step_agree j f g b h e =
    reduce f ∙ ap (λ (r : ℕ). (r * 2 + a) % (2 ^ j * 2)) e ∙ sym (reduce g)
  where
    a : ℕ
    a = get_or gear_table b 0

    divides : 2 ^ suc j ∣ 2 ^ 64
    divides =
        let n : 63 - j + suc j ≡ 64 = omega arith in
        subst (λ (m : ℕ). 2 ^ suc j ∣ 2 ^ m) n (pow-dvd-pow (63 - j) (suc j))

    reduce : (x : ℕ) → u64 (x * 2 + a) % 2 ^ suc j ≡ (x % 2 ^ j * 2 + a) % (2 ^ j * 2)
    reduce x =
        mod-mod_of_dvd (2 ^ suc j) (x * 2 + a) divides
        ∙ ap (λ (m : ℕ). (x * 2 + a) % m) (pow-suc 2 j)
        ∙ double-mod x a (2 ^ j)

gear_hash_agree :
    (j k f g : ℕ) (xs : List ℕ)
    → j + length xs ≡ k
    → k ≤ 64
    → f % 2 ^ j ≡ g % 2 ^ j
    → gear_hash f xs % 2 ^ k ≡ gear_hash g xs % 2 ^ k
unfolding gear_hash
gear_hash_agree j k f g [] len h e =
    let n : j ≡ k = omega arith in subst (λ (m : ℕ). f % 2 ^ m ≡ g % 2 ^ m) n e
gear_hash_agree j k f g (x ∷ xs) len h e =
    gear_hash_agree (suc j) k (gear_step f x) (gear_step g x) xs (omega arith) h
      (gear_step_agree j f g x (omega arith) e)

-- Under a mask of `k` low ones (at most 64), the fingerprint of a run depends on its last `k` bytes
-- alone: what stands before them, and the value that it started from, make no difference.
pub gear_hash_window :
    (k : ℕ) (window before before' : List ℕ) (start start' : ℕ)
    → length window ≡ k
    → k ≤ 64
    → bit_and (gear_hash start (before ++ window)) (2 ^ k - 1)
      ≡ bit_and (gear_hash start' (before' ++ window)) (2 ^ k - 1)
gear_hash_window k window before before' start start' len h =
    ap (λ (x : ℕ). bit_and x (2 ^ k - 1)) (gear_hash-append start before window)
    ∙ bit_and_mask k _
    ∙ gear_hash_agree 0 k (gear_hash start before) (gear_hash start' before') window (omega arith) h
        (omega arith)
    ∙ sym (bit_and_mask k _)
    ∙ sym (ap (λ (x : ℕ). bit_and x (2 ^ k - 1)) (gear_hash-append start' before' window))
