-- ===== src/FastCdc/Loops.antt =====
-- What the two loops of `GetNextChunk` compute.
use chunk_grouping.Prelude.{
  ℕ, zero, suc, ◌+◌, ◌≤◌, ◌<◌, ◌≡◌, ◌≢◌, refl, ap, ◌⊎◌, inl, inr, Bool, true, false, ◌==◌, ==_iff,
  Bool-cases, some, List, [], ◌∷◌, length, take, drop, bit_and, arith,
}
use chunk_grouping.Gear.{gear_step, gear_hash}
use chunk_grouping.FastCdc.{min_loop, cut_loop, cut_size}

-- While bytes are left, the first loop reads one for each round.
pub min_loop_lem :
    (rounds fp : ℕ) (p : List ℕ)
    → rounds ≤ length p
    → min_loop rounds fp p ≡ some (gear_hash fp (take rounds p), drop rounds p)
unfolding min_loop gear_hash
min_loop_lem zero fp p h = refl
min_loop_lem (suc rounds) fp [] h = absurd (omega arith)
min_loop_lem (suc rounds) fp (b ∷ p) h = min_loop_lem rounds (gear_step fp b) p (omega arith)

-- `k` bytes after `p` the fingerprint passes the mask.
abbrev pub IsCut : ℕ → ℕ → List ℕ → ℕ → Type 0
IsCut mask fp p k = bit_and (gear_hash fp (take k p)) mask ≡ 0

-- The second loop, started at `chunk_size`, reads `k` bytes: to the first cut, or to its bound.
pub record Cuts (mask rounds fp chunk_size : ℕ) (p : List ℕ) : Type 0 where
  pub out : Bool × ℕ × List ℕ
  pub returns : cut_loop mask rounds fp chunk_size p ≡ some out
  pub k : ℕ
  pub within : k ≤ rounds
  pub moves : (rounds ≡ 0) ⊎ (0 < k)
  pub size : cut_size out + 1 ≡ chunk_size + k
  pub ptr : out.2 ≡ drop k p
  pub stops : (k ≡ rounds) ⊎ IsCut mask fp p k
  pub first : (j : ℕ) → 1 ≤ j → j < k → ¬ IsCut mask fp p j

skip :
    (mask fp b : ℕ) (p : List ℕ) (k : ℕ)
    → bit_and (gear_step fp b) mask ≢ 0
    → ((j : ℕ) → 1 ≤ j → j < k → ¬ IsCut mask (gear_step fp b) p j)
    → (j : ℕ) → 1 ≤ j
    → j < suc k
    → ¬ IsCut mask fp (b ∷ p) j
unfolding gear_hash
skip mask fp b p k miss later zero lo hi = absurd (omega arith)
skip mask fp b p k miss later (suc zero) lo hi = miss
skip mask fp b p k miss later (suc (suc j)) lo hi = later (suc j) (omega arith) (omega arith)

pub cut_loop-Cuts :
    (mask rounds fp chunk_size : ℕ) (p : List ℕ)
    → 1 ≤ chunk_size
    → rounds ≤ length p
    → Cuts mask rounds fp chunk_size p
unfolding cut_loop gear_hash
cut_loop-Cuts mask zero fp cs p pos h = record {
  out = (false, cs, p);
  returns = refl;
  k = 0;
  within = omega arith;
  moves = inl refl;
  size = omega arith;
  ptr = refl;
  stops = inl refl;
  first = λ j a b. absurd (omega arith);
}
cut_loop-Cuts mask (suc rounds) fp cs [] pos h = absurd (omega arith)
cut_loop-Cuts mask (suc rounds) fp cs (b ∷ p) pos h =
    elim (Bool-cases (bit_and (gear_step fp b) mask == 0)) [
      | inl hit ↦ record {
        out = (true, cs, p);
        returns = rw hit;
        k = 1;
        within = omega arith;
        moves = inr (omega arith);
        size = omega arith;
        ptr = refl;
        stops = inr ((==_iff _ _).0 hit);
        first = λ j a b. absurd (omega arith);
      }
      | inr miss ↦
          let rest =
            cut_loop-Cuts mask rounds (gear_step fp b) (cs + 1) p (omega arith) (omega arith) in
          record {
            out = rest.out;
            returns = rw miss rest.returns;
            k = suc rest.k;
            within = omega (arith, rest.within);
            moves = inr (omega arith);
            size = omega (arith, rest.size);
            ptr = rest.ptr;
            stops = elim rest.stops [ inl e ↦ inl (ap suc e) | inr c ↦ inr c ];
            first = skip mask fp b p rest.k (λ c. cc ((==_iff _ _).1 c)) rest.first;
          }
    ]
