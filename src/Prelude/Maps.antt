-- ===== src/Prelude/Maps.antt =====
-- `std::unordered_map` as an association list: a new key goes to the end, an old one keeps its
-- place. The order stands for the order of iteration, which the library leaves open.
use Prim.Native.Nat.{ℕ}
use mathlib.Core.Path.{◌≡◌, refl}
use mathlib.Core.Logic.{◌≢◌, inl, inr}
use mathlib.Core.Bool.{Bool, true}
use mathlib.Core.Option.{Option, none, some}
use mathlib.Core.List.{List, [], ◌∷◌}
use native.Mathlib.Omega.{arith}
use chunk_grouping.Prelude.Tests.{◌==◌, if◌then◌else◌, Bool-cases}

module _ {ℓ κ} {K : Type ℓ} {V : Type κ} (same : K → K → Bool) where
  unfoldable pub lookup_by : K → List (K × V) → Option V
  lookup_by k [] = none
  lookup_by k ((j, v) ∷ rest) = if same k j then some v else lookup_by k rest

  unfoldable pub insert_by : K → V → List (K × V) → List (K × V)
  insert_by k v [] = (k, v) ∷ []
  insert_by k v ((j, w) ∷ rest) = if same k j then (j, v) ∷ rest else (j, w) ∷ insert_by k v rest

  -- Under a key that is the same as itself, the inserted value is found.
  pub lookup_by-insert_by :
      (k : K) (v : V) (m : List (K × V)) → same k k ≡ true → lookup_by k (insert_by k v m) ≡ some v
  unfolding lookup_by insert_by
  lookup_by-insert_by k v [] e = rw e refl
  lookup_by-insert_by k v ((j, w) ∷ rest) e = elim (Bool-cases (same k j)) [
    | inl f ↦ rw (f, insert_by, lookup_by) (rw f refl)
    | inr f ↦ rw (f, insert_by, lookup_by) (rw f (lookup_by-insert_by k v rest e))
  ]

module _ {κ} {V : Type κ} where
  abbrev pub lookup : ℕ → List (ℕ × V) → Option V
  lookup k m = lookup_by ◌==◌ k m

  abbrev pub insert : ℕ → V → List (ℕ × V) → List (ℕ × V)
  insert k v m = insert_by ◌==◌ k v m

  pub lookup-insert_same : (k : ℕ) (v : V) (m : List (ℕ × V)) → lookup k (insert k v m) ≡ some v
  lookup-insert_same k v m = lookup_by-insert_by ◌==◌ k v m (ground arith)

  pub lookup-insert_other :
      (j k : ℕ) (v : V) (m : List (ℕ × V)) → j ≢ k → lookup j (insert k v m) ≡ lookup j m
  unfolding lookup_by insert_by
  lookup-insert_other j k v [] ne = ground arith
  lookup-insert_other j k v ((i, w) ∷ rest) ne = ground (arith, lookup-insert_other j k v rest ne)
