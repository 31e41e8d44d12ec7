-- ===== src/Prelude/Members.antt =====
-- Membership in a list of numbers.
use Prim.Native.Nat.{ℕ}
use mathlib.Core.Path.{◌≡◌}
use mathlib.Core.Logic.{◌⊎◌}
use mathlib.Core.List.{List, [], ◌∷◌}

infix 4 ◌∈◌
abbrev pub ◌∈◌ : ℕ → List ℕ → Type 0
a ∈ [] = ⊥
a ∈ (x ∷ xs) = (a ≡ x) ⊎ (a ∈ xs)
