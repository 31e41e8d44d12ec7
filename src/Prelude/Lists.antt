-- ===== src/Prelude/Lists.antt =====
-- Lists measured and indexed by native numbers, under the library's names.
use Prim.Native.Nat.{ℕ, zero, suc, ◌+◌, ◌-◌, ◌≤◌, ◌<◌, min}
use mathlib.Core.Path.{◌≡◌, refl, ap}
use mathlib.Core.List.{List, [], ◌∷◌, ◌++◌}
use mathlib.Core.Option.{Option, none, some}
use mathlib.Core.Logic.{◌⊎◌, inl, inr}
use Prim.Native.Nat.add
use native.Mathlib.Numerals.{add-one}
use native.Mathlib.Omega.{arith}

module _ {ℓ} {A : Type ℓ} where
  abbrev pub length : List A → ℕ
  length [] = 0
  length (x ∷ xs) = suc (length xs)

  abbrev pub get_elem? : List A → ℕ → Option A
  get_elem? [] i = none
  get_elem? (x ∷ xs) zero = some x
  get_elem? (x ∷ xs) (suc i) = get_elem? xs i

  abbrev pub get_or : List A → ℕ → A → A
  get_or [] i d = d
  get_or (x ∷ xs) zero d = x
  get_or (x ∷ xs) (suc i) d = get_or xs i d

  -- A write out of bounds changes nothing.
  abbrev pub set : List A → ℕ → A → List A
  set [] i v = []
  set (x ∷ xs) zero v = v ∷ xs
  set (x ∷ xs) (suc i) v = x ∷ set xs i v

  abbrev pub take : ℕ → List A → List A
  take zero xs = []
  take (suc n) [] = []
  take (suc n) (x ∷ xs) = x ∷ take n xs

  abbrev pub drop : ℕ → List A → List A
  drop zero xs = xs
  drop (suc n) [] = []
  drop (suc n) (x ∷ xs) = drop n xs

  abbrev pub replicate : ℕ → A → List A
  replicate zero a = []
  replicate (suc n) a = a ∷ replicate n a

module _ {ℓ} {A : Type ℓ} where
  pub length-append : (xs ys : List A) → length (xs ++ ys) ≡ length xs + length ys
  length-append [] ys = omega arith
  length-append (x ∷ xs) ys = omega (arith, length-append xs ys)

  pub take-append-drop : (n : ℕ) (xs : List A) → take n xs ++ drop n xs ≡ xs
  take-append-drop zero xs = refl
  take-append-drop (suc n) [] = refl
  take-append-drop (suc n) (x ∷ xs) = ap (◌∷◌ x) (take-append-drop n xs)

  pub length-take : (n : ℕ) (xs : List A) → length (take n xs) ≡ min n (length xs)
  length-take zero xs = omega arith
  length-take (suc n) [] = omega arith
  length-take (suc n) (x ∷ xs) = omega (arith, length-take n xs)

  pub length-drop : (n : ℕ) (xs : List A) → length (drop n xs) ≡ length xs - n
  length-drop zero xs = omega arith
  length-drop (suc n) [] = omega arith
  length-drop (suc n) (x ∷ xs) = omega (arith, length-drop n xs)

  -- The number is a variable with an equation, since `length xs + 0` does not compute.
  pub take-append_length : (n : ℕ) (xs ys : List A) → n ≡ length xs → take n (xs ++ ys) ≡ xs
  take-append_length zero [] ys e = refl
  take-append_length zero (x ∷ xs) ys e = absurd (omega arith)
  take-append_length (suc n) [] ys e = absurd (omega arith)
  take-append_length (suc n) (x ∷ xs) ys e = ap (◌∷◌ x) (take-append_length n xs ys (omega arith))

  pub drop-append_length : (n : ℕ) (xs ys : List A) → n ≡ length xs → drop n (xs ++ ys) ≡ ys
  drop-append_length zero [] ys e = refl
  drop-append_length zero (x ∷ xs) ys e = absurd (omega arith)
  drop-append_length (suc n) [] ys e = absurd (omega arith)
  drop-append_length (suc n) (x ∷ xs) ys e = drop-append_length n xs ys (omega arith)

  pub take_all : (n : ℕ) (xs : List A) → length xs ≤ n → take n xs ≡ xs
  take_all zero [] h = refl
  take_all zero (x ∷ xs) h = absurd (omega arith)
  take_all (suc n) [] h = refl
  take_all (suc n) (x ∷ xs) h = ap (◌∷◌ x) (take_all n xs (omega arith))

  pub drop_all : (n : ℕ) (xs : List A) → length xs ≤ n → drop n xs ≡ []
  drop_all zero [] h = refl
  drop_all zero (x ∷ xs) h = absurd (omega arith)
  drop_all (suc n) [] h = refl
  drop_all (suc n) (x ∷ xs) h = drop_all n xs (omega arith)

  -- A longer list keeps its old entries, and has the new one behind them.
  pub get_elem?-append_left :
      (xs ys : List A) (i : ℕ) → i < length xs → get_elem? (xs ++ ys) i ≡ get_elem? xs i
  get_elem?-append_left [] ys i h = absurd (omega arith)
  get_elem?-append_left (x ∷ xs) ys zero h = refl
  get_elem?-append_left (x ∷ xs) ys (suc i) h = get_elem?-append_left xs ys i (omega arith)

  pub get_elem?-append_length :
      (xs : List A) (y : A) (ys : List A) (i : ℕ)
      → i ≡ length xs
      → get_elem? (xs ++ y ∷ ys) i ≡ some y
  get_elem?-append_length [] y ys zero e = refl
  get_elem?-append_length [] y ys (suc i) e = absurd (omega arith)
  get_elem?-append_length (x ∷ xs) y ys zero e = absurd (omega arith)
  get_elem?-append_length (x ∷ xs) y ys (suc i) e = get_elem?-append_length xs y ys i (omega arith)

abbrev pub All {ℓ κ} : {A : Type ℓ} → (A → Type κ) → List A → Type κ
All P [] = Unit
All P (x ∷ xs) = P x × All P xs

module _ {ℓ} {A : Type ℓ} where
  drop-nil : (n : ℕ) → drop {A = A} n [] ≡ []
  drop-nil zero = refl
  drop-nil (suc n) = refl

  pub drop-drop : (m n : ℕ) (xs : List A) → drop n (drop m xs) ≡ drop (m + n) xs
  drop-drop zero n xs = rw add.zero
  drop-drop (suc m) n [] = rw (drop-nil, add.suc)
  drop-drop (suc m) n (x ∷ xs) = rw add.suc (drop-drop m n xs)

  pub take-append-take :
      (m n k : ℕ) (xs : List A) → k ≡ m + n → take m xs ++ take n (drop m xs) ≡ take k xs
  take-append-take zero n k xs e = ap (λ k. take k xs) (omega arith)
  take-append-take (suc m) n zero xs e = absurd (omega arith)
  take-append-take (suc m) zero (suc k) [] e = refl
  take-append-take (suc m) (suc n) (suc k) [] e = refl
  take-append-take (suc m) n (suc k) (x ∷ xs) e =
      ap (◌∷◌ x) (take-append-take m n k xs (omega arith))

  pub take-suc : (n : ℕ) (x : A) (xs : List A) → take (n + 1) (x ∷ xs) ≡ x ∷ take n xs
  take-suc n x xs = rw add-one refl

module _ {ℓ} {A : Type ℓ} where
  take-append_left : (n : ℕ) (xs ys : List A) → n ≤ length xs → take n (xs ++ ys) ≡ take n xs
  take-append_left zero xs ys h = refl
  take-append_left (suc n) [] ys h = absurd (omega arith)
  take-append_left (suc n) (x ∷ xs) ys h = ap (◌∷◌ x) (take-append_left n xs ys (omega arith))

  -- A part of a list is a part of any longer one.
  pub slice-append_left :
      (o n : ℕ) (xs ys : List A)
      → o + n ≤ length xs
      → take n (drop o (xs ++ ys)) ≡ take n (drop o xs)
  slice-append_left zero n xs ys h = take-append_left n xs ys (omega arith)
  slice-append_left (suc o) zero xs ys h = refl
  slice-append_left (suc o) (suc n) [] ys h = absurd (omega arith)
  slice-append_left (suc o) (suc n) (x ∷ xs) ys h = slice-append_left o (suc n) xs ys (omega arith)

  -- The entry at a place of a list with one more behind it: an old one, or the new one.
  pub get_elem?-snoc :
      (xs : List A) (y z : A) (i : ℕ)
      → get_elem? (xs ++ y ∷ []) i ≡ some z
      → ((i < length xs) × (get_elem? xs i ≡ some z)) ⊎ ((i ≡ length xs) × (y ≡ z))
  get_elem?-snoc [] y z zero e = inr (refl, cc)
  get_elem?-snoc [] y z (suc i) e = cc
  get_elem?-snoc (x ∷ xs) y z zero e = inl (omega arith, e)
  get_elem?-snoc (x ∷ xs) y z (suc i) e = elim (get_elem?-snoc xs y z i e) [
    | inl (lt, old) ↦ inl (omega arith, old)
    | inr (at, new) ↦ inr (ap suc at, new)
  ]

  pub get_elem?-some : (xs : List A) (i : ℕ) → i < length xs → (x : A) × (get_elem? xs i ≡ some x)
  get_elem?-some [] i h = absurd (omega arith)
  get_elem?-some (x ∷ xs) zero h = (x, refl)
  get_elem?-some (x ∷ xs) (suc i) h = get_elem?-some xs i (omega arith)

  pub get_elem?-lt : (xs : List A) (i : ℕ) (x : A) → get_elem? xs i ≡ some x → i < length xs
  get_elem?-lt [] i x e = cc
  get_elem?-lt (y ∷ xs) zero x e = omega arith
  get_elem?-lt (y ∷ xs) (suc i) x e = omega (arith, get_elem?-lt xs i x e)

  pub get_or_lem : (xs : List A) (i : ℕ) (d x : A) → get_elem? xs i ≡ some x → get_or xs i d ≡ x
  get_or_lem [] i d x e = cc
  get_or_lem (y ∷ xs) zero d x e = cc
  get_or_lem (y ∷ xs) (suc i) d x e = get_or_lem xs i d x e
