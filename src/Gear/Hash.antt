-- ===== src/Gear/Hash.antt =====
-- The fingerprint of a run is that of its second part, started at that of its first.
use chunk_grouping.Prelude.{
  ℕ, ◌+◌, ◌≡◌, refl, List, [], ◌∷◌, ◌++◌, take, drop, ap, ◌∙◌, sym, take-append-take,
}
use chunk_grouping.Gear.{gear_step, gear_hash}

pub gear_hash-append :
    (fp : ℕ) (xs ys : List ℕ) → gear_hash fp (xs ++ ys) ≡ gear_hash (gear_hash fp xs) ys
unfolding gear_hash
gear_hash-append fp [] ys = refl
gear_hash-append fp (x ∷ xs) ys = gear_hash-append (gear_step fp x) xs ys

pub gear_hash-take :
    (fp m k : ℕ) (p : List ℕ)
    → gear_hash (gear_hash fp (take m p)) (take k (drop m p)) ≡ gear_hash fp (take (m + k) p)
gear_hash-take fp m k p =
    sym (gear_hash-append fp (take m p) (take k (drop m p)))
    ∙ ap (gear_hash fp) (take-append-take m k (m + k) p refl)
