-- ===== src/Gear/Tests.antt =====
-- The fingerprint at concrete inputs.
use chunk_grouping.Prelude.{◌++◌, ◌-◌, ◌^◌, ◌≡◌, refl, [], ◌∷◌, bit_and, arith}
use chunk_grouping.Gear.{gear_hash}
use chunk_grouping.Gear.Window.{gear_hash_window}

gear_hash_window_example :
    bit_and (gear_hash 0 ((1 ∷ []) ++ (2 ∷ 3 ∷ []))) (2 ^ 2 - 1)
    ≡ bit_and (gear_hash 7 ((9 ∷ 9 ∷ []) ++ (2 ∷ 3 ∷ []))) (2 ^ 2 - 1)
gear_hash_window_example =
    gear_hash_window 2 (2 ∷ 3 ∷ []) (1 ∷ []) (9 ∷ 9 ∷ []) 0 7 refl (omega arith)
