-- ===== src/Mapping/Tests.antt =====
-- Two mapped files.
use chunk_grouping.Prelude.{ℕ, ◌≡◌, refl, false, some, [], ◌∷◌}
use chunk_grouping.Mapping.{Mappings, Mapping, no_mapping, open_mapping, move_assign}
use chunk_grouping.Mapping.Owners.{
  IsOwned, open_mapping-IsOwned, move_assign-IsOwned, destroy_all, destroy_all-IsOwned,
}

abbrev nothing : Mappings
nothing = record { mapped = λ i. false; unused = 0 }

abbrev first : Mappings × Mapping ℕ
unfolding open_mapping
first = open_mapping nothing 7 (some 10)

abbrev second : Mappings × Mapping ℕ
unfolding first open_mapping
second = open_mapping first.0 8 (some 20)

second-IsOwned : IsOwned second.0 (second.1 ∷ first.1 ∷ [])
unfolding second
second-IsOwned =
    open_mapping-IsOwned first.0 8 (some 20) (first.1 ∷ []) (
      open_mapping-IsOwned nothing 7 (some 10) [] (record { one = λ i. refl; fresh = λ i h. refl }))

move_assign-IsOwned_example :
    (w' : Mappings) × (move_assign second.0 second.1 first.1 ≡ some (w', (first.1, no_mapping)))
    × IsOwned w' (first.1 ∷ no_mapping ∷ [])
move_assign-IsOwned_example = move_assign-IsOwned second.0 second.1 first.1 [] second-IsOwned

destroy_all-IsOwned_example :
    (w' : Mappings) × (destroy_all second.0 (second.1 ∷ first.1 ∷ []) ≡ some w')
    × ((i : ℕ) → w'.mapped i ≡ false)
destroy_all-IsOwned_example = destroy_all-IsOwned second.0 (second.1 ∷ first.1 ∷ []) second-IsOwned
