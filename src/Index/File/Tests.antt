-- ===== src/Index/File/Tests.antt =====
-- An index with two entries in its first map, written and read back.
use chunk_grouping.Prelude.{ℕ, ◌^◌, ◌≡◌, refl, lookup_by, some, [], ◌∷◌, arith}
use chunk_grouping.Index.{SuperFeatureIndex}
use chunk_grouping.Index.File.{dump_to_file, recover_from_file}
use chunk_grouping.Index.File.Recover.{AreMaps, recover_from_file-dump_to_file}

abbrev used : SuperFeatureIndex ℕ
used = record { index = ((11, 7) ∷ (2 ^ 63, 8) ∷ []) ∷ [] ∷ []; index_float = ((5, 7) ∷ []) ∷ [] }

abbrev fresh : SuperFeatureIndex ℕ
fresh = record { index = [] ∷ [] ∷ []; index_float = [] ∷ [] }

used-AreMaps : AreMaps used.index
unfolding lookup_by
used-AreMaps = (
  (refl, omega arith, omega arith, (refl, omega arith, omega arith, tt)),
  omega arith,
  (tt, omega arith, tt),
)

recover_from_file-dump_to_file_example :
    recover_from_file fresh (dump_to_file used) ≡ some (record fresh { index = used.index })
recover_from_file-dump_to_file_example =
    recover_from_file-dump_to_file used fresh used-AreMaps (omega arith) refl
