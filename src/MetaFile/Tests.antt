-- ===== src/MetaFile/Tests.antt =====
-- A meta file of two lines.
use chunk_grouping.Prelude.{◌≡◌, refl, none, some, [], ◌∷◌, arith}
use chunk_grouping.Compression.{FileMeta}
use chunk_grouping.MetaFile.{Text, meta_line, get_file_meta_by_name}
use chunk_grouping.MetaFile.Search.{
  IsWritable, write_all, first_named, get_file_meta_by_name-write_all,
}
use chunk_grouping.MetaFile.Unfound.{get_file_meta_by_name-unfound}

-- "a" and "b c"
abbrev short_name : Text
short_name = 97 ∷ []

abbrev split_name : Text
split_name = 98 ∷ 32 ∷ 99 ∷ []

abbrev first : FileMeta Text
first = record { file_name = short_name; start_chunk_id = 0; end_chunk_id = some 12 }

abbrev second : FileMeta Text
second = record { file_name = 98 ∷ []; start_chunk_id = 13; end_chunk_id = some 2047 }

first-IsWritable : IsWritable first
first-IsWritable = record {
  last = 12;
  set = refl;
  word = ((λ e. cc), (refl, tt));
  start_small = omega arith;
  last_small = omega arith;
}

second-IsWritable : IsWritable second
second-IsWritable = record {
  last = 2047;
  set = refl;
  word = ((λ e. cc), (refl, tt));
  start_small = omega arith;
  last_small = omega arith;
}

get_file_meta_by_name-write_all_example :
    (text : Text) × (write_all [] (first ∷ second ∷ []) ≡ some text)
    × (get_file_meta_by_name text (98 ∷ []) ≡ some (first_named (98 ∷ []) (first ∷ second ∷ [])))
get_file_meta_by_name-write_all_example =
    get_file_meta_by_name-write_all (first ∷ second ∷ []) (98 ∷ [])
      (first-IsWritable, (second-IsWritable, tt))

get_file_meta_by_name-unfound_example :
    get_file_meta_by_name (meta_line split_name 0 12) split_name ≡ some none
get_file_meta_by_name-unfound_example =
    get_file_meta_by_name-unfound (meta_line split_name 0 12) split_name
      (λ a. let black = a.1.0 in cc)
