-- ===== src/Index/File.antt =====
-- index/super_feature_index.cpp, `DumpToFile` and `RecoverFromFile`: the maps of words as bytes,
-- the low byte first. The maps of own features are not written. A file that cannot be opened, or
-- that has another number of maps, ends the process.
pub mod Recover
mod Tests
use chunk_grouping.Prelude.{
  ℕ, zero, suc, ◌+◌, ◌*◌, ◌/◌, ◌%◌, ◌==◌, if◌then◌else◌, Option, none, some, List, [], ◌∷◌, ◌++◌,
  length, take, drop, insert, u32,
}
use chunk_grouping.Index.{SuperFeatureIndex}

-- the `n` bytes of a word
unfoldable pub write_word : ℕ → ℕ → List ℕ
write_word zero w = []
write_word (suc n) w = w % 256 ∷ write_word n (w / 256)

unfoldable pub word_of : List ℕ → ℕ
word_of [] = 0
word_of (b ∷ bs) = b + word_of bs * 256

-- a word from the front of what is left; at the end of the file the rest of it stays 0
unfoldable pub read_word : ℕ → List ℕ → ℕ × List ℕ
read_word n bytes = (word_of (take n bytes), drop n bytes)

unfoldable pub dump_entries : List (ℕ × ℕ) → List ℕ
dump_entries [] = []
dump_entries ((k, v) ∷ m) = write_word 8 k ++ (write_word 4 v ++ dump_entries m)

unfoldable pub dump_maps : List (List (ℕ × ℕ)) → List ℕ
dump_maps [] = []
dump_maps (m ∷ ms) = write_word 8 (length m) ++ (dump_entries m ++ dump_maps ms)

-- the inner loop of `RecoverFromFile`, `size` rounds
unfoldable pub recover_entries : ℕ → List ℕ → List (ℕ × ℕ) → List (ℕ × ℕ) × List ℕ
recover_entries zero bytes m = (m, bytes)
recover_entries (suc size) bytes m =
    let (feature, rest) = read_word 8 bytes in
    let (chunk_id, rest') = read_word 4 rest in
    recover_entries size rest' (insert feature chunk_id m)

unfoldable pub recover_maps : List (List (ℕ × ℕ)) → List ℕ → List (List (ℕ × ℕ))
recover_maps [] bytes = []
recover_maps (m ∷ ms) bytes =
    let (size, rest) = read_word 8 bytes in
    let (m', rest') = recover_entries size rest m in m' ∷ recover_maps ms rest'

module _ {ℓ} {Float : Type ℓ} where
  -- `DumpToFile`
  unfoldable pub dump_to_file : SuperFeatureIndex Float → List ℕ
  dump_to_file x = write_word 4 (u32 (length x.index)) ++ dump_maps x.index

  -- `RecoverFromFile`
  unfoldable pub recover_from_file :
      SuperFeatureIndex Float → List ℕ → Option (SuperFeatureIndex Float)
  recover_from_file x bytes =
      let (super_feature_count, rest) = read_word 4 bytes in
      if length x.index == super_feature_count
      then some (record x { index = recover_maps x.index rest })
      else none
