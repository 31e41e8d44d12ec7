-- ===== src/Features.antt =====
-- feature/features.h, feature/features.cpp: what the indexes compare of a chunk.
-- A word's bytes are in the order of a little-endian machine, as `(uint8_t *)` shows them.
-- `cal(ZERO_CAL, content)` of storage/our_feature.cpp, a floating-point number, is a parameter.
pub mod Transforms
pub mod Group
pub mod Sizes
pub mod Lookup
mod Tests
use chunk_grouping.Prelude.{
  ℕ, zero, suc, ◌+◌, ◌-◌, ◌*◌, ◌/◌, ◌%◌, ◌^◌, Bool, true, false, ◌==◌, leb, ◌||◌, if◌then◌else◌,
  List, [], ◌∷◌, ◌++◌, map, take, drop, replicate, max, bit_and, u32, u64, get_or,
}
use chunk_grouping.Chunk.{Chunk}
use chunk_grouping.Gear.{gear_step, gear_hash, gear_table}
use chunk_grouping.Rabin.{RabinT, rabin_append, rabin_init}
use chunk_grouping.Index.{Part, super_feature, our_feature, Feature, parts, words}
use chunk_grouping.Index.File.{write_word}

-- the bytes of a run of words of `width` bytes
abbrev pub bytes_of : ℕ → List ℕ → List ℕ
bytes_of width [] = []
bytes_of width (w ∷ ws) = write_word width w ++ bytes_of width ws

-- `count` groups of `size` entries, from the front
abbrev pub groups : ℕ → ℕ → List ℕ → List (List ℕ)
groups zero size xs = []
groups (suc count) size xs = take size xs ∷ groups count size (drop size xs)

-- `std::sort` of one group
abbrev pub insert_sorted : ℕ → List ℕ → List ℕ
insert_sorted x [] = x ∷ []
insert_sorted x (y ∷ ys) = if leb x y then x ∷ y ∷ ys else y ∷ insert_sorted x ys

abbrev pub sort : List ℕ → List ℕ
sort [] = []
sort (x ∷ xs) = insert_sorted x (sort xs)

-- the inner loop of `FinesseFeature`: the largest digest over a sub-chunk
unfoldable pub largest_digest : List ℕ → RabinT → ℕ → ℕ
largest_digest [] rabin_ctx sub_feature = sub_feature
largest_digest (b ∷ bs) rabin_ctx sub_feature =
    let rabin_ctx' = rabin_append rabin_ctx b in
    largest_digest bs rabin_ctx' (max rabin_ctx'.digest sub_feature)

-- its outer loop
unfoldable pub finesse_sub_features : ℕ → ℕ → List ℕ → List ℕ
unfolding largest_digest
finesse_sub_features zero sub_chunk_length content = []
finesse_sub_features (suc n) sub_chunk_length content =
    largest_digest (take sub_chunk_length content) rabin_init 0
    ∷ finesse_sub_features n sub_chunk_length (drop sub_chunk_length content)

unfoldable pub append_all : RabinT → List ℕ → RabinT
append_all rabin_ctx [] = rabin_ctx
append_all rabin_ctx (b ∷ bs) = append_all (rabin_append rabin_ctx b) bs

-- the table M; the tables have entries for the 12 sub-features of the default sizes
abbrev pub factors : List ℕ
factors =
    0x5b49898a ∷ 0xe4f94e27 ∷ 0x95f658b2 ∷ 0x8f9c99fc ∷ 0xeba8d4d8 ∷ 0xba2c8e92 ∷ 0xa868aeb4
    ∷ 0xd767df82 ∷ 0x843606a4 ∷ 0xc1e70129 ∷ 0x32d9d1b0 ∷ 0xeb91e53c ∷ []

-- the table A
abbrev pub summands : List ℕ
summands =
    0xff4be8c ∷ 0x6f485986 ∷ 0x12843ff ∷ 0x5b47dc4d ∷ 0x7faa9b8a ∷ 0xd547b8ba ∷ 0xf9979921
    ∷ 0x4f5400da ∷ 0x725f79a9 ∷ 0x3c9321ac ∷ 0x32716d ∷ 0x3f5adf5d ∷ []

-- `const uint32_t transform = (M[j] * finger_print + A[j])`
abbrev pub transform : ℕ → ℕ → ℕ
transform finger_print j = u32 (get_or factors j 0 * finger_print + get_or summands j 0)

-- `if (sub_features[j] >= transform || 0 == sub_features[j]) sub_features[j] = transform`
unfoldable pub lower : ℕ → ℕ → ℕ
lower sub_feature t = if leb t sub_feature || (sub_feature == 0) then t else sub_feature

-- the loop over the sub-features, from the `j`-th on
unfoldable pub lower_all : ℕ → ℕ → List ℕ → List ℕ
lower_all finger_print j [] = []
lower_all finger_print j (s ∷ sub_features) =
    lower s (transform finger_print j) ∷ lower_all finger_print (suc j) sub_features

-- the loop of `NTransformFeature` over the bytes
unfoldable pub n_transform_loop : List ℕ → ℕ → List ℕ → List ℕ
n_transform_loop [] finger_print sub_features = sub_features
n_transform_loop (b ∷ bs) finger_print sub_features =
    let finger_print' = gear_step finger_print b in
    n_transform_loop bs finger_print' (lower_all finger_print' 0 sub_features)

-- the loop of `OdessFeature`
unfoldable pub odess_loop : ℕ → List ℕ → ℕ → List ℕ → List ℕ
odess_loop mask [] finger_print sub_features = sub_features
odess_loop mask (b ∷ bs) finger_print sub_features =
    let finger_print' = gear_step finger_print b in
    odess_loop mask bs finger_print' (
      if bit_and finger_print' mask == 0
      then lower_all finger_print' 0 sub_features
      else sub_features)

abbrev pub default_odess_mask : ℕ
default_odess_mask = 2 ^ 7 - 1

-- the loop of `OdessSubfeatures`, whose fingerprint is a `uint32_t`
unfoldable pub odess_sub_loop : List ℕ → ℕ → List ℕ → List ℕ
odess_sub_loop [] finger_print sub_features = sub_features
odess_sub_loop (b ∷ bs) finger_print sub_features =
    let finger_print' = u32 (finger_print * 2 + get_or gear_table b 0) in
    odess_sub_loop bs finger_print' (
      if bit_and finger_print' default_odess_mask == 0
      then lower_all finger_print' 0 sub_features
      else sub_features)

-- the gear hash of a group's bytes, the first `skipped` left out
unfoldable pub group_hash : ℕ → ℕ → List ℕ → ℕ
group_hash skipped width g = gear_hash 0 (drop skipped (bytes_of width g))

unfoldable pub super_features : ℕ → ℕ → ℕ → ℕ → List ℕ → List ℕ
super_features skipped width sf_cnt sf_subf sub_features =
    map (λ g. group_hash skipped width g) (groups sf_cnt sf_subf sub_features)

-- `group` of `PalantirFeature`, which begins with the fifth byte of each group
abbrev pub palantir_group : ℕ → ℕ → List ℕ → List ℕ
palantir_group sf_cnt sf_subf sub_features = super_features 4 8 sf_cnt sf_subf sub_features

-- `OdessSubfeatures`
unfoldable pub odess_sub_features : Chunk → List ℕ
odess_sub_features chunk = odess_sub_loop (take chunk.len chunk.buf) 0 (replicate 12 0)

module _ {ℓ} {Float : Type ℓ} where
  -- `FinesseFeature`
  unfoldable pub finesse_feature : ℕ → ℕ → Chunk → Feature Float
  finesse_feature sf_cnt sf_subf chunk =
      let sub_chunk_length = chunk.len / (sf_subf * sf_cnt) in
      let sub_features = finesse_sub_features (sf_cnt * sf_subf) sub_chunk_length chunk.buf in
      words (
        map (λ g. (append_all rabin_init (bytes_of 8 (sort g))).digest)
          (groups sf_cnt sf_subf sub_features))

  -- `NTransformFeature`
  unfoldable pub n_transform_feature : ℕ → ℕ → Chunk → Feature Float
  n_transform_feature sf_cnt sf_subf chunk = words (
      super_features 0 4 sf_cnt sf_subf
        (n_transform_loop (take chunk.len chunk.buf) 0 (replicate (sf_cnt * sf_subf) 0)))

  -- `OdessFeature`
  unfoldable pub odess_feature : ℕ → ℕ → ℕ → Chunk → Feature Float
  odess_feature sf_cnt sf_subf mask chunk = words (
      super_features 0 4 sf_cnt sf_subf
        (odess_loop mask (take chunk.len chunk.buf) 0 (replicate (sf_cnt * sf_subf) 0)))

  -- `PalantirFeature`
  unfoldable pub palantir_feature : (List ℕ → Float) → Chunk → Feature Float
  palantir_feature zero_cal chunk =
      let sub_features = odess_sub_features chunk in
      parts (
        super_feature (palantir_group 3 4 sub_features)
        ∷ super_feature (palantir_group 4 3 sub_features)
        ∷ super_feature (palantir_group 6 2 sub_features)
        ∷ our_feature (zero_cal (take chunk.len chunk.buf) ∷ [])
        ∷ [])
