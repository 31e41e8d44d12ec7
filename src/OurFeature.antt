-- ===== src/OurFeature.antt =====
-- our_feature.h, storage/our_feature.cpp: statistics of a run of bytes. The floating-point numbers,
-- their operations and the two functions of the GSL are parameters. `Max` and `Min` keep a byte in a
-- `float`, which holds it exactly: here it is a number. `none` is a read past the end of the content.
pub mod Samples
pub mod Modes
mod Tests
use chunk_grouping.Prelude.{
  ℕ, zero, suc, ◌+◌, Bool, true, false, ◌==◌, ltb, leb, if◌then◌else◌, Option, none, some, ◌>>=◌,
  List, [], ◌∷◌, length, take, drop, get_elem?,
}

-- `Mode`
pub data Mode : Type 0 where
  average fangcha maximum minimum top_k entropy skewness kurtosis down_sample zero_cal : Mode

-- `FILE_SIZE`
abbrev pub file_size : ℕ
file_size = 8192

-- what the source uses of `float`, and of the GSL on `double`
pub record Floats (F : Type 0) : Type 0 where
  pub of_nat : ℕ → F
  pub add : F → F → F
  pub sub : F → F → F
  pub mul : F → F → F
  pub div : F → F → F
  pub log2 : F → F
  pub gsl_stats_skew : List ℕ → F
  pub gsl_stats_kurtosis : List ℕ → F

module _ {F : Type 0} (f : Floats F) where
  unfoldable pub sum_loop : F → List ℕ → F
  sum_loop sum [] = sum
  sum_loop sum (c ∷ content) = sum_loop (f.add sum (f.of_nat c)) content

  -- `Average`
  unfoldable pub average_of : List ℕ → F
  unfolding sum_loop
  average_of content = f.div (sum_loop (f.of_nat 0) content) (f.of_nat (length content))

  unfoldable pub square_loop : F → F → List ℕ → F
  square_loop mean sum [] = sum
  square_loop mean sum (c ∷ content) =
      let diff = f.sub (f.of_nat c) mean in square_loop mean (f.add sum (f.mul diff diff)) content

  -- `Fangcha`
  unfoldable pub fangcha_of : List ℕ → F
  unfolding average_of square_loop
  fangcha_of content =
      f.div (square_loop (average_of content) (f.of_nat 0) content) (f.of_nat (length content))

-- the loop of `Max`
unfoldable pub max_byte_loop : ℕ → List ℕ → ℕ
max_byte_loop max [] = max
max_byte_loop max (c ∷ content) = max_byte_loop (if ltb max c then c else max) content

-- `Max`
unfoldable pub max_of : List ℕ → ℕ
unfolding max_byte_loop
max_of content = max_byte_loop 0 content

-- the loop of `Min`
unfoldable pub min_byte_loop : ℕ → List ℕ → ℕ
min_byte_loop min [] = min
min_byte_loop min (c ∷ content) = min_byte_loop (if ltb c min then c else min) content

-- `Min`
unfoldable pub min_of : List ℕ → Option ℕ
unfolding min_byte_loop
min_of content = get_elem? content 0 >>= λ min. some (min_byte_loop min content)

-- `frequency[c]++` on a `std::map`, which is in the order of its keys
unfoldable pub count_byte : ℕ → List (ℕ × ℕ) → List (ℕ × ℕ)
count_byte c [] = (c, 1) ∷ []
count_byte c ((k, n) ∷ frequency) =
    let rest = count_byte c frequency in
    if c == k
    then (k, n + 1) ∷ frequency
    else if ltb c k
    then (c, 1) ∷ (k, n) ∷ frequency
    else (k, n) ∷ rest

unfoldable pub frequency_loop : List (ℕ × ℕ) → List ℕ → List (ℕ × ℕ)
unfolding count_byte
frequency_loop frequency [] = frequency
frequency_loop frequency (c ∷ content) = frequency_loop (count_byte c frequency) content

module _ {F : Type 0} (f : Floats F) where
  unfoldable pub entropy_loop : F → ℕ → List (ℕ × ℕ) → F
  entropy_loop h size [] = h
  entropy_loop h size ((k, n) ∷ frequency) =
      let p = f.div (f.of_nat n) (f.of_nat size) in
      entropy_loop (f.sub h (f.mul p (f.log2 p))) size frequency

  -- `Shannon_entropy`
  unfoldable pub shannon_entropy : List ℕ → F
  unfolding frequency_loop entropy_loop
  shannon_entropy content = entropy_loop (f.of_nat 0) (length content) (frequency_loop [] content)

-- the loop of `downsample` from `content[i]` on, with as many rounds at most as there are bytes
unfoldable pub downsample_loop : ℕ → List ℕ → ℕ → List ℕ
downsample_loop zero content factor = []
downsample_loop (suc fuel) [] factor = []
downsample_loop (suc fuel) (c ∷ content) factor =
    c ∷ downsample_loop fuel (drop factor (c ∷ content)) factor

-- `downsample`, for a factor above 0: with 0 the loop of the source does not end
unfoldable pub downsample : List ℕ → ℕ → List ℕ
unfolding downsample_loop
downsample content factor = downsample_loop (length content) content factor

-- the loop of `region_sample_max`
unfoldable pub region_loop : ℕ → List ℕ → ℕ → List ℕ
unfolding max_of
region_loop zero content region_size = []
region_loop (suc fuel) [] region_size = []
region_loop (suc fuel) (c ∷ content) region_size =
    max_of (take region_size (c ∷ content))
    ∷ region_loop fuel (drop region_size (c ∷ content)) region_size

-- `region_sample_max`, for a region size above 0
unfoldable pub region_sample_max : List ℕ → ℕ → List ℕ
unfolding region_loop
region_sample_max content region_size = region_loop (length content) content region_size

-- `zero_cnt`
unfoldable pub zero_loop : ℕ → List ℕ → ℕ
zero_loop zero_cnt [] = zero_cnt
zero_loop zero_cnt (c ∷ content) = zero_loop (if c == 0 then zero_cnt + 1 else zero_cnt) content

-- `temp[i] = content[i]`, for so many rounds from the `i`-th on
unfoldable pub copy_loop : ℕ → List ℕ → ℕ → Option (List ℕ)
copy_loop zero content i = some []
copy_loop (suc rounds) content i = do
  c ← get_elem? content i
  temp ← copy_loop rounds content (suc i)
  some (c ∷ temp)

-- `temp`, of `FILE_SIZE` bytes
unfoldable pub first_bytes : List ℕ → Option (List ℕ)
unfolding copy_loop
first_bytes content = copy_loop file_size content 0

-- `cal`
unfoldable pub cal : {F : Type 0} → Floats F → Mode → List ℕ → Option F
unfolding average_of fangcha_of max_of min_of shannon_entropy zero_loop first_bytes
cal f average content = some (average_of f content)
cal f fangcha content = some (fangcha_of f content)
cal f maximum content = some (f.of_nat (max_of content))
cal f minimum content = (min_of content >>= λ min. some (f.of_nat min))
cal f top_k content = (first_bytes content >>= λ temp. some (f.of_nat 0))
cal f entropy content = some (shannon_entropy f content)
cal f skewness content = (first_bytes content >>= λ temp. some (f.gsl_stats_skew temp))
cal f kurtosis content = (first_bytes content >>= λ temp. some (f.gsl_stats_kurtosis temp))
cal f down_sample content = some (f.of_nat 0)
cal f zero_cal content = some (f.div (f.of_nat (zero_loop 0 content)) (f.of_nat (length content)))
