-- ===== src/OurFeature/Tests.antt =====
-- Statistics of a few bytes, with numbers in place of floating-point numbers.
use chunk_grouping.Prelude.{ℕ, ◌+◌, ◌-◌, ◌*◌, ◌/◌, ◌≡◌, List, [], ◌∷◌, length}
use chunk_grouping.OurFeature.{Floats, top_k, skewness, kurtosis, cal}
use chunk_grouping.OurFeature.Modes.{of_first_bytes, cal_first_bytes}

abbrev bytes : List ℕ
bytes = 3 ∷ 1 ∷ 4 ∷ 1 ∷ 5 ∷ []

abbrev naturals : Floats ℕ
naturals = record {
  of_nat = λ n. n;
  add = λ a b. a + b;
  sub = λ a b. a - b;
  mul = λ a b. a * b;
  div = λ a b. a / b;
  log2 = λ a. a;
  gsl_stats_skew = λ xs. length xs;
  gsl_stats_kurtosis = λ xs. length xs;
}

cal_first_bytes_example :
    (cal naturals skewness bytes ≡ of_first_bytes length bytes)
    × (cal naturals kurtosis bytes ≡ of_first_bytes length bytes)
    × (cal naturals top_k bytes ≡ of_first_bytes (λ _. 0) bytes)
cal_first_bytes_example = cal_first_bytes naturals bytes
