-- ===== src/MetaFile/Scan.antt =====
-- A line of the meta file that was written is read back.
use chunk_grouping.Prelude.{
  ℕ, zero, suc, ◌+◌, ◌-◌, ◌*◌, ◌/◌, ◌%◌, ◌<◌, ◌^◌, ◌≡◌, ◌≢◌, refl, ap, sym, ◌∙◌, inl, inr, Bool,
  true, false, Bool-cases, ◌==◌, ltb, leb, some, [], ◌∷◌, ◌++◌, append-nil, length, length-append,
  arith,
}
use chunk_grouping.MetaFile.{
  Text, blank, digit_zero, is_space, is_black, is_digit, span, decimal, meta_line, word_at,
  read_word, value, Number, read_digits, number_at, read_number, scan_end, scan_numbers, scan_line,
  scan,
}

-- Every byte passes the test.
abbrev pub All : (ℕ → Bool) → Text → Type 0
All p [] = Unit {0}
All p (c ∷ cs) = (p c ≡ true) × All p cs

pub All-append : (p : ℕ → Bool) (xs ys : Text) → All p xs → All p ys → All p (xs ++ ys)
All-append p [] ys a b = b
All-append p (x ∷ xs) ys a b = (a.0, All-append p xs ys a.1 b)

pub All-map :
    (p q : ℕ → Bool) (xs : Text) → ((c : ℕ) → p c ≡ true → q c ≡ true) → All p xs → All q xs
All-map p q [] f a = tt
All-map p q (x ∷ xs) f a = (f x a.0, All-map p q xs f a.1)

module _ (p : ℕ → Bool) where
  pub span_take :
      (c : ℕ) (cs : Text) → p c ≡ true → span p (c ∷ cs) ≡ (c ∷ (span p cs).0, (span p cs).1)
  unfolding span
  span_take c cs e = rw e refl

  pub span_stop : (c : ℕ) (cs : Text) → p c ≡ false → span p (c ∷ cs) ≡ ([], c ∷ cs)
  unfolding span
  span_stop c cs e = rw e refl

  -- The text goes on with a byte that does not pass, or ends.
  abbrev pub IsStop : Text → Type 0
  IsStop [] = Unit {0}
  IsStop (c ∷ cs) = p c ≡ false

  pub span-All : (xs ys : Text) → All p xs → IsStop ys → span p (xs ++ ys) ≡ (xs, ys)
  unfolding span
  span-All [] [] a s = refl
  span-All [] (y ∷ ys) a s = span_stop y ys s
  span-All (x ∷ xs) ys a s =
      span_take x (xs ++ ys) a.0 ∙ ap (λ (r : Text × Text). (x ∷ r.0, r.1)) (span-All xs ys a.1 s)

-- the numbers with at most so many digits
abbrev limit : ℕ → ℕ
limit zero = 1
limit (suc k) = 10 * limit k

value-append : (acc : ℕ) (xs ys : Text) → value acc (xs ++ ys) ≡ value (value acc xs) ys
unfolding value
value-append acc [] ys = refl
value-append acc (x ∷ xs) ys = value-append (acc * 10 + (x - digit_zero)) xs ys

digit : (n : ℕ) → n < 10 → is_digit (digit_zero + n) ≡ true
digit n h = ground arith

module _ (fuel n : ℕ) where
  decimal_short : ltb n 10 ≡ true → decimal (suc fuel) n ≡ (digit_zero + n) ∷ []
  unfolding decimal
  decimal_short e = rw (decimal, e) refl

  decimal_long :
      ltb n 10 ≡ false → decimal (suc fuel) n ≡ decimal fuel (n / 10) ++ (digit_zero + n % 10) ∷ []
  unfolding decimal
  decimal_long e = rw (decimal, e) refl

pub decimal-All : (fuel n : ℕ) → All is_digit (decimal fuel n)
unfolding decimal
decimal-All zero n = tt
decimal-All (suc fuel) n = elim (Bool-cases (ltb n 10)) [
  | inl t ↦ rw (decimal_short fuel n t) (digit n (ground arith), tt)
  | inr f ↦ rw (decimal_long fuel n f) (
      All-append is_digit (decimal fuel (n / 10)) _ (decimal-All fuel (n / 10))
        (digit (n % 10) (omega arith), tt))
]

pub decimal-value : (fuel n : ℕ) → n < limit fuel → value 0 (decimal fuel n) ≡ n
unfolding value decimal
decimal-value zero n h = omega arith
decimal-value (suc fuel) n h = elim (Bool-cases (ltb n 10)) [
  | inl t ↦ rw (decimal_short fuel n t) (omega arith)
  | inr f ↦
      let front = decimal-value fuel (n / 10) (omega arith) in
      rw (decimal_long fuel n f, value-append 0 (decimal fuel (n / 10)) _, front) (omega arith)
]

decimal-cons : (fuel n : ℕ) → decimal (suc fuel) n ≢ []
decimal-cons fuel n e = elim (Bool-cases (ltb n 10)) [
  | inl t ↦ let clash = sym (decimal_short fuel n t) ∙ e in cc
  | inr f ↦
      let size = ap length (sym (decimal_long fuel n f) ∙ e) in
      omega (arith, size, length-append (decimal fuel (n / 10)) ((digit_zero + n % 10) ∷ []))
]

-- `>>` on a row of digits
read_number_digits :
    (ds tail : Text)
    → ds ≢ []
    → All is_digit ds
    → IsStop is_digit tail
    → value 0 ds < 2 ^ 32
    → read_number (ds ++ tail) ≡ record { good = true; set = some (value 0 ds); rest = tail }
unfolding read_number number_at read_digits
read_number_digits [] tail ne a s h = absurd (ne refl)
read_number_digits (d ∷ ds) tail ne a s h =
    let black : is_space d ≡ false = ground (arith, a.0) in
    let no_minus : (d == 45) ≡ false = ground (arith, a.0) in
    let no_plus : (d == 43) ≡ false = ground (arith, a.0) in
    let some_digit : (length (d ∷ ds) == 0) ≡ false = ground arith in
    let small : leb (2 ^ 32) (value 0 (d ∷ ds)) ≡ false = ground arith in
    ap (λ (r : Text × Text). number_at r.1) (span_stop is_space d (ds ++ tail) black)
    ∙ rw (no_minus, no_plus, span-All is_digit (d ∷ ds) tail a s, some_digit, small) refl

-- `>>` on a number that was written
read_number-decimal :
    (n : ℕ) (tail : Text)
    → n < 2 ^ 32
    → IsStop is_digit tail
    → read_number (decimal 10 n ++ tail) ≡ record { good = true; set = some n; rest = tail }
read_number-decimal n tail h s =
    let v = decimal-value 10 n (omega arith) in
    read_number_digits (decimal 10 n) tail (decimal-cons 9 n) (decimal-All 10 n) s
      (omega (arith, v))
    ∙ ap (λ k. record { good = true; set = some k; rest = tail }) v

read_number-blank : (text : Text) → read_number (blank ∷ text) ≡ read_number text
unfolding read_number span
read_number-blank text = refl

-- a name that `>>` reads as one word
abbrev pub IsWord : Text → Type 0
IsWord name = (name ≢ []) × All is_black name

black_not_space : (c : ℕ) → is_black c ≡ true → is_space c ≡ false
black_not_space c e = elim (Bool-cases (is_space c)) [
  | inl t ↦ let clash : is_black c ≡ false = rw t refl in cc
  | inr f ↦ f
]

read_word-IsWord :
    (name tail : Text)
    → IsWord name
    → IsStop is_black tail
    → read_word (name ++ tail) ≡ (some name, tail)
unfolding read_word word_at
read_word-IsWord [] tail w s = absurd (w.0 refl)
read_word-IsWord (c ∷ cs) tail w s =
    ap (λ (r : Text × Text). word_at r.1)
      (span_stop is_space c (cs ++ tail) (black_not_space c w.1.0))
    ∙ ap (λ (r : Text × Text). (some r.0, r.1)) (span-All is_black (c ∷ cs) tail w.1 s)

-- A line with a name that is one word, and two numbers below 2 ^ 32, is read as it was written.
pub scan-meta_line :
    (name : Text) (start last : ℕ)
    → IsWord name
    → start < 2 ^ 32
    → last < 2 ^ 32
    → scan (meta_line name start last) ≡ record {
      good = true;
      file_name = name;
      start_chunk_id = some start;
      end_chunk_id = some last;
    }
unfolding scan meta_line scan_line scan_numbers
scan-meta_line name start last w hs hl =
    let numbers = decimal 10 start ++ blank ∷ decimal 10 last in
    let word = read_word-IsWord name (blank ∷ numbers) w refl in
    let first =
      read_number-blank numbers ∙ read_number-decimal start (blank ∷ decimal 10 last) hs refl in
    let second =
      read_number-blank (decimal 10 last)
      ∙ ap read_number (sym (append-nil (decimal 10 last)))
      ∙ read_number-decimal last [] hl tt in
    let opened : scan (meta_line name start last)
        ≡ scan_line (read_word (name ++ blank ∷ numbers)) =
      refl in
    let ending : scan_numbers name
          (record { good = true; set = some start; rest = blank ∷ decimal 10 last })
        ≡ scan_end name (some start) (read_number (blank ∷ decimal 10 last)) =
      refl in
    opened
    ∙ ap scan_line word
    ∙ ap (scan_numbers name) first
    ∙ ending
    ∙ ap (λ (n : Number). scan_end name (some start) n) second
