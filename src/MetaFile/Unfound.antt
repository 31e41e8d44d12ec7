-- ===== src/MetaFile/Unfound.antt =====
-- What `GetFileMetaByName` can find: names without white space.
use chunk_grouping.Prelude.{
  ℕ, zero, suc, ◌≤◌, ◌<◌, ◌≡◌, refl, ap, sym, subst, ◌∙◌, inl, inr, Bool, true, false, Bool-cases,
  ◌==◌, Option, none, some, [], ◌∷◌, length, arith,
}
use chunk_grouping.MetaFile.{
  Text, is_space, is_black, in_line, span, behind, getline, word_at, read_word, Number, read_number,
  scan_numbers, scan_line, scan, same_text, find_line, get_file_meta_by_name,
}
use chunk_grouping.MetaFile.Scan.{All, span_take, span_stop}

span-fst : (p : ℕ → Bool) (text : Text) → All p (span p text).0
unfolding span
span-fst p [] = tt
span-fst p (c ∷ cs) = elim (Bool-cases (p c)) [
  | inl t ↦ rw (span_take p c cs t) (t, span-fst p cs)
  | inr f ↦ rw (span_stop p c cs f) tt
]

length-span : (p : ℕ → Bool) (text : Text) → length (span p text).1 ≤ length text
unfolding span
length-span p [] = omega arith
length-span p (c ∷ cs) = elim (Bool-cases (p c)) [
  | inl t ↦ rw (span_take p c cs t) (omega (arith, length-span p cs))
  | inr f ↦ rw (span_stop p c cs f) (omega arith)
]

abbrev WordRead : Option Text × Text → Type 0
WordRead (none, rest) = Unit {0}
WordRead (some word, rest) = All is_black word

word_at-WordRead : (text : Text) → WordRead (word_at text)
unfolding word_at
word_at-WordRead [] = tt
word_at-WordRead (c ∷ cs) = span-fst is_black (c ∷ cs)

scan_numbers-name : (name : Text) (n : Number) → (scan_numbers name n).file_name ≡ name
unfolding scan_numbers
scan_numbers-name name n = elim (Bool-cases n.good) [ inl t ↦ rw t refl | inr f ↦ rw f refl ]

scan_line-black : (r : Option Text × Text) → WordRead r → All is_black (scan_line r).file_name
unfolding scan_line
scan_line-black (none, rest) w = tt
scan_line-black (some word, rest) w =
    subst (All is_black) (sym (scan_numbers-name word (read_number rest))) w

scan-black : (line : Text) → All is_black (scan line).file_name
unfolding scan read_word
scan-black line =
    scan_line-black (word_at (span is_space line).1) (word_at-WordRead (span is_space line).1)

same_text-All : (p : ℕ → Bool) (xs ys : Text) → same_text xs ys ≡ true → All p xs → All p ys
same_text-All p [] [] e a = tt
same_text-All p [] (y ∷ ys) e a = cc
same_text-All p (x ∷ xs) [] e a = cc
same_text-All p (x ∷ xs) (y ∷ ys) e a = elim (Bool-cases (x == y)) [
  | inl t ↦
      let here : same_text (x ∷ xs) (y ∷ ys) ≡ same_text xs ys = rw t refl in
      let same : x ≡ y = ground arith in
      (ap p (sym same) ∙ a.0, same_text-All p xs ys (sym here ∙ e) a.1)
  | inr f ↦ let here : same_text (x ∷ xs) (y ∷ ys) ≡ false = rw f refl in cc
]

length-behind : (text : Text) → length (behind text) ≤ length text
length-behind [] = omega arith
length-behind (c ∷ cs) = omega arith

getline-lt :
    (c : ℕ) (cs : Text)
    → (l : Text × Text) × (getline (c ∷ cs) ≡ some l) × (length l.1 < length (c ∷ cs))
unfolding getline
getline-lt c cs = elim (Bool-cases (in_line c)) [
  | inl t ↦ (
    (c ∷ (span in_line cs).0, behind (span in_line cs).1),
    ap (λ (r : Text × Text). some (r.0, behind r.1)) (span_take in_line c cs t),
    omega (arith, length-span in_line cs, length-behind (span in_line cs).1),
  )
  | inr f ↦ (
    ([], cs),
    ap (λ (r : Text × Text). some (r.0, behind r.1)) (span_stop in_line c cs f),
    omega arith,
  )
]

-- a line that does not have the name is passed over
passed :
    (fuel : ℕ) (text name : Text) (l : Text × Text)
    → getline text ≡ some l
    → same_text (scan l.0).file_name name ≡ false
    → find_line (suc fuel) text name ≡ find_line fuel l.1 name
unfolding find_line
passed fuel text name l e f =
    rw (find_line, e)
      (rw f (elim (Bool-cases (scan l.0).good) [ inl t ↦ rw t refl | inr g ↦ rw g refl ]))

module _ (name : Text) (bad : All is_black name → ⊥) where
  other_name : (line : Text) → same_text (scan line).file_name name ≡ false
  other_name line = elim (Bool-cases (same_text (scan line).file_name name)) [
    | inl t ↦ absurd (bad (same_text-All is_black (scan line).file_name name t (scan-black line)))
    | inr f ↦ f
  ]

  find_line-none :
      (fuel : ℕ) (text : Text) → length text < fuel → find_line fuel text name ≡ some none
  unfolding find_line getline
  find_line-none zero text h = absurd (omega arith)
  find_line-none (suc fuel) [] h = refl
  find_line-none (suc fuel) (c ∷ cs) h =
      let (l, e, shorter) = getline-lt c cs in
      passed fuel (c ∷ cs) name l e (other_name l.0)
      ∙ find_line-none fuel l.1 (omega (arith, shorter))

-- `GetFileMetaByName` finds no file whose name has white space in it, whatever the meta file holds.
pub get_file_meta_by_name-unfound :
    (text name : Text) → ¬ All is_black name → get_file_meta_by_name text name ≡ some none
unfolding get_file_meta_by_name
get_file_meta_by_name-unfound text name bad =
    find_line-none name bad (suc (length text)) text (omega arith)
