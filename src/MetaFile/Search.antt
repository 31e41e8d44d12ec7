-- ===== src/MetaFile/Search.antt =====
-- `GetFileMetaByName` on a meta file that was written.
use chunk_grouping.Prelude.{
  ℕ, zero, suc, ◌≤◌, ◌<◌, ◌^◌, ◌≡◌, refl, ap, sym, ◌∙◌, inl, inr, true, false, Bool-cases, ◌==◌,
  if◌then◌else◌, Option, none, some, ◌>>=◌, List, [], ◌∷◌, ◌++◌, append_assoc, append-nil, length,
  length-append, arith,
}
use chunk_grouping.Compression.{FileMeta}
use chunk_grouping.MetaFile.{
  Text, newline, is_black, is_digit, in_line, decimal, meta_line, write, behind, getline, LineMeta,
  scan, same_text, find_line, get_file_meta_by_name, next,
}
use chunk_grouping.MetaFile.Scan.{
  All, All-append, All-map, span_stop, span-All, IsWord, decimal-All, scan-meta_line,
}

-- A meta that can be written and read: a name of one word, and two numbers.
pub record IsWritable (m : FileMeta Text) : Type 0 where
  pub last : ℕ
  pub set : m.end_chunk_id ≡ some last
  pub word : IsWord m.file_name
  pub start_small : m.start_chunk_id < 2 ^ 32
  pub last_small : last < 2 ^ 32

abbrev pub AllWritable : List (FileMeta Text) → Type 0
AllWritable [] = Unit {0}
AllWritable (m ∷ ms) = IsWritable m × AllWritable ms

-- the file after these metas are written
abbrev pub write_all : Text → List (FileMeta Text) → Option Text
write_all out [] = some out
write_all out (m ∷ ms) = do out' ← write out m; write_all out' ms

-- the first meta of a name
abbrev pub first_named : Text → List (FileMeta Text) → Option LineMeta
first_named name [] = none
first_named name (m ∷ ms) =
    if same_text m.file_name name
    then some (record {
      good = true;
      file_name = m.file_name;
      start_chunk_id = some m.start_chunk_id;
      end_chunk_id = m.end_chunk_id;
    })
    else first_named name ms

-- the lines of these metas
abbrev texts : (ms : List (FileMeta Text)) → AllWritable ms → Text
texts [] a = []
texts (m ∷ ms) (w, a) = meta_line m.file_name m.start_chunk_id w.last ++ (newline ∷ texts ms a)

black_in_line : (c : ℕ) → is_black c ≡ true → in_line c ≡ true
black_in_line c e = elim (Bool-cases (c == 10)) [
  | inl t ↦ let same : c ≡ 10 = ground arith in let clash : is_black c ≡ false = rw same refl in cc
  | inr f ↦ rw f refl
]

digit_in_line : (c : ℕ) → is_digit c ≡ true → in_line c ≡ true
digit_in_line c e = ground arith

line-All :
    (name : Text) (start last : ℕ) → All is_black name → All in_line (meta_line name start last)
unfolding meta_line
line-All name start last a =
    All-append in_line name _ (All-map is_black in_line name black_in_line a)
      (refl, All-append in_line (decimal 10 start) _ (digits start) (refl, digits last))
  where
    digits : (n : ℕ) → All in_line (decimal 10 n)
    digits n = All-map is_digit in_line (decimal 10 n) digit_in_line (decimal-All 10 n)

getline_lem :
    (line rest : Text) → All in_line line → getline (line ++ (newline ∷ rest)) ≡ some (line, rest)
unfolding getline
getline_lem [] rest a =
    ap (λ (r : Text × Text). some (r.0, behind r.1)) (span_stop in_line newline rest refl)
getline_lem (c ∷ cs) rest a =
    ap (λ (r : Text × Text). some (r.0, behind r.1))
      (span-All in_line (c ∷ cs) (newline ∷ rest) a refl)

write_all_lem :
    (out : Text) (ms : List (FileMeta Text)) (a : AllWritable ms)
    → write_all out ms ≡ some (out ++ texts ms a)
unfolding write
write_all_lem out [] a = ap some (sym (append-nil out))
write_all_lem out (m ∷ ms) (w, a) =
    let line = meta_line m.file_name m.start_chunk_id w.last in
    rw w.set (write_all_lem (out ++ (line ++ (newline ∷ []))) ms a)
    ∙ ap some (
        append_assoc out (line ++ (newline ∷ [])) (texts ms a)
        ∙ ap (◌++◌ out) (append_assoc line (newline ∷ []) (texts ms a)))

find_line_step :
    (fuel : ℕ) (line rest name : Text)
    → All in_line line
    → (scan line).good ≡ true
    → find_line (suc fuel) (line ++ (newline ∷ rest)) name ≡ (
        if same_text (scan line).file_name name
        then some (some (scan line))
        else find_line fuel rest name)
unfolding find_line
find_line_step fuel line rest name a good = rw (find_line, getline_lem line rest a) (rw good refl)

find_line-texts :
    (fuel : ℕ) (ms : List (FileMeta Text)) (a : AllWritable ms) (name : Text)
    → length ms < fuel
    → find_line fuel (texts ms a) name ≡ some (first_named name ms)
unfolding find_line getline
find_line-texts zero ms a name h = absurd (omega arith)
find_line-texts (suc fuel) [] a name h = refl
find_line-texts (suc fuel) (m ∷ ms) (w, a) name h =
    let line = meta_line m.file_name m.start_chunk_id w.last in
    let read =
      scan-meta_line m.file_name m.start_chunk_id w.last w.word w.start_small w.last_small in
    find_line_step fuel line (texts ms a) name
      (line-All m.file_name m.start_chunk_id w.last w.word.1) (ap (λ (l : LineMeta). l.good) read)
    ∙ rw (read, find_line-texts fuel ms a name (omega arith))
        (elim (Bool-cases (same_text m.file_name name)) [
          | inl t ↦ rw (t, w.set) refl
          | inr f ↦ rw f refl
        ])

-- a line has a byte at least
length-texts : (ms : List (FileMeta Text)) (a : AllWritable ms) → length ms ≤ length (texts ms a)
length-texts [] a = omega arith
length-texts (m ∷ ms) (w, a) =
    let line = meta_line m.file_name m.start_chunk_id w.last in
    omega (arith, length-append line (newline ∷ texts ms a), length-texts ms a)

-- Metas with a name of one word and numbers below 2 ^ 32 can be written one after the other, and
-- then `GetFileMetaByName` gives, for any name, the first of them that has the name, as it was
-- written, or none.
pub get_file_meta_by_name-write_all :
    (ms : List (FileMeta Text)) (name : Text)
    → AllWritable ms
    → (text : Text) × (write_all [] ms ≡ some text)
      × (get_file_meta_by_name text name ≡ some (first_named name ms))
unfolding get_file_meta_by_name
get_file_meta_by_name-write_all ms name a = (
  texts ms a,
  write_all_lem [] ms a,
  find_line-texts (suc (length (texts ms a))) ms a name (omega (arith, length-texts ms a)),
)

-- `FileMetaReader::Next` gives the meta that was written first, and leaves the others.
pub next-write :
    (m : FileMeta Text) (rest : Text) (w : IsWritable m)
    → (text : Text) × (write [] m ≡ some text)
      × (next (text ++ rest)
          ≡ some (
            record {
              good = true;
              file_name = m.file_name;
              start_chunk_id = some m.start_chunk_id;
              end_chunk_id = m.end_chunk_id;
            },
            rest,
          ))
unfolding write next
next-write m rest w =
    let line = meta_line m.file_name m.start_chunk_id w.last in
    let read =
      scan-meta_line m.file_name m.start_chunk_id w.last w.word w.start_small w.last_small in
    let found =
      ap getline (append_assoc line (newline ∷ []) rest)
      ∙ getline_lem line rest (line-All m.file_name m.start_chunk_id w.last w.word.1) in
    (line ++ (newline ∷ []), rw w.set refl, rw (found, read, w.set) refl)
