-- ===== src/MetaFile.antt =====
-- storage/file_meta.h: one line of text for each file, with its name and its first and last chunk.
-- A text is the list of its bytes. `>>` is the library's, in the classic locale: for a string it
-- skips white space and takes what is not; for a `uint32_t` it skips white space and reads a sign
-- and decimal digits. `none` is a member that was not set.
pub mod Scan
pub mod Search
pub mod Unfound
mod Tests
use chunk_grouping.Prelude.{
  ℕ, zero, suc, ◌+◌, ◌-◌, ◌*◌, ◌/◌, ◌%◌, ◌^◌, Bool, true, false, ◌==◌, ltb, leb, if◌then◌else◌,
  Option, none, some, ◌>>=◌, List, [], ◌∷◌, ◌++◌, length, u32,
}
use chunk_grouping.Compression.{FileMeta}

abbrev pub Text : Type 0
Text = List ℕ

-- '\n', ' ', '0', '-' and '+'
abbrev pub newline : ℕ
newline = 10

abbrev pub blank : ℕ
blank = 32

abbrev pub digit_zero : ℕ
digit_zero = 48

abbrev pub is_space : ℕ → Bool
is_space c = if c == 32 then true else if leb 9 c then leb c 13 else false

abbrev pub is_black : ℕ → Bool
is_black c = if is_space c then false else true

abbrev pub is_digit : ℕ → Bool
is_digit c = if leb 48 c then leb c 57 else false

abbrev pub in_line : ℕ → Bool
in_line c = if c == 10 then false else true

-- the first bytes that pass the test, and the others
unfoldable pub span : (ℕ → Bool) → Text → Text × Text
span p [] = ([], [])
span p (c ∷ cs) = let rest = span p cs in if p c then (c ∷ rest.0, rest.1) else ([], c ∷ cs)

-- `out << n`, on fuel for its digits
unfoldable pub decimal : ℕ → ℕ → Text
decimal zero n = []
decimal (suc fuel) n =
    let front = decimal fuel (n / 10) in
    if ltb n 10 then (digit_zero + n) ∷ [] else front ++ (digit_zero + n % 10) ∷ []

-- the line of `FileMetaWriter::Write`, less its end
unfoldable pub meta_line : Text → ℕ → ℕ → Text
meta_line file_name start_chunk_id end_chunk_id =
    file_name ++ (blank ∷ (decimal 10 start_chunk_id ++ (blank ∷ decimal 10 end_chunk_id)))

-- `FileMetaWriter::Write` on what the file has; `none` where `end_chunk_id` was not set
unfoldable pub write : Text → FileMeta Text → Option Text
unfolding meta_line
write out meta = do
  end_chunk_id ← meta.end_chunk_id
  some (out ++ (meta_line meta.file_name meta.start_chunk_id end_chunk_id ++ (newline ∷ [])))

-- what is behind the end of the line
abbrev pub behind : Text → Text
behind [] = []
behind (_ ∷ rest) = rest

-- `getline`: `none` at the end of the file
unfoldable pub getline : Text → Option (Text × Text)
unfolding span
getline [] = none
getline (c ∷ cs) = let (line, rest) = span in_line (c ∷ cs) in some (line, behind rest)

-- a string, where the white space before it is skipped
unfoldable pub word_at : Text → Option Text × Text
unfolding span
word_at [] = (none, [])
word_at (c ∷ cs) = let (word, rest) = span is_black (c ∷ cs) in (some word, rest)

-- `>>` on a string: `none` where no byte is left, which leaves the string as it was
unfoldable pub read_word : Text → Option Text × Text
unfolding span word_at
read_word text = word_at (span is_space text).1

-- the value of a row of digits
unfoldable pub value : ℕ → Text → ℕ
value acc [] = acc
value acc (d ∷ ds) = value (acc * 10 + (d - digit_zero)) ds

-- What `>>` on a `uint32_t` leaves: whether it succeeded, and the variable, where it was set.
pub record Number : Type 0 where
  pub good : Bool
  pub set : Option ℕ
  pub rest : Text

-- the digits, behind the sign
unfoldable pub read_digits : Bool → Text → Number
unfolding span value
read_digits negative text =
    let (digits, rest) = span is_digit text in
    let v = value 0 digits in
    if length digits == 0
    then record { good = false; set = some 0; rest = rest }
    else if leb (2 ^ 32) v
    then record { good = false; set = some (2 ^ 32 - 1); rest = rest }
    else record { good = true; set = some (if negative then u32 (2 ^ 32 - v) else v); rest = rest }

-- a number, where the white space before it is skipped
unfoldable pub number_at : Text → Number
unfolding read_digits
number_at [] = record { good = false; set = none; rest = [] }
number_at (c ∷ cs) =
    if c == 45
    then read_digits true cs
    else if c == 43
    then read_digits false cs
    else read_digits false (c ∷ cs)

-- `>>` on a `uint32_t`
unfoldable pub read_number : Text → Number
unfolding span number_at
read_number text = number_at (span is_space text).1

-- `meta` after `iss >> meta.file_name >> meta.start_chunk_id >> meta.end_chunk_id`, and whether all
-- of them succeeded
pub record LineMeta : Type 0 where
  pub good : Bool
  pub file_name : Text
  pub start_chunk_id : Option ℕ
  pub end_chunk_id : Option ℕ

-- the same from the third on, and from the second on
abbrev pub scan_end : Text → Option ℕ → Number → LineMeta
scan_end name start n = record {
  good = n.good;
  file_name = name;
  start_chunk_id = start;
  end_chunk_id = n.set;
}

unfoldable pub scan_numbers : Text → Number → LineMeta
unfolding read_number
scan_numbers name n =
    if n.good
    then scan_end name n.set (read_number n.rest)
    else record { good = false; file_name = name; start_chunk_id = n.set; end_chunk_id = none }

unfoldable pub scan_line : Option Text × Text → LineMeta
unfolding scan_numbers read_number
scan_line (none, rest) = record {
  good = false;
  file_name = [];
  start_chunk_id = none;
  end_chunk_id = none;
}
scan_line (some name, rest) = scan_numbers name (read_number rest)

unfoldable pub scan : Text → LineMeta
unfolding read_word scan_line
scan line = scan_line (read_word line)

-- equal texts
abbrev pub same_text : Text → Text → Bool
same_text [] [] = true
same_text [] (d ∷ ds) = false
same_text (c ∷ cs) [] = false
same_text (c ∷ cs) (d ∷ ds) = if c == d then same_text cs ds else false

-- the loop of `GetFileMetaByName` on fuel: the first line that is read completely and has the name;
-- the outer `none` is no fuel left
unfoldable pub find_line : ℕ → Text → Text → Option (Option LineMeta)
unfolding getline scan
find_line zero text file_name = none
find_line (suc fuel) text file_name = elim (getline text) [
  | none ↦ some none
  | some l ↦
      let rest = find_line fuel l.1 file_name in
      let meta = scan l.0 in
      if meta.good
      then (if same_text meta.file_name file_name then some (some meta) else rest)
      else rest
]

-- `GetFileMetaByName` on the file; each line has a byte of it at least
unfoldable pub get_file_meta_by_name : Text → Text → Option (Option LineMeta)
unfolding find_line
get_file_meta_by_name text file_name = find_line (suc (length text)) text file_name

-- `FileMetaReader::Next`, with what is left of the file
unfoldable pub next : Text → Option (LineMeta × Text)
unfolding getline scan
next text = do l ← getline text; some (scan l.0, l.1)
