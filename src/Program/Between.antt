-- ===== src/Program/Between.antt =====
-- main.cpp: what holds between two files of a walk, and what some files leave.
use chunk_grouping.Prelude.{
  ℕ, suc, ◌+◌, ◌≤◌, ◌<◌, ◌^◌, ◌≡◌, refl, sym, ap, ◌∙◌, max, if◌then◌else◌, Option, none, some, List,
  [], ◌∷◌, ◌++◌, append_assoc, map, length, length-append, arith,
}
use chunk_grouping.Chunk.{Chunk, joined}
use chunk_grouping.FastCdc.{FastCdc, FileSystem}
use chunk_grouping.Cache.Lru.{Entries}
use chunk_grouping.Storage.Based.{Based}
use chunk_grouping.Storage.Cached.{Ready}
use chunk_grouping.Compression.{FileMeta, DeltaCompression}
use chunk_grouping.Compression.Laws.{buf_of}
use chunk_grouping.Compression.Reads.{Read, bytes_of}
use chunk_grouping.Program.{Entry}

-- the regular files of a walk, and their bytes one after the other
abbrev pub regular_files : {Name : Type 0} → List (Entry Name) → List Name
regular_files [] = []
regular_files (entry ∷ entries) =
    if entry.is_regular_file then entry.path ∷ regular_files entries else regular_files entries

abbrev pub bytes_of_all : {Name : Type 0} → FileSystem Name → List Name → List ℕ
bytes_of_all files [] = []
bytes_of_all files (name ∷ names) = bytes_of (files name) ++ bytes_of_all files names

abbrev pub name_of : {Name : Type 0} → FileMeta Name → Name
name_of m = m.file_name

-- the stored byte strings, one after the other
abbrev pub all_bytes : List (List ℕ) → List ℕ
all_bytes [] = []
all_bytes (bytes ∷ contents) = bytes ++ all_bytes contents

pub all_bytes-buf_of :
    (contents : List (List ℕ)) (chunks : List Chunk)
    → all_bytes (contents ++ map buf_of chunks) ≡ all_bytes contents ++ joined chunks
all_bytes-buf_of [] [] = refl
all_bytes-buf_of [] (c ∷ cs) = ap (◌++◌ c.buf) (all_bytes-buf_of [] cs)
all_bytes-buf_of (bytes ∷ contents) cs =
    ap (◌++◌ bytes) (all_bytes-buf_of contents cs)
    ∙ sym (append_assoc bytes (all_bytes contents) (joined cs))

pub length-buf_of : (chunks : List Chunk) → length (map buf_of chunks) ≡ length chunks
length-buf_of [] = refl
length-buf_of (c ∷ cs) = ap suc (length-buf_of cs)

-- A chunker that has none left of a file and goes on with number `n`; its chunks have a byte and are
-- below 2 ^ 16.
pub record IsBetween (n : ℕ) (c : FastCdc) : Type 0 where
  pub idle : c.remaining_file_len ≡ 0
  pub numbered : c.next_chunk_id ≡ n
  pub positive : 0 < max c.min_chunk_size c.max_chunk_size
  pub small : max c.min_chunk_size c.max_chunk_size < 2 ^ 16

pub Read-IsBetween :
    {Name : Type 0} (files : FileSystem Name) (c : FastCdc) (name : Name) (n m : ℕ)
    → (read : Read files c name) → IsBetween n c
    → n + length read.chunks < 2 ^ 32
    → m ≡ n + length read.chunks
    → IsBetween m read.last
Read-IsBetween files c name n m read b few e = record {
  idle = read.drained;
  numbered = omega (arith, read.next_id (omega (arith, b.numbered)), b.numbered);
  positive = rw (read.min_kept, read.max_kept) b.positive;
  small = rw (read.min_kept, read.max_kept) b.small;
}

module _ {Name I : Type 0} (Of : List ℕ → I → Type 0) where
  -- Between two files: the storage, its records, the index and the chunker are in step.
  pub record InStep (d : DeltaCompression Name FastCdc I) (contents : List (List ℕ)) : Type 0 where
    pub now : Entries
    pub bases : List ℕ
    pub ready : Ready d.storage contents now
    pub based : Based d.storage.meta_file.items bases
    pub indexed : Of bases d.index
    pub between : IsBetween (length contents) d.chunker

  -- What the files with these names and these bytes leave.
  pub record Walked (result : Option (DeltaCompression Name FastCdc I))
      (d : DeltaCompression Name FastCdc I) (contents : List (List ℕ)) (names : List Name)
      (bytes : List ℕ) : Type 0 where
    pub next : DeltaCompression Name FastCdc I
    pub stored : List (List ℕ)
    pub returns : result ≡ some next
    pub in_step : InStep next stored
    pub whole : all_bytes stored ≡ all_bytes contents ++ bytes
    pub few : length stored ≤ length contents + length bytes
    pub used : length next.storage.data_file.items ≡ length d.storage.data_file.items + length bytes
    pub metas : map name_of next.file_metas ≡ map name_of d.file_metas ++ names

  -- the files of one entry, then those of the others
  pub Walked-join :
      (go_on : DeltaCompression Name FastCdc I → Option (DeltaCompression Name FastCdc I))
      (result : Option (DeltaCompression Name FastCdc I)) (d : DeltaCompression Name FastCdc I)
      (contents : List (List ℕ)) (ns names : List Name) (bs bytes : List ℕ)
      → (w : Walked result d contents ns bs) → Walked (go_on w.next) w.next w.stored names bytes
      → Walked
          (elim result [ none ↦ none | some next ↦ go_on next ])
          d
          contents
          (ns ++ names)
          (bs ++ bytes)
  Walked-join go_on result d contents ns names bs bytes w v = record {
    next = v.next;
    stored = v.stored;
    returns = rw w.returns v.returns;
    in_step = v.in_step;
    whole = v.whole ∙ ap (λ xs. xs ++ bytes) w.whole ∙ append_assoc (all_bytes contents) bs bytes;
    few = omega (arith, v.few, w.few, length-append bs bytes);
    used = omega (arith, v.used, w.used, length-append bs bytes);
    metas =
        v.metas ∙ ap (λ xs. xs ++ names) w.metas ∙ append_assoc (map name_of d.file_metas) ns names;
  }
