-- ===== src/Compression/Reads.antt =====
-- Files read with FastCDC: the chunks that the calls of `GetNextChunk` give for a file.
use chunk_grouping.Prelude.{
  ℕ, zero, suc, ◌+◌, ◌≤◌, ◌<◌, ◌^◌, ◌≡◌, refl, sym, ap, subst, ◌∙◌, ◌⊎◌, inl, inr, ◌>>=◌, max,
  take_all, Option, none, some, List, [], ◌∷◌, length, length-append, arith,
}
use chunk_grouping.Chunk.{Chunk, joined}
use chunk_grouping.FastCdc.{FastCdc, FileSystem, all_chunks}
use chunk_grouping.FastCdc
use chunk_grouping.FastCdc.Step.{get_next_chunk_end}
use chunk_grouping.FastCdc.File.{
  IsNumbered, IsSized, all_chunks-Chunked, opened, reinit_with_file_lem, reinit_with_file_none,
}
use chunk_grouping.Compression.{fast_cdc_chunker}
use chunk_grouping.Compression.Laws.{Yields, Storable}

-- a chunk in front of the rest of the loop
abbrev joined_on : Chunk → Option (FastCdc × List Chunk) → Option (FastCdc × List Chunk)
joined_on chunk rest = do r ← rest; some (r.0, chunk ∷ r.1)

-- the loop with no chunk
abbrev ended : FastCdc → Option (FastCdc × List Chunk)
ended t = some (t, [])

module _ {Name : Type 0} (files : FileSystem Name) where
  -- a chunk, and the rest of the loop
  Yields-chunk :
      (c t last : FastCdc) (chunk : Chunk) (chunks : List Chunk)
      (rest : Option (FastCdc × List Chunk))
      → FastCdc.get_next_chunk c ≡ some (t, some chunk)
      → joined_on chunk rest ≡ some (last, chunks)
      → ((more : List Chunk)
          → rest ≡ some (last, more)
          → Yields (fast_cdc_chunker files) t more last)
      → Yields (fast_cdc_chunker files) c chunks last
  Yields-chunk c t last chunk chunks none g e ih = cc
  Yields-chunk c t last chunk [] (some (l, more)) g e ih = cc
  Yields-chunk c t last chunk (x ∷ xs) (some (l, more)) g e ih =
      let same : chunk ≡ x = cc in
      let at : l ≡ last = cc in
      let tail : more ≡ xs = cc in
      (
        t,
        g ∙ ap (λ y. some (t, some y)) same,
        subst (λ cs. Yields (fast_cdc_chunker files) t cs last) tail
            (ih more (ap (λ k. some (k, more)) at)),
      )

  Yields-end :
      (c t last : FastCdc) (chunks : List Chunk)
      → FastCdc.get_next_chunk c ≡ some (t, none)
      → ended t ≡ some (last, chunks)
      → Yields (fast_cdc_chunker files) c chunks last
  Yields-end c t last [] g e = let at : t ≡ last = cc in g ∙ ap (λ k. some (k, none)) at
  Yields-end c t last (x ∷ xs) g e = cc

  -- The chunker gives what its loop collects.
  all_chunks-Yields :
      (fuel : ℕ) (c last : FastCdc) (chunks : List Chunk)
      → all_chunks fuel c ≡ some (last, chunks)
      → Yields (fast_cdc_chunker files) c chunks last
  unfolding all_chunks
  all_chunks-Yields zero c last chunks e = cc
  all_chunks-Yields (suc fuel) c last chunks e =
      go (FastCdc.get_next_chunk c) refl (all_chunks-Yields fuel)
    where
      go :
          (found : Option (FastCdc × Option Chunk))
          → FastCdc.get_next_chunk c ≡ found
          → ((t l : FastCdc) (more : List Chunk)
              → all_chunks fuel t ≡ some (l, more)
              → Yields (fast_cdc_chunker files) t more l)
          → Yields (fast_cdc_chunker files) c chunks last
      go none g ih = let stops : all_chunks (suc fuel) c ≡ none = rw (all_chunks, g) refl in cc
      go (some (t, none)) g ih =
          let stops : all_chunks (suc fuel) c ≡ some (t, []) = rw (all_chunks, g) refl in
          Yields-end c t last chunks g (sym stops ∙ e)
      go (some (t, some chunk)) g ih =
          let goes : all_chunks (suc fuel) c ≡ joined_on chunk (all_chunks fuel t) =
            rw (all_chunks, g) refl in
          Yields-chunk c t last chunk chunks (all_chunks fuel t) g (sym goes ∙ e)
            (λ more. ih t last more)

pub length-joined :
    (lo hi : ℕ) (chunks : List Chunk)
    → IsSized lo hi chunks
    → length chunks ≤ length (joined chunks)
length-joined lo hi [] s = omega arith
length-joined lo hi (c ∷ cs) (whole, pos, upper, lower, s) =
    omega (arith, whole, pos, length-joined lo hi cs s, length-append c.buf (joined cs))

pub Storable-IsSized :
    (n used lo hi : ℕ) (chunks : List Chunk)
    → IsNumbered n chunks
    → IsSized lo hi chunks
    → hi < 2 ^ 16
    → n + length chunks < 2 ^ 32
    → used + length (joined chunks) < 2 ^ 64
    → Storable n used chunks
Storable-IsSized n used lo hi [] num s small few room = tt
Storable-IsSized n used lo hi (c ∷ cs) (id, num) (whole, pos, upper, lower, s) small few room =
    let sum = length-append c.buf (joined cs) in
    (
      id,
      whole,
      omega (arith, upper, small),
      omega (arith, room, sum, whole),
      Storable-IsSized (suc n) (used + c.len) lo hi cs
          (subst (λ m. IsNumbered m cs) (omega (arith, few)) num) s small (omega (arith, few))
          (omega (arith, room, sum, whole)),
    )

abbrev pub bytes_of : Option (List ℕ) → List ℕ
bytes_of none = []
bytes_of (some bytes) = bytes

-- What `ReinitWithFile` and the calls behind it give: the chunks of the file, and in the end a
-- chunker that has none left and goes on with the next number.
pub record Read {Name : Type 0} (files : FileSystem Name) (c : FastCdc) (name : Name) : Type 0 where
  pub chunks : List Chunk
  pub last : FastCdc
  pub yields :
      Yields
        (fast_cdc_chunker files)
        ((fast_cdc_chunker files).reinit_with_file c name).0
        chunks
        last
  pub whole : joined chunks ≡ bytes_of (files name)
  pub numbered : IsNumbered c.next_chunk_id chunks
  pub sized : IsSized c.min_chunk_size (max c.min_chunk_size c.max_chunk_size) chunks
  pub drained : last.remaining_file_len ≡ 0
  pub next_id :
      c.next_chunk_id + length chunks < 2 ^ 32
      → last.next_chunk_id ≡ c.next_chunk_id + length chunks
  pub min_kept : last.min_chunk_size ≡ c.min_chunk_size
  pub max_kept : last.max_chunk_size ≡ c.max_chunk_size

module _ {Name : Type 0} (files : FileSystem Name) (c : FastCdc) (name : Name) where
  pub opened-Read :
      (b : ℕ) (bytes : List ℕ)
      → files name ≡ some (b ∷ bytes)
      → length (b ∷ bytes) < 2 ^ 64
      → 0 < max c.min_chunk_size c.max_chunk_size
      → Read files c name
  opened-Read b bytes found small positive =
      let start = opened c (b ∷ bytes) in
      let run =
        all_chunks-Chunked (suc (length (b ∷ bytes))) start (omega arith)
          (record { inside = omega arith; small = small; positive = positive }) in
      record {
        chunks = run.chunks;
        last = run.last;
        yields =
            rw (reinit_with_file_lem files c name b bytes found)
              (all_chunks-Yields files _ start run.last run.chunks run.returns);
        whole = rw found (run.bytes ∙ take_all (length (b ∷ bytes)) (b ∷ bytes) (omega arith));
        numbered = run.numbered;
        sized = run.sized;
        drained = run.drained;
        next_id = run.next_id;
        min_kept = run.min_kept;
        max_kept = run.max_kept;
      }

  -- a file that is missing or empty, where the chunker has none left of the file before
  missing-Read :
      (files name ≡ none) ⊎ (files name ≡ some []) → c.remaining_file_len ≡ 0 → Read files c name
  missing-Read e z =
      let start = record c { file = record { mapped = [] } } in
      record {
        chunks = [];
        last = start;
        yields = rw (reinit_with_file_none files c name e) (get_next_chunk_end start z);
        whole = elim e [ inl m ↦ rw m refl | inr m ↦ rw m refl ];
        numbered = tt;
        sized = tt;
        drained = z;
        next_id = λ few. omega arith;
        min_kept = refl;
        max_kept = refl;
      }

  -- Any file, where the chunker has none left of the file before.
  pub any-Read :
      c.remaining_file_len ≡ 0
      → length (bytes_of (files name)) < 2 ^ 64
      → 0 < max c.min_chunk_size c.max_chunk_size
      → Read files c name
  any-Read z small positive = go (files name) refl small
    where
      go :
          (found : Option (List ℕ))
          → files name ≡ found
          → length (bytes_of found) < 2 ^ 64
          → Read files c name
      go none e small = missing-Read (inl e) z
      go (some []) e small = missing-Read (inr e) z
      go (some (b ∷ bytes)) e small = opened-Read b bytes e small positive
