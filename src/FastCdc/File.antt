-- ===== src/FastCdc/File.antt =====
-- Chunking a whole file: the chunks are the file, in order, numbered in sequence, each of a size in
-- the configured range.
use chunk_grouping.Prelude.{
  ℕ, zero, suc, ◌+◌, ◌≤◌, ◌<◌, ◌^◌, ◌≡◌, refl, subst, subst₂, ◌∙◌, ◌⊎◌, inl, inr, max, none, some,
  true, false, List, [], ◌∷◌, length, take_all, u32, arith,
}
use native.Mathlib.Decide.{ℕ_discrete}
use chunk_grouping.Chunk.{Chunk, joined}
use chunk_grouping.FastCdc.{
  FastCdc, FileSystem, map_file, reinit_with_file, get_next_chunk, all_chunks,
}
use chunk_grouping.FastCdc.Step.{
  pending, IsValid, Splits, get_next_chunk-Splits, get_next_chunk_end,
}

-- Chunk numbers count up from `n`, round 2 ^ 32.
abbrev pub IsNumbered : ℕ → List Chunk → Type 0
IsNumbered n [] = Unit {0}
IsNumbered n (c ∷ cs) = (c.id ≡ n) × IsNumbered (u32 (n + 1)) cs

-- Every chunk has a byte and at most `hi`, and at least `lo` unless it is the last.
abbrev pub IsSized : ℕ → ℕ → List Chunk → Type 0
IsSized lo hi [] = Unit {0}
IsSized lo hi (c ∷ cs) =
    (c.len ≡ length c.buf)
    × (0 < c.len)
    × (c.len ≤ hi)
    × ((lo ≤ c.len) ⊎ (cs ≡ []))
    × IsSized lo hi cs

pub record Chunked (fuel : ℕ) (c : FastCdc) : Type 0 where
  pub last : FastCdc
  pub chunks : List Chunk
  pub returns : all_chunks fuel c ≡ some (last, chunks)
  pub bytes : joined chunks ≡ pending c
  pub numbered : IsNumbered c.next_chunk_id chunks
  pub sized : IsSized c.min_chunk_size (max c.min_chunk_size c.max_chunk_size) chunks
  pub drained : last.remaining_file_len ≡ 0
  pub stop : c.remaining_file_len ≡ 0 → chunks ≡ []
  pub next_id :
      c.next_chunk_id + length chunks < 2 ^ 32
      → last.next_chunk_id ≡ c.next_chunk_id + length chunks
  pub min_kept : last.min_chunk_size ≡ c.min_chunk_size
  pub max_kept : last.max_chunk_size ≡ c.max_chunk_size

pub next-IsValid : {c : FastCdc} → IsValid c → (s : Splits c) → IsValid s.next
next-IsValid v s = record {
  inside = s.inside;
  small = omega (arith, s.remaining, v.small);
  positive = rw (s.min_kept, s.max_kept) v.positive;
}

all_chunks_step :
    (fuel : ℕ) (c c' last : FastCdc) (chunk : Chunk) (chunks : List Chunk)
    → get_next_chunk c ≡ some (c', some chunk)
    → all_chunks fuel c' ≡ some (last, chunks)
    → all_chunks (suc fuel) c ≡ some (last, chunk ∷ chunks)
unfolding all_chunks
all_chunks_step fuel c c' last chunk chunks e f = rw (e, all_chunks) (rw f refl)

-- More fuel than bytes remain is enough, and the chunks are what remained of the file.
pub all_chunks-Chunked :
    (fuel : ℕ) (c : FastCdc) → c.remaining_file_len < fuel → IsValid c → Chunked fuel c
unfolding all_chunks
all_chunks-Chunked zero c h v = absurd (omega arith)
all_chunks-Chunked (suc fuel) c h v = elim (ℕ_discrete c.remaining_file_len 0) [
  | yes e ↦ record {
    last = c;
    chunks = [];
    returns = rw (get_next_chunk_end c e, all_chunks);
    bytes = rw e refl;
    numbered = tt;
    sized = tt;
    drained = e;
    stop = λ _. refl;
    next_id = λ few. omega arith;
    min_kept = refl;
    max_kept = refl;
  }
  | no ne ↦
      let s = get_next_chunk-Splits c v ne in
      let rest =
        all_chunks-Chunked fuel s.next (omega (arith, s.remaining, s.nonempty))
          (next-IsValid v s) in
      record {
        last = rest.last;
        chunks = s.chunk ∷ rest.chunks;
        returns = all_chunks_step fuel c _ _ _ _ s.returns rest.returns;
        bytes = rw rest.bytes s.bytes;
        numbered = (s.id, subst (λ n. IsNumbered n rest.chunks) s.next_id rest.numbered);
        sized = (
          s.len,
          s.nonempty,
          s.upper,
          elim s.lower [ inl l ↦ inl l | inr z ↦ inr (rest.stop z) ],
          subst₂ (λ lo hi. IsSized lo (max lo hi) rest.chunks) s.min_kept s.max_kept rest.sized,
        );
        drained = rest.drained;
        stop = λ e. absurd (ne e);
        next_id = λ few. omega (arith, s.next_id, rest.next_id (omega (arith, s.next_id)));
        min_kept = rest.min_kept ∙ s.min_kept;
        max_kept = rest.max_kept ∙ s.max_kept;
      }
]

-- the chunker that stands at the start of a mapped file
abbrev pub opened : FastCdc → List ℕ → FastCdc
opened c bytes = record c {
  file = record { mapped = bytes };
  file_read_ptr = bytes;
  remaining_file_len = length bytes;
}

module _ {ℓ} {Name : Type ℓ} (files : FileSystem Name) (c : FastCdc) (name : Name) where
  pub reinit_with_file_lem :
      (b : ℕ) (bytes : List ℕ)
      → files name ≡ some (b ∷ bytes)
      → reinit_with_file files c name ≡ (opened c (b ∷ bytes), true)
  unfolding reinit_with_file
  reinit_with_file_lem b bytes found = rw (found, map_file) (ground arith)

  pub reinit_with_file_none :
      (files name ≡ none) ⊎ (files name ≡ some [])
      → reinit_with_file files c name ≡ (record c { file = record { mapped = [] } }, false)
  unfolding reinit_with_file
  reinit_with_file_none (inl e) = rw (e, map_file) (ground arith)
  reinit_with_file_none (inr e) = rw (e, map_file) (ground arith)

-- The chunks of a file, read after `ReinitWithFile` with more fuel than it has bytes, put together
-- are the file; they are numbered on from `next_chunk_id`, and sized within the configured range.
pub reinit_with_file-all_chunks {ℓ} :
    {Name : Type ℓ} (files : FileSystem Name) (c : FastCdc) (name : Name) (b : ℕ) (bytes : List ℕ)
    (fuel : ℕ)
    → files name ≡ some (b ∷ bytes)
    → length (b ∷ bytes) < 2 ^ 64
    → 0 < max c.min_chunk_size c.max_chunk_size
    → length (b ∷ bytes) < fuel
    → (r : FastCdc × List Chunk) × (all_chunks fuel (reinit_with_file files c name).0 ≡ some r)
      × (joined r.1 ≡ b ∷ bytes)
      × IsNumbered c.next_chunk_id r.1
      × IsSized c.min_chunk_size (max c.min_chunk_size c.max_chunk_size) r.1
reinit_with_file-all_chunks files c name b bytes fuel found small positive h =
    let run =
      all_chunks-Chunked fuel (opened c (b ∷ bytes)) h
        (record { inside = omega arith; small = small; positive = positive }) in
    (
      (run.last, run.chunks),
      rw (reinit_with_file_lem files c name b bytes found) run.returns,
      run.bytes ∙ take_all (length (b ∷ bytes)) (b ∷ bytes) (omega arith),
      run.numbered,
      run.sized,
    )
