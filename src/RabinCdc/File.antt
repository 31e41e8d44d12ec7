-- ===== src/RabinCdc/File.antt =====
-- Chunking a whole file: the chunks are a first part of the file, in order; what is behind them is
-- nothing, or a tail that the loop lost.
use native.Mathlib.Decide.{ℕ_discrete, dec_le}
use chunk_grouping.Prelude.{
  ℕ, zero, suc, ◌+◌, ◌-◌, ◌<◌, ◌≡◌, ◌≢◌, refl, subst, subst₂, ◌⊎◌, inl, inr, min, max, some, none,
  List, [], ◌∷◌, ◌++◌, length, take, length-take, append_assoc, arith,
}
use chunk_grouping.Chunk.{Chunk, joined}
use chunk_grouping.FastCdc.File.{IsNumbered, IsSized}
use chunk_grouping.RabinCdc.{RabinCdc, get_next_chunk, all_chunks}
use chunk_grouping.RabinCdc.Loop.{slide_all}
use chunk_grouping.RabinCdc.Step.{
  pending, IsValid, Splits, Loses, get_next_chunk-cases, get_next_chunk_end, cuts-max,
}

pub record Chunked (fuel : ℕ) (c : RabinCdc) : Type 0 where
  pub last : RabinCdc
  pub chunks : List Chunk
  pub lost : List ℕ
  pub returns : all_chunks fuel c ≡ some (last, chunks)
  pub bytes : joined chunks ++ lost ≡ pending c
  pub tail : (lost ≡ []) ⊎ (length lost < c.max_chunk_size)
  pub left : last.remaining_file_len ≡ length lost
  pub numbered : IsNumbered c.next_chunk_id chunks
  pub sized :
      IsSized
        (min c.min_chunk_size c.max_chunk_size)
        (max c.min_chunk_size (max 1 c.max_chunk_size))
        chunks
  pub stop : c.remaining_file_len ≡ 0 → chunks ≡ []

all_chunks_step :
    (fuel : ℕ) (c c' last : RabinCdc) (chunk : Chunk) (chunks : List Chunk)
    → get_next_chunk c ≡ some (c', some chunk)
    → all_chunks fuel c' ≡ some (last, chunks)
    → all_chunks (suc fuel) c ≡ some (last, chunk ∷ chunks)
unfolding all_chunks
all_chunks_step fuel c c' last chunk chunks e f = rw (e, all_chunks) (rw f refl)

all_chunks_stop :
    (fuel : ℕ) (c c' : RabinCdc)
    → get_next_chunk c ≡ some (c', none)
    → all_chunks (suc fuel) c ≡ some (c', [])
unfolding all_chunks
all_chunks_stop fuel c c' e = rw (e, all_chunks) refl

next-IsValid : {c : RabinCdc} → IsValid c → (s : Splits c) → IsValid s.next
next-IsValid v s = record { inside = s.inside; small = omega (arith, s.remaining, v.small) }

-- A lost tail is shorter than the maximum, at which the loop would have cut.
Loses-lt :
    (c : RabinCdc) → Loses c → c.remaining_file_len ≢ 0 → c.remaining_file_len < c.max_chunk_size
Loses-lt c l ne = elim (dec_le c.max_chunk_size c.remaining_file_len) [
  | yes h ↦
      let last : ℕ = c.remaining_file_len - 1 in
      absurd (
        l.uncut last (omega arith) (
          cuts-max c (1 + last) (slide_all c.roll (take (suc last) c.file_read_ptr)) (omega arith)))
  | no h ↦ omega arith
]

-- With more fuel than bytes remain the loop over the chunks ends. The chunks and what was lost
-- behind them are what remained of the file.
pub all_chunks-Chunked :
    (fuel : ℕ) (c : RabinCdc) → c.remaining_file_len < fuel → IsValid c → Chunked fuel c
all_chunks-Chunked zero c h v = absurd (omega arith)
all_chunks-Chunked (suc fuel) c h v = elim (ℕ_discrete c.remaining_file_len 0) [
  | yes e ↦ record {
    last = c;
    chunks = [];
    lost = [];
    returns = all_chunks_stop fuel c c (get_next_chunk_end c e);
    bytes = rw e refl;
    tail = inl refl;
    left = e;
    numbered = tt;
    sized = tt;
    stop = λ _. refl;
  }
  | no ne ↦ elim (get_next_chunk-cases c v ne) [
    | inl s ↦
        let rest =
          all_chunks-Chunked fuel s.next (omega (arith, s.remaining, s.nonempty))
            (next-IsValid v s) in
        record {
          last = rest.last;
          chunks = s.chunk ∷ rest.chunks;
          lost = rest.lost;
          returns = all_chunks_step fuel c _ _ _ _ s.returns rest.returns;
          bytes = rw (append_assoc, rest.bytes) s.bytes;
          tail = subst (λ n. (rest.lost ≡ []) ⊎ (length rest.lost < n)) s.max_kept rest.tail;
          left = rest.left;
          numbered = (s.id, subst (λ n. IsNumbered n rest.chunks) s.next_id rest.numbered);
          sized = (
            s.len,
            s.nonempty,
            s.upper,
            elim s.lower [ inl l ↦ inl l | inr z ↦ inr (rest.stop z) ],
            subst₂ (λ mn mx. IsSized (min mn mx) (max mn (max 1 mx)) rest.chunks) s.min_kept
                s.max_kept rest.sized,
          );
          stop = λ e. absurd (ne e);
        }
    | inr l ↦ record {
      last = l.next;
      chunks = [];
      lost = pending c;
      returns = all_chunks_stop fuel c l.next l.returns;
      bytes = refl;
      tail = inr (omega (arith, Loses-lt c l ne, length-take c.remaining_file_len c.file_read_ptr));
      left = omega (arith, l.kept, v.inside, length-take c.remaining_file_len c.file_read_ptr);
      numbered = tt;
      sized = tt;
      stop = λ _. refl;
    }
  ]
]
