-- ===== src/FastCdc/Step.antt =====
-- One call of `GetNextChunk`: it never reads past the mapping, and splits one chunk off what is
-- left of the file.
use chunk_grouping.Prelude.{
  ℕ, ◌+◌, ◌-◌, ◌^◌, ◌≤◌, ◌<◌, ◌≡◌, ◌≢◌, refl, sym, subst, ◌⊎◌, inl, inr, min, max, none, some, List,
  ◌++◌, length, take, drop, length-take, length-drop, drop-drop, take-append-take, append-nil,
  bit_and, u32, sub64, arith,
}
use native.Mathlib.Decide.{dec_le}
use chunk_grouping.Chunk.{Chunk, from_memory_ref}
use chunk_grouping.Gear.{gear_hash}
use chunk_grouping.Gear.Hash.{gear_hash-take}
use chunk_grouping.FastCdc.{FastCdc, get_next_chunk, emit, cut_size}
use chunk_grouping.FastCdc.Loops.{IsCut, Cuts, cut_loop-Cuts, min_loop_lem}

-- The bytes of the file that no chunk holds yet.
abbrev pub pending : FastCdc → List ℕ
pending c = take c.remaining_file_len c.file_read_ptr

-- The mapping holds the bytes that remain, and the configured sizes let a chunk have a byte.
pub record IsValid (c : FastCdc) : Type 0 where
  pub inside : c.remaining_file_len ≤ length c.file_read_ptr
  pub small : c.remaining_file_len < 2 ^ 64
  pub positive : 0 < max c.min_chunk_size c.max_chunk_size

-- What a call does where bytes remain.
pub record Splits (c : FastCdc) : Type 0 where
  pub next : FastCdc
  pub chunk : Chunk
  pub returns : get_next_chunk c ≡ some (next, some chunk)
  pub bytes : chunk.buf ++ pending next ≡ pending c
  pub len : chunk.len ≡ length chunk.buf
  pub remaining : next.remaining_file_len + chunk.len ≡ c.remaining_file_len
  pub id : chunk.id ≡ c.next_chunk_id
  pub next_id : next.next_chunk_id ≡ u32 (c.next_chunk_id + 1)
  pub min_kept : next.min_chunk_size ≡ c.min_chunk_size
  pub max_kept : next.max_chunk_size ≡ c.max_chunk_size
  pub inside : next.remaining_file_len ≤ length next.file_read_ptr
  pub nonempty : 0 < chunk.len
  pub upper : chunk.len ≤ max c.min_chunk_size c.max_chunk_size
  pub lower : (c.min_chunk_size ≤ chunk.len) ⊎ (next.remaining_file_len ≡ 0)

-- A chunk may end after `n` bytes: the fingerprint of the chunk so far passes the mask.
abbrev pub IsBoundary : FastCdc → ℕ → Type 0
IsBoundary c n = bit_and (gear_hash 0 (take n c.file_read_ptr)) c.mask ≡ 0

-- Where a chunk ends that does not take the last `min_chunk_size` bytes at once.
pub record EndsAt (c : FastCdc) (n : ℕ) : Type 0 where
  pub least : c.min_chunk_size ≤ n
  pub most : n ≤ max c.min_chunk_size (min c.remaining_file_len c.max_chunk_size)
  pub stops :
      (n ≡ max c.min_chunk_size (min c.remaining_file_len c.max_chunk_size)) ⊎ IsBoundary c n
  pub first : (m : ℕ) → c.min_chunk_size < m → m < n → ¬ IsBoundary c m

module _ (c : FastCdc) (v : IsValid c) where
  open v use {inside, small, positive}

  short-Splits : c.remaining_file_len ≢ 0 → c.remaining_file_len ≤ c.min_chunk_size → Splits c
  unfolding get_next_chunk
  short-Splits ne h = record {
    next = record c { next_chunk_id = u32 (c.next_chunk_id + 1); remaining_file_len = 0 };
    chunk = from_memory_ref c.file_read_ptr c.remaining_file_len c.next_chunk_id;
    returns = ground arith;
    bytes = append-nil _;
    len = omega (arith, length-take c.remaining_file_len c.file_read_ptr);
    remaining = omega arith;
    id = refl;
    next_id = refl;
    min_kept = refl;
    max_kept = refl;
    inside = omega arith;
    nonempty = omega arith;
    upper = omega arith;
    lower = inr refl;
  }

  abbrev rounds : ℕ
  rounds = min c.remaining_file_len c.max_chunk_size - c.min_chunk_size

  abbrev SecondLoop : Type 0
  SecondLoop =
      Cuts c.mask rounds (gear_hash 0 (take c.min_chunk_size c.file_read_ptr))
        (c.min_chunk_size + 1) (drop c.min_chunk_size c.file_read_ptr)

  long-Cuts : c.min_chunk_size < c.remaining_file_len → SecondLoop
  long-Cuts h =
      cut_loop-Cuts _ _ _ _ _ (omega arith)
        (omega (arith, length-drop c.min_chunk_size c.file_read_ptr))

  -- the bytes in the chunk
  abbrev total : SecondLoop → ℕ
  total s = c.min_chunk_size + s.k

  size-total : (s : SecondLoop) → cut_size s.out ≡ total s
  size-total s = omega (arith, s.size)

  long-returns :
      c.min_chunk_size < c.remaining_file_len
      → (s : SecondLoop)
      → get_next_chunk c ≡ some (emit c c.file_read_ptr (total s) (drop (total s) c.file_read_ptr))
  unfolding get_next_chunk
  long-returns h s = ground (
    arith,
    min_loop_lem c.min_chunk_size 0 c.file_read_ptr,
    s.returns,
    size-total s,
    s.ptr,
    drop-drop c.min_chunk_size s.k c.file_read_ptr,
  )

  long-Splits : c.min_chunk_size < c.remaining_file_len → SecondLoop → Splits c
  unfolding emit
  long-Splits h s = record {
    next = (emit c c.file_read_ptr (total s) (drop (total s) c.file_read_ptr)).0;
    chunk = from_memory_ref c.file_read_ptr (total s) c.next_chunk_id;
    returns = long-returns h s;
    bytes =
        take-append-take (total s) (sub64 c.remaining_file_len (total s)) c.remaining_file_len
          c.file_read_ptr (omega (arith, s.within));
    len = omega (arith, s.within, length-take (total s) c.file_read_ptr);
    remaining = omega (arith, s.within);
    id = refl;
    next_id = refl;
    min_kept = refl;
    max_kept = refl;
    inside = omega (arith, s.within, length-drop (total s) c.file_read_ptr);
    nonempty = omega (arith, s.moves);
    upper = omega (arith, s.within);
    lower = inl (omega arith);
  }

  -- The second loop goes on with the fingerprint of the first.
  abbrev StopsAt : ℕ → Type 0
  StopsAt =
      IsCut c.mask (gear_hash 0 (take c.min_chunk_size c.file_read_ptr))
        (drop c.min_chunk_size c.file_read_ptr)

  from_cut : (k : ℕ) → StopsAt k → IsBoundary c (c.min_chunk_size + k)
  from_cut k =
      subst (λ h. bit_and h c.mask ≡ 0) (gear_hash-take 0 c.min_chunk_size k c.file_read_ptr)

  to_cut : (m : ℕ) → c.min_chunk_size ≤ m → IsBoundary c m → StopsAt (m - c.min_chunk_size)
  to_cut m h b =
      let e : c.min_chunk_size + (m - c.min_chunk_size) ≡ m = omega arith in
      subst (λ h. bit_and h c.mask ≡ 0)
        (sym (gear_hash-take 0 c.min_chunk_size (m - c.min_chunk_size) c.file_read_ptr))
        (subst (λ n. IsBoundary c n) (sym e) b)

  long-EndsAt : c.min_chunk_size < c.remaining_file_len → (s : SecondLoop) → EndsAt c (total s)
  long-EndsAt h s = record {
    least = omega arith;
    most = omega (arith, s.within);
    stops = elim s.stops [ inl e ↦ inl (omega arith) | inr b ↦ inr (from_cut s.k b) ];
    first = λ m lo hi b.
        s.first (m - c.min_chunk_size) (omega arith) (omega arith) (to_cut m (omega arith) b);
  }

-- A call where bytes remain splits off one chunk: no read past the mapping, the bytes in order,
-- the next number, and a length in the configured range.
pub get_next_chunk-Splits : (c : FastCdc) → IsValid c → c.remaining_file_len ≢ 0 → Splits c
get_next_chunk-Splits c v ne = elim (dec_le c.remaining_file_len c.min_chunk_size) [
  | yes h ↦ short-Splits c v ne h
  | no h ↦ long-Splits c v (omega arith) (long-Cuts c v (omega arith))
]

-- A chunk ends at the first boundary of the fingerprint behind the minimum size, or at the maximum.
pub get_next_chunk-EndsAt :
    (c : FastCdc)
    → IsValid c
    → c.min_chunk_size < c.remaining_file_len
    → (r : FastCdc × Chunk) × (get_next_chunk c ≡ some (r.0, some r.1)) × EndsAt c r.1.len
unfolding long-Splits long-Cuts
get_next_chunk-EndsAt c v h =
    let s = long-Cuts c v h in
    let t = long-Splits c v h s in ((t.next, t.chunk), t.returns, long-EndsAt c v h s)

pub get_next_chunk_end :
    (c : FastCdc) → c.remaining_file_len ≡ 0 → get_next_chunk c ≡ some (c, none)
unfolding get_next_chunk
get_next_chunk_end c e = ground arith
