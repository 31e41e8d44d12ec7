-- ===== src/Encoder/Lossless.antt =====
-- A chunk that was encoded, copied and decoded has its bytes again.
use chunk_grouping.Prelude.{
  ℕ, ◌==◌, ◌≤◌, ◌≡◌, refl, ap, ap₂, sym, ◌∙◌, inl, inr, false, Bool-cases, none, some, List, length,
  take, drop, take_all, length-take, take-append_length, arith,
}
use chunk_grouping.Chunk.{Chunk, from_memory, from_memory_ref, deep_copy}
use chunk_grouping.Encoder.{
  Xd3, buffer_size, XDelta, BufferRef, bytes_of, overwrite, deref, encode, decode,
}

-- What xdelta3 promises: a delta that was made without an error decodes against the same source to
-- the input, without an error, where there is room for it.
abbrev pub IsLossless : Xd3 → Type 0
IsLossless xd3 =
    (input source out : List ℕ) (avail_size : ℕ)
    → xd3.encode_memory input source avail_size ≡ (0, out)
    → length input ≤ avail_size
    → xd3.decode_memory out source avail_size ≡ (0, input)

-- the reference to what was written last
bytes_of-deref :
    (x : XDelta) (out : List ℕ) (id : ℕ)
    → bytes_of (deref (overwrite x out) (record { len = length out; id = id })) ≡ out
unfolding deref from_memory_ref
bytes_of-deref x out id =
    let written = take-append_length (length out) out (drop (length out) x.chunk_buffer) refl in
    ap (take (length out)) written ∙ take_all (length out) out (omega arith)

bytes_of-deep_copy : (c : Chunk) → bytes_of (deep_copy c) ≡ bytes_of c
unfolding deep_copy from_memory
bytes_of-deep_copy c = take_all c.len (take c.len c.buf) (omega (arith, length-take c.len c.buf))

module _ (xd3 : Xd3) (x : XDelta) (base chunk : Chunk) where
  encode_good :
      (out : List ℕ)
      → xd3.encode_memory (bytes_of chunk) (bytes_of base) buffer_size ≡ (0, out)
      → encode xd3 x base chunk ≡ some (overwrite x out, record { len = length out; id = chunk.id })
  unfolding encode
  encode_good out e = rw e refl

  decode_good :
      (out : List ℕ)
      → xd3.decode_memory (bytes_of chunk) (bytes_of base) buffer_size ≡ (0, out)
      → decode xd3 x base chunk ≡ some (overwrite x out, record { len = length out; id = chunk.id })
  unfolding decode
  decode_good out e = rw e refl

  encode_bad :
      (code : ℕ) (out : List ℕ)
      → xd3.encode_memory (bytes_of chunk) (bytes_of base) buffer_size ≡ (code, out)
      → (code == 0) ≡ false
      → encode xd3 x base chunk ≡ none
  unfolding encode
  encode_bad code out e f = rw (e, f) refl

-- A decoded chunk: its bytes and its number.
pub record Decoded (xd3 : Xd3) (y : XDelta) (base delta : Chunk) (bytes : List ℕ) (id : ℕ)
    : Type 0 where
  pub next : XDelta
  pub ref : BufferRef
  pub returns : decode xd3 y base delta ≡ some (next, ref)
  pub same_bytes : bytes_of (deref next ref) ≡ bytes
  pub same_id : ref.id ≡ id

-- With a library that keeps its promise: where `encode` succeeds for a chunk that fits in the buffer,
-- `decode` of a deep copy of its answer against the same base, by this encoder or any other, succeeds
-- and gives the bytes and the number of the chunk.
pub decode-encode :
    (xd3 : Xd3) (x y : XDelta) (base chunk : Chunk) (x' : XDelta) (r : BufferRef)
    → IsLossless xd3
    → length (bytes_of chunk) ≤ buffer_size
    → encode xd3 x base chunk ≡ some (x', r)
    → Decoded xd3 y base (deep_copy (deref x' r)) (bytes_of chunk) chunk.id
unfolding deref from_memory_ref deep_copy from_memory
decode-encode xd3 x y base chunk x' r lossless fits e =
    go (xd3.encode_memory (bytes_of chunk) (bytes_of base) buffer_size) refl
  where
    finish :
        (out : List ℕ)
        → xd3.encode_memory (bytes_of chunk) (bytes_of base) buffer_size ≡ (0, out)
        → XDelta.chunk_buffer x' ≡ (overwrite x out).chunk_buffer
        → r.len ≡ length out
        → r.id ≡ chunk.id
        → Decoded xd3 y base (deep_copy (deref x' r)) (bytes_of chunk) chunk.id
    finish out good buffer size number =
        let delta = deep_copy (deref x' r) in
        let kept : bytes_of delta ≡ out =
          bytes_of-deep_copy (deref x' r)
          ∙ ap₂ (λ (b : List ℕ) (n : ℕ). take n (take n b)) buffer size
          ∙ bytes_of-deref x out chunk.id in
        let answer =
          ap (λ (d : List ℕ). xd3.decode_memory d (bytes_of base) buffer_size) kept
          ∙ lossless (bytes_of chunk) (bytes_of base) out buffer_size good fits in
        record {
          next = overwrite y (bytes_of chunk);
          ref = record { len = length (bytes_of chunk); id = r.id };
          returns = decode_good xd3 y base delta (bytes_of chunk) answer;
          same_bytes = bytes_of-deref y (bytes_of chunk) r.id;
          same_id = number;
        }

    go :
        (a : ℕ × List ℕ)
        → xd3.encode_memory (bytes_of chunk) (bytes_of base) buffer_size ≡ a
        → Decoded xd3 y base (deep_copy (deref x' r)) (bytes_of chunk) chunk.id
    go (code, out) f = elim (Bool-cases (code == 0)) [
      | inl t ↦
          let zero_code : code ≡ 0 = ground arith in
          let good = f ∙ ap (λ k. (k, out)) zero_code in
          let both = sym e ∙ encode_good xd3 x base chunk out good in
          let at : (x', r) ≡ (overwrite x out, record { len = length out; id = chunk.id }) = cc in
          finish out good (ap (λ (p : XDelta × BufferRef). p.0.chunk_buffer) at)
            (ap (λ (p : XDelta × BufferRef). p.1.len) at)
            (ap (λ (p : XDelta × BufferRef). p.1.id) at)
      | inr b ↦ let stops = sym e ∙ encode_bad xd3 x base chunk code out f b in cc
    ]
