-- ===== src/Encoder/Tests.antt =====
-- An encoder over a library that stores the input as it is.
use chunk_grouping.Prelude.{sym, refl, true, [], ◌∷◌, arith}
use chunk_grouping.Chunk.{Chunk, deep_copy}
use chunk_grouping.Encoder.{Xd3, XDelta, BufferRef, overwrite, deref, encode}
use chunk_grouping.Encoder.Lossless.{IsLossless, Decoded, decode-encode}

abbrev plain : Xd3
plain = record {
  encode_memory = λ input source avail_size. (0, input);
  decode_memory = λ input source avail_size. (0, input);
}

plain-IsLossless : IsLossless plain
plain-IsLossless input source out avail_size e fits = sym e

abbrev base : Chunk
base = record { buf = 3 ∷ 1 ∷ []; needs_to_free = true; len = 2; id = 4 }

abbrev chunk : Chunk
chunk = record { buf = 3 ∷ 1 ∷ 5 ∷ []; needs_to_free = true; len = 3; id = 5 }

abbrev empty : XDelta
empty = record { chunk_buffer = 0 ∷ 0 ∷ 0 ∷ 0 ∷ [] }

abbrev answer : BufferRef
answer = record { len = 3; id = 5 }

decode-encode_example :
    Decoded plain empty base
      (deep_copy (deref (overwrite empty (3 ∷ 1 ∷ 5 ∷ [])) answer))
      (3 ∷ 1 ∷ 5 ∷ [])
      5
unfolding encode
decode-encode_example =
    decode-encode plain empty empty base chunk (overwrite empty (3 ∷ 1 ∷ 5 ∷ [])) answer
      plain-IsLossless (omega arith) refl
