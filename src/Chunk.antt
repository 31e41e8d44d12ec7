-- ===== src/Chunk.antt =====
-- chunk/chunk.h: a run of bytes with its length and its number.
-- A buffer is the list of its bytes. `length_` is an `int`: the model keeps the length as a number,
-- which is the same below 2 ^ 31.
use chunk_grouping.Prelude.{
  ℕ, Bool, true, false, List, [], ◌∷◌, ◌++◌, append_assoc, ◌≡◌, refl, sym, ap, ◌∙◌, take,
}

pub record Chunk : Type 0 where
  pub buf : List ℕ
  pub needs_to_free : Bool
  pub len : ℕ
  pub id : ℕ

-- `FromMemory`: a copy of `size` bytes from `start` on
unfoldable pub from_memory : List ℕ → ℕ → ℕ → Chunk
from_memory start size id = record {
  buf = take size start;
  needs_to_free = true;
  len = size;
  id = id;
}

-- `FromMemoryRef`: the same bytes, with no copy and no ownership
unfoldable pub from_memory_ref : List ℕ → ℕ → ℕ → Chunk
from_memory_ref start size id = record {
  buf = take size start;
  needs_to_free = false;
  len = size;
  id = id;
}

-- `DeepCopy`
unfoldable pub deep_copy : Chunk → Chunk
unfolding from_memory
deep_copy c = from_memory c.buf c.len c.id

-- the bytes of a list of chunks, in order
abbrev pub joined : List Chunk → List ℕ
joined [] = []
joined (c ∷ cs) = c.buf ++ joined cs

pub joined-append : (xs ys : List Chunk) → joined (xs ++ ys) ≡ joined xs ++ joined ys
joined-append [] ys = refl
joined-append (c ∷ cs) ys =
    ap (◌++◌ c.buf) (joined-append cs ys) ∙ sym (append_assoc c.buf (joined cs) (joined ys))
