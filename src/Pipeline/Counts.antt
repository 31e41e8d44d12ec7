-- ===== src/Pipeline/Counts.antt =====
-- Every chunk that is written is counted.
use chunk_grouping.Prelude.{
  ◌+◌, ◌≡◌, refl, subst, ◌>>=◌, if◌then◌else◌, Bool, true, false, ◌==◌, Option, none, some, u64,
}
use chunk_grouping.Storage.{
  base_chunk, delta_chunk, duplicate_chunk, write_duplicate_chunk, get_delta_encoded_chunk,
}
use chunk_grouping.Pipeline.{Context, Writer, write_context}

-- A result, if there is one, has counted one chunk more.
abbrev Counts : Writer → Option Writer → Type 0
Counts w none = Unit {0}
Counts w (some w') = w'.processed_chunk ≡ u64 (w.processed_chunk + 1)

bind-Counts :
    {A : Type 0} (w : Writer) (o : Option A) (f : A → Option Writer)
    → ((a : A) → Counts w (f a))
    → Counts w (o >>= f)
bind-Counts w none f h = tt
bind-Counts w (some a) f h = h a

if-Counts :
    (w : Writer) (b : Bool) (t e : Option Writer)
    → Counts w t
    → Counts w e
    → Counts w (if b then t else e)
if-Counts w true t e h k = h
if-Counts w false t e h k = k

write_context-Counts :
    {Float : Type 0} (w : Writer) (c : Context Float) → Counts w (write_context w c)
unfolding write_context
write_context-Counts w c =
    if-Counts w (c.chunk_type == duplicate_chunk) _ _
      (bind-Counts w c.base_chunk_id _
        (λ b. bind-Counts w (write_duplicate_chunk w.storage c.chunk b) _ (λ _. refl)))
      (if-Counts w (c.chunk_type == base_chunk) _ _ refl (
        if-Counts w (c.chunk_type == delta_chunk) _ _
          (bind-Counts w c.base_chunk_id _
            (λ b. bind-Counts w (get_delta_encoded_chunk w.storage c.chunk b) _ (λ _. refl)))
          tt))

pub write_context-processed_chunk :
    {Float : Type 0} (w w' : Writer) (c : Context Float)
    → write_context w c ≡ some w'
    → w'.processed_chunk ≡ u64 (w.processed_chunk + 1)
write_context-processed_chunk w w' c e = subst (Counts w) e (write_context-Counts w c)
