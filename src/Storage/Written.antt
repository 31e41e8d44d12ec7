-- ===== src/Storage/Written.antt =====
-- A chunk that is written keeps the storage ready.
use chunk_grouping.Prelude.{
  ℕ, ◌+◌, ◌<◌, ◌^◌, ◌≡◌, refl, ap, ◌∙◌, inl, inr, List, [], ◌∷◌, ◌++◌, length,
  get_elem?-append_left, get_elem?-snoc, get_elem?-lt, arith,
}
use chunk_grouping.Cache.Lru.{Entries}
use chunk_grouping.Storage.{Storage, write_base_chunk, write_delta_chunk, write_chunk}
use chunk_grouping.Storage.Append.{IsWhole}
use chunk_grouping.Storage.Writes.{Write, base, delta, chunk_of, write, write-Stored}
use chunk_grouping.Storage.Cached.{Ready}

-- a write does not touch the cache
write_cache : (s : Storage) (w : Write) → (write s w).cache ≡ s.cache
unfolding write_base_chunk write_delta_chunk write_chunk
write_cache s (base c) = refl
write_cache s (delta c b) = refl

-- The storage after a write of a base or delta chunk: ready, with the bytes of the chunk behind the
-- others.
pub write-Ready :
    (s : Storage) (w : Write) (contents : List (List ℕ)) (es : Entries)
    → IsWhole (chunk_of w)
    → (chunk_of w).len < 2 ^ 16
    → length s.data_file.items + (chunk_of w).len < 2 ^ 64
    → Ready s contents es
    → Ready (write s w) (contents ++ (chunk_of w).buf ∷ []) es
      × (length (write s w).data_file.items ≡ length s.data_file.items + (chunk_of w).len)
write-Ready s w contents es whole short room r =
    let (st, size) = write-Stored s w contents whole short room r.stored in
    let same = write_cache s w in
    (
      record {
        stored = st;
        refines = rw same r.refines;
        coherent = λ k c f.
            let e = r.coherent k c f in
            get_elem?-append_left contents _ k (get_elem?-lt contents k c.buf e) ∙ e;
        start = rw same r.start;
        room = rw same r.room;
        short = λ i bytes e. elim (get_elem?-snoc contents (chunk_of w).buf bytes i e) [
          | inl (lt, old) ↦ r.short i bytes old
          | inr (at, new) ↦ omega (arith, ap length new, whole, short)
        ];
      },
      size,
    )
