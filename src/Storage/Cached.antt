-- ===== src/Storage/Cached.antt =====
-- `GetDeltaEncodedChunk` over the files and the cache together.
use chunk_grouping.Prelude.{
  ℕ, ◌≤◌, ◌<◌, ◌^◌, ◌≡◌, ◌≢◌, refl, sym, subst, ◌∙◌, ◌⊎◌, inl, inr, true, if◌then◌else◌, Option,
  none, some, List, [], ◌∷◌, length, get_elem?, arith,
}
use chunk_grouping.Chunk.{Chunk}
use chunk_grouping.Cache.{ChunkCache, chunk_cache}
use chunk_grouping.Cache.Start.{chunk_cache-Refines}
use chunk_grouping.Cache.Lru.{Entries, find, touched, drop_last, Refines}
use chunk_grouping.Cache.Get.{get-Refines}
use chunk_grouping.Cache.Insert.{add-Refines, fits}
use chunk_grouping.Storage.{Storage, storage, get_delta_encoded_chunk}
use chunk_grouping.Storage.Contents.{Stored, get_chunk_content-Stored}
use chunk_grouping.Storage.Coherent.{Coherent, find_here, Coherent-touched, Coherent-added}

-- The files hold `contents`, the cache implements `es`, whose chunks have the bytes that the files
-- hold under their numbers, and any one stored chunk fits in the cache.
pub record Ready (s : Storage) (contents : List (List ℕ)) (es : Entries) : Type 0 where
  pub stored : Stored s contents
  pub refines : Refines s.cache es
  pub coherent : Coherent contents es
  pub start : es ≡ [] → s.cache.current_memory ≡ 0
  pub room : 2 ^ 16 ≤ s.cache.max_memory_usage
  pub short : (i : ℕ) (bytes : List ℕ) → get_elem? contents i ≡ some bytes → length bytes < 2 ^ 16

-- the files do not depend on the cache
Stored-cache :
    (s : Storage) (c : ChunkCache) (contents : List (List ℕ))
    → Stored s contents
    → Stored (record s { cache = c }) contents
Stored-cache s c contents st = record {
  opened = record {
    data_end = st.opened.data_end;
    meta_end = st.opened.meta_end;
    small = st.opened.small;
  };
  count = st.count;
  holds = λ i bytes e.
      let h = st.holds i bytes e in
      record { meta = h.meta; found = h.found; inside = h.inside; points = h.points };
}

-- What `GetDeltaEncodedChunk` gives and leaves.
pub record Fetched (s : Storage) (contents : List (List ℕ)) (es : Entries) (chunk : Chunk)
    (base_chunk_id : ℕ) (bytes : List ℕ) : Type 0 where
  pub next : Storage
  pub now : Entries
  pub base : Chunk
  pub returns : get_delta_encoded_chunk s chunk base_chunk_id ≡ some (chunk, next)
  pub ready : Ready next contents now
  pub data_kept : next.data_file ≡ s.data_file
  pub meta_kept : next.meta_file ≡ s.meta_file
  pub cached : find base_chunk_id now ≡ some base
  pub base_bytes : base.buf ≡ bytes

-- a chunk has room in an empty cache
room_for :
    (c : ChunkCache) (es : Entries) (chunk : Chunk)
    → chunk.len < 2 ^ 16
    → 2 ^ 16 ≤ c.max_memory_usage
    → (es ≡ [] → c.current_memory ≡ 0)
    → (fits c chunk ≡ true) ⊎ (es ≢ [])
room_for c [] chunk short room start =
    let zero_used = start refl in let t : fits c chunk ≡ true = ground arith in inl t
room_for c (x ∷ es) chunk short room start = inr (λ e. cc)

module _ (s : Storage) (contents : List (List ℕ)) (es : Entries) (chunk : Chunk) (b : ℕ)
    (bytes : List ℕ) (r : Ready s contents es) (e : get_elem? contents b ≡ some bytes) where
  -- the base chunk is in the cache
  Fetched-hit : (c : Chunk) → find b es ≡ some c → Fetched s contents es chunk b bytes
  unfolding get_delta_encoded_chunk
  Fetched-hit c f =
      let g = get-Refines s.cache es b r.refines in
      let same : some c.buf ≡ some bytes = sym (r.coherent b c f) ∙ e in
      record {
        next = record s { cache = g.next };
        now = touched b es (find b es);
        base = c;
        returns = rw (g.returns, f) refl;
        ready = record {
          stored = Stored-cache s g.next contents r.stored;
          refines = g.refines;
          coherent = Coherent-touched contents es b r.coherent;
          start = rw f (λ e. cc);
          room = omega (arith, r.room, g.max_kept);
          short = r.short;
        };
        data_kept = refl;
        meta_kept = refl;
        cached = rw f (find_here b c c b _ refl refl);
        base_bytes = cc;
      }

  -- the base chunk is read from the files
  Fetched-miss : find b es ≡ none → Fetched s contents es chunk b bytes
  unfolding get_delta_encoded_chunk
  Fetched-miss f =
      let g = get-Refines s.cache es b r.refines in
      let s₁ = record s { cache = g.next } in
      let base : Chunk = record { buf = bytes; needs_to_free = true; len = length bytes; id = b } in
      let st = Stored-cache s g.next contents r.stored in
      let read = get_chunk_content-Stored s₁ contents b bytes st e in
      let kept : Refines g.next es = subst (λ x. Refines g.next (touched b es x)) f g.refines in
      let free =
        room_for g.next es base (r.short b bytes e) (omega (arith, r.room, g.max_kept))
          (λ z. g.memory_kept ∙ r.start z) in
      let a = add-Refines g.next es b base kept f (omega (arith, r.short b bytes e)) free in
      record {
        next = record s { cache = a.next };
        now = (b, base) ∷ (if fits g.next base then es else drop_last es);
        base = base;
        returns = rw (g.returns, f, read, a.returns) refl;
        ready = record {
          stored = Stored-cache s a.next contents r.stored;
          refines = a.refines;
          coherent = Coherent-added contents es b base (fits g.next base) e r.coherent;
          start = λ e. cc;
          room = omega (arith, r.room, g.max_kept, a.max_kept);
          short = r.short;
        };
        data_kept = refl;
        meta_kept = refl;
        cached = find_here b base base b _ refl refl;
        base_bytes = refl;
      }

-- On a storage that is ready, and for a base chunk that is stored, `GetDeltaEncodedChunk` returns
-- the chunk as it is and leaves the files as they were; the storage stays ready, and its cache then
-- has the base chunk, with the bytes that are stored.
pub get_delta_encoded_chunk-Ready :
    (s : Storage) (contents : List (List ℕ)) (es : Entries) (chunk : Chunk) (b : ℕ) (bytes : List ℕ)
    → Ready s contents es
    → get_elem? contents b ≡ some bytes
    → Fetched s contents es chunk b bytes
get_delta_encoded_chunk-Ready s contents es chunk b bytes r e = go (find b es) refl
  where
    go : (found : Option Chunk) → find b es ≡ found → Fetched s contents es chunk b bytes
    go none f = Fetched-miss s contents es chunk b bytes r e f
    go (some c) f = Fetched-hit s contents es chunk b bytes r e c f

-- Opened on empty files, the storage is ready with nothing stored.
pub storage-Ready : (n : ℕ) → 0 < n → n ≤ 2 ^ 43 → Ready (storage [] [] true n) [] []
unfolding storage chunk_cache
storage-Ready n some_memory h = record {
  stored = record {
    opened = record { data_end = refl; meta_end = refl; small = omega arith };
    count = refl;
    holds = λ i bytes e. cc;
  };
  refines = chunk_cache-Refines n some_memory h;
  coherent = λ k c e. cc;
  start = λ e. refl;
  room = omega arith;
  short = λ i bytes e. cc;
}
