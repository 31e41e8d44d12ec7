-- ===== src/Cache/Insert.antt =====
-- `add` as a whole. A cache that counts less memory than its limit evicts at most one chunk.
use chunk_grouping.Prelude.{
  ℕ, zero, suc, ◌+◌, ◌≤◌, ◌<◌, ◌^◌, ◌≡◌, ◌≢◌, refl, sym, ap, subst, ◌∙◌, ◌⊎◌, Bool, true, false,
  ltb, leb, if◌then◌else◌, Bool-cases, inl, inr, none, some, List, [], ◌∷◌, ◌++◌, u64, arith,
}
use chunk_grouping.Chunk.{Chunk}
use chunk_grouping.Cache.{ChunkCache, evict, make_room, add}
use chunk_grouping.Cache.Chain.{Cell, number, Absent, Absent-append}
use chunk_grouping.Cache.Lru.{
  Entries, find, drop_last, entries, IsCache, Refines, Place, missing, at, place, last_cell,
  entries-drop_last,
}
use chunk_grouping.Cache.Add.{evicted, with_node, put_front}

make_room_fits :
    (fuel : ℕ) (c : ChunkCache) (len : ℕ)
    → u64 (c.current_memory + len) < c.max_memory_usage
    → make_room (suc fuel) c len ≡ some c
unfolding make_room
make_room_fits fuel c len h =
    let e : leb c.max_memory_usage (u64 (c.current_memory + len)) ≡ false = ground arith in
    rw e refl

make_room_full :
    (fuel : ℕ) (c d : ChunkCache) (len : ℕ)
    → fuel ≢ 0
    → c.max_memory_usage ≤ u64 (c.current_memory + len)
    → evict c len ≡ some d
    → u64 (d.current_memory + len) < d.max_memory_usage
    → make_room (suc fuel) c len ≡ some d
unfolding make_room
make_room_full zero c d len ne h e k = absurd (ne refl)
make_room_full (suc fuel) c d len ne h e k =
    let t : leb c.max_memory_usage (u64 (c.current_memory + len)) ≡ true = ground arith in
    rw (t, e) (make_room_fits fuel d len k)

-- the new chunk and the others fit below the limit
abbrev pub fits : ChunkCache → Chunk → Bool
fits c chunk = ltb (c.current_memory + chunk.len) c.max_memory_usage

-- What an insertion leaves.
pub record Added (c : ChunkCache) (es : Entries) (id : ℕ) (chunk : Chunk) : Type 0 where
  pub next : ChunkCache
  pub returns : add c id chunk ≡ some next
  pub refines : Refines next ((id, chunk) ∷ (if fits c chunk then es else drop_last es))
  pub memory :
      next.current_memory
      ≡ (if fits c chunk then c.current_memory + chunk.len else c.current_memory)
  pub max_kept : next.max_memory_usage ≡ c.max_memory_usage

module _ (c : ChunkCache) (cs : List Cell) (id : ℕ) (chunk : Chunk) (i : IsCache c cs)
    (new : Absent number id cs) (short : chunk.len < 2 ^ 63) where
  open i use {limit, memory, head_below}

  added_fits : fits c chunk ≡ true → Added c (entries cs) id chunk
  unfolding add
  added_fits f =
      let small : c.current_memory + chunk.len < c.max_memory_usage = ground arith in
      let sum : u64 (c.current_memory + chunk.len) ≡ c.current_memory + chunk.len = omega arith in
      let (g, run, is) =
        put_front c cs id (u64 (c.current_memory + chunk.len)) chunk i new (omega arith) in
      record {
        next = with_node c id (u64 (c.current_memory + chunk.len)) g;
        returns = rw (make_room_fits c.unused c chunk.len (omega arith), run) refl;
        refines = rw f (record { cells = _; is = is; same = refl });
        memory = rw f sum;
        max_kept = refl;
      }

  added_full :
      (xs : List Cell) (x : Cell)
      → cs ≡ xs ++ x ∷ []
      → fits c chunk ≡ false
      → Added c (entries cs) id chunk
  unfolding add
  added_full xs x e f =
      let large : c.max_memory_usage ≤ c.current_memory + chunk.len = ground arith in
      let (d, run, cur, is, m) = evicted c xs x chunk.len (subst (IsCache c) e i) in
      let back : u64 (d.current_memory + chunk.len) ≡ c.current_memory = omega (arith, cur) in
      let out = (Absent-append number id xs (x ∷ []) (subst (Absent number id) e new)).0 in
      let (g, put, is') =
        put_front (record d { current_memory = c.current_memory }) xs id
          (u64 (d.current_memory + chunk.len)) chunk is out (omega (arith, m)) in
      let room =
        make_room_full c.unused c d chunk.len (omega arith) (omega arith) run (omega (arith, m)) in
      record {
        next = with_node d id (u64 (d.current_memory + chunk.len)) g;
        returns = rw (room, put) refl;
        refines = rw f (record {
          cells = _;
          is = is';
          same =
              ap (◌∷◌ (id, chunk))
                (sym (entries-drop_last xs x) ∙ ap (λ l. drop_last (entries l)) (sym e));
        });
        memory = rw f back;
        max_kept = m;
      }

find-Absent :
    (k : ℕ) (cs : List Cell) → find k (entries cs) ≡ none → Place k cs → Absent number k cs
find-Absent k cs e (missing p f a) = a
find-Absent k cs e (at xs x ys s n p f w) = let clash = sym e ∙ f in cc

add_cells :
    (c : ChunkCache) (cs : List Cell) (id : ℕ) (chunk : Chunk)
    → IsCache c cs
    → find id (entries cs) ≡ none
    → chunk.len < 2 ^ 63
    → (fits c chunk ≡ true) ⊎ (entries cs ≢ [])
    → Added c (entries cs) id chunk
add_cells c cs id chunk i new short room = elim (Bool-cases (fits c chunk)) [
  | inl f ↦ added_fits c cs id chunk i (find-Absent id cs new (place id cs)) short f
  | inr f ↦ elim (last_cell cs) [
    | inl e ↦ absurd (no_room e f room)
    | inr (xs, x, e) ↦
        added_full c cs id chunk i (find-Absent id cs new (place id cs)) short xs x e f
  ]
]
  where
    no_room : cs ≡ [] → fits c chunk ≡ false → (fits c chunk ≡ true) ⊎ (entries cs ≢ []) → ⊥
    no_room e f (inl t) = cc
    no_room e f (inr ne) = ne (ap entries e)

-- `add` of a number that is not in the cache puts the chunk in front, and if it does not fit below
-- the limit evicts the chunk at the other end of the list, the one whose last use is longest ago; the
-- memory that is counted then stays as it was.
-- This holds where the chunk fits or the cache is not empty, and no pointer that it follows is null.
pub add-Refines :
    (c : ChunkCache) (es : Entries) (id : ℕ) (chunk : Chunk)
    → Refines c es
    → find id es ≡ none
    → chunk.len < 2 ^ 63
    → (fits c chunk ≡ true) ⊎ (es ≢ [])
    → Added c es id chunk
add-Refines c es id chunk r =
    subst
      (λ es.
        find id es ≡ none
        → chunk.len < 2 ^ 63
        → (fits c chunk ≡ true) ⊎ (es ≢ [])
        → Added c es id chunk)
      r.same (add_cells c r.cells id chunk r.is)
