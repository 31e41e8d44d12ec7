-- ===== src/Cache/Get.antt =====
-- `get` implements a lookup of the abstract cache, and never reads through a null pointer.
use chunk_grouping.Prelude.{
  ℕ, ◌+◌, ◌≡◌, refl, sym, ap, subst, ◌∙◌, none, some, List, ◌∷◌, ◌++◌, u32,
}
use chunk_grouping.Cache.{ChunkCache, hit, get}
use chunk_grouping.Cache.Chain.{
  Cell, number, Absent-join, Distinct-append, Distinct-join, Apart-tail, Apart-head,
}
use chunk_grouping.Cache.Linked.{Linked-Unlinked, insert_to_head-Linked}
use chunk_grouping.Cache.Lru.{
  Entries, find, touched, entries, IsCache, Refines, Place, missing, at, place, Below-append,
  Below-join, ptr_of_moved,
}

-- What a lookup answers and leaves.
pub record Got (c : ChunkCache) (es : Entries) (k : ℕ) : Type 0 where
  pub next : ChunkCache
  pub returns : get c k ≡ some (find k es, next)
  pub refines : Refines next (touched k es (find k es))
  pub max_kept : next.max_memory_usage ≡ c.max_memory_usage
  pub memory_kept : next.current_memory ≡ c.current_memory

-- a miss changes one counter
missed :
    (c : ChunkCache) (cs : List Cell)
    → IsCache c cs
    → IsCache (record c { cache_miss = u32 (c.cache_miss + 1) }) cs
missed c cs i = record {
  linked = i.linked;
  index = i.index;
  ids = i.ids;
  below = i.below;
  head_below = i.head_below;
  tail_below = i.tail_below;
  limit = i.limit;
  memory = i.memory;
}

get_miss :
    (c : ChunkCache) (k : ℕ)
    → c.map k ≡ none
    → get c k ≡ some (none, record c { cache_miss = u32 (c.cache_miss + 1) })
unfolding get
get_miss c k e = rw (get, e) refl

get-hit : (c : ChunkCache) (k p : ℕ) → c.map k ≡ some p → get c k ≡ hit c p
unfolding get
get-hit c k p e = rw (get, e) refl

-- The cells with one of them in front.
moved :
    (c : ChunkCache) (xs : List Cell) (x : Cell) (ys : List Cell)
    → IsCache c (xs ++ x ∷ ys)
    → (d : ChunkCache) × (hit c x.ptr ≡ some (some x.chunk, d))
      × IsCache d (x ∷ xs ++ ys)
      × (d.max_memory_usage ≡ c.max_memory_usage)
      × (d.current_memory ≡ c.current_memory)
unfolding hit
moved c xs x ys i =
    let u = Linked-Unlinked c.dummy_head c.dummy_tail c.heap xs x ys i.linked in
    let c₂ = record c { cache_hits = u32 (c.cache_hits + 1); heap = u.heap } in
    let (g, inserted, l) =
      insert_to_head-Linked c₂ x (xs ++ ys) _ _ u.linked (u.kept ∙ u.held) u.head_apart u.tail_apart
        u.out in
    let (d₁, (d₂, d₃), a) = Distinct-append number xs (x ∷ ys) i.ids in
    let front = Apart-head number xs x ys a in
    let (b₁, b₂) = Below-append c.unused xs (x ∷ ys) i.below in
    (
      record c₂ { heap = g },
      rw (u.held, u.first_write, u.second_write, inserted, l.chain.0) refl,
      record {
        linked = l;
        index = λ k. i.index k ∙ ptr_of_moved k xs x ys front;
        ids = (
          Absent-join number x.id xs ys front d₂,
          Distinct-join number xs ys d₁ d₃ (Apart-tail number xs x ys a),
        );
        below = (b₂.0, Below-join c.unused xs ys b₁ b₂.1);
        head_below = i.head_below;
        tail_below = i.tail_below;
        limit = i.limit;
        memory = i.memory;
      },
      refl,
      refl,
    )

get_cells :
    (c : ChunkCache) (cs : List Cell) (k : ℕ) → IsCache c cs → Place k cs → Got c (entries cs) k
get_cells c cs k i (missing p f a) = record {
  next = record c { cache_miss = u32 (c.cache_miss + 1) };
  returns =
      get_miss c k (i.index k ∙ p)
      ∙ ap (λ r. some (r, record c { cache_miss = u32 (c.cache_miss + 1) })) (sym f);
  refines =
      subst
        (λ r. Refines (record c { cache_miss = u32 (c.cache_miss + 1) }) (touched k (entries cs) r))
        (sym f) (record { cells = cs; is = missed c cs i; same = refl });
  max_kept = refl;
  memory_kept = refl;
}
get_cells c cs k i (at xs x ys e n p f w) =
    let (d, run, is, m, cur) = moved c xs x ys (subst (IsCache c) e i) in
    record {
      next = d;
      returns = get-hit c k x.ptr (i.index k ∙ p) ∙ run ∙ ap (λ r. some (r, d)) (sym f);
      refines =
          subst (λ r. Refines d (touched k (entries cs) r)) (sym f)
            (record { cells = x ∷ xs ++ ys; is = is; same = λ j. (n j, x.chunk) ∷ sym w j });
      max_kept = m;
      memory_kept = cur;
    }

-- `get` answers the chunk that stands under the number, or none, and moves it to the front; the
-- pointers it follows are never null.
pub get-Refines : (c : ChunkCache) (es : Entries) (k : ℕ) → Refines c es → Got c es k
get-Refines c es k r =
    subst (λ es. Got c es k) r.same (get_cells c r.cells k r.is (place k r.cells))
