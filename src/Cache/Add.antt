-- ===== src/Cache/Add.antt =====
-- `add` implements an insertion into the abstract cache. A cache that counts less memory than its
-- limit evicts at most one chunk.
use chunk_grouping.Prelude.{
  ℕ, suc, ◌<◌, ◌≡◌, ◌≢◌, refl, sym, ap, subst, ◌∙◌, Bool, true, false, ◌==◌, if◌then◌else◌,
  Bool-cases, inl, inr, none, some, List, [], ◌∷◌, ◌++◌, append-nil, sub64, arith,
}
use chunk_grouping.Chunk.{Chunk}
use chunk_grouping.Cache.{null, Heap, store, ChunkCache, insert_to_head, evict}
use chunk_grouping.Cache.Chain.{
  Cell, number, address, node, Absent, Absent-append, Distinct-append, Apart-head, last-append,
  store_same, store_other,
}
use chunk_grouping.Cache.Linked.{Linked, Linked-Spares, Linked-Unlinked, insert_to_head-Linked}
use chunk_grouping.Cache.Lru.{
  ptr_of, Below, IsCache, Below-append, Below-suc, ptr_of-Absent, ptr_of_other,
}

-- an address below all those that are in use is none of them
Below-Absent : (n : ℕ) (cs : List Cell) → Below n cs → Absent address n cs
Below-Absent n [] b = tt
Below-Absent n (c ∷ cs) b = (omega arith, Below-Absent n cs b.1)

-- the cache without its last cell
pub evicted :
    (c : ChunkCache) (xs : List Cell) (x : Cell) (len : ℕ)
    → IsCache c (xs ++ x ∷ [])
    → (d : ChunkCache) × (evict c len ≡ some d)
      × (d.current_memory ≡ sub64 c.current_memory len)
      × (IsCache (record d { current_memory = c.current_memory }) xs)
      × (d.max_memory_usage ≡ c.max_memory_usage)
unfolding evict
evicted c xs x len i =
    let a = c.dummy_head in
    let t = c.dummy_tail in
    let u = Linked-Unlinked a t c.heap xs x [] i.linked in
    let end : c.heap t ≡ node x.ptr null 0 none =
      i.linked.tail ∙ ap (λ p. node p null 0 none) (last-append a xs (x ∷ [])) in
    let (d₁, _, apart) = Distinct-append number xs (x ∷ []) i.ids in
    let front = Apart-head number xs x [] apart in
    let (b, _) = Below-append c.unused xs (x ∷ []) i.below in
    let out = (Absent-append address x.ptr xs [] u.out).0 in
    let l : Linked a t u.heap xs = subst (Linked a t u.heap) (append-nil xs) u.linked in
    (
      record c {
        map = λ id. if x.id == id then none else c.map id;
        heap = store u.heap x.ptr none;
        current_memory = sub64 c.current_memory len;
      },
      rw (end, u.held, u.first_write, u.second_write) refl,
      refl,
      record {
        linked =
            Linked-Spares a t x.ptr u.heap (store u.heap x.ptr none) xs
              (λ q ne. store_other u.heap x.ptr none q ne) (λ e. u.head_apart (sym e))
              (λ e. u.tail_apart (sym e)) out l;
        index = λ k. elim (Bool-cases (x.id == k)) [
          | inl e ↦ rw e (
              sym (
                ptr_of-Absent k xs
                  (subst (λ n. Absent number n xs) (omega (arith, same x.id k e)) front)))
          | inr e ↦
              rw e (
                i.index k ∙ ptr_of_other k xs x [] (other x.id k e) ∙ ap (ptr_of k) (append-nil xs))
        ];
        ids = d₁;
        below = b;
        head_below = i.head_below;
        tail_below = i.tail_below;
        limit = i.limit;
        memory = i.memory;
      },
      refl,
    )
  where
    same : (m n : ℕ) → (m == n) ≡ true → m ≡ n
    same m n e = ground arith

    other : (m n : ℕ) → (m == n) ≡ false → n ≢ m
    other m n e = ground arith

-- the cache with a new node, which the heap `h` holds at the next address
abbrev pub with_node : ChunkCache → ℕ → ℕ → Heap → ChunkCache
with_node c id memory h = record c {
  current_memory = memory;
  map = λ k. if id == k then some c.unused else c.map k;
  heap = h;
  unused = suc c.unused;
}

-- a new cell in front
pub put_front :
    (c : ChunkCache) (cs : List Cell) (id memory : ℕ) (chunk : Chunk)
    → IsCache c cs
    → Absent number id cs
    → memory < c.max_memory_usage
    → (g : Heap) × (insert_to_head
          (with_node c id memory (store c.heap c.unused (node null null id (some chunk))))
          c.unused
        ≡ some (with_node c id memory g))
      × IsCache (with_node c id memory g) (record { ptr = c.unused; id = id; chunk = chunk } ∷ cs)
put_front c cs id memory chunk i out small =
    let p = c.unused in
    let x : Cell = record { ptr = p; id = id; chunk = chunk } in
    let n = node null null id (some chunk) in
    let h : Heap = store c.heap p n in
    let here = Below-Absent p cs i.below in
    let l =
      Linked-Spares c.dummy_head c.dummy_tail p c.heap h cs (λ q ne. store_other c.heap p n q ne)
        (λ e. absurd (omega (arith, e, i.head_below)))
        (λ e. absurd (omega (arith, e, i.tail_below))) here i.linked in
    let (g, run, linked) =
      insert_to_head-Linked (with_node c id memory h) x cs null null l (store_same c.heap p n)
        (λ e. absurd (omega (arith, e, i.head_below)))
        (λ e. absurd (omega (arith, e, i.tail_below))) here in
    (
      g,
      run,
      record {
        linked = linked;
        index = λ k. elim (Bool-cases (id == k)) [
          | inl e ↦ rw (e, turned id k true e) refl
          | inr e ↦ rw (e, turned id k false e) (i.index k)
        ];
        ids = (out, i.ids);
        below = (omega arith, Below-suc p cs i.below);
        head_below = omega (arith, i.head_below);
        tail_below = omega (arith, i.tail_below);
        limit = i.limit;
        memory = small;
      },
    )
  where
    turned : (m n : ℕ) (b : Bool) → (m == n) ≡ b → (n == m) ≡ b
    turned m n b e = ground arith
