-- ===== src/Cache.antt =====
-- storage/cache.h, storage/cache.cpp: a cache of chunks, least recently used last, as a map into a
-- doubly linked list between two dummy nodes. Pointers are addresses on an explicit heap; `none` is
-- a fault, such as a read through a null pointer. `new` takes the next unused address.
pub mod Chain
pub mod Ends
pub mod Linked
pub mod Lru
pub mod Get
pub mod Add
pub mod Insert
pub mod Start
mod Tests
use chunk_grouping.Prelude.{
  ℕ, zero, suc, ◌+◌, ◌*◌, ◌==◌, leb, if◌then◌else◌, Option, none, some, ◌>>=◌, u32, u64, sub64,
}
use chunk_grouping.Chunk.{Chunk}

abbrev pub Ptr : Type 0
Ptr = ℕ

abbrev pub null : Ptr
null = 0

pub record Node : Type 0 where
  pub prev : Ptr
  pub next : Ptr
  pub chunk_id : ℕ
  pub chunk : Option Chunk

abbrev pub Heap : Type 0
Heap = Ptr → Option Node

-- the heap with another node, or none, at one address
abbrev pub store : Heap → Ptr → Option Node → Heap
store h p n q = if p == q then n else h q

pub record ChunkCache : Type 0 where
  pub max_memory_usage : ℕ
  pub current_memory : ℕ
  pub map : ℕ → Option Ptr
  pub dummy_head : Ptr
  pub dummy_tail : Ptr
  pub cache_hits : ℕ
  pub cache_miss : ℕ
  pub heap : Heap
  pub unused : Ptr

-- the constructor; `cache_size` counts mebibytes
unfoldable pub chunk_cache : ℕ → ChunkCache
chunk_cache cache_size =
    let head : Node = record { prev = null; next = 2; chunk_id = 0; chunk = none } in
    let tail : Node = record { prev = 1; next = null; chunk_id = 0; chunk = none } in
    record {
      max_memory_usage = u64 (cache_size * 1024 * 1024);
      current_memory = 0;
      map = λ _. none;
      dummy_head = 1;
      dummy_tail = 2;
      cache_hits = 0;
      cache_miss = 0;
      heap = store (store (λ _. none) 1 (some head)) 2 (some tail);
      unused = 3;
    }

-- `p->next = q` and `p->prev = q`
unfoldable pub set_next : Heap → Ptr → Ptr → Option Heap
set_next h p q = do n ← h p; some (store h p (some (record n { next = q })))

unfoldable pub set_prev : Heap → Ptr → Ptr → Option Heap
set_prev h p q = do n ← h p; some (store h p (some (record n { prev = q })))

-- `insertToHead`
unfoldable pub insert_to_head : ChunkCache → Ptr → Option ChunkCache
unfolding set_next set_prev
insert_to_head c node = do
  head ← c.heap c.dummy_head
  h₁ ← set_next c.heap c.dummy_head node
  h₂ ← set_prev h₁ node c.dummy_head
  h₃ ← set_prev h₂ head.next node
  h₄ ← set_next h₃ node head.next
  some (record c { heap = h₄ })

-- the branch of `get` that finds the entry
unfoldable pub hit : ChunkCache → Ptr → Option (Option Chunk × ChunkCache)
unfolding set_next set_prev insert_to_head
hit c node = do
  n ← c.heap node
  h₁ ← set_next c.heap n.prev n.next
  h₂ ← set_prev h₁ n.next n.prev
  c' ← insert_to_head (record c { cache_hits = u32 (c.cache_hits + 1); heap = h₂ }) node
  n' ← c'.heap node
  some (n'.chunk, c')

-- `get`; the first part of the answer is `none` for `nullptr`
unfoldable pub get : ChunkCache → ℕ → Option (Option Chunk × ChunkCache)
unfolding hit
get c id = elim (c.map id) [
  | none ↦ some (none, record c { cache_miss = u32 (c.cache_miss + 1) })
  | some node ↦ hit c node
]

-- one round of the loop of `add`, which makes room for `len` bytes
unfoldable pub evict : ChunkCache → ℕ → Option ChunkCache
unfolding set_next set_prev
evict c len = do
  tail ← c.heap c.dummy_tail
  n ← c.heap tail.prev
  h₁ ← set_next c.heap n.prev c.dummy_tail
  h₂ ← set_prev h₁ c.dummy_tail n.prev
  some (record c {
    map = λ id. if n.chunk_id == id then none else c.map id;
    heap = store h₂ tail.prev none;
    current_memory = sub64 c.current_memory len;
  })

-- the loop of `add` on fuel: each round frees a node, or faults
unfoldable pub make_room : ℕ → ChunkCache → ℕ → Option ChunkCache
unfolding evict
make_room zero c len = none
make_room (suc fuel) c len =
    let rest = (evict c len >>= λ c'. make_room fuel c' len) in
    if leb c.max_memory_usage (u64 (c.current_memory + len)) then rest else some c

-- `add`, with as much fuel as nodes were ever made
unfoldable pub add : ChunkCache → ℕ → Chunk → Option ChunkCache
unfolding make_room insert_to_head
add c id chunk = do
  c' ← make_room (suc c.unused) c chunk.len
  let node : Node = record { prev = null; next = null; chunk_id = id; chunk = some chunk }
  let p : Ptr = c'.unused
  insert_to_head
      (record c' {
        current_memory = u64 (c'.current_memory + chunk.len);
        map = λ k. if id == k then some p else c'.map k;
        heap = store c'.heap p (some node);
        unused = suc p;
      })
      p
