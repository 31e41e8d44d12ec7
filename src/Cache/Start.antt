-- ===== src/Cache/Start.antt =====
-- The cache as its constructor makes it.
use chunk_grouping.Prelude.{ℕ, ◌≤◌, ◌<◌, ◌^◌, refl, [], arith}
use chunk_grouping.Cache.{chunk_cache}
use chunk_grouping.Cache.Lru.{IsCache, Refines}

chunk_cache-IsCache : (n : ℕ) → 0 < n → n ≤ 2 ^ 43 → IsCache (chunk_cache n) []
unfolding chunk_cache
chunk_cache-IsCache n some_memory h = record {
  linked = record {
    head = refl;
    chain = tt;
    tail = refl;
    distinct = tt;
    apart = omega arith;
    head_absent = tt;
    tail_absent = tt;
  };
  index = λ k. refl;
  ids = tt;
  below = tt;
  head_below = omega arith;
  tail_below = omega arith;
  limit = omega arith;
  memory = omega arith;
}

-- The constructor makes an empty cache, for any size from one mebibyte to 2 ^ 63 bytes.
pub chunk_cache-Refines : (n : ℕ) → 0 < n → n ≤ 2 ^ 43 → Refines (chunk_cache n) []
chunk_cache-Refines n some_memory h = record {
  cells = [];
  is = chunk_cache-IsCache n some_memory h;
  same = refl;
}
