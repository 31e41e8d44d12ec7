-- ===== src/Cache/Lru.antt =====
-- The abstract cache: chunks under their numbers, the last one used in front.
use chunk_grouping.Prelude.{
  ℕ, suc, ◌≤◌, ◌<◌, ◌^◌, ◌≡◌, ◌≢◌, refl, sym, ap, ◌∙◌, true, false, ◌==◌, if◌then◌else◌, Bool-cases,
  ◌⊎◌, inl, inr, Option, none, some, List, [], ◌∷◌, ◌++◌, arith,
}
use chunk_grouping.Chunk.{Chunk}
use chunk_grouping.Cache.{Ptr, ChunkCache}
use chunk_grouping.Cache.Chain.{Cell, number, Absent, Distinct}
use chunk_grouping.Cache.Linked.{Linked}

abbrev pub Entries : Type 0
Entries = List (ℕ × Chunk)

abbrev pub find : ℕ → Entries → Option Chunk
find k [] = none
find k ((j, chunk) ∷ es) = if k == j then some chunk else find k es

abbrev pub without : ℕ → Entries → Entries
without k [] = []
without k ((j, chunk) ∷ es) = if k == j then es else (j, chunk) ∷ without k es

-- the entries after a lookup: one that is found goes to the front
abbrev pub touched : ℕ → Entries → Option Chunk → Entries
touched k es none = es
touched k es (some chunk) = (k, chunk) ∷ without k es

abbrev pub drop_last : Entries → Entries
drop_last [] = []
drop_last (e ∷ []) = []
drop_last (e ∷ f ∷ es) = e ∷ drop_last (f ∷ es)

abbrev pub entries : List Cell → Entries
entries [] = []
entries (c ∷ cs) = (c.id, c.chunk) ∷ entries cs

abbrev pub ptr_of : ℕ → List Cell → Option Ptr
ptr_of k [] = none
ptr_of k (c ∷ cs) = if k == c.id then some c.ptr else ptr_of k cs

abbrev pub Below : ℕ → List Cell → Type 0
Below n [] = Unit {0}
Below n (c ∷ cs) = (c.ptr < n) × Below n cs

-- The cache stands for these cells, and counts less memory than its limit.
pub record IsCache (c : ChunkCache) (cs : List Cell) : Type 0 where
  pub linked : Linked c.dummy_head c.dummy_tail c.heap cs
  pub index : (k : ℕ) → c.map k ≡ ptr_of k cs
  pub ids : Distinct number cs
  pub below : Below c.unused cs
  pub head_below : c.dummy_head < c.unused
  pub tail_below : c.dummy_tail < c.unused
  pub limit : c.max_memory_usage ≤ 2 ^ 63
  pub memory : c.current_memory < c.max_memory_usage

-- The cache implements these entries.
pub record Refines (c : ChunkCache) (es : Entries) : Type 0 where
  pub cells : List Cell
  pub is : IsCache c cells
  pub same : entries cells ≡ es

pub Below-append : (n : ℕ) (xs ys : List Cell) → Below n (xs ++ ys) → Below n xs × Below n ys
Below-append n [] ys b = (tt, b)
Below-append n (x ∷ xs) ys b = let (l, r) = Below-append n xs ys b.1 in ((b.0, l), r)

pub Below-join : (n : ℕ) (xs ys : List Cell) → Below n xs → Below n ys → Below n (xs ++ ys)
Below-join n [] ys a b = b
Below-join n (x ∷ xs) ys a b = (a.0, Below-join n xs ys a.1 b)

pub Below-suc : (n : ℕ) (xs : List Cell) → Below n xs → Below (suc n) xs
Below-suc n [] b = tt
Below-suc n (x ∷ xs) b = (omega arith, Below-suc n xs b.1)

-- Where a number stands among the cells.
pub data Place (k : ℕ) (cs : List Cell) : Type 0 where
  missing : ptr_of k cs ≡ none → find k (entries cs) ≡ none → Absent number k cs → Place k cs
  at :
      (xs : List Cell) (x : Cell) (ys : List Cell)
      → cs ≡ xs ++ x ∷ ys
      → x.id ≡ k
      → ptr_of k cs ≡ some x.ptr
      → find k (entries cs) ≡ some x.chunk
      → without k (entries cs) ≡ entries (xs ++ ys)
      → Place k cs

same_test : (k j : ℕ) → k ≡ j → (k == j) ≡ true
same_test k j e = ground arith

other_test : (k j : ℕ) → k ≢ j → (k == j) ≡ false
other_test k j ne = ground arith

test_same : (k j : ℕ) → (k == j) ≡ true → k ≡ j
test_same k j e = ground arith

test_other : (k j : ℕ) → (k == j) ≡ false → k ≢ j
test_other k j e = ground arith

pub place : (k : ℕ) (cs : List Cell) → Place k cs
place k [] = missing refl refl tt
place k (c ∷ cs) = elim (Bool-cases (k == c.id)) [
  | inl e ↦ at [] c cs refl (sym (test_same k c.id e)) (rw e refl) (rw e refl) (rw e refl)
  | inr e ↦ behind e (place k cs)
]
  where
    behind : (k == c.id) ≡ false → Place k cs → Place k (c ∷ cs)
    behind e (missing p f a) = missing (rw e p) (rw e f) (test_other k c.id e, a)
    behind e (at xs x ys s i p f w) =
        at (c ∷ xs) x ys (ap (◌∷◌ c) s) i (rw e p) (rw e f) (rw e (ap (◌∷◌ (c.id, c.chunk)) w))

pub ptr_of_other :
    (j : ℕ) (xs : List Cell) (x : Cell) (ys : List Cell)
    → j ≢ x.id
    → ptr_of j (xs ++ x ∷ ys) ≡ ptr_of j (xs ++ ys)
ptr_of_other j [] x ys ne = rw (other_test j x.id ne) refl
ptr_of_other j (c ∷ xs) x ys ne = rw (ptr_of_other j xs x ys ne) refl

pub ptr_of-Absent : (j : ℕ) (cs : List Cell) → Absent number j cs → ptr_of j cs ≡ none
ptr_of-Absent j [] a = refl
ptr_of-Absent j (c ∷ cs) a = rw (other_test j c.id a.0) (ptr_of-Absent j cs a.1)

pub ptr_of_here :
    (xs : List Cell) (x : Cell) (ys : List Cell)
    → Absent number x.id xs
    → ptr_of x.id (xs ++ x ∷ ys) ≡ some x.ptr
ptr_of_here [] x ys a = rw (same_test x.id x.id refl) refl
ptr_of_here (c ∷ xs) x ys a = rw (other_test x.id c.id a.0) (ptr_of_here xs x ys a.1)

-- The addresses by number do not see that a cell has moved to the front.
pub ptr_of_moved :
    (j : ℕ) (xs : List Cell) (x : Cell) (ys : List Cell)
    → Absent number x.id xs
    → ptr_of j (xs ++ x ∷ ys) ≡ ptr_of j (x ∷ xs ++ ys)
ptr_of_moved j xs x ys a = elim (Bool-cases (j == x.id)) [
  | inl e ↦
      ap (λ i. ptr_of i (xs ++ x ∷ ys)) (test_same j x.id e) ∙ ptr_of_here xs x ys a ∙ rw e refl
  | inr e ↦ ptr_of_other j xs x ys (test_other j x.id e) ∙ rw e refl
]

-- A list that is not empty has a last cell.
pub last_cell : (cs : List Cell) → (cs ≡ []) ⊎ ((xs : List Cell) × (x : Cell) × (cs ≡ xs ++ x ∷ []))
last_cell [] = inl refl
last_cell (c ∷ cs) = elim (last_cell cs) [
  | inl e ↦ inr ([], c, ap (◌∷◌ c) e)
  | inr (xs, x, e) ↦ inr (c ∷ xs, x, ap (◌∷◌ c) e)
]

pub entries-drop_last :
    (xs : List Cell) (x : Cell) → drop_last (entries (xs ++ x ∷ [])) ≡ entries xs
entries-drop_last [] x = refl
entries-drop_last (c ∷ []) x = refl
entries-drop_last (c ∷ d ∷ xs) x = ap (◌∷◌ (c.id, c.chunk)) (entries-drop_last (d ∷ xs) x)
