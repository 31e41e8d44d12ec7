-- ===== src/Cache/Chain.antt =====
-- The nodes of a doubly linked list: what the pointers of a run of cells say.
use chunk_grouping.Prelude.{
  ℕ, ◌≡◌, ◌≢◌, refl, sym, ap, ◌∙◌, Option, some, List, [], ◌∷◌, ◌++◌, arith,
}
use chunk_grouping.Chunk.{Chunk}
use chunk_grouping.Cache.{Ptr, Node, Heap, store}

-- what a node stands for: its address, and the chunk under its number
pub record Cell : Type 0 where
  pub ptr : Ptr
  pub id : ℕ
  pub chunk : Chunk

abbrev pub address : Cell → ℕ
address c = c.ptr

abbrev pub number : Cell → ℕ
number c = c.id

abbrev pub node : Ptr → Ptr → ℕ → Option Chunk → Option Node
node prev next id chunk = some (record { prev = prev; next = next; chunk_id = id; chunk = chunk })

-- the first address of a run in front of `stop`, and the last of a run behind `prev`
abbrev pub first : List Cell → Ptr → Ptr
first [] stop = stop
first (c ∷ cs) stop = c.ptr

abbrev pub last : Ptr → List Cell → Ptr
last prev [] = prev
last prev (c ∷ cs) = last c.ptr cs

-- From `prev` to `stop` the pointers lead through the cells, both ways.
abbrev pub Chain : Heap → Ptr → List Cell → Ptr → Type 0
Chain h prev [] stop = Unit {0}
Chain h prev (c ∷ cs) stop =
    (h c.ptr ≡ node prev (first cs stop) c.id (some c.chunk)) × Chain h c.ptr cs stop

-- No cell has this key; no two cells have the same; no cell of the one list has one of the other.
abbrev pub Absent : (Cell → ℕ) → ℕ → List Cell → Type 0
Absent key k [] = Unit {0}
Absent key k (c ∷ cs) = (k ≢ key c) × Absent key k cs

abbrev pub Distinct : (Cell → ℕ) → List Cell → Type 0
Distinct key [] = Unit {0}
Distinct key (c ∷ cs) = Absent key (key c) cs × Distinct key cs

abbrev pub Apart : (Cell → ℕ) → List Cell → List Cell → Type 0
Apart key [] ys = Unit {0}
Apart key (x ∷ xs) ys = Absent key (key x) ys × Apart key xs ys

module _ (key : Cell → ℕ) where
  pub Absent-append :
      (k : ℕ) (xs ys : List Cell) → Absent key k (xs ++ ys) → Absent key k xs × Absent key k ys
  Absent-append k [] ys a = (tt, a)
  Absent-append k (x ∷ xs) ys a = let (b, c) = Absent-append k xs ys a.1 in ((a.0, b), c)

  pub Absent-join :
      (k : ℕ) (xs ys : List Cell) → Absent key k xs → Absent key k ys → Absent key k (xs ++ ys)
  Absent-join k [] ys a b = b
  Absent-join k (x ∷ xs) ys a b = (a.0, Absent-join k xs ys a.1 b)

  pub Distinct-append :
      (xs ys : List Cell)
      → Distinct key (xs ++ ys)
      → Distinct key xs × Distinct key ys × Apart key xs ys
  Distinct-append [] ys d = (tt, d, tt)
  Distinct-append (x ∷ xs) ys d =
      let (a, b) = Absent-append (key x) xs ys d.0 in
      let (e, f, g) = Distinct-append xs ys d.1 in ((a, e), f, (b, g))

  pub Distinct-join :
      (xs ys : List Cell)
      → Distinct key xs
      → Distinct key ys
      → Apart key xs ys
      → Distinct key (xs ++ ys)
  Distinct-join [] ys d e a = e
  Distinct-join (x ∷ xs) ys d e a =
      (Absent-join (key x) xs ys d.0 a.0, Distinct-join xs ys d.1 e a.1)

  pub Apart-tail :
      (xs : List Cell) (y : Cell) (ys : List Cell) → Apart key xs (y ∷ ys) → Apart key xs ys
  Apart-tail [] y ys a = tt
  Apart-tail (x ∷ xs) y ys a = (a.0.1, Apart-tail xs y ys a.1)

  pub Apart-head :
      (xs : List Cell) (y : Cell) (ys : List Cell) → Apart key xs (y ∷ ys) → Absent key (key y) xs
  Apart-head [] y ys a = tt
  Apart-head (x ∷ xs) y ys a = ((λ e. a.0.0 (sym e)), Apart-head xs y ys a.1)

pub Absent-last : (p q : Ptr) (cs : List Cell) → p ≢ q → Absent address p cs → p ≢ last q cs
Absent-last p q [] ne a = ne
Absent-last p q (c ∷ cs) ne a = Absent-last p c.ptr cs a.0 a.1

pub last-Absent :
    (p : Ptr) (xs ys : List Cell)
    → Absent address p ys
    → Apart address xs ys
    → Absent address (last p xs) ys
last-Absent p [] ys a b = a
last-Absent p (x ∷ xs) ys a b = last-Absent x.ptr xs ys b.0 b.1

pub first-Absent :
    (t : Ptr) (xs ys : List Cell)
    → Absent address t xs
    → Apart address xs ys
    → Absent address (first ys t) xs
first-Absent t xs [] a b = a
first-Absent t xs (y ∷ ys) a b = Apart-head address xs y ys b

pub first-ne : (p t : Ptr) (ys : List Cell) → p ≢ t → Absent address p ys → p ≢ first ys t
first-ne p t [] ne a = ne
first-ne p t (y ∷ ys) ne a = a.0

pub first-append : (xs ys : List Cell) (t : Ptr) → first (xs ++ ys) t ≡ first xs (first ys t)
first-append [] ys t = refl
first-append (x ∷ xs) ys t = refl

pub last-append : (p : Ptr) (xs ys : List Cell) → last p (xs ++ ys) ≡ last (last p xs) ys
last-append p [] ys = refl
last-append p (x ∷ xs) ys = last-append x.ptr xs ys

pub store_same : (h : Heap) (p : Ptr) (n : Option Node) → store h p n p ≡ n
store_same h p n = ground arith

pub store_other : (h : Heap) (p : Ptr) (n : Option Node) (q : Ptr) → q ≢ p → store h p n q ≡ h q
store_other h p n q ne = ground arith

-- The two heaps agree at all addresses but `p`.
abbrev pub Spares : Ptr → Heap → Heap → Type 0
Spares p h g = (q : Ptr) → q ≢ p → g q ≡ h q

-- A chain does not see a write to another address.
pub frame :
    (h g : Heap) (p prev : Ptr) (cs : List Cell) (stop : Ptr)
    → Spares p h g
    → Absent address p cs
    → Chain h prev cs stop
    → Chain g prev cs stop
frame h g p prev [] stop s a c = tt
frame h g p prev (x ∷ cs) stop s a c =
    (s x.ptr (λ e. a.0 (sym e)) ∙ c.0, frame h g p x.ptr cs stop s a.1 c.1)

pub Chain-append :
    (h : Heap) (p : Ptr) (xs ys : List Cell) (stop : Ptr)
    → Chain h p (xs ++ ys) stop
    → Chain h p xs (first ys stop) × Chain h (last p xs) ys stop
Chain-append h p [] ys stop c = (tt, c)
Chain-append h p (x ∷ xs) ys stop c =
    let (a, b) = Chain-append h x.ptr xs ys stop c.1 in
    ((c.0 ∙ ap (λ n. node p n x.id (some x.chunk)) (first-append xs ys stop), a), b)

pub Chain-join :
    (h : Heap) (p : Ptr) (xs ys : List Cell) (stop : Ptr)
    → Chain h p xs (first ys stop)
    → Chain h (last p xs) ys stop
    → Chain h p (xs ++ ys) stop
Chain-join h p [] ys stop a b = b
Chain-join h p (x ∷ xs) ys stop a b = (
  a.0 ∙ ap (λ n. node p n x.id (some x.chunk)) (sym (first-append xs ys stop)),
  Chain-join h x.ptr xs ys stop a.1 b,
)
