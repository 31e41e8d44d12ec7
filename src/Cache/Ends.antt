-- ===== src/Cache/Ends.antt =====
-- What a write to one end of a run of cells does to it.
use chunk_grouping.Prelude.{ℕ, ◌≡◌, refl, ◌∙◌, Option, some, List, [], ◌∷◌}
use chunk_grouping.Chunk.{Chunk}
use chunk_grouping.Cache.{Ptr, Heap, store, set_next, set_prev}
use chunk_grouping.Cache.Chain.{
  Cell, address, node, first, last, Chain, Absent, Distinct, Absent-last, store_same, store_other,
  Spares, frame,
}

-- A node and the chain behind it, when the last of them is given another successor.
pub record Redirected (h : Heap) (p pv id : ℕ) (ch : Option Chunk) (cs : List Cell) (stop' : Ptr)
    : Type 0 where
  pub heap : Heap
  pub returns : set_next h (last p cs) stop' ≡ some heap
  pub start : heap p ≡ node pv (first cs stop') id ch
  pub chain : Chain heap p cs stop'
  pub spares : Spares (last p cs) h heap

pub set_next_last :
    (h : Heap) (p pv id : ℕ) (ch : Option Chunk) (cs : List Cell) (stop stop' : Ptr)
    → h p ≡ node pv (first cs stop) id ch
    → Chain h p cs stop
    → Absent address p cs
    → Distinct address cs
    → Redirected h p pv id ch cs stop'
unfolding set_next
set_next_last h p pv id ch [] stop stop' e c a d = record {
  heap = store h p (node pv stop' id ch);
  returns = rw e refl;
  start = store_same h p _;
  chain = tt;
  spares = λ q ne. store_other h p _ q ne;
}
set_next_last h p pv id ch (x ∷ cs) stop stop' e c a d =
    let r = set_next_last h x.ptr p x.id (some x.chunk) cs stop stop' c.0 c.1 d.0 d.1 in
    record {
      heap = r.heap;
      returns = r.returns;
      start = r.spares p (Absent-last p x.ptr cs a.0 a.1) ∙ e;
      chain = (r.start, r.chain);
      spares = r.spares;
    }

-- A chain and the node behind it, when the first of them is given another predecessor.
pub record Reattached (h : Heap) (p' t nx id : ℕ) (ch : Option Chunk) (cs : List Cell)
    : Type 0 where
  pub heap : Heap
  pub returns : set_prev h (first cs t) p' ≡ some heap
  pub chain : Chain heap p' cs t
  pub end : heap t ≡ node (last p' cs) nx id ch
  pub spares : Spares (first cs t) h heap

pub set_prev_first :
    (h : Heap) (p p' t nx id : ℕ) (ch : Option Chunk) (cs : List Cell)
    → h t ≡ node (last p cs) nx id ch
    → Chain h p cs t
    → Absent address t cs
    → Distinct address cs
    → Reattached h p' t nx id ch cs
unfolding set_prev
set_prev_first h p p' t nx id ch [] e c a d = record {
  heap = store h t (node p' nx id ch);
  returns = rw e refl;
  chain = tt;
  end = store_same h t _;
  spares = λ q ne. store_other h t _ q ne;
}
set_prev_first h p p' t nx id ch (x ∷ cs) e c a d =
    let n = node p' (first cs t) x.id (some x.chunk) in
    record {
      heap = store h x.ptr n;
      returns = rw c.0 refl;
      chain = (
        store_same h x.ptr n,
        frame h (store h x.ptr n) x.ptr x.ptr cs t (λ q ne. store_other h x.ptr n q ne) d.0 c.1,
      );
      end = store_other h x.ptr n t a.0 ∙ e;
      spares = λ q ne. store_other h x.ptr n q ne;
    }
