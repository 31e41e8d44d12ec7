-- ===== src/Cache/Linked.antt =====
-- The list between the two dummy nodes: putting a node behind the head, and taking one out.
use chunk_grouping.Prelude.{◌≡◌, ◌≢◌, refl, sym, ap, ◌∙◌, none, some, List, ◌∷◌, ◌++◌}
use chunk_grouping.Cache.{Ptr, null, Heap, store, ChunkCache, set_next, set_prev, insert_to_head}
use chunk_grouping.Cache.Chain.{
  Cell, address, node, first, last, Chain, Absent, Distinct, Absent-append, Absent-join,
  Distinct-append, Distinct-join, Apart-tail, Apart-head, Absent-last, last-Absent, first-Absent,
  first-ne, first-append, last-append, store_same, store_other, Spares, frame, Chain-append,
  Chain-join,
}
use chunk_grouping.Cache.Ends.{set_next_last, set_prev_first}

-- between the dummy nodes at `a` and `t` stand these cells
pub record Linked (a t : Ptr) (h : Heap) (cs : List Cell) : Type 0 where
  pub head : h a ≡ node null (first cs t) 0 none
  pub chain : Chain h a cs t
  pub tail : h t ≡ node (last a cs) null 0 none
  pub distinct : Distinct address cs
  pub apart : a ≢ t
  pub head_absent : Absent address a cs
  pub tail_absent : Absent address t cs

pub Linked-Spares :
    (a t p : Ptr) (h g : Heap) (cs : List Cell)
    → Spares p h g
    → a ≢ p
    → t ≢ p
    → Absent address p cs
    → Linked a t h cs
    → Linked a t g cs
Linked-Spares a t p h g cs s na nt out l = record {
  head = s a na ∙ l.head;
  chain = frame h g p a cs t s out l.chain;
  tail = s t nt ∙ l.tail;
  distinct = l.distinct;
  apart = l.apart;
  head_absent = l.head_absent;
  tail_absent = l.tail_absent;
}

-- `insertToHead` puts a node that stands apart in front of the others.
pub insert_to_head-Linked :
    (c : ChunkCache) (x : Cell) (cs : List Cell) (pv nx : Ptr)
    → Linked c.dummy_head c.dummy_tail c.heap cs
    → c.heap x.ptr ≡ node pv nx x.id (some x.chunk)
    → x.ptr ≢ c.dummy_head
    → x.ptr ≢ c.dummy_tail
    → Absent address x.ptr cs
    → (g : Heap) × (insert_to_head c x.ptr ≡ some (record c { heap = g }))
      × Linked c.dummy_head c.dummy_tail g (x ∷ cs)
unfolding insert_to_head set_next set_prev
insert_to_head-Linked c x cs pv nx l e na nt out =
    let p = x.ptr in
    let a = c.dummy_head in
    let t = c.dummy_tail in
    let h = c.heap in
    let n₁ = node null p 0 none in
    let h₁ : Heap = store h a n₁ in
    let n₂ = node a nx x.id (some x.chunk) in
    let h₂ : Heap = store h₁ p n₂ in
    let e₁ : h₁ p ≡ node pv nx x.id (some x.chunk) = store_other h a n₁ p na ∙ e in
    let an : a ≢ p = λ q. na (sym q) in
    let tn : t ≢ p = λ q. nt (sym q) in
    let ta : t ≢ a = λ q. l.apart (sym q) in
    let c₁ = frame h h₁ a a cs t (λ q ne. store_other h a n₁ q ne) l.head_absent l.chain in
    let c₂ = frame h₁ h₂ p a cs t (λ q ne. store_other h₁ p n₂ q ne) out c₁ in
    let t₂ = store_other h₁ p n₂ t tn ∙ store_other h a n₁ t ta ∙ l.tail in
    let r = set_prev_first h₂ a p t null 0 none cs t₂ c₂ l.tail_absent l.distinct in
    let e₃ : r.heap p ≡ n₂ = r.spares p (first-ne p t cs nt out) ∙ store_same h₁ p n₂ in
    let n₄ = node a (first cs t) x.id (some x.chunk) in
    let h₄ : Heap = store r.heap p n₄ in
    (
      h₄,
      rw (l.head, e₁, r.returns, e₃) refl,
      record {
        head =
            store_other r.heap p n₄ a an
            ∙ r.spares a (first-ne a t cs l.apart l.head_absent)
            ∙ store_other h₁ p n₂ a an
            ∙ store_same h a n₁;
        chain = (
          store_same r.heap p n₄,
          frame r.heap h₄ p p cs t (λ q ne. store_other r.heap p n₄ q ne) out r.chain,
        );
        tail = store_other r.heap p n₄ t tn ∙ r.end;
        distinct = (out, l.distinct);
        apart = l.apart;
        head_absent = (an, l.head_absent);
        tail_absent = (tn, l.tail_absent);
      },
    )

-- What the two writes of an unlinking leave: the node itself is as it was.
pub record Unlinked (a t : Ptr) (h : Heap) (xs : List Cell) (x : Cell) (ys : List Cell)
    : Type 0 where
  pub held : h x.ptr ≡ node (last a xs) (first ys t) x.id (some x.chunk)
  pub between : Heap
  pub heap : Heap
  pub first_write : set_next h (last a xs) (first ys t) ≡ some between
  pub second_write : set_prev between (first ys t) (last a xs) ≡ some heap
  pub linked : Linked a t heap (xs ++ ys)
  pub kept : heap x.ptr ≡ h x.ptr
  pub head_apart : x.ptr ≢ a
  pub tail_apart : x.ptr ≢ t
  pub out : Absent address x.ptr (xs ++ ys)

pub Linked-Unlinked :
    (a t : Ptr) (h : Heap) (xs : List Cell) (x : Cell) (ys : List Cell)
    → Linked a t h (xs ++ x ∷ ys)
    → Unlinked a t h xs x ys
Linked-Unlinked a t h xs x ys l =
    let (c₁, (held, c₂)) = Chain-append h a xs (x ∷ ys) t l.chain in
    let (d₁, (d₂, d₃), ap₁) = Distinct-append address xs (x ∷ ys) l.distinct in
    let ap₂ = Apart-tail address xs x ys ap₁ in
    let out₁ = Apart-head address xs x ys ap₁ in
    let (ha₁, (hax, ha₂)) = Absent-append address a xs (x ∷ ys) l.head_absent in
    let (ta₁, (tax, ta₂)) = Absent-append address t xs (x ∷ ys) l.tail_absent in
    let ta : t ≢ a = λ q. l.apart (sym q) in
    let head₀ = l.head ∙ ap (λ n. node null n 0 none) (first-append xs (x ∷ ys) t) in
    let r = set_next_last h a null 0 none xs x.ptr (first ys t) head₀ c₁ ha₁ d₁ in
    let tail₁ =
      r.spares t (Absent-last t a xs ta ta₁)
      ∙ l.tail
      ∙ ap (λ n. node n null 0 none) (last-append a xs (x ∷ ys)) in
    let c₂' = frame h r.heap (last a xs) x.ptr ys t r.spares (last-Absent a xs ys ha₂ ap₂) c₂ in
    let s = set_prev_first r.heap x.ptr (last a xs) t null 0 none ys tail₁ c₂' ta₂ d₃ in
    let c₁' =
      frame r.heap s.heap (first ys t) a xs (first ys t) s.spares (first-Absent t xs ys ta₁ ap₂)
        r.chain in
    record {
      held = held;
      between = r.heap;
      heap = s.heap;
      first_write = r.returns;
      second_write = s.returns;
      linked = record {
        head =
            s.spares a (first-ne a t ys l.apart ha₂)
            ∙ r.start
            ∙ ap (λ n. node null n 0 none) (sym (first-append xs ys t));
        chain = Chain-join s.heap a xs ys t c₁' s.chain;
        tail = s.end ∙ ap (λ n. node n null 0 none) (sym (last-append a xs ys));
        distinct = Distinct-join address xs ys d₁ d₃ ap₂;
        apart = l.apart;
        head_absent = Absent-join address a xs ys ha₁ ha₂;
        tail_absent = Absent-join address t xs ys ta₁ ta₂;
      };
      kept =
          s.spares x.ptr (first-ne x.ptr t ys (λ q. tax (sym q)) d₂)
          ∙ r.spares x.ptr (Absent-last x.ptr a xs (λ q. hax (sym q)) out₁);
      head_apart = λ q. hax (sym q);
      tail_apart = λ q. tax (sym q);
      out = Absent-join address x.ptr xs ys out₁ d₂;
    }
