-- ===== src/Storage/Coherent.antt =====
-- Cache entries against the stored bytes: a lookup and an insertion keep them the same.
use chunk_grouping.Prelude.{
  ℕ, ◌≡◌, refl, sym, ap, ◌∙◌, ◌⊎◌, inl, inr, Bool, true, false, ◌==◌, if◌then◌else◌, Bool-cases,
  Option, none, some, List, [], ◌∷◌, get_elem?, arith,
}
use chunk_grouping.Chunk.{Chunk}
use chunk_grouping.Cache.Lru.{Entries, find, without, touched, drop_last}

-- Every entry is a chunk with the bytes that the storage holds under its number.
abbrev pub Coherent : List (List ℕ) → Entries → Type 0
Coherent contents es =
    (k : ℕ) (chunk : Chunk) → find k es ≡ some chunk → get_elem? contents k ≡ some chunk.buf

-- where an entry of a list stands
found_cons :
    (j k : ℕ) (x : Chunk) (es : Entries) (chunk : Chunk)
    → find j ((k, x) ∷ es) ≡ some chunk
    → ((j ≡ k) × (x ≡ chunk)) ⊎ (((j == k) ≡ false) × (find j es ≡ some chunk))
found_cons j k x es chunk e = elim (Bool-cases (j == k)) [
  | inl t ↦
      let here : find j ((k, x) ∷ es) ≡ some x = rw t refl in
      let same : some x ≡ some chunk = sym here ∙ e in inl (ground arith, cc)
  | inr f ↦ let later : find j ((k, x) ∷ es) ≡ find j es = rw f refl in inr (f, sym later ∙ e)
]

pub find_here :
    (j : ℕ) (x chunk : Chunk) (k : ℕ) (es : Entries)
    → j ≡ k
    → x ≡ chunk
    → find j ((k, x) ∷ es) ≡ some chunk
find_here j x chunk k es at same = let t : (j == k) ≡ true = ground arith in rw (t, same) refl

find_later :
    (j k : ℕ) (x : Chunk) (es : Entries) → (j == k) ≡ false → find j ((k, x) ∷ es) ≡ find j es
find_later j k x es f = rw f refl

find-without :
    (j k : ℕ) (es : Entries) (chunk : Chunk)
    → (j == k) ≡ false
    → find j (without k es) ≡ some chunk
    → find j es ≡ some chunk
find-without j k [] chunk ne e = cc
find-without j k ((i, x) ∷ es) chunk ne e = elim (Bool-cases (k == i)) [
  | inl t ↦
      let other : (j == i) ≡ false = ground arith in
      let tail : find j (without k ((i, x) ∷ es)) ≡ find j es = rw t refl in
      find_later j i x es other ∙ sym tail ∙ e
  | inr f ↦
      let kept : find j (without k ((i, x) ∷ es)) ≡ find j ((i, x) ∷ without k es) = rw f refl in
      elim (found_cons j i x (without k es) chunk (sym kept ∙ e)) [
        | inl (at, same) ↦ find_here j x chunk i es at same
        | inr (g, there) ↦ find_later j i x es g ∙ find-without j k es chunk ne there
      ]
]

find-drop_last :
    (j : ℕ) (es : Entries) (chunk : Chunk)
    → find j (drop_last es) ≡ some chunk
    → find j es ≡ some chunk
find-drop_last j [] chunk e = cc
find-drop_last j (x ∷ []) chunk e = cc
find-drop_last j ((i, x) ∷ y ∷ es) chunk e = elim (found_cons j i x (drop_last (y ∷ es)) chunk e) [
  | inl (at, same) ↦ find_here j x chunk i (y ∷ es) at same
  | inr (g, there) ↦ find_later j i x (y ∷ es) g ∙ find-drop_last j (y ∷ es) chunk there
]

module _ (contents : List (List ℕ)) where
  Coherent-cons :
      (es : Entries) (k : ℕ) (chunk : Chunk)
      → get_elem? contents k ≡ some chunk.buf
      → ((j : ℕ) (c : Chunk)
          → (j == k) ≡ false
          → find j es ≡ some c
          → get_elem? contents j ≡ some c.buf)
      → Coherent contents ((k, chunk) ∷ es)
  Coherent-cons es k chunk here there j c e = elim (found_cons j k chunk es c e) [
    | inl (at, same) ↦ ap (get_elem? contents) at ∙ here ∙ ap (λ (x : Chunk). some x.buf) same
    | inr (g, e') ↦ there j c g e'
  ]

  pub Coherent-touched :
      (es : Entries) (k : ℕ) → Coherent contents es → Coherent contents (touched k es (find k es))
  Coherent-touched es k co = go (find k es) refl
    where
      go : (r : Option Chunk) → find k es ≡ r → Coherent contents (touched k es r)
      go none e = co
      go (some chunk) e =
          Coherent-cons (without k es) k chunk (co k chunk e)
            (λ j c ne f. co j c (find-without j k es c ne f))

  pub Coherent-added :
      (es : Entries) (k : ℕ) (chunk : Chunk) (fit : Bool)
      → get_elem? contents k ≡ some chunk.buf
      → Coherent contents es
      → Coherent contents ((k, chunk) ∷ (if fit then es else drop_last es))
  Coherent-added es k chunk true here co = Coherent-cons es k chunk here (λ j c ne f. co j c f)
  Coherent-added es k chunk false here co =
      Coherent-cons (drop_last es) k chunk here (λ j c ne f. co j c (find-drop_last j es c f))
