-- ===== src/Storage/Contents.antt =====
-- What `GetChunkContent` gives back: the storage as a list of byte strings, one to a record.
use chunk_grouping.Prelude.{
  ℕ, zero, suc, ◌+◌, ◌*◌, ◌/◌, ◌≤◌, ◌<◌, ◌^◌, ◌≡◌, refl, sym, ap, ap₂, subst₂, ◌∙◌, inl, inr, true,
  some, List, [], ◌∷◌, ◌++◌, length, length-append, length-take, take, drop, get_elem?,
  get_elem?-lt, get_elem?-append_left, get_elem?-append_length, get_elem?-snoc, slice-append_left,
  length-drop, drop-append_length, take_all, u16, arith,
}
use chunk_grouping.Chunk.{Chunk}
use chunk_grouping.Storage.{Storage, ChunkMeta, first_meta, read_meta, rewound, get_chunk_content}
use chunk_grouping.Storage.Append.{IsWhole, IsOpen, Appends}

-- Record `i` points at these bytes of the data file.
pub record Holds (s : Storage) (i : ℕ) (bytes : List ℕ) : Type 0 where
  pub meta : ChunkMeta
  pub found : get_elem? s.meta_file.items i ≡ some meta
  pub inside : meta.offset + meta.size ≤ length s.data_file.items
  pub points : take meta.size (drop meta.offset s.data_file.items) ≡ bytes

-- The storage holds these byte strings, in the order of their records.
pub record Stored (s : Storage) (contents : List (List ℕ)) : Type 0 where
  pub opened : IsOpen s
  pub count : length s.meta_file.items ≡ length contents
  pub holds : (i : ℕ) (bytes : List ℕ) → get_elem? contents i ≡ some bytes → Holds s i bytes

take-one {ℓ} :
    {A : Type ℓ} (xs : List A) (i : ℕ) (x : A)
    → get_elem? xs i ≡ some x
    → take 1 (drop i xs) ≡ x ∷ []
take-one [] i x e = cc
take-one (y ∷ xs) zero x e = cc
take-one (y ∷ xs) (suc i) x e = take-one xs i x e

pub read_meta_lem :
    (s : Storage) (i : ℕ) (m : ChunkMeta)
    → get_elem? s.meta_file.items i ≡ some m
    → read_meta s (i * 16) ≡ some m
unfolding read_meta
read_meta_lem s i m e =
    let place : i * 16 / 16 ≡ i = omega arith in
    ap (λ k. first_meta (take 1 (drop k s.meta_file.items))) place
    ∙ ap first_meta (take-one s.meta_file.items i m e)

pub rewound_lem : (s : Storage) → IsOpen s → rewound s ≡ s
unfolding rewound
rewound_lem s o =
    ap₂
      (λ p q. record s {
        data_file = record { items = s.data_file.items; pos = p };
        meta_file = record { items = s.meta_file.items; pos = q };
      })
      (sym o.data_end) (sym o.meta_end)

-- `GetChunkContent` reads the part of the data file that the record names.
pub get_chunk_content_at :
    (s : Storage) (i : ℕ) (m : ChunkMeta)
    → IsOpen s
    → get_elem? s.meta_file.items i ≡ some m
    → get_chunk_content s i
      ≡ some (
        record {
          buf = take m.size (drop m.offset s.data_file.items);
          needs_to_free = true;
          len = m.size;
          id = i;
        },
        s,
      )
unfolding get_chunk_content
get_chunk_content_at s i m o e = rw (read_meta_lem s i m e) λ j. some (
  record {
    buf = take m.size (drop m.offset s.data_file.items);
    needs_to_free = true;
    len = m.size;
    id = i;
  },
  rewound_lem s o j,
)

-- `GetChunkContent` gives the bytes of the record that the number names, and leaves the storage as
-- it was.
pub get_chunk_content-Stored :
    (s : Storage) (contents : List (List ℕ)) (i : ℕ) (bytes : List ℕ)
    → Stored s contents
    → get_elem? contents i ≡ some bytes
    → get_chunk_content s i
      ≡ some (record { buf = bytes; needs_to_free = true; len = length bytes; id = i }, s)
get_chunk_content-Stored s contents i bytes st e =
    let h = st.holds i bytes e in
    let size : h.meta.size ≡ length bytes = omega (
      arith,
      ap length h.points,
      length-take h.meta.size (drop h.meta.offset s.data_file.items),
      h.inside,
      length-drop h.meta.offset s.data_file.items,
    ) in
    get_chunk_content_at s i h.meta st.opened h.found
    ∙ (λ j. some (record { buf = h.points j; needs_to_free = true; len = size j; id = i }, s))

module _ (s s' : Storage) (c : Chunk) (base_chunk_id type : ℕ) (contents : List (List ℕ))
    (a : Appends s s' c base_chunk_id type) where
  old-Holds : (i : ℕ) (bytes : List ℕ) → Holds s i bytes → Holds s' i bytes
  old-Holds i bytes h = record {
    meta = h.meta;
    found =
        ap (λ ms. get_elem? ms i) a.meta_items
        ∙ get_elem?-append_left s.meta_file.items _ i
            (get_elem?-lt s.meta_file.items i h.meta h.found)
        ∙ h.found;
    inside = omega (arith, h.inside, ap length a.data_items, length-append s.data_file.items c.buf);
    points =
        ap (λ bs. take h.meta.size (drop h.meta.offset bs)) a.data_items
        ∙ slice-append_left h.meta.offset h.meta.size s.data_file.items c.buf h.inside
        ∙ h.points;
  }

  new-Holds : IsWhole c → c.len < 2 ^ 16 → Holds s' (length s.meta_file.items) c.buf
  new-Holds w short =
      let size : u16 c.len ≡ length c.buf = omega arith in
      record {
        meta = record {
          offset = length s.data_file.items;
          base_chunk_id = base_chunk_id;
          size = u16 c.len;
          type = type;
        };
        found =
            ap (λ ms. get_elem? ms (length s.meta_file.items)) a.meta_items
            ∙ get_elem?-append_length s.meta_file.items _ [] (length s.meta_file.items) refl;
        inside = omega (arith, ap length a.data_items, length-append s.data_file.items c.buf);
        points =
            ap (λ bs. take (u16 c.len) (drop (length s.data_file.items) bs)) a.data_items
            ∙ ap (take (u16 c.len))
                (drop-append_length (length s.data_file.items) s.data_file.items c.buf refl)
            ∙ take_all (u16 c.len) c.buf (omega arith);
      }

  appended-Holds :
      IsWhole c
      → c.len < 2 ^ 16
      → Stored s contents
      → (i : ℕ) (bytes : List ℕ) → get_elem? (contents ++ c.buf ∷ []) i ≡ some bytes
      → Holds s' i bytes
  appended-Holds w short st i bytes e = elim (get_elem?-snoc contents c.buf bytes i e) [
    | inl (lt, old) ↦ old-Holds i bytes (st.holds i bytes old)
    | inr (at, new) ↦ subst₂ (λ j bs. Holds s' j bs) (st.count ∙ sym at) new (new-Holds w short)
  ]

-- A chunk that is appended keeps what is stored, and is stored behind it.
pub Appends-Stored :
    (s s' : Storage) (c : Chunk) (base_chunk_id type : ℕ) (contents : List (List ℕ))
    → Appends s s' c base_chunk_id type
    → IsWhole c
    → c.len < 2 ^ 16
    → length s.data_file.items + c.len < 2 ^ 64
    → Stored s contents
    → Stored s' (contents ++ c.buf ∷ [])
Appends-Stored s s' c base_chunk_id type contents a w short room st = record {
  opened = record {
    data_end = a.data_end;
    meta_end = a.meta_end;
    small = omega (arith, ap length a.data_items, length-append s.data_file.items c.buf);
  };
  count = omega (
    arith,
    ap length a.meta_items,
    length-append s.meta_file.items,
    length-append contents (c.buf ∷ []),
    st.count,
  );
  holds = appended-Holds s s' c base_chunk_id type contents a w short st;
}
