-- ===== src/Grouping/Divide.antt =====
-- storage/storage.cpp, `dividByBase`: the map that it returns, against the records of the meta file.
use chunk_grouping.Prelude.{
  ℕ, ◌≡◌, refl, sym, ap, subst, ◌∙◌, inl, inr, Bool, Bool-cases, true, false, ◌||◌, ◌==◌,
  if◌then◌else◌, Option, none, some, List, [], ◌∷◌, ◌++◌, append-nil, append_assoc, lookup,
  lookup_by, arith,
}
use chunk_grouping.Chunk.{Chunk}
use chunk_grouping.Stdio.{Stream}
use chunk_grouping.Storage.{Storage, ChunkMeta, base_chunk, delta_chunk}
use chunk_grouping.Grouping.{
  Compressors, Totals, Groups, at_key, read_chunk, divid_record, divid_loop, divid_by_base,
}
use chunk_grouping.Grouping.Keys.{
  Ascends, chunks_of, at_key-Ascends, lookup-at_key_same, lookup-at_key_other,
}

-- A base or delta record with this base.
abbrev pub is_named : ℕ → ChunkMeta → Bool
is_named key m =
    if m.base_chunk_id == key
    then (if m.type == base_chunk then true else m.type == delta_chunk)
    else false

abbrev pub any_named : ℕ → List ChunkMeta → Bool
any_named key [] = false
any_named key (m ∷ metas) = is_named key m || any_named key metas

-- The chunk of a delta record with this base.
abbrev pub delta_of : Stream ℕ → ℕ → ChunkMeta → List Chunk
delta_of data_file key m =
    if m.base_chunk_id == key
    then (if m.type == delta_chunk then read_chunk data_file m ∷ [] else [])
    else []

abbrev pub deltas_of : Stream ℕ → ℕ → List ChunkMeta → List Chunk
deltas_of data_file key [] = []
deltas_of data_file key (m ∷ metas) = delta_of data_file key m ++ deltas_of data_file key metas

-- an entry, or none, with these chunks behind it
abbrev pub grown : Option (List Chunk) → Bool → List Chunk → Option (List Chunk)
grown (some chunks) named deltas = some (chunks ++ deltas)
grown none true deltas = some deltas
grown none false deltas = none

grown-grown :
    (o : Option (List Chunk)) (b c : Bool) (xs ys : List Chunk)
    → (b ≡ false → xs ≡ [])
    → grown (grown o b xs) c ys ≡ grown o (b || c) (xs ++ ys)
grown-grown (some chunks) b c xs ys h = ap some (append_assoc chunks xs ys)
grown-grown none true c xs ys h = refl
grown-grown none false true xs ys h = rw (h refl) refl
grown-grown none false false xs ys h = refl

delta_of-unnamed :
    (data_file : Stream ℕ) (key : ℕ) (m : ChunkMeta)
    → is_named key m ≡ false
    → delta_of data_file key m ≡ []
delta_of-unnamed data_file key m e = ground arith

grown-nothing : (o : Option (List Chunk)) → grown o false [] ≡ o
grown-nothing none = refl
grown-nothing (some chunks) = ap some (append-nil chunks)

-- a change of an entry that puts chunks behind it
lookup-at_key :
    (id key : ℕ) (f : List Chunk → List Chunk) (deltas : List Chunk) (groups : Groups)
    → Ascends 0 groups
    → ((chunks : List Chunk) → f chunks ≡ chunks ++ deltas)
    → lookup key (at_key id f groups)
      ≡ grown
          (lookup key groups)
          (if id == key then true else false)
          (if id == key then deltas else [])
lookup-at_key id key f deltas groups a adds = elim (Bool-cases (id == key)) [
  | inl e ↦
      let same : id ≡ key = ground arith in
      rw
        (
          e,
          subst (λ j. lookup j (at_key id f groups) ≡ some (f (chunks_of (lookup j groups)))) same
              (lookup-at_key_same id f 0 groups a),
        )
        (behind (lookup key groups))
  | inr e ↦
      rw (e, lookup-at_key_other id f key groups (ground arith))
        (sym (grown-nothing (lookup key groups)))
]
  where
    behind : (o : Option (List Chunk)) → some (f (chunks_of o)) ≡ grown o true deltas
    behind none = ap some (adds [])
    behind (some chunks) = ap some (adds chunks)

module _ (k : Compressors) (data_file : Stream ℕ) (m : ChunkMeta) (groups : Groups) (t : Totals)
    (a : Ascends 0 groups) where
  abbrev push : List Chunk → List Chunk
  push chunks = chunks ++ read_chunk data_file m ∷ []

  pub divid_record-Ascends : Ascends 0 (divid_record k data_file m (groups, t)).0
  unfolding divid_record
  divid_record-Ascends = elim (Bool-cases (m.type == base_chunk)) [
    | inl b ↦
        let d : (m.type == delta_chunk) ≡ false = ground arith in
        rw (b, d) (at_key-Ascends m.base_chunk_id (λ chunks. chunks) 0 groups (omega arith) a)
    | inr b ↦ elim (Bool-cases (m.type == delta_chunk)) [
      | inl d ↦ rw (b, d) (at_key-Ascends m.base_chunk_id push 0 groups (omega arith) a)
      | inr d ↦ rw (b, d) a
    ]
  ]

  pub lookup-divid_record :
      (key : ℕ)
      → lookup key (divid_record k data_file m (groups, t)).0
        ≡ grown (lookup key groups) (is_named key m) (delta_of data_file key m)
  unfolding divid_record
  lookup-divid_record key = elim (Bool-cases (m.type == base_chunk)) [
    | inl b ↦
        let d : (m.type == delta_chunk) ≡ false = ground arith in
        let e =
          lookup-at_key m.base_chunk_id key (λ chunks. chunks) [] groups a
            (λ chunks. sym (append-nil chunks)) in
        rw (b, d) e
    | inr b ↦ elim (Bool-cases (m.type == delta_chunk)) [
      | inl d ↦
          let e =
            lookup-at_key m.base_chunk_id key push (read_chunk data_file m ∷ []) groups a
              (λ chunks. refl) in
          rw (b, d) e
      | inr d ↦ rw (b, d) (unnamed (m.base_chunk_id == key))
    ]
  ]
    where
      unnamed :
          (b : Bool)
          → lookup key groups
            ≡ grown (lookup key groups) (if b then false else false) (if b then [] else [])
      unnamed true = sym (grown-nothing (lookup key groups))
      unnamed false = sym (grown-nothing (lookup key groups))

module _ (k : Compressors) (data_file : Stream ℕ) where
  pub divid_loop-Ascends :
      (metas : List ChunkMeta) (groups : Groups) (t : Totals)
      → Ascends 0 groups
      → Ascends 0 (divid_loop k data_file metas (groups, t)).0
  unfolding divid_loop
  divid_loop-Ascends [] groups t a = a
  divid_loop-Ascends (m ∷ metas) groups t a =
      divid_loop-Ascends metas _ _ (divid_record-Ascends k data_file m groups t a)

  pub lookup-divid_loop :
      (key : ℕ) (metas : List ChunkMeta) (groups : Groups) (t : Totals)
      → Ascends 0 groups
      → lookup key (divid_loop k data_file metas (groups, t)).0
        ≡ grown (lookup key groups) (any_named key metas) (deltas_of data_file key metas)
  unfolding divid_loop
  lookup-divid_loop key [] groups t a = sym (grown-nothing (lookup key groups))
  lookup-divid_loop key (m ∷ metas) groups t a =
      let next = divid_record k data_file m (groups, t) in
      lookup-divid_loop key metas next.0 next.1 (divid_record-Ascends k data_file m groups t a)
      ∙ ap (λ o. grown o (any_named key metas) (deltas_of data_file key metas))
          (lookup-divid_record k data_file m groups t a key)
      ∙ grown-grown (lookup key groups) (is_named key m) (any_named key metas)
          (delta_of data_file key m) (deltas_of data_file key metas)
          (delta_of-unnamed data_file key m)

grown-none :
    (b : Bool) (deltas : List Chunk) → grown none b deltas ≡ (if b then some deltas else none)
grown-none true deltas = refl
grown-none false deltas = refl

-- `dividByBase` returns a map with ascending keys. It has an entry for a number exactly where a base
-- or delta record names it as its base, and the entry has the chunks of the delta records that do,
-- in the order of the records.
pub lookup-divid_by_base :
    (k : Compressors) (s : Storage) (t : Totals) (key : ℕ)
    → (let groups = (divid_by_base k s t).0 in
        Ascends 0 groups
        × (lookup key groups ≡ (
            if any_named key s.meta_file.items
            then some (deltas_of s.data_file key s.meta_file.items)
            else none)))
unfolding divid_by_base lookup_by
lookup-divid_by_base k s t key = (
  divid_loop-Ascends k s.data_file s.meta_file.items [] t tt,
  lookup-divid_loop k s.data_file key s.meta_file.items [] t tt
      ∙ grown-none (any_named key s.meta_file.items) (deltas_of s.data_file key s.meta_file.items),
)
