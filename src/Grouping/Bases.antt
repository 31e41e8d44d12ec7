-- ===== src/Grouping/Bases.antt =====
-- storage/storage.cpp, `dividByBase` on the records of `AddFile`: the keys of the map that it returns.
use chunk_grouping.Prelude.{
  ℕ, ◌≤◌, ◌≡◌, refl, ◌∙◌, ◌||◌, false, none, List, [], ◌∷◌, ◌++◌, length, length-append, lookup,
  arith,
}
use chunk_grouping.Storage.{Storage, ChunkMeta}
use chunk_grouping.Storage.Based.{Based, nothing, base, delta, Based-lt}
use chunk_grouping.Grouping.{Compressors, Totals, divid_by_base}
use chunk_grouping.Grouping.Divide.{is_named, any_named, lookup-divid_by_base}
use chunk_grouping.Grouping.Weight.{KeysBelow, KeysBelow-lookup}

any_named-snoc :
    (key : ℕ) (metas : List ChunkMeta) (m : ChunkMeta)
    → any_named key (metas ++ m ∷ []) ≡ (any_named key metas || is_named key m)
any_named-snoc key [] m = ground arith
any_named-snoc key (x ∷ metas) m = ground (arith, any_named-snoc key metas m)

-- A number without a record has no entry.
Based-unnamed :
    (id : ℕ) {metas : List ChunkMeta} {bases : List ℕ}
    → Based metas bases
    → length metas ≤ id
    → any_named id metas ≡ false
Based-unnamed id nothing h = refl
Based-unnamed id (base metas bases m b type self) h =
    ground (arith, any_named-snoc id metas m, Based-unnamed id b, length-append metas (m ∷ []))
Based-unnamed id (delta metas bases m b type earlier) h = ground (
  arith,
  any_named-snoc id metas m,
  Based-unnamed id b,
  length-append metas (m ∷ []),
  Based-lt m.base_chunk_id b earlier,
)

-- On the records of `AddFile` the keys of the map are numbers of records.
pub divid_by_base-KeysBelow :
    (k : Compressors) (s : Storage) (bases : List ℕ) (t : Totals)
    → Based s.meta_file.items bases
    → KeysBelow (length s.meta_file.items) (divid_by_base k s t).0
divid_by_base-KeysBelow k s bases t b =
    KeysBelow-lookup 0 (length s.meta_file.items) (divid_by_base k s t).0
      (lookup-divid_by_base k s t 0).0 absent
  where
    absent : (key : ℕ) → length s.meta_file.items ≤ key → lookup key (divid_by_base k s t).0 ≡ none
    absent key h = (lookup-divid_by_base k s t key).1 ∙ rw (Based-unnamed key b h) refl
