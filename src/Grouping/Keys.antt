-- ===== src/Grouping/Keys.antt =====
-- storage/storage.cpp, `grouped_chunks` of `dividByBase`: the map in the order of its keys.
use chunk_grouping.Prelude.{
  ℕ, suc, ◌≤◌, ◌<◌, ◌≡◌, ◌≢◌, refl, inl, inr, Bool-cases, true, ◌==◌, ltb, Option, none, some, List,
  [], ◌∷◌, lookup, lookup_by, arith,
}
use chunk_grouping.Chunk.{Chunk}
use chunk_grouping.Grouping.{Groups, at_key}

-- The keys go up, from `lo` on.
abbrev pub Ascends : ℕ → Groups → Type 0
Ascends lo [] = Unit {0}
Ascends lo ((key, _) ∷ groups) = (lo ≤ key) × Ascends (suc key) groups

abbrev pub chunks_of : Option (List Chunk) → List Chunk
chunks_of none = []
chunks_of (some chunks) = chunks

pub lookup-Ascends :
    (lo key : ℕ) (groups : Groups) → Ascends lo groups → key < lo → lookup key groups ≡ none
unfolding lookup_by
lookup-Ascends lo key [] a lt = refl
lookup-Ascends lo key ((j, chunks) ∷ groups) (le, a) lt =
    ground (arith, lookup-Ascends (suc j) key groups a)

module _ (key : ℕ) (f : List Chunk → List Chunk) where
  pub at_key-Ascends :
      (lo : ℕ) (groups : Groups) → lo ≤ key → Ascends lo groups → Ascends lo (at_key key f groups)
  unfolding at_key
  at_key-Ascends lo [] le a = (le, tt)
  at_key-Ascends lo ((j, chunks) ∷ groups) le (lj, a) = elim (Bool-cases (key == j)) [
    | inl e ↦ rw e (lj, a)
    | inr e ↦ elim (Bool-cases (ltb key j)) [
      | inl lt ↦ rw (e, lt) (le, (ground arith, a))
      | inr ge ↦ rw (e, ge) (lj, at_key-Ascends (suc j) groups (ground arith) a)
    ]
  ]

  -- `grouped_chunks[key]` changes the entry of the key, a new one where it has none,
  pub lookup-at_key_same :
      (lo : ℕ) (groups : Groups)
      → Ascends lo groups
      → lookup key (at_key key f groups) ≡ some (f (chunks_of (lookup key groups)))
  unfolding at_key lookup_by
  lookup-at_key_same lo [] a = ground arith
  lookup-at_key_same lo ((j, chunks) ∷ groups) (lj, a) = elim (Bool-cases (key == j)) [
    | inl e ↦ rw (e, at_key, lookup_by) (rw e refl)
    | inr e ↦ elim (Bool-cases (ltb key j)) [
      | inl lt ↦
          let absent = lookup-Ascends (suc j) key groups a (ground arith) in
          let here : (key == key) ≡ true = ground arith in rw (e, lt, absent, here) refl
      | inr ge ↦ rw (e, ge) (rw e (lookup-at_key_same (suc j) groups a))
    ]
  ]

  -- and no other.
  pub lookup-at_key_other :
      (j : ℕ) (groups : Groups) → j ≢ key → lookup j (at_key key f groups) ≡ lookup j groups
  unfolding at_key lookup_by
  lookup-at_key_other j [] ne = ground arith
  lookup-at_key_other j ((i, chunks) ∷ groups) ne = elim (Bool-cases (key == i)) [
    | inl e ↦ ground arith
    | inr e ↦ elim (Bool-cases (ltb key i)) [
      | inl lt ↦ ground arith
      | inr ge ↦ rw (e, ge) (ground (arith, lookup-at_key_other j groups ne))
    ]
  ]
