-- ===== src/Mapping/Owners.antt =====
-- Every mapping has one owner: none is unmapped twice, and none is lost.
use chunk_grouping.Prelude.{
  ℕ, ◌+◌, ◌≤◌, ◌≡◌, refl, ap, Bool, true, false, Bool-cases, inl, inr, ◌==◌, if◌then◌else◌, Option,
  none, some, ◌>>=◌, List, [], ◌∷◌, arith,
}
use chunk_grouping.Mapping.{
  Mappings, Mapping, unmap_if, no_mapping, open_mapping, destroy, move_assign,
}

abbrev pub flag : Bool → ℕ
flag true = 1
flag false = 0

-- whether this is the mapping, as a number
abbrev pub has : ℕ → Option ℕ → ℕ
has i none = 0
has i (some a) = flag (a == i)

module _ {ℓ} {Name : Type ℓ} where
  abbrev pub owners : ℕ → List (Mapping Name) → ℕ
  owners i [] = 0
  owners i (file ∷ files) = has i file.mapped_addr + owners i files

  -- What is mapped has one owner among the files, and what is not has none; and what was not given
  -- out is not mapped.
  pub record IsOwned (w : Mappings) (files : List (Mapping Name)) : Type 0 where
    pub one : (i : ℕ) → owners i files ≡ flag (w.mapped i)
    pub fresh : (i : ℕ) → w.unused ≤ i → w.mapped i ≡ false

flag_le : (b : Bool) → flag b ≤ 1
flag_le true = omega arith
flag_le false = omega arith

-- unmapping what is owned by this one alone
unmap_if-owned :
    (w : Mappings) (o : Option ℕ) (k : ℕ → ℕ)
    → ((i : ℕ) → has i o + k i ≡ flag (w.mapped i))
    → ((i : ℕ) → w.unused ≤ i → w.mapped i ≡ false)
    → (w' : Mappings) × (unmap_if w o ≡ some w')
      × ((i : ℕ) → k i ≡ flag (w'.mapped i))
      × ((i : ℕ) → w'.unused ≤ i → w'.mapped i ≡ false)
unmap_if-owned w none k one fresh = (w, refl, (λ i. omega (arith, one i)), fresh)
unmap_if-owned w (some a) k one fresh = elim (Bool-cases (w.mapped a)) [
  | inl t ↦ (
    record w { mapped = λ i. if a == i then false else w.mapped i },
    rw t refl,
    (λ i. elim (Bool-cases (a == i)) [
      | inl e ↦ rw e (omega (arith, one i, ap flag e, flag_le (w.mapped i)))
      | inr e ↦ rw e (omega (arith, one i, ap flag e))
    ]),
    (λ i h. elim (Bool-cases (a == i)) [ inl e ↦ rw e refl | inr e ↦ rw e (fresh i h) ]),
  )
  | inr f ↦
      let self : (a == a) ≡ true = ground arith in
      absurd (omega (arith, one a, ap flag self, ap flag f))
]

module _ {ℓ} {Name : Type ℓ} where
  -- Where every mapping has one owner, the assignment from another object unmaps what this object
  -- had, never what is not mapped, gives it the mapping of the other, and leaves the other with none;
  -- and every mapping has one owner again.
  pub move_assign-IsOwned :
      (w : Mappings) (file other : Mapping Name) (files : List (Mapping Name))
      → IsOwned w (file ∷ other ∷ files)
      → (w' : Mappings) × (move_assign w file other ≡ some (w', (other, no_mapping)))
        × IsOwned w' (other ∷ no_mapping ∷ files)
  unfolding move_assign
  move_assign-IsOwned w file other files o =
      let (w', run, one, fresh) =
        unmap_if-owned w file.mapped_addr (λ i. has i other.mapped_addr + owners i files)
          (λ i. o.one i) o.fresh in
      (w', rw run refl, record { one = λ i. omega (arith, one i); fresh = fresh })

  -- the destructor keeps it for the other objects
  destroy-IsOwned :
      (w : Mappings) (file : Mapping Name) (files : List (Mapping Name))
      → IsOwned w (file ∷ files)
      → (w' : Mappings) × (destroy w file ≡ some w') × IsOwned w' files
  unfolding destroy
  destroy-IsOwned w file files o =
      let (w', run, one, fresh) =
        unmap_if-owned w file.mapped_addr (λ i. owners i files) (λ i. o.one i) o.fresh in
      (w', run, record { one = one; fresh = fresh })

  -- an object that is opened owns what it maps
  pub open_mapping-IsOwned :
      (w : Mappings) (name : Name) (len : Option ℕ) (files : List (Mapping Name))
      → IsOwned w files
      → let (w', file) = open_mapping w name len in IsOwned w' (file ∷ files)
  unfolding open_mapping
  open_mapping-IsOwned w name none files o = record {
    one = λ i. omega (arith, o.one i);
    fresh = o.fresh;
  }
  open_mapping-IsOwned w name (some len) files o = record {
    one = λ i. elim (Bool-cases (w.unused == i)) [
      | inl e ↦
          let out : w.mapped i ≡ false = o.fresh i (ground arith) in
          rw e (omega (arith, o.one i, ap flag out))
      | inr e ↦ rw e (omega (arith, o.one i))
    ];
    fresh = λ i h.
        let other : (w.unused == i) ≡ false = ground arith in rw other (o.fresh i (omega arith));
  }

  -- the destructors of these objects, one after the other
  abbrev pub destroy_all : Mappings → List (Mapping Name) → Option Mappings
  destroy_all w [] = some w
  destroy_all w (file ∷ files) = (destroy w file >>= λ w'. destroy_all w' files)

  -- Where every mapping has one owner, the destructors of the owners unmap each mapping, none of them
  -- twice, and in the end nothing is mapped.
  pub destroy_all-IsOwned :
      (w : Mappings) (files : List (Mapping Name))
      → IsOwned w files
      → (w' : Mappings) × (destroy_all w files ≡ some w') × ((i : ℕ) → w'.mapped i ≡ false)
  destroy_all-IsOwned w [] o = (w, refl, λ i. off (w.mapped i) (o.one i))
    where
      off : (b : Bool) → 0 ≡ flag b → b ≡ false
      off true e = absurd (omega arith)
      off false e = refl
  destroy_all-IsOwned w (file ∷ files) o =
      let (w₁, run, o₁) = destroy-IsOwned w file files o in
      let (w₂, rest, off) = destroy_all-IsOwned w₁ files o₁ in (w₂, rw run rest, off)
