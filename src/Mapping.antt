-- ===== src/Mapping.antt =====
-- utils/mapped_file.h: who owns a mapping. The mappings of the process are numbers, with a test for
-- those that are mapped now; an object has the number of its mapping, or none for `nullptr`. `none` as
-- the answer of an operation is a `munmap` of what is not mapped.
pub mod Owners
mod Tests
use chunk_grouping.Prelude.{
  ℕ, ◌+◌, ◌-◌, Bool, true, false, ◌==◌, if◌then◌else◌, Option, none, some, ◌>>=◌, List, [], ◌∷◌,
}

-- the mappings, as `mmap` and `munmap` keep them; `unused` is a number that was not given out yet
pub record Mappings : Type 0 where
  pub mapped : ℕ → Bool
  pub unused : ℕ

-- `mapped_file`
pub record Mapping {ℓ} (Name : Type ℓ) : Type ℓ where
  pub mapped_addr : Option ℕ
  pub mapped_len : ℕ
  pub file_name : Option Name

-- `munmap`
abbrev pub munmap : Mappings → ℕ → Option Mappings
munmap w a =
    if w.mapped a
    then some (record w { mapped = λ i. if a == i then false else w.mapped i })
    else none

-- `if (mapped_addr) munmap(mapped_addr, mapped_len)`
abbrev pub unmap_if : Mappings → Option ℕ → Option Mappings
unmap_if w none = some w
unmap_if w (some a) = munmap w a

module _ {ℓ} {Name : Type ℓ} where
  -- the default constructor, and an object whose mapping was moved away; `none` is the empty name
  abbrev pub no_mapping : Mapping Name
  no_mapping = record { mapped_addr = none; mapped_len = 0; file_name = none }

  -- the constructor for a file of this length; `none` where `open` or `mmap` fails
  unfoldable pub open_mapping : Mappings → Name → Option ℕ → Mappings × Mapping Name
  open_mapping w name none = (w, no_mapping)
  open_mapping w name (some len) = (
    record w { mapped = λ i. if w.unused == i then true else w.mapped i; unused = w.unused + 1 },
    record { mapped_addr = some w.unused; mapped_len = len; file_name = some name },
  )

  -- the destructor
  unfoldable pub destroy : Mappings → Mapping Name → Option Mappings
  destroy w file = unmap_if w file.mapped_addr

  -- the assignment from another object: the mappings, this object, and the other
  unfoldable pub move_assign :
      Mappings → Mapping Name → Mapping Name → Option (Mappings × (Mapping Name × Mapping Name))
  move_assign w file other = do w' ← unmap_if w file.mapped_addr; some (w', (other, no_mapping))

  -- the move constructor, whose object has no mapping before
  unfoldable pub move_construct :
      Mappings → Mapping Name → Option (Mappings × (Mapping Name × Mapping Name))
  unfolding move_assign
  move_construct w other = move_assign w no_mapping other
