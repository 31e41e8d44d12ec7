-- ===== src/Stdio.antt =====
-- The calls of <cstdio> that storage.cpp makes, on an open stream: its items (bytes, or the 16-byte
-- records of the meta file) and its position, counted in items. A full disk is not modelled.
use chunk_grouping.Prelude.{
  ℕ, ◌+◌, ◌≡◌, refl, ap, List, ◌++◌, length, take, drop, take_all, drop_all, append-nil,
  length-append, arith,
}

pub record Stream {ℓ} (A : Type ℓ) : Type ℓ where
  pub items : List A
  pub pos : ℕ

module _ {ℓ} {A : Type ℓ} where
  abbrev pub ftell : Stream A → ℕ
  ftell f = f.pos

  abbrev pub fseek_set : Stream A → ℕ → Stream A
  fseek_set f n = record f { pos = n }

  abbrev pub fseek_end : Stream A → Stream A
  fseek_end f = record f { pos = length f.items }

  -- `n` items from the position on, or as many as there are
  abbrev pub fread : Stream A → ℕ → List A × Stream A
  fread f n = let xs = take n (drop f.pos f.items) in (xs, record f { pos = f.pos + length xs })

  -- overwrites from the position on, and goes past the end where it has to
  unfoldable pub fwrite : Stream A → List A → Stream A
  fwrite f xs = record {
    items = take f.pos f.items ++ (xs ++ drop (f.pos + length xs) f.items);
    pos = f.pos + length xs;
  }

  abbrev pub IsAtEnd : Stream A → Type 0
  IsAtEnd f = f.pos ≡ length f.items

  -- At the end of a stream a write appends.
  pub items-fwrite : (f : Stream A) (xs : List A) → IsAtEnd f → (fwrite f xs).items ≡ f.items ++ xs
  unfolding fwrite
  items-fwrite f xs e = rw (
    take_all f.pos f.items (omega arith),
    drop_all (f.pos + length xs) f.items (omega arith),
    append-nil,
  )

  pos-fwrite : (f : Stream A) (xs : List A) → (fwrite f xs).pos ≡ f.pos + length xs
  unfolding fwrite
  pos-fwrite f xs = refl

  pub fwrite-IsAtEnd : (f : Stream A) (xs : List A) → IsAtEnd f → IsAtEnd (fwrite f xs)
  fwrite-IsAtEnd f xs e =
      omega (arith, ap length (items-fwrite f xs e), length-append f.items xs, pos-fwrite f xs)
