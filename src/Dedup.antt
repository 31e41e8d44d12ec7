-- ===== src/Dedup.antt =====
-- dedup/dedup.h: the first chunk with a digest stands for the later ones. The digest of
-- utils/sha1.cpp, another project's code, is a parameter with the equality of its values.
use chunk_grouping.Prelude.{
  ℕ, ◌≡◌, ◌≢◌, refl, Bool, true, false, Option, none, some, List, [], ◌∷◌, take, lookup_by,
  insert_by, lookup_by-insert_by, Option-cases, inl, inr, ap, sym, ◌∙◌,
}
use chunk_grouping.Chunk.{Chunk}
mod Tests

-- `mp_`
abbrev pub Dedup {ℓ} : Type ℓ → Type ℓ
Dedup Digest = List (Digest × ℕ)

module _ {ℓ} {Digest : Type ℓ} (same : Digest → Digest → Bool) (sha1_hash : List ℕ → Digest) where
  -- `ProcessChunk`
  unfoldable pub process_chunk : Dedup Digest → Chunk → ℕ × Dedup Digest
  process_chunk mp chunk =
      let digest = sha1_hash (take chunk.len chunk.buf) in
      elim (lookup_by same digest mp) [
        | some id ↦ (id, mp)
        | none ↦ (chunk.id, insert_by same digest chunk.id mp)
      ]

  abbrev digest_of : Chunk → Digest
  digest_of c = sha1_hash (take c.len c.buf)

  process_known :
      (mp : Dedup Digest) (c : Chunk) (id : ℕ)
      → lookup_by same (digest_of c) mp ≡ some id
      → process_chunk mp c ≡ (id, mp)
  unfolding process_chunk
  process_known mp c id e = rw (process_chunk, e) refl

  process_new :
      (mp : Dedup Digest) (c : Chunk)
      → lookup_by same (digest_of c) mp ≡ none
      → process_chunk mp c ≡ (c.id, insert_by same (digest_of c) c.id mp)
  unfolding process_chunk
  process_new mp c e = rw (process_chunk, e) refl

  -- For digests that are the same as themselves: a chunk with an equal digest is processed to the
  -- same number as the chunk before it, and leaves the table as it is.
  pub process_chunk_twice :
      (mp : Dedup Digest) (c d : Chunk)
      → ((x : Digest) → same x x ≡ true)
      → sha1_hash (take c.len c.buf) ≡ sha1_hash (take d.len d.buf)
      → let (id, mp') = process_chunk mp c in process_chunk mp' d ≡ (id, mp')
  process_chunk_twice mp c d reflexive e = elim (Option-cases (lookup_by same (digest_of c) mp)) [
    | inl none_yet ↦ rw (process_new mp c none_yet) (
        process_known (insert_by same (digest_of c) c.id mp) d c.id (
          ap (λ x. lookup_by same x (insert_by same (digest_of c) c.id mp)) (sym e)
          ∙ lookup_by-insert_by same (digest_of c) c.id mp (reflexive (digest_of c))))
    | inr (id, known) ↦
        rw (process_known mp c id known)
          (process_known mp d id (ap (λ x. lookup_by same x mp) (sym e) ∙ known))
  ]
