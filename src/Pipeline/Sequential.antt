-- ===== src/Pipeline/Sequential.antt =====
-- The work of the workers without the queues: one chunk after the other, or one stage after the other.
use chunk_grouping.Prelude.{
  ℕ, ◌≡◌, refl, ap, ◌∙◌, Bool, Option, none, some, ◌>>=◌, List, [], ◌∷◌, ◌++◌, map,
}
use chunk_grouping.Chunk.{Chunk}
use chunk_grouping.Dedup.{Dedup, process_chunk}
use chunk_grouping.Compression.{FeatureIndex}
use chunk_grouping.Pipeline.{
  Context, Writer, new_context, dedup_context, feature_context, match_context, write_context,
}

-- What the workers have of their own: the table of digests, the index, the storage with the counters.
pub record Work (Digest I : Type 0) : Type 0 where
  pub mp : Dedup Digest
  pub index : I
  pub writer : Writer

module _ {Digest I Float : Type 0} (same : Digest → Digest → Bool) (sha1_hash : List ℕ → Digest)
    (x : FeatureIndex Float I) where
  abbrev pub processed : Dedup Digest → Context Float → ℕ × Dedup Digest
  processed mp c = process_chunk same sha1_hash mp c.chunk

  -- the four workers on one chunk
  abbrev pub work_on : Chunk → Work Digest I → Option (Work Digest I)
  work_on chunk w =
      let r = processed w.mp (new_context {Float = Float} chunk) in
      match_context x w.index (feature_context x (dedup_context r (new_context chunk))) >>= λ m.
      write_context w.writer m.1 >>= λ writer.
      some (record { mp = r.1; index = m.0; writer = writer })

  -- one chunk after the other
  abbrev pub sequential : Option (Work Digest I) → List Chunk → Option (Work Digest I)
  sequential w [] = w
  sequential w (chunk ∷ chunks) = sequential (w >>= work_on chunk) chunks

  pub sequential-snoc :
      (chunks : List Chunk) (chunk : Chunk) (w : Option (Work Digest I))
      → sequential w (chunks ++ chunk ∷ []) ≡ (sequential w chunks >>= work_on chunk)
  sequential-snoc [] chunk w = refl
  sequential-snoc (c ∷ chunks) chunk w = sequential-snoc chunks chunk (w >>= work_on c)

  pub sequential-none : (chunks : List Chunk) → sequential none chunks ≡ none
  sequential-none [] = refl
  sequential-none (c ∷ chunks) = sequential-none chunks

  -- one stage after the other
  abbrev pub dedup_all : Dedup Digest → List (Context Float) → Dedup Digest × List (Context Float)
  dedup_all mp [] = (mp, [])
  dedup_all mp (c ∷ cs) =
      let rest = dedup_all (processed mp c).1 cs in
      (rest.0, dedup_context (processed mp c) c ∷ rest.1)

  abbrev pub features_of : List (Context Float) → List (Context Float)
  features_of cs = map (λ c. feature_context x c) cs

  abbrev pub put_first :
      Context Float → Option (I × List (Context Float)) → Option (I × List (Context Float))
  put_first c none = none
  put_first c (some (index, cs)) = some (index, c ∷ cs)

  abbrev pub match_all : I → List (Context Float) → Option (I × List (Context Float))
  match_all index [] = some (index, [])
  match_all index (c ∷ cs) = match_context x index c >>= λ m. put_first m.1 (match_all m.0 cs)

  abbrev pub write_all : Writer → List (Context Float) → Option Writer
  write_all writer [] = some writer
  write_all writer (c ∷ cs) = write_context writer c >>= λ w. write_all w cs

  pub dedup_all-snoc :
      (cs : List (Context Float)) (c : Context Float) (mp : Dedup Digest)
      → (let r = processed (dedup_all mp cs).0 c in
          dedup_all mp (cs ++ c ∷ []) ≡ (r.1, (dedup_all mp cs).1 ++ dedup_context r c ∷ []))
  dedup_all-snoc [] c mp = refl
  dedup_all-snoc (d ∷ cs) c mp =
      ap (λ r. (r.0, dedup_context (processed mp d) d ∷ r.1)) (dedup_all-snoc cs c _)

  -- the matching of one context behind the others
  abbrev pub match_behind :
      Context Float → Option (I × List (Context Float)) → Option (I × List (Context Float))
  match_behind c o = o >>= λ r. match_context x r.0 c >>= λ m. some (m.0, r.1 ++ m.1 ∷ [])

  put_first-match_behind :
      (d c : Context Float) (o : Option (I × List (Context Float)))
      → put_first d (match_behind c o) ≡ match_behind c (put_first d o)
  put_first-match_behind d c none = refl
  put_first-match_behind d c (some (index, cs)) = go (match_context x index c)
    where
      go :
          (m : Option (I × Context Float))
          → put_first d (m >>= λ m. some (m.0, cs ++ m.1 ∷ []))
            ≡ (m >>= λ m. some (m.0, (d ∷ cs) ++ m.1 ∷ []))
      go none = refl
      go (some m) = refl

  pub match_all-snoc :
      (cs : List (Context Float)) (c : Context Float) (index : I)
      → match_all index (cs ++ c ∷ []) ≡ match_behind c (match_all index cs)
  match_all-snoc [] c index = refl
  match_all-snoc (d ∷ cs) c index =
      go (match_context x index d) (λ index'. match_all-snoc cs c index')
    where
      go :
          (m : Option (I × Context Float))
          → ((j : I) → match_all j (cs ++ c ∷ []) ≡ match_behind c (match_all j cs))
          → (m >>= λ m. put_first m.1 (match_all m.0 (cs ++ c ∷ [])))
            ≡ match_behind c (m >>= λ m. put_first m.1 (match_all m.0 cs))
      go none ih = refl
      go (some (j, d')) ih = ap (put_first d') (ih j) ∙ put_first-match_behind d' c (match_all j cs)

  pub write_all-append :
      (cs ds : List (Context Float)) (writer : Writer)
      → write_all writer (cs ++ ds) ≡ (write_all writer cs >>= λ w. write_all w ds)
  write_all-append [] ds writer = refl
  write_all-append (d ∷ cs) ds writer = go (write_context writer d) (λ w. write_all-append cs ds w)
    where
      go :
          (o : Option Writer)
          → ((w : Writer) → write_all w (cs ++ ds) ≡ (write_all w cs >>= λ w. write_all w ds))
          → (o >>= λ w. write_all w (cs ++ ds))
            ≡ ((o >>= λ w. write_all w cs) >>= λ w. write_all w ds)
      go none ih = refl
      go (some w) ih = ih w
