-- ===== src/Pipeline/Behind.antt =====
-- A new chunk goes behind all that is in the pipeline.
use mathlib.Core.List.{map-append}
use chunk_grouping.Prelude.{
  ℕ, ◌≡◌, refl, sym, ap, ◌∙◌, Bool, Option, none, some, ◌>>=◌, List, [], ◌∷◌, ◌++◌, append_assoc,
}
use chunk_grouping.Chunk.{Chunk}
use chunk_grouping.Dedup.{Dedup}
use chunk_grouping.Compression.{FeatureIndex}
use chunk_grouping.Pipeline.{
  Context, Writer, new_context, dedup_context, feature_context, match_context, write_context,
}
use chunk_grouping.Pipeline.Sequential.{
  Work, processed, work_on, dedup_all, features_of, match_all, write_all, dedup_all-snoc,
  match_behind, match_all-snoc, write_all-append,
}
use chunk_grouping.Pipeline.Flush.{finish, flush_of}

module _ {Digest I Float : Type 0} (same : Digest → Digest → Bool) (sha1_hash : List ℕ → Digest)
    (x : FeatureIndex Float I) where
  -- a chunk that is matched and written last, in either order of the two stages
  finish-match_behind :
      (mp : Dedup Digest) (writer : Writer) (ws : List (Context Float)) (chunk : Chunk)
      (o : Option (I × List (Context Float)))
      → (let r = processed same sha1_hash x mp (new_context {Float = Float} chunk) in
          finish same sha1_hash x r.1 writer ws (
            match_behind same sha1_hash x
              (feature_context x (dedup_context r (new_context chunk)))
              o)
          ≡ (finish same sha1_hash x mp writer ws o >>= work_on same sha1_hash x chunk))
  finish-match_behind mp writer ws chunk none = refl
  finish-match_behind mp writer ws chunk (some (i, cs)) =
      go (match_context x i c) ∙ sym (flat (write_all same sha1_hash x writer (ws ++ cs)))
    where
      r : ℕ × Dedup Digest
      r = processed same sha1_hash x mp (new_context {Float = Float} chunk)

      c : Context Float
      c = feature_context x (dedup_context r (new_context chunk))

      behind : (m : Option (I × Context Float)) → Option Writer → Option (Work Digest I)
      behind m w = w >>= λ w. m >>= λ m.
          write_context w m.1 >>= λ w'. some (record { mp = r.1; index = m.0; writer = w' })

      stays_none : (o : Option Writer) → none ≡ behind none o
      stays_none none = refl
      stays_none (some w) = refl

      written : (j : I) → Option Writer → Option (Work Digest I)
      written j o = o >>= λ w. some (record { mp = r.1; index = j; writer = w })

      one :
          (j : I) (d : Context Float) (o : Option Writer)
          → written j (o >>= λ w. some w) ≡ written j o
      one j d none = refl
      one j d (some w) = refl

      last :
          (j : I) (d : Context Float) (o : Option Writer)
          → written j (o >>= λ w. write_context w d >>= λ w. some w) ≡ behind (some (j, d)) o
      last j d none = refl
      last j d (some w) = one j d (write_context w d)

      go :
          (m : Option (I × Context Float))
          → finish same sha1_hash x r.1 writer ws (m >>= λ m. some (m.0, cs ++ m.1 ∷ []))
            ≡ behind m (write_all same sha1_hash x writer (ws ++ cs))
      go none = stays_none (write_all same sha1_hash x writer (ws ++ cs))
      go (some (j, d)) =
          ap (λ o. o >>= λ w. some (record { mp = r.1; index = j; writer = w }))
            (ap (write_all same sha1_hash x writer) (sym (append_assoc ws cs (d ∷ [])))
              ∙ write_all-append same sha1_hash x (ws ++ cs) (d ∷ []) writer)
          ∙ last j d (write_all same sha1_hash x writer (ws ++ cs))

      flat :
          (o : Option Writer)
          → ((o >>= λ w. some (record { mp = mp; index = i; writer = w }))
              >>= work_on same sha1_hash x chunk)
            ≡ behind (match_context x i c) o
      flat none = refl
      flat (some w) = refl

  pub flush_of-chunk :
      (mp : Dedup Digest) (index : I) (writer : Writer) (chunk : Chunk)
      (ds fs ms ws : List (Context Float))
      → flush_of same sha1_hash x mp index writer (ds ++ new_context chunk ∷ []) fs ms ws
        ≡ (flush_of same sha1_hash x mp index writer ds fs ms ws >>= work_on same sha1_hash x chunk)
  flush_of-chunk mp index writer chunk ds fs ms ws =
      let d = dedup_all same sha1_hash x mp ds in
      let r = processed same sha1_hash x d.0 (new_context {Float = Float} chunk) in
      let c : Context Float = dedup_context r (new_context chunk) in
      let of = λ (cs : List (Context Float)). features_of same sha1_hash x cs in
      let list : ms ++ of (fs ++ (d.1 ++ c ∷ []))
          ≡ (ms ++ of (fs ++ d.1)) ++ feature_context x c ∷ [] =
        ap (λ cs. ms ++ of cs) (sym (append_assoc fs d.1 (c ∷ [])))
        ∙ ap (◌++◌ ms) (map-append (λ c. feature_context x c) (fs ++ d.1) (c ∷ []))
        ∙ sym (append_assoc ms (of (fs ++ d.1)) (feature_context x c ∷ [])) in
      ap
        (λ e.
          finish same sha1_hash x e.0 writer ws
            (match_all same sha1_hash x index (ms ++ of (fs ++ e.1))))
        (dedup_all-snoc same sha1_hash x ds (new_context chunk) mp)
      ∙ ap (λ cs. finish same sha1_hash x r.1 writer ws (match_all same sha1_hash x index cs)) list
      ∙ ap (finish same sha1_hash x r.1 writer ws)
          (match_all-snoc same sha1_hash x (ms ++ of (fs ++ d.1)) (feature_context x c) index)
      ∙ finish-match_behind d.0 writer ws chunk
          (match_all same sha1_hash x index (ms ++ of (fs ++ d.1)))
