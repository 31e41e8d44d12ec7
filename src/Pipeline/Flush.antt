-- ===== src/Pipeline/Flush.antt =====
-- What the work of the pipeline comes to when all that is in it is worked off: a step leaves it as it
-- is, and a new chunk goes behind it.
use chunk_grouping.Prelude.{
  ℕ, ◌≡◌, refl, sym, ap, ◌∙◌, Bool, Option, none, some, ◌>>=◌, List, [], ◌∷◌, ◌++◌, append-nil,
  append_assoc,
}
use chunk_grouping.Dedup.{Dedup}
use chunk_grouping.Compression.{FeatureIndex}
use chunk_grouping.Pipeline.{
  Context, Place, Writer, dedup_context, feature_context, match_context, write_context,
}
use chunk_grouping.Pipeline.Steps.{put}
use chunk_grouping.Pipeline.Sequential.{
  Work, processed, dedup_all, features_of, put_first, match_all, write_all,
}

module _ {Float : Type 0} where
  abbrev pub hand : Option (Context Float) → List (Context Float)
  hand none = []
  hand (some c) = c ∷ []

  -- the contexts of a place, the oldest first
  abbrev pub waiting : Place Float → List (Context Float)
  waiting p = p.queue ++ hand p.held

  pub waiting-put :
      (p : Place Float) (c : Context Float) → p.held ≡ some c → waiting (put p c) ≡ waiting p
  waiting-put p c e = append-nil (p.queue ++ c ∷ []) ∙ ap (λ h. p.queue ++ hand h) (sym e)

  pub shift :
      (cs : List (Context Float)) (c : Context Float) (ds : List (Context Float))
      → (cs ++ []) ++ (c ∷ ds) ≡ (cs ++ c ∷ []) ++ ds
  shift cs c ds = ap (λ xs. xs ++ (c ∷ ds)) (append-nil cs) ∙ sym (append_assoc cs (c ∷ []) ds)

module _ {Digest I Float : Type 0} (same : Digest → Digest → Bool) (sha1_hash : List ℕ → Digest)
    (x : FeatureIndex Float I) where
  -- the writing behind the matching
  abbrev pub finish :
      Dedup Digest
      → Writer
      → List (Context Float)
      → Option (I × List (Context Float))
      → Option (Work Digest I)
  finish mp writer written o = o >>= λ r.
      write_all same sha1_hash x writer (written ++ r.1) >>= λ w.
      some (record { mp = mp; index = r.0; writer = w })

  -- the contexts of the four places are worked off
  abbrev pub flush_of :
      Dedup Digest → I → Writer → (ds fs ms ws : List (Context Float)) → Option (Work Digest I)
  flush_of mp index writer ds fs ms ws =
      let d = dedup_all same sha1_hash x mp ds in
      finish d.0 writer ws
        (match_all same sha1_hash x index (ms ++ features_of same sha1_hash x (fs ++ d.1)))

  pub flush_of-dedup :
      (mp : Dedup Digest) (index : I) (writer : Writer) (c : Context Float)
      (ds fs ms ws : List (Context Float))
      → (let r = processed same sha1_hash x mp c in
          flush_of mp index writer (c ∷ ds) (fs ++ []) ms ws
          ≡ flush_of r.1 index writer ds (fs ++ dedup_context r c ∷ []) ms ws)
  flush_of-dedup mp index writer c ds fs ms ws =
      let r = processed same sha1_hash x mp c in
      let d = dedup_all same sha1_hash x r.1 ds in
      ap
        (λ xs.
          finish d.0 writer ws
            (match_all same sha1_hash x index (ms ++ features_of same sha1_hash x xs)))
        (shift fs (dedup_context r c) d.1)

  pub flush_of-feature :
      (mp : Dedup Digest) (index : I) (writer : Writer) (c : Context Float)
      (ds fs ms ws : List (Context Float))
      → flush_of mp index writer ds (c ∷ fs) (ms ++ []) ws
        ≡ flush_of mp index writer ds fs (ms ++ feature_context x c ∷ []) ws
  flush_of-feature mp index writer c ds fs ms ws =
      let d = dedup_all same sha1_hash x mp ds in
      ap (λ xs. finish d.0 writer ws (match_all same sha1_hash x index xs))
        (shift ms (feature_context x c) (features_of same sha1_hash x (fs ++ d.1)))

  finish-put_first :
      (mp : Dedup Digest) (writer : Writer) (ws : List (Context Float)) (c : Context Float)
      (o : Option (I × List (Context Float)))
      → finish mp writer (ws ++ []) (put_first same sha1_hash x c o)
        ≡ finish mp writer (ws ++ c ∷ []) o
  finish-put_first mp writer ws c none = refl
  finish-put_first mp writer ws c (some (i, cs)) =
      ap
        (λ xs. write_all same sha1_hash x writer xs >>= λ w.
          some (record { mp = mp; index = i; writer = w }))
        (shift ws c cs)

  pub flush_of-match :
      (mp : Dedup Digest) (index index' : I) (writer : Writer) (c c' : Context Float)
      (ds fs ms ws : List (Context Float))
      → match_context x index c ≡ some (index', c')
      → flush_of mp index writer ds fs (c ∷ ms) (ws ++ [])
        ≡ flush_of mp index' writer ds fs ms (ws ++ c' ∷ [])
  flush_of-match mp index index' writer c c' ds fs ms ws e =
      let d = dedup_all same sha1_hash x mp ds in
      let rest =
        match_all same sha1_hash x index' (ms ++ features_of same sha1_hash x (fs ++ d.1)) in
      rw e (finish-put_first d.0 writer ws c' rest)

  pub flush_of-write :
      (mp : Dedup Digest) (index : I) (writer writer' : Writer) (c : Context Float)
      (ds fs ms ws : List (Context Float))
      → write_context writer c ≡ some writer'
      → flush_of mp index writer ds fs ms (c ∷ ws) ≡ flush_of mp index writer' ds fs ms ws
  flush_of-write mp index writer writer' c ds fs ms ws e =
      let d = dedup_all same sha1_hash x mp ds in
      go d.0 (match_all same sha1_hash x index (ms ++ features_of same sha1_hash x (fs ++ d.1)))
    where
      go :
          (mp : Dedup Digest) (o : Option (I × List (Context Float)))
          → finish mp writer (c ∷ ws) o ≡ finish mp writer' ws o
      go mp none = refl
      go mp (some r) = rw e refl
