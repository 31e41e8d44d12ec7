-- ===== src/Pipeline/Order.antt =====
-- The chunks go through the pipeline in order, and no queue is longer than its bound.
use chunk_grouping.Prelude.{
  ℕ, ◌≤◌, ◌≡◌, refl, ap, subst, ◌>>=◌, ◌∙◌, Bool, ◌==◌, Bool-cases, inl, inr, Option, none, some,
  List, [], ◌∷◌, ◌++◌, append_assoc, append-nil, length, length-append, arith,
}
use chunk_grouping.Chunk.{Chunk}
use chunk_grouping.Dedup.{Dedup}
use chunk_grouping.Index.{Feature}
use chunk_grouping.Storage.{base_chunk, delta_chunk, duplicate_chunk}
use chunk_grouping.Compression.{Chunker, FeatureIndex}
use chunk_grouping.Pipeline.{Context, Pipeline, dedup_context, feature_context, match_context}
use chunk_grouping.Pipeline.Steps.{
  Step, chunk_take, chunk_end, chunk_put, dedup_take, dedup_end, dedup_put, feature_take,
  feature_end, feature_put, match_take, match_end, match_put, write_take, Steps, stay, then,
}

module _ {Float : Type 0} where
  abbrev pub queued : List (Context Float) → List Chunk
  queued [] = []
  queued (c ∷ cs) = c.chunk ∷ queued cs

  abbrev pub in_hand : Option (Context Float) → List Chunk
  in_hand none = []
  in_hand (some c) = c.chunk ∷ []

  queued-snoc :
      (cs : List (Context Float)) (c : Context Float)
      → queued (cs ++ c ∷ []) ≡ queued cs ++ c.chunk ∷ []
  queued-snoc [] c = refl
  queued-snoc (d ∷ cs) c = ap (◌∷◌ d.chunk) (queued-snoc cs c)

  dedup_context-chunk :
      {Digest : Type 0} (r : ℕ × Dedup Digest) (c : Context Float)
      → (dedup_context r c).chunk ≡ c.chunk
  unfolding dedup_context
  dedup_context-chunk (id, mp) c = elim (Bool-cases (id == c.chunk.id)) [
    | inl e ↦ rw e refl
    | inr e ↦ rw e refl
  ]

module _ {I Float : Type 0} (x : FeatureIndex Float I) where
  feature_context-chunk : (c : Context Float) → (feature_context x c).chunk ≡ c.chunk
  unfolding feature_context
  feature_context-chunk c = elim (Bool-cases (c.chunk_type == duplicate_chunk)) [
    | inl e ↦ rw e refl
    | inr e ↦ rw e refl
  ]

  -- A result, if there is one, has the chunk of `c`.
  abbrev Keeps : Context Float → Option (I × Context Float) → Type 0
  Keeps c none = Unit {0}
  Keeps c (some r) = r.1.chunk ≡ c.chunk

  bind-Keeps :
      {A : Type 0} (c : Context Float) (o : Option A) (f : A → Option (I × Context Float))
      → ((a : A) → Keeps c (f a))
      → Keeps c (o >>= f)
  bind-Keeps c none f h = tt
  bind-Keeps c (some a) f h = h a

  found-Keeps :
      (index : I) (c : Context Float) (feature : Feature Float) (found : Option ℕ)
      → Keeps c (elim found [
        | none ↦ do
          index' ← x.add_feature index feature c.chunk.id
          some (index', record c { chunk_type = base_chunk })
        | some id ↦ some (index, record c { chunk_type = delta_chunk; base_chunk_id = some id })
      ])
  found-Keeps index c feature none =
      bind-Keeps c (x.add_feature index feature c.chunk.id)
        (λ index'. some (index', record c { chunk_type = base_chunk })) (λ _. refl)
  found-Keeps index c feature (some id) = refl

  match_context-Keeps : (index : I) (c : Context Float) → Keeps c (match_context x index c)
  unfolding match_context
  match_context-Keeps index c = elim (Bool-cases (c.chunk_type == duplicate_chunk)) [
    | inl e ↦ rw e refl
    | inr e ↦ rw e (
        bind-Keeps c c.feature _ (λ feature.
          bind-Keeps c (x.get_base_chunk_id index feature) _ (found-Keeps index c feature)))
  ]

  match_context-chunk :
      (index index' : I) (c c' : Context Float)
      → match_context x index c ≡ some (index', c')
      → c'.chunk ≡ c.chunk
  match_context-chunk index index' c c' e = subst (Keeps c) e (match_context-Keeps index c)

module _ {C Digest I Float : Type 0} where
  -- what is between the first worker and the last, from the oldest chunk to the newest
  abbrev pub flight : Pipeline C Digest I Float → List Chunk
  flight s =
      queued s.matching.queue
      ++ (in_hand s.matching.held
          ++ (queued s.features.queue
              ++ (in_hand s.features.held
                  ++ (queued s.dedup.queue
                      ++ (in_hand s.dedup.held
                          ++ (queued s.chunking.queue ++ in_hand s.chunking.held))))))

  -- no queue has more contexts than its bound
  pub record IsBounded (s : Pipeline C Digest I Float) : Type 0 where
    pub chunk_bound : length s.chunking.queue ≤ 128
    pub dedup_bound : length s.dedup.queue ≤ 128
    pub feature_bound : length s.features.queue ≤ 128
    pub match_bound : length s.matching.queue ≤ 128

-- One more chunk behind eight lists, the ninth being empty.
append_last :
    (a b c d e f g h : List Chunk) (chunk : Chunk)
    → a ++ (b ++ (c ++ (d ++ (e ++ (f ++ (g ++ (h ++ chunk ∷ [])))))))
      ≡ (a ++ (b ++ (c ++ (d ++ (e ++ (f ++ (g ++ (h ++ [])))))))) ++ chunk ∷ []
append_last a b c d e f g h chunk = simp (append_assoc, append-nil)

module _ {Name C Digest I Float : Type 0} (chunker : Chunker Name C) (same : Digest → Digest → Bool)
    (sha1_hash : List ℕ → Digest) (x : FeatureIndex Float I) where
  Step-order :
      (s t : Pipeline C Digest I Float)
      → Step chunker same sha1_hash x s t
      → s.written ++ flight s ≡ s.given
      → t.written ++ flight t ≡ t.given
  Step-order s t (chunk_take _ chunker' chunk free e) o =
      append_last s.written (queued s.matching.queue) (in_hand s.matching.held)
        (queued s.features.queue) (in_hand s.features.held) (queued s.dedup.queue)
        (in_hand s.dedup.held) (queued s.chunking.queue) chunk
      ∙ ap (λ given. given ++ chunk ∷ []) (rw free.0 at o)
  Step-order s t (chunk_end _ chunker' free e) o = o
  Step-order s t (chunk_put _ c e h) o = rw (queued-snoc, append_assoc) (rw e at o)
  Step-order s t (dedup_take _ c rest free e) o = rw dedup_context-chunk (rw (free.0, e) at o)
  Step-order s t (dedup_end _ free e) o = o
  Step-order s t (dedup_put _ c e h) o = rw (queued-snoc, append_assoc) (rw e at o)
  Step-order s t (feature_take _ c rest free e) o =
      rw (feature_context-chunk x c) (rw (free.0, e) at o)
  Step-order s t (feature_end _ free e) o = o
  Step-order s t (feature_put _ c e h) o = rw (queued-snoc, append_assoc) (rw e at o)
  Step-order s t (match_take _ c c' rest index' free e m) o =
      rw (match_context-chunk x s.index index' c c' m) (rw (free.0, e) at o)
  Step-order s t (match_end _ free e) o = o
  Step-order s t (match_put _ c e h) o = rw (queued-snoc, append_assoc) (rw e at o)
  Step-order s t (write_take _ c rest writer' e w) o = rw append_assoc (rw e at o)

  Step-IsBounded :
      (s t : Pipeline C Digest I Float)
      → Step chunker same sha1_hash x s t
      → IsBounded s
      → IsBounded t
  Step-IsBounded s t (chunk_take _ chunker' chunk free e) b = omega arith
  Step-IsBounded s t (chunk_end _ chunker' free e) b = omega arith
  Step-IsBounded s t (chunk_put _ c e h) b = omega (arith, length-append s.chunking.queue (c ∷ []))
  Step-IsBounded s t (dedup_take _ c rest free e) b = omega (arith, ap length e)
  Step-IsBounded s t (dedup_end _ free e) b = omega arith
  Step-IsBounded s t (dedup_put _ c e h) b = omega (arith, length-append s.dedup.queue (c ∷ []))
  Step-IsBounded s t (feature_take _ c rest free e) b = omega (arith, ap length e)
  Step-IsBounded s t (feature_end _ free e) b = omega arith
  Step-IsBounded s t (feature_put _ c e h) b =
      omega (arith, length-append s.features.queue (c ∷ []))
  Step-IsBounded s t (match_take _ c c' rest index' free e m) b = omega (arith, ap length e)
  Step-IsBounded s t (match_end _ free e) b = omega arith
  Step-IsBounded s t (match_put _ c e h) b = omega (arith, length-append s.matching.queue (c ∷ []))
  Step-IsBounded s t (write_take _ c rest writer' e w) b = omega (arith, ap length e)

  -- After any steps of the five workers, from a pipeline where this holds: the chunks written, then
  -- those under way from the oldest on, are the chunks that the chunker gave out, in order, and no
  -- queue has more than 128 contexts.
  pub Steps-order :
      {s t : Pipeline C Digest I Float}
      → Steps chunker same sha1_hash x s t
      → s.written ++ flight s ≡ s.given
      → IsBounded s
      → (t.written ++ flight t ≡ t.given) × IsBounded t
  Steps-order stay o b = (o, b)
  Steps-order (then {t = t} {u = u} steps step) o b =
      let (o', b') = Steps-order steps o b in (Step-order t u step o', Step-IsBounded t u step b')
