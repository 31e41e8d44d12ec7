-- ===== src/Pipeline/Drained.antt =====
-- When the last worker's queue is empty and its flag is set, every chunk has been written.
use chunk_grouping.Prelude.{
  ℕ, ◌≡◌, refl, sym, ◌∙◌, Bool, true, none, some, List, [], ◌++◌, append-nil,
}
use chunk_grouping.Compression.{Chunker, FeatureIndex}
use chunk_grouping.Pipeline.{Context, Place, Pipeline}
use chunk_grouping.Pipeline.Steps.{
  put, pop, hold, task_done, IsFree, IsDry, Step, chunk_take, chunk_end, chunk_put, dedup_take,
  dedup_end, dedup_put, feature_take, feature_end, feature_put, match_take, match_end, match_put,
  write_take, Steps, stay, then,
}
use chunk_grouping.Pipeline.Order.{flight, IsBounded, Steps-order}

module _ {Float : Type 0} where
  -- A worker that has ended holds nothing.
  abbrev pub IsEnded : Place Float → Type 0
  IsEnded p = p.done ≡ true → p.held ≡ none

  -- It ended since the place before it was dry.
  abbrev pub Follows : Place Float → Place Float → Type 0
  Follows p q = q.done ≡ true → IsDry p × (q.held ≡ none)

  free-IsEnded : (p : Place Float) (c : Context Float) → IsFree p → IsEnded (hold p c)
  free-IsEnded p c free d = let f = free.1 in cc

  take-Follows :
      (p q : Place Float) (rest : List (Context Float)) (c : Context Float)
      → IsFree q
      → Follows (pop p rest) (hold q c)
  take-Follows p q rest c free d = let f = free.1 in absurd (cc)

  done-Follows : (p q : Place Float) → Follows p q → Follows (task_done p) q
  done-Follows p q l d = (((l d).0.0, refl), (l d).1)

  put-Follows :
      (p q : Place Float) (c : Context Float)
      → p.held ≡ some c
      → IsEnded p
      → Follows p q
      → Follows (put p c) q
  put-Follows p q c e h l d = let g = h (l d).0.1 in absurd (cc)

  last-Follows : (p q : Place Float) (c : Context Float) → Follows p q → Follows p (put q c)
  last-Follows p q c l d = ((l d).0, refl)

  pub Follows-IsEnded : (p q : Place Float) → Follows p q → IsEnded q
  Follows-IsEnded p q l d = (l d).1

module _ {C Digest I Float : Type 0} where
  abbrev pub IsClosed : Pipeline C Digest I Float → Type 0
  IsClosed s =
      IsEnded s.chunking
      × Follows s.chunking s.dedup
      × Follows s.dedup s.features
      × Follows s.features s.matching

module _ {Name C Digest I Float : Type 0} (chunker : Chunker Name C) (same : Digest → Digest → Bool)
    (sha1_hash : List ℕ → Digest) (x : FeatureIndex Float I) where
  Step-IsClosed :
      (s t : Pipeline C Digest I Float)
      → Step chunker same sha1_hash x s t
      → IsClosed s
      → IsClosed t
  Step-IsClosed s t (chunk_take _ chunker' chunk free e) (a, b, c, d) =
      (free-IsEnded s.chunking _ free, b, c, d)
  Step-IsClosed s t (chunk_end _ chunker' free e) (a, b, c, d) =
      ((λ _. free.0), done-Follows s.chunking s.dedup b, c, d)
  Step-IsClosed s t (chunk_put _ k e h) (a, b, c, d) =
      ((λ _. refl), put-Follows s.chunking s.dedup k e a b, c, d)
  Step-IsClosed s t (dedup_take _ k rest free e) (a, b, c, d) =
      (a, take-Follows s.chunking s.dedup rest _ free, c, d)
  Step-IsClosed s t (dedup_end _ free e) (a, b, c, d) =
      (a, (λ _. (e, free.0)), done-Follows s.dedup s.features c, d)
  Step-IsClosed s t (dedup_put _ k e h) (a, b, c, d) = (
    a,
    last-Follows s.chunking s.dedup k b,
    put-Follows s.dedup s.features k e (Follows-IsEnded s.chunking s.dedup b) c,
    d,
  )
  Step-IsClosed s t (feature_take _ k rest free e) (a, b, c, d) =
      (a, b, take-Follows s.dedup s.features rest _ free, d)
  Step-IsClosed s t (feature_end _ free e) (a, b, c, d) =
      (a, b, (λ _. (e, free.0)), done-Follows s.features s.matching d)
  Step-IsClosed s t (feature_put _ k e h) (a, b, c, d) = (
    a,
    b,
    last-Follows s.dedup s.features k c,
    put-Follows s.features s.matching k e (Follows-IsEnded s.dedup s.features c) d,
  )
  Step-IsClosed s t (match_take _ k k' rest index' free e m) (a, b, c, d) =
      (a, b, c, take-Follows s.features s.matching rest _ free)
  Step-IsClosed s t (match_end _ free e) (a, b, c, d) = (a, b, c, λ _. (e, free.0))
  Step-IsClosed s t (match_put _ k e h) (a, b, c, d) =
      (a, b, c, last-Follows s.features s.matching k d)
  Step-IsClosed s t (write_take _ k rest writer' e w) (a, b, c, d) = (a, b, c, d)

  pub Steps-IsClosed :
      {s t : Pipeline C Digest I Float}
      → Steps chunker same sha1_hash x s t
      → IsClosed s
      → IsClosed t
  Steps-IsClosed stay a = a
  Steps-IsClosed (then {t = t} {u = u} steps step) a =
      Step-IsClosed t u step (Steps-IsClosed steps a)

  pub flight-drained :
      (s : Pipeline C Digest I Float) → IsClosed s → IsDry s.matching → flight s ≡ []
  flight-drained s (a, b, c, d) dry =
      let (features, matching) = d dry.1 in
      let (dedup, feature) = c features.1 in
      let (chunking, held) = b dedup.1 in
      rw (dry.0, matching, features.0, feature, dedup.0, held, chunking.0, a chunking.1) refl

  -- After any steps from a pipeline that is in order and within its bounds, where a worker that has
  -- ended holds nothing and the place before it is dry: once the matching worker has set its flag
  -- and its queue is empty, what was written are the chunks that the chunker gave out, in order.
  pub Steps-drained :
      {s t : Pipeline C Digest I Float}
      → Steps chunker same sha1_hash x s t
      → s.written ++ flight s ≡ s.given
      → IsBounded s
      → IsClosed s
      → IsDry t.matching
      → t.written ≡ t.given
  Steps-drained {t = t} steps o b closed dry =
      let order = (Steps-order chunker same sha1_hash x steps o b).0 in
      let empty = flight-drained t (Steps-IsClosed steps closed) dry in
      sym (append-nil t.written) ∙ (rw empty at order)
