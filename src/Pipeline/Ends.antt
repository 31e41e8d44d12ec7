-- ===== src/Pipeline/Ends.antt =====
-- A bound on the steps of a pipeline over a chunker that comes to its end.
use chunk_grouping.Prelude.{
  ℕ, zero, suc, ◌+◌, ◌*◌, ◌≤◌, ◌<◌, ◌≡◌, ◌⊎◌, inl, inr, Bool, true, false, Option, none, some, List,
  [], ◌∷◌, length, length-append, arith,
}
use chunk_grouping.Chunk.{Chunk}
use chunk_grouping.Compression.{Chunker, FeatureIndex}
use chunk_grouping.Pipeline.{Context, Place, Pipeline}
use chunk_grouping.Pipeline.Steps.{
  put, pop, hold, task_done, IsFree, IsDry, Step, chunk_take, chunk_end, chunk_put, dedup_take,
  dedup_end, dedup_put, feature_take, feature_end, feature_put, match_take, match_end, match_put,
  write_take, Steps, stay, then,
}
use chunk_grouping.Pipeline.Progress.{Faults, goes_on, faults, drained, progress}

abbrev pub count : {A : Type 0} → Option A → ℕ
count none = 0
count (some a) = 1

-- the end of the worker that is still to come
abbrev pub to_end : Bool → ℕ
to_end true = 0
to_end false = 1

-- the steps that are left for the contexts at a place, where each in its queue has `n` to go
abbrev pub to_go : {Float : Type 0} → ℕ → Place Float → ℕ
to_go n p = (n + 1) * count p.held + n * length p.queue + to_end p.done

-- the steps that are left for a pipeline whose chunker gives at most `k` chunks more
abbrev pub steps_left : {C Digest I Float : Type 0} → (C → ℕ) → Pipeline C Digest I Float → ℕ
steps_left left s =
    9 * left s.chunker
    + to_go 7 s.chunking
    + to_go 5 s.dedup
    + to_go 3 s.features
    + to_go 1 s.matching

-- From a state of `Valid`, each chunk that the chunker gives leaves it one fewer to give, and a state
-- of `Valid`.
abbrev pub IsCounting : {Name C : Type 0} → Chunker Name C → (C → Type 0) → (C → ℕ) → Type 0
IsCounting {C} chunker Valid left =
    (c c' : C) (o : Option Chunk)
    → Valid c
    → chunker.get_next_chunk c ≡ some (c', o)
    → Valid c' × (left c' + count o ≤ left c)

module _ {Float : Type 0} where
  to_go-put :
      (n : ℕ) (p : Place Float) (c : Context Float)
      → p.held ≡ some c
      → suc (to_go n (put p c)) ≡ to_go n p
  to_go-put n p c e = rw (e, length-append p.queue (c ∷ [])) (grind arith)

  to_go-pop :
      (n : ℕ) (p : Place Float) (c : Context Float) (rest : List (Context Float))
      → p.queue ≡ c ∷ rest
      → to_go n (pop p rest) + n ≡ to_go n p
  to_go-pop n p c rest e = rw e (grind arith)

  to_go-hold :
      (n : ℕ) (p : Place Float) (c : Context Float)
      → IsFree p
      → to_go n (hold p c) ≡ to_go n p + n + 1
  to_go-hold n p c (h, d) = rw (h, d) (grind arith)

  to_go-task_done : (n : ℕ) (p : Place Float) → IsFree p → suc (to_go n (task_done p)) ≡ to_go n p
  to_go-task_done n p (h, d) = rw d (omega arith)

module _ {Name C Digest I Float : Type 0} (chunker : Chunker Name C) (same : Digest → Digest → Bool)
    (sha1_hash : List ℕ → Digest) (x : FeatureIndex Float I) (Valid : C → Type 0) (left : C → ℕ)
    (counting : IsCounting chunker Valid left) where
  -- Every step leaves fewer, and the chunker in a valid state.
  Step-steps_left :
      (s t : Pipeline C Digest I Float)
      → Valid s.chunker
      → Step chunker same sha1_hash x s t
      → Valid t.chunker × (steps_left left t < steps_left left s)
  Step-steps_left s t v (chunk_take _ c chunk free e) =
      let (v', h) = counting s.chunker c (some chunk) v e in
      (v', omega (arith, h, to_go-hold 7 s.chunking _ free))
  Step-steps_left s t v (chunk_end _ c free e) =
      let (v', h) = counting s.chunker c none v e in
      (v', omega (arith, h, to_go-task_done 7 s.chunking free))
  Step-steps_left s t v (chunk_put _ c e h) = (v, omega (arith, to_go-put 7 s.chunking c e))
  Step-steps_left s t v (dedup_take _ c rest free e) =
      (v, omega (arith, to_go-pop 7 s.chunking c rest e, to_go-hold 5 s.dedup _ free))
  Step-steps_left s t v (dedup_end _ free e) = (v, omega (arith, to_go-task_done 5 s.dedup free))
  Step-steps_left s t v (dedup_put _ c e h) = (v, omega (arith, to_go-put 5 s.dedup c e))
  Step-steps_left s t v (feature_take _ c rest free e) =
      (v, omega (arith, to_go-pop 5 s.dedup c rest e, to_go-hold 3 s.features _ free))
  Step-steps_left s t v (feature_end _ free e) =
      (v, omega (arith, to_go-task_done 3 s.features free))
  Step-steps_left s t v (feature_put _ c e h) = (v, omega (arith, to_go-put 3 s.features c e))
  Step-steps_left s t v (match_take _ c c' rest i free e m) =
      (v, omega (arith, to_go-pop 3 s.features c rest e, to_go-hold 1 s.matching _ free))
  Step-steps_left s t v (match_end _ free e) = (v, omega (arith, to_go-task_done 1 s.matching free))
  Step-steps_left s t v (match_put _ c e h) = (v, omega (arith, to_go-put 1 s.matching c e))
  Step-steps_left s t v (write_take _ c rest w e m) =
      (v, omega (arith, to_go-pop 1 s.matching c rest e))

  pub Steps-Valid :
      {s t : Pipeline C Digest I Float}
      → Valid s.chunker
      → Steps chunker same sha1_hash x s t
      → Valid t.chunker
  Steps-Valid v stay = v
  Steps-Valid v (then {t = t} {u = u} r step) = (Step-steps_left t u (Steps-Valid v r) step).0

  abbrev pub step_count : {s t : Pipeline C Digest I Float} → Steps chunker same sha1_hash x s t → ℕ
  step_count stay = 0
  step_count (then steps step) = suc (step_count steps)

  -- No run takes more steps than are left at its start: nine for each chunk that the chunker can still
  -- give, two for each place that a context has before it and one more where it is held, and one for
  -- each worker that has not ended. It is said of a chunker in a valid state, where a valid state
  -- with each chunk that it gives has one fewer to give and stays valid, as a FastCDC chunker in the
  -- middle of a file. A wait on a condition is no step here.
  pub step_count-lt :
      {s t : Pipeline C Digest I Float} (r : Steps chunker same sha1_hash x s t)
      → Valid s.chunker
      → step_count r + steps_left left t ≤ steps_left left s
  step_count-lt stay v = omega arith
  step_count-lt (then {t = t} {u = u} r step) v =
      omega (arith, step_count-lt r v, (Step-steps_left t u (Steps-Valid v r) step).1)

  -- a run goes on to its end
  pub run_on :
      (fuel : ℕ) (s t : Pipeline C Digest I Float)
      → Valid t.chunker
      → Steps chunker same sha1_hash x s t
      → steps_left left t < fuel
      → (u : Pipeline C Digest I Float) × Steps chunker same sha1_hash x s u
        × (Faults chunker same sha1_hash x u ⊎ IsDry u.matching)
  run_on zero s t v r h = absurd (omega arith)
  run_on (suc fuel) s t v r h = elim (progress chunker same sha1_hash x t) [
    | goes_on u step ↦
        let (v', lt) = Step-steps_left t u v step in
        run_on fuel s u v' (then r step) (omega (arith, lt))
    | faults f ↦ (t, r, inl f)
    | drained dry ↦ (t, r, inr dry)
  ]
