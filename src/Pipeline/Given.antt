-- ===== src/Pipeline/Given.antt =====
-- What the chunker has given and what it still has to give are the chunks of the file.
use chunk_grouping.Prelude.{
  ℕ, ◌≡◌, refl, ap, sym, subst, ◌∙◌, Bool, true, false, none, some, List, [], ◌∷◌, ◌++◌,
  append_assoc,
}
use chunk_grouping.Chunk.{Chunk}
use chunk_grouping.Compression.{Chunker, FeatureIndex}
use chunk_grouping.Compression.Laws.{Yields}
use chunk_grouping.Pipeline.{Pipeline}
use chunk_grouping.Pipeline.Steps.{
  IsFree, Step, chunk_take, chunk_end, chunk_put, dedup_take, dedup_end, dedup_put, feature_take,
  feature_end, feature_put, match_take, match_end, match_put, write_take, Steps, stay, then,
}

module _ {Name C Digest I Float : Type 0} (chunker : Chunker Name C) (all : List Chunk) where
  -- `all` are the chunks that were given and those that the chunker will give.
  pub record IsGiving (s : Pipeline C Digest I Float) : Type 0 where
    pub rest : List Chunk
    pub last : C
    pub parts : s.given ++ rest ≡ all
    pub going : s.chunking.done ≡ false → Yields chunker s.chunker rest last
    pub ended : s.chunking.done ≡ true → rest ≡ []

  give :
      (s : Pipeline C Digest I Float) (c : C) (chunk : Chunk) (rest : List Chunk) (last : C)
      → Yields chunker s.chunker rest last
      → chunker.get_next_chunk s.chunker ≡ some (c, some chunk)
      → (more : List Chunk) × (rest ≡ chunk ∷ more) × Yields chunker c more last
  give s c chunk [] last y e = let clash = sym y ∙ e in cc
  give s c chunk (k ∷ more) last (t, gives, y) e =
      let both = sym gives ∙ e in
      let at : t ≡ c = cc in
      let same : k ≡ chunk = cc in
      (more, ap (λ k. k ∷ more) same, subst (λ t. Yields chunker t more last) at y)

  ends :
      (s : Pipeline C Digest I Float) (c : C) (rest : List Chunk) (last : C)
      → Yields chunker s.chunker rest last
      → chunker.get_next_chunk s.chunker ≡ some (c, none)
      → rest ≡ []
  ends s c [] last y e = refl
  ends s c (k ∷ more) last (t, gives, y) e = let clash = sym gives ∙ e in cc

  take-IsGiving :
      (s : Pipeline C Digest I Float) (c : C) (chunk : Chunk) (t : Pipeline C Digest I Float)
      → IsFree s.chunking
      → chunker.get_next_chunk s.chunker ≡ some (c, some chunk)
      → t.chunker ≡ c
      → t.given ≡ s.given ++ chunk ∷ []
      → t.chunking.done ≡ s.chunking.done
      → IsGiving s
      → IsGiving t
  take-IsGiving s c chunk t free e at given done g =
      let (more, split, y) = give s c chunk g.rest g.last (g.going free.1) e in
      record {
        rest = more;
        last = g.last;
        parts =
            rw given
              (append_assoc s.given (chunk ∷ []) more ∙ ap (◌++◌ s.given) (sym split) ∙ g.parts);
        going = λ _. rw at y;
        ended = λ d. let clash = sym d ∙ done ∙ free.1 in cc;
      }

  -- a step of another worker
  kept-IsGiving :
      (s t : Pipeline C Digest I Float)
      → t.chunker ≡ s.chunker
      → t.given ≡ s.given
      → t.chunking.done ≡ s.chunking.done
      → IsGiving s
      → IsGiving t
  kept-IsGiving s t at given done g = record {
    rest = g.rest;
    last = g.last;
    parts = rw given g.parts;
    going = rw (at, done) g.going;
    ended = rw done g.ended;
  }

  module _ (same : Digest → Digest → Bool) (sha1_hash : List ℕ → Digest)
      (x : FeatureIndex Float I) where
    Step-IsGiving :
        (s t : Pipeline C Digest I Float)
        → Step chunker same sha1_hash x s t
        → IsGiving s
        → IsGiving t
    Step-IsGiving s t (chunk_take _ c chunk free e) g =
        take-IsGiving s c chunk _ free e refl refl refl g
    Step-IsGiving s t (chunk_end _ c free e) g = record {
      rest = g.rest;
      last = g.last;
      parts = g.parts;
      going = λ d. cc;
      ended = λ _. ends s c g.rest g.last (g.going free.1) e;
    }
    Step-IsGiving s t (chunk_put _ c e h) g = kept-IsGiving s _ refl refl refl g
    Step-IsGiving s t (dedup_take _ c rest free e) g = kept-IsGiving s _ refl refl refl g
    Step-IsGiving s t (dedup_end _ free e) g = kept-IsGiving s _ refl refl refl g
    Step-IsGiving s t (dedup_put _ c e h) g = kept-IsGiving s _ refl refl refl g
    Step-IsGiving s t (feature_take _ c rest free e) g = kept-IsGiving s _ refl refl refl g
    Step-IsGiving s t (feature_end _ free e) g = kept-IsGiving s _ refl refl refl g
    Step-IsGiving s t (feature_put _ c e h) g = kept-IsGiving s _ refl refl refl g
    Step-IsGiving s t (match_take _ c c' rest i free e m) g = kept-IsGiving s _ refl refl refl g
    Step-IsGiving s t (match_end _ free e) g = kept-IsGiving s _ refl refl refl g
    Step-IsGiving s t (match_put _ c e h) g = kept-IsGiving s _ refl refl refl g
    Step-IsGiving s t (write_take _ c rest w e m) g = kept-IsGiving s _ refl refl refl g

    pub Steps-IsGiving :
        {s t : Pipeline C Digest I Float}
        → Steps chunker same sha1_hash x s t
        → IsGiving s
        → IsGiving t
    Steps-IsGiving stay g = g
    Steps-IsGiving (then {t = t} {u = u} r step) g = Step-IsGiving t u step (Steps-IsGiving r g)
