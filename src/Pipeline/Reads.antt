-- ===== src/Pipeline/Reads.antt =====
-- FastCDC in the pipeline: its chunker counts down by the bytes that remain of the file.
use chunk_grouping.Prelude.{◌≡◌, ◌+◌, ◌≤◌, sym, subst₂, ◌∙◌, Option, none, some, arith}
use native.Mathlib.Decide.{ℕ_discrete}
use chunk_grouping.Chunk.{Chunk}
use chunk_grouping.FastCdc.{FastCdc, FileSystem}
use chunk_grouping.FastCdc.Step.{IsValid, get_next_chunk-Splits, get_next_chunk_end}
use chunk_grouping.FastCdc.File.{next-IsValid}
use chunk_grouping.Compression.{fast_cdc_chunker}
use chunk_grouping.Pipeline.Ends.{IsCounting, count}

module _ {Name : Type 0} (files : FileSystem Name) where
  -- it is enough to look at what the call gives
  counted :
      (c d c' : FastCdc) (p o : Option Chunk)
      → ◌≡◌ {A = Option (FastCdc × Option Chunk)} (some (d, p)) (some (c', o))
      → IsValid d
      → d.remaining_file_len + count p ≤ c.remaining_file_len
      → IsValid c' × (c'.remaining_file_len + count o ≤ c.remaining_file_len)
  counted c d c' p o e v h =
      let next : ◌≡◌ {A = FastCdc} d c' = cc in
      let given : ◌≡◌ {A = Option Chunk} p o = cc in
      subst₂
        (λ (x : FastCdc) (y : Option Chunk).
          IsValid x × (x.remaining_file_len + count y ≤ c.remaining_file_len))
        next given (v, h)

  -- a valid chunker has no more chunks to give than bytes remain
  pub fast_cdc-IsCounting : IsCounting (fast_cdc_chunker files) IsValid (λ c. c.remaining_file_len)
  fast_cdc-IsCounting c c' o v e = elim (ℕ_discrete c.remaining_file_len 0) [
    | yes z ↦ counted c c c' none o (sym (get_next_chunk_end c z) ∙ e) v (omega arith)
    | no ne ↦
        let s = get_next_chunk-Splits c v ne in
        counted c s.next c' (some s.chunk) o (sym s.returns ∙ e) (next-IsValid v s)
          (omega (arith, s.remaining, s.nonempty))
  ]
