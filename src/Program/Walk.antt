-- ===== src/Program/Walk.antt =====
-- main.cpp: the files of a directory, added one after the other with FastCDC.
use mathlib.Core.List.{map-append}
use chunk_grouping.Prelude.{
  ℕ, ◌+◌, ◌<◌, ◌^◌, ◌≡◌, refl, sym, ap, subst, ◌∙◌, Bool-cases, inl, inr, Option, List, [], ◌∷◌,
  ◌++◌, append-nil, map, length, length-append, arith,
}
use chunk_grouping.FastCdc.{FastCdc, FileSystem}
use chunk_grouping.Grouping.{Compressors}
use chunk_grouping.FastCdc.File.{IsNumbered}
use chunk_grouping.Compression.{FeatureIndex, DeltaCompression, fast_cdc_chunker, add_file}
use chunk_grouping.Compression.Laws.{Indexed, buf_of}
use chunk_grouping.Compression.Reads.{bytes_of, any-Read, length-joined, Storable-IsSized}
use chunk_grouping.Compression.Whole.{add_file-Ready}
use chunk_grouping.Configuration.{Outcome}
use chunk_grouping.Program.{Entry, Class, visit, walk}
use chunk_grouping.Program.Between.{
  all_bytes, regular_files, bytes_of_all, name_of, all_bytes-buf_of, length-buf_of, IsBetween,
  Read-IsBetween, InStep, Walked, Walked-join,
}

module _ {Name I Float : Type 0} (x : FeatureIndex Float I) (files : FileSystem Name) (fuel : ℕ)
    (k : Compressors) where
  -- `AddFile` on fuel
  abbrev pub adding :
      DeltaCompression Name FastCdc I → Name → Option (DeltaCompression Name FastCdc I)
  adding d name = add_file fuel (fast_cdc_chunker files) x k d name

  abbrev pub class_of :
      Outcome (DeltaCompression Name FastCdc I) → Class Name (DeltaCompression Name FastCdc I)
  class_of construct = record { construct = construct; add_file = λ d name. adding d name }

module _ {Name I Float : Type 0} (x : FeatureIndex Float I) (Of : List ℕ → I → Type 0)
    (laws : Indexed x Of) (files : FileSystem Name) (fuel : ℕ) (k : Compressors) where
  add_file-Walked :
      (d : DeltaCompression Name FastCdc I) (contents : List (List ℕ)) (name : Name)
      → InStep Of d contents
      → length contents + length (bytes_of (files name)) < 2 ^ 32
      → length d.storage.data_file.items + length (bytes_of (files name)) < 2 ^ 64
      → length (bytes_of (files name)) < fuel
      → Walked Of (adding x files fuel k d name) d contents (name ∷ []) (bytes_of (files name))
  add_file-Walked d contents name s few room enough =
      let read =
        any-Read files d.chunker name s.between.idle (omega (arith, room)) s.between.positive in
      let size = ap length read.whole in
      let count = length-joined _ _ read.chunks read.sized in
      let more : length (contents ++ map buf_of read.chunks)
          ≡ length contents + length read.chunks =
        omega (arith, length-append contents (map buf_of read.chunks), length-buf_of read.chunks) in
      let a =
        add_file-Ready x Of fuel (fast_cdc_chunker files) d name contents s.now read.chunks
          read.last s.bases laws (omega (arith, size, count, enough)) read.yields
          (Storable-IsSized (length contents) (length d.storage.data_file.items) _ _ read.chunks
            (subst (λ n. IsNumbered n read.chunks) s.between.numbered read.numbered) read.sized
            s.between.small (omega (arith, size, count, few)) (omega (arith, size, room)))
          s.ready s.based s.indexed k in
      record {
        next = a.next;
        stored = contents ++ map buf_of read.chunks;
        returns = a.returns;
        in_step = record {
          now = a.now;
          bases = a.bases;
          ready = a.ready;
          based = a.based;
          indexed = a.indexed;
          between =
              subst (λ c. IsBetween (length (contents ++ map buf_of read.chunks)) c) (sym a.drained)
                (Read-IsBetween files d.chunker name (length contents) _ read s.between
                  (omega (arith, size, count, few)) more);
        };
        whole = all_bytes-buf_of contents read.chunks ∙ ap (◌++◌ (all_bytes contents)) read.whole;
        few = omega (arith, size, count, more);
        used = omega (arith, a.used, size);
        metas =
            ap (λ ms. map name_of ms) a.metas
            ∙ map-append name_of d.file_metas (a.meta ∷ [])
            ∙ ap (λ n. map name_of d.file_metas ++ n ∷ []) a.named;
      }

  -- From a compression that is in step, and where all files together stay within the bounds: the
  -- loop of `main` never faults, whatever is in the directory. It leaves a compression in step,
  -- whose storage has the bytes of the regular files behind the others, in the order of the walk,
  -- with one file meta for each of them.
  pub walk-Walked :
      (entries : List (Entry Name)) (start : Outcome (DeltaCompression Name FastCdc I))
      (d : DeltaCompression Name FastCdc I) (contents : List (List ℕ))
      → InStep Of d contents
      → length contents + length (bytes_of_all files (regular_files entries)) < 2 ^ 32
      → length d.storage.data_file.items + length (bytes_of_all files (regular_files entries))
        < 2 ^ 64
      → length (bytes_of_all files (regular_files entries)) < fuel
      → Walked Of
          (walk (class_of x files fuel k start) entries d)
          d
          contents
          (regular_files entries)
          (bytes_of_all files (regular_files entries))
  unfolding walk visit
  walk-Walked [] start d contents s few room enough = record {
    next = d;
    stored = contents;
    returns = refl;
    in_step = s;
    whole = sym (append-nil (all_bytes contents));
    few = omega arith;
    used = omega arith;
    metas = sym (append-nil (map name_of d.file_metas));
  }
  walk-Walked (entry ∷ entries) start d contents s few room enough =
      elim (Bool-cases entry.is_regular_file) [
        | inl regular ↦
            let rest = bytes_of_all files (regular_files entries) in
            let sum : length (bytes_of_all files (regular_files (entry ∷ entries)))
                ≡ length (bytes_of (files entry.path)) + length rest =
              rw regular (length-append (bytes_of (files entry.path)) rest) in
            let w =
              add_file-Walked d contents entry.path s (omega (arith, sum)) (omega (arith, sum))
                (omega (arith, sum)) in
            rw regular (
              Walked-join Of (λ d. walk (class_of x files fuel k start) entries d) _ d contents _ _
                _ _ w
                (walk-Walked entries start w.next w.stored w.in_step (omega (arith, sum, w.few))
                  (omega (arith, sum, w.used)) (omega (arith, sum))))
        | inr other ↦
            let same : length (bytes_of_all files (regular_files (entry ∷ entries)))
                ≡ length (bytes_of_all files (regular_files entries)) =
              rw other refl in
            rw other (
              walk-Walked entries start d contents s (omega (arith, same)) (omega (arith, same))
                (omega (arith, same)))
      ]
