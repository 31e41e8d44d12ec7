-- ===== src/Index/File/Recover.antt =====
-- What `DumpToFile` writes, `RecoverFromFile` reads.
use native.Mathlib.Nat.{pow-suc}
use chunk_grouping.Prelude.{
  ℕ, zero, suc, ◌/◌, ◌^◌, ◌<◌, ◌≡◌, refl, sym, ap, ◌∙◌, ◌==◌, Bool-cases, inl, inr, true, none,
  some, List, [], ◌∷◌, ◌++◌, append_assoc, append-nil, length, take, drop, replicate, lookup,
  insert, lookup_by, insert_by, u32, arith,
}
use chunk_grouping.Index.{SuperFeatureIndex}
use chunk_grouping.Index.File.{
  write_word, word_of, read_word, dump_entries, dump_maps, recover_entries, recover_maps,
  dump_to_file, recover_from_file,
}

word_of-write_word :
    (n w : ℕ) (rest : List ℕ)
    → w < 256 ^ n
    → (word_of (take n (write_word n w ++ rest)) ≡ w) × (drop n (write_word n w ++ rest) ≡ rest)
unfolding word_of write_word
word_of-write_word zero w rest h = (omega (arith), refl)
word_of-write_word (suc n) w rest h =
    let (e, f) = word_of-write_word n (w / 256) rest (omega (arith, pow-suc 256 n)) in
    (omega (arith, e), f)

read_word-write_word :
    (n w : ℕ) (rest : List ℕ) → w < 256 ^ n → read_word n (write_word n w ++ rest) ≡ (w, rest)
unfolding read_word
read_word-write_word n w rest h = let (e, f) = word_of-write_word n w rest h in λ j. (e j, f j)

-- The keys of `m` are new behind `before`, each only once.
abbrev pub AreNew : List (ℕ × ℕ) → List (ℕ × ℕ) → Type 0
AreNew before [] = Unit {0}
AreNew before ((k, v) ∷ m) =
    (lookup k before ≡ none) × (k < 2 ^ 64) × (v < 2 ^ 32) × AreNew (before ++ (k, v) ∷ []) m

insert_new : (k v : ℕ) (m : List (ℕ × ℕ)) → lookup k m ≡ none → insert k v m ≡ m ++ (k, v) ∷ []
unfolding lookup_by insert_by
insert_new k v [] e = refl
insert_new k v ((j, w) ∷ m) e = elim (Bool-cases (k == j)) [
  | inl f ↦ let bad : some w ≡ none = rw f at e in cc
  | inr f ↦ rw f (ap (◌∷◌ (j, w)) (insert_new k v m (rw f at e)))
]

recover_entries-dump_entries :
    (m before : List (ℕ × ℕ)) (rest : List ℕ)
    → AreNew before m
    → recover_entries (length m) (dump_entries m ++ rest) before ≡ (before ++ m, rest)
unfolding recover_entries dump_entries
recover_entries-dump_entries [] before rest a = ap (λ m. (m, rest)) (sym (append-nil before))
recover_entries-dump_entries ((k, v) ∷ m) before rest a =
    rw
      (
        append_assoc (write_word 8 k) (write_word 4 v ++ dump_entries m) rest,
        recover_entries,
        read_word-write_word 8 k ((write_word 4 v ++ dump_entries m) ++ rest) (omega (arith, a.1)),
        append_assoc (write_word 4 v) (dump_entries m) rest,
        read_word-write_word 4 v (dump_entries m ++ rest) (omega (arith, a.2)),
        insert_new k v before a.0,
      )
      (recover_entries-dump_entries m (before ++ (k, v) ∷ []) rest a.3
        ∙ ap (λ l. (l, rest)) (append_assoc before ((k, v) ∷ []) m))

-- Maps whose keys are different words, with numbers of 32 bits.
abbrev pub AreMaps : List (List (ℕ × ℕ)) → Type 0
AreMaps [] = Unit {0}
AreMaps (m ∷ ms) = AreNew [] m × (length m < 2 ^ 64) × AreMaps ms

recover_maps-dump_maps :
    (ms : List (List (ℕ × ℕ)))
    → AreMaps ms
    → recover_maps (replicate (length ms) []) (dump_maps ms) ≡ ms
unfolding recover_maps dump_maps
recover_maps-dump_maps [] a = refl
recover_maps-dump_maps (m ∷ ms) a =
    rw
      (
        read_word-write_word 8 (length m) (dump_entries m ++ dump_maps ms) (omega (arith, a.1)),
        recover_entries-dump_entries m [] (dump_maps ms) a.0,
        recover_maps-dump_maps ms a.2,
      )
      refl

length-empty : (n : ℕ) → length {A = List (ℕ × ℕ)} (replicate n []) ≡ n
length-empty zero = refl
length-empty (suc n) = omega (arith, length-empty n)

-- A fresh index with as many maps, given the file that another has written, has the other's maps of
-- words, where their keys are different words and their numbers have 32 bits. It keeps its own maps
-- of own features.
pub recover_from_file-dump_to_file {ℓ} :
    {Float : Type ℓ} (x y : SuperFeatureIndex Float)
    → AreMaps x.index
    → length x.index < 2 ^ 32
    → y.index ≡ replicate (length x.index) []
    → recover_from_file y (dump_to_file x) ≡ some (record y { index = x.index })
unfolding recover_from_file dump_to_file
recover_from_file-dump_to_file x y a h e =
    let same : (length y.index == length x.index) ≡ true =
      ground (arith, ap length e, length-empty (length x.index)) in
    let small : u32 (length x.index) ≡ length x.index = omega (arith, h) in
    rw
      (
        small,
        read_word-write_word 4 (length x.index) (dump_maps x.index) (omega (arith, h)),
        same,
        e,
        recover_maps-dump_maps x.index a,
      )
      refl
