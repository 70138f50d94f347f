-- ===== src/Bigram/Reading.antt =====
-- `SimpleBigramCharModel::Read` of mozolm/models/simple_bigram_char_model.cc. The file system, the
-- split of a line into fields and the conversions of <string> are parameters.
use mozolm.Base.{
  ℕ, zero, suc, ◌+◌, not, Option, none, some, List, [], ◌∷◌, ◌++◌, if◌then◌else◌, ltb, leb, ◌==◌,
  length, set, replicate,
}
use mozolm.Base.Int.{ℤ, pos, negsuc, minus_one, leb_ℤ}
use mozolm.Base.Program.{
  Program, pure, fail, or_fault, get, put, ok, fault, internal, not_found, out_of_range, ◌>>=◌,
  ◌>>◌,
}
use mozolm.Double.{Double}
use mozolm.Utf8.{Bytes, Utf8Library}
use mozolm.Bigram.{Bigram, add_normalizer}

pub record Files : Type 0 where
  -- The lines of a text file; `none` where it cannot be opened.
  pub lines : Bytes → Option (List Bytes)
  -- `absl::StrSplit(line, ' ', absl::SkipEmpty())`.
  pub fields : Bytes → List Bytes
  -- `std::stoi` and `std::stol`; `none` is an exception.
  pub stoi : Bytes → Option ℤ
  pub stol : Bytes → Option ℤ

-- The fields of `ModelStorage` that the model reads.
pub record Storage : Type 0 where
  pub vocabulary_file : Bytes
  pub model_file : Bytes

abbrev pub back : ℤ → List ℤ → ℤ
back x [] = x
back x (y ∷ ys) = back y ys

-- `v.resize(n, value)`.
abbrev pub resize {ℓ} : {A : Type ℓ} → List A → ℕ → A → List A
resize xs zero a = []
resize [] (suc n) a = a ∷ resize [] n a
resize (x ∷ xs) (suc n) a = x ∷ resize xs n a

-- `last + 1` as a size.
abbrev pub size_after : ℤ → Option ℕ
size_after (pos n) = some (suc n)
size_after (negsuc zero) = some 0
size_after (negsuc (suc k)) = none

-- Counts below one count as one.
abbrev pub smoothed : ℤ → ℕ
smoothed (pos n) = if ltb 1 n then n else 1
smoothed (negsuc n) = 1

-- 97, 98, ..., 122.
abbrev count_up : ℕ → ℕ → List ℤ
count_up from zero = []
count_up from (suc n) = pos from ∷ count_up (from + 1) n

abbrev pub default_vocabulary : List ℤ
default_vocabulary = pos 0 ∷ pos 32 ∷ count_up 97 26

module _ {D : Type 0} (f : Files) where
  open f use {lines, fields, stoi, stol}

  -- `ReadVocabSymbols`, from the line after one that held `last_idx`.
  unfoldable pub vocab_loop : ℤ → List Bytes → Program (Bigram D) (List ℤ)
  vocab_loop last_idx [] = pure []
  vocab_loop last_idx (str ∷ rest) = if length str == 0 then fail internal else elim (fields str) [
    | field ∷ [] ↦ ◌>>=◌ (or_fault (stoi field)) λ utf8_sym.
        let others = ◌>>=◌ (vocab_loop utf8_sym rest) (λ indices. pure (utf8_sym ∷ indices)) in
        if leb_ℤ utf8_sym last_idx then fail internal else others
    | _ ↦ fail internal
  ]

  unfoldable pub read_vocab_symbols : Bytes → Program (Bigram D) (List ℤ)
  unfolding vocab_loop
  read_vocab_symbols in_vocab = elim (lines in_vocab) [
    | none ↦ fail not_found
    | some ls ↦ vocab_loop minus_one ls
  ]

module _ {D : Type 0} (d : Double D) (u : Utf8Library) (f : Files) where
  open f use {lines, fields, stoi, stol}

  -- The loop over the fields of a row: each count is added to `utf8_normalizer[idx]`.
  row_loop : ℕ → List Bytes → Program (Bigram D) (List ℕ)
  row_loop idx [] = pure []
  row_loop idx (field ∷ more) = do
    count ← or_fault (stol field)
    add_normalizer d u idx (smoothed count)
    counts ← row_loop idx more
    pure (smoothed count ∷ counts)

  -- `ReadCountMatrix`, from the line with number `idx`.
  matrix_loop : ℕ → ℕ → List Bytes → Program (Bigram D) (Unit {0})
  unfolding row_loop
  matrix_loop rows idx [] = if not (idx == rows) then fail internal else pure tt
  matrix_loop rows idx (str ∷ rest) =
      let others = matrix_loop rows (idx + 1) rest in
      if length str == 0
      then fail internal
      else if not (length (fields str) == rows)
      then fail internal
      else do
        counts ← row_loop idx (fields str)
        m ← get
        put (record m { bigram_counts = m.bigram_counts ++ counts ∷ [] })
        others

  read_count_matrix : Bytes → ℕ → Program (Bigram D) (Unit {0})
  unfolding matrix_loop
  read_count_matrix in_counts rows = elim (lines in_counts) [
    | none ↦ fail not_found
    | some ls ↦ matrix_loop rows 0 ls
  ]

  -- `Read` with a vocabulary file: the vocabulary, and the counts where there is a file of them.
  unfoldable pub read_files : Storage → Program (Bigram D) (Unit {0})
  unfolding read_vocab_symbols read_count_matrix
  read_files storage = do
    indices ← read_vocab_symbols f storage.vocabulary_file
    m ← get
    put (record m {
      utf8_indices = indices;
      utf8_normalizer = resize m.utf8_normalizer (length indices) (d.of_ℕ 0);
    })
    if length storage.model_file == 0
        then pure tt
        else read_count_matrix storage.model_file (length indices)

  -- `Read` without one: the letters a to z, the space and 0.
  unfoldable pub push_defaults : Program (Bigram D) (Unit {0})
  push_defaults m = ok tt (record m { utf8_indices = m.utf8_indices ++ default_vocabulary })

  -- `utf8_normalizer_[i] = value` for each `i` below the number.
  unfoldable pub fill_first : ℕ → D → List D → Option (List D)
  fill_first zero value xs = some xs
  fill_first (suc n) value [] = none
  fill_first (suc n) value (x ∷ xs) = elim (fill_first n value xs) [
    | none ↦ none
    | some rest ↦ some (value ∷ rest)
  ]

  -- Uniform counts, where none were read.
  unfoldable pub fill_counts : Program (Bigram D) (Unit {0})
  unfolding fill_first
  fill_counts m =
      let n = length m.utf8_indices in
      let old =
        if length m.utf8_normalizer == 0
        then resize m.utf8_normalizer n (d.of_ℕ 0)
        else m.utf8_normalizer in
      if length m.bigram_counts == 0
      then ◌>>=◌ (or_fault (fill_first n (d.of_ℕ n) old))
          (λ normalizer. put (record m {
            utf8_normalizer = normalizer;
            bigram_counts = replicate n (replicate n 1);
          }))
          m
      else ok tt m

  -- `vocab_indices_[utf8_index] = i`, for each index.
  unfoldable pub index_loop : ℕ → List ℤ → List ℤ → Program (Bigram D) (List ℤ)
  index_loop i [] vocab = pure vocab
  index_loop i (pos c ∷ cs) vocab =
      let others = index_loop (i + 1) cs (set vocab c (pos i)) in
      if leb (length vocab) c then fail out_of_range else others
  -- The comparison with `size()` is one of unsigned numbers, so a negative index is out of range.
  index_loop i (negsuc c ∷ cs) vocab = fail out_of_range

  -- `utf8_indices_.back()` of an empty vector is undefined, and `resize` throws at a negative size.
  unfoldable pub index_vocabulary : List ℤ → Program (Bigram D) (Unit {0})
  unfolding index_loop
  index_vocabulary [] m = fault
  index_vocabulary (c ∷ cs) m =
      ◌>>=◌ (or_fault (size_after (back c cs)))
        (λ size.
          ◌>>=◌ (index_loop 0 (c ∷ cs) (resize m.vocab_indices size minus_one))
            (λ vocab. put (record m { vocab_indices = vocab })))
        m

  unfoldable pub read : Storage → Program (Bigram D) (Unit {0})
  unfolding read_files push_defaults fill_counts index_vocabulary
  read storage = do
    if not (length storage.vocabulary_file == 0) then read_files storage else push_defaults
    fill_counts
    m ← get
    index_vocabulary m.utf8_indices
