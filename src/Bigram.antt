-- ===== src/Bigram.antt =====
-- mozolm/models/simple_bigram_char_model.h and .cc: the state of the bigram model and its calls.
-- The locks are left out: each call holds both from its first line to its last.
pub mod Valid
pub mod Vocabulary
pub mod Update
pub mod Transitions
pub mod Scores
pub mod Tests
pub mod Indexing
pub mod Reading
use mozolm.Base.{
  ℕ, zero, suc, ◌+◌, ◌^◌, ◌≡◌, Bool, true, false, Option, none, some, List, [], ◌∷◌, ◌++◌,
  if◌then◌else◌, ltb, length, get_elem?, set,
}
use mozolm.Base.Int.{ℤ, pos, negsuc, minus_one, is_neg, is_nonpos, in_range, at}
use mozolm.Base.Program.{Program, pure, or_fault, get, put, ok, ◌>>=◌, ◌>>◌}
use mozolm.Double.{Double}
use mozolm.Utf8.{Bytes, Utf8Library, encode_unicode_char}
use mozolm.Model.{LmScores, LanguageModel}

-- The counts are `int64`s that the code never lets fall below 1.
pub record Bigram (D : Type 0) : Type 0 where
  pub utf8_indices : List ℤ
  pub vocab_indices : List ℤ
  pub utf8_normalizer : List D
  pub bigram_counts : List (List ℕ)

-- `a + b` in `int64`; an overflow is undefined.
abbrev pub add_int64 : ℕ → ℕ → Option ℕ
add_int64 a b = if ltb (a + b) (2 ^ 63) then some (a + b) else none

-- `value ? *value : -1`.
abbrev or_minus_one : Option ℤ → ℤ
or_minus_one none = minus_one
or_minus_one (some a) = a

-- `*value ? ... : 0`, of a state that is out of range.
abbrev pub state_or_start : ℤ → ℕ → ℕ
state_or_start (pos i) n = if ltb i n then i else 0
state_or_start (negsuc i) n = 0

module _ {D : Type 0} where
  pub state_sym : Bigram D → ℤ → ℤ
  state_sym m state = or_minus_one (at m.utf8_indices state)

  unfoldable pub sym_state : Bigram D → ℤ → ℤ
  sym_state m utf8_sym = or_minus_one (at m.vocab_indices utf8_sym)

  pub next_state : ℤ → ℤ → Program (Bigram D) ℤ
  unfolding sym_state
  next_state state utf8_sym m = ok (sym_state m utf8_sym) m

module _ {D : Type 0} (d : Double D) (u : Utf8Library) where
  -- The loop of `ExtractLMScores` over a row, with the code points of its columns.
  score_loop : D → List ℕ → List ℤ → LmScores D → Option (LmScores D)
  score_loop normalizer [] codes r = some r
  score_loop normalizer (c ∷ cs) [] r = none
  score_loop normalizer (c ∷ cs) (code ∷ codes) r = elim (encode_unicode_char u code) [
    | none ↦ none
    | some symbol ↦ score_loop normalizer cs codes (record r {
      symbols = r.symbols ++ symbol ∷ [];
      probabilities = r.probabilities ++ d.div (d.of_ℕ c) normalizer ∷ [];
    })
  ]

  pub extract_lm_scores : ℤ → LmScores D → Program (Bigram D) (Bool × LmScores D)
  unfolding score_loop
  extract_lm_scores state response = do
    m ← get
    let row_index = state_or_start state (length m.utf8_indices)
    normalizer ← or_fault (get_elem? m.utf8_normalizer row_index)
    row ← or_fault (get_elem? m.bigram_counts row_index)
    scores ←
        or_fault (
          score_loop normalizer row m.utf8_indices (record response { normalization = normalizer }))
    pure (true, scores)

  -- `utf8_normalizer_[i] += count`.
  pub add_normalizer : ℕ → ℕ → Program (Bigram D) (Unit {0})
  add_normalizer i count = do
    m ← get
    old ← or_fault (get_elem? m.utf8_normalizer i)
    put (record m { utf8_normalizer = set m.utf8_normalizer i (d.add old (d.of_ℕ count)) })

  -- `bigram_counts_[i][j] += count`.
  add_count : ℕ → ℕ → ℕ → Program (Bigram D) (Unit {0})
  add_count i j count = do
    m ← get
    row ← or_fault (get_elem? m.bigram_counts i)
    old ← or_fault (get_elem? row j)
    new ← or_fault (add_int64 old count)
    put (record m { bigram_counts = set m.bigram_counts i (set row j new) })

  -- The loop of `UpdateLMCounts` over the symbols.
  update_loop : ℕ → ℕ → List ℤ → Program (Bigram D) Bool
  unfolding add_normalizer add_count sym_state
  update_loop count state [] m = pure true m
  update_loop count state (utf8_sym ∷ utf8_syms) m = elim (sym_state m utf8_sym) [
    | negsuc k ↦ update_loop count 0 utf8_syms m
    | pos next ↦
        ◌>>=◌ (◌>>◌ (add_normalizer state count) (add_count state next count))
          (λ _. update_loop count next utf8_syms) m
  ]

  unfoldable pub update_lm_counts : ℤ → List ℤ → ℤ → Program (Bigram D) Bool
  unfolding update_loop
  update_lm_counts state utf8_syms (negsuc k) m = pure true m
  update_lm_counts state utf8_syms (pos zero) m = pure true m
  update_lm_counts state utf8_syms (pos (suc c)) m =
      update_loop (suc c) (state_or_start state (length m.utf8_indices)) utf8_syms m

  -- The model behind the interface; its start state is 0, as `LanguageModel()` sets it.
  abbrev pub bigram_model : LanguageModel D (Bigram D)
  bigram_model = record {
    start_state = λ m. pos 0;
    next_state = next_state;
    extract_lm_scores = extract_lm_scores;
    update_lm_counts = update_lm_counts;
  }
