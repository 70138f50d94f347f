-- ===== src/Ngram.antt =====
-- mozolm/models/ngram_fst_model.h and .cc, ngram_char_fst_model.h and .cc: character n-gram models, read
-- from a transducer and never changed. OpenFst and the OpenGrm n-gram library are a parameter. A walk
-- along the back-offs runs on fuel.
pub mod Costs
pub mod Walks
pub mod Tests
use mozolm.Base.{
  ℕ, zero, suc, ◌+◌, ◌-◌, Bool, true, false, not, Option, none, some, List, [], ◌∷◌, ◌++◌, map,
  if◌then◌else◌, leb, ◌==◌, length,
}
use mozolm.Base.Int.{ℤ, pos, negsuc, minus_one, eq_ℤ}
use mozolm.Base.Program.{
  Program, pure, fail, or_fault, get, internal, invalid_argument, not_found, fault, ok, ◌>>=◌, ◌>>◌,
  calculated,
}
use mozolm.Double.{Double}
use mozolm.Utf8.{Bytes, Utf8Library, encode_unicode_char}
use mozolm.Model.{LmScores, LanguageModel, softmax_renormalize}

-- A state that is no state, -1, is `none`.
pub record NGramLibrary (D F T : Type 0) : Type 0 where
  -- `StdVectorFst`: the file format, the states, the start state, and the tables of input symbols, with
  -- the keys in their order.
  pub read_fst : Bytes → Option F
  pub num_states : F → ℕ
  pub start : F → Option ℕ
  pub input_symbols : F → Option T
  pub set_input_symbols : T → F → F
  pub read_symbols : Bytes → Option T
  pub find : Bytes → T → ℤ
  pub symbol_of : ℤ → T → Bytes
  pub num_symbols : T → ℕ
  pub nth_key : ℕ → T → ℤ
  -- The arc that a `Matcher` on input labels finds at a state: its weight and the state that it leads to.
  pub find_arc : ℕ → ℤ → F → Option (D × ℕ)
  -- `StdArc::Weight::One()`, `Zero()`, and `Times`.
  pub one : D
  pub zero_weight : D
  pub times : D → D → D
  -- `NGramModel`: the back-off of a state with its weight, the unigram state, and the checks.
  pub get_backoff : ℕ → F → Option (ℕ × D)
  pub unigram_state : F → Option ℕ
  pub error : F → Bool
  pub check_topology : F → Bool
  pub check_normalization : F → Bool

-- `NGramFstModel`; `model_` wraps the same transducer.
pub record NGramModel (F : Type 0) : Type 0 where
  pub fst : F
  pub oov_label : ℤ

-- The files of a model, as `ModelStorage` names them.
pub record Storage : Type 0 where
  pub model_file : Bytes
  pub vocabulary_file : Bytes

-- "<unk>"
abbrev pub k_unknown_symbol : Bytes
k_unknown_symbol = 60 ∷ 117 ∷ 110 ∷ 107 ∷ 62 ∷ []

module _ {D F T : Type 0} (d : Double D) (l : NGramLibrary D F T) where
  -- `CheckModel`.
  pub check_model : F → Program (Unit {0}) (Unit {0})
  check_model f =
      if l.error f
      then fail internal
      else if not (l.check_topology f)
      then fail internal
      else if not (l.check_normalization f)
      then fail internal
      else pure tt

  -- The input symbols of a transducer, from the vocabulary file where it has none.
  pub symbols_of : Bytes → F → Program (Unit {0}) (F × T)
  symbols_of vocabulary_file f = elim (l.input_symbols f) [
    | some symbols ↦ pure (f, symbols)
    | none ↦
        if length vocabulary_file == 0
        then fail not_found
        else (elim (l.read_symbols vocabulary_file) [
          | none ↦ fail not_found
          | some symbols ↦ pure (l.set_input_symbols symbols f, symbols)
        ])
  ]

  pub read_transducer : Bytes → Program (Unit {0}) F
  read_transducer model_file =
      if length model_file == 0
      then fail invalid_argument
      else (elim (l.read_fst model_file) [ none ↦ fail not_found | some f ↦ pure f ])

  -- `Read`.
  pub read : Storage → Program (Unit {0}) (NGramModel F)
  unfolding check_model symbols_of read_transducer
  read storage = do
    fst ← read_transducer storage.model_file
    tables ← symbols_of storage.vocabulary_file fst
    check_model tables.0
    pure (record { fst = tables.0; oov_label = l.find k_unknown_symbol tables.1 })

  -- `CheckCurrentState`.
  pub check_current_state : ℤ → F → Option ℕ
  check_current_state (pos s) f = some s
  check_current_state (negsuc s) f = elim (l.unigram_state f) [ none ↦ l.start f | some s ↦ some s ]

  -- `Matcher::SetState`, out of bounds for what is no state, and `Find`.
  abbrev pub matched : ℕ → ℤ → F → Program (Unit {0}) (Option (D × ℕ))
  matched s label f = if leb (l.num_states f) s then (λ t. fault) else pure (l.find_arc s label f)

  -- The end of a round of the loop of `NextState`.
  pub next_or_backoff : (ℕ → Program (Unit {0}) ℤ) → F → ℕ → Option (D × ℕ) → Program (Unit {0}) ℤ
  next_or_backoff loop f s (some arc) = pure (pos arc.1)
  next_or_backoff loop f s none = elim (l.get_backoff s f) [
    | none ↦ pure minus_one
    | some b ↦ loop b.0
  ]

  -- The loop of `NextState`.
  pub next_loop : ℕ → F → ℤ → ℕ → Program (Unit {0}) ℤ
  unfolding next_or_backoff
  next_loop zero f label s = λ t. fault
  next_loop (suc n) f label s = matched s label f >>= next_or_backoff (next_loop n f label) f s

  -- The label of a code point: its own number, or that of unknown symbols.
  pub checked_label : NGramModel F → T → Bytes → ℤ → ℤ
  checked_label m symbols u_char utf8_sym =
      if eq_ℤ (l.find u_char symbols) minus_one then m.oov_label else utf8_sym

  -- The end of a round of the loop of `LabelCostInState`, with the cost so far.
  pub cost_or_backoff :
      (D → ℕ → Program (Unit {0}) D) → F → D → ℕ → Option (D × ℕ) → Program (Unit {0}) D
  cost_or_backoff loop f cost s (some arc) = pure (l.times cost arc.0)
  cost_or_backoff loop f cost s none = elim (l.get_backoff s f) [
    | none ↦ pure l.zero_weight
    | some b ↦ loop (l.times cost b.1) b.0
  ]

  -- The loop of `LabelCostInState`.
  pub cost_loop : ℕ → F → ℤ → D → ℕ → Program (Unit {0}) D
  unfolding cost_or_backoff
  cost_loop zero f label cost s = λ t. fault
  cost_loop (suc n) f label cost s =
      matched s label f >>= cost_or_backoff (cost_loop n f label) f cost s

  -- `LabelCostInState`.
  pub label_cost_in_state : ℕ → F → Option ℕ → ℤ → Program (Unit {0}) D
  unfolding cost_loop
  label_cost_in_state fuel f none label = pure l.zero_weight
  label_cost_in_state fuel f (some s) label = cost_loop fuel f label l.one s

  -- The labels of the symbols from number `i` on.
  abbrev pub labels_from : ℕ → ℕ → T → List ℤ
  labels_from zero i symbols = []
  labels_from (suc k) i symbols = l.nth_key i symbols ∷ labels_from k (i + 1) symbols

  -- The costs of the labels, in their order.
  pub costs_of : ℕ → F → Option ℕ → List ℤ → Program (Unit {0}) (List D)
  unfolding label_cost_in_state
  costs_of fuel f s [] = pure []
  costs_of fuel f s (label ∷ labels) = do
    cost ← label_cost_in_state fuel f s label
    costs ← costs_of fuel f s labels
    pure (cost ∷ costs)

  -- The response of `ExtractLMScores`.
  abbrev pub filled : T → List ℤ → LmScores D → List D → LmScores D
  filled symbols labels response costs = record {
    symbols = response.symbols ++ map (λ label. l.symbol_of label symbols) labels;
    probabilities = response.probabilities ++ map (λ cost. d.exp (d.neg cost)) costs;
    normalization = d.of_ℕ 1;
  }

  module _ (u : Utf8Library) (fuel : ℕ) where
    -- `NextState`.
    pub next_from : NGramModel F → ℤ → Option ℕ → Program (Unit {0}) ℤ
    unfolding next_loop
    next_from m label none = λ t. fault
    next_from m label (some s) = next_loop fuel m.fst label s

    pub next_state : ℤ → ℤ → Program (NGramModel F) ℤ
    unfolding checked_label check_current_state next_from
    next_state state utf8_sym = do
      m ← get
      u_char ← or_fault (encode_unicode_char u utf8_sym)
      symbols ← or_fault (l.input_symbols m.fst)
      calculated
          (next_from m (checked_label m symbols u_char utf8_sym) (check_current_state state m.fst))

    -- `ExtractLMScores`, from the state that it starts at.
    pub answer :
        NGramModel F
        → T
        → LmScores D
        → Option ℕ
        → List ℤ
        → Program (NGramModel F) (Bool × LmScores D)
    unfolding costs_of
    answer m symbols response s labels = calculated (costs_of fuel m.fst s labels) >>= λ costs.
        or_fault (softmax_renormalize d (d.of_ℕ 0) d.kahan_sum costs) >>= λ renormalized.
        pure (true, filled symbols labels response renormalized)

    pub extract_lm_scores : ℤ → LmScores D → Program (NGramModel F) (Bool × LmScores D)
    unfolding check_current_state answer
    extract_lm_scores state response = do
      m ← get
      symbols ← or_fault (l.input_symbols m.fst)
      answer m symbols response (check_current_state state m.fst)
          (labels_from (l.num_symbols symbols - 1) 1 symbols)

    -- `UpdateLMCounts` of a model that is only read.
    pub update_lm_counts : ℤ → List ℤ → ℤ → Program (NGramModel F) Bool
    update_lm_counts state utf8_syms count = pure true

    -- The model behind the interface, with the start state 0 of `LanguageModel`.
    abbrev pub ngram_model : LanguageModel D (NGramModel F)
    ngram_model = record {
      start_state = λ m. pos 0;
      next_state = next_state;
      extract_lm_scores = extract_lm_scores;
      update_lm_counts = update_lm_counts;
    }
