-- ===== src/Ngram/Tests.antt =====
-- The n-gram model of two states over two symbols, doubles read as natural numbers.
use mozolm.Base.{
  ℕ, zero, suc, ◌+◌, ◌≡◌, refl, true, false, Option, none, some, List, [], ◌∷◌, map, arith,
  if◌then◌else◌, ◌==◌, ◌||◌,
}
use mozolm.Base.Int.{ℤ, pos, negsuc, minus_one}
use mozolm.Base.Program.{ok}
use mozolm.Double.Tests.{naturals}
use mozolm.Utf8.{Bytes, encode_unicode_char}
use mozolm.Utf8.Tests.{ascii}
use mozolm.Model.{LmScores, softmax_renormalize}
use mozolm.Ngram.{
  NGramLibrary, NGramModel, checked_label, next_state, extract_lm_scores, labels_from, filled,
}
use mozolm.Ngram.Walks.{IsRanked, Walk, next_state-Walk}
use mozolm.Ngram.Costs.{AllWeights, product, extract_lm_scores-Weights}

-- State 1 has an arc for "a", 97, to itself, and backs off to state 0, which has one for "b", 98.
abbrev arc_of : ℕ → ℤ → Option (ℕ × ℕ)
arc_of (suc zero) (pos c) = if c == 97 then some (2, 1) else none
arc_of zero (pos c) = if c == 98 then some (3, 0) else none
arc_of s label = none

abbrev backoff_of : ℕ → Option (ℕ × ℕ)
backoff_of (suc zero) = some (0, 5)
backoff_of s = none

abbrev symbol_for : ℤ → Bytes
symbol_for (pos n) = n ∷ []
symbol_for (negsuc n) = []

-- The number of a symbol is the number of its character.
abbrev number_of : Bytes → ℤ
number_of (c ∷ []) = if c == 97 || c == 98 then pos c else minus_one
number_of s = minus_one

abbrev key_at : ℕ → ℤ
key_at zero = pos 0
key_at (suc zero) = pos 97
key_at (suc (suc n)) = pos 98

abbrev pub two_states : NGramLibrary ℕ (Unit {0}) (Unit {0})
two_states = record {
  read_fst = λ name. some tt;
  num_states = λ f. 2;
  start = λ f. some 1;
  input_symbols = λ f. some tt;
  set_input_symbols = λ t f. f;
  read_symbols = λ name. none;
  find = λ s t. number_of s;
  symbol_of = λ label t. symbol_for label;
  num_symbols = λ t. 3;
  nth_key = λ i t. key_at i;
  find_arc = λ s label f. arc_of s label;
  one = 0;
  zero_weight = 1_000;
  times = λ a b. a + b;
  get_backoff = λ s f. backoff_of s;
  unigram_state = λ f. some 0;
  error = λ f. false;
  check_topology = λ f. true;
  check_normalization = λ f. true;
}

abbrev model : NGramModel (Unit {0})
model = record { fst = tt; oov_label = minus_one }

model-IsRanked : IsRanked naturals two_states tt (λ s. s)
model-IsRanked zero b less e = absurd (ground (arith, e))
model-IsRanked (suc zero) b less e = (ground (arith, e), ground (arith, e))
model-IsRanked (suc (suc s)) b less e = absurd (omega (arith, less))

b-encoded : encode_unicode_char ascii (pos 98) ≡ some (98 ∷ [])
unfolding encode_unicode_char
b-encoded = refl

-- "b" from state 1 is found at the back-off.
next_state-Walk_example :
    (t : ℤ) × (next_state naturals two_states ascii 2 (pos 1) (pos 98) model ≡ ok t model)
    × Walk naturals two_states tt
        (checked_label naturals two_states model tt (98 ∷ []) (pos 98))
        1
        t
unfolding mozolm.Ngram.check_current_state
next_state-Walk_example =
    next_state-Walk naturals two_states ascii 2 (λ s. s) model tt (pos 1) (pos 98) (98 ∷ []) 1
      model-IsRanked refl b-encoded refl (omega arith) (omega arith)

abbrev no_scores : LmScores ℕ
no_scores = record { symbols = []; probabilities = []; normalization = 0 }

extract_lm_scores-Weights_example :
    (all : List (Option (List ℕ))) × (costs : List ℕ) × AllWeights naturals two_states tt
      (λ s. s)
      model-IsRanked
      1
      (labels_from naturals two_states 2 1 tt)
      all
    × (softmax_renormalize naturals 0 naturals.kahan_sum (map (product naturals two_states 0) all)
        ≡ some costs)
    × (extract_lm_scores naturals two_states ascii 2 (pos 1) no_scores model
        ≡ ok
            (
              true,
              filled naturals two_states tt
                  (labels_from naturals two_states 2 1 tt)
                  no_scores
                  costs,
            )
            model)
unfolding mozolm.Ngram.check_current_state
extract_lm_scores-Weights_example =
    extract_lm_scores-Weights naturals two_states ascii 2 (λ s. s) model tt (pos 1) 1 1 no_scores
      model-IsRanked refl refl refl (omega arith) (omega arith)
