-- ===== src/Bigram/Scores.antt =====
-- `SimpleBigramCharModel::ExtractLMScores`: the response that it fills in.
use mathlib.Core.List.{append-nil, append_assoc}
use mozolm.Base.{
  ℕ, ◌≡◌, ◌≤◌, ◌<◌, refl, ◌∙◌, true, some, List, [], ◌∷◌, ◌++◌, map, arith, length, get_elem?,
  get_elem?_of_lt, All-get_elem?,
}
use mozolm.Base.Int.{ℤ}
use mozolm.Base.Program.{ok}
use mozolm.Double.{Double, exact_limit}
use mozolm.Utf8.{Bytes, Utf8Library, encode_unicode_char}
use mozolm.Model.{LmScores}
use mozolm.Bigram.{Bigram, state_or_start, score_loop, extract_lm_scores}
use mozolm.Bigram.Valid.{sum, IsValid, start_lt}

-- The texts of a list of code points.
abbrev pub Encodes : Utf8Library → List ℤ → List Bytes → Type 0
Encodes u [] [] = Unit
Encodes u (c ∷ cs) (s ∷ ss) = (encode_unicode_char u c ≡ some s) × Encodes u cs ss
Encodes u _ _ = ⊥

module _ {D : Type 0} (d : Double D) where
  -- The response with the symbols and the relative frequencies of a row behind what it held.
  abbrev pub scored : LmScores D → List Bytes → List ℕ → D → LmScores D
  scored r symbols row normalizer = record {
    symbols = r.symbols ++ symbols;
    probabilities = r.probabilities ++ map (λ c. d.div (d.of_ℕ c) normalizer) row;
    normalization = normalizer;
  }

module _ {D : Type 0} (d : Double D) (u : Utf8Library) where
  score_loop_lem :
      (x : D) (row : List ℕ) (codes : List ℤ) (symbols : List Bytes) (r : LmScores D)
      → r.normalization ≡ x
      → length row ≡ length codes
      → Encodes u codes symbols
      → score_loop d u x row codes r ≡ some (scored d r symbols row x)
  unfolding score_loop
  score_loop_lem x [] [] [] r n e h =
      ground (arith, append-nil r.symbols, append-nil r.probabilities)
  score_loop_lem x (c ∷ row) (code ∷ codes) (s ∷ symbols) r n e (p, h) =
      rw (p, score_loop)
        (score_loop_lem x row codes symbols
            (record (scored d r (s ∷ []) (c ∷ []) x) { normalization = r.normalization }) n
            (omega arith) h
          ∙ simp append_assoc)
  score_loop_lem x [] [] (s ∷ ss) r n e h = absurd h
  score_loop_lem x [] (_ ∷ _) ss r n e h = absurd (omega arith)
  score_loop_lem x (_ ∷ _) [] ss r n e h = absurd (omega arith)
  score_loop_lem x (_ ∷ _) (_ ∷ _) [] r n e h = absurd h

  extract_at :
      (m : Bigram D) (state : ℤ) (response : LmScores D) (x : D) (row : List ℕ) (r : LmScores D)
      → get_elem? m.utf8_normalizer (state_or_start state (length m.utf8_indices)) ≡ some x
      → get_elem? m.bigram_counts (state_or_start state (length m.utf8_indices)) ≡ some row
      → score_loop d u x row m.utf8_indices (record response { normalization = x }) ≡ some r
      → extract_lm_scores d u state response m ≡ ok (true, r) m
  unfolding extract_lm_scores
  extract_at m state response x row r a b e = ground arith

  -- In a valid model whose symbols can be encoded, `ExtractLMScores` returns true and leaves the model
  -- alone. It appends the whole vocabulary in order, each symbol with its count in the row of the
  -- state over the normaliser of the row, where the row is that of state 0 if the state is out of
  -- range; and the normaliser is the sum of the row, up to 2^53.
  pub extract_lm_scores_lem :
      (m : Bigram D) (state : ℤ) (response : LmScores D) (symbols : List Bytes)
      → IsValid d m
      → Encodes u m.utf8_indices symbols
      → (row : List ℕ) × (x : D) × (get_elem? m.bigram_counts
            (state_or_start state (length m.utf8_indices))
          ≡ some row)
        × (extract_lm_scores d u state response m ≡ ok (true, scored d response symbols row x) m)
        × (sum row ≤ exact_limit → x ≡ d.of_ℕ (sum row))
  extract_lm_scores_lem m state response symbols v h =
      let k = state_or_start state (length m.utf8_indices) in
      let here : k < length m.utf8_indices = start_lt state (length m.utf8_indices) v.nonempty in
      let (x, at_x) = get_elem?_of_lt m.utf8_normalizer k (omega (arith, v.normalizers)) in
      let (row, at_row) = get_elem?_of_lt m.bigram_counts k (omega (arith, v.rows)) in
      (
        row,
        x,
        at_row,
        extract_at m state response x row (scored d response symbols row x) at_x at_row (
            score_loop_lem x row m.utf8_indices symbols (record response { normalization = x }) refl
              (All-get_elem? _ m.bigram_counts k v.columns at_row) h),
        v.sums k row x at_row at_x,
      )
