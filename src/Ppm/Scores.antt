-- ===== src/Ppm/Scores.antt =====
-- mozolm/models/ppm_as_fst_model.cc: what is read from the cache, and the answers of the model. `fuel` is
-- for the back-offs.
use mozolm.Base.{
  ℕ, zero, suc, ◌+◌, Bool, true, false, Option, none, some, List, [], ◌∷◌, ◌++◌, get_elem?,
}
use mozolm.Base.Int.{ℤ, pos, negsuc, minus_one}
use mozolm.Base.Program.{
  Outcome, ok, err, fault, Program, pure, fail, or_fault, internal, ◌>>=◌, calculated,
}
use mozolm.Double.{Double}
use mozolm.Fst.{FstLibrary}
use mozolm.Utf8.{Utf8Library, encode_unicode_char}
use mozolm.Model.{LmScores}
use mozolm.Ppm.{CacheEntry, Ppm, ensure_cache_at_state}
use mozolm.Ppm.Blending.{Values, backoff}

-- `VerifyAccess`, and the element at the index.
unfoldable pub cached_at {ℓ} : {A : Type ℓ} → List A → ℤ → Program (Unit {0}) A
cached_at xs (negsuc i) = fail internal
cached_at xs (pos i) = elim (get_elem? xs i) [ none ↦ fail internal | some a ↦ pure a ]

-- An index of `cache_index_`, which is read before any check.
abbrev pub state_index : ℤ → Option ℕ
state_index (pos s) = some s
state_index (negsuc s) = none

module _ {D F : Type 0} (d : Double D) (l : FstLibrary D F) where
  -- `FillLMScores`; a vector without its first element is read out of bounds.
  score_loop : ℕ → List D → F → LmScores D → LmScores D
  score_loop i [] f r = r
  score_loop i (p ∷ ps) f r = score_loop (i + 1) ps f (record r {
    symbols = r.symbols ++ l.symbol_at i f ∷ [];
    probabilities = r.probabilities ++ d.exp (d.neg p) ∷ [];
  })

  unfoldable pub fill_lm_scores : Values D → F → LmScores D → Option (LmScores D)
  unfolding score_loop
  fill_lm_scores v f response = elim v.neg_log_probabilities [
    | [] ↦ none
    | p ∷ ps ↦ some (
        score_loop 1 ps f (record {
          symbols = response.symbols ++ [] ∷ [];
          probabilities = response.probabilities ++ d.exp (d.neg p) ∷ [];
          normalization = d.exp (d.neg v.normalization);
        }))
  ]

  module _ (u : Utf8Library) (fuel : ℕ) where
    -- `GetArcOriginState`, `GetDestinationState`, `GetNegLogProb` and `GetNormalization`.
    unfoldable pub get_arc_origin_state : ℤ → ℤ → Program (Ppm D F) ℕ
    get_arc_origin_state s sym_index = or_fault (state_index s) >>= λ i.
        ensure_cache_at_state d l fuel i >>= λ e.
        calculated (cached_at e.values.arc_origin_states sym_index)

    unfoldable pub get_destination_state : ℤ → ℤ → Program (Ppm D F) ℕ
    get_destination_state s sym_index = or_fault (state_index s) >>= λ i.
        ensure_cache_at_state d l fuel i >>= λ e.
        calculated (cached_at e.values.destination_states sym_index)

    pub get_neg_log_prob : ℤ → ℤ → Program (Ppm D F) D
    get_neg_log_prob s sym_index = or_fault (state_index s) >>= λ i.
        ensure_cache_at_state d l fuel i >>= λ e.
        calculated (cached_at e.values.neg_log_probabilities sym_index)

    pub get_normalization : ℤ → Program (Ppm D F) D
    get_normalization s = or_fault (state_index s) >>= λ i.
        ensure_cache_at_state d l fuel i >>= λ e. pure e.values.normalization

    -- The state without context, where a symbol is unknown or the destination cannot be read.
    abbrev pub unigram_state : F → Program (Unit {0}) ℤ
    unigram_state f =
        backoff d l f (l.start f) >>= λ b. elim b [ none ↦ pure minus_one | some t ↦ pure (pos t) ]

    unfoldable pub no_context : Program (Ppm D F) ℤ
    no_context p = calculated (unigram_state p.fst) p

    -- `GetDestinationState` in `NextState`, whose errors lead there.
    unfoldable pub destination_or_no_context : ℤ → ℤ → Program (Ppm D F) ℤ
    unfolding get_destination_state no_context
    destination_or_no_context state sym_index p = elim (get_destination_state state sym_index p) [
      | ok dest q ↦ ok (pos dest) q
      | err c q ↦ no_context q
      | fault ↦ fault
    ]

    -- `NextState`.
    unfoldable pub next_by_symbol : ℤ → ℤ → Program (Ppm D F) ℤ
    unfolding destination_or_no_context
    next_by_symbol state (pos (suc i)) = destination_or_no_context state (pos (suc i))
    next_by_symbol state (pos zero) = no_context
    next_by_symbol state (negsuc i) = no_context

    unfoldable pub next_state : ℤ → ℤ → Program (Ppm D F) ℤ
    unfolding next_by_symbol
    next_state state utf8_sym p =
        ◌>>=◌ (or_fault (encode_unicode_char u utf8_sym))
          (λ sym. next_by_symbol state (l.find_symbol sym p.fst)) p

    -- `ExtractLMScores`.
    unfoldable pub answered :
        LmScores D → Outcome (Ppm D F) (CacheEntry D) → Outcome (Ppm D F) (Bool × LmScores D)
    unfolding fill_lm_scores
    answered response fault = fault
    answered response (err c q) = ok (false, response) q
    answered response (ok e q) = elim (fill_lm_scores e.values q.fst response) [
      | none ↦ fault
      | some filled ↦ ok (true, filled) q
    ]

    unfoldable pub extract_lm_scores : ℤ → LmScores D → Program (Ppm D F) (Bool × LmScores D)
    unfolding answered
    extract_lm_scores (negsuc s) response p = fault
    extract_lm_scores (pos s) response p = answered response (ensure_cache_at_state d l fuel s p)
