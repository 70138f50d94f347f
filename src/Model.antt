-- ===== src/Model.antt =====
-- mozolm/models/language_model.h and language_model.cc: the interface of a language model, and the
-- functions that all models share.
pub mod TopHypotheses
pub mod Tests
use mathlib.Core.List.{zip}
use mozolm.Base.{
  ℕ, zero, suc, ◌≡◌, Bool, true, false, Option, none, some, List, [], ◌∷◌, map, if◌then◌else◌, ◌==◌,
  length, take, not,
}
use mozolm.Base.Int.{ℤ, pos, negsuc, is_neg, is_nonpos, leb_ℤ}
use mozolm.Base.Program.{
  StatusOr, value, status, Code, internal, Program, Returns, pure, or_fault, get, ok, ◌>>=◌,
}
use mozolm.Double.{Double}
use mozolm.Utf8.{Bytes, Utf8Library, str_split_by_char_to_unicode}

-- `message LMScores` of lm_scores.proto.
pub record LmScores (D : Type 0) : Type 0 where
  pub symbols : List Bytes
  pub probabilities : List D
  pub normalization : D

-- The virtual functions of `class LanguageModel`, over the type `M` of the objects. A call may change
-- its object; `extract_lm_scores` is given the response and returns it filled in.
pub record LanguageModel (D M : Type 0) : Type 0 where
  pub start_state : M → ℤ
  pub next_state : ℤ → ℤ → Program M ℤ
  pub extract_lm_scores : ℤ → LmScores D → Program M (Bool × LmScores D)
  pub update_lm_counts : ℤ → List ℤ → ℤ → Program M Bool

-- A model whose `NextState` returns, leaves the object alone and is the function `δ`.
abbrev pub HasTransitions : {D M : Type 0} → LanguageModel D M → M → (ℤ → ℤ → ℤ) → Type 0
HasTransitions o m δ = (s c : ℤ) → o.next_state s c m ≡ ok (δ s c) m

module _ {D M : Type 0} (o : LanguageModel D M) where
  -- The loop of `ContextState` over the code points of the context.
  unfoldable pub context_loop : ℤ → List ℤ → Program M ℤ
  context_loop this_state [] = pure this_state
  context_loop this_state (sym ∷ syms) = do
    next ← o.next_state this_state sym
    m ← get
    context_loop (if is_neg next then o.start_state m else next) syms

  -- `LanguageModel::ContextState`.
  unfoldable pub context_state : Utf8Library → Bytes → ℤ → Program M ℤ
  unfolding context_loop
  context_state u context init_state m =
      let this_state : ℤ = if is_neg init_state then o.start_state m else init_state in
      elim context [
        | [] ↦ pure this_state m
        | b ∷ s ↦
            ◌>>=◌ (or_fault (str_split_by_char_to_unicode u (b ∷ s))) (context_loop this_state) m
      ]

-- The first `top_n` entries where that is positive, all of them otherwise.
unfoldable pub first_of_top {ℓ} : {A : Type ℓ} → ℤ → List A → List A
first_of_top (pos n) hyps = if n == 0 then hyps else take n hyps
first_of_top (negsuc n) hyps = hyps

-- `GetTopHypotheses`, over the sort of <algorithm> by descending probability.
module _ {D : Type 0} (sort : List (D × Bytes) → List (D × Bytes)) where
  unfoldable pub get_top_hypotheses : LmScores D → ℤ → StatusOr (List (D × Bytes))
  unfolding first_of_top
  get_top_hypotheses scores top_n =
      let num_entries = length scores.probabilities in
      if not (num_entries == length scores.symbols)
      then status internal
      else if leb_ℤ (pos num_entries) top_n
      then status internal
      else if num_entries == 0
      then status internal
      else value (first_of_top top_n (sort (zip scores.probabilities scores.symbols)))

-- `ngram::NegLogSum` with a Kahan correction: the sum and the new correction.
module _ {D : Type 0} (d : Double D) (zero_d : D) (kahan_sum : D → D → D → D × D) where
  softmax_total : D → D → List D → D
  softmax_total tot_prob kahan [] = tot_prob
  softmax_total tot_prob kahan (c ∷ cs) =
      let next = kahan_sum tot_prob c kahan in softmax_total next.0 next.1 cs

  -- `SoftmaxRenormalize`; the first access of an empty vector is out of bounds.
  unfoldable pub softmax_renormalize : List D → Option (List D)
  unfolding softmax_total
  softmax_renormalize [] = none
  softmax_renormalize (c ∷ cs) = some (map (λ x. d.sub x (softmax_total c zero_d cs)) (c ∷ cs))
