-- ===== src/Ppm/Serving.antt =====
-- A PPM model of mozolm/models/ppm_as_fst_model.cc in use: the calls of its interface one after the other.
pub mod Tests
use mozolm.Base.{ℕ, ◌≡◌, refl, subst, Bool, Option, none, some, List}
use mozolm.Base.Int.{ℤ, pos, negsuc}
use mozolm.Base.Keeps.{Keeps, outcome-Keeps, elim-Keeps}
use mozolm.Base.Program.{Program, Outcome, ok, err, fault}
use mozolm.Double.{Double}
use mozolm.Fst.{FstLibrary, IsFst}
use mozolm.Utf8.{Utf8Library}
use mozolm.Model.{LmScores}
use mozolm.Ppm.{Ppm, CacheEntry, ensure_cache_at_state}
use mozolm.Ppm.Scores.{next_state, extract_lm_scores, answered, fill_lm_scores}
use mozolm.Ppm.Updating.{update_lm_counts}
use mozolm.Ppm.Sized.{IsSized, ensure_cache_at_state-IsSized}
use mozolm.Ppm.Updating.Sizes.{next_state-IsSized, update_lm_counts-IsSized}

module _ {D F : Type 0} (d : Double D) (l : FstLibrary D F) (u : Utf8Library) (fuel : ℕ) where
  -- A call of the interface that returns, from one state of the model to the next.
  pub data Call : Ppm D F → Ppm D F → Type 0 where
    next : {p q : Ppm D F} (s c t : ℤ) → next_state d l u fuel s c p ≡ ok t q → Call p q
    scores :
        {p q : Ppm D F} (s : ℤ) (r : LmScores D) (a : Bool × LmScores D)
        → extract_lm_scores d l u fuel s r p ≡ ok a q
        → Call p q
    update :
        {p q : Ppm D F} (s : ℤ) (cs : List ℤ) (n : ℤ) (b : Bool)
        → update_lm_counts d l u fuel s cs n p ≡ ok b q
        → Call p q

  -- Calls one after the other.
  pub data Calls : Ppm D F → Ppm D F → Type 0 where
    done : {p : Ppm D F} → Calls p p
    then_call : {p q r : Ppm D F} → Calls p q → Call q r → Calls p r

  module _ (max cap : ℕ) (laws : IsFst l) where
    abbrev Sized : Ppm D F → Type 0
    Sized = IsSized l max cap

    extract_lm_scores-IsSized :
        (s : ℤ) (r : LmScores D) (p : Ppm D F)
        → Sized p
        → Keeps Sized (extract_lm_scores d l u fuel s r p)
    unfolding extract_lm_scores answered
    extract_lm_scores-IsSized (negsuc s) r p z = tt
    extract_lm_scores-IsSized (pos s) r p z =
        outcome-Keeps Sized (ensure_cache_at_state d l fuel s p) _ _
          (ensure_cache_at_state-IsSized l max cap d fuel s p z)
          (λ e q z. elim-Keeps Sized (fill_lm_scores d l e.values q.fst r) _ _ tt (λ _ _. z))
          (λ _ q z. z)

    returned :
        {A : Type 0} (o : Outcome (Ppm D F) A) {a : A} {q : Ppm D F}
        → o ≡ ok a q
        → Keeps Sized o
        → Sized q
    returned o e z = subst (λ x. Keeps Sized x) e z

    Call-IsSized : {p q : Ppm D F} → Call p q → Sized p → Sized q
    Call-IsSized {p} (next s c t e) z =
        returned (next_state d l u fuel s c p) e
          (next_state-IsSized d l u fuel max cap laws s c p z)
    Call-IsSized {p} (scores s r a e) z =
        returned (extract_lm_scores d l u fuel s r p) e (extract_lm_scores-IsSized s r p z)
    Call-IsSized {p} (update s cs n b e) z =
        returned (update_lm_counts d l u fuel s cs n p) e
          (update_lm_counts-IsSized d l u fuel max cap laws s cs n p z)

    -- However often NextState, ExtractLMScores and UpdateLMCounts have been called and returned, a model
    -- that had an order and an index of the cache for each state, every order below `max` and at most
    -- `cap` entries in its cache still has. Only `AddState` may change the number of states of a
    -- transducer.
    pub Calls-IsSized : {p q : Ppm D F} → Calls p q → IsSized l max cap p → IsSized l max cap q
    Calls-IsSized done z = z
    Calls-IsSized (then_call before call) z = Call-IsSized call (Calls-IsSized before z)
