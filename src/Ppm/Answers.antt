-- ===== src/Ppm/Answers.antt =====
-- What mozolm/models/ppm_as_fst_model.cc answers from a cache that is right, and what it returns for
-- several observations at once.
use mozolm.Base.{ℕ, suc, ◌+◌, ◌≡◌, ◌≤◌, refl, ap, ◌∙◌, true, Option, some, List, get_elem?}
use mozolm.Base.Int.{ℤ, pos}
use mozolm.Base.Program.{Program, ok, ◌>>=◌, bind_ok, or_fault, calculated}
use mozolm.Double.{Double}
use mozolm.Fst.{FstLibrary}
use mozolm.Utf8.{Bytes, Utf8Library, encode_unicode_char}
use mozolm.Model.{LmScores}
use mozolm.Ppm.{Ppm, CacheEntry, max_int, ensure_cache_at_state}
use mozolm.Ppm.Blending.{Values}
use mozolm.Ppm.Scores.{
  cached_at, fill_lm_scores, get_destination_state, destination_or_no_context, next_by_symbol,
  next_state, answered, extract_lm_scores,
}
use mozolm.Ppm.Placing.{with_cache}
use mozolm.Ppm.Fresh.{IsRight, IsCalculatedAt}
use mozolm.Ppm.Transparent.{ensure_cache_at_state_lem}

module _ {D F : Type 0} (d : Double D) (l : FstLibrary D F) (u : Utf8Library) where
  -- A call that returns `a` and changes nothing but the cache, which stays right.
  abbrev pub Answers : {A : Type 0} → Program (Ppm D F) A → Ppm D F → A → Type 0
  Answers call p a =
      (n : ℕ) × (ci : List (Option ℕ)) × (sc : List (CacheEntry D)) × (call p
        ≡ ok a (with_cache p n ci sc))
      × IsRight d l p ci sc

  module _ (n m s : ℕ) (v : Values D) (p : Ppm D F)
      (right : IsRight d l p p.cache_index p.state_cache)
      (calculated_at : IsCalculatedAt d l p m s v) (enough : m ≤ n)
      (counted : p.cache_accessed + m ≤ max_int) where
    -- `ExtractLMScores` at a state whose values `v` can be calculated over `m` back-offs without a cache,
    -- on a model with a right cache and fuel for as many: it succeeds with the scores that
    -- `FillLMScores` makes of `v`, whatever is in the cache, and leaves the cache right.
    pub extract_lm_scores-fill_lm_scores :
        (response filled : LmScores D)
        → fill_lm_scores d l v p.fst response ≡ some filled
        → Answers (extract_lm_scores d l u n (pos s) response) p (true, filled)
    unfolding extract_lm_scores
    extract_lm_scores-fill_lm_scores response filled e =
        let (x, a, ci, sc, called, same, is, _) =
          ensure_cache_at_state_lem d l n m s v p right calculated_at enough counted in
        let filled_x : fill_lm_scores d l x.values p.fst response ≡ some filled =
          ap (λ w. fill_lm_scores d l w p.fst response) same ∙ e in
        (a, ci, sc, rw called (rw (answered, filled_x) refl), is)

    -- `NextState` at such a state, of a code point whose symbol has label `i + 1`, leads to the
    -- destination that `v` has for the label, whatever is in the cache, and leaves the cache right.
    pub next_state-destination_states :
        (c : ℤ) (symbol : Bytes) (i t : ℕ)
        → encode_unicode_char u c ≡ some symbol
        → l.find_symbol symbol p.fst ≡ pos (suc i)
        → get_elem? v.destination_states (suc i) ≡ some t
        → Answers (next_state d l u n (pos s) c) p (pos t)
    unfolding next_state next_by_symbol destination_or_no_context get_destination_state cached_at
    next_state-destination_states c symbol i t encoded found e =
        let (x, a, ci, sc, called, same, is, _) =
          ensure_cache_at_state_lem d l n m s v p right calculated_at enough counted in
        let read : get_elem? x.values.destination_states (suc i) ≡ some t =
          ap (λ (w : Values D). get_elem? w.destination_states (suc i)) same ∙ e in
        let got : get_destination_state d l u n (pos s) (pos (suc i)) p
            ≡ ok t (with_cache p a ci sc) =
          bind_ok (or_fault (some s) >>= λ i. ensure_cache_at_state d l n i)
            (λ e. calculated (cached_at e.values.destination_states (pos (suc i)))) p called
          ∙ rw (calculated, cached_at, read) refl in
        (
          a,
          ci,
          sc,
          rw (encoded, or_fault)
              (rw (found, next_by_symbol) (rw (got, destination_or_no_context) refl)),
          is,
        )
