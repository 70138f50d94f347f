-- ===== src/Server/Updates.antt =====
-- An update of mozolm/grpc/server_async_impl.cc with one symbol, and the request for the next state that
-- a client sends after it.
pub mod Tests
use mozolm.Base.{
  ℕ, zero, suc, ◌≡◌, ◌≢◌, ◌⊎◌, inl, inr, refl, sym, ap, ◌∙◌, subst, Bool, true, false, none, some,
  List, [], ◌∷◌, get_elem?, if◌then◌else◌,
}
use mozolm.Base.Int.{ℤ, pos, is_neg}
use mozolm.Base.Program.{
  Program, Outcome, ok, err, fault, ◌>>=◌, bind_ok, pure, fail, or_fault, invalid_argument,
}
use mozolm.Base.Keeps.{Keeps, bind-Keeps, if-Keeps}
use mozolm.Double.{Double}
use mozolm.Utf8.{Bytes, Utf8Library, str_split_by_char_to_unicode}
use mozolm.Utf8.Split.{str_split_by_char_to_unicode-nil}
use mozolm.Model.{LanguageModel, LmScores}
use mozolm.Hub.{Hub, next_state, context_state, context_loop, update_lm_counts}
use mozolm.Hub.Mixing.{extract_lm_scores}
use mozolm.Hub.State.{HubState, find}
use mozolm.Hub.Consistent.{IsConsistent}
use mozolm.Hub.Placing.{next_slot}
use mozolm.Hub.Stepping.{Steps, HaveTransitions, next_state_lem, stepped}
use mozolm.Hub.Remembering.{
  HasLink, update_lm_counts-Keeps, extract_lm_scores-Keeps, next_state-HasLink,
}
use mozolm.Server.{
  GetContextRequest, UpdateLmScoresRequest, empty_response, scores_or_error, handle_get_next_state,
  advance_loop, manage_update_lm_scores,
}

module _ {D M : Type 0} (d : Double D) (u : Utf8Library) (o : LanguageModel D M)
    (same_bytes : Bytes → Bytes → Bool) (zero_d : D)
    (order sort : List (Bytes × D) → List (Bytes × D)) where
  -- The handler behind the step to the state of the scores.
  abbrev pub updated : ℕ → ℤ → ℤ → ℕ → Program (Hub D M) (LmScores D)
  updated i c count j = update_lm_counts o (pos i) (c ∷ []) count >>= λ good.
      if good
      then scores_or_error d u o same_bytes zero_d order sort (pos j)
      else fail invalid_argument

  updated-Keeps :
      (i : ℕ) (c count : ℤ) (j : ℕ) (hub : Hub D M)
      → HasLink i c j hub.hub_states
      → Keeps (λ t. HasLink i c j t.hub_states) (updated i c count j hub)
  unfolding scores_or_error
  updated-Keeps i c count j hub link =
      let Linked : Hub D M → Type 0 = λ t. HasLink i c j t.hub_states in
      bind-Keeps Linked (update_lm_counts o (pos i) (c ∷ []) count) _ hub
        (update_lm_counts-Keeps o i c j (pos i) (c ∷ []) count hub link)
        (λ good t called kept. by_flag good t kept)
    where
      by_flag :
          (good : Bool) (t : Hub D M)
          → HasLink i c j t.hub_states
          → Keeps
              (λ r. HasLink i c j r.hub_states)
              ((if good
                  then scores_or_error d u o same_bytes zero_d order sort (pos j)
                  else fail invalid_argument)
                t)
      by_flag false t kept = kept
      by_flag true t kept =
          bind-Keeps (λ r. HasLink i c j r.hub_states)
            (extract_lm_scores d same_bytes zero_d order sort o (pos j)
              (empty_response d u o same_bytes zero_d order sort))
            _ t (extract_lm_scores-Keeps o i c j d same_bytes zero_d order sort (pos j) _ t kept)
            (λ r t' called still. by_answer r.0 r.1 t' still)
        where
          by_answer :
              (b : Bool) (scores : LmScores D) (r : Hub D M)
              → HasLink i c j r.hub_states
              → Keeps
                  (λ v. HasLink i c j v.hub_states)
                  ((if b then pure scores else fail invalid_argument) r)
          by_answer true scores r still = still
          by_answer false scores r still = still

  handle_get_next_state-HasLink :
      (context : Bytes) (i : ℕ) (c : ℤ) (j : ℕ) (hub : Hub D M)
      → str_split_by_char_to_unicode u context ≡ some (c ∷ [])
      → HasLink i c j hub.hub_states
      → handle_get_next_state d u o same_bytes zero_d order sort
          (record { context = context; state = pos i })
          hub
        ≡ ok (pos j) hub
  unfolding handle_get_next_state context_state context_loop
  handle_get_next_state-HasLink [] i c j hub split link =
      let none_there = str_split_by_char_to_unicode-nil u in absurd (cc)
  handle_get_next_state-HasLink (b ∷ s) i c j hub split link =
      rw (split, or_fault)
        (bind_ok (next_state o (pos i) c) _ hub (next_state-HasLink o i c j hub link))

  weakened :
      {A : Type 0} (P Q : Hub D M → Type 0)
      → ((t : Hub D M) → P t → Q t)
      → (r : Outcome (Hub D M) A) → Keeps P r
      → Keeps Q r
  weakened P Q implies (ok a t) p = implies t p
  weakened P Q implies (err k t) p = implies t p
  weakened P Q implies fault p = tt

  -- An update with one symbol at a state of a consistent hub, over models with transitions, where the
  -- state has a next state for the symbol already or is not the one to be recycled next. There is a
  -- state that NextState leads to, whose values are those of the models after the symbol: the update
  -- answers with its scores. However the update then ends, short of a fault, GetNextState for a text
  -- with just that symbol returns this state, and changes nothing.
  pub manage_update_lm_scores-Keeps :
      (δ : M → ℤ → ℤ → ℤ) (context : Bytes) (c count : ℤ) (hub : Hub D M) (i : ℕ) (h : HubState)
      → IsConsistent o (Steps δ hub.language_models) hub
      → HaveTransitions o δ hub.language_models
      → get_elem? hub.hub_states i ≡ some h
      → (find c h.next_states ≢ none) ⊎ (i ≢ next_slot hub)
      → str_split_by_char_to_unicode u context ≡ some (c ∷ [])
      → (j : ℕ) × (hub' : Hub D M) × (next : HubState) × (get_elem? hub'.hub_states j ≡ some next)
        × (next.model_states ≡ stepped δ 0 hub.language_models h.model_states c)
        × (manage_update_lm_scores d u o same_bytes zero_d order sort
              (record { state = pos i; utf8_sym = c ∷ []; count = count })
              hub
            ≡ updated i c count j hub')
        × Keeps
            (λ t.
              handle_get_next_state d u o same_bytes zero_d order sort
                (record { context = context; state = pos i })
                t
              ≡ ok (pos j) t)
            (manage_update_lm_scores d u o same_bytes zero_d order sort
              (record { state = pos i; utf8_sym = c ∷ []; count = count })
              hub)
  unfolding manage_update_lm_scores advance_loop HasLink
  manage_update_lm_scores-Keeps δ context c count hub i h consistent t at_i apart split =
      let (j, hub', called, st) = next_state_lem o δ hub i h c consistent t at_i apart in
      let advanced : advance_loop d u o same_bytes zero_d order sort (pos i) (c ∷ []) hub
          ≡ ok (pos j) hub' =
        bind_ok (next_state o (pos i) c) _ hub called in
      let same =
        bind_ok (advance_loop d u o same_bytes zero_d order sort (pos i) (c ∷ [])) _ hub advanced in
      (
        j,
        hub',
        st.next,
        st.at_next,
        st.values,
        same,
        subst
            (Keeps (λ t.
              handle_get_next_state d u o same_bytes zero_d order sort
                (record { context = context; state = pos i }) t
              ≡ ok (pos j) t))
            (sym same)
            (weakened (λ t. HasLink i c j t.hub_states) _
              (λ t link. handle_get_next_state-HasLink context i c j t split link)
              (updated i c count j hub') (updated-Keeps i c count j hub' st.remembered)),
      )
