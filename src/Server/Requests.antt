-- ===== src/Server/Requests.antt =====
-- The answers of mozolm/grpc/server_async_impl.cc to requests that follow each other.
use mozolm.Base.{
  ℕ, ◌+◌, ◌≡◌, ◌≤◌, refl, sym, ◌∙◌, Bool, some, List, [], length, get_elem?, if◌then◌else◌,
}
use mozolm.Base.Int.{ℤ, pos, is_neg}
use mozolm.Base.Program.{ok, bind_ok}
use mozolm.Double.{Double}
use mozolm.Utf8.{Bytes, Utf8Library, str_split_by_char_to_unicode}
use mozolm.Model.{LanguageModel}
use mozolm.Hub.{Hub, context_state}
use mozolm.Hub.State.{HubState}
use mozolm.Hub.Consistent.{IsConsistent}
use mozolm.Hub.Stepping.{Steps, HaveTransitions}
use mozolm.Hub.Contexts.{TakesNegativeAsStart, context_state_lem}
use mozolm.Server.{GetContextRequest, scores_or_error, handle_get_lm_scores, handle_get_next_state}

abbrev pub at_state : ℤ → GetContextRequest
at_state s = record { context = []; state = s }

module _ {D M : Type 0} (d : Double D) (u : Utf8Library) (o : LanguageModel D M)
    (same_bytes : Bytes → Bytes → Bool) (zero_d : D)
    (order sort : List (Bytes × D) → List (Bytes × D)) where
  empty_context : (j : ℕ) (hub : Hub D M) → context_state o u [] (pos j) hub ≡ ok (pos j) hub
  unfolding context_state mozolm.Hub.context_loop
  empty_context j hub = refl

  -- A client that asks for the next state of a context and then for the scores of that state gets the
  -- answer of one request for the scores of the context, and leaves the same hub behind. It holds for
  -- a consistent hub with room for the states of the context, over models with transitions that take a
  -- negative state for the start state, a context that is valid text and a state of the hub; the first
  -- request then succeeds.
  pub handle_get_lm_scores-handle_get_next_state :
      (δ : M → ℤ → ℤ → ℤ) (request : GetContextRequest) (syms : List ℤ) (hub : Hub D M) (i : ℕ)
      (h : HubState)
      → IsConsistent o (Steps δ hub.language_models) hub
      → HaveTransitions o δ hub.language_models
      → TakesNegativeAsStart o δ hub.language_models
      → str_split_by_char_to_unicode u request.context ≡ some syms
      → (if is_neg request.state then pos 0 else request.state) ≡ pos i
      → get_elem? hub.hub_states i ≡ some h
      → length hub.hub_states + length syms ≤ hub.max_hub_states
      → (j : ℕ) × (hub' : Hub D M) × (handle_get_next_state d u o same_bytes zero_d order sort
            request hub
          ≡ ok (pos j) hub')
        × (handle_get_lm_scores d u o same_bytes zero_d order sort (at_state (pos j)) hub'
            ≡ handle_get_lm_scores d u o same_bytes zero_d order sort request hub)
  unfolding handle_get_next_state handle_get_lm_scores
  handle_get_lm_scores-handle_get_next_state δ request syms hub i h consistent t n e from at_i
        room =
      let (j, hub', called, _, _, _, _) =
        context_state_lem o δ u request.context syms request.state hub i h consistent t n e from
          at_i room in
      let answer = scores_or_error d u o same_bytes zero_d order sort in
      (
        j,
        hub',
        called,
        bind_ok (context_state o u [] (pos j)) answer hub' (empty_context j hub')
            ∙ sym (bind_ok (context_state o u request.context request.state) answer hub called),
      )
