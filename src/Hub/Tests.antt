-- ===== src/Hub/Tests.antt =====
-- A hub of two bigram models.
use mozolm.Base.{
  ℕ, zero, suc, ◌≡◌, inl, inr, refl, ap, true, some, List, [], ◌∷◌, arith, length, get_elem?,
}
use mozolm.Base.Int.{ℤ, pos, negsuc, minus_one}
use mozolm.Base.Program.{ok}
use mozolm.Utf8.{
  str_split_by_char_to_unicode, str_split_by_char, split_loop, decode_each,
  decode_single_unicode_char, decode_unicode_char,
}
use mozolm.Utf8.Tests.{ascii}
use mozolm.Model.{LanguageModel}
use mozolm.Bigram.{Bigram, bigram_model, sym_state}
use mozolm.Bigram.Transitions.{bigram_transitions, bigram_model-HasTransitions}
use mozolm.Bigram.Tests.{small, updated}
use mozolm.Double.Tests.{naturals}
use mozolm.Hub.{Hub, next_state, update_models}
use mozolm.Hub.State.{HubState, find}
use mozolm.Hub.Links.{IsLink, IsLinked}
use mozolm.Hub.Recycling.{fresh}
use mozolm.Hub.Consistent.{IsConsistent}
use mozolm.Hub.Placing.{next_slot}
use mozolm.Hub.Stepping.{stepped, Steps, HaveTransitions, IsStepped, next_state_lem}
use mozolm.Hub.Contexts.{TakesNegativeAsStart, HoldsContext, context_state_lem}
use mozolm.Hub.Mixing.{ModelHubConfig, interpolation}
use mozolm.Hub.Overwriting.{next_state_on_recycled_lem}
use mozolm.Hub.Verifying
use mozolm.Hub.Initial.{initial_hub, initial-IsConsistent}

abbrev pub model : LanguageModel ℕ (Bigram ℕ)
model = bigram_model naturals ascii

abbrev pub raw : Hub ℕ (Bigram ℕ)
raw = record {
  hub_states = [];
  last_created_hub_state = 0;
  max_hub_states = 0;
  mixture_weights = [];
  language_models = small ∷ small ∷ [];
}

abbrev config : ModelHubConfig ℕ
config = record {
  mixture_type = interpolation;
  weights = 2 ∷ 3 ∷ [];
  maximim_maintained_states = pos 10;
}

abbrev pub hub0 : Hub ℕ (Bigram ℕ)
hub0 = initial_hub model raw (2 ∷ 3 ∷ []) (pos 10)

pub all_transitions : (ms : List (Bigram ℕ)) → HaveTransitions model bigram_transitions ms
all_transitions ms k m e = bigram_model-HasTransitions naturals ascii m

pub no_state : (ms : List (Bigram ℕ)) → TakesNegativeAsStart model bigram_transitions ms
no_state ms k m n c e = refl

abbrev pub first : HubState
first = fresh (pos 0 ∷ pos 0 ∷ []) minus_one (pos 0)

next_state_lem_example :
    (j : ℕ) × (hub' : Hub ℕ (Bigram ℕ)) × (next_state model (pos 0) (pos 3) hub0 ≡ ok (pos j) hub')
    × IsStepped model bigram_transitions hub0 0 first (pos 3) j hub'
unfolding next_slot
next_state_lem_example =
    next_state_lem model bigram_transitions hub0 0 first (pos 3)
      (initial-IsConsistent model (Steps bigram_transitions raw.language_models) raw (2 ∷ 3 ∷ [])
        (pos 10))
      (all_transitions raw.language_models) refl (inr (omega arith))

context_state_lem_example :
    (j : ℕ) × (hub' : Hub ℕ (Bigram ℕ)) × (mozolm.Hub.context_state model ascii
        (2 ∷ 3 ∷ 2 ∷ [])
        (negsuc 0)
        hub0
      ≡ ok (pos j) hub')
    × IsConsistent model (Steps bigram_transitions raw.language_models) hub'
    × (reached : HubState) × (get_elem? hub'.hub_states j ≡ some reached)
    × HoldsContext model ascii (2 ∷ 3 ∷ 2 ∷ []) raw.language_models first reached
unfolding str_split_by_char_to_unicode str_split_by_char split_loop decode_each
    decode_single_unicode_char decode_unicode_char
context_state_lem_example =
    context_state_lem model bigram_transitions ascii (2 ∷ 3 ∷ 2 ∷ []) (pos 2 ∷ pos 3 ∷ pos 2 ∷ [])
      (negsuc 0) hub0 0 first
      (initial-IsConsistent model (Steps bigram_transitions raw.language_models) raw (2 ∷ 3 ∷ [])
        (pos 10))
      (all_transitions raw.language_models) (no_state raw.language_models) refl refl refl
      (omega arith)

-- A full hub of two states, in which the state made last was reached by the symbol 3.
abbrev second : HubState
second = fresh (pos 2 ∷ pos 2 ∷ []) (pos 0) (pos 3)

abbrev linking : HubState
linking = record first { next_states = (pos 3, 1) ∷ [] }

abbrev full : Hub ℕ (Bigram ℕ)
full = record hub0 {
  hub_states = linking ∷ second ∷ [];
  last_created_hub_state = 1;
  max_hub_states = 2;
}

full-IsConsistent : IsConsistent model (Steps bigram_transitions raw.language_models) full
unfolding sym_state
full-IsConsistent = record {
  room = omega arith;
  fits = omega arith;
  recent = omega arith;
  filling = λ less. absurd (omega arith);
  widths = widths;
  start =
      λ h e. let is_h : h ≡ linking = ground arith in ap (λ (x : HubState). x.model_states) is_h;
  linked = links;
}
  where
    widths :
        (i : ℕ) (h : HubState) → get_elem? full.hub_states i ≡ some h → length h.model_states ≡ 2
    widths zero h e =
        let is_h : h ≡ linking = ground arith in ap (λ (x : HubState). length x.model_states) is_h
    widths (suc zero) h e =
        let is_h : h ≡ second = ground arith in ap (λ (x : HubState). length x.model_states) is_h
    widths (suc (suc i)) h e = cc

    link_to_second :
        IsLink (Steps bigram_transitions raw.language_models) full.hub_states 1 0 linking (pos 3, 1)
    link_to_second = record {
      newer = inl (omega arith, omega arith);
      target = second;
      at_target = refl;
      back = refl;
      symbol = refl;
      follows = refl;
    }

    links : IsLinked (Steps bigram_transitions raw.language_models) full.hub_states 1
    links zero h zero x at_h at_x =
        let is_h : h ≡ linking = ground arith in
        let is_x : x ≡ (pos 3, 1) = ground arith in rw (is_h, is_x) link_to_second
    links zero h (suc k) x at_h at_x = let is_h : h ≡ linking = ground arith in absurd (cc)
    links (suc zero) h k x at_h at_x = let is_h : h ≡ second = ground arith in absurd (cc)
    links (suc (suc i)) h k x at_h at_x = cc

next_state_on_recycled_lem_example :
    (hub' : Hub ℕ (Bigram ℕ)) × (h' : HubState) × (next_state model (pos 1) (pos 2) full
      ≡ ok (pos 1) hub')
    × (get_elem? hub'.hub_states 1 ≡ some h')
    × (h'.model_states
        ≡ stepped bigram_transitions 0 raw.language_models second.model_states (pos 2))
    × (h'.prev_state ≡ pos 1)
    × (find (pos 2) h'.next_states ≡ some 1)
unfolding next_slot
next_state_on_recycled_lem_example =
    next_state_on_recycled_lem model bigram_transitions full 1 second (pos 2) full-IsConsistent
      (all_transitions raw.language_models) refl refl refl

updated_models :
    update_models model linking (pos 3 ∷ pos 2 ∷ []) (pos 5) 0 2 (small ∷ small ∷ [])
    ≡ ok true (updated ∷ updated ∷ [])
unfolding update_models mozolm.Bigram.update_lm_counts
updated_models = refl

same_steps :
    (xs : List ℤ) (c : ℤ)
    → stepped bigram_transitions 0 full.language_models xs c
      ≡ stepped bigram_transitions 0 (updated ∷ updated ∷ []) xs c
unfolding sym_state
same_steps xs c = refl

hub_update_lm_counts_lem_example :
    mozolm.Hub.update_lm_counts model (pos 0) (pos 3 ∷ pos 2 ∷ []) (pos 5) full
    ≡ ok true (record full { language_models = updated ∷ updated ∷ [] })
hub_update_lm_counts_lem_example =
    mozolm.Hub.Verifying.hub_update_lm_counts_lem model bigram_transitions full 0 linking
      (pos 3 ∷ pos 2 ∷ []) (pos 5) (updated ∷ updated ∷ []) full-IsConsistent refl updated_models
      (all_transitions (updated ∷ updated ∷ [])) same_steps
