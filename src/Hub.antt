-- ===== src/Hub.antt =====
-- mozolm/models/language_model_hub.h and .cc: the states of the hub, and how it makes them.
-- `D` are the doubles and `M` the objects of the language models.
pub mod State
pub mod Links
pub mod Recycling
pub mod Consistent
pub mod Placing
pub mod Restarting
pub mod Slots
pub mod Assigning
pub mod Stepping
pub mod Mixing
pub mod Initial
pub mod Tests
pub mod Verifying
pub mod Overwriting
pub mod Remembering
pub mod Contexts
use mozolm.Base.{
  ℕ, zero, suc, ◌+◌, ◌≡◌, Bool, true, false, ◌&&◌, not, Option, none, some, List, [], ◌∷◌, ◌++◌,
  map, if◌then◌else◌, ltb, leb, length, get_elem?, set,
}
use mozolm.Base.Int.{ℤ, pos, negsuc, minus_one, is_neg, in_range, eq_ℤ, at}
use mozolm.Base.Program.{
  Outcome, Program, pure, or_fault, or_else, lift, get, put, ok, err, fault, ◌>>=◌, ◌>>◌,
}
use mozolm.Utf8.{Bytes, Utf8Library, str_split_by_char_to_unicode}
use mozolm.Model.{LanguageModel}
use State.{HubState, model_state, next_state_of, add_next_state, update_from, verify_or_correct}

pub record Hub (D M : Type 0) : Type 0 where
  pub hub_states : List HubState
  pub last_created_hub_state : ℕ
  pub max_hub_states : ℕ
  pub mixture_weights : List D
  pub language_models : List M

-- An index that is out of range stands for the start state.
abbrev pub index_or_start : ℤ → ℕ → ℕ
index_or_start (pos i) n = if ltb i n then i else 0
index_or_start (negsuc i) n = 0

module _ {D M : Type 0} where
  -- `hub_states_[i]`.
  abbrev pub read_state : ℕ → Program (Hub D M) HubState
  read_state i hub = or_fault (get_elem? hub.hub_states i) hub

  abbrev pub write_state : ℕ → HubState → Program (Hub D M) (Unit {0})
  write_state i h hub = ok tt (record hub { hub_states = set hub.hub_states i h })

  pub state_sym : Hub D M → ℤ → ℤ
  state_sym hub state = elim (at hub.hub_states state) [ none ↦ minus_one | some h ↦ h.state_sym ]

  -- The loop of `UpdateHubState` over the next states of the overwritten one.
  pub reset_prev_states : List ℕ → Program (Hub D M) (Unit {0})
  reset_prev_states [] = pure tt
  reset_prev_states (next_state ∷ rest) = do
    h ← read_state next_state
    write_state next_state (record h { prev_state = minus_one })
    reset_prev_states rest

  pub update_hub_state : ℕ → List ℤ → ℤ → ℤ → Program (Hub D M) (Unit {0})
  unfolding reset_prev_states
  update_hub_state idx model_states prev_state sym = do
    h ← read_state idx
    updated ← lift (update_from h model_states prev_state sym)
    write_state idx updated.1
    reset_prev_states updated.0

module _ {D M : Type 0} (o : LanguageModel D M) where
  pub initialize_start_hub_state : Program (Hub D M) (Unit {0})
  unfolding update_hub_state
  initialize_start_hub_state hub =
      update_hub_state 0 (map o.start_state hub.language_models) minus_one (pos 0) hub

  -- The index of `AssignNewHubState` in a full hub: the one behind the last, or 1 again.
  pub recycled_index : Program (Hub D M) ℕ
  unfolding initialize_start_hub_state
  recycled_index hub =
      let idx = hub.last_created_hub_state + 1 in
      if leb hub.max_hub_states idx
      then ◌>>=◌ initialize_start_hub_state (λ _. pure 1) hub
      else ok idx hub

  -- The first part of `AssignNewHubState`: a state for the given values, recycled or new.
  pub place_hub_state : List ℤ → ℕ → ℤ → Program (Hub D M) ℕ
  unfolding recycled_index
  place_hub_state model_states prev_state sym hub =
      if leb hub.max_hub_states (length hub.hub_states)
      then ◌>>=◌ recycled_index
          (λ idx. ◌>>◌ (update_hub_state idx model_states (pos prev_state) sym) (pure idx)) hub
      else ok (length hub.hub_states) (record hub {
        hub_states =
            hub.hub_states
            ++ record {
              model_states = model_states;
              prev_state = pos prev_state;
              next_states = [];
              state_sym = sym;
            }
              ∷ [];
      })

  -- Its second part: the state counts as the last, and the one before it leads to it.
  pub link_hub_state : ℕ → ℤ → ℕ → Program (Hub D M) ℕ
  link_hub_state prev_state sym idx = do
    hub ← get
    put (record hub { last_created_hub_state = idx })
    prev ← read_state prev_state
    write_state prev_state (add_next_state prev sym idx)
    pure idx

  pub assign_new_hub_state : List ℤ → ℕ → ℤ → Program (Hub D M) ℕ
  unfolding place_hub_state link_hub_state
  assign_new_hub_state model_states prev_state sym =
      place_hub_state model_states prev_state sym >>= link_hub_state prev_state sym

  -- `language_models_[idx]->NextState(...)` for each model from number `i` on.
  pub step_models : HubState → ℤ → ℕ → List M → Outcome (List M) (List ℤ)
  step_models h sym i [] = ok [] []
  step_models h sym i (m ∷ ms) = elim (o.next_state (model_state h (pos i)) sym m) [
    | fault ↦ fault
    | err c m' ↦ err c (m' ∷ ms)
    | ok s m' ↦ elim (step_models h sym (i + 1) ms) [
      | fault ↦ fault
      | err c ms' ↦ err c (m' ∷ ms')
      | ok ss ms' ↦ ok (s ∷ ss) (m' ∷ ms')
    ]
  ]

  pub next_model_states : HubState → ℤ → Program (Hub D M) (List ℤ)
  unfolding step_models
  next_model_states h sym hub = elim (step_models h sym 0 hub.language_models) [
    | fault ↦ fault
    | err c ms ↦ err c (record hub { language_models = ms })
    | ok ss ms ↦ ok ss (record hub { language_models = ms })
  ]

  -- The new state for the values, the start state where there is none.
  abbrev pub create_from : ℕ → ℤ → List ℤ → Program (Hub D M) ℤ
  create_from state sym next_states =
      or_else (assign_new_hub_state next_states state sym >>= λ idx. pure (pos idx)) (λ _. pos 0)

  -- The part of `NextState` that makes a state, for a symbol that has none yet.
  pub create_next_state : ℕ → HubState → ℤ → Program (Hub D M) ℤ
  unfolding assign_new_hub_state next_model_states
  create_next_state state h sym = next_model_states h sym >>= create_from state sym

  -- The next state that the map has for the symbol, or a new one.
  pub existing_or_new : ℕ → ℤ → HubState → Program (Hub D M) ℤ
  unfolding create_next_state
  existing_or_new i sym h hub = elim (next_state_of h sym) [
    | pos next ↦ ok (pos next) hub
    | negsuc k ↦ create_next_state i h sym hub
  ]

  -- `NextState` behind the check of the index.
  pub next_state_from : ℕ → ℤ → Program (Hub D M) ℤ
  unfolding existing_or_new
  next_state_from i sym = read_state i >>= existing_or_new i sym

  pub next_state : ℤ → ℤ → Program (Hub D M) ℤ
  unfolding next_state_from
  next_state state sym hub = next_state_from (index_or_start state (length hub.hub_states)) sym hub

  unfoldable pub context_loop : ℤ → List ℤ → Program (Hub D M) ℤ
  unfolding next_state
  context_loop this_state [] = pure this_state
  context_loop this_state (sym ∷ syms) = do
    next ← next_state this_state sym
    context_loop (if is_neg next then pos 0 else next) syms

  unfoldable pub context_state : Utf8Library → Bytes → ℤ → Program (Hub D M) ℤ
  unfolding context_loop
  context_state u context init_state =
      let this_state : ℤ = if is_neg init_state then pos 0 else init_state in
      elim context [
        | [] ↦ pure this_state
        | b ∷ s ↦ or_fault (str_split_by_char_to_unicode u (b ∷ s)) >>= context_loop this_state
      ]

  -- The check of a state, which is written back: `next_states` are the values that it should have.
  pub correct_state : ℕ → ℤ → ℕ → List ℤ → HubState → Program (Hub D M) Bool
  correct_state state sym next next_states target hub =
      elim (verify_or_correct target state sym next_states) [
        | none ↦ fault
        | some checked ↦
            ok checked.0 (record hub { hub_states = set hub.hub_states next checked.1 })
      ]

  pub verify_next : ℕ → ℤ → ℕ → List ℤ → Program (Hub D M) Bool
  unfolding correct_state
  verify_next state sym next next_states =
      read_state next >>= correct_state state sym next next_states

  -- The body of the loop of `VerifyOrCorrectModelStates`: the state to go on from, `none` where there
  -- is none, or that the base information is wrong.
  pub verify_step : ℕ → ℤ → HubState → Program (Hub D M) (Bool × Option ℕ)
  unfolding next_model_states verify_next
  verify_step state sym h hub = elim (next_state_of h sym) [
    | negsuc k ↦ ok (true, none) hub
    | pos next ↦
        ◌>>=◌ (next_model_states h sym >>= verify_next state sym next)
          (λ result. pure (result, some next)) hub
  ]

  -- The loop of `VerifyOrCorrectModelStates` over the symbols.
  pub verify_or_correct_model_states : ℕ → List ℤ → Program (Hub D M) Bool
  unfolding verify_step
  verify_or_correct_model_states state [] hub = ok true hub
  verify_or_correct_model_states state (sym ∷ syms) hub =
      elim (◌>>=◌ (read_state state) (verify_step state sym) hub) [
        | fault ↦ fault
        | err c hub' ↦ err c hub'
        | ok step hub' ↦ elim step.0 [
          | false ↦ ok false hub'
          | true ↦ elim step.1 [
            | none ↦ ok true hub'
            | some next ↦ verify_or_correct_model_states next syms hub'
          ]
        ]
      ]

  -- The loop of `UpdateLMCounts` over the models that have a mixture weight: the number of weights
  -- left, and the models from number `i` on. A weight without a model is an access out of bounds.
  unfoldable pub update_models : HubState → List ℤ → ℤ → ℕ → ℕ → List M → Outcome (List M) Bool
  update_models h syms count i zero ms = ok true ms
  update_models h syms count i (suc n) [] = fault
  update_models h syms count i (suc n) (m ∷ ms) =
      elim (o.update_lm_counts (model_state h (pos i)) syms count m) [
        | fault ↦ fault
        | err c m' ↦ err c (m' ∷ ms)
        | ok false m' ↦ ok false (m' ∷ ms)
        | ok true m' ↦ elim (update_models h syms count (i + 1) n ms) [
          | fault ↦ fault
          | err c ms' ↦ err c (m' ∷ ms')
          | ok b ms' ↦ ok b (m' ∷ ms')
        ]
      ]

  pub update_lm_counts : ℤ → List ℤ → ℤ → Program (Hub D M) Bool
  unfolding update_models verify_or_correct_model_states
  update_lm_counts (negsuc k) syms count hub = ok false hub
  update_lm_counts (pos state) syms count hub = elim (get_elem? hub.hub_states state) [
    | none ↦ ok false hub
    | some h ↦
        elim (update_models h syms count 0 (length hub.mixture_weights) hub.language_models) [
          | fault ↦ fault
          | err c ms ↦ err c (record hub { language_models = ms })
          | ok false ms ↦ ok false (record hub { language_models = ms })
          | ok true ms ↦
              verify_or_correct_model_states state syms (record hub { language_models = ms })
        ]
  ]
