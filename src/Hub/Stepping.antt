-- ===== src/Hub/Stepping.antt =====
-- `NextState` of mozolm/models/language_model_hub.cc, over models whose own `NextState` is a function
-- of the state and the symbol.
use mozolm.Base.{
  ℕ, suc, ◌+◌, ◌≡◌, ◌≢◌, ◌≤◌, ◌⊎◌, inl, inr, refl, ap, ◌∙◌, none, some, List, [], ◌∷◌, arith,
  length, get_elem?, lt-of-get_elem?, Option-cases,
}
use mozolm.Base.Int.{ℤ, pos, minus_one}
use mozolm.Base.Program.{ok, ◌>>=◌, pure, bind_ok, else_ok}
use mozolm.Model.{LanguageModel, HasTransitions}
use mozolm.Hub.{
  Hub, read_state, step_models, next_model_states, assign_new_hub_state, create_from,
  create_next_state, existing_or_new, next_state_from, next_state,
}
use mozolm.Hub.State.{HubState, find}
use mozolm.Hub.Links.{Follows, find-get_elem?}
use mozolm.Hub.Recycling.{fresh}
use mozolm.Hub.Consistent.{IsConsistent}
use mozolm.Hub.Placing.{next_slot}
use mozolm.Hub.Assigning.{with_last, assign_new_hub_state_lem}

-- The value for model `i`, -1 where there is none.
abbrev pub value_at : List ℤ → ℕ → ℤ
value_at xs i = elim (get_elem? xs i) [ none ↦ minus_one | some s ↦ s ]

module _ {M : Type 0} (δ : M → ℤ → ℤ → ℤ) where
  -- The values after a symbol, for the models from number `i` on.
  abbrev pub stepped : ℕ → List M → List ℤ → ℤ → List ℤ
  stepped i [] xs c = []
  stepped i (m ∷ ms) xs c = δ m (value_at xs i) c ∷ stepped (i + 1) ms xs c

  pub length-stepped :
      (i : ℕ) (ms : List M) (xs : List ℤ) (c : ℤ) → length (stepped i ms xs c) ≡ length ms
  length-stepped i [] xs c = refl
  length-stepped i (m ∷ ms) xs c = ap suc (length-stepped (i + 1) ms xs c)

  -- The relation between the values of linked states.
  abbrev pub Steps : List M → Follows
  Steps ms xs c ys = ys ≡ stepped 0 ms xs c

module _ {D M : Type 0} (o : LanguageModel D M) (δ : M → ℤ → ℤ → ℤ) where
  -- Each model of the hub has the transitions `δ`.
  abbrev pub HaveTransitions : List M → Type 0
  HaveTransitions ms = (k : ℕ) (m : M) → get_elem? ms k ≡ some m → HasTransitions o m (δ m)

  step_models_lem :
      (h : HubState) (c : ℤ) (i : ℕ) (ms : List M)
      → HaveTransitions ms
      → step_models o h c i ms ≡ ok (stepped δ i ms h.model_states c) ms
  unfolding step_models
  step_models_lem h c i [] t = refl
  step_models_lem h c i (m ∷ ms) t =
      rw
        (
          step_models,
          t 0 m refl (value_at h.model_states i) c,
          step_models_lem h c (i + 1) ms (λ k. t (suc k)),
        )
        refl

  pub next_model_states_lem :
      (h : HubState) (c : ℤ) (hub : Hub D M)
      → HaveTransitions hub.language_models
      → next_model_states o h c hub ≡ ok (stepped δ 0 hub.language_models h.model_states c) hub
  unfolding next_model_states
  next_model_states_lem h c hub t =
      rw (next_model_states, step_models_lem h c 0 hub.language_models t) refl

  -- What a call of `NextState` on state `i`, which was `h`, leaves behind: a state for the symbol,
  -- linked both ways, that the next call finds again.
  pub record IsStepped (hub : Hub D M) (i : ℕ) (h : HubState) (c : ℤ) (j : ℕ) (hub' : Hub D M)
      : Type 0 where
    pub consistent : IsConsistent o (Steps δ hub.language_models) hub'
    pub same_models : hub'.language_models ≡ hub.language_models
    pub limit : hub'.max_hub_states ≡ hub.max_hub_states
    pub growth : length hub'.hub_states ≤ suc (length hub.hub_states)
    pub next : HubState
    pub at_next : get_elem? hub'.hub_states j ≡ some next
    pub values : next.model_states ≡ stepped δ 0 hub.language_models h.model_states c
    pub symbol : next.state_sym ≡ c
    pub back : next.prev_state ≡ pos i
    pub again : next_state o (pos i) c hub' ≡ ok (pos j) hub'
    pub remembered :
        (g : HubState) × (get_elem? hub'.hub_states i ≡ some g) × (find c g.next_states ≡ some j)

  module _ (hub : Hub D M) (i : ℕ) (h : HubState) (c : ℤ)
      (at_i : get_elem? hub.hub_states i ≡ some h) where
    checked : next_state o (pos i) c hub ≡ next_state_from o i c hub
    unfolding next_state
    checked =
        ap (λ n. next_state_from o n c hub) (ground (arith, lt-of-get_elem? hub.hub_states i at_i))

    read : read_state i hub ≡ ok h hub
    read = rw at_i refl

    entered : next_state o (pos i) c hub ≡ existing_or_new o i c h hub
    unfolding next_state_from
    entered = checked ∙ bind_ok (read_state i) (existing_or_new o i c) hub read

    -- A symbol that has a state already.
    pub found :
        (j : ℕ) → find c h.next_states ≡ some j → next_state o (pos i) c hub ≡ ok (pos j) hub
    unfolding existing_or_new
    found j e = entered ∙ rw (existing_or_new, e) refl

    found-IsStepped :
        (j : ℕ)
        → IsConsistent o (Steps δ hub.language_models) hub
        → find c h.next_states ≡ some j
        → IsStepped hub i h c j hub
    found-IsStepped j consistent e =
        let (k, at_k) = find-get_elem? c h.next_states j e in
        let l = consistent.linked i h k (c, j) at_i at_k in
        record {
          consistent = consistent;
          same_models = refl;
          limit = refl;
          growth = omega arith;
          next = l.target;
          at_next = l.at_target;
          values = l.follows;
          symbol = l.symbol;
          back = l.back;
          again = found j e;
          remembered = (h, at_i, e);
        }

    -- A symbol that has none: the part of the code that makes a state.
    pub missing :
        (ms : List ℤ) (j : ℕ) (hub' : Hub D M)
        → find c h.next_states ≡ none
        → next_model_states o h c hub ≡ ok ms hub
        → assign_new_hub_state o ms i c hub ≡ ok j hub'
        → next_state o (pos i) c hub ≡ ok (pos j) hub'
    unfolding existing_or_new create_next_state
    missing ms j hub' e called assigned =
        entered
        ∙ rw (existing_or_new, e)
            (bind_ok (next_model_states o h c) (create_from o i c) hub called
              ∙ else_ok (assign_new_hub_state o ms i c >>= λ j. pure (pos j)) (λ _. pos 0) hub
                  (bind_ok (assign_new_hub_state o ms i c) (λ j. pure (pos j)) hub assigned))

  -- `NextState` on a state of a consistent hub whose models have transitions, where the state has a
  -- next state for the symbol already or is not the one to be recycled next. It returns a state that
  -- holds the values of the models after the symbol, the symbol and the previous state. The hub keeps
  -- its invariant, also where it grows or overwrites states, its models and its limit, it has one more
  -- state at most, and a second call of `NextState` returns the same state and changes nothing.
  pub next_state_lem :
      (hub : Hub D M) (i : ℕ) (h : HubState) (c : ℤ)
      → IsConsistent o (Steps δ hub.language_models) hub
      → HaveTransitions hub.language_models
      → get_elem? hub.hub_states i ≡ some h
      → (find c h.next_states ≢ none) ⊎ (i ≢ next_slot hub)
      → (j : ℕ) × (hub' : Hub D M) × (next_state o (pos i) c hub ≡ ok (pos j) hub')
        × IsStepped hub i h c j hub'
  next_state_lem hub i h c consistent transitions at_i apart =
      elim (Option-cases (find c h.next_states)) [
        | inr (j, e) ↦
            (j, hub, found hub i h c at_i j e, found-IsStepped hub i h c at_i j consistent e)
        | inl e ↦
            made hub i h c consistent transitions at_i e
              (elim apart [ inl f ↦ absurd (f e) | inr ne ↦ ne ])
      ]
    where
      made :
          (hub : Hub D M) (i : ℕ) (h : HubState) (c : ℤ)
          → IsConsistent o (Steps δ hub.language_models) hub
          → HaveTransitions hub.language_models
          → get_elem? hub.hub_states i ≡ some h
          → find c h.next_states ≡ none
          → i ≢ next_slot hub
          → (j : ℕ) × (hub' : Hub D M) × (next_state o (pos i) c hub ≡ ok (pos j) hub')
            × IsStepped hub i h c j hub'
      made hub i h c consistent transitions at_i e ne =
          let ms = stepped δ 0 hub.language_models h.model_states c in
          let (states, called, a) =
            assign_new_hub_state_lem o (Steps δ hub.language_models) hub consistent ms i h c
              (length-stepped δ 0 hub.language_models h.model_states c) at_i e refl ne in
          let hub' = with_last hub (next_slot hub) states in
          (
            next_slot hub,
            hub',
            missing hub i h c at_i ms (next_slot hub) hub' e
                (next_model_states_lem h c hub transitions) called,
            record {
              consistent = a.consistent;
              same_models = refl;
              limit = refl;
              growth = (let size = a.size in ground arith);
              next = fresh ms (pos i) c;
              at_next = a.new;
              values = refl;
              symbol = refl;
              back = refl;
              again = found hub' i a.before c a.at_prev (next_slot hub) a.entry;
              remembered = (a.before, a.at_prev, a.entry);
            },
          )
