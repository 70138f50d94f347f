-- ===== src/Hub/Contexts.antt =====
-- `ContextState` of mozolm/models/language_model_hub.cc against `LanguageModel::ContextState` of
-- mozolm/models/language_model.cc.
use mozolm.Base.{
  ℕ, zero, suc, ◌+◌, ◌≡◌, ◌≤◌, inr, refl, sym, ap, ◌∙◌, subst, some, List, [], ◌∷◌, arith,
  if◌then◌else◌, length, get_elem?, lt-of-get_elem?,
}
use mozolm.Base.Int.{ℤ, pos, negsuc, is_neg}
use mozolm.Base.Program.{ok, ◌>>=◌, or_fault, get, bind_ok}
use mozolm.Utf8.{Bytes, Utf8Library, str_split_by_char_to_unicode}
use mozolm.Utf8.Split.{str_split_by_char_to_unicode-nil}
use mozolm.Model.{LanguageModel, HasTransitions}
use mozolm.Hub.{Hub, next_state}
use mozolm.Hub.State.{HubState}
use mozolm.Hub.Consistent.{IsConsistent}
use mozolm.Hub.Placing.{next_slot}
use mozolm.Hub.Stepping.{value_at, stepped, Steps, HaveTransitions, next_state_lem}

-- A value that stands for the start state is the start state.
abbrev pub resolved : {D M : Type 0} → LanguageModel D M → M → ℤ → ℤ
resolved o m s = if is_neg s then o.start_state m else s

-- A model takes a negative state for its start state.
abbrev pub TakesNegativeAsStart :
    {D M : Type 0} → LanguageModel D M → (M → ℤ → ℤ → ℤ) → List M → Type 0
TakesNegativeAsStart o δ ms =
    (k : ℕ) (m : _) (n : ℕ) (c : ℤ)
    → get_elem? ms k ≡ some m
    → δ m (negsuc n) c ≡ δ m (o.start_state m) c

-- The states that the models reach by themselves from the ones that `h` holds.
pub HoldsContext :
    {D M : Type 0} → LanguageModel D M → Utf8Library → Bytes → List M → HubState → HubState → Type 0
HoldsContext {M = M} o u context ms h reached =
    (k : ℕ) (m : M)
    → get_elem? ms k ≡ some m
    → mozolm.Model.context_state o u context (value_at h.model_states k) m
      ≡ ok (resolved o m (value_at reached.model_states k)) m

module _ {M : Type 0} (δ : M → ℤ → ℤ → ℤ) where
  -- The values after a list of symbols.
  abbrev pub walked : List M → List ℤ → List ℤ → List ℤ
  walked ms xs [] = xs
  walked ms xs (c ∷ cs) = walked ms (stepped δ 0 ms xs c) cs

  value_at-stepped :
      (ms : List M) (i k : ℕ) (xs : List ℤ) (c : ℤ) (m : M)
      → get_elem? ms k ≡ some m
      → value_at (stepped δ i ms xs c) k ≡ δ m (value_at xs (i + k)) c
  value_at-stepped [] i k xs c m e = cc
  value_at-stepped (a ∷ ms) i zero xs c m e =
      let same : a ≡ m = ground arith in let at_i : i + 0 ≡ i = omega arith in rw (same, at_i) refl
  value_at-stepped (a ∷ ms) i (suc k) xs c m e =
      let at_k : i + suc k ≡ i + 1 + k = omega arith in
      rw at_k (value_at-stepped ms (i + 1) k xs c m e)

module _ {D M : Type 0} (o : LanguageModel D M) (δ : M → ℤ → ℤ → ℤ) where
  model_step :
      (s c n : ℤ) (cs : List ℤ) (m : M)
      → o.next_state s c m ≡ ok n m
      → mozolm.Model.context_loop o s (c ∷ cs) m ≡ mozolm.Model.context_loop o (resolved o m n) cs m
  unfolding mozolm.Model.context_loop
  model_step s c n cs m e =
      bind_ok (o.next_state s c)
        (λ next. get >>= λ m'. mozolm.Model.context_loop o (resolved o m' next) cs) m e

  from_start :
      (ms : List M) (k : ℕ) (m : M) (s c : ℤ)
      → TakesNegativeAsStart o δ ms
      → get_elem? ms k ≡ some m
      → δ m (resolved o m s) c ≡ δ m s c
  from_start ms k m (pos s) c n e = refl
  from_start ms k m (negsuc s) c n e = sym (n k m s c e)

  -- The model's own walk reaches the value that the hub's walk has for it.
  model_walk :
      (ms : List M) (k : ℕ) (m : M) (syms : List ℤ) (xs : List ℤ)
      → HaveTransitions o δ ms
      → TakesNegativeAsStart o δ ms
      → get_elem? ms k ≡ some m
      → mozolm.Model.context_loop o (resolved o m (value_at xs k)) syms m
        ≡ ok (resolved o m (value_at (walked δ ms xs syms) k)) m
  unfolding mozolm.Model.context_loop
  model_walk ms k m [] xs t n e = refl
  model_walk ms k m (c ∷ cs) xs t n e =
      let x = value_at xs k in
      let at_k : 0 + k ≡ k = omega arith in
      let next : δ m (resolved o m x) c ≡ value_at (stepped δ 0 ms xs c) k =
        from_start ms k m x c n e
        ∙ sym (value_at-stepped δ ms 0 k xs c m e ∙ ap (λ n. δ m (value_at xs n) c) at_k) in
      model_step (resolved o m x) c (δ m (resolved o m x) c) cs m (t k m e (resolved o m x) c)
      ∙ subst
          (λ y.
            mozolm.Model.context_loop o (resolved o m y) cs m
            ≡ ok (resolved o m (value_at (walked δ ms xs (c ∷ cs)) k)) m)
          (sym next) (model_walk ms k m cs (stepped δ 0 ms xs c) t n e)

  -- The hub's walk.
  pub record IsWalked (hub : Hub D M) (xs : List ℤ) (syms : List ℤ) (j : ℕ) (hub' : Hub D M)
      : Type 0 where
    pub consistent : IsConsistent o (Steps δ hub.language_models) hub'
    pub same_models : hub'.language_models ≡ hub.language_models
    pub reached : HubState
    pub at_reached : get_elem? hub'.hub_states j ≡ some reached
    pub values : reached.model_states ≡ walked δ hub.language_models xs syms

  hub_step :
      (s c : ℤ) (j : ℕ) (cs : List ℤ) (hub hub' : Hub D M)
      → next_state o s c hub ≡ ok (pos j) hub'
      → mozolm.Hub.context_loop o s (c ∷ cs) hub ≡ mozolm.Hub.context_loop o (pos j) cs hub'
  unfolding mozolm.Hub.context_loop
  hub_step s c j cs hub hub' e =
      bind_ok (next_state o s c)
        (λ next. mozolm.Hub.context_loop o (if is_neg next then pos 0 else next) cs) hub e

  hub_walk :
      (syms : List ℤ) (hub : Hub D M) (i : ℕ) (h : HubState)
      → IsConsistent o (Steps δ hub.language_models) hub
      → HaveTransitions o δ hub.language_models
      → get_elem? hub.hub_states i ≡ some h
      → length hub.hub_states + length syms ≤ hub.max_hub_states
      → (j : ℕ) × (hub' : Hub D M) × (mozolm.Hub.context_loop o (pos i) syms hub ≡ ok (pos j) hub')
        × IsWalked hub h.model_states syms j hub'
  unfolding mozolm.Hub.context_loop next_slot
  hub_walk [] hub i h consistent t at_i room = (
    i,
    hub,
    refl,
    record {
      consistent = consistent;
      same_models = refl;
      reached = h;
      at_reached = at_i;
      values = refl;
    },
  )
  hub_walk (c ∷ cs) hub i h consistent t at_i room =
      let within = lt-of-get_elem? hub.hub_states i at_i in
      let (j, hub1, called, s) =
        next_state_lem o δ hub i h c consistent t at_i (inr (ground arith)) in
      let (k, hub2, rest, w) =
        hub_walk cs hub1 j s.next (rw s.same_models s.consistent) (rw s.same_models t) s.at_next
          (rw s.limit (omega (arith, s.growth))) in
      (
        k,
        hub2,
        hub_step (pos i) c j cs hub hub1 called ∙ rest,
        record {
          consistent = subst (λ ms. IsConsistent o (Steps δ ms) hub2) s.same_models w.consistent;
          same_models = w.same_models ∙ s.same_models;
          reached = w.reached;
          at_reached = w.at_reached;
          values =
              w.values
              ∙ ap (λ xs. walked δ hub1.language_models xs cs) s.values
              ∙ ap (λ ms. walked δ ms (stepped δ 0 hub.language_models h.model_states c) cs)
                  s.same_models;
        },
      )

  walks :
      (u : Utf8Library) (context : Bytes) (syms : List ℤ) (init_state : ℤ) (hub : Hub D M) (i : ℕ)
      → str_split_by_char_to_unicode u context ≡ some syms
      → (if is_neg init_state then pos 0 else init_state) ≡ pos i
      → mozolm.Hub.context_state o u context init_state hub
        ≡ mozolm.Hub.context_loop o (pos i) syms hub
  unfolding mozolm.Hub.context_state mozolm.Hub.context_loop
  walks u [] syms init_state hub i e from =
      let empty : syms ≡ [] = ground (arith, str_split_by_char_to_unicode-nil u) in
      rw (empty, from) refl
  walks u (b ∷ s) syms init_state hub i e from =
      let decoded : or_fault (str_split_by_char_to_unicode u (b ∷ s)) hub ≡ ok syms hub =
        rw e refl in
      bind_ok (or_fault (str_split_by_char_to_unicode u (b ∷ s)))
        (mozolm.Hub.context_loop o (if is_neg init_state then pos 0 else init_state)) hub decoded
      ∙ ap (λ t. mozolm.Hub.context_loop o t syms hub) from

  model_walks :
      (u : Utf8Library) (context : Bytes) (syms : List ℤ) (x : ℤ) (m : M)
      → str_split_by_char_to_unicode u context ≡ some syms
      → mozolm.Model.context_state o u context x m
        ≡ mozolm.Model.context_loop o (resolved o m x) syms m
  unfolding mozolm.Model.context_state mozolm.Model.context_loop
  model_walks u [] syms x m e =
      let empty : syms ≡ [] = ground (arith, str_split_by_char_to_unicode-nil u) in rw empty refl
  model_walks u (b ∷ s) syms x m e =
      let decoded : or_fault (str_split_by_char_to_unicode u (b ∷ s)) m ≡ ok syms m = rw e refl in
      bind_ok (or_fault (str_split_by_char_to_unicode u (b ∷ s)))
        (mozolm.Model.context_loop o (resolved o m x)) m decoded

  -- `ContextState` of a consistent hub with room for the states of a context, where the context splits
  -- into code points and the initial state is one of the hub's or negative, which stands for state 0.
  -- It returns a state of the hub whose value for each model is the state that the model's own
  -- `ContextState` returns for the same context, from the value of the initial state; a negative value
  -- stands for the model's start state. The invariant of the hub is kept. It holds for models that have
  -- transitions and take a negative state for the start state.
  pub context_state_lem :
      (u : Utf8Library) (context : Bytes) (syms : List ℤ) (init_state : ℤ) (hub : Hub D M) (i : ℕ)
      (h : HubState)
      → IsConsistent o (Steps δ hub.language_models) hub
      → HaveTransitions o δ hub.language_models
      → TakesNegativeAsStart o δ hub.language_models
      → str_split_by_char_to_unicode u context ≡ some syms
      → (if is_neg init_state then pos 0 else init_state) ≡ pos i
      → get_elem? hub.hub_states i ≡ some h
      → length hub.hub_states + length syms ≤ hub.max_hub_states
      → (j : ℕ) × (hub' : Hub D M) × (mozolm.Hub.context_state o u context init_state hub
          ≡ ok (pos j) hub')
        × IsConsistent o (Steps δ hub.language_models) hub'
        × (reached : HubState) × (get_elem? hub'.hub_states j ≡ some reached)
        × HoldsContext o u context hub.language_models h reached
  unfolding HoldsContext
  context_state_lem u context syms init_state hub i h consistent t n e from at_i room =
      let (j, hub', called, w) = hub_walk syms hub i h consistent t at_i room in
      (
        j,
        hub',
        walks u context syms init_state hub i e from ∙ called,
        w.consistent,
        w.reached,
        w.at_reached,
        λ k m at_k.
            model_walks u context syms (value_at h.model_states k) m e
            ∙ model_walk hub.language_models k m syms h.model_states t n at_k
            ∙ ap (λ xs. ok (resolved o m (value_at xs k)) m) (sym w.values),
      )
