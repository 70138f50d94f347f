-- ===== src/Hub/Consistent.antt =====
-- The invariant of the hub, and the calls that overwrite a state.
use mozolm.Base.{
  ℕ, suc, ◌≡◌, ◌≤◌, ◌<◌, refl, sym, ◌∙◌, subst, some, List, [], ◌∷◌, map, arith, length, get_elem?,
  set, length-set, lt-of-get_elem?, get_elem?_of_lt, get_elem?-map_inv,
}
use mozolm.Base.Int.{ℤ}
use mozolm.Base.Program.{ok}
use mozolm.Model.{LanguageModel}
use mozolm.Hub.{Hub, reset_prev_states, update_hub_state}
use mozolm.Hub.State.{HubState}
use mozolm.Hub.Links.{Follows, IsLinked, forget, reset_at, reset_all}
use mozolm.Hub.Recycling.{fresh, overwritten}

-- Every state has a value for each model.
abbrev pub HasWidth : List HubState → ℕ → Type 0
HasWidth states n = (i : ℕ) (h : HubState) → get_elem? states i ≡ some h → length h.model_states ≡ n

-- The values of the start state.
abbrev pub starts : {D M : Type 0} → LanguageModel D M → List M → List ℤ
starts o ms = map o.start_state ms

module _ {D M : Type 0} (o : LanguageModel D M) where
  pub record IsConsistent (R : Follows) (hub : Hub D M) : Type 0 where
    pub room : 1 < hub.max_hub_states
    pub fits : length hub.hub_states ≤ hub.max_hub_states
    pub recent : hub.last_created_hub_state < length hub.hub_states
    pub filling :
        length hub.hub_states < hub.max_hub_states
        → suc hub.last_created_hub_state ≡ length hub.hub_states
    pub widths : HasWidth hub.hub_states (length hub.language_models)
    pub start :
        (h : HubState)
        → get_elem? hub.hub_states 0 ≡ some h
        → h.model_states ≡ starts o hub.language_models
    pub linked : IsLinked R hub.hub_states hub.last_created_hub_state

module _ {D M : Type 0} where
  abbrev pub with_states : Hub D M → List HubState → Hub D M
  with_states hub states = record hub { hub_states = states }

  reset_step :
      (j : ℕ) (js : List ℕ) (hub : Hub D M) (t : HubState)
      → get_elem? hub.hub_states j ≡ some t
      → reset_prev_states (j ∷ js) hub
        ≡ reset_prev_states js (with_states hub (set hub.hub_states j (forget t)))
  unfolding reset_prev_states
  reset_step j js hub t e = ground (arith, e)

  reset_prev_states_lem :
      (js : List ℕ) (hub : Hub D M)
      → ((k j : ℕ) → get_elem? js k ≡ some j → j < length hub.hub_states)
      → reset_prev_states js hub ≡ ok tt (with_states hub (reset_all js hub.hub_states))
  unfolding reset_prev_states reset_all reset_at
  reset_prev_states_lem [] hub h = refl
  reset_prev_states_lem (j ∷ js) hub h =
      let (t, e) = get_elem?_of_lt hub.hub_states j (h 0 j refl) in
      let others =
        reset_prev_states_lem js (with_states hub (set hub.hub_states j (forget t)))
          (λ k i f. omega (arith, h (suc k) i f, length-set hub.hub_states j (forget t))) in
      reset_step j js hub t e
      ∙ subst
          (λ l.
            reset_prev_states js (with_states hub (set hub.hub_states j (forget t)))
            ≡ ok tt (with_states hub (reset_all js l)))
          (sym (reset_at_lem e)) others
    where
      reset_at_lem :
          {t : HubState}
          → get_elem? hub.hub_states j ≡ some t
          → reset_at j hub.hub_states ≡ set hub.hub_states j (forget t)
      reset_at_lem e = rw (e, reset_at)

  -- A call of `UpdateHubState` with a value for each model.
  pub update_hub_state_lem :
      (hub : Hub D M) (idx : ℕ) (h : HubState) (ms : List ℤ) (p c : ℤ) (last : ℕ) {R : Follows}
      → IsLinked R hub.hub_states last
      → get_elem? hub.hub_states idx ≡ some h
      → length h.model_states ≡ length ms
      → update_hub_state idx ms p c hub
        ≡ ok tt (with_states hub (overwritten hub.hub_states idx h ms p c))
  unfolding update_hub_state
  update_hub_state_lem hub idx h ms p c last linked at_idx same =
      let nexts = map (λ e. e.1) h.next_states in
      let placed = set hub.hub_states idx (fresh ms p c) in
      ground (
        arith,
        at_idx,
        same,
        reset_prev_states_lem nexts (with_states hub placed) (
            in_range h idx placed last linked at_idx
              (length-set hub.hub_states idx (fresh ms p c))),
      )
    where
      in_range :
          (h : HubState) (idx : ℕ) (placed : List HubState) (last : ℕ) {R : Follows}
          → IsLinked R hub.hub_states last
          → get_elem? hub.hub_states idx ≡ some h
          → length placed ≡ length hub.hub_states
          → (k j : ℕ) → get_elem? (map (λ e. e.1) h.next_states) k ≡ some j
          → j < length placed
      in_range h idx placed last linked at_idx e k j f =
          let (x, at_x, j_is) = get_elem?-map_inv (λ x. x.1) h.next_states k f in
          let l = linked idx h k x at_idx at_x in
          omega (arith, lt-of-get_elem? hub.hub_states x.1 l.at_target)
