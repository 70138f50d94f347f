-- ===== src/Hub/Overwriting.antt =====
-- `NextState` of mozolm/models/language_model_hub.cc on the state that `AssignNewHubState` is about to
-- recycle.
use mozolm.Base.{ℕ, ◌≡◌, refl, sym, subst, none, some, List, arith, length, get_elem?, set}
use mozolm.Base.Int.{ℤ, pos, eq_ℤ_iff}
use mozolm.Base.Program.{ok}
use mozolm.Model.{LanguageModel}
use mozolm.Hub.{Hub, assign_new_hub_state, next_state}
use mozolm.Hub.State.{HubState, find}
use mozolm.Hub.Recycling.{fresh}
use mozolm.Hub.Consistent.{IsConsistent}
use mozolm.Hub.Placing.{next_slot}
use mozolm.Hub.Slots.{place_hub_state_lem}
use mozolm.Hub.Assigning.{with_entry, with_last, extended_self, linked_to}
use mozolm.Hub.Stepping.{
  Steps, stepped, length-stepped, HaveTransitions, missing, next_model_states_lem,
}

module _ {D M : Type 0} (o : LanguageModel D M) (δ : M → ℤ → ℤ → ℤ) (hub : Hub D M) where
  self_assigned :
      (ms : List ℤ) (c : ℤ)
      → IsConsistent o (Steps δ hub.language_models) hub
      → length ms ≡ length hub.language_models
      → (states : List HubState) × (assign_new_hub_state o ms (next_slot hub) c hub
          ≡ ok (next_slot hub) (with_last hub (next_slot hub) states))
        × (get_elem? states (next_slot hub)
            ≡ some (with_entry (fresh ms (pos (next_slot hub)) c) c (next_slot hub)))
  self_assigned ms c consistent width =
      let i = next_slot hub in
      let new = fresh ms (pos i) c in
      let (states', (called, size, placed)) =
        place_hub_state_lem o (Steps δ hub.language_models) hub consistent ms i c width in
      (
        set states' i (with_entry new c i),
        linked_to o hub ms i c i states' new called placed.placed refl,
        extended_self (Steps δ hub.language_models) states' i i new c i placed.linked placed.placed,
      )

  -- A call of `NextState` for a new symbol on the state that is about to be recycled returns
  -- that same state, which now holds the values after the symbol. The state has itself as the previous
  -- state and as the next state for the symbol. It holds for a consistent hub over models with
  -- transitions.
  pub next_state_on_recycled_lem :
      (i : ℕ) (h : HubState) (c : ℤ)
      → IsConsistent o (Steps δ hub.language_models) hub
      → HaveTransitions o δ hub.language_models
      → get_elem? hub.hub_states i ≡ some h
      → find c h.next_states ≡ none
      → i ≡ next_slot hub
      → (hub' : Hub D M) × (h' : HubState) × (next_state o (pos i) c hub ≡ ok (pos i) hub')
        × (get_elem? hub'.hub_states i ≡ some h')
        × (h'.model_states ≡ stepped δ 0 hub.language_models h.model_states c)
        × (h'.prev_state ≡ pos i)
        × (find c h'.next_states ≡ some i)
  next_state_on_recycled_lem i h c consistent t at_i e same =
      let ms = stepped δ 0 hub.language_models h.model_states c in
      let (states, called, at_new) =
        self_assigned ms c consistent (length-stepped δ 0 hub.language_models h.model_states c) in
      let called_i =
        subst (λ n. assign_new_hub_state o ms n c hub ≡ ok n (with_last hub n states)) (sym same)
          called in
      let at_self =
        subst (λ n. get_elem? states n ≡ some (with_entry (fresh ms (pos n) c) c n)) (sym same)
          at_new in
      (
        with_last hub i states,
        with_entry (fresh ms (pos i) c) c i,
        missing o δ hub i h c at_i ms i (with_last hub i states) e
            (next_model_states_lem o δ h c hub t) called_i,
        at_self,
        refl,
        refl,
        ground (arith, eq_ℤ_iff c c),
      )
