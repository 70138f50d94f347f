-- ===== src/Hub/Assigning.antt =====
-- `AssignNewHubState` of mozolm/models/language_model_hub.cc: a state is placed and linked from the state
-- before it.
use mozolm.Base.{
  ℕ, zero, suc, ◌≡◌, ◌≢◌, inl, inr, refl, sym, ap, ◌∙◌, subst, none, some, List, ◌∷◌, arith, ◌==◌,
  length, get_elem?, set, length-set, get_elem?-set, lt-of-get_elem?, get_elem?_of_lt, Bool-cases,
}
use mozolm.Base.Int.{ℤ, pos, eq_ℤ_iff}
use mozolm.Base.Program.{ok, bind_ok}
use mozolm.Model.{LanguageModel}
use mozolm.Hub.{Hub, place_hub_state, link_hub_state, assign_new_hub_state}
use mozolm.Hub.State.{HubState, find, add_next_state}
use mozolm.Hub.Links.{Follows, IsLink, IsLinked}
use mozolm.Hub.Recycling.{fresh}
use mozolm.Hub.Consistent.{HasWidth, starts, IsConsistent, with_states}
use mozolm.Hub.Placing.{next_slot, IsKept, IsPlaced}
use mozolm.Hub.Slots.{
  next_length, place_hub_state_lem, positive_slot, slot_in_range, slot_filling, next_length_fits,
}

abbrev pub with_entry : HubState → ℤ → ℕ → HubState
with_entry h c j = record h { next_states = (c, j) ∷ h.next_states }

module _ (R : Follows) (states : List HubState) (last i : ℕ) (h : HubState) (c : ℤ) (j : ℕ)
    (linked : IsLinked R states last) (at_i : get_elem? states i ≡ some h) where
  abbrev extended : List HubState
  extended = set states i (with_entry h c j)

  pub extended_self : get_elem? extended i ≡ some (with_entry h c j)
  extended_self =
      ground (arith, get_elem?-set states i i (with_entry h c j), lt-of-get_elem? states i at_i)

  extended_other : (k : ℕ) → k ≢ i → get_elem? extended k ≡ get_elem? states k
  extended_other k ne =
      ground (arith, get_elem?-set states i k (with_entry h c j), lt-of-get_elem? states i at_i)

  -- A state and what it has become: more entries, the rest as before.
  extended_kept :
      (k : ℕ) (f : HubState)
      → get_elem? states k ≡ some f
      → (g : HubState) × (get_elem? extended k ≡ some g)
        × (g.prev_state ≡ f.prev_state)
        × (g.state_sym ≡ f.state_sym)
        × (g.model_states ≡ f.model_states)
  extended_kept k f at_k = elim (Bool-cases (k == i)) [
    | inl same ↦
        let is_h : f ≡ h = ground arith in
        (
          with_entry h c j,
          ground (arith, extended_self),
          ap (λ x. x.prev_state) (sym is_h),
          ap (λ x. x.state_sym) (sym is_h),
          ap (λ x. x.model_states) (sym is_h),
        )
    | inr other ↦ (f, extended_other k (ground arith) ∙ at_k, refl, refl, refl)
  ]

  IsLink-extended :
      (a : ℕ) (f g : HubState) (e : ℤ × ℕ)
      → g.model_states ≡ f.model_states
      → IsLink R states last a f e
      → IsLink R extended last a g e
  IsLink-extended a f g e same l =
      let (t, at_t, p, s, m) = extended_kept e.1 l.target l.at_target in
      record {
        newer = l.newer;
        target = t;
        at_target = at_t;
        back = p ∙ l.back;
        symbol = s ∙ l.symbol;
        follows = rw (same, m) l.follows;
      }

  pub extended-IsLinked : IsLink R states last i h (c, j) → IsLinked R extended last
  extended-IsLinked new a g k e at_g at_e = elim (Bool-cases (a == i)) [
    | inr other ↦
        let at_old = sym (extended_other a (ground arith)) ∙ at_g in
        IsLink-extended a g g e refl (linked a g k e at_old at_e)
    | inl same ↦
        let is_g : g ≡ with_entry h c j = ground (arith, extended_self) in
        let is_a : a ≡ i = ground arith in
        subst (λ x. IsLink R extended last x g e) (sym is_a)
          (entry k (ap (λ x. x.model_states) is_g)
            (subst (λ x. get_elem? x.next_states k ≡ some e) is_g at_e))
  ]
    where
      entry :
          (k : ℕ)
          → g.model_states ≡ h.model_states
          → get_elem? ((c, j) ∷ h.next_states) k ≡ some e
          → IsLink R extended last i g e
      entry zero same f =
          IsLink-extended i h g e same (subst (IsLink R states last i h) (ground arith) new)
      entry (suc k) same f = IsLink-extended i h g e same (linked i h k e at_i f)

  pub extended-HasWidth : (n : ℕ) → HasWidth states n → HasWidth extended n
  extended-HasWidth n widths a g at_g = elim (Bool-cases (a == i)) [
    | inr other ↦ widths a g (sym (extended_other a (ground arith)) ∙ at_g)
    | inl same ↦
        let is_g : g ≡ with_entry h c j = ground (arith, extended_self) in
        ap (λ x. length x.model_states) is_g ∙ widths i h at_i
  ]

abbrev pub with_last : {D M : Type 0} → Hub D M → ℕ → List HubState → Hub D M
with_last hub last states = record hub { last_created_hub_state = last; hub_states = states }

-- The hub after a state is assigned, and what stands in it.
pub record IsAssigned {D M : Type 0} (o : LanguageModel D M) (R : Follows) (hub : Hub D M)
    (prev : ℕ) (h : HubState) (c : ℤ) (ms : List ℤ) (states : List HubState) : Type 0 where
  pub consistent : IsConsistent o R (with_last hub (next_slot hub) states)
  pub size : length states ≡ next_length hub
  pub new : get_elem? states (next_slot hub) ≡ some (fresh ms (pos prev) c)
  pub before : HubState
  pub at_prev : get_elem? states prev ≡ some before
  pub same_models : before.model_states ≡ h.model_states
  pub entry : find c before.next_states ≡ some (next_slot hub)

module _ {D M : Type 0} (o : LanguageModel D M) (hub : Hub D M) (ms : List ℤ) (prev : ℕ) (c : ℤ)
    (idx : ℕ) (states' : List HubState) (g : HubState) where
  link_hub_state_lem :
      get_elem? states' prev ≡ some g
      → add_next_state g c idx ≡ with_entry g c idx
      → link_hub_state o prev c idx (with_states hub states')
        ≡ ok idx (with_last hub idx (set states' prev (with_entry g c idx)))
  unfolding link_hub_state
  link_hub_state_lem at_g e = rw at_g (ap (λ x. ok idx (with_last hub idx (set states' prev x))) e)

  -- The two parts of the call in turn.
  pub linked_to :
      place_hub_state o ms prev c hub ≡ ok idx (with_states hub states')
      → get_elem? states' prev ≡ some g
      → find c g.next_states ≡ none
      → assign_new_hub_state o ms prev c hub
        ≡ ok idx (with_last hub idx (set states' prev (with_entry g c idx)))
  unfolding assign_new_hub_state
  linked_to called at_g e =
      bind_ok (place_hub_state o ms prev c) (link_hub_state o prev c) hub called
      ∙ link_hub_state_lem at_g (ground (arith, e))

module _ {D M : Type 0} (o : LanguageModel D M) (R : Follows) (hub : Hub D M)
    (consistent : IsConsistent o R hub) (ms : List ℤ) (prev : ℕ) (h : HubState) (c : ℤ)
    (width : length ms ≡ length hub.language_models)
    (at_prev : get_elem? hub.hub_states prev ≡ some h) (missing : find c h.next_states ≡ none)
    (follows : R h.model_states c ms) (apart : prev ≢ next_slot hub) where
  abbrev idx : ℕ
  idx = next_slot hub

  still_missing : (g : HubState) → IsKept h g → find c g.next_states ≡ none
  still_missing g kept = elim kept.nexts [
    | inl same ↦ ap (find c) same ∙ missing
    | inr none_left ↦ ap (find c) none_left
  ]

  new_kept :
      (states' : List HubState) (g : HubState)
      → get_elem? states' prev ≡ some g
      → get_elem? states' idx ≡ some (fresh ms (pos prev) c)
      → get_elem? (set states' prev (with_entry g c idx)) idx ≡ some (fresh ms (pos prev) c)
  new_kept states' g at_g at_idx = ground (
    arith,
    get_elem?-set states' prev idx (with_entry g c idx),
    lt-of-get_elem? states' prev at_g,
  )

  start_kept :
      (states' : List HubState) (g : HubState)
      → IsPlaced R hub.hub_states states' (length hub.language_models) idx (fresh ms (pos prev) c)
      → get_elem? states' prev ≡ some g
      → (f : HubState) → get_elem? (set states' prev (with_entry g c idx)) 0 ≡ some f
      → f.model_states ≡ starts o hub.language_models
  start_kept states' g placed at_g f at_0 =
      let (f0, at_f0) = get_elem?_of_lt hub.hub_states 0 (omega (arith, consistent.recent)) in
      let (g0, at_g0, kept) = placed.kept 0 f0 (omega (arith, placed.positive)) at_f0 in
      let (g1, at_g1, _, _, same) =
        extended_kept R states' idx prev g c idx placed.linked at_g 0 g0 at_g0 in
      let is_f : f ≡ g1 = ground (arith, at_0, at_g1) in
      ap (λ x. x.model_states) is_f ∙ same ∙ kept.same_models ∙ consistent.start f0 at_f0

  assigned :
      (states' : List HubState) (g : HubState)
      → length states' ≡ next_length hub
      → IsPlaced R hub.hub_states states' (length hub.language_models) idx (fresh ms (pos prev) c)
      → get_elem? states' prev ≡ some g
      → IsKept h g
      → IsAssigned o R hub prev h c ms (set states' prev (with_entry g c idx))
  assigned states' g size placed at_g kept =
      let positive = positive_slot o R hub consistent ms prev c width in
      let after = extended R states' idx prev g c idx placed.linked at_g in
      let same_size : length after ≡ next_length hub =
        length-set states' prev (with_entry g c idx) ∙ size in
      let link : IsLink R states' idx prev g (c, idx) = record {
        newer = ground arith;
        target = fresh ms (pos prev) c;
        at_target = placed.placed;
        back = refl;
        symbol = refl;
        follows = rw kept.same_models follows;
      } in
      record {
        consistent = record {
          room = consistent.room;
          fits = rw same_size (next_length_fits o R hub consistent ms prev c width);
          recent = rw same_size (slot_in_range o R hub consistent ms prev c width);
          filling = rw same_size (slot_filling o R hub consistent ms prev c width);
          widths =
              extended-HasWidth R states' idx prev g c idx placed.linked at_g
                (length hub.language_models) placed.widths;
          start = start_kept states' g placed at_g;
          linked = extended-IsLinked R states' idx prev g c idx placed.linked at_g link;
        };
        size = same_size;
        new = new_kept states' g at_g placed.placed;
        before = with_entry g c idx;
        at_prev = extended_self R states' idx prev g c idx placed.linked at_g;
        same_models = kept.same_models;
        entry = ground (arith, eq_ℤ_iff c c);
      }

  -- The call succeeds, and everything holds afterwards.
  pub assign_new_hub_state_lem :
      (states : List HubState) × (assign_new_hub_state o ms prev c hub
        ≡ ok idx (with_last hub idx states))
      × IsAssigned o R hub prev h c ms states
  assign_new_hub_state_lem =
      let (states', (called, size, placed)) =
        place_hub_state_lem o R hub consistent ms prev c width in
      let (g, at_g, kept) = placed.kept prev h apart at_prev in
      (
        set states' prev (with_entry g c idx),
        linked_to o hub ms prev c idx states' g called at_g (still_missing g kept),
        assigned states' g size placed at_g kept,
      )
