-- ===== src/Hub/Slots.antt =====
-- `AssignNewHubState` of mozolm/models/language_model_hub.cc finds a place for a state: at the end, behind
-- the state made last, or at index 1 after a reset of the start state.
use mozolm.Base.{
  ℕ, suc, ◌+◌, ◌≡◌, ◌≤◌, ◌<◌, inl, inr, refl, sym, ap, ◌∙◌, true, false, List, [], ◌∷◌, ◌++◌, arith,
  if◌then◌else◌, leb, length, length-map, length-append, get_elem?_of_lt, Bool-cases,
}
use mozolm.Base.Int.{ℤ, pos, minus_one}
use mozolm.Base.Program.{Program, ok, ◌>>=◌, ◌>>◌, pure, bind_ok}
use mozolm.Model.{LanguageModel}
use mozolm.Hub.{Hub, update_hub_state, initialize_start_hub_state, recycled_index, place_hub_state}
use mozolm.Hub.State.{HubState}
use mozolm.Hub.Links.{Follows}
use mozolm.Hub.Recycling.{fresh, overwritten, length-overwritten, overwritten-HasWidth}
use mozolm.Hub.Consistent.{starts, IsConsistent, with_states, update_hub_state_lem}
use mozolm.Hub.Placing.{next_slot, IsPlaced, appended, recycled}
use mozolm.Hub.Restarting.{
  restarted-IsLinked, restarted-IsAlone, restarted_advance, restarted-IsKept, IsKept-trans,
  after-IsAlone, after_advance,
}

-- The steps of `place_hub_state` in a full hub.
module _ {D M : Type 0} (o : LanguageModel D M) where
  abbrev pub recycle : List ℤ → ℕ → ℤ → ℕ → Program (Hub D M) ℕ
  recycle ms prev c idx = ◌>>◌ (update_hub_state idx ms (pos prev) c) (pure idx)

  place_full :
      (hub : Hub D M) (ms : List ℤ) (prev : ℕ) (c : ℤ)
      → leb hub.max_hub_states (length hub.hub_states) ≡ true
      → place_hub_state o ms prev c hub ≡ ◌>>=◌ (recycled_index o) (recycle ms prev c) hub
  unfolding place_hub_state
  place_full hub ms prev c e = rw e refl

  index_behind :
      (hub : Hub D M)
      → leb hub.max_hub_states (hub.last_created_hub_state + 1) ≡ false
      → recycled_index o hub ≡ ok (hub.last_created_hub_state + 1) hub
  unfolding recycled_index
  index_behind hub e = rw e refl

  index_front :
      (hub hub' : Hub D M)
      → leb hub.max_hub_states (hub.last_created_hub_state + 1) ≡ true
      → initialize_start_hub_state o hub ≡ ok tt hub'
      → recycled_index o hub ≡ ok 1 hub'
  unfolding recycled_index
  index_front hub hub' e f = rw e (bind_ok (initialize_start_hub_state o) (λ _. pure 1) hub f)

-- The number of states after a state is placed.
abbrev pub next_length : {D M : Type 0} → Hub D M → ℕ
next_length hub =
    if leb hub.max_hub_states (length hub.hub_states)
    then length hub.hub_states
    else suc (length hub.hub_states)

module _ {D M : Type 0} (o : LanguageModel D M) (R : Follows) (hub : Hub D M)
    (consistent : IsConsistent o R hub) (ms : List ℤ) (prev : ℕ) (c : ℤ)
    (width : length ms ≡ length hub.language_models) where
  abbrev pub Placed : List HubState → Type 0
  Placed states' =
      (place_hub_state o ms prev c hub ≡ ok (next_slot hub) (with_states hub states'))
      × (length states' ≡ next_length hub)
      × IsPlaced R hub.hub_states states' (length hub.language_models) (next_slot hub)
          (fresh ms (pos prev) c)

  grown : length hub.hub_states < hub.max_hub_states → (states' : List HubState) × Placed states'
  unfolding place_hub_state next_slot
  grown less =
      let new = fresh ms (pos prev) c in
      let slot : next_slot hub ≡ length hub.hub_states = ground arith in
      let not_full : leb hub.max_hub_states (length hub.hub_states) ≡ false = ground arith in
      (
        hub.hub_states ++ new ∷ [],
        (
          rw (not_full, place_hub_state),
          ground (arith, length-append hub.hub_states (new ∷ [])),
          rw slot (
              appended R hub.hub_states (length hub.language_models) ms (pos prev) c
                consistent.widths width hub.last_created_hub_state (consistent.filling less)
                consistent.linked),
        ),
      )

  behind :
      hub.max_hub_states ≤ length hub.hub_states
      → hub.last_created_hub_state + 1 < hub.max_hub_states
      → (states' : List HubState) × Placed states'
  unfolding next_slot
  behind full room =
      let idx = hub.last_created_hub_state + 1 in
      let (h, at_h) = get_elem?_of_lt hub.hub_states idx (omega arith) in
      let same : length h.model_states ≡ length ms = consistent.widths idx h at_h ∙ sym width in
      let is_full : leb hub.max_hub_states (length hub.hub_states) ≡ true = ground arith in
      let at_behind : leb hub.max_hub_states (hub.last_created_hub_state + 1) ≡ false =
        ground arith in
      let called =
        update_hub_state_lem hub idx h ms (pos prev) c hub.last_created_hub_state consistent.linked
          at_h same in
      let slot : next_slot hub ≡ idx = ground arith in
      (
        overwritten hub.hub_states idx h ms (pos prev) c,
        (
          place_full o hub ms prev c is_full
              ∙ bind_ok (recycled_index o) (recycle o ms prev c) hub (index_behind o hub at_behind)
              ∙ bind_ok (update_hub_state idx ms (pos prev) c) (λ _. pure idx) hub called
              ∙ ap (λ n. ok n (with_states hub (overwritten hub.hub_states idx h ms (pos prev) c)))
                  (sym slot),
          ground (
            arith,
            length-overwritten R hub.hub_states hub.last_created_hub_state idx h ms (pos prev) c
                consistent.linked at_h,
          ),
          rw slot (
              recycled R hub.hub_states (length hub.language_models) ms (pos prev) c
                consistent.widths width hub.last_created_hub_state idx h (omega arith) at_h
                consistent.linked
                (after-IsAlone R hub.hub_states hub.last_created_hub_state consistent.linked)
                (after_advance R hub.hub_states hub.last_created_hub_state consistent.linked)),
        ),
      )

  -- The front of a full hub: the start state is reset, and state 1 overwritten.
  wrapped :
      hub.max_hub_states ≤ length hub.hub_states
      → hub.max_hub_states ≤ hub.last_created_hub_state + 1
      → (states' : List HubState) × Placed states'
  unfolding next_slot initialize_start_hub_state
  wrapped full done =
      let last = hub.last_created_hub_state in
      let states = hub.hub_states in
      let st = starts o hub.language_models in
      let width0 : length st ≡ length hub.language_models =
        length-map o.start_state hub.language_models in
      let (h0, at_0) = get_elem?_of_lt states 0 (omega (arith, consistent.recent)) in
      let bounded : length states ≤ suc last = omega (arith, consistent.fits) in
      let reset_to = overwritten states 0 h0 st minus_one (pos 0) in
      let size =
        length-overwritten R states last 0 h0 st minus_one (pos 0) consistent.linked at_0 in
      let linked' = restarted-IsLinked R states last h0 st consistent.linked at_0 bounded in
      let widths' =
        overwritten-HasWidth R states last 0 h0 st minus_one (pos 0) consistent.linked at_0
          (length hub.language_models) consistent.widths width0 in
      let (h1, at_1) = get_elem?_of_lt reset_to 1 (omega (arith, consistent.room)) in
      let is_full : leb hub.max_hub_states (length hub.hub_states) ≡ true = ground arith in
      let at_end : leb hub.max_hub_states (hub.last_created_hub_state + 1) ≡ true = ground arith in
      let called0 =
        update_hub_state_lem hub 0 h0 st minus_one (pos 0) last consistent.linked at_0
          (consistent.widths 0 h0 at_0 ∙ sym width0) in
      let called1 =
        update_hub_state_lem (with_states hub reset_to) 1 h1 ms (pos prev) c last linked' at_1
          (widths' 1 h1 at_1 ∙ sym width) in
      let slot : next_slot hub ≡ 1 = ground arith in
      let placed =
        recycled R reset_to (length hub.language_models) ms (pos prev) c widths' width last 1 h1
          (omega arith) at_1 linked'
          (restarted-IsAlone R states last h0 st consistent.linked at_0 bounded)
          (restarted_advance R states last h0 st consistent.linked at_0 bounded) in
      (
        overwritten reset_to 1 h1 ms (pos prev) c,
        (
          place_full o hub ms prev c is_full
              ∙ bind_ok (recycled_index o) (recycle o ms prev c) hub
                  (index_front o hub (with_states hub reset_to) at_end called0)
              ∙ bind_ok (update_hub_state 1 ms (pos prev) c) (λ _. pure 1)
                  (with_states hub reset_to) called1
              ∙ ap (λ n. ok n (with_states hub (overwritten reset_to 1 h1 ms (pos prev) c)))
                  (sym slot),
          ground
              (arith, size, length-overwritten R reset_to last 1 h1 ms (pos prev) c linked' at_1),
          rw slot record {
            linked = placed.linked;
            widths = placed.widths;
            placed = placed.placed;
            positive = placed.positive;
            kept = λ i f ne at_f.
                let (g, at_g, k) =
                  restarted-IsKept R states last h0 st consistent.linked at_0 bounded
                    (sym (consistent.start h0 at_0)) i f at_f in
                let (t, at_t, m) = placed.kept i g ne at_g in (t, at_t, IsKept-trans k m);
          },
        ),
      )

  -- A state is placed, without an error and without an access out of bounds.
  pub place_hub_state_lem : (states' : List HubState) × Placed states'
  place_hub_state_lem = elim (Bool-cases (leb hub.max_hub_states (length hub.hub_states))) [
    | inr less ↦ grown (ground arith)
    | inl full ↦ elim (Bool-cases (leb hub.max_hub_states (hub.last_created_hub_state + 1))) [
      | inr room ↦ behind (ground arith) (ground arith)
      | inl done ↦ wrapped (ground arith) (ground arith)
    ]
  ]

  pub positive_slot : 0 < next_slot hub
  unfolding next_slot
  positive_slot = let recent = consistent.recent in ground arith

  pub slot_in_range : next_slot hub < next_length hub
  unfolding next_slot
  slot_in_range = let recent = consistent.recent in let room = consistent.room in ground arith

  pub slot_filling : next_length hub < hub.max_hub_states → suc (next_slot hub) ≡ next_length hub
  unfolding next_slot
  slot_filling less = ground arith

  pub next_length_fits : next_length hub ≤ hub.max_hub_states
  next_length_fits = let fits = consistent.fits in ground arith
