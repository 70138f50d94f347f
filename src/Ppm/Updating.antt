-- ===== src/Ppm/Updating.antt =====
-- mozolm/models/ppm_as_fst_model.cc: an observation of a symbol changes the counts, and perhaps the
-- states, along the back-offs.
pub mod Orders
pub mod Sizes
use mozolm.Base.{
  ℕ, zero, suc, ◌+◌, ◌-◌, Bool, true, false, Option, none, some, List, [], ◌∷◌, ◌++◌, if◌then◌else◌,
  ltb, leb, ◌==◌, ◌||◌, length, get_elem?, set, not,
}
use mozolm.Base.Int.{ℤ, pos, negsuc, is_nonpos}
use mozolm.Base.Program.{
  Outcome, ok, err, fault, Program, pure, fail, or_fault, get, put, internal, ◌>>=◌, ◌>>◌,
  calculated,
}
use mozolm.Double.{Double}
use mozolm.Fst.{Arc, FstLibrary}
use mozolm.Utf8.{Bytes, Utf8Library, encode_unicode_char}
use mozolm.Ppm.{Ppm, ensure_cache_at_state, update_cache_at_state}
use mozolm.Ppm.Blending.{no_observations}
use mozolm.Ppm.Scores.{get_arc_origin_state, get_destination_state, get_neg_log_prob, next_state}

-- Comparisons of orders, of which `none` is -1.
abbrev pub order_lt : Option ℕ → Option ℕ → Bool
order_lt none none = false
order_lt none (some b) = true
order_lt (some a) none = false
order_lt (some a) (some b) = ltb a b

abbrev pub order_eq : Option ℕ → Option ℕ → Bool
order_eq none none = true
order_eq none (some b) = false
order_eq (some a) none = false
order_eq (some a) (some b) = a == b

abbrev pub order_after : Option ℕ → ℕ
order_after none = 0
order_after (some a) = a + 1

-- `NeedsNewState`, of two states that are in range.
unfoldable pub needs_new_order : ℕ → Option ℕ → Option ℕ → Program (Unit {0}) Bool
needs_new_order max_order curr next =
    if order_lt curr next
    then pure false
    else if not (order_eq next curr)
    then fail internal
    else pure (not (leb max_order (order_after next)))

unfoldable pub needs_new_state : ℕ → List (Option ℕ) → ℕ → ℕ → Program (Unit {0}) Bool
unfolding needs_new_order
needs_new_state max_order orders curr_state next_state = do
  next ← or_fault (get_elem? orders next_state)
  curr ← or_fault (get_elem? orders curr_state)
  needs_new_order max_order curr next

-- The first arc with a label, from number `i` on.
unfoldable pub arc_with : {D : Type 0} → ℕ → ℕ → List (Arc D) → Option (ℕ × Arc D)
arc_with label i [] = none
arc_with label i (a ∷ rest) =
    let later = arc_with label (i + 1) rest in if a.ilabel == label then some (i, a) else later

module _ {D F : Type 0} (d : Double D) (l : FstLibrary D F) where
  -- One more count, on a weight.
  abbrev pub counted : D → D
  counted w = d.to_float (d.neg_log_sum w (d.of_ℕ 0))

  abbrev pub with_fst : Ppm D F → F → Ppm D F
  with_fst p f = record p { fst = f }

  -- `IncrementBackoffArcReturnBackoffState`: the back-off state and the transducer.
  unfoldable pub count_backoff_arc : F → ℕ → List (Arc D) → Bool → Program (Unit {0}) (Option ℕ × F)
  count_backoff_arc f s [] nothing = λ _. fault
  count_backoff_arc f s (a ∷ others) nothing =
      if a.ilabel == 0
      then pure (
        some a.nextstate,
        (if nothing then f else l.with_arcs s (record a { weight = counted a.weight } ∷ others) f),
      )
      else pure (none, f)

  unfoldable pub increment_backoff_arc : F → ℕ → Program (Unit {0}) (Option ℕ × F)
  unfolding count_backoff_arc
  increment_backoff_arc f s = no_observations d l f s >>= count_backoff_arc f s (l.arcs s f)

  -- `AddNewState`, with a back-off to the given state.
  pub add_new_state : ℕ → Program (Ppm D F) ℕ
  add_new_state backoff_dest_state p =
      let new = l.num_states p.fst in
      let added = with_fst p (l.add_state p.fst) in
      if new == length p.state_orders
      then (elim (get_elem? p.state_orders backoff_dest_state) [
        | none ↦ fault
        | some order ↦ ok new (record p {
          fst =
              l.add_arc new
                (record { ilabel = 0; weight = d.of_ℕ 0; nextstate = backoff_dest_state })
                (l.add_state p.fst);
          state_orders = p.state_orders ++ some (order_after order) ∷ [];
          cache_index = p.cache_index ++ none ∷ [];
        })
      ])
      else err internal added

  -- The arc of `UpdateHighestFoundState` counted, and moved to a new state if it needs one.
  unfoldable pub count_arc : ℕ → ℕ → Arc D → Bool → Program (Ppm D F) (Unit {0})
  unfolding add_new_state
  count_arc curr_state k a needs_new p =
      let next = if needs_new then length p.state_orders else a.nextstate in
      let counted_arc : Arc D = record a { weight = counted a.weight; nextstate = next } in
      let q =
        with_fst p (l.with_arcs curr_state (set (l.arcs curr_state p.fst) k counted_arc) p.fst) in
      if needs_new then ◌>>=◌ (add_new_state a.nextstate) (λ _. pure tt) q else ok tt q

  unfoldable pub update_highest_found_state : ℕ → ℕ → Program (Ppm D F) (Unit {0})
  unfolding count_arc
  update_highest_found_state curr_state zero p =
      ok tt (with_fst p (l.set_final curr_state (counted (l.final curr_state p.fst)) p.fst))
  update_highest_found_state curr_state (suc c) p =
      elim (arc_with (suc c) 0 (l.arcs curr_state p.fst)) [
        | none ↦ err internal p
        | some found ↦
            ◌>>=◌
              (calculated (needs_new_state p.max_order p.state_orders curr_state found.1.nextstate))
              (count_arc curr_state found.0 found.1) p
      ]

  -- The end of `UpdateNotFoundState`, given the destination of the symbol at the back-off state.
  unfoldable pub add_symbol_arc : ℕ → ℕ → ℕ → Program (Ppm D F) (Unit {0})
  unfolding add_new_state
  add_symbol_arc curr_state zero backoff_dest_state p =
      ok tt (with_fst p (l.set_final curr_state (d.of_ℕ 0) p.fst))
  add_symbol_arc curr_state (suc c) backoff_dest_state p =
      ◌>>=◌
        (calculated (needs_new_state p.max_order p.state_orders curr_state backoff_dest_state)
          >>= λ needs_new.
              if needs_new then add_new_state backoff_dest_state else pure backoff_dest_state)
        (λ dest q. ok tt (
          with_fst q (
            l.add_arc curr_state (record { ilabel = suc c; weight = d.of_ℕ 0; nextstate = dest })
              q.fst)))
        p

  module _ (u : Utf8Library) (fuel : ℕ) where
    -- `UpdateNotFoundState`, where `update` is `UpdateModel`. A state without a back-off has none to
    -- go on at: the arcs of state -1 are read out of bounds.
    unfoldable pub update_not_found_state :
        (ℕ → Program (Ppm D F) ℕ) → ℕ → Option ℕ → ℕ → Program (Ppm D F) (Unit {0})
    unfolding add_symbol_arc
    update_not_found_state update curr_state none sym_index = λ p. fault
    update_not_found_state update curr_state (some b) sym_index =
        update b >>= add_symbol_arc curr_state sym_index

    -- The counts of `UpdateModel` at the state, behind the increment of its back-off arc.
    unfoldable pub update_counts :
        (ℕ → Program (Ppm D F) ℕ) → ℕ → ℕ → ℕ → Option ℕ × F → Program (Ppm D F) (Unit {0})
    unfolding update_highest_found_state update_not_found_state
    update_counts update curr_state highest_found_state sym_index (b, f) p =
        if highest_found_state == curr_state
        then update_highest_found_state curr_state sym_index (with_fst p f)
        else update_not_found_state update curr_state b sym_index (with_fst p f)

    -- `UpdateModel`: the destination of the symbol at the state afterwards.
    unfoldable pub update_model : ℕ → ℕ → ℕ → ℕ → Program (Ppm D F) ℕ
    unfolding update_counts
    update_model zero curr_state highest_found_state sym_index p = fault
    update_model (suc n) curr_state highest_found_state sym_index p =
        ◌>>=◌
          (calculated (increment_backoff_arc p.fst curr_state)
            >>= update_counts (λ b. update_model n b highest_found_state sym_index) curr_state
                highest_found_state sym_index)
          (λ _.
            ◌>>◌ (update_cache_at_state d l (ensure_cache_at_state d l fuel) curr_state)
              (get_destination_state d l u fuel (pos curr_state) (pos sym_index)))
          p

    -- The further observations of `UpdateLMCounts`: `false` is returned as soon as one succeeds.
    unfoldable pub more_counts : ℕ → ℕ → ℕ → Program (Ppm D F) Bool
    unfolding update_model
    more_counts zero state sym_index p = ok true p
    more_counts (suc c) state sym_index p = elim (update_model fuel state state sym_index p) [
      | ok _ q ↦ ok false q
      | err _ q ↦ more_counts c state sym_index q
      | fault ↦ fault
    ]

    -- All observations of one symbol at a state; `false` is a failure.
    unfoldable pub count_symbol : ℤ → ℕ → ℕ → Program (Ppm D F) Bool
    unfolding more_counts
    count_symbol (negsuc s) sym_index count p = fault
    count_symbol (pos s) sym_index count p =
        elim (get_arc_origin_state d l u fuel (pos s) (pos sym_index) p) [
          | fault ↦ fault
          | err c q ↦ ok false q
          | ok origin q ↦ elim (update_model fuel s origin sym_index q) [
            | fault ↦ fault
            | err c r ↦ ok false r
            | ok _ r ↦ more_counts (count - 1) s sym_index r
          ]
        ]

    -- `utf8_sym > 0 ? fst_->InputSymbols()->Find(...) : utf8_sym`.
    unfoldable pub symbol_index : ℤ → F → Option ℤ
    symbol_index (negsuc c) f = some (negsuc c)
    symbol_index (pos zero) f = some (pos 0)
    symbol_index (pos (suc c)) f = elim (encode_unicode_char u (pos (suc c))) [
      | none ↦ none
      | some sym ↦ some (l.find_symbol sym f)
    ]

    -- The state that the loop of `UpdateLMCounts` goes on from, `none` after a failure.
    unfoldable pub after_counts : ℤ → ℤ → Bool → Program (Ppm D F) (Option ℤ)
    after_counts state utf8_sym false = pure none
    after_counts state utf8_sym true =
        next_state d l u fuel state utf8_sym >>= λ next. pure (some next)

    unfoldable pub update_step : ℕ → ℤ → ℤ → ℤ → Program (Ppm D F) (Option ℤ)
    unfolding count_symbol after_counts
    update_step count state utf8_sym (negsuc c) p = ok (some (pos p.start_state)) p
    update_step count state utf8_sym (pos sym_index) p =
        ◌>>=◌ (count_symbol state sym_index count) (after_counts state utf8_sym) p

    unfoldable pub update_loop : ℕ → ℤ → List ℤ → Program (Ppm D F) Bool
    unfolding symbol_index update_step
    update_loop count state [] p = ok true p
    update_loop count state (c ∷ cs) p = elim (symbol_index c p.fst) [
      | none ↦ fault
      | some i ↦ elim (update_step count state c i p) [
        | fault ↦ fault
        | err code q ↦ err code q
        | ok none q ↦ ok false q
        | ok (some next) q ↦ update_loop count next cs q
      ]
    ]

    unfoldable pub update_lm_counts : ℤ → List ℤ → ℤ → Program (Ppm D F) Bool
    unfolding update_loop
    update_lm_counts state utf8_syms (negsuc c) p = ok true p
    update_lm_counts state utf8_syms (pos count) p =
        if p.static_model || count == 0 then ok true p else update_loop count state utf8_syms p

    -- The update of `GetNegLogProbs` with a symbol of the text; a label that was found is no negative
    -- number, and neither is the state.
    pub observed : ℤ → ℤ → Program (Ppm D F) (Unit {0})
    unfolding update_model
    observed (negsuc s) i p = err internal p
    observed (pos s) (negsuc i) p = err internal p
    observed (pos s) (pos i) p =
        ◌>>=◌ (get_arc_origin_state d l u fuel (pos s) (pos i))
          (λ origin. update_model fuel s origin i >>= λ _. pure tt) p

    -- `GetNegLogProbs`, in nats or in bits.
    pub probs_loop : Bool → ℤ → List ℤ → Program (Ppm D F) (List D)
    probs_loop return_bits curr_state [] = pure []
    probs_loop return_bits curr_state (i ∷ is) = do
      prob ← get_neg_log_prob d l u fuel curr_state i
      p ← get
      if p.static_model then pure tt else observed curr_state i
      dest ← get_destination_state d l u fuel curr_state i
      rest ← probs_loop return_bits (pos dest) is
      pure ((if return_bits then d.div prob (d.log (d.of_ℕ 2)) else prob) ∷ rest)

    pub get_neg_log_probs : List ℤ → Bool → Program (Ppm D F) (List D)
    unfolding probs_loop
    get_neg_log_probs sym_indices return_bits p =
        probs_loop return_bits (pos (l.start p.fst)) sym_indices p
