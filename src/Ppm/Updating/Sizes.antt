-- ===== src/Ppm/Updating/Sizes.antt =====
-- What an update of the counts in mozolm/models/ppm_as_fst_model.cc keeps, however it ends.
use mozolm.Base.{
  ℕ, zero, suc, ◌-◌, ◌≡◌, sym, ap, ◌∙◌, Bool, true, false, Option, none, some, List, [], ◌∷◌, ◌==◌,
  ◌||◌,
}
use mozolm.Base.Int.{ℤ, pos, negsuc}
use mozolm.Base.Program.{Program, ok, or_fault, ◌>>=◌, ◌>>◌, calculated, pure}
use mozolm.Base.Keeps.{
  Keeps, bind-Keeps, if-Keeps, elim-Keeps, outcome-Keeps, calculated-Keeps, calculated_inv,
  or_fault-Keeps,
}
use mozolm.Double.{Double}
use mozolm.Fst.{FstLibrary, IsFst}
use mozolm.Utf8.{Utf8Library, encode_unicode_char}
use mozolm.Ppm.{Ppm, ensure_cache_at_state, update_cache_at_state}
use mozolm.Ppm.Blending.{Values}
use mozolm.Ppm.Scores.{
  cached_at, state_index, get_arc_origin_state, get_destination_state, unigram_state, no_context,
  destination_or_no_context, next_by_symbol, next_state,
}
use mozolm.Ppm.Sized.{IsSized, ensure_cache_at_state-IsSized, update_cache_at_state-IsSized}
use mozolm.Ppm.Updating.{
  with_fst, increment_backoff_arc, add_symbol_arc, update_not_found_state, update_counts,
  update_model, more_counts, count_symbol, symbol_index, after_counts, update_step, update_loop,
  update_lm_counts,
}
use mozolm.Ppm.Updating.Orders.{
  with_fst-IsSized, update_highest_found_state-IsSized, add_symbol_arc-IsSized,
  increment_backoff_arc_lem,
}

module _ {D F : Type 0} (d : Double D) (l : FstLibrary D F) (u : Utf8Library) (fuel max cap : ℕ)
    (laws : IsFst l) where
  abbrev Sized : Ppm D F → Type 0
  Sized = IsSized l max cap

  -- A value read from the entry that `EnsureCacheAtState` returns.
  read-IsSized :
      {A : Type 0} (read : Values D → Program (Unit {0}) A) (s : ℤ) (p : Ppm D F)
      → Sized p
      → Keeps Sized (
          (or_fault (state_index s) >>= λ i.
          ensure_cache_at_state d l fuel i >>= λ e. calculated (read e.values))
            p)
  read-IsSized read (negsuc s) p z = tt
  read-IsSized read (pos s) p z =
      bind-Keeps Sized (ensure_cache_at_state d l fuel s) (λ e. calculated (read e.values)) p
        (ensure_cache_at_state-IsSized l max cap d fuel s p z)
        (λ e q _ z. calculated-Keeps Sized (read e.values) q z)

  get_arc_origin_state-IsSized :
      (s i : ℤ) (p : Ppm D F) → Sized p → Keeps Sized (get_arc_origin_state d l u fuel s i p)
  unfolding get_arc_origin_state
  get_arc_origin_state-IsSized s i p z = read-IsSized (λ v. cached_at v.arc_origin_states i) s p z

  get_destination_state-IsSized :
      (s i : ℤ) (p : Ppm D F) → Sized p → Keeps Sized (get_destination_state d l u fuel s i p)
  unfolding get_destination_state
  get_destination_state-IsSized s i p z = read-IsSized (λ v. cached_at v.destination_states i) s p z

  module _ (update : ℕ → Program (Ppm D F) ℕ)
      (update-IsSized : (t : ℕ) (p : Ppm D F) → Sized p → Keeps Sized (update t p)) where
    update_not_found_state-IsSized :
        (s i : ℕ) (b : Option ℕ) (p : Ppm D F)
        → Sized p
        → Keeps Sized (update_not_found_state d l u fuel update s b i p)
    unfolding update_not_found_state
    update_not_found_state-IsSized s i none p z = tt
    update_not_found_state-IsSized s i (some b) p z =
        bind-Keeps Sized (update b) (add_symbol_arc d l s i) p (update-IsSized b p z)
          (λ t q _ z. add_symbol_arc-IsSized d l max cap laws s i t q z)

    update_counts-IsSized :
        (s highest i : ℕ) (b : Option ℕ) (f : F) (p : Ppm D F)
        → l.num_states f ≡ l.num_states p.fst
        → Sized p
        → Keeps Sized (update_counts d l u fuel update s highest i (b, f) p)
    unfolding update_counts
    update_counts-IsSized s highest i b f p same z =
        let changed = with_fst-IsSized d l max cap laws p f same z in
        if-Keeps Sized (highest == s) _ _
          (λ _. update_highest_found_state-IsSized d l max cap laws s i (with_fst d l p f) changed)
          (λ _. update_not_found_state-IsSized s i b (with_fst d l p f) changed)

  update_model-IsSized :
      (n s highest i : ℕ) (p : Ppm D F)
      → Sized p
      → Keeps Sized (update_model d l u fuel n s highest i p)
  unfolding update_model
  update_model-IsSized zero s highest i p z = tt
  update_model-IsSized (suc n) s highest i p z =
      let update : ℕ → Program (Ppm D F) ℕ = λ b. update_model d l u fuel n b highest i in
      bind-Keeps Sized
        (calculated (increment_backoff_arc d l p.fst s)
          >>= update_counts d l u fuel update s highest i)
        (λ _.
          update_cache_at_state d l (ensure_cache_at_state d l fuel) s
          >> get_destination_state d l u fuel (pos s) (pos i))
        p
        (bind-Keeps Sized (calculated (increment_backoff_arc d l p.fst s))
          (update_counts d l u fuel update s highest i) p
          (calculated-Keeps Sized (increment_backoff_arc d l p.fst s) p z)
          (λ (b, f) q e z.
            let (called, same) = calculated_inv (increment_backoff_arc d l p.fst s) p e in
            update_counts-IsSized update (λ t r z. update_model-IsSized n t highest i r z) s highest
              i b f q
              (increment_backoff_arc_lem d l max cap laws p.fst f s b called
                ∙ ap (λ (r : Ppm D F). l.num_states r.fst) (sym same))
              z))
        (λ _ q _ z.
          bind-Keeps Sized (update_cache_at_state d l (ensure_cache_at_state d l fuel) s)
            (λ _. get_destination_state d l u fuel (pos s) (pos i)) q
            (update_cache_at_state-IsSized l max cap d (ensure_cache_at_state d l fuel)
              (ensure_cache_at_state-IsSized l max cap d fuel) s q z)
            (λ _ r _ z. get_destination_state-IsSized (pos s) (pos i) r z))

  more_counts-IsSized :
      (c s i : ℕ) (p : Ppm D F) → Sized p → Keeps Sized (more_counts d l u fuel c s i p)
  unfolding more_counts
  more_counts-IsSized zero s i p z = z
  more_counts-IsSized (suc c) s i p z =
      outcome-Keeps Sized (update_model d l u fuel fuel s s i p) _ _
        (update_model-IsSized fuel s s i p z) (λ _ q z. z) (λ _ q z. more_counts-IsSized c s i q z)

  count_symbol-IsSized :
      (s : ℤ) (i c : ℕ) (p : Ppm D F) → Sized p → Keeps Sized (count_symbol d l u fuel s i c p)
  unfolding count_symbol
  count_symbol-IsSized (negsuc s) i c p z = tt
  count_symbol-IsSized (pos s) i c p z =
      outcome-Keeps Sized (get_arc_origin_state d l u fuel (pos s) (pos i) p) _ _
        (get_arc_origin_state-IsSized (pos s) (pos i) p z)
        (λ origin q z.
          outcome-Keeps Sized (update_model d l u fuel fuel s origin i q) _ _
            (update_model-IsSized fuel s origin i q z)
            (λ _ r z. more_counts-IsSized (c - 1) s i r z) (λ _ r z. z))
        (λ _ q z. z)

  no_context-IsSized : (p : Ppm D F) → Sized p → Keeps Sized (no_context d l u fuel p)
  unfolding no_context
  no_context-IsSized p z = calculated-Keeps Sized (unigram_state d l u fuel p.fst) p z

  next_by_symbol-IsSized :
      (s i : ℤ) (p : Ppm D F) → Sized p → Keeps Sized (next_by_symbol d l u fuel s i p)
  unfolding next_by_symbol destination_or_no_context
  next_by_symbol-IsSized s (negsuc i) p z = no_context-IsSized p z
  next_by_symbol-IsSized s (pos zero) p z = no_context-IsSized p z
  next_by_symbol-IsSized s (pos (suc i)) p z =
      outcome-Keeps Sized (get_destination_state d l u fuel s (pos (suc i)) p) _ _
        (get_destination_state-IsSized s (pos (suc i)) p z) (λ _ q z. z)
        (λ _ q z. no_context-IsSized q z)

  pub next_state-IsSized :
      (s c : ℤ) (p : Ppm D F) → Sized p → Keeps Sized (next_state d l u fuel s c p)
  unfolding next_state
  next_state-IsSized s c p z =
      bind-Keeps Sized (or_fault (encode_unicode_char u c))
        (λ sym. next_by_symbol d l u fuel s (l.find_symbol sym p.fst)) p
        (or_fault-Keeps Sized (encode_unicode_char u c) p z)
        (λ sym q _ z. next_by_symbol-IsSized s (l.find_symbol sym p.fst) q z)

  after_counts-IsSized :
      (s c : ℤ) (done : Bool) (p : Ppm D F)
      → Sized p
      → Keeps Sized (after_counts d l u fuel s c done p)
  unfolding after_counts
  after_counts-IsSized s c false p z = z
  after_counts-IsSized s c true p z =
      bind-Keeps Sized (next_state d l u fuel s c) (λ next. pure (some next)) p
        (next_state-IsSized s c p z) (λ _ q _ z. z)

  update_step-IsSized :
      (n : ℕ) (s c i : ℤ) (p : Ppm D F) → Sized p → Keeps Sized (update_step d l u fuel n s c i p)
  unfolding update_step
  update_step-IsSized n s c (negsuc i) p z = z
  update_step-IsSized n s c (pos i) p z =
      bind-Keeps Sized (count_symbol d l u fuel s i n) (after_counts d l u fuel s c) p
        (count_symbol-IsSized s i n p z) (λ done q _ z. after_counts-IsSized s c done q z)

  update_loop-IsSized :
      (n : ℕ) (s : ℤ) (cs : List ℤ) (p : Ppm D F)
      → Sized p
      → Keeps Sized (update_loop d l u fuel n s cs p)
  unfolding update_loop
  update_loop-IsSized n s [] p z = z
  update_loop-IsSized n s (c ∷ cs) p z =
      elim-Keeps Sized (symbol_index d l u fuel c p.fst) _ _ tt (λ i _.
        outcome-Keeps Sized (update_step d l u fuel n s c i p) _ _ (update_step-IsSized n s c i p z)
          (λ next q z. continue (λ t r z. update_loop-IsSized n t cs r z) next q z) (λ _ q z. z))
    where
      continue :
          ((t : ℤ) (r : Ppm D F) → Sized r → Keeps Sized (update_loop d l u fuel n t cs r))
          → (next : Option ℤ) (q : Ppm D F) → Sized q
          → Keeps Sized (
              (elim next as (λ _. Program (Ppm D F) Bool) [
                | none ↦ λ r. ok false r
                | some t ↦ λ r. update_loop d l u fuel n t cs r
              ])
                q)
      continue rest none q z = z
      continue rest (some t) q z = rest t q z

  -- `UpdateLMCounts`, with a model that has an order and an index of the cache for each state, every order
  -- below the bound, and a cache within its size, leaves such a model behind, whether it returns or
  -- fails. Only `AddState` may change the number of states of a transducer.
  pub update_lm_counts-IsSized :
      (s : ℤ) (cs : List ℤ) (n : ℤ) (p : Ppm D F)
      → IsSized l max cap p
      → Keeps (IsSized l max cap) (update_lm_counts d l u fuel s cs n p)
  unfolding update_lm_counts
  update_lm_counts-IsSized s cs (negsuc n) p z = z
  update_lm_counts-IsSized s cs (pos n) p z =
      if-Keeps Sized (p.static_model || n == 0) _ _ (λ _. z) (λ _. update_loop-IsSized n s cs p z)
