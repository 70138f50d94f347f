-- ===== src/Ppm/Sized.antt =====
-- The sizes and orders of a PPM model, which the calls of mozolm/models/ppm_as_fst_model.cc that use the
-- cache keep.
use mozolm.Base.{
  ℕ, zero, suc, ◌+◌, ◌≡◌, ◌≤◌, ◌<◌, refl, ◌∙◌, Bool, true, false, Option, none, some, List, [], ◌∷◌,
  ◌++◌, arith, ltb, leb, ◌==◌, length, get_elem?, set, length-set, length-append,
}
use mozolm.Base.Int.{pos}
use mozolm.Base.Program.{Program, ◌>>=◌, calculated, pure}
use mozolm.Base.Keeps.{Keeps, bind-Keeps, if-Keeps, elim-Keeps, calculated-Keeps}
use mozolm.Double.{Double}
use mozolm.Fst.{FstLibrary}
use mozolm.Ppm.{
  CacheEntry, Ppm, new_entry, updated_entry, same_index, max_int, next_access, replace_entry,
  find_oldest_last_accessed_cache, get_new_cache_index, write_entry, ensure_index, store_entry,
  touch, touched, checked_entry, state_values, lower_values, above, update_above,
  update_cache_at_state, refreshed, lower_order_cache_updated, ensure_cache_at_state,
}
use mozolm.Ppm.Blending.{Values, backoff}
use mozolm.Ppm.Placing.{with_cache}

module _ {D F : Type 0} (l : FstLibrary D F) (max cap : ℕ) where
  -- An order and an index of the cache for each state, with each order below the bound `max`, and no more
  -- than `cap` entries in the cache.
  pub record IsSized (p : Ppm D F) : Type 0 where
    pub max_order : p.max_order ≡ max
    pub max_cache : p.max_cache_size ≡ cap
    pub orders : length p.state_orders ≡ l.num_states p.fst
    pub indices : length p.cache_index ≡ l.num_states p.fst
    pub below : (s o : ℕ) → get_elem? p.state_orders s ≡ some (some o) → o < max
    pub fits : length p.state_cache ≤ cap

  cached :
      (p : Ppm D F) (a : ℕ) (ci : List (Option ℕ)) (sc : List (CacheEntry D))
      → IsSized p
      → length ci ≡ length p.cache_index
      → length sc ≤ cap
      → IsSized (with_cache p a ci sc)
  cached p a ci sc z same fits = record {
    max_order = z.max_order;
    max_cache = z.max_cache;
    orders = z.orders;
    indices = same ∙ z.indices;
    below = z.below;
    fits = fits;
  }

  next_access-IsSized : (p : Ppm D F) → IsSized p → Keeps IsSized (next_access p)
  unfolding next_access
  next_access-IsSized p z =
      if-Keeps IsSized (ltb p.cache_accessed max_int) _ _
        (λ _. cached p (p.cache_accessed + 1) p.cache_index p.state_cache z refl z.fits) (λ _. tt)

  write_entry-IsSized :
      (s : ℕ) (v : Values D) (a : ℕ) (p : Ppm D F) → IsSized p → Keeps IsSized (write_entry s v a p)
  unfolding write_entry
  write_entry-IsSized s v a p z = elim-Keeps IsSized (get_elem? p.cache_index s) _ _ tt (λ o _.
      elim-Keeps IsSized o _ _ tt (λ k _.
        elim-Keeps IsSized (get_elem? p.state_cache k) _ _ tt (λ e _.
          cached p p.cache_accessed p.cache_index (set p.state_cache k (updated_entry e v a)) z refl
            (omega (arith, z.fits, length-set p.state_cache k (updated_entry e v a))))))

  replace_entry-IsSized :
      (v : Values D) (s k : ℕ) (old : CacheEntry D) (p : Ppm D F)
      → IsSized p
      → Keeps IsSized (replace_entry v s k old p)
  unfolding replace_entry
  replace_entry-IsSized v s k old p z =
      elim-Keeps IsSized (get_elem? p.cache_index old.state) _ _ tt (λ o _.
        if-Keeps IsSized (same_index o k) _ _
          (λ _.
            cached p p.cache_accessed (set (set p.cache_index old.state none) s (some k))
              (set p.state_cache k (new_entry v s)) z
              (length-set (set p.cache_index old.state none) s (some k)
                ∙ length-set p.cache_index old.state none)
              (omega (arith, z.fits, length-set p.state_cache k (new_entry v s))))
          (λ _. z))

  get_new_cache_index-IsSized :
      (v : Values D) (s : ℕ) (p : Ppm D F) → IsSized p → Keeps IsSized (get_new_cache_index v s p)
  unfolding get_new_cache_index
  get_new_cache_index-IsSized v s p z =
      if-Keeps IsSized (ltb (length p.state_cache) p.max_cache_size) _ _
        (λ less.
          cached p p.cache_accessed (set p.cache_index s (some (length p.state_cache)))
            (p.state_cache ++ new_entry v s ∷ []) z
            (length-set p.cache_index s (some (length p.state_cache)))
            (ground (arith, less, z.max_cache, length-append p.state_cache (new_entry v s ∷ []))))
        (λ _. elim-Keeps IsSized (find_oldest_last_accessed_cache p.state_cache) _ _ tt (λ k _.
          elim-Keeps IsSized (get_elem? p.state_cache k) _ _ tt
            (λ old _. replace_entry-IsSized v s k old p z)))

  ensure_index-IsSized :
      (v : Values D) (s : ℕ) (p : Ppm D F) → IsSized p → Keeps IsSized (ensure_index v s p)
  unfolding ensure_index
  ensure_index-IsSized v s p z =
      elim-Keeps IsSized (get_elem? p.cache_index s) _ _ tt
        (λ o _. elim-Keeps IsSized o _ _ (get_new_cache_index-IsSized v s p z) (λ k _. z))

  store_entry-IsSized :
      (s : ℕ) (v : Values D) (p : Ppm D F) → IsSized p → Keeps IsSized (store_entry s v p)
  unfolding store_entry
  store_entry-IsSized s v p z =
      bind-Keeps IsSized (ensure_index v s) (λ _. next_access >>= write_entry s v) p
        (ensure_index-IsSized v s p z)
        (λ _ q _ z.
          bind-Keeps IsSized next_access (write_entry s v) q (next_access-IsSized q z)
            (λ a r _ z. write_entry-IsSized s v a r z))

  touched-IsSized :
      (k : ℕ) (e : CacheEntry D) (p : Ppm D F) → IsSized p → Keeps IsSized (touched k e p)
  unfolding touched
  touched-IsSized k e p z =
      bind-Keeps IsSized next_access (touch k e) p (next_access-IsSized p z) (λ a q _ z.
        let t : CacheEntry D = record e { last_accessed = pos a } in
        cached q q.cache_accessed q.cache_index (set q.state_cache k t) z refl
          (omega (arith, z.fits, length-set q.state_cache k t)))

  checked_entry-IsSized :
      (b : Bool) (s : ℕ) (p : Ppm D F) → IsSized p → Keeps IsSized (checked_entry b s p)
  unfolding checked_entry
  checked_entry-IsSized b s p z = elim-Keeps IsSized (get_elem? p.cache_index s) _ _ tt (λ o _.
      elim-Keeps IsSized o _ _ z (λ k _.
        elim-Keeps IsSized (get_elem? p.state_cache k) _ _ z (λ e _.
          if-Keeps IsSized (e.state == s) _ _
            (λ _. if-Keeps IsSized b _ _ (λ _. touched-IsSized k e p z) (λ _. z)) (λ _. z))))

  module _ (d : Double D) where
    module _ (ensure : ℕ → Program (Ppm D F) (CacheEntry D))
        (ensure-IsSized : (t : ℕ) (p : Ppm D F) → IsSized p → Keeps IsSized (ensure t p)) where
      lower_values-IsSized :
          (b : Option ℕ) (p : Ppm D F) → IsSized p → Keeps IsSized (lower_values d l ensure b p)
      unfolding lower_values
      lower_values-IsSized none p z = z
      lower_values-IsSized (some b) p z =
          bind-Keeps IsSized (ensure b) (λ e. pure (some e.values)) p (ensure-IsSized b p z)
            (λ e q _ z. z)

      pub update_cache_at_state-IsSized :
          (s : ℕ) (p : Ppm D F) → IsSized p → Keeps IsSized (update_cache_at_state d l ensure s p)
      unfolding update_cache_at_state update_above
      update_cache_at_state-IsSized s p z =
          if-Keeps IsSized (leb (l.num_states p.fst) s) _ _ (λ _. z)
            (λ _.
              bind-Keeps IsSized (calculated (backoff d l p.fst s)) (update_above d l ensure s) p
                (calculated-Keeps IsSized (backoff d l p.fst s) p z)
                (λ b q _ z.
                  bind-Keeps IsSized (lower_values d l ensure b) (above d l s) q
                    (lower_values-IsSized b q z)
                    (λ w r _ z.
                      bind-Keeps IsSized (calculated (state_values d l r.alpha r.beta r.fst s w))
                        (store_entry s) r
                        (calculated-Keeps IsSized (state_values d l r.alpha r.beta r.fst s w) r z)
                        (λ v t _ z. store_entry-IsSized s v t z))))

      refreshed-IsSized :
          (s : ℕ) (b : Bool) (p : Ppm D F) → IsSized p → Keeps IsSized (refreshed d l ensure s b p)
      unfolding refreshed
      refreshed-IsSized s false p z = checked_entry-IsSized true s p z
      refreshed-IsSized s true p z =
          bind-Keeps IsSized (update_cache_at_state d l ensure s) (λ _. checked_entry false s) p
            (update_cache_at_state-IsSized s p z) (λ _ q _ z. checked_entry-IsSized false s q z)

    pub ensure_cache_at_state-IsSized :
        (n s : ℕ) (p : Ppm D F) → IsSized p → Keeps IsSized (ensure_cache_at_state d l n s p)
    unfolding ensure_cache_at_state
    ensure_cache_at_state-IsSized zero s p z = tt
    ensure_cache_at_state-IsSized (suc n) s p z =
        bind-Keeps IsSized (calculated (lower_order_cache_updated d l n s p))
          (refreshed d l (ensure_cache_at_state d l n) s) p
          (calculated-Keeps IsSized (lower_order_cache_updated d l n s p) p z)
          (λ b q _ z.
            refreshed-IsSized (ensure_cache_at_state d l n) (ensure_cache_at_state-IsSized n) s b q
              z)
