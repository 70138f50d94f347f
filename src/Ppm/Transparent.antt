-- ===== src/Ppm/Transparent.antt =====
-- `EnsureCacheAtState` of mozolm/models/ppm_as_fst_model.cc on a model that does not change: what it
-- returns does not depend on the cache.
use mozolm.Base.{
  ℕ, zero, suc, ◌+◌, ◌≡◌, ◌≤◌, ◌⊎◌, inl, inr, refl, sym, ap, ◌∙◌, Bool, true, false, Option, none,
  some, List, arith, leb, ◌==◌, get_elem?,
}
use mozolm.Base.Program.{Program, ok, pure, calculated, bind_ok, calculated_ok}
use mozolm.Double.{Double}
use mozolm.Fst.{FstLibrary}
use mozolm.Ppm.{
  CacheEntry, Ppm, max_int, store_entry, lower_order_cache_updated, state_values, lower_values,
  above, update_above, update_cache_at_state, refreshed, checked_entry, ensure_cache_at_state,
}
use mozolm.Ppm.Blending.{Values, backoff}
use mozolm.Ppm.Placing.{with_cache}
use mozolm.Ppm.Storing.{IsStored, store_entry_lem}
use mozolm.Ppm.Reference.{
  reference, lower_reference, IsCalculated, reference_inv, lower_reference_inv, HasValues,
}
use mozolm.Ppm.Fresh.{IsRight, IsCalculatedAt, Ensures, found, lower_order_cache_updated_lem}

module _ {D F : Type 0} (d : Double D) (l : FstLibrary D F) where
  -- A call that changes the cache only, and keeps it right.
  abbrev Leaves : {A : Type 0} → Program (Ppm D F) A → Ppm D F → A → ℕ → Type 0
  Leaves call p r most =
      (a : ℕ) × (ci : List (Option ℕ)) × (sc : List (CacheEntry D)) × (call p
        ≡ ok r (with_cache p a ci sc))
      × IsRight d l p ci sc
      × (a ≤ most)

  -- The values of the back-off state are those that the reference has.
  lower_values_lem :
      (n m : ℕ) (p : Ppm D F) (b : Option ℕ) (w : Option (Values D))
      → ((t : ℕ) (x : Values D) → IsCalculatedAt d l p m t x → Ensures d l n m t x p)
      → IsRight d l p p.cache_index p.state_cache
      → lower_reference d l p.alpha p.beta p.fst (reference d l p.alpha p.beta p.fst m) b tt
        ≡ ok w tt
      → Leaves (lower_values d l (ensure_cache_at_state d l n) b) p w (p.cache_accessed + m)
  unfolding lower_values lower_reference
  lower_values_lem n m p none w ensures cache below =
      (p.cache_accessed, p.cache_index, p.state_cache, ground (arith, below), cache, omega arith)
  lower_values_lem n m p (some b) w ensures cache below =
      let (x, at_b, is) = lower_reference_inv d l p.alpha p.beta p.fst m b w below in
      let (e, a, ci, sc, called, same, right, most) = ensures b x at_b in
      (
        a,
        ci,
        sc,
        bind_ok (ensure_cache_at_state d l n b) (λ e. pure (some e.values)) p called
            ∙ ap (λ y. ok y (with_cache p a ci sc)) (ap some same ∙ sym is),
        right,
        most,
      )

  module _ (n m : ℕ) (p : Ppm D F) (s : ℕ) (v : Values D)
      (cache : IsRight d l p p.cache_index p.state_cache)
      (c : IsCalculated d l p.alpha p.beta p.fst m s v)
      (calculated_at : IsCalculatedAt d l p (suc m) s v)
      (counted : p.cache_accessed + suc m ≤ max_int)
      (ensures : (t : ℕ) (x : Values D) → IsCalculatedAt d l p m t x → Ensures d l n m t x p) where
    -- `UpdateCacheAtState` stores the values.
    updated :
        (a : ℕ) × (ci : List (Option ℕ)) × (sc : List (CacheEntry D)) × (update_cache_at_state d l
            (ensure_cache_at_state d l n)
            s
            p
          ≡ ok tt (with_cache p a ci sc))
        × IsStored (HasValues d l p.alpha p.beta p.fst) p (l.num_states p.fst) s v a ci sc
        × (a ≤ p.cache_accessed + suc m)
    unfolding update_cache_at_state update_above
    updated =
        let ensure = ensure_cache_at_state d l n in
        let (a, ci, sc, below, right, most) =
          lower_values_lem n m p c.lower c.lower_values ensures cache c.below in
        let p1 = with_cache p a ci sc in
        let (ci', sc', stored, is) =
          store_entry_lem (HasValues d l p.alpha p.beta p.fst) p1 (l.num_states p.fst) s v right
            c.within (omega arith) (suc m, calculated_at) in
        let within : leb (l.num_states p.fst) s ≡ false = (let h = c.within in ground arith) in
        (
          a + 1,
          ci',
          sc',
          rw within (
              bind_ok (calculated (backoff d l p.fst s)) (update_above d l ensure s) p
                (calculated_ok (backoff d l p.fst s) p c.backed_off)
              ∙ bind_ok (lower_values d l ensure c.lower) (above d l s) p below
              ∙ bind_ok (calculated (state_values d l p.alpha p.beta p.fst s c.lower_values))
                  (store_entry s) p1
                  (calculated_ok (state_values d l p.alpha p.beta p.fst s c.lower_values) p1
                    c.above)
              ∙ stored),
          record {
            cache = is.cache;
            place = is.place;
            entry = is.entry;
            at_s = is.at_s;
            at_place = is.at_place;
            for_s = is.for_s;
            values = is.values;
          },
          omega arith,
        )

    refreshed_lem :
        lower_order_cache_updated d l n s p tt ≡ ok true tt → Ensures d l (suc n) (suc m) s v p
    unfolding ensure_cache_at_state refreshed checked_entry
    refreshed_lem stale =
        let (a, ci, sc, called, is, most) = updated in
        let q = with_cache p a ci sc in
        let same : (is.entry.state == s) ≡ true = (let h = is.for_s in ground arith) in
        (
          is.entry,
          a,
          ci,
          sc,
          bind_ok (calculated (lower_order_cache_updated d l n s p))
                (refreshed d l (ensure_cache_at_state d l n) s) p
                (calculated_ok (lower_order_cache_updated d l n s p) p stale)
              ∙ bind_ok (update_cache_at_state d l (ensure_cache_at_state d l n) s)
                  (λ _. checked_entry false s) p called
              ∙ rw (checked_entry, is.at_s, is.at_place, same) refl,
          is.values,
          is.cache,
          most,
        )

  -- `EnsureCacheAtState` on a model whose cache is right, where the values at the state can be
  -- calculated over `m` back-offs without a cache: with fuel for as many it returns an entry with just
  -- these values, whatever the cache holds, has evicted or counts as outdated. The cache stays right,
  -- nothing else changes, and there are at most `m` more accesses; their count may not pass the largest
  -- `int`.
  pub ensure_cache_at_state_lem :
      (n m s : ℕ) (v : Values D) (p : Ppm D F)
      → IsRight d l p p.cache_index p.state_cache
      → IsCalculatedAt d l p m s v
      → m ≤ n
      → p.cache_accessed + m ≤ max_int
      → Ensures d l n m s v p
  unfolding reference
  ensure_cache_at_state_lem n zero s v p cache e h counted = absurd (cc)
  ensure_cache_at_state_lem zero (suc m) s v p cache e h counted = absurd (omega arith)
  ensure_cache_at_state_lem (suc n) (suc m) s v p cache e h counted =
      let (r, checked, side) = lower_order_cache_updated_lem d l p cache n m s v e (omega arith) in
      by_check r checked side (reference_inv d l p.alpha p.beta p.fst m s v e)
        (λ t x at_t. ensure_cache_at_state_lem n m t x p cache at_t (omega arith) (omega arith))
    where
      by_check :
          (r : Bool)
          → lower_order_cache_updated d l n s p tt ≡ ok r tt
          → (r ≡ true) ⊎ ((k : ℕ) × (get_elem? p.cache_index s ≡ some (some k)))
          → IsCalculated d l p.alpha p.beta p.fst m s v
          → ((t : ℕ) (x : Values D) → IsCalculatedAt d l p m t x → Ensures d l n m t x p)
          → Ensures d l (suc n) (suc m) s v p
      by_check true checked side c ensures =
          refreshed_lem n m p s v cache c e counted ensures checked
      by_check false checked (inl impossible) c ensures = absurd (cc)
      by_check false checked (inr (k, at_s)) c ensures =
          found d l p s v cache (omega arith) n m (suc m, e) checked k at_s
